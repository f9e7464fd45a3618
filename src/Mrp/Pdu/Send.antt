-- ===== src/Mrp/Pdu/Send.antt =====
-- The MSRP messages that mrp.c sends (sections 6b and 6c), one attribute value each, and the octets
-- that they put on the wire outside AVB Lite (`mrp_send_attr`).
use esp_avb.Prelude.{
  ℕ, ◌+◌, ◌*◌, ◌/◌, ◌%◌, ◌^◌, Bool, false, List, [], ◌∷◌, ◌++◌, Option, none, some, if◌then◌else◌,
}
use esp_avb.Mrp.{SmState}
use esp_avb.Mrp.Packed.{int_to_3pe, resolve_3pe}
use esp_avb.Mrp.Attributes.{
  TalkerType, talker_advertise, talker_failed, ListenerEvent, ignore, asking_failed, ready,
  ready_failed,
}
use esp_avb.Mrp.Pdu.{type_advertise, type_failed, type_listener, type_domain}

-- The octets of an attribute: `attr_type`, `attr_len`, `attr_list_len`, the VectorHeader of one
-- value, the FirstValue and the events
pub record Attribute : Type 0 where
  pub attr_type : ℕ
  pub attr_len : ℕ
  pub attr_list_len : ℕ
  pub leaveall : Bool
  pub first_value : List ℕ
  pub events : List ℕ

-- The octets of the message structure that `mrp_send_attr` copies; the header's second part has
-- the LeaveAll in its upper three bits.
unfoldable pub attribute_octets : Attribute → List ℕ
attribute_octets a =
    a.attr_type
    ∷ a.attr_len
    ∷ (a.attr_list_len / 256 % 256)
    ∷ (a.attr_list_len % 256)
    ∷ (if a.leaveall then 2 ^ 5 else 0)
    ∷ 1
    ∷ (a.first_value ++ a.events)

-- The octets after the ProtocolVersion in `mrp_send_attr`: both EndMarks come from the zeroed
-- buffer.
unfoldable pub sent_octets : Attribute → List ℕ
unfolding attribute_octets
sent_octets a = attribute_octets a ++ 0 ∷ 0 ∷ 0 ∷ 0 ∷ []

-- `msg_len` there
unfoldable pub msg_len : Attribute → ℕ
msg_len a = 5 + a.attr_list_len + 2

unfoldable pub talker_code : TalkerType → ℕ
talker_code talker_advertise = type_advertise
talker_code talker_failed = type_failed

-- The octets of the FirstValue: `talker_adv_info_s`, and for a failure its bridge and code
unfoldable pub talker_len : TalkerType → ℕ
talker_len talker_advertise = 25
talker_len talker_failed = 34

-- `mrp_tx_flush_talker` with the FirstValue of its entry: `none` sends nothing.
unfoldable pub talker_attribute : TalkerType → List ℕ → Bool → ℕ → Attribute
unfolding int_to_3pe talker_code
talker_attribute talker_advertise info leaveall pe = record {
  attr_type = type_advertise;
  attr_len = 25;
  attr_list_len = 30;
  leaveall = leaveall;
  first_value = info;
  events = int_to_3pe pe 0 0 ∷ [];
}
talker_attribute talker_failed info leaveall pe = record {
  attr_type = type_failed;
  attr_len = 34;
  attr_list_len = 39;
  leaveall = leaveall;
  first_value = info;
  events = int_to_3pe pe 0 0 ∷ [];
}

unfoldable pub tx_flush_talker : TalkerType → List ℕ → Bool → SmState → Option Attribute
unfolding talker_attribute resolve_3pe
tx_flush_talker ty info leaveall sm = elim (resolve_3pe sm.pending_tx sm.registrar) [
  | none ↦ none
  | some pe ↦ some (talker_attribute ty info leaveall pe)
]

-- `mrp_tx_talker_value_leave`: 5 is `mrp_attr_event_lv`.
unfoldable pub tx_talker_value_leave : TalkerType → List ℕ → Attribute
unfolding talker_attribute
tx_talker_value_leave ty info = talker_attribute ty info false 5

-- `msrp_listener_event_t` as a number
unfoldable pub decl_code : ListenerEvent → ℕ
decl_code ignore = 0
decl_code asking_failed = 1
decl_code ready = 2
decl_code ready_failed = 3

-- `mrp_tx_flush_listener`: the declaration is the first of the four packed in its octet.
unfoldable pub listener_attribute : List ℕ → ListenerEvent → Bool → ℕ → Attribute
unfolding int_to_3pe decl_code
listener_attribute stream_id decl leaveall pe = record {
  attr_type = type_listener;
  attr_len = 8;
  attr_list_len = 14;
  leaveall = leaveall;
  first_value = stream_id;
  events = int_to_3pe pe 0 0 ∷ (decl_code decl * 64) ∷ [];
}

unfoldable pub tx_flush_listener : List ℕ → ListenerEvent → Bool → SmState → Option Attribute
unfolding listener_attribute resolve_3pe
tx_flush_listener stream_id decl leaveall sm = elim (resolve_3pe sm.pending_tx sm.registrar) [
  | none ↦ none
  | some pe ↦ some (listener_attribute stream_id decl leaveall pe)
]

-- `mrp_tx_flush_domain`
unfoldable pub domain_attribute : List ℕ → Bool → ℕ → Attribute
unfolding int_to_3pe
domain_attribute first_value leaveall pe = record {
  attr_type = type_domain;
  attr_len = 4;
  attr_list_len = 9;
  leaveall = leaveall;
  first_value = first_value;
  events = int_to_3pe pe 0 0 ∷ [];
}

unfoldable pub tx_flush_domain : List ℕ → Bool → SmState → Option Attribute
unfolding domain_attribute resolve_3pe
tx_flush_domain first_value leaveall sm = elim (resolve_3pe sm.pending_tx sm.registrar) [
  | none ↦ none
  | some pe ↦ some (domain_attribute first_value leaveall pe)
]
