-- ===== src/Mrp/Attributes.antt =====
-- The MSRP attribute tables of one port in mrp.c (section 6): talkers, listeners and domains, with
-- their find and insert operations and the queries on them. A stream ID is the number that its
-- eight octets spell, and so are the other fields of a wire message. Its header, its events and the
-- four reserved bits of a talker value are left out.
pub mod Slots
pub mod Leave
pub mod Merge
mod Tests
use esp_avb.Prelude.{
  ℕ, zero, suc, ◌+◌, ◌*◌, ◌≡◌, Bool, true, false, not, ◌&&◌, ◌||◌, List, [], ◌∷◌, Option, none,
  some, if◌then◌else◌, ◌==◌, ltb, leb, get_elem?, set, map,
}
use esp_avb.Mrp.{
  ApplicantState, applicant_vo, RegistrarState, registrar_in, registrar_lv, registrar_mt, Event,
  event_r_la, event_periodic, SmState, applicant_step, sm_step, registrar_step, sm_reset,
}
use esp_avb.Mrp.Lite.{sm_idle}
use esp_avb.Mrp.Table.{find_index, find_or_insert}

-- The two values of `msrp_attr_type_t` that tell talker attributes apart
pub data TalkerType : Type 0 where
  talker_advertise talker_failed : TalkerType

unfoldable pub same_type : TalkerType → TalkerType → Bool
same_type talker_advertise talker_advertise = true
same_type talker_failed talker_failed = true
same_type _ _ = false

-- `msrp_talker_entry_t`
pub record TalkerEntry : Type 0 where
  pub valid : Bool
  pub attr_type : TalkerType
  pub stream_id : ℕ
  pub dest_addr : ℕ
  pub vlan_id : ℕ
  pub max_frame_size : ℕ
  pub max_interval_frames : ℕ
  pub priority : ℕ
  pub rank : ℕ
  pub accumulated_latency : ℕ
  pub failure_bridge_id : ℕ
  pub failure_code : ℕ
  pub sm : SmState
  pub src_mac : ℕ
  pub redeclare_after_us : ℕ
  pub holdoff_leaveall_base : ℕ
  pub withdrawn_us : ℕ
  pub declare_held : Bool
  pub last_refresh_us : ℕ
  pub lite_next_tx_us : ℕ
  pub locally_originated : Bool
  pub failure_logged : Bool
  pub logged_failure_code : ℕ

-- `msrp_listener_event_t`
pub data ListenerEvent : Type 0 where
  ignore asking_failed ready ready_failed : ListenerEvent

-- `msrp_listener_entry_t`
pub record ListenerEntry : Type 0 where
  pub valid : Bool
  pub stream_id : ℕ
  pub decl_event : ListenerEvent
  pub peer_decl : ListenerEvent
  pub peer_mac : ℕ
  pub sm : SmState
  pub last_refresh_us : ℕ
  pub lite_next_tx_us : ℕ

-- `msrp_domain_entry_t`
pub record DomainEntry : Type 0 where
  pub valid : Bool
  pub sr_class_id : ℕ
  pub sr_class_priority : ℕ
  pub sr_class_vid : ℕ
  pub sm : SmState

-- A slot after `memset` and the assignments of an insertion
unfoldable pub fresh_talker : ℕ → TalkerType → TalkerEntry
unfolding sm_reset
fresh_talker id ty = record {
  valid = true;
  attr_type = ty;
  stream_id = id;
  dest_addr = 0;
  vlan_id = 0;
  max_frame_size = 0;
  max_interval_frames = 0;
  priority = 0;
  rank = 0;
  accumulated_latency = 0;
  failure_bridge_id = 0;
  failure_code = 0;
  sm = sm_reset;
  src_mac = 0;
  redeclare_after_us = 0;
  holdoff_leaveall_base = 0;
  withdrawn_us = 0;
  declare_held = false;
  last_refresh_us = 0;
  lite_next_tx_us = 0;
  locally_originated = false;
  failure_logged = false;
  logged_failure_code = 0;
}

unfoldable pub fresh_listener : ℕ → ListenerEntry
unfolding sm_reset
fresh_listener id = record {
  valid = true;
  stream_id = id;
  decl_event = ignore;
  peer_decl = ignore;
  peer_mac = 0;
  sm = sm_reset;
  last_refresh_us = 0;
  lite_next_tx_us = 0;
}

unfoldable pub fresh_domain : ℕ → DomainEntry
unfolding sm_reset
fresh_domain class_id = record {
  valid = true;
  sr_class_id = class_id;
  sr_class_priority = 0;
  sr_class_vid = 0;
  sm = sm_reset;
}

-- The test of `msrp_talker_find`
unfoldable pub is_talker : ℕ → TalkerType → TalkerEntry → Bool
unfolding same_type
is_talker id ty e = e.valid && same_type e.attr_type ty && e.stream_id == id

-- `msrp_talker_find`, by the index of the entry
unfoldable pub talker_find : List TalkerEntry → ℕ → TalkerType → Option ℕ
unfolding is_talker find_index
talker_find es id ty = find_index (is_talker id ty) es

unfoldable pub talker_unused : TalkerEntry → Bool
talker_unused e = not e.valid

-- A slot that holds no state and no declaration held off
unfoldable pub talker_idle : TalkerEntry → Bool
unfolding sm_idle
talker_idle e = sm_idle e.sm && e.redeclare_after_us == 0

-- `msrp_talker_find_or_insert`
unfoldable pub talker_find_or_insert :
    List TalkerEntry → ℕ → TalkerType → List TalkerEntry × Option ℕ
unfolding is_talker talker_unused talker_idle fresh_talker find_or_insert
talker_find_or_insert es id ty =
    find_or_insert (is_talker id ty) (talker_unused ∷ talker_idle ∷ []) (fresh_talker id ty) es

-- The entry that `msrp_talker_find` points to
unfoldable pub talker_entry : List TalkerEntry → ℕ → TalkerType → Option TalkerEntry
unfolding talker_find
talker_entry es id ty = elim (talker_find es id ty) [ none ↦ none | some i ↦ get_elem? es i ]

-- IN or LV
unfoldable pub is_registered : RegistrarState → Bool
is_registered registrar_in = true
is_registered registrar_lv = true
is_registered registrar_mt = false

unfoldable pub is_registered_in : RegistrarState → Bool
is_registered_in registrar_in = true
is_registered_in _ = false

-- `mrp_talker_advertise_active`
unfoldable pub talker_advertise_active : List TalkerEntry → ℕ → Bool
unfolding talker_entry is_registered
talker_advertise_active es id = elim (talker_entry es id talker_advertise) [
  | none ↦ false
  | some e ↦ is_registered e.sm.registrar
]

-- `mrp_talker_advertise_tspec`: frame size and interval frames
unfoldable pub talker_advertise_tspec : List TalkerEntry → ℕ → Option (ℕ × ℕ)
unfolding talker_advertise_active
talker_advertise_tspec es id =
    if talker_advertise_active es id
    then elim (talker_entry es id talker_advertise) [
      | none ↦ none
      | some e ↦ some (e.max_frame_size, e.max_interval_frames)
    ]
    else none

-- `mrp_talker_advertise_held_off`
unfoldable pub talker_advertise_held_off : List TalkerEntry → ℕ → Bool
unfolding talker_entry
talker_advertise_held_off es id = elim (talker_entry es id talker_advertise) [
  | none ↦ false
  | some e ↦ not (e.redeclare_after_us == 0)
]

-- `mrp_talker_failed_active`, with `s_mrp_lite`: the failure code of an active failure
unfoldable pub talker_failed_active : Bool → List TalkerEntry → ℕ → Option ℕ
unfolding talker_entry is_registered is_registered_in
talker_failed_active lite es id = elim (talker_entry es id talker_failed) [
  | none ↦ none
  | some e ↦
      if (if lite then is_registered_in e.sm.registrar else is_registered e.sm.registrar)
      then some e.failure_code
      else none
]

unfoldable pub is_listener : ℕ → ListenerEntry → Bool
is_listener id e = e.valid && e.stream_id == id

-- `msrp_listener_find`
unfoldable pub listener_find : List ListenerEntry → ℕ → Option ℕ
unfolding is_listener find_index
listener_find es id = find_index (is_listener id) es

unfoldable pub listener_unused : ListenerEntry → Bool
listener_unused e = not e.valid

unfoldable pub listener_idle : ListenerEntry → Bool
unfolding sm_idle
listener_idle e = sm_idle e.sm

-- `msrp_listener_find_or_insert`
unfoldable pub listener_find_or_insert : List ListenerEntry → ℕ → List ListenerEntry × Option ℕ
unfolding is_listener listener_unused listener_idle fresh_listener find_or_insert
listener_find_or_insert es id =
    find_or_insert (is_listener id) (listener_unused ∷ listener_idle ∷ []) (fresh_listener id) es

unfoldable pub is_domain : ℕ → DomainEntry → Bool
is_domain class_id e = e.valid && e.sr_class_id == class_id

unfoldable pub domain_unused : DomainEntry → Bool
domain_unused e = not e.valid

-- `msrp_domain_find_or_insert`
unfoldable pub domain_find_or_insert : List DomainEntry → ℕ → List DomainEntry × Option ℕ
unfolding is_domain domain_unused fresh_domain find_or_insert
domain_find_or_insert es class_id =
    find_or_insert (is_domain class_id) (domain_unused ∷ []) (fresh_domain class_id) es
