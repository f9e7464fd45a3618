-- ===== src/Mrp/Receive.antt =====
-- The MSRP attributes received by a port in mrp.c (section 6a): `msrp_rx_talker_attr`,
-- `msrp_rx_listener_attr` and `msrp_rx_domain_attr`. `now` is what `esp_timer_get_time` returns in a
-- call. The calls of `mrp_on_talker_registrar_change` are results; log messages are left out.
pub mod Twins
mod Tests
use esp_avb.Prelude.{
  ℕ, ◌≡◌, Bool, true, false, not, ◌&&◌, ◌||◌, List, [], ◌∷◌, Option, none, some, if◌then◌else◌,
  ◌==◌, get_elem?, set,
}
use esp_avb.Mrp.{RegistrarState, registrar_mt, SmState}
use esp_avb.Mrp.Packed.{receive_3pe}
use esp_avb.Mrp.Registration.{
  RegTransition, transition_none, transition_register, transition_deregister, reg_transition,
}
use esp_avb.Mrp.Table.{modify}
use esp_avb.Mrp.Attributes.{
  TalkerType, talker_advertise, talker_failed, TalkerEntry, talker_find, talker_find_or_insert,
  is_registered, ListenerEvent, ListenerEntry, listener_find_or_insert, DomainEntry,
  domain_find_or_insert,
}
use esp_avb.Mrp.Quarantine.{TalkerInfo, with_info}

-- `msrp_talker_message_u`: the value, the fields of a failure and the octet of packed events
pub record TalkerWire : Type 0 where
  pub value : TalkerInfo
  pub failure_bridge_id : ℕ
  pub failure_code : ℕ
  pub event : ℕ

unfoldable pub twin_type : TalkerType → TalkerType
twin_type talker_advertise = talker_failed
twin_type talker_failed = talker_advertise

unfoldable pub is_failed : TalkerType → Bool
is_failed talker_failed = true
is_failed talker_advertise = false

unfoldable pub registers : RegTransition → Bool
registers transition_register = true
registers _ = false

-- A peer's value never replaces one that this node declares.
unfoldable pub take_wire : TalkerWire → TalkerEntry → TalkerEntry
unfolding with_info
take_wire w e = if e.locally_originated then e else record (with_info w.value e) {
  failure_bridge_id = w.failure_bridge_id;
  failure_code = w.failure_code;
}

-- The report of a failure: once for a code
unfoldable pub report : TalkerType → RegTransition → ℕ → TalkerEntry → TalkerEntry
unfolding is_failed registers
report ty trans code e =
    if is_failed ty
      && registers trans
      && (not e.failure_logged || not (e.logged_failure_code == code))
    then record e { failure_logged = true; logged_failure_code = code }
    else e

-- The entry of the attribute after the message, and its Registrar's transition
unfoldable pub heard_talker :
    ℕ → TalkerType → TalkerWire → Option ℕ → TalkerEntry → TalkerEntry × RegTransition
unfolding take_wire report receive_3pe reg_transition
heard_talker now ty w src_mac e =
    let sm = receive_3pe now e.sm w.event in
    let trans = reg_transition e.sm.registrar sm.registrar in
    (
      report ty trans w.failure_code (record (take_wire w e) {
        last_refresh_us = now;
        src_mac = elim src_mac [ none ↦ e.src_mac | some mac ↦ mac ];
        sm = sm;
      }),
      trans,
    )

-- An advertise that registers makes the stream's next failure worth a report.
unfoldable pub forget_report : TalkerType → RegTransition → ℕ → List TalkerEntry → List TalkerEntry
unfolding registers is_failed talker_find
forget_report ty trans id es =
    if not (is_failed ty) && registers trans
    then elim (talker_find es id talker_failed) [
      | none ↦ es
      | some j ↦ modify j (λ f. record f { failure_logged = false }) es
    ]
    else es

unfoldable pub is_mt : RegistrarState → Bool
is_mt registrar_mt = true
is_mt _ = false

-- The registration of the other form is displaced: the table, and the entry that
-- `mrp_on_talker_registrar_change` is called for
unfoldable pub unregister : TalkerEntry → TalkerEntry
unregister t = record t { sm = record t.sm { registrar = registrar_mt } }

unfoldable pub displace : TalkerType → ℕ → List TalkerEntry → List TalkerEntry × Option TalkerEntry
unfolding unregister is_mt
displace ty id es = elim (talker_find es id (twin_type ty)) [
  | none ↦ (es, none)
  | some j ↦ elim (get_elem? es j) [
    | none ↦ (es, none)
    | some t ↦ if is_mt t.sm.registrar then (es, none) else (modify j unregister es, some t)
  ]
]

pub record Received : Type 0 where
  pub talkers : List TalkerEntry
  pub entry : Option TalkerEntry
  pub transition : RegTransition
  pub displaced : Option TalkerEntry

-- The end of `msrp_rx_talker_attr`, with the entry and the table that holds it
unfoldable pub settle :
    Bool → TalkerType → ℕ → TalkerEntry → RegTransition → List TalkerEntry → Received
unfolding displace is_registered
settle lite ty id e trans es =
    if not lite && is_registered e.sm.registrar
    then (let (es', t) = displace ty id es in
        record { talkers = es'; entry = some e; transition = trans; displaced = t })
    else record { talkers = es; entry = some e; transition = trans; displaced = none }

-- `msrp_rx_talker_attr`
unfoldable pub rx_talker_attr :
    Bool → ℕ → TalkerType → TalkerWire → Option ℕ → List TalkerEntry → Received
unfolding talker_find_or_insert heard_talker forget_report settle
rx_talker_attr lite now ty w src_mac es =
    let id = w.value.stream_id in
    let (es0, at) = talker_find_or_insert es id ty in
    elim at [
      | none ↦ record {
        talkers = es0;
        entry = none;
        transition = transition_none;
        displaced = none;
      }
      | some i ↦ elim (get_elem? es0 i) [
        | none ↦ record {
          talkers = es0;
          entry = none;
          transition = transition_none;
          displaced = none;
        }
        | some e ↦
            let (e', trans) = heard_talker now ty w src_mac e in
            settle lite ty id e' trans (forget_report ty trans id (set es0 i e'))
      ]
    ]

-- `msrp_listener_message_s`
pub record ListenerWire : Type 0 where
  pub stream_id : ℕ
  pub event : ℕ
  pub declaration : ListenerEvent

unfoldable pub same_event : ListenerEvent → ListenerEvent → Bool
same_event ListenerEvent.ignore ListenerEvent.ignore = true
same_event ListenerEvent.asking_failed ListenerEvent.asking_failed = true
same_event ListenerEvent.ready ListenerEvent.ready = true
same_event ListenerEvent.ready_failed ListenerEvent.ready_failed = true
same_event _ _ = false

-- The entry of a listener after the message, with its transition and `peer_decl_changed_out`
unfoldable pub heard_listener :
    ℕ → ListenerWire → Option ℕ → ListenerEntry → ListenerEntry × RegTransition × Bool
unfolding receive_3pe reg_transition same_event
heard_listener now w src_mac e =
    let sm = receive_3pe now e.sm w.event in
    (
      record e {
        peer_mac = elim src_mac [ none ↦ e.peer_mac | some mac ↦ mac ];
        last_refresh_us = now;
        sm = sm;
        peer_decl = w.declaration;
      },
      reg_transition e.sm.registrar sm.registrar,
      not (same_event w.declaration e.peer_decl),
    )

-- `msrp_rx_listener_attr`
unfoldable pub rx_listener_attr :
    ℕ → ListenerWire → Option ℕ → List ListenerEntry → List ListenerEntry × RegTransition × Bool
unfolding listener_find_or_insert heard_listener
rx_listener_attr now w src_mac es =
    let (es0, at) = listener_find_or_insert es w.stream_id in
    elim at [
      | none ↦ (es0, transition_none, false)
      | some i ↦ elim (get_elem? es0 i) [
        | none ↦ (es0, transition_none, false)
        | some e ↦
            let (e', trans, changed) = heard_listener now w src_mac e in
            (set es0 i e', trans, changed)
      ]
    ]

-- `msrp_domain_message_s`
pub record DomainWire : Type 0 where
  pub sr_class_id : ℕ
  pub sr_class_priority : ℕ
  pub sr_class_vid : ℕ
  pub event : ℕ

unfoldable pub heard_domain : ℕ → DomainWire → DomainEntry → DomainEntry × RegTransition
unfolding receive_3pe reg_transition
heard_domain now w e =
    let sm = receive_3pe now e.sm w.event in
    (
      record e {
        sr_class_id = w.sr_class_id;
        sr_class_priority = w.sr_class_priority;
        sr_class_vid = w.sr_class_vid;
        sm = sm;
      },
      reg_transition e.sm.registrar sm.registrar,
    )

-- `msrp_rx_domain_attr`
unfoldable pub rx_domain_attr : ℕ → DomainWire → List DomainEntry → List DomainEntry × RegTransition
unfolding domain_find_or_insert heard_domain
rx_domain_attr now w es =
    let (es0, at) = domain_find_or_insert es w.sr_class_id in
    elim at [
      | none ↦ (es0, transition_none)
      | some i ↦ elim (get_elem? es0 i) [
        | none ↦ (es0, transition_none)
        | some e ↦ let (e', trans) = heard_domain now w e in (set es0 i e', trans)
      ]
    ]
