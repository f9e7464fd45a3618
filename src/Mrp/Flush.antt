-- ===== src/Mrp/Flush.antt =====
-- The MSRP part of the flush of a port in mrp.c (`mrp_tx_flush_port`), outside AVB Lite: the entries
-- step with tx! or txLA!, and each with a pending action sends its own message. The messages are
-- results; the MVRP part is `tx_flush_mvrp` of Mvrp.
pub mod Delivery
mod Tests
use esp_avb.Prelude.{
  ℕ, ◌+◌, ◌*◌, ◌≡◌, Bool, true, false, not, ◌&&◌, List, [], ◌∷◌, ◌++◌, Option, none, some,
  if◌then◌else◌,
}
use esp_avb.Mrp.{Event, event_tx, event_tx_la, SmState, tx_none, applicant_step}
use esp_avb.Mrp.Lite.{is_pending}
use esp_avb.Mrp.Attributes.{
  TalkerType, talker_advertise, talker_failed, TalkerEntry, ListenerEntry, DomainEntry,
}
use esp_avb.Mrp.Attributes.Leave.{Tables}
use esp_avb.Mrp.Pdu.Send.{Attribute, tx_flush_talker, tx_flush_listener, tx_flush_domain}
use esp_avb.Utils.{int_to_octets}

-- The octets of `talker_adv_info_s`: rank and priority are the upper bits of their octet.
unfoldable pub info_octets : TalkerEntry → List ℕ
unfolding int_to_octets
info_octets e =
    int_to_octets e.stream_id 8
    ++ int_to_octets e.dest_addr 6
    ++ int_to_octets e.vlan_id 2
    ++ int_to_octets e.max_frame_size 2
    ++ int_to_octets e.max_interval_frames 2
    ++ (e.priority * 32 + e.rank * 16) ∷ int_to_octets e.accumulated_latency 4

-- The FirstValue of an entry
unfoldable pub talker_first_value : TalkerType → TalkerEntry → List ℕ
unfolding info_octets int_to_octets
talker_first_value talker_advertise e = info_octets e
talker_first_value talker_failed e =
    info_octets e ++ int_to_octets e.failure_bridge_id 8 ++ e.failure_code ∷ []

unfoldable pub domain_first_value : DomainEntry → List ℕ
unfolding int_to_octets
domain_first_value e = e.sr_class_id ∷ e.sr_class_priority ∷ int_to_octets e.sr_class_vid 2

-- `leaveall_types`, for the four types of MSRP
pub record LeaveTypes : Type 0 where
  pub advertise : Bool
  pub failed : Bool
  pub listener : Bool
  pub domain : Bool

unfoldable pub has_talker : TalkerType → LeaveTypes → Bool
has_talker talker_advertise t = t.advertise
has_talker talker_failed t = t.failed

unfoldable pub drop_talker : TalkerType → LeaveTypes → LeaveTypes
drop_talker talker_advertise t = record t { advertise = false }
drop_talker talker_failed t = record t { failed = false }

-- An entry's state machines after its step, and after its message
unfoldable pub stepped : Bool → SmState → SmState
unfolding applicant_step
stepped leaveall sm = applicant_step sm (if leaveall then event_tx_la else event_tx)

unfoldable pub cleared : SmState → SmState
cleared sm = record sm { pending_tx = tx_none }

-- What a loop leaves: the table, the messages, and the types that still carry the LeaveAll
pub record Flushed (E : Type 0) : Type 0 where
  pub entries : List E
  pub messages : List (Option Attribute)
  pub types : LeaveTypes

unfoldable pub push : {E : Type 0} → E → Option (Option Attribute) → Flushed E → Flushed E
push e none f = record f { entries = e ∷ f.entries }
push e (some m) f = record f { entries = e ∷ f.entries; messages = m ∷ f.messages }

-- The loop over the talkers
unfoldable pub flush_talkers : Bool → LeaveTypes → List TalkerEntry → Flushed TalkerEntry
unfolding stepped cleared is_pending tx_flush_talker talker_first_value has_talker drop_talker push
flush_talkers leaveall types [] = record { entries = []; messages = []; types = types }
flush_talkers leaveall types (e ∷ es) =
    let sm = stepped leaveall e.sm in
    let sends = e.valid && is_pending sm.pending_tx in
    push (if e.valid then record e { sm = cleared sm } else e)
      (if sends
        then some (
            tx_flush_talker e.attr_type (talker_first_value e.attr_type e)
              (has_talker e.attr_type types) sm)
        else none)
      (flush_talkers leaveall (if sends then drop_talker e.attr_type types else types) es)

-- The loop over the listeners
unfoldable pub flush_listeners : Bool → LeaveTypes → List ListenerEntry → Flushed ListenerEntry
unfolding stepped cleared is_pending tx_flush_listener int_to_octets push
flush_listeners leaveall types [] = record { entries = []; messages = []; types = types }
flush_listeners leaveall types (e ∷ es) =
    let sm = stepped leaveall e.sm in
    let sends = e.valid && is_pending sm.pending_tx in
    push (if e.valid then record e { sm = cleared sm } else e)
      (if sends
        then some (tx_flush_listener (int_to_octets e.stream_id 8) e.decl_event types.listener sm)
        else none)
      (flush_listeners leaveall (if sends then record types { listener = false } else types) es)

-- The loop over the domains
unfoldable pub flush_domains : Bool → LeaveTypes → List DomainEntry → Flushed DomainEntry
unfolding stepped cleared is_pending tx_flush_domain domain_first_value push
flush_domains leaveall types [] = record { entries = []; messages = []; types = types }
flush_domains leaveall types (e ∷ es) =
    let sm = stepped leaveall e.sm in
    let sends = e.valid && is_pending sm.pending_tx in
    push (if e.valid then record e { sm = cleared sm } else e)
      (if sends then some (tx_flush_domain (domain_first_value e) types.domain sm) else none)
      (flush_domains leaveall (if sends then record types { domain = false } else types) es)

unfoldable pub all_types : Bool → LeaveTypes
all_types b = record { advertise = b; failed = b; listener = b; domain = b }

-- `mrp_tx_flush_port` on the MSRP tables of a port whose `mrp_leaveall_tx_pending` is `leaveall`
unfoldable pub flush_port : Bool → Tables → Tables × List (Option Attribute)
unfolding flush_talkers flush_listeners flush_domains all_types
flush_port leaveall t =
    let talkers = flush_talkers leaveall (all_types leaveall) t.talkers in
    let listeners = flush_listeners leaveall talkers.types t.listeners in
    let domains = flush_domains leaveall listeners.types t.domains in
    (
      record {
        talkers = talkers.entries;
        listeners = listeners.entries;
        domains = domains.entries;
      },
      talkers.messages ++ listeners.messages ++ domains.messages,
    )
