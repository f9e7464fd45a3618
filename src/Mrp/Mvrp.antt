-- ===== src/Mrp/Mvrp.antt =====
-- MVRP (section 7 of mrp.c): the VLAN tables of all ports, their declarations and withdrawals, the
-- receive path with the bridge's propagation, and the flush. The state of a port is its MRP port
-- and its table; `bridge` tells the bridge build. The MRPDUs sent are results.
pub mod Flush
pub mod Propagation
pub mod Keyed
pub mod Calls
mod Tests
use esp_avb.Prelude.{
  ℕ, zero, suc, ◌+◌, ◌*◌, ◌%◌, ◌≡◌, Bool, true, false, not, ◌&&◌, ◌||◌, List, [], ◌∷◌, ◌++◌, Option,
  none, some, if◌then◌else◌, ◌==◌, ltb, leb, get_elem?, set, map,
}
use esp_avb.Mrp.{
  Event, event_lv, event_r_la, event_tx, event_tx_la, event_periodic, SmState, applicant_step,
  sm_step, sm_reset, tx_none,
}
use esp_avb.Mrp.Lite.{declare_event, is_pending}
use esp_avb.Mrp.Packed.{three_pe_to_int, event_of_3pe, int_to_3pe, resolve_3pe}
use esp_avb.Mrp.Registration.{
  RegTransition, transition_none, transition_register, transition_deregister, reg_transition,
}
use esp_avb.Mrp.Table.{find_index, find_or_insert, modify}
use esp_avb.Mrp.Port.{Port, arm_join_timer}

-- `mvrp_vlan_entry_t`; a VLAN ID is its two octets.
pub record VlanEntry : Type 0 where
  pub valid : Bool
  pub vlan_id : ℕ × ℕ
  pub sm : SmState

-- `state->port[p]` and `s_mvrp_vlans[p]`
pub record PortState : Type 0 where
  pub port : Port
  pub vlans : List VlanEntry

-- `vlan_id_eq`
unfoldable pub vlan_id_eq : ℕ × ℕ → ℕ × ℕ → Bool
vlan_id_eq (a0, a1) (b0, b1) = a0 == b0 && a1 == b1

unfoldable pub is_vlan : ℕ × ℕ → VlanEntry → Bool
unfolding vlan_id_eq
is_vlan id e = e.valid && vlan_id_eq e.vlan_id id

-- `mvrp_vlan_find`, by the index of the entry
unfoldable pub vlan_find : List VlanEntry → ℕ × ℕ → Option ℕ
unfolding is_vlan find_index
vlan_find es id = find_index (is_vlan id) es

unfoldable pub vlan_unused : VlanEntry → Bool
vlan_unused e = not e.valid

unfoldable pub fresh_vlan : ℕ × ℕ → VlanEntry
unfolding sm_reset
fresh_vlan id = record { valid = true; vlan_id = id; sm = sm_reset }

-- `mvrp_vlan_find_or_insert`
unfoldable pub vlan_find_or_insert : List VlanEntry → ℕ × ℕ → List VlanEntry × Option ℕ
unfolding is_vlan vlan_unused fresh_vlan find_or_insert
vlan_find_or_insert es id = find_or_insert (is_vlan id) (vlan_unused ∷ []) (fresh_vlan id) es

unfoldable pub declare_entry : VlanEntry → VlanEntry
unfolding declare_event applicant_step
declare_entry e = record e { sm = applicant_step e.sm (declare_event e.sm.applicant) }

-- `mrp_declare_vlan` on a port; `now` and `rnd` are for the Join timer.
unfoldable pub declare_vlan : ℕ → ℕ → ℕ × ℕ → PortState → PortState
unfolding vlan_find_or_insert declare_entry modify
declare_vlan now rnd id s =
    let (es, slot) = vlan_find_or_insert s.vlans id in
    elim slot [
      | none ↦ record s { vlans = es }
      | some i ↦ record { port = arm_join_timer now rnd s.port; vlans = modify i declare_entry es }
    ]

unfoldable pub withdraw_entry : VlanEntry → VlanEntry
unfolding applicant_step
withdraw_entry e = record e { sm = applicant_step e.sm event_lv }

-- `mrp_withdraw_vlan` on a port
unfoldable pub withdraw_vlan : ℕ → ℕ → ℕ × ℕ → PortState → PortState
unfolding vlan_find withdraw_entry modify
withdraw_vlan now rnd id s = elim (vlan_find s.vlans id) [
  | none ↦ s
  | some i ↦ record {
    port = arm_join_timer now rnd s.port;
    vlans = modify i withdraw_entry s.vlans;
  }
]

-- `mvrp_dispatch_leaveall`
unfoldable pub dispatch_leaveall : ℕ → List VlanEntry → List VlanEntry
unfolding sm_step
dispatch_leaveall now [] = []
dispatch_leaveall now (e ∷ es) =
    (if e.valid then record e { sm = sm_step now e.sm event_r_la } else e)
    ∷ dispatch_leaveall now es

unfoldable pub propagate_to : ℕ → ℕ → ℕ × ℕ → RegTransition → PortState → PortState
unfolding declare_vlan withdraw_vlan
propagate_to now rnd id transition_register s = declare_vlan now rnd id s
propagate_to now rnd id _ s = withdraw_vlan now rnd id s

-- The loop of `mrp_on_vlan_registrar_change` over the ports from number `y` on
unfoldable pub propagate :
    ℕ → (ℕ → ℕ) → ℕ → ℕ × ℕ → RegTransition → ℕ → List PortState → List PortState
unfolding propagate_to
propagate now rnd ingress id tr y [] = []
propagate now rnd ingress id tr y (s ∷ ports) =
    (if y == ingress || not s.port.bridged then s else propagate_to now (rnd y) id tr s)
    ∷ propagate now rnd ingress id tr (suc y) ports

-- `mrp_on_vlan_registrar_change`
unfoldable pub on_vlan_registrar_change :
    Bool → ℕ → (ℕ → ℕ) → ℕ → ℕ × ℕ → RegTransition → List PortState → List PortState
unfolding propagate
on_vlan_registrar_change bridge now rnd ingress id tr ports = elim (get_elem? ports ingress) [
  | none ↦ ports
  | some s ↦ if bridge && s.port.bridged then propagate now rnd ingress id tr 0 ports else ports
]

-- `mvrp_vlan_id_message_s`: the fields that are read
pub record VlanMessage : Type 0 where
  pub attr_type : ℕ
  pub leaveall : ℕ
  pub vlan_id : ℕ × ℕ
  pub attr_event : ℕ

-- The entry stepped by the first packed event, and the edge of its Registrar
unfoldable pub receive_entry : ℕ → ℕ → VlanEntry → VlanEntry × RegTransition
unfolding three_pe_to_int event_of_3pe sm_step reg_transition
receive_entry now octet e =
    let sm = sm_step now e.sm (event_of_3pe (three_pe_to_int octet).0) in
    (record e { sm = sm }, reg_transition e.sm.registrar sm.registrar)

-- The table of the ingress port in `mrp_rx_mvrp`, and the edge
unfoldable pub receive_table : ℕ → VlanMessage → List VlanEntry → List VlanEntry × RegTransition
unfolding dispatch_leaveall vlan_find_or_insert receive_entry
receive_table now msg es =
    let es0 = if msg.leaveall == 0 then es else dispatch_leaveall now es in
    let (es1, slot) = vlan_find_or_insert es0 msg.vlan_id in
    elim slot [
      | none ↦ (es1, transition_none)
      | some i ↦ elim (get_elem? es1 i) [
        | none ↦ (es1, transition_none)
        | some e ↦ let (e', tr) = receive_entry now msg.attr_event e in (set es1 i e', tr)
      ]
    ]

unfoldable pub is_edge : RegTransition → Bool
is_edge transition_none = false
is_edge _ = true

-- `mrp_rx_mvrp`
unfoldable pub rx_mvrp : Bool → ℕ → (ℕ → ℕ) → ℕ → VlanMessage → List PortState → List PortState
unfolding receive_table is_edge on_vlan_registrar_change
rx_mvrp bridge now rnd p msg ports =
    if msg.attr_type == 1
    then elim (get_elem? ports p) [
      | none ↦ ports
      | some s ↦
          let (es, tr) = receive_table now msg s.vlans in
          let ports' = set ports p (record s { vlans = es }) in
          if is_edge tr
          then on_vlan_registrar_change bridge now rnd p msg.vlan_id tr ports'
          else ports'
    ]
    else ports

-- What `mvrp_tx_emit` puts on the wire: VLAN, event octet and LeaveAll bit
pub record Mrpdu : Type 0 where
  pub vlan_id : ℕ × ℕ
  pub attr_event : ℕ
  pub leaveall : Bool

-- `mvrp_tx_emit`
unfoldable pub tx_emit : VlanEntry → Bool → List Mrpdu
unfolding int_to_3pe resolve_3pe
tx_emit e leaveall = elim (resolve_3pe e.sm.pending_tx e.sm.registrar) [
  | none ↦ []
  | some pe ↦
      record { vlan_id = e.vlan_id; attr_event = int_to_3pe pe 0 0; leaveall = leaveall } ∷ []
]

-- One entry in `mrp_tx_flush_mvrp`: the entry after it, the MRPDUs, and `leaveall` after it
unfoldable pub flush_entry : Event → Bool → VlanEntry → VlanEntry × List Mrpdu × Bool
unfolding applicant_step tx_emit is_pending
flush_entry tx_ev leaveall e =
    let sm = applicant_step e.sm tx_ev in
    if not e.valid
    then (e, [], leaveall)
    else if is_pending sm.pending_tx
    then (
      record e { sm = record sm { pending_tx = tx_none } },
      tx_emit (record e { sm = sm }) leaveall,
      false,
    )
    else (record e { sm = sm }, [], leaveall)

-- `mrp_tx_flush_mvrp`
unfoldable pub tx_flush_mvrp : Event → Bool → List VlanEntry → List VlanEntry × List Mrpdu
unfolding flush_entry
tx_flush_mvrp tx_ev leaveall [] = ([], [])
tx_flush_mvrp tx_ev leaveall (e ∷ es) =
    let (e', sent, leaveall') = flush_entry tx_ev leaveall e in
    let (es', later) = tx_flush_mvrp tx_ev leaveall' es in (e' ∷ es', sent ++ later)
