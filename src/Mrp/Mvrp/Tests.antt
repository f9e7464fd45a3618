-- ===== src/Mrp/Mvrp/Tests.antt =====
-- Instances of what is proved of MVRP.
use esp_avb.Prelude.{zero, suc, ◌≡◌, refl, arith, true, false, [], ◌∷◌, some, get_elem?, map}
use esp_avb.Mrp.{event_tx_la, sm_reset, applicant_qa, registrar_in}
use esp_avb.Mrp.Registration.{transition_register}
use esp_avb.Mrp.Table.{find_or_insert, find_index, claim}
use esp_avb.Mrp.Port.{Port, mode_ap}
use esp_avb.Mrp.Mvrp.{
  VlanEntry, PortState, on_vlan_registrar_change, vlan_find_or_insert, is_vlan, vlan_id_eq,
  vlan_unused, tx_flush_mvrp,
}
use esp_avb.Mrp.Mvrp.Flush.{FirstLeaves, flushed, declaration, all_say, tx_flush_mvrp-lem}
use esp_avb.Mrp.Mvrp.Keyed.{IsKeyed}
use esp_avb.Mrp.Mvrp.Calls.{call_declare, call_withdraw, call_flush, calls, calls-IsKeyed}
use esp_avb.Mrp.Mvrp.Propagation.{IsDeclared, HasRoom, on_vlan_registrar_change-lem}

abbrev bridged_port : Port
bridged_port = record {
  wifi = false;
  wifi_mode = mode_ap;
  bridged = true;
  join_timer_us = 0;
  leaveall_timer_us = 9_000_000;
  periodic_timer_us = 900_000;
  leaveall_tx_pending = false;
}

abbrev vlan_two : VlanEntry
vlan_two = record {
  valid = true;
  vlan_id = (0, 2);
  sm = record sm_reset { applicant = applicant_qa; registrar = registrar_in };
}

abbrev unused : VlanEntry
unused = record vlan_two { valid = false }

abbrev port_state : PortState
port_state = record { port = bridged_port; vlans = vlan_two ∷ unused ∷ [] }

has_room : HasRoom (0, 5) port_state
unfolding vlan_find_or_insert find_or_insert find_index claim is_vlan vlan_id_eq vlan_unused
has_room e = ground arith

on_vlan_registrar_change-lem_example :
    (t : PortState) × (get_elem?
        (on_vlan_registrar_change true 9
          (λ y. y)
          0
          (0, 5)
          transition_register
          (port_state ∷ port_state ∷ []))
        1
      ≡ some t)
    × IsDeclared (0, 5) true t
on_vlan_registrar_change-lem_example =
    (on_vlan_registrar_change-lem 9 (λ y. y) 0 (0, 5) (port_state ∷ port_state ∷ []) port_state 1
        port_state (omega arith) refl refl refl).0
      (omega arith, refl) has_room

tx_flush_mvrp-lem_example :
    let out = tx_flush_mvrp event_tx_la true (vlan_two ∷ unused ∷ []) in
    (out.0 ≡ map (flushed event_tx_la) (vlan_two ∷ unused ∷ []))
    × (map declaration out.1 ≡ all_say event_tx_la (vlan_two ∷ unused ∷ []))
    × FirstLeaves true out.1
tx_flush_mvrp-lem_example = tx_flush_mvrp-lem event_tx_la true (vlan_two ∷ unused ∷ [])

port_state-IsKeyed : IsKeyed port_state.vlans
unfolding IsKeyed is_vlan
port_state-IsKeyed id zero zero e f gi gj pe pf = refl
port_state-IsKeyed id zero (suc zero) e f gi gj pe pf = ground arith
port_state-IsKeyed id zero (suc (suc j)) e f gi gj pe pf = cc
port_state-IsKeyed id (suc zero) j e f gi gj pe pf = ground arith
port_state-IsKeyed id (suc (suc i)) j e f gi gj pe pf = cc

calls-IsKeyed_example :
    IsKeyed
      (calls
        (call_declare 9 5 (0, 5) ∷ call_flush event_tx_la true ∷ call_withdraw 9 5 (0, 2) ∷ [])
        port_state).vlans
calls-IsKeyed_example =
    calls-IsKeyed
      (call_declare 9 5 (0, 5) ∷ call_flush event_tx_la true ∷ call_withdraw 9 5 (0, 2) ∷ [])
      port_state port_state-IsKeyed
