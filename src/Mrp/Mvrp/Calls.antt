-- ===== src/Mrp/Mvrp/Calls.antt =====
-- The calls of the MVRP application on a port, in any order.
use esp_avb.Prelude.{ℕ, Bool, List, [], ◌∷◌}
use esp_avb.Mrp.{Event}
use esp_avb.Mrp.Mvrp.{
  PortState, declare_vlan, withdraw_vlan, VlanMessage, receive_table, tx_flush_mvrp,
}
use esp_avb.Mrp.Mvrp.Keyed.{
  IsKeyed, declare_vlan-IsKeyed, withdraw_vlan-IsKeyed, receive_table-IsKeyed, flush-IsKeyed,
}

-- A call of the MVRP application on one port
pub data Call : Type 0 where
  call_declare : (now rnd : ℕ) (id : ℕ × ℕ) → Call
  call_withdraw : (now rnd : ℕ) (id : ℕ × ℕ) → Call
  call_receive : (now : ℕ) (msg : VlanMessage) → Call
  call_flush : (ev : Event) (leaveall : Bool) → Call

pub call : Call → PortState → PortState
call (call_declare now rnd id) s = declare_vlan now rnd id s
call (call_withdraw now rnd id) s = withdraw_vlan now rnd id s
call (call_receive now msg) s = record s { vlans = (receive_table now msg s.vlans).0 }
call (call_flush ev la) s = record s { vlans = (tx_flush_mvrp ev la s.vlans).0 }

pub calls : List Call → PortState → PortState
calls [] s = s
calls (c ∷ more) s = calls more (call c s)

call-IsKeyed : (c : Call) (s : PortState) → IsKeyed s.vlans → IsKeyed (call c s).vlans
unfolding call
call-IsKeyed (call_declare now rnd id) s u = declare_vlan-IsKeyed now rnd id s u
call-IsKeyed (call_withdraw now rnd id) s u = withdraw_vlan-IsKeyed now rnd id s u
call-IsKeyed (call_receive now msg) s u = receive_table-IsKeyed now msg s.vlans u
call-IsKeyed (call_flush ev la) s u = flush-IsKeyed ev la s.vlans u

-- Through any sequence of declarations, withdrawals, received messages, with a LeaveAll or without,
-- and flushes, the VLAN table of a port that has at most one valid entry for each VLAN keeps that.
pub calls-IsKeyed :
    (more : List Call) (s : PortState) → IsKeyed s.vlans → IsKeyed (calls more s).vlans
unfolding calls
calls-IsKeyed [] s u = u
calls-IsKeyed (c ∷ more) s u = calls-IsKeyed more (call c s) (call-IsKeyed c s u)
