-- ===== src/Mrp.antt =====
-- The generic MRP state machines of mrp.c (sections 1 and 1b) and their types in mrp.h: the
-- Applicant, the Registrar, and the packed events by which they speak to a peer.
pub mod Packed
pub mod Table
pub mod Port
pub mod Mvrp
pub mod Attributes
pub mod Lite
pub mod Trace
pub mod Registration
pub mod Exchange
pub mod Pdu
pub mod Quarantine
pub mod Receive
pub mod Flush
pub mod Declare
pub mod Refusals
mod Tests
use esp_avb.Prelude.{
  ℕ, zero, ◌+◌, ◌*◌, ◌/◌, ◌%◌, ◌^◌, ◌≡◌, Bool, true, false, ◌&&◌, ◌||◌, Option, none, some, ltb,
  leb, ◌==◌, if◌then◌else◌,
}

-- `mrp_applicant_state_e`
pub data ApplicantState : Type 0 where
  applicant_vo applicant_vp applicant_vn applicant_an applicant_aa applicant_qa : ApplicantState
  applicant_la applicant_ao applicant_qo applicant_ap applicant_qp applicant_lo : ApplicantState

-- `mrp_registrar_state_e`
pub data RegistrarState : Type 0 where
  registrar_in registrar_lv registrar_mt : RegistrarState

-- `mrp_event_e`
pub data Event : Type 0 where
  event_r_new event_r_join_in event_r_in event_r_join_mt event_r_mt event_r_lv event_r_la : Event
  event_new event_join event_lv event_tx event_tx_la event_periodic event_leave_timer : Event

-- `mrp_tx_action_e`
pub data TxAction : Type 0 where
  tx_none tx_new tx_join tx_leave : TxAction

-- `mrp_sm_state_t`. Times are microseconds since boot.
pub record SmState : Type 0 where
  pub applicant : ApplicantState
  pub registrar : RegistrarState
  pub leave_timer_us : ℕ
  pub pending_tx : TxAction

-- `MRP_LEAVE_TIMER_US`
abbrev pub leave_timer_len_us : ℕ
leave_timer_len_us = 1000 * 1000

-- The `mrp_event_join` case of `mrp_applicant_step`.
unfoldable pub join_next : ApplicantState → ApplicantState
join_next applicant_vo = applicant_vp
join_next applicant_la = applicant_vp
join_next applicant_lo = applicant_vp
join_next applicant_ao = applicant_ap
join_next applicant_qo = applicant_qp
join_next s = s

-- The `mrp_event_lv` case.
unfoldable pub lv_next : ApplicantState → ApplicantState
lv_next applicant_vo = applicant_lo
lv_next applicant_vp = applicant_vo
lv_next applicant_vn = applicant_lo
lv_next applicant_an = applicant_lo
lv_next applicant_aa = applicant_la
lv_next applicant_qa = applicant_la
lv_next applicant_ap = applicant_ao
lv_next applicant_qp = applicant_qo
lv_next s = s

-- The `mrp_event_r_join_in` case.
unfoldable pub r_join_in_next : ApplicantState → ApplicantState
r_join_in_next applicant_vo = applicant_ao
r_join_in_next applicant_vp = applicant_ap
r_join_in_next applicant_aa = applicant_qa
r_join_in_next applicant_ao = applicant_qo
r_join_in_next applicant_ap = applicant_qp
r_join_in_next s = s

-- The `mrp_event_r_in` case.
unfoldable pub r_in_next : ApplicantState → ApplicantState
r_in_next applicant_aa = applicant_qa
r_in_next s = s

-- The `mrp_event_r_join_mt` and `mrp_event_r_mt` cases.
unfoldable pub r_mt_next : ApplicantState → ApplicantState
r_mt_next applicant_qa = applicant_aa
r_mt_next s = s

-- The `mrp_event_r_lv` and `mrp_event_r_la` case.
unfoldable pub r_leave_next : ApplicantState → ApplicantState
r_leave_next applicant_vo = applicant_lo
r_leave_next applicant_an = applicant_vn
r_leave_next applicant_aa = applicant_vp
r_leave_next applicant_qa = applicant_vp
r_leave_next applicant_ao = applicant_lo
r_leave_next applicant_qo = applicant_lo
r_leave_next applicant_ap = applicant_vp
r_leave_next applicant_qp = applicant_vp
r_leave_next applicant_lo = applicant_vo
r_leave_next s = s

-- The `mrp_event_tx` and `mrp_event_tx_la` case: the new state and the pending action. `la` tells
-- txLA! from tx!.
unfoldable pub tx_next : Bool → TxAction → ApplicantState → ApplicantState × TxAction
tx_next la p applicant_vp = (applicant_aa, tx_join)
tx_next la p applicant_vn = (applicant_an, tx_new)
tx_next la p applicant_an = (applicant_qa, tx_new)
tx_next la p applicant_aa = (applicant_qa, tx_join)
tx_next la p applicant_la = (applicant_vo, tx_leave)
tx_next la p applicant_lo = (applicant_vo, p)
tx_next la p applicant_qa = if la then (applicant_aa, tx_join) else (applicant_qa, p)
tx_next la p s = (s, p)

-- The `mrp_event_periodic` case.
unfoldable pub periodic_next : ApplicantState → ApplicantState
periodic_next applicant_qa = applicant_aa
periodic_next applicant_qo = applicant_ao
periodic_next applicant_qp = applicant_ap
periodic_next s = s

-- `next` and `tx` at the end of the switch of `mrp_applicant_step`
unfoldable pub applicant_next : ApplicantState → TxAction → Event → ApplicantState × TxAction
unfolding join_next lv_next r_join_in_next r_in_next r_mt_next r_leave_next tx_next periodic_next
applicant_next s p event_new = (applicant_vn, p)
applicant_next s p event_join = (join_next s, p)
applicant_next s p event_lv = (lv_next s, p)
applicant_next s p event_r_new = (s, p)
applicant_next s p event_r_join_in = (r_join_in_next s, p)
applicant_next s p event_r_in = (r_in_next s, p)
applicant_next s p event_r_join_mt = (r_mt_next s, p)
applicant_next s p event_r_mt = (r_mt_next s, p)
applicant_next s p event_r_lv = (r_leave_next s, p)
applicant_next s p event_r_la = (r_leave_next s, p)
applicant_next s p event_tx = tx_next false p s
applicant_next s p event_tx_la = tx_next true p s
applicant_next s p event_periodic = (periodic_next s, p)
applicant_next s p event_leave_timer = (s, p)

-- `mrp_applicant_step`
unfoldable pub applicant_step : SmState → Event → SmState
unfolding applicant_next
applicant_step sm ev =
    let (next, tx) = applicant_next sm.applicant sm.pending_tx ev in
    record sm { applicant = next; pending_tx = tx }

-- The `mrp_event_r_lv` and `mrp_event_r_la` case of `mrp_registrar_step`.
unfoldable pub registrar_leave : ℕ → RegistrarState → ℕ → RegistrarState × ℕ
registrar_leave now registrar_in timer = (registrar_lv, now + leave_timer_len_us)
registrar_leave now registrar_lv timer = (registrar_lv, now + leave_timer_len_us)
registrar_leave now registrar_mt timer = (registrar_mt, timer)

-- The `mrp_event_leave_timer` case.
unfoldable pub registrar_expire : RegistrarState → ℕ → RegistrarState × ℕ
registrar_expire registrar_lv timer = (registrar_mt, 0)
registrar_expire r timer = (r, timer)

unfoldable pub registrar_next : ℕ → RegistrarState → ℕ → Event → RegistrarState × ℕ
unfolding registrar_leave registrar_expire
registrar_next now r timer event_r_new = (registrar_in, 0)
registrar_next now r timer event_r_join_in = (registrar_in, 0)
registrar_next now r timer event_r_join_mt = (registrar_in, 0)
registrar_next now r timer event_r_in = (registrar_in, 0)
registrar_next now r timer event_r_mt = (r, timer)
registrar_next now r timer event_r_lv = registrar_leave now r timer
registrar_next now r timer event_r_la = registrar_leave now r timer
registrar_next now r timer event_leave_timer = registrar_expire r timer
registrar_next now r timer event_new = (r, timer)
registrar_next now r timer event_join = (r, timer)
registrar_next now r timer event_lv = (r, timer)
registrar_next now r timer event_tx = (r, timer)
registrar_next now r timer event_tx_la = (r, timer)
registrar_next now r timer event_periodic = (r, timer)

-- `mrp_registrar_step`; `now` is what `esp_timer_get_time` returns in it.
unfoldable pub registrar_step : ℕ → SmState → Event → SmState
unfolding registrar_next
registrar_step now sm ev =
    let (next, timer) = registrar_next now sm.registrar sm.leave_timer_us ev in
    record sm { registrar = next; leave_timer_us = timer }

-- `mrp_sm_step`
unfoldable pub sm_step : ℕ → SmState → Event → SmState
unfolding applicant_step registrar_step
sm_step now sm ev = registrar_step now (applicant_step sm ev) ev

-- `mrp_sm_reset_for_new_value`
unfoldable pub sm_reset : SmState
sm_reset = record {
  applicant = applicant_vo;
  registrar = registrar_mt;
  leave_timer_us = 0;
  pending_tx = tx_none;
}
