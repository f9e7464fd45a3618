-- ===== src/Mrp/Lite.antt =====
-- The local side of mrp.c: which Applicant states send or declare, the event of a declaration, the
-- withdrawal, and the send times of AVB Lite (sections 6b and 6d).
pub mod Schedule
mod Tests
use esp_avb.Prelude.{ℕ, ◌+◌, ◌*◌, Bool, true, false, not, ◌&&◌, ◌||◌, ltb, if◌then◌else◌}
use esp_avb.Mrp.{
  ApplicantState, applicant_vo, applicant_vp, applicant_vn, applicant_an, applicant_aa,
  applicant_qa, applicant_la, applicant_ao, applicant_qo, applicant_ap, applicant_qp, applicant_lo,
  Event, event_new, event_join, event_lv, event_tx, event_r_la, TxAction, tx_none, SmState,
  applicant_step, registrar_mt, RegistrarState,
}

-- `mrp_applicant_will_send`
unfoldable pub will_send : ApplicantState → Bool
will_send applicant_vp = true
will_send applicant_vn = true
will_send applicant_an = true
will_send applicant_aa = true
will_send applicant_la = true
will_send _ = false

-- `mrp_applicant_declaring`
unfoldable pub declaring : ApplicantState → Bool
declaring applicant_vn = true
declaring applicant_an = true
declaring applicant_aa = true
declaring applicant_qa = true
declaring applicant_vp = true
declaring applicant_ap = true
declaring applicant_qp = true
declaring _ = false

-- `mrp_declare_event`
unfoldable pub declare_event : ApplicantState → Event
declare_event applicant_vo = event_new
declare_event applicant_ao = event_new
declare_event applicant_qo = event_new
declare_event applicant_lo = event_new
declare_event _ = event_join

-- Two Applicant states are one: `==` and `!=` on the C enumeration.
unfoldable pub applicant_code : ApplicantState → ℕ
applicant_code applicant_vo = 0
applicant_code applicant_vp = 1
applicant_code applicant_vn = 2
applicant_code applicant_an = 3
applicant_code applicant_aa = 4
applicant_code applicant_qa = 5
applicant_code applicant_la = 6
applicant_code applicant_ao = 7
applicant_code applicant_qo = 8
applicant_code applicant_ap = 9
applicant_code applicant_qp = 10
applicant_code applicant_lo = 11

unfoldable pub applicant_ne : ApplicantState → ApplicantState → Bool
unfolding applicant_code
applicant_ne a b =
    ltb (applicant_code a) (applicant_code b) || ltb (applicant_code b) (applicant_code a)

-- The end of `mrp_withdraw_step`, by `s_mrp_lite` and the state before.
unfoldable pub withdrawn : Bool → ApplicantState → SmState → SmState
withdrawn true applicant_vn sm = record sm { applicant = applicant_la }
withdrawn true applicant_an sm = record sm { applicant = applicant_la }
withdrawn _ _ sm = sm

-- `mrp_withdraw_step`
unfoldable pub withdraw_step : Bool → SmState → SmState
unfolding withdrawn applicant_step
withdraw_step lite sm = withdrawn lite sm.applicant (applicant_step sm event_lv)

-- `mrp_lite_note_local`: the entry's `lite_next_tx_us` afterwards.
unfoldable pub lite_note_local : ℕ → SmState → ApplicantState → ℕ → ℕ
unfolding will_send applicant_ne
lite_note_local now sm before next_tx_us =
    if applicant_ne sm.applicant before && will_send sm.applicant then now else next_tx_us

-- `MRP_LITE_JOIN_TIME_US`
abbrev pub lite_join_time_us : ℕ
lite_join_time_us = 200 * 1000

pub record LiteEntry : Type 0 where
  pub sm : SmState
  pub next_tx_us : ℕ

-- Whether an action is pending: `pending_tx != mrp_tx_none`.
unfoldable pub is_pending : TxAction → Bool
is_pending tx_none = false
is_pending _ = true

-- `mrp_lite_entry_due`
unfoldable pub lite_entry_due : LiteEntry → ℕ → LiteEntry × Bool
unfolding will_send applicant_step is_pending
lite_entry_due e now =
    if not (will_send e.sm.applicant) || ltb now e.next_tx_us
    then (e, false)
    else let sm = applicant_step e.sm event_tx in
      (record { sm = sm; next_tx_us = now + lite_join_time_us }, is_pending sm.pending_tx)

-- The assignment of `next_tx_us` there.
unfoldable pub redeclared : SmState → LiteEntry → ℕ → LiteEntry
unfolding will_send applicant_ne
redeclared sm e now = record {
  sm = sm;
  next_tx_us =
      if applicant_ne sm.applicant e.sm.applicant && will_send sm.applicant
      then now
      else e.next_tx_us;
}

-- `mrp_lite_redeclare_sm`
unfoldable pub lite_redeclare_sm : LiteEntry → ℕ → LiteEntry
unfolding declaring applicant_step redeclared
lite_redeclare_sm e now =
    if declaring e.sm.applicant then redeclared (applicant_step e.sm event_r_la) e now else e

idle : RegistrarState → ApplicantState → TxAction → Bool
idle registrar_mt applicant_vo tx_none = true
idle _ _ _ = false

-- `mrp_sm_idle`
unfoldable pub sm_idle : SmState → Bool
unfolding idle
sm_idle sm = idle sm.registrar sm.applicant sm.pending_tx
