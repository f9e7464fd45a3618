-- ===== src/Mrp/Quarantine/Silence.antt =====
-- While a changed Talker Advertise is held off, nothing of it goes out, whatever happens on the
-- port outside AVB Lite; and what ends the hold-off.
use esp_avb.Prelude.{
  ℕ, ◌+◌, ◌≤◌, ◌≡◌, inl, inr, refl, arith, Bool, true, false, not, ◌&&◌, ◌||◌, List, [],
  if◌then◌else◌, ◌==◌, leb, Bool-cases,
}
use esp_avb.Mrp.{
  ApplicantState, applicant_vo, applicant_ao, applicant_qo, applicant_lo, Event, event_r_la,
  event_new, event_join, event_leave_timer, event_periodic, event_tx, event_tx_la, SmState, tx_none,
  applicant_step, applicant_next, sm_step, sm_reset,
}
use esp_avb.Mrp.Lite.{is_pending, withdraw_step}
use esp_avb.Mrp.Packed.{event_of_3pe}
use esp_avb.Mrp.Attributes.{TalkerEntry}
use esp_avb.Mrp.Quarantine.{
  Stream, TalkerInfo, LeaveAlls, heard_leaveall, holdoff_over, declare_entry, talker_candidate,
  same_info, info, change_value, declare_or_hold, declare_step, with_info, new_value, begin_holdoff,
  end_holdoff, release_entry, releasable, withdraw_entry, value_shrinks, value_change_holdoff_us,
  value_shrink_holdoff_us,
}
use esp_avb.Mrp.Attributes.{talker_advertise}

-- What happens to the entry: the local calls, the flush, the timers and what the peer sends
pub data Op : Type 0 where
  declares : Stream → Op
  releases : Op
  withdraws : Op
  transmits : (leaveall : Bool) → Op
  periodic : Op
  expires : Op
  receives : (pe : ℕ) → Op
  leave_all : Op

-- The entry and the LeaveAlls of its port
pub record Port : Type 0 where
  pub entry : TalkerEntry
  pub leavealls : LeaveAlls

-- One entry in the talker loop of `mrp_tx_flush_port`, and whether a message goes out
unfoldable pub transmit : Bool → TalkerEntry → TalkerEntry × Bool
unfolding applicant_step is_pending
transmit leaveall e =
    let sm = applicant_step e.sm (if leaveall then event_tx_la else event_tx) in
    (record e { sm = record sm { pending_tx = tx_none } }, is_pending sm.pending_tx)

-- The entry after an operation, and what goes out: `mrp_tx_talker_value_leave` is not counted.
unfoldable pub step : Bool → List ℕ → ℕ → Op → Port → Port × Bool
unfolding transmit declare_entry release_entry withdraw_entry sm_step heard_leaveall
step bridge mappings now (declares s) p = (
  record p { entry = (declare_entry bridge false p.leavealls now mappings s p.entry).entry },
  false,
)
step bridge mappings now releases p =
    (record p { entry = release_entry bridge p.leavealls now p.entry }, false)
step bridge mappings now withdraws p =
    (record p { entry = withdraw_entry false now talker_advertise p.entry }, false)
step bridge mappings now (transmits leaveall) p =
    let (e, sent) = transmit leaveall p.entry in (record p { entry = e }, sent)
step bridge mappings now periodic p =
    (record p { entry = record p.entry { sm = applicant_step p.entry.sm event_periodic } }, false)
step bridge mappings now expires p =
    (record p { entry = record p.entry { sm = sm_step now p.entry.sm event_leave_timer } }, false)
step bridge mappings now (receives pe) p =
    (record p { entry = record p.entry { sm = sm_step now p.entry.sm (event_of_3pe pe) } }, false)
step bridge mappings now leave_all p = (
  record {
    entry = record p.entry { sm = sm_step now p.entry.sm event_r_la };
    leavealls = heard_leaveall now p.leavealls;
  },
  false,
)

-- The Applicant observes: it sends nothing at a transmission.
unfoldable pub observes : ApplicantState → Bool
observes applicant_vo = true
observes applicant_ao = true
observes applicant_qo = true
observes applicant_lo = true
observes _ = false

-- An entry that is held off observes, has nothing pending, and waits at least a LeaveTime and a
-- half from its withdrawal.
unfoldable pub well_held : TalkerEntry → Bool
unfolding observes is_pending
well_held e =
    e.redeclare_after_us == 0
    || (observes e.sm.applicant
        && not (is_pending e.sm.pending_tx)
        && leb (e.withdrawn_us + value_shrink_holdoff_us) e.redeclare_after_us)

unfoldable pub quiet_sm : SmState → Bool
unfolding observes is_pending
quiet_sm sm = observes sm.applicant && not (is_pending sm.pending_tx)

-- The events that declare
declaring_event : Event → Bool
declaring_event event_new = true
declaring_event event_join = true
declaring_event _ = false

event_of_3pe-declaring_event : (pe : ℕ) → declaring_event (event_of_3pe pe) ≡ false
unfolding declaring_event event_of_3pe
event_of_3pe-declaring_event pe = ground arith

applicant_next-quiet :
    (sm : SmState) (ev : Event)
    → declaring_event ev ≡ false
    → quiet_sm sm ≡ true
    → quiet_sm (applicant_step sm ev) ≡ true
unfolding quiet_sm declaring_event applicant_step applicant_next
applicant_next-quiet sm event_new d h = cc
applicant_next-quiet sm event_join d h = cc
applicant_next-quiet sm ev d h = ground arith

sm_step-quiet :
    (now : ℕ) (sm : SmState) (ev : Event)
    → declaring_event ev ≡ false
    → quiet_sm sm ≡ true
    → quiet_sm (sm_step now sm ev) ≡ true
unfolding sm_step quiet_sm
sm_step-quiet now sm ev d h = applicant_next-quiet sm ev d h

pub transmit-quiet :
    (leaveall : Bool) (e : TalkerEntry)
    → quiet_sm e.sm ≡ true
    → (quiet_sm (transmit leaveall e).0.sm ≡ true) × ((transmit leaveall e).1 ≡ false)
unfolding transmit quiet_sm applicant_step applicant_next
transmit-quiet leaveall e h = ground arith

-- Each hold-off is a LeaveTime and a half at least.
pub holdoff-ge :
    (bridge b : Bool)
    → value_shrink_holdoff_us
      ≤ (if b then value_shrink_holdoff_us else value_change_holdoff_us bridge)
unfolding value_change_holdoff_us
holdoff-ge bridge b = ground arith

change_value-well_held :
    (bridge : Bool) (l : LeaveAlls) (now : ℕ) (fresh : TalkerInfo) (e : TalkerEntry)
    → well_held e ≡ true
    → well_held (change_value bridge false l now fresh e).0 ≡ true
unfolding well_held change_value new_value begin_holdoff with_info sm_reset
change_value-well_held bridge l now fresh e h =
    ground (arith, holdoff-ge bridge (value_shrinks (info e) fresh))

declare_or_hold-well_held :
    (bridge : Bool) (l : LeaveAlls) (now : ℕ) (before : ApplicantState) (fresh : TalkerInfo)
    (p : TalkerEntry × List TalkerInfo)
    → well_held p.0 ≡ true
    → well_held (declare_or_hold bridge l now before fresh p).entry ≡ true
unfolding well_held declare_or_hold end_holdoff declare_step with_info
declare_or_hold-well_held bridge l now before fresh (e, leaves) h =
    elim (Bool-cases (e.redeclare_after_us == 0)) [
      | inl z ↦ rw z (ground arith)
      | inr z ↦ elim (Bool-cases (holdoff_over bridge l e now)) [
        | inl o ↦ rw (z, o) (ground arith)
        | inr o ↦ rw (z, o) (ground arith)
      ]
    ]

pub own-well_held :
    (e : TalkerEntry)
    → well_held e ≡ true
    → well_held (record e { locally_originated = true }) ≡ true
unfolding well_held
own-well_held e h = h

declare_entry-well_held :
    (bridge : Bool) (l : LeaveAlls) (now : ℕ) (mappings : List ℕ) (s : Stream) (e : TalkerEntry)
    → well_held e ≡ true
    → well_held (declare_entry bridge false l now mappings s e).entry ≡ true
unfolding declare_entry
declare_entry-well_held bridge l now mappings s e h =
    let own : TalkerEntry = record e { locally_originated = true } in
    let fresh = talker_candidate false mappings own s in
    let own_held : well_held own ≡ true = own-well_held e h in
    declare_or_hold-well_held bridge l now e.sm.applicant fresh
      (if same_info (info own) fresh then (own, []) else change_value bridge false l now fresh own)
      (elim (Bool-cases (same_info (info own) fresh)) [
        | inl same ↦ rw same own_held
        | inr other ↦ rw other (change_value-well_held bridge l now fresh own own_held)
      ])

withdraw_entry-well_held :
    (now : ℕ) (e : TalkerEntry)
    → well_held e ≡ true
    → well_held (withdraw_entry false now talker_advertise e) ≡ true
unfolding well_held withdraw_entry applicant_step applicant_next withdraw_step
withdraw_entry-well_held now e h = ground arith

release_entry-well_held :
    (bridge : Bool) (l : LeaveAlls) (now : ℕ) (e : TalkerEntry)
    → well_held e ≡ true
    → well_held (release_entry bridge l now e) ≡ true
unfolding well_held release_entry end_holdoff declare_step
release_entry-well_held bridge l now e h = elim (Bool-cases (releasable bridge l now e)) [
  | inl r ↦ rw r (ground arith)
  | inr r ↦ rw r h
]

-- A change of the state machines that keeps them quiet keeps the entry well held.
moved-well_held :
    (e : TalkerEntry) (sm : SmState)
    → (quiet_sm e.sm ≡ true → quiet_sm sm ≡ true)
    → well_held e ≡ true
    → well_held (record e { sm = sm }) ≡ true
unfolding well_held quiet_sm
moved-well_held e sm k h = elim (Bool-cases (e.redeclare_after_us == 0)) [
  | inl z ↦ rw z refl
  | inr z ↦ ground (arith, k (ground arith))
]

pub step-well_held :
    (bridge : Bool) (mappings : List ℕ) (now : ℕ) (op : Op) (p : Port)
    → well_held p.entry ≡ true
    → well_held (step bridge mappings now op p).0.entry ≡ true
unfolding step declaring_event
step-well_held bridge mappings now (declares s) p h =
    declare_entry-well_held bridge p.leavealls now mappings s p.entry h
step-well_held bridge mappings now releases p h =
    release_entry-well_held bridge p.leavealls now p.entry h
step-well_held bridge mappings now withdraws p h = withdraw_entry-well_held now p.entry h
step-well_held bridge mappings now (transmits leaveall) p h =
    moved-well_held p.entry (transmit leaveall p.entry).0.sm
      (λ q. (transmit-quiet leaveall p.entry q).0) h
step-well_held bridge mappings now periodic p h =
    moved-well_held p.entry (applicant_step p.entry.sm event_periodic)
      (applicant_next-quiet p.entry.sm event_periodic refl) h
step-well_held bridge mappings now expires p h =
    moved-well_held p.entry (sm_step now p.entry.sm event_leave_timer)
      (sm_step-quiet now p.entry.sm event_leave_timer refl) h
step-well_held bridge mappings now (receives pe) p h =
    moved-well_held p.entry (sm_step now p.entry.sm (event_of_3pe pe))
      (sm_step-quiet now p.entry.sm (event_of_3pe pe) (event_of_3pe-declaring_event pe)) h
step-well_held bridge mappings now leave_all p h =
    moved-well_held p.entry (sm_step now p.entry.sm event_r_la)
      (sm_step-quiet now p.entry.sm event_r_la refl) h
