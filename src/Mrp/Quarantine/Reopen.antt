-- ===== src/Mrp/Quarantine/Reopen.antt =====
-- What ends the hold-off of a changed Talker Advertise: its time, or the LeaveAlls of the peer; and
-- that a held declaration then goes out.
use esp_avb.Prelude.{
  ℕ, zero, suc, ◌+◌, ◌≤◌, ◌≡◌, ◌≢◌, ◌⊎◌, inl, inr, refl, arith, Bool, true, false, List, [], ◌∷◌,
  Option, some, if◌then◌else◌, ◌==◌, leb, Bool-cases, get_elem?,
}
use esp_avb.Mrp.{
  ApplicantState, applicant_vn, event_tx, event_tx_la, applicant_step, applicant_next,
  leave_timer_len_us, SmState,
}
use esp_avb.Mrp.Packed.{resolve_3pe}
use esp_avb.Mrp.Lite.{declare_event}
use esp_avb.Mrp.Attributes.{TalkerEntry}
use esp_avb.Mrp.Quarantine.{
  Stream, TalkerInfo, LeaveAlls, leavealls_since, holdoff_over, declare_entry, talker_candidate,
  same_info, info, change_value, declare_or_hold, declare_step, with_info, new_value, begin_holdoff,
  end_holdoff, release_entry, releasable, release_held, withdraw_entry, value_shrinks,
  value_shrink_holdoff_us, value_change_leavealls,
}
use esp_avb.Mrp.Quarantine.Silence.{
  Op, declares, releases, transmits, Port, step, transmit, transmit-quiet, well_held, quiet_sm,
  step-well_held, holdoff-ge,
}

-- The hold-off of an entry is over at a time: the time itself has come, or two LeaveAlls of the
-- peer have, the last of them a LeaveTime ago.
abbrev pub Over : Bool → LeaveAlls → TalkerEntry → ℕ → Type 0
Over bridge l e now =
    (e.withdrawn_us + value_shrink_holdoff_us ≤ now)
    ⊎ ((bridge ≡ false)
        × (value_change_leavealls ≤ leavealls_since l e.holdoff_leaveall_base)
        × (l.last_us + leave_timer_len_us ≤ now))

holdoff_over-Over :
    (bridge : Bool) (l : LeaveAlls) (e : TalkerEntry) (now : ℕ)
    → well_held e ≡ true
    → (e.redeclare_after_us == 0) ≡ false
    → holdoff_over bridge l e now ≡ true
    → Over bridge l e now
unfolding holdoff_over well_held
holdoff_over-Over bridge l e now w z o = elim (Bool-cases (leb e.redeclare_after_us now)) [
  | inl late ↦ inl (ground arith)
  | inr early ↦ inr (ground arith)
]

declare_or_hold-keeps :
    (bridge : Bool) (l : LeaveAlls) (now : ℕ) (before : ApplicantState) (fresh : TalkerInfo)
    (p : TalkerEntry × List TalkerInfo)
    → (p.0.redeclare_after_us == 0) ≡ false
    → holdoff_over bridge l p.0 now ≡ false
    → ((declare_or_hold bridge l now before fresh p).entry.redeclare_after_us == 0) ≡ false
unfolding declare_or_hold
declare_or_hold-keeps bridge l now before fresh (e, leaves) z o = rw (z, o) z

changed :
    (bridge : Bool) (l : LeaveAlls) (now : ℕ) (fresh : TalkerInfo) (e : TalkerEntry)
    → (e.redeclare_after_us == 0) ≡ false
    → holdoff_over bridge l e now ≡ false
    → (((change_value bridge false l now fresh e).0.redeclare_after_us == 0) ≡ false)
      × (holdoff_over bridge l (change_value bridge false l now fresh e).0 now ≡ false)
unfolding change_value new_value begin_holdoff with_info holdoff_over leavealls_since
changed bridge l now fresh e z o = elim (Bool-cases (e.dest_addr == 0)) [
  | inl d ↦ rw d (z, o)
  | inr d ↦ rw d (
    ground (arith, holdoff-ge bridge (value_shrinks (info e) fresh)),
    ground (arith, holdoff-ge bridge (value_shrinks (info e) fresh)),
  )
]

declare_entry-reopens :
    (bridge : Bool) (l : LeaveAlls) (now : ℕ) (mappings : List ℕ) (s : Stream) (e : TalkerEntry)
    → (e.redeclare_after_us == 0) ≡ false
    → holdoff_over bridge l e now ≡ false
    → ((declare_entry bridge false l now mappings s e).entry.redeclare_after_us == 0) ≡ false
unfolding declare_entry holdoff_over
declare_entry-reopens bridge l now mappings s e z o =
    let own : TalkerEntry = record e { locally_originated = true } in
    let fresh = talker_candidate false mappings own s in
    elim (Bool-cases (same_info (info own) fresh)) [
      | inl same ↦ rw same (declare_or_hold-keeps bridge l now e.sm.applicant fresh (own, []) z o)
      | inr other ↦
          let (z', o') = changed bridge l now fresh own z o in
          rw other (
            declare_or_hold-keeps bridge l now e.sm.applicant fresh
              (change_value bridge false l now fresh own) z' o')
    ]

release_entry-reopens :
    (bridge : Bool) (l : LeaveAlls) (now : ℕ) (e : TalkerEntry)
    → (e.redeclare_after_us == 0) ≡ false
    → holdoff_over bridge l e now ≡ false
    → ((release_entry bridge l now e).redeclare_after_us == 0) ≡ false
unfolding release_entry
release_entry-reopens bridge l now e z o = rw (z, o) (ground arith)

-- While the hold-off is not over, every operation leaves the entry held.
step-keeps :
    (bridge : Bool) (mappings : List ℕ) (now : ℕ) (op : Op) (p : Port)
    → (p.entry.redeclare_after_us == 0) ≡ false
    → holdoff_over bridge p.leavealls p.entry now ≡ false
    → ((step bridge mappings now op p).0.entry.redeclare_after_us == 0) ≡ false
unfolding step withdraw_entry
step-keeps bridge mappings now (declares s) p z o =
    declare_entry-reopens bridge p.leavealls now mappings s p.entry z o
step-keeps bridge mappings now releases p z o =
    release_entry-reopens bridge p.leavealls now p.entry z o
step-keeps bridge mappings now _ p z o = z

step-sent :
    (bridge : Bool) (mappings : List ℕ) (now : ℕ) (op : Op) (p : Port)
    → quiet_sm p.entry.sm ≡ true
    → (step bridge mappings now op p).1 ≡ false
unfolding step
step-sent bridge mappings now (transmits leaveall) p h = (transmit-quiet leaveall p.entry h).1
step-sent bridge mappings now _ p h = refl

held-quiet_sm :
    (e : TalkerEntry)
    → well_held e ≡ true
    → (e.redeclare_after_us == 0) ≡ false
    → quiet_sm e.sm ≡ true
unfolding well_held quiet_sm
held-quiet_sm e w z = ground arith

-- The operations of a run, each with its time
unfoldable pub run : Bool → List ℕ → List (ℕ × Op) → Port → Port
run bridge mappings [] p = p
run bridge mappings ((now, op) ∷ ops) p = run bridge mappings ops (step bridge mappings now op p).0

run-well_held :
    (bridge : Bool) (mappings : List ℕ) (ops : List (ℕ × Op)) (p : Port)
    → well_held p.entry ≡ true
    → well_held (run bridge mappings ops p).entry ≡ true
unfolding run
run-well_held bridge mappings [] p h = h
run-well_held bridge mappings ((now, op) ∷ ops) p h =
    run-well_held bridge mappings ops (step bridge mappings now op p).0
      (step-well_held bridge mappings now op p h)

-- Outside AVB Lite, after any run of declarations, withdrawals, ticks, flushes and received events
-- that starts from an entry not held off: while a changed Talker Advertise is held off, no
-- operation makes it go out, and one ends the hold-off only if 1.5 s have passed since the old
-- value was withdrawn or, on an endpoint, the peer has sent two LeaveAlls, the last of them a
-- LeaveTime ago.
pub hold_off_kept :
    (bridge : Bool) (mappings : List ℕ) (ops : List (ℕ × Op)) (p : Port) (now : ℕ) (op : Op)
    → p.entry.redeclare_after_us ≡ 0
    → let q = run bridge mappings ops p in
      let out = step bridge mappings now op q in
      q.entry.redeclare_after_us ≢ 0
      → (out.1 ≡ false)
        × ((out.0.entry.redeclare_after_us ≢ 0) ⊎ Over bridge q.leavealls q.entry now)
unfolding well_held
hold_off_kept bridge mappings ops p now op start held =
    let q = run bridge mappings ops p in
    let w = run-well_held bridge mappings ops p (ground arith) in
    let z : (q.entry.redeclare_after_us == 0) ≡ false = ground arith in
    (
      step-sent bridge mappings now op q (held-quiet_sm q.entry w z),
      elim (Bool-cases (holdoff_over bridge q.leavealls q.entry now)) [
        | inl o ↦ inr (holdoff_over-Over bridge q.leavealls q.entry now w z o)
        | inr o ↦ inl (ground (arith, step-keeps bridge mappings now op q z o))
      ],
    )

quiet-declares :
    (sm : SmState)
    → quiet_sm sm ≡ true
    → (applicant_step sm (declare_event sm.applicant)).applicant ≡ applicant_vn
unfolding quiet_sm applicant_step applicant_next declare_event
quiet-declares sm h = ground arith

-- The event that a flush puts into the message of an entry, by its packed value: 0 is New.
unfoldable pub sent_event : Bool → TalkerEntry → Option ℕ
unfolding applicant_step resolve_3pe
sent_event leaveall e =
    let sm = applicant_step e.sm (if leaveall then event_tx_la else event_tx) in
    resolve_3pe sm.pending_tx sm.registrar

vn-transmits :
    (e : TalkerEntry) (leaveall again : Bool)
    → e.sm.applicant ≡ applicant_vn
    → let out = transmit leaveall e in
      (out.1 ≡ true)
      × (sent_event leaveall e ≡ some 0)
      × ((transmit again out.0).1 ≡ true)
      × (sent_event again out.0 ≡ some 0)
unfolding transmit applicant_step applicant_next sent_event resolve_3pe
vn-transmits e leaveall again h = ground arith

release_entry-declares :
    (bridge : Bool) (l : LeaveAlls) (now : ℕ) (e : TalkerEntry)
    → quiet_sm e.sm ≡ true
    → releasable bridge l now e ≡ true
    → ((release_entry bridge l now e).redeclare_after_us ≡ 0)
      × ((release_entry bridge l now e).sm.applicant ≡ applicant_vn)
unfolding release_entry declare_step end_holdoff
release_entry-declares bridge l now e q r = rw r (refl, quiet-declares e.sm q)

late-releasable :
    (bridge : Bool) (l : LeaveAlls) (now : ℕ) (e : TalkerEntry)
    → e.valid ≡ true
    → e.declare_held ≡ true
    → e.redeclare_after_us ≢ 0
    → e.redeclare_after_us ≤ now
    → releasable bridge l now e ≡ true
unfolding releasable holdoff_over
late-releasable bridge l now e v d z h = ground arith

release_held-get_elem? :
    (bridge : Bool) (l : LeaveAlls) (now : ℕ) (es : List TalkerEntry) (i : ℕ) (e : TalkerEntry)
    → get_elem? es i ≡ some e
    → (get_elem? (release_held bridge l now es).0 i ≡ some (release_entry bridge l now e))
      × (releasable bridge l now e ≡ true → (release_held bridge l now es).1 ≡ true)
unfolding release_held
release_held-get_elem? bridge l now [] i e h = cc
release_held-get_elem? bridge l now (x ∷ es) zero e h = (ground arith, λ r. ground arith)
release_held-get_elem? bridge l now (x ∷ es) (suc i) e h =
    let (at, any) = release_held-get_elem? bridge l now es i e h in (at, λ r. ground (arith, any r))

-- A held declaration goes out: the first tick at or after its time releases it and arms the
-- JoinTimer, wherever in the table it stands and whatever the peer has sent, and the next two
-- flushes each send it as New, with or without a LeaveAll.
pub release_held-declares :
    (bridge : Bool) (l : LeaveAlls) (now : ℕ) (es : List TalkerEntry) (i : ℕ) (e : TalkerEntry)
    (leaveall again : Bool)
    → get_elem? es i ≡ some e
    → well_held e ≡ true
    → e.valid ≡ true
    → e.declare_held ≡ true
    → e.redeclare_after_us ≢ 0
    → e.redeclare_after_us ≤ now
    → (r : TalkerEntry) × (get_elem? (release_held bridge l now es).0 i ≡ some r)
      × ((release_held bridge l now es).1 ≡ true)
      × (r.redeclare_after_us ≡ 0)
      × ((transmit leaveall r).1 ≡ true)
      × (sent_event leaveall r ≡ some 0)
      × ((transmit again (transmit leaveall r).0).1 ≡ true)
      × (sent_event again (transmit leaveall r).0 ≡ some 0)
release_held-declares bridge l now es i e leaveall again at w v d z late =
    let r = late-releasable bridge l now e v d z late in
    let (there, any) = release_held-get_elem? bridge l now es i e at in
    let (ended, vn) = release_entry-declares bridge l now e (held-quiet_sm e w (ground arith)) r in
    let (sends, new, again_sends, again_new) =
      vn-transmits (release_entry bridge l now e) leaveall again vn in
    (release_entry bridge l now e, there, any r, ended, sends, new, again_sends, again_new)
