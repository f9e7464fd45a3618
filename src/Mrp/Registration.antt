-- ===== src/Mrp/Registration.antt =====
-- The Registrar over time: its LeaveTimer, its edges, and the expiry dispatch of
-- `mrp_port_dispatch_leave_timers`.
use esp_avb.Prelude.{
  ℕ, ◌+◌, ◌≤◌, ◌<◌, ◌≡◌, ◌≢◌, refl, ap, ◌∙◌, arith, Bool, true, false, not, ◌&&◌, List, [], ◌∷◌,
  leb, ◌==◌, if◌then◌else◌,
}
use esp_avb.Mrp.{
  RegistrarState, registrar_in, registrar_lv, registrar_mt, Event, event_r_new, event_r_join_in,
  event_r_in, event_r_join_mt, event_r_lv, event_r_la, event_leave_timer, SmState, registrar_next,
  registrar_step, applicant_step, sm_step, leave_timer_len_us,
}

-- `mrp_reg_transition_e`
pub data RegTransition : Type 0 where
  transition_none transition_register transition_deregister : RegTransition

-- `registrar == mrp_registrar_in`
unfoldable pub is_in : RegistrarState → Bool
is_in registrar_in = true
is_in _ = false

edge : Bool → Bool → RegTransition
edge false true = transition_register
edge true false = transition_deregister
edge _ _ = transition_none

-- `mrp_reg_transition`
unfoldable pub reg_transition : RegistrarState → RegistrarState → RegTransition
unfolding edge is_in
reg_transition before after = edge (is_in before) (is_in after)

-- Lines 3743 and 3802: an expiry from LV to MT is reported as a deregistration.
unfoldable pub expiry_transition : RegistrarState → RegistrarState → RegTransition
unfolding reg_transition
expiry_transition registrar_lv registrar_mt = transition_deregister
expiry_transition before after = reg_transition before after

-- `leave_timer_us != 0 && now >= leave_timer_us`
unfoldable pub leave_due : SmState → ℕ → Bool
leave_due sm now = not (sm.leave_timer_us == 0) && leb sm.leave_timer_us now

-- One talker or listener entry in `mrp_port_dispatch_leave_timers`: the state machines after it,
-- the transition reported to the application, and `fired`. `clock` is the time that
-- `mrp_registrar_step` reads itself.
unfoldable pub dispatch_leave : ℕ → SmState → ℕ → SmState × RegTransition × Bool
unfolding leave_due expiry_transition
dispatch_leave clock sm now =
    let sm' = sm_step clock sm event_leave_timer in
    if leave_due sm now
    then (sm', expiry_transition sm.registrar sm'.registrar, true)
    else (sm, transition_none, false)

-- One domain entry there: the edge of `mrp_reg_transition` is reported as it is.
unfoldable pub dispatch_leave_domain : ℕ → SmState → ℕ → SmState × RegTransition × Bool
unfolding leave_due reg_transition
dispatch_leave_domain clock sm now =
    let sm' = sm_step clock sm event_leave_timer in
    if leave_due sm now
    then (sm', reg_transition sm.registrar sm'.registrar, true)
    else (sm, transition_none, false)

-- The LeaveTimer is set exactly in LV.
abbrev pub TimedAs : RegistrarState → ℕ → Type 0
TimedAs registrar_lv timer = timer ≢ 0
TimedAs _ timer = timer ≡ 0

abbrev pub IsTimed : SmState → Type 0
IsTimed sm = TimedAs sm.registrar sm.leave_timer_us

registrar_next-TimedAs :
    (now : ℕ) (r : RegistrarState) (timer : ℕ) (ev : Event)
    → TimedAs r timer
    → let out = registrar_next now r timer ev in TimedAs out.0 out.1
unfolding registrar_next
registrar_next-TimedAs now registrar_in timer ev h = ground arith
registrar_next-TimedAs now registrar_lv timer ev h = ground arith
registrar_next-TimedAs now registrar_mt timer ev h = ground arith

-- Every event, at any time, keeps the LeaveTimer of an attribute set exactly while its Registrar is
-- in LV.
pub sm_step-IsTimed :
    (now : ℕ) (sm : SmState) (ev : Event) → IsTimed sm → IsTimed (sm_step now sm ev)
unfolding sm_step registrar_step applicant_step
sm_step-IsTimed now sm ev h = registrar_next-TimedAs now sm.registrar sm.leave_timer_us ev h

-- The peer's view: a Join, New or In registers, a Leave or LeaveAll ends it, nothing else matters.
pub joined_after : Bool → Event → Bool
joined_after b event_r_new = true
joined_after b event_r_join_in = true
joined_after b event_r_in = true
joined_after b event_r_join_mt = true
joined_after b event_r_lv = false
joined_after b event_r_la = false
joined_after b _ = b

pub run : SmState → List (ℕ × Event) → SmState
run sm [] = sm
run sm ((now, ev) ∷ evs) = run (sm_step now sm ev) evs

pub joined_by : Bool → List (ℕ × Event) → Bool
joined_by b [] = b
joined_by b ((now, ev) ∷ evs) = joined_by (joined_after b ev) evs

is_in-next :
    (now : ℕ) (r : RegistrarState) (timer : ℕ) (ev : Event)
    → is_in (registrar_next now r timer ev).0 ≡ joined_after (is_in r) ev
unfolding registrar_next is_in joined_after
is_in-next now registrar_in timer ev = ground arith
is_in-next now registrar_lv timer ev = ground arith
is_in-next now registrar_mt timer ev = ground arith

is_in-step :
    (now : ℕ) (sm : SmState) (ev : Event)
    → is_in (sm_step now sm ev).registrar ≡ joined_after (is_in sm.registrar) ev
unfolding sm_step registrar_step applicant_step
is_in-step now sm ev = is_in-next now sm.registrar sm.leave_timer_us ev

-- After any sequence of timed events the Registrar is in IN exactly when the last of the peer's
-- events that register (New, JoinIn, In, JoinMt) or end (Lv, LeaveAll) a registration is one that
-- registers, or there is none and it was in IN at the start.
pub is_in-run :
    (sm : SmState) (evs : List (ℕ × Event))
    → is_in (run sm evs).registrar ≡ joined_by (is_in sm.registrar) evs
unfolding run joined_by
is_in-run sm [] = refl
is_in-run sm ((now, ev) ∷ evs) =
    is_in-run (sm_step now sm ev) evs ∙ ap (λ b. joined_by b evs) (is_in-step now sm ev)

-- A registration that the peer leaves at time `t` is still in LV at every dispatch within
-- LeaveTime of `t`, which reports nothing; the first dispatch after it empties the Registrar, stops
-- the timer and reports a deregistration.
pub leave_then_dispatch :
    (t clock now : ℕ) (sm : SmState)
    → sm.registrar ≡ registrar_in
    → let left = sm_step t sm event_r_lv in
      let (sm', tr, fired) = dispatch_leave clock left now in
      (now < t + leave_timer_len_us
        → (sm' ≡ left) × (tr ≡ transition_none) × (fired ≡ false) × (sm'.registrar ≡ registrar_lv))
      × (t + leave_timer_len_us ≤ now
          → (sm'.registrar ≡ registrar_mt)
            × (sm'.leave_timer_us ≡ 0)
            × (tr ≡ transition_deregister)
            × (fired ≡ true))
unfolding dispatch_leave sm_step registrar_step registrar_next
leave_then_dispatch t clock now sm h = ground arith

-- For an attribute whose timer is set exactly in LV, the dispatch of talkers and listeners reports
-- a deregistration exactly when it fires, and reports nothing else.
pub dispatch_leave-reports :
    (clock : ℕ) (sm : SmState) (now : ℕ)
    → IsTimed sm
    → let (sm', tr, fired) = dispatch_leave clock sm now in
      tr ≡ (if fired then transition_deregister else transition_none)
unfolding dispatch_leave sm_step registrar_step registrar_next
dispatch_leave-reports clock sm now h = ground arith

-- The dispatch of domains never reports anything, although it empties the Registrar as the one of
-- talkers and listeners does.
pub dispatch_leave_domain-silent :
    (clock : ℕ) (sm : SmState) (now : ℕ)
    → IsTimed sm
    → let (sm', tr, fired) = dispatch_leave_domain clock sm now in
      (tr ≡ transition_none) × (sm' ≡ (dispatch_leave clock sm now).0)
unfolding dispatch_leave dispatch_leave_domain sm_step registrar_step registrar_next
dispatch_leave_domain-silent clock sm now h = ground arith
