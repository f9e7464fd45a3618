-- ===== src/Mrp/Trace.antt =====
-- What the Applicant does over whole sequences of events.
use esp_avb.Prelude.{◌≡◌, refl, ap, ◌∙◌, arith, Bool, true, false, List, [], ◌∷◌}
use esp_avb.Mrp.{
  ApplicantState, applicant_vo, Event, event_new, event_join, event_lv, TxAction, SmState,
  applicant_next, applicant_step,
}
use esp_avb.Mrp.Lite.{declaring}

unfoldable pub run : SmState → List Event → SmState
run sm [] = sm
run sm (ev ∷ evs) = run (applicant_step sm ev) evs

-- The application's view: New! and Join! declare, Lv! withdraws, and nothing else matters.
pub declared_after : Bool → Event → Bool
declared_after d event_new = true
declared_after d event_join = true
declared_after d event_lv = false
declared_after d _ = d

pub declared_by : Bool → List Event → Bool
declared_by d [] = d
declared_by d (ev ∷ evs) = declared_by (declared_after d ev) evs

declaring-next :
    (s : ApplicantState) (p : TxAction) (ev : Event)
    → declaring (applicant_next s p ev).0 ≡ declared_after (declaring s) ev
unfolding applicant_next declaring declared_after
declaring-next applicant_vo p ev = ground arith
declaring-next _ p ev = ground arith

declaring-step :
    (sm : SmState) (ev : Event)
    → declaring (applicant_step sm ev).applicant ≡ declared_after (declaring sm.applicant) ev
unfolding applicant_step
declaring-step sm ev = declaring-next sm.applicant sm.pending_tx ev

-- After any sequence of events, from any state, the Applicant is in a declaring state exactly when
-- the last local event of the sequence declares (New! or Join!), or there is none and it was
-- declaring at the start. No peer event, timer or transmission changes that.
pub declaring-run :
    (sm : SmState) (evs : List Event)
    → declaring (run sm evs).applicant ≡ declared_by (declaring sm.applicant) evs
unfolding run declared_by
declaring-run sm [] = refl
declaring-run sm (ev ∷ evs) =
    declaring-run (applicant_step sm ev) evs ∙ ap (λ d. declared_by d evs) (declaring-step sm ev)
