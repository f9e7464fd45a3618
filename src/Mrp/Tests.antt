-- ===== src/Mrp/Tests.antt =====
-- Runs of the MRP state machines, and instances of what is proved of them.
use esp_avb.Prelude.{◌≡◌, ◌≢◌, inl, refl, arith, true, [], ◌∷◌, none}
use esp_avb.Mrp.{
  applicant_aa, applicant_qa, applicant_ap, registrar_in, registrar_lv, event_r_new,
  event_r_join_in, event_r_lv, event_r_la, event_new, event_join, event_lv, event_tx,
  event_periodic, tx_none, SmState, applicant_next, applicant_step, sm_step, sm_reset,
}
use esp_avb.Mrp.Packed.{resolve_3pe}
use esp_avb.Mrp.Lite.{declaring}
use esp_avb.Mrp.Trace
use esp_avb.Mrp.Registration
use esp_avb.Mrp.Registration.{
  IsTimed, dispatch_leave, dispatch_leave_domain, transition_none, transition_deregister,
}
use esp_avb.Mrp.Exchange
use esp_avb.Mrp.Exchange.{
  flush, receive, tx_event, IsPassive, all_keep_passive, flush-will_send, flush-registers,
  withdraw-leaves, periodic-sends, passive-silent, new-sent_twice, declare_withdraw,
}

abbrev quiet_active : SmState
quiet_active = record {
  applicant = applicant_qa;
  registrar = registrar_in;
  leave_timer_us = 0;
  pending_tx = tx_none;
}

abbrev anxious_passive : SmState
anxious_passive = record quiet_active { applicant = applicant_ap }

abbrev leaving : SmState
leaving = record quiet_active { registrar = registrar_lv; leave_timer_us = 1_500_000 }

-- A declaration, the join of a peer, a LeaveAll, and the next transmissions.
life_cycle :
    (Trace.run sm_reset
      (event_new ∷ event_tx ∷ event_tx ∷ event_r_join_in ∷ event_r_la ∷ event_tx ∷ [])).applicant
    ≡ applicant_aa
unfolding Trace.run applicant_step sm_reset
life_cycle = refl

declaring-run_example :
    declaring (Trace.run quiet_active (event_lv ∷ event_r_la ∷ [])).applicant
    ≡ Trace.declared_by (declaring applicant_qa) (event_lv ∷ event_r_la ∷ [])
declaring-run_example = Trace.declaring-run quiet_active (event_lv ∷ event_r_la ∷ [])

is_in-run_example :
    Registration.is_in (Registration.run leaving ((7, event_r_new) ∷ (9, event_tx) ∷ [])).registrar
    ≡ Registration.joined_by
        (Registration.is_in registrar_lv)
        ((7, event_r_new) ∷ (9, event_tx) ∷ [])
is_in-run_example = Registration.is_in-run leaving ((7, event_r_new) ∷ (9, event_tx) ∷ [])

leave_then_dispatch_example :
    (dispatch_leave 1_500_001 (sm_step 500_000 quiet_active event_r_lv) 1_500_001).1
    ≡ transition_deregister
leave_then_dispatch_example =
    ((Registration.leave_then_dispatch 500_000 1_500_001 1_500_001 quiet_active refl).1
      (omega arith)).2

dispatch_leave_domain-silent_example :
    ((dispatch_leave_domain 1_500_001 leaving 1_500_001).1 ≡ transition_none)
    × ((dispatch_leave_domain 1_500_001 leaving 1_500_001).0
        ≡ (dispatch_leave 1_500_001 leaving 1_500_001).0)
dispatch_leave_domain-silent_example =
    Registration.dispatch_leave_domain-silent 1_500_001 leaving 1_500_001 (omega arith)

qa_sends_at_leaveall : (flush (tx_event true) quiet_active).1 ≢ none
unfolding flush tx_event applicant_next resolve_3pe
qa_sends_at_leaveall = ground arith

passive-silent_example :
    (flush event_tx (Trace.run anxious_passive (event_tx ∷ event_periodic ∷ event_join ∷ []))).1
    ≡ none
unfolding IsPassive all_keep_passive Exchange.keeps_passive
passive-silent_example =
    passive-silent anxious_passive (event_tx ∷ event_periodic ∷ event_join ∷ []) (inl refl, refl)
      refl
