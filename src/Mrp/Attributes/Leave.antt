-- ===== src/Mrp/Attributes/Leave.antt =====
-- The LeaveAlls of MSRP (mrp.c): the one a station applies to its own Registrars and the dispatch
-- of a received one to the attributes of one type. The two counters of LeaveAlls are diagnostics.
use esp_avb.Prelude.{ℕ, ◌+◌, ◌*◌, ◌≤◌, ◌<◌, ◌≡◌, arith, true, false, ◌&&◌, List, if◌then◌else◌, map}
use esp_avb.Mrp.{
  SmState, registrar_in, registrar_lv, registrar_mt, sm_step, registrar_step, registrar_next,
  registrar_leave, event_r_la, event_r_join_in, sm_step, registrar_expire, applicant_step,
}
use esp_avb.Mrp.Registration.{
  transition_none, transition_deregister, is_in, leave_due, dispatch_leave, expiry_transition,
}
use esp_avb.Mrp.Attributes.{
  talker_advertise, talker_failed, TalkerEntry, TalkerType, same_type, ListenerEntry, DomainEntry,
}

-- The three MSRP tables of a port
pub record Tables : Type 0 where
  pub talkers : List TalkerEntry
  pub listeners : List ListenerEntry
  pub domains : List DomainEntry

unfoldable pub self_leave_us : ℕ
self_leave_us = 10 * 1000 * 1000

unfoldable pub self_leave_sm : ℕ → SmState → SmState
unfolding registrar_step self_leave_us is_in
self_leave_sm now sm =
    if is_in sm.registrar
    then record (registrar_step now sm event_r_la) { leave_timer_us = now + self_leave_us }
    else sm

unfoldable pub self_leave_talker : ℕ → TalkerEntry → TalkerEntry
unfolding self_leave_sm
self_leave_talker now e = if e.valid then record e { sm = self_leave_sm now e.sm } else e

unfoldable pub self_leave_listener : ℕ → ListenerEntry → ListenerEntry
unfolding self_leave_sm
self_leave_listener now e = if e.valid then record e { sm = self_leave_sm now e.sm } else e

unfoldable pub self_leave_domain : ℕ → DomainEntry → DomainEntry
unfolding self_leave_sm
self_leave_domain now e = if e.valid then record e { sm = self_leave_sm now e.sm } else e

-- `mrp_station_self_leaveall`
unfoldable pub station_self_leaveall : ℕ → Tables → Tables
unfolding self_leave_talker self_leave_listener self_leave_domain
station_self_leaveall now t = record {
  talkers = map (self_leave_talker now) t.talkers;
  listeners = map (self_leave_listener now) t.listeners;
  domains = map (self_leave_domain now) t.domains;
}

-- `msrp_attr_type_t`
pub data MsrpAttr : Type 0 where
  attr_talker_advertise attr_talker_failed attr_listener attr_domain attr_other : MsrpAttr

unfoldable pub leave_talker : ℕ → TalkerType → TalkerEntry → TalkerEntry
unfolding same_type sm_step
leave_talker now ty e =
    if e.valid && same_type e.attr_type ty then record e { sm = sm_step now e.sm event_r_la } else e

unfoldable pub leave_listener : ℕ → ListenerEntry → ListenerEntry
unfolding sm_step
leave_listener now e = if e.valid then record e { sm = sm_step now e.sm event_r_la } else e

unfoldable pub leave_domain : ℕ → DomainEntry → DomainEntry
unfolding sm_step
leave_domain now e = if e.valid then record e { sm = sm_step now e.sm event_r_la } else e

-- `msrp_dispatch_leaveall`
unfoldable pub msrp_dispatch_leaveall : ℕ → MsrpAttr → Tables → Tables
unfolding leave_talker leave_listener leave_domain
msrp_dispatch_leaveall now attr_talker_advertise t = record t {
  talkers = map (leave_talker now talker_advertise) t.talkers;
}
msrp_dispatch_leaveall now attr_talker_failed t = record t {
  talkers = map (leave_talker now talker_failed) t.talkers;
}
msrp_dispatch_leaveall now attr_listener t = record t {
  listeners = map (leave_listener now) t.listeners;
}
msrp_dispatch_leaveall now attr_domain t = record t { domains = map (leave_domain now) t.domains }
msrp_dispatch_leaveall now attr_other t = t

-- A station's own LeaveAll moves a Registrar that is IN to LV and leaves its Applicant alone. Until
-- ten seconds later the dispatch of the leave timers leaves it so, from then on it takes the
-- registration to MT and reports its end, and a Join from the peer in between puts it back to IN
-- with no timer. A Registrar that is not IN keeps its state and its shorter timer.
pub self_leave_ages :
    (now t clock : ℕ) (sm : SmState)
    → let aged = self_leave_sm now sm in
      (is_in sm.registrar ≡ true
        → (aged.registrar ≡ registrar_lv)
          × (aged.applicant ≡ sm.applicant)
          × (t < now + self_leave_us → dispatch_leave clock aged t ≡ (aged, transition_none, false))
          × (now + self_leave_us ≤ t
              → ((dispatch_leave clock aged t).0.registrar ≡ registrar_mt)
                × ((dispatch_leave clock aged t).1 ≡ transition_deregister))
          × ((sm_step clock aged event_r_join_in).registrar ≡ registrar_in)
          × ((sm_step clock aged event_r_join_in).leave_timer_us ≡ 0))
      × (is_in sm.registrar ≡ false → aged ≡ sm)
unfolding self_leave_sm self_leave_us is_in dispatch_leave leave_due sm_step registrar_step
    registrar_next registrar_leave registrar_expire expiry_transition applicant_step
self_leave_ages now t clock sm = ground arith
