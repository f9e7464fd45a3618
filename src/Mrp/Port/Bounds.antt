-- ===== src/Mrp/Port/Bounds.antt =====
-- When the timers of a port go off.
use esp_avb.Prelude.{ℕ, ◌+◌, ◌≤◌, ◌<◌, ◌≡◌, ◌≢◌, ◌⊎◌, arith, Bool, true, false}
use esp_avb.Mrp.Port.{
  Port, leaveall_next_expiry_us, port_init, tick_leaveall, tick_periodic, tick_join, tick_held,
  tick_timers, join_time_us, periodic_time_us,
}

-- The LeaveAll timer is set 10 s to 15 s ahead on a wired port and in AVB Lite, and 30 s to 60 s
-- ahead on a Wi-Fi port otherwise.
pub leaveall_window :
    (now rnd : ℕ) (p : Port) (lite : Bool)
    → let t = leaveall_next_expiry_us now rnd p lite in
      ((p.wifi ≡ true) × (lite ≡ false) → (now + 30_000_000 ≤ t) × (t < now + 60_000_000))
      × ((p.wifi ≡ false) ⊎ (lite ≡ true) → (now + 10_000_000 ≤ t) × (t < now + 15_000_000))
unfolding leaveall_next_expiry_us
leaveall_window now rnd p lite = ground arith

-- The timers are running: LeaveAll and Periodic, within the longest time that they are ever set to.
pub record IsRunning (now : ℕ) (p : Port) : Type 0 where
  pub leaveall_on : p.leaveall_timer_us ≢ 0
  pub periodic_on : p.periodic_timer_us ≢ 0
  pub leaveall_soon : p.leaveall_timer_us < now + 60_000_000
  pub periodic_soon : p.periodic_timer_us ≤ now + periodic_time_us
  pub join_soon : p.join_timer_us < now + join_time_us

pub port_init-IsRunning :
    (now rnd : ℕ) (lite : Bool) (p : Port) → IsRunning now (port_init now rnd lite p)
unfolding port_init
port_init-IsRunning now rnd lite p = ground arith

tick_leaveall-IsRunning :
    (now rnd : ℕ) (lite bridge : Bool) (stations : ℕ) (p : Port)
    → IsRunning now p
    → IsRunning now (tick_leaveall now rnd lite bridge stations p).0
unfolding tick_leaveall
tick_leaveall-IsRunning now rnd lite bridge stations p r = ground arith

tick_periodic-IsRunning :
    (now rnd : ℕ) (lite : Bool) (p : Port)
    → IsRunning now p
    → IsRunning now (tick_periodic now rnd lite p).0
unfolding tick_periodic
tick_periodic-IsRunning now rnd lite p r = ground arith

tick_held-IsRunning :
    (now rnd : ℕ) (released : Bool) (p : Port)
    → IsRunning now p
    → IsRunning now (tick_held now rnd released p)
unfolding tick_held
tick_held-IsRunning now rnd released p r = ground arith

tick_join-IsRunning : (now : ℕ) (p : Port) → IsRunning now p → IsRunning now (tick_join now p).0
unfolding tick_join
tick_join-IsRunning now p r = ground arith

-- A tick keeps the timers of a port running, each within the longest time that it is ever set to,
-- so that none can be lost.
pub tick_timers-IsRunning :
    (now rnd_leaveall rnd_join : ℕ) (released lite bridge : Bool) (stations : ℕ) (p : Port)
    → IsRunning now p
    → IsRunning now (tick_timers now rnd_leaveall rnd_join released lite bridge stations p).0
unfolding tick_timers
tick_timers-IsRunning now ra rj released lite bridge stations p r = tick_join-IsRunning now _ (
    tick_held-IsRunning now rj released _ (
      tick_periodic-IsRunning now rj lite _
        (tick_leaveall-IsRunning now ra lite bridge stations p r)))

-- Outside AVB Lite a Periodic timer that is due always leads to a flush within JoinTime: after the
-- tick the Join timer is armed for less than JoinTime ahead, or the port was flushed in the tick.
pub periodic_leads_to_flush :
    (now rnd_leaveall rnd_join : ℕ) (released bridge : Bool) (stations : ℕ) (p : Port)
    → IsRunning now p
    → p.periodic_timer_us ≤ now
    → 0 < now
    → let (p', due) = tick_timers now rnd_leaveall rnd_join released false bridge stations p in
      (due.periodic ≡ true)
      × ((due.flush ≡ true) ⊎ ((p'.join_timer_us ≢ 0) × (p'.join_timer_us < now + join_time_us)))
unfolding tick_timers
periodic_leads_to_flush now ra rj released bridge stations p r d n = ground arith
