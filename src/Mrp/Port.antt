-- ===== src/Mrp/Port.antt =====
-- The timers of one port in mrp.c (section 1b): LeaveAll, Join and Periodic. What `esp_random` and
-- `esp_timer_get_time` return is an argument, `rnd` and `now`.
pub mod Bounds
mod Tests
use esp_avb.Prelude.{
  ℕ, zero, suc, ◌+◌, ◌*◌, ◌%◌, ◌≡◌, Bool, true, false, not, ◌&&◌, ◌||◌, if◌then◌else◌, ◌==◌, ltb,
  leb,
}

-- `avb_port_wifi_mode_*`
pub data WifiMode : Type 0 where
  mode_ap mode_sta : WifiMode

-- What mrp.c reads and writes of an `avb_port_s`
pub record Port : Type 0 where
  pub wifi : Bool
  pub wifi_mode : WifiMode
  pub bridged : Bool
  pub join_timer_us : ℕ
  pub leaveall_timer_us : ℕ
  pub periodic_timer_us : ℕ
  pub leaveall_tx_pending : Bool

abbrev pub join_time_us : ℕ
join_time_us = 200 * 1000

abbrev pub leaveall_time_us : ℕ
leaveall_time_us = 10 * 1000 * 1000

abbrev pub periodic_time_us : ℕ
periodic_time_us = 1 * 1000 * 1000

abbrev pub leaveall_wifi_us : ℕ
leaveall_wifi_us = 30 * 1000 * 1000

abbrev pub leaveall_jitter_wifi_us : ℕ
leaveall_jitter_wifi_us = 30 * 1000 * 1000

-- `mrp_leaveall_next_expiry_us`
unfoldable pub leaveall_next_expiry_us : ℕ → ℕ → Port → Bool → ℕ
leaveall_next_expiry_us now rnd p lite =
    if p.wifi && not lite
    then now + leaveall_wifi_us + rnd % leaveall_jitter_wifi_us
    else now + leaveall_time_us + rnd % (5 * 1000 * 1000)

-- `mrp_join_next_expiry_us`
unfoldable pub join_next_expiry_us : ℕ → ℕ → ℕ
join_next_expiry_us now rnd = now + rnd % join_time_us

-- `mrp_port_init`
unfoldable pub port_init : ℕ → ℕ → Bool → Port → Port
unfolding leaveall_next_expiry_us
port_init now rnd lite p = record p {
  join_timer_us = 0;
  leaveall_timer_us = leaveall_next_expiry_us now rnd p lite;
  periodic_timer_us = now + periodic_time_us;
  leaveall_tx_pending = false;
}

-- `mrp_port_arm_join_timer`
unfoldable pub arm_join_timer : ℕ → ℕ → Port → Port
unfolding join_next_expiry_us
arm_join_timer now rnd p =
    if p.join_timer_us == 0 then record p { join_timer_us = join_next_expiry_us now rnd } else p

-- `timer_us != 0 && now >= timer_us`
unfoldable pub timer_due : ℕ → ℕ → Bool
timer_due timer_us now = not (timer_us == 0) && leb timer_us now

-- What a tick of the port has to do, in the order in which `mrp_port_tick` does it
pub record Due : Type 0 where
  pub redeclare : Bool
  pub self_leaveall : Bool
  pub periodic : Bool
  pub flush : Bool

unfoldable pub is_ap : WifiMode → Bool
is_ap mode_ap = true
is_ap mode_sta = false

-- The LeaveAll part of `mrp_port_tick`. `stations` is `avb_bridge_wifi_ap_sta_count`, on a bridge.
unfoldable pub suppress : Bool → ℕ → Port → Bool
unfolding is_ap
suppress bridge stations p = bridge && p.wifi && is_ap p.wifi_mode && stations == 0

unfoldable pub tick_leaveall : ℕ → ℕ → Bool → Bool → ℕ → Port → Port × Bool × Bool × Bool
unfolding timer_due suppress leaveall_next_expiry_us is_ap
tick_leaveall now rnd lite bridge stations p =
    if timer_due p.leaveall_timer_us now
    then (
      record p {
        leaveall_timer_us = leaveall_next_expiry_us now rnd p lite;
        leaveall_tx_pending =
            if not (suppress bridge stations p) && not lite then true else p.leaveall_tx_pending;
      },
      not (suppress bridge stations p) && lite,
      not (suppress bridge stations p) && not lite && p.wifi && not (is_ap p.wifi_mode),
      true,
    )
    else (p, false, false, false)

-- The Periodic part: the port, whether periodic! is dispatched, and `fired`
unfoldable pub tick_periodic : ℕ → ℕ → Bool → Port → Port × Bool × Bool
unfolding timer_due arm_join_timer
tick_periodic now rnd lite p =
    if timer_due p.periodic_timer_us now
    then (if lite
        then (record p { periodic_timer_us = now + periodic_time_us }, false, false)
        else (
          arm_join_timer now rnd (record p { periodic_timer_us = now + periodic_time_us }),
          true,
          true,
        ))
    else (p, false, false)

-- The Join part: the port, and whether the port is flushed
unfoldable pub tick_join : ℕ → Port → Port × Bool
unfolding timer_due
tick_join now p =
    if timer_due p.join_timer_us now then (record p { join_timer_us = 0 }, true) else (p, false)

-- The end of `mrp_talker_release_held`, if it released a held-off talker
unfoldable pub tick_held : ℕ → ℕ → Bool → Port → Port
unfolding arm_join_timer
tick_held now rnd released p = if released then arm_join_timer now rnd p else p

-- The port timers of `mrp_port_tick` in order, with what is due. `released` is whether
-- `mrp_talker_release_held` released a talker; the AVB Lite flush and the LeaveTimers, which come
-- after, do not touch the port.
unfoldable pub tick_timers : ℕ → ℕ → ℕ → Bool → Bool → Bool → ℕ → Port → Port × Due
unfolding tick_leaveall tick_periodic tick_held tick_join
tick_timers now rnd_leaveall rnd_join released lite bridge stations p =
    let (p1, redeclare, self_leaveall, f1) =
      tick_leaveall now rnd_leaveall lite bridge stations p in
    let (p2, periodic, f2) = tick_periodic now rnd_join lite p1 in
    let (p3, flush) = tick_join now (tick_held now rnd_join released p2) in
    (
      p3,
      record {
        redeclare = redeclare;
        self_leaveall = self_leaveall;
        periodic = periodic;
        flush = flush;
      },
    )
