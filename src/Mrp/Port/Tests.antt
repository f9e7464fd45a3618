-- ===== src/Mrp/Port/Tests.antt =====
-- Instances of what is proved of the timers of a port.
use esp_avb.Prelude.{arith, true, false}
use esp_avb.Mrp.Port.{Port, mode_ap}
use esp_avb.Mrp.Port.Bounds.{IsRunning}

-- A wired bridged port whose Periodic timer is due at 900 ms
abbrev wired : Port
wired = record {
  wifi = false;
  wifi_mode = mode_ap;
  bridged = true;
  join_timer_us = 0;
  leaveall_timer_us = 9_000_000;
  periodic_timer_us = 900_000;
  leaveall_tx_pending = false;
}

wired-IsRunning : IsRunning 1_000_000 wired
wired-IsRunning = record {
  leaveall_on = omega arith;
  periodic_on = omega arith;
  leaveall_soon = omega arith;
  periodic_soon = omega arith;
  join_soon = omega arith;
}
