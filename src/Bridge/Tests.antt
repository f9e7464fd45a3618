-- ===== src/Bridge/Tests.antt =====
-- Instances of what is proved of the bridge, and runs of its definitions.
use esp_avb.Prelude.{◌+◌, ◌-◌, ◌*◌, ◌^◌, ◌≤◌, ◌≡◌, refl, arith, true, false, List, [], ◌∷◌, some}
use esp_avb.Prelude.Int.{pos, negsuc, pos_part, neg_part}
use esp_avb.Bridge.{class_a, class_b, ForwardConfig}
use esp_avb.Bridge.Shaper.{Frame, ClassState, mtu_bytes, credit_advance, worker_class}
use esp_avb.Bridge.Credit.{IsSound}
use esp_avb.Bridge.Drain.{
  Round, bytes, Drained, worker_class-Drained, rounds, total, rounds-bandwidth,
}
use esp_avb.Bridge.Admission.{AdmissionClass, Bank, admit_class, update_admission}
use esp_avb.Bridge.Limits.{admit_class-wraps}
use esp_avb.Bridge.Accounts.{Kept, update_admission-Kept}

abbrev hundred_bytes : Frame
hundred_bytes = record { port_index = 0; sr_class = class_a; length_bytes = 100; payload = [] }

-- A class with 6 Mbps and two frames waiting
abbrev busy : ClassState
busy = record {
  idle_slope_bps = pos 6_000_000;
  link_rate_bps = pos 1_000_000_000;
  credit_max = pos (mtu_bytes * 256);
  credit_min = negsuc (mtu_bytes * 256 - 1);
  credit = pos 0;
  last_tick_us = 7;
  queue = hundred_bytes ∷ hundred_bytes ∷ [];
}

busy-IsSound : IsSound busy
busy-IsSound = record {
  max_is = refl;
  min_is = refl;
  below = omega arith;
  above = omega arith;
  slope = omega arith;
  fit = (omega arith, omega arith, (omega arith, omega arith, tt));
  depth = omega arith;
}

-- Two frames arrive before the second round, one of which cannot be copied.
abbrev two_rounds : List Round
two_rounds =
    record { arrivals = []; dt = 125 }
    ∷ record {
      arrivals =
          record { malloc_ok = true; frame = hundred_bytes }
          ∷ record { malloc_ok = false; frame = hundred_bytes }
          ∷ [];
      dt = 125;
    }
    ∷ []

rounds-bandwidth_example :
    31250 * (256 * bytes (rounds two_rounds busy).1) + 31250 * neg_part (pos 0)
    ≤ 31250 * pos_part (pos 0) + 6_000_000 * total two_rounds + 31250 * (mtu_bytes * 256)
rounds-bandwidth_example =
    rounds-bandwidth two_rounds 6_000_000 busy busy-IsSound
      (tt, ((omega arith, omega arith, (omega arith, omega arith, tt)), tt)) refl

worker_class-Drained_example : Drained (credit_advance busy 125) (worker_class 125 busy)
worker_class-Drained_example = worker_class-Drained 125 busy busy-IsSound

-- 75 Mbps admissible, 60 Mbps admitted
abbrev fast_ethernet : AdmissionClass
fast_ethernet = record {
  link_rate_bps = 100_000_000;
  admitted_bps = 60_000_000;
  cap_bps = 75_000_000;
}

abbrev one_port : Bank
one_port = record {
  ports = record { of_a = fast_ethernet; of_b = fast_ethernet } ∷ [];
  shaper = [];
}

admit_class-wraps_example :
    admit_class fast_ethernet 4_294_000_000
    ≡ some (record fast_ethernet { admitted_bps = 60_000_000 + 4_294_000_000 - 2 ^ 32 })
admit_class-wraps_example =
    admit_class-wraps fast_ethernet 4_294_000_000 (omega arith) (omega arith) (omega arith)
      (omega arith) (omega arith)

update_admission-Kept_example :
    Kept one_port 0
      (record { bps = 20_000_000; cls = class_a })
      (update_admission one_port 0
        (record { bps = 20_000_000; cls = class_a })
        class_b
        9_000_000).0.0
      (update_admission one_port 0
        (record { bps = 20_000_000; cls = class_a })
        class_b
        9_000_000).0.1
update_admission-Kept_example =
    (update_admission-Kept one_port 0 (record { of_a = fast_ethernet; of_b = fast_ethernet })
      20_000_000 class_a class_b 9_000_000 refl (omega arith) (omega arith)).0

abbrev wired_only : ForwardConfig
wired_only = record { prio_class_a = 3; prio_class_b = 2; allow_class_a_over_wifi = false }
