-- ===== src/Utils/Time.antt =====
-- Time values as microseconds.
use esp_avb.Prelude.{ℕ, ◌+◌, ◌*◌, ◌<◌, ◌≡◌, ◌↔◌, arith}
use esp_avb.Utils.{Timeval, timeval_add_ms, before, compare_timeval}

pub micros : Timeval → ℕ
micros tv = tv.tv_sec * 1000000 + tv.tv_usec

-- The microseconds of a normal time value are below a second.
abbrev pub IsNormal : Timeval → Type 0
IsNormal tv = tv.tv_usec < 1000000

add_ms-micros :
    (tv : Timeval) (ms : ℕ)
    → IsNormal tv
    → IsNormal (timeval_add_ms tv ms) × (micros (timeval_add_ms tv ms) ≡ micros tv + ms * 1000)
unfolding micros timeval_add_ms
add_ms-micros tv ms h = ground arith

compare_timeval-before :
    (a b : Timeval)
    → IsNormal a
    → IsNormal b
    → (compare_timeval a b ≡ before) ↔ (micros a < micros b)
unfolding micros compare_timeval
compare_timeval-before a b h k = ground arith

-- A deadline of `ms` milliseconds after a normal time is a normal time, and is ahead of a later
-- normal time exactly as long as fewer milliseconds have passed.
pub deadline_ahead :
    (now start : Timeval) (ms : ℕ)
    → IsNormal now
    → IsNormal start
    → IsNormal (timeval_add_ms start ms)
      × ((compare_timeval now (timeval_add_ms start ms) ≡ before)
          ↔ (micros now < micros start + ms * 1000))
deadline_ahead now start ms h k =
    let (normal, sum) = add_ms-micros start ms k in
    (normal, rw (← sum) (compare_timeval-before now (timeval_add_ms start ms) h normal))
