-- ===== src/Maap/Tests.antt =====
-- Instances of what is proved of MAAP.
use esp_avb.Prelude.{ℕ, ◌≡◌, ◌≢◌, ◌+◌, ◌%◌, refl, arith, false, [], ◌∷◌, none}
use esp_avb.Maap.{
  EthAddr, Clock, maap_initial, maap_probe, maap_defend, MaapStream, MacTail, msg_defend,
  MaapMessage, generate_addr, init_stream, tick_stream, process_stream, maap_init, conflict,
  reselect, fire, probe_tick, probe_after, jitter_us, probe_retransmits,
}
use esp_avb.Maap.Soundness.{call_tick, AllSound, serve, maap_init-serve-AllSound}
use esp_avb.Maap.Acquire.{init-acquires, conflict-acquires}
use esp_avb.Maap.Ownership.{
  Node, rally, deliver, Step, step_tick_left, step_swap, Steps, steps_none, steps_more,
  no_two_owners,
}

abbrev station : MacTail
station = record { m2 = 1; m3 = 2; m4 = 3; m5 = 4 }

abbrev boot : Clock
boot = record { time = 5; jitter = 9 }

abbrev no_addr : EthAddr
no_addr = record { a0 = 0; a1 = 0; a2 = 0; a3 = 0; a4 = 0; a5 = 0 }

-- A stream before `avb_maap_init`
abbrev blank : MaapStream
blank = record {
  state = maap_initial;
  acquired_addr = no_addr;
  probe_count = 0;
  timer_expiry_us = 0;
  acquired = false;
  reselect_count = 0;
  stream_dest_addr = no_addr;
}

maap_init-serve-AllSound_example : AllSound (
    serve station
      (call_tick 700_000 (λ i. 700_000) ∷ [])
      (maap_init station (λ i. boot) 0 (blank ∷ blank ∷ [])).0)
maap_init-serve-AllSound_example =
    maap_init-serve-AllSound station (λ i. boot) (call_tick 700_000 (λ i. 700_000) ∷ [])
      (blank ∷ blank ∷ [])

abbrev probing : MaapStream
probing = record blank { state = maap_probe; probe_count = 2 }

abbrev defence : MaapMessage
defence = record { msg_type = msg_defend; req_start_addr = no_addr; confl_start_addr = none }

-- Two stations with different MACs
abbrev left_node : Node
left_node = record { mac = station; index = 0; clock = boot }

abbrev right_node : Node
right_node = record { mac = record station { m5 = 9 }; index = 0; clock = boot }

left_tick : ℕ → MaapStream × MaapStream → MaapStream × MaapStream
left_tick now p = rally left_node right_node (tick_stream now left_node.clock.jitter p.0) p.1

right_tick : ℕ → MaapStream × MaapStream → MaapStream × MaapStream
right_tick now p =
    let q = rally right_node left_node (tick_stream now right_node.clock.jitter p.1) p.0 in
    (q.1, q.0)

start : MaapStream × MaapStream
start =
    ((init_stream station boot 0 blank).0, (init_stream (record station { m5 = 9 }) boot 0 blank).0)

-- Both tick three times, and both own an address.
finish : MaapStream × MaapStream
finish = right_tick 4_000_000 (
    left_tick 4_000_000 (
      right_tick 2_000_000
        (left_tick 2_000_000 (right_tick 1_000_000 (left_tick 1_000_000 start)))))

left-Step : (now : ℕ) (p : MaapStream × MaapStream) → Step p (left_tick now p)
unfolding left_tick
left-Step now p = step_tick_left left_node right_node now

right-Step : (now : ℕ) (p : MaapStream × MaapStream) → Step p (right_tick now p)
unfolding right_tick
right-Step now p = step_swap (step_tick_left right_node left_node now)

path : Steps start finish
unfolding finish
path =
    steps_more
      (steps_more
        (steps_more
          (steps_more
            (steps_more (steps_more steps_none (left-Step 1_000_000 _)) (right-Step 1_000_000 _))
            (left-Step 2_000_000 _))
          (right-Step 2_000_000 _))
        (left-Step 4_000_000 _))
      (right-Step 4_000_000 _)

both_own : (finish.0.state ≡ maap_defend) × (finish.1.state ≡ maap_defend)
unfolding finish left_tick right_tick start rally deliver process_stream conflict tick_stream fire
    probe_tick init_stream generate_addr
both_own = (refl, refl)

no_two_owners_example : finish.0.acquired_addr ≢ finish.1.acquired_addr
unfolding start
no_two_owners_example =
    no_two_owners station (record station { m5 = 9 }) boot boot 0 0 blank blank finish.0 finish.1
      path both_own.0 both_own.1

init-acquires_example :
    let s0 = (init_stream station boot 0 blank).0 in
    let s1 = (tick_stream 1_000_000 0 s0).0 in
    let s2 = (tick_stream 2_000_000 0 s1).0 in
    (tick_stream 3_000_000 0 s2).0.stream_dest_addr ≡ generate_addr station 0 0
unfolding init_stream tick_stream fire probe_tick probe_after jitter_us
init-acquires_example =
    (init-acquires station boot 0 1_000_000 2_000_000 3_000_000 0 0 0 blank (omega arith)
      (omega arith) (omega arith)).5

conflict-acquires_example :
    let s0 = (process_stream station boot 0 defence probing).0 in
    let s1 = (tick_stream 1_000_000 0 s0).0 in
    let s2 = (tick_stream 2_000_000 0 s1).0 in
    (tick_stream 3_000_000 0 s2).0.stream_dest_addr ≡ generate_addr station 0 ((0 + 1) % 65536)
unfolding process_stream conflict reselect tick_stream fire probe_tick probe_after jitter_us
    probe_retransmits
conflict-acquires_example =
    (conflict-acquires station boot 0 1_000_000 2_000_000 3_000_000 0 0 0 defence probing refl refl
      refl (omega arith) (omega arith) (omega arith)).2
