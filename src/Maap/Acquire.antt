-- ===== src/Maap/Acquire.antt =====
-- The course of an acquisition that nobody contests, from the start and after a conflict.
use esp_avb.Prelude.{ℕ, ◌+◌, ◌%◌, ◌≤◌, ◌<◌, ◌≡◌, refl, ap, ◌∙◌, arith, true, [], ◌∷◌, ◌++◌, none}
use esp_avb.Maap.{
  maap_probe, maap_defend, MaapStream, MacTail, msg_probe, msg_defend, msg_announce, MaapMessage,
  Clock, probe_retransmits, generate_addr, jitter_us, probe_after, addr_conflicts, send_msg,
  init_stream, probe_tick, fire, tick_stream, reselect, conflict, process_stream,
}

-- A stream that probes with `n` ticks left
IsProbing : ℕ → MaapStream → Type 0
IsProbing n s = (s.state ≡ maap_probe) × (s.probe_count ≡ n)

-- A tick of a probing stream that is not the last, when its timer is due
probe_again :
    (n t clock : ℕ) (s : MaapStream)
    → IsProbing (n + 2) s
    → n < 200
    → s.timer_expiry_us ≤ t
    → let out = tick_stream t clock s in
      IsProbing (n + 1) out.0
      × (out.0.acquired_addr ≡ s.acquired_addr)
      × (t + 500000 ≤ out.0.timer_expiry_us)
      × (out.1 ≡ send_msg msg_probe s.acquired_addr none ∷ [])
unfolding IsProbing tick_stream fire probe_tick probe_after jitter_us
probe_again n t clock s h small due = ground arith

-- The last tick
probe_done :
    (t clock : ℕ) (s : MaapStream)
    → IsProbing 1 s
    → s.timer_expiry_us ≤ t
    → let out = tick_stream t clock s in
      (out.0.state ≡ maap_defend)
      × (out.0.acquired ≡ true)
      × (out.0.stream_dest_addr ≡ s.acquired_addr)
      × (out.1 ≡ send_msg msg_announce s.acquired_addr none ∷ [])
unfolding IsProbing tick_stream fire probe_tick
probe_done t clock s h due = ground arith

-- The course of three due ticks of a stream that starts to probe
three_ticks :
    (t1 t2 t3 c1 c2 c3 : ℕ) (s : MaapStream)
    → IsProbing 3 s
    → let (s1, sent1) = tick_stream t1 c1 s in
      let (s2, sent2) = tick_stream t2 c2 s1 in
      let (s3, sent3) = tick_stream t3 c3 s2 in
      s.timer_expiry_us ≤ t1
      → s1.timer_expiry_us ≤ t2
      → s2.timer_expiry_us ≤ t3
      → (t1 + 500000 ≤ t2)
        × (t2 + 500000 ≤ t3)
        × (s3.state ≡ maap_defend)
        × (s3.acquired ≡ true)
        × (s3.stream_dest_addr ≡ s.acquired_addr)
        × (sent1 ≡ send_msg msg_probe s.acquired_addr none ∷ [])
        × (sent2 ≡ send_msg msg_probe s.acquired_addr none ∷ [])
        × (sent3 ≡ send_msg msg_announce s.acquired_addr none ∷ [])
three_ticks t1 t2 t3 c1 c2 c3 s p d1 d2 d3 =
    let (p1, a1, b1, m1) = probe_again 1 t1 c1 s p (ground arith) d1 in
    let (p2, a2, b2, m2) = probe_again 0 t2 c2 (tick_stream t1 c1 s).0 p1 (ground arith) d2 in
    let (st, ac, de, m3) = probe_done t3 c3 _ p2 d3 in
    (
      ground arith,
      ground arith,
      st,
      ac,
      de ∙ a2 ∙ a1,
      m1,
      m2 ∙ ap (λ a. send_msg msg_probe a none ∷ []) a1,
      m3 ∙ ap (λ a. send_msg msg_announce a none ∷ []) (a2 ∙ a1),
    )

-- From `avb_maap_init`, three ticks that find the timer due and no conflict give the stream its
-- address: three probes have gone out, then the announce, and each of the three ticks comes at
-- least 0.5 s after what was sent before it.
pub init-acquires :
    (m : MacTail) (c0 : Clock) (i t1 t2 t3 c1 c2 c3 : ℕ) (s : MaapStream)
    → let (s0, sent0) = init_stream m c0 i s in
      let (s1, sent1) = tick_stream t1 c1 s0 in
      let (s2, sent2) = tick_stream t2 c2 s1 in
      let (s3, sent3) = tick_stream t3 c3 s2 in
      let addr = generate_addr m i s.reselect_count in
      s0.timer_expiry_us ≤ t1
      → s1.timer_expiry_us ≤ t2
      → s2.timer_expiry_us ≤ t3
      → (c0.time + 500000 ≤ t1)
        × (t1 + 500000 ≤ t2)
        × (t2 + 500000 ≤ t3)
        × (s3.state ≡ maap_defend)
        × (s3.acquired ≡ true)
        × (s3.stream_dest_addr ≡ addr)
        × (sent0 ++ sent1 ++ sent2 ++ sent3
            ≡ send_msg msg_probe addr none
              ∷ send_msg msg_probe addr none
              ∷ send_msg msg_probe addr none
              ∷ send_msg msg_announce addr none
              ∷ [])
unfolding init_stream IsProbing probe_after jitter_us probe_retransmits
init-acquires m c0 i t1 t2 t3 c1 c2 c3 s d1 d2 d3 =
    let (gap, gap', st, ac, de, e1, e2, e3) =
      three_ticks t1 t2 t3 c1 c2 c3 _ (refl, refl) d1 d2 d3 in
    (ground arith, gap, gap', st, ac, de, rw (e1, e2, e3) refl)

reselected :
    (m : MacTail) (c0 : Clock) (i : ℕ) (msg : MaapMessage) (s : MaapStream)
    → s.state ≡ maap_probe
    → msg.msg_type ≡ msg_defend
    → addr_conflicts s.acquired_addr msg.req_start_addr ≡ true
    → let out = process_stream m c0 i msg s in
      IsProbing 3 out.0
      × (out.0.acquired_addr ≡ generate_addr m i ((s.reselect_count + 1) % 65536))
      × (out.1 ≡ [])
unfolding IsProbing process_stream conflict reselect probe_retransmits
reselected m c0 i msg s p ty same = ground arith

-- After its probe is defended, three ticks that find the timer due and no further conflict give a
-- probing stream the next address, with two probes before the announce, one fewer than from
-- `avb_maap_init`.
pub conflict-acquires :
    (m : MacTail) (c0 : Clock) (i t1 t2 t3 c1 c2 c3 : ℕ) (msg : MaapMessage) (s : MaapStream)
    → s.state ≡ maap_probe
    → msg.msg_type ≡ msg_defend
    → addr_conflicts s.acquired_addr msg.req_start_addr ≡ true
    → let (s0, sent0) = process_stream m c0 i msg s in
      let (s1, sent1) = tick_stream t1 c1 s0 in
      let (s2, sent2) = tick_stream t2 c2 s1 in
      let (s3, sent3) = tick_stream t3 c3 s2 in
      let addr = generate_addr m i ((s.reselect_count + 1) % 65536) in
      s0.timer_expiry_us ≤ t1
      → s1.timer_expiry_us ≤ t2
      → s2.timer_expiry_us ≤ t3
      → (s3.state ≡ maap_defend)
        × (s3.acquired ≡ true)
        × (s3.stream_dest_addr ≡ addr)
        × (sent0 ++ sent1 ++ sent2 ++ sent3
            ≡ send_msg msg_probe addr none
              ∷ send_msg msg_probe addr none
              ∷ send_msg msg_announce addr none
              ∷ [])
conflict-acquires m c0 i t1 t2 t3 c1 c2 c3 msg s p ty same d1 d2 d3 =
    let (p0, a0, e0) = reselected m c0 i msg s p ty same in
    let (gap, gap', st, ac, de, e1, e2, e3) = three_ticks t1 t2 t3 c1 c2 c3 _ p0 d1 d2 d3 in
    (st, ac, de ∙ a0, rw (e0, e1, e2, e3, a0) refl)
