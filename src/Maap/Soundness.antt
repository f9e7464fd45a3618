-- ===== src/Maap/Soundness.antt =====
-- What the entry of a stream says about its address at any time, and how it is acquired.
use esp_avb.Prelude.{
  ℕ, suc, ◌+◌, ◌%◌, ◌≤◌, ◌<◌, ◌≡◌, ◌≢◌, ◌⊎◌, inl, refl, ap, arith, true, false, List, [], ◌∷◌,
}
use esp_avb.Maap.{
  EthAddr, Clock, maap_probe, maap_defend, MaapStream, MacTail, MaapMessage, probe_retransmits,
  maap_pool_size, addr_at, offset_of, generate_addr, init_stream, probe_tick, fire, tick_stream,
  reselect, conflict, process_stream, maap_init, maap_tick, process_maap,
}

-- In 91:E0:F0:00:00:00 to 91:E0:F0:00:FD:FF
pub InPool : EthAddr → Type 0
InPool a =
    (a.a0 ≡ 0x91) × (a.a1 ≡ 0xe0) × (a.a2 ≡ 0xf0) × (a.a3 ≡ 0) × (a.a4 ≤ 0xfd) × (a.a5 ≤ 0xff)

generate_addr-InPool : (m : MacTail) (i r : ℕ) → InPool (generate_addr m i r)
unfolding InPool generate_addr offset_of addr_at maap_pool_size
generate_addr-InPool m i r = ground arith

-- While probing the address is not acquired and one to three ticks are left; while defending it is
-- acquired and is the destination of the stream.
pub Phase : MaapStream → Type 0
Phase s =
    ((s.state ≡ maap_probe)
      × (s.acquired ≡ false)
      × (1 ≤ s.probe_count)
      × (s.probe_count ≤ probe_retransmits))
    ⊎ ((s.state ≡ maap_defend) × (s.acquired ≡ true) × (s.stream_dest_addr ≡ s.acquired_addr))

pub IsSound : MaapStream → Type 0
IsSound s = InPool s.acquired_addr × Phase s

init_stream-IsSound :
    (m : MacTail) (clock : Clock) (i : ℕ) (s : MaapStream) → IsSound (init_stream m clock i s).0
unfolding init_stream probe_retransmits IsSound Phase
init_stream-IsSound m clock i s =
    (generate_addr-InPool m i s.reselect_count, inl (refl, refl, ground arith, ground arith))

tick_stream-IsSound :
    (now clock : ℕ) (s : MaapStream) → IsSound s → IsSound (tick_stream now clock s).0
unfolding tick_stream fire probe_tick probe_retransmits IsSound Phase
tick_stream-IsSound now clock s h = ground arith

reselect-InPool :
    (m : MacTail) (clock : Clock) (i : ℕ) (s : MaapStream)
    → InPool (reselect m clock i s).acquired_addr
unfolding reselect
reselect-InPool m clock i s = generate_addr-InPool m i _

process_stream-IsSound :
    (m : MacTail) (clock : Clock) (i : ℕ) (msg : MaapMessage) (s : MaapStream)
    → IsSound s
    → IsSound (process_stream m clock i msg s).0
unfolding process_stream conflict reselect probe_retransmits IsSound Phase
process_stream-IsSound m clock i msg s h = ground (arith, reselect-InPool m clock i s)

-- From one conflict to the next the address moves: the addresses for two successive counts of
-- `reselect_count`, a 16-bit number that wraps, differ for every MAC and every stream number.
pub generate_addr-moves :
    (m : MacTail) (i r : ℕ) → r < 65536 → generate_addr m i ((r + 1) % 65536) ≢ generate_addr m i r
unfolding generate_addr offset_of addr_at maap_pool_size
generate_addr-moves m i r h e =
    let hi = ap (λ a. a.a4) e in let lo = ap (λ a. a.a5) e in ground arith

pub AllSound : List MaapStream → Type 0
AllSound [] = ◌≡◌ {A = ℕ} 0 0
AllSound (s ∷ ss) = IsSound s × AllSound ss

maap_init-AllSound :
    (m : MacTail) (clock : ℕ → Clock) (i : ℕ) (ss : List MaapStream)
    → AllSound (maap_init m clock i ss).0
unfolding maap_init AllSound
maap_init-AllSound m clock i [] = refl
maap_init-AllSound m clock i (s ∷ ss) =
    (init_stream-IsSound m (clock i) i s, maap_init-AllSound m clock (suc i) ss)

maap_tick-AllSound :
    (now : ℕ) (clock : ℕ → ℕ) (i : ℕ) (ss : List MaapStream)
    → AllSound ss
    → AllSound (maap_tick now clock i ss).0
unfolding maap_tick AllSound
maap_tick-AllSound now clock i [] h = refl
maap_tick-AllSound now clock i (s ∷ ss) (h, hs) =
    (tick_stream-IsSound now (clock i) s h, maap_tick-AllSound now clock (suc i) ss hs)

process_maap-AllSound :
    (m : MacTail) (clock : ℕ → Clock) (i : ℕ) (msg : MaapMessage) (ss : List MaapStream)
    → AllSound ss
    → AllSound (process_maap m clock i msg ss).0
unfolding process_maap AllSound
process_maap-AllSound m clock i msg [] h = refl
process_maap-AllSound m clock i msg (s ∷ ss) (h, hs) =
    (process_stream-IsSound m (clock i) i msg s h, process_maap-AllSound m clock (suc i) msg ss hs)

-- One call of the station: a tick or a received message, with the clock readings in it
pub data Call : Type 0 where
  call_tick : (now : ℕ) (clock : ℕ → ℕ) → Call
  call_message : (clock : ℕ → Clock) (msg : MaapMessage) → Call

pub serve : MacTail → List Call → List MaapStream → List MaapStream
serve m [] ss = ss
serve m (call_tick now clock ∷ calls) ss = serve m calls (maap_tick now clock 0 ss).0
serve m (call_message clock msg ∷ calls) ss = serve m calls (process_maap m clock 0 msg ss).0

serve-AllSound :
    (m : MacTail) (calls : List Call) (ss : List MaapStream)
    → AllSound ss
    → AllSound (serve m calls ss)
unfolding serve
serve-AllSound m [] ss h = h
serve-AllSound m (call_tick now clock ∷ calls) ss h =
    serve-AllSound m calls _ (maap_tick-AllSound now clock 0 ss h)
serve-AllSound m (call_message clock msg ∷ calls) ss h =
    serve-AllSound m calls _ (process_maap-AllSound m clock 0 msg ss h)

-- After `avb_maap_init` and any sequence of ticks and received messages, every stream has an
-- address in the MAAP pool, and either probes, with one to three ticks left and the address not
-- acquired, or defends, with the address acquired and taken as the destination of the stream.
pub maap_init-serve-AllSound :
    (m : MacTail) (clock : ℕ → Clock) (calls : List Call) (ss : List MaapStream)
    → AllSound (serve m calls (maap_init m clock 0 ss).0)
maap_init-serve-AllSound m clock calls ss =
    serve-AllSound m calls _ (maap_init-AllSound m clock 0 ss)
