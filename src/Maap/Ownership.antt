-- ===== src/Maap/Ownership.antt =====
-- Two stations on one network never own the same address: every message that one sends is
-- received by the other before anything else happens, and third parties may send anything to
-- either of them at any time.
use esp_avb.Prelude.{ℕ, ◌≡◌, ◌≢◌, ap, ◌⊎◌, inl, refl, arith, true, List, [], ◌∷◌, ◌++◌}
use esp_avb.Maap.{
  Clock, maap_probe, maap_defend, MaapStream, MacTail, MaapMessage, probe_retransmits,
  addr_conflicts, send_msg, init_stream, probe_tick, fire, tick_stream, reselect, conflict,
  process_stream,
}

-- A stream receives messages one after the other.
unfoldable pub deliver :
    MacTail → Clock → ℕ → List MaapMessage → MaapStream → MaapStream × List MaapMessage
unfolding process_stream
deliver m clock i [] s = (s, [])
deliver m clock i (msg ∷ msgs) s =
    let (s1, replies) = process_stream m clock i msg s in
    let (s2, later) = deliver m clock i msgs s1 in (s2, replies ++ later)

-- A station on the network: its MAC, the number of the stream and the clock readings in the step
pub record Node : Type 0 where
  pub mac : MacTail
  pub index : ℕ
  pub clock : Clock

-- The first stream has acted and sent messages: the second receives them, and the first receives
-- the second's replies.
unfoldable pub rally :
    Node → Node → MaapStream × List MaapMessage → MaapStream → MaapStream × MaapStream
unfolding deliver
rally n k (s, sent) t =
    let (t', replies) = deliver k.mac k.clock k.index sent t in
    let (s', _) = deliver n.mac n.clock n.index replies s in (s', t')

-- A step of the pair: a tick of one of them, or a message from a third party to one of them.
pub data Step : MaapStream × MaapStream → MaapStream × MaapStream → Type 0 where
  step_tick_left :
      (n k : Node) (now : ℕ) {s t : MaapStream}
      → Step (s, t) (rally n k (tick_stream now n.clock.jitter s) t)
  step_message_left :
      (n k : Node) (msg : MaapMessage) {s t : MaapStream}
      → Step (s, t) (rally n k (process_stream n.mac n.clock n.index msg s) t)
  step_swap : {s t s' t' : MaapStream} → Step (t, s) (t', s') → Step (s, t) (s', t')

pub data Steps : MaapStream × MaapStream → MaapStream × MaapStream → Type 0 where
  steps_none : {p : MaapStream × MaapStream} → Steps p p
  steps_more : {p q r : MaapStream × MaapStream} → Steps p q → Step q r → Steps p r

-- The stream has taken its address and has not yet ticked on it.
Fresh : MaapStream → Type 0
Fresh s = (s.state ≡ maap_probe) × (s.probe_count ≡ 3)

-- The stream has been initialised.
Begun : MaapStream → Type 0
Begun s = (s.state ≡ maap_probe) ⊎ (s.state ≡ maap_defend)

-- Both have begun, and when they have one address, one of them is fresh.
Apart : MaapStream → MaapStream → Type 0
Apart s t =
    Begun s × Begun t × (addr_conflicts s.acquired_addr t.acquired_addr ≡ true → Fresh s ⊎ Fresh t)

Apart-sym : (s t : MaapStream) → Apart s t → Apart t s
unfolding Apart addr_conflicts
Apart-sym s t h = ground arith

process-Begun :
    (m : MacTail) (clock : Clock) (i : ℕ) (msg : MaapMessage) (s : MaapStream)
    → Begun s
    → Begun (process_stream m clock i msg s).0
unfolding Begun process_stream conflict reselect
process-Begun m clock i msg s h = ground arith

deliver-Begun :
    (m : MacTail) (clock : Clock) (i : ℕ) (msgs : List MaapMessage) (s : MaapStream)
    → Begun s
    → Begun (deliver m clock i msgs s).0
unfolding deliver
deliver-Begun m clock i [] s h = h
deliver-Begun m clock i (msg ∷ msgs) s h =
    deliver-Begun m clock i msgs _ (process-Begun m clock i msg s h)

tick-Begun : (now clock : ℕ) (s : MaapStream) → Begun s → Begun (tick_stream now clock s).0
unfolding Begun tick_stream fire probe_tick
tick-Begun now clock s h = ground arith

rally-Begun :
    (n k : Node) (out : MaapStream × List MaapMessage) (t : MaapStream)
    → Begun out.0
    → Begun t
    → Begun (rally n k out t).0 × Begun (rally n k out t).1
unfolding rally
rally-Begun n k (s, sent) t hs ht = (
  deliver-Begun n.mac n.clock n.index (deliver k.mac k.clock k.index sent t).1 s hs,
  deliver-Begun k.mac k.clock k.index sent t ht,
)

tick-Fresh :
    (n k : Node) (now : ℕ) (s t : MaapStream)
    → Apart s t
    → let (s', t') = rally n k (tick_stream now n.clock.jitter s) t in
      addr_conflicts s'.acquired_addr t'.acquired_addr ≡ true → Fresh s' ⊎ Fresh t'
unfolding Apart Begun Fresh rally deliver tick_stream fire probe_tick process_stream conflict
    reselect send_msg probe_retransmits addr_conflicts
tick-Fresh n k now s t h e = ground arith

message-Fresh :
    (n k : Node) (msg : MaapMessage) (s t : MaapStream)
    → Apart s t
    → let (s', t') = rally n k (process_stream n.mac n.clock n.index msg s) t in
      addr_conflicts s'.acquired_addr t'.acquired_addr ≡ true → Fresh s' ⊎ Fresh t'
unfolding Apart Begun Fresh rally deliver process_stream conflict reselect send_msg
    probe_retransmits
message-Fresh n k msg s t h e = ground arith

tick-Apart :
    (n k : Node) (now : ℕ) (s t : MaapStream)
    → Apart s t
    → let (s', t') = rally n k (tick_stream now n.clock.jitter s) t in Apart s' t'
unfolding Apart
tick-Apart n k now s t h =
    let (bs, bt) =
      rally-Begun n k (tick_stream now n.clock.jitter s) t (tick-Begun now n.clock.jitter s h.0)
        h.1 in
    (bs, bt, tick-Fresh n k now s t h)

message-Apart :
    (n k : Node) (msg : MaapMessage) (s t : MaapStream)
    → Apart s t
    → let (s', t') = rally n k (process_stream n.mac n.clock n.index msg s) t in Apart s' t'
unfolding Apart
message-Apart n k msg s t h =
    let (bs, bt) =
      rally-Begun n k (process_stream n.mac n.clock n.index msg s) t
        (process-Begun n.mac n.clock n.index msg s h.0) h.1 in
    (bs, bt, message-Fresh n k msg s t h)

Step-Apart : {p q : MaapStream × MaapStream} → Step p q → Apart p.0 p.1 → Apart q.0 q.1
Step-Apart (step_tick_left n k now) h = tick-Apart n k now _ _ h
Step-Apart (step_message_left n k msg) h = message-Apart n k msg _ _ h
Step-Apart (step_swap st) h = Apart-sym _ _ (Step-Apart st (Apart-sym _ _ h))

Steps-Apart : {p q : MaapStream × MaapStream} → Steps p q → Apart p.0 p.1 → Apart q.0 q.1
Steps-Apart steps_none h = h
Steps-Apart (steps_more more st) h = Step-Apart st (Steps-Apart more h)

init-Apart :
    (m m' : MacTail) (c c' : Clock) (i i' : ℕ) (s t : MaapStream)
    → Apart (init_stream m c i s).0 (init_stream m' c' i' t).0
unfolding Apart Begun Fresh init_stream probe_retransmits
init-Apart m m' c c' i i' s t = (inl refl, inl refl, λ e. inl (refl, refl))

both_defend :
    (s t : MaapStream)
    → Apart s t
    → s.state ≡ maap_defend
    → t.state ≡ maap_defend
    → s.acquired_addr ≢ t.acquired_addr
unfolding Apart Fresh addr_conflicts
both_defend s t h d d' e =
    let e0 = ap (λ a. a.a0) e in
    let e1 = ap (λ a. a.a1) e in
    let e2 = ap (λ a. a.a2) e in
    let e3 = ap (λ a. a.a3) e in
    let e4 = ap (λ a. a.a4) e in let e5 = ap (λ a. a.a5) e in ground arith

-- From the initialisation of two stations, whatever their MACs, clocks and stream numbers, no
-- sequence of ticks of the two and of messages from third parties makes both defend one address,
-- when each receives what the other sends before anything else happens.
pub no_two_owners :
    (m m' : MacTail) (c c' : Clock) (i i' : ℕ) (s t s' t' : MaapStream)
    → Steps ((init_stream m c i s).0, (init_stream m' c' i' t).0) (s', t')
    → s'.state ≡ maap_defend
    → t'.state ≡ maap_defend
    → s'.acquired_addr ≢ t'.acquired_addr
no_two_owners m m' c c' i i' s t s' t' path =
    both_defend s' t' (Steps-Apart path (init-Apart m m' c c' i i' s t))
