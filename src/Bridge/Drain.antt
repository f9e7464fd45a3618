-- ===== src/Bridge/Drain.antt =====
-- The drain loop of `fqtss_worker`: it ends, takes the frames in order, and keeps to the admitted
-- bandwidth. The egress is a stub that frees the payload: a frame is taken for transmission here.
use esp_avb.Prelude.{
  ℕ, zero, suc, ◌+◌, ◌*◌, ◌≤◌, ◌<◌, ◌≡◌, ◌⊎◌, inl, inr, refl, ap, ◌∙◌, arith, Bool, true, List, [],
  ◌∷◌, ◌++◌, none, some, length, Bool-cases,
}
use esp_avb.Prelude.Int.{ℤ, pos, ◌+ℤ◌, ◌-ℤ◌, ◌*ℤ◌, ◌≤ℤ◌, ltb_ℤ, div_ℤ, pos_part, neg_part, +ℤ_parts}
use esp_avb.Bridge.Shaper.{
  Frame, ClassState, mtu_bytes, queue_depth, credit_advance, send, try_send_one, drain,
  worker_class, enqueue_class,
}
use esp_avb.Bridge.Credit.{
  enqueue_class-lem, AllFit, IsSound, send-exact, credit_advance-IsSound, credit_advance-le,
}

-- The bytes of the frames
abbrev pub bytes : List Frame → ℕ
bytes [] = 0
bytes (f ∷ fs) = f.length_bytes + bytes fs

-- One frame taken, or none: none if the queue is empty or the credit negative, and then nothing changes.
try_send-cases :
    (c : ClassState) (q : List Frame)
    → c.queue ≡ q
    → ((try_send_one c ≡ (c, none)) × ((c.queue ≡ []) ⊎ (ltb_ℤ c.credit (pos 0) ≡ true)))
      ⊎ ((f : Frame) × (rest : List Frame) × (q ≡ f ∷ rest)
          × (try_send_one c ≡ (send c f rest, some f))
          × (pos 0 ≤ℤ c.credit))
unfolding try_send_one
try_send-cases c [] e = inl (ground arith, inl e)
try_send-cases c (f ∷ rest) e = elim (Bool-cases (ltb_ℤ c.credit (pos 0))) [
  | inl owes ↦ inl (ground arith, inr owes)
  | inr can ↦ inr (f, rest, refl, ground arith, ground arith)
]

-- What a run of the loop from `c` has done when it ends with `out`: the class is sound, the frames
-- taken are the front of the queue in order, they cost exactly their bytes, and no further frame
-- can be taken.
pub record Drained (c : ClassState) (out : ClassState × List Frame) : Type 0 where
  pub sound : IsSound out.0
  pub order : c.queue ≡ out.1 ++ out.0.queue
  pub cost : out.0.credit +ℤ pos (bytes out.1 * 256) ≡ c.credit
  pub stops : (out.0.queue ≡ []) ⊎ (ltb_ℤ out.0.credit (pos 0) ≡ true)
  pub same_slope : out.0.idle_slope_bps ≡ c.idle_slope_bps

plus_zero : (a : ℤ) → a +ℤ pos (0 * 256) ≡ a
unfolding ◌+ℤ◌
plus_zero a = ground arith

cost-cons :
    (a b : ℤ) (n m : ℕ) → a +ℤ pos (m * 256) ≡ b -ℤ pos (n * 256) → a +ℤ pos ((n + m) * 256) ≡ b
unfolding ◌+ℤ◌ ◌-ℤ◌
cost-cons a b n m h = ground arith

Drained-cons :
    (c : ClassState) (f : Frame) (rest : List Frame) (out : ClassState × List Frame)
    → c.queue ≡ f ∷ rest
    → (send c f rest).credit ≡ c.credit -ℤ pos (f.length_bytes * 256)
    → Drained (send c f rest) out
    → Drained c (out.0, f ∷ out.1)
unfolding send
Drained-cons c f rest out e x d = record {
  sound = d.sound;
  order = e ∙ ap (λ t. f ∷ t) d.order;
  cost = cost-cons out.0.credit c.credit f.length_bytes (bytes out.1) (d.cost ∙ x);
  stops = d.stops;
  same_slope = d.same_slope;
}

module _ (c : ClassState) {f : Frame} {rest : List Frame} (q : c.queue ≡ f ∷ rest) where
  head_fits : IsSound c → AllFit (f ∷ rest)
  head_fits s = rw q at s.fit

  head_depth : IsSound c → length (f ∷ rest) ≤ queue_depth
  head_depth s = rw q at s.depth

  rest_short : {fuel : ℕ} → length c.queue < suc fuel → length (send c f rest).queue < fuel
  unfolding send
  rest_short h = omega (arith, ap length q)

-- With more fuel than there are frames in the queue the loop ends by its own test.
pub drain-Drained :
    (fuel : ℕ) (c : ClassState) → length c.queue < fuel → IsSound c → Drained c (drain fuel c)
unfolding drain
drain-Drained zero c h s = absurd (omega arith)
drain-Drained (suc fuel) c h s = elim (try_send-cases c c.queue refl) [
  | inl (e, w) ↦
      rw (e, drain, e)
        (record {
          sound = s;
          order = refl;
          cost = plus_zero c.credit;
          stops = w;
          same_slope = refl;
        })
  | inr (f, rest, q, e, can) ↦
      let x = send-exact c f rest s q can (head_fits c q s) (head_depth c q s) in
      rw (e, drain, e)
        (Drained-cons c f rest (drain fuel (send c f rest)) q x.1
          (drain-Drained fuel (send c f rest) (rest_short c q h) x.0))
]

-- A round of the worker for a sound class ends: the class stays sound, the frames taken from the
-- queue are its front in order, at exactly their bytes of the credit that the time has given, and it
-- stops only at an empty queue or a negative credit.
pub worker_class-Drained :
    (dt : ℕ) (c : ClassState) → IsSound c → Drained (credit_advance c dt) (worker_class dt c)
unfolding worker_class credit_advance
worker_class-Drained dt c s =
    drain-Drained (suc (length c.queue)) (credit_advance c dt) (omega arith)
      (credit_advance-IsSound c dt s)

-- A frame that arrives for the class, with whether its copy can be allocated
pub record Arrival : Type 0 where
  pub malloc_ok : Bool
  pub frame : Frame

-- What comes before a round of the worker, and the time of the round
pub record Round : Type 0 where
  pub arrivals : List Arrival
  pub dt : ℕ

-- The frames that arrive are enqueued, each accepted or refused as the code does.
unfoldable pub arrive : List Arrival → ClassState → ClassState
arrive [] c = c
arrive (a ∷ arrivals) c = arrive arrivals (enqueue_class a.malloc_ok c a.frame).0

-- Every frame that arrives passes the length guard of `avb_fqtss_enqueue`.
abbrev pub AllArrivalsFit : List Arrival → Type 0
AllArrivalsFit [] = Unit {0}
AllArrivalsFit (a ∷ arrivals) =
    (1 ≤ a.frame.length_bytes) × (a.frame.length_bytes ≤ mtu_bytes) × AllArrivalsFit arrivals

abbrev pub AllRoundsFit : List Round → Type 0
AllRoundsFit [] = Unit {0}
AllRoundsFit (r ∷ rs) = AllArrivalsFit r.arrivals × AllRoundsFit rs

-- The worker's rounds for one class, each after what arrives, with the frames of all rounds
unfoldable pub rounds : List Round → ClassState → ClassState × List Frame
rounds [] c = (c, [])
rounds (r ∷ rs) c =
    let (c', taken) = worker_class r.dt (arrive r.arrivals c) in
    let (c'', later) = rounds rs c' in (c'', taken ++ later)

abbrev pub total : List Round → ℕ
total [] = 0
total (r ∷ rs) = r.dt + total rs

enqueue_class-keeps :
    (ok : Bool) (c : ClassState) (f : Frame)
    → let c' = (enqueue_class ok c f).0 in
      (c'.credit ≡ c.credit) × (c'.idle_slope_bps ≡ c.idle_slope_bps)
unfolding enqueue_class
enqueue_class-keeps ok c f = ground arith

arrive-lem :
    (arrivals : List Arrival) (c : ClassState)
    → AllArrivalsFit arrivals
    → IsSound c
    → let c' = arrive arrivals c in
      IsSound c' × (c'.credit ≡ c.credit) × (c'.idle_slope_bps ≡ c.idle_slope_bps)
unfolding arrive
arrive-lem [] c fit s = (s, refl, refl)
arrive-lem (a ∷ arrivals) c fit s =
    let (credit, slope) = enqueue_class-keeps a.malloc_ok c a.frame in
    let (sound, credit', slope') =
      arrive-lem arrivals (enqueue_class a.malloc_ok c a.frame).0 fit.2
        (enqueue_class-lem a.malloc_ok c a.frame fit.0 fit.1 s).0 in
    (sound, credit' ∙ credit, slope' ∙ slope)

bytes-append : (fs gs : List Frame) → bytes (fs ++ gs) ≡ bytes fs + bytes gs
bytes-append [] gs = omega arith
bytes-append (f ∷ fs) gs = omega (arith, bytes-append fs gs)

delta-le :
    (slope dt : ℕ)
    → (31250 * pos_part (div_ℤ (pos slope *ℤ pos dt) 31250) ≤ slope * dt)
      × (neg_part (div_ℤ (pos slope *ℤ pos dt) 31250) ≡ 0)
unfolding div_ℤ ◌*ℤ◌
delta-le slope dt = ground arith

slope-advance : (c : ClassState) (dt : ℕ) → (credit_advance c dt).idle_slope_bps ≡ c.idle_slope_bps
unfolding credit_advance
slope-advance c dt = refl

-- One round pays its bytes out of the credit at its start and what the slope gives for its time.
round_cost :
    (slope dt : ℕ) (c : ClassState)
    → c.idle_slope_bps ≡ pos slope
    → (out : ClassState × List Frame) → Drained (credit_advance c dt) out
    → 31250 * pos_part out.0.credit + 31250 * (256 * bytes out.1) + 31250 * neg_part c.credit
      ≤ 31250 * pos_part c.credit + 31250 * neg_part out.0.credit + slope * dt
round_cost slope dt c e out d =
    let gained : (credit_advance c dt).credit ≤ℤ c.credit +ℤ div_ℤ (pos slope *ℤ pos dt) 31250 =
      rw (← e) (credit_advance-le c dt) in
    omega (
      arith,
      gained,
      ap pos_part d.cost,
      ap neg_part d.cost,
      +ℤ_parts out.0.credit (pos (bytes out.1 * 256)),
      +ℤ_parts c.credit (div_ℤ (pos slope *ℤ pos dt) 31250),
      delta-le slope dt,
    )

-- The bandwidth of a class: over any rounds of the worker, with any frames of a length that
-- `avb_fqtss_enqueue` lets through enqueued before each, what it takes from the queue for
-- transmission is bounded by its credit at the start, the credit that the slope gives for the whole
-- time, and one MTU of debt. Bytes are counted times 256, and credits over the denominator 31250.
pub rounds-bandwidth :
    (rs : List Round) (slope : ℕ) (c : ClassState)
    → IsSound c
    → AllRoundsFit rs
    → c.idle_slope_bps ≡ pos slope
    → 31250 * (256 * bytes (rounds rs c).1) + 31250 * neg_part c.credit
      ≤ 31250 * pos_part c.credit + slope * total rs + 31250 * (mtu_bytes * 256)
unfolding rounds
rounds-bandwidth [] slope c s fit e = omega (arith, s.above)
rounds-bandwidth (r ∷ rs) slope c s fit e =
    let c1 = arrive r.arrivals c in
    let (sound, credit, kept) = arrive-lem r.arrivals c fit.0 s in
    let d = worker_class-Drained r.dt c1 sound in
    omega (
      arith,
      rounds-bandwidth rs slope (worker_class r.dt c1).0 d.sound fit.1
          (d.same_slope ∙ slope-advance c1 r.dt ∙ kept ∙ e),
      bytes-append (worker_class r.dt c1).1 (rounds rs (worker_class r.dt c1).0).1,
      round_cost slope r.dt c1 (kept ∙ e) (worker_class r.dt c1) d,
      ap pos_part credit,
      ap neg_part credit,
    )
