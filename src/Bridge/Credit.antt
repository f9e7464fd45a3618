-- ===== src/Bridge/Credit.antt =====
-- The bounds of the credit, and what each operation of the shaper keeps.
use esp_avb.Prelude.{
  ℕ, ◌-◌, ◌*◌, ◌≤◌, ◌<◌, ◌≡◌, arith, Bool, true, List, [], ◌∷◌, ◌++◌, length, length-append, ◌↔◌,
  ◌≢◌,
}
use esp_avb.Prelude.Int.{ℤ, pos, negsuc, ◌+ℤ◌, ◌-ℤ◌, ◌*ℤ◌, ◌≤ℤ◌, div_ℤ, +ℤ_parts, -ℤ_parts}
use esp_avb.Bridge.Shaper.{
  Frame, ClassState, mtu_bytes, queue_depth, credit_advance, send, class_init, enqueue_class,
  set_slope_class, accepted,
}

-- Every frame of the list has a length between 1 and the MTU.
abbrev pub AllFit : List Frame → Type 0
AllFit [] = Unit {0}
AllFit (f ∷ fs) = (1 ≤ f.length_bytes) × (f.length_bytes ≤ mtu_bytes) × AllFit fs

-- The limits are as initialised, the credit lies between them, and the queue holds at most
-- `queue_depth` frames that fit the MTU.
pub record IsSound (c : ClassState) : Type 0 where
  pub max_is : c.credit_max ≡ pos (mtu_bytes * 256)
  pub min_is : c.credit_min ≡ negsuc (mtu_bytes * 256 - 1)
  pub below : c.credit ≤ℤ pos (mtu_bytes * 256)
  pub above : negsuc (mtu_bytes * 256 - 1) ≤ℤ c.credit
  pub slope : pos 0 ≤ℤ c.idle_slope_bps
  pub fit : AllFit c.queue
  pub depth : length c.queue ≤ queue_depth

AllFit-append : (fs : List Frame) (f : Frame) → AllFit fs → AllFit (f ∷ []) → AllFit (fs ++ f ∷ [])
AllFit-append [] f a b = b
AllFit-append (g ∷ fs) f a b = (a.0, a.1, AllFit-append fs f a.2 b)

pub div_ℤ-nonneg : (a : ℤ) (n d : ℕ) → pos 0 ≤ℤ a → pos 0 ≤ℤ div_ℤ (a *ℤ pos n) d
unfolding div_ℤ ◌*ℤ◌
div_ℤ-nonneg (pos a) n d h = ground arith
div_ℤ-nonneg (negsuc a) n d h = absurd (omega arith)

pub class_init-IsSound : (wired : Bool) (now : ℕ) → IsSound (class_init wired now)
unfolding class_init ◌-ℤ◌
class_init-IsSound wired now = ground arith

-- Time keeps the shaper sound: the credit grows to `credit_max` at most.
pub credit_advance-IsSound : (c : ClassState) (dt : ℕ) → IsSound c → IsSound (credit_advance c dt)
unfolding credit_advance
credit_advance-IsSound c dt s = ground (
  arith,
  div_ℤ-nonneg c.idle_slope_bps dt 31250 s.slope,
  +ℤ_parts c.credit (div_ℤ (c.idle_slope_bps *ℤ pos dt) 31250),
)

-- The credit grows by no more than the slope gives for the time.
pub credit_advance-le :
    (c : ClassState) (dt : ℕ)
    → (credit_advance c dt).credit ≤ℤ c.credit +ℤ div_ℤ (c.idle_slope_bps *ℤ pos dt) 31250
unfolding credit_advance
credit_advance-le c dt = ground arith

pub send-exact :
    (c : ClassState) (f : Frame) (rest : List Frame)
    → IsSound c
    → c.queue ≡ f ∷ rest
    → pos 0 ≤ℤ c.credit
    → AllFit (f ∷ rest)
    → length (f ∷ rest) ≤ queue_depth
    → IsSound (send c f rest) × ((send c f rest).credit ≡ c.credit -ℤ pos (f.length_bytes * 256))
unfolding send
send-exact c f rest s e h a d =
    ground (arith, -ℤ_parts c.credit (pos (f.length_bytes * 256)), s.min_is, s.max_is)

-- `avb_fqtss_enqueue` keeps a class sound for any frame that its length guard lets through. It
-- refuses with its four codes exactly as documented: without admitted bandwidth, without memory,
-- and with a full queue, and then changes nothing; else the frame is the last of the queue.
pub enqueue_class-lem :
    (ok : Bool) (c : ClassState) (f : Frame)
    → 1 ≤ f.length_bytes
    → f.length_bytes ≤ mtu_bytes
    → IsSound c
    → let (c', status) = enqueue_class ok c f in
      IsSound c'
      × ((status ≡ accepted)
          ↔ ((c.idle_slope_bps ≢ pos 0) × (ok ≡ true) × (length c.queue < queue_depth)))
      × (status ≡ accepted → c'.queue ≡ c.queue ++ f ∷ [])
      × (status ≢ accepted → c' ≡ c)
unfolding enqueue_class
enqueue_class-lem ok c f l h s =
    ground (arith, AllFit-append c.queue f s.fit, length-append c.queue (f ∷ []))

pub set_slope_class-IsSound :
    (c : ClassState) (slope : ℕ) → IsSound c → IsSound (set_slope_class c (pos slope)).0
unfolding set_slope_class
set_slope_class-IsSound c slope s = ground arith
