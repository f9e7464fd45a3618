-- ===== src/Src/Balance.antt =====
-- The converter keeps its ratio: what it has taken, where it stands and what it still owes add up.
use esp_avb.Prelude.{
  ℕ, ◌+◌, ◌-◌, ◌*◌, ◌≤◌, ◌<◌, ◌≡◌, ◌⊎◌, inl, inr, refl, arith, true, false, if◌then◌else◌, ◌==◌,
  Bool-cases, ◌∙◌,
}
use esp_avb.Prelude.Int.{ℤ, pos, negsuc, pos_part, neg_part, ◌+ℤ◌, ◌-ℤ◌, ltb_ℤ, +ℤ_parts, -ℤ_parts}
use esp_avb.Src.{Position, clamp, begin_walk, pay, next_step, advanced, src_advance, output}

-- Between walks the position is on an input; in one it is as many units past it, or before it, as
-- the walk has taken steps.
abbrev pub Aligned : Position → Type 0
Aligned p =
    ((p.walk_left ≡ 0) × (p.frac ≡ 0))
    ⊎ ((0 < p.walk_left)
        × (p.walk_left < 4096)
        × (p.walk_step ≡ pos 1048576)
        × (p.frac + 1048576 * p.walk_left ≡ 4294967296))
    ⊎ ((0 < p.walk_left)
        × (p.walk_left < 4096)
        × (p.walk_step ≡ negsuc 1048575)
        × (p.frac ≡ 1048576 * p.walk_left))

-- What the position still has to take, and to give back: the debt, the frames asked for and the
-- rest of the walk
unfoldable pub to_take : Position → ℕ
to_take p =
    pos_part p.owed
    + 4294967296 * pos_part p.extra
    + (if neg_part p.walk_step == 0 then 1048576 * p.walk_left else 0)

unfoldable pub to_give : Position → ℕ
to_give p =
    neg_part p.owed
    + 4294967296 * neg_part p.extra
    + (if neg_part p.walk_step == 0 then 0 else 1048576 * p.walk_left)

-- An output neither loses nor gains: `taken` inputs, for one frame at the rate.
abbrev pub Balanced : ℤ → Position → Position → ℕ → Type 0
Balanced rate p p' taken =
    4294967296 * taken + p'.frac + to_take p' + to_give p + neg_part rate
    ≡ 4294967296 + p.frac + to_take p + to_give p' + pos_part rate

-- The debt stays within its limits at this output.
abbrev pub Unclamped : ℤ → Position → Type 0
Unclamped rate p = clamp (p.owed +ℤ rate) ≡ p.owed +ℤ rate

-- An output whose step is known
balances :
    (rate : ℤ) (p q : Position) (step : ℤ)
    → next_step p rate ≡ (q, step)
    → q.frac ≡ p.frac
    → neg_part step ≤ 4294967296
    → to_take q + to_give p + neg_part rate + pos_part step
      ≡ to_take p + to_give q + pos_part rate + neg_part step
    → Balanced rate p (output rate p).0 (output rate p).1
unfolding output src_advance advanced to_take to_give
balances rate p q step e f s h = rw (output, e) (omega arith)

walking :
    (rate : ℤ) (p : Position)
    → 0 < p.walk_left
    → next_step p rate
      ≡ (record p { owed = clamp (p.owed +ℤ rate); walk_left = p.walk_left - 1 }, p.walk_step)
unfolding next_step
walking rate p h = let on : (p.walk_left == 0) ≡ false = ground arith in rw on refl

-- What a step moves from the debts to the position
abbrev Moves : Position → Position → ℤ → Type 0
Moves p q step =
    (q.frac ≡ p.frac)
    × (neg_part step ≤ 4294967296)
    × (to_take q + to_give p + pos_part step ≡ to_take p + to_give q + neg_part step)

-- What `pay` does, by its cases
pay_cases {κ} :
    (P : Position × ℤ → Type κ) (p : Position)
    → (ltb_ℤ p.owed (pos 4294967296) ≡ false
        → P (begin_walk true (record p { owed = p.owed -ℤ pos 4294967296 })))
    → (ltb_ℤ (negsuc 4294967295) p.owed ≡ false
        → P (begin_walk false (record p { owed = p.owed +ℤ pos 4294967296 })))
    → (ltb_ℤ p.owed (pos 4294967296) ≡ true
        → ltb_ℤ (negsuc 4294967295) p.owed ≡ true
        → (ltb_ℤ (pos 0) p.extra ≡ true
            → P (begin_walk true (record p { extra = p.extra -ℤ pos 1 })))
          × (ltb_ℤ p.extra (pos 0) ≡ true
              → P (begin_walk false (record p { extra = p.extra +ℤ pos 1 })))
          × P (p, pos 0))
    → P (pay p)
unfolding pay
pay_cases P p up down rest = elim (Bool-cases (ltb_ℤ p.owed (pos 4294967296))) [
  | inr u ↦ rw (pay, u) (up u)
  | inl a ↦ elim (Bool-cases (ltb_ℤ (negsuc 4294967295) p.owed)) [
    | inr d ↦ rw (pay, a, d) (down d)
    | inl b ↦ elim (Bool-cases (ltb_ℤ (pos 0) p.extra)) [
      | inl more ↦ rw (pay, a, b, more) ((rest a b).0 more)
      | inr c ↦ elim (Bool-cases (ltb_ℤ p.extra (pos 0))) [
        | inl less ↦ rw (pay, a, b, c, less) ((rest a b).1 less)
        | inr d ↦ rw (pay, a, b, c, d) (rest a b).2
      ]
    ]
  ]
]

pay-Moves : (p : Position) → p.walk_left ≡ 0 → Moves p (pay p).0 (pay p).1
unfolding to_take to_give begin_walk
pay-Moves p z =
    pay_cases (λ out. Moves p out.0 out.1) p
      (λ u. (refl, ground arith, ground (arith, -ℤ_parts p.owed (pos 4294967296))))
      (λ d. (refl, ground arith, ground (arith, +ℤ_parts p.owed (pos 4294967296))))
      (λ a b. (
        λ more. (refl, ground arith, ground (arith, -ℤ_parts p.extra (pos 1))),
        λ less. (refl, ground arith, ground (arith, +ℤ_parts p.extra (pos 1))),
        (refl, ground arith, ground arith),
      ))

-- At a rate that a walk can follow, the debt stays below two frames, less what a walk in progress
-- still pays.
abbrev pub Steady : Position → Type 0
Steady p = pos_part p.owed + neg_part p.owed + 1048576 * p.walk_left < 8589934592

abbrev pub Slow : ℤ → Type 0
Slow rate = pos_part rate + neg_part rate ≤ 1048576

size_add :
    (a b : ℤ)
    → pos_part (a +ℤ b) + neg_part (a +ℤ b) ≤ pos_part a + neg_part a + (pos_part b + neg_part b)
unfolding ◌+ℤ◌
size_add a b = ground arith

Steady-Unclamped : (rate : ℤ) (p : Position) → Slow rate → Steady p → Unclamped rate p
unfolding clamp
Steady-Unclamped rate p s h = ground (arith, size_add p.owed rate)

pay-Steady :
    (p : Position)
    → p.walk_left ≡ 0
    → pos_part p.owed + neg_part p.owed < 8590983168
    → Steady (pay p).0
unfolding begin_walk
pay-Steady p z h =
    pay_cases (λ out. Steady out.0) p (λ u. ground (arith, -ℤ_parts p.owed (pos 4294967296)))
      (λ d. ground (arith, +ℤ_parts p.owed (pos 4294967296)))
      (λ a b. (λ more. ground arith, λ less. ground arith, ground arith))

pay-Aligned :
    (p : Position) → p.walk_left ≡ 0 → p.frac ≡ 0 → Aligned (src_advance (pay p).0 (pay p).1).0
unfolding begin_walk src_advance advanced
pay-Aligned p z f =
    pay_cases (λ out. Aligned (src_advance out.0 out.1).0) p (λ u. inr (inl (ground arith)))
      (λ d. inr (inr (ground arith)))
      (λ a b.
        (λ more. inr (inl (ground arith)), λ less. inr (inr (ground arith)), inl (ground arith)))

on_input : (p : Position) → p.walk_left ≡ 0 → Aligned p → p.frac ≡ 0
on_input p z (inl (h1, h2)) = h2
on_input p z (inr (inl (h1, h2, h3, h4))) = absurd (omega arith)
on_input p z (inr (inr (h1, h2, h3, h4))) = absurd (omega arith)

walking-Aligned :
    (p : Position)
    → 0 < p.walk_left
    → Aligned p
    → Aligned (src_advance (record p { walk_left = p.walk_left - 1 }) p.walk_step).0
unfolding src_advance advanced
walking-Aligned p h (inl (h1, h2)) = absurd (omega arith)
walking-Aligned p h (inr (inl (h1, h2, h3, h4))) = elim (Bool-cases (p.walk_left == 1)) [
  | inl last ↦ inl (ground arith)
  | inr more ↦ inr (inl (ground arith))
]
walking-Aligned p h (inr (inr (h1, h2, h3, h4))) = elim (Bool-cases (p.walk_left == 1)) [
  | inl last ↦ inl (ground arith)
  | inr more ↦ inr (inr (ground arith))
]

next_step-walking :
    (rate : ℤ) (p : Position)
    → 0 < p.walk_left
    → Unclamped rate p
    → next_step p rate
      ≡ (record p { owed = p.owed +ℤ rate; walk_left = p.walk_left - 1 }, p.walk_step)
next_step-walking rate p h u = walking rate p h ∙ rw u refl

next_step-resting :
    (rate : ℤ) (p : Position)
    → p.walk_left ≡ 0
    → Unclamped rate p
    → next_step p rate ≡ pay (record p { owed = p.owed +ℤ rate })
unfolding next_step
next_step-resting rate p z u =
    let off : (p.walk_left == 0) ≡ true = ground arith in rw (off, u) refl

-- The rate is added to the debt.
added :
    (rate : ℤ) (p : Position)
    → let q : Position = record p { owed = p.owed +ℤ rate } in
      to_take q + to_give p + neg_part rate ≡ to_take p + to_give q + pos_part rate
unfolding to_take to_give
added rate p = ground (arith, +ℤ_parts p.owed rate)

of_step :
    (rate : ℤ) (p q : Position) (step : ℤ)
    → next_step p rate ≡ (q, step)
    → Aligned (src_advance q step).0
    → Steady q
    → Moves (record p { owed = p.owed +ℤ rate }) q step
    → Aligned (output rate p).0
      × Steady (output rate p).0
      × Balanced rate p (output rate p).0 (output rate p).1
unfolding output src_advance
of_step rate p q step e a h (f, small, moves) = (
  rw (output, e) a,
  rw (output, e) h,
  balances rate p q step e f small (omega (arith, added rate p, moves)),
)

walking-Moves :
    (p : Position)
    → 0 < p.walk_left
    → Aligned p
    → (rate : ℤ)
    → Moves
        (record p { owed = p.owed +ℤ rate })
        (record p { owed = p.owed +ℤ rate; walk_left = p.walk_left - 1 })
        p.walk_step
unfolding to_take to_give
walking-Moves p h (inl (h1, h2)) rate = absurd (omega arith)
walking-Moves p h (inr (inl (h1, h2, h3, h4))) rate = (refl, ground arith, ground arith)
walking-Moves p h (inr (inr (h1, h2, h3, h4))) rate = (refl, ground arith, ground arith)

-- Every output keeps a position aligned, its debt within two frames, and the balance.
pub output-lem :
    (rate : ℤ) (p : Position)
    → Slow rate
    → Aligned p
    → Steady p
    → Aligned (output rate p).0
      × Steady (output rate p).0
      × Balanced rate p (output rate p).0 (output rate p).1
output-lem rate p s a h =
    let u = Steady-Unclamped rate p s h in
    let size = size_add p.owed rate in
    let owing : Position = record p { owed = p.owed +ℤ rate } in
    elim (Bool-cases (p.walk_left == 0)) [
      | inl z ↦
          let rests : p.walk_left ≡ 0 = ground arith in
          of_step rate p (pay owing).0 (pay owing).1 (next_step-resting rate p rests u)
            (pay-Aligned owing rests (on_input p rests a))
            (pay-Steady owing rests (omega (arith, size))) (pay-Moves owing rests)
      | inr w ↦
          let walks : 0 < p.walk_left = ground arith in
          of_step rate p (record owing { walk_left = p.walk_left - 1 }) p.walk_step
            (next_step-walking rate p walks u) (walking-Aligned owing walks a) (omega (arith, size))
            (walking-Moves p walks a rate)
    ]
