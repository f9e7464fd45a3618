-- ===== src/Mrp/Pdu/Octets.antt =====
-- The packed values of a vector (`msrp_be_add`): value v carries the FirstValue plus v.
use esp_avb.Prelude.{
  ℕ, ◌+◌, ◌*◌, ◌/◌, ◌%◌, ◌≤◌, ◌<◌, ◌≡◌, refl, ◌∙◌, arith, List, [], ◌∷◌, ◌==◌, sym, ap, inl, inr,
  Bool-cases, ==_iff,
}
use esp_avb.Mrp.Pdu.{be_add_carry, be_add}
use native.Mathlib.Nat

-- The number that big-endian octets spell, and the number of values of as many octets
pub span : List ℕ → ℕ
span [] = 1
span (b ∷ bs) = 256 * span bs

pub be_value : List ℕ → ℕ
unfolding span
be_value [] = 0
be_value (b ∷ bs) = b * span bs + be_value bs

abbrev pub AllOctets : List ℕ → Type 0
AllOctets [] = Unit {0}
AllOctets (b ∷ bs) = (b < 256) × AllOctets bs

digit : (b a : ℕ) → (b + a % 256) % 256 + 256 * (a / 256 + (b + a % 256) / 256) ≡ b + a
digit b a = omega arith

scaled :
    (x c b a s v' v add : ℕ)
    → x + 256 * c ≡ b + a
    → v' + a * s ≡ v + add
    → x * s + v' + c * (256 * s) ≡ b * s + v + add
scaled x c b a s v' v add h g =
    let spread : x * s + 256 * c * s ≡ b * s + a * s =
      sym (Nat.add-mul x (256 * c) s) ∙ ap (λ n. n * s) h ∙ Nat.add-mul b a s in
    let same : c * (256 * s) ≡ 256 * c * s = grind arith in omega arith

-- Nothing is lost: the octets and what is left over make the sum.
pub be_add_carry-lem :
    (bs : List ℕ) (add : ℕ)
    → (be_value (be_add_carry bs add).0 + (be_add_carry bs add).1 * span bs ≡ be_value bs + add)
      × (span (be_add_carry bs add).0 ≡ span bs)
unfolding be_add_carry be_value span
be_add_carry-lem [] add = (omega arith, refl)
be_add_carry-lem (b ∷ bs) add =
    let (r, a) = be_add_carry bs add in
    let (value, same) = be_add_carry-lem bs add in
    elim (Bool-cases (a == 0)) [
      | inl z ↦
          rw (z, same)
            (
              let v0 = rw ((==_iff a 0).0 z) at value in rw ((==_iff a 0).0 z) (omega (arith, v0)),
              refl,
            )
      | inr z ↦
          rw (z, same)
            (
              scaled ((b + a % 256) % 256) (a / 256 + (b + a % 256) / 256) b a (span bs)
                  (be_value r) (be_value bs) add (digit b a) value,
              refl,
            )
    ]

AllOctets-be_add_carry : (bs : List ℕ) (add : ℕ) → AllOctets bs → AllOctets (be_add_carry bs add).0
unfolding be_add_carry
AllOctets-be_add_carry [] add h = tt
AllOctets-be_add_carry (b ∷ bs) add h = elim (Bool-cases ((be_add_carry bs add).1 == 0)) [
  | inl z ↦ rw z (h.0, AllOctets-be_add_carry bs add h.1)
  | inr z ↦ rw z (omega arith, AllOctets-be_add_carry bs add h.1)
]

be_value-lt-span : (bs : List ℕ) → AllOctets bs → be_value bs < span bs
unfolding be_value span
be_value-lt-span [] h = omega arith
be_value-lt-span (b ∷ bs) h =
    let rest = be_value-lt-span bs h.1 in
    let digits : (b + 1) * span bs ≤ 256 * span bs = grind arith in grind arith

-- `msrp_be_add` adds to the number that the octets spell, modulo 256 to their number, for every
-- number of octets.
pub be_add-value :
    (bs : List ℕ) (add : ℕ)
    → AllOctets bs
    → be_value (be_add bs add) ≡ (be_value bs + add) % span bs
unfolding be_add
be_add-value bs add h =
    let (sum, same) = be_add_carry-lem bs add in
    let small : be_value (be_add_carry bs add).0 < span bs =
      rw (← same) (be_value-lt-span (be_add_carry bs add).0 (AllOctets-be_add_carry bs add h)) in
    rw (← sum) (grind arith)
