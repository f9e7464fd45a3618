-- ===== src/Prelude/Results.antt =====
-- Chains of steps that may fail, on the library's options.
use esp_avb.Prelude.Tests.{if◌then◌else◌}
use mathlib.Core.Path.{◌≡◌, refl, subst}
use mathlib.Core.Bool.{Bool, true, false}
use native.Mathlib.Omega.{arith}
use mathlib.Core.Option.{Option, none, some}

infixl 5 ◌>>=◌
abbrev pub ◌>>=◌ {ℓ κ} : {A : Type ℓ} {B : Type κ} → Option A → (A → Option B) → Option B
none >>= f = none
some a >>= f = f a

-- A computation succeeds, or: what it gives, if it gives anything, has a property.
abbrev pub Succeeds {ℓ} : {A : Type ℓ} → Option A → Type ℓ
Succeeds {A = A} m = (a : A) × (m ≡ some a)

pub record Yields {ℓ κ} {A : Type ℓ} (P : A → Type κ) (m : Option A) : Type (ℓ ⊔ κ) where
  pub given : (a : A) → m ≡ some a → P a

module _ {ℓ κ} {A : Type ℓ} {B : Type κ} where
  pub >>=-Succeeds :
      (m : Option A) (f : A → Option B)
      → Succeeds m
      → ((a : A) → m ≡ some a → Succeeds (f a))
      → Succeeds (m >>= f)
  >>=-Succeeds none f h k = cc (h.1)
  >>=-Succeeds (some a) f h k = k a refl

  pub elim-Succeeds :
      (o : Option A) (m : Option B) (f : A → Option B)
      → (o ≡ none → Succeeds m)
      → ((a : A) → o ≡ some a → Succeeds (f a))
      → Succeeds (elim o [ none ↦ m | some a ↦ f a ])
  elim-Succeeds none m f h k = h refl
  elim-Succeeds (some a) m f h k = k a refl

  module _ {ν} (P : B → Type ν) where
    pub >>=-Yields :
        (m : Option A) (f : A → Option B)
        → ((a : A) → m ≡ some a → Yields P (f a))
        → Yields P (m >>= f)
    >>=-Yields none f k = record { given = λ b h. cc }
    >>=-Yields (some a) f k = k a refl

    pub elim-Yields :
        (o : Option A) (m : Option B) (f : A → Option B)
        → (o ≡ none → Yields P m)
        → ((a : A) → o ≡ some a → Yields P (f a))
        → Yields P (elim o [ none ↦ m | some a ↦ f a ])
    elim-Yields none m f h k = h refl
    elim-Yields (some a) m f h k = k a refl

module _ {ℓ} {A : Type ℓ} where
  pub if-Succeeds :
      (b : Bool) (m n : Option A)
      → (b ≡ true → Succeeds m)
      → (b ≡ false → Succeeds n)
      → Succeeds (if b then m else n)
  if-Succeeds true m n h k = h refl
  if-Succeeds false m n h k = k refl

  module _ {ν} (P : A → Type ν) where
    pub if-Yields :
        (b : Bool) (m n : Option A)
        → (b ≡ true → Yields P m)
        → (b ≡ false → Yields P n)
        → Yields P (if b then m else n)
    if-Yields true m n h k = h refl
    if-Yields false m n h k = k refl

    pub some-Yields : (a : A) → P a → Yields P (some a)
    some-Yields a h = record { given = λ b e. subst P (ground arith) h }

    pub none-Yields : Yields P none
    none-Yields = record { given = λ b h. cc }
