-- ===== src/Mrp/Table.antt =====
-- The linear scans of mrp.c over its attribute tables: a table is a list of fixed length, and a
-- `for` loop that returns the first slot passing a test is `find_index`.
pub mod Unique
use esp_avb.Prelude.{
  ℕ, zero, suc, ◌≡◌, ◌⊎◌, inl, inr, refl, ◌∙◌, arith, Bool, true, false, ◌||◌, List, [], ◌∷◌,
  Option, none, some, if◌then◌else◌, length, get_elem?, set, length-set, get_elem?-set-some,
  get_elem?-set_ne, Option-cases,
}
use mathlib.Core.Option
use native.Mathlib.Decide.{ℕ_discrete}

module _ {ℓ} {E : Type ℓ} where
  unfoldable pub find_index : (E → Bool) → List E → Option ℕ
  find_index p [] = none
  find_index p (e ∷ es) = if p e then some 0 else Option.map suc (find_index p es)

  -- The scans for a slot to take, in their order
  unfoldable pub claim : List (E → Bool) → List E → Option ℕ
  claim [] es = none
  claim (p ∷ ps) es = elim (find_index p es) [ none ↦ claim ps es | some i ↦ some i ]

  -- Find an entry by its key or put `fresh` into the first slot that a scan offers: the table and
  -- the index of the entry, or no index.
  unfoldable pub find_or_insert : (E → Bool) → List (E → Bool) → E → List E → List E × Option ℕ
  find_or_insert key scans fresh es = elim (find_index key es) [
    | some i ↦ (es, some i)
    | none ↦ elim (claim scans es) [ none ↦ (es, none) | some i ↦ (set es i fresh, some i) ]
  ]

  -- Update the entry at an index.
  unfoldable pub modify : ℕ → (E → E) → List E → List E
  modify i f [] = []
  modify zero f (e ∷ es) = f e ∷ es
  modify (suc i) f (e ∷ es) = e ∷ modify i f es

  pub find_index-some :
      (p : E → Bool) (es : List E) (i : ℕ)
      → find_index p es ≡ some i
      → (e : E) × (get_elem? es i ≡ some e) × (p e ≡ true)
  unfolding find_index
  find_index-some p [] i h = cc
  find_index-some p (e ∷ es) zero h = (e, refl, ground arith)
  find_index-some p (e ∷ es) (suc i) h = find_index-some p es i (ground arith)

  pub find_index-none :
      (p : E → Bool) (es : List E) (i : ℕ) (e : E)
      → find_index p es ≡ none
      → get_elem? es i ≡ some e
      → p e ≡ false
  unfolding find_index
  find_index-none p [] i e h g = cc
  find_index-none p (x ∷ es) zero e h g = ground arith
  find_index-none p (x ∷ es) (suc i) e h g = find_index-none p es i e (ground arith) g

  -- Some scan of the list accepts the entry.
  unfoldable pub accepts : List (E → Bool) → E → Bool
  accepts [] e = false
  accepts (p ∷ ps) e = p e || accepts ps e

  pub claim-some :
      (ps : List (E → Bool)) (es : List E) (i : ℕ)
      → claim ps es ≡ some i
      → (e : E) × (get_elem? es i ≡ some e) × (accepts ps e ≡ true)
  unfolding claim accepts
  claim-some [] es i h = cc
  claim-some (p ∷ ps) es i h = elim (Option-cases (find_index p es)) [
    | inl n ↦ let (e, g, a) = claim-some ps es i (ground arith) in (e, g, ground arith)
    | inr (j, s) ↦ let (e, g, a) = find_index-some p es i (ground arith) in (e, g, ground arith)
  ]

  pub claim-none :
      (ps : List (E → Bool)) (es : List E) (i : ℕ) (e : E)
      → claim ps es ≡ none
      → get_elem? es i ≡ some e
      → accepts ps e ≡ false
  unfolding claim accepts
  claim-none [] es i e h g = refl
  claim-none (p ∷ ps) es i e h g = elim (Option-cases (find_index p es)) [
    | inl n ↦ ground (arith, find_index-none p es i e n g, claim-none ps es i e)
    | inr (j, s) ↦ ground arith
  ]

  -- The cases of `find_or_insert`: the entry was there, a slot was taken, or the table is full.
  pub find_or_insert-cases :
      (key : E → Bool) (ps : List (E → Bool)) (fresh : E) (es : List E)
      → ((i : ℕ) × (find_index key es ≡ some i) × (find_or_insert key ps fresh es ≡ (es, some i)))
        ⊎ ((i : ℕ) × (find_index key es ≡ none)
            × (claim ps es ≡ some i)
            × (find_or_insert key ps fresh es ≡ (set es i fresh, some i)))
        ⊎ ((find_index key es ≡ none)
            × (claim ps es ≡ none)
            × (find_or_insert key ps fresh es ≡ (es, none)))
  unfolding find_or_insert
  find_or_insert-cases key ps fresh es = elim (Option-cases (find_index key es)) [
    | inr (i, s) ↦ inl (i, s, ground arith)
    | inl n ↦ elim (Option-cases (claim ps es)) [
      | inr (i, c) ↦ inr (inl (i, n, c, ground arith))
      | inl c ↦ inr (inr (n, c, ground arith))
    ]
  ]

  taken :
      (key : E → Bool) (ps : List (E → Bool)) (fresh : E) (es : List E) {i : ℕ}
      → key fresh ≡ true
      → claim ps es ≡ some i
      → (j : ℕ) → ◌≡◌ {A = Option ℕ} (some i) (some j)
      → (e : E) × (get_elem? (set es i fresh) j ≡ some e) × (key e ≡ true)
  taken key ps fresh es {i} k c j h =
      let (x, g, a) = claim-some ps es i c in
      let same : i ≡ j = ground arith in (fresh, rw (← same) (get_elem?-set-some es i fresh x g), k)

  kept :
      (ps : List (E → Bool)) (fresh : E) (es : List E) {i : ℕ}
      → claim ps es ≡ some i
      → (j : ℕ) (e : E) → get_elem? es j ≡ some e
      → accepts ps e ≡ false
      → get_elem? (set es i fresh) j ≡ some e
  kept ps fresh es {i} c j e g a = elim (ℕ_discrete i j) [
    | yes same ↦
        let (x, gx, ax) = claim-some ps es i c in
        let gj : get_elem? es j ≡ some x = rw (← same) gx in ground arith
    | no differ ↦ get_elem?-set_ne es fresh differ ∙ g
  ]

  -- What a find-or-insert promises of a table `es`, with what it returned.
  pub record Placed (key : E → Bool) (ps : List (E → Bool)) (es : List E) (out : List E × Option ℕ)
      : Type ℓ where
    pub same_length : length out.0 ≡ length es
    pub found : (i : ℕ) → out.1 ≡ some i → (e : E) × (get_elem? out.0 i ≡ some e) × (key e ≡ true)
    pub spared :
        (j : ℕ) (e : E)
        → get_elem? es j ≡ some e
        → accepts ps e ≡ false
        → get_elem? out.0 j ≡ some e
    pub full :
        (j : ℕ) (e : E)
        → out.1 ≡ none
        → get_elem? es j ≡ some e
        → (key e ≡ false) × (accepts ps e ≡ false)

  pub find_or_insert-Placed :
      (key : E → Bool) (ps : List (E → Bool)) (fresh : E) (es : List E)
      → key fresh ≡ true
      → Placed key ps es (find_or_insert key ps fresh es)
  find_or_insert-Placed key ps fresh es k = elim (find_or_insert-cases key ps fresh es) [
    | inl (i, s, e) ↦ rw e (record {
      same_length = refl;
      found = λ j h. find_index-some key es j (s ∙ h);
      spared = λ j x g a. g;
      full = λ j x h. cc;
    })
    | inr (inl (i, n, c, e)) ↦ rw e (record {
      same_length = length-set es i fresh;
      found = λ j h. taken key ps fresh es k c j h;
      spared = λ j x g a. kept ps fresh es c j x g a;
      full = λ j x h. cc;
    })
    | inr (inr (n, c, e)) ↦ rw e (record {
      same_length = refl;
      found = λ j h. cc;
      spared = λ j x g a. g;
      full = λ j x h g. (find_index-none key es j x n g, claim-none ps es j x c g);
    })
  ]

  pub get_elem?-modify :
      (i : ℕ) (f : E → E) (es : List E) (e : E)
      → get_elem? es i ≡ some e
      → get_elem? (modify i f es) i ≡ some (f e)
  unfolding modify
  get_elem?-modify i f [] e h = cc
  get_elem?-modify zero f (x ∷ es) e h = ground arith
  get_elem?-modify (suc i) f (x ∷ es) e h = get_elem?-modify i f es e h
