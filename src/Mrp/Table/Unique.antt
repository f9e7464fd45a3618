-- ===== src/Mrp/Table/Unique.antt =====
-- An insertion leaves at most one entry for each key.
use esp_avb.Prelude.{
  ℕ, zero, suc, ◌≡◌, ◌⊎◌, inl, inr, refl, sym, ◌∙◌, arith, Bool, true, false, List, [], ◌∷◌, none,
  some, get_elem?, set,
}
use esp_avb.Mrp.Table.{find_index, find_index-none, find_or_insert, find_or_insert-cases}

module _ {ℓ} {E : Type ℓ} where
  -- At most one slot passes the test.
  abbrev pub AtMostOne : (E → Bool) → List E → Type ℓ
  AtMostOne p es =
      (i j : ℕ) (e f : E)
      → get_elem? es i ≡ some e
      → get_elem? es j ≡ some f
      → p e ≡ true
      → p f ≡ true
      → i ≡ j

  get_elem?-set-cases :
      (es : List E) (i j : ℕ) (v x : E)
      → get_elem? (set es i v) j ≡ some x
      → ((v ≡ x) × (j ≡ i)) ⊎ (get_elem? es j ≡ some x)
  get_elem?-set-cases [] i j v x h = inr h
  get_elem?-set-cases (y ∷ es) zero zero v x h = inl (cc, refl)
  get_elem?-set-cases (y ∷ es) zero (suc j) v x h = inr h
  get_elem?-set-cases (y ∷ es) (suc i) zero v x h = inr h
  get_elem?-set-cases (y ∷ es) (suc i) (suc j) v x h = elim (get_elem?-set-cases es i j v x h) [
    | inl (e, k) ↦ inl (e, ground arith)
    | inr g ↦ inr g
  ]

  -- An entry that fails the test is written.
  other-AtMostOne :
      (p : E → Bool) (es : List E) (k : ℕ) (v : E)
      → p v ≡ false
      → AtMostOne p es
      → AtMostOne p (set es k v)
  other-AtMostOne p es k v n u i j e f gi gj pe pf = elim (get_elem?-set-cases es k i v e gi) [
    | inl (q, _) ↦ cc
    | inr gi' ↦ elim (get_elem?-set-cases es k j v f gj) [
      | inl (q, _) ↦ cc
      | inr gj' ↦ u i j e f gi' gj' pe pf
    ]
  ]

  -- The only slot with an entry that passes the test is the one written.
  only_slot :
      (p : E → Bool) (es : List E) (k i : ℕ) (v e : E)
      → find_index p es ≡ none
      → get_elem? (set es k v) i ≡ some e
      → p e ≡ true
      → i ≡ k
  only_slot p es k i v e n g pe = elim (get_elem?-set-cases es k i v e g) [
    | inl (_, q) ↦ q
    | inr g' ↦ let none_passes = find_index-none p es i e n g' in cc
  ]

  new-AtMostOne :
      (p : E → Bool) (es : List E) (k : ℕ) (v : E)
      → find_index p es ≡ none
      → AtMostOne p (set es k v)
  new-AtMostOne p es k v n i j e f gi gj pe pf =
      only_slot p es k i v e n gi pe ∙ sym (only_slot p es k j v f n gj pf)

  -- The test `p` is the key searched for, or one that the new entry fails.
  pub find_or_insert-AtMostOne :
      (key p : E → Bool) (ps : List (E → Bool)) (fresh : E) (es : List E)
      → (p ≡ key) ⊎ (p fresh ≡ false)
      → AtMostOne p es
      → AtMostOne p (find_or_insert key ps fresh es).0
  find_or_insert-AtMostOne key p ps fresh es which u = elim (find_or_insert-cases key ps fresh es) [
    | inl (i, s, e) ↦ rw e u
    | inr (inl (i, n, c, e)) ↦ rw e (elim which [
      | inl q ↦ rw q (new-AtMostOne key es i fresh n)
      | inr fails ↦ other-AtMostOne p es i fresh fails u
    ])
    | inr (inr (n, c, e)) ↦ rw e u
  ]
