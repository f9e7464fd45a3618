-- ===== src/Atdecc/Listeners/Rows.antt =====
-- The row that the search for a listener gives is one of the listener itself or of none that ACMP has
-- connected.
use esp_avb.Prelude.{
  ℕ, zero, suc, ◌+◌, ◌≤◌, ◌<◌, ◌≡◌, ◌≢◌, ◌⊎◌, inl, inr, refl, ap, arith, true, false, List, [], ◌∷◌,
  ◌++◌, Option, none, some, leb, length, get_elem?, ◌∙◌, Bool-cases, Option-cases, ==_refl,
}
use esp_avb.Mrp.Table.{find_index, find_index-some, modify, get_elem?-modify}
use esp_avb.Atdecc.Listeners.{
  Row, max_connected_listeners, is_identity, find_by_identity, find_by_entity, waiting_entity,
  pending_next, sole_pending, identify, new_row, mergeable, find_or_add,
}

waiting_entity-get_elem? :
    (id : ℕ) (rs : List Row) (i : ℕ)
    → waiting_entity id rs ≡ some i
    → (r : Row) × (get_elem? rs i ≡ some r) × (r.acmp_connected ≡ false)
unfolding waiting_entity
waiting_entity-get_elem? id rs i h = elim (Option-cases (find_by_entity id rs)) [
  | inl n ↦ ground arith
  | inr (k, f) ↦ elim (Option-cases (get_elem? rs k)) [
    | inl n ↦ ground arith
    | inr (r, g) ↦ elim (Bool-cases r.acmp_connected) [
      | inl on ↦ ground arith
      | inr off ↦ let same : k ≡ i = ground arith in (r, rw (← same) g, off)
    ]
  ]
]

pending_next-cases :
    (k : ℕ) (found found' : Option ℕ) (r : Row)
    → pending_next k found r ≡ some found'
    → (found' ≡ found) ⊎ ((found' ≡ some k) × (r.acmp_connected ≡ false))
unfolding pending_next
pending_next-cases k found found' r h = ground arith

sole_pending-get_elem? :
    (rs : List Row) (k : ℕ) (found : Option ℕ) (i : ℕ)
    → sole_pending rs k found ≡ some i
    → (found ≡ some i)
      ⊎ ((n : ℕ) × (r : Row) × (i ≡ k + n) × (get_elem? rs n ≡ some r) × (r.acmp_connected ≡ false))
unfolding sole_pending
sole_pending-get_elem? [] k found i h = inl h
sole_pending-get_elem? (x ∷ rs) k found i h = elim (Option-cases (pending_next k found x)) [
  | inl n ↦ ground arith
  | inr (found', p) ↦
      let rest : sole_pending rs (k + 1) found' ≡ some i = rw (sole_pending, p) at h in
      elim (sole_pending-get_elem? rs (k + 1) found' i rest) [
        | inr (n, r, e, g, off) ↦ inr (suc n, r, omega (arith, e), g, off)
        | inl e ↦ elim (pending_next-cases k found found' x p) [
          | inl same ↦ inl cc
          | inr (here, off) ↦
              let at : i ≡ k = ground arith in inr (0, x, omega (arith, at), refl, off)
        ]
      ]
]

mergeable-get_elem? :
    (id : ℕ) (rs : List Row) (i : ℕ)
    → mergeable id rs ≡ some i
    → (r : Row) × (get_elem? rs i ≡ some r) × (r.acmp_connected ≡ false)
unfolding mergeable
mergeable-get_elem? id rs i h = elim (Option-cases (waiting_entity id rs)) [
  | inr (k, w) ↦ let same : k ≡ i = ground arith in waiting_entity-get_elem? id rs i (rw same at w)
  | inl n ↦
      let scan : sole_pending rs 0 none ≡ some i = rw (mergeable, n) at h in
      elim (sole_pending-get_elem? rs 0 none i scan) [
        | inl e ↦ cc
        | inr (k, r, e, g, off) ↦ let same : i ≡ k = omega (arith, e) in (r, rw same g, off)
      ]
]

pub get_elem?-modify_ne :
    (i j : ℕ) (f : Row → Row) (rs : List Row) → j ≢ i → get_elem? (modify i f rs) j ≡ get_elem? rs j
unfolding modify
get_elem?-modify_ne i j f [] n = refl
get_elem?-modify_ne zero zero f (r ∷ rs) n = absurd (n refl)
get_elem?-modify_ne zero (suc j) f (r ∷ rs) n = refl
get_elem?-modify_ne (suc i) zero f (r ∷ rs) n = refl
get_elem?-modify_ne (suc i) (suc j) f (r ∷ rs) n = get_elem?-modify_ne i j f rs (λ e. n (ap suc e))

-- What a table is after the search for a row: the row's index with the table, or a full table.
pub data Found (id uid : ℕ) (rs : List Row) : List Row × Option ℕ → Type 0 where
  known : (i : ℕ) → find_index (is_identity id uid) rs ≡ some i → Found id uid rs (rs, some i)
  merged :
      (i : ℕ) (r : Row)
      → get_elem? rs i ≡ some r
      → r.acmp_connected ≡ false
      → Found id uid rs (modify i (identify id uid) rs, some i)
  full : find_by_identity id uid rs ≡ none → 10 ≤ length rs → Found id uid rs (rs, none)
  added : Found id uid rs (rs ++ new_row id uid ∷ [], some (length rs))

pub find_or_add-Found : (id uid : ℕ) (rs : List Row) → Found id uid rs (find_or_add id uid rs)
unfolding find_or_add find_by_identity
find_or_add-Found id uid rs = elim (Option-cases (find_index (is_identity id uid) rs)) [
  | inr (i, f) ↦ rw (find_or_add, f) (known i f)
  | inl n ↦ elim (Option-cases (mergeable id rs)) [
    | inr (i, m) ↦
        let (r, g, off) = mergeable-get_elem? id rs i m in rw (find_or_add, n, m) (merged i r g off)
    | inl o ↦ elim (Bool-cases (leb max_connected_listeners (length rs))) [
      | inl big ↦ rw (find_or_add, n, o, big) (full n (ground arith))
      | inr small ↦ rw (find_or_add, n, o, small) added
    ]
  ]
]

get_elem?-last : (rs : List Row) (r : Row) → get_elem? (rs ++ r ∷ []) (length rs) ≡ some r
get_elem?-last [] r = refl
get_elem?-last (x ∷ rs) r = get_elem?-last rs r

get_elem?-before :
    (rs : List Row) (r : Row) (j : ℕ) (x : Row)
    → get_elem? rs j ≡ some x
    → (get_elem? (rs ++ r ∷ []) j ≡ some x) × (j < length rs)
get_elem?-before [] r j x h = cc
get_elem?-before (y ∷ rs) r zero x h = (h, omega arith)
get_elem?-before (y ∷ rs) r (suc j) x h =
    let (at, l) = get_elem?-before rs r j x h in (at, omega (arith, l))

-- Every connected row but the requester's keeps its place and stands at another index than the
-- requester's.
pub Found-kept :
    (id uid : ℕ) (rs : List Row) (out : List Row × Option ℕ) (j : ℕ) (x : Row)
    → Found id uid rs out
    → get_elem? rs j ≡ some x
    → x.acmp_connected ≡ true
    → is_identity id uid x ≡ false
    → (get_elem? out.0 j ≡ some x) × ((i : ℕ) → out.1 ≡ some i → j ≢ i)
Found-kept id uid rs out j x (known i f) at on other = (
  at,
  λ k h e.
      let (r, g, same) = find_index-some (is_identity id uid) rs i f in
      let k_is : i ≡ k = ground arith in
      let both : get_elem? rs j ≡ some r = rw (e, ← k_is) g in cc,
)
Found-kept id uid rs out j x (merged i r g off) at on other =
    let apart : (j ≢ i) = λ e. (let both : get_elem? rs j ≡ some r = rw e g in cc) in
    (get_elem?-modify_ne i j (identify id uid) rs apart ∙ at, λ k h e. apart (ground arith))
Found-kept id uid rs out j x (full o l) at on other = (at, λ k h e. cc)
Found-kept id uid rs out j x added at on other =
    let (there, l) = get_elem?-before rs (new_row id uid) j x at in
    (there, λ k h e. let k_is : length rs ≡ k = ground arith in omega (arith, l, e, k_is))

-- The requester's row after the search
pub Found-row :
    (id uid : ℕ) (rs : List Row) (out : List Row × Option ℕ) (i : ℕ)
    → Found id uid rs out
    → out.1 ≡ some i
    → (r : Row) × (get_elem? out.0 i ≡ some r) × (is_identity id uid r ≡ true)
unfolding is_identity identify new_row
Found-row id uid rs out i (known k f) h = find_index-some (is_identity id uid) rs i (f ∙ h)
Found-row id uid rs out i (merged k r g off) h =
    let same : i ≡ k = ground arith in
    (
      identify id uid r,
      rw same (get_elem?-modify k (identify id uid) rs r g),
      ground (arith, ==_refl id, ==_refl uid),
    )
Found-row id uid rs out i (full o l) h = cc
Found-row id uid rs out i added h =
    let same : i ≡ length rs = ground arith in
    (
      new_row id uid,
      rw same (get_elem?-last rs (new_row id uid)),
      ground (arith, ==_refl id, ==_refl uid),
    )

pub Found-full :
    (id uid : ℕ) (rs : List Row) (out : List Row × Option ℕ)
    → Found id uid rs out
    → out.1 ≡ none
    → (find_by_identity id uid rs ≡ none) × (10 ≤ length rs)
Found-full id uid rs out (known k f) h = cc
Found-full id uid rs out (merged k r g off) h = cc
Found-full id uid rs out (full o l) h = (o, l)
Found-full id uid rs out added h = cc
