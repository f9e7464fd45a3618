-- ===== src/Mrp/Attributes/Slots.antt =====
-- What an insertion does to a table of talkers or listeners.
use esp_avb.Prelude.{
  Bool-cases, refl, inl, inr, false, ℕ, ◌≡◌, ◌≢◌, ◌⊎◌, arith, true, false, List, [], ◌∷◌, none,
  some, ==_refl, length, get_elem?,
}
use esp_avb.Mrp.{applicant_vo, registrar_mt, tx_none}
use esp_avb.Mrp.Table.Unique.{AtMostOne, find_or_insert-AtMostOne}
use esp_avb.Mrp.Table.{find_or_insert-Placed, Placed, accepts}
use esp_avb.Mrp.Attributes.{
  same_type, TalkerType, talker_advertise, talker_failed, TalkerEntry, is_talker, fresh_talker,
  talker_unused, talker_idle, talker_find_or_insert,
}

-- An attribute of a talker that is registered, declared, about to be sent, or held off
pub IsLive : TalkerEntry → Type 0
IsLive e =
    (e.valid ≡ true)
    × ((e.sm.registrar ≢ registrar_mt)
        ⊎ (e.sm.applicant ≢ applicant_vo)
        ⊎ (e.sm.pending_tx ≢ tx_none)
        ⊎ (e.redeclare_after_us ≢ 0))

live_refused : (e : TalkerEntry) → IsLive e → accepts (talker_unused ∷ talker_idle ∷ []) e ≡ false
unfolding IsLive accepts talker_unused talker_idle
live_refused e l = ground arith

is_talker-fresh : (id : ℕ) (ty : TalkerType) → is_talker id ty (fresh_talker id ty) ≡ true
unfolding is_talker fresh_talker
is_talker-fresh id talker_advertise = ==_refl id
is_talker-fresh id talker_failed = ==_refl id

placed :
    (es : List TalkerEntry) (id : ℕ) (ty : TalkerType)
    → Placed
        (is_talker id ty)
        (talker_unused ∷ talker_idle ∷ [])
        es
        (talker_find_or_insert es id ty)
unfolding talker_find_or_insert
placed es id ty =
    find_or_insert-Placed (is_talker id ty) (talker_unused ∷ talker_idle ∷ []) (fresh_talker id ty)
      es (is_talker-fresh id ty)

not_taken :
    (e : TalkerEntry) (id : ℕ) (ty : TalkerType)
    → (is_talker id ty e ≡ false) × (accepts (talker_unused ∷ talker_idle ∷ []) e ≡ false)
    → (e.valid ≡ true) × (is_talker id ty e ≡ false) × (talker_idle e ≡ false)
unfolding accepts talker_unused
not_taken e id ty h = ground arith

-- `msrp_talker_find_or_insert` keeps the size of the table and every live attribute in its slot;
-- the slot that it returns holds the stream and type asked for; and it returns none only when every
-- slot holds a valid attribute, none of them the one asked for.
pub talker_find_or_insert-lem :
    (es : List TalkerEntry) (id : ℕ) (ty : TalkerType)
    → let (es', slot) = talker_find_or_insert es id ty in
      (length es' ≡ length es)
      × ((j : ℕ) (e : TalkerEntry) → get_elem? es j ≡ some e → IsLive e → get_elem? es' j ≡ some e)
      × ((i : ℕ)
          → slot ≡ some i
          → (e : TalkerEntry) × (get_elem? es' i ≡ some e) × (is_talker id ty e ≡ true))
      × ((j : ℕ) (e : TalkerEntry)
          → slot ≡ none
          → get_elem? es j ≡ some e
          → (e.valid ≡ true) × (is_talker id ty e ≡ false) × (talker_idle e ≡ false))
talker_find_or_insert-lem es id ty =
    let p = placed es id ty in
    (
      p.same_length,
      λ j e g l. p.spared j e g (live_refused e l),
      p.found,
      λ j e n g. not_taken e id ty (p.full j e n g),
    )

same_key :
    (id id2 : ℕ) (ty ty2 : TalkerType)
    → is_talker id2 ty2 (fresh_talker id ty) ≡ true
    → (id2 ≡ id) × (ty2 ≡ ty)
unfolding is_talker fresh_talker same_type
same_key id id2 ty ty2 h = ground arith

-- The table of talkers has at most one valid entry for each stream and type.
unfoldable pub IsKeyed : List TalkerEntry → Type 0
IsKeyed es = (id : ℕ) (ty : TalkerType) → AtMostOne (is_talker id ty) es

-- `msrp_talker_find_or_insert` keeps at most one valid entry for each stream and type in the table,
-- whichever slot it takes.
pub talker_find_or_insert-IsKeyed :
    (es : List TalkerEntry) (id : ℕ) (ty : TalkerType)
    → IsKeyed es
    → IsKeyed (talker_find_or_insert es id ty).0
unfolding IsKeyed talker_find_or_insert
talker_find_or_insert-IsKeyed es id ty u id2 ty2 =
    find_or_insert-AtMostOne (is_talker id ty) (is_talker id2 ty2)
      (talker_unused ∷ talker_idle ∷ []) (fresh_talker id ty) es which (u id2 ty2)
  where
    which : (is_talker id2 ty2 ≡ is_talker id ty) ⊎ (is_talker id2 ty2 (fresh_talker id ty) ≡ false)
    which = elim (Bool-cases (is_talker id2 ty2 (fresh_talker id ty))) [
      | inl t ↦ let (p, q) = same_key id id2 ty ty2 t in inl (rw (p, q) refl)
      | inr f ↦ inr f
    ]
