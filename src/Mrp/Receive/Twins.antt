-- ===== src/Mrp/Receive/Twins.antt =====
-- Talker Advertise and Talker Failed of a stream displace one another.
use esp_avb.Prelude.{
  ℕ, zero, suc, ◌≡◌, refl, ◌⊎◌, ◌∙◌, arith, inl, inr, Bool, true, false, List, [], ◌∷◌, Option,
  none, some, get_elem?, set, Bool-cases, Option-cases,
}
use esp_avb.Mrp.{RegistrarState}
use esp_avb.Mrp.Registration.{RegTransition}
use esp_avb.Mrp.Table.{find_index, modify, get_elem?-modify}
use esp_avb.Mrp.Attributes.{
  TalkerType, TalkerEntry, is_talker, talker_find, talker_entry, is_registered,
  talker_find_or_insert,
}
use esp_avb.Mrp.Receive.{
  TalkerWire, twin_type, heard_talker, forget_report, is_mt, unregister, displace, settle,
  rx_talker_attr,
}

find_index-modify {ℓ} :
    {E : Type ℓ} (p : E → Bool) (f : E → E) (j : ℕ) (es : List E)
    → ((e : E) → p (f e) ≡ p e)
    → find_index p (modify j f es) ≡ find_index p es
unfolding find_index modify
find_index-modify p f j [] h = refl
find_index-modify p f zero (e ∷ es) h = rw (h e) refl
find_index-modify p f (suc j) (e ∷ es) h = rw (find_index-modify p f j es h) refl

is_talker-unregister :
    (id : ℕ) (ty : TalkerType) (e : TalkerEntry)
    → is_talker id ty (unregister e) ≡ is_talker id ty e
unfolding is_talker unregister
is_talker-unregister id ty e = refl

talker_entry-none :
    (es : List TalkerEntry) (id : ℕ) (ty : TalkerType)
    → talker_find es id ty ≡ none
    → talker_entry es id ty ≡ none
unfolding talker_entry
talker_entry-none es id ty h = ground arith

talker_entry-some :
    (es : List TalkerEntry) (id : ℕ) (ty : TalkerType) (j : ℕ)
    → talker_find es id ty ≡ some j
    → talker_entry es id ty ≡ get_elem? es j
unfolding talker_entry
talker_entry-some es id ty j h = ground arith

talker_find-unregister :
    (es : List TalkerEntry) (id j : ℕ) (ty : TalkerType)
    → talker_find (modify j unregister es) id ty ≡ talker_find es id ty
unfolding talker_find
talker_find-unregister es id j ty =
    find_index-modify (is_talker id ty) unregister j es (is_talker-unregister id ty)

is_mt-registered : (r : RegistrarState) → is_mt r ≡ true → is_registered r ≡ false
unfolding is_mt is_registered
is_mt-registered r h = ground arith

-- No entry of the form is in its Registrar's IN or LV.
abbrev pub Unregistered : List TalkerEntry → ℕ → TalkerType → Type 0
Unregistered es id ty =
    (t : TalkerEntry) → talker_entry es id ty ≡ some t → is_registered t.sm.registrar ≡ false

displace-Unregistered :
    (ty : TalkerType) (id : ℕ) (es : List TalkerEntry)
    → Unregistered (displace ty id es).0 id (twin_type ty)
unfolding displace is_registered
displace-Unregistered ty id es = elim (Option-cases (talker_find es id (twin_type ty))) [
  | inl n ↦ rw (displace, n) (λ t h. cc (talker_entry-none es id (twin_type ty) n))
  | inr (j, s) ↦ elim (Option-cases (get_elem? es j)) [
    | inl m ↦ rw (displace, s, m) (λ t h. cc (talker_entry-some es id (twin_type ty) j s))
    | inr (x, g) ↦ elim (Bool-cases (is_mt x.sm.registrar)) [
      | inl mt ↦
          rw (displace, s, g, mt)
            (λ t h. ground (
              arith,
              talker_entry-some es id (twin_type ty) j s,
              is_mt-registered x.sm.registrar mt,
            ))
      | inr on ↦
          rw (displace, s, g, on)
            (λ t h. ground (
              arith,
              talker_entry-some (modify j unregister es) id (twin_type ty) j
                  (talker_find-unregister es id j (twin_type ty) ∙ s),
              get_elem?-modify j unregister es x g,
            ))
    ]
  ]
]

-- A message that finds no entry changes no registration; any other settles one.
rx_talker_attr-cases :
    (lite : Bool) (now : ℕ) (ty : TalkerType) (w : TalkerWire) (src_mac : Option ℕ)
    (es : List TalkerEntry)
    → let out = rx_talker_attr lite now ty w src_mac es in
      (out.entry ≡ none)
      ⊎ ((e : TalkerEntry) × (trans : RegTransition) × (es' : List TalkerEntry) × (out
            ≡ settle lite ty w.value.stream_id e trans es'))
unfolding rx_talker_attr
rx_talker_attr-cases lite now ty w src_mac es =
    let id = w.value.stream_id in
    let out = talker_find_or_insert es id ty in
    elim (Option-cases out.1) [
      | inl n ↦ inl (rw (rx_talker_attr, n) refl)
      | inr (i, s) ↦ elim (Option-cases (get_elem? out.0 i)) [
        | inl m ↦ inl (rw (rx_talker_attr, s, m) refl)
        | inr (x, g) ↦
            let (e, trans) = heard_talker now ty w src_mac x in
            inr
              (e, trans, forget_report ty trans id (set out.0 i e), rw (rx_talker_attr, s, g) refl)
      ]
    ]

settle-entry :
    (lite : Bool) (ty : TalkerType) (id : ℕ) (e : TalkerEntry) (trans : RegTransition)
    (es : List TalkerEntry)
    → (settle lite ty id e trans es).entry ≡ some e
unfolding settle
settle-entry lite ty id e trans es = ground arith

settle-Unregistered :
    (ty : TalkerType) (id : ℕ) (e : TalkerEntry) (trans : RegTransition) (es : List TalkerEntry)
    → is_registered e.sm.registrar ≡ true
    → Unregistered (settle false ty id e trans es).talkers id (twin_type ty)
unfolding settle
settle-Unregistered ty id e trans es r = rw (settle, r) (displace-Unregistered ty id es)

-- Outside AVB Lite, once a talker attribute is received and its Registrar is in IN or LV, the other
-- form of the stream (Failed for Advertise, Advertise for Failed) is registered no more, whatever
-- the table held before.
pub rx_talker_attr-Unregistered :
    (now : ℕ) (ty : TalkerType) (w : TalkerWire) (src_mac : Option ℕ) (es : List TalkerEntry)
    (e : TalkerEntry)
    → let out = rx_talker_attr false now ty w src_mac es in
      out.entry ≡ some e
      → is_registered e.sm.registrar ≡ true
      → Unregistered out.talkers w.value.stream_id (twin_type ty)
rx_talker_attr-Unregistered now ty w src_mac es e h r =
    elim (rx_talker_attr-cases false now ty w src_mac es) [
      | inl n ↦ cc
      | inr (e', trans, es', s) ↦
          let same : e' ≡ e =
            ground (arith, settle-entry false ty w.value.stream_id e' trans es') in
          rw s (settle-Unregistered ty w.value.stream_id e' trans es' (rw same r))
    ]
