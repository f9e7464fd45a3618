-- ===== src/Bridge/Accounts.antt =====
-- What admission keeps: the account of what each stream holds on a port.
use esp_avb.Prelude.{
  ℕ, zero, suc, ◌+◌, ◌^◌, ◌≤◌, ◌<◌, ◌≡◌, ◌≢◌, ◌⊎◌, inl, inr, refl, arith, Option, none, some,
  if◌then◌else◌, get_elem?, get_elem?-set-some, Option-cases,
}
use esp_avb.Bridge.{SrClass, class_a, class_b, PerClass, get_class, set_class}
use esp_avb.Bridge.Admission.{
  AdmissionClass, Bank, admitted, no_space, admit_class, release_class, store, try_admit, release,
  Share, release_share, same_class, readmit, update_admission,
}

-- What a port has admitted in a class
abbrev pub sum_of : Option (PerClass AdmissionClass) → SrClass → ℕ
sum_of none c = 0
sum_of (some t) c = (get_class t c).admitted_bps

abbrev pub sum : Bank → ℕ → SrClass → ℕ
sum bank p c = sum_of (get_elem? bank.ports p) c

-- What a share holds in a class
abbrev pub held : Share → SrClass → ℕ
held s c = if same_class s.cls c then s.bps else 0

sum-store :
    (bank : Bank) (p : ℕ) (cls : SrClass) (t : PerClass AdmissionClass) (e : AdmissionClass)
    → get_elem? bank.ports p ≡ some t
    → get_elem? (store bank p cls t e).ports p ≡ some (set_class t cls e)
unfolding store
sum-store bank p cls t e h = get_elem?-set-some bank.ports p (set_class t cls e) t h

-- The account of one share: the other holders' part of each class stays what it was, and the share
-- is within what the class has admitted.
pub record Kept (bank : Bank) (p : ℕ) (s : Share) (bank' : Bank) (s' : Share) : Type 0 where
  pub rest_a : sum bank' p class_a + held s class_a ≡ sum bank p class_a + held s' class_a
  pub rest_b : sum bank' p class_b + held s class_b ≡ sum bank p class_b + held s' class_b
  pub within_a : held s' class_a ≤ sum bank' p class_a
  pub within_b : held s' class_b ≤ sum bank' p class_b
  pub there : (t : PerClass AdmissionClass) × (get_elem? bank'.ports p ≡ some t)

-- A bank whose port has the classes of `t` with `e` for `cls` keeps the account of a share.
Kept-at :
    (bank bank' : Bank) (p : ℕ) (s s' : Share) (t t' : PerClass AdmissionClass)
    → get_elem? bank.ports p ≡ some t
    → get_elem? bank'.ports p ≡ some t'
    → (get_class t' class_a).admitted_bps + held s class_a
      ≡ (get_class t class_a).admitted_bps + held s' class_a
    → (get_class t' class_b).admitted_bps + held s class_b
      ≡ (get_class t class_b).admitted_bps + held s' class_b
    → held s' class_a ≤ (get_class t' class_a).admitted_bps
    → held s' class_b ≤ (get_class t' class_b).admitted_bps
    → Kept bank p s bank' s'
Kept-at bank bank' p s s' t t' h h' a b wa wb = record {
  rest_a = rw (h, h') a;
  rest_b = rw (h, h') b;
  within_a = rw h' wa;
  within_b = rw h' wb;
  there = (t', h');
}

release_share-zero :
    (bank : Bank) (p : ℕ) (cls : SrClass)
    → release_share bank p (record { bps = 0; cls = cls }) ≡ (bank, record { bps = 0; cls = cls })
unfolding release_share
release_share-zero bank p cls = refl

release_share-suc :
    (bank : Bank) (p n : ℕ) (cls : SrClass)
    → release_share bank p (record { bps = suc n; cls = cls })
      ≡ (release bank p cls (suc n), record { bps = 0; cls = cls })
unfolding release_share
release_share-suc bank p n cls = ground arith

released :
    (t : PerClass AdmissionClass) (n : ℕ) (cls c : SrClass)
    → suc n ≤ (get_class t cls).admitted_bps
    → (get_class (set_class t cls (release_class (get_class t cls) (suc n))) c).admitted_bps
        + held (record { bps = suc n; cls = cls }) c
      ≡ (get_class t c).admitted_bps + held (record { bps = 0; cls = cls }) c
unfolding release_class same_class
released t n class_a class_a h = ground arith
released t n class_a class_b h = ground arith
released t n class_b class_a h = ground arith
released t n class_b class_b h = ground arith

granted :
    (t : PerClass AdmissionClass) (s : Share) (cls c : SrClass) (bps : ℕ)
    → s.bps ≡ 0
    → (x : AdmissionClass) → admit_class (get_class t cls) bps ≡ some x
    → (get_class t cls).admitted_bps + bps < 2 ^ 32
    → ((get_class (set_class t cls x) c).admitted_bps + held s c
        ≡ (get_class t c).admitted_bps + held (record { bps = bps; cls = cls }) c)
      × (held (record { bps = bps; cls = cls }) c ≤ (get_class (set_class t cls x) c).admitted_bps)
unfolding same_class admit_class
granted t s class_a class_a bps z x a h = ground arith
granted t s class_a class_b bps z x a h = ground arith
granted t s class_b class_a bps z x a h = ground arith
granted t s class_b class_b bps z x a h = ground arith

module _ (bank : Bank) (p : ℕ) (t : PerClass AdmissionClass)
    (at : get_elem? bank.ports p ≡ some t) where
  release-store :
      (cls : SrClass) (bps : ℕ)
      → release bank p cls bps ≡ store bank p cls t (release_class (get_class t cls) bps)
  unfolding release
  release-store cls bps = rw (at, release)

  try_admit-cases :
      (cls : SrClass) (bps : ℕ)
      → ((try_admit bank p cls bps ≡ (bank, no_space)) × (admit_class (get_class t cls) bps ≡ none))
        ⊎ ((e : AdmissionClass) × (admit_class (get_class t cls) bps ≡ some e)
            × (try_admit bank p cls bps ≡ (store bank p cls t e, admitted)))
  unfolding try_admit
  try_admit-cases cls bps = elim (Option-cases (admit_class (get_class t cls) bps)) [
    | inl e ↦ inl (rw (at, try_admit, e), e)
    | inr (x, e) ↦ inr (x, e, rw (at, try_admit, e))
  ]

  release-Kept :
      (bps : ℕ) (cls : SrClass)
      → bps ≤ (get_class t cls).admitted_bps
      → let s : Share = record { bps = bps; cls = cls } in
        let (bank', s') = release_share bank p s in Kept bank p s bank' s' × (s'.bps ≡ 0)
  release-Kept zero cls h =
      rw (release_share-zero bank p cls)
        (Kept-at bank bank p _ _ t t at at refl refl (ground arith) (ground arith), refl)
  release-Kept (suc n) cls h =
      let e = release_class (get_class t cls) (suc n) in
      rw (release_share-suc bank p n cls, release-store cls (suc n))
        (
          Kept-at bank (store bank p cls t e) p _ _ t (set_class t cls e) at
              (sum-store bank p cls t e at) (released t n cls class_a h)
              (released t n cls class_b h) (ground arith) (ground arith),
          refl,
        )

  admit-Kept :
      (s : Share) (cls : SrClass) (bps : ℕ)
      → s.bps ≡ 0
      → (get_class t cls).admitted_bps + bps < 2 ^ 32
      → let ((bank', s'), result) = readmit (bank, s) p cls bps in Kept bank p s bank' s'
  unfolding readmit
  admit-Kept s cls bps z h = elim (try_admit-cases cls bps) [
    | inl (e, _) ↦
        rw (e, readmit, e)
          (Kept-at bank bank p s s t t at at refl refl (ground arith) (ground arith))
    | inr (x, a, e) ↦
        rw (e, readmit, e)
          (Kept-at bank (store bank p cls t x) p s _ t (set_class t cls x) at
            (sum-store bank p cls t x at) (granted t s cls class_a bps z x a h).0
            (granted t s cls class_b bps z x a h).0 (granted t s cls class_a bps z x a h).1
            (granted t s cls class_b bps z x a h).1)
  ]

within :
    (t : PerClass AdmissionClass) (bps : ℕ) (cls c : SrClass)
    → bps ≤ (get_class t cls).admitted_bps
    → held (record { bps = bps; cls = cls }) c ≤ (get_class t c).admitted_bps
unfolding same_class
within t bps class_a class_a h = h
within t bps class_a class_b h = omega arith
within t bps class_b class_a h = omega arith
within t bps class_b class_b h = h

Kept-refl :
    (bank : Bank) (p : ℕ) (t : PerClass AdmissionClass) (bps : ℕ) (cls : SrClass)
    → get_elem? bank.ports p ≡ some t
    → bps ≤ (get_class t cls).admitted_bps
    → let s : Share = record { bps = bps; cls = cls } in Kept bank p s bank s
Kept-refl bank p t bps cls at h =
    Kept-at bank bank p _ _ t t at at refl refl (within t bps cls class_a h)
      (within t bps cls class_b h)

Kept-trans :
    {b b1 b2 : Bank} {p : ℕ} {s s1 s2 : Share}
    → Kept b p s b1 s1
    → Kept b1 p s1 b2 s2
    → Kept b p s b2 s2
Kept-trans k l = record {
  rest_a = omega (arith, k.rest_a, l.rest_a);
  rest_b = omega (arith, k.rest_b, l.rest_b);
  within_a = l.within_a;
  within_b = l.within_b;
  there = l.there;
}

readmit-share :
    (bank : Bank) (s : Share) (p : ℕ) (cls : SrClass) (bps : ℕ)
    → s.bps ≡ 0
    → let ((bank', s'), result) = readmit (bank, s) p cls bps in
      (result ≡ admitted → s' ≡ record { bps = bps; cls = cls }) × (result ≢ admitted → s'.bps ≡ 0)
unfolding readmit
readmit-share bank s p cls bps z = ground arith

-- After a release, an admission that fitted before still does not wrap.
room :
    {bank bank' : Bank} {p : ℕ} {s s' : Share}
    → Kept bank p s bank' s'
    → s'.bps ≡ 0
    → (t t' : PerClass AdmissionClass) → get_elem? bank.ports p ≡ some t
    → get_elem? bank'.ports p ≡ some t'
    → (cls : SrClass) (bps : ℕ) → (get_class t cls).admitted_bps + bps < 2 ^ 32
    → (get_class t' cls).admitted_bps + bps < 2 ^ 32
unfolding same_class
room {s} {s' = s'} k z t t' at at' class_a bps h =
    let e : (get_class t' class_a).admitted_bps + held s class_a
        ≡ (get_class t class_a).admitted_bps + held s' class_a =
      rw (at, at') at k.rest_a in
    ground arith
room {s} {s' = s'} k z t t' at at' class_b bps h =
    let e : (get_class t' class_b).admitted_bps + held s class_b
        ≡ (get_class t class_b).admitted_bps + held s' class_b =
      rw (at, at') at k.rest_b in
    ground arith

readmit-Kept :
    (bank : Bank) (p : ℕ) (t : PerClass AdmissionClass) (b1 : Bank × Share) (s : Share)
    → get_elem? bank.ports p ≡ some t
    → Kept bank p s b1.0 b1.1 × (b1.1.bps ≡ 0)
    → (cls : SrClass) (bps : ℕ) → (get_class t cls).admitted_bps + bps < 2 ^ 32
    → let ((bank', s'), result) = readmit b1 p cls bps in Kept bank p s bank' s'
readmit-Kept bank p t b1 s at (k, z) cls bps h = Kept-trans k (
    admit-Kept b1.0 p k.there.0 k.there.1 b1.1 cls bps z
      (room k z t k.there.0 at k.there.1 cls bps h))

-- An update of what a stream holds on a port keeps the account: in each class what the other
-- streams hold is unchanged and the stream's own share is within what the class has admitted. If
-- the update is admitted the stream holds the new bandwidth in the new class; if not, it holds
-- nothing. The request must not wrap the 32-bit sum.
pub update_admission-Kept :
    (bank : Bank) (p : ℕ) (t : PerClass AdmissionClass) (held_bps : ℕ) (held_cls cls : SrClass)
    (bps : ℕ)
    → get_elem? bank.ports p ≡ some t
    → held_bps ≤ (get_class t held_cls).admitted_bps
    → (get_class t cls).admitted_bps + bps < 2 ^ 32
    → let s : Share = record { bps = held_bps; cls = held_cls } in
      let ((bank', s'), result) = update_admission bank p s cls bps in
      Kept bank p s bank' s'
      × (result ≡ admitted → s' ≡ record { bps = bps; cls = cls })
      × (result ≢ admitted → s'.bps ≡ 0)
unfolding update_admission
update_admission-Kept bank p t held_bps held_cls cls bps at h r =
    let k = release-Kept bank p t at held_bps held_cls h in
    ground (
      arith,
      Kept-refl bank p t held_bps held_cls at h,
      readmit-Kept bank p t (release_share bank p (record { bps = held_bps; cls = held_cls })) _ at
          k cls bps r,
      readmit-share (release_share bank p (record { bps = held_bps; cls = held_cls })).0
          (release_share bank p (record { bps = held_bps; cls = held_cls })).1 p cls bps k.1,
    )
