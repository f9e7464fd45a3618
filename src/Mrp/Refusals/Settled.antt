-- ===== src/Mrp/Refusals/Settled.antt =====
-- After the refusals of a stream are brought up to date, none is left that is not wanted.
use esp_avb.Prelude.{
  ℕ, zero, suc, ◌≡◌, refl, arith, inl, inr, true, List, [], ◌∷◌, some, map, set, get_elem?,
  Bool-cases, Option-cases, ==_refl,
}
use mathlib.Core.Path.{subst}
use esp_avb.Mrp.{applicant_step, applicant_next}
use esp_avb.Mrp.Lite.{declaring, withdraw_step}
use esp_avb.Mrp.Table.{find_index, find_index-some, modify}
use esp_avb.Mrp.Quarantine.{TalkerInfo}
use esp_avb.Mrp.Refusals.{
  RefusalEntry, is_refusal, lite_refusal_find, refused, sync_withdraw, refuse, fresh_refusal,
  refusal_unused, refuse_again, sync_refuse, sync_all, lite_sync_refusals,
}

module _ {ℓ κ} {E : Type ℓ} (P : E → Type κ) where
  abbrev pub All : List E → Type κ
  All [] = Unit
  All (e ∷ es) = P e × All es

  All-map : (f : E → E) (es : List E) → ((e : E) → P (f e)) → All (map f es)
  All-map f [] h = tt
  All-map f (e ∷ es) h = (h e, All-map f es h)

  All-modify :
      (i : ℕ) (f : E → E) (es : List E)
      → ((e : E) → get_elem? es i ≡ some e → P (f e))
      → All es
      → All (modify i f es)
  unfolding modify
  All-modify i f [] h a = tt
  All-modify zero f (e ∷ es) h a = (h e refl, a.1)
  All-modify (suc i) f (e ∷ es) h a = (a.0, All-modify i f es h a.1)

  All-set : (i : ℕ) (v : E) (es : List E) → P v → All es → All (set es i v)
  All-set i v [] p a = tt
  All-set zero v (e ∷ es) p a = (p, a.1)
  All-set (suc i) v (e ∷ es) p a = (a.0, All-set i v es p a.1)

  pub All-get_elem? : (es : List E) (i : ℕ) (e : E) → All es → get_elem? es i ≡ some e → P e
  All-get_elem? [] i e a h = cc
  All-get_elem? (x ∷ es) zero e a h = subst P (ground arith) a.0
  All-get_elem? (x ∷ es) (suc i) e a h = All-get_elem? es i e a.1 h

-- A refusal of the stream that is still declared is of a listener to be refused.
abbrev pub Wanted : ℕ → List (ℕ × ℕ) → RefusalEntry → Type 0
Wanted id macs r =
    r.valid ≡ true
    → r.value.stream_id ≡ id
    → declaring r.sm.applicant ≡ true
    → refused macs r.listener_mac ≡ true

sync_withdraw-Wanted :
    (now id : ℕ) (macs : List (ℕ × ℕ)) (r : RefusalEntry)
    → Wanted id macs (sync_withdraw true now id macs r)
unfolding sync_withdraw withdraw_step applicant_step applicant_next
sync_withdraw-Wanted now id macs r v s d = elim (Bool-cases (refused macs r.listener_mac)) [
  | inl w ↦ ground arith
  | inr w ↦ ground arith
]

refuse_again-Wanted :
    (now : ℕ) (value : TalkerInfo) (code bridge_id : ℕ) (macs : List (ℕ × ℕ)) (r : RefusalEntry)
    → refused macs r.listener_mac ≡ true
    → Wanted value.stream_id macs (refuse_again now value code bridge_id r)
unfolding refuse_again refuse
refuse_again-Wanted now value code bridge_id macs r w v s d = ground arith

is_refusal-listener_mac :
    (id mac : ℕ) (r : RefusalEntry) → is_refusal id mac r ≡ true → r.listener_mac ≡ mac
unfolding is_refusal
is_refusal-listener_mac id mac r h = ground arith

lite_refusal_find-some :
    (rs : List RefusalEntry) (id mac i : ℕ)
    → lite_refusal_find rs id mac ≡ some i
    → (r : RefusalEntry) × (get_elem? rs i ≡ some r) × (is_refusal id mac r ≡ true)
unfolding lite_refusal_find
lite_refusal_find-some rs id mac i h = find_index-some (is_refusal id mac) rs i h

fresh-Wanted :
    (now : ℕ) (value : TalkerInfo) (mac code bridge_id : ℕ) (macs : List (ℕ × ℕ))
    → refused macs mac ≡ true
    → Wanted value.stream_id macs (refuse now (fresh_refusal mac value code bridge_id))
unfolding refuse fresh_refusal
fresh-Wanted now value mac code bridge_id macs w v s d = w

sync_refuse-Wanted :
    (now : ℕ) (value : TalkerInfo) (bridge_id : ℕ) (macs : List (ℕ × ℕ)) (rs : List RefusalEntry)
    (mac code : ℕ)
    → refused macs mac ≡ true
    → All (Wanted value.stream_id macs) rs
    → All (Wanted value.stream_id macs) (sync_refuse now value bridge_id rs (mac, code))
unfolding sync_refuse
sync_refuse-Wanted now value bridge_id macs rs mac code w a =
    let P = Wanted value.stream_id macs in
    elim (Option-cases (lite_refusal_find rs value.stream_id mac)) [
      | inr (i, s) ↦
          let (x, at, is) = lite_refusal_find-some rs value.stream_id mac i s in
          rw (sync_refuse, s)
            (All-modify P i (refuse_again now value code bridge_id) rs
              (λ e h. refuse_again-Wanted now value code bridge_id macs e (
                let same : e ≡ x = ground arith in
                rw (same, is_refusal-listener_mac value.stream_id mac x is) w))
              a)
      | inl n ↦ elim (Option-cases (find_index refusal_unused rs)) [
        | inl f ↦ rw (sync_refuse, n, f) a
        | inr (i, f) ↦
            rw (sync_refuse, n, f)
              (All-set P i (refuse now (fresh_refusal mac value code bridge_id)) rs
                (fresh-Wanted now value mac code bridge_id macs w) a)
      ]
    ]

sync_all-Wanted :
    (now : ℕ) (value : TalkerInfo) (bridge_id : ℕ) (macs ms : List (ℕ × ℕ)) (rs : List RefusalEntry)
    → All (λ m. refused macs m.0 ≡ true) ms
    → All (Wanted value.stream_id macs) rs
    → All (Wanted value.stream_id macs) (sync_all now value bridge_id rs ms)
unfolding sync_all
sync_all-Wanted now value bridge_id macs [] rs w a = a
sync_all-Wanted now value bridge_id macs ((mac, code) ∷ ms) rs w a =
    sync_all-Wanted now value bridge_id macs ms (sync_refuse now value bridge_id rs (mac, code)) w.1
      (sync_refuse-Wanted now value bridge_id macs rs mac code w.0 a)

refused-cons :
    (m : ℕ × ℕ) (macs ms : List (ℕ × ℕ))
    → All (λ x. refused macs x.0 ≡ true) ms
    → All (λ x. refused (m ∷ macs) x.0 ≡ true) ms
unfolding refused
refused-cons (mac, code) macs [] h = tt
refused-cons (mac, code) macs ((x, y) ∷ ms) h = (ground arith, refused-cons (mac, code) macs ms h.1)

refused_each : (macs : List (ℕ × ℕ)) → All (λ m. refused macs m.0 ≡ true) macs
unfolding refused
refused_each [] = tt
refused_each ((mac, code) ∷ macs) =
    (ground (arith, ==_refl mac), refused-cons (mac, code) macs macs (refused_each macs))

-- After `mrp_lite_sync_refusals` of a stream in AVB Lite, whatever the table held and however many
-- listeners are refused: each refusal of the stream that is still declared is of one of these
-- listeners, so a listener that is served again hears no refusal any more.
pub lite_sync_refusals-Wanted :
    (now : ℕ) (value : TalkerInfo) (bridge_id : ℕ) (macs : List (ℕ × ℕ)) (rs : List RefusalEntry)
    (i : ℕ) (r : RefusalEntry)
    → get_elem? (lite_sync_refusals true now value bridge_id macs rs) i ≡ some r
    → r.valid ≡ true
    → r.value.stream_id ≡ value.stream_id
    → declaring r.sm.applicant ≡ true
    → refused macs r.listener_mac ≡ true
unfolding lite_sync_refusals
lite_sync_refusals-Wanted now value bridge_id macs rs i r at =
    let P = Wanted value.stream_id macs in
    All-get_elem? P (lite_sync_refusals true now value bridge_id macs rs) i r
      (sync_all-Wanted now value bridge_id macs macs
        (map (sync_withdraw true now value.stream_id macs) rs) (refused_each macs)
        (All-map P (sync_withdraw true now value.stream_id macs) rs
          (sync_withdraw-Wanted now value.stream_id macs)))
      at
