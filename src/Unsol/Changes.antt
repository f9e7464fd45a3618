-- ===== src/Unsol/Changes.antt =====
-- The states that the controllers are told of (`avb_unsol_send_changed`).
use esp_avb.Prelude.{
  ℕ, ◌≤◌, ◌≡◌, ◌≢◌, inl, inr, refl, ap, ◌∙◌, arith, true, false, List, [], ◌∷◌, ◌++◌, if◌then◌else◌,
  length, Bool-cases,
}
use esp_avb.Unsol.{Controller, Kind, body_response, Frame, no_requester, notify}
use esp_avb.Unsol.Tick.{Sent, send_changed, same_octets}
use esp_avb.Unsol.Sequence.{Notice, notify_all}

-- The responses of a series that differ from the one before each; `prev` is before the first.
unfoldable pub changes : List ℕ → List (List ℕ) → List Notice
unfolding same_octets
changes prev [] = []
changes prev (rsp ∷ rsps) =
    let rest = changes rsp rsps in
    if same_octets prev rsp
    then rest
    else record { body = body_response rsp; msg_len = length rsp } ∷ rest

-- `avb_unsol_send_changed` on a series of builds
unfoldable pub send_series :
    ℕ → Kind → List (List ℕ) → Sent → List Controller → List Controller × List Frame
unfolding send_changed
send_series capacity kind [] sent cs = (cs, [])
send_series capacity kind (rsp ∷ rsps) sent cs =
    let (sent1, cs1, frames) = send_changed capacity kind rsp sent cs in
    let (cs2, later) = send_series capacity kind rsps sent1 cs1 in (cs2, frames ++ later)

-- Every build of the series is a response that the copy can hold.
abbrev pub AllHeld : ℕ → List (List ℕ) → Type 0
AllHeld capacity [] = ◌≡◌ {A = ℕ} 0 0
AllHeld capacity (rsp ∷ rsps) = (length rsp ≢ 0) × (length rsp ≤ capacity) × AllHeld capacity rsps

same_octets-eq : (xs ys : List ℕ) → same_octets xs ys ≡ true → xs ≡ ys
unfolding same_octets
same_octets-eq [] [] h = refl
same_octets-eq [] (y ∷ ys) h = cc
same_octets-eq (x ∷ xs) [] h = cc
same_octets-eq (x ∷ xs) (y ∷ ys) h =
    let tail : xs ≡ ys = same_octets-eq xs ys (ground arith) in
    let head : x ≡ y = ground arith in rw (tail, head) refl

unchanged_lem :
    (capacity : ℕ) (kind : Kind) (prev rsp : List ℕ) (cs : List Controller)
    → same_octets prev rsp ≡ true
    → send_changed capacity kind rsp (record { valid = true; rsp = prev }) cs
      ≡ (record { valid = true; rsp = rsp }, cs, [])
unfolding send_changed
unchanged_lem capacity kind prev rsp cs h =
    let kept : send_changed capacity kind rsp (record { valid = true; rsp = prev }) cs
        ≡ (record { valid = true; rsp = prev }, cs, []) =
      ground arith in
    kept ∙ ap (λ r. (record { valid = true; rsp = r }, cs, [])) (same_octets-eq prev rsp h)

changed_lem :
    (capacity : ℕ) (kind : Kind) (prev rsp : List ℕ) (cs : List Controller)
    → same_octets prev rsp ≡ false
    → length rsp ≢ 0
    → length rsp ≤ capacity
    → let out = notify (body_response rsp) (length rsp) kind no_requester cs in
      send_changed capacity kind rsp (record { valid = true; rsp = prev }) cs
      ≡ (record { valid = true; rsp = rsp }, out.0, out.1)
unfolding send_changed
changed_lem capacity kind prev rsp cs h n fit = ground arith

first_lem :
    (capacity : ℕ) (kind : Kind) (rsp old : List ℕ) (cs : List Controller)
    → length rsp ≢ 0
    → length rsp ≤ capacity
    → send_changed capacity kind rsp (record { valid = false; rsp = old }) cs
      ≡ (record { valid = true; rsp = rsp }, cs, [])
unfolding send_changed
first_lem capacity kind rsp old cs n fit = ground arith

send_series-valid :
    (capacity : ℕ) (kind : Kind) (rsps : List (List ℕ)) (prev : List ℕ) (cs : List Controller)
    → AllHeld capacity rsps
    → send_series capacity kind rsps (record { valid = true; rsp = prev }) cs
      ≡ notify_all kind (changes prev rsps) cs
unfolding send_series notify_all changes
send_series-valid capacity kind [] prev cs h = refl
send_series-valid capacity kind (rsp ∷ rsps) prev cs (n, fit, h) =
    elim (Bool-cases (same_octets prev rsp)) [
      | inl t ↦
          rw (unchanged_lem capacity kind prev rsp cs t, t)
            (send_series-valid capacity kind rsps rsp cs h)
      | inr f ↦
          rw
            (
              changed_lem capacity kind prev rsp cs f n fit,
              f,
              send_series-valid capacity kind rsps rsp _ h,
            )
            refl
    ]

-- The first of a series of builds sends nothing, and after it the controllers are notified of
-- exactly the builds that differ from the one before, in order and once each, as `avb_unsol_notify`
-- to all would; every build is non-empty and fits the copy.
pub send_series-lem :
    (capacity : ℕ) (kind : Kind) (rsp : List ℕ) (rsps : List (List ℕ)) (old : List ℕ)
    (cs : List Controller)
    → AllHeld capacity (rsp ∷ rsps)
    → send_series capacity kind (rsp ∷ rsps) (record { valid = false; rsp = old }) cs
      ≡ notify_all kind (changes rsp rsps) cs
unfolding send_series
send_series-lem capacity kind rsp rsps old cs (n, fit, h) =
    rw (first_lem capacity kind rsp old cs n fit) (send_series-valid capacity kind rsps rsp cs h)
