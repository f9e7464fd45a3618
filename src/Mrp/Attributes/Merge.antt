-- ===== src/Mrp/Attributes/Merge.antt =====
-- The listener declarations of the other ports merged into one (`msrp_merge_listener_decls`), on a
-- build without the Wi-Fi unicast option.
use esp_avb.Prelude.{
  ℕ, suc, ◌≡◌, ◌↔◌, ◌⊎◌, inl, inr, ◌∙◌, arith, Bool, true, false, not, ◌&&◌, ◌||◌, List, [], ◌∷◌,
  Option, none, some, if◌then◌else◌, ◌==◌, get_elem?, Bool-cases, Option-cases,
}
use esp_avb.Mrp.Attributes.{
  ListenerEvent, ignore, asking_failed, ready, ready_failed, ListenerEntry, listener_find,
  is_registered_in,
}

-- `any_ready`, `any_asking` and `any_ready_failed`
pub record Seen : Type 0 where
  pub any_ready : Bool
  pub any_asking : Bool
  pub any_ready_failed : Bool

unfoldable pub note : ListenerEvent → Seen → Seen
note ready s = record s { any_ready = true }
note asking_failed s = record s { any_asking = true }
note ready_failed s = record s { any_ready_failed = true }
note ignore s = s

-- A port's live declaration for the stream: its entry, if the Registrar is in IN.
unfoldable pub live_decl : Option ListenerEntry → Option ListenerEvent
unfolding is_registered_in
live_decl none = none
live_decl (some e) = if is_registered_in e.sm.registrar then some e.peer_decl else none

unfoldable pub port_decl : List ListenerEntry → ℕ → Option ListenerEvent
unfolding live_decl listener_find
port_decl es id = live_decl (elim (listener_find es id) [ none ↦ none | some i ↦ get_elem? es i ])

-- The loop over the ports from number `p` on
unfoldable pub gather : ℕ → ℕ → ℕ → List (List ListenerEntry) → Seen → Seen
unfolding note port_decl
gather exclude id p [] s = s
gather exclude id p (es ∷ ports) s =
    gather exclude id (suc p) ports
      (if p == exclude then s else elim (port_decl es id) [ none ↦ s | some d ↦ note d s ])

-- The end of `msrp_merge_listener_decls`, with `none` for its result false
unfoldable pub merged : Seen → Option ListenerEvent
merged s =
    if not s.any_ready && not s.any_asking && not s.any_ready_failed
    then none
    else if s.any_ready_failed || s.any_ready && s.any_asking
    then some ready_failed
    else if s.any_ready
    then some ready
    else some asking_failed

-- `msrp_merge_listener_decls`
unfoldable pub merge_listener_decls : List (List ListenerEntry) → ℕ → ℕ → Option ListenerEvent
unfolding gather merged
merge_listener_decls ports exclude id = merged (
    gather exclude id 0 ports
      (record { any_ready = false; any_asking = false; any_ready_failed = false }))

-- The live declarations of the stream on the ports but the excluded one, in order of the ports
pub decls : ℕ → ℕ → ℕ → List (List ListenerEntry) → List ListenerEvent
decls exclude id p [] = []
decls exclude id p (es ∷ ports) =
    if p == exclude then decls exclude id (suc p) ports else elim (port_decl es id) [
      | none ↦ decls exclude id (suc p) ports
      | some d ↦ d ∷ decls exclude id (suc p) ports
    ]

pub same_decl : ListenerEvent → ListenerEvent → Bool
same_decl ready ready = true
same_decl asking_failed asking_failed = true
same_decl ready_failed ready_failed = true
same_decl ignore ignore = true
same_decl _ _ = false

-- Whether a declaration is in a list
pub says : ListenerEvent → List ListenerEvent → Bool
says d [] = false
says d (x ∷ xs) = same_decl d x || says d xs

seen_in : Seen → List ListenerEvent → Seen
seen_in s ds = record {
  any_ready = s.any_ready || says ready ds;
  any_asking = s.any_asking || says asking_failed ds;
  any_ready_failed = s.any_ready_failed || says ready_failed ds;
}

seen_in-nil : (s : Seen) → s ≡ seen_in s []
unfolding seen_in says
seen_in-nil s = ground arith

seen_in-cons :
    (d : ListenerEvent) (s : Seen) (ds : List ListenerEvent)
    → seen_in (note d s) ds ≡ seen_in s (d ∷ ds)
unfolding seen_in says note same_decl
seen_in-cons ready s ds = ground arith
seen_in-cons asking_failed s ds = ground arith
seen_in-cons ready_failed s ds = ground arith
seen_in-cons ignore s ds = ground arith

gather-decls :
    (exclude id p : ℕ) (ports : List (List ListenerEntry)) (s : Seen)
    → gather exclude id p ports s ≡ seen_in s (decls exclude id p ports)
unfolding gather decls
gather-decls exclude id p [] s = seen_in-nil s
gather-decls exclude id p (es ∷ ports) s = elim (Bool-cases (p == exclude)) [
  | inl skip ↦ rw skip (gather-decls exclude id (suc p) ports s)
  | inr other ↦ elim (Option-cases (port_decl es id)) [
    | inl n ↦ rw (other, n) (gather-decls exclude id (suc p) ports s)
    | inr (d, e) ↦
        rw (other, e)
          (gather-decls exclude id (suc p) ports (note d s)
            ∙ seen_in-cons d s (decls exclude id (suc p) ports))
  ]
]

-- The merged declaration is the one of the table in IEEE 802.1Q 35.2.4.4.3, for every number of
-- ports: Ready Failed exactly when a port declares it, or one declares Ready and one Asking Failed;
-- Ready exactly when a port declares Ready and none a failure; Asking Failed exactly when that is
-- all that is declared; and none exactly when nothing of the kind is declared.
pub merge_listener_decls-lem :
    (ports : List (List ListenerEntry)) (exclude id : ℕ)
    → let ds = decls exclude id 0 ports in
      let out = merge_listener_decls ports exclude id in
      ((out ≡ some ready_failed) ↔ (
        (says ready_failed ds ≡ true) ⊎ ((says ready ds ≡ true) × (says asking_failed ds ≡ true))))
      × ((out ≡ some ready) ↔ (
          (says ready ds ≡ true)
          × (says asking_failed ds ≡ false)
          × (says ready_failed ds ≡ false)))
      × ((out ≡ some asking_failed) ↔ (
          (says asking_failed ds ≡ true)
          × (says ready ds ≡ false)
          × (says ready_failed ds ≡ false)))
      × ((out ≡ none) ↔ (
          (says asking_failed ds ≡ false)
          × (says ready ds ≡ false)
          × (says ready_failed ds ≡ false)))
unfolding merge_listener_decls seen_in
merge_listener_decls-lem ports exclude id = ground (
  arith,
  gather-decls exclude id 0 ports
      (record { any_ready = false; any_asking = false; any_ready_failed = false }),
)
