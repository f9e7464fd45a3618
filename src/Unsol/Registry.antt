-- ===== src/Unsol/Registry.antt =====
-- The list of registered controllers: one entry for each entity ID and MAC address, sixteen at
-- most, whatever the calls.
use esp_avb.Prelude.{
  ℕ, zero, suc, ◌≤◌, ◌≡◌, inl, inr, refl, sym, ◌∙◌, arith, Bool, false, not, ◌&&◌, ◌||◌, List, [],
  ◌∷◌, ◌++◌, Option, none, if◌then◌else◌, ◌==◌, length, map, Option-cases, Bool-cases,
}
use mathlib.Core.Option
use esp_avb.Mrp.Table.{find_index, modify}
use esp_avb.Unsol.{
  Controller, Kind, Body, Requester, is_requester, is_entry, find, remove, count_seq, send_to,
  notify, send_check, rearm, refresh, check_now, deregister, heard, replied, max_unsol_controllers,
}
use esp_avb.Unsol.Tick.{Fate, fate_keep, fate_check, fate_remove, tick_entry, registrations_tick}

-- The list has an entry for the entity ID and the MAC address.
unfoldable pub has : ℕ → ℕ → List Controller → Bool
has id mac [] = false
has id mac (e ∷ es) = is_entry id mac e || has id mac es

-- No entry has the entity ID and the MAC address of a later one.
unfoldable pub Unique : List Controller → Type 0
Unique [] = ◌≡◌ {A = ℕ} 0 0
Unique (e ∷ es) = (has e.entity_id e.mac_addr es ≡ false) × Unique es

unfoldable pub IsRegistry : List Controller → Type 0
IsRegistry cs = (length cs ≤ max_unsol_controllers) × Unique cs

unfoldable pub SameKey : Controller → Controller → Type 0
SameKey e e' = (e.entity_id ≡ e'.entity_id) × (e.mac_addr ≡ e'.mac_addr)

-- The second list is the first with entries left out and the others perhaps changed, their
-- entity IDs and MAC addresses not.
pub data Thinned : List Controller → List Controller → Type 0 where
  thin_nil : Thinned [] []
  thin_keep :
      {e e' : Controller} {es es' : List Controller}
      → SameKey e e'
      → Thinned es es'
      → Thinned (e ∷ es) (e' ∷ es')
  thin_drop : {e : Controller} {es es' : List Controller} → Thinned es es' → Thinned (e ∷ es) es'

is_entry-SameKey :
    (id mac : ℕ) (e e' : Controller) → SameKey e e' → is_entry id mac e ≡ is_entry id mac e'
unfolding SameKey is_entry
is_entry-SameKey id mac e e' (p, q) = rw (p, q) refl

pub has-Thinned :
    (id mac : ℕ) {es es' : List Controller}
    → Thinned es es'
    → has id mac es ≡ false
    → has id mac es' ≡ false
unfolding has
has-Thinned id mac thin_nil h = h
has-Thinned id mac (thin_keep {e = e} {e' = e'} k t) h =
    ground (arith, has-Thinned id mac t, is_entry-SameKey id mac e e' k)
has-Thinned id mac (thin_drop t) h = ground (arith, has-Thinned id mac t)

pub length-Thinned : {es es' : List Controller} → Thinned es es' → length es' ≤ length es
length-Thinned thin_nil = omega arith
length-Thinned (thin_keep k t) = omega (arith, length-Thinned t)
length-Thinned (thin_drop t) = omega (arith, length-Thinned t)

pub Unique-Thinned : {es es' : List Controller} → Thinned es es' → Unique es → Unique es'
unfolding Unique SameKey
Unique-Thinned thin_nil u = refl
Unique-Thinned (thin_keep (p, q) t) (n, u) =
    (rw (sym p, sym q) (has-Thinned _ _ t n), Unique-Thinned t u)
Unique-Thinned (thin_drop t) (n, u) = Unique-Thinned t u

pub IsRegistry-Thinned :
    {es es' : List Controller} → Thinned es es' → IsRegistry es → IsRegistry es'
unfolding IsRegistry
IsRegistry-Thinned t (l, u) = (omega (arith, length-Thinned t), Unique-Thinned t u)

pub thin_refl : (es : List Controller) → Thinned es es
unfolding SameKey
thin_refl [] = thin_nil
thin_refl (e ∷ es) = thin_keep (refl, refl) (thin_refl es)

pub thin_map :
    (f : Controller → Controller) (es : List Controller)
    → ((e : Controller) → SameKey e (f e))
    → Thinned es (map f es)
thin_map f [] k = thin_nil
thin_map f (e ∷ es) k = thin_keep (k e) (thin_map f es k)

pub thin_modify :
    (i : ℕ) (f : Controller → Controller) (es : List Controller)
    → ((e : Controller) → SameKey e (f e))
    → Thinned es (modify i f es)
unfolding modify SameKey
thin_modify i f [] k = thin_nil
thin_modify zero f (e ∷ es) k = thin_keep (k e) (thin_refl es)
thin_modify (suc i) f (e ∷ es) k = thin_keep (refl, refl) (thin_modify i f es k)

thin_remove : (es : List Controller) (i : ℕ) → Thinned es (remove es i)
unfolding remove SameKey
thin_remove [] i = thin_nil
thin_remove (e ∷ es) zero = thin_drop (thin_refl es)
thin_remove (e ∷ es) (suc i) = thin_keep (refl, refl) (thin_remove es i)

pub rearm-SameKey : (now random : ℕ) (e : Controller) → SameKey e (rearm now random e)
unfolding rearm SameKey
rearm-SameKey now random e = (refl, refl)

pub refresh-SameKey :
    (now random : ℕ) (limited : Bool) (e : Controller) → SameKey e (refresh now random limited e)
unfolding refresh rearm SameKey
refresh-SameKey now random limited e = (refl, refl)

pub check_now-SameKey : (now : ℕ) (e : Controller) → SameKey e (check_now now e)
unfolding check_now SameKey
check_now-SameKey now e = ground arith

send_to-SameKey :
    (e : Controller) (body : Body) (n : ℕ) (kind : Kind) → SameKey e (send_to e body n kind).0
unfolding send_to count_seq SameKey
send_to-SameKey e body n kind = ground arith

notified-SameKey :
    (e : Controller) (body : Body) (n : ℕ) (kind : Kind) (by : Requester)
    → SameKey e (if is_requester by e then (e, []) else send_to e body n kind).0
unfolding SameKey
notified-SameKey e body n kind by = elim (Bool-cases (is_requester by e)) [
  | inl t ↦ rw t (refl, refl)
  | inr u ↦ rw u (send_to-SameKey e body n kind)
]

pub thin_notify :
    (body : Body) (n : ℕ) (kind : Kind) (by : Requester) (es : List Controller)
    → Thinned es (notify body n kind by es).0
unfolding notify
thin_notify body n kind by [] = thin_nil
thin_notify body n kind by (e ∷ es) =
    thin_keep (notified-SameKey e body n kind by) (thin_notify body n kind by es)

pub thin_replied :
    (now random seq_id target : ℕ) (es : List Controller)
    → Thinned es (replied now random seq_id target es)
unfolding replied SameKey
thin_replied now random seq_id target [] = thin_nil
thin_replied now random seq_id target (e ∷ es) =
    elim (Bool-cases
      (not (e.reply_due_us == 0) && e.check_seq_id == seq_id && e.entity_id == target)) [
        | inl t ↦ rw (t, replied) (thin_keep (rearm-SameKey now random e) (thin_refl es))
        | inr u ↦
            rw (u, replied) (thin_keep (refl, refl) (thin_replied now random seq_id target es))
      ]

thin_tick_entry :
    (wifi : Bool) (now seq : ℕ) (e : Controller) (fate : Fate) (es es' : List Controller)
    → Thinned es es'
    → Thinned (e ∷ es) ((tick_entry wifi now seq e fate).0 ++ es')
unfolding tick_entry send_check SameKey
thin_tick_entry wifi now seq e fate_keep es es' t = thin_keep (refl, refl) t
thin_tick_entry wifi now seq e fate_check es es' t = thin_keep (refl, refl) t
thin_tick_entry wifi now seq e fate_remove es es' t = thin_drop t

pub thin_tick :
    (milan wifi : Bool) (now : ℕ) (es : List Controller) (seq : ℕ)
    → Thinned es (registrations_tick milan wifi now seq es).0
unfolding registrations_tick
thin_tick milan wifi now [] seq = thin_nil
thin_tick milan wifi now (e ∷ es) seq =
    thin_tick_entry wifi now seq e _ es _ (thin_tick milan wifi now es _)

pub thin_deregister : (id mac : ℕ) (es : List Controller) → Thinned es (deregister id mac es)
unfolding deregister
thin_deregister id mac es = elim (Option-cases (find es id mac)) [
  | inl h ↦ rw (h, deregister) (thin_refl es)
  | inr (i, h) ↦ rw (h, deregister) (thin_remove es i)
]

pub thin_heard :
    (now random id mac : ℕ) (es : List Controller) → Thinned es (heard now random id mac es)
unfolding heard
thin_heard now random id mac es = elim (Option-cases (find es id mac)) [
  | inl h ↦ rw (h, heard) (thin_refl es)
  | inr (i, h) ↦ rw (h, heard) (thin_modify i (rearm now random) es (rearm-SameKey now random))
]

map-none : (o : Option ℕ) → Option.map suc o ≡ none → o ≡ none
map-none o h = ground arith

pub find-none : (es : List Controller) (id mac : ℕ) → find es id mac ≡ none → has id mac es ≡ false
unfolding find find_index has
find-none [] id mac h = refl
find-none (e ∷ es) id mac h =
    ground (arith, find-none es id mac, map-none (find_index (is_entry id mac) es))

pub find-absent :
    (es : List Controller) (id mac : ℕ) → has id mac es ≡ false → find es id mac ≡ none
unfolding find find_index has
find-absent [] id mac h = refl
find-absent (e ∷ es) id mac h =
    let later : find es id mac ≡ none = find-absent es id mac (ground arith) in
    let here : is_entry id mac e ≡ false = ground arith in rw (here, find, find_index, later) refl

pub has-append :
    (id mac : ℕ) (es fs : List Controller)
    → has id mac (es ++ fs) ≡ (has id mac es || has id mac fs)
unfolding has
has-append id mac [] fs = refl
has-append id mac (e ∷ es) fs = ground (arith, has-append id mac es fs)

pub Unique-append :
    (es : List Controller) (e : Controller)
    → has e.entity_id e.mac_addr es ≡ false
    → Unique es
    → Unique (es ++ e ∷ [])
unfolding Unique has is_entry
Unique-append [] e h u = (refl, refl)
Unique-append (x ∷ es) e h (n, u) = (
  has-append x.entity_id x.mac_addr es (e ∷ []) ∙ ground arith,
  Unique-append es e (ground arith) u,
)
