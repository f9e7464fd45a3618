-- ===== src/Mrp/Mvrp/Keyed.antt =====
-- Every operation of MVRP keeps at most one valid entry for each VLAN in the table of a port.
use esp_avb.Prelude.{
  ℕ, zero, suc, ◌≡◌, ◌⊎◌, inl, inr, refl, sym, ap, ◌∙◌, arith, Bool, true, false, List, [], ◌∷◌,
  some, if◌then◌else◌, ◌==◌, get_elem?, set, map, Bool-cases, Option-cases,
}
use esp_avb.Mrp.{Event}
use esp_avb.Mrp.Table.{modify}
use esp_avb.Mrp.Table.Unique.{AtMostOne, find_or_insert-AtMostOne}
use esp_avb.Mrp.Mvrp.{
  VlanEntry, PortState, vlan_id_eq, is_vlan, vlan_find, vlan_unused, fresh_vlan,
  vlan_find_or_insert, declare_entry, declare_vlan, withdraw_entry, withdraw_vlan,
  dispatch_leaveall, VlanMessage, receive_entry, receive_table, tx_flush_mvrp,
}
use esp_avb.Mrp.Mvrp.Flush.{flushed, tx_flush_mvrp-lem}

unfoldable pub IsKeyed : List VlanEntry → Type 0
IsKeyed es = (id : ℕ × ℕ) → AtMostOne (is_vlan id) es

-- Entries that stand for one VLAN, if any
SameVlan : VlanEntry → VlanEntry → Type 0
SameVlan e f = (e.valid ≡ f.valid) × (e.vlan_id ≡ f.vlan_id)

is_vlan-SameVlan : (id : ℕ × ℕ) (e f : VlanEntry) → SameVlan e f → is_vlan id e ≡ is_vlan id f
unfolding is_vlan SameVlan
is_vlan-SameVlan id e f (p, q) = rw (p, q) refl

-- Slot by slot, the second table stands for the VLANs of the first.
data Alike : List VlanEntry → List VlanEntry → Type 0 where
  alike_nil : Alike [] []
  alike_cons :
      {e f : VlanEntry} {es fs : List VlanEntry}
      → SameVlan e f
      → Alike es fs
      → Alike (e ∷ es) (f ∷ fs)

Alike-get :
    {es fs : List VlanEntry} (i : ℕ) (f : VlanEntry)
    → Alike es fs
    → get_elem? fs i ≡ some f
    → (e : VlanEntry) × (get_elem? es i ≡ some e) × SameVlan e f
unfolding SameVlan
Alike-get i f alike_nil h = cc
Alike-get zero f (alike_cons {e = e} {f = g} s a) h = let q : g ≡ f = cc in (e, refl, rw (sym q) s)
Alike-get (suc i) f (alike_cons s a) h = Alike-get i f a h

IsKeyed-Alike : {es fs : List VlanEntry} → Alike es fs → IsKeyed es → IsKeyed fs
unfolding IsKeyed
IsKeyed-Alike a u id i j e f gi gj pe pf =
    let (e0, hi, si) = Alike-get i e a gi in
    let (f0, hj, sj) = Alike-get j f a gj in
    u id i j e0 f0 hi hj (is_vlan-SameVlan id e0 e si ∙ pe) (is_vlan-SameVlan id f0 f sj ∙ pf)

Alike-refl : (es : List VlanEntry) → Alike es es
unfolding SameVlan
Alike-refl [] = alike_nil
Alike-refl (e ∷ es) = alike_cons (refl, refl) (Alike-refl es)

Alike-modify :
    (i : ℕ) (f : VlanEntry → VlanEntry) (es : List VlanEntry)
    → ((e : VlanEntry) → SameVlan e (f e))
    → Alike es (modify i f es)
unfolding modify SameVlan
Alike-modify i f [] s = alike_nil
Alike-modify zero f (e ∷ es) s = alike_cons (s e) (Alike-refl es)
Alike-modify (suc i) f (e ∷ es) s = alike_cons (refl, refl) (Alike-modify i f es s)

Alike-set :
    (i : ℕ) (es : List VlanEntry) (e f : VlanEntry)
    → get_elem? es i ≡ some e
    → SameVlan e f
    → Alike es (set es i f)
unfolding SameVlan
Alike-set i [] e f g s = cc
Alike-set zero (x ∷ es) e f g s = let q : x ≡ e = cc in alike_cons (rw q s) (Alike-refl es)
Alike-set (suc i) (x ∷ es) e f g s = alike_cons (refl, refl) (Alike-set i es e f g s)

Alike-map :
    (f : VlanEntry → VlanEntry) (es : List VlanEntry)
    → ((e : VlanEntry) → SameVlan e (f e))
    → Alike es (map f es)
Alike-map f [] s = alike_nil
Alike-map f (e ∷ es) s = alike_cons (s e) (Alike-map f es s)

Alike-leaveall : (now : ℕ) (es : List VlanEntry) → Alike es (dispatch_leaveall now es)
unfolding dispatch_leaveall SameVlan
Alike-leaveall now [] = alike_nil
Alike-leaveall now (e ∷ es) = alike_cons (ground arith) (Alike-leaveall now es)

same_vlan_id : (id id2 : ℕ × ℕ) → is_vlan id2 (fresh_vlan id) ≡ true → id2 ≡ id
unfolding is_vlan fresh_vlan vlan_id_eq
same_vlan_id (a, b) (c, d) h =
    let p : c ≡ a = ground arith in let q : d ≡ b = ground arith in rw (p, q) refl

find_or_insert-IsKeyed :
    (es : List VlanEntry) (id : ℕ × ℕ) → IsKeyed es → IsKeyed (vlan_find_or_insert es id).0
unfolding IsKeyed vlan_find_or_insert
find_or_insert-IsKeyed es id u id2 =
    find_or_insert-AtMostOne (is_vlan id) (is_vlan id2) (vlan_unused ∷ []) (fresh_vlan id) es which
      (u id2)
  where
    which : (is_vlan id2 ≡ is_vlan id) ⊎ (is_vlan id2 (fresh_vlan id) ≡ false)
    which = elim (Bool-cases (is_vlan id2 (fresh_vlan id))) [
      | inl t ↦ inl (ap is_vlan (same_vlan_id id id2 t))
      | inr f ↦ inr f
    ]

declare_entry-SameVlan : (e : VlanEntry) → SameVlan e (declare_entry e)
unfolding declare_entry SameVlan
declare_entry-SameVlan e = (refl, refl)

withdraw_entry-SameVlan : (e : VlanEntry) → SameVlan e (withdraw_entry e)
unfolding withdraw_entry SameVlan
withdraw_entry-SameVlan e = (refl, refl)

flushed-SameVlan : (ev : Event) (e : VlanEntry) → SameVlan e (flushed ev e)
unfolding flushed SameVlan
flushed-SameVlan ev e = ground arith

pub declare_vlan-IsKeyed :
    (now rnd : ℕ) (id : ℕ × ℕ) (s : PortState)
    → IsKeyed s.vlans
    → IsKeyed (declare_vlan now rnd id s).vlans
unfolding declare_vlan
declare_vlan-IsKeyed now rnd id s u = elim (Option-cases (vlan_find_or_insert s.vlans id).1) [
  | inl n ↦ rw (n, declare_vlan) (find_or_insert-IsKeyed s.vlans id u)
  | inr (i, at) ↦
      rw (at, declare_vlan)
        (IsKeyed-Alike (Alike-modify i declare_entry _ declare_entry-SameVlan)
          (find_or_insert-IsKeyed s.vlans id u))
]

pub withdraw_vlan-IsKeyed :
    (now rnd : ℕ) (id : ℕ × ℕ) (s : PortState)
    → IsKeyed s.vlans
    → IsKeyed (withdraw_vlan now rnd id s).vlans
unfolding withdraw_vlan
withdraw_vlan-IsKeyed now rnd id s u = elim (Option-cases (vlan_find s.vlans id)) [
  | inl n ↦ rw (n, withdraw_vlan) u
  | inr (i, at) ↦
      rw (at, withdraw_vlan)
        (IsKeyed-Alike (Alike-modify i withdraw_entry s.vlans withdraw_entry-SameVlan) u)
]

pub flush-IsKeyed :
    (ev : Event) (la : Bool) (es : List VlanEntry) → IsKeyed es → IsKeyed (tx_flush_mvrp ev la es).0
flush-IsKeyed ev la es u =
    rw ((tx_flush_mvrp-lem ev la es).0)
      (IsKeyed-Alike (Alike-map (flushed ev) es (flushed-SameVlan ev)) u)

-- The end of `mrp_rx_mvrp` on the table, once the entry is found or inserted
stepped-IsKeyed :
    (now octet : ℕ) (es : List VlanEntry) (i : ℕ) (e : VlanEntry)
    → get_elem? es i ≡ some e
    → IsKeyed es
    → IsKeyed (set es i (receive_entry now octet e).0)
unfolding receive_entry SameVlan
stepped-IsKeyed now octet es i e g u = IsKeyed-Alike (Alike-set i es e _ g (refl, refl)) u

-- The table after the LeaveAll of the message
left_all : ℕ → VlanMessage → List VlanEntry → List VlanEntry
left_all now msg es = if msg.leaveall == 0 then es else dispatch_leaveall now es

left_all-IsKeyed :
    (now : ℕ) (msg : VlanMessage) (es : List VlanEntry) → IsKeyed es → IsKeyed (left_all now msg es)
unfolding left_all
left_all-IsKeyed now msg es u = elim (Bool-cases (msg.leaveall == 0)) [
  | inl t ↦ rw t u
  | inr f ↦ rw f (IsKeyed-Alike (Alike-leaveall now es) u)
]

pub receive_table-IsKeyed :
    (now : ℕ) (msg : VlanMessage) (es : List VlanEntry)
    → IsKeyed es
    → IsKeyed (receive_table now msg es).0
unfolding receive_table left_all
receive_table-IsKeyed now msg es u =
    let v =
      find_or_insert-IsKeyed (left_all now msg es) msg.vlan_id (left_all-IsKeyed now msg es u) in
    elim (Option-cases (vlan_find_or_insert (left_all now msg es) msg.vlan_id).1) [
      | inl n ↦ rw (n, receive_table) v
      | inr (i, at) ↦
          elim (Option-cases
            (get_elem? (vlan_find_or_insert (left_all now msg es) msg.vlan_id).0 i)) [
              | inl n ↦ rw (at, receive_table, n) v
              | inr (e, g) ↦
                  rw (at, receive_table, g) (stepped-IsKeyed now msg.attr_event _ i e g v)
            ]
    ]
