-- ===== src/Mrp/Mvrp/Propagation.antt =====
-- How a VLAN registration on one port of a bridge reaches the others.
use esp_avb.Prelude.{
  ℕ, zero, suc, ◌+◌, ◌<◌, ◌≡◌, ◌≢◌, ◌⊎◌, inl, inr, refl, ap, ◌∙◌, arith, Bool, true, false, not,
  ◌||◌, List, [], ◌∷◌, none, some, if◌then◌else◌, ◌==◌, get_elem?, Option-cases, ==_refl,
}
use esp_avb.Mrp.{applicant_step, applicant_next}
use mathlib.Core.Option
use esp_avb.Mrp.Lite.{declaring}
use esp_avb.Mrp.Exchange.{declare_withdraw}
use esp_avb.Mrp.Registration.{RegTransition, transition_register, transition_deregister}
use esp_avb.Mrp.Table.{find_index-some, find_or_insert-Placed, Placed, get_elem?-modify}
use esp_avb.Mrp.Port.{Port, arm_join_timer}
use esp_avb.Mrp.Mvrp.{
  VlanEntry, PortState, is_vlan, vlan_find, vlan_unused, fresh_vlan, vlan_find_or_insert,
  declare_entry, declare_vlan, withdraw_entry, withdraw_vlan, propagate_to, propagate,
  on_vlan_registrar_change,
}

-- The port has an entry for the VLAN whose Applicant declares, or does not, as `d` says, and its
-- Join timer runs.
pub record IsDeclared (id : ℕ × ℕ) (d : Bool) (s : PortState) : Type 0 where
  pub slot : ℕ
  pub entry : VlanEntry
  pub there : get_elem? s.vlans slot ≡ some entry
  pub for_vlan : is_vlan id entry ≡ true
  pub declared : declaring entry.sm.applicant ≡ d
  pub armed : s.port.join_timer_us ≢ 0

is_vlan-fresh : (id : ℕ × ℕ) → is_vlan id (fresh_vlan id) ≡ true
unfolding is_vlan fresh_vlan
is_vlan-fresh (a, b) = ground (arith, ==_refl a, ==_refl b)

vlan-Placed :
    (es : List VlanEntry) (id : ℕ × ℕ)
    → Placed (is_vlan id) (vlan_unused ∷ []) es (vlan_find_or_insert es id)
unfolding vlan_find_or_insert
vlan-Placed es id =
    find_or_insert-Placed (is_vlan id) (vlan_unused ∷ []) (fresh_vlan id) es (is_vlan-fresh id)

armed_lem : (now rnd : ℕ) (p : Port) → 0 < now → (arm_join_timer now rnd p).join_timer_us ≢ 0
unfolding arm_join_timer
armed_lem now rnd p h = ground arith

is_vlan-declare_entry : (id : ℕ × ℕ) (e : VlanEntry) → is_vlan id (declare_entry e) ≡ is_vlan id e
unfolding is_vlan declare_entry
is_vlan-declare_entry id e = refl

declaring-declare_entry : (e : VlanEntry) → declaring (declare_entry e).sm.applicant ≡ true
unfolding declare_entry
declaring-declare_entry e = (declare_withdraw e.sm false).0

is_vlan-withdraw_entry : (id : ℕ × ℕ) (e : VlanEntry) → is_vlan id (withdraw_entry e) ≡ is_vlan id e
unfolding is_vlan withdraw_entry
is_vlan-withdraw_entry id e = refl

declaring-withdraw_entry : (e : VlanEntry) → declaring (withdraw_entry e).sm.applicant ≡ false
unfolding withdraw_entry applicant_step applicant_next declaring
declaring-withdraw_entry e = ground arith

-- A port whose table has a slot for the VLAN.
abbrev pub HasRoom : ℕ × ℕ → PortState → Type 0
HasRoom id s = (vlan_find_or_insert s.vlans id).1 ≢ none

-- `mrp_declare_vlan` on a port with room for the VLAN leaves it with an entry for the VLAN whose
-- Applicant declares, and with its Join timer running, whatever the table held.
pub declare_vlan-IsDeclared :
    (now rnd : ℕ) (id : ℕ × ℕ) (s : PortState)
    → 0 < now
    → HasRoom id s
    → IsDeclared id true (declare_vlan now rnd id s)
unfolding declare_vlan
declare_vlan-IsDeclared now rnd id s n room =
    elim (Option-cases (vlan_find_or_insert s.vlans id).1) [
      | inl full ↦ absurd (room full)
      | inr (i, at) ↦
          let (e, g, k) = (vlan-Placed s.vlans id).found i at in
          rw (at, declare_vlan)
            (record {
              slot = i;
              entry = declare_entry e;
              there = get_elem?-modify i declare_entry _ e g;
              for_vlan = is_vlan-declare_entry id e ∙ k;
              declared = declaring-declare_entry e;
              armed = armed_lem now rnd s.port n;
            })
    ]

-- `mrp_withdraw_vlan` on a port with an entry for the VLAN leaves that entry not declaring.
pub withdraw_vlan-IsDeclared :
    (now rnd : ℕ) (id : ℕ × ℕ) (s : PortState)
    → 0 < now
    → vlan_find s.vlans id ≢ none
    → IsDeclared id false (withdraw_vlan now rnd id s)
unfolding withdraw_vlan vlan_find
withdraw_vlan-IsDeclared now rnd id s n has = elim (Option-cases (vlan_find s.vlans id)) [
  | inl absent ↦ absurd (has absent)
  | inr (i, at) ↦
      let (e, g, k) = find_index-some (is_vlan id) s.vlans i at in
      rw (at, withdraw_vlan)
        (record {
          slot = i;
          entry = withdraw_entry e;
          there = get_elem?-modify i withdraw_entry _ e g;
          for_vlan = is_vlan-withdraw_entry id e ∙ k;
          declared = declaring-withdraw_entry e;
          armed = armed_lem now rnd s.port n;
        })
]

-- What the loop does with the port number `y`
reached : ℕ → (ℕ → ℕ) → ℕ → ℕ × ℕ → RegTransition → ℕ → PortState → PortState
reached now rnd ingress id tr y s =
    if y == ingress || not s.port.bridged then s else propagate_to now (rnd y) id tr s

get_elem?-propagate :
    (now : ℕ) (rnd : ℕ → ℕ) (ingress : ℕ) (id : ℕ × ℕ) (tr : RegTransition) (y i : ℕ)
    (ports : List PortState) (s : PortState)
    → get_elem? ports i ≡ some s
    → get_elem? (propagate now rnd ingress id tr y ports) i
      ≡ some (reached now rnd ingress id tr (y + i) s)
unfolding propagate reached
get_elem?-propagate now rnd ingress id tr y i [] s h = cc
get_elem?-propagate now rnd ingress id tr y zero (x ∷ ports) s h =
    let e : y + 0 ≡ y = ground arith in rw e (ap (Option.map (reached now rnd ingress id tr y)) h)
get_elem?-propagate now rnd ingress id tr y (suc i) (x ∷ ports) s h =
    let e : y + suc i ≡ suc y + i = ground arith in
    rw e (get_elem?-propagate now rnd ingress id tr (suc y) i ports s h)

-- The port is bridged and is not the one the registration came in on.
abbrev pub IsReached : ℕ → ℕ → PortState → Type 0
IsReached ingress y s = (y ≢ ingress) × (s.port.bridged ≡ true)

-- The port `y` of the result, when the registration came in on a bridged port
on_change-get :
    (now : ℕ) (rnd : ℕ → ℕ) (ingress : ℕ) (id : ℕ × ℕ) (tr : RegTransition) (ports : List PortState)
    (from : PortState) (y : ℕ) (s : PortState)
    → get_elem? ports ingress ≡ some from
    → from.port.bridged ≡ true
    → get_elem? ports y ≡ some s
    → get_elem? (on_vlan_registrar_change true now rnd ingress id tr ports) y
      ≡ some (reached now rnd ingress id tr y s)
unfolding on_vlan_registrar_change
on_change-get now rnd ingress id tr ports from y s f b h =
    let e : 0 + y ≡ y = ground arith in
    rw (f, on_vlan_registrar_change, b)
      (rw e at (get_elem?-propagate now rnd ingress id tr 0 y ports s h))

reached-IsReached :
    (now : ℕ) (rnd : ℕ → ℕ) (ingress : ℕ) (id : ℕ × ℕ) (tr : RegTransition) (y : ℕ) (s : PortState)
    → IsReached ingress y s
    → reached now rnd ingress id tr y s ≡ propagate_to now (rnd y) id tr s
unfolding reached
reached-IsReached now rnd ingress id tr y s r = ground arith

-- On a bridge, when a VLAN registers on a bridged port, every other bridged port whose table has
-- room ends with an entry for the VLAN that declares and a running Join timer. When it is
-- deregistered there, every other bridged port with an entry ends with that entry withdrawn. The
-- port of the change and the ports that are not bridged are left as they were.
pub on_vlan_registrar_change-lem :
    (now : ℕ) (rnd : ℕ → ℕ) (ingress : ℕ) (id : ℕ × ℕ) (ports : List PortState) (from : PortState)
    (y : ℕ) (s : PortState)
    → 0 < now
    → get_elem? ports ingress ≡ some from
    → from.port.bridged ≡ true
    → get_elem? ports y ≡ some s
    → (IsReached ingress y s
        → HasRoom id s
        → (t : PortState) × (get_elem?
              (on_vlan_registrar_change true now rnd ingress id transition_register ports)
              y
            ≡ some t)
          × IsDeclared id true t)
      × (IsReached ingress y s
          → vlan_find s.vlans id ≢ none
          → (t : PortState) × (get_elem?
                (on_vlan_registrar_change true now rnd ingress id transition_deregister ports)
                y
              ≡ some t)
            × IsDeclared id false t)
      × ((tr : RegTransition)
          → (y ≡ ingress) ⊎ (s.port.bridged ≡ false)
          → get_elem? (on_vlan_registrar_change true now rnd ingress id tr ports) y ≡ some s)
unfolding propagate_to reached
on_vlan_registrar_change-lem now rnd ingress id ports from y s n f b h =
    let step : (tr : RegTransition)
        → get_elem? (on_vlan_registrar_change true now rnd ingress id tr ports) y
          ≡ some (reached now rnd ingress id tr y s) =
      λ tr. on_change-get now rnd ingress id tr ports from y s f b h in
    (
      λ r room. (
        declare_vlan now (rnd y) id s,
        step transition_register
            ∙ ap some (reached-IsReached now rnd ingress id transition_register y s r),
        declare_vlan-IsDeclared now (rnd y) id s n room,
      ),
      λ r has. (
        withdraw_vlan now (rnd y) id s,
        step transition_deregister
            ∙ ap some (reached-IsReached now rnd ingress id transition_deregister y s r),
        withdraw_vlan-IsDeclared now (rnd y) id s n has,
      ),
      λ tr skip. step tr ∙ ap some (elim skip [ inl e ↦ ground arith | inr u ↦ ground arith ]),
    )
