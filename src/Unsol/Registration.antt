-- ===== src/Unsol/Registration.antt =====
-- What a registration and a deregistration promise.
use esp_avb.Prelude.{
  ℕ, ◌+◌, ◌≤◌, ◌<◌, ◌≡◌, ◌≢◌, ◌⊎◌, inl, inr, refl, ◌∙◌, arith, Bool, true, false, List, [], ◌∷◌,
  ◌++◌, some, length, get_elem?, ==_refl, Option-cases, Bool-cases, length-map,
}
use esp_avb.Mrp.Table.{find_index, find_index-some, modify, get_elem?-modify}
use esp_avb.Unsol.{
  Controller, is_entry, find, remove, rearm, status_success, status_no_resources, fresh, refresh,
  check_now, register, deregister, max_unsol_controllers, check_delay_us,
}
use esp_avb.Unsol.Registry.{
  has, Unique, Thinned, thin_map, check_now-SameKey, find-none, find-absent,
}
use esp_avb.Unsol.Calls.{register-found, register-full, register-new, fits_or_full}

-- The list has an entry for the controller that was registered or refreshed at `now`.
pub record IsRefreshed (now id mac : ℕ) (limited : Bool) (cs : List Controller) : Type 0 where
  pub slot : ℕ
  pub entry : Controller
  pub there : get_elem? cs slot ≡ some entry
  pub key : is_entry id mac entry ≡ true
  pub no_check : (entry.reply_due_us ≡ 0) × (entry.checks_sent ≡ 0)
  pub check_from : now + 30000000 ≤ entry.check_due_us
  pub check_until : entry.check_due_us < now + 60000000
  pub lapses : (entry.time_limited ≡ limited) × (entry.expires_us ≡ now + 300000000)

refresh-IsRefreshed :
    (now random id mac : ℕ) (limited : Bool) (e : Controller) (cs : List Controller) (i : ℕ)
    → is_entry id mac e ≡ true
    → get_elem? cs i ≡ some (refresh now random limited e)
    → IsRefreshed now id mac limited cs
unfolding refresh rearm check_delay_us is_entry
refresh-IsRefreshed now random id mac limited e cs i k g = record {
  slot = i;
  entry = refresh now random limited e;
  there = g;
  key = k;
  no_check = (refl, refl);
  check_from = omega arith;
  check_until = omega arith;
  lapses = (refl, omega arith);
}

get_elem?-append :
    (cs : List Controller) (e : Controller) → get_elem? (cs ++ e ∷ []) (length cs) ≡ some e
get_elem?-append [] e = refl
get_elem?-append (c ∷ cs) e = get_elem?-append cs e

-- A registration of a controller that the list knows
found-IsRefreshed :
    (now random id mac : ℕ) (limited : Bool) (cs : List Controller) (i : ℕ)
    → find cs id mac ≡ some i
    → IsRefreshed now id mac limited (modify i (refresh now random limited) cs)
unfolding find
found-IsRefreshed now random id mac limited cs i h =
    let (e, g, k) = find_index-some (is_entry id mac) cs i h in
    refresh-IsRefreshed now random id mac limited e _ i k (get_elem?-modify i _ cs e g)

-- A registration of a controller that it does not know, with room
new-IsRefreshed :
    (now random id mac : ℕ) (limited : Bool) (cs : List Controller)
    → IsRefreshed now id mac limited (cs ++ refresh now random limited (fresh id mac) ∷ [])
unfolding is_entry fresh
new-IsRefreshed now random id mac limited cs =
    refresh-IsRefreshed now random id mac limited (fresh id mac) _ (length cs)
      (ground (arith, ==_refl id, ==_refl mac))
      (get_elem?-append cs (refresh now random limited (fresh id mac)))

-- A registration succeeds when the list knows the controller or has room, and then the list has an
-- entry for it that is time-limited exactly if the registration asks for it, has its limit 300 s
-- later (without the flag it stays unused), and is next checked after 30 to 60 s. It is refused when
-- the sixteen places are taken by others, and then no entry is lost and none is added.
pub register-lem :
    (now random id mac : ℕ) (limited : Bool) (cs : List Controller)
    → let (cs', status) = register now random id mac limited cs in
      (has id mac cs ≡ true ⊎ (length cs < max_unsol_controllers)
        → (status ≡ status_success) × IsRefreshed now id mac limited cs')
      × (has id mac cs ≡ false
          → max_unsol_controllers ≤ length cs
          → (status ≡ status_no_resources) × (length cs' ≡ length cs) × Thinned cs cs')
unfolding max_unsol_controllers
register-lem now random id mac limited cs = elim (Option-cases (find cs id mac)) [
  | inr (i, h) ↦ rw (register-found now random id mac limited cs i h) (
    λ k. (refl, found-IsRefreshed now random id mac limited cs i h),
    λ a full. ground (arith, find-absent cs id mac a),
  )
  | inl h ↦ elim (fits_or_full cs) [
    | inl room ↦
        rw (register-new now random id mac limited cs h room)
          (λ k. (refl, new-IsRefreshed now random id mac limited cs), λ a full. ground arith)
    | inr full ↦ rw (register-full now random id mac limited cs h full) (
      λ k. ground (arith, find-none cs id mac h),
      λ a f. (
        refl,
        length-map cs (check_now now),
        thin_map (check_now now) cs (check_now-SameKey now),
      ),
    )
  ]
]

deregister-found :
    (id mac : ℕ) (e : Controller) (es : List Controller)
    → is_entry id mac e ≡ true
    → deregister id mac (e ∷ es) ≡ es
unfolding deregister find find_index remove
deregister-found id mac e es h = rw (deregister, find, find_index, h) refl

deregister-later :
    (id mac : ℕ) (e : Controller) (es : List Controller)
    → is_entry id mac e ≡ false
    → deregister id mac (e ∷ es) ≡ e ∷ deregister id mac es
unfolding deregister find find_index remove
deregister-later id mac e es h = ground arith

has-SameKey :
    (id mac : ℕ) (e : Controller) (es : List Controller)
    → is_entry id mac e ≡ true
    → has id mac es ≡ has e.entity_id e.mac_addr es
unfolding is_entry
has-SameKey id mac e es h =
    let p : e.entity_id ≡ id = ground arith in
    let q : e.mac_addr ≡ mac = ground arith in rw (p, q) refl

-- After a deregistration the controller is not in the list, when no two entries were for one
-- controller, and every other controller is in it exactly when it was.
pub deregister-lem :
    (id mac id2 mac2 : ℕ) (cs : List Controller)
    → Unique cs
    → (has id mac (deregister id mac cs) ≡ false)
      × ((id ≢ id2) ⊎ (mac ≢ mac2) → has id2 mac2 (deregister id mac cs) ≡ has id2 mac2 cs)
unfolding Unique has is_entry deregister
deregister-lem id mac id2 mac2 [] u = (refl, λ d. refl)
deregister-lem id mac id2 mac2 (e ∷ es) (n, u) = elim (Bool-cases (is_entry id mac e)) [
  | inl t ↦ rw (deregister-found id mac e es t) (has-SameKey id mac e es t ∙ n, λ d. ground arith)
  | inr f ↦ rw (deregister-later id mac e es f) (
    ground (arith, deregister-lem id mac id2 mac2 es u),
    λ d. ground (arith, (deregister-lem id mac id2 mac2 es u).1 d),
  )
]
