-- ===== src/Unsol/Calls.antt =====
-- The calls of the module in any order.
use esp_avb.Prelude.{
  ℕ, ◌≤◌, ◌<◌, ◌≡◌, ◌⊎◌, inl, inr, refl, arith, Bool, true, false, List, [], ◌∷◌, ◌++◌, none, some,
  ltb, leb, length, map, length-append, Option-cases, Bool-cases,
}
use esp_avb.Mrp.Table.{modify}
use esp_avb.Unsol.{
  Controller, Kind, Body, Requester, find, notify, rearm, status_success, status_no_resources,
  fresh, refresh, check_now, register, deregister, heard, replied, max_unsol_controllers,
}
use esp_avb.Unsol.Tick.{registrations_tick}
use esp_avb.Unsol.Registry.{
  IsRegistry, IsRegistry-Thinned, thin_map, thin_modify, thin_notify, refresh-SameKey,
  check_now-SameKey, Unique-append, thin_replied, thin_tick, thin_heard, thin_deregister, find-none,
}

pub register-found :
    (now random id mac : ℕ) (limited : Bool) (cs : List Controller) (i : ℕ)
    → find cs id mac ≡ some i
    → register now random id mac limited cs
      ≡ (modify i (refresh now random limited) cs, status_success)
unfolding register
register-found now random id mac limited cs i h = rw (h, register) refl

pub register-full :
    (now random id mac : ℕ) (limited : Bool) (cs : List Controller)
    → find cs id mac ≡ none
    → max_unsol_controllers ≤ length cs
    → register now random id mac limited cs ≡ (map (check_now now) cs, status_no_resources)
unfolding register max_unsol_controllers
register-full now random id mac limited cs h full =
    let f : leb 16 (length cs) ≡ true = ground arith in rw (h, register, f) refl

pub register-new :
    (now random id mac : ℕ) (limited : Bool) (cs : List Controller)
    → find cs id mac ≡ none
    → length cs < max_unsol_controllers
    → register now random id mac limited cs
      ≡ (cs ++ refresh now random limited (fresh id mac) ∷ [], status_success)
unfolding register max_unsol_controllers
register-new now random id mac limited cs h room =
    let f : leb 16 (length cs) ≡ false = ground arith in rw (h, register, f) refl

pub fits_or_full :
    (cs : List Controller)
    → (length cs < max_unsol_controllers) ⊎ (max_unsol_controllers ≤ length cs)
unfolding max_unsol_controllers
fits_or_full cs = elim (Bool-cases (ltb (length cs) 16)) [
  | inl t ↦ inl (ground arith)
  | inr f ↦ inr (ground arith)
]

new-IsRegistry :
    (now random id mac : ℕ) (limited : Bool) (cs : List Controller)
    → IsRegistry cs
    → find cs id mac ≡ none
    → length cs < max_unsol_controllers
    → IsRegistry (cs ++ refresh now random limited (fresh id mac) ∷ [])
unfolding IsRegistry refresh rearm fresh
new-IsRegistry now random id mac limited cs (len, u) h room = (
  omega (arith, length-append cs (refresh now random limited (fresh id mac) ∷ [])),
  Unique-append cs (refresh now random limited (fresh id mac)) (find-none cs id mac h) u,
)

register-IsRegistry :
    (now random id mac : ℕ) (limited : Bool) (cs : List Controller)
    → IsRegistry cs
    → IsRegistry (register now random id mac limited cs).0
register-IsRegistry now random id mac limited cs r = elim (Option-cases (find cs id mac)) [
  | inr (i, h) ↦
      rw (register-found now random id mac limited cs i h)
        (IsRegistry-Thinned (thin_modify i _ cs (refresh-SameKey now random limited)) r)
  | inl h ↦ elim (fits_or_full cs) [
    | inl room ↦
        rw (register-new now random id mac limited cs h room)
          (new-IsRegistry now random id mac limited cs r h room)
    | inr full ↦
        rw (register-full now random id mac limited cs h full)
          (IsRegistry-Thinned (thin_map (check_now now) cs (check_now-SameKey now)) r)
  ]
]

-- A call of the module, with what it reads
pub data Call : Type 0 where
  call_register : (now random id mac : ℕ) (limited : Bool) → Call
  call_deregister : (id mac : ℕ) → Call
  call_heard : (now random id mac : ℕ) → Call
  call_replied : (now random seq_id target : ℕ) → Call
  call_notify : (body : Body) (msg_len : ℕ) (kind : Kind) (by : Requester) → Call
  call_tick : (milan wifi : Bool) (now seq : ℕ) → Call

pub call : Call → List Controller → List Controller
call (call_register now random id mac limited) cs = (register now random id mac limited cs).0
call (call_deregister id mac) cs = deregister id mac cs
call (call_heard now random id mac) cs = heard now random id mac cs
call (call_replied now random seq_id target) cs = replied now random seq_id target cs
call (call_notify body msg_len kind by) cs = (notify body msg_len kind by cs).0
call (call_tick milan wifi now seq) cs = (registrations_tick milan wifi now seq cs).0

pub calls : List Call → List Controller → List Controller
calls [] cs = cs
calls (c ∷ more) cs = calls more (call c cs)

call-IsRegistry : (c : Call) (cs : List Controller) → IsRegistry cs → IsRegistry (call c cs)
unfolding call
call-IsRegistry (call_register now random id mac limited) cs r =
    register-IsRegistry now random id mac limited cs r
call-IsRegistry (call_deregister id mac) cs r = IsRegistry-Thinned (thin_deregister id mac cs) r
call-IsRegistry (call_heard now random id mac) cs r =
    IsRegistry-Thinned (thin_heard now random id mac cs) r
call-IsRegistry (call_replied now random seq_id target) cs r =
    IsRegistry-Thinned (thin_replied now random seq_id target cs) r
call-IsRegistry (call_notify body msg_len kind by) cs r =
    IsRegistry-Thinned (thin_notify body msg_len kind by cs) r
call-IsRegistry (call_tick milan wifi now seq) cs r =
    IsRegistry-Thinned (thin_tick milan wifi now cs seq) r

-- After any sequence of registrations, deregistrations, commands heard, replies, notifications and
-- ticks, the list that was one entry per entity ID and MAC address, with at most sixteen entries,
-- is so still.
pub calls-IsRegistry :
    (more : List Call) (cs : List Controller) → IsRegistry cs → IsRegistry (calls more cs)
unfolding calls
calls-IsRegistry [] cs r = r
calls-IsRegistry (c ∷ more) cs r = calls-IsRegistry more (call c cs) (call-IsRegistry c cs r)
