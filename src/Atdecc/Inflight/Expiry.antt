-- ===== src/Atdecc/Inflight/Expiry.antt =====
-- The timeouts remove the expired commands and no others.
use esp_avb.Prelude.{
  ℕ, zero, suc, ◌+◌, ◌<◌, ◌≡◌, refl, arith, Bool, true, false, not, ◌&&◌, ◌||◌, List, [], ◌∷◌, ◌++◌,
  none, some, if◌then◌else◌, length, get_elem?, ap, inl, inr, length-append, Bool-cases,
  Option-cases,
}
use esp_avb.Utils.{Timeval}
use esp_avb.Mrp.Table.{find_index}
use esp_avb.Atdecc.{same_flag}
use esp_avb.Atdecc.Inflight.{
  Inflight, Command, own_seq, is_inflight, find_inflight, find_by_data, answers, remove_at,
  remove_inflight, expired, clear_pending, answer, expire, timeouts, process_timeouts,
  rx_response_for,
}

-- An entry that goes by the sequence ID and direction of `c`
unfoldable pub shares_key : Inflight → List Inflight → Bool
unfolding is_inflight own_seq
shares_key c [] = false
shares_key c (x ∷ xs) = is_inflight (own_seq c) c.inbound x || shares_key c xs

-- No two entries go by the same sequence ID and direction.
unfoldable pub keyed : List Inflight → Bool
unfolding shares_key
keyed [] = true
keyed (c ∷ cs) = not (shares_key c cs) && keyed cs

unfoldable pub outbound : List Inflight → Bool
outbound [] = true
outbound (c ∷ cs) = not c.inbound && outbound cs

-- The commands whose time has not come
unfoldable pub live : Timeval → List Inflight → List Inflight
live now [] = []
live now (c ∷ cs) = if expired now c then live now cs else c ∷ live now cs

-- The streams that still wait for a connection once the expired commands are given up
unfoldable pub still_pending : Timeval → List Inflight → List Bool → List Bool
still_pending now [] pending = pending
still_pending now (c ∷ cs) pending =
    still_pending now cs (if expired now c then clear_pending c pending else pending)

is_inflight_sym :
    (x c : Inflight)
    → is_inflight (own_seq x) x.inbound c ≡ false
    → is_inflight (own_seq c) c.inbound x ≡ false
unfolding is_inflight same_flag
is_inflight_sym x c h = ground arith

is_inflight_refl : (c : Inflight) → is_inflight (own_seq c) c.inbound c ≡ true
unfolding is_inflight same_flag
is_inflight_refl c = ground arith

shares_key-append :
    (x c : Inflight) (kept rest : List Inflight)
    → shares_key x (kept ++ c ∷ rest) ≡ false
    → (is_inflight (own_seq x) x.inbound c ≡ false) × (shares_key x (kept ++ rest) ≡ false)
unfolding shares_key
shares_key-append x c [] rest h = (ground arith, ground arith)
shares_key-append x c (y ∷ kept) rest h =
    let (this, others) = shares_key-append x c kept rest (ground arith) in (this, ground arith)

-- The first entry that goes by the key of `c` is `c` itself.
find_self :
    (c : Inflight) (kept rest : List Inflight)
    → keyed (kept ++ c ∷ rest) ≡ true
    → find_index (is_inflight (own_seq c) c.inbound) (kept ++ c ∷ rest) ≡ some (length kept)
unfolding keyed find_index
find_self c [] rest h = let self = is_inflight_refl c in rw self refl
find_self c (x ∷ kept) rest h =
    let (other, _) = shares_key-append x c kept rest (ground arith) in
    rw (is_inflight_sym x c other, find_self c kept rest (ground arith)) refl

remove_at-length :
    (c : Inflight) (kept rest : List Inflight)
    → remove_at (length kept) (kept ++ c ∷ rest) ≡ kept ++ rest
unfolding remove_at
remove_at-length c [] rest = refl
remove_at-length c (x ∷ kept) rest = ap (λ l. x ∷ l) (remove_at-length c kept rest)

keyed-drop :
    (c : Inflight) (kept rest : List Inflight)
    → keyed (kept ++ c ∷ rest) ≡ true
    → keyed (kept ++ rest) ≡ true
unfolding keyed
keyed-drop c [] rest h = ground arith
keyed-drop c (x ∷ kept) rest h =
    let (_, others) = shares_key-append x c kept rest (ground arith) in
    let rest_keyed = keyed-drop c kept rest (ground arith) in ground arith

outbound-drop :
    (c : Inflight) (kept rest : List Inflight)
    → outbound (kept ++ c ∷ rest) ≡ true
    → (c.inbound ≡ false) × (outbound (kept ++ rest) ≡ true)
unfolding outbound
outbound-drop c [] rest h = (ground arith, ground arith)
outbound-drop c (x ∷ kept) rest h =
    let (this, others) = outbound-drop c kept rest (ground arith) in (this, ground arith)

find_by_data-outbound :
    (reply : Command) (cs : List Inflight)
    → outbound cs ≡ true
    → find_index (answers reply true) cs ≡ none
unfolding outbound find_index answers same_flag
find_by_data-outbound reply [] h = refl
find_by_data-outbound reply (c ∷ cs) h =
    let rest = find_by_data-outbound reply cs (ground arith) in
    let this : c.inbound ≡ false = ground arith in rw (this, rest) refl

-- No command is inbound, so that nobody is answered.
answer-outbound : (c : Inflight) (cs : List Inflight) → outbound cs ≡ true → answer c cs ≡ (cs, [])
unfolding answer find_by_data
answer-outbound c cs out = elim (Option-cases (rx_response_for c.command.msg_type)) [
  | inl n ↦ rw (answer, n) refl
  | inr (ty, h) ↦
      rw (answer, h, find_by_data-outbound (record c.command { msg_type = ty }) cs out) refl
]

forwarded :
    (c : Inflight) (cs : List Inflight)
    → outbound cs ≡ true
    → (if c.command.is_acmp && not c.inbound then answer c cs else (cs, [])) ≡ (cs, [])
forwarded c cs out = let a = answer-outbound c cs out in ground arith

remove_inflight-own :
    (c : Inflight) (kept rest : List Inflight)
    → keyed (kept ++ c ∷ rest) ≡ true
    → remove_inflight (own_seq c) c.inbound (kept ++ c ∷ rest) ≡ kept ++ rest
unfolding remove_inflight find_inflight
remove_inflight-own c kept rest key =
    rw (remove_inflight, find_self c kept rest key) (remove_at-length c kept rest)

expire-lem :
    (c : Inflight) (kept rest : List Inflight) (pending : List Bool)
    → outbound (kept ++ c ∷ rest) ≡ true
    → keyed (kept ++ c ∷ rest) ≡ true
    → expire c (record { commands = kept ++ c ∷ rest; pending = pending; sent = [] })
      ≡ record { commands = kept ++ rest; pending = clear_pending c pending; sent = [] }
unfolding expire
expire-lem c kept rest pending out key =
    rw (forwarded c (kept ++ c ∷ rest) out, remove_inflight-own c kept rest key) refl

get_elem?-kept :
    (c : Inflight) (kept rest : List Inflight) → get_elem? (kept ++ c ∷ rest) (length kept) ≡ some c
get_elem?-kept c [] rest = refl
get_elem?-kept c (x ∷ kept) rest = get_elem?-kept c kept rest

get_elem?-ended : (kept : List Inflight) → get_elem? (kept ++ []) (length kept) ≡ none
get_elem?-ended [] = refl
get_elem?-ended (x ∷ kept) = get_elem?-ended kept

append_one :
    (c : Inflight) (kept rest : List Inflight) → (kept ++ c ∷ []) ++ rest ≡ kept ++ c ∷ rest
append_one c [] rest = refl
append_one c (x ∷ kept) rest = ap (λ l. x ∷ l) (append_one c kept rest)

timeouts-lem :
    (now : Timeval) (kept rest : List Inflight) (pending : List Bool) (fuel : ℕ)
    → length rest < fuel
    → outbound (kept ++ rest) ≡ true
    → keyed (kept ++ rest) ≡ true
    → timeouts fuel now
        (length kept)
        (record { commands = kept ++ rest; pending = pending; sent = [] })
      ≡ some (record {
        commands = kept ++ live now rest;
        pending = still_pending now rest pending;
        sent = [];
      })
unfolding timeouts live still_pending
timeouts-lem now kept [] pending zero l out key = absurd (omega arith)
timeouts-lem now kept (c ∷ rest) pending zero l out key = absurd (omega arith)
timeouts-lem now kept [] pending (suc fuel) l out key = rw (timeouts, get_elem?-ended kept) refl
timeouts-lem now kept (c ∷ rest) pending (suc fuel) l out key = elim (Bool-cases (expired now c)) [
  | inl late ↦
      rw (timeouts, get_elem?-kept c kept rest, late, expire-lem c kept rest pending out key)
        (timeouts-lem now kept rest (clear_pending c pending) fuel (omega arith)
          (outbound-drop c kept rest out).1 (keyed-drop c kept rest key))
  | inr early ↦
      let e = append_one c kept rest in
      let n : length (kept ++ c ∷ []) ≡ length kept + 1 = length-append kept (c ∷ []) in
      let rest_done =
        timeouts-lem now (kept ++ c ∷ []) rest pending fuel (omega arith) (rw e out) (rw e key) in
      rw (timeouts, get_elem?-kept c kept rest, early)
        (rw (e, n, append_one c kept (live now rest)) at rest_done)
]

-- If all commands in flight are the node's own and no two share a sequence ID, then the timeouts
-- come to an end, remove the commands whose time has come and no others, keep the order of the
-- rest, give up the pending connection of each removed CONNECT_TX, and answer no controller.
pub process_timeouts-lem :
    (now : Timeval) (cs : List Inflight) (pending : List Bool)
    → outbound cs ≡ true
    → keyed cs ≡ true
    → process_timeouts now (record { commands = cs; pending = pending; sent = [] })
      ≡ some (record { commands = live now cs; pending = still_pending now cs pending; sent = [] })
unfolding process_timeouts
process_timeouts-lem now cs pending out key =
    timeouts-lem now [] cs pending (length cs + 1) (omega arith) out key
