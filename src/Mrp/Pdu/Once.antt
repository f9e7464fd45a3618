-- ===== src/Mrp/Pdu/Once.antt =====
-- How often the walk of an MSRP message dispatches a LeaveAll.
use esp_avb.Prelude.{
  ℕ, zero, suc, ◌+◌, ◌*◌, ◌/◌, ◌≤◌, ◌≡◌, refl, Bool, ◌||◌, List, [], ◌∷◌, ◌++◌, some, if◌then◌else◌,
  ◌==◌, ltb, arith, get_elem?,
}
use esp_avb.Prelude.Results.{Yields, >>=-Yields, if-Yields, elim-Yields, some-Yields, none-Yields}
use esp_avb.Mrp.Pdu.{
  first_value_len, Call, leave_all, rx_talker, rx_listener, rx_domain, Vector, value_calls, values,
  event_at, header_vals, header_n3, rx_max_values, vector_len, vector_values, contains,
  leaveall_due, vectors, messages, received, rx_calls,
}

-- How many LeaveAlls of a type are among the calls
pub leave_alls : ℕ → List Call → ℕ
leave_alls t [] = 0
leave_alls t (leave_all u ∷ calls) = (if u == t then 1 else 0) + leave_alls t calls
leave_alls t (_ ∷ calls) = leave_alls t calls

leave_alls-nil : (t : ℕ) → leave_alls t [] ≡ 0
unfolding leave_alls
leave_alls-nil t = refl

leave_alls-append :
    (t : ℕ) (xs ys : List Call) → leave_alls t (xs ++ ys) ≡ leave_alls t xs + leave_alls t ys
unfolding leave_alls
leave_alls-append t [] ys = omega arith
leave_alls-append t (leave_all u ∷ xs) ys = omega (arith, leave_alls-append t xs ys)
leave_alls-append t (rx_talker a b c ∷ xs) ys = leave_alls-append t xs ys
leave_alls-append t (rx_listener a b c ∷ xs) ys = leave_alls-append t xs ys
leave_alls-append t (rx_domain a b ∷ xs) ys = leave_alls-append t xs ys

-- No LeaveAll is among the calls.
abbrev Silent : ℕ → List Call → Type 0
Silent t calls = leave_alls t calls ≡ 0

value_calls-Silent :
    (t : ℕ) (raw : List ℕ) (vec : Vector) (v ev : ℕ) → Yields (Silent t) (value_calls raw vec v ev)
unfolding value_calls leave_alls
value_calls-Silent t raw vec v ev = record { given = λ calls h. ground arith }

values-Silent :
    (t : ℕ) (raw : List ℕ) (vec : Vector) (k v : ℕ) → Yields (Silent t) (values raw vec k v)
unfolding values
values-Silent t raw vec zero v = some-Yields (Silent t) [] (leave_alls-nil t)
values-Silent t raw vec (suc k) v =
    >>=-Yields (Silent t) (get_elem? raw (vec.fv + vec.fv_len + v / 3)) _ λ octet _.
      >>=-Yields (Silent t) (value_calls raw vec v (event_at octet v)) _ λ calls e.
        >>=-Yields (Silent t) (values raw vec k (v + 1)) _ λ rest f.
          some-Yields (Silent t) (calls ++ rest) (
            omega (
              arith,
              leave_alls-append t calls rest,
              (value_calls-Silent t raw vec v (event_at octet v)).given calls e,
              (values-Silent t raw vec k (v + 1)).given rest f,
            ))

vector_values-Silent :
    (t : ℕ) (raw : List ℕ) (attr_type fv_len voff vh : ℕ)
    → Yields (Silent t) (vector_values raw attr_type fv_len voff vh)
unfolding vector_values
vector_values-Silent t raw attr_type fv_len voff vh =
    if-Yields (Silent t) (header_vals vh == 0) _ _
      (λ _. some-Yields (Silent t) [] (leave_alls-nil t))
      (λ _.
        values-Silent t raw
          (record { attr_type = attr_type; fv = voff + 2; fv_len = fv_len; n3 = header_n3 vh })
          (if ltb rx_max_values (header_vals vh) then rx_max_values else header_vals vh) 0)

-- 1 for a type in the set `leaveall_types`
marked : ℕ → List ℕ → ℕ
marked t types = if contains types t then 1 else 0

marked-cons :
    (lite : Bool) (types : List ℕ) (u vh t : ℕ)
    → leave_alls t (if leaveall_due lite types u vh then leave_all u ∷ [] else []) + marked t types
      ≡ marked t (if leaveall_due lite types u vh then u ∷ types else types)
unfolding leaveall_due marked contains leave_alls
marked-cons lite types u vh t = ground arith

-- The calls have dispatched a LeaveAll for each type that they added to the set.
abbrev Marks : ℕ → List ℕ → List Call × List ℕ → Type 0
Marks t types out = leave_alls t out.0 + marked t types ≡ marked t out.1

vectors-Marks :
    (t fuel : ℕ) (raw : List ℕ) (lite : Bool) (attr_type fv_len list_end : ℕ) (types : List ℕ)
    (voff : ℕ)
    → Yields (Marks t types) (vectors fuel raw lite attr_type fv_len list_end types voff)
unfolding vectors
vectors-Marks t zero raw lite attr_type fv_len list_end types voff = none-Yields _
vectors-Marks t (suc fuel) raw lite attr_type fv_len list_end types voff =
    let P = Marks t types in
    let stop = some-Yields P ([], types) (omega (arith, leave_alls-nil t)) in
    if-Yields P (ltb list_end (voff + 2)) _ _ (λ _. stop)
      (λ _. >>=-Yields P (get_elem? raw voff) _ λ hi _.
        >>=-Yields P (get_elem? raw (voff + 1)) _ λ lo _.
          let vh = hi * 256 + lo in
          let due = leaveall_due lite types attr_type vh in
          if-Yields P (vh == 0 || ltb list_end (voff + vector_len attr_type fv_len vh)) _ _
            (λ _. stop)
            (λ _. >>=-Yields P (vector_values raw attr_type fv_len voff vh) _ λ calls e.
              >>=-Yields P
                (vectors fuel raw lite attr_type fv_len list_end
                  (if due then attr_type ∷ types else types)
                  (voff + vector_len attr_type fv_len vh))
                _
                λ rest f.
                  some-Yields P
                    ((if due then leave_all attr_type ∷ [] else []) ++ calls ++ rest.0, rest.1)
                    (omega (
                      arith,
                      marked-cons lite types attr_type vh t,
                      leave_alls-append t (if due then leave_all attr_type ∷ [] else []) calls,
                      leave_alls-append t ((if due then leave_all attr_type ∷ [] else []) ++ calls)
                          rest.0,
                      (vector_values-Silent t raw attr_type fv_len voff vh).given calls e,
                      (vectors-Marks t fuel raw lite attr_type fv_len list_end
                            (if due then attr_type ∷ types else types)
                            (voff + vector_len attr_type fv_len vh)).given
                          rest f,
                    ))))

marked-le-one : (t : ℕ) (types : List ℕ) → marked t types ≤ 1
unfolding marked
marked-le-one t types = ground arith

abbrev Fresh : ℕ → List ℕ → List Call → Type 0
Fresh t types calls = leave_alls t calls + marked t types ≤ 1

messages-Fresh :
    (t fuel : ℕ) (raw : List ℕ) (raw_len : ℕ) (lite : Bool) (types : List ℕ) (offset : ℕ)
    → Yields (Fresh t types) (messages fuel raw raw_len lite types offset)
unfolding messages
messages-Fresh t zero raw raw_len lite types offset = none-Yields _
messages-Fresh t (suc fuel) raw raw_len lite types offset =
    let P = Fresh t types in
    let stop = some-Yields P [] (omega (arith, leave_alls-nil t, marked-le-one t types)) in
    if-Yields P (ltb raw_len (offset + 4)) _ _ (λ _. stop)
      (λ _. >>=-Yields P (get_elem? raw offset) _ λ u _.
        >>=-Yields P (get_elem? raw (offset + 2)) _ λ hi _.
          >>=-Yields P (get_elem? raw (offset + 3)) _ λ lo _.
            let list_end = offset + 4 + (hi * 256 + lo) in
            if-Yields P (u == 0 || ltb raw_len list_end) _ _ (λ _. stop)
              (λ _.
                elim-Yields P (first_value_len u) _ _
                  (λ _. messages-Fresh t fuel raw raw_len lite types list_end)
                  λ fv_len _.
                    >>=-Yields P
                      (vectors (raw_len + 1) raw lite u fv_len list_end types (offset + 4)) _
                      λ out e.
                        >>=-Yields P (messages fuel raw raw_len lite out.1 list_end) _ λ rest f.
                          some-Yields P (out.0 ++ rest) (
                            omega (
                              arith,
                              leave_alls-append t out.0 rest,
                              (vectors-Marks t (raw_len + 1) raw lite u fv_len list_end types
                                    (offset + 4)).given
                                  out e,
                              (messages-Fresh t fuel raw raw_len lite out.1 list_end).given rest f,
                            ))))

-- A received MSRP message dispatches the LeaveAll of a type once at most, however many of its
-- vectors carry the bit.
pub rx_calls-leave_alls :
    (lite : Bool) (len : ℕ) (buffer : List ℕ) (calls : List Call) (t : ℕ)
    → rx_calls lite len buffer ≡ some calls
    → leave_alls t calls ≤ 1
unfolding rx_calls
rx_calls-leave_alls lite len buffer calls t h =
    omega
      (arith, (messages-Fresh t (received len + 1) buffer (received len) lite [] 0).given calls h)
