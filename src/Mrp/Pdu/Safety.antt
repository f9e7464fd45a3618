-- ===== src/Mrp/Pdu/Safety.antt =====
-- The walk of an MSRP message ends, and reads received octets only.
use esp_avb.Prelude.{
  ℕ, zero, suc, ◌+◌, ◌*◌, ◌/◌, ◌≤◌, ◌<◌, ◌≡◌, refl, Bool, ◌||◌, List, [], ◌∷◌, ◌++◌, some,
  if◌then◌else◌, ◌==◌, ltb, arith, length, get_elem?, take,
}
use esp_avb.Prelude.Results.{Succeeds, >>=-Succeeds, elim-Succeeds, if-Succeeds}
use esp_avb.Mrp.Pdu.{
  type_listener, type_domain, first_value_len, copy, Call, Vector, value_calls, event_at, values,
  header_vals, header_n3, vector_len, vector_values, rx_max_values, leaveall_due, vectors, messages,
  received, rx_calls,
}

get_elem?-Succeeds {ℓ} :
    {A : Type ℓ} (xs : List A) (i : ℕ) → i < length xs → Succeeds (get_elem? xs i)
get_elem?-Succeeds [] i h = absurd (omega arith)
get_elem?-Succeeds (x ∷ xs) zero h = (x, refl)
get_elem?-Succeeds (x ∷ xs) (suc i) h = get_elem?-Succeeds xs i (omega arith)

copy-Succeeds : (raw : List ℕ) (i n : ℕ) → i + n ≤ length raw → Succeeds (copy raw i n)
unfolding copy
copy-Succeeds raw i zero h = ([], refl)
copy-Succeeds raw i (suc n) h =
    >>=-Succeeds _ _ (get_elem?-Succeeds raw i (omega arith))
      λ b _. >>=-Succeeds _ _ (copy-Succeeds raw (i + 1) n (omega arith)) λ bs _. (b ∷ bs, refl)

-- A vector whose `n` values lie in the received octets
record Within (raw : List ℕ) (vec : Vector) (n : ℕ) : Type 0 where
  inside :
      vec.fv + vec.fv_len + vec.n3 + (if vec.attr_type == type_listener then (n + 3) / 4 else 0)
      ≤ length raw
  events : vec.n3 ≡ (n + 2) / 3
  known : first_value_len vec.attr_type ≡ some vec.fv_len

value_calls-Succeeds :
    (raw : List ℕ) (vec : Vector) (n v ev : ℕ)
    → Within raw vec n
    → v < n
    → Succeeds (value_calls raw vec v ev)
unfolding value_calls first_value_len
value_calls-Succeeds raw vec n v ev w h =
    if-Succeeds (vec.attr_type == type_domain) _ _
      (λ d.
        if-Succeeds (v == 0) _ _
          (λ z. >>=-Succeeds _ _ (copy-Succeeds raw vec.fv 4 (ground arith)) λ fv _. (_, refl))
          (λ z. ([], refl)))
      (λ d.
        if-Succeeds (vec.attr_type == type_listener) _ _
          (λ l. >>=-Succeeds _ _ (copy-Succeeds raw vec.fv 8 (ground arith)) λ fv _.
            >>=-Succeeds _ _
              (get_elem?-Succeeds raw (vec.fv + vec.fv_len + vec.n3 + v / 4) (ground arith))
              λ d4 _. (_, refl))
          (λ l.
            >>=-Succeeds _ _ (copy-Succeeds raw vec.fv vec.fv_len (ground arith))
              λ fv _. (_, refl)))

values-Succeeds :
    (raw : List ℕ) (vec : Vector) (n k v : ℕ)
    → Within raw vec n
    → v + k ≤ n
    → Succeeds (values raw vec k v)
unfolding values
values-Succeeds raw vec n zero v w h = ([], refl)
values-Succeeds raw vec n (suc k) v w h =
    >>=-Succeeds _ _ (get_elem?-Succeeds raw (vec.fv + vec.fv_len + v / 3) (ground arith))
      λ octet _.
        >>=-Succeeds _ _ (value_calls-Succeeds raw vec n v (event_at octet v) w (omega arith))
          λ calls _.
            >>=-Succeeds _ _ (values-Succeeds raw vec n k (v + 1) w (omega arith))
              λ rest _. (calls ++ rest, refl)

vector_values-Succeeds :
    (raw : List ℕ) (attr_type fv_len voff vh : ℕ)
    → first_value_len attr_type ≡ some fv_len
    → voff + vector_len attr_type fv_len vh ≤ length raw
    → Succeeds (vector_values raw attr_type fv_len voff vh)
unfolding vector_values vector_len header_n3
vector_values-Succeeds raw attr_type fv_len voff vh k h =
    if-Succeeds (header_vals vh == 0) _ _ (λ z. ([], refl))
      λ z.
        values-Succeeds raw
          (record { attr_type = attr_type; fv = voff + 2; fv_len = fv_len; n3 = header_n3 vh })
          (header_vals vh)
          (if ltb rx_max_values (header_vals vh) then rx_max_values else header_vals vh) 0
          (record { inside = ground arith; events = ground arith; known = k }) (ground arith)

vector_len-ge : (attr_type fv_len vh : ℕ) → 2 ≤ vector_len attr_type fv_len vh
unfolding vector_len
vector_len-ge attr_type fv_len vh = ground arith

vectors-Succeeds :
    (fuel : ℕ) (raw : List ℕ) (lite : Bool) (attr_type fv_len list_end : ℕ) (types : List ℕ)
    (voff : ℕ)
    → first_value_len attr_type ≡ some fv_len
    → list_end ≤ length raw
    → 0 < fuel
    → list_end < voff + fuel
    → Succeeds (vectors fuel raw lite attr_type fv_len list_end types voff)
unfolding vectors
vectors-Succeeds zero raw lite attr_type fv_len list_end types voff k b f h = absurd (omega arith)
vectors-Succeeds (suc fuel) raw lite attr_type fv_len list_end types voff k b f h =
    if-Succeeds (ltb list_end (voff + 2)) _ _ (λ _. (_, refl))
      λ more. >>=-Succeeds _ _ (get_elem?-Succeeds raw voff (ground arith)) λ hi _.
        >>=-Succeeds _ _ (get_elem?-Succeeds raw (voff + 1) (ground arith)) λ lo _.
          let vh = hi * 256 + lo in
          if-Succeeds (vh == 0 || ltb list_end (voff + vector_len attr_type fv_len vh)) _ _
            (λ _. (_, refl))
            λ fits.
              let ends : voff + vector_len attr_type fv_len vh ≤ list_end = ground arith in
              >>=-Succeeds _ _ (vector_values-Succeeds raw attr_type fv_len voff vh k (omega arith))
                λ calls _.
                  >>=-Succeeds _ _
                    (vectors-Succeeds fuel raw lite attr_type fv_len list_end
                      (if leaveall_due lite types attr_type vh then attr_type ∷ types else types)
                      (voff + vector_len attr_type fv_len vh) k b
                      (omega (arith, vector_len-ge attr_type fv_len vh))
                      (omega (arith, vector_len-ge attr_type fv_len vh)))
                    λ rest _. (_, refl)

messages-Succeeds :
    (fuel : ℕ) (raw : List ℕ) (raw_len : ℕ) (lite : Bool) (types : List ℕ) (offset : ℕ)
    → raw_len ≤ length raw
    → 0 < fuel
    → raw_len < offset + fuel
    → Succeeds (messages fuel raw raw_len lite types offset)
unfolding messages
messages-Succeeds zero raw raw_len lite types offset b f h = absurd (omega arith)
messages-Succeeds (suc fuel) raw raw_len lite types offset b f h =
    if-Succeeds (ltb raw_len (offset + 4)) _ _ (λ _. ([], refl))
      λ more. >>=-Succeeds _ _ (get_elem?-Succeeds raw offset (ground arith)) λ t _.
        >>=-Succeeds _ _ (get_elem?-Succeeds raw (offset + 2) (ground arith)) λ hi _.
          >>=-Succeeds _ _ (get_elem?-Succeeds raw (offset + 3) (ground arith)) λ lo _.
            let list_end = offset + 4 + (hi * 256 + lo) in
            if-Succeeds (t == 0 || ltb raw_len list_end) _ _ (λ _. ([], refl))
              λ fits.
                let ends : list_end ≤ raw_len = ground arith in
                elim-Succeeds (first_value_len t) _ _
                  (λ _.
                    messages-Succeeds fuel raw raw_len lite types list_end b (omega arith)
                      (omega arith))
                  λ fv_len k.
                    >>=-Succeeds _ _
                      (vectors-Succeeds (raw_len + 1) raw lite t fv_len list_end types (offset + 4)
                        k (omega arith) (omega arith) (omega arith))
                      λ out _.
                        >>=-Succeeds _ _
                          (messages-Succeeds fuel raw raw_len lite out.1 list_end b (omega arith)
                            (omega arith))
                          λ rest _. (_, refl)

received-le : (len : ℕ) → received len ≤ 599
unfolding received
received-le len = ground arith

module _ {ℓ} {A : Type ℓ} where
  length-take : (n : ℕ) (xs : List A) → n ≤ length xs → n ≤ length (take n xs)
  length-take zero xs h = omega arith
  length-take (suc n) [] h = absurd (omega arith)
  length-take (suc n) (x ∷ xs) h = omega (arith, length-take n xs (omega arith))

-- Whatever octets the receive buffer of AVB_MAX_MSG_LEN octets holds, for every length that the
-- network reports and in either mode, the walk of an MSRP message comes to its end within the fuel
-- and reads no octet outside the buffer; and it does so on the received octets alone, with nothing
-- of the buffer after them.
pub rx_calls-Succeeds :
    (lite : Bool) (len : ℕ) (buffer : List ℕ)
    → length buffer ≡ 599
    → ((calls : List Call) × (rx_calls lite len buffer ≡ some calls))
      × ((calls : List Call) × (rx_calls lite len (take (received len) buffer) ≡ some calls))
unfolding rx_calls
rx_calls-Succeeds lite len buffer size =
    let short : received len ≤ length buffer = omega (arith, received-le len) in
    (
      messages-Succeeds (received len + 1) buffer (received len) lite [] 0 short (omega arith)
          (omega arith),
      messages-Succeeds (received len + 1) (take (received len) buffer) (received len) lite [] 0
          (length-take (received len) buffer short) (omega arith) (omega arith),
    )
