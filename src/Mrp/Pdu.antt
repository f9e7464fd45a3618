-- ===== src/Mrp/Pdu.antt =====
-- The walk of a received MSRP message in mrp.c (section 6a): `mrp_rx_msrp` with the functions that
-- it calls to read octets. The walk needs nothing of the port but `avb_lite`, so it is the list of
-- the calls that it makes, in order. A read past the received octets is `none`, and so is an
-- exhausted fuel.
pub mod Safety
pub mod Octets
pub mod Once
pub mod Send
pub mod RoundTrip
mod Tests
use esp_avb.Prelude.{
  ℕ, zero, suc, ◌+◌, ◌-◌, ◌*◌, ◌/◌, ◌%◌, ◌^◌, Bool, true, false, not, ◌&&◌, ◌||◌, List, [], ◌∷◌,
  ◌++◌, Option, none, some, if◌then◌else◌, ◌==◌, ltb, length, get_elem?, take, drop,
}
use esp_avb.Prelude.Results.{◌>>=◌}
use esp_avb.Mrp.Packed.{int_to_3pe, three_pe_to_int}

-- `msrp_attr_type_t`, as the number on the wire
abbrev pub type_advertise : ℕ
type_advertise = 1

abbrev pub type_failed : ℕ
type_failed = 2

abbrev pub type_listener : ℕ
type_listener = 3

abbrev pub type_domain : ℕ
type_domain = 4

-- `msrp_first_value_len`, with `none` for -1
unfoldable pub first_value_len : ℕ → Option ℕ
first_value_len attr_type =
    if attr_type == type_advertise
    then some 25
    else if attr_type == type_failed
    then some 34
    else if attr_type == type_listener
    then some 8
    else if attr_type == type_domain
    then some 4
    else none

-- The loop of `msrp_be_add` from the last octet on: the octets, and what is still to add
unfoldable pub add_step : ℕ → List ℕ × ℕ → List ℕ × ℕ
add_step b (bs, add) =
    if add == 0
    then (b ∷ bs, add)
    else let s = b + add % 256 in ((s % 256) ∷ bs, add / 256 + s / 256)

unfoldable pub be_add_carry : List ℕ → ℕ → List ℕ × ℕ
unfolding add_step
be_add_carry [] add = ([], add)
be_add_carry (b ∷ bs) add = add_step b (be_add_carry bs add)

-- `msrp_be_add`
unfoldable pub be_add : List ℕ → ℕ → List ℕ
unfolding be_add_carry
be_add bs add = (be_add_carry bs add).0

-- `memcpy` of `n` octets from index `i` on
unfoldable pub copy : List ℕ → ℕ → ℕ → Option (List ℕ)
copy raw i zero = some []
copy raw i (suc n) = do b ← get_elem? raw i; bs ← copy raw (i + 1) n; some (b ∷ bs)

-- What the walk calls: `msrp_dispatch_leaveall` (with the JoinTimer armed), or one of the
-- `msrp_rx_*_attr` and its `mrp_on_*_registrar_change`, with the FirstValue, the octet of packed
-- events and, for a listener, the declaration.
pub data Call : Type 0 where
  leave_all : (attr_type : ℕ) → Call
  rx_talker : (attr_type : ℕ) (first_value : List ℕ) (event : ℕ) → Call
  rx_listener : (stream_id : List ℕ) (event declaration : ℕ) → Call
  rx_domain : (first_value : List ℕ) (event : ℕ) → Call

-- The event of value `v` in its packed octet
unfoldable pub event_at : ℕ → ℕ → ℕ
unfolding three_pe_to_int
event_at octet v =
    let (e1, e2, e3) = three_pe_to_int octet in
    if v % 3 == 0 then e1 else if v % 3 == 1 then e2 else e3

-- The declaration of value `v` in its octet of four
unfoldable pub decl_at : ℕ → ℕ → ℕ
decl_at octet v = octet / 2 ^ (6 - 2 * (v % 4)) % 4

-- A vector attribute: its type, where its FirstValue starts, the lengths of it and of the events
pub record Vector : Type 0 where
  pub attr_type : ℕ
  pub fv : ℕ
  pub fv_len : ℕ
  pub n3 : ℕ

-- The talker value `v` of a vector: the stream ID and the destination go up by `v`.
unfoldable pub talker_value : List ℕ → ℕ → List ℕ
unfolding be_add
talker_value info v = be_add (take 8 info) v ++ be_add (take 6 (drop 8 info)) v ++ drop 14 info

-- The switch on the attribute type in the loop over the values
unfoldable pub value_calls : List ℕ → Vector → ℕ → ℕ → Option (List Call)
unfolding copy talker_value be_add decl_at int_to_3pe
value_calls raw vec v ev =
    if vec.attr_type == type_domain
    then (if v == 0
        then (do fv ← copy raw vec.fv 4; some (rx_domain fv (int_to_3pe ev 0 0) ∷ []))
        else some [])
    else if vec.attr_type == type_listener
    then (do
      fv ← copy raw vec.fv 8
      d4 ← get_elem? raw (vec.fv + vec.fv_len + vec.n3 + v / 4)
      some (rx_listener (be_add fv v) (int_to_3pe ev 0 0) (decl_at d4 v) ∷ []))
    else (do
      fv ← copy raw vec.fv vec.fv_len
      some (rx_talker vec.attr_type (talker_value fv v) (int_to_3pe ev 0 0) ∷ []))

-- The loop over the values from `v` on, with the rounds left
unfoldable pub values : List ℕ → Vector → ℕ → ℕ → Option (List Call)
unfolding value_calls event_at
values raw vec zero v = some []
values raw vec (suc n) v = do
  octet ← get_elem? raw (vec.fv + vec.fv_len + v / 3)
  calls ← value_calls raw vec v (event_at octet v)
  rest ← values raw vec n (v + 1)
  some (calls ++ rest)

-- `MSRP_RX_MAX_VALUES`
abbrev pub rx_max_values : ℕ
rx_max_values = 64

-- Whether the attribute type is in the set `leaveall_types`
unfoldable pub contains : List ℕ → ℕ → Bool
contains [] t = false
contains (x ∷ xs) t = x == t || contains xs t

-- What a vector header says: `vh & 0x2000` and `vh & 0x1FFF`
unfoldable pub header_leaveall : ℕ → Bool
header_leaveall vh = vh / 0x2000 % 2 == 1

unfoldable pub header_vals : ℕ → ℕ
header_vals vh = vh % 0x2000

unfoldable pub header_n3 : ℕ → ℕ
unfolding header_vals
header_n3 vh = (header_vals vh + 2) / 3

-- `vec_len`
unfoldable pub vector_len : ℕ → ℕ → ℕ → ℕ
unfolding header_n3 header_vals
vector_len attr_type fv_len vh =
    2 + fv_len + header_n3 vh + (if attr_type == type_listener then (header_vals vh + 3) / 4 else 0)

-- The values of the vector at `voff`
unfoldable pub vector_values : List ℕ → ℕ → ℕ → ℕ → ℕ → Option (List Call)
unfolding values header_vals header_n3
vector_values raw attr_type fv_len voff vh =
    if header_vals vh == 0
    then some []
    else values raw
        (record { attr_type = attr_type; fv = voff + 2; fv_len = fv_len; n3 = header_n3 vh })
        (if ltb rx_max_values (header_vals vh) then rx_max_values else header_vals vh) 0

-- Whether the vector's LeaveAll is dispatched
unfoldable pub leaveall_due : Bool → List ℕ → ℕ → ℕ → Bool
unfolding header_leaveall contains
leaveall_due lite types attr_type vh =
    header_leaveall vh && not lite && ltb attr_type 8 && not (contains types attr_type)

-- The loop over the vectors of a message from `voff` on, with the calls and `leaveall_types`
unfoldable pub vectors : ℕ → List ℕ → Bool → ℕ → ℕ → ℕ → List ℕ → ℕ → Option (List Call × List ℕ)
unfolding vector_values leaveall_due vector_len
vectors zero raw lite attr_type fv_len list_end types voff = none
vectors (suc fuel) raw lite attr_type fv_len list_end types voff =
    if ltb list_end (voff + 2) then some ([], types) else (do
      hi ← get_elem? raw voff
      lo ← get_elem? raw (voff + 1)
      let vh = hi * 256 + lo
      if vh == 0 || ltb list_end (voff + vector_len attr_type fv_len vh)
          then some ([], types)
          else (do
            let due = leaveall_due lite types attr_type vh
            calls ← vector_values raw attr_type fv_len voff vh
            rest ←
                vectors fuel raw lite attr_type fv_len list_end
                  (if due then attr_type ∷ types else types) (voff + vector_len attr_type fv_len vh)
            some ((if due then leave_all attr_type ∷ [] else []) ++ calls ++ rest.0, rest.1)))

-- The loop over the messages from `offset` on, with the `raw_len` octets that were received: the
-- buffer may be longer, and a read past its end fails.
unfoldable pub messages : ℕ → List ℕ → ℕ → Bool → List ℕ → ℕ → Option (List Call)
unfolding vectors
messages zero raw raw_len lite types offset = none
messages (suc fuel) raw raw_len lite types offset =
    if ltb raw_len (offset + 4) then some [] else (do
      attr_type ← get_elem? raw offset
      len_hi ← get_elem? raw (offset + 2)
      len_lo ← get_elem? raw (offset + 3)
      let list_end = offset + 4 + (len_hi * 256 + len_lo)
      if attr_type == 0 || ltb raw_len list_end then some [] else elim (first_value_len attr_type) [
        | none ↦ messages fuel raw raw_len lite types list_end
        | some fv_len ↦ do
          out ← vectors (raw_len + 1) raw lite attr_type fv_len list_end types (offset + 4)
          rest ← messages fuel raw raw_len lite out.1 list_end
          some (out.0 ++ rest)
      ])

-- `AVB_MAX_MSG_LEN`
abbrev pub max_msg_len : ℕ
max_msg_len = 600

-- `raw_len` at the start of `mrp_rx_msrp`
unfoldable pub received : ℕ → ℕ
received len = if ltb (max_msg_len - 1) (len - 1) then max_msg_len - 1 else len - 1

-- `mrp_rx_msrp` on a port of the node, for a message of `len` octets, on the octets of the receive
-- buffer after the ProtocolVersion. The loops take a step of the fuel for at least three octets
-- each.
unfoldable pub rx_calls : Bool → ℕ → List ℕ → Option (List Call)
unfolding messages received
rx_calls lite len buffer = messages (received len + 1) buffer (received len) lite [] 0
