-- ===== src/Utils.antt =====
-- The helpers of avbutils.c that the protocol code relies on: big-endian octets and time values. A
-- `timeval` and a number of milliseconds are not negative where the code uses them.
pub mod Octets
pub mod Time
mod Tests
use esp_avb.Prelude.{
  ℕ, zero, suc, ◌+◌, ◌-◌, ◌*◌, ◌/◌, ◌%◌, ◌^◌, Bool, true, false, ◌||◌, List, [], ◌∷◌, ◌++◌,
  if◌then◌else◌, ◌==◌, ltb, leb, length, get_or, set,
}

-- The loop of `octets_to_uint` from index `i` on: the shifted octets have no bit in common, so `|`
-- is a sum.
unfoldable pub combine : List ℕ → ℕ → ℕ → ℕ
combine [] size result = result
combine (b ∷ bs) size result = combine bs (size - 1) (result + b * 256 ^ (size - 1))

-- `octets_to_uint` of a buffer of `size` octets
unfoldable pub octets_to_uint : List ℕ → ℕ
unfolding combine
octets_to_uint buffer =
    let size = length buffer in
    if size == 0 || ltb 8 size
    then 0
    else if size == 1
    then 0 % 2 ^ 8
    else let result = combine buffer size 0 in
      if size == 2 then result % 2 ^ 16 else if leb size 4 then result % 2 ^ 32 else result % 2 ^ 64

-- The loop of `reverse_octets`: swap index `i` with its mirror, for the rounds left.
unfoldable pub swap_loop : ℕ → ℕ → List ℕ → List ℕ
swap_loop zero i buffer = buffer
swap_loop (suc n) i buffer =
    let j = length buffer - 1 - i in
    swap_loop n (i + 1) (set (set buffer i (get_or buffer j 0)) j (get_or buffer i 0))

-- `reverse_octets`
unfoldable pub reverse_octets : List ℕ → List ℕ
unfolding swap_loop
reverse_octets buffer =
    if leb (length buffer) 1 then buffer else swap_loop (length buffer / 2) 0 buffer

-- `memcpy` of the first `size` octets of a number in memory, least significant first
unfoldable pub memory_octets : ℕ → ℕ → List ℕ
memory_octets zero value = []
memory_octets (suc size) value = (value % 256) ∷ memory_octets size (value / 256)

-- `int_to_octets`
unfoldable pub int_to_octets : ℕ → ℕ → List ℕ
unfolding memory_octets reverse_octets
int_to_octets value size = reverse_octets (memory_octets size value)

-- `struct timeval`
pub record Timeval : Type 0 where
  pub tv_sec : ℕ
  pub tv_usec : ℕ

-- `timeval_add_ms`
unfoldable pub timeval_add_ms : Timeval → ℕ → Timeval
timeval_add_ms tv ms =
    let sec = tv.tv_sec + ms / 1000 in
    let usec = tv.tv_usec + ms % 1000 * 1000 in
    if leb 1000000 usec
    then record { tv_sec = sec + 1; tv_usec = usec - 1000000 }
    else record { tv_sec = sec; tv_usec = usec }

-- The three results of `compare_timeval`: -1, 0 and 1
pub data Order : Type 0 where
  before same after : Order

-- `compare_timeval`
unfoldable pub compare_timeval : Timeval → Timeval → Order
compare_timeval t1 t2 =
    if ltb t1.tv_sec t2.tv_sec
    then before
    else if ltb t2.tv_sec t1.tv_sec
    then after
    else if ltb t1.tv_usec t2.tv_usec
    then before
    else if ltb t2.tv_usec t1.tv_usec
    then after
    else same

-- `timeval_add`
unfoldable pub timeval_add : Timeval → Timeval → Timeval
timeval_add a b =
    let sec = a.tv_sec + b.tv_sec in
    let usec = a.tv_usec + b.tv_usec in
    if leb 1000000 usec
    then record { tv_sec = sec + usec / 1000000; tv_usec = usec % 1000000 }
    else record { tv_sec = sec; tv_usec = usec }

-- `timeval_divide_by_int`
unfoldable pub timeval_divide_by_int : Timeval → ℕ → Timeval
timeval_divide_by_int tv divisor =
    let total = (tv.tv_sec * 1000000 + tv.tv_usec) / divisor in
    record { tv_sec = total / 1000000; tv_usec = total % 1000000 }

-- `in_array_of_int`
unfoldable pub in_array_of_int : ℕ → List ℕ → Bool
in_array_of_int value [] = false
in_array_of_int value (x ∷ xs) = if x == value then true else in_array_of_int value xs
