-- ===== src/Mrp/Packed.antt =====
-- The three-packed events of mrp.c and avbutils.c: what a participant writes for a pending
-- action, and what its peer reads.
use esp_avb.Prelude.{ℕ, zero, suc, ◌+◌, ◌*◌, ◌/◌, ◌%◌, ◌^◌, ◌<◌, ◌≡◌, arith, Option, none, some}
use esp_avb.Mrp.{
  RegistrarState, registrar_in, Event, event_r_new, event_r_join_in, event_r_in, event_r_join_mt,
  event_r_mt, event_r_lv, TxAction, tx_none, tx_new, tx_join, tx_leave, SmState, sm_step,
}

-- `int_to_3pe`: the return type is `uint8_t`.
unfoldable pub int_to_3pe : ℕ → ℕ → ℕ → ℕ
int_to_3pe value1 value2 value3 = (value1 * 36 + value2 * 6 + value3) % 2 ^ 8

-- `three_pe_to_int`
unfoldable pub three_pe_to_int : ℕ → ℕ × ℕ × ℕ
three_pe_to_int value = (value / 36, value % 36 / 6, value % 6)

-- `mrp_3pe_to_event`
unfoldable pub event_of_3pe : ℕ → Event
event_of_3pe zero = event_r_new
event_of_3pe (suc zero) = event_r_join_in
event_of_3pe (suc (suc zero)) = event_r_in
event_of_3pe (suc (suc (suc zero))) = event_r_join_mt
event_of_3pe (suc (suc (suc (suc zero)))) = event_r_mt
event_of_3pe (suc (suc (suc (suc (suc zero))))) = event_r_lv
event_of_3pe _ = event_r_mt

-- `mrp_resolve_3pe`, with `none` for -1
unfoldable pub resolve_3pe : TxAction → RegistrarState → Option ℕ
resolve_3pe tx_new reg = some 0
resolve_3pe tx_join registrar_in = some 1
resolve_3pe tx_join reg = some 3
resolve_3pe tx_leave reg = some 5
resolve_3pe tx_none reg = none

-- What a peer does with a packed event octet (the first of its three events): `three_pe_to_int`,
-- then `mrp_3pe_to_event`, then `mrp_sm_step`.
unfoldable pub receive_3pe : ℕ → SmState → ℕ → SmState
receive_3pe now sm octet = sm_step now sm (event_of_3pe (three_pe_to_int octet).0)

-- Three events, each below 6, are read back from their packed octet.
pub three_pe_to_int-int_to_3pe :
    (e1 e2 e3 : ℕ) → e1 < 6 → e2 < 6 → e3 < 6 → three_pe_to_int (int_to_3pe e1 e2 e3) ≡ (e1, e2, e3)
unfolding three_pe_to_int int_to_3pe
three_pe_to_int-int_to_3pe e1 e2 e3 h1 h2 h3 = ground arith

first_event : (pe : ℕ) → pe < 6 → (three_pe_to_int (int_to_3pe pe 0 0)).0 ≡ pe
unfolding three_pe_to_int int_to_3pe
first_event pe h = ground arith
