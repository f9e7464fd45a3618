-- ===== src/Mrp/Pdu/Tests.antt =====
-- Instances of what is proved of the walk of an MSRP message.
use esp_avb.Prelude.{
  ℕ, ◌+◌, ◌++◌, ◌≤◌, ◌≡◌, refl, arith, true, false, List, [], ◌∷◌, some, replicate, take, ◌%◌,
}
use esp_avb.Mrp.{sm_reset, SmState, tx_join}
use esp_avb.Mrp.Packed.{resolve_3pe, int_to_3pe}
use esp_avb.Mrp.Attributes.{talker_advertise, ready}
use esp_avb.Mrp.Pdu.{
  Call, leave_all, rx_listener, first_value_len, vectors, messages, received, rx_calls, be_add,
}
use esp_avb.Mrp.Pdu.Safety.{rx_calls-Succeeds}
use esp_avb.Mrp.Pdu.Octets.{be_value, span, be_add-value}
use esp_avb.Mrp.Pdu.Once.{leave_alls, rx_calls-leave_alls}
use esp_avb.Mrp.Pdu.Send.{tx_flush_listener, Attribute, decl_code, talker_len}
use esp_avb.Mrp.Pdu.RoundTrip.{heard, Arrives, flush-Arrives}

-- A Listener message of two vectors that both carry the LeaveAll bit; the second has two values,
-- New and JoinIn, Ready and Asking Failed.
abbrev two_vectors : List ℕ
two_vectors =
    3 ∷ 8 ∷ 0 ∷ 26 ∷ 0x20 ∷ 0 ∷ 0 ∷ 0 ∷ 0 ∷ 0 ∷ 0 ∷ 0 ∷ 0 ∷ 0 ∷ 0x20 ∷ 2 ∷ 0 ∷ 0 ∷ 0 ∷ 0 ∷ 0 ∷ 0 ∷ 0
    ∷ 255 ∷ 6 ∷ 0x90 ∷ 0 ∷ 0 ∷ 0 ∷ 0 ∷ []

abbrev two_calls : List Call
two_calls =
    leave_all 3
    ∷ rx_listener (0 ∷ 0 ∷ 0 ∷ 0 ∷ 0 ∷ 0 ∷ 0 ∷ 255 ∷ []) 0 2
    ∷ rx_listener (0 ∷ 0 ∷ 0 ∷ 0 ∷ 0 ∷ 0 ∷ 1 ∷ 0 ∷ []) 36 1
    ∷ []

two_vectors-calls : rx_calls false 31 two_vectors ≡ some two_calls
unfolding rx_calls messages vectors first_value_len
two_vectors-calls = refl

-- A message cut short is walked as far as its vectors are whole.
cut_short : rx_calls false 29 two_vectors ≡ some []
unfolding rx_calls messages vectors first_value_len
cut_short = refl

-- The receive buffer with that message in front
abbrev receive_buffer : List ℕ
receive_buffer = two_vectors ++ replicate 569 0

rx_calls-Succeeds_example :
    ((calls : List Call) × (rx_calls false 31 receive_buffer ≡ some calls))
    × ((calls : List Call) × (rx_calls false 31 (take (received 31) receive_buffer) ≡ some calls))
rx_calls-Succeeds_example = rx_calls-Succeeds false 31 receive_buffer refl

rx_calls-leave_alls_example : leave_alls 3 two_calls ≤ 1
rx_calls-leave_alls_example = rx_calls-leave_alls false 31 two_vectors two_calls 3 two_vectors-calls

be_add-value_example :
    be_value (be_add (1 ∷ 255 ∷ 255 ∷ []) 2)
    ≡ (be_value (1 ∷ 255 ∷ 255 ∷ []) + 2) % span (1 ∷ 255 ∷ 255 ∷ [])
be_add-value_example =
    be_add-value (1 ∷ 255 ∷ 255 ∷ []) 2 (omega arith, (omega arith, (omega arith, tt)))

abbrev joining : SmState
joining = record sm_reset { pending_tx = tx_join }

flush-Arrives_example :
    (a : Attribute) × (tx_flush_listener (replicate 8 7) ready true joining ≡ some a)
    × Arrives a (heard true 3 (rx_listener (replicate 8 7) (int_to_3pe 3 0 0) (decl_code ready)))
unfolding resolve_3pe sm_reset talker_len
flush-Arrives_example =
    (flush-Arrives true joining 3 refl talker_advertise (replicate 25 1) (replicate 8 7)
      (replicate 4 6) ready refl refl refl).1
