-- ===== src/Unsol/Tests.antt =====
-- Instances of what is proved of the registered controllers.
use esp_avb.Prelude.{ℕ, ◌≡◌, ◌<◌, inr, refl, arith, true, false, List, [], ◌∷◌, length}
use esp_avb.Unsol.{
  Controller, kind_aem, kind_mvu, body_response, fresh, register, rearm, status_success,
  max_msg_len, is_entry, seq_of, max_unsol_controllers, check_delay_us, next_seq_id,
}
use esp_avb.Unsol.Registry.{has, Unique, IsRegistry}
use esp_avb.Unsol.Registration.{register-lem}
use esp_avb.Unsol.Changes.{changes, send_series, AllHeld, send_series-lem}
use esp_avb.Unsol.Calls.{call_register, call_tick, calls, calls-IsRegistry}
use esp_avb.Unsol.Sequence.{
  lookup, seqs_for, count_from, Notice, notify_all, AllFit, notify_all-seqs,
}
use esp_avb.Unsol.Presence.{TickDoes, waiting, check_frame, deregister_frame, silent-removed}

-- Two controllers, one of them with 65535 as its next AEM sequence ID
abbrev two : List Controller
two = record (fresh 11 21) { aem_seq_id = 65535 } ∷ fresh 12 22 ∷ []

two-Unique : Unique two
unfolding Unique has is_entry fresh
two-Unique = (refl, (refl, refl))

two-IsRegistry : IsRegistry two
unfolding IsRegistry max_unsol_controllers
two-IsRegistry = (omega arith, two-Unique)

calls-IsRegistry_example :
    IsRegistry (calls (call_register 5 6 12 22 true ∷ call_tick true false 9 1 ∷ []) two)
calls-IsRegistry_example =
    calls-IsRegistry (call_register 5 6 12 22 true ∷ call_tick true false 9 1 ∷ []) two
      two-IsRegistry

room_for_more : length two < max_unsol_controllers
unfolding max_unsol_controllers
room_for_more = omega arith

register-lem_example : (register 5 6 13 23 true two).1 ≡ status_success
register-lem_example = ((register-lem 5 6 13 23 true two).0 (inr room_for_more)).0

abbrev notices : List Notice
notices =
    record { body = body_response (1 ∷ []); msg_len = 24 }
    ∷ record { body = body_response (2 ∷ []); msg_len = 40 }
    ∷ []

notices_fit : AllFit notices
unfolding max_msg_len
notices_fit = (omega arith, (omega arith, refl))

notify_all-seqs_example :
    seqs_for 11 21 (notify_all kind_aem notices two).1 ≡ count_from 65535 (length notices)
unfolding seq_of lookup is_entry fresh
notify_all-seqs_example =
    notify_all-seqs 11 21 kind_aem notices two (record (fresh 11 21) { aem_seq_id = 65535 })
      two-Unique notices_fit refl

builds_held : AllHeld 300 ((1 ∷ []) ∷ (1 ∷ []) ∷ (2 ∷ []) ∷ [])
builds_held =
    (omega arith, omega arith, (omega arith, omega arith, (omega arith, omega arith, refl)))

send_series-lem_example :
    send_series 300 kind_mvu
      ((1 ∷ []) ∷ (1 ∷ []) ∷ (2 ∷ []) ∷ [])
      (record { valid = false; rsp = [] })
      two
    ≡ notify_all kind_mvu (changes (1 ∷ []) ((1 ∷ []) ∷ (2 ∷ []) ∷ [])) two
send_series-lem_example =
    send_series-lem 300 kind_mvu (1 ∷ []) ((1 ∷ []) ∷ (2 ∷ []) ∷ []) [] two builds_held

silent-removed_example :
    let e0 = rearm 3 0 (fresh 11 21) in
    let e1 : ℕ → Controller = λ q. waiting false 60_000_003 q 1 e0 in
    let e2 = waiting false 61_000_003 7 2 e0 in
    TickDoes false 30_000_002 e0 (λ q. (e0 ∷ [], q, []))
    × TickDoes false 60_000_003 e0
        (λ q. (e1 q ∷ [], next_seq_id q, check_frame (fresh 11 21) q ∷ []))
    × TickDoes false 60_200_000 (e1 7) (λ q. (e1 7 ∷ [], q, []))
    × TickDoes false 61_000_003 (e1 7) (λ q. (e2 ∷ [], q, check_frame (fresh 11 21) 7 ∷ []))
    × TickDoes false 62_000_003 e2 (λ q. ([], q, deregister_frame (fresh 11 21) ∷ []))
unfolding fresh rearm check_delay_us
silent-removed_example =
    silent-removed false 3 0 30_000_002 60_000_003 60_200_000 61_000_003 62_000_003 7 (fresh 11 21)
      refl (omega arith) (omega arith) (omega arith) (omega arith) (omega arith)
