-- ===== src/Mrp/Attributes/Tests.antt =====
-- Instances of what is proved of the MSRP tables.
use esp_avb.Prelude.{refl, zero, suc, arith, ◌≡◌, ◌↔◌, ◌⊎◌, true, false, List, [], ◌∷◌, some}
use esp_avb.Mrp.{registrar_in, sm_reset}
use esp_avb.Mrp.Attributes.{
  is_talker, same_type, TalkerEntry, talker_advertise, talker_failed, fresh_talker,
  talker_find_or_insert, ListenerEntry, fresh_listener, ready, asking_failed, ready_failed,
}
use esp_avb.Mrp.Attributes.Slots.{IsKeyed, talker_find_or_insert-IsKeyed}
use esp_avb.Mrp.Attributes.Merge.{decls, says, merge_listener_decls, merge_listener_decls-lem}

-- A table of two talkers, one never used
abbrev two_slots : List TalkerEntry
two_slots =
    fresh_talker 7 talker_advertise ∷ record (fresh_talker 0 talker_failed) { valid = false } ∷ []

-- Ports whose peers declare Ready and Asking Failed for stream 5
abbrev peers : List (List ListenerEntry)
peers =
    (record (fresh_listener 5) {
      peer_decl = ready;
      sm = record sm_reset { registrar = registrar_in };
    }
      ∷ [])
    ∷ (record (fresh_listener 5) {
      peer_decl = asking_failed;
      sm = record sm_reset { registrar = registrar_in };
    }
        ∷ [])
    ∷ []

merge_listener_decls-lem_example : (merge_listener_decls peers 4 5 ≡ some ready_failed) ↔ (
    (says ready_failed (decls 4 5 0 peers) ≡ true)
    ⊎ ((says ready (decls 4 5 0 peers) ≡ true) × (says asking_failed (decls 4 5 0 peers) ≡ true)))
merge_listener_decls-lem_example = (merge_listener_decls-lem peers 4 5).0

-- The second slot is not valid, so no two valid ones share a key.
two_slots-IsKeyed : IsKeyed two_slots
unfolding IsKeyed is_talker fresh_talker same_type
two_slots-IsKeyed id ty zero zero e f gi gj pe pf = refl
two_slots-IsKeyed id ty zero (suc zero) e f gi gj pe pf = ground arith
two_slots-IsKeyed id ty zero (suc (suc j)) e f gi gj pe pf = cc
two_slots-IsKeyed id ty (suc zero) j e f gi gj pe pf = ground arith
two_slots-IsKeyed id ty (suc (suc i)) j e f gi gj pe pf = cc

talker_find_or_insert-IsKeyed_example :
    IsKeyed (talker_find_or_insert two_slots 9 talker_advertise).0
talker_find_or_insert-IsKeyed_example =
    talker_find_or_insert-IsKeyed two_slots 9 talker_advertise two_slots-IsKeyed
