-- ===== src/Mrp/Refusals/Tests.antt =====
-- Instances of what is proved of the refusals.
use esp_avb.Prelude.{◌≡◌, refl, true, false, List, [], ◌∷◌}
use esp_avb.Mrp.{applicant_qa, sm_reset}
use esp_avb.Mrp.Lite.{declaring}
use esp_avb.Mrp.Quarantine.{TalkerInfo}
use esp_avb.Mrp.Refusals.{
  RefusalEntry, fresh_refusal, refused, lite_sync_refusals, lite_refusal_find, refusal_unused,
  refuse,
}
use esp_avb.Mrp.Refusals.Settled.{lite_sync_refusals-Wanted}

abbrev value : TalkerInfo
value = record {
  stream_id = 7;
  dest_addr = 9;
  vlan_id = 2;
  max_frame_size = 80;
  max_interval_frames = 1;
  priority = 5;
  rank = 1;
  accumulated_latency = 15000;
}

-- Listener 1 was refused and is no more; listener 2 is refused.
abbrev before : List RefusalEntry
before =
    record (fresh_refusal 1 value 8 0) { sm = record sm_reset { applicant = applicant_qa } }
    ∷ record (fresh_refusal 0 value 0 0) { valid = false }
    ∷ []

abbrev after : RefusalEntry
after = elim (lite_sync_refusals true 5 value 3 ((2, 8) ∷ []) before) [
  | [] ↦ fresh_refusal 0 value 0 0
  | x ∷ [] ↦ x
  | x ∷ y ∷ rest ↦ y
]

lite_sync_refusals-Wanted_example : refused ((2, 8) ∷ []) after.listener_mac ≡ true
unfolding fresh_refusal lite_sync_refusals declaring lite_refusal_find refusal_unused refuse
lite_sync_refusals-Wanted_example =
    lite_sync_refusals-Wanted 5 value 3 ((2, 8) ∷ []) before 1 after refl refl refl refl
