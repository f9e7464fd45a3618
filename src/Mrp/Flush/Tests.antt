-- ===== src/Mrp/Flush/Tests.antt =====
-- Instances of what is proved of the flush of a port.
use esp_avb.Prelude.{ℕ, ◌≡◌, refl, arith, true, [], ◌∷◌, some, get_elem?, none}
use esp_avb.Mrp.{applicant_vn, sm_reset, applicant_next}
use esp_avb.Mrp.Packed.{resolve_3pe}
use esp_avb.Mrp.Attributes.{TalkerEntry, talker_advertise, fresh_talker}
use esp_avb.Mrp.Pdu.Send.{Attribute}
use esp_avb.Mrp.Quarantine.{info}
use esp_avb.Mrp.Flush.{flush_talkers, all_types, stepped}
use esp_avb.Mrp.Flush.Delivery.{Delivered, flush_talkers-Delivered}

abbrev new_talker : TalkerEntry
new_talker = record (fresh_talker 7 talker_advertise) {
  dest_addr = 9;
  max_frame_size = 80;
  sm = record sm_reset { applicant = applicant_vn };
}

flush_talkers-Delivered_example :
    (j : ℕ) × (a : Attribute) × (get_elem?
        (flush_talkers true (all_types true) (new_talker ∷ [])).messages
        j
      ≡ some (some a))
    × Delivered new_talker 0 a 20 0 0 none (fresh_talker 7 talker_advertise)
unfolding fresh_talker stepped applicant_next resolve_3pe info
flush_talkers-Delivered_example =
    flush_talkers-Delivered true (all_types true) (new_talker ∷ []) 0 new_talker 0 refl refl
      (record {
        stream_id = omega arith;
        dest_addr = omega arith;
        vlan_id = omega arith;
        max_frame_size = omega arith;
        max_interval_frames = omega arith;
        priority = omega arith;
        rank = omega arith;
        accumulated_latency = omega arith;
      })
      refl (λ e. cc) 20 0 0 none (fresh_talker 7 talker_advertise) refl
