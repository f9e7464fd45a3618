-- ===== src/Mrp/Quarantine/Tests.antt =====
-- Instances of what is proved of the hold-off of a changed talker value.
use esp_avb.Prelude.{ℕ, ◌≡◌, ◌≢◌, ◌⊎◌, refl, arith, true, false, List, [], ◌∷◌, some, get_elem?}
use esp_avb.Mrp.Attributes.{TalkerEntry, fresh_talker, talker_advertise}
use esp_avb.Mrp.Quarantine.{Stream, release_held}
use esp_avb.Mrp.Quarantine.Silence.{
  Op, declares, transmits, leave_all, Port, step, transmit, well_held, observes,
}
use esp_avb.Mrp.Quarantine.Reopen.{Over, run, sent_event, hold_off_kept, release_held-declares}

abbrev stereo : Stream
stereo = record {
  stream_id = 7;
  dest_addr = 9;
  vlan_id = 2;
  max_frame_size = 80;
  max_interval_frames = 1;
  class_b = false;
}

abbrev eight_channels : Stream
eight_channels = record stereo { max_frame_size = 224 }

abbrev silent_port : Port
silent_port = record {
  entry = fresh_talker 7 talker_advertise;
  leavealls = record { count = 0; last_us = 0 };
}

-- Declared, sent, and declared again with another frame size
abbrev grown : List (ℕ × Op)
grown = (10, declares stereo) ∷ (20, transmits false) ∷ (30, declares eight_channels) ∷ []

abbrev held_port : Port
held_port = run false (3 ∷ 2 ∷ []) grown silent_port

grown-held : held_port.entry.redeclare_after_us ≡ 32_000_030
unfolding run step fresh_talker
grown-held = refl

hold_off_kept_example :
    let out = step false (3 ∷ 2 ∷ []) 40 (transmits true) held_port in
    (out.1 ≡ false)
    × ((out.0.entry.redeclare_after_us ≢ 0) ⊎ Over false held_port.leavealls held_port.entry 40)
unfolding fresh_talker
hold_off_kept_example =
    hold_off_kept false (3 ∷ 2 ∷ []) grown silent_port 40 (transmits true) refl
      (omega (arith, grown-held))

-- Two LeaveAlls and a LeaveTime end the hold-off of an endpoint before its time.
two_leavealls :
    (run false
      (3 ∷ 2 ∷ [])
      ((1_000_000, leave_all) ∷ (2_000_000, leave_all) ∷ (3_000_000, declares eight_channels) ∷ [])
      held_port).entry.redeclare_after_us
    ≡ 0
unfolding run step fresh_talker
two_leavealls = refl

abbrev held : TalkerEntry
held = record (fresh_talker 7 talker_advertise) {
  dest_addr = 9;
  withdrawn_us = 30;
  redeclare_after_us = 32_000_030;
  declare_held = true;
}

release_held-declares_example :
    (r : TalkerEntry) × (get_elem?
        (release_held true (record { count = 0; last_us = 0 }) 32_000_030 (held ∷ [])).0
        0
      ≡ some r)
    × ((release_held true (record { count = 0; last_us = 0 }) 32_000_030 (held ∷ [])).1 ≡ true)
    × (r.redeclare_after_us ≡ 0)
    × ((transmit false r).1 ≡ true)
    × (sent_event false r ≡ some 0)
    × ((transmit true (transmit false r).0).1 ≡ true)
    × (sent_event true (transmit false r).0 ≡ some 0)
unfolding fresh_talker well_held observes
release_held-declares_example =
    release_held-declares true (record { count = 0; last_us = 0 }) 32_000_030 (held ∷ []) 0 held
      false true refl refl refl refl (omega arith) (omega arith)

abbrev declared : TalkerEntry
declared = record (fresh_talker 7 talker_advertise) {
  dest_addr = 9;
  vlan_id = 2;
  max_frame_size = 80;
  max_interval_frames = 1;
  priority = 3;
  rank = 1;
}
