-- ===== src/Mrp/Lite/Tests.antt =====
-- Instances of what is proved of the sends of AVB Lite.
use esp_avb.Prelude.{true}
use esp_avb.Mrp.{applicant_qa, sm_reset}
use esp_avb.Mrp.Lite.{LiteEntry}
use esp_avb.Mrp.Lite.Schedule.{Refusal}

abbrev quiet : LiteEntry
quiet = record { sm = record sm_reset { applicant = applicant_qa }; next_tx_us = 4 }

abbrev refused : Refusal
refused = record { valid = true; entry = quiet }
