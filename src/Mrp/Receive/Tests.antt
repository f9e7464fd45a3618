-- ===== src/Mrp/Receive/Tests.antt =====
-- Instances of what is proved of the received MSRP attributes.
use esp_avb.Prelude.{refl, false, List, [], ◌∷◌, some}
use esp_avb.Mrp.{registrar_in, sm_reset, sm_step}
use esp_avb.Mrp.Packed.{event_of_3pe, three_pe_to_int}
use esp_avb.Mrp.Table.{claim}
use esp_avb.Mrp.Attributes.{
  TalkerEntry, talker_advertise, talker_failed, fresh_talker, is_registered, is_talker, same_type,
  talker_find_or_insert,
}
use esp_avb.Mrp.Receive.{TalkerWire, rx_talker_attr, twin_type, heard_talker, settle}
use esp_avb.Mrp.Receive.Twins.{Unregistered, rx_talker_attr-Unregistered}

-- A Talker Failed of stream 7 with the event JoinIn
abbrev failure : TalkerWire
failure = record {
  value = record {
    stream_id = 7;
    dest_addr = 9;
    vlan_id = 2;
    max_frame_size = 80;
    max_interval_frames = 1;
    priority = 3;
    rank = 1;
    accumulated_latency = 15000;
  };
  failure_bridge_id = 5;
  failure_code = 1;
  event = 36;
}

-- The stream is registered as an advertise.
abbrev advertised : List TalkerEntry
advertised =
    record (fresh_talker 7 talker_advertise) { sm = record sm_reset { registrar = registrar_in } }
    ∷ record (fresh_talker 0 talker_failed) { valid = false }
    ∷ []

abbrev failed_entry : TalkerEntry
failed_entry = (heard_talker 3 talker_failed failure (some 8) (fresh_talker 7 talker_failed)).0

rx_talker_attr-Unregistered_example :
    Unregistered
      (rx_talker_attr false 3 talker_failed failure (some 8) advertised).talkers
      7
      talker_advertise
unfolding rx_talker_attr heard_talker settle is_registered twin_type fresh_talker is_talker
    same_type talker_find_or_insert claim sm_step event_of_3pe three_pe_to_int
rx_talker_attr-Unregistered_example =
    rx_talker_attr-Unregistered 3 talker_failed failure (some 8) advertised failed_entry refl refl
