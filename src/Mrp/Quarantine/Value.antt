-- ===== src/Mrp/Quarantine/Value.antt =====
-- The value of a Talker Advertise in mrp.c, `talker_adv_info_s`: how it is built and compared.
use esp_avb.Prelude.{ℕ, Bool, ◌&&◌, List, if◌then◌else◌, ◌==◌, leb, length, get_or}
use esp_avb.Mrp.Attributes.{TalkerEntry}

-- `talker_adv_info_s`
pub record TalkerInfo : Type 0 where
  pub stream_id : ℕ
  pub dest_addr : ℕ
  pub vlan_id : ℕ
  pub max_frame_size : ℕ
  pub max_interval_frames : ℕ
  pub priority : ℕ
  pub rank : ℕ
  pub accumulated_latency : ℕ

-- `e->wire.talker.info`
unfoldable pub info : TalkerEntry → TalkerInfo
info e = record {
  stream_id = e.stream_id;
  dest_addr = e.dest_addr;
  vlan_id = e.vlan_id;
  max_frame_size = e.max_frame_size;
  max_interval_frames = e.max_interval_frames;
  priority = e.priority;
  rank = e.rank;
  accumulated_latency = e.accumulated_latency;
}

-- `e->wire = fresh`
unfoldable pub with_info : TalkerInfo → TalkerEntry → TalkerEntry
with_info i e = record e {
  stream_id = i.stream_id;
  dest_addr = i.dest_addr;
  vlan_id = i.vlan_id;
  max_frame_size = i.max_frame_size;
  max_interval_frames = i.max_interval_frames;
  priority = i.priority;
  rank = i.rank;
  accumulated_latency = i.accumulated_latency;
}

-- What a declaration is made of, as the callers give it
pub record Stream : Type 0 where
  pub stream_id : ℕ
  pub dest_addr : ℕ
  pub vlan_id : ℕ
  pub max_frame_size : ℕ
  pub max_interval_frames : ℕ
  pub class_b : Bool

-- `AVB_LITE_PCP`
abbrev pub lite_pcp : ℕ
lite_pcp = 5

-- `mrp_build_talker_info`, with the priorities of `state->msrp_mappings`
unfoldable pub build_talker_info : Bool → List ℕ → Stream → TalkerInfo
build_talker_info lite mappings s =
    let wanted = if s.class_b then 1 else 0 in
    let index = if leb (length mappings) wanted then 0 else wanted in
    record {
      stream_id = s.stream_id;
      dest_addr = s.dest_addr;
      vlan_id = s.vlan_id;
      max_frame_size = s.max_frame_size;
      max_interval_frames = if s.max_interval_frames == 0 then 1 else s.max_interval_frames;
      priority = if lite then lite_pcp else get_or mappings index 0;
      rank = 1;
      accumulated_latency = 15000;
    }

-- `mrp_talker_candidate`: the latency is the entry's own.
unfoldable pub talker_candidate : Bool → List ℕ → TalkerEntry → Stream → TalkerInfo
unfolding build_talker_info
talker_candidate lite mappings e s = record (build_talker_info lite mappings s) {
  accumulated_latency = e.accumulated_latency;
}

-- The fields but the frame size and the interval
unfoldable pub same_rest : TalkerInfo → TalkerInfo → Bool
same_rest a b =
    a.stream_id == b.stream_id
    && a.dest_addr == b.dest_addr
    && a.vlan_id == b.vlan_id
    && a.priority == b.priority
    && a.rank == b.rank
    && a.accumulated_latency == b.accumulated_latency

-- `memcmp` of two infos is zero.
unfoldable pub same_info : TalkerInfo → TalkerInfo → Bool
unfolding same_rest
same_info a b =
    same_rest a b
    && a.max_frame_size == b.max_frame_size
    && a.max_interval_frames == b.max_interval_frames

-- `mrp_talker_value_shrinks`
unfoldable pub value_shrinks : TalkerInfo → TalkerInfo → Bool
unfolding same_rest
value_shrinks old new =
    same_rest old new
    && leb new.max_frame_size old.max_frame_size
    && leb new.max_interval_frames old.max_interval_frames
