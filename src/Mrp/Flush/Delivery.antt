-- ===== src/Mrp/Flush/Delivery.antt =====
-- What a flush puts on the wire carries the declared values.
use esp_avb.Prelude.{
  ℕ, zero, suc, ◌/◌, ◌%◌, ◌^◌, ◌<◌, ◌≡◌, ◌≢◌, refl, arith, Bool, true, false, ◌&&◌, List, [], ◌∷◌,
  ◌++◌, Option, none, some, if◌then◌else◌, get_elem?, get_or, take, drop, length, replicate, ◌∙◌,
}
use esp_avb.Utils.{octets_to_uint, int_to_octets}
use esp_avb.Utils.Octets.{octets_to_uint-int_to_octets}
use esp_avb.Mrp.Attributes.{TalkerType, talker_advertise, talker_failed, TalkerEntry}
use esp_avb.Mrp.Quarantine.{TalkerInfo, info, with_info}
use esp_avb.Mrp.Receive.{TalkerWire, heard_talker, take_wire, report}
use esp_avb.Mrp.{TxAction, tx_leave, RegistrarState, registrar_in, SmState, sm_step, registrar_next}
use esp_avb.Mrp.Packed.{resolve_3pe, receive_3pe, int_to_3pe, three_pe_to_int, event_of_3pe}
use esp_avb.Mrp.Lite.{is_pending}
use esp_avb.Mrp.Attributes.{ignore}
use esp_avb.Mrp.Pdu.{rx_talker}
use esp_avb.Mrp.Pdu.Send.{Attribute, talker_code, talker_len, tx_flush_talker}
use esp_avb.Mrp.Pdu.RoundTrip.{heard, Arrives, flush-Arrives}
use esp_avb.Mrp.Flush.{
  info_octets, talker_first_value, LeaveTypes, Flushed, push, has_talker, drop_talker, stepped,
  flush_talkers,
}

-- The value that a receiver copies from the octets of a FirstValue into `talker_adv_info_s`
unfoldable pub read_info : List ℕ → TalkerInfo
unfolding octets_to_uint
read_info bs = record {
  stream_id = octets_to_uint (take 8 bs);
  dest_addr = octets_to_uint (take 6 (drop 8 bs));
  vlan_id = octets_to_uint (take 2 (drop 14 bs));
  max_frame_size = octets_to_uint (take 2 (drop 16 bs));
  max_interval_frames = octets_to_uint (take 2 (drop 18 bs));
  priority = get_or bs 20 0 / 32;
  rank = get_or bs 20 0 / 16 % 2;
  accumulated_latency = octets_to_uint (take 4 (drop 21 bs));
}

-- The fields fit the wire.
pub record Fits (i : TalkerInfo) : Type 0 where
  pub stream_id : i.stream_id < 2 ^ 64
  pub dest_addr : i.dest_addr < 2 ^ 48
  pub vlan_id : i.vlan_id < 2 ^ 16
  pub max_frame_size : i.max_frame_size < 2 ^ 16
  pub max_interval_frames : i.max_interval_frames < 2 ^ 16
  pub priority : i.priority < 8
  pub rank : i.rank < 2
  pub accumulated_latency : i.accumulated_latency < 2 ^ 32

info_ext :
    (a b : TalkerInfo)
    → a.stream_id ≡ b.stream_id
    → a.dest_addr ≡ b.dest_addr
    → a.vlan_id ≡ b.vlan_id
    → a.max_frame_size ≡ b.max_frame_size
    → a.max_interval_frames ≡ b.max_interval_frames
    → a.priority ≡ b.priority
    → a.rank ≡ b.rank
    → a.accumulated_latency ≡ b.accumulated_latency
    → a ≡ b
info_ext a b h1 h2 h3 h4 h5 h6 h7 h8 = ground arith

length-talker_first_value :
    (ty : TalkerType) (e : TalkerEntry) → length (talker_first_value ty e) ≡ talker_len ty
unfolding talker_first_value talker_len
length-talker_first_value talker_advertise e = refl
length-talker_first_value talker_failed e = refl

read_info-octets :
    (e : TalkerEntry) (rest : List ℕ) → Fits (info e) → read_info (info_octets e ++ rest) ≡ info e
unfolding info_octets read_info info int_to_octets
read_info-octets e rest f =
    info_ext _ _
      (octets_to_uint-int_to_octets e.stream_id 8 (omega arith) (omega arith) f.stream_id)
      (octets_to_uint-int_to_octets e.dest_addr 6 (omega arith) (omega arith) f.dest_addr)
      (octets_to_uint-int_to_octets e.vlan_id 2 (omega arith) (omega arith) f.vlan_id)
      (octets_to_uint-int_to_octets e.max_frame_size 2 (omega arith) (omega arith) f.max_frame_size)
      (octets_to_uint-int_to_octets e.max_interval_frames 2 (omega arith) (omega arith)
        f.max_interval_frames)
      (let p = f.priority in let r = f.rank in omega (arith, p, r))
      (let p = f.priority in let r = f.rank in omega (arith, p, r))
      (octets_to_uint-int_to_octets e.accumulated_latency 4 (omega arith) (omega arith)
        f.accumulated_latency)

read_info-talker_first_value :
    (ty : TalkerType) (e : TalkerEntry)
    → Fits (info e)
    → read_info (talker_first_value ty e) ≡ info e
unfolding talker_first_value info_octets int_to_octets
read_info-talker_first_value talker_advertise e f = read_info-octets e [] f
read_info-talker_first_value talker_failed e f =
    read_info-octets e (int_to_octets e.failure_bridge_id 8 ++ e.failure_code ∷ []) f

push-messages :
    {E : Type 0} (e : E) (m : Option (Option Attribute)) (f : Flushed E) (k : ℕ)
    (a : Option Attribute)
    → get_elem? f.messages k ≡ some a
    → (j : ℕ) × (get_elem? (push e m f).messages j ≡ some a)
unfolding push
push-messages e none f k a h = (k, h)
push-messages e (some m) f k a h = (suc k, h)

-- The message of an entry that sends is among those of the loop, with the LeaveAll or without.
flush_talkers-sends :
    (leaveall : Bool) (types : LeaveTypes) (es : List TalkerEntry) (i : ℕ) (e : TalkerEntry)
    → get_elem? es i ≡ some e
    → e.valid ≡ true
    → is_pending (stepped leaveall e.sm).pending_tx ≡ true
    → (j : ℕ) × (flag : Bool) × (get_elem? (flush_talkers leaveall types es).messages j
        ≡ some (
            tx_flush_talker e.attr_type
              (talker_first_value e.attr_type e)
              flag
              (stepped leaveall e.sm)))
unfolding flush_talkers push
flush_talkers-sends leaveall types [] i e h v p = cc
flush_talkers-sends leaveall types (x ∷ es) zero e h v p =
    let same : x ≡ e = ground arith in (0, has_talker e.attr_type types, rw (same, v, p) refl)
flush_talkers-sends leaveall types (x ∷ es) (suc i) e h v p =
    let sends = x.valid && is_pending (stepped leaveall x.sm).pending_tx in
    let (k, flag, g) =
      flush_talkers-sends leaveall (if sends then drop_talker x.attr_type types else types) es i e h
        v p in
    let (j, at) = push-messages _ _ _ k _ g in (j, flag, at)

resolve_3pe-is_pending :
    (action : TxAction) (reg : RegistrarState) (pe : ℕ)
    → resolve_3pe action reg ≡ some pe
    → is_pending action ≡ true
unfolding resolve_3pe is_pending
resolve_3pe-is_pending action reg pe h = ground arith

-- The peer's entry takes the value, and its Registrar goes to IN unless the event is a leave.
heard_talker-lem :
    (now : ℕ) (ty : TalkerType) (w : TalkerWire) (mac : Option ℕ) (x : TalkerEntry)
    → x.locally_originated ≡ false
    → (info (heard_talker now ty w mac x).0 ≡ w.value)
      × ((heard_talker now ty w mac x).0.sm ≡ receive_3pe now x.sm w.event)
unfolding heard_talker take_wire report info with_info
heard_talker-lem now ty w mac x l = ground arith

receive-registers :
    (now : ℕ) (sm : SmState) (action : TxAction) (reg : RegistrarState) (pe : ℕ)
    → resolve_3pe action reg ≡ some pe
    → action ≢ tx_leave
    → (receive_3pe now sm (int_to_3pe pe 0 0)).registrar ≡ registrar_in
unfolding resolve_3pe receive_3pe int_to_3pe three_pe_to_int event_of_3pe sm_step registrar_next
receive-registers now sm action reg pe h n = ground arith

-- The message of a talker's value: as it is sent, and as the peer's `msrp_rx_talker_attr` gets it
abbrev wire_of : List ℕ → ℕ → ℕ → ℕ → TalkerWire
wire_of fv pe bridge_id code = record {
  value = read_info fv;
  failure_bridge_id = bridge_id;
  failure_code = code;
  event = int_to_3pe pe 0 0;
}

-- What reaches the peer of an entry: a message whose walk calls the peer's `msrp_rx_talker_attr`
-- for the stream, and by it the peer's own entry `x` takes the value and registers it.
abbrev pub Delivered : TalkerEntry → ℕ → Attribute → ℕ → ℕ → ℕ → Option ℕ → TalkerEntry → Type 0
Delivered e pe a now bridge_id code mac x =
    (flag : Bool) × (fv : List ℕ) × Arrives a (
      heard flag (talker_code e.attr_type)
        (rx_talker (talker_code e.attr_type) fv (int_to_3pe pe 0 0)))
    × let y = (heard_talker now e.attr_type (wire_of fv pe bridge_id code) mac x).0 in
      (info y ≡ info e) × (y.sm.registrar ≡ registrar_in)

-- A talker declaration reaches the peer: whatever the table and with or without a LeaveAll, the
-- flush sends one message for each entry whose action is a New or a Join. Delivered, it makes the
-- peer's entry hold the same stream, destination, VLAN, frame size, interval, priority, rank and
-- latency, with its Registrar in IN, if the fields fit the wire and the peer does not itself
-- originate the stream.
pub flush_talkers-Delivered :
    (leaveall : Bool) (types : LeaveTypes) (es : List TalkerEntry) (i : ℕ) (e : TalkerEntry)
    (pe : ℕ)
    → get_elem? es i ≡ some e
    → e.valid ≡ true
    → Fits (info e)
    → let sm = stepped leaveall e.sm in
      resolve_3pe sm.pending_tx sm.registrar ≡ some pe
      → sm.pending_tx ≢ tx_leave
      → (now bridge_id code : ℕ) (mac : Option ℕ) (x : TalkerEntry) → x.locally_originated ≡ false
      → (j : ℕ) × (a : Attribute) × (get_elem? (flush_talkers leaveall types es).messages j
          ≡ some (some a))
        × Delivered e pe a now bridge_id code mac x
flush_talkers-Delivered leaveall types es i e pe at v f due n now bridge_id code mac x foreign =
    let sm = stepped leaveall e.sm in
    let fv = talker_first_value e.attr_type e in
    let (j, flag, there) =
      flush_talkers-sends leaveall types es i e at v
        (resolve_3pe-is_pending sm.pending_tx sm.registrar pe due) in
    let (a, sends, arrives) =
      (flush-Arrives flag sm pe due e.attr_type fv (replicate 8 0) (replicate 4 0) ignore
        (length-talker_first_value e.attr_type e) refl refl).0 in
    let (took, stepped_to) =
      heard_talker-lem now e.attr_type (wire_of fv pe bridge_id code) mac x foreign in
    (
      j,
      a,
      rw sends at there,
      (
        flag,
        fv,
        arrives,
        (
          took ∙ read_info-talker_first_value e.attr_type e f,
          rw stepped_to (receive-registers now x.sm sm.pending_tx sm.registrar pe due n),
        ),
      ),
    )
