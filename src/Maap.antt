-- ===== src/Maap.antt =====
-- MAAP (section 8 of mrp.c): how a station acquires a multicast destination for each stream it
-- sends. Clock readings are arguments; the messages sent are results. A station has its MAC
-- octets 2 to 5 and one entry for each output stream; `clock i` is read for stream `i`.
pub mod Soundness
pub mod Acquire
pub mod Ownership
mod Tests
use esp_avb.Prelude.{
  ℕ, zero, suc, ◌+◌, ◌*◌, ◌/◌, ◌%◌, ◌^◌, ◌≡◌, Bool, true, false, not, ◌&&◌, List, [], ◌∷◌, ◌++◌,
  Option, none, some, if◌then◌else◌, ◌==◌, ltb,
}
use Prim.Native.Nat.{bit_or, bit_xor}

-- `eth_addr_t`
pub record EthAddr : Type 0 where
  pub a0 : ℕ
  pub a1 : ℕ
  pub a2 : ℕ
  pub a3 : ℕ
  pub a4 : ℕ
  pub a5 : ℕ

-- `maap_state_t`
pub data MaapState : Type 0 where
  maap_initial maap_probe maap_defend : MaapState

-- `maap_stream_state_s`, with `stream_dest_addr` of the output stream of the same index
pub record MaapStream : Type 0 where
  pub state : MaapState
  pub acquired_addr : EthAddr
  pub probe_count : ℕ
  pub timer_expiry_us : ℕ
  pub acquired : Bool
  pub reselect_count : ℕ
  pub stream_dest_addr : EthAddr

-- Octets 2 to 5 of `port[0].internal_mac_addr`
pub record MacTail : Type 0 where
  pub m2 : ℕ
  pub m3 : ℕ
  pub m4 : ℕ
  pub m5 : ℕ

-- `maap_msg_type_t`, with the values that have no name
pub data MaapMsgType : Type 0 where
  msg_probe msg_defend msg_announce msg_reserved : MaapMsgType

-- `maap_message_s`: the fields that are read or set
pub record MaapMessage : Type 0 where
  pub msg_type : MaapMsgType
  pub req_start_addr : EthAddr
  pub confl_start_addr : Option EthAddr

unfoldable pub probe_retransmits : ℕ
probe_retransmits = 3

unfoldable pub maap_pool_size : ℕ
maap_pool_size = 65024

-- The seed of `maap_generate_addr` before the escape stride
unfoldable pub mac_seed : MacTail → ℕ → ℕ
mac_seed m stream_index =
    let seed = bit_xor m.m2 m.m3 in
    let seed4 = bit_or ((seed * 256) % 2 ^ 32) m.m4 in
    let seed5 = bit_or ((seed4 * 256) % 2 ^ 32) m.m5 in (seed5 + stream_index) % 2 ^ 32

unfoldable pub addr_at : ℕ → EthAddr
addr_at offset = record {
  a0 = 0x91;
  a1 = 0xe0;
  a2 = 0xf0;
  a3 = 0;
  a4 = (offset / 256) % 256;
  a5 = offset % 256;
}

unfoldable pub offset_of : MacTail → ℕ → ℕ → ℕ
unfolding mac_seed maap_pool_size
offset_of m stream_index reselect_count =
    ((mac_seed m stream_index + reselect_count * 0x0101) % 2 ^ 32) % maap_pool_size

-- `maap_generate_addr`
unfoldable pub generate_addr : MacTail → ℕ → ℕ → EthAddr
unfolding offset_of addr_at
generate_addr m stream_index reselect_count = addr_at (offset_of m stream_index reselect_count)

-- `maap_jitter_us`; `clock` is what it reads.
unfoldable pub jitter_us : ℕ → ℕ → ℕ → ℕ
jitter_us clock base_ms var_ms = (base_ms + (clock % 2 ^ 32) % (var_ms + 1)) * 1000

unfoldable pub probe_after : ℕ → ℕ → ℕ
unfolding jitter_us
probe_after now clock = now + jitter_us clock 500 100

unfoldable pub announce_after : ℕ → ℕ → ℕ
unfolding jitter_us
announce_after now clock = now + jitter_us clock 30000 2000

-- `maap_addr_conflicts`
unfoldable pub addr_conflicts : EthAddr → EthAddr → Bool
addr_conflicts x y =
    x.a0 == y.a0 && x.a1 == y.a1 && x.a2 == y.a2 && x.a3 == y.a3 && x.a4 == y.a4 && x.a5 == y.a5

-- `avb_send_maap_msg`, as the message it hands to the network
unfoldable pub send_msg : MaapMsgType → EthAddr → Option EthAddr → MaapMessage
send_msg ty req confl = record { msg_type = ty; req_start_addr = req; confl_start_addr = confl }

-- What `esp_timer_get_time` returns where a stream is armed: first in the sum, then inside
-- `maap_jitter_us`
pub record Clock : Type 0 where
  pub time : ℕ
  pub jitter : ℕ

-- One stream in `avb_maap_init`
unfoldable pub init_stream : MacTail → Clock → ℕ → MaapStream → MaapStream × List MaapMessage
unfolding generate_addr probe_after send_msg probe_retransmits
init_stream m clock i s =
    let addr = generate_addr m i s.reselect_count in
    (
      record s {
        state = maap_probe;
        acquired = false;
        acquired_addr = addr;
        probe_count = probe_retransmits;
        timer_expiry_us = probe_after clock.time clock.jitter;
      },
      send_msg msg_probe addr none ∷ [],
    )

-- `probe_count--` and what follows it in `avb_maap_tick`
unfoldable pub probe_tick : ℕ → ℕ → MaapStream → MaapStream × List MaapMessage
unfolding probe_after announce_after send_msg
probe_tick now clock s =
    let left = (s.probe_count + 255) % 256 in
    if left == 0
    then (
      record s {
        probe_count = left;
        state = maap_defend;
        acquired = true;
        stream_dest_addr = s.acquired_addr;
        timer_expiry_us = announce_after now clock;
      },
      send_msg msg_announce s.acquired_addr none ∷ [],
    )
    else (
      record s { probe_count = left; timer_expiry_us = probe_after now clock },
      send_msg msg_probe s.acquired_addr none ∷ [],
    )

unfoldable pub fire : ℕ → ℕ → MaapStream → MaapState → MaapStream × List MaapMessage
unfolding probe_tick announce_after send_msg
fire now clock s maap_probe = probe_tick now clock s
fire now clock s maap_defend = (
  record s { timer_expiry_us = announce_after now clock },
  send_msg msg_announce s.acquired_addr none ∷ [],
)
fire now clock s maap_initial = (s, [])

-- One stream in `avb_maap_tick`
unfoldable pub tick_stream : ℕ → ℕ → MaapStream → MaapStream × List MaapMessage
unfolding fire
tick_stream now clock s = if ltb now s.timer_expiry_us then (s, []) else fire now clock s s.state

-- The lines that take a new address after a conflict
unfoldable pub reselect : MacTail → Clock → ℕ → MaapStream → MaapStream
unfolding generate_addr probe_after probe_retransmits
reselect m clock i s =
    let count = (s.reselect_count + 1) % 65536 in
    record s {
      reselect_count = count;
      acquired_addr = generate_addr m i count;
      probe_count = probe_retransmits;
      timer_expiry_us = probe_after clock.time clock.jitter;
    }

-- The `switch` of `avb_process_maap`
unfoldable pub conflict :
    MacTail
    → Clock
    → ℕ
    → MaapStream
    → MaapState
    → MaapMessage
    → MaapMsgType
    → MaapStream × List MaapMessage
unfolding reselect send_msg
conflict m clock i s maap_defend msg msg_probe =
    (s, send_msg msg_defend msg.req_start_addr (some s.acquired_addr) ∷ [])
conflict m clock i s maap_probe msg msg_probe = (reselect m clock i s, [])
conflict m clock i s maap_probe msg msg_defend = (reselect m clock i s, [])
conflict m clock i s maap_defend msg msg_announce =
    (record (reselect m clock i s) { acquired = false; state = maap_probe }, [])
conflict m clock i s _ msg _ = (s, [])

-- One stream in `avb_process_maap`
unfoldable pub process_stream :
    MacTail → Clock → ℕ → MaapMessage → MaapStream → MaapStream × List MaapMessage
unfolding conflict addr_conflicts
process_stream m clock i msg s =
    if addr_conflicts s.acquired_addr msg.req_start_addr
    then conflict m clock i s s.state msg msg.msg_type
    else (s, [])

-- `avb_maap_init` on the streams from number `i` on
unfoldable pub maap_init :
    MacTail → (ℕ → Clock) → ℕ → List MaapStream → List MaapStream × List MaapMessage
unfolding init_stream
maap_init m clock i [] = ([], [])
maap_init m clock i (s ∷ ss) =
    let (s', sent) = init_stream m (clock i) i s in
    let (ss', later) = maap_init m clock (suc i) ss in (s' ∷ ss', sent ++ later)

-- `avb_maap_tick` on the streams from number `i` on
unfoldable pub maap_tick : ℕ → (ℕ → ℕ) → ℕ → List MaapStream → List MaapStream × List MaapMessage
unfolding tick_stream
maap_tick now clock i [] = ([], [])
maap_tick now clock i (s ∷ ss) =
    let (s', sent) = tick_stream now (clock i) s in
    let (ss', later) = maap_tick now clock (suc i) ss in (s' ∷ ss', sent ++ later)

-- `avb_process_maap` on the streams from number `i` on
unfoldable pub process_maap :
    MacTail → (ℕ → Clock) → ℕ → MaapMessage → List MaapStream → List MaapStream × List MaapMessage
unfolding process_stream
process_maap m clock i msg [] = ([], [])
process_maap m clock i msg (s ∷ ss) =
    let (s', sent) = process_stream m (clock i) i msg s in
    let (ss', later) = process_maap m clock (suc i) msg ss in (s' ∷ ss', sent ++ later)
