-- ===== src/Lib.antt =====
-- A model of the protocol core of esp_avb, an AVB (IEEE 802.1 / 1722 / 1722.1) endpoint and bridge
-- for the ESP32 in C, and what is proved of it.
--
-- The program. A station or a bridge runs one AVB task. It feeds received MRPDUs into the MRP
-- state machines of mrp.c, kept per port for talkers, listeners, domains (MSRP) and VLANs (MVRP),
-- and polls the timers of each port, which step the machines and flush what they want to send. In
-- a bridge, registrations on one port are declared on the others, streams are admitted against the
-- bandwidth of the egress port, and stream frames go through a credit-based shaper. MAAP gives
-- each stream its multicast address. Controllers register for notifications of what changes, lock
-- the entity and connect its streams to listeners. A sample-rate converter follows the media clock
-- of the peer.
--
-- Which file models which part:
--   Mrp              mrp.c, mrp.h: mrp_applicant_step, mrp_registrar_step, mrp_sm_step
--   Mrp.Packed       avbutils.c, mrp.c: the packed events and their translation
--   Mrp.Registration mrp.c: mrp_reg_transition, mrp_port_dispatch_leave_timers by attribute
--   Mrp.Lite         mrp.c: AVB Lite on one attribute; Schedule, an entry in mrp_lite_flush
--   Mrp.Trace, Mrp.Exchange   sequences of events; two participants
--   Mrp.Table        mrp.c: the linear scans of the tables; Unique proves of them
--   Mrp.Attributes   mrp.c: the MSRP tables, with children for insertions (Slots), the merge of
--                    listener declarations (Merge) and the LeaveAlls (Leave)
--   Mrp.Pdu          mrp.c: the walk of mrp_rx_msrp, with children for its end and its reads
--                    (Safety), the LeaveAlls (Once), the packed increments (Octets), the messages
--                    that are sent (Send) and what becomes of them at the peer (RoundTrip)
--   Mrp.Receive      mrp.c: msrp_rx_talker_attr, msrp_rx_listener_attr, msrp_rx_domain_attr; Twins,
--                    the two forms of a talker
--   Mrp.Quarantine   mrp.c: the declarations of talkers and the hold-off of a changed value
--                    (Value); Silence and Reopen, one entry through all that happens to it;
--                    Predict, the query
--   Mrp.Declare      mrp.c: the declarations of listeners and domains; Changes proves of it
--   Mrp.Flush        mrp.c: mrp_tx_flush_port on the MSRP tables; Delivery, up to the peer's entry
--   Mrp.Refusals     mrp.c: mrp_lite_sync_refusals, mrp_lite_redeclare_all; Settled proves of it
--   Mrp.Port         mrp.c: mrp_port_init, the timers of mrp_port_tick
--   Mrp.Mvrp         mrp.c: the MVRP tables, mrp_rx_mvrp, mrp_tx_flush_mvrp, with children for the
--                    flush (Flush), the propagation of a bridge (Propagation) and the
--                    table through all calls (Keyed, Calls)
--   Bridge           avbbridge.c, avbbridge.h: avb_bridge_classify (Classes proves of it)
--   Bridge.Shaper    avbfqtss.c; Credit and Drain prove of it
--   Bridge.Admission mrp.c: avb_srp_admission_*, msrp_update_admission; Limits and Accounts prove
--                    of it
--   Maap             mrp.c, avtp.h: avb_maap_init, avb_maap_tick, avb_process_maap; Soundness,
--                    Acquire and Ownership prove of it
--   Unsol, Unsol.Tick  atdecc_unsol.c; Registry, Calls, Registration, Sequence, Changes and
--                    Presence prove of it
--   Atdecc           atdecc.c: avb_process_aecp_cmd_acquire_entity, _lock_entity, _entity_available;
--                    Holder proves of the lock
--   Atdecc.Inflight  atdecc.c: the commands in flight; Expiry proves of their timeouts
--   Atdecc.Listeners atdecc.c, avb.c: the table of connected listeners and
--                    avb_process_acmp_connect_tx_command; Rows and Connect prove of it
--   Utils            avbutils.c: octets and integers (Octets), time values (Time)
--   Src              avbsrc.c: the position of the converter; Balance and Ratio, what it owes; Runs,
--                    the frames that a run takes
--   Prelude          Boolean tests, lists indexed by native numbers, integers, computations that
--                    fail (Results)
-- The Tests modules have runs and instances at concrete values.
--
-- How the code corresponds. A struct is a record, an enum a data type, an array a list of the same
-- length, a function that changes state returns the new state with what it sends. A pointer into a
-- table is the index of the slot. What esp_timer_get_time and esp_random return are arguments, as
-- are whether a memory allocation succeeds and the compile-time options that a function reads.
-- Times are in microseconds since boot and not negative. Port indices are not negative; an index
-- past the end is refused as in the code. Sums of uint32_t, uint16_t and uint8_t wrap where the
-- source's do; int64_t values are integers without bound: the shaper's credits stay within one
-- MTU, its products within 63 bits for any slope up to 1 Gbps and any pause up to two hours.
--
-- Bounds. The draining loop of the shaper runs on fuel, one more than the frames in the queue,
-- which is enough as each turn but the last takes a frame. The egress of the shaper is a stub that
-- frees the payload: a frame counts as taken from the queue for transmission, and none reaches a
-- port. The walk of a received MSRP message runs its two loops on fuel, one more than the octets,
-- which is enough as each turn but the last goes at least three octets on. The loop over the
-- commands in flight runs on fuel, one more than the commands, as each turn removes a command or
-- goes on by one. Reading past the receive buffer fails in the model, and the bounds of the walk
-- are computed from the length reported and clamped as in the code. Everything else is structural
-- recursion. The shaper's queue is changed by one task at a time: frames that are enqueued during a
-- round count for the next.
--
-- Not modelled: sockets, codecs, flash and the PLL's registers (avbnet.c, avbcodec.c,
-- avbregistry.c, avbpll.c), audio samples (the filter of avbsrc.c, avtp.c); of atdecc.c the entity
-- model, the listener side of ACMP and the dispatch of commands; the main task (avb.c),
-- statistics; of mrp.c the callbacks mrp_on_*_registrar_change but that of VLANs, the unicast
-- option for Wi-Fi and the loops of mrp_lite_flush over the tables; of atdecc_unsol.c the building
-- of the responses, which are arguments here; of avbutils.c the printing, the floating-point
-- conversions and the list helper on untyped memory.
pub mod Prelude
pub mod Mrp
pub mod Bridge
pub mod Maap
pub mod Unsol
pub mod Utils
pub mod Src
pub mod Atdecc
