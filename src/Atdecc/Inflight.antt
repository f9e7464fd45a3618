-- ===== src/Atdecc/Inflight.antt =====
-- The list of commands in flight in atdecc.c, and its timeouts.
pub mod Expiry
use esp_avb.Prelude.{
  ℕ, zero, suc, ◌+◌, ◌%◌, Bool, true, false, not, ◌&&◌, ◌||◌, List, [], ◌∷◌, ◌++◌, Option, none,
  some, if◌then◌else◌, ◌==◌, ltb, leb, length, get_elem?, set,
}
use esp_avb.Utils.{Timeval, timeval_add_ms, Order, before, same, after, compare_timeval}
use esp_avb.Mrp.Table.{find_index}
use esp_avb.Atdecc.{same_flag}

-- The command octets as `acmp_message_s`
pub record AcmpView : Type 0 where
  pub seq_id : ℕ
  pub talker_uid : ℕ
  pub listener_uid : ℕ
  pub talker_id : ℕ
  pub listener_id : ℕ
  pub controller_id : ℕ

-- The same octets as `aecp_aem_short_s`
pub record AecpView : Type 0 where
  pub seq_id : ℕ
  pub target_id : ℕ
  pub controller_id : ℕ
  pub command_type : ℕ

-- `atdecc_command_u`: its header, and the two forms of its octets
pub record Command : Type 0 where
  pub is_acmp : Bool
  pub msg_type : ℕ
  pub acmp : AcmpView
  pub aecp : AecpView

-- `atdecc_inflight_command_s`
pub record Inflight : Type 0 where
  pub timeout : Timeval
  pub retried : Bool
  pub aecp_seq_id : ℕ
  pub acmp_seq_id : ℕ
  pub command : Command
  pub inbound : Bool

-- The message types that the functions name
abbrev pub connect_tx_command : ℕ
connect_tx_command = 0

abbrev pub disconnect_tx_command : ℕ
disconnect_tx_command = 2

abbrev pub get_tx_state_command : ℕ
get_tx_state_command = 4

abbrev pub connect_rx_command : ℕ
connect_rx_command = 6

abbrev pub disconnect_rx_command : ℕ
disconnect_rx_command = 8

abbrev pub get_rx_state_command : ℕ
get_rx_state_command = 10

abbrev pub get_tx_connection_command : ℕ
get_tx_connection_command = 12

abbrev pub connect_rx_response : ℕ
connect_rx_response = 7

abbrev pub disconnect_rx_response : ℕ
disconnect_rx_response = 9

-- `AVB_MAX_NUM_INFLIGHT_COMMANDS`
abbrev pub max_inflight : ℕ
max_inflight = 20

-- `avb_get_acmp_timeout_ms`
unfoldable pub get_acmp_timeout_ms : ℕ → ℕ
get_acmp_timeout_ms t =
    if t == connect_tx_command
    then 3500
    else if t == connect_rx_command
    then 4500
    else if t == disconnect_rx_command
    then 500
    else if t == disconnect_tx_command
        || t == get_tx_state_command
        || t == get_rx_state_command
        || t == get_tx_connection_command
    then 200
    else 250

-- The sequence ID that an entry goes by
unfoldable pub own_seq : Inflight → ℕ
own_seq c = if c.command.is_acmp then c.acmp_seq_id else c.aecp_seq_id

unfoldable pub is_inflight : ℕ → Bool → Inflight → Bool
unfolding own_seq same_flag
is_inflight seq inbound c = own_seq c == seq && same_flag c.inbound inbound

-- `avb_find_inflight_command`
unfoldable pub find_inflight : ℕ → Bool → List Inflight → Option ℕ
unfolding find_index is_inflight
find_inflight seq inbound cs = find_index (is_inflight seq inbound) cs

-- The response answers the command of the entry.
unfoldable pub answers : Command → Bool → Inflight → Bool
unfolding same_flag
answers reply inbound c =
    same_flag c.inbound inbound
    && c.command.msg_type + 1 == reply.msg_type
    && (if reply.is_acmp
        then c.command.acmp.talker_uid == reply.acmp.talker_uid
          && c.command.acmp.listener_uid == reply.acmp.listener_uid
          && c.command.acmp.talker_id == reply.acmp.talker_id
          && c.command.acmp.listener_id == reply.acmp.listener_id
          && c.command.acmp.controller_id == reply.acmp.controller_id
        else c.command.aecp.target_id == reply.aecp.target_id
          && c.command.aecp.controller_id == reply.aecp.controller_id
          && c.command.aecp.command_type == reply.aecp.command_type)

-- `avb_find_inflight_command_by_data`
unfoldable pub find_by_data : Command → Bool → List Inflight → Option ℕ
unfolding find_index answers
find_by_data reply inbound cs = find_index (answers reply inbound) cs

unfoldable pub remove_at : ℕ → List Inflight → List Inflight
remove_at i [] = []
remove_at zero (c ∷ cs) = cs
remove_at (suc i) (c ∷ cs) = c ∷ remove_at i cs

-- `avb_remove_inflight_command`
unfoldable pub remove_inflight : ℕ → Bool → List Inflight → List Inflight
unfolding find_inflight remove_at
remove_inflight seq inbound cs = elim (find_inflight seq inbound cs) [
  | none ↦ cs
  | some i ↦ remove_at i cs
]

-- The entry of a new command, over the slot's older sequence IDs; `msg_type` has four bits.
unfoldable pub new_inflight : Timeval → Command → Bool → ℕ → ℕ → Inflight
unfolding timeval_add_ms get_acmp_timeout_ms
new_inflight now command inbound old_aecp old_acmp = record {
  timeout =
      timeval_add_ms now (if command.is_acmp then get_acmp_timeout_ms command.msg_type else 250);
  retried = false;
  aecp_seq_id = if command.is_acmp then old_aecp else command.aecp.seq_id;
  acmp_seq_id = if command.is_acmp then command.acmp.seq_id else old_acmp;
  command = command;
  inbound = inbound;
}

-- `avb_add_inflight_command`: the list, and the index or `none` for an error. The last two arguments
-- are the sequence IDs that an older command left in the slot.
unfoldable pub add_inflight :
    Timeval → Command → Bool → ℕ → ℕ → List Inflight → List Inflight × Option ℕ
unfolding find_by_data new_inflight
add_inflight now command inbound old_aecp old_acmp cs =
    if leb max_inflight (length cs)
    then (cs, none)
    else elim (find_by_data (record command { msg_type = (command.msg_type + 1) % 16 }) inbound
        cs) [
          | some i ↦ (cs, some i)
          | none ↦ (cs ++ new_inflight now command inbound old_aecp old_acmp ∷ [], some (length cs))
        ]

-- A LISTENER_TALKER_TIMEOUT that is sent to a controller
pub record TimeoutAnswer : Type 0 where
  pub msg_type : ℕ
  pub seq_id : ℕ
  pub command : Command

-- The commands, `pending_connection` of each input stream, and the answers sent
pub record Inflights : Type 0 where
  pub commands : List Inflight
  pub pending : List Bool
  pub sent : List TimeoutAnswer

-- `compare_timeval(now, inflight->timeout) < 0` does not hold.
unfoldable pub expired : Timeval → Inflight → Bool
unfolding compare_timeval
expired now c = elim (compare_timeval now c.timeout) [ before ↦ false | same ↦ true | after ↦ true ]

-- `acmp_rx_response_for_tx_command`
unfoldable pub rx_response_for : ℕ → Option ℕ
rx_response_for t =
    if t == connect_tx_command
    then some connect_rx_response
    else if t == disconnect_tx_command
    then some disconnect_rx_response
    else none

-- The listener stream of an expired connection is not pending any more.
unfoldable pub clear_pending : Inflight → List Bool → List Bool
clear_pending c pending =
    if c.command.is_acmp && not c.inbound && c.command.msg_type == connect_tx_command
    then set pending c.command.acmp.listener_uid false
    else pending

-- The controller whose command the expired one was forwarded for is answered.
unfoldable pub answer : Inflight → List Inflight → List Inflight × List TimeoutAnswer
answer c cs = elim (rx_response_for c.command.msg_type) [
  | none ↦ (cs, [])
  | some ty ↦ elim (find_by_data (record c.command { msg_type = ty }) true cs) [
    | none ↦ (cs, [])
    | some i ↦ elim (get_elem? cs i) [
      | none ↦ (cs, [])
      | some rx ↦ (
        remove_inflight rx.acmp_seq_id true cs,
        record { msg_type = ty; seq_id = rx.acmp_seq_id; command = c.command } ∷ [],
      )
    ]
  ]
]

-- What the loop does with an expired command
unfoldable pub expire : Inflight → Inflights → Inflights
expire c s =
    let (cs, sent) =
      if c.command.is_acmp && not c.inbound then answer c s.commands else (s.commands, []) in
    record {
      commands = remove_inflight (own_seq c) c.inbound cs;
      pending = clear_pending c s.pending;
      sent = s.sent ++ sent;
    }

-- The loop of `avb_process_inflight_timeouts` from index `i` on
unfoldable pub timeouts : ℕ → Timeval → ℕ → Inflights → Option Inflights
timeouts zero now i s = none
timeouts (suc fuel) now i s = elim (get_elem? s.commands i) [
  | none ↦ some s
  | some c ↦
      let (j, t) = if expired now c then (i, expire c s) else (i + 1, s) in timeouts fuel now j t
]

-- `avb_process_inflight_timeouts`: each turn goes on by an entry or removes one.
unfoldable pub process_timeouts : Timeval → Inflights → Option Inflights
unfolding timeouts
process_timeouts now s = timeouts (length s.commands + 1) now 0 s
