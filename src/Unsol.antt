-- ===== src/Unsol.antt =====
-- The controllers registered for unsolicited notifications (atdecc_unsol.c, with the types of
-- avb.h): registration, the check that a controller is still there, and the notifications. An
-- entity ID and a MAC address are the numbers their octets spell, a response is the list of its
-- octets, and clock and random readings are arguments. `num_unsol_controllers` is the length of
-- the list. The frames sent are results.
pub mod Tick
pub mod Registry
pub mod Calls
pub mod Registration
pub mod Presence
pub mod Sequence
pub mod Changes
mod Tests
use esp_avb.Prelude.{
  ℕ, zero, suc, ◌+◌, ◌*◌, ◌%◌, ◌≡◌, Bool, true, false, not, ◌&&◌, ◌||◌, List, [], ◌∷◌, ◌++◌, Option,
  none, some, if◌then◌else◌, ◌==◌, ltb, leb, length, get_elem?, map,
}
use esp_avb.Mrp.Table.{find_index, modify}

-- `avb_unsol_controller_s`
pub record Controller : Type 0 where
  pub entity_id : ℕ
  pub mac_addr : ℕ
  pub aem_seq_id : ℕ
  pub mvu_seq_id : ℕ
  pub vu_seq_id : ℕ
  pub time_limited : Bool
  pub expires_us : ℕ
  pub check_due_us : ℕ
  pub reply_due_us : ℕ
  pub check_seq_id : ℕ
  pub checks_sent : ℕ

-- The fields of `avb_state_s` that the file uses
pub record State : Type 0 where
  pub controllers : List Controller
  pub aecp_seq_id : ℕ
  pub milan_compliant : Bool
  pub wifi : Bool
  pub locked : Bool
  pub locked_by : ℕ
  pub lock_expires_us : ℕ

-- `avb_unsol_kind_t`
pub data Kind : Type 0 where
  kind_aem kind_mvu kind_vu : Kind

-- What a frame carries besides the fields that `avb_unsol_send_to` sets
pub data Body : Type 0 where
  body_response : (octets : List ℕ) → Body
  body_deregister body_unlock body_controller_available : Body

-- A frame to a controller: its entity ID and MAC address, and the sequence ID
pub record Frame : Type 0 where
  pub entity_id : ℕ
  pub mac_addr : ℕ
  pub seq_id : ℕ
  pub kind : Kind
  pub body : Body

unfoldable pub max_unsol_controllers : ℕ
max_unsol_controllers = 16

unfoldable pub max_msg_len : ℕ
max_msg_len = 600

-- `avb_unsol_check_delay_us`
unfoldable pub check_delay_us : ℕ → ℕ
check_delay_us random = 30 * 1000000 + random % (30 * 1000000)

unfoldable pub is_entry : ℕ → ℕ → Controller → Bool
is_entry id mac e = e.entity_id == id && e.mac_addr == mac

-- `avb_unsol_find`
unfoldable pub find : List Controller → ℕ → ℕ → Option ℕ
unfolding is_entry find_index
find cs id mac = find_index (is_entry id mac) cs

-- `avb_unsol_remove`
unfoldable pub remove : List Controller → ℕ → List Controller
remove [] i = []
remove (e ∷ es) zero = es
remove (e ∷ es) (suc i) = e ∷ remove es i

unfoldable pub next_seq_id : ℕ → ℕ
next_seq_id seq_id = (seq_id + 1) % 65536

unfoldable pub seq_of : Kind → Controller → ℕ
seq_of kind_aem e = e.aem_seq_id
seq_of kind_mvu e = e.mvu_seq_id
seq_of kind_vu e = e.vu_seq_id

unfoldable pub count_seq : Kind → Controller → Controller
unfolding next_seq_id
count_seq kind_aem e = record e { aem_seq_id = next_seq_id e.aem_seq_id }
count_seq kind_mvu e = record e { mvu_seq_id = next_seq_id e.mvu_seq_id }
count_seq kind_vu e = record e { vu_seq_id = next_seq_id e.vu_seq_id }

-- `avb_unsol_send_to`: the entry after it and the frame
unfoldable pub send_to : Controller → Body → ℕ → Kind → Controller × List Frame
unfolding max_msg_len seq_of count_seq
send_to e body msg_len kind = if ltb max_msg_len msg_len then (e, []) else (
  count_seq kind e,
  record {
    entity_id = e.entity_id;
    mac_addr = e.mac_addr;
    seq_id = seq_of kind e;
    kind = kind;
    body = body;
  }
      ∷ [],
)

-- The controller whose command caused the change: its entity ID, and its MAC address if given
pub data Requester : Type 0 where
  no_requester : Requester
  requester : (id : ℕ) (addr : Option ℕ) → Requester

-- The test that skips the requester
unfoldable pub is_requester : Requester → Controller → Bool
is_requester no_requester e = false
is_requester (requester id none) e = e.entity_id == id
is_requester (requester id (some mac)) e = e.entity_id == id && e.mac_addr == mac

-- `avb_unsol_notify`
unfoldable pub notify : Body → ℕ → Kind → Requester → List Controller → List Controller × List Frame
unfolding send_to is_requester
notify body msg_len kind by [] = ([], [])
notify body msg_len kind by (e ∷ es) =
    let (e', sent) = if is_requester by e then (e, []) else send_to e body msg_len kind in
    let (es', later) = notify body msg_len kind by es in (e' ∷ es', sent ++ later)

-- `avb_unsol_send_deregister`: `sizeof(aecp_aem_basic_s)` is 24.
unfoldable pub send_deregister : Controller → Controller × List Frame
unfolding send_to
send_deregister e = send_to e body_deregister 24 kind_aem

-- `avb_unsol_send_check`: `seq` is `aecp_seq_id`; the entry and `aecp_seq_id` after it, and the
-- command.
unfoldable pub send_check : Bool → ℕ → ℕ → Controller → ℕ × Controller × List Frame
unfolding next_seq_id
send_check wifi now seq e =
    let first = e.checks_sent == 0 in
    let seq_id = if first then seq else e.check_seq_id in
    (
      if first then next_seq_id seq else seq,
      record e {
        check_seq_id = seq_id;
        checks_sent = (e.checks_sent + 1) % 256;
        reply_due_us = now + (if wifi then 1000000 else 250000);
      },
      record {
        entity_id = e.entity_id;
        mac_addr = e.mac_addr;
        seq_id = seq_id;
        kind = kind_aem;
        body = body_controller_available;
      }
          ∷ [],
    )

-- `avb_unsol_rearm`
unfoldable pub rearm : ℕ → ℕ → Controller → Controller
unfolding check_delay_us
rearm now random e = record e {
  check_due_us = now + check_delay_us random;
  reply_due_us = 0;
  checks_sent = 0;
}

pub data Status : Type 0 where
  status_success status_no_resources : Status

-- A slot after `memset` and the two `memcpy`
unfoldable pub fresh : ℕ → ℕ → Controller
fresh id mac = record {
  entity_id = id;
  mac_addr = mac;
  aem_seq_id = 0;
  mvu_seq_id = 0;
  vu_seq_id = 0;
  time_limited = false;
  expires_us = 0;
  check_due_us = 0;
  reply_due_us = 0;
  check_seq_id = 0;
  checks_sent = 0;
}

-- The assignments at the end of `avb_unsol_register`
unfoldable pub refresh : ℕ → ℕ → Bool → Controller → Controller
unfolding rearm
refresh now random limited e =
    rearm now random (record e { time_limited = limited; expires_us = now + 300 * 1000000 })

-- The check of every registered controller when the list is full
unfoldable pub check_now : ℕ → Controller → Controller
check_now now e = if e.reply_due_us == 0 then record e { check_due_us = now } else e

-- `avb_unsol_register`
unfoldable pub register : ℕ → ℕ → ℕ → ℕ → Bool → List Controller → List Controller × Status
unfolding find max_unsol_controllers check_now fresh refresh modify
register now random id mac limited cs = elim (find cs id mac) [
  | some i ↦ (modify i (refresh now random limited) cs, status_success)
  | none ↦
      if leb max_unsol_controllers (length cs)
      then (map (check_now now) cs, status_no_resources)
      else (cs ++ refresh now random limited (fresh id mac) ∷ [], status_success)
]

-- `avb_unsol_deregister`
unfoldable pub deregister : ℕ → ℕ → List Controller → List Controller
unfolding find remove
deregister id mac cs = elim (find cs id mac) [ none ↦ cs | some i ↦ remove cs i ]

-- `avb_unsol_heard`
unfoldable pub heard : ℕ → ℕ → ℕ → ℕ → List Controller → List Controller
unfolding find rearm modify
heard now random id mac cs = elim (find cs id mac) [
  | none ↦ cs
  | some i ↦ modify i (rearm now random) cs
]

-- `avb_unsol_controller_replied`: the sequence ID and the target of the response
unfoldable pub replied : ℕ → ℕ → ℕ → ℕ → List Controller → List Controller
unfolding rearm
replied now random seq_id target [] = []
replied now random seq_id target (e ∷ es) =
    let rest = replied now random seq_id target es in
    if not (e.reply_due_us == 0) && e.check_seq_id == seq_id && e.entity_id == target
    then rearm now random e ∷ es
    else e ∷ rest
