-- ===== src/Atdecc.antt =====
-- The control of the entity in atdecc.c: who holds it acquired or locked, and the commands that ask
-- for it. The state is that of the notifications (`Unsol`), with what an acquisition adds.
pub mod Holder
pub mod Inflight
pub mod Listeners
mod Tests
use esp_avb.Prelude.{
  ℕ, Bool, true, false, not, ◌&&◌, ◌||◌, List, [], ◌++◌, Option, some, if◌then◌else◌, ◌==◌, ◌+◌,
  ◌*◌,
}
use esp_avb.Unsol.{State, kind_aem, body_response, Frame, requester, notify, register}

-- The fields of `avb_state_s` that the handlers use
pub record Entity : Type 0 where
  pub base : State
  pub acquired : Bool
  pub acquired_by : ℕ

-- The statuses that the handlers answer with
pub data AecpStatus : Type 0 where
  aecp_success aecp_not_supported aecp_entity_locked : AecpStatus

-- `aecp_lock_entity_s` as it arrives, with the controller's MAC address
pub record LockCommand : Type 0 where
  pub controller_id : ℕ
  pub mac : ℕ
  pub unlock : Bool
  pub descriptor_type : ℕ

-- `AVB_LOCK_TIMEOUT_US`
abbrev pub lock_timeout_us : ℕ
lock_timeout_us = 60 * 1_000_000

-- `aem_desc_type_entity`
abbrev pub desc_type_entity : ℕ
desc_type_entity = 0

-- Whether the command's controller holds the lock
unfoldable pub is_owner : State → ℕ → Bool
is_owner s id = s.locked && s.locked_by == id

-- The status of the response
unfoldable pub lock_status : State → LockCommand → AecpStatus
unfolding is_owner
lock_status s c =
    if not (c.descriptor_type == desc_type_entity)
    then aecp_not_supported
    else if s.locked && not (is_owner s c.controller_id)
    then aecp_entity_locked
    else aecp_success

unfoldable pub is_success : AecpStatus → Bool
is_success aecp_success = true
is_success _ = false

-- What the command does to the lock
unfoldable pub lock_step : ℕ → State → LockCommand → State
unfolding lock_status is_success
lock_step now s c =
    if not (is_success (lock_status s c))
    then s
    else if c.unlock
    then record s { locked = false; locked_by = 0 }
    else record s {
      locked = true;
      locked_by = c.controller_id;
      lock_expires_us = now + lock_timeout_us;
    }

unfoldable pub same_flag : Bool → Bool → Bool
same_flag true b = b
same_flag false b = not b

-- The response: its status and `locked_id`
pub record LockResponse : Type 0 where
  pub status : AecpStatus
  pub locked_id : ℕ

-- `avb_process_aecp_cmd_lock_entity`: the other controllers are told of a change, in a frame with
-- the response's octets; `sizeof(aecp_lock_entity_s)` is 40.
unfoldable pub process_lock_entity :
    ℕ → List ℕ → State → LockCommand → State × LockResponse × List Frame
unfolding is_success same_flag
process_lock_entity now octets s c =
    let s' = lock_step now s c in
    let response : LockResponse = record { status = lock_status s c; locked_id = s'.locked_by } in
    if is_success (lock_status s c) && not (same_flag s.locked s'.locked)
    then (let (cs, sent) =
          notify (body_response octets) 40 kind_aem (requester c.controller_id (some c.mac))
            s'.controllers in
        (record s' { controllers = cs }, response, sent))
    else (s', response, [])

-- `aecp_acquire_entity_s` as it arrives, with the controller's MAC address
pub record AcquireCommand : Type 0 where
  pub controller_id : ℕ
  pub mac : ℕ
  pub release : Bool

-- The acquisition of an entity that does not refuse it, once the response is sent
unfoldable pub acquire_step : ℕ → ℕ → Entity → AcquireCommand → Entity
acquire_step now random e c =
    if c.release
    then record e { acquired = false }
    else (let controllers =
          (register now random c.controller_id c.mac false e.base.controllers).0 in
        record e {
          base = record e.base { controllers = controllers };
          acquired = true;
          acquired_by = c.controller_id;
        })

-- `avb_process_aecp_cmd_acquire_entity`, with whether its response could be sent; the response's
-- status. `sizeof(aecp_acquire_entity_s)` is 40.
unfoldable pub process_acquire_entity :
    ℕ → ℕ → List ℕ → Bool → Entity → AcquireCommand → Entity × AecpStatus × List Frame
process_acquire_entity now random octets sends e c =
    if e.base.milan_compliant
    then (e, aecp_not_supported, [])
    else if not sends
    then (e, aecp_success, [])
    else (let e' = acquire_step now random e c in
        if same_flag e.acquired e'.acquired
        then (e', aecp_success, [])
        else (let (cs, sent) =
              notify (body_response octets) 40 kind_aem (requester c.controller_id (some c.mac))
                e'.base.controllers in
            (record e' { base = record e'.base { controllers = cs } }, aecp_success, sent)))

-- The response of `avb_process_aecp_cmd_entity_available`; an ID that nobody holds is 0.
pub record Available : Type 0 where
  pub entity_acquired : Bool
  pub entity_locked : Bool
  pub acquired_controller_id : ℕ
  pub locked_controller_id : ℕ

unfoldable pub process_entity_available : Entity → Available
process_entity_available e = record {
  entity_acquired = e.acquired;
  entity_locked = e.base.locked;
  acquired_controller_id = if e.acquired then e.acquired_by else 0;
  locked_controller_id = if e.base.locked then e.base.locked_by else 0;
}

-- `avb_acquired_or_locked_by_other`
unfoldable pub acquired_or_locked_by_other : Entity → ℕ → Bool
acquired_or_locked_by_other e id =
    e.acquired && not (e.acquired_by == id) || e.base.locked && not (e.base.locked_by == id)
