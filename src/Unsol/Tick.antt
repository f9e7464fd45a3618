-- ===== src/Unsol/Tick.antt =====
-- The periodic part of atdecc_unsol.c: lapsed and departed controllers, the expired lock, and the
-- responses that are sent when they changed.
use esp_avb.Prelude.{
  ℕ, Bool, true, false, not, ◌&&◌, ◌||◌, List, [], ◌∷◌, ◌++◌, if◌then◌else◌, ◌==◌, ltb, leb, length,
}
use esp_avb.Unsol.{
  Controller, State, Kind, kind_aem, body_response, body_unlock, Frame, no_requester, notify,
  send_check, send_deregister,
}

-- What the tick does with an entry
pub data Fate : Type 0 where
  fate_keep fate_check fate_remove : Fate

-- The conditions of `avb_unsol_registrations_tick`
unfoldable pub fate_of : Bool → ℕ → Controller → Fate
fate_of milan now e =
    if e.time_limited && leb e.expires_us now
    then fate_remove
    else if not milan
    then fate_keep
    else if not (e.reply_due_us == 0)
    then (if leb e.reply_due_us now
        then (if ltb e.checks_sent 2 then fate_check else fate_remove)
        else fate_keep)
    else (if leb e.check_due_us now then fate_check else fate_keep)

-- One entry: what is left of it, `aecp_seq_id`, and the frames
unfoldable pub tick_entry : Bool → ℕ → ℕ → Controller → Fate → List Controller × ℕ × List Frame
unfolding send_check send_deregister
tick_entry wifi now seq e fate_keep = (e ∷ [], seq, [])
tick_entry wifi now seq e fate_check =
    let (seq', e', sent) = send_check wifi now seq e in (e' ∷ [], seq', sent)
tick_entry wifi now seq e fate_remove = ([], seq, (send_deregister e).1)

-- `avb_unsol_registrations_tick`
unfoldable pub registrations_tick :
    Bool → Bool → ℕ → ℕ → List Controller → List Controller × ℕ × List Frame
unfolding tick_entry fate_of
registrations_tick milan wifi now seq [] = ([], seq, [])
registrations_tick milan wifi now seq (e ∷ es) =
    let (kept, seq', sent) = tick_entry wifi now seq e (fate_of milan now e) in
    let (es', seq'', later) = registrations_tick milan wifi now seq' es in
    (kept ++ es', seq'', sent ++ later)

-- `avb_unsol_lock_tick`: `sizeof(aecp_lock_entity_s)` is 40.
unfoldable pub lock_tick : ℕ → State → State × List Frame
unfolding notify
lock_tick now s =
    let (cs, sent) = notify body_unlock 40 kind_aem no_requester s.controllers in
    if not s.locked || ltb now s.lock_expires_us
    then (s, [])
    else (record s { locked = false; locked_by = 0; controllers = cs }, sent)

-- `avb_unsol_sent_s`
pub record Sent : Type 0 where
  pub valid : Bool
  pub rsp : List ℕ

unfoldable pub same_octets : List ℕ → List ℕ → Bool
same_octets [] [] = true
same_octets (x ∷ xs) (y ∷ ys) = x == y && same_octets xs ys
same_octets _ _ = false

-- `avb_unsol_send_changed`; `capacity` is `sizeof(sent->rsp)`.
unfoldable pub send_changed :
    ℕ → Kind → List ℕ → Sent → List Controller → Sent × List Controller × List Frame
unfolding same_octets notify
send_changed capacity kind rsp sent cs =
    let (cs', frames) = notify (body_response rsp) (length rsp) kind no_requester cs in
    if length rsp == 0 || ltb capacity (length rsp) || (sent.valid && same_octets sent.rsp rsp)
    then (sent, cs, [])
    else (
      record { valid = true; rsp = rsp },
      if sent.valid then cs' else cs,
      if sent.valid then frames else [],
    )
