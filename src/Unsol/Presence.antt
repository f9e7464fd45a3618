-- ===== src/Unsol/Presence.antt =====
-- When the tick removes a controller and when it keeps it.
use esp_avb.Prelude.{
  ℕ, ◌+◌, ◌≤◌, ◌<◌, ◌≡◌, ◌≢◌, refl, arith, Bool, true, false, if◌then◌else◌, List, [], ◌∷◌, ◌++◌,
  append_assoc,
}
use esp_avb.Unsol.{
  Controller, kind_aem, body_controller_available, body_deregister, Frame, send_to, seq_of,
  max_msg_len, next_seq_id, send_check, send_deregister, rearm, refresh, check_delay_us, replied,
}
use esp_avb.Unsol.Tick.{fate_of, tick_entry, registrations_tick}

-- The CONTROLLER_AVAILABLE command to a controller
pub check_frame : Controller → ℕ → Frame
check_frame e seq_id = record {
  entity_id = e.entity_id;
  mac_addr = e.mac_addr;
  seq_id = seq_id;
  kind = kind_aem;
  body = body_controller_available;
}

-- The DEREGISTER command to a controller
pub deregister_frame : Controller → Frame
deregister_frame e = record {
  entity_id = e.entity_id;
  mac_addr = e.mac_addr;
  seq_id = e.aem_seq_id;
  kind = kind_aem;
  body = body_deregister;
}

-- The time that a controller has for its reply
abbrev pub reply_us : Bool → ℕ
reply_us wifi = if wifi then 1_000_000 else 250_000

-- An entry that waits for the reply to a check sent at `now`
pub waiting : Bool → ℕ → ℕ → ℕ → Controller → Controller
waiting wifi now seq_id sent e = record e {
  check_seq_id = seq_id;
  checks_sent = sent;
  reply_due_us = now + reply_us wifi;
}

-- In a registry of a Milan entity, wherever `e` stands and whatever controllers stand before and
-- behind it, the tick at `now` does with `e`, and with the sequence ID that is next when it comes
-- to it, what `does` gives: what is left of it, the next sequence ID, and its frames. The
-- controllers before and behind it have what a tick of theirs alone gives.
pub TickDoes : Bool → ℕ → Controller → (ℕ → List Controller × ℕ × List Frame) → Type 0
TickDoes wifi now e does =
    (seq : ℕ) (before behind : List Controller)
    → let (kept, seq1, frames) = registrations_tick true wifi now seq before in
      let (own, seq2, own_frames) = does seq1 in
      let (kept', seq3, frames') = registrations_tick true wifi now seq2 behind in
      registrations_tick true wifi now seq (before ++ e ∷ behind)
      ≡ (kept ++ (own ++ kept'), seq3, frames ++ (own_frames ++ frames'))

registrations_tick-append :
    (wifi : Bool) (now seq : ℕ) (before rest : List Controller)
    → let (kept, seq1, frames) = registrations_tick true wifi now seq before in
      let (kept', seq2, frames') = registrations_tick true wifi now seq1 rest in
      registrations_tick true wifi now seq (before ++ rest)
      ≡ (kept ++ kept', seq2, frames ++ frames')
unfolding registrations_tick
registrations_tick-append wifi now seq [] rest = refl
registrations_tick-append wifi now seq (x ∷ before) rest =
    let out = tick_entry wifi now seq x (fate_of true now x) in
    let (kept, seq1, frames) = registrations_tick true wifi now out.1 before in
    let (kept', seq2, frames') = registrations_tick true wifi now seq1 rest in
    rw
      (
        registrations_tick-append wifi now out.1 before rest,
        append_assoc out.0 kept kept',
        append_assoc out.2 frames frames',
      )
      refl

TickDoes-intro :
    (wifi : Bool) (now : ℕ) (e : Controller) (does : ℕ → List Controller × ℕ × List Frame)
    → ((seq : ℕ) → tick_entry wifi now seq e (fate_of true now e) ≡ does seq)
    → TickDoes wifi now e does
unfolding TickDoes registrations_tick
TickDoes-intro wifi now e does h seq before behind =
    let seq1 = (registrations_tick true wifi now seq before).1 in
    rw (← h seq1) (registrations_tick-append wifi now seq before (e ∷ behind))

tick-early :
    (wifi : Bool) (t0 r t : ℕ) (e : Controller)
    → e.time_limited ≡ false
    → t < t0 + 30_000_000
    → (seq : ℕ)
    → let e0 = rearm t0 r e in tick_entry wifi t seq e0 (fate_of true t e0) ≡ (e0 ∷ [], seq, [])
unfolding tick_entry fate_of rearm check_delay_us
tick-early wifi t0 r t e free early seq = ground arith

tick-due :
    (wifi : Bool) (t0 r t : ℕ) (e : Controller)
    → e.time_limited ≡ false
    → (rearm t0 r e).check_due_us ≤ t
    → (seq : ℕ)
    → let e0 = rearm t0 r e in
      tick_entry wifi t seq e0 (fate_of true t e0)
      ≡ (waiting wifi t seq 1 e0 ∷ [], next_seq_id seq, check_frame e seq ∷ [])
unfolding tick_entry fate_of rearm check_delay_us send_check check_frame waiting
tick-due wifi t0 r t e free due seq = ground arith

tick-waiting :
    (wifi : Bool) (t0 r t1 t id : ℕ) (e : Controller)
    → e.time_limited ≡ false
    → t < t1 + reply_us wifi
    → (seq : ℕ)
    → let e1 = waiting wifi t1 id 1 (rearm t0 r e) in
      tick_entry wifi t seq e1 (fate_of true t e1) ≡ (e1 ∷ [], seq, [])
unfolding tick_entry fate_of rearm waiting
tick-waiting wifi t0 r t1 t id e free early seq = ground arith

tick-late :
    (wifi : Bool) (t0 r t1 t id : ℕ) (e : Controller)
    → e.time_limited ≡ false
    → t1 + reply_us wifi ≤ t
    → (seq : ℕ)
    → let e1 = waiting wifi t1 id 1 (rearm t0 r e) in
      tick_entry wifi t seq e1 (fate_of true t e1)
      ≡ (waiting wifi t id 2 (rearm t0 r e) ∷ [], seq, check_frame e id ∷ [])
unfolding tick_entry fate_of rearm send_check check_frame waiting
tick-late wifi t0 r t1 t id e free late seq = ground arith

tick-gone :
    (wifi : Bool) (t0 r t2 t id : ℕ) (e : Controller)
    → e.time_limited ≡ false
    → t2 + reply_us wifi ≤ t
    → (seq : ℕ)
    → let e2 = waiting wifi t2 id 2 (rearm t0 r e) in
      tick_entry wifi t seq e2 (fate_of true t e2) ≡ ([], seq, deregister_frame e ∷ [])
unfolding tick_entry fate_of rearm waiting send_deregister send_to max_msg_len seq_of
    deregister_frame
tick-gone wifi t0 r t2 t id e free late seq = ground arith

-- On a Milan entity, a controller without a time limit that was last heard at `t0`, wherever it
-- stands in the registry and whatever the other controllers do: a tick less than 30 s later leaves
-- it alone; a tick when its check is due sends it one, with the next sequence ID; if it never
-- answers and is sent nothing else, a tick before its time for the reply is over (0.25 s, or 1 s over Wi-Fi) leaves it alone,
-- the first one after that repeats the check with the sequence ID that it had, and the first one
-- after the time for that reply removes it, with a DEREGISTER under its own sequence ID.
pub silent-removed :
    (wifi : Bool) (t0 r t t1 t1' t2 t3 id : ℕ) (e : Controller)
    → e.time_limited ≡ false
    → t < t0 + 30_000_000
    → (rearm t0 r e).check_due_us ≤ t1
    → t1' < t1 + reply_us wifi
    → t1 + reply_us wifi ≤ t2
    → t2 + reply_us wifi ≤ t3
    → let e0 = rearm t0 r e in
      let e1 : ℕ → Controller = λ q. waiting wifi t1 q 1 e0 in
      let e2 = waiting wifi t2 id 2 e0 in
      TickDoes wifi t e0 (λ q. (e0 ∷ [], q, []))
      × TickDoes wifi t1 e0 (λ q. (e1 q ∷ [], next_seq_id q, check_frame e q ∷ []))
      × TickDoes wifi t1' (e1 id) (λ q. (e1 id ∷ [], q, []))
      × TickDoes wifi t2 (e1 id) (λ q. (e2 ∷ [], q, check_frame e id ∷ []))
      × TickDoes wifi t3 e2 (λ q. ([], q, deregister_frame e ∷ []))
silent-removed wifi t0 r t t1 t1' t2 t3 id e free early due early' late later =
    let e0 = rearm t0 r e in
    let e1 = waiting wifi t1 id 1 e0 in
    (
      TickDoes-intro wifi t e0 _ (tick-early wifi t0 r t e free early),
      TickDoes-intro wifi t1 e0 _ (tick-due wifi t0 r t1 e free due),
      TickDoes-intro wifi t1' e1 _ (tick-waiting wifi t0 r t1 t1' id e free early'),
      TickDoes-intro wifi t2 e1 _ (tick-late wifi t0 r t1 t2 id e free late),
      TickDoes-intro wifi t3 (waiting wifi t2 id 2 e0) _
          (tick-gone wifi t0 r t2 t3 id e free later),
    )

-- A reply to the pending check, with the sequence ID of the check, from the entity that was
-- checked, arms its timers as a command from it does; one with another sequence ID, or when no
-- check is pending, changes nothing.
pub replied-lem :
    (wifi : Bool) (now t r seq seq_id : ℕ) (e : Controller)
    → let e1 = (send_check wifi t seq e).1 in
      (replied now r e1.check_seq_id e.entity_id (e1 ∷ []) ≡ rearm now r e1 ∷ [])
      × (seq_id ≢ e1.check_seq_id → replied now r seq_id e.entity_id (e1 ∷ []) ≡ e1 ∷ [])
      × (e.reply_due_us ≡ 0 → replied now r seq_id e.entity_id (e ∷ []) ≡ e ∷ [])
unfolding replied send_check
replied-lem wifi now t r seq seq_id e = ground arith

-- A time-limited registration is kept by a tick less than 300 s after it and removed with a
-- DEREGISTER by a tick from then on, on a Milan entity or not; on an entity that is not Milan a
-- registration without the limit is never removed by a tick.
pub time_limit :
    (milan wifi : Bool) (t0 r now seq : ℕ) (e : Controller)
    → let limited = refresh t0 r true e in
      let free = refresh t0 r false e in
      (now < t0 + 300000000
        → registrations_tick false wifi now seq (limited ∷ []) ≡ (limited ∷ [], seq, []))
      × (t0 + 300000000 ≤ now
          → registrations_tick milan wifi now seq (limited ∷ [])
            ≡ ([], seq, (send_deregister limited).1))
      × (registrations_tick false wifi now seq (free ∷ []) ≡ (free ∷ [], seq, []))
unfolding refresh rearm registrations_tick tick_entry fate_of
time_limit milan wifi t0 r now seq e = ground arith
