-- ===== src/Atdecc/Holder.antt =====
-- A controller that locks the entity keeps it for the lock's time.
use esp_avb.Prelude.{
  ℕ, ◌+◌, ◌≤◌, ◌≡◌, refl, ap, ◌∙◌, arith, Bool, true, false, not, ◌&&◌, List, [], ◌∷◌, ◌==◌, inl,
  inr, Bool-cases, ltb, leb, if◌then◌else◌,
}
use esp_avb.Unsol.{State, Frame}
use esp_avb.Unsol.Tick.{lock_tick}
use esp_avb.Atdecc.{
  Entity, AcquireCommand, acquire_step, process_acquire_entity, acquired_or_locked_by_other,
  LockCommand, lock_timeout_us, desc_type_entity, aecp_entity_locked, is_owner, lock_status,
  is_success, lock_step, AecpStatus, same_flag, process_lock_entity,
}

-- What happens to the entity: LOCK_ENTITY, ACQUIRE_ENTITY (with whether its response goes out), and
-- the tick of the lock
pub data Op : Type 0 where
  op_lock : (now : ℕ) (octets : List ℕ) (c : LockCommand) → Op
  op_acquire : (now random : ℕ) (octets : List ℕ) (sends : Bool) (c : AcquireCommand) → Op
  op_tick : (now : ℕ) → Op

unfoldable pub after : Op → Entity → Entity
after (op_lock now octets c) e = record e { base = (process_lock_entity now octets e.base c).0 }
after (op_acquire now random octets sends c) e =
    (process_acquire_entity now random octets sends e c).0
after (op_tick now) e = record e { base = (lock_tick now e.base).0 }

unfoldable pub after_all : List Op → Entity → Entity
unfolding after
after_all [] e = e
after_all (op ∷ ops) e = after_all ops (after op e)

-- The time is in the 60 s before `expires`.
unfoldable pub in_time : ℕ → ℕ → Bool
in_time expires now = ltb now expires && leb expires (now + lock_timeout_us)

-- In the time of the lock, and no unlock from its holder
unfoldable pub leaves_lock : ℕ → ℕ → Op → Bool
unfolding in_time
leaves_lock id expires (op_lock now octets c) =
    in_time expires now && not (c.controller_id == id && c.unlock)
leaves_lock id expires (op_acquire now random octets sends c) = in_time expires now
leaves_lock id expires (op_tick now) = in_time expires now

unfoldable pub all_leave : ℕ → ℕ → List Op → Bool
unfolding leaves_lock
all_leave id expires [] = true
all_leave id expires (op ∷ ops) = leaves_lock id expires op && all_leave id expires ops

-- The lock is held by `id` until `expires` at least.
unfoldable pub held_by : ℕ → ℕ → State → Bool
held_by id expires s = s.locked && s.locked_by == id && leb expires s.lock_expires_us

lock_step-held_by :
    (id expires now : ℕ) (s : State) (octets : List ℕ) (c : LockCommand)
    → held_by id expires s ≡ true
    → leaves_lock id expires (op_lock now octets c) ≡ true
    → held_by id expires (lock_step now s c) ≡ true
unfolding held_by leaves_lock lock_step is_owner lock_status is_success
lock_step-held_by id expires now s octets c h l = ground arith

process_lock_entity-held_by :
    (id expires now : ℕ) (s : State) (octets : List ℕ) (c : LockCommand)
    → held_by id expires (lock_step now s c) ≡ true
    → held_by id expires (process_lock_entity now octets s c).0 ≡ true
unfolding held_by process_lock_entity
process_lock_entity-held_by id expires now s octets c kept =
    elim (Bool-cases
      (is_success (lock_status s c) && not (same_flag s.locked (lock_step now s c).locked))) [
        | inl told ↦ rw (process_lock_entity, told) kept
        | inr untold ↦ rw (process_lock_entity, untold) kept
      ]

lock_tick-held_by :
    (id expires now : ℕ) (s : State)
    → held_by id expires s ≡ true
    → in_time expires now ≡ true
    → held_by id expires (lock_tick now s).0 ≡ true
unfolding held_by in_time lock_tick
lock_tick-held_by id expires now s h l = ground arith

acquire_step-held_by :
    (id expires now random : ℕ) (e : Entity) (c : AcquireCommand)
    → held_by id expires (acquire_step now random e c).base ≡ held_by id expires e.base
unfolding held_by acquire_step
acquire_step-held_by id expires now random e c = ground arith

either-held_by :
    (id expires : ℕ) (h b : Bool) (x y : Entity × AecpStatus × List Frame)
    → held_by id expires x.0.base ≡ h
    → held_by id expires y.0.base ≡ h
    → held_by id expires (if b then x else y).0.base ≡ h
either-held_by id expires h true x y p q = p
either-held_by id expires h false x y p q = q

process_acquire_entity-held_by :
    (id expires now random : ℕ) (octets : List ℕ) (sends : Bool) (e : Entity) (c : AcquireCommand)
    → held_by id expires (process_acquire_entity now random octets sends e c).0.base
      ≡ held_by id expires e.base
unfolding held_by process_acquire_entity
process_acquire_entity-held_by id expires now random octets sends e c =
    let step = acquire_step-held_by id expires now random e c in
    let h = held_by id expires e.base in
    either-held_by id expires h e.base.milan_compliant _ _ refl (
      either-held_by id expires h (not sends) _ _ refl (
        either-held_by id expires h (same_flag e.acquired (acquire_step now random e c).acquired) _
          _ step step))

after-held_by :
    (id expires : ℕ) (op : Op) (e : Entity)
    → held_by id expires e.base ≡ true
    → leaves_lock id expires op ≡ true
    → held_by id expires (after op e).base ≡ true
unfolding after leaves_lock
after-held_by id expires (op_lock now octets c) e h l =
    process_lock_entity-held_by id expires now e.base octets c
      (lock_step-held_by id expires now e.base octets c h l)
after-held_by id expires (op_acquire now random octets sends c) e h l =
    process_acquire_entity-held_by id expires now random octets sends e c ∙ h
after-held_by id expires (op_tick now) e h l = lock_tick-held_by id expires now e.base h l

after_all-held_by :
    (id expires : ℕ) (ops : List Op) (e : Entity)
    → held_by id expires e.base ≡ true
    → all_leave id expires ops ≡ true
    → held_by id expires (after_all ops e).base ≡ true
unfolding after_all all_leave
after_all-held_by id expires [] e h l = h
after_all-held_by id expires (op ∷ ops) e h l =
    after_all-held_by id expires ops (after op e) (after-held_by id expires op e h (ground arith))
      (ground arith)

lock_status-other :
    (t : State) (c : LockCommand)
    → t.locked ≡ true
    → (c.controller_id == t.locked_by) ≡ false
    → c.descriptor_type ≡ desc_type_entity
    → lock_status t c ≡ aecp_entity_locked
unfolding lock_status is_owner
lock_status-other t c locked other entity = ground arith

process_lock_entity-refused :
    (t : State) (now : ℕ) (octets : List ℕ) (c : LockCommand)
    → lock_status t c ≡ aecp_entity_locked
    → process_lock_entity now octets t c
      ≡ (t, record { status = aecp_entity_locked; locked_id = t.locked_by }, [])
unfolding process_lock_entity lock_step is_success
process_lock_entity-refused t now octets c st = rw (process_lock_entity, lock_step, st) refl

acquired_or_locked_by_other-other :
    (e : Entity) (id : ℕ)
    → e.base.locked ≡ true
    → (e.base.locked_by == id) ≡ false
    → acquired_or_locked_by_other e id ≡ true
unfolding acquired_or_locked_by_other
acquired_or_locked_by_other-other e id locked other = ground arith

-- From a locked entity, through any LOCK_ENTITY and ACQUIRE_ENTITY commands of any controllers and
-- any ticks of the lock, all within the 60 s of the lock and none an unlock by its holder: the
-- holder still has the lock, for as long at least; the check that the connection commands make
-- refuses any other controller; and another one that then asks to lock or unlock the entity gets
-- ENTITY_LOCKED with the holder's ID, changes nothing and has nothing sent.
pub lock_kept :
    (ops : List Op) (e : Entity) (now : ℕ) (octets : List ℕ) (c : LockCommand)
    → e.base.locked ≡ true
    → all_leave e.base.locked_by e.base.lock_expires_us ops ≡ true
    → (c.controller_id == e.base.locked_by) ≡ false
    → c.descriptor_type ≡ desc_type_entity
    → let t = after_all ops e in
      (t.base.locked ≡ true)
      × (t.base.locked_by ≡ e.base.locked_by)
      × (e.base.lock_expires_us ≤ t.base.lock_expires_us)
      × (acquired_or_locked_by_other t c.controller_id ≡ true)
      × (process_lock_entity now octets t.base c
          ≡ (t.base, record { status = aecp_entity_locked; locked_id = e.base.locked_by }, []))
unfolding held_by
lock_kept ops e now octets c locked quiet other entity =
    let t = after_all ops e in
    let h = after_all-held_by e.base.locked_by e.base.lock_expires_us ops e (ground arith) quiet in
    let by : t.base.locked_by ≡ e.base.locked_by = ground arith in
    let still : t.base.locked ≡ true = ground arith in
    (
      still,
      by,
      ground arith,
      acquired_or_locked_by_other-other t c.controller_id still (ground (arith, by, other)),
      process_lock_entity-refused t.base now octets c
            (lock_status-other t.base c still (rw by other) entity)
          ∙ ap (λ id. (t.base, record { status = aecp_entity_locked; locked_id = id }, [])) by,
    )
