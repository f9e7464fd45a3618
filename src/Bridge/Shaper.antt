-- ===== src/Bridge/Shaper.antt =====
-- The credit-based shaper of avbfqtss.c: per port and class a credit and a queue of frames.
-- Credits are in bytes times 256. Frames are their length and payload; the heap that holds the
-- copies is not modelled, and whether `malloc` succeeds is an argument.
use esp_avb.Prelude.{
  ℕ, zero, suc, ◌*◌, Bool, false, not, ◌&&◌, ◌||◌, List, [], ◌∷◌, ◌++◌, Option, none, some, map,
  if◌then◌else◌, ◌==◌, ltb, length, get_elem?, set,
}
use esp_avb.Prelude.Int.{ℤ, pos, negsuc, ◌+ℤ◌, ◌-ℤ◌, ◌*ℤ◌, ltb_ℤ, div_ℤ}
use esp_avb.Bridge.{SrClass, PerClass, get_class, set_class}

abbrev pub mtu_bytes : ℕ
mtu_bytes = 1518

abbrev pub queue_depth : ℕ
queue_depth = 64

-- `fqtss_frame_t`
pub record Frame : Type 0 where
  pub port_index : ℕ
  pub sr_class : SrClass
  pub length_bytes : ℕ
  pub payload : List ℕ

-- `fqtss_class_state_t`; the head of `queue` is the oldest frame.
pub record ClassState : Type 0 where
  pub idle_slope_bps : ℤ
  pub link_rate_bps : ℤ
  pub credit_max : ℤ
  pub credit_min : ℤ
  pub credit : ℤ
  pub last_tick_us : ℕ
  pub queue : List Frame

-- `s_class`, by port
abbrev pub Shaper : Type 0
Shaper = List (PerClass ClassState)

-- The clamps to `credit_max` and to `credit_min`
unfoldable pub clamp_max : ℤ → ℤ → ℤ
clamp_max m x = if ltb_ℤ m x then m else x

unfoldable pub clamp_min : ℤ → ℤ → ℤ
clamp_min m x = if ltb_ℤ x m then m else x

-- `fqtss_credit_advance`
unfoldable pub credit_advance : ClassState → ℕ → ClassState
unfolding clamp_max
credit_advance c dt_us = record c {
  credit = clamp_max c.credit_max (c.credit +ℤ div_ℤ (c.idle_slope_bps *ℤ pos dt_us) 31250);
}

-- The tail of `fqtss_try_send_one` for the frame at the head of the queue
unfoldable pub send : ClassState → Frame → List Frame → ClassState
unfolding clamp_min
send c frame rest = record c {
  credit = clamp_min c.credit_min (c.credit -ℤ pos (frame.length_bytes * 256));
  queue = rest;
}

unfoldable pub try_send_from : ClassState → List Frame → ClassState × Option Frame
unfolding send
try_send_from c [] = (c, none)
try_send_from c (frame ∷ rest) =
    if ltb_ℤ c.credit (pos 0) then (c, none) else (send c frame rest, some frame)

-- `fqtss_try_send_one`, with the frame that it takes from the queue for its result 1. The code counts
-- the frame as sent, but its egress is a stub that frees the payload: no frame reaches the port.
unfoldable pub try_send_one : ClassState → ClassState × Option Frame
unfolding try_send_from
try_send_one c = try_send_from c c.queue

-- `while (fqtss_try_send_one(p, cl))` in `fqtss_worker`, on fuel: the frames taken, in order
unfoldable pub drain : ℕ → ClassState → ClassState × List Frame
drain zero c = (c, [])
drain (suc fuel) c =
    let (c', taken) = try_send_one c in
    elim taken [
      | none ↦ (c', [])
      | some frame ↦ let (c'', frames) = drain fuel c' in (c'', frame ∷ frames)
    ]

-- One class in a round of `fqtss_worker`
unfoldable pub worker_class : ℕ → ClassState → ClassState × List Frame
unfolding credit_advance
worker_class dt c = drain (suc (length c.queue)) (credit_advance c dt)

unfoldable pub worker_port : ℕ → PerClass ClassState → PerClass ClassState
unfolding worker_class
worker_port dt p = record { of_a = (worker_class dt p.of_a).0; of_b = (worker_class dt p.of_b).0 }

-- A round of `fqtss_worker` over all ports and classes
unfoldable pub worker_round : ℕ → Shaper → Shaper
unfolding worker_port
worker_round dt s = map (worker_port dt) s

-- One class in `avb_fqtss_init`, where the queue is created
unfoldable pub class_init : Bool → ℕ → ClassState
class_init wired now = record {
  idle_slope_bps = pos 0;
  link_rate_bps = if wired then pos 1_000_000_000 else pos 0;
  credit_max = pos (mtu_bytes * 256);
  credit_min = pos 0 -ℤ pos (mtu_bytes * 256);
  credit = pos 0;
  last_tick_us = now;
  queue = [];
}

-- `avb_fqtss_init` where every `xQueueCreate` succeeds: whether each port is wired
unfoldable pub init : List Bool → ℕ → Shaper
unfolding class_init
init [] now = []
init (wired ∷ ports) now =
    record { of_a = class_init wired now; of_b = class_init wired now } ∷ init ports now

-- Results of the operations, as the source numbers them
pub data Status : Type 0 where
  accepted bad_arg no_bandwidth queue_full : Status

-- `xQueueSend` on a queue of `queue_depth` frames
unfoldable pub queue_send : ClassState → Frame → Option ClassState
queue_send c f =
    if ltb (length c.queue) queue_depth then some (record c { queue = c.queue ++ f ∷ [] }) else none

-- `idle_slope_bps == 0`
unfoldable pub is_zero : ℤ → Bool
is_zero (pos n) = n == 0
is_zero (negsuc n) = false

-- `avb_fqtss_enqueue` for a class that exists
unfoldable pub enqueue_class : Bool → ClassState → Frame → ClassState × Status
unfolding queue_send is_zero
enqueue_class malloc_ok c f =
    if is_zero c.idle_slope_bps
    then (c, no_bandwidth)
    else if not malloc_ok
    then (c, bad_arg)
    else elim (queue_send c f) [ none ↦ (c, queue_full) | some c' ↦ (c', accepted) ]

update_class : Shaper → ℕ → SrClass → (PerClass ClassState → ClassState × Status) → Shaper × Status
update_class s p cls f = elim (get_elem? s p) [
  | none ↦ (s, bad_arg)
  | some t ↦ let (c, status) = f t in (set s p (set_class t cls c), status)
]

-- `avb_fqtss_enqueue`
unfoldable pub enqueue : Bool → Shaper → ℕ → SrClass → List ℕ → Shaper × Status
unfolding enqueue_class update_class
enqueue malloc_ok s port_index sr_class frame =
    if length frame == 0 || ltb mtu_bytes (length frame)
    then (s, bad_arg)
    else update_class s port_index sr_class λ t.
      enqueue_class malloc_ok (get_class t sr_class) (record {
        port_index = port_index;
        sr_class = sr_class;
        length_bytes = length frame;
        payload = frame;
      })

-- `avb_fqtss_set_idle_slope` for a class that exists
unfoldable pub set_slope_class : ClassState → ℤ → ClassState × Status
set_slope_class c slope =
    if ltb_ℤ (pos 0) c.link_rate_bps && ltb_ℤ c.link_rate_bps slope
    then (c, bad_arg)
    else (record c { idle_slope_bps = slope }, accepted)

-- `avb_fqtss_set_idle_slope`
unfoldable pub set_idle_slope : Shaper → ℕ → SrClass → ℤ → Shaper × Status
unfolding set_slope_class update_class
set_idle_slope s port_index sr_class slope =
    update_class s port_index sr_class λ t. set_slope_class (get_class t sr_class) slope

-- `avb_fqtss_set_link_rate`
unfoldable pub set_link_rate : Shaper → ℕ → ℤ → Shaper × Status
set_link_rate s port_index rate = elim (get_elem? s port_index) [
  | none ↦ (s, bad_arg)
  | some t ↦ if ltb_ℤ rate (pos 0) then (s, bad_arg) else (
    set s port_index (record {
      of_a = record t.of_a { link_rate_bps = rate };
      of_b = record t.of_b { link_rate_bps = rate };
    }),
    accepted,
  )
]
