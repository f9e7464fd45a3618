-- ===== src/Src.antt =====
-- The position arithmetic of the sample-rate converter (avbsrc.c): how many input frames an output
-- takes, the walks that pay whole frames, and the order in which a run reads its input. Positions
-- and debts are in units of 2^-32 frames (Q32). The filter's coefficients are floating point and are
-- not modelled.
pub mod Balance
pub mod Ratio
pub mod Runs
mod Tests
use esp_avb.Prelude.{
  ℕ, zero, suc, ◌+◌, ◌-◌, ◌*◌, ◌/◌, ◌%◌, ◌^◌, Bool, true, false, not, ◌&&◌, ◌||◌, List, [], ◌∷◌,
  ◌++◌, Option, none, some, if◌then◌else◌, ◌==◌, ltb,
}
use esp_avb.Prelude.Int.{ℤ, pos, negsuc, pos_part, neg_part, ◌+ℤ◌, ◌-ℤ◌, ltb_ℤ}

-- `SRC_ONE`, `AVB_SRC_WALK_FRAMES` and the length of a walk's step
abbrev pub src_one : ℕ
src_one = 4294967296

abbrev pub walk_frames : ℕ
walk_frames = 4096

abbrev pub walk_unit : ℕ
walk_unit = 1048576

-- `avb_src_pos_s`
pub record Position : Type 0 where
  pub frac : ℕ
  pub owed : ℤ
  pub walk_step : ℤ
  pub walk_left : ℕ
  pub extra : ℤ

-- The number -n
abbrev pub minus : ℕ → ℤ
minus zero = pos 0
minus (suc n) = negsuc n

-- The limits of `owed` in `src_next_step`
unfoldable pub clamp : ℤ → ℤ
clamp owed =
    if ltb_ℤ (pos 17179869184) owed
    then pos 17179869184
    else if ltb_ℤ owed (negsuc 17179869183)
    then negsuc 17179869183
    else owed

-- `walk_step` of a walk, by its sign
unfoldable pub walk_of : Bool → ℤ
walk_of true = pos 1048576
walk_of false = negsuc 1048575

-- A walk begins, and takes its first step.
unfoldable pub begin_walk : Bool → Position → Position × ℤ
unfolding walk_of
begin_walk up p = (record p { walk_step = walk_of up; walk_left = 4095 }, walk_of up)

-- Between walks: a walk begins for a whole frame that is owed, or for one that is asked for.
unfoldable pub pay : Position → Position × ℤ
unfolding begin_walk
pay p =
    if not (ltb_ℤ p.owed (pos 4294967296))
    then begin_walk true (record p { owed = p.owed -ℤ pos 4294967296 })
    else if not (ltb_ℤ (negsuc 4294967295) p.owed)
    then begin_walk false (record p { owed = p.owed +ℤ pos 4294967296 })
    else if ltb_ℤ (pos 0) p.extra
    then begin_walk true (record p { extra = p.extra -ℤ pos 1 })
    else if ltb_ℤ p.extra (pos 0)
    then begin_walk false (record p { extra = p.extra +ℤ pos 1 })
    else (p, pos 0)

-- `src_next_step`: the position's debts after it, and the change of the position
unfoldable pub next_step : Position → ℤ → Position × ℤ
unfolding clamp pay
next_step p0 rate =
    let p : Position = record p0 { owed = clamp (p0.owed +ℤ rate) } in
    if not (p.walk_left == 0)
    then (record p { walk_left = p.walk_left - 1 }, p.walk_step)
    else pay p

-- `next` in `src_advance`: it is never negative, as a step is above -1.
unfoldable pub advanced : Position → ℤ → ℕ
advanced p step = p.frac + 4294967296 + pos_part step - neg_part step

-- `src_advance`: the position, and the inputs that the output takes
unfoldable pub src_advance : Position → ℤ → Position × ℕ
unfolding advanced
src_advance p step =
    (record p { frac = advanced p step % 4294967296 }, advanced p step / 4294967296)

-- One output: the position after it, its inputs, and its step
unfoldable pub output : ℤ → Position → Position × ℕ × ℤ
unfolding next_step src_advance
output rate p =
    let (p1, step) = next_step p rate in let (p2, taken) = src_advance p1 step in (p2, taken, step)

-- `avb_src_owe`
unfoldable pub owe : ℤ → Position → Position
owe frames p = record p { extra = p.extra +ℤ frames }

-- The loop of `avb_src_inputs`, with the inputs so far
unfoldable pub inputs_loop : ℤ → ℕ → Position → ℕ → ℕ
inputs_loop rate zero p inputs = inputs
inputs_loop rate (suc n) p inputs =
    let (p', taken, step) = output rate p in inputs_loop rate n p' (inputs + taken)

-- `avb_src_inputs`
unfoldable pub src_inputs : Position → ℕ → ℤ → ℕ
unfolding inputs_loop
src_inputs p out_frames rate = inputs_loop rate out_frames p 0

-- The pushes of one output in `avb_src_run`: each the index of an input frame, or `none` for the
-- silence that stands in for a frame past `in_frames`; with `used` after them.
unfoldable pub pushes : ℕ → ℕ → ℕ → List (Option ℕ) × ℕ
pushes in_frames zero used = ([], used)
pushes in_frames (suc n) used =
    let (rest, used') = pushes in_frames n (used + 1) in
    ((if ltb used in_frames then some used else none) ∷ rest, used')

-- Whether a walk began at an output: `walk_was_idle && step != 0`
unfoldable pub began : Position → ℤ → Bool
began p step = p.walk_left == 0 && not (pos_part step == 0 && neg_part step == 0)

-- What a run of outputs leaves: the position, the walks counted, the frames pushed, and `used`
pub record Ran : Type 0 where
  pub position : Position
  pub walks : ℕ
  pub pushed : List (Option ℕ)
  pub used : ℕ

-- The loop of `avb_src_run` over the outputs, without the filter
unfoldable pub run_loop : ℤ → ℕ → ℕ → Position → ℕ → ℕ → Ran
run_loop rate in_frames zero p walks used = record {
  position = p;
  walks = walks;
  pushed = [];
  used = used;
}
run_loop rate in_frames (suc n) p walks used =
    let (p', taken, step) = output rate p in
    let (now, used') = pushes in_frames taken used in
    let rest = run_loop rate in_frames n p' (if began p step then walks + 1 else walks) used' in
    record rest { pushed = now ++ rest.pushed }

-- `avb_src_run`, without the filter
unfoldable pub src_run : Position → ℕ → ℕ → ℤ → Ran
unfolding run_loop
src_run p in_frames out_frames rate = run_loop rate in_frames out_frames p 0 0
