-- ===== src/Src/Runs.antt =====
-- A run reads exactly the input frames that `avb_src_inputs` announces, each once and in order.
use esp_avb.Prelude.{
  ℕ, zero, suc, ◌+◌, ◌-◌, ◌≤◌, ◌≡◌, refl, ap, arith, List, [], ◌∷◌, ◌++◌, Option, some,
  if◌then◌else◌, lt→ltb,
}
use esp_avb.Prelude.Int.{ℤ}
use esp_avb.Src.{Position, output, inputs_loop, src_inputs, pushes, began, run_loop, src_run}

-- The frames of the input from number `i` on
pub frames_from : ℕ → ℕ → List (Option ℕ)
frames_from i zero = []
frames_from i (suc n) = some i ∷ frames_from (i + 1) n

frames_from-append :
    (i n m j k : ℕ) → i + n ≡ j → n + m ≡ k → frames_from i n ++ frames_from j m ≡ frames_from i k
unfolding frames_from
frames_from-append i zero m j k h g =
    let start : j ≡ i = omega arith in let all : k ≡ m = omega arith in rw (start, all) refl
frames_from-append i (suc n) m j k h g =
    let all : k ≡ suc (n + m) = omega arith in
    rw all (ap (◌∷◌ (some i)) (frames_from-append (i + 1) n m j (n + m) (omega arith) refl))

pushes-lem :
    (in_frames n used : ℕ)
    → used + n ≤ in_frames
    → pushes in_frames n used ≡ (frames_from used n, used + n)
unfolding pushes frames_from
pushes-lem in_frames zero used h = ground arith
pushes-lem in_frames (suc n) used h =
    ground
      (arith, pushes-lem in_frames n (used + 1) (omega arith), lt→ltb used in_frames (omega arith))

inputs_loop-ge :
    (rate : ℤ) (n : ℕ) (p : Position) (inputs : ℕ) → inputs ≤ inputs_loop rate n p inputs
unfolding inputs_loop
inputs_loop-ge rate zero p inputs = omega arith
inputs_loop-ge rate (suc n) p inputs =
    let (p', taken, step) = output rate p in
    omega (arith, inputs_loop-ge rate n p' (inputs + taken))

run_loop-reads :
    (rate : ℤ) (in_frames n : ℕ) (p : Position) (walks used : ℕ)
    → inputs_loop rate n p used ≤ in_frames
    → ((run_loop rate in_frames n p walks used).used ≡ inputs_loop rate n p used)
      × ((run_loop rate in_frames n p walks used).pushed
          ≡ frames_from used (inputs_loop rate n p used - used))
unfolding run_loop inputs_loop frames_from
run_loop-reads rate in_frames zero p walks used h =
    (refl, let none_left : used - used ≡ 0 = omega arith in rw none_left refl)
run_loop-reads rate in_frames (suc n) p walks used h =
    let (p', taken, step) = output rate p in
    let more = inputs_loop-ge rate n p' (used + taken) in
    let now = pushes-lem in_frames taken used (omega (arith, more)) in
    let (last, rest) =
      run_loop-reads rate in_frames n p' (if began p step then walks + 1 else walks) (used + taken)
        h in
    rw now (
      last,
      rw rest (
          frames_from-append used taken (inputs_loop rate n p' (used + taken) - (used + taken))
            (used + taken) (inputs_loop rate n p' (used + taken) - used) refl
            (omega (arith, more))),
    )

-- Given as many input frames as `avb_src_inputs` announces for the same position, number of outputs
-- and rate, a run pushes each of them once, in order, and no silence, and it has then used them all.
pub src_run-reads :
    (p : Position) (out_frames : ℕ) (rate : ℤ)
    → let in_frames = src_inputs p out_frames rate in
      let ran = src_run p in_frames out_frames rate in
      (ran.used ≡ in_frames) × (ran.pushed ≡ frames_from 0 in_frames)
unfolding src_run src_inputs
src_run-reads p out_frames rate =
    let total = inputs_loop rate out_frames p 0 in
    let all : total - 0 ≡ total = omega arith in
    let (last, read) = run_loop-reads rate total out_frames p 0 0 (omega arith) in
    (last, rw all at read)
