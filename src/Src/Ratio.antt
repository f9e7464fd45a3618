-- ===== src/Src/Ratio.antt =====
-- Over any number of outputs the converter keeps its ratio exactly.
use esp_avb.Prelude.{ℕ, zero, suc, ◌+◌, ◌*◌, ◌≡◌, arith, if◌then◌else◌}
use esp_avb.Prelude.Int.{ℤ, pos_part, neg_part}
use esp_avb.Src.{Position, output, inputs_loop, src_inputs, began, pushes, run_loop, src_run}
use esp_avb.Src.Balance.{Aligned, Steady, Slow, to_take, to_give, output-lem}

run_loop-balance :
    (rate : ℤ) (in_frames n : ℕ) (p : Position) (walks used inputs : ℕ)
    → Slow rate
    → Aligned p
    → Steady p
    → let q = (run_loop rate in_frames n p walks used).position in
      Aligned q
      × Steady q
      × (4294967296 * inputs_loop rate n p inputs
            + q.frac
            + to_take q
            + to_give p
            + n * neg_part rate
          ≡ 4294967296 * (inputs + n) + p.frac + to_take p + to_give q + n * pos_part rate)
unfolding run_loop inputs_loop
run_loop-balance rate in_frames zero p walks used inputs s a h = (a, h, omega arith)
run_loop-balance rate in_frames (suc n) p walks used inputs s a h =
    let (p', taken, step) = output rate p in
    let (a', h', one) = output-lem rate p s a h in
    let more = if began p step then walks + 1 else walks in
    let (a'', h'', rest) =
      run_loop-balance rate in_frames n p' more (pushes in_frames taken used).1 (inputs + taken) s
        a' h' in
    let down : suc n * neg_part rate ≡ n * neg_part rate + neg_part rate = grind arith in
    let up : suc n * pos_part rate ≡ n * pos_part rate + pos_part rate = grind arith in
    (a'', h'', omega (arith, one, rest, down, up))

-- At a rate within 244 ppm (2^20 / 2^32), from a position that is on an input or in a walk and owes
-- less than two frames, after any number of outputs the position is so again, and nothing was lost or
-- gained: the inputs that `avb_src_inputs` counts,
-- with the position and the debts, make exactly 1 + rate inputs for each output.
pub src_run-balance :
    (rate : ℤ) (in_frames n : ℕ) (p : Position)
    → Slow rate
    → Aligned p
    → Steady p
    → let q = (src_run p in_frames n rate).position in
      Aligned q
      × Steady q
      × (4294967296 * src_inputs p n rate + q.frac + to_take q + to_give p + n * neg_part rate
          ≡ 4294967296 * n + p.frac + to_take p + to_give q + n * pos_part rate)
unfolding src_run src_inputs
src_run-balance rate in_frames n p s a h =
    let (a', h', sum) = run_loop-balance rate in_frames n p 0 0 0 s a h in
    (a', h', omega (arith, sum))
