-- ===== src/Src/Tests.antt =====
-- Instances of what is proved of the converter.
use esp_avb.Prelude.{◌+◌, ◌*◌, ◌≡◌, inl, inr, refl, arith, [], ◌∷◌, none, some}
use esp_avb.Prelude.Int.{pos, ◌+ℤ◌, pos_part, neg_part}
use esp_avb.Src.{Position, src_inputs, src_run, output, pushes}
use esp_avb.Src.Balance.{Aligned, Steady, to_take, to_give}
use esp_avb.Src.Ratio.{src_run-balance}
use esp_avb.Src.Runs.{frames_from, src_run-reads}

-- In the last step of a walk, owing half a frame
abbrev walking : Position
walking = record {
  frac = 4293918720;
  owed = pos 2147483648;
  walk_step = pos 1048576;
  walk_left = 1;
  extra = pos 0;
}

-- The walk ends with the second input of the first output.
ends : src_inputs walking 3 (pos 1000) ≡ 4
unfolding src_inputs output ◌+ℤ◌
ends = refl

silence : (src_run walking 2 2 (pos 1000)).pushed ≡ some 0 ∷ some 1 ∷ none ∷ []
unfolding src_run output pushes ◌+ℤ◌
silence = refl

src_run-reads_example :
    ((src_run walking (src_inputs walking 3 (pos 1000)) 3 (pos 1000)).used
      ≡ src_inputs walking 3 (pos 1000))
    × ((src_run walking (src_inputs walking 3 (pos 1000)) 3 (pos 1000)).pushed
        ≡ frames_from 0 (src_inputs walking 3 (pos 1000)))
src_run-reads_example = src_run-reads walking 3 (pos 1000)

src_run-balance_example :
    let q = (src_run walking 4 3 (pos 1000)).position in
    Aligned q
    × Steady q
    × (4294967296 * src_inputs walking 3 (pos 1000)
          + q.frac
          + to_take q
          + to_give walking
          + 3 * neg_part (pos 1000)
        ≡ 4294967296 * 3 + walking.frac + to_take walking + to_give q + 3 * pos_part (pos 1000))
src_run-balance_example =
    src_run-balance (pos 1000) 4 3 walking (omega arith)
      (inr (inl (omega arith, omega arith, refl, omega arith))) (omega arith)
