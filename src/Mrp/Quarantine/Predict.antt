-- ===== src/Mrp/Quarantine/Predict.antt =====
-- `mrp_talker_advertise_change_waits` foretells what the declaration itself will do.
use esp_avb.Prelude.{ℕ, ◌+◌, ◌≡◌, Bool, true, false, [], ◌∷◌, if◌then◌else◌}
use esp_avb.Mrp.Attributes.{TalkerEntry}
use esp_avb.Mrp.Quarantine.{
  TalkerInfo, info, value_shrinks, value_change_holdoff_us, value_shrink_holdoff_us, Outcome,
}

-- The time that a change waits at most
change_time : Bool → ℕ → TalkerInfo → TalkerInfo → ℕ
change_time bridge now old new =
    now
    + (if value_shrinks old new then value_shrink_holdoff_us else value_change_holdoff_us bridge)

-- The old value goes out twice as leaving, and the entry takes the new one and is held.
abbrev pub Withdrawn : TalkerEntry → TalkerInfo → ℕ → Outcome → Type 0
Withdrawn e fresh after out =
    (out.leaves ≡ info e ∷ info e ∷ [])
    × (out.declares ≡ false)
    × (info out.entry ≡ fresh)
    × (out.entry.redeclare_after_us ≡ after)
    × (out.entry.declare_held ≡ true)
