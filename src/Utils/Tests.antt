-- ===== src/Utils/Tests.antt =====
-- Instances of what is proved of the helpers.
use esp_avb.Prelude.{◌+◌, ◌*◌, ◌<◌, ◌≡◌, ◌↔◌, refl, arith, [], ◌∷◌}
use esp_avb.Utils.{
  Timeval, timeval_add_ms, compare_timeval, before, octets_to_uint, int_to_octets, reverse_octets,
}
use esp_avb.Utils.Octets.{octets_to_uint-int_to_octets}
use esp_avb.Utils.Time.{micros, IsNormal, deadline_ahead}

octets_to_uint-int_to_octets_example : octets_to_uint (int_to_octets 100000 6) ≡ 100000
octets_to_uint-int_to_octets_example =
    octets_to_uint-int_to_octets 100000 6 (omega arith) (omega arith) (omega arith)

-- One octet is read as zero.
one_octet : octets_to_uint (7 ∷ []) ≡ 0
unfolding octets_to_uint
one_octet = refl

reversed : reverse_octets (1 ∷ 2 ∷ 3 ∷ 4 ∷ 5 ∷ []) ≡ 5 ∷ 4 ∷ 3 ∷ 2 ∷ 1 ∷ []
unfolding reverse_octets
reversed = refl

abbrev now : Timeval
now = record { tv_sec = 10; tv_usec = 999_000 }

deadline_ahead_example :
    IsNormal (timeval_add_ms now 250)
    × ((compare_timeval now (timeval_add_ms now 250) ≡ before)
        ↔ (micros now < micros now + 250 * 1000))
deadline_ahead_example = deadline_ahead now now 250 (omega arith) (omega arith)
