-- ===== src/Utils/Octets.antt =====
-- Numbers written as big-endian octets are read back.
use esp_avb.Prelude.{ℕ, zero, suc, ◌^◌, ◌≤◌, ◌<◌, ◌≡◌, arith}
use esp_avb.Utils.{octets_to_uint, int_to_octets}

-- A number of two to eight octets, written by `int_to_octets`, is the one that `octets_to_uint`
-- reads.
pub octets_to_uint-int_to_octets :
    (value size : ℕ)
    → 2 ≤ size
    → size ≤ 8
    → value < 256 ^ size
    → octets_to_uint (int_to_octets value size) ≡ value
unfolding octets_to_uint int_to_octets
octets_to_uint-int_to_octets value zero l h b = absurd (omega arith)
octets_to_uint-int_to_octets value (suc zero) l h b = absurd (omega arith)
octets_to_uint-int_to_octets value (suc (suc zero)) l h b = omega arith
octets_to_uint-int_to_octets value (suc (suc (suc zero))) l h b = omega arith
octets_to_uint-int_to_octets value (suc (suc (suc (suc zero)))) l h b = omega arith
octets_to_uint-int_to_octets value (suc (suc (suc (suc (suc zero))))) l h b = omega arith
octets_to_uint-int_to_octets value (suc (suc (suc (suc (suc (suc zero)))))) l h b = omega arith
octets_to_uint-int_to_octets value (suc (suc (suc (suc (suc (suc (suc zero))))))) l h b =
    omega arith
octets_to_uint-int_to_octets value (suc (suc (suc (suc (suc (suc (suc (suc zero)))))))) l h b =
    omega arith
octets_to_uint-int_to_octets value (suc (suc (suc (suc (suc (suc (suc (suc (suc n))))))))) l h b =
    absurd (omega arith)
