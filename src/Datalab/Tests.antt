-- ===== src/Datalab/Tests.antt =====
-- The puzzles of datalab/bits.c at concrete inputs.
use cs_app_labs.Prelude.{
  ◌+◌, ◌-◌, ◌*◌, ◌/◌, ◌^◌, ◌≤◌, ◌<◌, ◌≡◌, ◌↔◌, ◌⊎◌, refl, true, not, ◌&&◌, ltb, leb, if◌then◌else◌,
  arith, bit_xor,
}
use cs_app_labs.Prelude.Int.{pos, negsuc, ◌+ℤ◌, ltb_ℤ, ◌≤ℤ◌, pos_part}
use cs_app_labs.Datalab.Int32.{truth, lnot, signed32}
use cs_app_labs.Datalab.Puzzles.{
  bitwise_xor, tmin, all_odd_bits, negate, is_ascii_digit, is_less_or_equal, logical_neg,
  how_many_bits,
}
use cs_app_labs.Datalab.Floats.{float_scale2, float_float2int, float_power2, with_sign}
use cs_app_labs.Datalab.Logic.{
  bitwise_xor_lem, is_less_or_equal_lem, is_ascii_digit_lem, logical_neg_lem,
}
use cs_app_labs.Datalab.Masks.{HasOddOnes, all_odd_bits_lem}
use cs_app_labs.Datalab.FloatLaws.{exponent_of, sign_of, magnitude, float_scale2_lem}
use cs_app_labs.Datalab.FloatInts.{float_float2int_lem, float_power2_lem}
use cs_app_labs.Datalab.HowMany.{Fits, how_many_bits_lem}

bitwise_xor_lem_example : bitwise_xor 4 5 ≡ bit_xor 4 5
bitwise_xor_lem_example = bitwise_xor_lem 4 5 (omega arith) (omega arith)

-- The difference of the greatest and the least number overflows.
is_less_or_equal_lem_example :
    is_less_or_equal (2 ^ 31) (2 ^ 31 - 1)
    ≡ truth (not (ltb_ℤ (signed32 (2 ^ 31 - 1)) (signed32 (2 ^ 31))))
is_less_or_equal_lem_example =
    is_less_or_equal_lem (2 ^ 31) (2 ^ 31 - 1) (omega arith) (omega arith)

is_ascii_digit_lem_example : is_ascii_digit 0x35 ≡ truth (leb b'0' 0x35 && leb 0x35 b'9')
is_ascii_digit_lem_example = is_ascii_digit_lem 0x35 (omega arith)

logical_neg_lem_example : logical_neg 3 ≡ lnot 3
logical_neg_lem_example = logical_neg_lem 3 (omega arith)

all_odd_bits_lem_example :
    (HasOddOnes 16 0xAAAAAAAA ↔ (all_odd_bits 0xAAAAAAAA ≡ 1)) × (all_odd_bits 0xAAAAAAAA ≤ 1)
all_odd_bits_lem_example = all_odd_bits_lem 0xAAAAAAAA

-- A denormalised number whose double is normalised.
float_scale2_lem_example :
    ((exponent_of 0x00400000 ≡ 255) × (float_scale2 0x00400000 ≡ 0x00400000))
    ⊎ ((exponent_of 0x00400000 ≡ 254)
        × (float_scale2 0x00400000 ≡ sign_of 0x00400000 * 2 ^ 31 + 255 * 2 ^ 23))
    ⊎ ((exponent_of 0x00400000 < 254)
        × (exponent_of (float_scale2 0x00400000) < 255)
        × (sign_of (float_scale2 0x00400000) ≡ sign_of 0x00400000)
        × (magnitude (float_scale2 0x00400000) ≡ 2 * magnitude 0x00400000))
float_scale2_lem_example = float_scale2_lem 0x00400000 (omega arith)

-- -2.5 becomes -2.
float_float2int_lem_example : float_float2int 0xc0200000 ≡ (
    if ltb 157 (exponent_of 0xc0200000)
    then 2 ^ 31
    else with_sign 0xc0200000 (magnitude 0xc0200000 / 2 ^ 149))
float_float2int_lem_example = float_float2int_lem 0xc0200000 (omega arith)

float_power2_lem_example :
    ((ltb_ℤ (pos 127) (signed32 3) ≡ true) × (float_power2 3 ≡ 255 * 2 ^ 23))
    ⊎ ((ltb_ℤ (signed32 3) (negsuc 148) ≡ true) × (float_power2 3 ≡ 0))
    ⊎ ((negsuc 148 ≤ℤ signed32 3)
        × (signed32 3 ≤ℤ pos 127)
        × (float_power2 3 < 255 * 2 ^ 23)
        × (magnitude (float_power2 3) ≡ 2 ^ pos_part (signed32 3 +ℤ pos 149)))
float_power2_lem_example = float_power2_lem 3 (omega arith)

how_many_bits_lem_example : Fits 10 (signed32 298) ↔ (how_many_bits 298 ≤ 10)
how_many_bits_lem_example = how_many_bits_lem 298 10 (omega arith) (omega arith)

least_number : negate tmin ≡ tmin
unfolding negate
least_number = refl

half_of_three : float_float2int 0x3fc00000 ≡ 1
unfolding float_float2int
half_of_three = refl
