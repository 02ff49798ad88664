-- ===== src/Datalab/Floats.antt =====
-- The puzzles of datalab/bits.c on the bits of a single-precision number.
use cs_app_labs.Prelude.{
  ℕ, ◌+◌, ◌-◌, ◌/◌, ◌^◌, Bool, not, ltb, ◌==◌, if◌then◌else◌, bit_and, bit_or,
}
use cs_app_labs.Datalab.Int32.{u32, not32, add32, sub32, shl32}

abbrev pub exp_mask : ℕ
exp_mask = shl32 0xff 23

-- The mask of the fraction, as `floatScale2` and as `floatFloat2Int` build it.
abbrev pub frac_mask : ℕ
frac_mask = bit_or (bit_or (shl32 0x7f 16) (shl32 0xff 8)) 0xff

abbrev pub frac_mask_of_int : ℕ
frac_mask_of_int = not32 (add32 exp_mask (shl32 1 31))

-- `floatScale2`.
unfoldable pub float_scale2 : ℕ → ℕ
float_scale2 uf =
    let exponent = bit_and uf exp_mask / 2 ^ 23 in
    if exponent == 0xff
    then uf
    else if exponent == 0
    then add32 (bit_and uf (not32 frac_mask)) (shl32 (bit_and uf frac_mask) 1)
    else let uf' = add32 uf (shl32 1 23) in
      if exponent == 0xfe then bit_and uf' (not32 frac_mask) else uf'

-- `sign * n` for the `sign` that `1 - 2 * (uf >> 31)` gives: 1, or -1.
abbrev pub with_sign : (uf n : ℕ) → ℕ
with_sign uf n = if uf / 2 ^ 31 == 0 then n else sub32 0 n

-- `floatFloat2Int`. The exponents at which a shift count is negative return before the shift.
unfoldable pub float_float2int : ℕ → ℕ
float_float2int uf =
    let exponent = bit_and uf exp_mask / 2 ^ 23 in
    let normalized_fracture = add32 (bit_and uf frac_mask_of_int) (shl32 1 23) in
    if ltb exponent 126
    then 0
    else if ltb 157 exponent
    then shl32 1 31
    else if ltb exponent 151
    then with_sign uf (normalized_fracture / 2 ^ (150 - exponent))
    else shl32 (with_sign uf normalized_fracture) (exponent - 150)

-- `a < b` on two values of `int`.
abbrev pub less32 : ℕ → ℕ → Bool
less32 a b = ltb (u32 (a + 2 ^ 31)) (u32 (b + 2 ^ 31))

-- `floatPower2`. The constants are 127, -149, -126 and 149.
unfoldable pub float_power2 : ℕ → ℕ
float_power2 x =
    if less32 127 x
    then shl32 0xff 23
    else if less32 x (sub32 0 149)
    then 0
    else if not (less32 x (sub32 0 126))
    then shl32 (add32 x 127) 23
    else shl32 1 (add32 149 x)
