-- ===== src/Datalab/Puzzles.antt =====
-- The integer puzzles of datalab/bits.c, statement by statement.
use cs_app_labs.Prelude.{ℕ, bit_and, bit_or, bit_xor}
use cs_app_labs.Datalab.Int32.{not32, add32, shl32, sar32, lnot}

-- `bitXor`.
unfoldable pub bitwise_xor : ℕ → ℕ → ℕ
bitwise_xor x y =
    let left = not32 (bit_and x y) in
    let right = not32 (bit_and (not32 x) (not32 y)) in bit_and left right

-- `tmin`.
abbrev pub tmin : ℕ
tmin = shl32 1 31

-- `isTmax`.
unfoldable pub is_tmax : ℕ → ℕ
is_tmax x =
    let t_min = add32 x 1 in
    let minus_tmin = add32 (not32 t_min) 1 in lnot (bit_or (bit_xor t_min minus_tmin) (lnot t_min))

-- The mask of `allOddBits`.
abbrev pub odd_mask : ℕ
odd_mask = let left_mask = bit_or (shl32 0xAA 8) 0xAA in bit_or (shl32 left_mask 16) left_mask

-- `allOddBits`.
unfoldable pub all_odd_bits : ℕ → ℕ
all_odd_bits x = lnot (bit_xor (bit_and x odd_mask) odd_mask)

-- `negate`.
unfoldable pub negate : ℕ → ℕ
negate x = add32 (not32 x) 1

-- `isAsciiDigit`.
unfoldable pub is_ascii_digit : ℕ → ℕ
is_ascii_digit x =
    let lower_limit : ℕ = 0x30 in
    let upper_limit = add32 lower_limit 10 in
    let lower_delta = add32 x (add32 (not32 lower_limit) 1) in
    let upper_delta = add32 x (add32 (not32 upper_limit) 1) in
    lnot (bit_or (sar32 lower_delta 31) (not32 (sar32 upper_delta 31)))

-- `conditional`.
unfoldable pub conditional : ℕ → ℕ → ℕ → ℕ
conditional x y z =
    let mask = sar32 (shl32 (lnot x) 31) 31 in
    let y' = bit_and y (not32 mask) in let z' = bit_and z mask in bit_xor z' y'

-- `isLessOrEqual`.
unfoldable pub is_less_or_equal : ℕ → ℕ → ℕ
is_less_or_equal x y =
    let y_nonnegative = lnot (sar32 y 31) in
    let x_less_zero = bit_and (sar32 x 31) 1 in
    let delta = add32 (add32 y (not32 x)) 1 in
    let delta_nonnegative = lnot (sar32 delta 31) in
    bit_and (lnot (bit_and (lnot y_nonnegative) (lnot x_less_zero)))
      (bit_or (bit_and y_nonnegative x_less_zero) delta_nonnegative)

-- `logicalNeg`.
unfoldable pub logical_neg : ℕ → ℕ
logical_neg x =
    let x_nonnegative = bit_and (bit_xor (sar32 x 31) 1) 1 in
    let negative_x = add32 (not32 x) 1 in
    let negative_x_nonnegative = bit_and (bit_xor (sar32 negative_x 31) 1) 1 in
    bit_and x_nonnegative negative_x_nonnegative

-- The masks of `howManyBits`.
abbrev pub first_mask : ℕ
first_mask = let low = bit_or (shl32 0x55 8) 0x55 in bit_or (shl32 low 16) low

abbrev pub second_mask : ℕ
second_mask = let low = bit_or 0x33 (shl32 0x33 8) in bit_or (shl32 low 16) low

abbrev pub third_mask : ℕ
third_mask = let low = bit_or 0x0f (shl32 0x0f 8) in bit_or (shl32 low 16) low

abbrev pub fourth_mask : ℕ
fourth_mask = bit_or (shl32 0xff 16) 0xff

abbrev pub fifth_mask : ℕ
fifth_mask = bit_or 0xff (shl32 0xff 8)

-- `n = n & (n >> k)`.
unfoldable pub keep_leading : (k n : ℕ) → ℕ
keep_leading k n = bit_and n (sar32 n k)

-- `n = (n & mask) + ((n >> k) & mask)`.
unfoldable pub add_pairs : (mask k n : ℕ) → ℕ
add_pairs mask k n = add32 (bit_and n mask) (bit_and (sar32 n k) mask)

-- The ones that a word starts with, alone.
unfoldable pub leading_ones : ℕ → ℕ
unfolding keep_leading
leading_ones n =
    keep_leading 16 (keep_leading 8 (keep_leading 4 (keep_leading 2 (keep_leading 1 n))))

-- The number of ones in a word.
unfoldable pub count_ones : ℕ → ℕ
unfolding add_pairs
count_ones n = add_pairs fifth_mask 16 (
    add_pairs fourth_mask 8
      (add_pairs third_mask 4 (add_pairs second_mask 2 (add_pairs first_mask 1 n))))

-- `howManyBits`.
unfoldable pub how_many_bits : ℕ → ℕ
how_many_bits x =
    let less_than_zero = sar32 x 31 in
    let leading_zeros_form =
      bit_or (bit_and less_than_zero x) (bit_and (not32 less_than_zero) (not32 x)) in
    let n = count_ones (leading_ones leading_zeros_form) in add32 (add32 32 (add32 (not32 n) 1)) 1
