-- ===== src/Isa/Word.antt =====
-- `word_t` of archlab/sim/misc/isa.h, a 64-bit two's complement word, as its bit pattern: a
-- number below `2 ^ 64`. Arithmetic wraps.
use cs_app_labs.Prelude.{ℕ, ◌+◌, ◌-◌, ◌%◌, ◌^◌, Bool, ltb, if◌then◌else◌}
use cs_app_labs.Prelude.Int.{ℤ, pos, negsuc}

abbrev pub word_size : ℕ
word_size = 2 ^ 64

abbrev pub sign_bit : ℕ
sign_bit = 2 ^ 63

abbrev pub u64 : ℕ → ℕ
u64 n = n % 2 ^ 64

-- `a < 0` on a `word_t`.
abbrev pub is_negative : ℕ → Bool
is_negative a = ltb (sign_bit - 1) a

-- `a < b` on two values of `word_t`: the order of the patterns with the sign bit turned over.
abbrev pub slt : ℕ → ℕ → Bool
slt a b = ltb (u64 (a + sign_bit)) (u64 (b + sign_bit))

abbrev pub add64 : ℕ → ℕ → ℕ
add64 a b = u64 (a + b)

-- `a - b`; the modulus is added first, since `-` stops at 0.
abbrev pub sub64 : ℕ → ℕ → ℕ
sub64 a b = u64 (a + word_size - b)

-- The integer that a pattern stands for.
abbrev pub signed64 : ℕ → ℤ
signed64 w = if is_negative w then negsuc (word_size - w - 1) else pos w
