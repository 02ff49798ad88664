-- ===== src/Datalab/Int32.antt =====
-- The operations on `int` and `unsigned` that datalab/bits.c is written with. A value is its bit
-- pattern, below 2 ^ 32; additions wrap, and `>>` on an `int` copies the sign, as on every
-- compiler that the puzzles are graded with.
use cs_app_labs.Prelude.{ℕ, ◌+◌, ◌-◌, ◌*◌, ◌/◌, ◌%◌, ◌^◌, Bool, ltb, ◌==◌, if◌then◌else◌}
use cs_app_labs.Prelude.Int.{ℤ, pos, negsuc}

abbrev pub u32 : ℕ → ℕ
u32 n = n % 2 ^ 32

-- `~x`.
abbrev pub not32 : ℕ → ℕ
not32 x = 2 ^ 32 - 1 - x

-- `x + y`, `x - y` and `-x`.
abbrev pub add32 : ℕ → ℕ → ℕ
add32 x y = u32 (x + y)

abbrev pub sub32 : ℕ → ℕ → ℕ
sub32 x y = u32 (x + 2 ^ 32 - y)

-- `x << k`.
abbrev pub shl32 : ℕ → ℕ → ℕ
shl32 x k = u32 (x * 2 ^ k)

-- `x < 0` on an `int`.
abbrev pub negative32 : ℕ → Bool
negative32 x = ltb (2 ^ 31 - 1) x

-- `x >> k` on an `int`, for `k` at most 31.
abbrev pub sar32 : ℕ → ℕ → ℕ
sar32 x k = if negative32 x then x / 2 ^ k + (2 ^ 32 - 2 ^ (32 - k)) else x / 2 ^ k

-- `!x`.
abbrev pub lnot : ℕ → ℕ
lnot x = if x == 0 then 1 else 0

-- A comparison's value.
abbrev pub truth : Bool → ℕ
truth b = if b then 1 else 0

-- The integer that a pattern stands for.
abbrev pub signed32 : ℕ → ℤ
signed32 x = if negative32 x then negsuc (2 ^ 32 - x - 1) else pos x
