-- ===== src/Isa/Alu.antt =====
-- The ALU of archlab/sim/misc/isa.c: operations, condition
-- codes and the conditions of jumps and moves.
pub mod Laws
use cs_app_labs.Prelude.{
  ℕ, ◌+◌, ◌*◌, ◌/◌, ◌%◌, ◌≡◌, Bool, true, false, not, ◌&&◌, bit_and, bit_or, bit_xor, ltb, ◌==◌,
  if◌then◌else◌,
}
use cs_app_labs.Isa.Word.{u64, is_negative, add64, sub64, slt}

-- `alu_t`.
pub data Alu : Type 0 where
  a_add a_sub a_and a_xor a_none : Alu

-- The operation that a function code names; every code above 3 falls to the default.
unfoldable pub to_alu : ℕ → Alu
to_alu n =
    if n == 0
    then a_add
    else if n == 1
    then a_sub
    else if n == 2
    then a_and
    else if n == 3
    then a_xor
    else a_none

-- `compute_alu`.
unfoldable pub compute_alu : Alu → ℕ → ℕ → ℕ
compute_alu a_add arg_a arg_b = add64 arg_a arg_b
compute_alu a_sub arg_a arg_b = sub64 arg_b arg_a
compute_alu a_and arg_a arg_b = bit_and arg_a arg_b
compute_alu a_xor arg_a arg_b = bit_xor arg_a arg_b
compute_alu a_none arg_a arg_b = 0

-- A truth value as the C number.
abbrev pub bit : Bool → ℕ
bit true = 1
bit false = 0

-- `a == b` on truth values.
abbrev pub same : Bool → Bool → Bool
same true b = b
same false b = not b

-- `PACK_CC`.
unfoldable pub pack_cc : Bool → Bool → Bool → ℕ
pack_cc z s o = bit_or (bit_or (bit z * 4) (bit s * 2)) (bit o * 1)

abbrev pub default_cc : ℕ
default_cc = 4

-- `val > 0`.
abbrev pub is_positive : ℕ → Bool
is_positive a = slt 0 a

-- The overflow flag of `compute_cc`.
unfoldable pub overflow : Alu → (arg_a arg_b val : ℕ) → Bool
overflow a_add arg_a arg_b val =
    same (is_negative arg_a) (is_negative arg_b) && not (same (is_negative val) (is_negative arg_a))
overflow a_sub arg_a arg_b val =
    same (is_positive arg_a) (is_negative arg_b) && not (same (is_negative val) (is_negative arg_b))
overflow a_and arg_a arg_b val = false
overflow a_xor arg_a arg_b val = false
overflow a_none arg_a arg_b val = false

-- `compute_cc`.
unfoldable pub compute_cc : Alu → ℕ → ℕ → ℕ
unfolding compute_alu overflow pack_cc
compute_cc op arg_a arg_b =
    let val = compute_alu op arg_a arg_b in
    pack_cc (val == 0) (is_negative val) (overflow op arg_a arg_b val)

-- `GET_ZF`, `GET_SF` and `GET_OF`.
unfoldable pub get_zf : ℕ → ℕ
get_zf cc = bit_and (cc / 4) 1

unfoldable pub get_sf : ℕ → ℕ
get_sf cc = bit_and (cc / 2) 1

unfoldable pub get_of : ℕ → ℕ
get_of cc = bit_and (cc / 1) 1

-- `cond_t`.
pub data Cond : Type 0 where
  c_yes c_le c_l c_e c_ne c_ge c_g c_none : Cond

-- The condition that a function code names; every code above 6 falls to the default.
unfoldable pub to_cond : ℕ → Cond
to_cond n =
    if n == 0
    then c_yes
    else if n == 1
    then c_le
    else if n == 2
    then c_l
    else if n == 3
    then c_e
    else if n == 4
    then c_ne
    else if n == 5
    then c_ge
    else if n == 6
    then c_g
    else c_none

-- The value of `jump` in `cond_holds`, from the three flags.
unfoldable pub jump_value : Cond → (zf sf of : ℕ) → ℕ
jump_value c_yes zf sf of = 1
jump_value c_le zf sf of = bit_or (bit_xor sf of) zf
jump_value c_l zf sf of = bit_xor sf of
jump_value c_e zf sf of = zf
jump_value c_ne zf sf of = bit_xor zf 1
jump_value c_ge zf sf of = bit_xor (bit_xor sf of) 1
jump_value c_g zf sf of = bit_and (bit_xor (bit_xor sf of) 1) (bit_xor zf 1)
jump_value c_none zf sf of = 0

-- `cond_holds`, used as a condition.
unfoldable pub cond_holds : ℕ → Cond → Bool
unfolding jump_value get_zf get_sf get_of
cond_holds cc c = not (jump_value c (get_zf cc) (get_sf cc) (get_of cc) == 0)
