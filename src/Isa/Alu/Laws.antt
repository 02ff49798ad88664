-- ===== src/Isa/Alu/Laws.antt =====
-- The condition codes of archlab/sim/misc/isa.c against the signed values of the words.
use cs_app_labs.Prelude.{
  ℕ, ◌-◌, ◌^◌, ◌<◌, ◌≡◌, refl, ◌∙◌, Bool, true, false, not, ◌&&◌, ◌||◌, arith, ◌==◌,
}
use cs_app_labs.Prelude.Bits.{bit_and-le, bit_xor-lt}
use cs_app_labs.Prelude.Int.{ℤ, pos, negsuc, ◌+ℤ◌, ◌-ℤ◌, ltb_ℤ}
use cs_app_labs.Isa.Word.{is_negative, add64, sub64, signed64}
use cs_app_labs.Isa.Alu.{
  Alu, a_and, a_xor, a_none, compute_alu, a_add, a_sub, compute_cc, overflow, pack_cc, get_zf,
  get_sf, get_of, Cond, c_yes, c_le, c_l, c_e, c_ne, c_ge, c_g, c_none, cond_holds, bit, same,
}

-- The three flags come out of the byte they were packed into.
pub pack_cc_flags :
    (z s o : Bool)
    → (get_zf (pack_cc z s o) ≡ bit z)
      × (get_sf (pack_cc z s o) ≡ bit s)
      × (get_of (pack_cc z s o) ≡ bit o)
unfolding pack_cc get_zf get_sf get_of
pack_cc_flags true true true = (refl, refl, refl)
pack_cc_flags true true false = (refl, refl, refl)
pack_cc_flags true false true = (refl, refl, refl)
pack_cc_flags true false false = (refl, refl, refl)
pack_cc_flags false true true = (refl, refl, refl)
pack_cc_flags false true false = (refl, refl, refl)
pack_cc_flags false false true = (refl, refl, refl)
pack_cc_flags false false false = (refl, refl, refl)

-- The result does not fit a word: it is below `-2 ^ 63` or above `2 ^ 63 - 1`.
abbrev pub does_not_fit : ℤ → Bool
does_not_fit v = ltb_ℤ v (negsuc (2 ^ 63 - 1)) || ltb_ℤ (pos (2 ^ 63 - 1)) v

-- The overflow flag of an addition is set exactly when the sum of the signed operands does not
-- fit a word.
pub overflow-add :
    (a b : ℕ)
    → a < 2 ^ 64
    → b < 2 ^ 64
    → overflow a_add a b (add64 a b) ≡ does_not_fit (signed64 b +ℤ signed64 a)
unfolding overflow ◌+ℤ◌
overflow-add a b ha hb = ground arith

-- The overflow flag of a subtraction is set exactly when the difference of the signed operands
-- does not fit a word.
pub overflow-sub :
    (a b : ℕ)
    → a < 2 ^ 64
    → b < 2 ^ 64
    → overflow a_sub a b (sub64 b a) ≡ does_not_fit (signed64 b -ℤ signed64 a)
unfolding overflow ◌-ℤ◌
overflow-sub a b ha hb = ground arith

-- What a condition asks of two signed numbers `x` and `y` when it follows the comparison of
-- `x` with `y`.
unfoldable pub compares : Cond → ℤ → ℤ → Bool
compares c_yes x y = true
compares c_le x y = not (ltb_ℤ y x)
compares c_l x y = ltb_ℤ x y
compares c_e x y = not (ltb_ℤ x y) && not (ltb_ℤ y x)
compares c_ne x y = ltb_ℤ x y || ltb_ℤ y x
compares c_ge x y = not (ltb_ℤ x y)
compares c_g x y = ltb_ℤ y x
compares c_none x y = false

-- The conditions as tests of the zero flag and of `SF ^ OF`.
flag_test : Cond → (zero less : Bool) → Bool
flag_test c_yes z l = true
flag_test c_le z l = l || z
flag_test c_l z l = l
flag_test c_e z l = z
flag_test c_ne z l = not z
flag_test c_ge z l = not l
flag_test c_g z l = not l && not z
flag_test c_none z l = false

flags_sub :
    (a b : ℕ)
    → a < 2 ^ 64
    → b < 2 ^ 64
    → ((sub64 b a == 0) ≡ compares c_e (signed64 b) (signed64 a))
unfolding compares
flags_sub a b ha hb = ground arith

sign_sub :
    (a b : ℕ)
    → a < 2 ^ 64
    → b < 2 ^ 64
    → not (same (is_negative (sub64 b a)) (overflow a_sub a b (sub64 b a)))
      ≡ compares c_l (signed64 b) (signed64 a)
unfolding compares overflow
sign_sub a b ha hb = ground arith

tests_compare :
    (c : Cond) (x y : ℤ) → flag_test c (compares c_e x y) (compares c_l x y) ≡ compares c x y
unfolding flag_test compares
tests_compare c_yes x y = refl
tests_compare c_le x y = ground arith
tests_compare c_l x y = refl
tests_compare c_e x y = refl
tests_compare c_ne x y = ground arith
tests_compare c_ge x y = refl
tests_compare c_g x y = ground arith
tests_compare c_none x y = refl

flags_by_cases :
    (P : Bool → Bool → Bool → Type 0)
    → P true true true × P true true false × P true false true × P true false false
    → P false true true × P false true false × P false false true × P false false false
    → (z s o : Bool) → P z s o
flags_by_cases P h k true true true = h.0
flags_by_cases P h k true true false = h.1
flags_by_cases P h k true false true = h.2
flags_by_cases P h k true false false = h.3
flags_by_cases P h k false true true = k.0
flags_by_cases P h k false true false = k.1
flags_by_cases P h k false false true = k.2
flags_by_cases P h k false false false = k.3

cond_flags :
    (c : Cond) (z s o : Bool) → cond_holds (pack_cc z s o) c ≡ flag_test c z (not (same s o))
unfolding cond_holds flag_test pack_cc
cond_flags c_yes = flags_by_cases _ (refl, refl, refl, refl) (refl, refl, refl, refl)
cond_flags c_le = flags_by_cases _ (refl, refl, refl, refl) (refl, refl, refl, refl)
cond_flags c_l = flags_by_cases _ (refl, refl, refl, refl) (refl, refl, refl, refl)
cond_flags c_e = flags_by_cases _ (refl, refl, refl, refl) (refl, refl, refl, refl)
cond_flags c_ne = flags_by_cases _ (refl, refl, refl, refl) (refl, refl, refl, refl)
cond_flags c_ge = flags_by_cases _ (refl, refl, refl, refl) (refl, refl, refl, refl)
cond_flags c_g = flags_by_cases _ (refl, refl, refl, refl) (refl, refl, refl, refl)
cond_flags c_none = flags_by_cases _ (refl, refl, refl, refl) (refl, refl, refl, refl)

-- After `subq` of the word `a` from the word `b` each condition decides the comparison of the signed values that
-- its name says, overflow included.
pub cond_holds-compute_cc :
    (c : Cond) (a b : ℕ)
    → a < 2 ^ 64
    → b < 2 ^ 64
    → cond_holds (compute_cc a_sub a b) c ≡ compares c (signed64 b) (signed64 a)
unfolding compute_cc compute_alu
cond_holds-compute_cc c a b ha hb =
    cond_flags c (sub64 b a == 0) (is_negative (sub64 b a)) (overflow a_sub a b (sub64 b a))
    ∙ rw (flags_sub a b ha hb, sign_sub a b ha hb) (tests_compare c (signed64 b) (signed64 a))

-- Every operation stays within a word.
pub compute_alu-lt : (op : Alu) (a b : ℕ) → a < 2 ^ 64 → b < 2 ^ 64 → compute_alu op a b < 2 ^ 64
unfolding compute_alu
compute_alu-lt a_add a b ha hb = omega arith
compute_alu-lt a_sub a b ha hb = omega arith
compute_alu-lt a_and a b ha hb = omega (arith, bit_and-le a b)
compute_alu-lt a_xor a b ha hb = bit_xor-lt 64 a b ha hb
compute_alu-lt a_none a b ha hb = omega arith
