-- ===== src/Datalab/HowMany.antt =====
-- `howManyBits` of datalab/bits.c gives the least width at which the number fits.
use mathlib.Core.Path.{subst}
use native.Mathlib.Nat.{one-le-pow, pow-le-pow_right, pow-suc}
use cs_app_labs.Prelude.{
  ℕ, zero, suc, ◌+◌, ◌-◌, ◌/◌, ◌^◌, ◌≡◌, ◌<◌, ◌≤◌, ◌↔◌, sym, ap, ◌∙◌, Bool, true, false, leb,
  if◌then◌else◌, arith, Bool-cases, inl, inr, bit_and, bit_or,
}
use cs_app_labs.Prelude.Int.{ℤ, pos, negsuc, ◌≤ℤ◌}
use cs_app_labs.Prelude.Bits.{zero-bit_and, zero-bit_or, bit_or-zero, bit_and_comm}
use cs_app_labs.Datalab.Int32.{not32, add32, sar32, negative32, signed32}
use cs_app_labs.Datalab.Puzzles.{keep_leading, leading_ones, count_ones, how_many_bits}
use cs_app_labs.Datalab.Logic.{sign_word, sar32-sign_word, bit_and-ones32}
use cs_app_labs.Datalab.Count.{
  HasDigits, digits_exist, Filled, Filled-bit_or, de_morgan, count_ones-not32,
}

-- The word without its sign: what `howManyBits` complements.
abbrev unsigned : ℕ → ℕ
unsigned x = if negative32 x then not32 x else x

form_table :
    (s : Bool) (x : ℕ)
    → x < 2 ^ 32
    → bit_or (bit_and (sign_word s) x) (bit_and (not32 (sign_word s)) (not32 x))
      ≡ (if s then x else not32 x)
form_table true x h =
    ap (λ (t : ℕ). bit_or t (bit_and 0 (not32 x)))
      (bit_and_comm (2 ^ 32 - 1) x ∙ bit_and-ones32 x h)
    ∙ ap (bit_or x) (zero-bit_and (not32 x))
    ∙ bit_or-zero x
form_table false x h =
    ap (λ (t : ℕ). bit_or t (bit_and (2 ^ 32 - 1) (not32 x))) (zero-bit_and x)
    ∙ zero-bit_or (bit_and (2 ^ 32 - 1) (not32 x))
    ∙ bit_and_comm (2 ^ 32 - 1) (not32 x)
    ∙ bit_and-ones32 (not32 x) (omega arith)

-- One round on the complement of `a` joins `a` with its shift.
keep_leading-not32 :
    (k a : ℕ)
    → a < 2 ^ 31
    → sar32 (not32 a) k ≡ not32 (a / 2 ^ k)
    → a / 2 ^ k < 2 ^ 31
    → keep_leading k (not32 a) ≡ not32 (bit_or a (a / 2 ^ k))
unfolding keep_leading
keep_leading-not32 k a h shift small =
    rw shift (de_morgan 32 a (a / 2 ^ k) (omega arith) (omega arith))

-- The arithmetic shift of a complement, at the five distances.
abbrev Shifts : ℕ → Type 0
Shifts k = (a : ℕ) → a < 2 ^ 31 → (sar32 (not32 a) k ≡ not32 (a / 2 ^ k)) × (a / 2 ^ k < 2 ^ 31)

Shifts-1 : Shifts 1
Shifts-1 a h = (ground arith, omega arith)

Shifts-2 : Shifts 2
Shifts-2 a h = (ground arith, omega arith)

Shifts-4 : Shifts 4
Shifts-4 a h = (ground arith, omega arith)

Shifts-8 : Shifts 8
Shifts-8 a h = (ground arith, omega arith)

Shifts-16 : Shifts 16
Shifts-16 a h = (ground arith, omega arith)

round_of :
    (l c a : ℕ)
    → l ≤ 31
    → Shifts c
    → Filled l c a
    → (b : ℕ) × (keep_leading c (not32 a) ≡ not32 b) × Filled l (c + c) b
round_of l c a le shifts is =
    let power : 2 ^ l ≤ 2 ^ 31 = pow-le-pow_right (omega arith) {j = 31} le in
    let small : a < 2 ^ 31 = omega (arith, is.0) in
    let (shift, less) = shifts a small in
    (bit_or a (a / 2 ^ c), keep_leading-not32 c a small shift less, Filled-bit_or l c a is)

HasDigits-Filled : (m l : ℕ) → HasDigits m l → Filled l 1 m
HasDigits-Filled m zero is = (is.below, omega arith)
HasDigits-Filled m (suc l) is =
    let pred : suc l - 1 ≡ l = omega arith in
    let above : 2 ^ l ≤ m = subst (λ (k : ℕ). 2 ^ k ≤ m) pred (is.above (omega arith)) in
    (is.below, subst (λ (k : ℕ). 2 ^ suc l ≤ m + 2 ^ k) (sym pred) (omega (arith, pow-suc 2 l)))

all-Filled : (l a : ℕ) → l ≤ 31 → Filled l 32 a → a ≡ 2 ^ l - 1
all-Filled l a le is =
    let none_left : l - 32 ≡ 0 = omega arith in
    let bound : 2 ^ l ≤ a + 2 ^ 0 = subst (λ (k : ℕ). 2 ^ l ≤ a + 2 ^ k) none_left is.1 in
    omega (arith, is.0)

leading_ones_lem : (m l : ℕ) → l ≤ 31 → HasDigits m l → leading_ones (not32 m) ≡ not32 (2 ^ l - 1)
unfolding leading_ones
leading_ones_lem m l le is =
    let (a1, e1, f1) = round_of l 1 m le Shifts-1 (HasDigits-Filled m l is) in
    let (a2, e2, f2) = round_of l 2 a1 le Shifts-2 f1 in
    let (a3, e3, f3) = round_of l 4 a2 le Shifts-4 f2 in
    let (a4, e4, f4) = round_of l 8 a3 le Shifts-8 f3 in
    let (a5, e5, f5) = round_of l 16 a4 le Shifts-16 f4 in
    rw (e1, e2, e3, e4, e5) (ap (λ (a : ℕ). not32 a) (all-Filled l a5 le f5))

-- A number fits `k` bits in two's complement.
abbrev pub Fits : ℕ → ℤ → Type 0
Fits k v = (negsuc (2 ^ (k - 1) - 1) ≤ℤ v) × (v ≤ℤ pos (2 ^ (k - 1) - 1))

how_many_bits-digits :
    (x l : ℕ) → x < 2 ^ 32 → l ≤ 31 → HasDigits (unsigned x) l → how_many_bits x ≡ l + 1
unfolding how_many_bits
how_many_bits-digits x l h le is =
    let form : bit_or (bit_and (sar32 x 31) x) (bit_and (not32 (sar32 x 31)) (not32 x))
        ≡ not32 (unsigned x) =
      ap (λ (s : ℕ). bit_or (bit_and s x) (bit_and (not32 s) (not32 x))) (sar32-sign_word x h)
      ∙ form_table (negative32 x) x h
      ∙ ground arith in
    ap (λ (n : ℕ). add32 (add32 32 (add32 (not32 (count_ones (leading_ones n))) 1)) 1) form
    ∙ ap (λ (n : ℕ). add32 (add32 32 (add32 (not32 (count_ones n)) 1)) 1)
        (leading_ones_lem (unsigned x) l le is)
    ∙ ap (λ (n : ℕ). add32 (add32 32 (add32 (not32 n) 1)) 1) (count_ones-not32 l (omega arith))
    ∙ omega arith

-- Fitting is a bound on the word without its sign.
Fits-unsigned : (x k : ℕ) → x < 2 ^ 32 → Fits k (signed32 x) ↔ (unsigned x < 2 ^ (k - 1))
Fits-unsigned x k h =
    (λ f. ground (arith, one-le-pow (k - 1) 2), λ b. ground (arith, one-le-pow (k - 1) 2))

digits-lt : (m l j : ℕ) → HasDigits m l → (m < 2 ^ j) ↔ (l ≤ j)
digits-lt m l j is = (
  λ b. elim (Bool-cases (leb l j)) [
    | inl le ↦ ground arith
    | inr more ↦
        let up : 2 ^ j ≤ 2 ^ (l - 1) = pow-le-pow_right (omega arith) {j = l - 1} (ground arith) in
        let low : 2 ^ (l - 1) ≤ m = is.above (ground arith) in absurd (omega arith)
  ],
  λ le.
      let up : 2 ^ l ≤ 2 ^ j = pow-le-pow_right (omega arith) {j = j} le in omega (arith, is.below),
)

-- The width that `howManyBits` gives for a word is the least at which its number fits: the number
-- fits exactly the widths from there on.
pub how_many_bits_lem :
    (x k : ℕ) → x < 2 ^ 32 → 0 < k → (Fits k (signed32 x) ↔ (how_many_bits x ≤ k))
how_many_bits_lem x k h some_width =
    let (l, le, is) = digits_exist 31 (unsigned x) (ground arith) in
    let width = how_many_bits-digits x l h le is in
    let fits = Fits-unsigned x k h in
    let digits = digits-lt (unsigned x) l (k - 1) is in
    (λ f. omega (arith, digits.0 (fits.0 f)), λ w. fits.1 (digits.1 (omega arith)))
