-- ===== src/Datalab/Logic.antt =====
-- The puzzles of datalab/bits.c that test or choose, against what they are to compute.
use Prim.Native.Nat.{min}
use native.Mathlib.Nat.{pow-suc, one-le-pow}
use cs_app_labs.Prelude.{
  ℕ, zero, suc, ◌+◌, ◌-◌, ◌*◌, ◌/◌, ◌%◌, ◌^◌, ◌≡◌, ◌<◌, refl, ap, ◌∙◌, Bool, true, false, not, ◌&&◌,
  leb, ◌==◌, if◌then◌else◌, arith, Bool-cases, inl, inr, bit_and, bit_or, bit_xor,
}
use cs_app_labs.Prelude.Int.{ltb_ℤ}
use cs_app_labs.Prelude.Bits.{
  bit_and_step, bit_xor_step, bit_and-mask, bit_and-zero, zero-bit_and, zero-bit_xor, bit_and_comm,
  bit_xor-add-bit_and, bit_and-le, bit_xor-zero, by_digits,
}
use cs_app_labs.Datalab.Int32.{not32, add32, sar32, lnot, truth, negative32, signed32}
use cs_app_labs.Datalab.Puzzles.{
  bitwise_xor, is_ascii_digit, conditional, is_less_or_equal, logical_neg,
}

-- The complement among `k` digits.
xor_digits :
    (k x y : ℕ)
    → x < 2 ^ k
    → y < 2 ^ k
    → bit_and (2 ^ k - 1 - bit_and x y) (2 ^ k - 1 - bit_and (2 ^ k - 1 - x) (2 ^ k - 1 - y))
      ≡ bit_xor x y
xor_digits zero zero zero hx hy = refl
xor_digits zero (suc x) y hx hy = absurd (omega arith)
xor_digits zero zero (suc y) hx hy = absurd (omega arith)
xor_digits (suc k) x y hx hy =
    let p = pow-suc 2 k in
    let one = one-le-pow k 2 in
    let nx : (2 ^ suc k - 1 - x) / 2 ≡ 2 ^ k - 1 - x / 2 = omega (arith, p, one) in
    let ny : (2 ^ suc k - 1 - y) / 2 ≡ 2 ^ k - 1 - y / 2 = omega (arith, p, one) in
    let meet : ℕ = bit_and (x / 2) (y / 2) in
    let join : ℕ = bit_and (2 ^ k - 1 - x / 2) (2 ^ k - 1 - y / 2) in
    let inner = bit_and_step x y in
    let inner' : bit_and (2 ^ suc k - 1 - x) (2 ^ suc k - 1 - y)
        ≡ 2 * join + min ((2 ^ suc k - 1 - x) % 2) ((2 ^ suc k - 1 - y) % 2) =
      bit_and_step (2 ^ suc k - 1 - x) (2 ^ suc k - 1 - y) ∙ rw (nx, ny) refl in
    let meet_le = bit_and-le (x / 2) (y / 2) in
    let join_le = bit_and-le (2 ^ k - 1 - x / 2) (2 ^ k - 1 - y / 2) in
    let left : (2 ^ suc k - 1 - bit_and x y) / 2 ≡ 2 ^ k - 1 - meet = omega (arith, p, one) in
    let right : (2 ^ suc k - 1 - bit_and (2 ^ suc k - 1 - x) (2 ^ suc k - 1 - y)) / 2
        ≡ 2 ^ k - 1 - join =
      omega (arith, p, one) in
    let rest = xor_digits k (x / 2) (y / 2) (omega (arith, p)) (omega (arith, p)) in
    bit_and_step (2 ^ suc k - 1 - bit_and x y)
      (2 ^ suc k - 1 - bit_and (2 ^ suc k - 1 - x) (2 ^ suc k - 1 - y))
    ∙ rw (left, right, rest) (omega (arith, p, one, bit_xor_step x y))

-- On two words `bitXor` gives their exclusive or.
pub bitwise_xor_lem : (x y : ℕ) → x < 2 ^ 32 → y < 2 ^ 32 → bitwise_xor x y ≡ bit_xor x y
unfolding bitwise_xor
bitwise_xor_lem x y hx hy = xor_digits 32 x y hx hy

-- What `>> 31` leaves of a word: its sign.
abbrev pub sign_word : Bool → ℕ
sign_word true = 2 ^ 32 - 1
sign_word false = 0

pub sar32-sign_word : (x : ℕ) → x < 2 ^ 32 → sar32 x 31 ≡ sign_word (negative32 x)
sar32-sign_word x h = ground arith

-- `isLessOrEqual` as a function of the three signs that it reads.
abbrev le_of_signs : (sy sx sd : ℕ) → ℕ
le_of_signs sy sx sd =
    bit_and (lnot (bit_and (lnot (lnot sy)) (lnot (bit_and sx 1))))
      (bit_or (bit_and (lnot sy) (bit_and sx 1)) (lnot sd))

le_table :
    (y x d : Bool)
    → le_of_signs (sign_word y) (sign_word x) (sign_word d)
      ≡ truth (if y then x && not d else if x then true else not d)
le_table true true true = refl
le_table true true false = refl
le_table true false true = refl
le_table true false false = refl
le_table false true true = refl
le_table false true false = refl
le_table false false true = refl
le_table false false false = refl

-- On two words `isLessOrEqual` is 1 exactly when the first is at most the second as signed
-- numbers, also where their difference overflows.
pub is_less_or_equal_lem :
    (x y : ℕ)
    → x < 2 ^ 32
    → y < 2 ^ 32
    → is_less_or_equal x y ≡ truth (not (ltb_ℤ (signed32 y) (signed32 x)))
unfolding is_less_or_equal
is_less_or_equal_lem x y hx hy =
    let d : ℕ = add32 (add32 y (not32 x)) 1 in
    ap (λ (s : ℕ). le_of_signs s (sar32 x 31) (sar32 d 31)) (sar32-sign_word y hy)
    ∙ ap (λ (s : ℕ). le_of_signs (sign_word (negative32 y)) s (sar32 d 31)) (sar32-sign_word x hx)
    ∙ ap (λ (s : ℕ). le_of_signs (sign_word (negative32 y)) (sign_word (negative32 x)) s)
        (sar32-sign_word d (omega arith))
    ∙ le_table (negative32 y) (negative32 x) (negative32 d)
    ∙ ground arith

digit_table : (l u : Bool) → lnot (bit_or (sign_word l) (not32 (sign_word u))) ≡ truth (not l && u)
digit_table true true = refl
digit_table true false = refl
digit_table false true = refl
digit_table false false = refl

-- `isAsciiDigit` is 1 exactly at the codes of the ten digits.
pub is_ascii_digit_lem : (x : ℕ) → x < 2 ^ 32 → is_ascii_digit x ≡ truth (leb b'0' x && leb x b'9')
unfolding is_ascii_digit
is_ascii_digit_lem x hx =
    let l : ℕ = add32 x (2 ^ 32 - 0x30) in
    let u : ℕ = add32 x (2 ^ 32 - 0x3a) in
    ap (λ (s : ℕ). lnot (bit_or s (not32 (sar32 u 31)))) (sar32-sign_word l (omega arith))
    ∙ ap (λ (s : ℕ). lnot (bit_or (sign_word (negative32 l)) (not32 s)))
        (sar32-sign_word u (omega arith))
    ∙ digit_table (negative32 l) (negative32 u)
    ∙ ground arith

abbrev neg_of_signs : (sx sm : ℕ) → ℕ
neg_of_signs sx sm = bit_and (bit_and (bit_xor sx 1) 1) (bit_and (bit_xor sm 1) 1)

neg_table : (x m : Bool) → neg_of_signs (sign_word x) (sign_word m) ≡ truth (not x && not m)
neg_table true true = refl
neg_table true false = refl
neg_table false true = refl
neg_table false false = refl

-- On a word `logicalNeg` is `!`.
pub logical_neg_lem : (x : ℕ) → x < 2 ^ 32 → logical_neg x ≡ lnot x
unfolding logical_neg
logical_neg_lem x hx =
    let m : ℕ = add32 (not32 x) 1 in
    ap (λ (s : ℕ). neg_of_signs s (sar32 m 31)) (sar32-sign_word x hx)
    ∙ ap (λ (s : ℕ). neg_of_signs (sign_word (negative32 x)) s) (sar32-sign_word m (omega arith))
    ∙ neg_table (negative32 x) (negative32 m)
    ∙ ground arith

pub bit_and-ones32 : (x : ℕ) → x < 2 ^ 32 → bit_and x (2 ^ 32 - 1) ≡ x
bit_and-ones32 x h = bit_and-mask 32 x ∙ omega arith

-- On words `conditional` chooses its second argument unless the first is 0, and then its third.
pub conditional_lem :
    (x y z : ℕ)
    → x < 2 ^ 32
    → y < 2 ^ 32
    → z < 2 ^ 32
    → conditional x y z ≡ (if x == 0 then z else y)
unfolding conditional
conditional_lem x y z hx hy hz = elim (Bool-cases (x == 0)) [
  | inl e ↦ rw e (
      ap (λ (t : ℕ). bit_xor t (bit_and y 0)) (bit_and-ones32 z hz)
      ∙ ap (bit_xor z) (bit_and-zero y)
      ∙ bit_xor-zero z)
  | inr ne ↦ rw ne (
      ap (λ (t : ℕ). bit_xor (bit_and z 0) t) (bit_and-ones32 y hy)
      ∙ ap (λ (t : ℕ). bit_xor t y) (bit_and-zero z)
      ∙ zero-bit_xor y)
]

pub bit_xor-eq-zero : (a b : ℕ) → bit_xor a b ≡ 0 → a ≡ b
bit_xor-eq-zero a b h =
    omega (arith, bit_xor-add-bit_and a b, bit_and-le a b, bit_and-le b a, bit_and_comm a b)

bit_and_self : (a : ℕ) → bit_and a a ≡ a
bit_and_self a =
    by_digits (λ x y. x ≡ y → bit_and x y ≡ x) (λ b e. zero-bit_and b)
      (λ x y ih e. let rest = ih (ap (λ (t : ℕ). t / 2) e) in omega (arith, bit_and_step x y)) a a
      refl

pub bit_xor_self : (a : ℕ) → bit_xor a a ≡ 0
bit_xor_self a = omega (arith, bit_xor-add-bit_and a a, bit_and_self a)
