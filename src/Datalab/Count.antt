-- ===== src/Datalab/Count.antt =====
-- `howManyBits` of datalab/bits.c: its two phases, the leading ones alone and their number.
use Prim.Native.Nat.{max}
use mathlib.Core.Path.{subst}
use native.Mathlib.Nat.{
  pow-suc, one-le-pow, pow-le-pow_right, div-le_self, le-div_iff_mul-le, div-lt_iff_lt-mul, mul-sub,
  mul_comm,
}
use cs_app_labs.Prelude.{
  ℕ, zero, suc, ◌+◌, ◌-◌, ◌*◌, ◌/◌, ◌%◌, ◌^◌, ◌≡◌, ◌<◌, ◌≤◌, refl, sym, ap, ◌∙◌, true, leb, ltb,
  ◌==◌, ==_iff, arith, Bool-cases, inl, inr, bit_and, bit_or, all_below, all_below_sound,
}
use cs_app_labs.Prelude.Bits.{bit_and_step, bit_or_step, bit_or-zero, bit_or-lt, two_pow_split}
use cs_app_labs.Datalab.Int32.{not32}
use cs_app_labs.Datalab.Puzzles.{add_pairs, count_ones}
use cs_app_labs.Datalab.Masks.{le-bit_or}

-- The number of binary digits of `m` is `l`.
pub record HasDigits (m l : ℕ) : Type 0 where
  pub below : m < 2 ^ l
  pub above : 0 < l → 2 ^ (l - 1) ≤ m

pub digits_exist : (bound m : ℕ) → m < 2 ^ bound → (l : ℕ) × (l ≤ bound) × HasDigits m l
digits_exist zero m h = (0, omega arith, record { below = h; above = λ p. absurd (omega arith) })
digits_exist (suc bound) m h = elim (Bool-cases (ltb m (2 ^ bound))) [
  | inl small ↦ let (l, le, is) = digits_exist bound m (ground arith) in (l, omega arith, is)
  | inr large ↦
      let pred : suc bound - 1 ≡ bound = omega arith in
      (suc bound, omega arith, record { below = h; above = λ p. rw pred (ground arith) })
]

-- The top `c` of the `l` digits are ones.
abbrev pub Filled : (l c a : ℕ) → Type 0
Filled l c a = (a < 2 ^ l) × (2 ^ l ≤ a + 2 ^ (l - c))

or_field : (n q r b : ℕ) → r < 2 ^ n → b < 2 ^ n → q * 2 ^ n + b ≤ bit_or (q * 2 ^ n + r) b
or_field zero q r b hr hb =
    let none_left : b ≡ 0 = omega arith in rw none_left (omega (arith, bit_or-zero (q * 2 ^ 0 + r)))
or_field (suc n) q r b hr hb =
    let p = pow-suc 2 n in
    let twice : q * 2 ^ suc n ≡ 2 * (q * 2 ^ n) = omega (arith, ap (λ (t : ℕ). q * t) p) in
    let half : (q * 2 ^ suc n + r) / 2 ≡ q * 2 ^ n + r / 2 = omega arith in
    let rest = or_field n q (r / 2) (b / 2) (omega (arith, p)) (omega (arith, p)) in
    let whole : bit_or (q * 2 ^ suc n + r) b
        ≡ 2 * bit_or (q * 2 ^ n + r / 2) (b / 2) + max ((q * 2 ^ suc n + r) % 2) (b % 2) =
      bit_or_step (q * 2 ^ suc n + r) b ∙ rw half refl in
    omega arith

sub-mul : (m n k : ℕ) → (m - n) * k ≡ m * k - n * k
sub-mul m n k = mul_comm (m - n) k ∙ mul-sub k m n ∙ rw (mul_comm k m, mul_comm k n) refl

-- The digits that a shift brings below the top `c` ones.
shifted_ones : (l c a : ℕ) → c < l → Filled l c a → 2 ^ (l - c) ≤ a / 2 ^ c + 2 ^ (l - (c + c))
shifted_ones l c a h is = elim (Bool-cases (leb (c + c) l)) [
  | inl room ↦
      let n : ℕ = l - c in
      let d : ℕ = l - (c + c) in
      let whole : 2 ^ l ≡ 2 ^ n * 2 ^ c = two_pow_split n c l (ground arith) in
      let part : 2 ^ n ≡ 2 ^ d * 2 ^ c = two_pow_split d c n (ground arith) in
      let bound : (2 ^ n - 2 ^ d) * 2 ^ c ≤ a =
        omega (arith, sub-mul (2 ^ n) (2 ^ d) (2 ^ c), is.1) in
      let quotient : 2 ^ n - 2 ^ d ≤ a / 2 ^ c =
        (le-div_iff_mul-le (one-le-pow c 2 (omega arith))).1 bound in
      omega arith
  | inr tight ↦
      let n : ℕ = l - c in
      let whole : 2 ^ l ≡ 2 ^ n * 2 ^ c = two_pow_split n c l (omega arith) in
      let small : 2 ^ n ≤ 2 ^ c = pow-le-pow_right (omega arith) {j = c} (ground arith) in
      let bound : (2 ^ n - 1) * 2 ^ c ≤ a = omega (arith, sub-mul (2 ^ n) 1 (2 ^ c), is.1) in
      let quotient : 2 ^ n - 1 ≤ a / 2 ^ c =
        (le-div_iff_mul-le (one-le-pow c 2 (omega arith))).1 bound in
      omega (arith, one-le-pow (l - (c + c)) 2)
]

pub Filled-bit_or : (l c a : ℕ) → Filled l c a → Filled l (c + c) (bit_or a (a / 2 ^ c))
Filled-bit_or l c a is = (
  bit_or-lt l a (a / 2 ^ c) is.0 (omega (arith, div-le_self a (2 ^ c), is.0)),
  elim (Bool-cases (ltb c l)) [
    | inl inside ↦
        let n : ℕ = l - c in
        let q : ℕ = 2 ^ c - 1 in
        let whole : 2 ^ l ≡ 2 ^ c * 2 ^ n = two_pow_split c n l (ground arith) in
        let top : q * 2 ^ n ≡ 2 ^ l - 2 ^ n = omega (arith, sub-mul (2 ^ c) 1 (2 ^ n), whole) in
        let split : q * 2 ^ n + (a - q * 2 ^ n) ≡ a = omega (arith, is.1, one-le-pow n 2) in
        let low : a / 2 ^ c < 2 ^ n =
          (div-lt_iff_lt-mul (one-le-pow c 2 (omega arith))).1
            (omega (arith, is.0, two_pow_split n c l)) in
        let ones = shifted_ones l c a (ground arith) is in
        let or = or_field n q (a - q * 2 ^ n) (a / 2 ^ c) (omega (arith, is.0, is.1)) low in
        let joined : q * 2 ^ n + a / 2 ^ c ≤ bit_or a (a / 2 ^ c) =
          subst (λ (t : ℕ). q * 2 ^ n + a / 2 ^ c ≤ bit_or t (a / 2 ^ c)) split or in
        omega (
          arith,
          one-le-pow n 2,
          pow-le-pow_right {n = 2} (omega arith) {i = n} {j = l} (omega arith),
        )
    | inr full ↦
        let none_left : l - c ≡ 0 = ground arith in
        let none_left' : l - (c + c) ≡ 0 = ground arith in
        let bound : 2 ^ l ≤ a + 2 ^ 0 = subst (λ (k : ℕ). 2 ^ l ≤ a + 2 ^ k) none_left is.1 in
        let more = le-bit_or a (a / 2 ^ c) in
        subst (λ (k : ℕ). 2 ^ l ≤ bit_or a (a / 2 ^ c) + 2 ^ k) (sym none_left') (omega arith)
  ],
)

pub de_morgan :
    (k a b : ℕ)
    → a < 2 ^ k
    → b < 2 ^ k
    → bit_and (2 ^ k - 1 - a) (2 ^ k - 1 - b) ≡ 2 ^ k - 1 - bit_or a b
de_morgan zero zero zero ha hb = refl
de_morgan zero (suc a) b ha hb = absurd (omega arith)
de_morgan zero zero (suc b) ha hb = absurd (omega arith)
de_morgan (suc k) a b ha hb =
    let p = pow-suc 2 k in
    let na : (2 ^ suc k - 1 - a) / 2 ≡ 2 ^ k - 1 - a / 2 = omega (arith, p, one-le-pow k 2) in
    let nb : (2 ^ suc k - 1 - b) / 2 ≡ 2 ^ k - 1 - b / 2 = omega (arith, p, one-le-pow k 2) in
    let rest = de_morgan k (a / 2) (b / 2) (omega (arith, p)) (omega (arith, p)) in
    let small = bit_or-lt k (a / 2) (b / 2) (omega (arith, p)) (omega (arith, p)) in
    bit_and_step (2 ^ suc k - 1 - a) (2 ^ suc k - 1 - b)
    ∙ rw (na, nb, rest) (omega (arith, p, one-le-pow k 2, bit_or_step a b))

count_table : all_below 32 (λ l. count_ones (not32 (2 ^ l - 1)) == 32 - l) ≡ true
unfolding count_ones add_pairs
count_table = refl

pub count_ones-not32 : (l : ℕ) → l < 32 → count_ones (not32 (2 ^ l - 1)) ≡ 32 - l
count_ones-not32 l h =
    (==_iff _ _).0
      (all_below_sound 32 (λ k. count_ones (not32 (2 ^ k - 1)) == 32 - k) l count_table h)
