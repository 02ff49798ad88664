-- ===== src/Prelude/Bits.antt =====
-- The native bit operations as arithmetic: one equation for the lowest digit, and the
-- laws that follow for fields and masks at every width.
use Prim.Native.Nat.{
  min, max, digits, bitwise, bit_and-bitwise, bit_or-bitwise, bit_xor-bitwise, differ,
}
use native.Mathlib.Nat.{le_refl, pow-suc, one-le-pow, div-add-mod', mod-lt}
use cs_app_labs.Prelude.{
  ℕ, zero, suc, ◌+◌, ◌-◌, ◌*◌, ◌/◌, ◌%◌, ◌^◌, ◌≤◌, ◌<◌, bit_and, bit_or, bit_xor, ◌≡◌, refl, sym,
  ap, ◌∙◌, arith,
}

-- The recursion on digits that the operations are defined by: `start` ends it, `pair` joins two.
module _ (start : ℕ → ℕ) (pair : ℕ → ℕ → ℕ) where
  digits-zero : (rounds y : ℕ) → digits start pair rounds 0 y ≡ start y
  digits-zero zero y = refl
  digits-zero (suc rounds) y = refl

  -- Rounds beyond the size of the first number change nothing.
  digits_settled :
      (few many x y : ℕ)
      → x ≤ few
      → few ≤ many
      → digits start pair many x y ≡ digits start pair few x y
  digits_settled zero many zero y h g = digits-zero many y
  digits_settled zero many (suc x) y h g = absurd (omega arith)
  digits_settled (suc few) zero x y h g = absurd (omega arith)
  digits_settled (suc few) (suc many) zero y h g = refl
  digits_settled (suc few) (suc many) (suc x) y h g =
      ap (λ (t : ℕ). t * 2 + pair (suc x % 2) (y % 2))
        (digits_settled few many (suc x / 2) (y / 2) (omega arith) (omega arith))

  lowest_digit :
      (x y : ℕ)
      → 0 < x
      → bitwise start pair x y ≡ bitwise start pair (x / 2) (y / 2) * 2 + pair (x % 2) (y % 2)
  lowest_digit zero y h = absurd (omega arith)
  lowest_digit (suc x) y h =
      ap (λ (t : ℕ). t * 2 + pair (suc x % 2) (y % 2))
        (digits_settled (suc x / 2) x (suc x / 2) (y / 2) (omega arith) (omega arith))

pub bit_and_step : (x y : ℕ) → bit_and x y ≡ 2 * bit_and (x / 2) (y / 2) + min (x % 2) (y % 2)
bit_and_step zero y = simp bit_and-bitwise (omega arith)
bit_and_step (suc x) y =
    simp bit_and-bitwise (omega (arith, lowest_digit (λ _. 0) min (suc x) y (omega arith)))

pub bit_or_step : (x y : ℕ) → bit_or x y ≡ 2 * bit_or (x / 2) (y / 2) + max (x % 2) (y % 2)
bit_or_step zero y = simp bit_or-bitwise (omega arith)
bit_or_step (suc x) y =
    simp bit_or-bitwise (omega (arith, lowest_digit (λ v. v) max (suc x) y (omega arith)))

-- The sum of two binary digits without its carry.
differ-eq-mod : (a b : ℕ) → a < 2 → b < 2 → differ a b ≡ (a + b) % 2
differ-eq-mod zero zero p q = refl
differ-eq-mod zero (suc zero) p q = refl
differ-eq-mod (suc zero) zero p q = refl
differ-eq-mod (suc zero) (suc zero) p q = refl
differ-eq-mod zero (suc (suc b)) p q = absurd (omega arith)
differ-eq-mod (suc zero) (suc (suc b)) p q = absurd (omega arith)
differ-eq-mod (suc (suc a)) b p q = absurd (omega arith)

bit_xor-differ : (a b : ℕ) → bit_xor a b ≡ bit_xor (a / 2) (b / 2) * 2 + differ (a % 2) (b % 2)
bit_xor-differ zero b = simp bit_xor-bitwise (omega (arith, differ-eq-mod 0 (b % 2)))
bit_xor-differ (suc a) b =
    simp bit_xor-bitwise (omega (arith, lowest_digit (λ v. v) differ (suc a) b (omega arith)))

pub bit_xor_step : (a b : ℕ) → bit_xor a b ≡ bit_xor (a / 2) (b / 2) * 2 + (a % 2 + b % 2) % 2
bit_xor_step a b = omega (arith, bit_xor-differ a b, differ-eq-mod (a % 2) (b % 2))

pub zero-bit_or : (b : ℕ) → bit_or 0 b ≡ b
zero-bit_or b = bit_or-bitwise 0 b

pub zero-bit_and : (b : ℕ) → bit_and 0 b ≡ 0
zero-bit_and b = bit_and-bitwise 0 b

pub zero-bit_xor : (b : ℕ) → bit_xor 0 b ≡ b
zero-bit_xor b = bit_xor-bitwise 0 b

halving_fuel :
    (P : ℕ → ℕ → Type 0)
    → ((b : ℕ) → P 0 b)
    → ((a b : ℕ) → P (a / 2) (b / 2) → P a b)
    → (n a b : ℕ) → a ≤ n
    → P a b
halving_fuel P base step n zero b h = base b
halving_fuel P base step zero (suc a) b h = absurd (omega arith)
halving_fuel P base step (suc n) (suc a) b h =
    step (suc a) b (halving_fuel P base step n (suc a / 2) (b / 2) (omega arith))

-- Induction on two words by their binary digits.
pub by_digits :
    (P : ℕ → ℕ → Type 0)
    → ((b : ℕ) → P 0 b)
    → ((a b : ℕ) → P (a / 2) (b / 2) → P a b)
    → (a b : ℕ) → P a b
by_digits P base step a b = halving_fuel P base step a a b (le_refl a)

pub bit_and-zero : (a : ℕ) → bit_and a 0 ≡ 0
bit_and-zero a =
    by_digits (λ a _. bit_and a 0 ≡ 0) (λ _. refl) (λ a _ ih. omega (arith, ih, bit_and_step a 0)) a
      0

pub bit_or-zero : (a : ℕ) → bit_or a 0 ≡ a
bit_or-zero a =
    by_digits (λ a _. bit_or a 0 ≡ a) (λ _. refl) (λ a _ ih. omega (arith, ih, bit_or_step a 0)) a 0

pub bit_xor-zero : (a : ℕ) → bit_xor a 0 ≡ a
bit_xor-zero a =
    by_digits (λ a _. bit_xor a 0 ≡ a) (λ _. refl) (λ a _ ih. omega (arith, ih, bit_xor_step a 0)) a
      0

pub bit_and_comm : (a b : ℕ) → bit_and a b ≡ bit_and b a
bit_and_comm =
    by_digits (λ a b. bit_and a b ≡ bit_and b a)
      (λ b. omega (arith, zero-bit_and b, bit_and-zero b))
      (λ a b ih. omega (arith, ih, bit_and_step a b, bit_and_step b a))

pub bit_or_comm : (a b : ℕ) → bit_or a b ≡ bit_or b a
bit_or_comm =
    by_digits (λ a b. bit_or a b ≡ bit_or b a) (λ b. omega (arith, zero-bit_or b, bit_or-zero b))
      (λ a b ih. omega (arith, ih, bit_or_step a b, bit_or_step b a))

pub bit_xor_comm : (a b : ℕ) → bit_xor a b ≡ bit_xor b a
bit_xor_comm =
    by_digits (λ a b. bit_xor a b ≡ bit_xor b a)
      (λ b. omega (arith, zero-bit_xor b, bit_xor-zero b))
      (λ a b ih. omega (arith, ih, bit_xor_step a b, bit_xor_step b a))

-- `a` and `b` together have the digits of both and, once more, those they share.
pub bit_or-add-bit_and : (a b : ℕ) → bit_or a b + bit_and a b ≡ a + b
bit_or-add-bit_and =
    by_digits (λ a b. bit_or a b + bit_and a b ≡ a + b)
      (λ b. omega (arith, zero-bit_or b, zero-bit_and b))
      (λ a b ih. omega (arith, ih, bit_or_step a b, bit_and_step a b))

pub bit_xor-add-bit_and : (a b : ℕ) → bit_xor a b + 2 * bit_and a b ≡ a + b
bit_xor-add-bit_and =
    by_digits (λ a b. bit_xor a b + 2 * bit_and a b ≡ a + b)
      (λ b. omega (arith, zero-bit_xor b, zero-bit_and b))
      (λ a b ih. omega (arith, ih, bit_xor_step a b, bit_and_step a b))

pub bit_and-le : (a b : ℕ) → bit_and a b ≤ a
bit_and-le =
    by_digits (λ a b. bit_and a b ≤ a) (λ b. omega (arith, zero-bit_and b))
      (λ a b ih. omega (arith, ih, bit_and_step a b))

-- An operation on words below `2 ^ k` stays below it.
pub bit_or-lt : (k a b : ℕ) → a < 2 ^ k → b < 2 ^ k → bit_or a b < 2 ^ k
bit_or-lt zero zero zero p q = omega (arith, zero-bit_or 0)
bit_or-lt zero (suc a) b p q = absurd (omega arith)
bit_or-lt zero zero (suc b) p q = absurd (omega arith)
bit_or-lt (suc k) a b p q = omega (
  arith,
  bit_or_step a b,
  pow-suc 2 k,
  bit_or-lt k (a / 2) (b / 2) (omega (arith, pow-suc 2 k)) (omega (arith, pow-suc 2 k)),
)

pub bit_xor-lt : (k a b : ℕ) → a < 2 ^ k → b < 2 ^ k → bit_xor a b < 2 ^ k
bit_xor-lt k a b p q =
    omega (arith, bit_or-lt k a b p q, bit_or-add-bit_and a b, bit_xor-add-bit_and a b)

double-pow : (q k : ℕ) → q * 2 ^ suc k ≡ 2 * (q * 2 ^ k)
double-pow q k = omega (arith, ap (λ (t : ℕ). q * t) (pow-suc 2 k))

bit_and-ones : (k q r : ℕ) → r < 2 ^ k → bit_and (q * 2 ^ k + r) (2 ^ k - 1) ≡ r
bit_and-ones zero q r h = omega (arith, bit_and-zero (q * 2 ^ 0 + r))
bit_and-ones (suc k) q r h =
    let ones : 2 ^ suc k - 1 ≡ 2 * (2 ^ k - 1) + 1 = omega (arith, pow-suc 2 k, one-le-pow k 2) in
    let halves : (2 ^ suc k - 1) / 2 ≡ 2 ^ k - 1 = omega arith in
    let whole : (q * 2 ^ suc k + r) / 2 ≡ q * 2 ^ k + r / 2 = omega (arith, double-pow q k) in
    let step = bit_and_step (q * 2 ^ suc k + r) (2 ^ suc k - 1) in
    let rest = bit_and-ones k q (r / 2) (omega (arith, pow-suc 2 k)) in
    step ∙ rw (halves, whole, rest) (omega (arith, double-pow q k))

-- The low `k` digits, by a mask of `k` ones.
pub bit_and-mask : (k a : ℕ) → bit_and a (2 ^ k - 1) ≡ a % 2 ^ k
bit_and-mask k a =
    let parts : a ≡ a / 2 ^ k * 2 ^ k + a % 2 ^ k = sym (div-add-mod' a (2 ^ k)) in
    ap (λ t. bit_and t (2 ^ k - 1)) parts
    ∙ bit_and-ones k (a / 2 ^ k) (a % 2 ^ k) (mod-lt a (one-le-pow k 2 (omega arith)))

-- A field shifted above `k` digits and one that fits below them share no digit.
pub bit_and-fields : (k q r : ℕ) → r < 2 ^ k → bit_and (q * 2 ^ k) r ≡ 0
bit_and-fields zero q r h = let e : r ≡ 0 = omega arith in rw e (bit_and-zero _)
bit_and-fields (suc k) q r h = ground (
  arith,
  double-pow q k,
  bit_and_step (q * 2 ^ suc k) r,
  bit_and-fields k q (r / 2) (omega (arith, pow-suc 2 k)),
)

pub bit_or-fields : (k q r : ℕ) → r < 2 ^ k → bit_or (q * 2 ^ k) r ≡ q * 2 ^ k + r
bit_or-fields k q r h = omega (arith, bit_and-fields k q r h, bit_or-add-bit_and (q * 2 ^ k) r)

pub bit_xor-fields : (k q r : ℕ) → r < 2 ^ k → bit_xor (q * 2 ^ k) r ≡ q * 2 ^ k + r
bit_xor-fields k q r h = omega (arith, bit_and-fields k q r h, bit_xor-add-bit_and (q * 2 ^ k) r)

pub two_pow_add : (a b : ℕ) → 2 ^ (a + b) ≡ 2 ^ a * 2 ^ b
two_pow_add zero b =
    let same : zero + b ≡ b = omega arith in ap (λ (k : ℕ). 2 ^ k) same ∙ omega arith
two_pow_add (suc a) b =
    let up : suc a + b ≡ suc (a + b) = omega arith in
    let rest = two_pow_add a b in
    ap (λ (k : ℕ). 2 ^ k) up ∙ pow-suc 2 (a + b) ∙ grind (arith, pow-suc 2 a, rest)

-- Two powers whose exponents add up.
pub two_pow_split : (a b c : ℕ) → a + b ≡ c → 2 ^ c ≡ 2 ^ a * 2 ^ b
two_pow_split a b c h = ap (λ (k : ℕ). 2 ^ k) (sym h) ∙ two_pow_add a b

-- A mask and its complement share the digits of a number.
pub bit_and-complement :
    (k a m : ℕ) → a < 2 ^ k → m < 2 ^ k → bit_and a m + bit_and a (2 ^ k - 1 - m) ≡ a
bit_and-complement zero zero m ha hm = omega (arith, zero-bit_and m, zero-bit_and (2 ^ 0 - 1 - m))
bit_and-complement zero (suc a) m ha hm = absurd (omega arith)
bit_and-complement (suc k) a m ha hm =
    let p = pow-suc 2 k in
    let half : (2 ^ suc k - 1 - m) / 2 ≡ 2 ^ k - 1 - m / 2 = omega (arith, p, one-le-pow k 2) in
    let rest = bit_and-complement k (a / 2) (m / 2) (omega (arith, p)) (omega (arith, p)) in
    let other : bit_and a (2 ^ suc k - 1 - m)
        ≡ 2 * bit_and (a / 2) (2 ^ k - 1 - m / 2) + min (a % 2) ((2 ^ suc k - 1 - m) % 2) =
      bit_and_step a (2 ^ suc k - 1 - m) ∙ rw half refl in
    omega (arith, p, bit_and_step a m)
