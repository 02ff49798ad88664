-- ===== src/Datalab/Masks.antt =====
-- The puzzles of datalab/bits.c that compare a word with a mask.
use native.Mathlib.Nat.{div-div-eq-div-mul, pow-suc}
use cs_app_labs.Prelude.{
  ℕ, zero, suc, ◌+◌, ◌-◌, ◌*◌, ◌/◌, ◌%◌, ◌^◌, ◌≡◌, ◌<◌, ◌≤◌, ◌↔◌, refl, sym, ap, ◌∙◌, ◌==◌, arith,
  Bool-cases, inl, inr, bit_and, bit_or, bit_xor,
}
use cs_app_labs.Prelude.Bits.{
  bit_and_step, bit_and-le, bit_and_comm, bit_or-add-bit_and, bit_and-zero,
}
use cs_app_labs.Datalab.Int32.{not32, add32, lnot, truth}
use cs_app_labs.Datalab.Puzzles.{is_tmax, all_odd_bits, odd_mask}
use cs_app_labs.Datalab.Logic.{bit_xor-eq-zero, bit_xor_self}

pub le-bit_or : (a b : ℕ) → (a ≤ bit_or a b) × (b ≤ bit_or a b)
le-bit_or a b =
    omega (arith, bit_or-add-bit_and a b, bit_and-le a b, bit_and-le b a, bit_and_comm a b)

not-lnot : (n : ℕ) → 0 < n → lnot n ≡ 0
not-lnot n h = ground arith

-- On a word `isTmax` is 1 exactly at 2 ^ 31 - 1.
pub is_tmax_lem : (x : ℕ) → x < 2 ^ 32 → is_tmax x ≡ truth (x == 2 ^ 31 - 1)
unfolding is_tmax
is_tmax_lem x h = elim (Bool-cases (x == 2 ^ 31 - 1)) [
  | inl e ↦ let same : x ≡ 2 ^ 31 - 1 = ground arith in rw same refl
  | inr ne ↦
      let t : ℕ = add32 x 1 in
      let m : ℕ = add32 (not32 t) 1 in
      let bound = le-bit_or (bit_xor t m) (lnot t) in
      let some_bit : 0 < bit_or (bit_xor t m) (lnot t) = elim (Bool-cases (t == 0)) [
        | inl zero_t ↦ ground (arith, bound)
        | inr some_t ↦ ground (arith, bound, bit_xor-eq-zero t m)
      ] in
      rw ne (not-lnot _ some_bit)
]

-- The word whose odd digits are ones, of `k` pairs of digits.
abbrev odd_ones : ℕ → ℕ
odd_ones zero = 0
odd_ones (suc k) = 4 * odd_ones k + 2

-- Digit `2 i + 1` of `x` is one, for each `i` below `k`.
abbrev pub HasOddOnes : ℕ → ℕ → Type 0
HasOddOnes k x = (i : ℕ) → i < k → x / 2 ^ (2 * i + 1) % 2 ≡ 1

bit_and-odd_ones :
    (k x : ℕ) → bit_and x (odd_ones (suc k)) ≡ 4 * bit_and (x / 4) (odd_ones k) + 2 * (x / 2 % 2)
bit_and-odd_ones k x =
    let one = bit_and_step x (4 * odd_ones k + 2) in
    let two = bit_and_step (x / 2) (2 * odd_ones k + 1) in
    let quarter : x / 2 / 2 ≡ x / 4 = omega arith in
    let half : (4 * odd_ones k + 2) / 2 ≡ 2 * odd_ones k + 1 = omega arith in
    let rest : (2 * odd_ones k + 1) / 2 ≡ odd_ones k = omega arith in
    one ∙ rw half (rw two (rw (quarter, rest) (omega arith)))

digit_above : (x i : ℕ) → x / 2 ^ (2 * suc i + 1) ≡ x / 4 / 2 ^ (2 * i + 1)
digit_above x i =
    let up : 2 * suc i + 1 ≡ suc (suc (2 * i + 1)) = omega arith in
    let power : 2 ^ (2 * suc i + 1) ≡ 4 * 2 ^ (2 * i + 1) =
      ap (λ (k : ℕ). 2 ^ k) up
      ∙ omega (arith, pow-suc 2 (suc (2 * i + 1)), pow-suc 2 (2 * i + 1)) in
    ap (λ (d : ℕ). x / d) power ∙ sym (div-div-eq-div-mul x 4 (2 ^ (2 * i + 1)))

HasOddOnes-bit_and : (k x : ℕ) → HasOddOnes k x → bit_and x (odd_ones k) ≡ odd_ones k
HasOddOnes-bit_and zero x h = bit_and-zero x
HasOddOnes-bit_and (suc k) x h =
    let rest =
      HasOddOnes-bit_and k (x / 4)
        (λ i lt. ap (λ (t : ℕ). t % 2) (sym (digit_above x i)) ∙ h (suc i) (omega arith)) in
    let low : x / 2 % 2 ≡ 1 = h 0 (omega arith) in omega (arith, bit_and-odd_ones k x)

bit_and-HasOddOnes : (k x : ℕ) → bit_and x (odd_ones k) ≡ odd_ones k → HasOddOnes k x
bit_and-HasOddOnes zero x e i lt = absurd (omega arith)
bit_and-HasOddOnes (suc k) x e zero lt = omega (
  arith,
  bit_and-odd_ones k x,
  bit_and-le (odd_ones k) (x / 4),
  bit_and_comm (odd_ones k) (x / 4),
)
bit_and-HasOddOnes (suc k) x e (suc i) lt =
    let rest : bit_and (x / 4) (odd_ones k) ≡ odd_ones k = omega (
      arith,
      bit_and-odd_ones k x,
      bit_and-le (odd_ones k) (x / 4),
      bit_and_comm (odd_ones k) (x / 4),
    ) in
    ap (λ (t : ℕ). t % 2) (digit_above x i) ∙ bit_and-HasOddOnes k (x / 4) rest i (omega arith)

-- `allOddBits` is 1 exactly if all odd digits of a word are ones, and is 0 otherwise.
pub all_odd_bits_lem : (x : ℕ) → (HasOddOnes 16 x ↔ (all_odd_bits x ≡ 1)) × (all_odd_bits x ≤ 1)
unfolding all_odd_bits
all_odd_bits_lem x = (
  (
    λ h. rw (HasOddOnes-bit_and 16 x h) (ap lnot (bit_xor_self odd_mask)),
    λ e. bit_and-HasOddOnes 16 x (bit_xor-eq-zero (bit_and x odd_mask) odd_mask (ground arith)),
  ),
  ground arith,
)
