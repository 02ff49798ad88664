-- ===== src/Datalab/FloatLaws.antt =====
-- The floating-point puzzles of datalab/bits.c, against the number that the bits stand for.
use native.Mathlib.Nat.{pow-suc, div-div-eq-div-mul}
use cs_app_labs.Prelude.{
  ℕ, zero, suc, ◌+◌, ◌-◌, ◌*◌, ◌/◌, ◌%◌, ◌^◌, ◌≡◌, ◌<◌, ◌≤◌, ◌⊎◌, refl, sym, ap, ◌∙◌, true, false,
  ltb, ◌==◌, if◌then◌else◌, arith, Bool-cases, inl, inr, bit_and,
}
use cs_app_labs.Prelude.Bits.{bit_and-complement, bit_and_step, bit_and-mask}
use cs_app_labs.Datalab.Int32.{not32, add32, shl32}
use cs_app_labs.Datalab.Floats.{exp_mask, frac_mask, float_scale2}

div-pow-suc : (x k : ℕ) → x / 2 ^ suc k ≡ x / 2 / 2 ^ k
div-pow-suc x k =
    let power : 2 ^ suc k ≡ 2 * 2 ^ k = omega (arith, pow-suc 2 k) in
    ap (λ (d : ℕ). x / d) power ∙ sym (div-div-eq-div-mul x 2 (2 ^ k))

pub bit_and-div : (k a b : ℕ) → bit_and a b / 2 ^ k ≡ bit_and (a / 2 ^ k) (b / 2 ^ k)
bit_and-div zero a b =
    let id : (n : ℕ) → n / 1 ≡ n = λ n. omega arith in rw (id (bit_and a b), id a, id b) refl
bit_and-div (suc k) a b =
    let half : bit_and a b / 2 ≡ bit_and (a / 2) (b / 2) = omega (arith, bit_and_step a b) in
    div-pow-suc (bit_and a b) k
    ∙ ap (λ (t : ℕ). t / 2 ^ k) half
    ∙ bit_and-div k (a / 2) (b / 2)
    ∙ rw (div-pow-suc a k, div-pow-suc b k) refl

-- The fields of a single-precision number.
abbrev pub exponent_of : ℕ → ℕ
exponent_of uf = uf / 2 ^ 23 % 2 ^ 8

abbrev pub fraction_of : ℕ → ℕ
fraction_of uf = uf % 2 ^ 23

abbrev pub sign_of : ℕ → ℕ
sign_of uf = uf / 2 ^ 31

-- The absolute value of a finite number, times 2 ^ 149.
abbrev pub magnitude : ℕ → ℕ
magnitude uf =
    if exponent_of uf == 0
    then fraction_of uf
    else (2 ^ 23 + fraction_of uf) * 2 ^ (exponent_of uf - 1)

pub exponent_lem : (uf : ℕ) → bit_and uf exp_mask / 2 ^ 23 ≡ exponent_of uf
exponent_lem uf = bit_and-div 23 uf exp_mask ∙ bit_and-mask 8 (uf / 2 ^ 23)

fraction_lem : (uf : ℕ) → bit_and uf frac_mask ≡ fraction_of uf
fraction_lem uf = bit_and-mask 23 uf

-- `uf & ~fracMask` clears the fraction.
clear_lem : (uf : ℕ) → uf < 2 ^ 32 → bit_and uf (not32 frac_mask) ≡ uf - fraction_of uf
clear_lem uf h = omega (arith, bit_and-complement 32 uf frac_mask h (omega arith), fraction_lem uf)

-- What doubling is to give.
abbrev IsDoubled : (uf v : ℕ) → Type 0
IsDoubled uf v = (exponent_of v < 255) × (sign_of v ≡ sign_of uf) × (magnitude v ≡ 2 * magnitude uf)

pub power_pred : (n : ℕ) → 0 < n → 2 ^ n ≡ 2 * 2 ^ (n - 1)
power_pred n h =
    let up : n ≡ suc (n - 1) = omega arith in
    ap (λ (k : ℕ). 2 ^ k) up ∙ omega (arith, pow-suc 2 (n - 1))

-- A number above the least exponent is doubled by its exponent.
exponent-IsDoubled :
    (uf : ℕ)
    → uf < 2 ^ 32
    → (exponent_of uf == 0) ≡ false
    → exponent_of uf < 254
    → IsDoubled uf (uf + 2 ^ 23)
exponent-IsDoubled uf h high room =
    let up : exponent_of (uf + 2 ^ 23) ≡ exponent_of uf + 1 = ground arith in
    let same : fraction_of (uf + 2 ^ 23) ≡ fraction_of uf = omega arith in
    let next : (exponent_of uf + 1 == 0) ≡ false = ground arith in
    let pred : exponent_of uf + 1 - 1 ≡ exponent_of uf = omega arith in
    (
      omega arith,
      omega arith,
      rw (up, same, next, high, pred)
          (omega (
            arith,
            ap (λ (p : ℕ). (2 ^ 23 + fraction_of uf) * p)
                (power_pred (exponent_of uf) (ground arith)),
          )),
    )

-- A number at the least exponent is doubled by its fraction, which may carry into the exponent.
fraction-IsDoubled :
    (uf : ℕ) → uf < 2 ^ 32 → (exponent_of uf == 0) ≡ true → IsDoubled uf (uf + fraction_of uf)
fraction-IsDoubled uf h low =
    let none_there : exponent_of uf ≡ 0 = ground arith in
    elim (Bool-cases (ltb (2 * fraction_of uf) (2 ^ 23))) [
      | inl fits ↦
          let bound : 2 * fraction_of uf < 2 ^ 23 = ground arith in
          let still : exponent_of (uf + fraction_of uf) ≡ 0 = omega arith in
          (omega arith, omega arith, rw (still, none_there) (omega arith))
      | inr carries ↦
          let bound : 2 ^ 23 ≤ 2 * fraction_of uf = ground arith in
          let up : exponent_of (uf + fraction_of uf) ≡ 1 = omega arith in
          (omega arith, omega arith, rw (up, none_there) (omega arith))
    ]

-- `floatScale2` of a word leaves infinities and NaNs alone. It gives the infinity of the same sign
-- where twice the number is too large, and otherwise a finite number of the same sign and twice
-- the absolute value, denormalised numbers included.
pub float_scale2_lem :
    (uf : ℕ)
    → uf < 2 ^ 32
    → ((exponent_of uf ≡ 255) × (float_scale2 uf ≡ uf))
      ⊎ ((exponent_of uf ≡ 254) × (float_scale2 uf ≡ sign_of uf * 2 ^ 31 + 255 * 2 ^ 23))
      ⊎ ((exponent_of uf < 254)
          × (exponent_of (float_scale2 uf) < 255)
          × (sign_of (float_scale2 uf) ≡ sign_of uf)
          × (magnitude (float_scale2 uf) ≡ 2 * magnitude uf))
unfolding float_scale2
float_scale2_lem uf h =
    let e = exponent_lem uf in
    elim (Bool-cases (exponent_of uf == 255)) [
      | inl top ↦ inl (ground arith, rw (e, top) refl)
      | inr not_top ↦ elim (Bool-cases (exponent_of uf == 0)) [
        | inl low ↦ inr (
            inr (
              let sum : add32 (uf - fraction_of uf) (shl32 (fraction_of uf) 1)
                  ≡ uf + fraction_of uf =
                ground arith in
              rw (e, not_top, low, clear_lem uf h, fraction_lem uf, sum)
                (let (a, b, c) = fraction-IsDoubled uf h low in (ground arith, a, b, rw low at c))))
        | inr high ↦ elim (Bool-cases (exponent_of uf == 254)) [
          | inl last ↦
              let is_last : exponent_of uf ≡ 254 = ground arith in
              inr (
                inl (
                  is_last,
                  rw (e, not_top, high, last, clear_lem (add32 uf (2 ^ 23)) (omega arith))
                      (omega arith),
                ))
          | inr inner ↦
              let room : exponent_of uf < 254 = ground arith in
              let sum : add32 uf (2 ^ 23) ≡ uf + 2 ^ 23 = omega arith in
              inr (
                inr (
                  rw (e, not_top, high, inner, sum)
                    (let (a, b, c) = exponent-IsDoubled uf h high room in
                      (room, a, b, rw high at c))))
        ]
      ]
    ]
