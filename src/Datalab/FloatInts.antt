-- ===== src/Datalab/FloatInts.antt =====
-- The conversions of datalab/bits.c between numbers and the bits of a single-precision number.
use native.Mathlib.Nat.{
  one-le-pow, pow-le-pow_right, mul-le-mul_left, mul-div-mul_right, mul-div_cancel,
}
use cs_app_labs.Prelude.{
  ℕ, zero, suc, ◌+◌, ◌-◌, ◌*◌, ◌/◌, ◌^◌, ◌≡◌, ◌<◌, ◌≤◌, ◌⊎◌, refl, sym, ap, ◌∙◌, true, false, ltb,
  ◌==◌, if◌then◌else◌, arith, Bool-cases, inl, inr, bit_and,
}
use cs_app_labs.Prelude.Int.{pos, negsuc, ◌+ℤ◌, ltb_ℤ, ◌≤ℤ◌, pos_part}
use cs_app_labs.Prelude.Bits.{bit_and-mask, two_pow_split}
use cs_app_labs.Datalab.Int32.{add32, sub32, shl32, signed32}
use cs_app_labs.Datalab.Floats.{frac_mask_of_int, with_sign, float_float2int, less32, float_power2}
use cs_app_labs.Datalab.FloatLaws.{exponent_of, fraction_of, magnitude, exponent_lem}

fraction_int_lem : (uf : ℕ) → bit_and uf frac_mask_of_int ≡ fraction_of uf
fraction_int_lem uf = bit_and-mask 23 uf

-- A left shift of a number that has its sign is the shift of its absolute value.
shl32-with_sign :
    (uf n k : ℕ) → k ≤ 7 → 0 < n → n < 2 ^ 24 → shl32 (with_sign uf n) k ≡ with_sign uf (n * 2 ^ k)
shl32-with_sign uf n zero h lo hi = ground arith
shl32-with_sign uf n (suc zero) h lo hi = ground arith
shl32-with_sign uf n (suc (suc zero)) h lo hi = ground arith
shl32-with_sign uf n (suc (suc (suc zero))) h lo hi = ground arith
shl32-with_sign uf n (suc (suc (suc (suc zero)))) h lo hi = ground arith
shl32-with_sign uf n (suc (suc (suc (suc (suc zero))))) h lo hi = ground arith
shl32-with_sign uf n (suc (suc (suc (suc (suc (suc zero)))))) h lo hi = ground arith
shl32-with_sign uf n (suc (suc (suc (suc (suc (suc (suc zero))))))) h lo hi = ground arith
shl32-with_sign uf n (suc (suc (suc (suc (suc (suc (suc (suc k)))))))) h lo hi =
    absurd (omega arith)

module _ (uf : ℕ) where
  abbrev whole : ℕ
  whole = 2 ^ 23 + fraction_of uf

  magnitude_lem : 0 < exponent_of uf → magnitude uf ≡ whole * 2 ^ (exponent_of uf - 1)
  magnitude_lem h = let high : (exponent_of uf == 0) ≡ false = ground arith in rw high refl

  below_one : exponent_of uf < 126 → magnitude uf / 2 ^ 149 ≡ 0
  below_one h = elim (Bool-cases (exponent_of uf == 0)) [
    | inl low ↦ rw low (omega arith)
    | inr high ↦
        let small : 2 ^ (exponent_of uf - 1) ≤ 2 ^ 124 =
          pow-le-pow_right (omega arith) {j = 124} (omega arith) in
        let product : whole * 2 ^ (exponent_of uf - 1) ≤ whole * 2 ^ 124 =
          mul-le-mul_left whole small in
        rw high (omega arith)
  ]

  right :
      exponent_of uf ≤ 150
      → 126 ≤ exponent_of uf
      → whole / 2 ^ (150 - exponent_of uf) ≡ magnitude uf / 2 ^ 149
  right hi lo =
      let power = two_pow_split (150 - exponent_of uf) (exponent_of uf - 1) 149 (omega arith) in
      sym (
        ap (λ (t : ℕ). t / 2 ^ 149) (magnitude_lem (omega arith))
        ∙ ap (λ (d : ℕ). whole * 2 ^ (exponent_of uf - 1) / d) power
        ∙ mul-div-mul_right whole (2 ^ (150 - exponent_of uf))
            (one-le-pow (exponent_of uf - 1) 2 (omega arith)))

  left : 150 < exponent_of uf → whole * 2 ^ (exponent_of uf - 150) ≡ magnitude uf / 2 ^ 149
  left h =
      let power = two_pow_split (exponent_of uf - 150) 149 (exponent_of uf - 1) (omega arith) in
      sym (
        ap (λ (t : ℕ). t / 2 ^ 149)
          (magnitude_lem (omega arith) ∙ ap (λ (t : ℕ). whole * t) power ∙ omega arith)
        ∙ mul-div_cancel (whole * 2 ^ (exponent_of uf - 150)) {n = 2 ^ 149} (omega arith))

-- `floatFloat2Int` of a word gives the number without its fraction, with the sign, if the exponent
-- says that this fits an `int`, and the least `int` otherwise.
pub float_float2int_lem :
    (uf : ℕ)
    → uf < 2 ^ 32
    → float_float2int uf
      ≡ (if ltb 157 (exponent_of uf) then 2 ^ 31 else with_sign uf (magnitude uf / 2 ^ 149))
unfolding float_float2int
float_float2int_lem uf h =
    let e = exponent_lem uf in
    let n : add32 (bit_and uf frac_mask_of_int) (shl32 1 23) ≡ whole uf =
      rw (fraction_int_lem uf) (omega arith) in
    elim (Bool-cases (ltb (exponent_of uf) 126)) [
      | inl small ↦
          let not_large : ltb 157 (exponent_of uf) ≡ false = ground arith in
          rw (e, small, not_large, below_one uf (ground arith)) (ground arith)
      | inr not_small ↦ elim (Bool-cases (ltb 157 (exponent_of uf))) [
        | inl large ↦ rw (e, not_small, large) refl
        | inr not_large ↦ elim (Bool-cases (ltb (exponent_of uf) 151)) [
          | inl shrinks ↦
              rw (e, not_small, not_large, shrinks, n, right uf (ground arith) (ground arith)) refl
          | inr grows ↦
              rw (e, not_small, not_large, grows, n)
                (shl32-with_sign uf (whole uf) (exponent_of uf - 150) (ground arith) (omega arith)
                    (omega arith)
                  ∙ ap (with_sign uf) (left uf (ground arith)))
        ]
      ]
    ]

power_normal :
    (t : ℕ)
    → 23 ≤ t
    → t ≤ 276
    → (shl32 (t - 22) 23 < 255 * 2 ^ 23) × (magnitude (shl32 (t - 22) 23) ≡ 2 ^ t)
power_normal t lo hi =
    let v : shl32 (t - 22) 23 ≡ (t - 22) * 2 ^ 23 = omega arith in
    let e : exponent_of ((t - 22) * 2 ^ 23) ≡ t - 22 = omega arith in
    let f : fraction_of ((t - 22) * 2 ^ 23) ≡ 0 = omega arith in
    let high : (t - 22 == 0) ≡ false = ground arith in
    let pred : t - 22 - 1 ≡ t - 23 = omega arith in
    (omega arith, rw (v, e, high, f, pred) (sym (two_pow_split 23 (t - 23) t (omega arith))))

power_denormal : (t : ℕ) → t < 23 → (shl32 1 t < 255 * 2 ^ 23) × (magnitude (shl32 1 t) ≡ 2 ^ t)
power_denormal t h =
    let small : 2 ^ t ≤ 2 ^ 22 = pow-le-pow_right (omega arith) {j = 22} (omega arith) in
    let v : shl32 1 t ≡ 2 ^ t = omega arith in
    let e : exponent_of (2 ^ t) ≡ 0 = omega arith in (omega arith, rw (v, e) (omega arith))

-- On a word `x`, `floatPower2` gives infinity above 127 and zero below -149; from -149 to 127 it
-- gives a finite positive number, 2 to the power `x`.
pub float_power2_lem :
    (x : ℕ)
    → x < 2 ^ 32
    → ((ltb_ℤ (pos 127) (signed32 x) ≡ true) × (float_power2 x ≡ 255 * 2 ^ 23))
      ⊎ ((ltb_ℤ (signed32 x) (negsuc 148) ≡ true) × (float_power2 x ≡ 0))
      ⊎ ((negsuc 148 ≤ℤ signed32 x)
          × (signed32 x ≤ℤ pos 127)
          × (float_power2 x < 255 * 2 ^ 23)
          × (magnitude (float_power2 x) ≡ 2 ^ pos_part (signed32 x +ℤ pos 149)))
unfolding float_power2
float_power2_lem x h = elim (Bool-cases (less32 127 x)) [
  | inl big ↦ inl (ground arith, rw big refl)
  | inr not_big ↦ elim (Bool-cases (less32 x (sub32 0 149))) [
    | inl tiny ↦ inr (inl (ground arith, rw (not_big, tiny) refl))
    | inr not_tiny ↦
        let t : pos_part (signed32 x +ℤ pos 149) ≡ add32 x 149 = unfold ◌+ℤ◌ in ground arith in
        elim (Bool-cases (less32 x (sub32 0 126))) [
          | inl low ↦
              let k : add32 149 x ≡ add32 x 149 = omega arith in
              inr (
                inr (
                  rw (not_big, not_tiny, low, t, k)
                    (let (a, b) = power_denormal (add32 x 149) (ground arith) in
                      (ground arith, ground arith, a, b))))
          | inr high ↦
              let k : add32 x 127 ≡ add32 x 149 - 22 = ground arith in
              inr (
                inr (
                  rw (not_big, not_tiny, high, t, k)
                    (let (a, b) = power_normal (add32 x 149) (ground arith) (ground arith) in
                      (ground arith, ground arith, a, b))))
        ]
  ]
]
