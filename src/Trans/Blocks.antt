-- ===== src/Trans/Blocks.antt =====
-- The cells of `B` that `trans64` and `trans32` of cachelab/trans.c set: all of them.
use cs_app_labs.Prelude.{ℕ, ◌+◌, ◌*◌, ◌/◌, ◌%◌, ◌≡◌, ◌<◌, ◌≤◌, Bool, true, false, arith, ◌⊎◌}
use cs_app_labs.Trans.Matrix.{Matrix}
use cs_app_labs.Trans.Transpose.{trans32, trans64}
use cs_app_labs.Trans.Loops.{Sets, any_from, for_from-Sets, any_round-true, any_round-false}
use cs_app_labs.Trans.Setting.{
  column4, column8, column4-outside, column8-outside, column4-inside, column8-inside, move4-Sets,
  move8-Sets,
}

-- The cells that `trans64` sets.
abbrev i64 : (fi j r c : ℕ) → Bool
i64 fi j r c = any_from 0 8 1 (λ i. column4 j (i + fi) r c)

abbrev j64 : (fi fj r c : ℕ) → Bool
j64 fi fj r c = any_from 0 8 4 (λ sub. i64 fi (fj + sub) r c)

abbrev row64 : (fi r c : ℕ) → Bool
row64 fi r c = any_from 0 64 8 (λ fj. j64 fi fj r c)

abbrev pub cells64 : (r c : ℕ) → Bool
cells64 r c = any_from 0 64 8 (λ fi. row64 fi r c)

pub cells64-inside : (r c : ℕ) → r < 64 → c < 64 → cells64 r c ≡ true
cells64-inside r c hr hc =
    let fi = 8 * (c / 8) in
    let fj = 8 * (r / 8) in
    let sub = 4 * ((r % 8) / 4) in
    any_round-true 65 0 64 8 (c / 8) fi _ (omega arith) (omega arith) (omega arith) (
      any_round-true 65 0 64 8 (r / 8) fj _ (omega arith) (omega arith) (omega arith) (
        any_round-true 9 0 8 4 ((r % 8) / 4) sub _ (omega arith) (omega arith) (omega arith) (
          any_round-true 9 0 8 1 (c % 8) (c % 8) _ (omega arith) (omega arith) (omega arith) (
            column4-inside (fj + sub) (c % 8 + fi) r c (omega arith) (omega arith) (omega arith)))))

pub cells64-outside : (r c : ℕ) → (64 ≤ r) ⊎ (64 ≤ c) → cells64 r c ≡ false
cells64-outside r c out = any_round-false 65 0 64 8 _ (λ s fi at hi.
    any_round-false 65 0 64 8 _ (λ t fj at' hi'. any_round-false 9 0 8 4 _ (λ u sub at'' hi''.
      any_round-false 9 0 8 1 _ (λ _ i _ hi'''.
        column4-outside 64 64 (fj + sub) (i + fi) r c (omega arith) (omega arith) out))))

-- The cells that `trans32` sets.
abbrev i32 : (fi fj r c : ℕ) → Bool
i32 fi fj r c = any_from 0 8 1 (λ i. column8 fj (i + fi) r c)

abbrev row32 : (fi r c : ℕ) → Bool
row32 fi r c = any_from 0 32 8 (λ fj. i32 fi fj r c)

abbrev pub cells32 : (r c : ℕ) → Bool
cells32 r c = any_from 0 32 8 (λ fi. row32 fi r c)

pub cells32-inside : (r c : ℕ) → r < 32 → c < 32 → cells32 r c ≡ true
cells32-inside r c hr hc =
    let fi = 8 * (c / 8) in
    let fj = 8 * (r / 8) in
    any_round-true 33 0 32 8 (c / 8) fi _ (omega arith) (omega arith) (omega arith) (
      any_round-true 33 0 32 8 (r / 8) fj _ (omega arith) (omega arith) (omega arith) (
        any_round-true 9 0 8 1 (c % 8) (c % 8) _ (omega arith) (omega arith) (omega arith)
          (column8-inside fj (c % 8 + fi) r c (omega arith) (omega arith) (omega arith))))

pub cells32-outside : (r c : ℕ) → (32 ≤ r) ⊎ (32 ≤ c) → cells32 r c ≡ false
cells32-outside r c out = any_round-false 33 0 32 8 _ (λ s fi at hi.
    any_round-false 33 0 32 8 _ (λ t fj at' hi'.
      any_round-false 9 0 8 1 _
        (λ _ i _ hi''. column8-outside 32 32 fj (i + fi) r c (omega arith) (omega arith) out)))

module _ (a : Matrix) where
  pub trans64-Sets : Sets a cells64 (trans64 64 64 a)
  unfolding trans64
  trans64-Sets = for_from-Sets a 0 64 8 row64 _ (omega arith) (omega arith) (λ s fi at hi.
      for_from-Sets a 0 64 8 (j64 fi) _ (omega arith) (omega arith) (λ t fj at' hi'.
        for_from-Sets a 0 8 4 (λ sub. i64 fi (fj + sub)) _ (omega arith) (omega arith)
          (λ u sub at'' hi''.
            for_from-Sets a 0 8 1 (λ i. column4 (fj + sub) (i + fi)) _ (omega arith) (omega arith)
              (λ _ i _ hi'''. move4-Sets 64 64 a (i + fi) (fj + sub) (omega arith) (omega arith)))))

  pub trans32-Sets : Sets a cells32 (trans32 32 32 a)
  unfolding trans32
  trans32-Sets = for_from-Sets a 0 32 8 row32 _ (omega arith) (omega arith) (λ s fi at hi.
      for_from-Sets a 0 32 8 (i32 fi) _ (omega arith) (omega arith) (λ t fj at' hi'.
        for_from-Sets a 0 8 1 (λ i. column8 fj (i + fi)) _ (omega arith) (omega arith)
          (λ _ i _ hi''. move8-Sets 32 32 a (i + fi) fj (omega arith) (omega arith))))
