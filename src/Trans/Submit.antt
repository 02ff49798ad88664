-- ===== src/Trans/Submit.antt =====
-- `transpose_submit` of cachelab/trans.c.
use cs_app_labs.Prelude.{
  ◌+◌, ◌^◌, ℕ, ◌≡◌, ◌<◌, ◌≤◌, ap, ◌∙◌, Bool, true, false, ◌&&◌, Option, some, ltb, ◌==◌,
  if◌then◌else◌, arith, Bool-cases, inl, inr, ltb→lt, ◌⊎◌,
}
use cs_app_labs.Trans.Matrix.{Matrix}
use cs_app_labs.Trans.Transpose.{transpose_submit}
use cs_app_labs.Trans.Loops.{Sets}
use cs_app_labs.Trans.Cover.{x_cells, trans_x-Sets, x_cells-inside, x_cells-outside}
use cs_app_labs.Trans.Blocks.{
  cells32, cells64, trans32-Sets, trans64-Sets, cells32-inside, cells32-outside, cells64-inside,
  cells64-outside,
}

-- From the cells that are set to the whole array.
whole :
    (m n : ℕ) (a b : Matrix) (touch : ℕ → ℕ → Bool) (f : Matrix → Option Matrix)
    → Sets a touch f
    → ((r c : ℕ) → r < m → c < n → touch r c ≡ true)
    → ((r c : ℕ) → (m ≤ r) ⊎ (n ≤ c) → touch r c ≡ false)
    → (d : Matrix) × (f b ≡ some d)
      × ((k i : ℕ) → d k i ≡ (if ltb k m && ltb i n then a i k else b k i))
whole m n a b touch f sets inside outside =
    let (d, runs, cells) = sets b in
    let same : (k i : ℕ) → touch k i ≡ (ltb k m && ltb i n) = λ k i. elim (Bool-cases (ltb k m)) [
      | inl hk ↦ elim (Bool-cases (ltb i n)) [
        | inl hi ↦ rw (hk, hi) (inside k i (ltb→lt k m hk) (ltb→lt i n hi))
        | inr hi ↦ rw (hk, hi) (outside k i (inr (ground arith)))
      ]
      | inr hk ↦ rw hk (outside k i (inl (ground arith)))
    ] in
    (d, runs, λ k i. cells k i ∙ ap (λ t. if t then a i k else b k i) (same k i))

-- `transpose_submit` of `m` and `n` up to 2^31 - 8 ends, with no access outside `A` or `B` and no
-- sum that is too large for an `int`, and then `B[k][i]` is `A[i][k]` at each `k` below `m` and `i` below `n`, and nothing else is changed.
pub transpose_submit_lem :
    (m n : ℕ) (a b : Matrix)
    → m + 8 ≤ 2 ^ 31
    → n + 8 ≤ 2 ^ 31
    → (d : Matrix) × (transpose_submit m n a b ≡ some d)
      × ((k i : ℕ) → d k i ≡ (if ltb k m && ltb i n then a i k else b k i))
unfolding transpose_submit
transpose_submit_lem m n a b short short' = elim (Bool-cases ((n == 32) && (m == 32))) [
  | inl small ↦
      let rows : n ≡ 32 = ground arith in
      let columns : m ≡ 32 = ground arith in
      rw (rows, columns) (whole 32 32 a b cells32 _ (trans32-Sets a) cells32-inside cells32-outside)
  | inr other ↦ elim (Bool-cases ((n == 64) && (m == 64))) [
    | inl large ↦
        let rows : n ≡ 64 = ground arith in
        let columns : m ≡ 64 = ground arith in
        rw (rows, columns)
          (whole 64 64 a b cells64 _ (trans64-Sets a) cells64-inside cells64-outside)
    | inr any ↦
        rw (other, any)
          (whole m n a b (x_cells m n) _ (trans_x-Sets m n a short short') (x_cells-inside m n a)
            (x_cells-outside m n a))
  ]
]
