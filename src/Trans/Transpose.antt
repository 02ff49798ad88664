-- ===== src/Trans/Transpose.antt =====
-- The transpositions of cachelab/trans.c, and `is_transpose`. `A` is `int A[N][M]` and `B` is
-- `int B[M][N]`; they do not overlap.
use cs_app_labs.Prelude.{
  ◌>>=◌, ℕ, zero, suc, ◌+◌, Bool, true, ◌&&◌, Option, some, ltb, ◌==◌, if◌then◌else◌,
}
use cs_app_labs.Trans.Matrix.{Matrix, read, write, int_sum, for_from}

-- `i + 8 > N ? N : i + 8`, and the same with 4 and `M`.
unfoldable pub end_of : (x step bound : ℕ) → Option ℕ
end_of x step bound = do end ← int_sum x step; some (if ltb bound end then bound else end)

module _ (m n : ℕ) (a : Matrix) where
  -- `B[k][i] = A[i][k]`.
  unfoldable pub move : (i k : ℕ) → Matrix → Option Matrix
  move i k b = do v ← read n m a i k; write m n b k i v

  -- `transX`.
  unfoldable pub trans_x : Matrix → Option Matrix
  trans_x b =
      for_from 0 n 8
        (λ fourth_i. for_from 0 m 8 (λ fourth_j. for_from 0 8 4 (λ sub b. do
          i_end ← end_of fourth_i 8 n
          for_from fourth_i i_end 1
              (λ i b. do
                k ← int_sum fourth_j sub
                k_end ← end_of k 4 m
                for_from k k_end 1 (λ k. move i k) b)
              b)))
        b

  -- The body of the loops of `trans64`: four elements are read, then written.
  unfoldable pub move4 : (i j : ℕ) → Matrix → Option Matrix
  move4 i j b = do
    a0 ← read n m a i j
    a1 ← read n m a i (j + 1)
    a2 ← read n m a i (j + 2)
    a3 ← read n m a i (j + 3)
    b ← write m n b j i a0
    b ← write m n b (j + 1) i a1
    b ← write m n b (j + 2) i a2
    write m n b (j + 3) i a3

  -- `trans64`.
  unfoldable pub trans64 : Matrix → Option Matrix
  trans64 b =
      for_from 0 64 8
        (λ fourth_i. for_from 0 64 8 (λ fourth_j.
          for_from 0 8 4 (λ sub. for_from 0 8 1 (λ i. move4 (i + fourth_i) (fourth_j + sub)))))
        b

  -- The body of the loops of `trans32`: eight elements are read, then written.
  unfoldable pub move8 : (i j : ℕ) → Matrix → Option Matrix
  move8 i j b = do
    a0 ← read n m a i j
    a1 ← read n m a i (j + 1)
    a2 ← read n m a i (j + 2)
    a3 ← read n m a i (j + 3)
    a4 ← read n m a i (j + 4)
    a5 ← read n m a i (j + 5)
    a6 ← read n m a i (j + 6)
    a7 ← read n m a i (j + 7)
    b ← write m n b j i a0
    b ← write m n b (j + 1) i a1
    b ← write m n b (j + 2) i a2
    b ← write m n b (j + 3) i a3
    b ← write m n b (j + 4) i a4
    b ← write m n b (j + 5) i a5
    b ← write m n b (j + 6) i a6
    write m n b (j + 7) i a7

  -- `trans32`.
  unfoldable pub trans32 : Matrix → Option Matrix
  trans32 b =
      for_from 0 32 8
        (λ fourth_i.
          for_from 0 32 8 (λ fourth_j. for_from 0 8 1 (λ i. move8 (i + fourth_i) fourth_j)))
        b

  -- `transpose_submit`.
  unfoldable pub transpose_submit : Matrix → Option Matrix
  transpose_submit b =
      if (n == 32) && (m == 32)
      then trans32 b
      else if (n == 64) && (m == 64)
      then trans64 b
      else trans_x b

  -- The inner loop of `is_transpose`, with `left` columns to go; then the outer one.
  unfoldable pub check_row : (left i j : ℕ) → Matrix → Bool
  check_row zero i j b = true
  check_row (suc left) i j b = (a i j == b j i) && check_row left i (j + 1) b

  unfoldable pub check_rows : (left i : ℕ) → Matrix → Bool
  unfolding check_row
  check_rows zero i b = true
  check_rows (suc left) i b = check_row m i 0 b && check_rows left (i + 1) b

  -- `is_transpose`.
  unfoldable pub is_transpose : Matrix → Bool
  unfolding check_rows
  is_transpose b = check_rows n 0 b
