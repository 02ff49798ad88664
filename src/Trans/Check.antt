-- ===== src/Trans/Check.antt =====
-- What `is_transpose` of cachelab/trans.c decides.
use cs_app_labs.Prelude.{
  ℕ, zero, suc, ◌+◌, ◌≡◌, ◌<◌, ◌≤◌, ◌↔◌, refl, Bool, true, false, ◌&&◌, ◌==◌, arith, Bool-cases,
  inl, inr, ==_iff,
}
use cs_app_labs.Trans.Matrix.{Matrix}
use cs_app_labs.Trans.Transpose.{check_row, check_rows, is_transpose}

and-left : (p q : Bool) → p && q ≡ true → p ≡ true
and-left true q h = refl
and-left false q h = h

and-right : (p q : Bool) → p && q ≡ true → q ≡ true
and-right true q h = h
and-right false q h = ground arith

module _ (m n : ℕ) (a b : Matrix) where
  check_row_sound :
      (left i j k : ℕ) → check_row m n a left i j b ≡ true → j ≤ k → k < j + left → a i k ≡ b k i
  unfolding check_row
  check_row_sound zero i j k h lo hi = absurd (omega arith)
  check_row_sound (suc left) i j k h lo hi = elim (Bool-cases (k == j)) [
    | inl here ↦
        let same : k ≡ j = ground arith in
        let entry : a i j ≡ b j i = (==_iff (a i j) (b j i)).0 (and-left (a i j == b j i) _ h) in
        rw same entry
    | inr later ↦
        check_row_sound left i (j + 1) k (and-right (a i j == b j i) _ h) (ground arith)
          (omega arith)
  ]

  check_rows_sound :
      (left i r k : ℕ)
      → check_rows m n a left i b ≡ true
      → i ≤ r
      → r < i + left
      → k < m
      → a r k ≡ b k r
  unfolding check_rows
  check_rows_sound zero i r k h lo hi hk = absurd (omega arith)
  check_rows_sound (suc left) i r k h lo hi hk = elim (Bool-cases (r == i)) [
    | inl here ↦
        let same : r ≡ i = ground arith in
        rw same (
          check_row_sound m i 0 k (and-left (check_row m n a m i 0 b) _ h) (omega arith)
            (omega arith))
    | inr later ↦
        check_rows_sound left (i + 1) r k (and-right (check_row m n a m i 0 b) _ h) (ground arith)
          (omega arith) hk
  ]

  check_row_complete :
      (left i j : ℕ) → ((k : ℕ) → k < j + left → a i k ≡ b k i) → check_row m n a left i j b ≡ true
  unfolding check_row
  check_row_complete zero i j same = refl
  check_row_complete (suc left) i j same =
      rw ((==_iff (a i j) (b j i)).1 (same j (omega arith)))
        (check_row_complete left i (j + 1) (λ k hk. same k (omega arith)))

  check_rows_complete :
      (left i : ℕ)
      → ((r k : ℕ) → r < i + left → k < m → a r k ≡ b k r)
      → check_rows m n a left i b ≡ true
  unfolding check_rows
  check_rows_complete zero i same = refl
  check_rows_complete (suc left) i same =
      rw (check_row_complete m i 0 (λ k hk. same i k (omega arith) (omega arith)))
        (check_rows_complete left (i + 1) (λ r k hr hk. same r k (omega arith) hk))

-- `is_transpose` is true exactly if `B[k][i]` is `A[i][k]` at each `i` below `n` and `k` below `m`.
pub is_transpose_lem :
    (m n : ℕ) (a b : Matrix)
    → (is_transpose m n a b ≡ true) ↔ ((i k : ℕ) → i < n → k < m → a i k ≡ b k i)
unfolding is_transpose
is_transpose_lem m n a b = (
  λ h i k hi hk. check_rows_sound m n a b n 0 i k h (omega arith) (omega arith) hk,
  λ same. check_rows_complete m n a b n 0 (λ i k hi hk. same i k (omega arith) hk),
)
