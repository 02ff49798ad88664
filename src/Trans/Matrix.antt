-- ===== src/Trans/Matrix.antt =====
-- The matrices of cachelab/trans.c, and its counted loops. `none` is an access outside an array,
-- or a sum of two `int`s that is too large for one; the sizes and the indices are not negative.
use cs_app_labs.Prelude.{
  ◌>>=◌, ℕ, zero, suc, ◌+◌, ◌^◌, ◌&&◌, Option, none, some, ltb, ◌==◌, if◌then◌else◌,
}

-- The elements of an array of arrays, by row and column.
abbrev pub Matrix : Type 0
Matrix = ℕ → ℕ → ℕ

-- `A[i][k]` in an array of `rows` rows and `columns` columns.
unfoldable pub read : (rows columns : ℕ) → Matrix → ℕ → ℕ → Option ℕ
read rows columns a i k = if ltb i rows && ltb k columns then some (a i k) else none

-- `B[k][i] = v`.
unfoldable pub write : (rows columns : ℕ) → Matrix → ℕ → ℕ → ℕ → Option Matrix
write rows columns b k i v =
    if ltb k rows && ltb i columns
    then some (λ r c. if (r == k) && (c == i) then v else b r c)
    else none

-- A sum as an `int`.
unfoldable pub int_sum : ℕ → ℕ → Option ℕ
int_sum x y = if ltb (x + y) (2 ^ 31) then some (x + y) else none

-- `for (; x < bound; x += step)`; without enough fuel there is no result.
unfoldable pub for_loop :
    (fuel x bound step : ℕ) → (ℕ → Matrix → Option Matrix) → Matrix → Option Matrix
for_loop zero x bound step body b = none
for_loop (suc fuel) x bound step body b =
    if ltb x bound
    then body x b >>= (λ c. int_sum x step >>= (λ y. for_loop fuel y bound step body c))
    else some b

-- The same from 0 or another start; each round adds at least 1.
abbrev pub for_from : (x bound step : ℕ) → (ℕ → Matrix → Option Matrix) → Matrix → Option Matrix
for_from x bound step body b = for_loop (suc bound) x bound step body b
