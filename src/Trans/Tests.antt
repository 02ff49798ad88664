-- ===== src/Trans/Tests.antt =====
-- The transposition of cachelab/trans.c at concrete inputs.
use cs_app_labs.Prelude.{
  ◌<◌, arith, ℕ, ◌+◌, ◌*◌, ◌≡◌, ◌↔◌, refl, true, false, ◌&&◌, none, some, ltb, if◌then◌else◌,
}
use cs_app_labs.Trans.Matrix.{Matrix, read}
use cs_app_labs.Trans.Transpose.{transpose_submit, is_transpose, move}
use cs_app_labs.Trans.Submit.{transpose_submit_lem}
use cs_app_labs.Trans.Check.{is_transpose_lem}

abbrev numbered : Matrix
numbered i k = 10 * i + k

abbrev blank : Matrix
blank k i = 0

transpose_submit_lem_example :
    (d : Matrix) × (transpose_submit 3 2 numbered blank ≡ some d)
    × ((k i : ℕ) → d k i ≡ (if ltb k 3 && ltb i 2 then numbered i k else blank k i))
transpose_submit_lem_example = transpose_submit_lem 3 2 numbered blank (omega arith) (omega arith)

is_transpose_lem_example :
    (is_transpose 3 2 numbered blank ≡ true)
    ↔ ((i k : ℕ) → i < 2 → k < 3 → numbered i k ≡ blank k i)
is_transpose_lem_example = is_transpose_lem 3 2 numbered blank

not_a_transpose : is_transpose 3 2 numbered blank ≡ false
unfolding is_transpose
not_a_transpose = refl

-- An element outside `A` is not read.
outside : move 3 2 numbered 2 0 blank ≡ none
unfolding move read
outside = refl
