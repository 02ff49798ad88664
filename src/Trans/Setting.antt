-- ===== src/Trans/Setting.antt =====
-- What the innermost statements of cachelab/trans.c do: which cells of `B` they set.
use cs_app_labs.Prelude.{
  ℕ, ◌+◌, ◌≡◌, ◌<◌, ◌≤◌, refl, Bool, true, false, ◌&&◌, ◌||◌, some, ◌==◌, if◌then◌else◌, arith,
  Bool-cases, inl, inr, lt→ltb, ◌⊎◌,
}
use cs_app_labs.Trans.Matrix.{Matrix, read, write}
use cs_app_labs.Trans.Transpose.{move, move4, move8}
use cs_app_labs.Trans.Loops.{Sets, Sets-bind}

-- The cell in row `k` and column `i`.
abbrev pub cell : (k i r c : ℕ) → Bool
cell k i r c = (r == k) && (c == i)

-- The cells in column `i` of four, or eight, rows from `j`.
abbrev pub column4 : (j i r c : ℕ) → Bool
column4 j i r c = cell j i r c || (cell (j + 1) i r c || (cell (j + 2) i r c || cell (j + 3) i r c))

abbrev pub column8 : (j i r c : ℕ) → Bool
column8 j i r c =
    cell j i r c
    || (cell (j + 1) i r c
        || (cell (j + 2) i r c
            || (cell (j + 3) i r c
                || (cell (j + 4) i r c
                    || (cell (j + 5) i r c || (cell (j + 6) i r c || (cell (j + 7) i r c)))))))

-- A cell is itself.
cell-value :
    (a : Matrix) (k i r c v : ℕ)
    → (if cell k i r c then a i k else v) ≡ (if cell k i r c then a c r else v)
cell-value a k i r c v = elim (Bool-cases (r == k)) [
  | inl er ↦ elim (Bool-cases (c == i)) [
    | inl ec ↦
        let row : r ≡ k = ground (arith, er) in
        let column : c ≡ i = ground (arith, ec) in rw (row, column) refl
    | inr ec ↦ rw (er, ec) refl
  ]
  | inr er ↦ rw er refl
]

-- A cell beside the array is not set.
pub cell-outside : (m n k i r c : ℕ) → k < m → i < n → (m ≤ r) ⊎ (n ≤ c) → cell k i r c ≡ false
cell-outside m n k i r c hk hi (inl above) =
    let other : (r == k) ≡ false = ground arith in rw other refl
cell-outside m n k i r c hk hi (inr beyond) =
    let other : (c == i) ≡ false = ground arith in
    elim (Bool-cases (r == k)) [ inl e ↦ rw (e, other) refl | inr e ↦ rw e refl ]

pub column4-outside :
    (m n j i r c : ℕ) → j + 3 < m → i < n → (m ≤ r) ⊎ (n ≤ c) → column4 j i r c ≡ false
column4-outside m n j i r c hj hi out =
    rw
      (
        cell-outside m n j i r c (omega arith) hi out,
        cell-outside m n (j + 1) i r c (omega arith) hi out,
        cell-outside m n (j + 2) i r c (omega arith) hi out,
        cell-outside m n (j + 3) i r c (omega arith) hi out,
      )
      refl

pub column4-inside : (j i r c : ℕ) → j ≤ r → r < j + 4 → c ≡ i → column4 j i r c ≡ true
column4-inside j i r c lo hi same = ground arith

pub column8-outside :
    (m n j i r c : ℕ) → j + 7 < m → i < n → (m ≤ r) ⊎ (n ≤ c) → column8 j i r c ≡ false
column8-outside m n j i r c hj hi out =
    rw
      (
        cell-outside m n j i r c (omega arith) hi out,
        cell-outside m n (j + 1) i r c (omega arith) hi out,
        cell-outside m n (j + 2) i r c (omega arith) hi out,
        cell-outside m n (j + 3) i r c (omega arith) hi out,
        cell-outside m n (j + 4) i r c (omega arith) hi out,
        cell-outside m n (j + 5) i r c (omega arith) hi out,
        cell-outside m n (j + 6) i r c (omega arith) hi out,
        cell-outside m n (j + 7) i r c (omega arith) hi out,
      )
      refl

pub column8-inside : (j i r c : ℕ) → j ≤ r → r < j + 8 → c ≡ i → column8 j i r c ≡ true
column8-inside j i r c lo hi same = ground arith

module _ (m n : ℕ) (a : Matrix) where
  read-inside : (i k : ℕ) → i < n → k < m → read n m a i k ≡ some (a i k)
  unfolding read
  read-inside i k hi hk = rw (lt→ltb i n hi, lt→ltb k m hk) refl

  write-Sets : (k i : ℕ) → k < m → i < n → Sets a (cell k i) (λ b. write m n b k i (a i k))
  unfolding write
  write-Sets k i hk hi b = (
    (λ r c. if (r == k) && (c == i) then a i k else b r c),
    rw (lt→ltb k m hk, lt→ltb i n hi) refl,
    λ r c. cell-value a k i r c (b r c),
  )

  pub move-Sets : (i k : ℕ) → i < n → k < m → Sets a (cell k i) (move m n a i k)
  unfolding move
  move-Sets i k hi hk b = rw (read-inside i k hi hk) (write-Sets k i hk hi b)

  pub move4-Sets : (i j : ℕ) → i < n → j + 3 < m → Sets a (column4 j i) (move4 m n a i j)
  unfolding move4
  move4-Sets i j hi hj b =
      rw
        (
          read-inside i j hi (omega arith),
          read-inside i (j + 1) hi (omega arith),
          read-inside i (j + 2) hi (omega arith),
          read-inside i (j + 3) hi (omega arith),
        )
        ((Sets-bind a (cell j i)
            (λ r c. cell (j + 1) i r c || (cell (j + 2) i r c || (cell (j + 3) i r c))) _ _
            (write-Sets j i (omega arith) hi)
            (Sets-bind a (cell (j + 1) i) (λ r c. cell (j + 2) i r c || (cell (j + 3) i r c)) _ _
              (write-Sets (j + 1) i (omega arith) hi)
              (Sets-bind a (cell (j + 2) i) (λ r c. cell (j + 3) i r c) _ _
                (write-Sets (j + 2) i (omega arith) hi) (write-Sets (j + 3) i (omega arith) hi))))
          b)

  pub move8-Sets : (i j : ℕ) → i < n → j + 7 < m → Sets a (column8 j i) (move8 m n a i j)
  unfolding move8
  move8-Sets i j hi hj b =
      rw
        (
          read-inside i j hi (omega arith),
          read-inside i (j + 1) hi (omega arith),
          read-inside i (j + 2) hi (omega arith),
          read-inside i (j + 3) hi (omega arith),
          read-inside i (j + 4) hi (omega arith),
          read-inside i (j + 5) hi (omega arith),
          read-inside i (j + 6) hi (omega arith),
          read-inside i (j + 7) hi (omega arith),
        )
        ((Sets-bind a (cell j i)
            (λ r c.
              cell (j + 1) i r c
              || (cell (j + 2) i r c
                  || (cell (j + 3) i r c
                      || (cell (j + 4) i r c
                          || (cell (j + 5) i r c
                              || (cell (j + 6) i r c || (cell (j + 7) i r c)))))))
            _ _ (write-Sets j i (omega arith) hi)
            (Sets-bind a (cell (j + 1) i)
              (λ r c.
                cell (j + 2) i r c
                || (cell (j + 3) i r c
                    || (cell (j + 4) i r c
                        || (cell (j + 5) i r c || (cell (j + 6) i r c || (cell (j + 7) i r c))))))
              _ _ (write-Sets (j + 1) i (omega arith) hi)
              (Sets-bind a (cell (j + 2) i)
                (λ r c.
                  cell (j + 3) i r c
                  || (cell (j + 4) i r c
                      || (cell (j + 5) i r c || (cell (j + 6) i r c || (cell (j + 7) i r c)))))
                _ _ (write-Sets (j + 2) i (omega arith) hi)
                (Sets-bind a (cell (j + 3) i)
                  (λ r c.
                    cell (j + 4) i r c
                    || (cell (j + 5) i r c || (cell (j + 6) i r c || (cell (j + 7) i r c))))
                  _ _ (write-Sets (j + 3) i (omega arith) hi)
                  (Sets-bind a (cell (j + 4) i)
                    (λ r c. cell (j + 5) i r c || (cell (j + 6) i r c || (cell (j + 7) i r c))) _ _
                    (write-Sets (j + 4) i (omega arith) hi)
                    (Sets-bind a (cell (j + 5) i)
                      (λ r c. cell (j + 6) i r c || (cell (j + 7) i r c)) _ _
                      (write-Sets (j + 5) i (omega arith) hi)
                      (Sets-bind a (cell (j + 6) i) (λ r c. cell (j + 7) i r c) _ _
                        (write-Sets (j + 6) i (omega arith) hi)
                        (write-Sets (j + 7) i (omega arith) hi))))))))
          b)
