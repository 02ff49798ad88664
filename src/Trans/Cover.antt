-- ===== src/Trans/Cover.antt =====
-- The cells of `B` that the loops of `transX` of cachelab/trans.c set: all of them.
use cs_app_labs.Prelude.{
  refl, ◌>>=◌, some, ltb, if◌then◌else◌, ◌^◌, ℕ, suc, ◌+◌, ◌-◌, ◌*◌, ◌/◌, ◌%◌, ◌≡◌, ◌<◌, ◌≤◌, Bool,
  true, false, arith, ◌⊎◌,
}
use cs_app_labs.Trans.Matrix.{Matrix, int_sum, for_from}
use cs_app_labs.Trans.Transpose.{end_of, move, trans_x}
use cs_app_labs.Trans.Loops.{
  Sets, any_from, int_sum-small, Sets-known, for_from-Sets, any_round-true, any_round-false,
}
use cs_app_labs.Trans.Setting.{cell, cell-outside, move-Sets}

-- The end of an inner loop.
abbrev end_at : (x step bound : ℕ) → ℕ
end_at x step bound = if ltb bound (x + step) then bound else x + step

end_of-small :
    (x step bound : ℕ) → x + step < 2 ^ 31 → end_of x step bound ≡ some (end_at x step bound)
unfolding end_of
end_of-small x step bound small = rw (int_sum-small x step small) refl

-- The cells that the loops of `trans_x` set, from the innermost to the outermost.
abbrev k_cells : (m s i r c : ℕ) → Bool
k_cells m s i r c = any_from s (end_at s 4 m) 1 (λ k. cell k i r c)

abbrev i_cells : (m n fi s r c : ℕ) → Bool
i_cells m n fi s r c = any_from fi (end_at fi 8 n) 1 (λ i. k_cells m s i r c)

abbrev j_cells : (m n fi fj r c : ℕ) → Bool
j_cells m n fi fj r c = any_from 0 8 4 (λ sub. i_cells m n fi (fj + sub) r c)

abbrev row_cells : (m n fi r c : ℕ) → Bool
row_cells m n fi r c = any_from 0 m 8 (λ fj. j_cells m n fi fj r c)

abbrev pub x_cells : (m n r c : ℕ) → Bool
x_cells m n r c = any_from 0 n 8 (λ fi. row_cells m n fi r c)

end_at_cases : (x step bound y : ℕ) → y < end_at x step bound → (y < x + step) × (y < bound)
end_at_cases x step bound y h = (ground arith, ground arith)

end_at_below : (x step bound y : ℕ) → y < x + step → y < bound → y < end_at x step bound
end_at_below x step bound y h h' = ground arith

round-few : (x y bound : ℕ) → y < bound → y - x < suc bound
round-few x y bound h = omega arith

module _ (m n : ℕ) (a : Matrix) where
  -- The two inner loops.
  k_loop-Sets :
      (fj sub i : ℕ)
      → fj + sub + 4 < 2 ^ 31
      → m + 8 ≤ 2 ^ 31
      → i < n
      → Sets a (k_cells m (fj + sub) i) (λ b.
        int_sum fj sub
        >>= (λ k. end_of k 4 m >>= (λ end. for_from k end 1 (λ k. move m n a i k) b)))
  k_loop-Sets fj sub i small short inside =
      Sets-known a (k_cells m (fj + sub) i) _ (fj + sub) _ (int_sum-small fj sub (omega arith)) (
        Sets-known a (k_cells m (fj + sub) i) _ (end_at (fj + sub) 4 m) _
          (end_of-small (fj + sub) 4 m small)
          (for_from-Sets a (fj + sub) (end_at (fj + sub) 4 m) 1 (λ k. cell k i) _ (omega arith)
            (ground arith)
            (λ _ k _ hk.
              let (_, inside') = end_at_cases (fj + sub) 4 m k hk in
              move-Sets m n a i k inside inside')))

  pub trans_x-Sets : m + 8 ≤ 2 ^ 31 → n + 8 ≤ 2 ^ 31 → Sets a (x_cells m n) (trans_x m n a)
  unfolding trans_x
  trans_x-Sets short short' =
      for_from-Sets a 0 n 8 (λ fi. row_cells m n fi) _ (omega arith) short'
        (λ _ fi _ hfi.
          for_from-Sets a 0 m 8 (λ fj. j_cells m n fi fj) _ (omega arith) short
            (λ _ fj _ hfj.
              for_from-Sets a 0 8 4 (λ sub. i_cells m n fi (fj + sub)) _ (omega arith) (omega arith)
                (λ _ sub at hsub.
                  Sets-known a (i_cells m n fi (fj + sub)) _ (end_at fi 8 n) _
                    (end_of-small fi 8 n (omega arith))
                    (for_from-Sets a fi (end_at fi 8 n) 1 (λ i. k_cells m (fj + sub) i) _
                      (omega arith) (ground arith)
                      (λ _ i _ hi.
                        k_loop-Sets fj sub i (omega arith) short (end_at_cases fi 8 n i hi).1)))))

  pub x_cells-inside : (r c : ℕ) → r < m → c < n → x_cells m n r c ≡ true
  x_cells-inside r c hr hc =
      let fi = 8 * (c / 8) in
      let fj = 8 * (r / 8) in
      let sub = 4 * ((r % 8) / 4) in
      let column : c < end_at fi 8 n = end_at_below fi 8 n c (omega arith) hc in
      let row : r < end_at (fj + sub) 4 m = end_at_below (fj + sub) 4 m r (omega arith) hr in
      let hit : cell r c r c ≡ true = ground arith in
      any_round-true (suc n) 0 n 8 (c / 8) fi _ (omega arith) (omega arith) (omega arith) (
        any_round-true (suc m) 0 m 8 (r / 8) fj _ (omega arith) (omega arith) (omega arith) (
          any_round-true 9 0 8 4 ((r % 8) / 4) sub _ (omega arith) (omega arith) (omega arith) (
            any_round-true (suc (end_at fi 8 n)) fi (end_at fi 8 n) 1 (c - fi) c _
              (round-few fi c (end_at fi 8 n) column) (omega arith) column
              (any_round-true (suc (end_at (fj + sub) 4 m)) (fj + sub) (end_at (fj + sub) 4 m) 1
                (r - (fj + sub)) r (λ k. cell k c r c)
                (round-few (fj + sub) r (end_at (fj + sub) 4 m) row) (omega arith) row hit))))

  pub x_cells-outside : (r c : ℕ) → (m ≤ r) ⊎ (n ≤ c) → x_cells m n r c ≡ false
  x_cells-outside r c out = any_round-false (suc n) 0 n 8 _ (λ _ fi _ _.
      any_round-false (suc m) 0 m 8 _ (λ _ fj _ _. any_round-false 9 0 8 4 _ (λ _ sub _ _.
        any_round-false (suc (end_at fi 8 n)) fi (end_at fi 8 n) 1 _ (λ _ i _ hi.
          any_round-false (suc (end_at (fj + sub) 4 m)) (fj + sub) (end_at (fj + sub) 4 m) 1 _
            (λ _ k _ hk.
              let (_, inside) = end_at_cases fi 8 n i hi in
              let (_, inside') = end_at_cases (fj + sub) 4 m k hk in
              cell-outside m n k i r c inside' inside out)))))
