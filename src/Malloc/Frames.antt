-- ===== src/Malloc/Frames.antt =====
-- Blocks of the heap of malloclab/src/mm.c stand on their tags alone.
use cs_app_labs.Prelude.{
  ℕ, ◌+◌, ◌-◌, ◌*◌, ◌≤◌, ◌≡◌, refl, ◌∙◌, Bool, true, false, not, List, [], ◌∷◌, ◌==◌, arith,
}
use cs_app_labs.Malloc.Layout.{
  Block, flag, IsBlock, IsFooted, Row, Rows, tag_of, row_tag, rows_tag, IsLarge, rows_tag_bounds,
}

footed : (u : Bool) (v w s : ℕ) → (not u ≡ true → w ≡ v) → IsFooted u v s → IsFooted u w s
footed true v w s same h = tt
footed false v w s same h = same refl ∙ h

module _ (m n : ℕ → ℕ) where
  IsBlock-retag :
      (p : ℕ) (prev prev' : Bool) (b : Block)
      → n (p - 8) + 2 * flag prev ≡ m (p - 8) + 2 * flag prev'
      → (not b.used ≡ true → n (p + b.size - 16) ≡ m (p + b.size - 16))
      → IsBlock m p prev b
      → IsBlock n p prev' b
  IsBlock-retag p prev prev' b head foot is = record {
    header = omega (arith, is.header);
    footer = footed b.used (m (p + b.size - 16)) (n (p + b.size - 16)) b.size foot is.footer;
    aligned = is.aligned;
    large = is.large;
  }

  IsBlock-frame :
      (p : ℕ) (prev : Bool) (b : Block)
      → ((q : ℕ) → tag_of p b q ≡ true → n q ≡ m q)
      → IsBlock m p prev b
      → IsBlock n p prev b
  IsBlock-frame p prev b same is =
      IsBlock-retag p prev prev b (omega (arith, same (p - 8) (ground arith)))
        (λ u. same (p + b.size - 16) (ground arith)) is

  pub Row-frame :
      (p : ℕ) (prev : Bool) (bs : List Block)
      → ((q : ℕ) → row_tag p bs q ≡ true → n q ≡ m q)
      → Row m p prev bs
      → Row n p prev bs
  Row-frame p prev [] same r = tt
  Row-frame p prev (b ∷ bs) same (is, r) = (
    IsBlock-frame p prev b (λ q h. same q (ground arith)) is,
    Row-frame (p + b.size) b.used bs (λ q h. same q (ground arith)) r,
  )

  pub Rows-frame :
      (p : ℕ) (prev : Bool) (bs : List Block)
      → ((q : ℕ) → rows_tag p bs q ≡ true → n q ≡ m q)
      → Rows m p prev bs
      → Rows n p prev bs
  Rows-frame p prev [] same r = same (p - 8) (ground arith) ∙ r
  Rows-frame p prev (b ∷ bs) same (is, r) = (
    IsBlock-frame p prev b (λ q h. same q (ground arith)) is,
    Rows-frame (p + b.size) b.used bs (λ q h. same q (ground arith)) r,
  )

  -- Only the bit in the first header that tells of the block before is changed.
  pub Rows-retag :
      (p : ℕ) (prev prev' : Bool) (bs : List Block)
      → 8 ≤ p
      → IsLarge bs
      → n (p - 8) + 2 * flag prev ≡ m (p - 8) + 2 * flag prev'
      → ((q : ℕ) → rows_tag p bs q ≡ true → (q == p - 8) ≡ false → n q ≡ m q)
      → Rows m p prev bs
      → Rows n p prev' bs
  Rows-retag p prev prev' [] low large head same r = omega (arith, r, head)
  Rows-retag p prev prev' (b ∷ bs) low (size, large) head same (is, r) = (
    IsBlock-retag p prev prev' b head (λ u. same (p + b.size - 16) (ground arith) (ground arith))
        is,
    Rows-frame (p + b.size) b.used bs
        (λ q h. same q (ground arith) (ground (arith, rows_tag_bounds (p + b.size) bs q large))) r,
  )
