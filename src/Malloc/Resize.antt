-- ===== src/Malloc/Resize.antt =====
-- `mm_realloc` of malloclab/src/mm.c, on a piece of the client.
use cs_app_labs.Prelude.{
  ℕ, ◌+◌, ◌-◌, ◌*◌, ◌/◌, ◌%◌, ◌^◌, ◌<◌, ◌≤◌, ◌≡◌, ◌⊎◌, Bool, true, false, Option, some, List, ◌∷◌,
  ◌++◌, leb, arith, Bool-cases, inl, inr, All, bit_and,
}
use cs_app_labs.Prelude.Bits.{bit_and-mask, bit_and-complement}
use cs_app_labs.Malloc.Words.{Heap, add_size, align}
use cs_app_labs.Malloc.Blocks.{block_size}
use cs_app_labs.Malloc.Layout.{Block, block, total, IsLarge, payload_at}
use cs_app_labs.Malloc.Steps.{with_cells}
use cs_app_labs.Malloc.Owned.{payload_at-used, payload_at-apart}
use cs_app_labs.Malloc.Owners.{IsOwned}
use cs_app_labs.Malloc.Copy.{words_at, words_at-frame}
use cs_app_labs.Malloc.Client.{Kept}

-- The words of a piece.
abbrev pub contents : (ℕ → ℕ) → ℕ × ℕ → List ℕ
contents m o = words_at ((o.1 + 7) / 8) m o.0

-- The piece has moved to another place, with its words; the words of the others are the same.
pub record Moved (h : Heap) (o : ℕ × ℕ) (others : List (ℕ × ℕ)) (n : ℕ) (call : Option (Heap × ℕ))
    : Type 0 where
  pub top : ℕ
  pub cells : ℕ → ℕ
  pub head : ℕ
  pub bp : ℕ
  pub run : call ≡ some (with_cells (record h { brk = top }) cells head, bp)
  pub kept : Kept (with_cells (record h { brk = top }) cells head) ((bp, n) ∷ others)
  pub copied : contents cells (bp, o.1) ≡ contents h.cell o
  pub same : All (λ (o' : ℕ × ℕ). contents cells o' ≡ contents h.cell o') others

module _ (u : ℕ → Bool) where
  pub IsOwned-shorter : (e n n' : ℕ) → n' ≤ n → IsOwned u (e, n) → IsOwned u (e, n')
  IsOwned-shorter e n n' le is = record {
    low = is.low;
    aligned = is.aligned;
    begins = is.begins;
    before = is.before;
    words = λ i lt. is.words i (omega (arith, le, lt));
  }

  pub contents-frame :
      (c m : ℕ → ℕ) (o : ℕ × ℕ)
      → IsOwned u o
      → ((i : ℕ) → i < o.1 → u (o.0 + i) ≡ true → c (o.0 + i) ≡ m (o.0 + i))
      → contents c o ≡ contents m o
  contents-frame c m o is same = words_at-frame ((o.1 + 7) / 8) c m o.0 (λ i lt.
      let less : 8 * i < o.1 = omega (arith, lt) in same (8 * i) less (is.words (8 * i) less))

-- The whole block of a piece.
pub whole-IsOwned :
    (p e s : ℕ) (pre post : List Block) (n : ℕ)
    → e ≡ p + total pre
    → IsLarge pre
    → IsLarge post
    → s % 8 ≡ 0
    → 32 ≤ s
    → IsOwned (payload_at p (pre ++ block s true false ∷ post)) (e, n)
    → IsOwned (payload_at p (pre ++ block s true false ∷ post)) (e, s - 8) × (n + 8 ≤ s)
whole-IsOwned p e s pre post n at large large' aligned wide is = (
  record {
    low = is.low;
    aligned = is.aligned;
    begins = is.begins;
    before = is.before;
    words = λ i lt. ground (arith, lt, wide, payload_at-used p e pre s post (e + i) at);
  },
  elim (Bool-cases (leb (n + 8) s)) [
    | inl le ↦ ground (arith, le)
    | inr over ↦
        let beyond : s - 8 < n = ground (arith, over) in
        let paid = is.words (s - 8) beyond in
        absurd (
          ground (
            arith,
            paid,
            wide,
            payload_at-used p e pre s post (e + (s - 8)) at,
            payload_at-apart p e pre s post (e + (s - 8)) large large' at,
          ))
  ],
)

pub block_size_le : (n : ℕ) → n + 16 ≤ 2 ^ 31 → (block_size n ≤ 32) ⊎ (block_size n ≤ n + 15)
unfolding block_size align
block_size_le n small =
    let low : bit_and (n + 15) 7 ≡ (n + 15) % 2 ^ 3 = bit_and-mask 3 (n + 15) in
    let other = bit_and-complement 64 (n + 15) 7 (omega (arith, small)) (omega arith) in
    let whole : add_size (add_size n 8) 7 ≡ n + 15 = omega (arith, small) in
    rw whole (ground (arith, low, other, small))
