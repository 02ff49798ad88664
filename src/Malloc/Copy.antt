-- ===== src/Malloc/Copy.antt =====
-- The `memcpy` of `mm_realloc` of malloclab/src/mm.c.
use cs_app_labs.Prelude.{
  ℕ, zero, suc, ◌+◌, ◌*◌, ◌%◌, ◌<◌, ◌≤◌, ◌≡◌, ◌⊎◌, refl, sym, ap, ◌∙◌, true, some, List, [], ◌∷◌,
  arith, inl,
}
use cs_app_labs.Malloc.Words.{Heap, get, set_cell}
use cs_app_labs.Malloc.Blocks.{copy_words}
use cs_app_labs.Malloc.Layout.{Block, Rows-IsLarge, payload_at, payload_at_bounds}
use cs_app_labs.Malloc.Steps.{step, get-IsInside}
use cs_app_labs.Malloc.Invariant.{IsHeap}
use cs_app_labs.Malloc.Init.{set_other, put-IsHeap}
use cs_app_labs.Malloc.Access.{set_here}

-- Words one behind the other.
abbrev pub words_at : ℕ → (ℕ → ℕ) → ℕ → List ℕ
words_at zero m q = []
words_at (suc k) m q = m q ∷ words_at k m (q + 8)

pub words_at-frame :
    (k : ℕ) (c m : ℕ → ℕ) (q : ℕ)
    → ((i : ℕ) → i < k → c (q + 8 * i) ≡ m (q + 8 * i))
    → words_at k c q ≡ words_at k m q
words_at-frame zero c m q same = refl
words_at-frame (suc k) c m q same =
    let here : c q ≡ m q = ap c (omega arith) ∙ same 0 (omega arith) ∙ ap m (omega arith) in
    ap (λ (v : ℕ). v ∷ words_at k c (q + 8)) here
    ∙ ap (λ ws. m q ∷ ws)
        (words_at-frame k c m (q + 8) (λ i lt.
          let at : q + 8 + 8 * i ≡ q + 8 * suc i = omega arith in
          ap c at ∙ same (suc i) (omega (arith, lt)) ∙ ap m (sym at)))

-- Fewer words.
pub words_at-fewer :
    (n k : ℕ) (c m : ℕ → ℕ) (q r : ℕ)
    → k ≤ n
    → words_at n c q ≡ words_at n m r
    → words_at k c q ≡ words_at k m r
words_at-fewer n zero c m q r le same = refl
words_at-fewer zero (suc k) c m q r le same = absurd (omega arith)
words_at-fewer (suc n) (suc k) c m q r le same =
    let here : c q ≡ m r = cc same in
    let rest : words_at n c (q + 8) ≡ words_at n m (r + 8) = cc same in
    cc (here, words_at-fewer n k c m (q + 8) (r + 8) (omega (arith, le)) rest)

pub get-payload :
    (h : Heap) (bs : List Block) (fs : List ℕ) (p : ℕ)
    → IsHeap h bs fs
    → payload_at (h.start + 24) bs p ≡ true
    → p % 8 ≡ 0
    → get h p ≡ some (h.cell p)
get-payload h bs fs p is paid aligned =
    let (low, high) =
      payload_at_bounds (h.start + 24) bs p (Rows-IsLarge h.cell (h.start + 24) true bs is.rows)
        paid in
    get-IsInside h p (omega (arith, low), omega (arith, high, is.ends), aligned)

-- From words of the user to others: they are copied, and the heap has the same blocks.
pub copy_words-IsHeap :
    (k : ℕ) (h : Heap) (bs : List Block) (fs : List ℕ) (to from : ℕ)
    → IsHeap h bs fs
    → to % 8 ≡ 0
    → from % 8 ≡ 0
    → (to + 8 * k ≤ from) ⊎ (from + 8 * k ≤ to)
    → ((i : ℕ) → i < 8 * k → payload_at (h.start + 24) bs (to + i) ≡ true)
    → ((i : ℕ) → i < 8 * k → payload_at (h.start + 24) bs (from + i) ≡ true)
    → (c : ℕ → ℕ) × (copy_words k h to from ≡ some (record h { cell = c }))
      × IsHeap (record h { cell = c }) bs fs
      × (words_at k c to ≡ words_at k h.cell from)
      × ((q : ℕ) → (q < to) ⊎ (to + 8 * k ≤ q) → c q ≡ h.cell q)
unfolding copy_words
copy_words-IsHeap zero h bs fs to from is even even' apart owned owned' =
    (h.cell, refl, is, refl, λ q out. refl)
copy_words-IsHeap (suc k) h bs fs to from is even even' apart owned owned' =
    let v = h.cell from in
    let here : payload_at (h.start + 24) bs to ≡ true =
      ap (payload_at (h.start + 24) bs) (omega arith) ∙ owned 0 (omega arith) in
    let here' : payload_at (h.start + 24) bs from ≡ true =
      ap (payload_at (h.start + 24) bs) (omega arith) ∙ owned' 0 (omega arith) in
    let (put_run, is1) = put-IsHeap h bs fs to v is here even in
    let h1 = record h { cell = set_cell h.cell to v } in
    let apart' : (to + 8 + 8 * k ≤ from + 8) ⊎ (from + 8 + 8 * k ≤ to + 8) =
      ground (arith, apart) in
    let (c, run, is2, copied, frame) =
      copy_words-IsHeap k h1 bs fs (to + 8) (from + 8) is1 (omega (arith, even))
        (omega (arith, even')) apart'
        (λ i lt.
          ap (payload_at (h.start + 24) bs) (omega arith) ∙ owned (i + 8) (omega (arith, lt)))
        (λ i lt.
          ap (payload_at (h.start + 24) bs) (omega arith) ∙ owned' (i + 8) (omega (arith, lt))) in
    let first : c to ≡ v = frame to (inl (omega arith)) ∙ set_here h.cell to v in
    let rest : words_at k h1.cell (from + 8) ≡ words_at k h.cell (from + 8) =
      words_at-frame k h1.cell h.cell (from + 8)
        (λ i lt. set_other h.cell to v (from + 8 + 8 * i) (ground (arith, apart, lt))) in
    (
      c,
      step _ (get-payload h bs fs from is here' even') (step _ put_run run),
      is2,
      ap (λ (w : ℕ). w ∷ words_at k c (to + 8)) first ∙ ap (λ ws. v ∷ ws) (copied ∙ rest),
      λ q out. frame q (ground (arith, out)) ∙ set_other h.cell to v q (ground (arith, out)),
    )
