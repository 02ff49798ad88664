-- ===== src/Malloc/Free.antt =====
-- `mm_free` of malloclab/src/mm.c.
use cs_app_labs.Prelude.{
  ℕ, ◌+◌, ◌-◌, ◌<◌, ◌≡◌, refl, ◌∙◌, true, false, Option, some, List, [], ◌∷◌, ◌++◌, ◌==◌, arith,
}
use cs_app_labs.Malloc.Words.{Heap, set_cell}
use cs_app_labs.Malloc.Blocks.{free_block, mm_free}
use cs_app_labs.Malloc.Layout.{
  Block, block, tag, total, last_used, row_tag, Row, Rows-IsLarge, payload_at, payload_at-rows_tag,
}
use cs_app_labs.Malloc.Steps.{
  step, with_cells, put-IsInside, pack_hdr-tag, ftrp-tag, next_blkp-tag, unset_prev_alloc-tag,
}
use cs_app_labs.Malloc.Parts.{rows_tag-parts}
use cs_app_labs.Malloc.Invariant.{IsHeap, retag-IsHeap}
use cs_app_labs.Malloc.Access.{
  head_size, head_used, IsAt, block-IsAt, get_size-IsAt, get_prev_alloc-IsAt, set_here, set_header,
  set_behind,
}
use cs_app_labs.Malloc.Kept.{Keeps, user_word, user_word-Keeps, IsListed-swap}
use cs_app_labs.Malloc.Settled.{Settled, Settled-split}
use cs_app_labs.Malloc.Coalesce.{coalesce-IsHeap}

module _ (h : Heap) (e s : ℕ) (pre post : List Block) where
  -- The words when `coalesce` is called.
  abbrev freed_cells : ℕ → ℕ
  freed_cells =
      set_cell
        (set_cell (set_cell h.cell (e - 8) (tag s (last_used true pre) false)) (e + s - 16) s)
        (e + s - 8) (tag (head_size post) false (head_used post))

  freed-IsHeap :
      (fs : List ℕ)
      → IsAt h e pre (block s true false) post
      → IsHeap h (pre ++ block s true false ∷ post) fs
      → IsHeap (record h { cell = freed_cells }) (pre ++ block s false false ∷ post) fs
        × Keeps h freed_cells (pre ++ block s false false ∷ post)
  freed-IsHeap fs here is =
      let mid' = block s false false ∷ [] in
      let p = h.start + 24 in
      let c = freed_cells in
      let wide = here.is.large in
      let row : Row c e (last_used true pre) mid' = (
        record {
          header = ground (arith, wide);
          footer = ground (arith, wide);
          aligned = here.is.aligned;
          large = wide;
        },
        tt,
      ) in
      let top : c (e + s - 8) ≡ tag (head_size post) false (head_used post) = ground arith in
      let other : (q : ℕ) → row_tag e mid' q ≡ false → (q == e + s - 8) ≡ false → c q ≡ h.cell q =
        λ q t ne. ground (arith, t, ne) in
      let is' : IsHeap (record h { cell = c }) (pre ++ (mid' ++ post)) fs =
        retag-IsHeap h c e (e + s) pre (block s true false ∷ []) mid' post fs is here.at
          (omega arith) refl row (omega (arith, here.next_tag, top)) (λ q. refl)
          (IsListed-swap pre (block s true false ∷ []) mid' post is.listed (refl, tt)) other in
      (
        is',
        λ q paid.
            let (t, ne) = rows_tag-parts p e (e + s) pre mid' post q here.at (omega arith) (
              payload_at-rows_tag p (pre ++ (mid' ++ post)) q
                (Rows-IsLarge c p true (pre ++ (mid' ++ post)) is'.rows) (omega arith) paid) in
            other q t ne,
      )

some_place_lem : (e : ℕ) → 24 < e → (e == 0) ≡ false
some_place_lem e low = ground arith

-- What `mm_free` leaves: the heap is settled, and the user has the words of the other blocks.
pub record Freed (h : Heap) (bs : List Block) (call : Option Heap) : Type 0 where
  pub cells : ℕ → ℕ
  pub head : ℕ
  pub blocks : List Block
  pub frees : List ℕ
  pub run : call ≡ some (with_cells h cells head)
  pub heap : IsHeap (with_cells h cells head) blocks frees
  pub settled : Settled true blocks
  pub paid : (q : ℕ) → payload_at (h.start + 24) blocks q ≡ payload_at (h.start + 24) bs q
  pub kept : (q : ℕ) → user_word (h.start + 24) bs cells q ≡ user_word (h.start + 24) bs h.cell q

-- `mm_free` of an allocated block of a settled heap, between any others, is defined. The heap that
-- it leaves is settled: the block has joined the free blocks beside it, in the free list. What the
-- user has are the words of the other blocks, and they have not changed.
pub mm_free-IsHeap :
    (h : Heap) (e s : ℕ) (pre post : List Block) (fs : List ℕ)
    → IsHeap h (pre ++ block s true false ∷ post) fs
    → Settled true (pre ++ block s true false ∷ post)
    → e ≡ h.start + 24 + total pre
    → Freed h (pre ++ block s false false ∷ post) (mm_free h e)
unfolding mm_free free_block
mm_free-IsHeap h e s pre post fs is settled at =
    let prev = last_used true pre in
    let here = block-IsAt h e pre (block s true false) post fs at is in
    let wide = here.is.large in
    let (is', kept) = freed-IsHeap h e s pre post fs here is in
    let (before, (_, _, behind)) = Settled-split true pre (block s true false ∷ post) settled in
    let joined =
      coalesce-IsHeap (record h { cell = freed_cells h e s pre post }) e s fs pre post is' at before
        behind in
    let h1 = record h { cell = set_cell h.cell (e - 8) (tag s prev false) } in
    let h2 = record h1 { cell = set_cell h1.cell (e + s - 16) s } in
    let some_place : (e == 0) ≡ false = some_place_lem e here.low in
    record {
      cells = joined.cells;
      head = joined.bp;
      blocks = joined.before ++ block joined.size false true ∷ joined.behind;
      frees = joined.frees;
      run = rw some_place (
          step _ (get_size-IsAt h e pre (block s true false) post here) (
            step _ (get_prev_alloc-IsAt h e pre (block s true false) post here) (
              rw (pack_hdr-tag s prev false here.is.aligned) (
                step _ (put-IsInside h (e - 8) here.header_inside _) (
                  step _
                    (ftrp-tag h1 e s prev false here.header_inside (set_here h.cell (e - 8) _)
                      here.is.aligned here.small)
                    (step _ (put-IsInside h1 (e + s - 16) here.footer_inside s) (
                      step _
                        (next_blkp-tag h2 e s prev false here.header_inside
                          (set_header h.cell e s _ s here.low wide) here.is.aligned here.small)
                        (step _
                          (unset_prev_alloc-tag h2 (e + s - 8) (head_size post) true
                            (head_used post) here.next_inside
                            (set_behind h.cell e s _ s here.low wide ∙ here.next_tag)
                            here.next_aligned here.next_small)
                          (step _ joined.run refl)))))))));
      heap = joined.heap;
      settled = joined.settled;
      paid = joined.paid;
      kept = λ q.
          user_word-Keeps (h.start + 24) (pre ++ block s false false ∷ post) h.cell joined.cells q
            (λ paid. joined.kept q paid ∙ kept q paid);
    }
