-- ===== src/Malloc/MergeBoth.antt =====
-- The branch of `coalesce` of malloclab/src/mm.c for a block between two free ones.
use mathlib.Core.Path.{subst}
use mathlib.Core.List.{append_assoc}
use cs_app_labs.Prelude.{
  ℕ, ◌+◌, ◌-◌, ◌%◌, ◌≡◌, refl, sym, ◌∙◌, true, false, some, List, [], ◌∷◌, ◌++◌, arith,
}
use cs_app_labs.Malloc.Words.{Heap, set_cell, add_size}
use cs_app_labs.Malloc.Blocks.{merge_both}
use cs_app_labs.Malloc.Layout.{Block, block, tag, total, last_used, total-append}
use cs_app_labs.Malloc.Steps.{step, with_cells, put-IsInside, pack_hdr-tag, ftrp-tag, next_blkp-tag}
use cs_app_labs.Malloc.Invariant.{IsHeap}
use cs_app_labs.Malloc.Listing.{remove-IsHeap}
use cs_app_labs.Malloc.Access.{block-IsAt, next_blkp-IsAt, get_size-IsAt, prev_blkp-IsAt}
use cs_app_labs.Malloc.Merging.{second-IsAt, remove-Keeps, prev_blkp_here, remove_second-IsHeap}
use cs_app_labs.Malloc.Kept.{Keeps, payload-swap, merged-IsHeap}

module _ (h : Heap) (e : ℕ) (pre : List Block) (fs : List ℕ) (at : e ≡ h.start + 24 + total pre)
    (before : last_used true pre ≡ true) where
  -- Both neighbours are free.
  pub merge_both-IsHeap :
      (s0 s s1 : ℕ) (post : List Block)
      → IsHeap h
          (pre ++ block s0 false true ∷ (block s false false ∷ (block s1 false true ∷ post)))
          fs
      → (c : ℕ → ℕ) × (f : ℕ) × (gs : List ℕ) × (merge_both h (e + s0) s
          ≡ some (with_cells h c f, e))
        × IsHeap (with_cells h c f) (pre ++ block (s + (s0 + s1)) false false ∷ post) gs
        × Keeps h c (pre ++ block (s + (s0 + s1)) false false ∷ post)
  unfolding merge_both
  merge_both-IsHeap s0 s s1 post is =
      let p = h.start + 24 in
      let b = block s false false in
      let b1 = block s1 false false in
      let here =
        block-IsAt h e pre (block s0 false true) (b ∷ (block s1 false true ∷ post)) fs at is in
      let (c, f, gs, run, is1, same) =
        remove-IsHeap h e pre s0 (b ∷ (block s1 false true ∷ post)) at fs is in
      let h1 = with_cells h c f in
      let pre1 = pre ++ block s0 false false ∷ [] in
      let at1 : e + s0 ≡ h.start + 24 + total pre1 =
        omega (arith, at, total-append pre (block s0 false false ∷ [])) in
      let is1' : IsHeap h1 (pre1 ++ b ∷ (block s1 false true ∷ post)) gs =
        subst (λ bs. IsHeap h1 bs gs)
          (sym (append_assoc pre (block s0 false false ∷ []) (b ∷ (block s1 false true ∷ post))))
          is1 in
      let mid1 = block-IsAt h1 (e + s0) pre1 b (block s1 false true ∷ post) gs at1 is1' in
      let (c2, f2, gs2, run2, is2', same2) =
        remove_second-IsHeap h1 (e + s0) pre1 b s1 post gs at1 is1' in
      let h2 = with_cells h c2 f2 in
      let is2 : IsHeap h2 (pre ++ block s0 false false ∷ (b ∷ (b1 ∷ post))) gs2 =
        subst (λ bs. IsHeap h2 bs gs2)
          (append_assoc pre (block s0 false false ∷ []) (b ∷ (b1 ∷ post))) is2' in
      let here2 = block-IsAt h2 e pre (block s0 false false) (b ∷ (b1 ∷ post)) gs2 at is2 in
      let mid2 = block-IsAt h2 (e + s0) pre1 b (b1 ∷ post) gs2 at1 is2' in
      let there2 = second-IsAt h2 (e + s0) pre1 b b1 post gs2 at1 is2' in
      let whole = s + (s0 + s1) in
      let sum : add_size s0 s1 ≡ s0 + s1 = omega (arith, here2.near) in
      let sum' : add_size s (s0 + s1) ≡ whole = omega (arith, here2.near) in
      let aligned : whole % 8 ≡ 0 =
        omega (arith, here2.is.aligned, mid2.is.aligned, there2.is.aligned) in
      let c3 = set_cell c2 (e - 8) (tag whole true false) in
      let h3 = with_cells h c3 f2 in
      let foot = e + s0 + s + s1 - 16 in
      let d = set_cell c3 foot whole in
      let (is3, kept) =
        merged-IsHeap h2 d e whole pre (block s0 false false ∷ (b ∷ (b1 ∷ []))) post gs2 is2 at
          (omega arith) aligned (omega (arith, here2.is.large)) before refl (λ q. refl) (λ q. refl)
          (ground (arith, here2.is.large)) (ground arith) (λ q ne ne'. ground (arith, ne, ne')) in
      (
        d,
        f2,
        gs2,
        step _ (prev_blkp-IsAt h e pre s0 true (b ∷ (block s1 false true ∷ post)) here) (
            step _ run (
              step _ (next_blkp-IsAt h1 (e + s0) pre1 b (block s1 false true ∷ post) mid1) (
                step _ run2 (
                  step _ (prev_blkp-IsAt h2 e pre s0 false (b ∷ (b1 ∷ post)) here2) (
                    step _ (get_size-IsAt h2 e pre (block s0 false false) (b ∷ (b1 ∷ post)) here2) (
                      step _ (next_blkp-IsAt h2 (e + s0) pre1 b (b1 ∷ post) mid2) (
                        step _ (get_size-IsAt h2 (e + s0 + s) (pre1 ++ b ∷ []) b1 post there2) (
                          rw (sum, sum', pack_hdr-tag whole true false aligned)
                            (step _ (put-IsInside h2 (e - 8) here2.header_inside _) (
                              step _
                                (next_blkp-tag h3 (e + s0) s (last_used true pre1) false
                                  mid2.header_inside
                                  (ground (arith, mid2.is.header, here2.is.large)) mid2.is.aligned
                                  mid2.small)
                                (step _
                                  (ftrp-tag h3 (e + s0 + s) s1 (last_used true (pre1 ++ b ∷ []))
                                    false there2.header_inside
                                    (ground (arith, there2.is.header, here2.is.large))
                                    there2.is.aligned there2.small)
                                  (step _ (put-IsInside h3 foot there2.footer_inside whole) (
                                    step _
                                      (prev_blkp_here (with_cells h d f2) e s0 here2.footer_inside
                                        (ground (
                                          arith, here2.is.footer, here2.is.large, mid2.is.large,
                                          there2.is.large,
                                        ))
                                        here2.is.aligned here2.small)
                                      refl))))))))))))),
        is3,
        λ q paid.
            let old =
              payload-swap p e (e + s0 + s + s1) pre (block whole false false ∷ [])
                (block s0 false false ∷ (b ∷ (block s1 false true ∷ []))) post q at (omega arith)
                (omega arith) refl
              ∙ paid in
            let oldest =
              payload-swap p e (e + s0 + s + s1) pre (block whole false false ∷ [])
                (block s0 false true ∷ (b ∷ (block s1 false true ∷ []))) post q at (omega arith)
                (omega arith) refl
              ∙ paid in
            kept q paid
            ∙ remove-Keeps h1 c2 (pre ++ block s0 false false ∷ (b ∷ (block s1 false true ∷ post)))
                gs is1 same2 q old
            ∙ remove-Keeps h c (pre ++ block s0 false true ∷ (b ∷ (block s1 false true ∷ post))) fs
                is same q oldest,
      )
