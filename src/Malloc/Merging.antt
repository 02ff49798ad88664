-- ===== src/Malloc/Merging.antt =====
-- The branches of `coalesce` of malloclab/src/mm.c.
use mathlib.Core.Path.{subst}
use mathlib.Core.List.{append_assoc}
use cs_app_labs.Prelude.{
  ℕ, ◌+◌, ◌-◌, ◌%◌, ◌^◌, ◌<◌, ◌≡◌, refl, sym, ap, ◌∙◌, true, false, some, List, [], ◌∷◌, ◌++◌,
  arith,
}
use cs_app_labs.Malloc.Words.{Heap, set_cell, add_size, prev_blkp}
use cs_app_labs.Malloc.Blocks.{remove_from_free_list, merge_next, merge_prev}
use cs_app_labs.Malloc.Layout.{Block, block, tag, total, last_used, total-append, Rows-IsLarge}
use cs_app_labs.Malloc.Links.{is_link}
use cs_app_labs.Malloc.Steps.{step, IsInside, with_cells, put-IsInside, pack_hdr-tag, prev_blkp_at}
use cs_app_labs.Malloc.Invariant.{IsHeap, payload-is_link}
use cs_app_labs.Malloc.Listing.{remove-IsHeap}
use cs_app_labs.Malloc.Access.{
  IsAt, block-IsAt, next_blkp-IsAt, ftrp-IsAt, get_size-IsAt, prev_blkp-IsAt, tagged,
  put_tags-IsInside,
}
use cs_app_labs.Malloc.Kept.{Keeps, payload-swap, merged-IsHeap}

-- `remove_from_free_list` of the second of two blocks.
pub remove_second-IsHeap :
    (h : Heap) (e : ℕ) (pre : List Block) (b : Block) (s : ℕ) (post : List Block) (fs : List ℕ)
    → e ≡ h.start + 24 + total pre
    → IsHeap h (pre ++ b ∷ (block s false true ∷ post)) fs
    → (c : ℕ → ℕ) × (f : ℕ) × (gs : List ℕ) × (remove_from_free_list h (e + b.size)
        ≡ some (with_cells h c f))
      × IsHeap (with_cells h c f) (pre ++ b ∷ (block s false false ∷ post)) gs
      × ((q : ℕ) → is_link fs q ≡ false → c q ≡ h.cell q)
remove_second-IsHeap h e pre b s post fs at is =
    let (c, f, gs, run, is', same) =
      remove-IsHeap h (e + b.size) (pre ++ b ∷ []) s post
        (omega (arith, at, total-append pre (b ∷ []))) fs
        (subst (λ bs. IsHeap h bs fs) (sym (append_assoc pre (b ∷ []) (block s false true ∷ post)))
          is) in
    (
      c,
      f,
      gs,
      run,
      subst (λ bs. IsHeap (with_cells h c f) bs gs)
          (append_assoc pre (b ∷ []) (block s false false ∷ post)) is',
      same,
    )

pub second-IsAt :
    (h : Heap) (e : ℕ) (pre : List Block) (b b' : Block) (post : List Block) (fs : List ℕ)
    → e ≡ h.start + 24 + total pre
    → IsHeap h (pre ++ b ∷ (b' ∷ post)) fs
    → IsAt h (e + b.size) (pre ++ b ∷ []) b' post
second-IsAt h e pre b b' post fs at is =
    block-IsAt h (e + b.size) (pre ++ b ∷ []) b' post fs
      (omega (arith, at, total-append pre (b ∷ [])))
      (subst (λ bs. IsHeap h bs fs) (sym (append_assoc pre (b ∷ []) (b' ∷ post))) is)

pub remove-Keeps :
    (h : Heap) (c : ℕ → ℕ) (bs : List Block) (fs : List ℕ)
    → IsHeap h bs fs
    → ((q : ℕ) → is_link fs q ≡ false → c q ≡ h.cell q)
    → Keeps h c bs
remove-Keeps h c bs fs is same q paid = same q (
    payload-is_link (h.start + 24) bs fs q (Rows-IsLarge h.cell (h.start + 24) true bs is.rows)
      is.listed is.matching paid)

pub prev_blkp_here :
    (h : Heap) (e s : ℕ)
    → IsInside h (e + s - 16)
    → h.cell (e + s - 16) ≡ s
    → s % 8 ≡ 0
    → s < 2 ^ 63
    → prev_blkp h (e + s) ≡ some e
prev_blkp_here h e s inside foot aligned small =
    prev_blkp_at h (e + s) s inside foot aligned small ∙ ap some (omega arith)

module _ (h : Heap) (e : ℕ) (pre : List Block) (fs : List ℕ) (at : e ≡ h.start + 24 + total pre)
    (before : last_used true pre ≡ true) where
  -- The block behind is free.
  pub merge_next-IsHeap :
      (s s' : ℕ) (post : List Block)
      → IsHeap h (pre ++ block s false false ∷ (block s' false true ∷ post)) fs
      → (c : ℕ → ℕ) × (f : ℕ) × (gs : List ℕ) × (merge_next h e s ≡ some (with_cells h c f, e))
        × IsHeap (with_cells h c f) (pre ++ block (s + s') false false ∷ post) gs
        × Keeps h c (pre ++ block (s + s') false false ∷ post)
  unfolding merge_next
  merge_next-IsHeap s s' post is =
      let b = block s false false in
      let p = h.start + 24 in
      let here = block-IsAt h e pre b (block s' false true ∷ post) fs at is in
      let (c, f, gs, run, is1, same) = remove_second-IsHeap h e pre b s' post fs at is in
      let here1 = block-IsAt (with_cells h c f) e pre b (block s' false false ∷ post) gs at is1 in
      let there1 = second-IsAt (with_cells h c f) e pre b (block s' false false) post gs at is1 in
      let sum : add_size s s' ≡ s + s' = omega (arith, here1.near) in
      let aligned : (s + s') % 8 ≡ 0 = omega (arith, here1.is.aligned, there1.is.aligned) in
      let d = tagged c e (s + s') in
      let (is2, kept) =
        merged-IsHeap (with_cells h c f) d e (s + s') pre (b ∷ block s' false false ∷ []) post gs
          is1 at (omega arith) aligned (omega (arith, here1.is.large)) before refl (λ q. refl)
          (λ q. refl) (ground arith) (ground arith) (λ q ne ne'. ground (arith, ne, ne')) in
      (
        d,
        f,
        gs,
        step _ (next_blkp-IsAt h e pre b (block s' false true ∷ post) here) (
            step _ run (
              step _ (next_blkp-IsAt (with_cells h c f) e pre b (block s' false false ∷ post) here1)
                (step _
                  (get_size-IsAt (with_cells h c f) (e + s) (pre ++ b ∷ []) (block s' false false)
                    post there1)
                  (rw sum (
                    step _
                      (put_tags-IsInside (with_cells h c f) e (s + s') here1.header_inside
                        (
                          omega (arith, there1.footer_inside.0),
                          omega (arith, there1.footer_inside.1),
                          omega (arith, there1.aligned, there1.is.aligned, there1.is.large),
                        )
                        aligned (omega (arith, here1.near)))
                      refl))))),
        is2,
        λ q paid.
            kept q paid
            ∙ remove-Keeps h c (pre ++ b ∷ (block s' false true ∷ post)) fs is same q (
                payload-swap p e (e + s + s') pre (block (s + s') false false ∷ [])
                  (b ∷ block s' false true ∷ []) post q at (omega arith) (omega arith) refl
                ∙ paid),
      )

  -- The block before is free.
  pub merge_prev-IsHeap :
      (s s' : ℕ) (post : List Block)
      → IsHeap h (pre ++ block s false true ∷ (block s' false false ∷ post)) fs
      → (c : ℕ → ℕ) × (f : ℕ) × (gs : List ℕ) × (merge_prev h (e + s) s'
          ≡ some (with_cells h c f, e))
        × IsHeap (with_cells h c f) (pre ++ block (s' + s) false false ∷ post) gs
        × Keeps h c (pre ++ block (s' + s) false false ∷ post)
  unfolding merge_prev
  merge_prev-IsHeap s s' post is =
      let b = block s' false false in
      let p = h.start + 24 in
      let here = block-IsAt h e pre (block s false true) (b ∷ post) fs at is in
      let (c, f, gs, run, is1, same) = remove-IsHeap h e pre s (b ∷ post) at fs is in
      let h1 = with_cells h c f in
      let here1 = block-IsAt h1 e pre (block s false false) (b ∷ post) gs at is1 in
      let there1 = second-IsAt h1 e pre (block s false false) b post gs at is1 in
      let sum : add_size s' s ≡ s' + s = omega (arith, here1.near) in
      let aligned : (s' + s) % 8 ≡ 0 = omega (arith, here1.is.aligned, there1.is.aligned) in
      let foot = e + s + s' - 16 in
      let c2 = set_cell c foot (s' + s) in
      let h2 = with_cells h c2 f in
      let d = set_cell c2 (e - 8) (tag (s' + s) true false) in
      let (is2, kept) =
        merged-IsHeap h1 d e (s' + s) pre (block s false false ∷ b ∷ []) post gs is1 at
          (omega arith) aligned (omega (arith, here1.is.large)) before refl (λ q. refl) (λ q. refl)
          (ground arith) (ground (arith, here1.is.large)) (λ q ne ne'. ground (arith, ne, ne')) in
      (
        d,
        f,
        gs,
        step _ (prev_blkp-IsAt h e pre s true (b ∷ post) here) (
            step _ run (
              step _ (prev_blkp-IsAt h1 e pre s false (b ∷ post) here1) (
                step _ (get_size-IsAt h1 e pre (block s false false) (b ∷ post) here1) (
                  step _ (ftrp-IsAt h1 (e + s) (pre ++ block s false false ∷ []) b post there1) (
                    rw (sum, pack_hdr-tag (s' + s) true false aligned)
                      (step _ (put-IsInside h1 foot there1.footer_inside (s' + s)) (
                        step _
                          (prev_blkp_here h2 e s here1.footer_inside
                            (ground (arith, here1.is.footer, there1.is.large)) here1.is.aligned
                            here1.small)
                          (step _ (put-IsInside h2 (e - 8) here1.header_inside _) (
                            step _
                              (prev_blkp_here (with_cells h d f) e s here1.footer_inside
                                (ground (arith, here1.is.footer, here1.is.large, there1.is.large))
                                here1.is.aligned here1.small)
                              refl))))))))),
        is2,
        λ q paid.
            kept q paid
            ∙ remove-Keeps h c (pre ++ block s false true ∷ (b ∷ post)) fs is same q (
                payload-swap p e (e + s + s') pre (block (s' + s) false false ∷ [])
                  (block s false true ∷ b ∷ []) post q at (omega arith) (omega arith) refl
                ∙ paid),
      )
