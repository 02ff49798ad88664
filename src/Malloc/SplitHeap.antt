-- ===== src/Malloc/SplitHeap.antt =====
-- The heap that `split_block` of `place` of malloclab/src/mm.c leaves.
use mathlib.Core.Path.{subst}
use mathlib.Core.List.{append_assoc}
use cs_app_labs.Prelude.{
  ℕ, ◌+◌, ◌-◌, ◌%◌, ◌<◌, ◌≤◌, ◌≡◌, refl, sym, ◌∙◌, true, false, some, List, [], ◌∷◌, ◌++◌, ◌==◌,
  arith,
}
use cs_app_labs.Malloc.Words.{Heap, set_cell, sub_size}
use cs_app_labs.Malloc.Blocks.{split_block}
use cs_app_labs.Malloc.Layout.{
  Block, block, tag, total, total-append, last_used, row_tag, rows_tag, Rows-IsLarge, linked_at,
  payload_at-rows_tag,
}
use cs_app_labs.Malloc.Links.{has, is_link, is_link-differ, Links-frame}
use cs_app_labs.Malloc.Frames.{Rows-frame}
use cs_app_labs.Malloc.FreeList.{IsFreeList}
use cs_app_labs.Malloc.Steps.{step, with_cells, put-IsInside, pack_hdr-tag, next_blkp-tag}
use cs_app_labs.Malloc.Parts.{rows_tag-append, rows_tag-parts}
use cs_app_labs.Malloc.Invariant.{IsHeap, is_link_gap, payload-is_link}
use cs_app_labs.Malloc.Listing.{IsLarge-split, add-IsHeap}
use cs_app_labs.Malloc.Access.{block-IsAt, tagged, put_tags-IsInside, set_here}
use cs_app_labs.Malloc.Kept.{Keeps, IsListed-swap}
use cs_app_labs.Malloc.Split.{
  first_cells, parted, parted_cells, parted_other, parted-Rows, tagged_same, parted-rows_tag,
  parted-linked_at, payload-parted,
}
use cs_app_labs.Malloc.Take.{remove_tagged, rows_tag-is_link, rebuilt-IsHeap}

-- Words that are no links.
clear_same :
    (c : ℕ → ℕ) (gs : List ℕ) (r s q : ℕ)
    → is_link gs q ≡ true
    → is_link gs (r - 8) ≡ false
    → is_link gs (r + s - 16) ≡ false
    → tagged c r s q ≡ c q
clear_same c gs r s q l clear clear' =
    let ne = is_link-differ gs q (r - 8) l clear in
    let ne' = is_link-differ gs q (r + s - 16) l clear' in ground (arith, ne, ne')

-- Words that are no tags.
row_tag_parts :
    (e a s q : ℕ)
    → a + 32 ≤ s
    → row_tag e (block a true false ∷ block (s - a) false true ∷ []) q ≡ false
    → ((q == e - 8) ≡ false) × ((q == e + a - 8) ≡ false) × ((q == e + s - 16) ≡ false)
row_tag_parts e a s q fits out = (ground (arith, out), ground (arith, out), ground (arith, out))

first_other :
    (e v : ℕ) (m : ℕ → ℕ) (q s : ℕ) (pre post : List Block) (p : ℕ)
    → e ≡ p + total pre
    → rows_tag p (pre ++ block s false true ∷ post) q ≡ false
    → set_cell m (e - 8) v q ≡ m q
first_other e v m q s pre post p at out =
    let (clear, _) =
      rows_tag-parts p e (e + s) pre (block s false true ∷ []) post q at (omega arith) out in
    let ne : (q == e - 8) ≡ false = ground (arith, clear) in ground (arith, ne)

module _ (h : Heap) (e a s : ℕ) (pre post : List Block) (fs : List ℕ)
    (at : e ≡ h.start + 24 + total pre) (aligned : a % 8 ≡ 0) (wide : 32 ≤ a)
    (fits : a + 32 ≤ s) where
  -- The heap before the rest comes in the free list.
  parted-IsHeap :
      (c : ℕ → ℕ) (f : ℕ) (gs : List ℕ)
      → IsHeap h (pre ++ block s false true ∷ post) fs
      → last_used true pre ≡ true
      → IsFreeList (with_cells h c f) gs
      → ((q : ℕ) → has gs q ≡ linked_at (h.start + 24) (pre ++ block s false false ∷ post) q)
      → ((q : ℕ) → is_link fs q ≡ false → c q ≡ first_cells h e a s pre post fs q)
      → IsHeap (with_cells h (tagged c (e + a) (s - a)) f) (parted h e a s pre post fs) gs
  parted-IsHeap c f gs is before free matching same =
      let p = h.start + 24 in
      let bs = pre ++ block s false true ∷ post in
      let here = block-IsAt h e pre (block s false true) post fs at is in
      let (large_pre, ((_, size), large_post)) =
        IsLarge-split pre (block s false true ∷ post) (Rows-IsLarge h.cell p true bs is.rows) in
      let d = tagged c (e + a) (s - a) in
      let gap : (q : ℕ) → e ≤ q → q < e + s → is_link gs q ≡ false = λ q le lt.
        is_link_gap p e pre (block s false false) post gs q large_pre large_post at refl matching le
          lt in
      rebuilt-IsHeap h d f bs (parted h e a s pre post fs) fs gs is
        (omega (
          arith,
          fits,
          total-append pre (block a true false ∷ (block (s - a) false false ∷ post)),
          total-append pre (block s false true ∷ post),
        ))
        (Rows-frame (parted_cells h e a s pre post fs) d p true (parted h e a s pre post fs)
          (λ q t. tagged_same c (first_cells h e a s pre post fs) (e + a) (s - a) q (λ ne ne'.
            same q (
              rows_tag-is_link h bs fs q is
                (parted-rows_tag h e a s pre post fs at fits q ne ne' t))))
          (parted-Rows h e a s pre post fs here is before aligned wide fits))
        (record {
          head = free.head;
          links =
              Links-frame c d 0 gs
                (λ q l.
                  clear_same c gs (e + a) (s - a) q l (gap (e + a - 8) (omega arith) (omega arith))
                    (gap (e + a + (s - a) - 16) (omega arith) (omega arith)))
                free.links;
          spaced = free.spaced;
          inside = free.inside;
        })
        (λ q. matching q ∙ sym (parted-linked_at h e a s pre post fs at fits q))
        (IsListed-swap pre (block s false true ∷ [])
          (block a true false ∷ block (s - a) false false ∷ []) post is.listed (refl, (refl, tt)))

  -- The front part is allocated, the rest is in the free list, and the words of the user are the same.
  pub split_block-IsHeap :
      IsHeap h (pre ++ block s false true ∷ post) fs
      → last_used true pre ≡ true
      → (c : ℕ → ℕ) × (f : ℕ) × (gs : List ℕ) × (split_block h e a s ≡ some (with_cells h c f))
        × IsHeap
            (with_cells h c f)
            (pre ++ block a true false ∷ (block (s - a) false true ∷ post))
            gs
        × Keeps h c (pre ++ block s false true ∷ post)
  unfolding split_block
  split_block-IsHeap is before =
      let p = h.start + 24 in
      let bs = pre ++ block s false true ∷ post in
      let large = Rows-IsLarge h.cell p true bs is.rows in
      let here = block-IsAt h e pre (block s false true) post fs at is in
      let t = first_cells h e a s pre post fs in
      let header : t (e - 8) ≡ tag a true true = set_here h.cell (e - 8) (tag a true true) in
      let tag_here : rows_tag p bs (e - 8) ≡ true =
        ground (arith, rows_tag-append p e pre (block s false true ∷ post) (e - 8) at) in
      let other : (q : ℕ) → rows_tag p bs q ≡ false → t q ≡ h.cell q =
        λ q out. first_other e (tag a true true) h.cell q s pre post p at out in
      let (c, f, gs, run, free, matching, same) = remove_tagged h t e pre s post fs at is other in
      let d = tagged c (e + a) (s - a) in
      let is1 = parted-IsHeap c f gs is before free matching same in
      let one = block a true false ∷ [] in
      let rest = block (s - a) false false ∷ post in
      let at1 : e + a ≡ h.start + 24 + total (pre ++ one) =
        omega (arith, at, total-append pre one) in
      let (d', added, is2, same2) =
        add-IsHeap (with_cells h d f) (e + a) (pre ++ one) (s - a) post at1 gs
          (subst (λ zs. IsHeap (with_cells h d f) zs gs) (sym (append_assoc pre one rest)) is1) in
      let final = pre ++ block a true false ∷ (block (s - a) false true ∷ post) in
      let is3 : IsHeap (with_cells h d' (e + a)) final ((e + a) ∷ gs) =
        subst (λ zs. IsHeap (with_cells h d' (e + a)) zs ((e + a) ∷ gs))
          (append_assoc pre one (block (s - a) false true ∷ post)) is2 in
      let rest_size : sub_size s a ≡ s - a = omega (arith, here.small) in
      let fine : (s - a) % 8 ≡ 0 = omega (arith, here.is.aligned, aligned) in
      (
        d',
        e + a,
        (e + a) ∷ gs,
        rw (pack_hdr-tag a true true aligned, rest_size)
            (step _ (put-IsInside h (e - 8) here.header_inside (tag a true true)) (
              step _ run (
                step _
                  (next_blkp-tag (with_cells h c f) e a true true here.header_inside
                    (same (e - 8) (rows_tag-is_link h bs fs (e - 8) is tag_here) ∙ header) aligned
                    (omega (arith, here.small)))
                  (step _
                    (put_tags-IsInside (with_cells h c f) (e + a) (s - a)
                      (
                        omega (arith, here.header_inside.0),
                        omega (arith, here.next_inside.1),
                        omega (arith, here.aligned, aligned),
                      )
                      (
                        omega (arith, here.footer_inside.0),
                        omega (arith, here.next_inside.1),
                        omega (arith, here.aligned, here.is.aligned),
                      )
                      fine (omega (arith, here.small)))
                    added)))),
        is3,
        λ q paid.
            let paid' = payload-parted h e a s pre post fs at fits q paid in
            let large' = Rows-IsLarge d' p true final is3.rows in
            let (out, _) =
              rows_tag-parts p e (e + s) pre (block a true false ∷ block (s - a) false true ∷ [])
                post q at (omega arith)
                (payload_at-rows_tag p final q large' (omega arith) paid') in
            let (ne, ne', ne'') = row_tag_parts e a s q fits out in
            same2 q (payload-is_link p final ((e + a) ∷ gs) q large' is3.listed is3.matching paid')
            ∙ tagged_same c t (e + a) (s - a) q
                (λ m m'. same q (payload-is_link p bs fs q large is.listed is.matching paid))
            ∙ parted_other h e a s pre post fs q here.low wide fits ne ne' ne'',
      )
