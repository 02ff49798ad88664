-- ===== src/Malloc/Take.antt =====
-- `take_block` of `place` of malloclab/src/mm.c: a block of the free list is allocated whole.
use mathlib.Core.Path.{subst}
use cs_app_labs.Prelude.{
  ℕ, ◌+◌, ◌-◌, ◌≡◌, refl, sym, ap, ◌∙◌, Bool, true, false, some, List, [], ◌∷◌, ◌++◌, ◌==◌, arith,
  Bool-cases, inl, inr,
}
use cs_app_labs.Malloc.Words.{Heap, set_cell}
use cs_app_labs.Malloc.Blocks.{remove_from_free_list, take_block}
use cs_app_labs.Malloc.Layout.{
  Block, block, tag, total, total-append, last_used, rows_tag, Row, Rows, Rows-IsLarge, IsListed,
  linked_at, linked_at-append, payload_at-rows_tag,
}
use cs_app_labs.Malloc.Links.{has, is_link, Links-frame}
use cs_app_labs.Malloc.Frames.{Rows-frame}
use cs_app_labs.Malloc.FreeList.{IsFreeList, remove-IsFreeList}
use cs_app_labs.Malloc.Steps.{
  step, with_cells, put-IsInside, pack_hdr-tag, next_blkp-tag, set_prev_alloc-tag,
}
use cs_app_labs.Malloc.Parts.{has-split, rows_tag-append, rows_tag-parts, Rows-replace}
use cs_app_labs.Malloc.Invariant.{IsHeap, link-rows_tag, payload-is_link}
use cs_app_labs.Malloc.Listing.{IsLarge-split, matching-remove, Spaced-once}
use cs_app_labs.Malloc.Access.{head_size, head_used, IsAt, block-IsAt, set_here, set_apart}
use cs_app_labs.Malloc.Kept.{Keeps, IsListed-swap}

-- A block leaves the free list when some tags of the heap are written already.
module _ (h : Heap) (t : ℕ → ℕ) (e : ℕ) (pre : List Block) (s : ℕ) (post : List Block) (fs : List ℕ)
    (at : e ≡ h.start + 24 + total pre) where
  pub remove_tagged :
      IsHeap h (pre ++ block s false true ∷ post) fs
      → ((q : ℕ)
          → rows_tag (h.start + 24) (pre ++ block s false true ∷ post) q ≡ false
          → t q ≡ h.cell q)
      → (c : ℕ → ℕ) × (f : ℕ) × (gs : List ℕ) × (remove_from_free_list (record h { cell = t }) e
          ≡ some (with_cells h c f))
        × IsFreeList (with_cells h c f) gs
        × ((q : ℕ) → has gs q ≡ linked_at (h.start + 24) (pre ++ block s false false ∷ post) q)
        × ((q : ℕ) → is_link fs q ≡ false → c q ≡ t q)
  remove_tagged is same =
      let p = h.start + 24 in
      let bs = pre ++ block s false true ∷ post in
      let large = Rows-IsLarge h.cell p true bs is.rows in
      let (large_pre, ((_, size), large_post)) =
        IsLarge-split pre (block s false true ∷ post) large in
      let here : has fs e ≡ true =
        is.matching e ∙ linked_at-append p e pre (block s false true ∷ post) e at ∙ ground arith in
      let (before, behind, split) = has-split fs e here in
      let free : IsFreeList (record h { cell = t }) fs = record {
        head = is.free.head;
        links =
            Links-frame h.cell t 0 fs
              (λ q l. same q (link-rows_tag p bs fs q large (omega arith) is.matching l))
              is.free.links;
        spaced = is.free.spaced;
        inside = is.free.inside;
      } in
      let free' = subst (IsFreeList (record h { cell = t })) split free in
      let (c, f, run, left, other) =
        remove-IsFreeList (record h { cell = t }) before e behind free' in
      let (once, once') = Spaced-once before e behind free'.spaced in
      (
        c,
        f,
        before ++ behind,
        run,
        left,
        λ q.
            matching-remove p e pre s post before behind q large_pre large_post (omega arith) at
              (once, once') (ap (λ zs. has zs q) (sym split) ∙ is.matching q),
        λ q out. other q (ap (λ zs. is_link zs q) (sym split) ∙ out),
      )

-- Tags are no links.
pub rows_tag-is_link :
    (h : Heap) (bs : List Block) (fs : List ℕ) (q : ℕ)
    → IsHeap h bs fs
    → rows_tag (h.start + 24) bs q ≡ true
    → is_link fs q ≡ false
rows_tag-is_link h bs fs q is tagged = elim (Bool-cases (is_link fs q)) [
  | inl l ↦ absurd (
      cc (
        tagged,
        link-rows_tag (h.start + 24) bs fs q (Rows-IsLarge h.cell (h.start + 24) true bs is.rows)
            (omega arith) is.matching l,
      ))
  | inr o ↦ o
]

-- The heap with other blocks in the same place.
pub rebuilt-IsHeap :
    (h : Heap) (c : ℕ → ℕ) (f : ℕ) (bs bs' : List Block) (fs gs : List ℕ)
    → IsHeap h bs fs
    → total bs' ≡ total bs
    → Rows c (h.start + 24) true bs'
    → IsFreeList (with_cells h c f) gs
    → ((q : ℕ) → has gs q ≡ linked_at (h.start + 24) bs' q)
    → IsListed bs'
    → IsHeap (with_cells h c f) bs' gs
rebuilt-IsHeap h c f bs bs' fs gs is size rows free matching listed = record {
  some_place = is.some_place;
  aligned = is.aligned;
  ends = omega (arith, is.ends, size);
  small = is.small;
  begun = is.begun;
  rows = rows;
  free = free;
  matching = matching;
  listed = listed;
}

module _ (h : Heap) (e s : ℕ) (pre post : List Block) (fs : List ℕ) where
  abbrev taken_cells : ℕ → ℕ
  taken_cells =
      set_cell (set_cell h.cell (e - 8) (tag s true true)) (e + s - 8)
        (tag (head_size post) true (head_used post))

  taken_other : (q : ℕ) → (q == e - 8) ≡ false → (q == e + s - 8) ≡ false → taken_cells q ≡ h.cell q
  taken_other q ne ne' = ground (arith, ne, ne')

  taken-Rows :
      IsAt h e pre (block s false true) post
      → IsHeap h (pre ++ block s false true ∷ post) fs
      → last_used true pre ≡ true
      → Rows taken_cells (h.start + 24) true (pre ++ block s true false ∷ post)
  taken-Rows here is before =
      let wide = here.is.large in
      let header : taken_cells (e - 8) ≡ tag s true true = ground (arith, wide) in
      let top : taken_cells (e + s - 8) ≡ tag (head_size post) true (head_used post) =
        ground arith in
      let row : Row taken_cells e (last_used true pre) (block s true false ∷ []) = (
        record {
          header = header ∙ ap (λ (u : Bool). tag s u true) (sym before);
          footer = tt;
          aligned = here.is.aligned;
          large = wide;
        },
        tt,
      ) in
      Rows-replace h.cell taken_cells (h.start + 24) e (e + s) true pre (block s false true ∷ [])
        (block s true false ∷ []) post (omega arith) here.at (omega arith) refl is.rows row
        (omega (arith, here.next_tag, top)) (λ q t ne. taken_other q (ground (arith, t)) ne)

  -- The block is allocated, and the words of the user are the same.
  pub take_block-IsHeap :
      IsHeap h (pre ++ block s false true ∷ post) fs
      → last_used true pre ≡ true
      → e ≡ h.start + 24 + total pre
      → (c : ℕ → ℕ) × (f : ℕ) × (gs : List ℕ) × (take_block h e s ≡ some (with_cells h c f))
        × IsHeap (with_cells h c f) (pre ++ block s true false ∷ post) gs
        × Keeps h c (pre ++ block s false true ∷ post)
  unfolding take_block
  take_block-IsHeap is before at =
      let p = h.start + 24 in
      let bs = pre ++ block s false true ∷ post in
      let here = block-IsAt h e pre (block s false true) post fs at is in
      let parts = λ (q : ℕ) (out : rows_tag p bs q ≡ false).
        rows_tag-parts p e (e + s) pre (block s false true ∷ []) post q at (omega arith) out in
      let other : (q : ℕ) → rows_tag p bs q ≡ false → taken_cells q ≡ h.cell q =
        λ q out. taken_other q (ground (arith, (parts q out).0)) (parts q out).1 in
      let (c, f, gs, run, free, matching, same) =
        remove_tagged h taken_cells e pre s post fs at is other in
      let rows = taken-Rows here is before in
      let fewer : (q : ℕ)
          → rows_tag p (pre ++ block s true false ∷ post) q ≡ true
          → rows_tag p bs q ≡ true =
        λ q t. ground (
          arith,
          t,
          rows_tag-append p e pre (block s true false ∷ post) q at,
          rows_tag-append p e pre (block s false true ∷ post) q at,
        ) in
      let header : set_cell h.cell (e - 8) (tag s true true) (e - 8) ≡ tag s true true =
        set_here h.cell (e - 8) (tag s true true) in
      let top = set_apart h.cell e s (tag s true true) here.low here.is.large in
      (
        c,
        f,
        gs,
        rw (pack_hdr-tag s true true here.is.aligned) (
            step _ (put-IsInside h (e - 8) here.header_inside (tag s true true)) (
              step _
                (next_blkp-tag (record h { cell = set_cell h.cell (e - 8) (tag s true true) }) e s
                  true true here.header_inside header here.is.aligned here.small)
                (step _
                  (set_prev_alloc-tag
                    (record h { cell = set_cell h.cell (e - 8) (tag s true true) }) (e + s - 8)
                    (head_size post) false (head_used post) here.next_inside (top ∙ here.next_tag)
                    here.next_aligned here.next_small)
                  run))),
        rebuilt-IsHeap h c f bs (pre ++ block s true false ∷ post) fs gs is
            (total-append pre (block s true false ∷ post)
              ∙ sym (total-append pre (block s false true ∷ post)))
            (Rows-frame taken_cells c p true (pre ++ block s true false ∷ post)
              (λ q t. same q (rows_tag-is_link h bs fs q is (fewer q t))) rows)
            free
            (λ q.
              matching q
              ∙ linked_at-append p e pre (block s false false ∷ post) q at
              ∙ sym (linked_at-append p e pre (block s true false ∷ post) q at))
            (IsListed-swap pre (block s false true ∷ []) (block s true false ∷ []) post is.listed
              (refl, tt)),
        λ q paid.
            same q (
              payload-is_link p bs fs q (Rows-IsLarge h.cell p true bs is.rows) is.listed
                is.matching paid)
            ∙ other q (
                payload_at-rows_tag p bs q (Rows-IsLarge h.cell p true bs is.rows) (omega arith)
                  paid),
      )
