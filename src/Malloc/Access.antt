-- ===== src/Malloc/Access.antt =====
-- What the macros of malloclab/src/mm.c read at a block of the heap, and where its tags are.
use cs_app_labs.Prelude.{
  ℕ, ◌+◌, ◌-◌, ◌%◌, ◌^◌, ◌<◌, ◌≤◌, ◌≡◌, refl, ap, ◌∙◌, Bool, true, false, some, List, [], ◌∷◌, ◌++◌,
  arith,
}
use cs_app_labs.Malloc.Words.{
  Heap, set_cell, hdrp, ftrp, next_blkp, get_size, get_alloc, get_prev_alloc, prev_blkp,
}
use cs_app_labs.Malloc.Blocks.{put_tags}
use cs_app_labs.Malloc.Layout.{
  Block, block, flag, tag, total, last_used, total-append, IsBlock, Rows, IsLarge, Rows-IsLarge,
  Rows-split,
}
use cs_app_labs.Malloc.Steps.{
  step, IsInside, put-IsInside, pack_hdr-tag, next_blkp-tag, ftrp-tag, get_size-tag, get_alloc-tag,
  get_prev_alloc-tag, prev_blkp_at,
}
use cs_app_labs.Malloc.Invariant.{IsHeap, total_aligned}
use cs_app_labs.Malloc.Listing.{IsLarge-split}

-- The first header of some blocks, or of the end of the heap.
abbrev pub head_size : List Block → ℕ
head_size [] = 0
head_size (b ∷ bs) = b.size

abbrev pub head_used : List Block → Bool
head_used [] = true
head_used (b ∷ bs) = b.used

Rows-head :
    (m : ℕ → ℕ) (p : ℕ) (prev : Bool) (bs : List Block)
    → Rows m p prev bs
    → m (p - 8) ≡ tag (head_size bs) prev (head_used bs)
Rows-head m p prev [] r = r
Rows-head m p prev (b ∷ bs) (is, r) = is.header

head_size_aligned : (bs : List Block) → IsLarge bs → head_size bs % 8 ≡ 0
head_size_aligned [] large = refl
head_size_aligned (b ∷ bs) large = large.0.0

head_size_le : (bs : List Block) → head_size bs ≤ total bs
head_size_le [] = omega arith
head_size_le (b ∷ bs) = omega arith

-- A block at an address: its tags, the header behind it, and that they are words of the heap.
pub record IsAt (h : Heap) (e : ℕ) (pre : List Block) (b : Block) (post : List Block) : Type 0 where
  pub at : e ≡ h.start + 24 + total pre
  pub low : 24 < e
  pub aligned : e % 8 ≡ 0
  pub is : IsBlock h.cell e (last_used true pre) b
  pub small : b.size < 2 ^ 63
  pub header_inside : IsInside h (e - 8)
  pub footer_inside : IsInside h (e + b.size - 16)
  pub next_inside : IsInside h (e + b.size - 8)
  pub next_tag : h.cell (e + b.size - 8) ≡ tag (head_size post) b.used (head_used post)
  pub next_aligned : head_size post % 8 ≡ 0
  pub next_small : head_size post < 2 ^ 63
  pub near : e + b.size + total post < 2 ^ 63

pub block-IsAt :
    (h : Heap) (e : ℕ) (pre : List Block) (b : Block) (post : List Block) (fs : List ℕ)
    → e ≡ h.start + 24 + total pre
    → IsHeap h (pre ++ b ∷ post) fs
    → IsAt h e pre b post
block-IsAt h e pre b post fs at is =
    let (row, (here, rest)) = Rows-split h.cell (h.start + 24) e true pre (b ∷ post) at is.rows in
    let (large, ((size, wide), large')) =
      IsLarge-split pre (b ∷ post)
        (Rows-IsLarge h.cell (h.start + 24) true (pre ++ b ∷ post) is.rows) in
    let ends : e + b.size + total post ≡ h.brk =
      omega (arith, is.ends, at, total-append pre (b ∷ post)) in
    let aligned : e % 8 ≡ 0 = omega (arith, at, is.aligned, total_aligned pre large) in
    record {
      at = at;
      low = omega (arith, at, is.some_place);
      aligned = aligned;
      is = here;
      small = omega (arith, ends, is.small);
      header_inside = (omega (arith, at), omega (arith, ends), omega (arith, aligned));
      footer_inside = (omega (arith, at), omega (arith, ends), omega (arith, aligned, size, wide));
      next_inside = (omega (arith, at), omega (arith, ends), omega (arith, aligned, size, wide));
      next_tag = Rows-head h.cell (e + b.size) b.used post rest;
      next_aligned = head_size_aligned post large';
      next_small = omega (arith, ends, is.small, head_size_le post);
      near = omega (arith, ends, is.small);
    }

module _ (h : Heap) (e : ℕ) (pre : List Block) (b : Block) (post : List Block)
    (at : IsAt h e pre b post) where
  pub next_blkp-IsAt : next_blkp h e ≡ some (e + b.size)
  next_blkp-IsAt =
      next_blkp-tag h e b.size (last_used true pre) b.used at.header_inside at.is.header
        at.is.aligned at.small

  pub ftrp-IsAt : ftrp h e ≡ some (e + b.size - 16)
  ftrp-IsAt =
      ftrp-tag h e b.size (last_used true pre) b.used at.header_inside at.is.header at.is.aligned
        at.small

  pub get_size-IsAt : get_size h (hdrp e) ≡ some b.size
  get_size-IsAt =
      get_size-tag h (e - 8) b.size (last_used true pre) b.used at.header_inside at.is.header
        at.is.aligned at.small

  pub get_prev_alloc-IsAt : get_prev_alloc h (hdrp e) ≡ some (flag (last_used true pre))
  get_prev_alloc-IsAt =
      get_prev_alloc-tag h (e - 8) b.size (last_used true pre) b.used at.header_inside at.is.header
        at.is.aligned at.small

  pub get_alloc_next-IsAt : get_alloc h (hdrp (e + b.size)) ≡ some (flag (head_used post))
  get_alloc_next-IsAt =
      get_alloc-tag h (e + b.size - 8) (head_size post) b.used (head_used post) at.next_inside
        at.next_tag at.next_aligned at.next_small

-- The block before another one, where it has a footer.
pub prev_blkp-IsAt :
    (h : Heap) (e : ℕ) (pre : List Block) (s : ℕ) (l : Bool) (post : List Block)
    → IsAt h e pre (block s false l) post
    → prev_blkp h (e + s) ≡ some e
prev_blkp-IsAt h e pre s l post at =
    prev_blkp_at h (e + s) s at.footer_inside at.is.footer at.is.aligned at.small
    ∙ ap some (omega arith)

abbrev pub tagged : (ℕ → ℕ) → (bp size : ℕ) → ℕ → ℕ
tagged m bp size = set_cell (set_cell m (bp - 8) (tag size true false)) (bp + size - 16) size

pub put_tags-IsInside :
    (h : Heap) (e s : ℕ)
    → IsInside h (e - 8)
    → IsInside h (e + s - 16)
    → s % 8 ≡ 0
    → s < 2 ^ 63
    → put_tags h e s ≡ some (record h { cell = tagged h.cell e s })
unfolding put_tags
put_tags-IsInside h e s inside inside' aligned small = rw (pack_hdr-tag s true false aligned) (
    step _ (put-IsInside h (e - 8) inside (tag s true false)) (
      step _
        (ftrp-tag (record h { cell = set_cell h.cell (e - 8) (tag s true false) }) e s true false
          inside (ground arith) aligned small)
        (put-IsInside (record h { cell = set_cell h.cell (e - 8) (tag s true false) }) (e + s - 16)
          inside' s)))

-- Words that the two tags of a block do not touch, and its header.
pub set_header :
    (m : ℕ → ℕ) (e s v w : ℕ)
    → 24 < e
    → 32 ≤ s
    → set_cell (set_cell m (e - 8) v) (e + s - 16) w (e - 8) ≡ v
set_header m e s v w low wide = ground arith

pub set_behind :
    (m : ℕ → ℕ) (e s v w : ℕ)
    → 24 < e
    → 32 ≤ s
    → set_cell (set_cell m (e - 8) v) (e + s - 16) w (e + s - 8) ≡ m (e + s - 8)
set_behind m e s v w low wide = ground arith

pub set_here : (m : ℕ → ℕ) (q v : ℕ) → set_cell m q v q ≡ v
set_here m q v = ground arith

pub set_apart :
    (m : ℕ → ℕ) (e s v : ℕ) → 24 < e → 32 ≤ s → set_cell m (e - 8) v (e + s - 8) ≡ m (e + s - 8)
set_apart m e s v low wide = ground arith
