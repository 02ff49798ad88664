-- ===== src/Malloc/Init.antt =====
-- `mm_init` of malloclab/src/mm.c, and what the user may do to the heap.
use cs_app_labs.Prelude.{
  ℕ, ◌+◌, ◌-◌, ◌%◌, ◌^◌, ◌<◌, ◌≤◌, ◌≡◌, refl, sym, ap, ◌∙◌, Bool, true, false, Option, some, List,
  [], ltb, ◌==◌, arith, Bool-cases, inl, inr,
}
use cs_app_labs.Malloc.Words.{Heap, minus_one, set_cell, mem_sbrk, put}
use cs_app_labs.Malloc.Blocks.{mm_init, init_tags}
use cs_app_labs.Malloc.Layout.{
  Block, tag, rows_tag, Rows-IsLarge, payload_at, payload_at-rows_tag, payload_at_bounds,
}
use cs_app_labs.Malloc.Links.{is_link, Links-frame}
use cs_app_labs.Malloc.Frames.{Rows-frame}
use cs_app_labs.Malloc.Steps.{step, IsInside, put-IsInside, next_blkp-tag, pack_hdr-tag}
use cs_app_labs.Malloc.Invariant.{IsHeap, payload-is_link}

pub set_other : (m : ℕ → ℕ) (p v q : ℕ) → (q == p) ≡ false → set_cell m p v q ≡ m q
set_other m p v q ne = ground (arith, ne)

differ : (f : ℕ → Bool) (q p : ℕ) → f q ≡ true → f p ≡ false → (q == p) ≡ false
differ f q p h h' = elim (Bool-cases (q == p)) [
  | inl e ↦
      let same : q ≡ p = ground (arith, e) in
      let both : true ≡ false = sym h ∙ ap f same ∙ h' in absurd (cc)
  | inr ne ↦ ne
]

-- A heap without memory.
pub record IsEmpty (h : Heap) : Type 0 where
  pub some_place : 0 < h.start
  pub aligned : h.start % 8 ≡ 0
  pub empty : h.brk ≡ h.start
  pub room : h.start + 24 ≤ h.max_addr
  pub small : h.max_addr < 2 ^ 63

module _ (h : Heap) where
  abbrev init_cells : ℕ → ℕ
  init_cells =
      set_cell (set_cell h.cell h.start (tag 16 true true)) (h.start + 16) (tag 0 true true)

  abbrev started : (b top : ℕ) → Option (Heap × Bool)
  started b top = some (
    record h {
      brk = b + 24;
      heap_listp = b + 8;
      free_list_head = 0;
      cell = set_cell (set_cell h.cell b (tag 16 true true)) top (tag 0 true true);
    },
    true,
  )

  abbrev pub initial : Heap
  initial = record h {
    brk = h.start + 24;
    heap_listp = h.start + 8;
    free_list_head = 0;
    cell = init_cells;
  }

  -- `mm_init` on a heap without memory, at an aligned address and with room for three words below
  -- the address 2^63, succeeds, and leaves a heap with no blocks behind the prologue.
  pub mm_init-IsHeap : IsEmpty h → (mm_init h ≡ some (initial, true)) × IsHeap initial [] []
  unfolding mm_init mem_sbrk init_tags
  mm_init-IsHeap is =
      let place : (h.brk == minus_one) ≡ false = ground (arith, is.empty, is.room, is.small) in
      let within : ltb h.max_addr (h.brk + 24) ≡ false = ground (arith, is.empty, is.room) in
      let g = record h { brk = h.brk + 24; heap_listp = h.brk } in
      let front : IsInside g g.heap_listp =
        (omega (arith, is.empty), omega arith, omega (arith, is.empty, is.aligned)) in
      let g1 = record g {
        cell = set_cell h.cell h.brk (tag 16 true true);
        heap_listp = h.brk + 8;
      } in
      let inner : IsInside g1 (h.brk + 8 - 8) =
        (omega (arith, is.empty), omega arith, omega (arith, is.empty, is.aligned)) in
      let outer : IsInside g1 (h.brk + 8 + 16 - 8) =
        (omega (arith, is.empty), omega arith, omega (arith, is.empty, is.aligned)) in
      let top : h.brk + 8 + 16 - 8 ≡ h.brk + 16 = omega arith in
      let same = ap (started h.brk) top ∙ ap (λ (b : ℕ). started b (b + 16)) is.empty in
      (
        rw (within, place)
            (rw (pack_hdr-tag 16 true true refl, pack_hdr-tag 0 true true refl)
              (step _ (put-IsInside g h.brk front (tag 16 true true)) (
                step _
                  (next_blkp-tag g1 (h.brk + 8) 16 true true inner (ground arith) refl
                    (omega arith))
                  (step _ (put-IsInside g1 (h.brk + 8 + 16 - 8) outer (tag 0 true true)) same)))),
        record {
          some_place = is.some_place;
          aligned = is.aligned;
          ends = omega arith;
          small = omega (arith, is.room, is.small);
          begun = omega arith;
          rows = ground arith;
          free = record { head = refl; links = tt; spaced = tt; inside = λ q l. absurd (cc l) };
          matching = λ q. refl;
          listed = tt;
        },
      )

-- The user's words.
module _ (h : Heap) (bs : List Block) (fs : List ℕ) (p v : ℕ) where
  -- When the user writes an aligned word of an allocated block, the heap stays divided into the same
  -- blocks with the same free list.
  pub put-IsHeap :
      IsHeap h bs fs
      → payload_at (h.start + 24) bs p ≡ true
      → p % 8 ≡ 0
      → (put h p v ≡ some (record h { cell = set_cell h.cell p v }))
        × IsHeap (record h { cell = set_cell h.cell p v }) bs fs
  put-IsHeap is paid aligned =
      let large = Rows-IsLarge h.cell (h.start + 24) true bs is.rows in
      let (low, high) = payload_at_bounds (h.start + 24) bs p large paid in
      let no_tag = payload_at-rows_tag (h.start + 24) bs p large (omega arith) paid in
      let no_link = payload-is_link (h.start + 24) bs fs p large is.listed is.matching paid in
      (
        put-IsInside h p (omega (arith, low), omega (arith, high, is.ends), aligned) v,
        record {
          some_place = is.some_place;
          aligned = is.aligned;
          ends = is.ends;
          small = is.small;
          begun = is.begun;
          rows =
              Rows-frame h.cell (set_cell h.cell p v) (h.start + 24) true bs
                (λ q t. set_other h.cell p v q (differ (rows_tag (h.start + 24) bs) q p t no_tag))
                is.rows;
          free = record {
            head = is.free.head;
            links =
                Links-frame h.cell (set_cell h.cell p v) 0 fs
                  (λ q l. set_other h.cell p v q (differ (is_link fs) q p l no_link)) is.free.links;
            spaced = is.free.spaced;
            inside = is.free.inside;
          };
          matching = is.matching;
          listed = is.listed;
        },
      )
