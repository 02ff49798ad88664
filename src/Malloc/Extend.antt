-- ===== src/Malloc/Extend.antt =====
-- `extend_heap` of malloclab/src/mm.c.
use mathlib.Core.Path.{subst}
use cs_app_labs.Prelude.{
  ℕ, ◌+◌, ◌-◌, ◌%◌, ◌^◌, ◌<◌, ◌≤◌, ◌≡◌, ◌⊎◌, refl, sym, ap, ◌∙◌, Bool, true, false, ◌&&◌, Option,
  some, List, [], ◌∷◌, ◌++◌, ltb, leb, ◌==◌, arith, Bool-cases, inl, inr, bit_and,
}
use cs_app_labs.Prelude.Bits.{bit_and-mask, bit_and-complement}
use cs_app_labs.Malloc.Words.{Heap, null, minus_one, set_cell, add_size, low_clear, align, mem_sbrk}
use cs_app_labs.Malloc.Blocks.{extended, extend_heap}
use cs_app_labs.Malloc.Layout.{
  Block, block, tag, total, total-append, last_used, Row, Rows, Rows-join, IsLarge, Rows-IsLarge,
  linked_at, linked_at-append, linked_at_bounds, payload_at_bounds,
}
use cs_app_labs.Malloc.Links.{has, is_link, Links-frame}
use cs_app_labs.Malloc.Frames.{Row-frame}
use cs_app_labs.Malloc.Parts.{All-append, row_tag_bounds, is_link-has, payload_at-append}
use cs_app_labs.Malloc.Steps.{
  step, IsInside, put-IsInside, pack_hdr-tag, ftrp-tag, next_blkp-tag, get_prev_alloc-tag,
}
use cs_app_labs.Malloc.Invariant.{IsHeap, total_aligned}
use cs_app_labs.Malloc.Access.{set_here, set_header}
use cs_app_labs.Malloc.Kept.{Keeps}
use cs_app_labs.Malloc.Settled.{Settled}
use cs_app_labs.Malloc.Coalesce.{coalesce-IsHeap}
use cs_app_labs.Malloc.Joined.{Joined}

link_bound :
    (p : ℕ) (bs : List Block) (fs : List ℕ) (q : ℕ)
    → IsLarge bs
    → ((r : ℕ) → has fs r ≡ linked_at p bs r)
    → is_link fs q ≡ true
    → q + 24 ≤ p + total bs
link_bound p bs fs q large matching l = elim (is_link-has fs q l) [
  | inl here ↦ omega (arith, linked_at_bounds p bs q large (sym (matching q) ∙ here))
  | inr (le, behind) ↦
      omega (arith, le, linked_at_bounds p bs (q - 8) large (sym (matching (q - 8)) ∙ behind))
]

pub align_lem : (n : ℕ) → n % 8 ≡ 0 → n < 2 ^ 63 → align n ≡ n
unfolding align
align_lem n aligned small =
    let low : bit_and (n + 7) 7 ≡ (n + 7) % 2 ^ 3 = bit_and-mask 3 (n + 7) in
    let other = bit_and-complement 64 (n + 7) 7 (omega (arith, small)) (omega arith) in
    let whole : add_size n 7 ≡ n + 7 = omega (arith, small) in
    ap (λ (v : ℕ). bit_and v low_clear) whole ∙ omega (arith, low, other, aligned)

-- The blocks, and the header that ends them.
Rows-end :
    (m : ℕ → ℕ) (p : ℕ) (prev : Bool) (bs : List Block)
    → Rows m p prev bs
    → Row m p prev bs × (m (p + total bs - 8) ≡ tag 0 (last_used prev bs) true)
Rows-end m p prev [] r = (tt, ap (λ (q : ℕ). m (q - 8)) (omega arith) ∙ r)
Rows-end m p prev (b ∷ bs) (is, r) =
    let (row, end) = Rows-end m (p + b.size) b.used bs r in
    ((is, row), ap (λ (q : ℕ). m (q - 8)) (omega arith) ∙ end)

module _ (h : Heap) (n : ℕ) (bs : List Block) (fs : List ℕ) where
  abbrev pub grown : Heap
  grown = record h { brk = h.brk + n }

  -- The words when `coalesce` is called.
  abbrev extended_cells : ℕ → ℕ
  extended_cells =
      set_cell
        (set_cell (set_cell h.cell (h.brk - 8) (tag n (last_used true bs) false)) (h.brk + n - 16)
          n)
        (h.brk + n - 8) (tag 0 false true)

  extended_other : (q : ℕ) → 32 ≤ n → q + 8 < h.brk → extended_cells q ≡ h.cell q
  extended_other q wide low = ground (arith, wide, low)

  extended_at :
      24 < h.brk
      → 32 ≤ n
      → (extended_cells (h.brk - 8) ≡ tag n (last_used true bs) false)
        × (extended_cells (h.brk + n - 16) ≡ n)
        × (extended_cells (h.brk + n - 8) ≡ tag 0 false true)
  extended_at low wide =
      (ground (arith, low, wide), ground (arith, low, wide), ground (arith, low, wide))

  extended-IsHeap :
      IsHeap h bs fs
      → n % 8 ≡ 0
      → 32 ≤ n
      → h.brk + n < 2 ^ 63
      → IsHeap (record grown { cell = extended_cells }) (bs ++ block n false false ∷ []) fs
        × Keeps h extended_cells bs
  extended-IsHeap is aligned wide small =
      let p = h.start + 24 in
      let large = Rows-IsLarge h.cell p true bs is.rows in
      let low : 24 < h.brk = omega (arith, is.ends, is.some_place) in
      let (row, _) = Rows-end h.cell p true bs is.rows in
      let (header, foot, end) = extended_at low wide in
      let at : h.brk ≡ p + total bs = omega (arith, is.ends) in
      (
        record {
          some_place = is.some_place;
          aligned = is.aligned;
          ends = omega (arith, is.ends, total-append bs (block n false false ∷ []));
          small = small;
          begun = is.begun;
          rows =
              Rows-join extended_cells p h.brk true bs (block n false false ∷ []) at
                (Row-frame h.cell extended_cells p true bs
                  (λ q t.
                    extended_other q wide
                      (omega (arith, at, row_tag_bounds p bs q large (omega arith) t)))
                  row)
                (record { header = header; footer = foot; aligned = aligned; large = wide }, end);
          free = record {
            head = is.free.head;
            links =
                Links-frame h.cell extended_cells 0 fs
                  (λ q l.
                    extended_other q wide
                      (omega (arith, at, link_bound p bs fs q large is.matching l)))
                  is.free.links;
            spaced = is.free.spaced;
            inside = λ q l. let (a, b, c) = is.free.inside q l in (a, omega (arith, b), c);
          };
          matching = λ q.
              is.matching q
              ∙ ground (arith, linked_at-append p h.brk bs (block n false false ∷ []) q at);
          listed =
              All-append (λ (b : Block). (b.used && b.linked) ≡ false) bs (block n false false ∷ [])
                is.listed (refl, tt);
        },
        λ q paid. extended_other q wide (omega (arith, at, payload_at_bounds p bs q large paid)),
      )

  -- More memory: the block at the old end is free, joined with the block before if that is free.
  pub extended-Joined :
      IsHeap h bs fs
      → Settled true bs
      → n % 8 ≡ 0
      → 32 ≤ n
      → h.brk + n < 2 ^ 63
      → Joined grown (bs ++ block n false false ∷ []) n (extended grown h.brk n)
  unfolding extended
  extended-Joined is settled aligned wide small =
      let p = h.start + 24 in
      let prev = last_used true bs in
      let low : 24 < h.brk = omega (arith, is.ends, is.some_place) in
      let at : h.brk ≡ p + total bs = omega (arith, is.ends) in
      let even : h.brk % 8 ≡ 0 =
        omega
          (arith, is.ends, is.aligned, total_aligned bs (Rows-IsLarge h.cell p true bs is.rows)) in
      let (row, end) = Rows-end h.cell p true bs is.rows in
      let (is', kept) = extended-IsHeap is aligned wide small in
      let joined =
        coalesce-IsHeap (record grown { cell = extended_cells }) h.brk n fs bs [] is' at settled
          tt in
      let header : IsInside grown (h.brk - 8) =
        (omega (arith, is.ends), omega arith, omega (arith, even, low)) in
      let footer : IsInside grown (h.brk + n - 16) =
        (omega (arith, is.ends, wide), omega (arith, wide), omega (arith, even, aligned, wide)) in
      let behind : IsInside grown (h.brk + n - 8) =
        (omega (arith, is.ends, wide), omega (arith, wide), omega (arith, even, aligned, wide)) in
      let h1 = record grown { cell = set_cell h.cell (h.brk - 8) (tag n prev false) } in
      let h2 = record h1 { cell = set_cell h1.cell (h.brk + n - 16) n } in
      let fits : n < 2 ^ 63 = omega (arith, small) in
      let old : h.cell (h.brk - 8) ≡ tag 0 prev true = ap (λ (q : ℕ). h.cell (q - 8)) at ∙ end in
      record {
        cells = joined.cells;
        bp = joined.bp;
        before = joined.before;
        size = joined.size;
        behind = joined.behind;
        frees = joined.frees;
        run =
            step _ (get_prev_alloc-tag grown (h.brk - 8) 0 prev true header old refl (omega arith))
              (rw (pack_hdr-tag n prev false aligned) (
                step _ (put-IsInside grown (h.brk - 8) header (tag n prev false)) (
                  step _
                    (ftrp-tag h1 h.brk n prev false header (set_here h.cell (h.brk - 8) _) aligned
                      fits)
                    (step _ (put-IsInside h1 (h.brk + n - 16) footer n) (
                      step _
                        (next_blkp-tag h2 h.brk n prev false header
                          (set_header h.cell h.brk n _ n low wide) aligned fits)
                        (rw (pack_hdr-tag 0 false true refl) (
                          step _ (put-IsInside h2 (h.brk + n - 8) behind (tag 0 false true))
                            joined.run)))))));
        at = joined.at;
        heap = joined.heap;
        settled = joined.settled;
        large = joined.large;
        paid = joined.paid;
        kept = λ q paid.
            joined.kept q paid
            ∙ kept q (
                ground (arith, paid, payload_at-append p h.brk bs (block n false false ∷ []) q at));
      }

-- Either the memory is not given, and nothing changes, or the heap has more of it.
pub extend_heap_lem :
    (h : Heap) (n : ℕ) (bs : List Block) (fs : List ℕ)
    → IsHeap h bs fs
    → Settled true bs
    → h.max_addr < 2 ^ 63
    → n % 8 ≡ 0
    → 32 ≤ n
    → n < 2 ^ 31
    → ((extend_heap h n ≡ some (h, null)) × (h.max_addr < h.brk + n))
      ⊎ Joined (grown h n bs fs) (bs ++ block n false false ∷ []) n (extend_heap h n)
unfolding extend_heap mem_sbrk
extend_heap_lem h n bs fs is settled top aligned wide small =
    let size : align n ≡ n = align_lem n aligned (omega (arith, small)) in
    let low : n % 2 ^ 32 ≡ n = omega (arith, small) in
    let some_memory : (h.brk == minus_one) ≡ false = ground (arith, is.small) in
    let positive : leb (2 ^ 31) n ≡ false = ground (arith, small) in
    elim (Bool-cases (ltb h.max_addr (h.brk + n))) [
      | inl over ↦ inl (rw (size, low, positive, over) refl, ground (arith, over))
      | inr within ↦
          let run : extend_heap h n ≡ extended (grown h n bs fs) h.brk n =
            rw (size, low, positive, within, some_memory) refl in
          inr (
            subst
              (λ (call : Option (Heap × ℕ)).
                Joined (grown h n bs fs) (bs ++ block n false false ∷ []) n call)
              (sym run)
              (extended-Joined h n bs fs is settled aligned wide (ground (arith, within, top))))
    ]
