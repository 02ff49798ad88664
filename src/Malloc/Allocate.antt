-- ===== src/Malloc/Allocate.antt =====
-- `mm_malloc` of malloclab/src/mm.c.
use mathlib.Core.Path.{subst}
use cs_app_labs.Prelude.{
  ◌>>=◌, ℕ, ◌+◌, ◌%◌, ◌^◌, ◌<◌, ◌≤◌, ◌≡◌, ◌⊎◌, refl, sym, ap, ◌∙◌, true, false, Option, some, List,
  [], ◌∷◌, ◌++◌, ◌==◌, arith, inl, inr, All, bit_and,
}
use cs_app_labs.Prelude.Bits.{bit_and-mask, bit_and-complement}
use cs_app_labs.Malloc.Words.{Heap, null, add_size, align, to_int, get_size, hdrp}
use cs_app_labs.Malloc.Blocks.{
  block_size, init_if_needed, extend_size, place, place_or_null, find_fit, fit_or_extend,
  extend_heap, mm_malloc,
}
use cs_app_labs.Malloc.Layout.{Block, block, total, payload_at, Rows-IsLarge}
use cs_app_labs.Malloc.Steps.{step, with_cells}
use cs_app_labs.Malloc.Parts.{payload_at-append}
use cs_app_labs.Malloc.Invariant.{IsHeap, total_aligned}
use cs_app_labs.Malloc.Listing.{IsLarge-split}
use cs_app_labs.Malloc.Kept.{Keeps, user_word, user_word-Keeps}
use cs_app_labs.Malloc.Settled.{Settled}
use cs_app_labs.Malloc.Place.{Placed, place-IsHeap}
use cs_app_labs.Malloc.Fit.{find_fit_lem}
use cs_app_labs.Malloc.Extend.{grown, extend_heap_lem}

-- A block of the heap that the user did not have before, large enough for a number of bytes.
pub record Allocated (h : Heap) (bs : List Block) (n : ℕ) (call : Option (Heap × ℕ)) : Type 0 where
  pub top : ℕ
  pub cells : ℕ → ℕ
  pub head : ℕ
  pub bp : ℕ
  pub before : List Block
  pub size : ℕ
  pub behind : List Block
  pub frees : List ℕ
  pub run : call ≡ some (with_cells (record h { brk = top }) cells head, bp)
  pub at : bp ≡ h.start + 24 + total before
  pub aligned : bp % 8 ≡ 0
  pub heap :
      IsHeap
        (with_cells (record h { brk = top }) cells head)
        (before ++ block size true false ∷ behind)
        frees
  pub settled : Settled true (before ++ block size true false ∷ behind)
  pub enough : n + 8 ≤ size
  pub fresh :
      (q : ℕ)
      → payload_at (h.start + 24) (before ++ block size false false ∷ behind) q
        ≡ payload_at (h.start + 24) bs q
  pub kept : (q : ℕ) → user_word (h.start + 24) bs cells q ≡ user_word (h.start + 24) bs h.cell q

-- The size of the block.
pub block_size_bounds :
    (n : ℕ)
    → n + 16 ≤ 2 ^ 31
    → (block_size n % 8 ≡ 0)
      × (32 ≤ block_size n)
      × (block_size n < 2 ^ 31)
      × (n + 8 ≤ block_size n)
unfolding block_size align
block_size_bounds n small =
    let low : bit_and (n + 15) 7 ≡ (n + 15) % 2 ^ 3 = bit_and-mask 3 (n + 15) in
    let other = bit_and-complement 64 (n + 15) 7 (omega (arith, small)) (omega arith) in
    let whole : add_size (add_size n 8) 7 ≡ n + 15 = omega (arith, small) in
    rw whole (ground (arith, low, other, small))

to_int_lem : (n : ℕ) → n < 2 ^ 31 → to_int n ≡ n
unfolding to_int
to_int_lem n small =
    let low : n % 2 ^ 32 ≡ n = omega (arith, small) in rw low (ground (arith, small))

extend_size_bounds :
    (a : ℕ)
    → a % 8 ≡ 0
    → a < 2 ^ 31
    → (extend_size a % 8 ≡ 0)
      × (32 ≤ extend_size a)
      × (extend_size a < 2 ^ 31)
      × (a ≤ extend_size a)
extend_size_bounds a aligned small = ground (arith, aligned, small)

Placed-Allocated :
    (h : Heap) (top : ℕ) (c : ℕ → ℕ) (f e a n : ℕ) (bs bs' : List Block) (call : Option (Heap × ℕ))
    → Placed
        (with_cells (record h { brk = top }) c f)
        e
        a
        bs'
        (place (with_cells (record h { brk = top }) c f) e a)
    → call ≡ place_or_null a (with_cells (record h { brk = top }) c f, e)
    → n + 8 ≤ a
    → ((q : ℕ) → payload_at (h.start + 24) bs' q ≡ payload_at (h.start + 24) bs q)
    → Keeps h c bs'
    → Allocated h bs n call
unfolding place_or_null
Placed-Allocated h top c f e a n bs bs' call placed run fits same kept =
    let p = h.start + 24 in
    let low : (e == null) ≡ false = ground (arith, placed.at) in
    let (large, _) = IsLarge-split placed.before (block placed.size true false ∷ placed.behind) (
      Rows-IsLarge placed.cells p true
        (placed.before ++ block placed.size true false ∷ placed.behind) placed.heap.rows) in
    record {
      top = top;
      cells = placed.cells;
      head = placed.head;
      bp = e;
      before = placed.before;
      size = placed.size;
      behind = placed.behind;
      frees = placed.frees;
      run = run ∙ rw low (step _ placed.run refl);
      at = placed.at;
      aligned = omega (arith, placed.at, placed.heap.aligned, total_aligned placed.before large);
      heap = placed.heap;
      settled = placed.settled;
      enough = omega (arith, fits, placed.large);
      fresh = λ q. placed.fresh q ∙ same q;
      kept = λ q.
          user_word-Keeps p bs h.cell placed.cells q
            (λ paid. placed.kept q (same q ∙ paid) ∙ kept q (same q ∙ paid));
    }

module _ (h : Heap) (bs : List Block) (fs : List ℕ) (n : ℕ) where
  -- `mm_malloc` of a number of bytes that is not 0 and at least 16 below 2^31, on a settled heap
  -- that stays below the address 2^63, is defined. Either it leaves a settled heap and returns a
  -- multiple of 8, the address of a block with room for the bytes, none of whose words the user had,
  -- and the words of the user have not changed; or it returns `NULL` and nothing has changed, while
  -- each block of the free list is too small and the memory that is asked for ends behind the last
  -- address.
  pub mm_malloc-IsHeap :
      IsHeap h bs fs
      → Settled true bs
      → h.max_addr < 2 ^ 63
      → 0 < n
      → n + 16 ≤ 2 ^ 31
      → Allocated h bs n (mm_malloc h n)
        ⊎ ((mm_malloc h n ≡ some (h, null))
            × All (λ (y : ℕ). (s : ℕ) × (get_size h (hdrp y) ≡ some s) × (s < block_size n)) fs
            × (h.max_addr < h.brk + extend_size (block_size n)))
  unfolding mm_malloc init_if_needed fit_or_extend place_or_null
  mm_malloc-IsHeap is settled top some_bytes small =
      let a = block_size n in
      let p = h.start + 24 in
      let (aligned, wide, short, enough) = block_size_bounds n small in
      let int_size : to_int a ≡ a = to_int_lem a short in
      let ready : (h.heap_listp == null) ≡ false = ground (arith, is.begun) in
      let asked : (n == 0) ≡ false = ground (arith, some_bytes) in
      let start : mm_malloc h n
          ≡ (find_fit h a >>= (λ bp. fit_or_extend h a bp >>= place_or_null a)) =
        rw (asked, int_size, ready) refl in
      elim (find_fit_lem h bs fs a is settled) [
        | inl (none_fits, others) ↦
            let m = extend_size a in
            let (aligned', wide', short', covers) = extend_size_bounds a aligned short in
            let run : mm_malloc h n ≡ (extend_heap h m >>= place_or_null a) =
              start ∙ step _ none_fits refl in
            elim (extend_heap_lem h m bs fs is settled top aligned' wide' short') [
              | inl (fails, over) ↦ inr (run ∙ step _ fails refl, others, over)
              | inr joined ↦
                  let bs' = joined.before ++ block joined.size false true ∷ joined.behind in
                  let same : (q : ℕ) → payload_at p bs' q ≡ payload_at p bs q = λ q.
                    joined.paid q
                    ∙ ground (
                      arith,
                      payload_at-append p (p + total bs) bs (block m false false ∷ []) q refl,
                    ) in
                  inl (
                    Placed-Allocated h (h.brk + m) joined.cells joined.bp joined.bp a n bs bs'
                      (mm_malloc h n)
                      (place-IsHeap (with_cells (grown h m bs fs) joined.cells joined.bp) joined.bp
                        a joined.size joined.before joined.behind joined.frees joined.heap
                        joined.settled joined.at aligned wide (omega (arith, covers, joined.large)))
                      (run ∙ step _ joined.run refl) enough same
                      (λ q paid. joined.kept q (sym (joined.paid q) ∙ paid)))
            ]
        | inr (pre, s, post, split, found, fits) ↦
            let e = p + total pre in
            let is' = subst (λ zs. IsHeap h zs fs) split is in
            let low : (e == null) ≡ false = ground arith in
            let go : fit_or_extend h a e ≡ some (h, e) = rw low refl in
            inl (
              Placed-Allocated h h.brk h.cell h.free_list_head e a n bs
                (pre ++ block s false true ∷ post) (mm_malloc h n)
                (place-IsHeap h e a s pre post fs is' (subst (λ zs. Settled true zs) split settled)
                  refl aligned wide fits)
                (start ∙ step _ found (step _ go refl)) enough
                (λ q. ap (λ zs. payload_at p zs q) (sym split)) (λ q paid. refl))
      ]
