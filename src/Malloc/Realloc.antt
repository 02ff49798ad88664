-- ===== src/Malloc/Realloc.antt =====
-- `mm_realloc` of malloclab/src/mm.c, on a piece of the client.
use mathlib.Core.Path.{subst}
use cs_app_labs.Prelude.{
  ℕ, ◌+◌, ◌-◌, ◌*◌, ◌/◌, ◌%◌, ◌^◌, ◌<◌, ◌≤◌, ◌≡◌, ◌⊎◌, refl, sym, ap, ◌∙◌, true, false, some, List,
  [], ◌∷◌, ◌++◌, ltb, ◌==◌, if◌then◌else◌, arith, Bool-cases, inl, inr, All,
}
use cs_app_labs.Malloc.Words.{Heap, null, sub_size, get_size, hdrp}
use cs_app_labs.Malloc.Blocks.{
  block_size, mm_malloc, mm_free, mm_realloc, resize, move_block, copy_words,
}
use cs_app_labs.Malloc.Layout.{block, Rows-IsLarge, payload_at}
use cs_app_labs.Malloc.Steps.{step, with_cells}
use cs_app_labs.Malloc.Invariant.{IsHeap}
use cs_app_labs.Malloc.Access.{block-IsAt, get_size-IsAt}
use cs_app_labs.Malloc.Listing.{IsLarge-split}
use cs_app_labs.Malloc.Allocate.{Allocated, block_size_bounds, mm_malloc-IsHeap}
use cs_app_labs.Malloc.Owners.{
  IsOwned, IsOwned-disjoint, Apart-middle, All-middle, All-map, All-and,
}
use cs_app_labs.Malloc.Copy.{words_at, words_at-frame, words_at-fewer, copy_words-IsHeap}
use cs_app_labs.Malloc.Client.{Kept, user_word-paid, Allocated-Kept, owned-Freed, free-Kept}
use cs_app_labs.Malloc.Settled.{Settled}
use cs_app_labs.Malloc.Resize.{
  contents, Moved, IsOwned-shorter, contents-frame, whole-IsOwned, block_size_le,
}

move_block_run :
    (h h1 h2 h3 : Heap) (e bp s m : ℕ)
    → (bp == null) ≡ false
    → mm_malloc h (m * 2 % 2 ^ 64) ≡ some (h1, bp)
    → copy_words (sub_size s 8 / 8) h1 bp e ≡ some h2
    → mm_free h2 e ≡ some h3
    → move_block h e m s ≡ some (h3, bp)
unfolding move_block
move_block_run h h1 h2 h3 e bp s m some_place run run' run'' =
    step _ run (rw some_place (step _ run' (step _ run'' refl)))

module _ (h : Heap) (e s m : ℕ) (others : List (ℕ × ℕ)) (k : Kept h ((e, s - 8) ∷ others))
    (aligned : s % 8 ≡ 0) (wide : 32 ≤ s) (grows : s < block_size m)
    (small : m * 2 + 16 ≤ 2 ^ 31) where
  covers : (s ≤ m + 14) × (18 ≤ m)
  covers = elim (block_size_le m (omega (arith, small))) [
    | inl le ↦ absurd (omega (arith, le, grows, wide))
    | inr le ↦ (omega (arith, le, grows), omega (arith, le, grows, wide))
  ]

  copied_words : sub_size s 8 / 8 ≡ (s - 8) / 8
  copied_words =
      let whole : sub_size s 8 ≡ s - 8 = omega (arith, wide, covers, small) in
      ap (λ (v : ℕ). v / 8) whole

  pub move_block-Moved :
      (n : ℕ)
      → n + 8 ≤ s
      → Allocated h k.blocks (m * 2) (mm_malloc h (m * 2))
      → Moved h (e, n) others m (move_block h e m s)
  move_block-Moved n within a =
      let p = h.start + 24 in
      let (long, some_bytes) = covers in
      let w = (s - 8) / 8 in
      let exact : 8 * w ≡ s - 8 = omega (arith, aligned, wide) in
      let double : m * 2 % 2 ^ 64 ≡ m * 2 = omega (arith, small) in
      let h1 = with_cells (record h { brk = a.top }) a.cells a.head in
      let k1 = Allocated-Kept h ((e, s - 8) ∷ others) (m * 2) (mm_malloc h (m * 2)) k a in
      let u1 = payload_at p k1.blocks in
      let (own, (own_e, owns1)) = k1.owns in
      let u0 = payload_at p k.blocks in
      let apart = IsOwned-disjoint u1 (a.bp, m * 2) (e, s - 8) own own_e k1.apart.0.0 in
      let (c2, run2, heap2, copied, frame2) =
        copy_words-IsHeap w h1 k1.blocks k1.frees a.bp e k1.heap own.aligned own_e.aligned
          (ground (arith, apart, exact, long, some_bytes))
          (λ i lt. own.words i (omega (arith, lt, exact, long, some_bytes)))
          (λ i lt. own_e.words i (omega (arith, lt, exact))) in
      let h2 = record h1 { cell = c2 } in
      let k2 : Kept h2 ((a.bp, m * 2) ∷ (e, s - 8) ∷ others) = record {
        blocks = k1.blocks;
        frees = k1.frees;
        heap = heap2;
        settled = k1.settled;
        top = k1.top;
        owns = k1.owns;
        apart = k1.apart;
      } in
      let (c3, f3, run3, k3, frame3) = free-Kept h2 ((a.bp, m * 2) ∷ []) others (e, s - 8) k2 in
      let u3 = payload_at p k3.blocks in
      let each : (o : ℕ × ℕ)
          → (IsOwned u0 o × IsOwned u1 o) × (((a.bp == o.0) ≡ false) × IsOwned u3 o)
          → contents c3 o ≡ contents h.cell o =
        λ o of_o.
          let ((is0, is1), (ne, is3)) = of_o in
          let clear = IsOwned-disjoint u1 (a.bp, m * 2) o own is1 ne in
          contents-frame u3 c3 c2 o is3 (λ i lt paid. frame3 (o.0 + i) paid)
          ∙ contents-frame u1 c2 a.cells o is1
              (λ i lt paid. frame2 (o.0 + i) (ground (arith, clear, lt, exact, long, some_bytes)))
          ∙ contents-frame u0 a.cells h.cell o is0 (λ i lt paid.
            user_word-paid p k.blocks a.cells h.cell (o.0 + i) (a.kept (o.0 + i)) paid) in
      let some_place : (a.bp == null) ≡ false = ground (arith, own.low) in
      let left : words_at w c3 a.bp ≡ words_at w c2 a.bp = words_at-frame w c3 c2 a.bp (λ i lt.
        frame3 (a.bp + 8 * i)
          (k3.owns.0.words (8 * i) (omega (arith, lt, exact, long, some_bytes)))) in
      let old : words_at w a.cells e ≡ words_at w h.cell e =
        words_at-frame w a.cells h.cell e (λ i lt.
          user_word-paid p k.blocks a.cells h.cell (e + 8 * i) (a.kept (e + 8 * i))
            (k.owns.0.words (8 * i) (omega (arith, lt, exact)))) in
      record {
        top = a.top;
        cells = c3;
        head = f3;
        bp = a.bp;
        run =
            move_block_run h h1 h2 (with_cells h2 c3 f3) e a.bp s m some_place
              (ap (mm_malloc h) double ∙ a.run)
              (ap (λ (v : ℕ). copy_words v h1 a.bp e) copied_words ∙ run2) run3;
        kept = record {
          blocks = k3.blocks;
          frees = k3.frees;
          heap = k3.heap;
          settled = k3.settled;
          top = k3.top;
          owns = (
            IsOwned-shorter (payload_at p k3.blocks) a.bp (m * 2) m (omega arith) k3.owns.0,
            k3.owns.1,
          );
          apart = k3.apart;
        };
        copied =
            words_at-fewer w ((n + 7) / 8) c3 h.cell a.bp e (omega (arith, within, aligned, wide))
              (left ∙ copied ∙ old);
        same =
            All-map
              (λ (o : ℕ × ℕ).
                (IsOwned u0 o × IsOwned u1 o) × (((a.bp == o.0) ≡ false) × IsOwned u3 o))
              (λ (o : ℕ × ℕ). contents c3 o ≡ contents h.cell o) others each
              (All-and (λ (o : ℕ × ℕ). IsOwned u0 o × IsOwned u1 o)
                (λ (o : ℕ × ℕ). ((a.bp == o.0) ≡ false) × IsOwned u3 o) others
                (All-and (IsOwned u0) (IsOwned u1) others k.owns.1 owns1)
                (All-and (λ (o : ℕ × ℕ). (a.bp == o.0) ≡ false) (IsOwned u3) others k1.apart.0.1
                  k3.owns.1));
      }

-- The client's piece as a whole block.
whole-Kept :
    (h : Heap) (os rest : List (ℕ × ℕ)) (o : ℕ × ℕ)
    → Kept h (os ++ o ∷ rest)
    → (s : ℕ) × Kept h ((o.0, s - 8) ∷ (os ++ rest))
      × (o.1 + 8 ≤ s)
      × (s % 8 ≡ 0)
      × (32 ≤ s)
      × (get_size h (hdrp o.0) ≡ some s)
whole-Kept h os rest o k =
    let p = h.start + 24 in
    let (own, owns) = All-middle (IsOwned (payload_at p k.blocks)) os o rest k.owns in
    let (differ, apart) = Apart-middle os o rest k.apart in
    let (pre, s, post, split, at, _) = owned-Freed h (os ++ o ∷ rest) o k own in
    let bs = pre ++ block s true false ∷ post in
    let is : IsHeap h bs k.frees = subst (λ zs. IsHeap h zs k.frees) split k.heap in
    let here = block-IsAt h o.0 pre (block s true false) post k.frees at is in
    let (large, (_, large')) =
      IsLarge-split pre (block s true false ∷ post) (Rows-IsLarge h.cell p true bs is.rows) in
    let (whole, within) =
      whole-IsOwned p o.0 s pre post o.1 at large large' here.is.aligned here.is.large
        (subst (λ zs. IsOwned (payload_at p zs) o) split own) in
    (
      s,
      record {
        blocks = bs;
        frees = k.frees;
        heap = is;
        settled = subst (λ zs. Settled true zs) split k.settled;
        top = k.top;
        owns = (whole, subst (λ zs. All (IsOwned (payload_at p zs)) (os ++ rest)) split owns);
        apart = (differ, apart);
      },
      within,
      here.is.aligned,
      here.is.large,
      get_size-IsAt h o.0 pre (block s true false) post here,
    )

resize_run :
    (h : Heap) (e s m : ℕ)
    → (e == null) ≡ false
    → 0 < m
    → get_size h (hdrp e) ≡ some s
    → mm_realloc h e m ≡ (if ltb s (block_size m) then move_block h e m s else some (h, e))
unfolding mm_realloc resize
resize_run h e s m some_place some_bytes read =
    let asked : (m == 0) ≡ false = ground (arith, some_bytes) in
    rw (some_place, asked) (step _ read refl)

move_block_fails :
    (h : Heap) (e s m : ℕ)
    → mm_malloc h (m * 2 % 2 ^ 64) ≡ some (h, null)
    → move_block h e m s ≡ some (h, null)
unfolding move_block
move_block_fails h e s m run = step _ run refl

pub mm_realloc-Kept :
    (h : Heap) (os rest : List (ℕ × ℕ)) (o : ℕ × ℕ) (m : ℕ)
    → Kept h (os ++ o ∷ rest)
    → 0 < m
    → m * 2 + 16 ≤ 2 ^ 31
    → ((mm_realloc h o.0 m ≡ some (h, o.0)) × Kept h ((o.0, m) ∷ (os ++ rest)))
      ⊎ ((mm_realloc h o.0 m ≡ some (h, null)) ⊎ Moved h o (os ++ rest) m (mm_realloc h o.0 m))
mm_realloc-Kept h os rest o m k some_bytes small =
    let (s, whole, within, aligned, wide, read) = whole-Kept h os rest o k in
    let some_place : (o.0 == null) ≡ false = ground (arith, whole.owns.0.low) in
    let run = resize_run h o.0 s m some_place some_bytes read in
    elim (Bool-cases (ltb s (block_size m))) [
      | inr fits ↦
          let stays : mm_realloc h o.0 m ≡ some (h, o.0) = run ∙ rw fits refl in
          let shorter : m ≤ s - 8 =
            ground (arith, fits, block_size_bounds m (omega (arith, small))) in
          inl (
            stays,
            record {
              blocks = whole.blocks;
              frees = whole.frees;
              heap = whole.heap;
              settled = whole.settled;
              top = whole.top;
              owns = (
                IsOwned-shorter (payload_at (h.start + 24) whole.blocks) o.0 (s - 8) m shorter
                    whole.owns.0,
                whole.owns.1,
              );
              apart = whole.apart;
            },
          )
      | inl grows ↦
          let moves : mm_realloc h o.0 m ≡ move_block h o.0 m s = run ∙ rw grows refl in
          let less : s < block_size m = ground (arith, grows) in
          let double : m * 2 % 2 ^ 64 ≡ m * 2 = omega (arith, small) in
          elim (mm_malloc-IsHeap h whole.blocks whole.frees (m * 2) whole.heap whole.settled
            whole.top (omega (arith, some_bytes)) small) [
              | inl a ↦ inr (
                  inr (
                    subst (λ call. Moved h o (os ++ rest) m call) (sym moves)
                      (move_block-Moved h o.0 s m (os ++ rest) whole aligned wide less small o.1
                        within a)))
              | inr (fails, _, _) ↦
                  inr (inl (moves ∙ move_block_fails h o.0 s m (ap (mm_malloc h) double ∙ fails)))
            ]
    ]
