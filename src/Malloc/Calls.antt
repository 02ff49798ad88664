-- ===== src/Malloc/Calls.antt =====
-- Clients of malloclab/src/mm.c: any sequence of calls and of writes to words they were given.
use mathlib.Core.Path.{subst}
use cs_app_labs.Prelude.{
  ℕ, ◌+◌, ◌-◌, ◌*◌, ◌%◌, ◌^◌, ◌<◌, ◌≤◌, ◌≡◌, ◌⊎◌, refl, sym, ap, ◌∙◌, Bool, true, false, Option,
  some, List, [], ◌∷◌, ◌++◌, ◌==◌, if◌then◌else◌, arith, Bool-cases, inl, inr, All,
}
use cs_app_labs.Malloc.Words.{Heap, null, put}
use cs_app_labs.Malloc.Blocks.{mm_init, mm_malloc, mm_free, mm_realloc}
use cs_app_labs.Malloc.Layout.{Rows-IsLarge, payload_at, payload_at_bounds}
use cs_app_labs.Malloc.Steps.{with_cells}
use cs_app_labs.Malloc.Allocate.{mm_malloc-IsHeap}
use cs_app_labs.Malloc.Init.{IsEmpty, mm_init-IsHeap, put-IsHeap}
use cs_app_labs.Malloc.Client.{Kept, Allocated-Kept, owned-Freed, free-Kept}
use cs_app_labs.Malloc.Resize.{contents}
use cs_app_labs.Malloc.Realloc.{mm_realloc-Kept}
use cs_app_labs.Malloc.Owners.{IsOwned, Disjoint, IsOwned-Disjoint, All-middle, All-map}

-- What the client has after `mm_malloc`.
abbrev pub given : (bp n : ℕ) → List (ℕ × ℕ) → List (ℕ × ℕ)
given bp n owned = if bp == null then owned else (bp, n) ∷ owned

-- What it has after `mm_realloc` of one piece.
abbrev pub resized :
    (bp m : ℕ) → (os : List (ℕ × ℕ)) (o : ℕ × ℕ) (rest : List (ℕ × ℕ)) → List (ℕ × ℕ)
resized bp m os o rest = if bp == null then os ++ o ∷ rest else (bp, m) ∷ (os ++ rest)

-- The heap, and the addresses and sizes that the client has.
pub data Reached : Heap → List (ℕ × ℕ) → Type 0 where
  started : (h h' : Heap) → IsEmpty h → mm_init h ≡ some (h', true) → Reached h' []
  allocated :
      (h : Heap) (owned : List (ℕ × ℕ)) (n : ℕ) (r : Heap × ℕ)
      → Reached h owned
      → 0 < n
      → n + 16 ≤ 2 ^ 31
      → mm_malloc h n ≡ some r
      → Reached r.0 (given r.1 n owned)
  freed :
      (h h' : Heap) (os rest : List (ℕ × ℕ)) (o : ℕ × ℕ)
      → Reached h (os ++ o ∷ rest)
      → mm_free h o.0 ≡ some h'
      → Reached h' (os ++ rest)
  reallocated :
      (h : Heap) (os rest : List (ℕ × ℕ)) (o : ℕ × ℕ) (m : ℕ) (r : Heap × ℕ)
      → Reached h (os ++ o ∷ rest)
      → 0 < m
      → m * 2 + 16 ≤ 2 ^ 31
      → mm_realloc h o.0 m ≡ some r
      → Reached r.0 (resized r.1 m os o rest)
  written :
      (h h' : Heap) (os rest : List (ℕ × ℕ)) (o : ℕ × ℕ) (i v : ℕ)
      → Reached h (os ++ o ∷ rest)
      → i % 8 ≡ 0
      → i < o.1
      → put h (o.0 + i) v ≡ some h'
      → Reached h' (os ++ o ∷ rest)

some_same {ℓ} : {A : Type ℓ} (a b : A) → some a ≡ some b → a ≡ b
some_same a b e = cc e

written-Kept :
    (h h' : Heap) (os rest : List (ℕ × ℕ)) (o : ℕ × ℕ) (i v : ℕ)
    → Kept h (os ++ o ∷ rest)
    → i % 8 ≡ 0
    → i < o.1
    → put h (o.0 + i) v ≡ some h'
    → Kept h' (os ++ o ∷ rest)
written-Kept h h' os rest o i v k even lt run =
    let (own, _) = All-middle (IsOwned (payload_at (h.start + 24) k.blocks)) os o rest k.owns in
    let (put_run, is') =
      put-IsHeap h k.blocks k.frees (o.0 + i) v k.heap (own.words i lt)
        (omega (arith, own.aligned, even)) in
    subst (λ (g : Heap). Kept g (os ++ o ∷ rest)) (sym (some_same _ _ (sym run ∙ put_run)))
      (record {
        blocks = k.blocks;
        frees = k.frees;
        heap = is';
        settled = k.settled;
        top = k.top;
        owns = k.owns;
        apart = k.apart;
      })

-- One piece of another size.
resized-Kept :
    (h : Heap) (os rest : List (ℕ × ℕ)) (o : ℕ × ℕ) (m bp : ℕ)
    → (k : Kept h ((bp, m) ∷ (os ++ rest))) → Kept h (resized bp m os o rest)
resized-Kept h os rest o m bp k =
    let low : (bp == null) ≡ false = ground (arith, k.owns.0.low) in
    let more : (bp, m) ∷ (os ++ rest) ≡ resized bp m os o rest = rw low refl in
    subst (λ zs. Kept h zs) more k

reallocated-Kept :
    (h : Heap) (os rest : List (ℕ × ℕ)) (o : ℕ × ℕ) (m : ℕ) (r : Heap × ℕ)
    → Kept h (os ++ o ∷ rest)
    → 0 < m
    → m * 2 + 16 ≤ 2 ^ 31
    → mm_realloc h o.0 m ≡ some r
    → Kept r.0 (resized r.1 m os o rest)
reallocated-Kept h os rest o m r k some_bytes small run =
    let result : (r' : Heap × ℕ)
        → mm_realloc h o.0 m ≡ some r'
        → Kept r'.0 (resized r'.1 m os o rest)
        → Kept r.0 (resized r.1 m os o rest) =
      λ r' run' kept.
        subst (λ (x : Heap × ℕ). Kept x.0 (resized x.1 m os o rest))
          (some_same r' r (sym run' ∙ run)) kept in
    elim (mm_realloc-Kept h os rest o m k some_bytes small) [
      | inl (stays, kept) ↦ result (h, o.0) stays (resized-Kept h os rest o m o.0 kept)
      | inr (inl fails) ↦ result (h, null) fails k
      | inr (inr moved) ↦ result _ moved.run (resized-Kept _ os rest o m moved.bp moved.kept)
    ]

Reached-Kept : {h : Heap} {owned : List (ℕ × ℕ)} → Reached h owned → Kept h owned
Reached-Kept (started h h' is run) =
    let (init_run, heap) = mm_init-IsHeap h is in
    subst (λ (g : Heap). Kept g [])
      (sym (ap (λ (r : Heap × Bool). r.0) (some_same _ _ (sym run ∙ init_run))))
      (record {
        blocks = [];
        frees = [];
        heap = heap;
        settled = tt;
        top = is.small;
        owns = tt;
        apart = tt;
      })
Reached-Kept (allocated h owned n r reached some_bytes small run) =
    let k = Reached-Kept reached in
    elim (mm_malloc-IsHeap h k.blocks k.frees n k.heap k.settled k.top some_bytes small) [
      | inl a ↦
          let same : r ≡ (with_cells (record h { brk = a.top }) a.cells a.head, a.bp) =
            some_same _ _ (sym run ∙ a.run) in
          let low : (a.bp == null) ≡ false = ground (arith, a.at) in
          let more : (a.bp, n) ∷ owned ≡ given a.bp n owned = rw low refl in
          subst (λ (r : Heap × ℕ). Kept r.0 (given r.1 n owned)) (sym same)
            (subst (λ os. Kept (with_cells (record h { brk = a.top }) a.cells a.head) os) more
              (Allocated-Kept h owned n (mm_malloc h n) k a))
      | inr (fails, _, _) ↦
          subst (λ (r : Heap × ℕ). Kept r.0 (given r.1 n owned)) (some_same _ _ (sym fails ∙ run)) k
    ]
Reached-Kept (freed h h' os rest o reached run) =
    let (c, f, free_run, k, _) = free-Kept h os rest o (Reached-Kept reached) in
    subst (λ (g : Heap). Kept g (os ++ rest)) (sym (some_same _ _ (sym run ∙ free_run))) k
Reached-Kept (reallocated h os rest o m r reached some_bytes small run) =
    reallocated-Kept h os rest o m r (Reached-Kept reached) some_bytes small run
Reached-Kept (written h h' os rest o i v reached even lt run) =
    written-Kept h h' os rest o i v (Reached-Kept reached) even lt run

-- What holds of a piece that the client has.
abbrev pub IsUsable : Heap → ℕ × ℕ → Type 0
IsUsable h o =
    (h.start ≤ o.0) × (o.0 + o.1 ≤ h.brk) × (o.0 % 8 ≡ 0) × (h' : Heap) × (mm_free h o.0 ≡ some h')

owned-IsUsable :
    (h : Heap) (owned : List (ℕ × ℕ)) (k : Kept h owned) (o : ℕ × ℕ)
    → IsOwned (payload_at (h.start + 24) k.blocks) o
    → IsUsable h o
owned-IsUsable h owned k o is =
    let p = h.start + 24 in
    let (pre, s, post, split, at, f) = owned-Freed h owned o k is in
    let large = Rows-IsLarge h.cell p true k.blocks k.heap.rows in
    let within : o.0 + o.1 ≤ h.brk = elim (Bool-cases (o.1 == 0)) [
      | inl none_of ↦
          let empty : o.1 ≡ 0 = ground (arith, none_of) in
          omega (arith, k.heap.ends, payload_at_bounds p k.blocks o.0 large is.begins, empty)
      | inr some_bytes ↦
          let more : 0 < o.1 = ground (arith, some_bytes) in
          omega (
            arith,
            k.heap.ends,
            payload_at_bounds p k.blocks (o.0 + (o.1 - 1)) large
                (is.words (o.1 - 1) (omega (arith, more))),
            more,
          )
    ] in
    (omega (arith, at), within, is.aligned, with_cells h f.cells f.head, f.run)

malloc_runs :
    (h : Heap) (owned : List (ℕ × ℕ)) (n : ℕ)
    → Kept h owned
    → 0 < n
    → n + 16 ≤ 2 ^ 31
    → (r : Heap × ℕ) × (mm_malloc h n ≡ some r)
malloc_runs h owned n k some_bytes small =
    elim (mm_malloc-IsHeap h k.blocks k.frees n k.heap k.settled k.top some_bytes small) [
      | inl a ↦ (_, a.run)
      | inr (fails, _, _) ↦ (_, fails)
    ]

-- Whatever calls of `mm_malloc`, `mm_realloc` and `mm_free` a client has made since `mm_init` got its
-- memory, in a heap at an aligned address that stays below 2^63, those of `mm_malloc` for 1 byte at
-- least and 2^31 - 16 at most, those of `mm_realloc` for 1 byte at least and half of that at most and
-- a piece that it had, those of `mm_free` for such a piece, and whatever it has written to words of
-- its pieces: each piece that it has is in the heap, begins at a multiple of 8 and can be freed, no
-- two of them overlap, and the next such call of `mm_malloc` is defined.
pub Reached-IsUsable :
    (h : Heap) (owned : List (ℕ × ℕ)) (n : ℕ)
    → Reached h owned
    → 0 < n
    → n + 16 ≤ 2 ^ 31
    → All (IsUsable h) owned × Disjoint owned × (r : Heap × ℕ) × (mm_malloc h n ≡ some r)
Reached-IsUsable h owned n reached some_bytes small =
    let k = Reached-Kept reached in
    let u = payload_at (h.start + 24) k.blocks in
    let runs = malloc_runs h owned n k some_bytes small in
    (
      All-map (IsOwned u) (IsUsable h) owned (owned-IsUsable h owned k) k.owns,
      IsOwned-Disjoint u owned k.owns k.apart,
      runs.0,
      runs.1,
    )

-- What `mm_realloc` of a piece gives when it moves it.
pub record IsMoved (h : Heap) (o : ℕ × ℕ) (others : List (ℕ × ℕ)) (m : ℕ) (call : Option (Heap × ℕ))
    : Type 0 where
  heap : Heap
  bp : ℕ
  run : call ≡ some (heap, bp)
  some_place : 0 < bp
  apart : Disjoint ((bp, m) ∷ others)
  copied : contents heap.cell (bp, o.1) ≡ contents h.cell o
  same : All (λ (o' : ℕ × ℕ). contents heap.cell o' ≡ contents h.cell o') others

-- The client of such a history calls `mm_realloc` for one of its pieces and a number of bytes between
-- 1 and 2^30 - 8. Either it gets the same address and nothing has changed, and there is room for the
-- bytes; or `NULL` and nothing has changed; or another address, with the words that the piece had,
-- while the words of all other pieces are the same and none of them overlaps the new one.
pub Reached-mm_realloc :
    (h : Heap) (os rest : List (ℕ × ℕ)) (o : ℕ × ℕ) (m : ℕ)
    → Reached h (os ++ o ∷ rest)
    → 0 < m
    → m * 2 + 16 ≤ 2 ^ 31
    → ((mm_realloc h o.0 m ≡ some (h, o.0)) × Disjoint ((o.0, m) ∷ (os ++ rest)))
      ⊎ ((mm_realloc h o.0 m ≡ some (h, null)) ⊎ IsMoved h o (os ++ rest) m (mm_realloc h o.0 m))
Reached-mm_realloc h os rest o m reached some_bytes small =
    elim (mm_realloc-Kept h os rest o m (Reached-Kept reached) some_bytes small) [
      | inl (stays, k) ↦ inl (
        stays,
        IsOwned-Disjoint (payload_at (h.start + 24) k.blocks) ((o.0, m) ∷ (os ++ rest)) k.owns
            k.apart,
      )
      | inr (inl fails) ↦ inr (inl fails)
      | inr (inr moved) ↦ inr (
          inr (record {
            heap = _;
            bp = moved.bp;
            run = moved.run;
            some_place = ground (arith, moved.kept.owns.0.low);
            apart =
                IsOwned-Disjoint (payload_at (h.start + 24) moved.kept.blocks)
                  ((moved.bp, m) ∷ (os ++ rest)) moved.kept.owns moved.kept.apart;
            copied = moved.copied;
            same = moved.same;
          }))
    ]
