-- ===== src/Malloc/Joined.antt =====
-- What `coalesce` of malloclab/src/mm.c leaves, and its statements before and behind the branches.
use cs_app_labs.Prelude.{
  ◌>>=◌, ℕ, ◌+◌, ◌≤◌, ◌≡◌, refl, ap, ◌∙◌, Bool, true, false, ◌||◌, Option, some, List, [], ◌∷◌,
  ◌++◌, arith,
}
use cs_app_labs.Malloc.Words.{Heap}
use cs_app_labs.Malloc.Blocks.{add_to_free_list, merge, coalesce}
use cs_app_labs.Malloc.Layout.{Block, block, flag, total, last_used, Rows-IsLarge, payload_at}
use cs_app_labs.Malloc.Steps.{step, with_cells}
use cs_app_labs.Malloc.Invariant.{IsHeap, payload-is_link}
use cs_app_labs.Malloc.Listing.{add-IsHeap}
use cs_app_labs.Malloc.Access.{
  head_used, IsAt, next_blkp-IsAt, get_size-IsAt, get_prev_alloc-IsAt, get_alloc_next-IsAt,
}
use cs_app_labs.Malloc.Kept.{Keeps, payload-swap}
use cs_app_labs.Malloc.Settled.{Settled, Settled-join}

-- What a call that leaves a free block says of it: the heap is settled again, the block has some
-- size at least, and the words of the user are the same.
pub record Joined (h : Heap) (bs : List Block) (s : ℕ) (call : Option (Heap × ℕ)) : Type 0 where
  pub cells : ℕ → ℕ
  pub bp : ℕ
  pub before : List Block
  pub size : ℕ
  pub behind : List Block
  pub frees : List ℕ
  pub run : call ≡ some (with_cells h cells bp, bp)
  pub at : bp ≡ h.start + 24 + total before
  pub heap : IsHeap (with_cells h cells bp) (before ++ block size false true ∷ behind) frees
  pub settled : Settled true (before ++ block size false true ∷ behind)
  pub large : s ≤ size
  pub paid :
      (q : ℕ)
      → payload_at (h.start + 24) (before ++ block size false true ∷ behind) q
        ≡ payload_at (h.start + 24) bs q
  pub kept : Keeps h cells bs

-- The last statement: the block comes in front of the free list.
pub join_last :
    (h : Heap) (c : ℕ → ℕ) (f e s t : ℕ) (pre post bs : List Block) (gs : List ℕ)
    (call : Option (Heap × ℕ))
    → IsHeap (with_cells h c f) (pre ++ block t false false ∷ post) gs
    → e ≡ h.start + 24 + total pre
    → last_used true pre ≡ true
    → Settled true pre
    → Settled false post
    → s ≤ t
    → ((q : ℕ)
        → payload_at (h.start + 24) (pre ++ block t false false ∷ post) q
          ≡ payload_at (h.start + 24) bs q)
    → Keeps h c (pre ++ block t false false ∷ post)
    → call ≡ (add_to_free_list (with_cells h c f) e >>= (λ h2. some (h2, e)))
    → Joined h bs s call
join_last h c f e s t pre post bs gs call is at before settled settled' large paid kept run =
    let (d, added, is', same) = add-IsHeap (with_cells h c f) e pre t post at gs is in
    let p = h.start + 24 in
    record {
      cells = d;
      bp = e;
      before = pre;
      size = t;
      behind = post;
      frees = e ∷ gs;
      run = run ∙ step _ added refl;
      at = at;
      heap = is';
      settled =
          Settled-join true pre (block t false true ∷ post) settled
            (refl, ap (λ (u : Bool). u || false) before, settled');
      large = large;
      paid = λ q.
          payload-swap p e (e + t) pre (block t false false ∷ []) (block t false true ∷ []) post q
            at (omega arith) refl refl
          ∙ paid q;
      kept = λ q used.
          let used' : payload_at p (pre ++ block t false true ∷ post) q ≡ true =
            payload-swap p e (e + t) pre (block t false false ∷ []) (block t false true ∷ []) post q
              at (omega arith) refl refl
            ∙ paid q
            ∙ used in
          same q (
            payload-is_link p (pre ++ block t false true ∷ post) (e ∷ gs) q
              (Rows-IsLarge d p true (pre ++ block t false true ∷ post) is'.rows) is'.listed
              is'.matching used')
          ∙ kept q (paid q ∙ used);
    }

-- The statements before.
pub coalesce_run :
    (h h1 : Heap) (e e1 : ℕ) (pre : List Block) (s : ℕ) (l : Bool) (post : List Block)
    → IsAt h e pre (block s false l) post
    → merge h e s (flag (last_used true pre)) (flag (head_used post)) ≡ some (h1, e1)
    → coalesce h e ≡ (add_to_free_list h1 e1 >>= (λ h2. some (h2, e1)))
unfolding coalesce
coalesce_run h h1 e e1 pre s l post here run =
    step _ (get_prev_alloc-IsAt h e pre (block s false l) post here) (
      step _ (next_blkp-IsAt h e pre (block s false l) post here) (
        step _ (get_alloc_next-IsAt h e pre (block s false l) post here)
          (step _ (get_size-IsAt h e pre (block s false l) post here) (step _ run refl))))
