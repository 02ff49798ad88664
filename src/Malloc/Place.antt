-- ===== src/Malloc/Place.antt =====
-- `place` of malloclab/src/mm.c.
use cs_app_labs.Prelude.{
  ℕ, ◌+◌, ◌-◌, ◌%◌, ◌≤◌, ◌≡◌, refl, ap, Bool, true, false, ◌||◌, Option, some, List, [], ◌∷◌, ◌++◌,
  leb, arith, Bool-cases, inl, inr,
}
use cs_app_labs.Malloc.Words.{Heap, add_size}
use cs_app_labs.Malloc.Blocks.{place}
use cs_app_labs.Malloc.Layout.{Block, block, total, last_used, payload_at}
use cs_app_labs.Malloc.Steps.{step, with_cells}
use cs_app_labs.Malloc.Invariant.{IsHeap}
use cs_app_labs.Malloc.Access.{block-IsAt, get_size-IsAt}
use cs_app_labs.Malloc.Kept.{Keeps, payload-swap}
use cs_app_labs.Malloc.Settled.{Settled, Settled-split, Settled-join, Settled-true}
use cs_app_labs.Malloc.Take.{take_block-IsHeap}
use cs_app_labs.Malloc.SplitHeap.{split_block-IsHeap}

-- What a call that allocates a block leaves: the heap is settled, the block is large enough, no
-- word of it was the user's, and the words that were are the same.
pub record Placed (h : Heap) (e a : ℕ) (bs : List Block) (call : Option Heap) : Type 0 where
  pub cells : ℕ → ℕ
  pub head : ℕ
  pub before : List Block
  pub size : ℕ
  pub behind : List Block
  pub frees : List ℕ
  pub run : call ≡ some (with_cells h cells head)
  pub at : e ≡ h.start + 24 + total before
  pub heap : IsHeap (with_cells h cells head) (before ++ block size true false ∷ behind) frees
  pub settled : Settled true (before ++ block size true false ∷ behind)
  pub large : a ≤ size
  pub fresh :
      (q : ℕ)
      → payload_at (h.start + 24) (before ++ block size false false ∷ behind) q
        ≡ payload_at (h.start + 24) bs q
  pub kept : Keeps h cells bs

pub place-IsHeap :
    (h : Heap) (e a s : ℕ) (pre post : List Block) (fs : List ℕ)
    → IsHeap h (pre ++ block s false true ∷ post) fs
    → Settled true (pre ++ block s false true ∷ post)
    → e ≡ h.start + 24 + total pre
    → a % 8 ≡ 0
    → 32 ≤ a
    → a ≤ s
    → Placed h e a (pre ++ block s false true ∷ post) (place h e a)
unfolding place
place-IsHeap h e a s pre post fs is settled at aligned wide fits =
    let here = block-IsAt h e pre (block s false true) post fs at is in
    let read = get_size-IsAt h e pre (block s false true) post here in
    let (settled0, (_, before', settled1)) =
      Settled-split true pre (block s false true ∷ post) settled in
    let before : last_used true pre ≡ true = ground (arith, before') in
    let sum : add_size (add_size a 16) 16 ≡ a + 32 = omega (arith, here.small) in
    elim (Bool-cases (leb (a + 32) s)) [
      | inl enough ↦
          let le : a + 32 ≤ s = ground (arith, enough) in
          let (c, f, gs, run, is', kept) =
            split_block-IsHeap h e a s pre post fs at aligned wide le is before in
          record {
            cells = c;
            head = f;
            before = pre;
            size = a;
            behind = block (s - a) false true ∷ post;
            frees = gs;
            run = step _ read (rw (sum, enough) run);
            at = at;
            heap = is';
            settled =
                Settled-join true pre (block a true false ∷ (block (s - a) false true ∷ post))
                  settled0 (refl, ap (λ (u : Bool). u || true) before, (refl, refl, settled1));
            large = omega arith;
            fresh = λ q.
                payload-swap (h.start + 24) e (e + s) pre (block s false true ∷ [])
                  (block a false false ∷ block (s - a) false true ∷ []) post q at (omega arith)
                  (omega (arith, le)) refl;
            kept = kept;
          }
      | inr short ↦
          let (c, f, gs, run, is', kept) = take_block-IsHeap h e s pre post fs is before at in
          record {
            cells = c;
            head = f;
            before = pre;
            size = s;
            behind = post;
            frees = gs;
            run = step _ read (rw (sum, short) run);
            at = at;
            heap = is';
            settled =
                Settled-join true pre (block s true false ∷ post) settled0
                  (refl, ap (λ (u : Bool). u || true) before, Settled-true false post settled1);
            large = fits;
            fresh = λ q.
                payload-swap (h.start + 24) e (e + s) pre (block s false true ∷ [])
                  (block s false false ∷ []) post q at (omega arith) refl refl;
            kept = kept;
          }
    ]
