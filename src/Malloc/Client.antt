-- ===== src/Malloc/Client.antt =====
-- A heap of malloclab/src/mm.c with the pieces that its client has.
use mathlib.Core.Path.{subst}
use cs_app_labs.Prelude.{
  ℕ, ◌+◌, ◌-◌, ◌^◌, ◌<◌, ◌≤◌, ◌≡◌, ◌⊎◌, sym, ap, ◌∙◌, Bool, true, false, ◌&&◌, ◌||◌, Option, some,
  List, ◌∷◌, ◌++◌, ltb, leb, arith, Bool-cases, inl, inr, All,
}
use cs_app_labs.Malloc.Words.{Heap}
use cs_app_labs.Malloc.Blocks.{mm_free}
use cs_app_labs.Malloc.Layout.{Block, block, total, IsLarge, Rows-IsLarge, payload_at}
use cs_app_labs.Malloc.Steps.{with_cells}
use cs_app_labs.Malloc.Invariant.{IsHeap}
use cs_app_labs.Malloc.Listing.{IsLarge-split}
use cs_app_labs.Malloc.Settled.{Settled}
use cs_app_labs.Malloc.Kept.{user_word}
use cs_app_labs.Malloc.Free.{Freed, mm_free-IsHeap}
use cs_app_labs.Malloc.Allocate.{Allocated}
use cs_app_labs.Malloc.Owned.{begins-split, payload_at-used, payload_at-apart}
use cs_app_labs.Malloc.Owners.{
  IsOwned, IsOwned-more, IsOwned-new, IsOwned-fresh, Apart, All-middle, All-map, Apart-middle,
  All-less,
}

pub record Kept (h : Heap) (owned : List (ℕ × ℕ)) : Type 0 where
  pub blocks : List Block
  pub frees : List ℕ
  pub heap : IsHeap h blocks frees
  pub settled : Settled true blocks
  pub top : h.max_addr < 2 ^ 63
  pub owns : All (IsOwned (payload_at (h.start + 24) blocks)) owned
  pub apart : Apart owned

pub user_word-paid :
    (p : ℕ) (bs : List Block) (n m : ℕ → ℕ) (q : ℕ)
    → user_word p bs n q ≡ user_word p bs m q
    → payload_at p bs q ≡ true
    → n q ≡ m q
user_word-paid p bs n m q same paid = rw paid at same

pub Allocated-Kept :
    (h : Heap) (owned : List (ℕ × ℕ)) (n : ℕ) (call : Option (Heap × ℕ)) (k : Kept h owned)
    (a : Allocated h k.blocks n call)
    → Kept (with_cells (record h { brk = a.top }) a.cells a.head) ((a.bp, n) ∷ owned)
Allocated-Kept h owned n call k a =
    let p = h.start + 24 in
    let u = payload_at p k.blocks in
    let bs' = a.before ++ block a.size true false ∷ a.behind in
    let v = payload_at p bs' in
    let (large, ((_, wide), large')) =
      IsLarge-split a.before (block a.size true false ∷ a.behind)
        (Rows-IsLarge a.cells p true bs' a.heap.rows) in
    let more : (q : ℕ) → v q ≡ ((leb a.bp q && ltb q (a.bp + a.size - 8)) || u q) = λ q.
      payload_at-used p a.bp a.before a.size a.behind q a.at
      ∙ ap (λ (b : Bool). (leb a.bp q && ltb q (a.bp + a.size - 8)) || b) (a.fresh q) in
    let apart : (q : ℕ) → u q ≡ true → (q + 8 < a.bp) ⊎ (a.bp + a.size ≤ q) = λ q h'.
      payload_at-apart p a.bp a.before a.size a.behind q large large' a.at (a.fresh q ∙ h') in
    let out : u a.bp ≡ false = elim (Bool-cases (u a.bp)) [
      | inl h' ↦ absurd (ground (arith, apart a.bp h', wide))
      | inr o ↦ o
    ] in
    record {
      blocks = bs';
      frees = a.frees;
      heap = a.heap;
      settled = a.settled;
      top = k.top;
      owns = (
        IsOwned-new u v a.bp a.size more apart n (omega (arith, a.at)) a.aligned a.enough
            (omega (arith, wide)),
        All-map (IsOwned u) (IsOwned v) owned (IsOwned-more u v a.bp a.size more apart) k.owns,
      );
      apart = (IsOwned-fresh u a.bp owned out k.owns, k.apart);
    }

-- A piece that the client has is a block.
pub owned-Freed :
    (h : Heap) (owned : List (ℕ × ℕ)) (o : ℕ × ℕ)
    → (k : Kept h owned) → IsOwned (payload_at (h.start + 24) k.blocks) o
    → (pre : List Block) × (s : ℕ) × (post : List Block) × (k.blocks
        ≡ pre ++ block s true false ∷ post)
      × (o.0 ≡ h.start + 24 + total pre)
      × Freed h (pre ++ block s false false ∷ post) (mm_free h o.0)
owned-Freed h owned o k is =
    let p = h.start + 24 in
    let (pre, s, post, split, at) =
      begins-split p true k.blocks o.0 (Rows-IsLarge h.cell p true k.blocks k.heap.rows) k.settled
        (omega (arith, k.heap.aligned)) is.aligned (ground (arith, is.begins, is.before)) in
    (
      pre,
      s,
      post,
      split,
      at,
      mm_free-IsHeap h o.0 s pre post k.frees (subst (λ bs. IsHeap h bs k.frees) split k.heap)
          (subst (λ bs. Settled true bs) split k.settled) at,
    )

-- A piece is freed, and the words of the others are the same.
pub free-Kept :
    (h : Heap) (os rest : List (ℕ × ℕ)) (o : ℕ × ℕ)
    → Kept h (os ++ o ∷ rest)
    → (c : ℕ → ℕ) × (f : ℕ) × (mm_free h o.0 ≡ some (with_cells h c f))
      × (k' : Kept (with_cells h c f) (os ++ rest)) × ((q : ℕ)
          → payload_at (h.start + 24) k'.blocks q ≡ true
          → c q ≡ h.cell q)
free-Kept h os rest o k =
    let p = h.start + 24 in
    let v = payload_at p k.blocks in
    let (own, owns) = All-middle (IsOwned v) os o rest k.owns in
    let (differ, apart) = Apart-middle os o rest k.apart in
    let (pre, s, post, split, at, f) = owned-Freed h (os ++ o ∷ rest) o k own in
    let u = payload_at p f.blocks in
    let (large, (_, large')) =
      IsLarge-split pre (block s true false ∷ post)
        (subst (λ bs. IsLarge bs) split (Rows-IsLarge h.cell p true k.blocks k.heap.rows)) in
    let more : (q : ℕ) → v q ≡ ((leb o.0 q && ltb q (o.0 + s - 8)) || u q) = λ q.
      ap (λ bs. payload_at p bs q) split
      ∙ payload_at-used p o.0 pre s post q at
      ∙ ap (λ (b : Bool). (leb o.0 q && ltb q (o.0 + s - 8)) || b) (sym (f.paid q)) in
    let clear : (q : ℕ) → u q ≡ true → (q + 8 < o.0) ⊎ (o.0 + s ≤ q) =
      λ q h''. payload_at-apart p o.0 pre s post q large large' at (sym (f.paid q) ∙ h'') in
    (
      f.cells,
      f.head,
      f.run,
      record {
        blocks = f.blocks;
        frees = f.frees;
        heap = f.heap;
        settled = f.settled;
        top = k.top;
        owns = All-less u v o.0 s o.1 more clear own (os ++ rest) differ owns;
        apart = apart;
      },
      λ q paid.
          user_word-paid p (pre ++ block s false false ∷ post) f.cells h.cell q (f.kept q)
            (sym (f.paid q) ∙ paid),
    )
