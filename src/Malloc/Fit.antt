-- ===== src/Malloc/Fit.antt =====
-- `find_fit` of malloclab/src/mm.c.
use mathlib.Core.Path.{subst}
use cs_app_labs.Prelude.{
  ℕ, zero, suc, ◌+◌, ◌-◌, ◌/◌, ◌<◌, ◌≤◌, ◌≡◌, ◌⊎◌, refl, sym, ap, ◌∙◌, Bool, true, false, ◌&&◌,
  Option, some, List, [], ◌∷◌, ◌++◌, length, leb, ◌==◌, arith, Bool-cases, inl, inr, All,
}
use cs_app_labs.Malloc.Words.{Heap, null, get_size, hdrp}
use cs_app_labs.Malloc.Blocks.{find_loop, find_fit}
use cs_app_labs.Malloc.Layout.{
  Block, block, total, Rows-IsLarge, linked_at, linked_at_bounds, linked_at_aligned,
}
use cs_app_labs.Malloc.Links.{has, first, Spaced, Links}
use cs_app_labs.Malloc.Steps.{step, IsInside, get-IsInside}
use cs_app_labs.Malloc.Invariant.{IsHeap}
use cs_app_labs.Malloc.Parts.{has-is_link}
use cs_app_labs.Malloc.Listing.{has-is_link_none}
use cs_app_labs.Malloc.Access.{block-IsAt, get_size-IsAt}
use cs_app_labs.Malloc.Settled.{Settled, block_is}
use cs_app_labs.Malloc.Distinct.{Distinct, length_bound}

-- An address in the free list is that of a block.
linked-split :
    (p : ℕ) (prev : Bool) (bs : List Block) (y : ℕ)
    → Settled prev bs
    → linked_at p bs y ≡ true
    → (pre : List Block) × (s : ℕ) × (post : List Block) × (bs ≡ pre ++ block s false true ∷ post)
      × (y ≡ p + total pre)
linked-split p prev [] y settled h = absurd (cc)
linked-split p prev (b ∷ bs) y (l, u, settled) h = elim (Bool-cases (b.linked && (y == p))) [
  | inl here ↦
      let free : b.used ≡ false = ground (arith, here, l) in
      ([], b.size, bs, ap (λ z. z ∷ bs) (block_is b free l), ground (arith, here))
  | inr ne ↦
      let (pre, s, post, e, at) =
        linked-split (p + b.size) b.used bs y settled (ground (arith, ne, h)) in
      (b ∷ pre, s, post, ap (λ zs. b ∷ zs) e, omega (arith, at))
]

-- Either a free block is large enough, or none is.
abbrev pub Fits : (h : Heap) (bs : List Block) (a : ℕ) (ys : List ℕ) → Option ℕ → Type 0
Fits h bs a ys call =
    ((call ≡ some null) × All (λ (y : ℕ). (s : ℕ) × (get_size h (hdrp y) ≡ some s) × (s < a)) ys)
    ⊎ ((pre : List Block) × (s : ℕ) × (post : List Block) × (bs ≡ pre ++ block s false true ∷ post)
        × (call ≡ some (h.start + 24 + total pre))
        × (a ≤ s))

Distinct-Spaced : (xs : List ℕ) → Spaced xs → Distinct xs
Distinct-Spaced [] s = tt
Distinct-Spaced (x ∷ xs) (clear, clear', s) = (has-is_link_none xs x clear, Distinct-Spaced xs s)

module _ (h : Heap) (bs : List Block) (fs : List ℕ) (a : ℕ) (is : IsHeap h bs fs)
    (settled : Settled true bs) where
  find_loop_lem :
      (fuel : ℕ) (ys : List ℕ) (prev : ℕ)
      → length ys < fuel
      → Links h.cell prev ys
      → ((q : ℕ) → has ys q ≡ true → has fs q ≡ true)
      → Fits h bs a ys (find_loop fuel h (first ys) a)
  unfolding find_loop
  find_loop_lem zero ys prev lt links in_it = absurd (omega arith)
  find_loop_lem (suc fuel) [] prev lt links in_it = inl (refl, tt)
  find_loop_lem (suc fuel) (y ∷ ys) prev lt (_, forth, some_place, links) in_it =
      let here : has fs y ≡ true = in_it y (ground arith) in
      let (pre, s, post, split, at) =
        linked-split (h.start + 24) true bs y settled (sym (is.matching y) ∙ here) in
      let read : get_size h (hdrp y) ≡ some s = get_size-IsAt h y pre (block s false true) post (
        block-IsAt h y pre (block s false true) post fs at
          (subst (λ zs. IsHeap h zs fs) split is)) in
      let place : (y == null) ≡ false = ground (arith, some_place) in
      let inside : IsInside h (y + 8) = is.free.inside (y + 8) (has-is_link fs y here).1 in
      elim (Bool-cases (leb a s)) [
        | inl enough ↦ inr (
          pre,
          s,
          post,
          split,
          rw place (step _ read (rw enough (ap some at))),
          ground (arith, enough),
        )
        | inr short ↦
            let run : find_loop (suc fuel) h y a ≡ find_loop fuel h (first ys) a = rw place (
              step _ read (
                rw short (
                  step _ (get-IsInside h (y + 8) inside)
                    (ap (λ (n : ℕ). find_loop fuel h n a) forth)))) in
            elim (find_loop_lem fuel ys y (omega (arith, lt)) links
              (λ q i. in_it q (ground (arith, i)))) [
                | inl (none_fits, others) ↦
                    inl (run ∙ none_fits, ((s, read, ground (arith, short)), others))
                | inr (pre', s', post', split', found, enough) ↦
                    inr (pre', s', post', split', run ∙ found, enough)
              ]
      ]

  -- On a settled heap, `find_fit` ends within its fuel: with the address of a free block that is
  -- large enough, or with `NULL` if each block of the free list is too small.
  pub find_fit_lem : Fits h bs a fs (find_fit h a)
  unfolding find_fit
  find_fit_lem =
      let large = Rows-IsLarge h.cell (h.start + 24) true bs is.rows in
      let short : length fs ≤ (h.brk - h.start) / 8 =
        length_bound ((h.brk - h.start) / 8) h.start fs (Distinct-Spaced fs is.free.spaced) (λ q i.
          let linked = sym (is.matching q) ∙ i in
          let (low, high) = linked_at_bounds (h.start + 24) bs q large linked in
          let even =
            linked_at_aligned (h.start + 24) bs q large (omega (arith, is.aligned)) linked in
          (omega (arith, low), omega (arith, high, is.ends), omega (arith, even, is.aligned))) in
      subst (λ (r : ℕ). Fits h bs a fs (find_loop (suc ((h.brk - h.start) / 8)) h r a))
        (sym is.free.head)
        (find_loop_lem (suc ((h.brk - h.start) / 8)) fs 0 (omega (arith, short)) is.free.links
          (λ q i. i))
