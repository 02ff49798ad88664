-- ===== src/Malloc/Listing.antt =====
-- What `add_to_free_list` and `remove_from_free_list` of malloclab/src/mm.c do to the heap.
use mathlib.Core.Path.{subst}
use cs_app_labs.Prelude.{
  ℕ, ◌+◌, ◌%◌, ◌<◌, ◌≤◌, ◌≡◌, ◌⊎◌, refl, sym, ap, ◌∙◌, Bool, true, false, some, List, [], ◌∷◌, ◌++◌,
  ◌==◌, arith, Bool-cases, inl, inr,
}
use cs_app_labs.Malloc.Words.{Heap}
use cs_app_labs.Malloc.Blocks.{add_to_free_list, remove_from_free_list}
use cs_app_labs.Malloc.Layout.{
  Block, block, total, total-append, Rows, rows_tag, linked_at, IsLarge, IsListed, Rows-IsLarge,
  linked_at-append, linked_at_bounds,
}
use cs_app_labs.Malloc.Links.{has, is_link, Spaced, has-append}
use cs_app_labs.Malloc.Frames.{Rows-frame}
use cs_app_labs.Malloc.Steps.{with_cells}
use cs_app_labs.Malloc.FreeList.{IsFreeList, remove-IsFreeList}
use cs_app_labs.Malloc.FreeListAdd.{add-IsFreeList}
use cs_app_labs.Malloc.Parts.{has-split}
use cs_app_labs.Malloc.Invariant.{IsHeap, link-rows_tag, is_link_gap, total_aligned}

-- Tags do not tell whether a block is in the free list.
pub Rows-relabel :
    (m : ℕ → ℕ) (p : ℕ) (prev : Bool) (pre : List Block) (s : ℕ) (u l l' : Bool) (post : List Block)
    → Rows m p prev (pre ++ block s u l ∷ post)
    → Rows m p prev (pre ++ block s u l' ∷ post)
Rows-relabel m p prev [] s u l l' post (is, r) =
    (record { header = is.header; footer = is.footer; aligned = is.aligned; large = is.large }, r)
Rows-relabel m p prev (b ∷ pre) s u l l' post (is, r) =
    (is, Rows-relabel m (p + b.size) b.used pre s u l l' post r)

total-relabel :
    (pre : List Block) (s : ℕ) (u l l' : Bool) (post : List Block)
    → total (pre ++ block s u l ∷ post) ≡ total (pre ++ block s u l' ∷ post)
total-relabel pre s u l l' post =
    total-append pre (block s u l ∷ post) ∙ sym (total-append pre (block s u l' ∷ post))

IsListed-relabel :
    (pre : List Block) (s : ℕ) (l l' : Bool) (post : List Block)
    → IsListed (pre ++ block s false l ∷ post)
    → IsListed (pre ++ block s false l' ∷ post)
IsListed-relabel [] s l l' post (_, listed) = (refl, listed)
IsListed-relabel (b ∷ pre) s l l' post (h, listed) = (h, IsListed-relabel pre s l l' post listed)

pub IsLarge-split : (xs ys : List Block) → IsLarge (xs ++ ys) → IsLarge xs × IsLarge ys
IsLarge-split [] ys h = (tt, h)
IsLarge-split (b ∷ xs) ys (h, hs) = let (hx, hy) = IsLarge-split xs ys hs in ((h, hx), hy)

pub has-is_link_none : (xs : List ℕ) (q : ℕ) → is_link xs q ≡ false → has xs q ≡ false
has-is_link_none [] q h = refl
has-is_link_none (x ∷ xs) q h = ground (arith, has-is_link_none xs q)

pub Spaced-once :
    (xs : List ℕ) (x : ℕ) (ys : List ℕ)
    → Spaced (xs ++ x ∷ ys)
    → (has xs x ≡ false) × (has ys x ≡ false)
Spaced-once [] x ys (clear, _, _) = (refl, has-is_link_none ys x clear)
Spaced-once (z ∷ xs) x ys (clear, clear', spaced) =
    let (before, behind) = Spaced-once xs x ys spaced in
    let other = has-is_link_none (xs ++ x ∷ ys) z clear in
    (ground (arith, before, other, has-append xs (x ∷ ys) z), behind)

-- The addresses of the free list, without one block and with it.
no_link :
    (p e : ℕ) (bs : List Block)
    → IsLarge bs
    → (p + total bs ≤ e) ⊎ (e < p)
    → linked_at p bs e ≡ false
no_link p e bs large apart = elim (Bool-cases (linked_at p bs e)) [
  | inl l ↦ absurd (ground (arith, linked_at_bounds p bs e large l, apart))
  | inr o ↦ o
]

pub matching-remove :
    (p e : ℕ) (pre : List Block) (s : ℕ) (post : List Block) (before behind : List ℕ) (q : ℕ)
    → IsLarge pre
    → IsLarge post
    → 0 < s
    → e ≡ p + total pre
    → (has before e ≡ false) × (has behind e ≡ false)
    → has (before ++ e ∷ behind) q ≡ linked_at p (pre ++ block s false true ∷ post) q
    → has (before ++ behind) q ≡ linked_at p (pre ++ block s false false ∷ post) q
matching-remove p e pre s post before behind q large large' some_size at once same =
    let whole = linked_at-append p e pre (block s false true ∷ post) q at in
    let parts = linked_at-append p e pre (block s false false ∷ post) q at in
    let list = has-append before (e ∷ behind) q in
    let list' = has-append before behind q in
    elim (Bool-cases (q == e)) [
      | inl here ↦
          let is : q ≡ e = ground arith in
          let none_before : has before q ≡ false = ap (has before) is ∙ once.0 in
          let none_behind : has behind q ≡ false = ap (has behind) is ∙ once.1 in
          let free_before : linked_at p pre q ≡ false =
            ap (linked_at p pre) is ∙ no_link p e pre large (inl (omega arith)) in
          let free_behind : linked_at (e + s) post q ≡ false =
            ap (linked_at (e + s) post) is ∙ no_link (e + s) e post large' (inr (omega arith)) in
          ground (arith, list', parts, none_before, none_behind, free_before, free_behind)
      | inr ne ↦ ground (arith, same, whole, parts, list, list', ne)
    ]

matching-add :
    (p e : ℕ) (pre : List Block) (s : ℕ) (post : List Block) (fs : List ℕ) (q : ℕ)
    → e ≡ p + total pre
    → has fs q ≡ linked_at p (pre ++ block s false false ∷ post) q
    → has (e ∷ fs) q ≡ linked_at p (pre ++ block s false true ∷ post) q
matching-add p e pre s post fs q at same =
    let whole = linked_at-append p e pre (block s false true ∷ post) q at in
    let parts = linked_at-append p e pre (block s false false ∷ post) q at in
    elim (Bool-cases (q == e)) [
      | inl here ↦ ground (arith, whole, here)
      | inr ne ↦ ground (arith, same, whole, parts, ne)
    ]

-- A free list that has another block in front of the same ones, or one less.
module _ (h : Heap) (e : ℕ) (pre : List Block) (s : ℕ) (post : List Block)
    (at : e ≡ h.start + 24 + total pre) where
  pub remove-IsHeap :
      (fs : List ℕ)
      → IsHeap h (pre ++ block s false true ∷ post) fs
      → (c : ℕ → ℕ) × (f : ℕ) × (gs : List ℕ) × (remove_from_free_list h e
          ≡ some (with_cells h c f))
        × IsHeap (with_cells h c f) (pre ++ block s false false ∷ post) gs
        × ((q : ℕ) → is_link fs q ≡ false → c q ≡ h.cell q)
  remove-IsHeap fs is =
      let p = h.start + 24 in
      let large = Rows-IsLarge h.cell p true (pre ++ block s false true ∷ post) is.rows in
      let (large_pre, ((_, size), large_post)) =
        IsLarge-split pre (block s false true ∷ post) large in
      let here : has fs e ≡ true =
        is.matching e ∙ linked_at-append p e pre (block s false true ∷ post) e at ∙ ground arith in
      let (before, behind, split) = has-split fs e here in
      let free : IsFreeList h (before ++ e ∷ behind) = subst (IsFreeList h) split is.free in
      let (c, f, run, free', same) = remove-IsFreeList h before e behind free in
      let same' : (q : ℕ) → is_link fs q ≡ false → c q ≡ h.cell q =
        λ q out. same q (ap (λ zs. is_link zs q) (sym split) ∙ out) in
      let (once, once') = Spaced-once before e behind free.spaced in
      let out : (q : ℕ)
          → rows_tag p (pre ++ block s false true ∷ post) q ≡ true
          → is_link fs q ≡ false =
        λ q t. ground (
          arith,
          t,
          link-rows_tag p (pre ++ block s false true ∷ post) fs q large (omega arith) is.matching,
        ) in
      (
        c,
        f,
        before ++ behind,
        run,
        record {
          some_place = is.some_place;
          aligned = is.aligned;
          ends = omega (arith, is.ends, total-relabel pre s false true false post);
          small = is.small;
          begun = is.begun;
          rows = Rows-relabel c p true pre s false true false post (
              Rows-frame h.cell c p true (pre ++ block s false true ∷ post)
                (λ q t. same' q (out q t)) is.rows);
          free = free';
          matching = λ q.
              matching-remove p e pre s post before behind q large_pre large_post (omega arith) at
                (once, once') (ap (λ zs. has zs q) (sym split) ∙ is.matching q);
          listed = IsListed-relabel pre s true false post is.listed;
        },
        same',
      )

  pub add-IsHeap :
      (fs : List ℕ)
      → IsHeap h (pre ++ block s false false ∷ post) fs
      → (c : ℕ → ℕ) × (add_to_free_list h e ≡ some (with_cells h c e))
        × IsHeap (with_cells h c e) (pre ++ block s false true ∷ post) (e ∷ fs)
        × ((q : ℕ) → is_link (e ∷ fs) q ≡ false → c q ≡ h.cell q)
  add-IsHeap fs is =
      let p = h.start + 24 in
      let large = Rows-IsLarge h.cell p true (pre ++ block s false false ∷ post) is.rows in
      let (large_pre, ((_, size), large_post)) =
        IsLarge-split pre (block s false false ∷ post) large in
      let aligned : e % 8 ≡ 0 = omega (arith, is.aligned, total_aligned pre large_pre, at) in
      let within = total-append pre (block s false false ∷ post) in
      let gap : (q : ℕ) → e ≤ q → q < e + s → is_link fs q ≡ false = λ q le lt.
        is_link_gap p e pre (block s false false) post fs q large_pre large_post at refl is.matching
          le lt in
      let (c, run, free, same) =
        add-IsFreeList h e fs is.free (omega arith) (gap e (omega arith) (omega arith))
          (gap (e + 8) (omega arith) (omega arith))
          (omega arith, omega (arith, is.ends, within), aligned)
          (omega arith, omega (arith, is.ends, within), omega arith) in
      let matching : (q : ℕ) → has (e ∷ fs) q ≡ linked_at p (pre ++ block s false true ∷ post) q =
        λ q. matching-add p e pre s post fs q at (is.matching q) in
      let large' : IsLarge (pre ++ block s false true ∷ post) =
        Rows-IsLarge h.cell p true (pre ++ block s false true ∷ post)
          (Rows-relabel h.cell p true pre s false false true post is.rows) in
      let out : (q : ℕ)
          → rows_tag p (pre ++ block s false true ∷ post) q ≡ true
          → is_link (e ∷ fs) q ≡ false =
        λ q t. elim (Bool-cases (is_link (e ∷ fs) q)) [
          | inl l ↦ absurd (
              cc (
                t,
                link-rows_tag p (pre ++ block s false true ∷ post) (e ∷ fs) q large' (omega arith)
                    matching l,
              ))
          | inr o ↦ o
        ] in
      (
        c,
        run,
        record {
          some_place = is.some_place;
          aligned = is.aligned;
          ends = omega (arith, is.ends, total-relabel pre s false false true post);
          small = is.small;
          begun = is.begun;
          rows =
              Rows-frame h.cell c p true (pre ++ block s false true ∷ post)
                (λ q t. same q (out q t))
                (Rows-relabel h.cell p true pre s false false true post is.rows);
          free = free;
          matching = matching;
          listed = IsListed-relabel pre s false true post is.listed;
        },
        same,
      )
