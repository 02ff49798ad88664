-- ===== src/Csim/Load.antt =====
-- `evict` and `load` of cachelab/csim.c on a valid set.
use mathlib.Core.Path.{subst}
use cs_app_labs.Prelude.{
  ℕ, ◌+◌, ◌≡◌, ◌≢◌, ◌<◌, refl, sym, ap, ◌∙◌, true, false, Option, none, some, [], ◌∷◌, ◌++◌, arith,
  ◌==◌, Bool-cases, inl, inr, length, length-append,
}
use cs_app_labs.Csim.Heap.{Ptr, null, Line, line, Heap, look, put, set_next, load_line}
use cs_app_labs.Csim.Set.{Work, evict, evict_first, append_line}
use cs_app_labs.Csim.Links.{
  Cells, has, Distinct-append, first, last-snoc, Links, Links-put, Links-append, Links-right,
  Links-redirect, has-append, first-append, load_line-holds, set_next-holds, Snoc, snoc, Snoc-view,
}
use cs_app_labs.Csim.Move.{first-snoc}
use cs_app_labs.Csim.SetCells.{IsCacheSet}

-- What `malloc` is relied on for: an address that is not `NULL` and holds no line.
pub record IsFresh (malloc : Heap → Ptr) : Type 0 where
  pub real : (h : Heap) → malloc h ≢ null
  pub free : (h : Heap) → look h (malloc h) ≡ none

pub not-has_of_free :
    (h : Heap) (stop : Ptr) (xs : Cells) (a : Ptr)
    → Links h stop xs
    → look h a ≡ none
    → has a xs ≡ false
not-has_of_free h stop [] a links free = refl
not-has_of_free h stop ((p, t) ∷ xs) a links free =
    ground (arith, not-has_of_free h stop xs a links.2)

pub put_other :
    (h : Heap) (p b : Ptr) (c : Option Line) → (b == p) ≡ false → look (put h p c) b ≡ look h b
unfolding put look
put_other h p b c ne = rw ne

pub put_self : (h : Heap) (p : Ptr) (c : Option Line) → look (put h p c) p ≡ c
unfolding put look
put_self h p c = ground arith

ne_of_has :
    (b a : Ptr) (t : ℕ) (xs : Cells)
    → has b xs ≡ true
    → has a xs ≡ false
    → has b ((a, t) ∷ []) ≡ false
ne_of_has b a t xs here out = elim (Bool-cases (b == a)) [
  | inl e ↦
      let same : b ≡ a = ground arith in absurd (let other = ap (λ (c : Ptr). has c xs) same in cc)
  | inr ne ↦ rw ne
]

not-last :
    (b : Ptr) (init : Cells) (l : Ptr) (v : ℕ)
    → has b (init ++ (l, v) ∷ []) ≡ false
    → (b == l) ≡ false
not-last b init l v miss = ground (arith, has-append b init ((l, v) ∷ []))

-- `evict` frees the line at the head.
pub evict-IsCacheSet :
    (w : Work) (a : Ptr) (t : ℕ) (rest : Cells)
    → IsCacheSet w.heap w.set ((a, t) ∷ rest)
    → (w' : Work) × (evict w ≡ some w')
      × IsCacheSet w'.heap w'.set rest
      × (w'.set.max_size ≡ w.set.max_size)
      × (w'.count ≡ record w.count { evictions = w.count.evictions + 1 })
      × (w'.heap ≡ put w.heap a none)
unfolding evict
evict-IsCacheSet w a t rest is =
    let holds = is.links.1 in
    let reads : load_line w.heap w.set.head ≡ some (line t (first rest null)) =
      ap (λ (p : Ptr). load_line w.heap p) is.head
      ∙ load_line-holds w.heap a (first rest null) t is.links.0 holds in
    (
      evict_first w (line t (first rest null)),
      rw reads refl,
      evicted rest is,
      max_kept rest is,
      refl,
      ap (λ (p : Ptr). put w.heap p none) is.head,
    )
  where
    freed :
        (rest : Cells)
        → IsCacheSet w.heap w.set ((a, t) ∷ rest)
        → Links (put w.heap w.set.head none) null rest
    freed rest is =
        subst (λ (p : Ptr). Links (put w.heap p none) null rest) (sym is.head)
          (Links-put w.heap a none null rest is.distinct.0 is.links.2)

    evicted :
        (rest : Cells) (is : IsCacheSet w.heap w.set ((a, t) ∷ rest))
        → IsCacheSet
            (put w.heap w.set.head none)
            (evict_first w (line t (first rest null))).set
            rest
    evicted [] is = record {
      links = tt;
      distinct = tt;
      head = refl;
      tail = refl;
      size = omega (arith, is.size);
      within = omega arith;
    }
    evicted ((b, u) ∷ more) is =
        let real : (b == null) ≡ false = ground (arith, is.links.2.0) in
        rw real (record {
          links = freed ((b, u) ∷ more) is;
          distinct = is.distinct.1;
          head = refl;
          tail = is.tail;
          size = omega (arith, is.size);
          within = omega (arith, is.within);
        })

    max_kept :
        (rest : Cells)
        → IsCacheSet w.heap w.set ((a, t) ∷ rest)
        → (evict_first w (line t (first rest null))).set.max_size ≡ w.set.max_size
    max_kept rest is = ground arith

null_test : (p q : Ptr) → p ≡ q → q ≢ null → (p == null) ≡ false
null_test p q same real = ground arith

-- The same at a set that is not empty: `l` is the last line.
append_behind :
    (w : Work) (new : Ptr) (tag : ℕ) (init : Cells) (l : Ptr) (v : ℕ)
    → new ≢ null
    → look w.heap new ≡ none
    → IsCacheSet w.heap w.set (init ++ (l, v) ∷ [])
    → length (init ++ (l, v) ∷ []) < w.set.max_size
    → (w' : Work) × (append_line w new tag ≡ some w')
      × IsCacheSet w'.heap w'.set ((init ++ (l, v) ∷ []) ++ (new, tag) ∷ [])
      × (w'.set.max_size ≡ w.set.max_size)
      × (w'.count ≡ w.count)
      × ((b : Ptr)
          → has b (init ++ (l, v) ∷ []) ≡ false
          → (b == new) ≡ false
          → look w'.heap b ≡ look w.heap b)
unfolding append_line
append_behind w new tag init l v real free is room =
    let xs : Cells = init ++ (l, v) ∷ [] in
    let h : Heap = put w.heap new (some (line tag null)) in
    let out : has new xs ≡ false = not-has_of_free w.heap null xs new is.links free in
    let links : Links h null xs =
      Links-put w.heap new (some (line tag null)) null xs out is.links in
    let cell = Links-right h null init ((l, v) ∷ []) links in
    let end : w.set.tail ≡ l = is.tail ∙ last-snoc init null l v in
    let not_empty : (w.set.tail == null) ≡ false = null_test w.set.tail l end cell.0 in
    let write : set_next h w.set.tail new ≡ some (put h l (some (line v new))) =
      ap (λ (p : Ptr). set_next h p new) end ∙ set_next-holds h l null v cell.0 cell.1 new in
    let apart : (new == l) ≡ false = not-last new init l v out in
    (
      record w {
        heap = put h l (some (line v new));
        set = record w.set { tail = new; current_size = w.set.current_size + 1 };
      },
      rw not_empty (rw write refl),
      record {
        links =
            Links-append (put h l (some (line v new))) null xs ((new, tag) ∷ [])
              (Links-redirect h null new init l v is.distinct links)
              (
                real,
                put_other h l new (some (line v new)) apart
                    ∙ put_self w.heap new (some (line tag null)),
                tt,
              );
        distinct =
            Distinct-append xs ((new, tag) ∷ []) is.distinct (refl, tt)
              (λ b i. ne_of_has b new tag xs i out);
        head =
            is.head ∙ sym (first-append xs ((new, tag) ∷ []) null ∙ first-snoc init l v new null);
        tail = sym (last-snoc xs null new tag);
        size = omega (arith, is.size, length-append xs ((new, tag) ∷ []));
        within = omega (arith, room, length-append xs ((new, tag) ∷ []));
      },
      refl,
      refl,
      λ b miss ne.
          put_other h l b (some (line v new)) (not-last b init l v miss)
          ∙ put_other w.heap new b (some (line tag null)) ne,
    )

-- `load` behind the eviction links the new line behind the last one.
pub append_line-IsCacheSet :
    (w : Work) (new : Ptr) (tag : ℕ) (xs : Cells)
    → IsCacheSet w.heap w.set xs
    → length xs < w.set.max_size
    → new ≢ null
    → look w.heap new ≡ none
    → (w' : Work) × (append_line w new tag ≡ some w')
      × IsCacheSet w'.heap w'.set (xs ++ (new, tag) ∷ [])
      × (w'.set.max_size ≡ w.set.max_size)
      × (w'.count ≡ w.count)
      × ((b : Ptr) → has b xs ≡ false → (b == new) ≡ false → look w'.heap b ≡ look w.heap b)
unfolding append_line put look
append_line-IsCacheSet w new tag [] is room real free =
    let empty : (w.set.tail == null) ≡ true = ground (arith, is.tail) in
    (
      record w {
        heap = put w.heap new (some (line tag null));
        set = record w.set { head = new; tail = new; current_size = w.set.current_size + 1 };
      },
      rw empty refl,
      record {
        links = (real, ground arith, tt);
        distinct = (refl, tt);
        head = refl;
        tail = refl;
        size = omega (arith, is.size);
        within = omega arith;
      },
      refl,
      refl,
      λ b out ne. ground arith,
    )
append_line-IsCacheSet w new tag ((a, t) ∷ more) is room real free = behind (Snoc-view a t more)
  where
    behind :
        Snoc ((a, t) ∷ more)
        → (w' : Work) × (append_line w new tag ≡ some w')
          × IsCacheSet w'.heap w'.set ((a, t) ∷ more ++ (new, tag) ∷ [])
          × (w'.set.max_size ≡ w.set.max_size)
          × (w'.count ≡ w.count)
          × ((b : Ptr)
              → has b ((a, t) ∷ more) ≡ false
              → (b == new) ≡ false
              → look w'.heap b ≡ look w.heap b)
    behind (snoc init l v split) =
        subst
          (λ (ys : Cells).
            IsCacheSet w.heap w.set ys
            → length ys < w.set.max_size
            → (w' : Work) × (append_line w new tag ≡ some w')
              × IsCacheSet w'.heap w'.set (ys ++ (new, tag) ∷ [])
              × (w'.set.max_size ≡ w.set.max_size)
              × (w'.count ≡ w.count)
              × ((b : Ptr)
                  → has b ys ≡ false
                  → (b == new) ≡ false
                  → look w'.heap b ≡ look w.heap b))
          (sym split) (append_behind w new tag init l v real free) is room
