-- ===== src/Csim/Search.antt =====
-- `isCached` of cachelab/csim.c against a search of the tags: it finds exactly the tags that are
-- there, and moves the one it finds to the end.
use cs_app_labs.Prelude.{
  ℕ, zero, suc, ◌≡◌, ◌<◌, refl, sym, ap, ◌∙◌, true, [], ◌∷◌, ◌++◌, arith, ◌==◌, Bool-cases, inl,
  inr, length, length-append,
}
use mathlib.Core.List.{append_assoc}
use mathlib.Core.Path.{subst}
use cs_app_labs.Csim.Heap.{Ptr, null, Heap}
use cs_app_labs.Csim.Set.{CacheSet, search_loop}
use cs_app_labs.Csim.Links.{
  Cells, first, last-snoc, first-append, Links-right, Snoc, snoc, Snoc-view,
}
use cs_app_labs.Csim.Move.{move_to_end-head, first-snoc}
use cs_app_labs.Csim.SetCells.{IsCacheSet, IsSearched}
use cs_app_labs.Csim.Rounds.{
  IsAhead, round-last, round-move, round-next, first-real, hit_behind, miss_cells, IsAhead-next,
}

-- The loop behind the line `p`, with enough fuel for the lines ahead.
search_behind :
    (h : Heap) (s : CacheSet) (tag fuel : ℕ) (front : Cells) (p : Ptr) (u : ℕ) (xs : Cells)
    → length xs < fuel
    → IsCacheSet h s ((front ++ (p, u) ∷ []) ++ xs)
    → IsAhead h s (front ++ (p, u) ∷ []) xs tag (search_loop fuel tag h s p (first xs null))
search_behind h s tag zero front p u xs enough is = absurd (omega arith)
search_behind h s tag (suc fuel) front p u [] enough is = record {
  set = s;
  heap = h;
  returns = unfold search_loop in refl;
  is = is;
  same_max = refl;
  same = λ b out. refl;
}
search_behind h s tag (suc fuel) front p u ((a, t) ∷ rest) enough is =
    elim (Bool-cases (t == tag)) [
      | inl e ↦ hit_behind h s front p u tag fuel a t rest e is
      | inr ne ↦
          let before : Cells = front ++ (p, u) ∷ [] in
          let cell = Links-right h null before ((a, t) ∷ rest) is.links in
          let regroup = append_assoc before ((a, t) ∷ []) rest in
          IsAhead-next h s before a t rest tag ne
            (round-next h s tag fuel p a (first rest null) t cell.0 cell.1 ne)
            (search_behind h s tag fuel before a t rest (omega arith)
              (subst (IsCacheSet h s) (sym regroup) is))
    ]

-- A hit at the head.
hit_head_moves :
    (h : Heap) (s : CacheSet) (tag fuel : ℕ) (a : Ptr) (t : ℕ) (init : Cells) (l : Ptr) (v : ℕ)
    → (t == tag) ≡ true
    → IsCacheSet h s ((a, t) ∷ init ++ (l, v) ∷ [])
    → IsSearched h s ((a, t) ∷ init ++ (l, v) ∷ []) tag (search_loop (suc fuel) tag h s null a)
hit_head_moves h s tag fuel a t init l v e is =
    let rest : Cells = init ++ (l, v) ∷ [] in
    let end : s.tail ≡ l = is.tail ∙ last-snoc ((a, t) ∷ init) null l v in
    let (g, moves, links, distinct, same) =
      move_to_end-head h s a t init l v end is.distinct is.links in
    record {
      set = record s { head = first rest null; tail = a };
      heap = g;
      returns =
          round-move h s tag fuel null a (first rest null) t is.links.0 is.links.1 e
            (first-real h init l v is.links.2)
          ∙ rw (moves, e) refl;
      is = rw e (record {
        links = links;
        distinct = distinct;
        head = sym (first-append rest ((a, t) ∷ []) null ∙ first-snoc init l v a null);
        tail = sym (last-snoc rest null a t);
        size = omega (arith, is.size, length-append rest ((a, t) ∷ []));
        within = omega (arith, is.within, length-append rest ((a, t) ∷ []));
      });
      same_max = refl;
      same = same;
    }

hit_head :
    (h : Heap) (s : CacheSet) (tag fuel : ℕ) (a : Ptr) (t : ℕ) (rest : Cells)
    → (t == tag) ≡ true
    → IsCacheSet h s ((a, t) ∷ rest)
    → IsSearched h s ((a, t) ∷ rest) tag (search_loop (suc fuel) tag h s null a)
hit_head h s tag fuel a t [] e is = record {
  set = s;
  heap = h;
  returns = round-last h s tag fuel null a null t is.links.0 is.links.1 e refl ∙ rw e refl;
  is = rw e is;
  same_max = refl;
  same = λ b out. refl;
}
hit_head h s tag fuel a t ((b, w) ∷ more) e is = behind (Snoc-view b w more)
  where
    behind :
        Snoc ((b, w) ∷ more)
        → IsSearched h s ((a, t) ∷ (b, w) ∷ more) tag (search_loop (suc fuel) tag h s null a)
    behind (snoc init l v split) =
        subst
          (λ (ys : Cells).
            IsCacheSet h s ((a, t) ∷ ys)
            → IsSearched h s ((a, t) ∷ ys) tag (search_loop (suc fuel) tag h s null a))
          (sym split) (hit_head_moves h s tag fuel a t init l v e) is

-- On a valid set, from the head with more fuel than lines, the loop of `isCached` ends without a
-- fault, finds exactly the tags that are there, and leaves a valid set: as it was, or with the
-- line that it finds moved to the end; no other line changes.
pub search_loop-IsSearched :
    (h : Heap) (s : CacheSet) (xs : Cells) (tag fuel : ℕ)
    → length xs < fuel
    → IsCacheSet h s xs
    → IsSearched h s xs tag (search_loop fuel tag h s null s.head)
search_loop-IsSearched h s xs tag zero enough is = absurd (omega arith)
search_loop-IsSearched h s [] tag (suc fuel) enough is = record {
  set = s;
  heap = h;
  returns =
      ap (λ (q : Ptr). search_loop (suc fuel) tag h s null q) is.head ∙ unfold search_loop in refl;
  is = is;
  same_max = refl;
  same = λ b out. refl;
}
search_loop-IsSearched h s ((a, t) ∷ rest) tag (suc fuel) enough is =
    subst (λ (q : Ptr). IsSearched h s ((a, t) ∷ rest) tag (search_loop (suc fuel) tag h s null q))
      (sym is.head)
      (elim (Bool-cases (t == tag)) [
        | inl e ↦ hit_head h s tag fuel a t rest e is
        | inr ne ↦
            let ahead = search_behind h s tag fuel [] a t rest (omega arith) is in
            record {
              set = ahead.set;
              heap = ahead.heap;
              returns =
                  round-next h s tag fuel null a (first rest null) t is.links.0 is.links.1 ne
                  ∙ ahead.returns
                  ∙ rw ne refl;
              is = subst (IsCacheSet ahead.heap ahead.set) (miss_cells tag a t rest ne) ahead.is;
              same_max = ahead.same_max;
              same = ahead.same;
            }
      ])
