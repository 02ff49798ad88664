-- ===== src/Csim/Rounds.antt =====
-- The rounds of the loop of `isCached` of cachelab/csim.c.
use cs_app_labs.Prelude.{
  ◌>>=◌, ℕ, suc, ◌≡◌, ◌≢◌, refl, sym, ◌∙◌, Bool, true, false, Option, some, [], ◌∷◌, ◌++◌, arith,
  ◌==◌, Bool-cases, inl, inr, if◌then◌else◌, length-append,
}
use mathlib.Core.List.{append_assoc}
use mathlib.Core.Path.{subst}
use cs_app_labs.Csim.Heap.{Ptr, null, line, Heap, look}
use cs_app_labs.Csim.Set.{CacheSet, move_to_end, search_loop}
use cs_app_labs.Csim.Links.{Cells, has, first, last-snoc, Links, Links-right, Snoc, snoc, Snoc-view}
use cs_app_labs.Csim.Move.{move_to_end-behind}
use cs_app_labs.Csim.Lru.{contains}
use cs_app_labs.Csim.SetCells.{tags, moved_cells, IsCacheSet, keep_set}

-- What the loop leaves when `before` lies behind it and `xs` ahead.
pub record IsAhead (h : Heap) (s : CacheSet) (before xs : Cells) (tag : ℕ)
    (result : Option (Bool × CacheSet × Heap)) : Type 0 where
  pub set : CacheSet
  pub heap : Heap
  pub returns : result ≡ some (contains tag (tags xs), set, heap)
  pub is :
      IsCacheSet heap set (before ++ (if contains tag (tags xs) then moved_cells tag xs else xs))
  pub same_max : set.max_size ≡ s.max_size
  pub same : (b : Ptr) → has b (before ++ xs) ≡ false → look heap b ≡ look h b

-- One round of the loop at a line that holds `t` and leads to `q`.
module _ (h : Heap) (s : CacheSet) (tag fuel : ℕ) (prev a q : Ptr) (t : ℕ) (real : a ≢ null)
    (holds : look h a ≡ some (line t q)) where
  not_null : (a == null) ≡ false
  not_null = ground arith

  pub round-last :
      (t == tag) ≡ true → q ≡ null → search_loop (suc fuel) tag h s prev a ≡ some (true, s, h)
  unfolding search_loop
  round-last e last_one = let end : (q == null) ≡ true = ground arith in ground arith

  pub round-move :
      (t == tag) ≡ true
      → q ≢ null
      → search_loop (suc fuel) tag h s prev a
        ≡ (move_to_end h s prev a (line t q) >>= λ (s', h'). some (true, s', h'))
  unfolding search_loop
  round-move e more = let go_on : (q == null) ≡ false = ground arith in ground arith

  pub round-next :
      (t == tag) ≡ false → search_loop (suc fuel) tag h s prev a ≡ search_loop fuel tag h s a q
  unfolding search_loop
  round-next e = ground arith

pub first-real :
    (h : Heap) (init : Cells) (l : Ptr) (v : ℕ)
    → Links h null (init ++ (l, v) ∷ [])
    → first (init ++ (l, v) ∷ []) null ≢ null
first-real h [] l v links = links.0
first-real h ((q, u) ∷ init) l v links = links.0

-- A hit behind the line `p` that is not the last line.
hit_inside :
    (h : Heap) (s : CacheSet) (front : Cells) (p : Ptr) (u : ℕ) (tag fuel : ℕ) (a : Ptr) (t : ℕ)
    (init : Cells) (l : Ptr) (v : ℕ)
    → (t == tag) ≡ true
    → IsCacheSet h s ((front ++ (p, u) ∷ []) ++ (a, t) ∷ (init ++ (l, v) ∷ []))
    → IsAhead h s
        (front ++ (p, u) ∷ [])
        ((a, t) ∷ (init ++ (l, v) ∷ []))
        tag
        (search_loop (suc fuel) tag h s p a)
hit_inside h s front p u tag fuel a t init l v e is =
    let before : Cells = front ++ (p, u) ∷ [] in
    let behind : Cells = init ++ (l, v) ∷ [] in
    let cell = Links-right h null before ((a, t) ∷ behind) is.links in
    let end : s.tail ≡ l =
      is.tail
      ∙ rw (sym (append_assoc before ((a, t) ∷ init) ((l, v) ∷ [])))
          (last-snoc (before ++ (a, t) ∷ init) null l v) in
    let (g, moves, links, distinct, same) =
      move_to_end-behind h front p u a t init l v is.distinct is.links s end in
    record {
      set = record s { tail = a };
      heap = g;
      returns =
          round-move h s tag fuel p a (first behind null) t cell.0 cell.1 e
            (first-real h init l v cell.2)
          ∙ rw (moves, e) refl;
      is = rw e (
          keep_set h g s front p u ((a, t) ∷ behind) (behind ++ (a, t) ∷ []) behind a t refl
            (omega (arith, length-append behind ((a, t) ∷ []))) is links distinct);
      same_max = refl;
      same = same;
    }

pub hit_behind :
    (h : Heap) (s : CacheSet) (front : Cells) (p : Ptr) (u : ℕ) (tag fuel : ℕ) (a : Ptr) (t : ℕ)
    (rest : Cells)
    → (t == tag) ≡ true
    → IsCacheSet h s ((front ++ (p, u) ∷ []) ++ (a, t) ∷ rest)
    → IsAhead h s (front ++ (p, u) ∷ []) ((a, t) ∷ rest) tag (search_loop (suc fuel) tag h s p a)
hit_behind h s front p u tag fuel a t [] e is =
    let cell = Links-right h null (front ++ (p, u) ∷ []) ((a, t) ∷ []) is.links in
    record {
      set = s;
      heap = h;
      returns = round-last h s tag fuel p a null t cell.0 cell.1 e refl ∙ rw e refl;
      is = rw e is;
      same_max = refl;
      same = λ b out. refl;
    }
hit_behind h s front p u tag fuel a t ((b, w) ∷ more) e is = behind (Snoc-view b w more)
  where
    behind :
        Snoc ((b, w) ∷ more)
        → IsAhead h s
            (front ++ (p, u) ∷ [])
            ((a, t) ∷ (b, w) ∷ more)
            tag
            (search_loop (suc fuel) tag h s p a)
    behind (snoc init l v split) =
        subst
          (λ (ys : Cells).
            IsCacheSet h s ((front ++ (p, u) ∷ []) ++ (a, t) ∷ ys)
            → IsAhead h s (front ++ (p, u) ∷ []) ((a, t) ∷ ys) tag
                (search_loop (suc fuel) tag h s p a))
          (sym split) (hit_inside h s front p u tag fuel a t init l v e) is

pub miss_cells :
    (tag : ℕ) (a : Ptr) (t : ℕ) (rest : Cells)
    → (t == tag) ≡ false
    → (a, t) ∷ (if contains tag (tags rest) then moved_cells tag rest else rest) ≡ (
        if contains tag (tags ((a, t) ∷ rest))
        then moved_cells tag ((a, t) ∷ rest)
        else (a, t) ∷ rest)
miss_cells tag a t rest ne = elim (Bool-cases (contains tag (tags rest))) [
  | inl found ↦ rw (ne, found)
  | inr missing ↦ rw (ne, missing)
]

-- A line that does not match goes from the lines ahead to those behind.
pub IsAhead-next :
    (h : Heap) (s : CacheSet) (before : Cells) (a : Ptr) (t : ℕ) (rest : Cells) (tag : ℕ)
    {r r' : Option (Bool × CacheSet × Heap)}
    → (t == tag) ≡ false
    → r' ≡ r
    → IsAhead h s (before ++ (a, t) ∷ []) rest tag r
    → IsAhead h s before ((a, t) ∷ rest) tag r'
IsAhead-next h s before a t rest tag ne step ahead =
    let regroup = λ (ys : Cells). append_assoc before ((a, t) ∷ []) ys in
    record {
      set = ahead.set;
      heap = ahead.heap;
      returns = step ∙ ahead.returns ∙ rw ne refl;
      is =
          subst (λ (ys : Cells). IsCacheSet ahead.heap ahead.set (before ++ ys))
            (miss_cells tag a t rest ne)
            (subst (IsCacheSet ahead.heap ahead.set) (regroup _) ahead.is);
      same_max = ahead.same_max;
      same =
          λ b out. ahead.same b (subst (λ (ys : Cells). has b ys ≡ false) (sym (regroup rest)) out);
    }
