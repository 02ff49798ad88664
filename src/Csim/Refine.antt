-- ===== src/Csim/Refine.antt =====
-- `dCacheOperate` of cachelab/csim.c implements an access to a least-recently-used set.
use mathlib.Core.List.{map-append}
use mathlib.Core.Path.{subst}
use cs_app_labs.Prelude.{
  ℕ, suc, ◌+◌, ◌≡◌, ◌≢◌, ◌<◌, ◌⊎◌, refl, sym, ap, ◌∙◌, true, false, Option, none, some, [], ◌∷◌,
  ◌++◌, arith, ◌==◌, Bool-cases, inl, inr, length, length-map,
}
use cs_app_labs.Csim.Heap.{Ptr, null, Heap, look, put}
use cs_app_labs.Csim.Set.{Counters, Work, is_full, is_cached, load, search_loop, d_cache_operate}
use cs_app_labs.Csim.Links.{Cells, has, has-append}
use cs_app_labs.Csim.SetCells.{IsCacheSet, IsSearched, tags, tag_of, moved_cells, tags-moved_cells}
use cs_app_labs.Csim.Search.{search_loop-IsSearched}
use cs_app_labs.Csim.Lru.{access, tally, contains}
use cs_app_labs.Csim.Load.{IsFresh, evict-IsCacheSet, append_line-IsCacheSet, put_other}

-- The new list runs through old addresses and one that was free.
module _ (h : Heap) (new : Ptr) (tag : ℕ) where
  taken_room :
      (xs : Cells)
      → look h new ≡ none
      → (b : Ptr) → has b (xs ++ (new, tag) ∷ []) ≡ true
      → (has b xs ≡ true) ⊎ (look h b ≡ none)
  taken_room xs free b here = elim (Bool-cases (b == new)) [
    | inl e ↦ let same : b ≡ new = ground arith in inr (ap (λ (p : Ptr). look h p) same ∙ free)
    | inr ne ↦ inl (ground (arith, has-append b xs ((new, tag) ∷ [])))
  ]

same_room :
    (h g : Heap) (new : Ptr) (xs : Cells)
    → look h new ≡ none
    → ((b : Ptr) → has b xs ≡ false → (b == new) ≡ false → look g b ≡ look h b)
    → (b : Ptr) → has b xs ≡ false
    → look h b ≢ none
    → look g b ≡ look h b
same_room h g new xs free same b out real = elim (Bool-cases (b == new)) [
  | inl e ↦
      let equal : b ≡ new = ground arith in absurd (real (ap (λ (p : Ptr). look h p) equal ∙ free))
  | inr ne ↦ same b out ne
]

taken_full :
    (h g : Heap) (a new : Ptr) (t tag : ℕ) (rest : Cells)
    → g ≡ put h a none
    → look g new ≡ none
    → (b : Ptr) → has b (rest ++ (new, tag) ∷ []) ≡ true
    → (has b ((a, t) ∷ rest) ≡ true) ⊎ (look h b ≡ none)
taken_full h g a new t tag rest freed free b here = elim (Bool-cases (b == a)) [
  | inl e ↦ inl (rw e)
  | inr ne ↦ elim (taken_room g new tag rest free b here) [
    | inl old ↦ inl (rw (ne, old))
    | inr empty ↦
        inr (sym (put_other h a b none ne) ∙ ap (λ (k : Heap). look k b) (sym freed) ∙ empty)
  ]
]

same_full :
    (h g k : Heap) (a new : Ptr) (t : ℕ) (rest : Cells)
    → g ≡ put h a none
    → look g new ≡ none
    → ((b : Ptr) → has b rest ≡ false → (b == new) ≡ false → look k b ≡ look g b)
    → (b : Ptr) → has b ((a, t) ∷ rest) ≡ false
    → look h b ≢ none
    → look k b ≡ look h b
same_full h g k a new t rest freed free same b out real =
    let ne : (b == a) ≡ false = ground arith in
    let kept : look g b ≡ look h b = ap (λ (f : Heap). look f b) freed ∙ put_other h a b none ne in
    same_room g k new rest free same b (ground arith) (λ e. real (sym kept ∙ e)) ∙ kept

has-moved_cells :
    (b : Ptr) (tag : ℕ) (xs : Cells) → has b (moved_cells tag xs) ≡ true → has b xs ≡ true
has-moved_cells b tag [] here = here
has-moved_cells b tag ((p, t) ∷ xs) here =
    ground (arith, has-moved_cells b tag xs, has-append b xs ((p, t) ∷ []))

-- What `dCacheOperate` leaves of a set that stood for `xs`.
pub record IsOperated (w : Work) (xs : Cells) (tag : ℕ) (result : Option Work) : Type 0 where
  pub out : Work
  pub returns : result ≡ some out
  pub cells : Cells
  pub is : IsCacheSet out.heap out.set cells
  pub same_max : out.set.max_size ≡ w.set.max_size
  pub accessed : tags cells ≡ access w.set.max_size tag (tags xs)
  pub counted : out.count ≡ tally w.set.max_size tag (tags xs) w.count
  pub taken : (b : Ptr) → has b cells ≡ true → (has b xs ≡ true) ⊎ (look w.heap b ≡ none)
  pub same : (b : Ptr) → has b xs ≡ false → look w.heap b ≢ none → look out.heap b ≡ look w.heap b

taken_before :
    (h g : Heap) (xs ys : Cells)
    → ((b : Ptr) → has b xs ≡ false → look g b ≡ look h b)
    → ((b : Ptr) → has b ys ≡ true → (has b xs ≡ true) ⊎ (look g b ≡ none))
    → (b : Ptr) → has b ys ≡ true
    → (has b xs ≡ true) ⊎ (look h b ≡ none)
taken_before h g xs ys same taken b here = elim (Bool-cases (has b xs)) [
  | inl old ↦ inl old
  | inr out ↦ elim (taken b here) [ inl old ↦ inl old | inr empty ↦ inr (sym (same b out) ∙ empty) ]
]

module _ (malloc : Heap → Ptr) (fresh : IsFresh malloc) where
  -- `load` after a miss in a full set: the line at the head goes.
  load-full :
      (w : Work) (a : Ptr) (t : ℕ) (rest : Cells) (tag : ℕ) (count : Counters)
      → IsCacheSet w.heap w.set ((a, t) ∷ rest)
      → (suc (length rest) == w.set.max_size) ≡ true
      → contains tag (tags ((a, t) ∷ rest)) ≡ false
      → w.count ≡ record count { misses = count.misses + 1 }
      → IsOperated (record w { count = count }) ((a, t) ∷ rest) tag (load malloc w tag)
  unfolding load is_full access tally
  load-full w a t rest tag count is full missing missed =
      let (w', evicts, is', max, counts, heap) = evict-IsCacheSet w a t rest is in
      let new = malloc w'.heap in
      let free : look w'.heap new ≡ none = fresh.free w'.heap in
      let (w2, appends, is2, max2, counts2, same) =
        append_line-IsCacheSet w' new tag rest is' (ground (arith, max, is.within, is'.within))
          (fresh.real w'.heap) free in
      let size : (w.set.current_size == w.set.max_size) ≡ true = ground (arith, is.size) in
      let lengths : length (tags ((a, t) ∷ rest)) ≡ suc (length rest) =
        length-map ((a, t) ∷ rest) tag_of in
      let room : (length (tags ((a, t) ∷ rest)) == w.set.max_size) ≡ true =
        ground (arith, lengths) in
      record {
        out = w2;
        returns = rw size (rw (evicts, appends) refl);
        cells = rest ++ (new, tag) ∷ [];
        is = is2;
        same_max = max2 ∙ max;
        accessed = rw (missing, room) (map-append tag_of rest ((new, tag) ∷ []));
        counted = rw (missing, room) (counts2 ∙ counts ∙ rw missed refl);
        taken = taken_full w.heap w'.heap a new t tag rest heap free;
        same = same_full w.heap w'.heap w2.heap a new t rest heap free same;
      }

  -- `load` after a miss with room in the set.
  load-room :
      (w : Work) (xs : Cells) (tag : ℕ) (count : Counters)
      → IsCacheSet w.heap w.set xs
      → (length xs == w.set.max_size) ≡ false
      → contains tag (tags xs) ≡ false
      → w.count ≡ record count { misses = count.misses + 1 }
      → IsOperated (record w { count = count }) xs tag (load malloc w tag)
  unfolding load is_full access tally
  load-room w xs tag count is room missing missed =
      let new = malloc w.heap in
      let free : look w.heap new ≡ none = fresh.free w.heap in
      let (w2, appends, is2, max2, counts2, same) =
        append_line-IsCacheSet w new tag xs is (ground (arith, is.within)) (fresh.real w.heap)
          free in
      let size : (w.set.current_size == w.set.max_size) ≡ false = ground (arith, is.size) in
      let lengths : length (tags xs) ≡ length xs = length-map xs tag_of in
      let not_full : (length (tags xs) == w.set.max_size) ≡ false = ground (arith, lengths) in
      record {
        out = w2;
        returns = rw size (rw appends refl);
        cells = xs ++ (new, tag) ∷ [];
        is = is2;
        same_max = max2;
        accessed = rw (missing, not_full) (map-append tag_of xs ((new, tag) ∷ []));
        counted = rw (missing, not_full) (counts2 ∙ missed);
        taken = taken_room w.heap new tag xs free;
        same = same_room w.heap w2.heap new xs free same;
      }

  load-IsOperated :
      (w : Work) (xs : Cells) (tag : ℕ) (count : Counters)
      → IsCacheSet w.heap w.set xs
      → 0 < w.set.max_size
      → contains tag (tags xs) ≡ false
      → w.count ≡ record count { misses = count.misses + 1 }
      → IsOperated (record w { count = count }) xs tag (load malloc w tag)
  load-IsOperated w [] tag count is ways missing missed =
      load-room w [] tag count is (ground arith) missing missed
  load-IsOperated w ((a, t) ∷ rest) tag count is ways missing missed =
      elim (Bool-cases (suc (length rest) == w.set.max_size)) [
        | inl full ↦ load-full w a t rest tag count is full missing missed
        | inr room ↦ load-room w ((a, t) ∷ rest) tag count is room missing missed
      ]

  hit-IsOperated :
      (w : Work) (xs : Cells) (tag : ℕ)
      → IsCacheSet w.heap w.set xs
      → contains tag (tags xs) ≡ true
      → IsSearched w.heap w.set xs tag
          (search_loop (w.set.current_size + 1) tag w.heap w.set null w.set.head)
      → IsOperated w xs tag (d_cache_operate malloc w tag)
  unfolding d_cache_operate is_cached access tally
  hit-IsOperated w xs tag is found searched = record {
    out = record {
      heap = searched.heap;
      set = searched.set;
      count = record w.count { hits = w.count.hits + 1 };
    };
    returns = rw searched.returns (rw found refl);
    cells = moved_cells tag xs;
    is = rw found at searched.is;
    same_max = searched.same_max;
    accessed = rw found (tags-moved_cells tag xs found);
    counted = rw found refl;
    taken = λ b here. inl (has-moved_cells b tag xs here);
    same = λ b out real. searched.same b out;
  }

  miss-IsOperated :
      (w : Work) (xs : Cells) (tag : ℕ)
      → IsCacheSet w.heap w.set xs
      → 0 < w.set.max_size
      → contains tag (tags xs) ≡ false
      → IsSearched w.heap w.set xs tag
          (search_loop (w.set.current_size + 1) tag w.heap w.set null w.set.head)
      → IsOperated w xs tag (d_cache_operate malloc w tag)
  unfolding d_cache_operate is_cached
  miss-IsOperated w xs tag is ways missing searched =
      let before : Work = record {
        heap = searched.heap;
        set = searched.set;
        count = record w.count { misses = w.count.misses + 1 };
      } in
      let still : IsCacheSet searched.heap searched.set xs = rw missing at searched.is in
      let op =
        load-IsOperated before xs tag w.count still
          (subst (λ (n : ℕ). 0 < n) (sym searched.same_max) ways) missing refl in
      record {
        out = op.out;
        returns = rw searched.returns (rw missing op.returns);
        cells = op.cells;
        is = op.is;
        same_max = op.same_max ∙ searched.same_max;
        accessed =
            subst (λ (n : ℕ). tags op.cells ≡ access n tag (tags xs)) searched.same_max op.accessed;
        counted =
            subst (λ (n : ℕ). op.out.count ≡ tally n tag (tags xs) w.count) searched.same_max
              op.counted;
        taken = taken_before w.heap searched.heap xs op.cells searched.same op.taken;
        same = λ b out real.
            let kept = searched.same b out in op.same b out (λ e. real (sym kept ∙ e)) ∙ kept;
      }

  -- On a valid set with room for at least one line, and a `malloc` that returns free addresses,
  -- `dCacheOperate` does not fault; the set is valid and stands for the tags, and the counters are
  -- the numbers, that an access to a least-recently-used set gives; lines of other sets are as
  -- before.
  pub d_cache_operate-IsOperated :
      (w : Work) (xs : Cells) (tag : ℕ)
      → IsCacheSet w.heap w.set xs
      → 0 < w.set.max_size
      → IsOperated w xs tag (d_cache_operate malloc w tag)
  d_cache_operate-IsOperated w xs tag is ways =
      let searched =
        search_loop-IsSearched w.heap w.set xs tag (w.set.current_size + 1) (omega (arith, is.size))
          is in
      elim (Bool-cases (contains tag (tags xs))) [
        | inl found ↦ hit-IsOperated w xs tag is found searched
        | inr missing ↦ miss-IsOperated w xs tag is ways missing searched
      ]
