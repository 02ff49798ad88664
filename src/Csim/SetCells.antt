-- ===== src/Csim/SetCells.antt =====
-- The list of cells that a set of cachelab/csim.c stands for, and what a search leaves of it.
use cs_app_labs.Prelude.{
  ℕ, ◌≡◌, ◌≤◌, refl, sym, ap, ◌∙◌, Bool, true, false, Option, some, List, [], ◌∷◌, ◌++◌, arith,
  ◌==◌, Bool-cases, inl, inr, if◌then◌else◌, length, map, length-append,
}
use mathlib.Core.List.{append_assoc, map-append}
use cs_app_labs.Csim.Heap.{Ptr, null, Heap, look}
use cs_app_labs.Csim.Set.{CacheSet}
use cs_app_labs.Csim.Links.{Cell, Cells, has, Distinct, first, last, last-snoc, Links, first-append}
use cs_app_labs.Csim.Move.{first-snoc}
use cs_app_labs.Csim.Lru.{contains, remove}

abbrev pub tag_of : Cell → ℕ
tag_of (p, t) = t

abbrev pub tags : Cells → List ℕ
tags xs = map tag_of xs

-- The cells after a search for `tag` that finds it: its cell is at the end.
abbrev pub moved_cells : ℕ → Cells → Cells
moved_cells tag [] = []
moved_cells tag ((p, t) ∷ xs) = if t == tag then xs ++ (p, t) ∷ [] else (p, t) ∷ moved_cells tag xs

-- A set of the source stands for a list of cells.
pub record IsCacheSet (h : Heap) (s : CacheSet) (xs : Cells) : Type 0 where
  pub links : Links h null xs
  pub distinct : Distinct xs
  pub head : s.head ≡ first xs null
  pub tail : s.tail ≡ last xs
  pub size : s.current_size ≡ length xs
  pub within : length xs ≤ s.max_size

-- What a search leaves.
pub record IsSearched (h : Heap) (s : CacheSet) (xs : Cells) (tag : ℕ)
    (result : Option (Bool × CacheSet × Heap)) : Type 0 where
  pub set : CacheSet
  pub heap : Heap
  pub returns : result ≡ some (contains tag (tags xs), set, heap)
  pub is : IsCacheSet heap set (if contains tag (tags xs) then moved_cells tag xs else xs)
  pub same_max : set.max_size ≡ s.max_size
  pub same : (b : Ptr) → has b xs ≡ false → look heap b ≡ look h b

pub tags-moved_cells :
    (tag : ℕ) (xs : Cells)
    → contains tag (tags xs) ≡ true
    → tags (moved_cells tag xs) ≡ remove tag (tags xs) ++ tag ∷ []
tags-moved_cells tag [] h = absurd (cc)
tags-moved_cells tag ((p, t) ∷ xs) h = elim (Bool-cases (t == tag)) [
  | inl e ↦
      let same : t ≡ tag = ground arith in
      rw e (map-append tag_of xs ((p, t) ∷ []) ∙ ap (λ (k : ℕ). tags xs ++ k ∷ []) same)
  | inr ne ↦ rw ne (ap (λ (ys : List ℕ). t ∷ ys) (tags-moved_cells tag xs (ground arith)))
]

pub length-moved_cells : (tag : ℕ) (xs : Cells) → length (moved_cells tag xs) ≡ length xs
length-moved_cells tag [] = refl
length-moved_cells tag ((p, t) ∷ xs) =
    ground (arith, length-moved_cells tag xs, length-append xs ((p, t) ∷ []))

-- A list that begins with the same cells and is as long stands behind the same set, but for its tail.
pub keep_set :
    (h g : Heap) (s : CacheSet) (front : Cells) (p : Ptr) (u : ℕ) (xs ys zs : Cells) (a : Ptr)
    (t : ℕ)
    → ys ≡ zs ++ (a, t) ∷ []
    → length ys ≡ length xs
    → IsCacheSet h s ((front ++ (p, u) ∷ []) ++ xs)
    → Links g null ((front ++ (p, u) ∷ []) ++ ys)
    → Distinct ((front ++ (p, u) ∷ []) ++ ys)
    → IsCacheSet g (record s { tail = a }) ((front ++ (p, u) ∷ []) ++ ys)
keep_set h g s front p u xs ys zs a t e same is links distinct =
    let before : Cells = front ++ (p, u) ∷ [] in
    let start =
      λ (ws : Cells). first-append before ws null ∙ first-snoc front p u (first ws null) null in
    let end : last (before ++ ys) ≡ a =
      rw (e, sym (append_assoc before zs ((a, t) ∷ []))) (last-snoc (before ++ zs) null a t) in
    record {
      links = links;
      distinct = distinct;
      head = is.head ∙ start xs ∙ sym (start ys);
      tail = sym end;
      size = omega (arith, is.size, length-append before xs, length-append before ys);
      within = omega (arith, is.within, length-append before xs, length-append before ys);
    }
