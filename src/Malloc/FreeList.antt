-- ===== src/Malloc/FreeList.antt =====
-- What `remove_from_free_list` of malloclab/src/mm.c do to the free list.
use cs_app_labs.Prelude.{
  ℕ, ◌+◌, ◌<◌, ◌≡◌, refl, Bool, true, false, some, List, [], ◌∷◌, ◌++◌, ◌==◌, if◌then◌else◌, arith,
  Bool-cases, inl, inr,
}
use cs_app_labs.Malloc.Words.{Heap, set_cell}
use cs_app_labs.Malloc.Blocks.{set_next, set_prev, remove_from_free_list}
use cs_app_labs.Malloc.Steps.{step, with_cells, IsInside, get-IsInside, put-IsInside}
use cs_app_labs.Malloc.Links.{
  is_link, first, last_from, Spaced, Links, Links-remove, is_link-append, is_link-first,
  is_link-last_from, is_link-differ, is_link-right, beside-first,
}

-- The free list of a heap: the blocks, in order.
pub record IsFreeList (h : Heap) (xs : List ℕ) : Type 0 where
  pub head : h.free_list_head ≡ first xs
  pub links : Links h.cell 0 xs
  pub spaced : Spaced xs
  pub inside : (q : ℕ) → is_link xs q ≡ true → IsInside h q

Links-at :
    (m : ℕ → ℕ) (prev : ℕ) (xs : List ℕ) (x : ℕ) (ys : List ℕ)
    → Links m prev (xs ++ x ∷ ys)
    → (m x ≡ last_from prev xs) × (m (x + 8) ≡ first ys) × (0 < x)
Links-at m prev [] x ys (back, forth, some_place, l) = (back, forth, some_place)
Links-at m prev (z ∷ xs) x ys (_, _, _, l) = Links-at m z xs x ys l

Spaced-remove : (xs : List ℕ) (x : ℕ) (ys : List ℕ) → Spaced (xs ++ x ∷ ys) → Spaced (xs ++ ys)
Spaced-remove [] x ys (_, _, spaced) = spaced
Spaced-remove (z ∷ xs) x ys (clear, clear', spaced) = (
  ground (arith, is_link-append xs (x ∷ ys) z, is_link-append xs ys z, clear),
  ground (arith, is_link-append xs (x ∷ ys) (z + 8), is_link-append xs ys (z + 8), clear'),
  Spaced-remove xs x ys spaced,
)

first-append : (xs : List ℕ) (x : ℕ) (ys : List ℕ) → first (xs ++ x ∷ ys) ≡ first (xs ++ x ∷ [])
first-append [] x ys = refl
first-append (z ∷ xs) x ys = refl

at_link : (xs : List ℕ) (x : ℕ) (ys : List ℕ) → is_link (xs ++ x ∷ ys) x ≡ true
at_link xs x ys = ground (arith, is_link-append xs (x ∷ ys) x)

behind_link : (xs : List ℕ) (x : ℕ) (ys : List ℕ) → is_link (xs ++ x ∷ ys) (x + 8) ≡ true
behind_link xs x ys = ground (arith, is_link-append xs (x ∷ ys) (x + 8))

-- The words that removing a block between two others, or none, leaves.
abbrev next_cells : (ℕ → ℕ) → (prev next : ℕ) → ℕ → ℕ
next_cells m prev next = if prev == 0 then m else set_cell m (prev + 8) next

abbrev removed_cells : (ℕ → ℕ) → (prev next : ℕ) → ℕ → ℕ
removed_cells m prev next =
    if next == 0 then next_cells m prev next else set_cell (next_cells m prev next) next prev

pub if_apply : (p : Bool) (m n : ℕ → ℕ) (q : ℕ) → (if p then m else n) q ≡ (if p then m q else n q)
if_apply true m n q = refl
if_apply false m n q = refl

next_cells_at :
    (m : ℕ → ℕ) (prev next q : ℕ)
    → next_cells m prev next q ≡ (if prev == 0 then m q else set_cell m (prev + 8) next q)
next_cells_at m prev next q = if_apply (prev == 0) m (set_cell m (prev + 8) next) q

removed_cells_at :
    (m : ℕ → ℕ) (prev next q : ℕ)
    → removed_cells m prev next q ≡ (
        if next == 0
        then next_cells m prev next q
        else set_cell (next_cells m prev next) next prev q)
removed_cells_at m prev next q =
    if_apply (next == 0) (next_cells m prev next) (set_cell (next_cells m prev next) next prev) q

removed_other :
    (m : ℕ → ℕ) (prev next q : ℕ)
    → (0 < next → (next == q) ≡ false)
    → (0 < prev → (prev + 8 == q) ≡ false)
    → removed_cells m prev next q ≡ m q
removed_other m prev next q h h' =
    ground (arith, removed_cells_at m prev next q, next_cells_at m prev next q)

set_next-IsInside :
    (h : Heap) (prev next : ℕ)
    → (0 < prev → IsInside h (prev + 8))
    → set_next h prev next
      ≡ some (
          with_cells h (next_cells h.cell prev next) (if prev == 0 then next else h.free_list_head))
unfolding set_next
set_next-IsInside h prev next inside = elim (Bool-cases (prev == 0)) [
  | inl none_before ↦ rw none_before refl
  | inr some_before ↦ rw some_before (put-IsInside h (prev + 8) (inside (ground arith)) next)
]

set_prev-IsInside :
    (h : Heap) (next prev : ℕ)
    → (0 < next → IsInside h next)
    → set_prev h next prev
      ≡ some (record h { cell = (if next == 0 then h.cell else set_cell h.cell next prev) })
unfolding set_prev
set_prev-IsInside h next prev inside = elim (Bool-cases (next == 0)) [
  | inl none_behind ↦ rw none_behind refl
  | inr some_behind ↦ rw some_behind (put-IsInside h next (inside (ground arith)) prev)
]

-- The block before another one is in the list, or there is none.
last_link :
    (m : ℕ → ℕ) (xs : List ℕ) (x : ℕ) (ys : List ℕ)
    → Links m 0 (xs ++ x ∷ ys)
    → 0 < last_from 0 xs
    → (is_link (xs ++ x ∷ ys) (last_from 0 xs + 8) ≡ true) × (0 < first xs)
last_link m [] x ys l h = absurd (omega arith)
last_link m (z ∷ xs) x ys (_, _, some_place, _) h = (
  ground (
    arith,
    is_link-append (z ∷ xs) (x ∷ ys) (last_from 0 (z ∷ xs) + 8),
    is_link-last_from 0 z xs,
  ),
  some_place,
)

first_last :
    (m : ℕ → ℕ) (prev : ℕ) (xs : List ℕ) (x : ℕ) (ys : List ℕ)
    → Links m prev (xs ++ x ∷ ys)
    → 0 < first xs
    → 0 < last_from prev xs
first_last m prev [] x ys l h = absurd (omega arith)
first_last m prev (z ∷ []) x ys l h = h
first_last m prev (z ∷ w ∷ xs) x ys (_, _, _, l) h = first_last m z (w ∷ xs) x ys l l.2

first_link :
    (xs : List ℕ) (x : ℕ) (ys : List ℕ) → 0 < first ys → is_link (xs ++ x ∷ ys) (first ys) ≡ true
first_link xs x ys h = ground (arith, is_link-append xs (x ∷ ys) (first ys), is_link-first ys h)

-- The links of the blocks before and behind are different words.
last_first :
    (m : ℕ → ℕ) (prev : ℕ) (xs : List ℕ) (x : ℕ) (ys : List ℕ)
    → Links m prev (xs ++ x ∷ ys)
    → Spaced (xs ++ x ∷ ys)
    → 0 < first xs
    → 0 < first ys
    → (last_from prev xs + 8 == first ys) ≡ false
last_first m prev [] x ys l spaced h h' = absurd (omega arith)
last_first m prev (z ∷ []) x ys l (_, clear, _) h h' =
    beside-first ys (z + 8) (omega arith) (is_link-right [] x ys (z + 8) clear)
last_first m prev (z ∷ w ∷ xs) x ys (_, _, _, l) (_, _, spaced) h h' =
    last_first m z (w ∷ xs) x ys l spaced l.2 h'

head_removed :
    (m : ℕ → ℕ) (head : ℕ) (xs : List ℕ) (x : ℕ) (ys : List ℕ)
    → Links m 0 (xs ++ x ∷ ys)
    → head ≡ first (xs ++ x ∷ ys)
    → (if last_from 0 xs == 0 then first ys else head) ≡ first (xs ++ ys)
head_removed m head [] x ys l e = refl
head_removed m head (z ∷ xs) x ys l e =
    let some_last : (last_from 0 (z ∷ xs) == 0) ≡ false =
      ground (arith, first_last m 0 (z ∷ xs) x ys l l.2) in
    rw some_last e

module _ (h : Heap) (xs : List ℕ) (x : ℕ) (ys : List ℕ) where
  -- The free list without one of its blocks; only links have changed.
  pub remove-IsFreeList :
      IsFreeList h (xs ++ x ∷ ys)
      → (c : ℕ → ℕ) × (f : ℕ) × (remove_from_free_list h x ≡ some (with_cells h c f))
        × IsFreeList (with_cells h c f) (xs ++ ys)
        × ((q : ℕ) → is_link (xs ++ x ∷ ys) q ≡ false → c q ≡ h.cell q)
  unfolding remove_from_free_list
  remove-IsFreeList is =
      let (back, forth, some_place) = Links-at h.cell 0 xs x ys is.links in
      let prev = last_from 0 xs in
      let next = first ys in
      let c = removed_cells h.cell prev next in
      let f = if prev == 0 then next else h.free_list_head in
      (
        c,
        f,
        step _ (get-IsInside h x (is.inside x (at_link xs x ys))) (
            step _ (get-IsInside h (x + 8) (is.inside (x + 8) (behind_link xs x ys))) (
              rw (back, forth)
                (step _
                  (set_next-IsInside h prev next (λ some_prev.
                    is.inside (prev + 8) (last_link h.cell xs x ys is.links some_prev).0))
                  (set_prev-IsInside (with_cells h (next_cells h.cell prev next) f) next prev
                    (λ some_next. is.inside next (first_link xs x ys some_next)))))),
        record {
          head = head_removed h.cell h.free_list_head xs x ys is.links is.head;
          links =
              Links-remove h.cell c x 0 xs ys is.links is.spaced
                (λ some_next. ground (arith, removed_cells_at h.cell prev next next))
                (λ some_first. ground (
                  arith,
                  removed_cells_at h.cell prev next (prev + 8),
                  next_cells_at h.cell prev next (prev + 8),
                  first_last h.cell 0 xs x ys is.links some_first,
                  last_first h.cell 0 xs x ys is.links is.spaced some_first,
                ))
                (λ q l ne far. ground (
                  arith,
                  removed_cells_at h.cell prev next q,
                  next_cells_at h.cell prev next q,
                  last_link h.cell xs x ys is.links,
                ));
          spaced = Spaced-remove xs x ys is.spaced;
          inside = λ q l.
              is.inside q (ground (arith, is_link-append xs (x ∷ ys) q, is_link-append xs ys q, l));
        },
        λ q clear.
            removed_other h.cell prev next q
              (λ some_next.
                is_link-differ (xs ++ x ∷ ys) next q (first_link xs x ys some_next) clear)
              (λ some_prev.
                is_link-differ (xs ++ x ∷ ys) (prev + 8) q
                  (last_link h.cell xs x ys is.links some_prev).0 clear),
      )
