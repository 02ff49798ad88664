-- ===== src/Malloc/FreeListAdd.antt =====
-- What `add_to_free_list` of malloclab/src/mm.c does to the free list.
use mathlib.Core.Path.{subst}
use cs_app_labs.Prelude.{
  ℕ, ◌+◌, ◌<◌, ◌≡◌, refl, sym, ap, ◌∙◌, true, false, some, List, [], ◌∷◌, ◌==◌, if◌then◌else◌,
  arith, Bool-cases, inl, inr,
}
use cs_app_labs.Malloc.Words.{Heap, set_cell}
use cs_app_labs.Malloc.Blocks.{link_back, add_to_free_list}
use cs_app_labs.Malloc.Steps.{step, with_cells, IsInside, put-IsInside}
use cs_app_labs.Malloc.Links.{
  is_link, first, Spaced, Links, Links-frame, is_link-first, is_link-differ,
}
use cs_app_labs.Malloc.FreeList.{IsFreeList, if_apply}

link_back-IsInside :
    (h : Heap) (x : ℕ)
    → (0 < h.free_list_head → IsInside h h.free_list_head)
    → link_back h x
      ≡ some (record h {
        cell = (if h.free_list_head == 0 then h.cell else set_cell h.cell h.free_list_head x);
      })
unfolding link_back
link_back-IsInside h x inside = elim (Bool-cases (h.free_list_head == 0)) [
  | inl none_behind ↦ rw none_behind refl
  | inr some_behind ↦ rw some_behind (put-IsInside h h.free_list_head (inside (ground arith)) x)
]

head_link : (xs : List ℕ) (head : ℕ) → head ≡ first xs → 0 < head → is_link xs head ≡ true
head_link xs head e h = ap (is_link xs) e ∙ is_link-first xs (omega arith)

module _ (h : Heap) (x : ℕ) (xs : List ℕ) where
  abbrev added_cells : ℕ → ℕ
  added_cells =
      let m = set_cell (set_cell h.cell x 0) (x + 8) h.free_list_head in
      if h.free_list_head == 0 then m else set_cell m h.free_list_head x

  added_cells_at :
      (q : ℕ)
      → added_cells q ≡ (
          if h.free_list_head == 0
          then set_cell (set_cell h.cell x 0) (x + 8) h.free_list_head q
          else set_cell
              (set_cell (set_cell h.cell x 0) (x + 8) h.free_list_head)
              h.free_list_head
              x
              q)
  added_cells_at q = if_apply (h.free_list_head == 0) _ _ q

  added-Links :
      (ys : List ℕ)
      → h.free_list_head ≡ first ys
      → Links h.cell 0 ys
      → Spaced (x ∷ ys)
      → Links added_cells x ys
  added-Links [] e l spaced = tt
  added-Links (y ∷ ys) e (back, forth, some_place, l) (clear, clear', (own, own', spaced)) = (
    ground (arith, added_cells_at y),
    ground (arith, added_cells_at (y + 8)),
    some_place,
    Links-frame h.cell added_cells y ys
        (λ q h'. ground (
          arith,
          added_cells_at q,
          is_link-differ ys q y h' own,
          is_link-differ (y ∷ ys) q x (ground (arith, h')) clear,
          is_link-differ (y ∷ ys) q (x + 8) (ground (arith, h')) clear',
        ))
        l,
  )

  -- The free list with a block in front.
  pub add-IsFreeList :
      IsFreeList h xs
      → 0 < x
      → is_link xs x ≡ false
      → is_link xs (x + 8) ≡ false
      → IsInside h x
      → IsInside h (x + 8)
      → (c : ℕ → ℕ) × (add_to_free_list h x ≡ some (with_cells h c x))
        × IsFreeList (with_cells h c x) (x ∷ xs)
        × ((q : ℕ) → is_link (x ∷ xs) q ≡ false → c q ≡ h.cell q)
  unfolding add_to_free_list
  add-IsFreeList is some_place clear clear' inside inside' =
      let inside_link : (q : ℕ) → is_link (x ∷ xs) q ≡ true → IsInside h q = λ q l.
        elim (Bool-cases (q == x)) [
          | inl here ↦ let same : q ≡ x = ground arith in subst (IsInside h) (sym same) inside
          | inr ne ↦ elim (Bool-cases (q == x + 8)) [
            | inl here ↦
                let same : q ≡ x + 8 = ground arith in subst (IsInside h) (sym same) inside'
            | inr ne' ↦ is.inside q (ground arith)
          ]
        ] in
      let other = λ (q : ℕ) (out : is_link xs q ≡ false) (some_head : 0 < h.free_list_head).
        is_link-differ xs h.free_list_head q (head_link xs h.free_list_head is.head some_head)
          out in
      (
        added_cells,
        step _ (put-IsInside h x inside 0) (
            step _
              (put-IsInside (record h { cell = set_cell h.cell x 0 }) (x + 8) inside'
                h.free_list_head)
              (step _
                (link_back-IsInside
                  (record h { cell = set_cell (set_cell h.cell x 0) (x + 8) h.free_list_head }) x
                  (λ some_head.
                    is.inside h.free_list_head (head_link xs h.free_list_head is.head some_head)))
                refl)),
        record {
          head = refl;
          links = (
            ground (arith, added_cells_at x, other x clear),
            ground (arith, added_cells_at (x + 8), other (x + 8) clear', is.head),
            some_place,
            added-Links xs is.head is.links (clear, clear', is.spaced),
          );
          spaced = (clear, clear', is.spaced);
          inside = λ q l. inside_link q l;
        },
        λ q out. ground (arith, added_cells_at q, other q),
      )
