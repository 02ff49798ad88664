-- ===== src/Malloc/Steps.antt =====
-- Single statements of malloclab/src/mm.c at addresses inside the heap.
use cs_app_labs.Prelude.{
  ◌>>=◌, ℕ, ◌+◌, ◌-◌, ◌*◌, ◌/◌, ◌%◌, ◌^◌, ◌<◌, ◌≤◌, ◌≡◌, refl, ap, ◌∙◌, Bool, true, false, Option,
  some, arith, bit_and, bit_or,
}
use cs_app_labs.Prelude.Bits.{
  bit_and-mask, bit_and_step, bit_or-fields, bit_and-complement, bit_or-add-bit_and,
}
use cs_app_labs.Malloc.Words.{
  Heap, set_cell, is_word, get, put, second_clear, size_field, alloc_field, prev_alloc_field,
  pack_hdr, get_size, get_alloc, get_prev_alloc, unset_prev_alloc, set_prev_alloc, ftrp, next_blkp,
  prev_blkp,
}
use cs_app_labs.Malloc.Layout.{flag, tag}

-- One step of a chain that succeeds.
pub step {ℓ κ} :
    {A : Type ℓ} {B : Type κ} {o : Option A} {a : A} (k : A → Option B) {r : Option B}
    → o ≡ some a
    → k a ≡ r
    → (o >>= k) ≡ r
step k e h = ap (λ o. o >>= k) e ∙ h

flag_le : (b : Bool) → flag b ≤ 1
flag_le true = omega arith
flag_le false = omega arith

-- The same heap with other words and another head of the free list.
abbrev pub with_cells : Heap → (ℕ → ℕ) → ℕ → Heap
with_cells h c f = record h { cell = c; free_list_head = f }

abbrev pub IsInside : Heap → ℕ → Type 0
IsInside h p = (h.start ≤ p) × (p + 8 ≤ h.brk) × (p % 8 ≡ 0)

module _ (h : Heap) (p : ℕ) (inside : IsInside h p) where
  pub get-IsInside : get h p ≡ some (h.cell p)
  unfolding get is_word
  get-IsInside = ground arith

  pub put-IsInside : (v : ℕ) → put h p v ≡ some (record h { cell = set_cell h.cell p v })
  unfolding put is_word
  put-IsInside v = ground arith

-- The fields of the word of a header.
second_bit : (v : ℕ) → bit_and v 2 ≡ 2 * (v / 2 % 2)
second_bit v = omega (arith, bit_and_step v 2, bit_and-mask 1 (v / 2))

pub size_field-tag :
    (s : ℕ) (prev used : Bool) → s % 8 ≡ 0 → s < 2 ^ 63 → size_field (tag s prev used) ≡ s
unfolding size_field
size_field-tag s prev used aligned small =
    let low : bit_and (tag s prev used) 7 ≡ tag s prev used % 2 ^ 3 =
      bit_and-mask 3 (tag s prev used) in
    let fits : flag prev ≤ 1 = flag_le prev in
    let fits' : flag used ≤ 1 = flag_le used in
    let other = bit_and-complement 64 (tag s prev used) 7 (omega arith) (omega arith) in
    omega (arith, low, other)

pub alloc_field-tag :
    (s : ℕ) (prev used : Bool) → s % 8 ≡ 0 → alloc_field (tag s prev used) ≡ flag used
unfolding alloc_field
alloc_field-tag s prev used aligned = omega (arith, flag_le used, bit_and-mask 1 (tag s prev used))

pub prev_alloc_field-tag :
    (s : ℕ) (prev used : Bool) → s % 8 ≡ 0 → prev_alloc_field (tag s prev used) ≡ flag prev
unfolding prev_alloc_field
prev_alloc_field-tag s prev used aligned =
    omega (arith, flag_le prev, flag_le used, bit_and-mask 1 (tag s prev used / 2))

pub pack_hdr-tag :
    (s : ℕ) (prev used : Bool) → s % 8 ≡ 0 → pack_hdr s (flag prev) (flag used) ≡ tag s prev used
unfolding pack_hdr
pack_hdr-tag s prev used aligned =
    let whole : s ≡ s / 8 * 2 ^ 3 = omega arith in
    let inner : bit_or s (2 * flag prev) ≡ s + 2 * flag prev =
      ap (λ (t : ℕ). bit_or t (2 * flag prev)) whole
      ∙ bit_or-fields 3 (s / 8) (2 * flag prev) (omega (arith, flag_le prev))
      ∙ omega arith in
    let even : s + 2 * flag prev ≡ (s / 2 + flag prev) * 2 ^ 1 = omega arith in
    ap (λ (t : ℕ). bit_or t (flag used)) (inner ∙ even)
    ∙ bit_or-fields 1 (s / 2 + flag prev) (flag used) (omega (arith, flag_le used))
    ∙ omega arith

pub unset-tag :
    (s : ℕ) (prev used : Bool)
    → s % 8 ≡ 0
    → s < 2 ^ 63
    → bit_and (tag s prev used) second_clear ≡ tag s false used
unset-tag s prev used aligned small = omega (
  arith,
  flag_le prev,
  flag_le used,
  second_bit (tag s prev used),
  bit_and-complement 64 (tag s prev used) 2 (omega (arith, flag_le prev, flag_le used))
      (omega arith),
)

pub set-tag : (s : ℕ) (prev used : Bool) → s % 8 ≡ 0 → bit_or (tag s prev used) 2 ≡ tag s true used
set-tag s prev used aligned = omega (
  arith,
  flag_le prev,
  flag_le used,
  second_bit (tag s prev used),
  bit_or-add-bit_and (tag s prev used) 2,
)

-- The macros at a header.
module _ (h : Heap) (p s : ℕ) (prev used : Bool) (inside : IsInside h p)
    (is : h.cell p ≡ tag s prev used) (aligned : s % 8 ≡ 0) (small : s < 2 ^ 63) where
  pub get_size-tag : get_size h p ≡ some s
  unfolding get_size
  get_size-tag =
      step _ (get-IsInside h p inside) (
        ap (λ (v : ℕ). some (size_field v)) is ∙ ap some (size_field-tag s prev used aligned small))

  pub get_alloc-tag : get_alloc h p ≡ some (flag used)
  unfolding get_alloc
  get_alloc-tag =
      step _ (get-IsInside h p inside)
        (ap (λ (v : ℕ). some (alloc_field v)) is ∙ ap some (alloc_field-tag s prev used aligned))

  pub get_prev_alloc-tag : get_prev_alloc h p ≡ some (flag prev)
  unfolding get_prev_alloc
  get_prev_alloc-tag = step _ (get-IsInside h p inside) (
      ap (λ (v : ℕ). some (prev_alloc_field v)) is
      ∙ ap some (prev_alloc_field-tag s prev used aligned))

  pub unset_prev_alloc-tag :
      unset_prev_alloc h p ≡ some (record h { cell = set_cell h.cell p (tag s false used) })
  unfolding unset_prev_alloc
  unset_prev_alloc-tag = step _ (get-IsInside h p inside) (
      put-IsInside h p inside _
      ∙ ap (λ (v : ℕ). some (record h { cell = set_cell h.cell p v }))
          (ap (λ (v : ℕ). bit_and v second_clear) is ∙ unset-tag s prev used aligned small))

  pub set_prev_alloc-tag :
      set_prev_alloc h p ≡ some (record h { cell = set_cell h.cell p (tag s true used) })
  unfolding set_prev_alloc
  set_prev_alloc-tag = step _ (get-IsInside h p inside) (
      put-IsInside h p inside _
      ∙ ap (λ (v : ℕ). some (record h { cell = set_cell h.cell p v }))
          (ap (λ (v : ℕ). bit_or v 2) is ∙ set-tag s prev used aligned))

pub get_size_at :
    (h : Heap) (p s : ℕ)
    → IsInside h p
    → h.cell p ≡ s
    → s % 8 ≡ 0
    → s < 2 ^ 63
    → get_size h p ≡ some s
get_size_at h p s inside is aligned small =
    get_size-tag h p s false false inside (is ∙ omega arith) aligned small

-- The block behind one, its footer, and the block before by its footer.
pub next_blkp-tag :
    (h : Heap) (bp s : ℕ) (prev used : Bool)
    → IsInside h (bp - 8)
    → h.cell (bp - 8) ≡ tag s prev used
    → s % 8 ≡ 0
    → s < 2 ^ 63
    → next_blkp h bp ≡ some (bp + s)
unfolding next_blkp
next_blkp-tag h bp s prev used inside is aligned small =
    step _ (get_size-tag h (bp - 8) s prev used inside is aligned small) refl

pub ftrp-tag :
    (h : Heap) (bp s : ℕ) (prev used : Bool)
    → IsInside h (bp - 8)
    → h.cell (bp - 8) ≡ tag s prev used
    → s % 8 ≡ 0
    → s < 2 ^ 63
    → ftrp h bp ≡ some (bp + s - 16)
unfolding ftrp
ftrp-tag h bp s prev used inside is aligned small =
    step _ (get_size-tag h (bp - 8) s prev used inside is aligned small) refl

pub prev_blkp_at :
    (h : Heap) (bp s : ℕ)
    → IsInside h (bp - 16)
    → h.cell (bp - 16) ≡ s
    → s % 8 ≡ 0
    → s < 2 ^ 63
    → prev_blkp h bp ≡ some (bp - s)
unfolding prev_blkp
prev_blkp_at h bp s inside is aligned small =
    step _ (get_size_at h (bp - 16) s inside is aligned small) refl
