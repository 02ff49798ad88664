-- ===== src/Malloc/Links.antt =====
-- The free list of malloclab/src/mm.c as a doubly linked list.
use cs_app_labs.Prelude.{
  ℕ, ◌+◌, ◌<◌, ◌≡◌, refl, sym, ap, ◌∙◌, Bool, true, false, ◌||◌, List, [], ◌∷◌, ◌++◌, ◌==◌, arith,
  Bool-cases, inl, inr,
}

abbrev pub has : List ℕ → ℕ → Bool
has [] q = false
has (x ∷ xs) q = (q == x) || has xs q

-- The words that hold the links of a list of blocks.
abbrev pub is_link : List ℕ → ℕ → Bool
is_link [] q = false
is_link (x ∷ xs) q = (q == x) || ((q == x + 8) || is_link xs q)

abbrev pub first : List ℕ → ℕ
first [] = 0
first (x ∷ xs) = x

abbrev pub last_from : ℕ → List ℕ → ℕ
last_from prev [] = prev
last_from prev (x ∷ xs) = last_from x xs

-- The links of distinct blocks do not overlap.
abbrev pub Spaced : List ℕ → Type 0
Spaced [] = Unit
Spaced (x ∷ xs) = (is_link xs x ≡ false) × (is_link xs (x + 8) ≡ false) × Spaced xs

-- The links lead back and forth.
abbrev pub Links : (ℕ → ℕ) → (prev : ℕ) → List ℕ → Type 0
Links m prev [] = Unit
Links m prev (x ∷ xs) = (m x ≡ prev) × (m (x + 8) ≡ first xs) × (0 < x) × Links m x xs

pub Links-frame :
    (m n : ℕ → ℕ) (prev : ℕ) (xs : List ℕ)
    → ((q : ℕ) → is_link xs q ≡ true → n q ≡ m q)
    → Links m prev xs
    → Links n prev xs
Links-frame m n prev [] same l = tt
Links-frame m n prev (x ∷ xs) same (back, forth, some_place, l) = (
  same x (ground arith) ∙ back,
  same (x + 8) (ground arith) ∙ forth,
  some_place,
  Links-frame m n x xs (λ q h. same q (ground arith)) l,
)

pub is_link-append :
    (xs ys : List ℕ) (q : ℕ) → is_link (xs ++ ys) q ≡ (is_link xs q || is_link ys q)
is_link-append [] ys q = refl
is_link-append (x ∷ xs) ys q = ground (arith, is_link-append xs ys q)

pub has-append : (xs ys : List ℕ) (q : ℕ) → has (xs ++ ys) q ≡ (has xs q || has ys q)
has-append [] ys q = refl
has-append (x ∷ xs) ys q = ground (arith, has-append xs ys q)

pub is_link-first : (xs : List ℕ) → 0 < first xs → is_link xs (first xs) ≡ true
is_link-first [] h = absurd (omega arith)
is_link-first (x ∷ xs) h = ground arith

pub is_link-last_from :
    (prev x : ℕ) (xs : List ℕ) → is_link (x ∷ xs) (last_from prev (x ∷ xs) + 8) ≡ true
is_link-last_from prev x [] = ground arith
is_link-last_from prev x (y ∷ xs) = ground (arith, is_link-last_from x y xs)

pub is_link-differ :
    (xs : List ℕ) (q r : ℕ) → is_link xs q ≡ true → is_link xs r ≡ false → (q == r) ≡ false
is_link-differ xs q r h h' = elim (Bool-cases (q == r)) [
  | inl e ↦
      let same : q ≡ r = ground arith in
      let both : true ≡ false = sym h ∙ ap (is_link xs) same ∙ h' in absurd (cc)
  | inr ne ↦ ne
]

pub beside-first : (ys : List ℕ) (z : ℕ) → 0 < z → is_link ys z ≡ false → (z == first ys) ≡ false
beside-first [] z h clear = ground arith
beside-first (y ∷ ys) z h clear = ground arith

-- A word that is no link of a list is none of its parts.
pub is_link-left :
    (xs : List ℕ) (x : ℕ) (ys : List ℕ) (q : ℕ)
    → is_link (xs ++ x ∷ ys) q ≡ false
    → is_link xs q ≡ false
is_link-left xs x ys q h = ground (arith, is_link-append xs (x ∷ ys) q)

pub is_link-right :
    (xs : List ℕ) (x : ℕ) (ys : List ℕ) (q : ℕ)
    → is_link (xs ++ x ∷ ys) q ≡ false
    → is_link ys q ≡ false
is_link-right xs x ys q h = ground (arith, is_link-append xs (x ∷ ys) q)

beside-last_from :
    (prev w : ℕ) (xs : List ℕ) (q : ℕ)
    → is_link (w ∷ xs) q ≡ false
    → (q == last_from prev (w ∷ xs) + 8) ≡ false
beside-last_from prev w xs q h =
    let other =
      is_link-differ (w ∷ xs) (last_from prev (w ∷ xs) + 8) q (is_link-last_from prev w xs) h in
    ground arith

-- What `remove_from_free_list` writes: the link back of the next block, and the link to it in the
-- block before. Of the free list without a first part, `prev` is the block before.
module _ (m n : ℕ → ℕ) (x : ℕ) where
  pub Links-remove :
      (prev : ℕ) (xs ys : List ℕ)
      → Links m prev (xs ++ x ∷ ys)
      → Spaced (xs ++ x ∷ ys)
      → (0 < first ys → n (first ys) ≡ last_from prev xs)
      → (0 < first xs → n (last_from prev xs + 8) ≡ first ys)
      → ((q : ℕ)
          → is_link (xs ++ ys) q ≡ true
          → (q == first ys) ≡ false
          → (0 < first xs → (q == last_from prev xs + 8) ≡ false)
          → n q ≡ m q)
      → Links n prev (xs ++ ys)
  Links-remove prev [] [] l spaced back forth same = tt
  Links-remove prev [] (y ∷ ys) (_, _, _, (_, next, some_place, l)) (_, _, (clear, clear', _)) back
        forth same =
      (
        back some_place,
        same (y + 8) (ground arith) (ground arith) (λ h. absurd (omega arith)) ∙ next,
        some_place,
        Links-frame m n y ys
            (λ q h.
              same q (ground arith) (is_link-differ ys q y h clear) (λ h'. absurd (omega arith)))
            l,
      )
  Links-remove prev (z ∷ []) ys (before, _, some_place, l) (clear, clear', spaced) back forth same =
      (
        same z (ground arith) (beside-first ys z some_place (is_link-right [] x ys z clear))
              (λ h. ground arith)
            ∙ before,
        forth some_place,
        some_place,
        Links-remove z [] ys l spaced back (λ h. absurd (omega arith))
            (λ q h ne _.
              same q (ground (arith, h)) ne
                (λ _. is_link-differ ys q (z + 8) h (is_link-right [] x ys (z + 8) clear'))),
      )
  Links-remove prev (z ∷ w ∷ xs) ys (before, next, some_place, l) (clear, clear', spaced) back forth
        same =
      (
        same z (ground arith) (beside-first ys z some_place (is_link-right (w ∷ xs) x ys z clear))
              (λ _. beside-last_from z w xs z (is_link-left (w ∷ xs) x ys z clear))
            ∙ before,
        same (z + 8) (ground arith)
              (beside-first ys (z + 8) (omega arith) (is_link-right (w ∷ xs) x ys (z + 8) clear'))
              (λ _. beside-last_from z w xs (z + 8) (is_link-left (w ∷ xs) x ys (z + 8) clear'))
            ∙ next,
        some_place,
        Links-remove z (w ∷ xs) ys l spaced back (λ h. forth some_place)
            (λ q h ne far. same q (ground (arith, h)) ne (λ _. far l.2)),
      )
