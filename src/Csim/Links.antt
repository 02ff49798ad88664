-- ===== src/Csim/Links.antt =====
-- Linked lists of lines on the heap of cachelab/csim.c: which addresses they run through, and
-- how writes to the heap change them.
use cs_app_labs.Prelude.{
  ℕ, ◌≡◌, ◌≢◌, inl, inr, refl, sym, ap, ◌∙◌, Bool, true, false, ◌||◌, Option, some, List, [], ◌∷◌,
  ◌++◌, arith, ◌==◌, Bool-cases,
}
use cs_app_labs.Csim.Heap.{Ptr, null, Line, line, Heap, look, put, load_line, set_next}

-- A line's address and tag.
abbrev pub Cell : Type 0
Cell = Ptr × ℕ

abbrev pub Cells : Type 0
Cells = List Cell

abbrev pub has : Ptr → Cells → Bool
has a [] = false
has a ((p, t) ∷ xs) = (a == p) || has a xs

abbrev pub Distinct : Cells → Type 0
Distinct [] = Unit {0}
Distinct ((p, t) ∷ xs) = (has p xs ≡ false) × Distinct xs

-- The first address of a list that ends at `stop`.
abbrev pub first : Cells → Ptr → Ptr
first [] stop = stop
first ((p, t) ∷ xs) stop = p

-- The last address, `NULL` if there is none.
abbrev pub last_from : Ptr → Cells → Ptr
last_from p [] = p
last_from p ((q, t) ∷ xs) = last_from q xs

abbrev pub last : Cells → Ptr
last xs = last_from null xs

-- The `next` pointers lead through the cells to `stop`.
abbrev pub Links : Heap → Ptr → Cells → Type 0
Links h stop [] = Unit {0}
Links h stop ((p, t) ∷ xs) =
    (p ≢ null) × (look h p ≡ some (line t (first xs stop))) × Links h stop xs

pub has-append : (a : Ptr) (xs ys : Cells) → has a (xs ++ ys) ≡ (has a xs || has a ys)
has-append a [] ys = refl
has-append a ((p, t) ∷ xs) ys = ground (arith, has-append a xs ys)

pub first-append : (xs ys : Cells) (stop : Ptr) → first (xs ++ ys) stop ≡ first xs (first ys stop)
first-append [] ys stop = refl
first-append ((p, t) ∷ xs) ys stop = refl

pub last-snoc : (xs : Cells) (start p : Ptr) (t : ℕ) → last_from start (xs ++ (p, t) ∷ []) ≡ p
last-snoc [] start p t = refl
last-snoc ((q, u) ∷ xs) start p t = last-snoc xs q p t

pub Distinct-append-left : (xs ys : Cells) → Distinct (xs ++ ys) → Distinct xs
Distinct-append-left [] ys d = tt
Distinct-append-left ((p, t) ∷ xs) ys d =
    (ground (arith, d.0, has-append p xs ys), Distinct-append-left xs ys d.1)

pub Distinct-append-right : (xs ys : Cells) → Distinct (xs ++ ys) → Distinct ys
Distinct-append-right [] ys d = d
Distinct-append-right ((p, t) ∷ xs) ys d = Distinct-append-right xs ys d.1

-- No address of the first part is in the second.
pub Distinct-apart :
    (a : Ptr) (xs ys : Cells) → Distinct (xs ++ ys) → has a xs ≡ true → has a ys ≡ false
Distinct-apart a [] ys d h = absurd (cc)
Distinct-apart a ((p, t) ∷ xs) ys d h = elim (Bool-cases (a == p)) [
  | inl e ↦ let same : a ≡ p = ground arith in ground (arith, d.0, has-append p xs ys)
  | inr ne ↦ Distinct-apart a xs ys d.1 (ground arith)
]

pub Distinct-append :
    (xs ys : Cells)
    → Distinct xs
    → Distinct ys
    → ((a : Ptr) → has a xs ≡ true → has a ys ≡ false)
    → Distinct (xs ++ ys)
Distinct-append [] ys dx dy apart = dy
Distinct-append ((p, t) ∷ xs) ys dx dy apart = (
  ground (arith, dx.0, has-append p xs ys, apart p),
  Distinct-append xs ys dx.1 dy (λ a h. apart a (ground arith)),
)

module _ (h : Heap) where
  pub Links-frame :
      (g : Heap) (stop : Ptr) (xs : Cells)
      → ((a : Ptr) → has a xs ≡ true → look g a ≡ look h a)
      → Links h stop xs
      → Links g stop xs
  Links-frame g stop [] same l = tt
  Links-frame g stop ((p, t) ∷ xs) same l =
      (l.0, same p (ground arith) ∙ l.1, Links-frame g stop xs (λ a i. same a (ground arith)) l.2)

  -- A write outside the cells.
  pub Links-put :
      (p : Ptr) (c : Option Line) (stop : Ptr) (xs : Cells)
      → has p xs ≡ false
      → Links h stop xs
      → Links (put h p c) stop xs
  unfolding put look
  Links-put p c stop xs out l = Links-frame (put h p c) stop xs (λ a i. ground arith) l

  pub Links-append :
      (stop : Ptr) (xs ys : Cells)
      → Links h (first ys stop) xs
      → Links h stop ys
      → Links h stop (xs ++ ys)
  Links-append stop [] ys lx ly = ly
  Links-append stop ((p, t) ∷ xs) ys lx ly =
      (lx.0, rw (first-append xs ys stop) lx.1, Links-append stop xs ys lx.2 ly)

  pub Links-left :
      (stop : Ptr) (xs ys : Cells) → Links h stop (xs ++ ys) → Links h (first ys stop) xs
  Links-left stop [] ys l = tt
  Links-left stop ((p, t) ∷ xs) ys l =
      (l.0, rw (sym (first-append xs ys stop)) l.1, Links-left stop xs ys l.2)

  pub Links-right : (stop : Ptr) (xs ys : Cells) → Links h stop (xs ++ ys) → Links h stop ys
  Links-right stop [] ys l = l
  Links-right stop ((p, t) ∷ xs) ys l = Links-right stop xs ys l.2

  -- Redirecting the last line.
  pub Links-redirect :
      (stop new : Ptr) (xs : Cells) (p : Ptr) (t : ℕ)
      → Distinct (xs ++ (p, t) ∷ [])
      → Links h stop (xs ++ (p, t) ∷ [])
      → Links (put h p (some (line t new))) new (xs ++ (p, t) ∷ [])
  unfolding put look
  Links-redirect stop new [] p t d l = (l.0, ground arith, tt)
  Links-redirect stop new ((q, u) ∷ xs) p t d l =
      let other : (q == p) ≡ false = ground (arith, d.0, has-append q xs ((p, t) ∷ [])) in
      (
        l.0,
        rw (other, first-append xs ((p, t) ∷ []) new)
            (l.1 ∙ ap (λ (a : Ptr). some (line u a)) (first-append xs ((p, t) ∷ []) stop)),
        Links-redirect stop new xs p t d.1 l.2,
      )

  -- What a line holds is read, and its pointer can be set.
  module _ (p q : Ptr) (t : ℕ) (real : p ≢ null) (holds : look h p ≡ some (line t q)) where
    pub load_line-holds : load_line h p ≡ some (line t q)
    unfolding load_line
    load_line-holds = ground arith

    pub set_next-holds : (r : Ptr) → set_next h p r ≡ some (put h p (some (line t r)))
    unfolding set_next
    set_next-holds r = rw load_line-holds

-- A list that is not empty has a last cell.
pub data Snoc : Cells → Type 0 where
  snoc : {xs : Cells} (init : Cells) (p : Ptr) (t : ℕ) → xs ≡ init ++ (p, t) ∷ [] → Snoc xs

pub Snoc-view : (p : Ptr) (t : ℕ) (xs : Cells) → Snoc ((p, t) ∷ xs)
Snoc-view p t [] = snoc [] p t refl
Snoc-view p t ((q, u) ∷ xs) = extend (Snoc-view q u xs)
  where
    extend : {ys : Cells} → Snoc ys → Snoc ((p, t) ∷ ys)
    extend (snoc init r v e) = snoc ((p, t) ∷ init) r v (ap (λ (zs : Cells). (p, t) ∷ zs) e)
