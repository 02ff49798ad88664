-- ===== src/Malloc/Layout.antt =====
-- How the heap of malloclab/src/mm.c is divided into blocks: where their tags and links are.
use mathlib.Core.Path.{subst}
use mathlib.Core.Bool.{or_assoc}
use cs_app_labs.Prelude.{
  ℕ, ◌+◌, ◌-◌, ◌*◌, ◌%◌, ◌<◌, ◌≤◌, ◌≡◌, refl, sym, ap, Bool, true, false, ◌&&◌, ◌||◌, not, List, [],
  ◌∷◌, ◌++◌, ltb, leb, ◌==◌, arith, All,
}

-- A block: its size, whether its tag says that it is allocated, and whether it is in the free list.
pub record Block : Type 0 where
  pub size : ℕ
  pub used : Bool
  pub linked : Bool

abbrev pub block : ℕ → Bool → Bool → Block
block s u l = record { size = s; used = u; linked = l }

abbrev pub flag : Bool → ℕ
flag true = 1
flag false = 0

-- The word of a header.
abbrev pub tag : (size : ℕ) → (prev used : Bool) → ℕ
tag s prev used = s + 2 * flag prev + flag used

abbrev pub total : List Block → ℕ
total [] = 0
total (b ∷ bs) = b.size + total bs

-- Whether the last block is allocated.
abbrev pub last_used : Bool → List Block → Bool
last_used prev [] = prev
last_used prev (b ∷ bs) = last_used b.used bs

-- A block that is not allocated has its size in its last word.
abbrev pub IsFooted : Bool → (word size : ℕ) → Type 0
IsFooted true word size = Unit
IsFooted false word size = word ≡ size

-- What holds of one block at an address, behind one that is allocated or not.
pub record IsBlock (m : ℕ → ℕ) (p : ℕ) (prev : Bool) (b : Block) : Type 0 where
  pub header : m (p - 8) ≡ tag b.size prev b.used
  pub footer : IsFooted b.used (m (p + b.size - 16)) b.size
  pub aligned : b.size % 8 ≡ 0
  pub large : 32 ≤ b.size

-- Blocks one behind the other; and such up to the end of the heap, which looks like the header of
-- an allocated block of size 0.
abbrev pub Row : (ℕ → ℕ) → ℕ → Bool → List Block → Type 0
Row m p prev [] = Unit
Row m p prev (b ∷ bs) = IsBlock m p prev b × Row m (p + b.size) b.used bs

abbrev pub Rows : (ℕ → ℕ) → ℕ → Bool → List Block → Type 0
Rows m p prev [] = m (p - 8) ≡ tag 0 prev true
Rows m p prev (b ∷ bs) = IsBlock m p prev b × Rows m (p + b.size) b.used bs

-- The addresses of tags.
abbrev pub tag_of : ℕ → Block → ℕ → Bool
tag_of p b q = (q == p - 8) || (not b.used && (q == p + b.size - 16))

abbrev pub row_tag : ℕ → List Block → ℕ → Bool
row_tag p [] q = false
row_tag p (b ∷ bs) q = tag_of p b q || row_tag (p + b.size) bs q

abbrev pub rows_tag : ℕ → List Block → ℕ → Bool
rows_tag p [] q = q == p - 8
rows_tag p (b ∷ bs) q = tag_of p b q || rows_tag (p + b.size) bs q

-- The addresses of the blocks in the free list.
abbrev pub linked_at : ℕ → List Block → ℕ → Bool
linked_at p [] q = false
linked_at p (b ∷ bs) q = (b.linked && (q == p)) || linked_at (p + b.size) bs q

-- The words that belong to the user.
abbrev pub payload_at : ℕ → List Block → ℕ → Bool
payload_at p [] q = false
payload_at p (b ∷ bs) q =
    (b.used && (leb p q && ltb q (p + b.size - 8))) || payload_at (p + b.size) bs q

-- A list of blocks falls into its parts.
pub total-append : (xs ys : List Block) → total (xs ++ ys) ≡ total xs + total ys
total-append [] ys = omega arith
total-append (b ∷ xs) ys = omega (arith, total-append xs ys)

pub last_used-append :
    (prev : Bool) (xs ys : List Block)
    → last_used prev (xs ++ ys) ≡ last_used (last_used prev xs) ys
last_used-append prev [] ys = refl
last_used-append prev (b ∷ xs) ys = last_used-append b.used xs ys

pub linked_at-append :
    (p e : ℕ) (xs ys : List Block) (q : ℕ)
    → e ≡ p + total xs
    → linked_at p (xs ++ ys) q ≡ (linked_at p xs q || linked_at e ys q)
linked_at-append p e [] ys q at =
    let same : p ≡ e = omega arith in ap (λ (r : ℕ). linked_at r ys q) same
linked_at-append p e (b ∷ xs) ys q at =
    rw (linked_at-append (p + b.size) e xs ys q (omega arith))
      (sym (or_assoc (b.linked && (q == p)) (linked_at (p + b.size) xs q) (linked_at e ys q)))

module _ (m : ℕ → ℕ) where
  pub Rows-split :
      (p e : ℕ) (prev : Bool) (xs ys : List Block)
      → e ≡ p + total xs
      → Rows m p prev (xs ++ ys)
      → Row m p prev xs × Rows m e (last_used prev xs) ys
  Rows-split p e prev [] ys at r =
      let same : p ≡ e = omega arith in (tt, subst (λ (a : ℕ). Rows m a prev ys) same r)
  Rows-split p e prev (b ∷ xs) ys at (is, r) =
      let (row, rows) = Rows-split (p + b.size) e b.used xs ys (omega arith) r in ((is, row), rows)

  pub Rows-join :
      (p e : ℕ) (prev : Bool) (xs ys : List Block)
      → e ≡ p + total xs
      → Row m p prev xs
      → Rows m e (last_used prev xs) ys
      → Rows m p prev (xs ++ ys)
  Rows-join p e prev [] ys at row rows =
      let same : e ≡ p = omega arith in subst (λ (a : ℕ). Rows m a prev ys) same rows
  Rows-join p e prev (b ∷ xs) ys at (is, row) rows =
      (is, Rows-join (p + b.size) e b.used xs ys (omega arith) row rows)

-- Sizes that blocks can have.
abbrev pub IsLarge : List Block → Type 0
IsLarge bs = All (λ (b : Block). (b.size % 8 ≡ 0) × (32 ≤ b.size)) bs

pub Rows-IsLarge :
    (m : ℕ → ℕ) (p : ℕ) (prev : Bool) (bs : List Block) → Rows m p prev bs → IsLarge bs
Rows-IsLarge m p prev [] r = tt
Rows-IsLarge m p prev (b ∷ bs) (is, r) =
    ((is.aligned, is.large), Rows-IsLarge m (p + b.size) b.used bs r)

pub linked_at_bounds :
    (p : ℕ) (bs : List Block) (q : ℕ)
    → IsLarge bs
    → linked_at p bs q ≡ true
    → (p ≤ q) × (q + 32 ≤ p + total bs)
linked_at_bounds p [] q large h = absurd (cc)
linked_at_bounds p (b ∷ bs) q large h = ground (arith, linked_at_bounds (p + b.size) bs q large.1)

pub rows_tag_bounds :
    (p : ℕ) (bs : List Block) (q : ℕ)
    → IsLarge bs
    → 8 ≤ p
    → rows_tag p bs q ≡ true
    → (p ≤ q + 8) × (q + 8 ≤ p + total bs)
rows_tag_bounds p [] q large low h = ground arith
rows_tag_bounds p (b ∷ bs) q large low h = ground (arith, rows_tag_bounds (p + b.size) bs q large.1)

-- The two links of a block in the free list are no tags.
pub linked_at-rows_tag :
    (p : ℕ) (bs : List Block) (q : ℕ)
    → IsLarge bs
    → 8 ≤ p
    → linked_at p bs q ≡ true
    → (rows_tag p bs q ≡ false) × (rows_tag p bs (q + 8) ≡ false)
linked_at-rows_tag p [] q large low h = absurd (cc)
linked_at-rows_tag p (b ∷ bs) q large low h = ground (
  arith,
  linked_at-rows_tag (p + b.size) bs q large.1,
  linked_at_bounds (p + b.size) bs q large.1,
  rows_tag_bounds (p + b.size) bs q large.1,
  rows_tag_bounds (p + b.size) bs (q + 8) large.1,
)

-- Words of the user are no tags, and no links of blocks that are not allocated.
pub payload_at_bounds :
    (p : ℕ) (bs : List Block) (q : ℕ)
    → IsLarge bs
    → payload_at p bs q ≡ true
    → (p ≤ q) × (q + 8 < p + total bs)
payload_at_bounds p [] q large h = absurd (cc)
payload_at_bounds p (b ∷ bs) q large h = ground (arith, payload_at_bounds (p + b.size) bs q large.1)

pub payload_at-rows_tag :
    (p : ℕ) (bs : List Block) (q : ℕ)
    → IsLarge bs
    → 8 ≤ p
    → payload_at p bs q ≡ true
    → rows_tag p bs q ≡ false
payload_at-rows_tag p [] q large low h = absurd (cc)
payload_at-rows_tag p (b ∷ bs) q large low h = ground (
  arith,
  payload_at-rows_tag (p + b.size) bs q large.1,
  payload_at_bounds (p + b.size) bs q large.1,
  rows_tag_bounds (p + b.size) bs q large.1,
)

-- Only blocks that are not allocated are in the free list.
abbrev pub IsListed : List Block → Type 0
IsListed bs = All (λ (b : Block). (b.used && b.linked) ≡ false) bs

pub payload_at-linked_at :
    (p : ℕ) (bs : List Block) (q r : ℕ)
    → IsLarge bs
    → IsListed bs
    → payload_at p bs q ≡ true
    → q ≤ r + 8
    → r ≤ q
    → linked_at p bs r ≡ false
payload_at-linked_at p [] q r large listed h near far = refl
payload_at-linked_at p (b ∷ bs) q r large listed h near far = ground (
  arith,
  payload_at-linked_at (p + b.size) bs q r large.1 listed.1,
  payload_at_bounds (p + b.size) bs q large.1,
  linked_at_bounds (p + b.size) bs r large.1,
)

-- Two different blocks of the free list are more than a word apart.
pub linked_at-apart :
    (p : ℕ) (bs : List Block) (q r : ℕ)
    → IsLarge bs
    → linked_at p bs q ≡ true
    → linked_at p bs r ≡ true
    → q < r
    → q + 32 ≤ r
linked_at-apart p [] q r large h h' lt = absurd (cc)
linked_at-apart p (b ∷ bs) q r large h h' lt = ground (
  arith,
  linked_at-apart (p + b.size) bs q r large.1,
  linked_at_bounds (p + b.size) bs q large.1,
  linked_at_bounds (p + b.size) bs r large.1,
)

pub linked_at_aligned :
    (p : ℕ) (bs : List Block) (q : ℕ) → IsLarge bs → p % 8 ≡ 0 → linked_at p bs q ≡ true → q % 8 ≡ 0
linked_at_aligned p [] q large low h = absurd (cc)
linked_at_aligned p (b ∷ bs) q large low h =
    ground (arith, linked_at_aligned (p + b.size) bs q large.1)
