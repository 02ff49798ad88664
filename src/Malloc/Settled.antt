-- ===== src/Malloc/Settled.antt =====
-- Heaps of malloclab/src/mm.c between two calls: no two free blocks are neighbours.
use mathlib.Core.Path.{subst}
use cs_app_labs.Prelude.{
  ℕ, ◌≡◌, refl, ap, ◌∙◌, Bool, true, false, ◌||◌, not, List, [], ◌∷◌, ◌++◌, arith,
}
use cs_app_labs.Malloc.Layout.{Block, block, last_used}
use cs_app_labs.Malloc.Access.{head_used}

-- All free blocks, and no others, are in the free list, and each stands behind an allocated one.
abbrev pub Settled : Bool → List Block → Type 0
Settled prev [] = Unit
Settled prev (b ∷ bs) = (b.linked ≡ not b.used) × ((prev || b.used) ≡ true) × Settled b.used bs

pub Settled-split :
    (prev : Bool) (xs ys : List Block)
    → Settled prev (xs ++ ys)
    → Settled prev xs × Settled (last_used prev xs) ys
Settled-split prev [] ys s = (tt, s)
Settled-split prev (b ∷ xs) ys (l, u, s) =
    let (sx, sy) = Settled-split b.used xs ys s in ((l, u, sx), sy)

pub Settled-join :
    (prev : Bool) (xs ys : List Block)
    → Settled prev xs
    → Settled (last_used prev xs) ys
    → Settled prev (xs ++ ys)
Settled-join prev [] ys sx sy = sy
Settled-join prev (b ∷ xs) ys (l, u, sx) sy = (l, u, Settled-join b.used xs ys sx sy)

-- Whatever stands before them.
pub Settled-true : (prev : Bool) (bs : List Block) → Settled prev bs → Settled true bs
Settled-true prev [] s = tt
Settled-true prev (b ∷ bs) (l, u, s) = (l, refl, s)

pub Settled-false : (bs : List Block) → head_used bs ≡ true → Settled true bs → Settled false bs
Settled-false [] h s = tt
Settled-false (b ∷ bs) h (l, u, s) = (l, h, s)

pub head_used-Settled : (bs : List Block) → Settled false bs → head_used bs ≡ true
head_used-Settled [] s = refl
head_used-Settled (b ∷ bs) (l, u, s) = u

pub block_is : (b : Block) → b.used ≡ false → b.linked ≡ not b.used → b ≡ block b.size false true
block_is b free listed =
    ap (λ (u : Bool). block b.size u b.linked) free
    ∙ ap (λ (l : Bool). block b.size false l) (listed ∙ ap not free)

-- The free block before and behind.
free_last_of :
    (prev : Bool) (b : Block) (bs : List Block)
    → last_used b.used bs ≡ false
    → Settled prev (b ∷ bs)
    → (pre : List Block) × (s : ℕ) × (b ∷ bs ≡ pre ++ block s false true ∷ [])
      × (last_used prev pre ≡ true)
      × Settled prev pre
free_last_of prev b [] free (l, u, s) =
    ([], b.size, ap (λ z. z ∷ []) (block_is b free l), ground (arith, u, free), tt)
free_last_of prev b (b' ∷ bs) free (l, u, s) =
    let (pre, size, e, before, settled) = free_last_of b.used b' bs free s in
    (b ∷ pre, size, ap (λ zs. b ∷ zs) e, before, (l, u, settled))

pub free_last :
    (bs : List Block)
    → last_used true bs ≡ false
    → Settled true bs
    → (pre : List Block) × (s : ℕ) × (bs ≡ pre ++ block s false true ∷ [])
      × (last_used true pre ≡ true)
      × Settled true pre
free_last [] free s = absurd (cc free)
free_last (b ∷ bs) free s = free_last_of true b bs free s

pub free_first :
    (bs : List Block)
    → head_used bs ≡ false
    → Settled true bs
    → (s : ℕ) × (post : List Block) × (bs ≡ block s false true ∷ post) × Settled false post
free_first [] free s = absurd (cc free)
free_first (b ∷ bs) free (l, u, s) =
    (b.size, bs, ap (λ z. z ∷ bs) (block_is b free l), subst (λ (u' : Bool). Settled u' bs) free s)
