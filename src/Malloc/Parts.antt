-- ===== src/Malloc/Parts.antt =====
-- Parts of the row of blocks of the heap of malloclab/src/mm.c, and lists split at a block.
use cs_app_labs.Prelude.{
  ℕ, ◌+◌, ◌-◌, ◌*◌, ◌≤◌, ◌≡◌, ◌⊎◌, ap, Bool, true, false, ◌||◌, List, [], ◌∷◌, ◌++◌, ◌==◌, arith,
  Bool-cases, inl, inr, All,
}
use cs_app_labs.Malloc.Layout.{
  Block, flag, total, last_used, Row, Rows, row_tag, rows_tag, payload_at, IsLarge, Rows-IsLarge,
  Rows-split, Rows-join, rows_tag_bounds,
}
use cs_app_labs.Malloc.Frames.{Row-frame, Rows-retag}
use cs_app_labs.Malloc.Links.{has, is_link}

pub row_tag_bounds :
    (p : ℕ) (bs : List Block) (q : ℕ)
    → IsLarge bs
    → 8 ≤ p
    → row_tag p bs q ≡ true
    → (p ≤ q + 8) × (q + 16 ≤ p + total bs)
row_tag_bounds p [] q large low h = absurd (cc)
row_tag_bounds p (b ∷ bs) q large low h = ground (arith, row_tag_bounds (p + b.size) bs q large.1)

pub rows_tag-append :
    (p e : ℕ) (xs ys : List Block) (q : ℕ)
    → e ≡ p + total xs
    → rows_tag p (xs ++ ys) q ≡ (row_tag p xs q || rows_tag e ys q)
rows_tag-append p e [] ys q at =
    let same : p ≡ e = omega arith in ap (λ (r : ℕ). rows_tag r ys q) same
rows_tag-append p e (b ∷ xs) ys q at = ground (arith, rows_tag-append (p + b.size) e xs ys q)

rows_tag-first : (p : ℕ) (bs : List Block) (q : ℕ) → rows_tag p bs q ≡ false → (q == p - 8) ≡ false
rows_tag-first p [] q h = h
rows_tag-first p (b ∷ bs) q h = ground arith

-- A word that is no tag is no tag of some of the blocks, nor the header behind them.
pub rows_tag-parts :
    (p e e' : ℕ) (pre mid post : List Block) (q : ℕ)
    → e ≡ p + total pre
    → e' ≡ e + total mid
    → rows_tag p (pre ++ (mid ++ post)) q ≡ false
    → (row_tag e mid q ≡ false) × ((q == e' - 8) ≡ false)
rows_tag-parts p e e' pre mid post q at at' h =
    let outer = rows_tag-append p e pre (mid ++ post) q at in
    let inner = rows_tag-append e e' mid post q at' in
    (ground (arith, h, outer, inner), rows_tag-first e' post q (ground (arith, h, outer, inner)))

pub payload_at-append :
    (p e : ℕ) (xs ys : List Block) (q : ℕ)
    → e ≡ p + total xs
    → payload_at p (xs ++ ys) q ≡ (payload_at p xs q || payload_at e ys q)
payload_at-append p e [] ys q at =
    let same : p ≡ e = omega arith in ap (λ (r : ℕ). payload_at r ys q) same
payload_at-append p e (b ∷ xs) ys q at = ground (arith, payload_at-append (p + b.size) e xs ys q)

pub All-append {κ} :
    (P : Block → Type κ) (xs ys : List Block) → All P xs → All P ys → All P (xs ++ ys)
All-append P [] ys hx hy = hy
All-append P (b ∷ xs) ys (h, hx) hy = (h, All-append P xs ys hx hy)

pub All-split {κ} :
    (P : Block → Type κ) (xs ys : List Block) → All P (xs ++ ys) → All P xs × All P ys
All-split P [] ys h = (tt, h)
All-split P (b ∷ xs) ys (h, hs) = let (hx, hy) = All-split P xs ys hs in ((h, hx), hy)

pub Row-IsLarge : (m : ℕ → ℕ) (p : ℕ) (prev : Bool) (bs : List Block) → Row m p prev bs → IsLarge bs
Row-IsLarge m p prev [] r = tt
Row-IsLarge m p prev (b ∷ bs) (is, r) =
    ((is.aligned, is.large), Row-IsLarge m (p + b.size) b.used bs r)

-- Some blocks are replaced by others of the same total size. The words that change are tags of the
-- new ones, and the header behind them if another kind of block stands last.
pub Rows-replace :
    (m c : ℕ → ℕ) (p e e' : ℕ) (prev : Bool) (pre mid mid' post : List Block)
    → 8 ≤ p
    → e ≡ p + total pre
    → e' ≡ e + total mid
    → total mid' ≡ total mid
    → Rows m p prev (pre ++ (mid ++ post))
    → Row c e (last_used prev pre) mid'
    → c (e' - 8) + 2 * flag (last_used (last_used prev pre) mid)
      ≡ m (e' - 8) + 2 * flag (last_used (last_used prev pre) mid')
    → ((q : ℕ) → row_tag e mid' q ≡ false → (q == e' - 8) ≡ false → c q ≡ m q)
    → Rows c p prev (pre ++ (mid' ++ post))
Rows-replace m c p e e' prev pre mid mid' post low at at' size rows row head same =
    let (before, rest) = Rows-split m p e prev pre (mid ++ post) at rows in
    let (middle, behind) = Rows-split m e e' (last_used prev pre) mid post at' rest in
    let large : IsLarge pre = Row-IsLarge m p prev pre before in
    let large' : IsLarge mid' = Row-IsLarge c e (last_used prev pre) mid' row in
    let large'' : IsLarge post =
      Rows-IsLarge m e' (last_used (last_used prev pre) mid) post behind in
    Rows-join c p e prev pre (mid' ++ post) at
      (Row-frame m c p prev pre
        (λ q h.
          same q
            (ground (arith, row_tag_bounds p pre q large low h, row_tag_bounds e mid' q large'))
            (ground (arith, row_tag_bounds p pre q large low h)))
        before)
      (Rows-join c e e' (last_used prev pre) mid' post (omega arith) row (
        Rows-retag m c e' (last_used (last_used prev pre) mid) (last_used (last_used prev pre) mid')
          post (omega arith) large'' head
          (λ q h ne.
            same q
              (ground
                (arith, h, ne, rows_tag_bounds e' post q large'', row_tag_bounds e mid' q large'))
              ne)
          behind))

-- A list that has an element is split at it.
pub has-split :
    (xs : List ℕ) (x : ℕ)
    → has xs x ≡ true
    → (before : List ℕ) × (behind : List ℕ) × (xs ≡ before ++ x ∷ behind)
has-split [] x h = absurd (cc)
has-split (y ∷ xs) x h = elim (Bool-cases (x == y)) [
  | inl here ↦ let same : y ≡ x = ground arith in ([], xs, ap (λ (z : ℕ). z ∷ xs) same)
  | inr ne ↦
      let (before, behind, e) = has-split xs x (ground arith) in
      (y ∷ before, behind, ap (λ zs. y ∷ zs) e)
]

-- A link belongs to a block of the list.
pub is_link-has :
    (xs : List ℕ) (q : ℕ)
    → is_link xs q ≡ true
    → (has xs q ≡ true) ⊎ ((8 ≤ q) × (has xs (q - 8) ≡ true))
is_link-has [] q h = absurd (cc)
is_link-has (x ∷ xs) q h = ground (arith, is_link-has xs q)

pub has-is_link :
    (xs : List ℕ) (q : ℕ) → has xs q ≡ true → (is_link xs q ≡ true) × (is_link xs (q + 8) ≡ true)
has-is_link [] q h = absurd (cc)
has-is_link (x ∷ xs) q h = ground (arith, has-is_link xs q)
