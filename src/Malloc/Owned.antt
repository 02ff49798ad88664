-- ===== src/Malloc/Owned.antt =====
-- Where the blocks of the user of malloclab/src/mm.c begin.
use cs_app_labs.Prelude.{
  ℕ, ◌+◌, ◌-◌, ◌%◌, ◌<◌, ◌≤◌, ◌≡◌, ◌⊎◌, ap, ◌∙◌, Bool, true, false, ◌&&◌, ◌||◌, not, List, [], ◌∷◌,
  ◌++◌, ltb, leb, ◌==◌, arith, Bool-cases, inl, inr,
}
use cs_app_labs.Malloc.Layout.{Block, block, total, IsLarge, payload_at, payload_at_bounds}
use cs_app_labs.Malloc.Parts.{payload_at-append}
use cs_app_labs.Malloc.Settled.{Settled}

-- The word is the user's, and the word before is not.
abbrev pub begins : ℕ → List Block → ℕ → Bool
begins p bs q = payload_at p bs q && not (payload_at p bs (q - 8))

used_is : (b : Block) → b.used ≡ true → b.linked ≡ not b.used → b ≡ block b.size true false
used_is b used listed =
    ap (λ (u : Bool). block b.size u b.linked) used
    ∙ ap (λ (l : Bool). block b.size true l) (listed ∙ ap not used)

pub begins-split :
    (p : ℕ) (prev : Bool) (bs : List Block) (q : ℕ)
    → IsLarge bs
    → Settled prev bs
    → p % 8 ≡ 0
    → q % 8 ≡ 0
    → begins p bs q ≡ true
    → (pre : List Block) × (s : ℕ) × (post : List Block) × (bs ≡ pre ++ block s true false ∷ post)
      × (q ≡ p + total pre)
begins-split p prev [] q large settled even even' h = absurd (cc)
begins-split p prev (b ∷ bs) q (size, large) (l, u, settled) even even' h =
    elim (Bool-cases (b.used && (q == p))) [
      | inl here ↦
          let used : b.used ≡ true = ground (arith, here) in
          ([], b.size, bs, ap (λ z. z ∷ bs) (used_is b used l), ground (arith, here))
      | inr ne ↦
          let later : begins (p + b.size) bs q ≡ true =
            ground (arith, ne, h, even, even', payload_at_bounds (p + b.size) bs q large) in
          let (pre, s, post, e, at) =
            begins-split (p + b.size) b.used bs q large settled (omega (arith, even, size.0)) even'
              later in
          (b ∷ pre, s, post, ap (λ zs. b ∷ zs) e, omega (arith, at))
    ]

-- The words of one block, apart from those of the others.
pub payload_at-used :
    (p e : ℕ) (pre : List Block) (s : ℕ) (post : List Block) (q : ℕ)
    → e ≡ p + total pre
    → payload_at p (pre ++ block s true false ∷ post) q
      ≡ ((leb e q && ltb q (e + s - 8)) || payload_at p (pre ++ block s false false ∷ post) q)
payload_at-used p e pre s post q at = ground (
  arith,
  payload_at-append p e pre (block s true false ∷ post) q at,
  payload_at-append p e pre (block s false false ∷ post) q at,
)

pub payload_at-apart :
    (p e : ℕ) (pre : List Block) (s : ℕ) (post : List Block) (q : ℕ)
    → IsLarge pre
    → IsLarge post
    → e ≡ p + total pre
    → payload_at p (pre ++ block s false false ∷ post) q ≡ true
    → (q + 8 < e) ⊎ (e + s ≤ q)
payload_at-apart p e pre s post q large large' at h = ground (
  arith,
  h,
  payload_at-append p e pre (block s false false ∷ post) q at,
  payload_at_bounds p pre q large,
  payload_at_bounds (e + s) post q large',
)
