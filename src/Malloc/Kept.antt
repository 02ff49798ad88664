-- ===== src/Malloc/Kept.antt =====
-- The words of the user of malloclab/src/mm.c, and free blocks that become one.
use cs_app_labs.Prelude.{
  ℕ, ◌+◌, ◌-◌, ◌%◌, ◌≤◌, ◌≡◌, refl, sym, ap, ◌∙◌, Bool, true, false, List, [], ◌∷◌, ◌++◌, ◌==◌,
  if◌then◌else◌, arith, Bool-cases, inl, inr,
}
use cs_app_labs.Malloc.Words.{Heap}
use cs_app_labs.Malloc.Layout.{
  Block, block, flag, tag, total, last_used, Row, row_tag, linked_at, payload_at, IsListed,
  Rows-IsLarge, payload_at-rows_tag,
}
use cs_app_labs.Malloc.Parts.{payload_at-append, rows_tag-parts}
use cs_app_labs.Malloc.Invariant.{IsHeap, retag-IsHeap}

-- The words of the user's blocks are the same.
abbrev pub Keeps : (h : Heap) (c : ℕ → ℕ) → List Block → Type 0
Keeps h c bs = (q : ℕ) → payload_at (h.start + 24) bs q ≡ true → c q ≡ h.cell q

-- What the user sees of the words.
abbrev pub user_word : (p : ℕ) → List Block → (ℕ → ℕ) → ℕ → ℕ
user_word p bs m q = if payload_at p bs q then m q else 0

pub user_word-Keeps :
    (p : ℕ) (bs : List Block) (m n : ℕ → ℕ) (q : ℕ)
    → (payload_at p bs q ≡ true → n q ≡ m q)
    → user_word p bs n q ≡ user_word p bs m q
user_word-Keeps p bs m n q same = elim (Bool-cases (payload_at p bs q)) [
  | inl paid ↦ rw paid (same paid)
  | inr none_of ↦ rw none_of refl
]

pub payload-swap :
    (p e e' : ℕ) (pre mid mid' post : List Block) (q : ℕ)
    → e ≡ p + total pre
    → e' ≡ e + total mid
    → total mid' ≡ total mid
    → payload_at e mid' q ≡ payload_at e mid q
    → payload_at p (pre ++ (mid' ++ post)) q ≡ payload_at p (pre ++ (mid ++ post)) q
payload-swap p e e' pre mid mid' post q at at' size same = ground (
  arith,
  same,
  payload_at-append p e pre (mid ++ post) q at,
  payload_at-append p e pre (mid' ++ post) q at,
  payload_at-append e e' mid post q at',
  payload_at-append e e' mid' post q (omega (arith, at', size)),
)

pub IsListed-swap :
    (pre mid mid' post : List Block)
    → IsListed (pre ++ (mid ++ post))
    → IsListed mid'
    → IsListed (pre ++ (mid' ++ post))
IsListed-swap [] [] [] post listed listed' = listed
IsListed-swap [] [] (b ∷ mid') post listed (h, listed') =
    (h, IsListed-swap [] [] mid' post listed listed')
IsListed-swap [] (b ∷ mid) mid' post (_, listed) listed' =
    IsListed-swap [] mid mid' post listed listed'
IsListed-swap (b ∷ pre) mid mid' post (h, listed) listed' =
    (h, IsListed-swap pre mid mid' post listed listed')

-- Blocks that are neither allocated nor in the free list become one by its two tags.
pub merged-IsHeap :
    (h : Heap) (c : ℕ → ℕ) (e s : ℕ) (pre mid post : List Block) (gs : List ℕ)
    → IsHeap h (pre ++ (mid ++ post)) gs
    → e ≡ h.start + 24 + total pre
    → total mid ≡ s
    → s % 8 ≡ 0
    → 32 ≤ s
    → last_used true pre ≡ true
    → last_used true mid ≡ false
    → ((q : ℕ) → linked_at e mid q ≡ false)
    → ((q : ℕ) → payload_at e mid q ≡ false)
    → c (e - 8) ≡ tag s true false
    → c (e + s - 16) ≡ s
    → ((q : ℕ) → (q == e - 8) ≡ false → (q == e + s - 16) ≡ false → c q ≡ h.cell q)
    → IsHeap (record h { cell = c }) (pre ++ block s false false ∷ post) gs
      × Keeps h c (pre ++ block s false false ∷ post)
merged-IsHeap h c e s pre mid post gs is at size aligned wide before free clear unpaid head foot
      same =
    let mid' = block s false false ∷ [] in
    let p = h.start + 24 in
    let front : last_used (last_used true pre) mid ≡ false =
      ap (λ (u : Bool). last_used u mid) before ∙ free in
    let row : Row c e (last_used true pre) mid' = (
      record {
        header = head ∙ ap (λ (u : Bool). tag s u false) (sym before);
        footer = foot;
        aligned = aligned;
        large = wide;
      },
      tt,
    ) in
    let other : (q : ℕ) → row_tag e mid' q ≡ false → c q ≡ h.cell q =
      λ q t. same q (ground (arith, t)) (ground (arith, t)) in
    let is' : IsHeap (record h { cell = c }) (pre ++ (mid' ++ post)) gs =
      retag-IsHeap h c e (e + s) pre mid mid' post gs is at (omega (arith, size))
        (omega (arith, size)) row
        (omega (arith, same (e + s - 8) (ground arith) (ground arith), ap flag front))
        (λ q. sym (clear q)) (IsListed-swap pre mid mid' post is.listed (refl, tt))
        (λ q t ne. other q t) in
    (
      is',
      λ q paid.
          other q
            (rows_tag-parts p e (e + s) pre mid' post q at (omega arith) (
              payload_at-rows_tag p (pre ++ (mid' ++ post)) q
                (Rows-IsLarge c p true (pre ++ (mid' ++ post)) is'.rows) (omega arith) paid)).0,
    )
