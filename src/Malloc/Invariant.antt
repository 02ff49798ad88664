-- ===== src/Malloc/Invariant.antt =====
-- When a heap of malloclab/src/mm.c is divided into given blocks with a given free list.
use cs_app_labs.Prelude.{
  ℕ, ◌+◌, ◌-◌, ◌*◌, ◌%◌, ◌^◌, ◌<◌, ◌≤◌, ◌≡◌, ◌⊎◌, refl, sym, ap, ◌∙◌, Bool, true, false, ◌||◌, List,
  [], ◌∷◌, ◌++◌, ◌==◌, arith, Bool-cases, inl, inr,
}
use cs_app_labs.Malloc.Words.{Heap}
use cs_app_labs.Malloc.Layout.{
  Block, flag, total, last_used, total-append, Row, Rows, rows_tag, row_tag, linked_at, payload_at,
  IsLarge, IsListed, Rows-IsLarge, linked_at-append, linked_at_bounds, linked_at-rows_tag,
  payload_at-linked_at,
}
use cs_app_labs.Malloc.Links.{has, is_link, Links-frame}
use cs_app_labs.Malloc.FreeList.{IsFreeList}
use cs_app_labs.Malloc.Parts.{is_link-has, rows_tag-parts, Rows-replace}

-- The blocks lie from behind the prologue to the end of the heap, and the free list has the
-- addresses of those that are linked.
pub record IsHeap (h : Heap) (bs : List Block) (fs : List ℕ) : Type 0 where
  pub some_place : 0 < h.start
  pub aligned : h.start % 8 ≡ 0
  pub ends : h.start + 24 + total bs ≡ h.brk
  pub small : h.brk < 2 ^ 63
  pub begun : 0 < h.heap_listp
  pub rows : Rows h.cell (h.start + 24) true bs
  pub free : IsFreeList h fs
  pub matching : (q : ℕ) → has fs q ≡ linked_at (h.start + 24) bs q
  pub listed : IsListed bs

pub total_aligned : (bs : List Block) → IsLarge bs → total bs % 8 ≡ 0
total_aligned [] large = refl
total_aligned (b ∷ bs) large = omega (arith, large.0.0, total_aligned bs large.1)

-- Links are no tags, and words of the user are neither.
pub link-rows_tag :
    (p : ℕ) (bs : List Block) (fs : List ℕ) (q : ℕ)
    → IsLarge bs
    → 8 ≤ p
    → ((r : ℕ) → has fs r ≡ linked_at p bs r)
    → is_link fs q ≡ true
    → rows_tag p bs q ≡ false
link-rows_tag p bs fs q large low matching h = elim (is_link-has fs q h) [
  | inl here ↦ (linked_at-rows_tag p bs q large low (sym (matching q) ∙ here)).0
  | inr (le, behind) ↦
      let back : q - 8 + 8 ≡ q = omega arith in
      ap (rows_tag p bs) (sym back)
      ∙ (linked_at-rows_tag p bs (q - 8) large low (sym (matching (q - 8)) ∙ behind)).1
]

pub payload-is_link :
    (p : ℕ) (bs : List Block) (fs : List ℕ) (q : ℕ)
    → IsLarge bs
    → IsListed bs
    → ((r : ℕ) → has fs r ≡ linked_at p bs r)
    → payload_at p bs q ≡ true
    → is_link fs q ≡ false
payload-is_link p bs fs q large listed matching h = elim (Bool-cases (is_link fs q)) [
  | inl l ↦ elim (is_link-has fs q l) [
    | inl here ↦ absurd (
        cc (
          payload_at-linked_at p bs q q large listed h (omega arith) (omega arith),
          matching q,
          here,
        ))
    | inr (le, behind) ↦ absurd (
        cc (
          payload_at-linked_at p bs q (q - 8) large listed h (omega arith) (omega arith),
          matching (q - 8),
          behind,
        ))
  ]
  | inr clear ↦ clear
]

-- A block that is not in the free list has no links in it.
pub linked_at_gap :
    (p e : ℕ) (pre : List Block) (b : Block) (post : List Block) (q : ℕ)
    → IsLarge pre
    → IsLarge post
    → e ≡ p + total pre
    → b.linked ≡ false
    → linked_at p (pre ++ b ∷ post) q ≡ true
    → (q + 32 ≤ e) ⊎ (e + b.size ≤ q)
linked_at_gap p e pre b post q large large' at clear h =
    let parts = linked_at-append p e pre (b ∷ post) q at in
    ground
      (arith, parts, linked_at_bounds p pre q large, linked_at_bounds (e + b.size) post q large')

pub is_link_gap :
    (p e : ℕ) (pre : List Block) (b : Block) (post : List Block) (fs : List ℕ) (q : ℕ)
    → IsLarge pre
    → IsLarge post
    → e ≡ p + total pre
    → b.linked ≡ false
    → ((r : ℕ) → has fs r ≡ linked_at p (pre ++ b ∷ post) r)
    → e ≤ q
    → q < e + b.size
    → is_link fs q ≡ false
is_link_gap p e pre b post fs q large large' at clear matching le lt =
    elim (Bool-cases (is_link fs q)) [
      | inl l ↦ elim (is_link-has fs q l) [
        | inl here ↦ absurd (
            ground (
              arith,
              linked_at_gap p e pre b post q large large' at clear (sym (matching q) ∙ here),
            ))
        | inr (_, behind) ↦ absurd (
            ground (
              arith,
              linked_at_gap p e pre b post (q - 8) large large' at clear
                  (sym (matching (q - 8)) ∙ behind),
            ))
      ]
      | inr out ↦ out
    ]

-- Tags are written so that some blocks become others.
pub retag-IsHeap :
    (h : Heap) (c : ℕ → ℕ) (e e' : ℕ) (pre mid mid' post : List Block) (fs : List ℕ)
    → IsHeap h (pre ++ (mid ++ post)) fs
    → e ≡ h.start + 24 + total pre
    → e' ≡ e + total mid
    → total mid' ≡ total mid
    → Row c e (last_used true pre) mid'
    → c (e' - 8) + 2 * flag (last_used (last_used true pre) mid)
      ≡ h.cell (e' - 8) + 2 * flag (last_used (last_used true pre) mid')
    → ((q : ℕ) → linked_at e mid' q ≡ linked_at e mid q)
    → IsListed (pre ++ (mid' ++ post))
    → ((q : ℕ) → row_tag e mid' q ≡ false → (q == e' - 8) ≡ false → c q ≡ h.cell q)
    → IsHeap (record h { cell = c }) (pre ++ (mid' ++ post)) fs
retag-IsHeap h c e e' pre mid mid' post fs is at at' size row head same_links listed same =
    let p = h.start + 24 in
    let rows : Rows c p true (pre ++ (mid' ++ post)) =
      Rows-replace h.cell c p e e' true pre mid mid' post (omega arith) at at' size is.rows row head
        same in
    let matching : (q : ℕ) → has fs q ≡ linked_at p (pre ++ (mid' ++ post)) q = λ q.
      is.matching q
      ∙ linked_at-append p e pre (mid ++ post) q at
      ∙ ap (λ (b : Bool). linked_at p pre q || b)
          (linked_at-append e e' mid post q at'
            ∙ ap (λ (b : Bool). b || linked_at e' post q) (sym (same_links q))
            ∙ sym (linked_at-append e e' mid' post q (omega (arith, at', size))))
      ∙ sym (linked_at-append p e pre (mid' ++ post) q at) in
    let clear : (q : ℕ) → is_link fs q ≡ true → rows_tag p (pre ++ (mid' ++ post)) q ≡ false =
      λ q l.
        link-rows_tag p (pre ++ (mid' ++ post)) fs q
          (Rows-IsLarge c p true (pre ++ (mid' ++ post)) rows) (omega arith) matching l in
    let parts : (q : ℕ)
        → is_link fs q ≡ true
        → (row_tag e mid' q ≡ false) × ((q == e' - 8) ≡ false) =
      λ q l. rows_tag-parts p e e' pre mid' post q at (omega (arith, at', size)) (clear q l) in
    record {
      some_place = is.some_place;
      aligned = is.aligned;
      ends = omega (
        arith,
        is.ends,
        total-append pre (mid ++ post),
        total-append mid post,
        total-append pre (mid' ++ post),
        total-append mid' post,
      );
      small = is.small;
      begun = is.begun;
      rows = rows;
      free = record {
        head = is.free.head;
        links = Links-frame h.cell c 0 fs (λ q l. same q (parts q l).0 (parts q l).1) is.free.links;
        spaced = is.free.spaced;
        inside = is.free.inside;
      };
      matching = matching;
      listed = listed;
    }
