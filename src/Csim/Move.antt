-- ===== src/Csim/Move.antt =====
-- `move_to_end`, the pointer surgery of a hit in `isCached` of cachelab/csim.c: the line that was
-- found is unlinked and linked behind the last one.
use cs_app_labs.Prelude.{
  ℕ, ◌≡◌, ◌≢◌, refl, sym, ◌∙◌, true, false, some, [], ◌∷◌, ◌++◌, arith, ◌==◌, Bool-cases, inl, inr,
}
use cs_app_labs.Csim.Heap.{Ptr, null, line, Heap, look, put, set_next}
use cs_app_labs.Csim.Set.{CacheSet, move_to_end}
use cs_app_labs.Csim.Links.{
  Cells, has, Distinct, first, Links, has-append, first-append, Distinct-append,
  Distinct-append-left, Distinct-append-right, Distinct-apart, Links-put, Links-append, Links-left,
  Links-right, Links-redirect, set_next-holds,
}

pub has-snoc : (xs : Cells) (p : Ptr) (t : ℕ) → has p (xs ++ (p, t) ∷ []) ≡ true
has-snoc xs p t = ground (arith, has-append p xs ((p, t) ∷ []))

-- A list that ends in a cell starts at the same place whatever follows it.
pub first-snoc :
    (xs : Cells) (p : Ptr) (t : ℕ) (stop other : Ptr)
    → first (xs ++ (p, t) ∷ []) stop ≡ first (xs ++ (p, t) ∷ []) other
first-snoc xs p t stop other = first-append xs _ stop ∙ sym (first-append xs _ other)

Distinct-rotate :
    (a : Ptr) (t : ℕ) (xs : Cells) → has a xs ≡ false → Distinct xs → Distinct (xs ++ (a, t) ∷ [])
Distinct-rotate a t xs out d = Distinct-append xs ((a, t) ∷ []) d (refl, tt) (λ b i. ground arith)

-- The first cell `(a, t)` of a list goes behind the last cell `(l, v)` of the rest.
module _ (h : Heap) (a : Ptr) (t : ℕ) (q : Ptr) (init : Cells) (l : Ptr) (v : ℕ) (real : a ≢ null)
    (holds : look h a ≡ some (line t q)) (out : has a (init ++ (l, v) ∷ []) ≡ false)
    (distinct : Distinct (init ++ (l, v) ∷ [])) (links : Links h null (init ++ (l, v) ∷ [])) where
  abbrev rest : Cells
  rest = init ++ (l, v) ∷ []

  abbrev pub linked : Heap
  linked = put h l (some (line v a))

  abbrev pub rotated : Heap
  rotated = put linked a (some (line t null))

  other : (a == l) ≡ false
  other = ground (arith, has-append a init ((l, v) ∷ []))

  last_cell : Links h null ((l, v) ∷ [])
  last_cell = Links-right h null init ((l, v) ∷ []) links

  pub rotate-first : set_next h l a ≡ some linked
  rotate-first = set_next-holds h l null v last_cell.0 last_cell.1 a

  pub rotate-second : set_next linked a null ≡ some rotated
  rotate-second = set_next-holds linked a q t real (unfold put look in ground (arith, other)) null

  pub rotate-Links : Links rotated null (rest ++ (a, t) ∷ [])
  rotate-Links =
      Links-append rotated null rest ((a, t) ∷ [])
        (Links-put linked a (some (line t null)) a rest out
          (Links-redirect h null a init l v distinct links))
        (real, unfold put look in ground arith, tt)

  pub rotate-same : (b : Ptr) → has b rest ≡ false → (b == a) ≡ false → look rotated b ≡ look h b
  unfolding put look
  rotate-same b hb ne = ground (arith, has-append b init ((l, v) ∷ []))

-- At the head of the list.
pub move_to_end-head :
    (h : Heap) (s : CacheSet) (a : Ptr) (t : ℕ) (init : Cells) (l : Ptr) (v : ℕ)
    → s.tail ≡ l
    → Distinct ((a, t) ∷ init ++ (l, v) ∷ [])
    → Links h null ((a, t) ∷ (init ++ (l, v) ∷ []))
    → let rest = init ++ (l, v) ∷ [] in
      (g : Heap) × (move_to_end h s null a (line t (first rest null))
        ≡ some (record s { head = first rest null; tail = a }, g))
      × Links g null (rest ++ (a, t) ∷ [])
      × Distinct (rest ++ (a, t) ∷ [])
      × ((b : Ptr) → has b ((a, t) ∷ rest) ≡ false → look g b ≡ look h b)
unfolding move_to_end
move_to_end-head h s a t init l v tail d links =
    let q = first (init ++ (l, v) ∷ []) null in
    (
      rotated h a t q init l v links.0 links.1 d.0 d.1 links.2,
      rw
          (
            tail,
            rotate-first h a t q init l v links.0 links.1 d.0 d.1 links.2,
            rotate-second h a t q init l v links.0 links.1 d.0 d.1 links.2,
          )
          refl,
      rotate-Links h a t q init l v links.0 links.1 d.0 d.1 links.2,
      Distinct-rotate a t (init ++ (l, v) ∷ []) d.0 d.1,
      λ b out.
          rotate-same h a t q init l v links.0 links.1 d.0 d.1 links.2 b (ground arith)
            (ground arith),
    )

-- Behind the line `p`: the same, after `p` has been linked past the line that moves.
module _ (h : Heap) (front : Cells) (p : Ptr) (u : ℕ) (a : Ptr) (t : ℕ) (init : Cells) (l : Ptr)
    (v : ℕ) (distinct : Distinct ((front ++ (p, u) ∷ []) ++ (a, t) ∷ (init ++ (l, v) ∷ [])))
    (links : Links h null ((front ++ (p, u) ∷ []) ++ (a, t) ∷ (init ++ (l, v) ∷ []))) where
  abbrev before : Cells
  before = front ++ (p, u) ∷ []

  abbrev behind : Cells
  behind = init ++ (l, v) ∷ []

  abbrev past : Ptr
  past = first behind null

  abbrev unlinked : Heap
  unlinked = put h p (some (line u past))

  tail-Distinct : Distinct ((a, t) ∷ behind)
  tail-Distinct = Distinct-append-right before ((a, t) ∷ behind) distinct

  apart : (b : Ptr) → has b before ≡ true → has b ((a, t) ∷ behind) ≡ false
  apart b = Distinct-apart b before ((a, t) ∷ behind) distinct

  p-apart : has p ((a, t) ∷ behind) ≡ false
  p-apart = apart p (has-snoc front p u)

  not-before : (b : Ptr) → has b ((a, t) ∷ behind) ≡ true → has b before ≡ false
  not-before b i = elim (Bool-cases (has b before)) [
    | inl here ↦ absurd (let no_b = apart b here in cc)
    | inr out ↦ out
  ]

  before-Links : Links h a before
  before-Links = Links-left h null before ((a, t) ∷ behind) links

  p_cell : Links h a ((p, u) ∷ [])
  p_cell = Links-right h a front ((p, u) ∷ []) before-Links

  tail-Links : Links h null ((a, t) ∷ behind)
  tail-Links = Links-right h null before ((a, t) ∷ behind) links

  unlink : set_next h p past ≡ some unlinked
  unlink = set_next-holds h p a u p_cell.0 p_cell.1 past

  a_holds : look unlinked a ≡ some (line t past)
  a_holds = unfold put look in ground (arith, p-apart, tail-Links.1)

  behind-Links : Links unlinked null behind
  behind-Links =
      Links-put h p (some (line u past)) null behind (ground (arith, p-apart)) tail-Links.2

  abbrev moved : Heap
  moved =
      rotated unlinked a t past init l v tail-Links.0 a_holds tail-Distinct.0 tail-Distinct.1
        behind-Links

  moved-before : Links moved past before
  moved-before =
      Links-put
        (linked unlinked a t past init l v tail-Links.0 a_holds tail-Distinct.0 tail-Distinct.1
          behind-Links)
        a (some (line t null)) past before (not-before a (ground arith))
        (Links-put unlinked l (some (line v a)) past before
          (not-before l (ground (arith, has-snoc init l v)))
          (Links-redirect h a past front p u (Distinct-append-left before _ distinct) before-Links))

  moved-behind : Links moved null (behind ++ (a, t) ∷ [])
  moved-behind =
      rotate-Links unlinked a t past init l v tail-Links.0 a_holds tail-Distinct.0 tail-Distinct.1
        behind-Links

  start : first (behind ++ (a, t) ∷ []) null ≡ past
  start = first-append behind ((a, t) ∷ []) null ∙ first-snoc init l v a null

  pub move_to_end-behind :
      (s : CacheSet)
      → s.tail ≡ l
      → (g : Heap) × (move_to_end h s p a (line t past) ≡ some (record s { tail = a }, g))
        × Links g null (before ++ (behind ++ (a, t) ∷ []))
        × Distinct (before ++ (behind ++ (a, t) ∷ []))
        × ((b : Ptr) → has b (before ++ (a, t) ∷ behind) ≡ false → look g b ≡ look h b)
  unfolding move_to_end
  move_to_end-behind s tail = (
    moved,
    rw
        (
          is_real,
          unlink,
          tail,
          rotate-first unlinked a t past init l v tail-Links.0 a_holds tail-Distinct.0
              tail-Distinct.1 behind-Links,
          rotate-second unlinked a t past init l v tail-Links.0 a_holds tail-Distinct.0
              tail-Distinct.1 behind-Links,
        )
        refl,
    Links-append moved null before (behind ++ (a, t) ∷ []) (rw start moved-before) moved-behind,
    Distinct-append before (behind ++ (a, t) ∷ []) (Distinct-append-left before _ distinct)
        (Distinct-rotate a t behind tail-Distinct.0 tail-Distinct.1)
        (λ b i. ground (arith, apart b i, has-append b behind ((a, t) ∷ []))),
    λ b out.
        outside b (ground (arith, has-append b before ((a, t) ∷ behind)))
          (ground (arith, has-append b before ((a, t) ∷ behind))),
  )
    where
      is_real : (p == null) ≡ false
      is_real = ground (arith, p_cell.0)

      outside :
          (b : Ptr)
          → has b before ≡ false
          → has b ((a, t) ∷ behind) ≡ false
          → look moved b ≡ look h b
      outside b hb ha =
          rotate-same unlinked a t past init l v tail-Links.0 a_holds tail-Distinct.0
            tail-Distinct.1 behind-Links b (ground arith) (ground arith)
          ∙ unfold put look in ground (arith, has-append b front ((p, u) ∷ []))
