-- ===== src/Malloc/Split.antt =====
-- `split_block` of `place` of malloclab/src/mm.c: the rest of a block stays free.
use cs_app_labs.Prelude.{
  ℕ, ◌+◌, ◌-◌, ◌%◌, ◌<◌, ◌≤◌, ◌≡◌, sym, ap, ◌∙◌, Bool, true, false, ◌||◌, List, [], ◌∷◌, ◌++◌, ◌==◌,
  arith,
}
use cs_app_labs.Malloc.Words.{Heap, set_cell}
use cs_app_labs.Malloc.Layout.{
  Block, block, tag, total, last_used, rows_tag, Row, Rows, linked_at, linked_at-append, payload_at,
}
use cs_app_labs.Malloc.Parts.{payload_at-append, rows_tag-append, Rows-replace}
use cs_app_labs.Malloc.Invariant.{IsHeap}
use cs_app_labs.Malloc.Access.{IsAt, tagged}

module _ (h : Heap) (e a s : ℕ) (pre post : List Block) (fs : List ℕ) where
  -- The words with the tags of both parts.
  abbrev pub first_cells : ℕ → ℕ
  first_cells = set_cell h.cell (e - 8) (tag a true true)

  abbrev pub parted : List Block
  parted = pre ++ block a true false ∷ (block (s - a) false false ∷ post)

  abbrev pub parted_cells : ℕ → ℕ
  parted_cells = tagged first_cells (e + a) (s - a)

  pub parted_other :
      (q : ℕ)
      → 24 < e
      → 32 ≤ a
      → a + 32 ≤ s
      → (q == e - 8) ≡ false
      → (q == e + a - 8) ≡ false
      → (q == e + s - 16) ≡ false
      → parted_cells q ≡ h.cell q
  parted_other q low wide wide' ne ne' ne'' = ground (arith, ne, ne', ne'')

  pub parted_at :
      24 < e
      → 32 ≤ a
      → a + 32 ≤ s
      → (parted_cells (e - 8) ≡ tag a true true)
        × (parted_cells (e + a - 8) ≡ tag (s - a) true false)
        × (parted_cells (e + s - 16) ≡ s - a)
        × (parted_cells (e + s - 8) ≡ h.cell (e + s - 8))
  parted_at low wide wide' = (ground arith, ground arith, ground arith, ground arith)

  pub parted-Rows :
      IsAt h e pre (block s false true) post
      → IsHeap h (pre ++ block s false true ∷ post) fs
      → last_used true pre ≡ true
      → a % 8 ≡ 0
      → 32 ≤ a
      → a + 32 ≤ s
      → Rows parted_cells (h.start + 24) true parted
  parted-Rows here is before aligned wide wide' =
      let (header, header', foot, top) = parted_at here.low wide wide' in
      let end : e + a + (s - a) ≡ e + s = omega arith in
      let row : Row parted_cells e (last_used true pre)
          (block a true false ∷ block (s - a) false false ∷ []) =
        (
          record {
            header = header ∙ ap (λ (u : Bool). tag a u true) (sym before);
            footer = tt;
            aligned = aligned;
            large = wide;
          },
          (
            record {
              header = header';
              footer = ap (λ (r : ℕ). parted_cells (r - 16)) end ∙ foot;
              aligned = omega (arith, here.is.aligned, aligned);
              large = omega arith;
            },
            tt,
          ),
        ) in
      Rows-replace h.cell parted_cells (h.start + 24) e (e + s) true pre (block s false true ∷ [])
        (block a true false ∷ block (s - a) false false ∷ []) post (omega arith) here.at
        (omega arith) (omega arith) is.rows row (omega (arith, top))
        (λ q t ne.
          parted_other q here.low wide wide' (ground (arith, t)) (ground (arith, t))
            (ground (arith, t)))

-- The rest is tagged the same wherever its links and those of others lead.
pub tagged_same :
    (m n : ℕ → ℕ) (r s q : ℕ)
    → ((q == r - 8) ≡ false → (q == r + s - 16) ≡ false → m q ≡ n q)
    → tagged m r s q ≡ tagged n r s q
tagged_same m n r s q same = ground (arith, same)

module _ (h : Heap) (e a s : ℕ) (pre post : List Block) (fs : List ℕ)
    (at : e ≡ h.start + 24 + total pre) (fits : a + 32 ≤ s) where
  pub end_same : e + a + (s - a) ≡ e + s
  end_same = omega (arith, fits)

  pub parted-rows_tag :
      (q : ℕ)
      → (q == e + a - 8) ≡ false
      → (q == e + a + (s - a) - 16) ≡ false
      → rows_tag (h.start + 24) (parted h e a s pre post fs) q ≡ true
      → rows_tag (h.start + 24) (pre ++ block s false true ∷ post) q ≡ true
  parted-rows_tag q ne ne' t =
      let p = h.start + 24 in
      ground (
        arith,
        t,
        ne,
        ne',
        rows_tag-append p e pre (block a true false ∷ (block (s - a) false false ∷ post)) q at,
        rows_tag-append p e pre (block s false true ∷ post) q at,
        ap (λ (r : ℕ). rows_tag r post q) end_same,
      )

  pub parted-linked_at :
      (q : ℕ)
      → linked_at (h.start + 24) (parted h e a s pre post fs) q
        ≡ linked_at (h.start + 24) (pre ++ block s false false ∷ post) q
  parted-linked_at q =
      let p = h.start + 24 in
      linked_at-append p e pre (block a true false ∷ (block (s - a) false false ∷ post)) q at
      ∙ ap (λ (r : ℕ). linked_at p pre q || linked_at r post q) end_same
      ∙ sym (linked_at-append p e pre (block s false false ∷ post) q at)

  -- The words of the user before are such behind.
  pub payload-parted :
      (q : ℕ)
      → payload_at (h.start + 24) (pre ++ block s false true ∷ post) q ≡ true
      → payload_at (h.start + 24) (pre ++ block a true false ∷ (block (s - a) false true ∷ post)) q
        ≡ true
  payload-parted q paid =
      let p = h.start + 24 in
      ground (
        arith,
        paid,
        payload_at-append p e pre (block s false true ∷ post) q at,
        payload_at-append p e pre (block a true false ∷ (block (s - a) false true ∷ post)) q at,
        ap (λ (r : ℕ). payload_at r post q) end_same,
      )
