-- ===== src/Csim/Table.antt =====
-- The array of sets of cachelab/csim.c: its sets stay apart on the heap.
use mathlib.Core.Path.{subst}
use cs_app_labs.Prelude.{
  ℕ, ◌≡◌, ◌≢◌, ◌<◌, refl, sym, ◌∙◌, true, false, Option, none, some, List, arith, ◌==◌, Bool-cases,
  inl, inr, if◌then◌else◌, get_elem?, set, length, length-set, get_elem?-set_self, get_elem?-set_ne,
  get_elem?_lt,
}
use cs_app_labs.Csim.Heap.{Ptr, null, Heap, look}
use cs_app_labs.Csim.Set.{CacheSet, Counters, Work}
use cs_app_labs.Csim.Sim.{Sim, operate_at}
use cs_app_labs.Csim.Links.{Cells, has, Links, Links-frame}
use cs_app_labs.Csim.SetCells.{IsCacheSet, tags}
use cs_app_labs.Csim.Load.{IsFresh, not-has_of_free}
use cs_app_labs.Csim.Refine.{IsOperated, d_cache_operate-IsOperated}
use cs_app_labs.Csim.Lru.{Lru, touch}

abbrev pub Table : Type 0
Table = ℕ → Cells

-- The table with other cells at one set.
abbrev pub with_cells : Table → ℕ → Cells → Table
with_cells table n xs k = if k == n then xs else table k

-- The cells of the sets, set by set, and what they stand for.
pub record IsTable (s : Sim) (ways : ℕ) (table : Table) (c : Lru) : Type 0 where
  pub each :
      (n : ℕ) (e : CacheSet)
      → get_elem? s.sets n ≡ some e
      → IsCacheSet s.heap e (table n) × (e.max_size ≡ ways)
  pub links : (n : ℕ) → Links s.heap null (table n)
  pub apart :
      (m n : ℕ) → (m == n) ≡ false → (b : Ptr) → has b (table m) ≡ true → has b (table n) ≡ false
  pub holds : (n : ℕ) → tags (table n) ≡ c.tags n
  pub counted : s.count ≡ c.count

real_of_has :
    (h : Heap) (xs : Cells) (b : Ptr) → Links h null xs → has b xs ≡ true → look h b ≢ none
real_of_has h xs b links here free = let out = not-has_of_free h null xs b links free in absurd (cc)

-- A set whose cells did not change is still valid.
frame :
    (h g : Heap) (e : CacheSet) (xs : Cells)
    → Links g null xs
    → IsCacheSet h e xs
    → IsCacheSet g e xs
frame h g e xs links is = record {
  links = links;
  distinct = is.distinct;
  head = is.head;
  tail = is.tail;
  size = is.size;
  within = is.within;
}

-- What an operation on the set at `n` leaves of the table.
module _ (s : Sim) (ways : ℕ) (table : Table) (c : Lru) (is : IsTable s ways table c) (n tag : ℕ)
    (e : CacheSet) (chosen : get_elem? s.sets n ≡ some e) (here : n < length s.sets)
    (result : Option Work)
    (op : IsOperated
      (record { heap = s.heap; set = e; count = s.count })
      (table n)
      tag
      result) where
  abbrev pub after : Sim
  after = record s { heap = op.out.heap; sets = set s.sets n op.out.set; count = op.out.count }

  other_same :
      (k : ℕ)
      → (k == n) ≡ false
      → (b : Ptr) → has b (table k) ≡ true
      → look op.out.heap b ≡ look s.heap b
  other_same k ne b i =
      op.same b (is.apart k n ne b i) (real_of_has s.heap (table k) b (is.links k) i)

  after-Links : (k : ℕ) → Links op.out.heap null (with_cells table n op.cells k)
  after-Links k = elim (Bool-cases (k == n)) [
    | inl same ↦ rw same op.is.links
    | inr ne ↦ rw ne (Links-frame s.heap op.out.heap null (table k) (other_same k ne) (is.links k))
  ]

  -- No cell of the changed set is a cell of another.
  new-apart :
      (k : ℕ) → (k == n) ≡ false → (b : Ptr) → has b op.cells ≡ true → has b (table k) ≡ false
  new-apart k ne b i = elim (op.taken b i) [
    | inl old ↦ is.apart n k (ground arith) b old
    | inr free ↦ not-has_of_free s.heap null (table k) b (is.links k) free
  ]

  old-apart :
      (k : ℕ) → (k == n) ≡ false → (b : Ptr) → has b (table k) ≡ true → has b op.cells ≡ false
  old-apart k ne b i = elim (Bool-cases (has b op.cells)) [
    | inl both ↦ absurd (let out = new-apart k ne b both in cc)
    | inr out ↦ out
  ]

  after-apart :
      (m k : ℕ)
      → (m == k) ≡ false
      → (b : Ptr) → has b (with_cells table n op.cells m) ≡ true
      → has b (with_cells table n op.cells k) ≡ false
  after-apart m k apart b = elim (Bool-cases (m == n)) [
    | inl first ↦ elim (Bool-cases (k == n)) [
      | inl second ↦ absurd (ground arith)
      | inr ne ↦ rw (first, ne) (new-apart k ne b)
    ]
    | inr ne ↦ elim (Bool-cases (k == n)) [
      | inl second ↦ rw (ne, second) (old-apart m ne b)
      | inr ne' ↦ rw (ne, ne') (is.apart m k apart b)
    ]
  ]

  after-each :
      (k : ℕ) (d : CacheSet)
      → get_elem? (set s.sets n op.out.set) k ≡ some d
      → IsCacheSet op.out.heap d (with_cells table n op.cells k) × (d.max_size ≡ ways)
  after-each k d found = elim (Bool-cases (k == n)) [
    | inl same ↦
        let equal : k ≡ n = ground arith in
        let stored = get_elem?-set_self s.sets n op.out.set here in
        let at : get_elem? (set s.sets n op.out.set) n ≡ some d =
          subst (λ (j : ℕ). get_elem? (set s.sets n op.out.set) j ≡ some d) equal found in
        let is_new : op.out.set ≡ d = cc in
        rw same (
          subst (λ (x : CacheSet). IsCacheSet op.out.heap x op.cells × (x.max_size ≡ ways)) is_new
            (op.is, op.same_max ∙ (is.each n e chosen).1))
    | inr ne ↦
        let old : get_elem? s.sets k ≡ some d =
          sym (get_elem?-set_ne s.sets op.out.set (λ (q : n ≡ k). ground arith)) ∙ found in
        let before = is.each k d old in
        rw ne (
          frame s.heap op.out.heap d (table k)
              (Links-frame s.heap op.out.heap null (table k) (other_same k ne) (is.links k))
              before.0,
          before.1,
        )
  ]

  after-IsTable : IsTable after ways (with_cells table n op.cells) (touch ways n tag c)
  unfolding touch
  after-IsTable =
      let size : e.max_size ≡ ways = (is.each n e chosen).1 in
      record {
        each = after-each;
        links = after-Links;
        apart = after-apart;
        holds = λ k. elim (Bool-cases (k == n)) [
          | inl same ↦ rw same (op.accessed ∙ rw (size, is.holds n) refl)
          | inr ne ↦ rw ne (is.holds k)
        ];
        counted = op.counted ∙ rw (size, is.holds n, is.counted) refl;
      }

module _ (malloc : Heap → Ptr) (fresh : IsFresh malloc) where
  -- An operation on a set of the array touches a line of the abstract cache.
  pub operate_at-IsTable :
      (s : Sim) (ways : ℕ) (table : Table) (c : Lru) (n tag : ℕ)
      → IsTable s ways table c
      → 0 < ways
      → n < length s.sets
      → (h : Heap) × (sets : List CacheSet) × (count : Counters) × (table' : Table) × (operate_at
            malloc s n tag
          ≡ some (record s { heap = h; sets = sets; count = count }))
        × (length sets ≡ length s.sets)
        × IsTable
            (record s { heap = h; sets = sets; count = count })
            ways
            table'
            (touch ways n tag c)
  unfolding operate_at
  operate_at-IsTable s ways table c n tag is some_way here =
      let (e, chosen) = get_elem?_lt s.sets n here in
      let w : Work = record { heap = s.heap; set = e; count = s.count } in
      let (valid, size) = is.each n e chosen in
      let op =
        d_cache_operate-IsOperated malloc fresh w (table n) tag valid (omega (arith, size)) in
      (
        op.out.heap,
        set s.sets n op.out.set,
        op.out.count,
        with_cells table n op.cells,
        rw (chosen, op.returns) refl,
        length-set s.sets n op.out.set,
        after-IsTable s ways table c is n tag e chosen here _ op,
      )
