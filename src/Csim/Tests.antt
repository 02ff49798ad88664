-- ===== src/Csim/Tests.antt =====
-- The functions of cachelab/csim.c at concrete inputs: a set of two lines with room for no third.
use cs_app_labs.Prelude.{
  ◌-◌, ℕ, suc, List, ◌+◌, ◌*◌, ◌/◌, ◌%◌, ◌^◌, ◌≡◌, ◌≢◌, ◌<◌, refl, sym, ap, ◌∙◌, none, some, [],
  ◌∷◌, arith, ◌==◌, Bool-cases, inl, inr,
}
use cs_app_labs.Csim.Heap.{Ptr, null, line, Heap, look}
use cs_app_labs.Csim.Set.{CacheSet, Counters, Work, search_loop, d_cache_operate}
use cs_app_labs.Csim.Address.{create_right_bit_mask, parse_address}
use cs_app_labs.Csim.Links.{Cells}
use cs_app_labs.Csim.SetCells.{IsCacheSet, IsSearched}
use cs_app_labs.Csim.Search.{search_loop-IsSearched}
use cs_app_labs.Csim.Load.{IsFresh}
use cs_app_labs.Csim.Refine.{IsOperated, d_cache_operate-IsOperated}
use cs_app_labs.Csim.Sim.{Sim, Access, initialize_d_cache, replay}
use cs_app_labs.Csim.Lru.{cold, serve_all, serve, touch, access, tally}
use cs_app_labs.Csim.Tally.{AreAtMost}
use cs_app_labs.Csim.Trace.{replay-serve_all}
use cs_app_labs.Csim.AddressLaws.{parse_address_fields}

-- An allocator that hands out an address above all that were written.
abbrev bump : Heap → Ptr
bump [] = 1
bump ((q, c) ∷ h) = suc (q + bump h)

look-above : (h : Heap) (k : ℕ) → look h (k + bump h) ≡ none
unfolding look
look-above [] k = refl
look-above ((q, c) ∷ h) k = elim (Bool-cases (k + suc (q + bump h) == q)) [
  | inl e ↦ absurd (ground arith)
  | inr ne ↦
      let same : k + suc (q + bump h) ≡ suc (k + q) + bump h = omega arith in
      rw ne (ap (λ (p : Ptr). look h p) same ∙ look-above h (suc (k + q)))
]

bump-real : (h : Heap) → bump h ≢ null
bump-real [] e = omega arith
bump-real ((q, c) ∷ h) e = omega arith

bump-IsFresh : IsFresh bump
bump-IsFresh = record {
  real = bump-real;
  free = λ h.
      (let same : 0 + bump h ≡ bump h = omega arith in
        ap (λ (p : Ptr). look h p) (sym same) ∙ look-above h 0);
}

-- Line 5 holds tag 8 and comes before line 3, which holds tag 9.
abbrev cells : Cells
cells = (5, 8) ∷ (3, 9) ∷ []

abbrev lines : Heap
lines = (5, some (line 8 3)) ∷ (3, some (line 9 null)) ∷ []

abbrev two_lines : CacheSet
two_lines = record { current_size = 2; max_size = 2; head = 5; tail = 3 }

abbrev counters : Counters
counters = record { hits = 4; misses = 2; evictions = 0 }

abbrev work : Work
work = record { heap = lines; set = two_lines; count = counters }

two_lines-IsCacheSet : IsCacheSet lines two_lines cells
unfolding look
two_lines-IsCacheSet = record {
  links = (λ e. omega arith, refl, (λ e. omega arith, refl, tt));
  distinct = (refl, (refl, tt));
  head = refl;
  tail = refl;
  size = refl;
  within = omega arith;
}

-- Tag 7 is not there: the set is full, so line 5 goes.
d_cache_operate-IsOperated_example : IsOperated work cells 7 (d_cache_operate bump work 7)
d_cache_operate-IsOperated_example =
    d_cache_operate-IsOperated bump bump-IsFresh work cells 7 two_lines-IsCacheSet (omega arith)

search_loop-IsSearched_example :
    IsSearched lines two_lines cells 8 (search_loop 3 8 lines two_lines null 5)
search_loop-IsSearched_example =
    search_loop-IsSearched lines two_lines cells 8 3 (omega arith) two_lines-IsCacheSet

parse_address_fields_example :
    let p = parse_address 2 4 (create_right_bit_mask 2) (create_right_bit_mask 4) 1234 in
    (p.block_offset ≡ 1234 % 2 ^ 4)
    × (p.set_number ≡ 1234 / 2 ^ 4 % 2 ^ 2)
    × (p.set_number < 2 ^ 2)
    × ((p.tag * 2 ^ 2 + p.set_number) * 2 ^ 4 + p.block_offset ≡ 1234)
parse_address_fields_example = parse_address_fields 2 4 1234 (omega arith) (omega arith)

-- A load of address 20, a modification of it, and a store to the other block of its set.
abbrev three_accesses : List Access
three_accesses =
    record { command = b'L'; address = 20 }
    ∷ record { command = b'M'; address = 20 }
    ∷ record { command = b'S'; address = 4 }
    ∷ []

replay-serve_all_example :
    (out : Sim) × (replay bump (initialize_d_cache 1 1 2) three_accesses ≡ some out)
    × (out.count ≡ (serve_all 1 2 1 three_accesses cold).count)
    × AreAtMost (2 ^ 31 - 1) out.count
replay-serve_all_example =
    replay-serve_all bump bump-IsFresh 1 2 1 (omega arith) (omega arith) (omega arith)
      three_accesses (omega arith) (omega arith, (omega arith, (omega arith, tt))) (omega arith)

-- One miss for the load, two hits for the modification, a miss with an eviction for the store.
three_accesses_count :
    (serve_all 1 2 1 three_accesses cold).count ≡ record { hits = 2; misses = 2; evictions = 1 }
unfolding serve_all serve touch access tally
three_accesses_count = refl
