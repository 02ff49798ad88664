-- ===== src/Malloc/Tests.antt =====
-- The allocator of malloclab/src/mm.c on small heaps.
use cs_app_labs.Prelude.{
  ◌>>=◌, ℕ, ◌+◌, ◌^◌, ◌<◌, ◌≡◌, ◌⊎◌, refl, true, false, Option, none, some, [], ◌∷◌, ◌==◌,
  if◌then◌else◌, arith, All,
}
use cs_app_labs.Malloc.Words.{Heap, null, is_word, get_size, hdrp, put}
use cs_app_labs.Malloc.Blocks.{
  mm_init, mm_malloc, mm_free, mm_realloc, find_fit, block_size, extend_size,
}
use cs_app_labs.Malloc.Layout.{block}
use cs_app_labs.Malloc.Invariant.{IsHeap}
use cs_app_labs.Malloc.Free.{Freed, mm_free-IsHeap}
use cs_app_labs.Malloc.Fit.{Fits, find_fit_lem}
use cs_app_labs.Malloc.Allocate.{Allocated, mm_malloc-IsHeap}
use cs_app_labs.Malloc.Init.{IsEmpty, initial, mm_init-IsHeap}
use cs_app_labs.Malloc.Owners.{Disjoint}
use cs_app_labs.Malloc.Calls.{
  started, allocated, given, IsUsable, Reached, IsMoved, Reached-IsUsable, Reached-mm_realloc,
}

abbrev no_memory : Heap
no_memory = record {
  start = 8;
  brk = 8;
  max_addr = 8192;
  heap_listp = 0;
  free_list_head = 0;
  cell = λ q. 0;
}

no_memory-IsEmpty : IsEmpty no_memory
no_memory-IsEmpty = record {
  some_place = omega arith;
  aligned = refl;
  empty = refl;
  room = omega arith;
  small = omega arith;
}

started-IsHeap :
    (mm_init no_memory ≡ some (initial no_memory, true)) × IsHeap (initial no_memory) [] []
started-IsHeap = mm_init-IsHeap no_memory no_memory-IsEmpty

mm_malloc-IsHeap_example :
    Allocated (initial no_memory) [] 24 (mm_malloc (initial no_memory) 24)
    ⊎ ((mm_malloc (initial no_memory) 24 ≡ some (initial no_memory, null))
        × All
            (λ (y : ℕ).
              (s : ℕ) × (get_size (initial no_memory) (hdrp y) ≡ some s) × (s < block_size 24))
            []
        × (8192 < 32 + extend_size (block_size 24)))
mm_malloc-IsHeap_example =
    mm_malloc-IsHeap (initial no_memory) [] [] 24 started-IsHeap.1 tt (omega arith) (omega arith)
      (omega arith)

-- A heap with one block, allocated.
abbrev one_used : Heap
one_used = record {
  start = 8;
  brk = 64;
  max_addr = 8192;
  heap_listp = 16;
  free_list_head = 0;
  cell = λ (q : ℕ). if q == 24 then 35 else if q == 56 then 3 else 0;
}

one_used-IsHeap : IsHeap one_used (block 32 true false ∷ []) []
one_used-IsHeap = record {
  some_place = omega arith;
  aligned = refl;
  ends = refl;
  small = omega arith;
  begun = omega arith;
  rows = (record { header = refl; footer = tt; aligned = refl; large = omega arith }, refl);
  free = record { head = refl; links = tt; spaced = tt; inside = λ q l. absurd (cc l) };
  matching = λ q. refl;
  listed = (refl, tt);
}

mm_free-IsHeap_example : Freed one_used (block 32 false false ∷ []) (mm_free one_used 32)
mm_free-IsHeap_example =
    mm_free-IsHeap one_used 32 32 [] [] [] one_used-IsHeap (refl, refl, tt) refl

-- One call, and what the client may do then.
abbrev result_or : Heap × ℕ → Option (Heap × ℕ) → Heap × ℕ
result_or r none = r
result_or r (some s) = s

abbrev first_call : Heap × ℕ
unfolding mm_malloc is_word
first_call = result_or (initial no_memory, 0) (mm_malloc (initial no_memory) 24)

first_call_run : mm_malloc (initial no_memory) 24 ≡ some first_call
unfolding mm_malloc is_word
first_call_run = refl

Reached-IsUsable_example :
    All (IsUsable first_call.0) (given first_call.1 24 [])
    × Disjoint (given first_call.1 24 [])
    × (r : Heap × ℕ) × (mm_malloc first_call.0 8 ≡ some r)
Reached-IsUsable_example =
    Reached-IsUsable first_call.0 (given first_call.1 24 []) 8
      (allocated (initial no_memory) [] 24 first_call
        (started no_memory (initial no_memory) no_memory-IsEmpty started-IsHeap.0) (omega arith)
        (omega arith) first_call_run)
      (omega arith) (omega arith)

first_reached : Reached first_call.0 ((32, 24) ∷ [])
unfolding mm_malloc is_word
first_reached =
    allocated (initial no_memory) [] 24 first_call
      (started no_memory (initial no_memory) no_memory-IsEmpty started-IsHeap.0) (omega arith)
      (omega arith) first_call_run

Reached-mm_realloc_example :
    ((mm_realloc first_call.0 32 100 ≡ some (first_call.0, 32)) × Disjoint ((32, 100) ∷ []))
    ⊎ ((mm_realloc first_call.0 32 100 ≡ some (first_call.0, null))
        ⊎ IsMoved first_call.0 (32, 24) [] 100 (mm_realloc first_call.0 32 100))
Reached-mm_realloc_example =
    Reached-mm_realloc first_call.0 [] [] (32, 24) 100 first_reached (omega arith) (omega arith)

-- A heap with one block, free.
abbrev one_free : Heap
one_free = record {
  start = 8;
  brk = 64;
  max_addr = 8192;
  heap_listp = 16;
  free_list_head = 32;
  cell = λ (q : ℕ). if q == 24 then 34 else if q == 48 then 32 else if q == 56 then 1 else 0;
}

one_free-IsHeap : IsHeap one_free (block 32 false true ∷ []) (32 ∷ [])
one_free-IsHeap = record {
  some_place = omega arith;
  aligned = refl;
  ends = refl;
  small = omega arith;
  begun = omega arith;
  rows = (record { header = refl; footer = refl; aligned = refl; large = omega arith }, refl);
  free = record {
    head = refl;
    links = (refl, refl, omega arith, tt);
    spaced = (refl, refl, tt);
    inside = λ q l. (ground (arith, l), ground (arith, l), ground (arith, l));
  };
  matching = λ q. refl;
  listed = (refl, tt);
}

find_fit_lem_example : Fits one_free (block 32 false true ∷ []) 40 (32 ∷ []) (find_fit one_free 40)
find_fit_lem_example =
    find_fit_lem one_free (block 32 false true ∷ []) (32 ∷ []) 40 one_free-IsHeap (refl, refl, tt)

-- `asize` is an `int`: of 2^32 bytes, 8 are left, and the block is one word.
huge_request :
    (mm_malloc (initial no_memory) (2 ^ 32) >>= (λ r. some (r.0.cell (hdrp r.1)))) ≡ some 11
unfolding mm_malloc is_word
huge_request = refl

-- A block, and one that is freed.
malloc_and_free :
    (mm_malloc (initial no_memory) 24 >>= (λ r. mm_free r.0 r.1 >>= (λ h. some (h.cell 24))))
    ≡ some 4098
unfolding mm_malloc mm_free is_word
malloc_and_free = refl

-- A block that grows moves, with its words.
malloc_and_realloc :
    (mm_malloc (initial no_memory) 24
      >>= (λ r. put r.0 40 7 >>= (λ h. mm_realloc h r.1 100 >>= (λ s. some (s.0.cell (s.1 + 8))))))
    ≡ some 7
unfolding mm_malloc mm_realloc put is_word
malloc_and_realloc = refl
