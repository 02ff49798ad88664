-- ===== src/Csim/Sim.antt =====
-- The simulator of cachelab/csim.c as a whole: `initializeDCache`, `dCacheSimulate` and the replay
-- of the accesses that `main` reads from the trace.
use cs_app_labs.Prelude.{
  ◌>>=◌, ℕ, ◌%◌, ◌^◌, Bool, true, false, ◌||◌, Option, some, List, [], ◌∷◌, ◌==◌, if◌then◌else◌,
  get_elem?, set, replicate,
}
use cs_app_labs.Csim.Heap.{Ptr, null, Heap}
use cs_app_labs.Csim.Set.{CacheSet, Counters, d_cache_operate}
use cs_app_labs.Csim.Address.{create_right_bit_mask, parse_address}

-- The global variables.
pub record Sim : Type 0 where
  pub count : Counters
  pub heap : Heap
  pub sets : List CacheSet
  pub set_bits : ℕ
  pub block_bits : ℕ
  pub set_mask : ℕ
  pub block_mask : ℕ

abbrev pub zero_counters : Counters
zero_counters = record { hits = 0; misses = 0; evictions = 0 }

abbrev pub empty_set : ℕ → CacheSet
empty_set associativity = record {
  current_size = 0;
  max_size = associativity;
  head = null;
  tail = null;
}

-- `initializeDCache`, on a heap without lines.
unfoldable pub initialize_d_cache : (set_bits associativity block_bits : ℕ) → Sim
unfolding create_right_bit_mask
initialize_d_cache set_bits associativity block_bits = record {
  count = zero_counters;
  heap = [];
  sets = replicate (2 ^ set_bits) (empty_set associativity);
  set_bits = set_bits;
  block_bits = block_bits;
  set_mask = create_right_bit_mask set_bits;
  block_mask = create_right_bit_mask block_bits;
}

-- One line of the trace: the command's character, and the address as the 32 bits of the `int` that
-- `sscanf` stores it in.
pub record Access : Type 0 where
  pub command : ℕ
  pub address : ℕ

module _ (malloc : Heap → Ptr) where
  -- An operation on the set at an index of the array.
  unfoldable pub operate_at : Sim → (set_number tag : ℕ) → Option Sim
  operate_at s set_number tag = do
    chosen ← get_elem? s.sets set_number
    w ← d_cache_operate malloc (record { heap = s.heap; set = chosen; count = s.count }) tag
    some (record s { heap = w.heap; sets = set s.sets set_number w.set; count = w.count })

  -- `dCacheSimulate`, which gives `parseAddress` its `int` as an `unsigned int`; the inner `false` is the -1 of an unknown command.
  unfoldable pub d_cache_simulate : Sim → Access → Option (Bool × Sim)
  d_cache_simulate s a =
      let p = parse_address s.set_bits s.block_bits s.set_mask s.block_mask (a.address % 2 ^ 32) in
      if a.command == b'S' || a.command == b'L'
      then (do s ← operate_at s p.set_number p.tag; some (true, s))
      else if a.command == b'M'
      then (do
        s ← operate_at s p.set_number p.tag
        s ← operate_at s p.set_number p.tag
        some (true, s))
      else some (false, s)

  -- The loop of `main` over the accesses that it has read; it ignores the result.
  unfoldable pub replay : Sim → List Access → Option Sim
  replay s [] = some s
  replay s (a ∷ as') = do (known, s) ← d_cache_simulate s a; replay s as'
