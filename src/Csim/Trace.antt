-- ===== src/Csim/Trace.antt =====
-- The whole run of cachelab/csim.c on a list of accesses counts what an abstract cache counts.
use mathlib.Core.Path.{subst}
use cs_app_labs.Prelude.{
  sym, All, ◌-◌, ℕ, zero, suc, ◌/◌, ◌%◌, ◌^◌, ◌≡◌, ◌<◌, ◌≤◌, refl, ◌∙◌, Bool, true, false, ◌||◌,
  some, List, [], ◌∷◌, arith, ◌==◌, Bool-cases, inl, inr, get_elem?, length, replicate,
  length-replicate,
}
use cs_app_labs.Csim.Heap.{Ptr, Heap}
use cs_app_labs.Csim.Set.{CacheSet}
use cs_app_labs.Csim.Address.{create_right_bit_mask, parse_address}
use cs_app_labs.Csim.AddressLaws.{parse_address_fields}
use cs_app_labs.Csim.Sim.{
  Sim, Access, empty_set, initialize_d_cache, operate_at, d_cache_simulate, replay,
}
use cs_app_labs.Csim.SetCells.{IsCacheSet}
use cs_app_labs.Csim.Load.{IsFresh}
use cs_app_labs.Csim.Lru.{Lru, touch, cold, serve, serve_all}
use cs_app_labs.Csim.Tally.{AreAtMost, serve_all-AreAtMost}
use cs_app_labs.Csim.Table.{Table, IsTable, operate_at-IsTable}

-- The globals that `initializeDCache` sets and nothing changes.
pub record IsConfigured (set_bits block_bits : ℕ) (s : Sim) : Type 0 where
  pub same_set_bits : s.set_bits ≡ set_bits
  pub same_block_bits : s.block_bits ≡ block_bits
  pub same_set_mask : s.set_mask ≡ create_right_bit_mask set_bits
  pub same_block_mask : s.block_mask ≡ create_right_bit_mask block_bits
  pub size : length s.sets ≡ 2 ^ set_bits

-- The simulator is in a state that stands for the abstract cache.
pub record Stands (set_bits block_bits ways : ℕ) (s : Sim) (c : Lru) : Type 0 where
  pub table : Table
  pub configured : IsConfigured set_bits block_bits s
  pub is : IsTable s ways table c

replicate-get_elem? : (n k : ℕ) (e d : CacheSet) → get_elem? (replicate n e) k ≡ some d → e ≡ d
replicate-get_elem? zero k e d h = absurd (cc)
replicate-get_elem? (suc n) zero e d h = cc
replicate-get_elem? (suc n) (suc k) e d h = replicate-get_elem? n k e d h

initialize-Stands : (s b ways : ℕ) → Stands s b ways (initialize_d_cache s ways b) cold
unfolding initialize_d_cache
initialize-Stands s b ways = record {
  table = λ k. [];
  configured = record {
    same_set_bits = refl;
    same_block_bits = refl;
    same_set_mask = refl;
    same_block_mask = refl;
    size = length-replicate (2 ^ s) (empty_set ways);
  };
  is = record {
    each = λ n d found.
        subst (λ (x : CacheSet). IsCacheSet [] x [] × (x.max_size ≡ ways))
          (replicate-get_elem? (2 ^ s) n (empty_set ways) d found)
          (
            record {
              links = tt;
              distinct = tt;
              head = refl;
              tail = refl;
              size = refl;
              within = omega arith;
            },
            refl,
          );
    links = λ n. tt;
    apart = λ m n ne b here. absurd (cc);
    holds = λ n. refl;
    counted = refl;
  };
}

-- The address of an access, as 32 bits.
abbrev pub IsWord : Access → Type 0
IsWord a = a.address < 2 ^ 32

module _ (malloc : Heap → Ptr) (fresh : IsFresh malloc) (s b ways : ℕ) (small : s ≤ 30)
    (small' : b ≤ 31) (some_way : 0 < ways) where
  operate_at-Stands :
      (z : Sim) (c : Lru) (n tag : ℕ)
      → Stands s b ways z c
      → n < 2 ^ s
      → (z' : Sim) × (operate_at malloc z n tag ≡ some z') × Stands s b ways z' (touch ways n tag c)
  operate_at-Stands z c n tag st here =
      let (h, sets, count, table, returns, size, is) =
        operate_at-IsTable malloc fresh z ways st.table c n tag st.is some_way
          (omega (arith, st.configured.size)) in
      (
        record z { heap = h; sets = sets; count = count },
        returns,
        record {
          table = table;
          configured = record {
            same_set_bits = st.configured.same_set_bits;
            same_block_bits = st.configured.same_block_bits;
            same_set_mask = st.configured.same_set_mask;
            same_block_mask = st.configured.same_block_mask;
            size = size ∙ st.configured.size;
          };
          is = is;
        },
      )

  -- The set number and the tag of an access.
  split :
      (z : Sim) (a : Access)
      → IsConfigured s b z
      → a.address < 2 ^ 32
      → let p =
          parse_address z.set_bits z.block_bits z.set_mask z.block_mask (a.address % 2 ^ 32) in
        (p.set_number ≡ a.address / 2 ^ b % 2 ^ s)
        × (p.tag ≡ a.address / 2 ^ b / 2 ^ s)
        × (p.set_number < 2 ^ s)
  split z a is word =
      let same : a.address % 2 ^ 32 ≡ a.address = omega arith in
      rw (same, is.same_set_bits, is.same_block_bits, is.same_set_mask, is.same_block_mask)
        (let (offset, index, bound, whole) =
            parse_address_fields s b a.address (omega arith) small' in
          (index, unfold parse_address in refl, bound))

  d_cache_simulate-Stands :
      (z : Sim) (c : Lru) (a : Access)
      → Stands s b ways z c
      → a.address < 2 ^ 32
      → (known : Bool) × (z' : Sim) × (d_cache_simulate malloc z a ≡ some (known, z'))
        × Stands s b ways z' (serve s b ways a c)
  unfolding d_cache_simulate serve
  d_cache_simulate-Stands z c a st word =
      let n : ℕ = a.address / 2 ^ b % 2 ^ s in
      let tag : ℕ = a.address / 2 ^ b / 2 ^ s in
      let (index, top, bound) = split z a st.configured word in
      let here : n < 2 ^ s = subst (λ (k : ℕ). k < 2 ^ s) index bound in
      let (z1, once, st1) = operate_at-Stands z c n tag st here in
      let (z2, twice, st2) = operate_at-Stands z1 (touch ways n tag c) n tag st1 here in
      elim (Bool-cases (a.command == b'S' || a.command == b'L')) [
        | inl one ↦ (true, z1, rw (one, index, top, once) refl, rw one st1)
        | inr not_one ↦ elim (Bool-cases (a.command == b'M')) [
          | inl two ↦
              (true, z2, rw (not_one, two, index, top, once, twice) refl, rw (not_one, two) st2)
          | inr unknown ↦ (false, z, rw (not_one, unknown) refl, rw (not_one, unknown) st)
        ]
      ]

  replay-Stands :
      (trace : List Access) (z : Sim) (c : Lru)
      → Stands s b ways z c
      → All IsWord trace
      → (z' : Sim) × (replay malloc z trace ≡ some z')
        × Stands s b ways z' (serve_all s b ways trace c)
  unfolding replay serve_all
  replay-Stands [] z c st words = (z, refl, st)
  replay-Stands (a ∷ as') z c st (word, words) =
      let (known, z1, returns, st1) = d_cache_simulate-Stands z c a st word in
      let (z2, returns2, st2) = replay-Stands as' z1 (serve s b ways a c) st1 words in
      (z2, rw returns returns2, st2)

  -- From the initialised cache, with at most 30 bits for sets and 31 for blocks, at least one and
  -- fewer than 2^31 lines in a set and a `malloc` that returns free addresses, every trace of
  -- fewer than 2^30 accesses to 32-bit addresses runs to its end without a fault, and the hits,
  -- misses and evictions are those of a cache that keeps, for each set, its tags in the order of
  -- their last use; each of them fits an `int`.
  pub replay-serve_all :
      (trace : List Access)
      → ways < 2 ^ 31
      → All IsWord trace
      → length trace < 2 ^ 30
      → (out : Sim) × (replay malloc (initialize_d_cache s ways b) trace ≡ some out)
        × (out.count ≡ (serve_all s b ways trace cold).count)
        × AreAtMost (2 ^ 31 - 1) out.count
  replay-serve_all trace few words short =
      let (out, returns, st) =
        replay-Stands trace (initialize_d_cache s ways b) cold (initialize-Stands s b ways) words in
      let (hits, misses, evictions) =
        serve_all-AreAtMost s b ways trace cold 0 (omega arith, omega arith, omega arith) in
      (
        out,
        returns,
        st.is.counted,
        subst (AreAtMost (2 ^ 31 - 1)) (sym st.is.counted)
            (omega (arith, hits), omega (arith, misses), omega (arith, evictions)),
      )
