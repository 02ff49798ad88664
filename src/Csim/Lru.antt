-- ===== src/Csim/Lru.antt =====
-- What a set of the cache in cachelab/csim.c stands for: its tags, the least recently used first,
-- and what an access does to them.
use cs_app_labs.Prelude.{
  ℕ, ◌+◌, ◌/◌, ◌%◌, ◌^◌, Bool, false, ◌||◌, List, [], ◌∷◌, ◌++◌, ◌==◌, if◌then◌else◌, length,
}
use cs_app_labs.Csim.Set.{Counters}
use cs_app_labs.Csim.Sim.{Access}

abbrev pub contains : ℕ → List ℕ → Bool
contains tag [] = false
contains tag (x ∷ xs) = (x == tag) || contains tag xs

-- The list without the first `tag`.
abbrev pub remove : ℕ → List ℕ → List ℕ
remove tag [] = []
remove tag (x ∷ xs) = if x == tag then xs else x ∷ remove tag xs

abbrev pub drop_first : List ℕ → List ℕ
drop_first [] = []
drop_first (x ∷ xs) = xs

-- A set and the counters after an access to `tag` in a cache of `ways` lines: a hit moves the tag
-- behind the others, a miss adds it there, after the oldest has gone if the set is full.
unfoldable pub access : (ways tag : ℕ) → List ℕ → List ℕ
access ways tag xs =
    if contains tag xs
    then remove tag xs ++ tag ∷ []
    else if length xs == ways
    then drop_first xs ++ tag ∷ []
    else xs ++ tag ∷ []

unfoldable pub tally : (ways tag : ℕ) → List ℕ → Counters → Counters
tally ways tag xs c =
    if contains tag xs
    then record c { hits = c.hits + 1 }
    else if length xs == ways
    then record c { misses = c.misses + 1; evictions = c.evictions + 1 }
    else record c { misses = c.misses + 1 }

-- A whole cache: the tags of each set, and the counters.
pub record Lru : Type 0 where
  pub tags : ℕ → List ℕ
  pub count : Counters

unfoldable pub touch : (ways set_number tag : ℕ) → Lru → Lru
touch ways n tag c = record {
  tags = λ k. if k == n then access ways tag (c.tags n) else c.tags k;
  count = tally ways tag (c.tags n) c.count;
}

abbrev pub cold : Lru
cold = record { tags = λ k. []; count = record { hits = 0; misses = 0; evictions = 0 } }

-- A load or a store touches a line, a modification touches it twice, and any other command
-- touches none. The set number is the field above the block offset, the tag what is above both.
unfoldable pub serve : (set_bits block_bits ways : ℕ) → Access → Lru → Lru
serve s b ways a c =
    let n = a.address / 2 ^ b % 2 ^ s in
    let tag = a.address / 2 ^ b / 2 ^ s in
    if a.command == b'S' || a.command == b'L'
    then touch ways n tag c
    else if a.command == b'M'
    then touch ways n tag (touch ways n tag c)
    else c

unfoldable pub serve_all : (set_bits block_bits ways : ℕ) → List Access → Lru → Lru
serve_all s b ways [] c = c
serve_all s b ways (a ∷ as') c = serve_all s b ways as' (serve s b ways a c)
