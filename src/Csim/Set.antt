-- ===== src/Csim/Set.antt =====
-- The operations of cachelab/csim.c on one set. The counters, which are global
-- in the source, travel with the set; the verbose messages are left out.
use cs_app_labs.Prelude.{
  ◌>>=◌, ℕ, zero, suc, ◌+◌, ◌-◌, Bool, true, false, Option, none, some, ◌==◌, if◌then◌else◌,
}
use cs_app_labs.Csim.Heap.{Ptr, null, Line, line, Heap, put, load_line, set_next}

-- `Set`.
pub record CacheSet : Type 0 where
  pub current_size : ℕ
  pub max_size : ℕ
  pub head : Ptr
  pub tail : Ptr

-- The globals `hits`, `misses` and `evictions`.
pub record Counters : Type 0 where
  pub hits : ℕ
  pub misses : ℕ
  pub evictions : ℕ

-- What an operation on a set may change.
pub record Work : Type 0 where
  pub heap : Heap
  pub set : CacheSet
  pub count : Counters

unfoldable pub is_full : CacheSet → Bool
is_full s = s.current_size == s.max_size

-- `evict`, with the line at the head already read.
abbrev pub evict_first : Work → Line → Work
evict_first w first =
    let s = w.set in
    let c = w.count in
    record {
      heap = put w.heap s.head none;
      set =
          (if first.next == null
            then record s { head = null; tail = null; current_size = s.current_size - 1 }
            else record s { head = first.next; current_size = s.current_size - 1 });
      count = record c { evictions = c.evictions + 1 };
    }

unfoldable pub evict : Work → Option Work
unfolding put load_line
evict w = do first ← load_line w.heap w.set.head; some (evict_first w first)

-- The part of `load` behind the eviction; `new` is what `malloc` returned.
unfoldable pub append_line : Work → Ptr → ℕ → Option Work
unfolding put
append_line w new tag =
    let s = w.set in
    let heap = put w.heap new (some (line tag null)) in
    if s.tail == null
    then some (record w {
      heap = heap;
      set = record s { head = new; tail = new; current_size = s.current_size + 1 };
    })
    else (do
      heap' ← set_next heap s.tail new
      some (record w {
        heap = heap';
        set = record s { tail = new; current_size = s.current_size + 1 };
      }))

-- The list operations of a hit that is not at the end: `prev` is `NULL` at the head.
unfoldable pub move_to_end :
    Heap → CacheSet → (prev current : Ptr) → Line → Option (CacheSet × Heap)
move_to_end h s prev current found =
    if prev == null
    then (do
      h ← set_next h s.tail current
      h ← set_next h current null
      some (record s { head = found.next; tail = current }, h))
    else (do
      h ← set_next h prev found.next
      h ← set_next h s.tail current
      h ← set_next h current null
      some (record s { tail = current }, h))

-- The loop of `isCached`. A list of `current_size` lines is walked in as many rounds and one.
unfoldable pub search_loop :
    (fuel : ℕ) → ℕ → Heap → CacheSet → (prev current : Ptr) → Option (Bool × CacheSet × Heap)
unfolding load_line
search_loop zero tag h s prev current = none
search_loop (suc fuel) tag h s prev current = if current == null then some (false, s, h) else (do
  n ← load_line h current
  elim (n.tag == tag) [
    | true ↦
        if n.next == null
        then some (true, s, h)
        else (do (s', h') ← move_to_end h s prev current n; some (true, s', h'))
    | false ↦ search_loop fuel tag h s current n.next
  ])

-- `isCached`: the walk, and the counter of its outcome.
unfoldable pub is_cached : Work → ℕ → Option (Bool × Work)
unfolding search_loop
is_cached w tag = do
  (hit, s, h) ← search_loop (w.set.current_size + 1) tag w.heap w.set null w.set.head
  let c = w.count
  some (
    hit,
    record {
      heap = h;
      set = s;
      count = (if hit then record c { hits = c.hits + 1 } else record c { misses = c.misses + 1 });
    },
  )

-- What `malloc` returns depends on the heap it is called at.
module _ (malloc : Heap → Ptr) where
  -- `load`.
  unfoldable pub load : Work → ℕ → Option Work
  load w tag = do w ← (if is_full w.set then evict w else some w); append_line w (malloc w.heap) tag

  -- `dCacheOperate`.
  unfoldable pub d_cache_operate : Work → ℕ → Option Work
  d_cache_operate w tag = do (hit, w) ← is_cached w tag; if hit then some w else load w tag
