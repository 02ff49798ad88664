-- ===== src/Csim/Heap.antt =====
-- The heap of cachelab/csim.c: lines at addresses. `none` as a result is a fault: an access
-- through `NULL` or to an address that holds no line.
use cs_app_labs.Prelude.{◌>>=◌, ℕ, Option, none, some, List, [], ◌∷◌, ◌==◌, if◌then◌else◌}

abbrev pub Ptr : Type 0
Ptr = ℕ

abbrev pub null : Ptr
null = 0

-- `CacheLineNode`.
pub record Line : Type 0 where
  pub tag : ℕ
  pub next : Ptr

abbrev pub line : ℕ → Ptr → Line
line t q = record { tag = t; next = q }

-- What has been written, the newest first; `none` at an address that `free` has taken.
abbrev pub Heap : Type 0
Heap = List (Ptr × Option Line)

unfoldable pub look : Heap → Ptr → Option Line
look [] p = none
look ((q, c) ∷ h) p = if p == q then c else look h p

unfoldable pub put : Heap → Ptr → Option Line → Heap
put h p c = (p, c) ∷ h

-- `*p`.
unfoldable pub load_line : Heap → Ptr → Option Line
unfolding look
load_line h p = if p == null then none else look h p

-- `p->next = q`.
unfoldable pub set_next : Heap → Ptr → Ptr → Option Heap
unfolding load_line put
set_next h p q = do n ← load_line h p; some (put h p (some (record n { next = q })))
