-- ===== src/Proxy/Sbuf.antt =====
-- The bounded buffer of proxylab/sbuf.c, statement by statement, and threads that share it.
pub mod Ring
pub mod Inv
pub mod Statements
pub mod Safety
pub mod Progress
use cs_app_labs.Prelude.{
  ◌>>=◌, ℕ, zero, suc, ◌+◌, ◌-◌, ◌%◌, ◌^◌, ◌<◌, ◌≡◌, Bool, true, false, Option, none, some, List,
  [], ◌∷◌, ◌++◌, ltb, if◌then◌else◌, length, get_elem?, set, replicate,
}

-- The semaphores of the operating system: `sem_wait` gives nothing while it blocks, which it does
-- only at 0, and leaves the value one less where it returns; `sem_post` adds one.
pub record Semaphores (Sem : Type 0) : Type 0 where
  pub value : Sem → ℕ
  pub sem_init : ℕ → Sem
  pub sem_wait : Sem → Option Sem
  pub sem_post : Sem → Sem
  pub value-init : (v : ℕ) → value (sem_init v) ≡ v
  pub value-wait : (s t : Sem) → sem_wait s ≡ some t → value s ≡ suc (value t)
  pub value-post : (s : Sem) → value (sem_post s) ≡ suc (value s)
  pub wait-ready : (s : Sem) → 0 < value s → (t : Sem) × (sem_wait s ≡ some t)

-- `sbuf_t`.
pub record Sbuf (Sem : Type 0) : Type 0 where
  pub buf : List ℕ
  pub n : ℕ
  pub front : ℕ
  pub rear : ℕ
  pub mutex : Sem
  pub slots : Sem
  pub items : Sem

-- Where a thread is: outside, or before a statement of `sbuf_insert` or of `sbuf_remove`, with
-- the item that it brings or has got.
pub data Thread : Type 0 where
  idle : Thread
  insert_wait_slots : ℕ → Thread
  insert_wait_mutex : ℕ → Thread
  insert_store : ℕ → Thread
  insert_post_mutex : Thread
  insert_post_items : Thread
  remove_wait_items : Thread
  remove_wait_mutex : Thread
  remove_take : Thread
  remove_post_mutex : ℕ → Thread
  remove_post_slots : ℕ → Thread

-- `++` of an `int`: nothing where it overflows.
unfoldable pub increment : ℕ → Option ℕ
increment x = if ltb (x + 1) (2 ^ 31) then some (x + 1) else none

abbrev pub write : List ℕ → (i x : ℕ) → Option (List ℕ)
write xs i x = if ltb i (length xs) then some (set xs i x) else none

module _ {Sem : Type 0} (os : Semaphores Sem) where
  -- `sbuf_init` where no call in it fails; `Calloc` clears the array.
  unfoldable pub sbuf_init : ℕ → Sbuf Sem
  sbuf_init n = record {
    buf = replicate n 0;
    n = n;
    front = 0;
    rear = 0;
    mutex = os.sem_init 1;
    slots = os.sem_init n;
    items = os.sem_init 0;
  }

  -- `sp->buf[(++sp->rear) % (sp->n)] = item`; nothing where the access is outside the array.
  unfoldable pub store : Sbuf Sem → ℕ → Option (Sbuf Sem)
  store s item = do
    rear ← increment s.rear
    buf ← write s.buf (rear % s.n) item
    some (record s { rear = rear; buf = buf })

  -- `*item = sp->buf[(++sp->front) % (sp->n)]`.
  unfoldable pub take_item : Sbuf Sem → Option (ℕ × Sbuf Sem)
  take_item s = do
    front ← increment s.front
    item ← get_elem? s.buf (front % s.n)
    some (item, record s { front = front })

  -- The next statement of a thread; nothing where it blocks or its behaviour is undefined.
  unfoldable pub thread_step : Sbuf Sem → Thread → Option (Sbuf Sem × Thread)
  unfolding store take_item
  thread_step s idle = none
  thread_step s (insert_wait_slots x) = do
    t ← os.sem_wait s.slots
    some (record s { slots = t }, insert_wait_mutex x)
  thread_step s (insert_wait_mutex x) = do
    t ← os.sem_wait s.mutex
    some (record s { mutex = t }, insert_store x)
  thread_step s (insert_store x) = do t ← store s x; some (t, insert_post_mutex)
  thread_step s insert_post_mutex =
      some (record s { mutex = os.sem_post s.mutex }, insert_post_items)
  thread_step s insert_post_items = some (record s { items = os.sem_post s.items }, idle)
  thread_step s remove_wait_items = do
    t ← os.sem_wait s.items
    some (record s { items = t }, remove_wait_mutex)
  thread_step s remove_wait_mutex = do
    t ← os.sem_wait s.mutex
    some (record s { mutex = t }, remove_take)
  thread_step s remove_take = do (x, t) ← take_item s; some (t, remove_post_mutex x)
  thread_step s (remove_post_mutex x) =
      some (record s { mutex = os.sem_post s.mutex }, remove_post_slots x)
  thread_step s (remove_post_slots x) = some (record s { slots = os.sem_post s.slots }, idle)

-- A call of a semaphore operation, which can also return -1.
unfoldable pub at_semaphore : Thread → Bool
at_semaphore idle = false
at_semaphore (insert_store x) = false
at_semaphore remove_take = false
at_semaphore _ = true

pub record System (Sem : Type 0) : Type 0 where
  pub sbuf : Sbuf Sem
  pub threads : List Thread

-- One thread runs a statement, or calls an operation.
pub data Step {Sem : Type 0} (os : Semaphores Sem) : System Sem → System Sem → Type 0 where
  run :
      (s t : Sbuf Sem) (xs ys : List Thread) (th th' : Thread)
      → thread_step os s th ≡ some (t, th')
      → Step os
          (record { sbuf = s; threads = xs ++ th ∷ ys })
          (record { sbuf = t; threads = xs ++ th' ∷ ys })
  call_insert :
      (s : Sbuf Sem) (xs ys : List Thread) (x : ℕ)
      → Step os
          (record { sbuf = s; threads = xs ++ idle ∷ ys })
          (record { sbuf = s; threads = xs ++ insert_wait_slots x ∷ ys })
  call_remove :
      (s : Sbuf Sem) (xs ys : List Thread)
      → Step os
          (record { sbuf = s; threads = xs ++ idle ∷ ys })
          (record { sbuf = s; threads = xs ++ remove_wait_items ∷ ys })

-- What happens after `sbuf_init`, with any number of threads, and whether a semaphore operation
-- has returned -1, at which `sbuf_insert` and `sbuf_remove` return at once.
pub data Reach {Sem : Type 0} (os : Semaphores Sem) (n threads : ℕ)
    : Bool → System Sem → Type 0 where
  start :
      Reach os n threads false (record { sbuf = sbuf_init os n; threads = replicate threads idle })
  next :
      {failed : Bool} {s t : System Sem}
      → Reach os n threads failed s
      → Step os s t
      → Reach os n threads failed t
  error :
      {failed : Bool} (s : Sbuf Sem) (xs ys : List Thread) (th : Thread)
      → Reach os n threads failed (record { sbuf = s; threads = xs ++ th ∷ ys })
      → at_semaphore th ≡ true
      → Reach os n threads true (record { sbuf = s; threads = xs ++ idle ∷ ys })
