-- ===== src/Proxy/Sbuf/Inv.antt =====
-- What holds of the buffer of proxylab/sbuf.c and its threads between any two statements.
use cs_app_labs.Prelude.{
  ℕ, ◌+◌, ◌-◌, ◌<◌, ◌≤◌, ◌≡◌, Option, none, some, List, [], ◌∷◌, ◌++◌, length, arith,
}
use cs_app_labs.Proxy.Sbuf.{
  Semaphores, Sbuf, Thread, insert_wait_mutex, insert_store, insert_post_mutex, insert_post_items,
  remove_wait_mutex, remove_take, remove_post_mutex, remove_post_slots,
}
use cs_app_labs.Proxy.Sbuf.Ring.{ring}

-- A thread that has taken from `slots` and not yet stored, or has taken an item and not yet
-- posted `slots`.
abbrev pub slot_tokens : Thread → ℕ
slot_tokens (insert_wait_mutex x) = 1
slot_tokens (insert_store x) = 1
slot_tokens (remove_post_mutex x) = 1
slot_tokens (remove_post_slots x) = 1
slot_tokens _ = 0

abbrev pub item_tokens : Thread → ℕ
item_tokens insert_post_mutex = 1
item_tokens insert_post_items = 1
item_tokens remove_wait_mutex = 1
item_tokens remove_take = 1
item_tokens _ = 0

-- A thread between waiting for `mutex` and posting it.
abbrev pub in_section : Thread → ℕ
in_section (insert_store x) = 1
in_section insert_post_mutex = 1
in_section remove_take = 1
in_section (remove_post_mutex x) = 1
in_section _ = 0

abbrev pub total : (Thread → ℕ) → List Thread → ℕ
total w [] = 0
total w (th ∷ ths) = w th + total w ths

pub total-split :
    (w : Thread → ℕ) (xs ys : List Thread) (th : Thread)
    → total w (xs ++ th ∷ ys) ≡ w th + (total w xs + total w ys)
total-split w [] ys th = omega arith
total-split w (x ∷ xs) ys th = omega (arith, total-split w xs ys th)

-- The items in the buffer, in the order in which they come out.
abbrev pub queue : {Sem : Type 0} → Sbuf Sem → List ℕ
queue s = ring s.buf s.n s.front (s.rear - s.front)

-- Whatever the result is, it has the property.
abbrev pub OnResult : {X : Type 0} → (X → Type 0) → Option X → Type 0
OnResult P none = Unit
OnResult P (some x) = P x

module _ {Sem : Type 0} (os : Semaphores Sem) where
  -- The semaphores account for the free places and the items, less what threads have taken, and
  -- for one thread that can hold `mutex`. `m`, `f` and `o` are what errors have left of it.
  pub record Consistent (n m f o slots items sections : ℕ) (s : Sbuf Sem) : Type 0 where
    pub places : s.n ≡ n
    pub size : length s.buf ≡ n
    pub order : s.front ≤ s.rear
    pub room : os.value s.slots + slots + (s.rear - s.front) ≡ m
    pub filled : os.value s.items + items + f ≡ s.rear - s.front
    pub one : os.value s.mutex + sections ≡ o
    pub room_cap : m ≤ n
    pub one_cap : o ≤ 1

  -- What a statement does to the queue of items.
  abbrev pub Effect : Sbuf Sem → Thread → Sbuf Sem × Thread → Type 0
  Effect s (insert_store x) (t, th) =
      (th ≡ insert_post_mutex) × (queue t ≡ queue s ++ (x ∷ [])) × (length (queue s) < s.n)
  Effect s remove_take (t, th) = (x : ℕ) × (th ≡ remove_post_mutex x) × (queue s ≡ x ∷ queue t)
  Effect s _ (t, th) = queue t ≡ queue s
