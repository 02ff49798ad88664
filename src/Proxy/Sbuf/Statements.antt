-- ===== src/Proxy/Sbuf/Statements.antt =====
-- One statement of a thread at the buffer of proxylab/sbuf.c keeps what holds of the buffer.
use native.Mathlib.Nat.{mod-lt}
use cs_app_labs.Prelude.{
  ℕ, suc, ◌+◌, ◌-◌, ◌%◌, ◌^◌, ◌<◌, ◌≡◌, refl, sym, ap, ◌∙◌, some, ◌∷◌, ltb, ◌>>=◌, length, get_or,
  length-set, arith, Option-cases, Bool-cases, inl, inr, lt→ltb,
}
use cs_app_labs.Proxy.Sbuf.{
  Semaphores, Sbuf, Thread, idle, insert_wait_slots, insert_wait_mutex, insert_store,
  insert_post_mutex, insert_post_items, remove_wait_items, remove_wait_mutex, remove_take,
  remove_post_mutex, remove_post_slots, increment, store, take_item, thread_step,
}
use cs_app_labs.Proxy.Sbuf.Ring.{ring, length-ring, ring-set, get_elem?-ring}
use cs_app_labs.Proxy.Sbuf.Inv.{
  slot_tokens, item_tokens, in_section, queue, OnResult, Consistent, Effect,
}

module _ {Sem : Type 0} (os : Semaphores Sem) where
  module _ (n m f o a b c : ℕ) where
    abbrev Next : Sbuf Sem → Thread → Sbuf Sem × Thread → Type 0
    Next s th (t, th') =
        Consistent os n m f o (slot_tokens th' + a) (item_tokens th' + b) (in_section th' + c) t
        × Effect os s th (t, th')

    popped :
        (s : Sbuf Sem)
        → s.rear - s.front ≡ suc (s.rear - (s.front + 1))
        → queue s
          ≡ get_or s.buf ((s.front + 1) % s.n) 0
            ∷ ring s.buf s.n (s.front + 1) (s.rear - (s.front + 1))
    unfolding ring
    popped s shorter = ap (ring s.buf s.n s.front) shorter

    waits :
        (s : Sbuf Sem) (sem : Sem) (th : Thread) (k : Sem → Sbuf Sem × Thread)
        → ((t : Sem) → os.value sem ≡ suc (os.value t) → Next s th (k t))
        → OnResult (Next s th) (os.sem_wait sem >>= (λ t. some (k t)))
    waits s sem th k h = elim (Option-cases (os.sem_wait sem)) [
      | inl e ↦ rw e tt
      | inr (t, e) ↦ rw e (h t (os.value-wait sem t e))
    ]

    store-Next :
        (s : Sbuf Sem) (x : ℕ)
        → Consistent os n m f o
            (slot_tokens (insert_store x) + a)
            (item_tokens (insert_store x) + b)
            (in_section (insert_store x) + c)
            s
        → OnResult (Next s (insert_store x)) (store os s x >>= (λ t. some (t, insert_post_mutex)))
    unfolding store increment
    store-Next s x i = elim (Bool-cases (ltb (s.rear + 1) (2 ^ 31))) [
      | inl small ↦
          let room : s.rear - s.front < n = omega (arith, i.room, i.room_cap) in
          let place : (s.rear + 1) % s.n < length s.buf = omega (
            arith,
            i.places,
            i.size,
            room,
            mod-lt (s.rear + 1) {m = s.n} (omega (arith, i.places, room)),
          ) in
          let longer : (s.rear + 1) - s.front ≡ suc (s.rear - s.front) = omega (arith, i.order) in
          let pushed =
            ring-set s.buf s.n s.front (s.rear - s.front) (s.rear + 1) x (omega (arith, i.order))
              (omega (arith, i.places, room)) (i.size ∙ sym i.places) in
          rw (small, lt→ltb ((s.rear + 1) % s.n) (length s.buf) place)
            (
              record {
                places = i.places;
                size = length-set s.buf ((s.rear + 1) % s.n) x ∙ i.size;
                order = omega (arith, i.order);
                room = omega (arith, i.room, i.room_cap, longer);
                filled = omega (arith, i.filled, longer);
                one = omega (arith, i.one);
                room_cap = i.room_cap;
                one_cap = i.one_cap;
              },
              (
                refl,
                rw longer pushed,
                rw (length-ring s.buf s.n s.front (s.rear - s.front))
                    (omega (arith, i.places, room)),
              ),
            )
      | inr large ↦ rw large tt
    ]

    take_item-Next :
        (s : Sbuf Sem)
        → Consistent os n m f o
            (slot_tokens remove_take + a)
            (item_tokens remove_take + b)
            (in_section remove_take + c)
            s
        → OnResult
            (Next s remove_take)
            (take_item os s >>= (λ r. some (r.1, remove_post_mutex r.0)))
    unfolding take_item increment
    take_item-Next s i = elim (Bool-cases (ltb (s.front + 1) (2 ^ 31))) [
      | inl small ↦
          let some_item : 0 < s.rear - s.front = omega (arith, i.filled) in
          let shorter : s.rear - s.front ≡ suc (s.rear - (s.front + 1)) =
            omega (arith, some_item) in
          let first =
            get_elem?-ring s.buf s.n s.front
              (omega (arith, i.places, i.room, i.room_cap, some_item)) (i.size ∙ sym i.places) in
          rw (small, first)
            (
              record {
                places = i.places;
                size = i.size;
                order = omega (arith, some_item);
                room = omega (arith, i.room, i.room_cap, shorter);
                filled = omega (arith, i.filled, shorter);
                one = omega (arith, i.one);
                room_cap = i.room_cap;
                one_cap = i.one_cap;
              },
              (get_or s.buf ((s.front + 1) % s.n) 0, refl, popped s shorter),
            )
      | inr large ↦ rw large tt
    ]

    pub thread_step-Next :
        (s : Sbuf Sem) (th : Thread)
        → Consistent os n m f o (slot_tokens th + a) (item_tokens th + b) (in_section th + c) s
        → OnResult (Next s th) (thread_step os s th)
    unfolding thread_step
    thread_step-Next s idle i = tt
    thread_step-Next s (insert_wait_slots x) i = waits s s.slots (insert_wait_slots x) _ (λ t e. (
      record {
        places = i.places;
        size = i.size;
        order = i.order;
        room = omega (arith, e, i.room);
        filled = omega (arith, i.filled);
        one = omega (arith, i.one);
        room_cap = i.room_cap;
        one_cap = i.one_cap;
      },
      refl,
    ))
    thread_step-Next s (insert_wait_mutex x) i = waits s s.mutex (insert_wait_mutex x) _ (λ t e. (
      record {
        places = i.places;
        size = i.size;
        order = i.order;
        room = omega (arith, i.room, i.room_cap);
        filled = omega (arith, i.filled);
        one = omega (arith, e, i.one);
        room_cap = i.room_cap;
        one_cap = i.one_cap;
      },
      refl,
    ))
    thread_step-Next s remove_wait_items i = waits s s.items remove_wait_items _ (λ t e. (
      record {
        places = i.places;
        size = i.size;
        order = i.order;
        room = omega (arith, i.room, i.room_cap);
        filled = omega (arith, e, i.filled);
        one = omega (arith, i.one);
        room_cap = i.room_cap;
        one_cap = i.one_cap;
      },
      refl,
    ))
    thread_step-Next s remove_wait_mutex i = waits s s.mutex remove_wait_mutex _ (λ t e. (
      record {
        places = i.places;
        size = i.size;
        order = i.order;
        room = omega (arith, i.room, i.room_cap);
        filled = omega (arith, i.filled);
        one = omega (arith, e, i.one);
        room_cap = i.room_cap;
        one_cap = i.one_cap;
      },
      refl,
    ))
    thread_step-Next s insert_post_mutex i = (
      record {
        places = i.places;
        size = i.size;
        order = i.order;
        room = omega (arith, i.room, i.room_cap);
        filled = omega (arith, i.filled);
        one = omega (arith, os.value-post s.mutex, i.one);
        room_cap = i.room_cap;
        one_cap = i.one_cap;
      },
      refl,
    )
    thread_step-Next s insert_post_items i = (
      record {
        places = i.places;
        size = i.size;
        order = i.order;
        room = omega (arith, i.room, i.room_cap);
        filled = omega (arith, os.value-post s.items, i.filled);
        one = omega (arith, i.one);
        room_cap = i.room_cap;
        one_cap = i.one_cap;
      },
      refl,
    )
    thread_step-Next s (remove_post_mutex x) i = (
      record {
        places = i.places;
        size = i.size;
        order = i.order;
        room = omega (arith, i.room, i.room_cap);
        filled = omega (arith, i.filled);
        one = omega (arith, os.value-post s.mutex, i.one);
        room_cap = i.room_cap;
        one_cap = i.one_cap;
      },
      refl,
    )
    thread_step-Next s (remove_post_slots x) i = (
      record {
        places = i.places;
        size = i.size;
        order = i.order;
        room = omega (arith, os.value-post s.slots, i.room);
        filled = omega (arith, i.filled);
        one = omega (arith, i.one);
        room_cap = i.room_cap;
        one_cap = i.one_cap;
      },
      refl,
    )
    thread_step-Next s (insert_store x) i = store-Next s x i
    thread_step-Next s remove_take i = take_item-Next s i
