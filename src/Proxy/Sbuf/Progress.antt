-- ===== src/Proxy/Sbuf/Progress.antt =====
-- While no call fails, the threads at the buffer of proxylab/sbuf.c do not block one another.
use native.Mathlib.Nat.{mod-lt}
use cs_app_labs.Prelude.{
  ℕ, ◌+◌, ◌-◌, ◌%◌, ◌^◌, ◌<◌, ◌≤◌, ◌≡◌, inl, inr, refl, sym, ap, ◌∙◌, false, some, List, [], ◌∷◌,
  ◌++◌, ltb, lt→ltb, ltb→lt, Bool-cases, length, get_or, set, arith,
}
use cs_app_labs.Proxy.Sbuf.{
  Semaphores, Sbuf, Thread, idle, insert_wait_slots, insert_wait_mutex, insert_store,
  insert_post_mutex, insert_post_items, remove_wait_items, remove_wait_mutex, remove_take,
  remove_post_mutex, remove_post_slots, thread_step, increment, store, take_item, System, Reach,
}
use cs_app_labs.Proxy.Sbuf.Ring.{length-ring, get_elem?-ring}
use cs_app_labs.Proxy.Sbuf.Inv.{
  slot_tokens, item_tokens, in_section, total, total-split, queue, Consistent,
}
use cs_app_labs.Proxy.Sbuf.Safety.{ConsistentSystem, Reach-Consistent}

-- Some thread can run its next statement.
abbrev pub CanGo : {Sem : Type 0} → Semaphores Sem → System Sem → Type 0
CanGo {Sem} os sys =
    (xs ys : List Thread) × (th th' : Thread) × (t : Sbuf Sem) × (sys.threads ≡ xs ++ th ∷ ys)
    × (thread_step os sys.sbuf th ≡ some (t, th'))

-- `front` and `rear` can still be incremented.
abbrev pub CanCount : {Sem : Type 0} → Sbuf Sem → Type 0
CanCount s = s.rear + 1 < 2 ^ 31

find :
    (w : Thread → ℕ) (ths : List Thread)
    → 0 < total w ths
    → (xs ys : List Thread) × (th : Thread) × (ths ≡ xs ++ th ∷ ys) × (0 < w th)
find w [] h = absurd (omega arith)
find w (th ∷ ths) h = elim (Bool-cases (ltb 0 (w th))) [
  | inl here ↦ ([], ths, th, refl, ground arith)
  | inr later ↦
      let (xs, ys, th', e, some_weight) = find w ths (ground arith) in
      (th ∷ xs, ys, th', ap (λ ths'. th ∷ ths') e, some_weight)
]

module _ {Sem : Type 0} (os : Semaphores Sem) where
  abbrev Goes : Sbuf Sem → Thread → Type 0
  Goes s th = (th' : Thread) × (t : Sbuf Sem) × (thread_step os s th ≡ some (t, th'))

  module _ (n m f o a b c : ℕ) (s : Sbuf Sem) (i : Consistent os n m f o a b c s)
      (small : CanCount s) where
    -- The accesses to the array are inside it.
    store-runs : (x : ℕ) → 0 < a → (t : Sbuf Sem) × (store os s x ≡ some t)
    unfolding store increment
    store-runs x some_token =
        let place : (s.rear + 1) % s.n < length s.buf = omega (
          arith,
          i.places,
          i.size,
          i.room,
          i.room_cap,
          mod-lt (s.rear + 1) {m = s.n} (omega (arith, i.places, i.room, i.room_cap)),
        ) in
        (
          record s { rear = s.rear + 1; buf = set s.buf ((s.rear + 1) % s.n) x },
          rw (lt→ltb (s.rear + 1) (2 ^ 31) small, lt→ltb ((s.rear + 1) % s.n) (length s.buf) place)
              refl,
        )

    take_item-runs : 0 < b → (r : ℕ × Sbuf Sem) × (take_item os s ≡ some r)
    unfolding take_item increment
    take_item-runs some_token =
        let first =
          get_elem?-ring s.buf s.n s.front (omega (arith, i.places, i.room, i.room_cap, i.filled))
            (i.size ∙ sym i.places) in
        (
          (get_or s.buf ((s.front + 1) % s.n) 0, record s { front = s.front + 1 }),
          rw (lt→ltb (s.front + 1) (2 ^ 31) (omega (arith, i.filled)), first) refl,
        )

    -- A thread that holds `mutex` goes on.
    section-Goes :
        (th : Thread) → 0 < in_section th → item_tokens th ≤ b → slot_tokens th ≤ a → Goes s th
    unfolding thread_step
    section-Goes (insert_store x) h hb ha =
        let (t, e) = store-runs x ha in (insert_post_mutex, t, rw e refl)
    section-Goes insert_post_mutex h hb ha = (insert_post_items, _, refl)
    section-Goes remove_take h hb ha =
        let ((x, t), e) = take_item-runs hb in (remove_post_mutex x, t, rw e refl)
    section-Goes (remove_post_mutex x) h hb ha = (remove_post_slots x, _, refl)
    section-Goes _ h hb ha = absurd (omega arith)

    -- A thread that has taken from the other semaphores goes on if `mutex` is free.
    token-Goes :
        (th : Thread)
        → 0 < slot_tokens th + item_tokens th
        → in_section th ≡ 0
        → 0 < os.value s.mutex
        → Goes s th
    unfolding thread_step
    token-Goes (insert_wait_mutex x) h out free =
        let (t, e) = os.wait-ready s.mutex free in
        (insert_store x, record s { mutex = t }, rw e refl)
    token-Goes insert_post_items h out free = (idle, _, refl)
    token-Goes remove_wait_mutex h out free =
        let (t, e) = os.wait-ready s.mutex free in (remove_take, record s { mutex = t }, rw e refl)
    token-Goes (remove_post_slots x) h out free = (idle, _, refl)
    token-Goes _ h out free = absurd (omega arith)

  -- A thread inside an operation that is not to wait for another one to fill or empty the buffer.
  abbrev pub IsServed : ℕ → Sbuf Sem → Thread → Type 0
  IsServed n s idle = ⊥
  IsServed n s (insert_wait_slots x) = length (queue s) < n
  IsServed n s remove_wait_items = 0 < length (queue s)
  IsServed n s _ = Unit

  Consistent-same :
      {n m f o a b c m' f' o' a' b' c' : ℕ} {s : Sbuf Sem}
      → m ≡ m'
      → f ≡ f'
      → o ≡ o'
      → a ≡ a'
      → b ≡ b'
      → c ≡ c'
      → Consistent os n m f o a b c s
      → Consistent os n m' f' o' a' b' c' s
  Consistent-same em ef eo ea eb ec i = record {
    places = i.places;
    size = i.size;
    order = i.order;
    room = omega (arith, i.room);
    filled = omega (arith, i.filled);
    one = omega (arith, i.one);
    room_cap = omega (arith, i.room_cap);
    one_cap = omega (arith, i.one_cap);
  }

  -- The thread itself, when no thread has taken anything.
  first-Goes :
      (n : ℕ) (s : Sbuf Sem) (th : Thread)
      → Consistent os n n 0 1 0 0 0 s
      → IsServed n s th
      → slot_tokens th + item_tokens th ≡ 0
      → Goes s th
  unfolding thread_step
  first-Goes n s (insert_wait_slots x) i served none =
      let free : 0 < os.value s.slots =
        omega (arith, i.room, served, length-ring s.buf s.n s.front (s.rear - s.front)) in
      let (t, e) = os.wait-ready s.slots free in
      (insert_wait_mutex x, record s { slots = t }, rw e refl)
  first-Goes n s remove_wait_items i served none =
      let free : 0 < os.value s.items =
        omega (arith, i.filled, served, length-ring s.buf s.n s.front (s.rear - s.front)) in
      let (t, e) = os.wait-ready s.items free in
      (remove_wait_mutex, record s { items = t }, rw e refl)
  first-Goes n s idle i served none = absurd served
  first-Goes n s _ i served none = absurd (omega arith)

  module _ (n : ℕ) (s : Sbuf Sem) (ths : List Thread) where
    found-CanGo :
        (w : Thread → ℕ)
        → 0 < total w ths
        → ((xs ys : List Thread) (th : Thread) → ths ≡ xs ++ th ∷ ys → 0 < w th → Goes s th)
        → CanGo os (record { sbuf = s; threads = ths })
    found-CanGo w some_weight goes =
        let (xs, ys, th, e, h) = find w ths some_weight in
        let (th', t, runs) = goes xs ys th e h in (xs, ys, th, th', t, e, runs)

    total-at :
        (w : Thread → ℕ) (xs ys : List Thread) (th : Thread)
        → ths ≡ xs ++ th ∷ ys
        → total w ths ≡ w th + (total w xs + total w ys)
    total-at w xs ys th e = ap (total w) e ∙ total-split w xs ys th

    Consistent-CanGo :
        (xs ys : List Thread) (th : Thread)
        → ConsistentSystem os n n 0 1 (record { sbuf = s; threads = ths })
        → CanCount s
        → ths ≡ xs ++ th ∷ ys
        → IsServed n s th
        → CanGo os (record { sbuf = s; threads = ths })
    Consistent-CanGo xs ys th i small e served = elim (Bool-cases (ltb 0 (total in_section ths))) [
      | inl held ↦ found-CanGo in_section (ltb→lt 0 _ held) (λ xs' ys' th' e' h.
          section-Goes n n 0 1 _ _ _ s i small th' h
            (omega (arith, total-at item_tokens xs' ys' th' e'))
            (omega (arith, total-at slot_tokens xs' ys' th' e')))
      | inr not_held ↦
          let no_holder : total in_section ths ≡ 0 = ground arith in
          let free : 0 < os.value s.mutex = omega (arith, i.one, no_holder) in
          elim (Bool-cases (ltb 0 (total slot_tokens ths))) [
            | inl some_slot ↦ found-CanGo slot_tokens (ltb→lt 0 _ some_slot) (λ xs' ys' th' e' h.
                token-Goes n n 0 1 _ _ _ s i small th' (omega (arith, h))
                  (omega (arith, no_holder, total-at in_section xs' ys' th' e')) free)
            | inr no_slot ↦ elim (Bool-cases (ltb 0 (total item_tokens ths))) [
              | inl some_item ↦ found-CanGo item_tokens (ltb→lt 0 _ some_item) (λ xs' ys' th' e' h.
                  token-Goes n n 0 1 _ _ _ s i small th' (omega (arith, h))
                    (omega (arith, no_holder, total-at in_section xs' ys' th' e')) free)
              | inr no_item ↦
                  let a : total slot_tokens ths ≡ 0 = ground arith in
                  let b : total item_tokens ths ≡ 0 = ground arith in
                  let i0 : Consistent os n n 0 1 0 0 0 s =
                    Consistent-same refl refl refl a b no_holder i in
                  let (th', t, runs) = first-Goes n s th i0 served (
                    omega (
                      arith,
                      a,
                      b,
                      total-at slot_tokens xs ys th e,
                      total-at item_tokens xs ys th e,
                    )) in
                  (xs, ys, th, th', t, e, runs)
            ]
          ]
    ]

-- While no semaphore operation has failed and the counters have not reached the end of `int`, some
-- thread can run its next statement if one thread is inside an operation: in `sbuf_insert`, unless
-- it waits for a place in a full buffer, or in `sbuf_remove`, unless it waits for an item in an
-- empty one.
pub Reach-CanGo :
    {Sem : Type 0} (os : Semaphores Sem) (n k : ℕ) (s : Sbuf Sem) (xs ys : List Thread)
    (th : Thread)
    → Reach os n k false (record { sbuf = s; threads = xs ++ th ∷ ys })
    → CanCount s
    → IsServed os n s th
    → CanGo os (record { sbuf = s; threads = xs ++ th ∷ ys })
Reach-CanGo os n k s xs ys th r small served =
    let (m, f, o, i, left) = Reach-Consistent os n k r in
    Consistent-CanGo os n s (xs ++ th ∷ ys) xs ys th
      (Consistent-same os left.0 left.1 left.2 refl refl refl i) small refl served
