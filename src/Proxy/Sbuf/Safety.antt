-- ===== src/Proxy/Sbuf/Safety.antt =====
-- What holds whenever threads share the buffer of proxylab/sbuf.c, from `sbuf_init` on.
use mathlib.Core.Path.{subst}
use cs_app_labs.Prelude.{
  ℕ, zero, suc, ◌+◌, ◌-◌, ◌≤◌, ◌≡◌, refl, sym, Bool, true, false, Option, some, List, ◌∷◌, ◌++◌,
  length, replicate, length-replicate, arith,
}
use cs_app_labs.Proxy.Sbuf.{
  Semaphores, Sbuf, Thread, idle, insert_wait_slots, remove_wait_items, sbuf_init, thread_step,
  System, Step, run, call_insert, call_remove, Reach, start, next, error,
}
use cs_app_labs.Proxy.Sbuf.Ring.{length-ring}
use cs_app_labs.Proxy.Sbuf.Statements.{thread_step-Next}
use cs_app_labs.Proxy.Sbuf.Inv.{
  slot_tokens, item_tokens, in_section, total, total-split, queue, OnResult, Consistent, Effect,
}

total-idle : (w : Thread → ℕ) (k : ℕ) → w idle ≡ 0 → total w (replicate k idle) ≡ 0
total-idle w zero h = refl
total-idle w (suc k) h = omega (arith, h, total-idle w k h)

-- What errors have left: without one, all of it.
abbrev pub Left : Bool → (n m f o : ℕ) → Type 0
Left true n m f o = Unit
Left false n m f o = (m ≡ n) × (f ≡ 0) × (o ≡ 1)

OnResult-some :
    {X : Type 0} (P : X → Type 0) {o : Option X} (x : X) → o ≡ some x → OnResult P o → P x
OnResult-some P x e h = subst (OnResult P) e h

module _ {Sem : Type 0} (os : Semaphores Sem) (n : ℕ) where
  abbrev pub ConsistentSystem : (m f o : ℕ) → System Sem → Type 0
  ConsistentSystem m f o sys =
      Consistent os n m f o (total slot_tokens sys.threads) (total item_tokens sys.threads)
        (total in_section sys.threads) sys.sbuf

  -- The tokens of one thread, and those of the others.
  module _ (m f o : ℕ) (s : Sbuf Sem) (xs ys : List Thread) (th : Thread) where
    abbrev Apart : Type 0
    Apart =
        Consistent os n m f o (slot_tokens th + (total slot_tokens xs + total slot_tokens ys))
          (item_tokens th + (total item_tokens xs + total item_tokens ys))
          (in_section th + (total in_section xs + total in_section ys)) s

    Consistent-split : ConsistentSystem m f o (record { sbuf = s; threads = xs ++ th ∷ ys }) → Apart
    Consistent-split i =
        rw
          (
            sym (total-split slot_tokens xs ys th),
            sym (total-split item_tokens xs ys th),
            sym (total-split in_section xs ys th),
          )
          i

    Consistent-join : Apart → ConsistentSystem m f o (record { sbuf = s; threads = xs ++ th ∷ ys })
    Consistent-join i =
        rw
          (
            total-split slot_tokens xs ys th,
            total-split item_tokens xs ys th,
            total-split in_section xs ys th,
          )
          i

  thread_step-Effect :
      (m f o : ℕ) (s t : Sbuf Sem) (xs ys : List Thread) (th th' : Thread)
      → ConsistentSystem m f o (record { sbuf = s; threads = xs ++ th ∷ ys })
      → thread_step os s th ≡ some (t, th')
      → ConsistentSystem m f o (record { sbuf = t; threads = xs ++ th' ∷ ys })
        × Effect os s th (t, th')
  thread_step-Effect m f o s t xs ys th th' i e =
      let (j, effect) =
        OnResult-some _ (t, th') e
          (thread_step-Next os n m f o _ _ _ s th (Consistent-split m f o s xs ys th i)) in
      (Consistent-join m f o t xs ys th' j, effect)

  Step-Consistent :
      (m f o : ℕ) {sys sys' : System Sem}
      → Step os sys sys'
      → ConsistentSystem m f o sys
      → ConsistentSystem m f o sys'
  Step-Consistent m f o (run s t xs ys th th' e) i =
      (thread_step-Effect m f o s t xs ys th th' i e).0
  Step-Consistent m f o (call_insert s xs ys x) i =
      Consistent-join m f o s xs ys (insert_wait_slots x) (Consistent-split m f o s xs ys idle i)
  Step-Consistent m f o (call_remove s xs ys) i =
      Consistent-join m f o s xs ys remove_wait_items (Consistent-split m f o s xs ys idle i)

  -- An error loses what the thread had taken.
  lose :
      (m f o : ℕ) (s : Sbuf Sem) (xs ys : List Thread) (th : Thread)
      → ConsistentSystem m f o (record { sbuf = s; threads = xs ++ th ∷ ys })
      → ConsistentSystem
          (m - slot_tokens th)
          (f + item_tokens th)
          (o - in_section th)
          (record { sbuf = s; threads = xs ++ idle ∷ ys })
  lose m f o s xs ys th i =
      let j = Consistent-split m f o s xs ys th i in
      Consistent-join _ _ _ s xs ys idle (record {
        places = j.places;
        size = j.size;
        order = j.order;
        room = omega (arith, j.room);
        filled = omega (arith, j.filled);
        one = omega (arith, j.one);
        room_cap = omega (arith, j.room_cap);
        one_cap = omega (arith, j.one_cap);
      })

  start-Consistent :
      (k : ℕ)
      → ConsistentSystem n 0 1 (record { sbuf = sbuf_init os n; threads = replicate k idle })
  unfolding sbuf_init
  start-Consistent k = record {
    places = refl;
    size = length-replicate n 0;
    order = omega arith;
    room = omega (arith, os.value-init n, total-idle slot_tokens k refl);
    filled = omega (arith, os.value-init 0, total-idle item_tokens k refl);
    one = omega (arith, os.value-init 1, total-idle in_section k refl);
    room_cap = omega arith;
    one_cap = omega arith;
  }

  pub Reach-Consistent :
      (k : ℕ) {failed : Bool} {sys : System Sem}
      → Reach os n k failed sys
      → (m f o : ℕ) × ConsistentSystem m f o sys × Left failed n m f o
  Reach-Consistent k start = (n, 0, 1, start-Consistent k, (refl, refl, refl))
  Reach-Consistent k (next r st) =
      let (m, f, o, i, left) = Reach-Consistent k r in (m, f, o, Step-Consistent m f o st i, left)
  Reach-Consistent k (error s xs ys th r at) =
      let (m, f, o, i, left) = Reach-Consistent k r in
      (m - slot_tokens th, f + item_tokens th, o - in_section th, lose m f o s xs ys th i, tt)

-- Whatever the threads do after `sbuf_init`, errors of semaphore operations included, at most one
-- of them is between taking and posting `mutex`, and the buffer never holds more than `n` items.
pub Reach-exclusion :
    {Sem : Type 0} (os : Semaphores Sem) (n k : ℕ) {failed : Bool} (sys : System Sem)
    → Reach os n k failed sys
    → (total in_section sys.threads ≤ 1) × (length (queue sys.sbuf) ≤ n)
Reach-exclusion os n k sys r =
    let (m, f, o, i, left) = Reach-Consistent os n k r in
    let s = sys.sbuf in
    (
      omega (arith, i.one, i.one_cap),
      rw (length-ring s.buf s.n s.front (s.rear - s.front)) (omega (arith, i.room, i.room_cap)),
    )

-- Whatever the threads have done after `sbuf_init`, errors included, the statement that stores an
-- item puts it behind the others in the buffer, which has room for it, the statement that takes an
-- item takes the first one of the buffer, and no other statement changes the items.
pub Reach-Effect :
    {Sem : Type 0} (os : Semaphores Sem) (n k : ℕ) {failed : Bool} (s t : Sbuf Sem)
    (xs ys : List Thread) (th th' : Thread)
    → Reach os n k failed (record { sbuf = s; threads = xs ++ th ∷ ys })
    → thread_step os s th ≡ some (t, th')
    → Effect os s th (t, th')
Reach-Effect os n k s t xs ys th th' r e =
    let (m, f, o, i, left) = Reach-Consistent os n k r in
    (thread_step-Effect os n m f o s t xs ys th th' i e).1
