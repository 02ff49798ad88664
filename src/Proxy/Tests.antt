-- ===== src/Proxy/Tests.antt =====
-- The buffer of proxylab/sbuf.c at concrete inputs.
use cs_app_labs.Prelude.{
  ℕ, zero, suc, ◌<◌, ◌≤◌, ◌≡◌, refl, true, false, Option, none, some, [], ◌∷◌, length, replicate,
  arith,
}
use cs_app_labs.Proxy.Sbuf.{
  Semaphores, Sbuf, idle, insert_wait_slots, insert_wait_mutex, insert_store, insert_post_mutex,
  sbuf_init, store, thread_step, increment, run, call_insert, Reach, start, next, error,
  at_semaphore,
}
use cs_app_labs.Proxy.Sbuf.Ring.{ring}
use cs_app_labs.Proxy.Sbuf.Inv.{in_section, total, queue, Effect}
use cs_app_labs.Proxy.Sbuf.Safety.{Reach-exclusion, Reach-Effect}
use cs_app_labs.Proxy.Sbuf.Progress.{CanGo, Reach-CanGo}

abbrev count_down : ℕ → Option ℕ
count_down zero = none
count_down (suc v) = some v

count_down-less : (s t : ℕ) → count_down s ≡ some t → s ≡ suc t
count_down-less zero t e = ground arith
count_down-less (suc v) t e = ground arith

count_down-ready : (s : ℕ) → 0 < s → (t : ℕ) × (count_down s ≡ some t)
count_down-ready zero h = absurd (omega arith)
count_down-ready (suc v) h = (v, refl)

abbrev counting : Semaphores ℕ
counting = record {
  value = λ v. v;
  sem_init = λ v. v;
  sem_wait = count_down;
  sem_post = λ v. suc v;
  value-init = λ v. refl;
  value-wait = count_down-less;
  value-post = λ v. refl;
  wait-ready = count_down-ready;
}

abbrev empty : Sbuf ℕ
empty = record { buf = replicate 4 0; n = 4; front = 0; rear = 0; mutex = 1; slots = 4; items = 0 }

abbrev place_taken : Sbuf ℕ
place_taken = record empty { slots = 3 }

abbrev locked : Sbuf ℕ
locked = record place_taken { mutex = 0 }

abbrev stored : Sbuf ℕ
stored = record locked { rear = 1; buf = 0 ∷ 7 ∷ 0 ∷ 0 ∷ [] }

-- The first of two threads has come to the statement that stores its item.
reach_store :
    Reach counting 4 2 false (record { sbuf = locked; threads = insert_store 7 ∷ idle ∷ [] })
unfolding sbuf_init thread_step
reach_store =
    next
      (next (next start (call_insert empty [] (idle ∷ []) 7))
        (run empty place_taken [] (idle ∷ []) (insert_wait_slots 7) (insert_wait_mutex 7) refl))
      (run place_taken locked [] (idle ∷ []) (insert_wait_mutex 7) (insert_store 7) refl)

step_store : thread_step counting locked (insert_store 7) ≡ some (stored, insert_post_mutex)
unfolding thread_step store increment
step_store = refl

Reach-exclusion_example :
    (total in_section (insert_store 7 ∷ idle ∷ []) ≤ 1) × (length (queue locked) ≤ 4)
Reach-exclusion_example =
    Reach-exclusion counting 4 2 (record { sbuf = locked; threads = insert_store 7 ∷ idle ∷ [] })
      reach_store

Reach-Effect_example : Effect counting locked (insert_store 7) (stored, insert_post_mutex)
Reach-Effect_example =
    Reach-Effect counting 4 2 locked stored [] (idle ∷ []) (insert_store 7) insert_post_mutex
      reach_store step_store

Reach-CanGo_example :
    CanGo counting (record { sbuf = locked; threads = insert_store 7 ∷ idle ∷ [] })
Reach-CanGo_example =
    Reach-CanGo counting 4 2 locked [] (idle ∷ []) (insert_store 7) reach_store (omega arith) tt

queue-stored : queue stored ≡ 7 ∷ []
unfolding ring
queue-stored = refl

-- A call that fails at `mutex` has taken a place for good: the buffer counts 3 of its 4 places.
reach_lost : Reach counting 4 2 true (record { sbuf = place_taken; threads = idle ∷ idle ∷ [] })
unfolding sbuf_init thread_step at_semaphore
reach_lost =
    error place_taken [] (idle ∷ []) (insert_wait_mutex 7)
      (next (next start (call_insert empty [] (idle ∷ []) 7))
        (run empty place_taken [] (idle ∷ []) (insert_wait_slots 7) (insert_wait_mutex 7) refl))
      refl
