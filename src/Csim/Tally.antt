-- ===== src/Csim/Tally.antt =====
-- How far the counters of cachelab/csim.c go: an access moves each of them by 2 at most.
use cs_app_labs.Prelude.{
  ℕ, ◌+◌, ◌*◌, ◌/◌, ◌%◌, ◌^◌, ◌≤◌, ◌||◌, List, [], ◌∷◌, arith, ◌==◌, Bool-cases, inl, inr, length,
}
use cs_app_labs.Csim.Set.{Counters}
use cs_app_labs.Csim.Sim.{Access}
use cs_app_labs.Csim.Lru.{Lru, contains, tally, touch, serve, serve_all}

abbrev pub AreAtMost : ℕ → Counters → Type 0
AreAtMost n c = (c.hits ≤ n) × (c.misses ≤ n) × (c.evictions ≤ n)

AreAtMost-weaken : (n k : ℕ) (c : Counters) → n ≤ k → AreAtMost n c → AreAtMost k c
AreAtMost-weaken n k c le (hits, misses, evictions) = (omega arith, omega arith, omega arith)

tally-AreAtMost :
    (n ways tag : ℕ) (xs : List ℕ) (c : Counters)
    → AreAtMost n c
    → AreAtMost (n + 1) (tally ways tag xs c)
unfolding tally
tally-AreAtMost n ways tag xs c (hits, misses, evictions) = elim (Bool-cases (contains tag xs)) [
  | inl hit ↦ rw hit (omega arith, omega arith, omega arith)
  | inr miss ↦ elim (Bool-cases (length xs == ways)) [
    | inl full ↦ rw (miss, full) (omega arith, omega arith, omega arith)
    | inr room ↦ rw (miss, room) (omega arith, omega arith, omega arith)
  ]
]

touch-AreAtMost :
    (n ways k tag : ℕ) (c : Lru)
    → AreAtMost n c.count
    → AreAtMost (n + 1) (touch ways k tag c).count
unfolding touch
touch-AreAtMost n ways k tag c most = tally-AreAtMost n ways tag (c.tags k) c.count most

serve-AreAtMost :
    (s b ways n : ℕ) (a : Access) (c : Lru)
    → AreAtMost n c.count
    → AreAtMost (n + 2) (serve s b ways a c).count
unfolding serve
serve-AreAtMost s b ways n a c most =
    let k = a.address / 2 ^ b % 2 ^ s in
    let tag = a.address / 2 ^ b / 2 ^ s in
    let once = touch-AreAtMost n ways k tag c most in
    let twice = touch-AreAtMost (n + 1) ways k tag (touch ways k tag c) once in
    elim (Bool-cases (a.command == b'S' || a.command == b'L')) [
      | inl one ↦ rw one (AreAtMost-weaken (n + 1) (n + 2) _ (omega arith) once)
      | inr not_one ↦ elim (Bool-cases (a.command == b'M')) [
        | inl two ↦ rw (not_one, two) (AreAtMost-weaken (n + 1 + 1) (n + 2) _ (omega arith) twice)
        | inr unknown ↦ rw (not_one, unknown) (AreAtMost-weaken n (n + 2) _ (omega arith) most)
      ]
    ]

pub serve_all-AreAtMost :
    (s b ways : ℕ) (trace : List Access) (c : Lru) (n : ℕ)
    → AreAtMost n c.count
    → AreAtMost (n + 2 * length trace) (serve_all s b ways trace c).count
unfolding serve_all
serve_all-AreAtMost s b ways [] c n most = AreAtMost-weaken n (n + 2 * 0) c.count (omega arith) most
serve_all-AreAtMost s b ways (a ∷ as') c n most =
    AreAtMost-weaken (n + 2 + 2 * length as') (n + 2 * length (a ∷ as')) _ (omega arith) (
      serve_all-AreAtMost s b ways as' (serve s b ways a c) (n + 2)
        (serve-AreAtMost s b ways n a c most))
