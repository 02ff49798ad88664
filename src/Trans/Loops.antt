-- ===== src/Trans/Loops.antt =====
-- What a loop of cachelab/trans.c does, from what its body does: the cells that are set.
use cs_app_labs.Prelude.{
  ◌>>=◌, ℕ, zero, suc, ◌+◌, ◌*◌, ◌^◌, ◌≡◌, ◌<◌, ◌≤◌, refl, sym, ap, ◌∙◌, Bool, true, false, ◌||◌,
  Option, some, ltb, if◌then◌else◌, arith, Bool-cases, inl, inr, ltb→lt, lt→ltb,
}
use cs_app_labs.Trans.Matrix.{Matrix, int_sum, for_loop, for_from}

-- `f` ends, sets the cells `k`, `i` of `touch` to the transposed elements of `a`, and no others.
abbrev pub Sets : Matrix → (ℕ → ℕ → Bool) → (Matrix → Option Matrix) → Type 0
Sets a touch f =
    (b : Matrix)
    → (c : Matrix) × (f b ≡ some c) × ((k i : ℕ) → c k i ≡ (if touch k i then a i k else b k i))

-- Some round of a loop has the property.
unfoldable pub any_round : (fuel x bound step : ℕ) → (ℕ → Bool) → Bool
any_round zero x bound step p = false
any_round (suc fuel) x bound step p =
    if ltb x bound then p x || any_round fuel (x + step) bound step p else false

abbrev pub any_from : (x bound step : ℕ) → (ℕ → Bool) → Bool
any_from x bound step p = any_round (suc bound) x bound step p

if-or :
    (p q : Bool) (u v w c : ℕ)
    → w ≡ (if p then u else v)
    → c ≡ (if q then u else w)
    → c ≡ (if p || q then u else v)
if-or true true u v w c hw hc = hc
if-or true false u v w c hw hc = hc ∙ hw
if-or false true u v w c hw hc = hc
if-or false false u v w c hw hc = hc ∙ hw

pub int_sum-small : (x y : ℕ) → x + y < 2 ^ 31 → int_sum x y ≡ some (x + y)
unfolding int_sum
int_sum-small x y small = rw (lt→ltb (x + y) (2 ^ 31) small) refl

-- One round, and the end, of a loop.
for_loop-run :
    (fuel x bound step : ℕ) (body : ℕ → Matrix → Option Matrix) (b : Matrix)
    → ltb x bound ≡ true
    → x + step < 2 ^ 31
    → for_loop (suc fuel) x bound step body b
      ≡ body x b >>= for_loop fuel (x + step) bound step body
unfolding for_loop
for_loop-run fuel x bound step body b inside small = rw (inside, int_sum-small x step small) refl

for_loop-end :
    (fuel x bound step : ℕ) (body : ℕ → Matrix → Option Matrix) (b : Matrix)
    → ltb x bound ≡ false
    → for_loop (suc fuel) x bound step body b ≡ some b
unfolding for_loop
for_loop-end fuel x bound step body b outside = rw outside refl

any_round-run :
    (fuel x bound step : ℕ) (p : ℕ → Bool)
    → ltb x bound ≡ true
    → any_round (suc fuel) x bound step p ≡ (p x || any_round fuel (x + step) bound step p)
unfolding any_round
any_round-run fuel x bound step p inside = rw inside refl

any_round-end :
    (fuel x bound step : ℕ) (p : ℕ → Bool)
    → ltb x bound ≡ false
    → any_round (suc fuel) x bound step p ≡ false
unfolding any_round
any_round-end fuel x bound step p outside = rw outside refl

or_true-right : (p : Bool) → p || true ≡ true
or_true-right true = refl
or_true-right false = refl

module _ (a : Matrix) where
  -- One action after another.
  pub Sets-bind :
      (s t : ℕ → ℕ → Bool) (f g : Matrix → Option Matrix)
      → Sets a s f
      → Sets a t g
      → Sets a (λ k i. s k i || t k i) (λ b. f b >>= g)
  Sets-bind s t f g hf hg b =
      let (c, runs, cells) = hf b in
      let (d, runs', cells') = hg c in
      (
        d,
        rw runs runs',
        λ k i. if-or (s k i) (t k i) (a i k) (b k i) (c k i) (d k i) (cells k i) (cells' k i),
      )

  -- An action that starts with a number that is known.
  pub Sets-known :
      (s : ℕ → ℕ → Bool) (o : Option ℕ) (e : ℕ) (f : ℕ → Matrix → Option Matrix)
      → o ≡ some e
      → Sets a s (f e)
      → Sets a s (λ b. o >>= (λ x. f x b))
  Sets-known s o e f known h b = rw known (h b)

  -- A loop whose body sets cells at every round sets those of all rounds.
  pub for_loop-Sets :
      (fuel x bound step : ℕ) (touch : ℕ → ℕ → ℕ → Bool) (body : ℕ → Matrix → Option Matrix)
      → 0 < step
      → bound + step ≤ 2 ^ 31
      → bound < x + fuel
      → 0 < fuel
      → ((t y : ℕ) → y ≡ x + t * step → y < bound → Sets a (touch y) (body y))
      → Sets a
          (λ k i. any_round fuel x bound step (λ y. touch y k i))
          (for_loop fuel x bound step body)
  for_loop-Sets zero x bound step touch body up small enough live each b = absurd (omega arith)
  for_loop-Sets (suc fuel) x bound step touch body up small enough live each b =
      elim (Bool-cases (ltb x bound)) [
        | inl inside ↦
            let lt : x < bound = ltb→lt x bound inside in
            let rest =
              for_loop-Sets fuel (x + step) bound step touch body up small (omega arith)
                (omega arith) (λ t y at hi. each (suc t) y (omega arith) hi) in
            let (d, runs, cells) =
              Sets-bind (touch x) (λ k i. any_round fuel (x + step) bound step (λ y. touch y k i))
                (body x) (for_loop fuel (x + step) bound step body) (each 0 x (omega arith) lt) rest
                b in
            (
              d,
              for_loop-run fuel x bound step body b inside (omega (arith, lt, small)) ∙ runs,
              λ k i. rw (any_round-run fuel x bound step (λ y. touch y k i) inside) (cells k i),
            )
        | inr outside ↦ (
          b,
          for_loop-end fuel x bound step body b outside,
          λ k i. rw (any_round-end fuel x bound step (λ y. touch y k i) outside) refl,
        )
      ]

  pub for_from-Sets :
      (x bound step : ℕ) (touch : ℕ → ℕ → ℕ → Bool) (body : ℕ → Matrix → Option Matrix)
      → 0 < step
      → bound + step ≤ 2 ^ 31
      → ((t y : ℕ) → y ≡ x + t * step → y < bound → Sets a (touch y) (body y))
      → Sets a (λ k i. any_from x bound step (λ y. touch y k i)) (for_from x bound step body)
  for_from-Sets x bound step touch body up small each =
      for_loop-Sets (suc bound) x bound step touch body up small (omega arith) (omega arith) each

-- A round that is run, and that has the property.
pub any_round-true :
    (fuel x bound step t y : ℕ) (p : ℕ → Bool)
    → t < fuel
    → y ≡ x + t * step
    → y < bound
    → p y ≡ true
    → any_round fuel x bound step p ≡ true
any_round-true zero x bound step t y p few at inside holds = absurd (omega arith)
any_round-true (suc fuel) x bound step zero y p few at inside holds =
    let here : y ≡ x = omega arith in
    rw (any_round-run fuel x bound step p (lt→ltb x bound (omega arith)), ap p (sym here) ∙ holds)
      refl
any_round-true (suc fuel) x bound step (suc t) y p few at inside holds =
    rw
      (
        any_round-run fuel x bound step p (lt→ltb x bound (omega arith)),
        any_round-true fuel (x + step) bound step t y p (omega arith) (omega arith) inside holds,
      )
      (or_true-right (p x))

-- No round that is run has the property.
pub any_round-false :
    (fuel x bound step : ℕ) (p : ℕ → Bool)
    → ((t y : ℕ) → y ≡ x + t * step → y < bound → p y ≡ false)
    → any_round fuel x bound step p ≡ false
unfolding any_round
any_round-false zero x bound step p fails = refl
any_round-false (suc fuel) x bound step p fails = elim (Bool-cases (ltb x bound)) [
  | inl inside ↦
      rw (any_round-run fuel x bound step p inside, fails 0 x (omega arith) (ltb→lt x bound inside))
        (any_round-false fuel (x + step) bound step p
          (λ t y at hi. fails (suc t) y (omega arith) hi))
  | inr outside ↦ any_round-end fuel x bound step p outside
]
