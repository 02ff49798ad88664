-- ===== src/Isa/Memory/Cases.antt =====
-- Every outcome of the word accesses of archlab/sim/misc/isa.c, out of bounds included.
use cs_app_labs.Prelude.{
  ℕ, zero, suc, ◌+◌, ◌^◌, ◌≤◌, ◌<◌, ◌≡◌, ◌⊎◌, inl, inr, refl, false, none, some, List, [], ◌∷◌,
  arith, ltb, length, get_elem?,
}
use native.Mathlib.Decide.{dec_lt, dec_le}
use native.Mathlib.Nat.{pow-suc}
use cs_app_labs.Isa.Memory.{Mem, store_at, get_word_val, set_word_val}
use cs_app_labs.Isa.Memory.Bytes.{AllBytes, word_at, get_or-lt}
use cs_app_labs.Isa.Memory.Laws.{IsMem, InBounds, outside-out, outside-wrap, get_word_val-in}

-- The eight addresses at which `pos + 8` wraps to a negative number.
abbrev pub Wraps : ℕ → Type 0
Wraps pos = (2 ^ 63 ≤ pos + 8) × (pos < 2 ^ 63)

get_elem?-out : (bytes : List ℕ) (pos : ℕ) → length bytes ≤ pos → get_elem? bytes pos ≡ none
get_elem?-out [] pos h = refl
get_elem?-out (b ∷ bs) zero h = absurd (omega arith)
get_elem?-out (b ∷ bs) (suc pos) h = get_elem?-out bs pos (omega arith)

module _ (m : Mem) (pos : ℕ) (mem : IsMem m) where
  pub get_word_val-Wraps : Wraps pos → get_word_val m pos ≡ none
  unfolding get_word_val
  get_word_val-Wraps w =
      rw
        (
          outside-wrap m pos mem.int_len w.0 w.1,
          get_elem?-out m.contents (pos + 0) (omega (arith, mem.sized, mem.int_len)),
        )
        refl

  pub set_word_val-Wraps : (val : ℕ) → Wraps pos → set_word_val m pos val ≡ none
  unfolding set_word_val store_at
  set_word_val-Wraps val w =
      let far : ltb (pos + 0) (length m.contents) ≡ false =
        ground (arith, mem.sized, mem.int_len) in
      rw (outside-wrap m pos mem.int_len w.0 w.1, far)

  pub get_word_val-refused :
      pos < 2 ^ 64 → ¬ Wraps pos → ¬ InBounds m pos → get_word_val m pos ≡ some none
  unfolding get_word_val
  get_word_val-refused word n out =
      rw (outside-out m pos mem.int_len word (grind arith) (omega arith))

  pub set_word_val-refused :
      (val : ℕ) → pos < 2 ^ 64 → ¬ Wraps pos → ¬ InBounds m pos → set_word_val m pos val ≡ some none
  unfolding set_word_val
  set_word_val-refused val word n out =
      rw (outside-out m pos mem.int_len word (grind arith) (omega arith))

-- Where an access may lie.
pub data Place (m : Mem) (pos : ℕ) : Type 0 where
  within : InBounds m pos → Place m pos
  beyond : ¬ InBounds m pos → ¬ Wraps pos → Place m pos
  wraps : Wraps pos → Place m pos

pub place : (m : Mem) (pos : ℕ) → Place m pos
place m pos = elim (dec_le (pos + 8) m.len) [
  | yes h ↦ within h
  | no h ↦ elim (dec_le (2 ^ 63) (pos + 8)) [
    | yes lo ↦ elim (dec_lt pos (2 ^ 63)) [
      | yes hi ↦ wraps (lo, hi)
      | no hi ↦ beyond h (λ w. hi w.1)
    ]
    | no lo ↦ beyond h (λ w. lo w.0)
  ]
]

-- On a valid memory a word read gives the word stored at addresses in bounds, is undefined at
-- the eight whose sum with 8 wraps, and is refused at all others.
pub get_word_val_cases :
    (m : Mem) (pos : ℕ)
    → IsMem m
    → pos < 2 ^ 64
    → (InBounds m pos × (get_word_val m pos ≡ some (some (word_at 8 m.contents pos))))
      ⊎ (¬ InBounds m pos × ¬ Wraps pos × (get_word_val m pos ≡ some none))
      ⊎ (Wraps pos × (get_word_val m pos ≡ none))
get_word_val_cases m pos mem word = elim (place m pos) [
  | within h ↦ inl (h, get_word_val-in m pos mem h)
  | beyond h n ↦ inr (inl (h, n, get_word_val-refused m pos mem word n h))
  | wraps w ↦ inr (inr (w, get_word_val-Wraps m pos mem w))
]

pub word_at-lt : (n : ℕ) (bytes : List ℕ) (pos : ℕ) → AllBytes bytes → word_at n bytes pos < 256 ^ n
word_at-lt zero bytes pos all = omega arith
word_at-lt (suc n) bytes pos all =
    omega (arith, pow-suc 256 n, get_or-lt bytes pos all, word_at-lt n bytes (pos + 1) all)
