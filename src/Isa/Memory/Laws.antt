-- ===== src/Isa/Memory/Laws.antt =====
-- What the accesses of `mem_t` in archlab/sim/misc/isa.c promise each other.
use cs_app_labs.Prelude.{
  ℕ, zero, suc, ◌+◌, ◌-◌, ◌^◌, ◌≤◌, ◌<◌, ◌≡◌, ◌⊎◌, refl, ap, sym, ◌∙◌, true, false, some, List,
  arith, length, get_or,
}
use cs_app_labs.Isa.Memory.{Mem, outside, get_word_val, set_word_val}
use cs_app_labs.Isa.Memory.Bytes.{
  AllBytes, word_at, read_loop-word_at, write_loop-IsWritten, stored, stored_word,
}

-- A memory whose length is that of its array and fits a C `int`.
pub record IsMem (m : Mem) : Type 0 where
  pub sized : m.len ≡ length m.contents
  pub int_len : m.len < 2 ^ 31
  pub all_bytes : AllBytes m.contents

-- A word access at `pos` stays inside the array.
abbrev pub InBounds : Mem → ℕ → Type 0
InBounds m pos = pos + 8 ≤ m.len

module _ (m : Mem) (pos : ℕ) where
  pub outside-in : m.len < 2 ^ 31 → InBounds m pos → outside m pos ≡ false
  unfolding outside
  outside-in int h = ground arith

  -- Below the addresses whose sum with 8 wraps, the test refuses exactly what is out of bounds.
  pub outside-out :
      m.len < 2 ^ 31
      → pos < 2 ^ 64
      → (pos < 2 ^ 63 - 8) ⊎ (2 ^ 63 ≤ pos)
      → m.len < pos + 8
      → outside m pos ≡ true
  unfolding outside
  outside-out int word below h = ground arith

  -- At the eight addresses below `2 ^ 63` the sum wraps to a negative number, and the test passes.
  pub outside-wrap : m.len < 2 ^ 31 → 2 ^ 63 ≤ pos + 8 → pos < 2 ^ 63 → outside m pos ≡ false
  unfolding outside
  outside-wrap int low high = ground arith

  pub get_word_val-in :
      IsMem m → InBounds m pos → get_word_val m pos ≡ some (some (word_at 8 m.contents pos))
  unfolding get_word_val
  get_word_val-in mem h =
      let start : pos + 0 ≡ pos = omega arith in
      let read =
        read_loop-word_at 8 0 m.contents pos 0 (omega arith) (omega arith) mem.all_bytes
          (omega arith) in
      rw (outside-in mem.int_len h, read, start) (ap (λ (v : ℕ). some (some v)) (omega arith))

-- What a store of the word `val` at `pos` leaves of the memory.
pub record IsStored (m : Mem) (pos val : ℕ) (m' : Mem) : Type 0 where
  pub mem : IsMem m'
  pub same_len : m'.len ≡ m.len
  pub inside : word_at 8 m'.contents pos ≡ val
  pub elsewhere :
      (j : ℕ) → (j < pos) ⊎ (pos + 8 ≤ j) → get_or m'.contents j 0 ≡ get_or m.contents j 0

-- In bounds the store succeeds.
pub set_word_val-in :
    (m : Mem) (pos val : ℕ)
    → IsMem m
    → InBounds m pos
    → val < 2 ^ 64
    → (m' : Mem) × (set_word_val m pos val ≡ some (some m')) × IsStored m pos val m'
unfolding set_word_val
set_word_val-in m pos val mem h fits =
    let start : pos + 0 ≡ pos = omega arith in
    let written = write_loop-IsWritten 8 0 m.contents pos val (omega arith) mem.all_bytes in
    (
      record m { contents = written.out },
      rw (outside-in m pos mem.int_len h, written.returns) refl,
      record {
        mem = record {
          sized = omega (arith, written.same_length);
          int_len = mem.int_len;
          all_bytes = written.still_bytes;
        };
        same_len = refl;
        inside = ap (word_at 8 written.out) (sym start) ∙ written.inside ∙ stored_word val fits;
        elsewhere = λ j out. written.elsewhere j (grind arith);
      },
    )

pub word_at-same :
    (n : ℕ) (bytes bytes' : List ℕ) (pos : ℕ)
    → ((j : ℕ) → pos ≤ j → j < pos + n → get_or bytes' j 0 ≡ get_or bytes j 0)
    → word_at n bytes' pos ≡ word_at n bytes pos
word_at-same zero bytes bytes' pos same = refl
word_at-same (suc n) bytes bytes' pos same = omega (
  arith,
  same pos,
  word_at-same n bytes bytes' (pos + 1) (λ j lo hi. same j (omega arith) (omega arith)),
)

-- In bounds of a valid memory a word can be stored and is then read back, and a word in bounds
-- that does not overlap it reads as before.
pub get_word_val-set_word_val :
    (m : Mem) (pos val other : ℕ)
    → IsMem m
    → InBounds m pos
    → InBounds m other
    → val < 2 ^ 64
    → (other + 8 ≤ pos) ⊎ (pos + 8 ≤ other)
    → (m' : Mem) × (set_word_val m pos val ≡ some (some m'))
      × (get_word_val m' pos ≡ some (some val))
      × (get_word_val m' other ≡ get_word_val m other)
get_word_val-set_word_val m pos val other mem h ho fits apart =
    let (m', returns, stored) = set_word_val-in m pos val mem h fits in
    (
      m',
      returns,
      get_word_val-in m' pos stored.mem (omega (arith, stored.same_len))
          ∙ ap (λ v. some (some v)) stored.inside,
      get_word_val-in m' other stored.mem (omega (arith, stored.same_len))
          ∙ ap (λ v. some (some v))
              (word_at-same 8 m.contents m'.contents other
                (λ j lo hi. stored.elsewhere j (grind arith)))
          ∙ sym (get_word_val-in m other mem ho),
    )
