-- ===== src/Isa/Memory/Bytes.antt =====
-- The loops of the word accesses of archlab/sim/misc/isa.c against words in little-endian order.
use native.Mathlib.Nat.{pow-le-pow_right, pow-suc}
use native.Mathlib.Numerals.{towards_suc}
use native.Mathlib.Decide.{dec_lt}
use cs_app_labs.Prelude.{
  ℕ, zero, suc, ◌+◌, ◌-◌, ◌*◌, ◌/◌, ◌%◌, ◌^◌, ◌≤◌, ◌<◌, ◌≡◌, ◌≢◌, ◌⊎◌, inl, refl, ap, ◌∙◌, Option,
  some, List, [], ◌∷◌, bit_and, bit_or, arith, get_elem?, get_or, set, length, length-set,
}
use cs_app_labs.Prelude.Bits.{bit_or-fields, bit_or_comm, bit_and-mask}
use cs_app_labs.Isa.Word.{u64, sign_bit}
use cs_app_labs.Isa.Memory.{store_at, read_loop, write_loop, shift_byte}

abbrev pub AllBytes : List ℕ → Type 0
AllBytes [] = Unit {0}
AllBytes (b ∷ bs) = (b < 256) × AllBytes bs

-- The number that `n` bytes from `pos` stand for, the lowest first.
abbrev pub word_at : (n : ℕ) → List ℕ → (pos : ℕ) → ℕ
word_at zero bytes pos = 0
word_at (suc n) bytes pos = get_or bytes pos 0 + 256 * word_at n bytes (pos + 1)

pub get_elem?-get_or :
    (bytes : List ℕ) (pos : ℕ)
    → pos < length bytes
    → get_elem? bytes pos ≡ some (get_or bytes pos 0)
get_elem?-get_or [] pos h = absurd (omega arith)
get_elem?-get_or (b ∷ bs) zero h = refl
get_elem?-get_or (b ∷ bs) (suc pos) h = get_elem?-get_or bs pos (omega arith)

pub get_or-lt : (bytes : List ℕ) (pos : ℕ) → AllBytes bytes → get_or bytes pos 0 < 256
get_or-lt [] pos h = omega arith
get_or-lt (b ∷ bs) zero h = h.0
get_or-lt (b ∷ bs) (suc pos) h = get_or-lt bs pos h.1

pub get_or-set_self :
    (bytes : List ℕ) (pos v : ℕ) → pos < length bytes → get_or (set bytes pos v) pos 0 ≡ v
get_or-set_self [] pos v h = absurd (omega arith)
get_or-set_self (b ∷ bs) zero v h = refl
get_or-set_self (b ∷ bs) (suc pos) v h = get_or-set_self bs pos v (omega arith)

pub get_or-set_ne :
    (bytes : List ℕ) (i j v : ℕ) → i ≢ j → get_or (set bytes i v) j 0 ≡ get_or bytes j 0
get_or-set_ne [] i j v h = refl
get_or-set_ne (b ∷ bs) zero zero v h = absurd (h refl)
get_or-set_ne (b ∷ bs) zero (suc j) v h = refl
get_or-set_ne (b ∷ bs) (suc i) zero v h = refl
get_or-set_ne (b ∷ bs) (suc i) (suc j) v h = get_or-set_ne bs i j v (λ e. h (ap suc e))

pub set-AllBytes :
    (bytes : List ℕ) (pos v : ℕ) → AllBytes bytes → v < 256 → AllBytes (set bytes pos v)
set-AllBytes [] pos v h lt = h
set-AllBytes (b ∷ bs) zero v h lt = (lt, h.1)
set-AllBytes (b ∷ bs) (suc pos) v h lt = (h.0, set-AllBytes bs pos v h.1 lt)

-- The scale of byte `i`, and that of the next one.
scale-add : (k : ℕ) → 2 ^ (k + 8) ≡ 256 * 2 ^ k
scale-add k = simp towards_suc (omega (arith, pow-suc 2 k))

scale-suc : (i : ℕ) → 2 ^ (8 * (i + 1)) ≡ 256 * 2 ^ (8 * i)
scale-suc i = let e : 8 * (i + 1) ≡ 8 * i + 8 = omega arith in rw e (scale-add (8 * i))

scale-le : (i : ℕ) → i ≤ 8 → 2 ^ (8 * i) ≤ 2 ^ 64
scale-le i h = pow-le-pow_right (omega arith) {j = 64} (omega arith)

-- A byte at the scale `s`, above a part that is below it.
below_next : (s b v : ℕ) → b < 256 → v < s → v + b * s < 256 * s
below_next s b v hb hv = grind arith

-- One more byte above those read so far.
add_byte :
    (i b val : ℕ)
    → i < 8
    → b < 256
    → val < 2 ^ (8 * i)
    → bit_or val (u64 (bit_and b 0xff * 2 ^ (8 * i))) ≡ val + b * 2 ^ (8 * i)
add_byte i b val hi hb hv =
    let byte : bit_and b 0xff ≡ b = omega (arith, bit_and-mask 8 b) in
    let fits : u64 (b * 2 ^ (8 * i)) ≡ b * 2 ^ (8 * i) =
      omega (
        arith,
        below_next (2 ^ (8 * i)) b val hb hv,
        scale-suc i,
        scale-le (i + 1) (omega arith),
      ) in
    rw (byte, fits, bit_or_comm val (b * 2 ^ (8 * i)), bit_or-fields (8 * i) b val hv) (omega arith)

-- The loop adds the bytes that are left above those read so far.
pub read_loop-word_at :
    (left i : ℕ) (bytes : List ℕ) (pos val : ℕ)
    → i + left ≤ 8
    → pos + i + left ≤ length bytes
    → AllBytes bytes
    → val < 2 ^ (8 * i)
    → read_loop left i bytes pos val ≡ some (val + 2 ^ (8 * i) * word_at left bytes (pos + i))
unfolding read_loop
read_loop-word_at zero i bytes pos val h fits all low = ap some (omega arith)
read_loop-word_at (suc left) i bytes pos val h fits all low =
    let b = get_or bytes (pos + i) 0 in
    let in_byte : b < 256 = get_or-lt bytes (pos + i) all in
    let low' : val + b * 2 ^ (8 * i) < 2 ^ (8 * (i + 1)) =
      omega (arith, below_next (2 ^ (8 * i)) b val in_byte low, scale-suc i) in
    let rest =
      read_loop-word_at left (i + 1) bytes pos (val + b * 2 ^ (8 * i)) (omega arith) (omega arith)
        all low' in
    let next : pos + (i + 1) ≡ pos + i + 1 = omega arith in
    rw (get_elem?-get_or bytes (pos + i) (omega arith), add_byte i b val (omega arith) in_byte low)
      (rest ∙ ap some (rw (next, scale-suc i) (omega arith)))

-- The bytes that `n` rounds of `val >>= 8` store, as a number.
pub stored : (n : ℕ) → ℕ → ℕ
stored zero val = 0
stored (suc n) val = val % 256 + 256 * stored n (shift_byte val)

-- What `left` rounds from byte `i` of `pos` leave behind.
pub record IsWritten (bytes : List ℕ) (lo n val : ℕ) (result : Option (List ℕ)) : Type 0 where
  pub out : List ℕ
  pub returns : result ≡ some out
  pub same_length : length out ≡ length bytes
  pub still_bytes : AllBytes out
  pub inside : word_at n out lo ≡ stored n val
  pub elsewhere : (j : ℕ) → (j < lo) ⊎ (lo + n ≤ j) → get_or out j 0 ≡ get_or bytes j 0

pub store_at-in :
    (bytes : List ℕ) (pos v : ℕ)
    → pos < length bytes
    → store_at bytes pos v ≡ some (set bytes pos v)
unfolding store_at
store_at-in bytes pos v h = ground arith

low_byte : (val : ℕ) → bit_and (val % 256) 0xff ≡ val % 256
low_byte val = omega (arith, bit_and-mask 8 (val % 256))

IsWritten-suc :
    (bytes : List ℕ) (lo n val next : ℕ) {result : Option (List ℕ)}
    → next ≡ lo + 1
    → lo < length bytes
    → IsWritten (set bytes lo (val % 256)) next n (shift_byte val) result
    → IsWritten bytes lo (suc n) val result
unfolding stored
IsWritten-suc bytes lo n val next e here rest = record {
  out = rest.out;
  returns = rest.returns;
  same_length = rest.same_length ∙ length-set bytes lo (val % 256);
  still_bytes = rest.still_bytes;
  inside = rw (← e) (
      omega (
        arith,
        rest.inside,
        rest.elsewhere lo (inl (omega arith)),
        get_or-set_self bytes lo (val % 256) here,
      ));
  elsewhere =
      λ j h. rest.elsewhere j (grind arith) ∙ get_or-set_ne bytes lo j (val % 256) (grind arith);
}

pub write_loop-IsWritten :
    (left i : ℕ) (bytes : List ℕ) (pos val : ℕ)
    → pos + i + left ≤ length bytes
    → AllBytes bytes
    → IsWritten bytes (pos + i) left val (write_loop left i bytes pos val)
unfolding write_loop stored
write_loop-IsWritten zero i bytes pos val fits all = record {
  out = bytes;
  returns = refl;
  same_length = refl;
  still_bytes = all;
  inside = refl;
  elsewhere = λ j h. refl;
}
write_loop-IsWritten (suc left) i bytes pos val fits all =
    let here : pos + i < length bytes = omega arith in
    let next : List ℕ = set bytes (pos + i) (val % 256) in
    let same : length next ≡ length bytes = length-set bytes (pos + i) (val % 256) in
    let rest =
      write_loop-IsWritten left (i + 1) next pos (shift_byte val) (omega arith)
        (set-AllBytes bytes (pos + i) (val % 256) all (omega arith)) in
    rw (low_byte val, store_at-in bytes (pos + i) (val % 256) here)
      (IsWritten-suc bytes (pos + i) left val (pos + (i + 1)) (omega arith) here rest)

stored_nonneg : (n v : ℕ) → v < sign_bit → v < 256 ^ n → stored n v ≡ v
unfolding stored
stored_nonneg zero v pos fits = omega arith
stored_nonneg (suc n) v pos fits =
    ground (arith, stored_nonneg n (v / 256) (omega arith) (omega (arith, pow-suc 256 n)))

stored_negative :
    (n w : ℕ) → w < sign_bit → w < 256 ^ n → stored n (2 ^ 64 - 1 - w) + w + 1 ≡ 256 ^ n
unfolding stored
stored_negative zero w pos fits = omega arith
stored_negative (suc n) w pos fits =
    let shifted : shift_byte (2 ^ 64 - 1 - w) ≡ 2 ^ 64 - 1 - w / 256 = ground arith in
    rw shifted (
      omega (
        arith,
        pow-suc 256 n,
        stored_negative n (w / 256) (omega arith) (omega (arith, pow-suc 256 n)),
      ))

-- Eight rounds store every word whole, of either sign.
pub stored_word : (v : ℕ) → v < 2 ^ 64 → stored 8 v ≡ v
stored_word v h = elim (dec_lt v sign_bit) [
  | yes small ↦ stored_nonneg 8 v small (omega arith)
  | no large ↦
      let back : 2 ^ 64 - 1 - (2 ^ 64 - 1 - v) ≡ v = omega arith in
      let whole = stored_negative 8 (2 ^ 64 - 1 - v) (omega arith) (omega arith) in
      omega (arith, ap (stored 8) back, whole)
]
