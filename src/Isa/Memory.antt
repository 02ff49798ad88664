-- ===== src/Isa/Memory.antt =====
-- The memory of archlab/sim/misc/isa.c: an array of bytes with its length, and
-- its accesses by byte and by word. The outer `none` of a result is an access outside the array,
-- which C leaves undefined; the inner one is the `FALSE` that the function returns.
pub mod Bytes
pub mod Laws
pub mod Cases
use cs_app_labs.Prelude.{
  ◌>>=◌, ℕ, zero, suc, ◌+◌, ◌-◌, ◌*◌, ◌/◌, ◌%◌, ◌^◌, Bool, true, false, ◌||◌, not, Option, none,
  some, List, [], ◌∷◌, bit_and, bit_or, ltb, leb, if◌then◌else◌, get_elem?, set, length, replicate,
  take, drop, ◌++◌, ◌==◌,
}
use cs_app_labs.Isa.Word.{u64, is_negative, slt, add64, sign_bit}

pub record Mem : Type 0 where
  pub len : ℕ
  pub contents : List ℕ

abbrev pub block_size : ℕ
block_size = 32

-- `init_mem`: whole blocks of zeros.
unfoldable pub init_mem : ℕ → Mem
init_mem len =
    let rounded = (len + block_size - 1) / block_size * block_size in
    record { len = rounded; contents = replicate rounded 0 }

-- `clear_mem`.
unfoldable pub clear_mem : Mem → Mem
clear_mem m = record m { contents = replicate m.len 0 }

-- `m->contents[pos] = val`, undefined outside the array.
unfoldable pub store_at : List ℕ → ℕ → ℕ → Option (List ℕ)
store_at bytes pos val = if ltb pos (length bytes) then some (set bytes pos val) else none

-- `get_byte_val`.
unfoldable pub get_byte_val : Mem → ℕ → Option (Option ℕ)
get_byte_val m pos =
    if is_negative pos || not (slt pos m.len)
    then some none
    else do b ← get_elem? m.contents pos; some (some b)

-- `set_byte_val`; `none` inside is `FALSE`.
unfoldable pub set_byte_val : Mem → ℕ → ℕ → Option (Option Mem)
unfolding store_at
set_byte_val m pos val =
    if is_negative pos || not (slt pos m.len)
    then some none
    else do bytes ← store_at m.contents pos val; some (some (record m { contents = bytes }))

-- The loop of `get_word_val`, with `left` rounds to go.
unfoldable pub read_loop : (left i : ℕ) → List ℕ → (pos val : ℕ) → Option ℕ
read_loop zero i bytes pos val = some val
read_loop (suc left) i bytes pos val = do
  b ← get_elem? bytes (pos + i)
  read_loop left (i + 1) bytes pos (bit_or val (u64 (bit_and b 0xff * 2 ^ (8 * i))))

-- The test of both word accesses: `pos < 0 || pos + 8 > m->len`.
unfoldable pub outside : Mem → ℕ → Bool
outside m pos = is_negative pos || slt m.len (add64 pos 8)

-- `get_word_val`.
unfoldable pub get_word_val : Mem → ℕ → Option (Option ℕ)
unfolding outside read_loop
get_word_val m pos =
    if outside m pos then some none else do val ← read_loop 8 0 m.contents pos 0; some (some val)

-- `val >>= 8` on a signed word fills with copies of the sign.
abbrev pub shift_byte : ℕ → ℕ
shift_byte val = if is_negative val then val / 256 + (2 ^ 64 - 2 ^ 56) else val / 256

-- The loop of `set_word_val`.
unfoldable pub write_loop : (left i : ℕ) → List ℕ → (pos val : ℕ) → Option (List ℕ)
unfolding store_at
write_loop zero i bytes pos val = some bytes
write_loop (suc left) i bytes pos val = do
  next ← store_at bytes (pos + i) (bit_and (val % 256) 0xff)
  write_loop left (i + 1) next pos (shift_byte val)

-- `set_word_val`.
unfoldable pub set_word_val : Mem → ℕ → ℕ → Option (Option Mem)
unfolding outside write_loop
set_word_val m pos val =
    if outside m pos
    then some none
    else do bytes ← write_loop 8 0 m.contents pos val; some (some (record m { contents = bytes }))

-- `copy_mem`: a new memory of the rounded size, with the old bytes copied in.
unfoldable pub copy_mem : Mem → Mem
unfolding init_mem
copy_mem old =
    let new = init_mem old.len in
    record new { contents = take old.len old.contents ++ drop old.len new.contents }

-- What a variable that starts at 0 holds after a read into it.
abbrev pub word_or_zero : Option ℕ → ℕ
word_or_zero none = 0
word_or_zero (some v) = v

-- The loop of `diff_mem` without a file to report to: it stops at the first difference.
unfoldable pub diff_loop : (fuel : ℕ) → Mem → Mem → (pos len : ℕ) → Option Bool
unfolding get_word_val
diff_loop zero old new pos len = some false
diff_loop (suc fuel) old new pos len =
    let rest = diff_loop fuel old new (pos + 8) len in
    if ltb pos len
    then (do
      ov ← get_word_val old pos
      nv ← get_word_val new pos
      if word_or_zero nv == word_or_zero ov then rest else some true)
    else some false

-- `diff_mem`. Each round adds 8 to a position below `len`, so `len` rounds are enough.
unfoldable pub diff_mem : Mem → Mem → Option Bool
unfolding diff_loop
diff_mem old new =
    let len = if ltb new.len old.len then new.len else old.len in diff_loop (len + 1) old new 0 len
