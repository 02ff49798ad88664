-- ===== src/Isa/LoadFile.antt =====
-- `load_mem` of archlab/sim/misc/isa.c on whole object files.
use cs_app_labs.Prelude.{
  ◌%◌, ◌-◌, ◌==◌, ℕ, ◌+◌, ◌/◌, ◌^◌, ◌<◌, ◌≤◌, ◌≡◌, refl, ap, ◌∙◌, false, some, List, [], ◌∷◌, ◌++◌,
  ◌>>=◌, length, set, length-set, All, map, arith,
}
use mathlib.Core.List.{append_assoc}
use cs_app_labs.Isa.Memory.{Mem}
use cs_app_labs.Isa.Loader.{
  is_space, skip_white, next_line, get_code, after_address, from_prefix, load_line, load_lines,
  load_mem, line_len, fgets_buffers,
}
use cs_app_labs.Isa.LoaderLaws.{
  hex_digit, hex_bytes, set_bytes, digits_value, hex_digits, get_code-hex_bytes,
  get_address-hex_digits,
}

-- What a line of an object file shows: the digits of an address, bytes from there on, and the text
-- behind the bar.
pub record ObjectEntry : Type 0 where
  pub address : List ℕ
  pub bytes : List ℕ
  pub source : List ℕ

abbrev pub start_of : ObjectEntry → ℕ
start_of e = digits_value 0 e.address

-- `0x…: … |…`
abbrev pub object_line : ObjectEntry → List ℕ
object_line e =
    b'0'
    ∷ b'x'
    ∷ (hex_digits e.address ++ (b':' ∷ b' ' ∷ (hex_bytes e.bytes ++ (b' ' ∷ b'|' ∷ e.source))))

-- A text without a newline.
abbrev pub OneLine : List ℕ → Type 0
OneLine cs = All (λ c. (c == b'\n') ≡ false) cs

-- Lines one after another.
abbrev pub object_file : List ObjectEntry → List ℕ
object_file [] = []
object_file (e ∷ es) = object_line e ++ b'\n' ∷ object_file es

-- The digits and the bytes are such, the bytes lie in a memory of `len` bytes, and the text is one
-- line, which fits the buffer with its newline.
abbrev pub IsObjectEntry : ℕ → ObjectEntry → Type 0
IsObjectEntry len e =
    All (λ d. d < 16) e.address
    × All (λ b. b < 256) e.bytes
    × (start_of e + length e.bytes ≤ len)
    × OneLine e.source
    × (length (object_line e) + 1 < line_len)

abbrev pub load_entries : List ObjectEntry → List ℕ → List ℕ
load_entries [] contents = contents
load_entries (e ∷ es) contents = load_entries es (set_bytes contents (start_of e) e.bytes)

abbrev pub count_bytes : List ObjectEntry → ℕ
count_bytes [] = 0
count_bytes (e ∷ es) = length e.bytes + count_bytes es

length-set_bytes :
    (bytes : List ℕ) (pos : ℕ) (bs : List ℕ) → length (set_bytes bytes pos bs) ≡ length bytes
length-set_bytes bytes pos [] = refl
length-set_bytes bytes pos (b ∷ bs) =
    length-set_bytes (set bytes pos b) (pos + 1) bs ∙ length-set bytes pos b

is_space-hex_digit : (d : ℕ) → d < 16 → is_space (hex_digit d) ≡ false
is_space-hex_digit d h = ground arith

code-bytes :
    (m : Mem) (pos n : ℕ) (bs source : List ℕ)
    → length m.contents ≡ m.len
    → pos + length bs ≤ m.len
    → All (λ b. b < 256) bs
    → n + length bs < 2 ^ 31
    → get_code m pos n (skip_white (b' ' ∷ (hex_bytes bs ++ (b' ' ∷ b'|' ∷ source))))
      ≡ some (next_line (record m { contents = set_bytes m.contents pos bs }) (n + length bs))
unfolding skip_white
code-bytes m pos n [] source size room bytes few =
    get_code-hex_bytes m pos n [] b'|' source size room tt few refl
code-bytes m pos n (b ∷ bs) source size room (byte, bytes) few =
    let high : b / 16 < 16 = omega arith in
    rw (is_space-hex_digit (b / 16) high)
      (get_code-hex_bytes m pos n (b ∷ bs) b' ' (b'|' ∷ source) size room (byte, bytes) few refl)

load_line-object_line :
    (m : Mem) (n : ℕ) (e : ObjectEntry)
    → length m.contents ≡ m.len
    → m.len < 2 ^ 63
    → All (λ d. d < 16) e.address
    → All (λ b. b < 256) e.bytes
    → start_of e + length e.bytes ≤ m.len
    → n + length e.bytes < 2 ^ 31
    → load_line m n (object_line e)
      ≡ some (
          next_line
            (record m { contents = set_bytes m.contents (start_of e) e.bytes })
            (n + length e.bytes))
unfolding load_line from_prefix after_address skip_white
load_line-object_line m n e size small digits bytes room few =
    ap (λ r. r >>= (λ (r : ℕ × List ℕ). after_address m r.0 n (skip_white r.1)))
      (get_address-hex_digits 0 e.address b':'
        (b' ' ∷ (hex_bytes e.bytes ++ (b' ' ∷ b'|' ∷ e.source))) digits (omega (arith, room, small))
        refl)
    ∙ code-bytes m (start_of e) n e.bytes e.source size room bytes few

-- A line with its newline.
abbrev with_newline : ObjectEntry → List ℕ
with_newline e = object_line e ++ b'\n' ∷ []

-- The newline is part of the text behind the bar.
object_line-newline :
    (e : ObjectEntry) → with_newline e ≡ object_line (record e { source = e.source ++ b'\n' ∷ [] })
object_line-newline e =
    ap (λ cs. b'0' ∷ b'x' ∷ cs)
      (append_assoc (hex_digits e.address) _ (b'\n' ∷ [])
        ∙ ap (λ cs. hex_digits e.address ++ (b':' ∷ b' ' ∷ cs))
            (append_assoc (hex_bytes e.bytes) _ (b'\n' ∷ [])))

hex_digit-OneLine : (d : ℕ) → d < 16 → (hex_digit d == b'\n') ≡ false
hex_digit-OneLine d h = ground arith

OneLine-append : (xs ys : List ℕ) → OneLine xs → OneLine ys → OneLine (xs ++ ys)
OneLine-append [] ys h h' = h'
OneLine-append (x ∷ xs) ys (h, hs) h' = (h, OneLine-append xs ys hs h')

hex_digits-OneLine : (ds : List ℕ) → All (λ d. d < 16) ds → OneLine (hex_digits ds)
hex_digits-OneLine [] h = tt
hex_digits-OneLine (d ∷ ds) (h, hs) = (hex_digit-OneLine d h, hex_digits-OneLine ds hs)

hex_bytes-OneLine : (bs : List ℕ) → All (λ b. b < 256) bs → OneLine (hex_bytes bs)
hex_bytes-OneLine [] h = tt
hex_bytes-OneLine (b ∷ bs) (h, hs) = (
  hex_digit-OneLine (b / 16) (omega arith),
  (hex_digit-OneLine (b % 16) (omega arith), hex_bytes-OneLine bs hs),
)

object_line-OneLine : (len : ℕ) (e : ObjectEntry) → IsObjectEntry len e → OneLine (object_line e)
object_line-OneLine len e (digits, bytes, room, text, fits) = (
  refl,
  (
    refl,
    OneLine-append (hex_digits e.address) _ (hex_digits-OneLine e.address digits) (
      refl,
      (
        refl,
        OneLine-append (hex_bytes e.bytes) _ (hex_bytes-OneLine e.bytes bytes) (refl, (refl, text)),
      ),
    ),
  ),
)

-- A line that fits is one buffer.
fgets_buffers-line :
    (room : ℕ) (xs rest : List ℕ)
    → length xs < room
    → OneLine xs
    → fgets_buffers room (xs ++ b'\n' ∷ rest)
      ≡ (xs ++ b'\n' ∷ []) ∷ fgets_buffers (line_len - 1) rest
unfolding fgets_buffers
fgets_buffers-line room [] rest fits line = refl
fgets_buffers-line room (x ∷ xs) rest fits (other, line) =
    let not_full : (room == 1) ≡ false = ground arith in
    rw (other, not_full, fgets_buffers-line (room - 1) xs rest (omega arith) line) refl

fgets_buffers-object_file :
    (len : ℕ) (es : List ObjectEntry)
    → All (IsObjectEntry len) es
    → fgets_buffers (line_len - 1) (object_file es) ≡ map with_newline es
unfolding fgets_buffers
fgets_buffers-object_file len [] good = refl
fgets_buffers-object_file len (e ∷ es) (good, goods) =
    fgets_buffers-line (line_len - 1) (object_line e) (object_file es)
      (let (digits, bytes, room, text, fits) = good in omega arith) (object_line-OneLine len e good)
    ∙ ap (λ bufs. with_newline e ∷ bufs) (fgets_buffers-object_file len es goods)

load_lines-with_newline :
    (es : List ObjectEntry) (m : Mem) (n : ℕ)
    → length m.contents ≡ m.len
    → m.len < 2 ^ 63
    → All (IsObjectEntry m.len) es
    → n + count_bytes es < 2 ^ 31
    → load_lines (map with_newline es) m n
      ≡ some (record m { contents = load_entries es m.contents }, n + count_bytes es)
unfolding load_lines
load_lines-with_newline [] m n size small good few = ap (λ (k : ℕ). some (m, k)) (omega arith)
load_lines-with_newline (e ∷ es) m n size small ((digits, bytes, room, text, fits), goods) few =
    let t : Mem = record m { contents = set_bytes m.contents (start_of e) e.bytes } in
    let here =
      ap (load_line m n) (object_line-newline e)
      ∙ load_line-object_line m n (record e { source = e.source ++ b'\n' ∷ [] }) size small digits
          bytes room (omega arith) in
    rw here (
      load_lines-with_newline es t (n + length e.bytes)
        (length-set_bytes m.contents (start_of e) e.bytes ∙ size) small goods (omega arith)
      ∙ ap (λ (k : ℕ). some (record t { contents = load_entries es t.contents }, k)) (omega arith))

-- `load_mem` of a file of object lines, each of at most `LINELEN - 1` characters with its newline,
-- whose bytes all lie in a memory of fewer than 2^63 bytes and are fewer than 2^31 together, stores
-- the bytes of each line in turn from the address of the line on, and returns their number.
pub load_mem-object_file :
    (es : List ObjectEntry) (m : Mem)
    → length m.contents ≡ m.len
    → m.len < 2 ^ 63
    → All (IsObjectEntry m.len) es
    → count_bytes es < 2 ^ 31
    → load_mem (object_file es) m
      ≡ some (record m { contents = load_entries es m.contents }, count_bytes es)
unfolding load_mem
load_mem-object_file es m size small good few =
    ap (λ bufs. load_lines bufs m 0) (fgets_buffers-object_file m.len es good)
    ∙ load_lines-with_newline es m 0 size small good (omega arith)
    ∙ ap (λ (k : ℕ). some (record m { contents = load_entries es m.contents }, k)) (omega arith)
