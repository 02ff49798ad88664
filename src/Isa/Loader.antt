-- ===== src/Isa/Loader.antt =====
-- `hex2dig` and `load_mem` of archlab/sim/misc/isa.c, without the display. A file is its characters,
-- from which `fgets` reads; the character behind a buffer is 0. `none` is undefined behaviour.
use cs_app_labs.Prelude.{
  ℕ, ◌+◌, ◌-◌, ◌*◌, ◌%◌, ◌^◌, Bool, ◌&&◌, ◌||◌, Option, none, some, List, [], ◌∷◌, ltb, leb, ◌==◌,
  if◌then◌else◌, ◌>>=◌,
}
use cs_app_labs.Isa.Memory.{Mem, store_at}

-- The classes of `<ctype.h>`.
abbrev pub is_digit : ℕ → Bool
is_digit c = leb b'0' c && leb c b'9'

abbrev pub is_upper : ℕ → Bool
is_upper c = leb b'A' c && leb c b'Z'

abbrev pub is_space : ℕ → Bool
is_space c = (c == 32) || (leb 9 c && leb c 13)

abbrev pub is_xdigit : ℕ → Bool
is_xdigit c = is_digit c || ((leb b'A' c && leb c b'F') || (leb b'a' c && leb c b'f'))

-- `hex2dig`.
unfoldable pub hex2dig : ℕ → ℕ
hex2dig c = if is_digit c then c - b'0' else if is_upper c then c - b'A' + 10 else c - b'a' + 10

-- `while (isspace((int)buf[cpos])) cpos++`.
unfoldable pub skip_white : List ℕ → List ℕ
skip_white [] = []
skip_white (c ∷ cs) = let rest = skip_white cs in if is_space c then rest else c ∷ cs

-- The loop that reads the address; `bytepos` is signed, and its overflow is undefined.
unfoldable pub get_address : (bytepos : ℕ) → List ℕ → Option (ℕ × List ℕ)
unfolding hex2dig
get_address bytepos [] = some (bytepos, [])
get_address bytepos (c ∷ cs) =
    let next = bytepos * 16 + hex2dig c in
    let rest = get_address next cs in
    if is_xdigit c then (if ltb next (2 ^ 63) then rest else none) else some (bytepos, c ∷ cs)

-- How a line ends: the loop goes on, with the memory and `byte_cnt`, or `load_mem` returns 0.
pub data Loaded : Type 0 where
  next_line : Mem → ℕ → Loaded
  refused : Mem → Loaded

abbrev pub next_count : ℕ → Option ℕ
next_count n = if ltb (n + 1) (2 ^ 31) then some (n + 1) else none

-- The loop that reads the code; `byte_cnt` is an `int`, and its overflow is undefined.
unfoldable pub get_code : Mem → (bytepos byte_cnt : ℕ) → List ℕ → Option Loaded
unfolding hex2dig
get_code m bytepos byte_cnt [] = some (next_line m byte_cnt)
get_code m bytepos byte_cnt (ch ∷ []) = some (next_line m byte_cnt)
get_code m bytepos byte_cnt (ch ∷ cl ∷ cs) =
    if is_xdigit ch && is_xdigit cl
    then (if leb m.len bytepos
        then some (refused m)
        else store_at m.contents bytepos ((hex2dig ch * 16 + hex2dig cl) % 2 ^ 8) >>= (λ bytes.
          next_count byte_cnt
          >>= (λ n. get_code (record m { contents = bytes }) (bytepos + 1) n cs)))
    else some (next_line m byte_cnt)

-- The line behind the address.
unfoldable pub after_address : Mem → (bytepos byte_cnt : ℕ) → List ℕ → Option Loaded
unfolding skip_white get_code
after_address m bytepos byte_cnt [] = some (refused m)
after_address m bytepos byte_cnt (c ∷ cs) =
    if c == b':' then get_code m bytepos byte_cnt (skip_white cs) else some (refused m)

-- The line from its first character that is no space.
unfoldable pub from_prefix : Mem → (byte_cnt : ℕ) → List ℕ → Option Loaded
unfolding skip_white get_address after_address
from_prefix m byte_cnt (z ∷ x ∷ cs) =
    if (z == b'0') && ((x == b'x') || (x == b'X'))
    then get_address 0 cs >>= (λ r. after_address m r.0 byte_cnt (skip_white r.1))
    else some (next_line m byte_cnt)
from_prefix m byte_cnt _ = some (next_line m byte_cnt)

-- The body of the outer loop.
unfoldable pub load_line : Mem → (byte_cnt : ℕ) → List ℕ → Option Loaded
unfolding skip_white from_prefix
load_line m byte_cnt buf = from_prefix m byte_cnt (skip_white buf)

abbrev pub then_lines : (Mem → ℕ → Option (Mem × ℕ)) → Loaded → Option (Mem × ℕ)
then_lines lines (next_line m n) = lines m n
then_lines lines (refused m) = some (m, 0)

-- The loop over the buffers that `fgets` fills, with the bytes that are counted so far.
unfoldable pub load_lines : List (List ℕ) → Mem → (byte_cnt : ℕ) → Option (Mem × ℕ)
unfolding load_line
load_lines [] m byte_cnt = some (m, byte_cnt)
load_lines (buf ∷ bufs) m byte_cnt = load_line m byte_cnt buf >>= then_lines (load_lines bufs)

abbrev pub line_len : ℕ
line_len = 4096

-- A character at the front of the first buffer.
abbrev pub onto : ℕ → List (List ℕ) → List (List ℕ)
onto c [] = (c ∷ []) ∷ []
onto c (buf ∷ bufs) = (c ∷ buf) ∷ bufs

-- The buffers of `fgets(buf, LINELEN, infile)`, until it gives `NULL`: each ends behind a newline,
-- or when `LINELEN - 1` characters are read. `room` characters fit the first one.
unfoldable pub fgets_buffers : (room : ℕ) → List ℕ → List (List ℕ)
fgets_buffers room [] = []
fgets_buffers room (c ∷ cs) =
    let last = (c == b'\n') || (room == 1) in
    let rest = fgets_buffers (if last then line_len - 1 else room - 1) cs in
    if last then (c ∷ []) ∷ rest else onto c rest

-- `load_mem` of a file: the memory, and what it returns.
unfoldable pub load_mem : List ℕ → Mem → Option (Mem × ℕ)
unfolding load_lines fgets_buffers
load_mem file m = load_lines (fgets_buffers (line_len - 1) file) m 0
