-- ===== src/Malloc/Words.antt =====
-- The words of the heap of malloclab/src/mm.c, the fields of a block's tags, and `mem_sbrk` of
-- memlib.c. `none` is undefined behaviour: an access outside the heap, or to no word of it.
use cs_app_labs.Prelude.{
  ◌>>=◌, ℕ, ◌+◌, ◌-◌, ◌*◌, ◌/◌, ◌%◌, ◌^◌, Bool, ◌&&◌, ◌||◌, Option, none, some, ltb, leb, ◌==◌,
  if◌then◌else◌, bit_and, bit_or,
}

-- The heap from `mem_start_brk` to `mem_brk`, a word at each address that is a multiple of 8, and
-- the globals of both files.
pub record Heap : Type 0 where
  pub start : ℕ
  pub brk : ℕ
  pub max_addr : ℕ
  pub heap_listp : ℕ
  pub free_list_head : ℕ
  pub cell : ℕ → ℕ

abbrev pub null : ℕ
null = 0

-- `(void *)-1`.
abbrev pub minus_one : ℕ
minus_one = 2 ^ 64 - 1

-- `a + b` and `a - b` of two values of `size_t`.
abbrev pub add_size : ℕ → ℕ → ℕ
add_size a b = (a + b) % 2 ^ 64

abbrev pub sub_size : ℕ → ℕ → ℕ
sub_size a b = (a + (2 ^ 64 - b)) % 2 ^ 64

-- `~0x7`, `~0b111`, `~0b10`.
abbrev pub low_clear : ℕ
low_clear = 2 ^ 64 - 8

abbrev pub second_clear : ℕ
second_clear = 2 ^ 64 - 3

unfoldable pub align : ℕ → ℕ
align size = bit_and (add_size size 7) low_clear

-- The value of an `int` to which a `size_t` is converted, as a `size_t` again.
unfoldable pub to_int : ℕ → ℕ
to_int v = if ltb (v % 2 ^ 32) (2 ^ 31) then v % 2 ^ 32 else v % 2 ^ 32 + (2 ^ 64 - 2 ^ 32)

abbrev pub max_size : ℕ → ℕ → ℕ
max_size x y = if leb y x then x else y

unfoldable pub is_word : Heap → ℕ → Bool
is_word h p = (leb h.start p && leb (p + 8) h.brk) && (p % 8 == 0)

-- `*p` for the words of `GET` and `GETP`, and `*p = v`.
unfoldable pub get : Heap → ℕ → Option ℕ
get h p = if is_word h p then some (h.cell p) else none

abbrev pub set_cell : (ℕ → ℕ) → ℕ → ℕ → ℕ → ℕ
set_cell cell p v q = if q == p then v else cell q

unfoldable pub put : Heap → (p v : ℕ) → Option Heap
put h p v = if is_word h p then some (record h { cell = set_cell h.cell p v }) else none

-- The fields of a header.
unfoldable pub size_field : ℕ → ℕ
size_field v = bit_and v low_clear

unfoldable pub alloc_field : ℕ → ℕ
alloc_field v = bit_and v 1

unfoldable pub prev_alloc_field : ℕ → ℕ
prev_alloc_field v = bit_and (v / 2) 1

-- `PACK_HDR`.
unfoldable pub pack_hdr : (size prev_alloc alloc : ℕ) → ℕ
pack_hdr size prev_alloc alloc = bit_or (bit_or size (2 * prev_alloc)) alloc

unfoldable pub get_size : Heap → ℕ → Option ℕ
unfolding get size_field
get_size h p = do v ← get h p; some (size_field v)

unfoldable pub get_alloc : Heap → ℕ → Option ℕ
unfolding get alloc_field
get_alloc h p = do v ← get h p; some (alloc_field v)

unfoldable pub get_prev_alloc : Heap → ℕ → Option ℕ
unfolding get prev_alloc_field
get_prev_alloc h p = do v ← get h p; some (prev_alloc_field v)

unfoldable pub unset_prev_alloc : Heap → ℕ → Option Heap
unfolding get put
unset_prev_alloc h p = do v ← get h p; put h p (bit_and v second_clear)

unfoldable pub set_prev_alloc : Heap → ℕ → Option Heap
unfolding get put
set_prev_alloc h p = do v ← get h p; put h p (bit_or v 2)

-- `HDRP`, `FTRP`, `NEXT_FREEP`, `NEXT_BLKP` and `PREV_BLKP`; `PREV_FREEP` is its argument.
abbrev pub hdrp : ℕ → ℕ
hdrp bp = bp - 8

unfoldable pub ftrp : Heap → ℕ → Option ℕ
unfolding get_size
ftrp h bp = do size ← get_size h (hdrp bp); some (bp + size - 16)

abbrev pub next_freep : ℕ → ℕ
next_freep bp = bp + 8

unfoldable pub next_blkp : Heap → ℕ → Option ℕ
unfolding get_size
next_blkp h bp = do size ← get_size h (hdrp bp); some (bp + size)

unfoldable pub prev_blkp : Heap → ℕ → Option ℕ
unfolding get_size
prev_blkp h bp = do size ← get_size h (bp - 16); some (bp - size)

-- `mem_sbrk`, whose argument is an `int`: the old end, or -1.
unfoldable pub mem_sbrk : Heap → (incr : ℕ) → ℕ × Heap
mem_sbrk h incr =
    let low = incr % 2 ^ 32 in
    if leb (2 ^ 31) low || ltb h.max_addr (h.brk + low)
    then (minus_one, h)
    else (h.brk, record h { brk = h.brk + low })
