-- ===== src/Isa/Registers.antt =====
-- The register file of archlab/sim/misc/isa.c: a memory of sixteen words.
pub mod Laws
use cs_app_labs.Prelude.{
  ◌>>=◌, ℕ, ◌*◌, Bool, true, false, ◌&&◌, Option, none, some, ltb, leb, ◌==◌, if◌then◌else◌,
}
use cs_app_labs.Isa.Memory.{
  Mem, init_mem, copy_mem, get_word_val, set_word_val, word_or_zero, diff_mem,
}

abbrev pub reg_none : ℕ
reg_none = 0xf

abbrev pub reg_rsp : ℕ
reg_rsp = 4

-- `reg_valid`: the table's entry `id` holds `id` for every register, 0 to 14.
unfoldable pub reg_valid : ℕ → Bool
reg_valid id = ltb id reg_none

unfoldable pub init_reg : Mem
unfolding init_mem
init_reg = init_mem 128

-- `get_reg_val`; a refused read leaves the 0 that `val` starts with.
unfoldable pub get_reg_val : Mem → ℕ → Option ℕ
get_reg_val r id =
    if leb reg_none id then some 0 else do v ← get_word_val r (id * 8); some (word_or_zero v)

-- The register file after a write into it, refused or not.
abbrev stored_or : Mem → Option Mem → Mem
stored_or r none = r
stored_or r (some r') = r'

-- `set_reg_val`, without the report to a graphical interface; a refused write changes nothing.
unfoldable pub set_reg_val : Mem → ℕ → ℕ → Option Mem
set_reg_val r id val =
    if ltb id reg_none then (do m ← set_word_val r (id * 8) val; some (stored_or r m)) else some r

-- `diff_reg` without a file to report to is `diff_mem`, word by word.
unfoldable pub diff_reg : Mem → Mem → Option Bool
diff_reg old new = diff_mem old new
