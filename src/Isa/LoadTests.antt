-- ===== src/Isa/LoadTests.antt =====
-- `load_mem` of archlab/sim/misc/isa.c at concrete inputs.
use cs_app_labs.Prelude.{ℕ, zero, suc, ◌≡◌, refl, none, some, List, [], ◌∷◌, replicate, arith}
use cs_app_labs.Isa.Memory.{Mem}
use cs_app_labs.Isa.Loader.{
  skip_white, get_address, get_code, after_address, from_prefix, load_line, load_lines, load_mem,
  fgets_buffers,
}
use cs_app_labs.Isa.LoadFile.{
  ObjectEntry, object_file, load_entries, count_bytes, load_mem-object_file,
}

abbrev memory : Mem
memory = record { len = 8; contents = replicate 8 0 }

-- `0x002: 30f4 | irmovq`
abbrev entry : ObjectEntry
entry = record { address = 0 ∷ 0 ∷ 2 ∷ []; bytes = 0x30 ∷ 0xf4 ∷ []; source = b' ' ∷ b'i' ∷ [] }

load_mem-object_file_example :
    load_mem (object_file (entry ∷ [])) memory
    ≡ some (
      record memory { contents = load_entries (entry ∷ []) memory.contents },
      count_bytes (entry ∷ []),
    )
load_mem-object_file_example =
    load_mem-object_file (entry ∷ []) memory refl (omega arith)
      (
        (
          (omega arith, (omega arith, (omega arith, tt))),
          (omega arith, (omega arith, tt)),
          omega arith,
          (refl, (refl, tt)),
          omega arith,
        ),
        tt,
      )
      (omega arith)

loaded : load_entries (entry ∷ []) memory.contents ≡ 0 ∷ 0 ∷ 0x30 ∷ 0xf4 ∷ 0 ∷ 0 ∷ 0 ∷ 0 ∷ []
loaded = refl

-- A byte behind the memory makes it return 0.
past_end : load_mem (b'0' ∷ b'x' ∷ b'8' ∷ b':' ∷ b'1' ∷ b'0' ∷ []) memory ≡ some (memory, 0)
unfolding load_mem load_lines fgets_buffers load_line from_prefix get_address after_address get_code
    skip_white
past_end = refl

abbrev zeros : ℕ → List ℕ
zeros zero = b':' ∷ b'1' ∷ b'0' ∷ []
zeros (suc n) = b'0' ∷ zeros n

-- The address 8000000000000000 overflows.
high_address : load_mem (b'0' ∷ b'x' ∷ b'8' ∷ zeros 15) memory ≡ none
unfolding load_mem load_lines fgets_buffers load_line from_prefix get_address after_address get_code
    skip_white
high_address = refl

-- A buffer with room for three characters takes the first three of a line of four.
cut_line :
    fgets_buffers 3 (b'a' ∷ b'b' ∷ b'c' ∷ b'd' ∷ b'\n' ∷ b'e' ∷ [])
    ≡ (b'a' ∷ b'b' ∷ b'c' ∷ []) ∷ (b'd' ∷ b'\n' ∷ []) ∷ (b'e' ∷ []) ∷ []
unfolding fgets_buffers
cut_line = refl
