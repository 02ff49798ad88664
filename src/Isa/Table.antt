-- ===== src/Isa/Table.antt =====
-- The tables of archlab/sim/misc/isa.c: the names of registers and
-- instructions, and the layout that the assembler and the simulators share.
use Prim.Native.String.{String}
use text.Mathlib.Text.{◌==◌ as str_eq}
use cs_app_labs.Prelude.{
  ℕ, ◌+◌, ◌*◌, Option, none, some, List, [], ◌∷◌, bit_and, bit_or, ◌==◌, if◌then◌else◌, get_elem?,
  ◌++◌,
}

-- `arg_t`.
pub data Arg : Type 0 where
  r_arg m_arg i_arg no_arg : Arg

-- `instr_t`.
pub record Entry : Type 0 where
  pub name : String
  pub code : ℕ
  pub bytes : ℕ
  pub arg1 : Arg
  pub arg1pos : ℕ
  pub arg1hi : ℕ
  pub arg2 : Arg
  pub arg2pos : ℕ
  pub arg2hi : ℕ

abbrev entry : String → ℕ → ℕ → Arg → ℕ → ℕ → Arg → ℕ → ℕ → Entry
entry name code bytes arg1 arg1pos arg1hi arg2 arg2pos arg2hi = record {
  name = name;
  code = code;
  bytes = bytes;
  arg1 = arg1;
  arg1pos = arg1pos;
  arg1hi = arg1hi;
  arg2 = arg2;
  arg2pos = arg2pos;
  arg2hi = arg2hi;
}

-- `HPACK`.
abbrev pub hpack : ℕ → ℕ → ℕ
hpack hi lo = bit_or (bit_and hi 0xf * 16) (bit_and lo 0xf)

-- The machine instructions of `instruction_set`, up to `iaddq`.
abbrev pub machine_set : List Entry
machine_set =
    entry "nop" (hpack 1 0) 1 no_arg 0 0 no_arg 0 0
    ∷ entry "halt" (hpack 0 0) 1 no_arg 0 0 no_arg 0 0
    ∷ entry "rrmovq" (hpack 2 0) 2 r_arg 1 1 r_arg 1 0
    ∷ entry "cmovle" (hpack 2 1) 2 r_arg 1 1 r_arg 1 0
    ∷ entry "cmovl" (hpack 2 2) 2 r_arg 1 1 r_arg 1 0
    ∷ entry "cmove" (hpack 2 3) 2 r_arg 1 1 r_arg 1 0
    ∷ entry "cmovne" (hpack 2 4) 2 r_arg 1 1 r_arg 1 0
    ∷ entry "cmovge" (hpack 2 5) 2 r_arg 1 1 r_arg 1 0
    ∷ entry "cmovg" (hpack 2 6) 2 r_arg 1 1 r_arg 1 0
    ∷ entry "irmovq" (hpack 3 0) 10 i_arg 2 8 r_arg 1 0
    ∷ entry "rmmovq" (hpack 4 0) 10 r_arg 1 1 m_arg 1 0
    ∷ entry "mrmovq" (hpack 5 0) 10 m_arg 1 0 r_arg 1 1
    ∷ entry "addq" (hpack 6 0) 2 r_arg 1 1 r_arg 1 0
    ∷ entry "subq" (hpack 6 1) 2 r_arg 1 1 r_arg 1 0
    ∷ entry "andq" (hpack 6 2) 2 r_arg 1 1 r_arg 1 0
    ∷ entry "xorq" (hpack 6 3) 2 r_arg 1 1 r_arg 1 0
    ∷ entry "jmp" (hpack 7 0) 9 i_arg 1 8 no_arg 0 0
    ∷ entry "jle" (hpack 7 1) 9 i_arg 1 8 no_arg 0 0
    ∷ entry "jl" (hpack 7 2) 9 i_arg 1 8 no_arg 0 0
    ∷ entry "je" (hpack 7 3) 9 i_arg 1 8 no_arg 0 0
    ∷ entry "jne" (hpack 7 4) 9 i_arg 1 8 no_arg 0 0
    ∷ entry "jge" (hpack 7 5) 9 i_arg 1 8 no_arg 0 0
    ∷ entry "jg" (hpack 7 6) 9 i_arg 1 8 no_arg 0 0
    ∷ entry "call" (hpack 8 0) 9 i_arg 1 8 no_arg 0 0
    ∷ entry "ret" (hpack 9 0) 1 no_arg 0 0 no_arg 0 0
    ∷ entry "pushq" (hpack 10 0) 2 r_arg 1 1 no_arg 0 0
    ∷ entry "popq" (hpack 11 0) 2 r_arg 1 1 no_arg 0 0
    ∷ entry "iaddq" (hpack 12 0) 10 i_arg 2 8 r_arg 1 0
    ∷ []

-- The rest of the table: a name for `I_POP2`, and the directives that allocate data.
abbrev pub directives : List Entry
directives =
    entry "pop2" (hpack 13 0) 0 no_arg 0 0 no_arg 0 0
    ∷ entry ".byte" 0 1 i_arg 0 1 no_arg 0 0
    ∷ entry ".word" 0 2 i_arg 0 2 no_arg 0 0
    ∷ entry ".long" 0 4 i_arg 0 4 no_arg 0 0
    ∷ entry ".quad" 0 8 i_arg 0 8 no_arg 0 0
    ∷ []

unfoldable pub instruction_set : List Entry
instruction_set = machine_set ++ directives

-- `find_instr`; `none` is `NULL`.
unfoldable pub find_in : List Entry → String → Option Entry
find_in [] name = none
find_in (e ∷ es) name = if str_eq e.name name then some e else find_in es name

unfoldable pub find_instr : String → Option Entry
unfolding instruction_set find_in
find_instr name = find_in instruction_set name

-- `iname`.
unfoldable pub iname_in : List Entry → ℕ → String
iname_in [] instr = "<bad>"
iname_in (e ∷ es) instr = if instr == e.code then e.name else iname_in es instr

unfoldable pub iname : ℕ → String
unfolding instruction_set iname_in
iname instr = iname_in instruction_set instr

-- The names in `reg_table`, in the order of the register numbers.
abbrev pub reg_names : List String
reg_names =
    "%rax" ∷ "%rcx" ∷ "%rdx" ∷ "%rbx" ∷ "%rsp" ∷ "%rbp" ∷ "%rsi" ∷ "%rdi" ∷ "%r8" ∷ "%r9" ∷ "%r10"
    ∷ "%r11" ∷ "%r12" ∷ "%r13" ∷ "%r14" ∷ []

-- `find_register`, with `REG_ERR` for a name that is not there.
abbrev pub reg_err : ℕ
reg_err = 16

unfoldable pub find_name : List String → ℕ → String → ℕ
find_name [] id name = reg_err
find_name (n ∷ ns) id name = if str_eq name n then id else find_name ns (id + 1) name

unfoldable pub find_register : String → ℕ
unfolding find_name
find_register name = find_name reg_names 0 name

-- `reg_name`.
abbrev name_or_dashes : Option String → String
name_or_dashes none = "----"
name_or_dashes (some n) = n

unfoldable pub reg_name : ℕ → String
reg_name id = name_or_dashes (get_elem? reg_names id)
