-- ===== src/Isa/Step/Fetch.antt =====
-- The first part of `step_state` in archlab/sim/misc/isa.c: the instruction's bytes and fields.
use cs_app_labs.Prelude.{
  ◌>>=◌, ℕ, ◌/◌, Bool, true, false, Option, none, some, bit_and, ◌==◌, if◌then◌else◌,
}
use cs_app_labs.Isa.Word.{add64}
use cs_app_labs.Isa.Memory.{Mem, get_byte_val, get_word_val, word_or_zero}
use cs_app_labs.Isa.State.{State, Stat, stat_aok}

-- `itype_t`, and the codes 14 and 15 that it gives no name.
pub data Itype : Type 0 where
  i_halt i_nop i_rrmovq i_irmovq i_rmmovq i_mrmovq i_alu i_jmp : Itype
  i_call i_ret i_pushq i_popq i_iaddq i_pop2 i_unknown : Itype

unfoldable pub to_itype : ℕ → Itype
to_itype n =
    if n == 0
    then i_halt
    else if n == 1
    then i_nop
    else if n == 2
    then i_rrmovq
    else if n == 3
    then i_irmovq
    else if n == 4
    then i_rmmovq
    else if n == 5
    then i_mrmovq
    else if n == 6
    then i_alu
    else if n == 7
    then i_jmp
    else if n == 8
    then i_call
    else if n == 9
    then i_ret
    else if n == 10
    then i_pushq
    else if n == 11
    then i_popq
    else if n == 12
    then i_iaddq
    else if n == 13
    then i_pop2
    else i_unknown

-- `HI4` and `LO4`.
unfoldable pub hi4 : ℕ → ℕ
hi4 byte = bit_and (byte / 16) 0xf

unfoldable pub lo4 : ℕ → ℕ
lo4 byte = bit_and byte 0xf

unfoldable pub needs_regids : Itype → Bool
needs_regids i_rrmovq = true
needs_regids i_alu = true
needs_regids i_pushq = true
needs_regids i_popq = true
needs_regids i_irmovq = true
needs_regids i_rmmovq = true
needs_regids i_mrmovq = true
needs_regids i_iaddq = true
needs_regids _ = false

unfoldable pub needs_imm : Itype → Bool
needs_imm i_irmovq = true
needs_imm i_rmmovq = true
needs_imm i_mrmovq = true
needs_imm i_jmp = true
needs_imm i_call = true
needs_imm i_iaddq = true
needs_imm _ = false

-- The variables of `step_state` after the fetch. `fun` is `lo0`, and `next` is `ftpc`.
pub record Instr : Type 0 where
  pub kind : Itype
  pub fun : ℕ
  pub hi1 : ℕ
  pub lo1 : ℕ
  pub ok1 : Bool
  pub cval : ℕ
  pub okc : Bool
  pub next : ℕ

-- `none` is undefined behaviour: an access outside an array.
abbrev pub Result : Type 0
Result = Option (Stat × State)

abbrev pub stop : Stat → State → Result
stop e s = some (e, s)

-- The end of every case that succeeds.
abbrev pub advance : State → ℕ → Result
advance s pc = some (stat_aok, record s { pc = pc })

abbrev pub byte_or_zero : Option ℕ → ℕ
byte_or_zero none = 0
byte_or_zero (some b) = b

abbrev pub is_some : Option ℕ → Bool
is_some none = false
is_some (some b) = true

-- The variables before the register byte is read, as they are declared.
abbrev pub no_regids : Itype → (fun next : ℕ) → Instr
no_regids kind fun next = record {
  kind = kind;
  fun = fun;
  hi1 = 0xf;
  lo1 = 0xf;
  ok1 = true;
  cval = 0;
  okc = true;
  next = next;
}

-- After the register byte; a missing byte reads as the 0 that `byte1` starts with.
abbrev pub with_regids : Instr → Option ℕ → Instr
with_regids i b = record i {
  hi1 = hi4 (byte_or_zero b);
  lo1 = lo4 (byte_or_zero b);
  ok1 = is_some b;
  next = add64 i.next 1;
}

unfoldable pub fetch_regids : Mem → Instr → Option Instr
unfolding needs_regids
fetch_regids m i =
    if needs_regids i.kind then (do b ← get_byte_val m i.next; some (with_regids i b)) else some i

-- After the immediate word.
abbrev pub with_imm : Instr → Option ℕ → Instr
with_imm i w = record i { cval = word_or_zero w; okc = is_some w; next = add64 i.next 8 }

unfoldable pub fetch_imm : Mem → Instr → Option Instr
unfolding needs_imm
fetch_imm m i =
    if needs_imm i.kind then (do w ← get_word_val m i.next; some (with_imm i w)) else some i

-- The whole fetch; inside, `none` is an invalid address of the first byte.
unfoldable pub fetch : Mem → ℕ → Option (Option Instr)
unfolding to_itype hi4 lo4 fetch_regids fetch_imm
fetch m pc = do
  b ← get_byte_val m pc
  elim b [
    | none ↦ some none
    | some byte0 ↦ (do
      i ← fetch_regids m (no_regids (to_itype (hi4 byte0)) (lo4 byte0) (add64 pc 1))
      i ← fetch_imm m i
      some (some i))
  ]
