-- ===== src/Isa/Step/Moves.antt =====
-- The moves and the arithmetic of `step_state` in archlab/sim/misc/isa.c.
use cs_app_labs.Prelude.{◌>>=◌, ℕ, not, Option, none, some, if◌then◌else◌}
use cs_app_labs.Isa.Word.{add64}
use cs_app_labs.Isa.Memory.{get_word_val, set_word_val}
use cs_app_labs.Isa.Registers.{reg_valid, get_reg_val, set_reg_val}
use cs_app_labs.Isa.Alu.{to_alu, to_cond, compute_alu, compute_cc, cond_holds, a_add}
use cs_app_labs.Isa.State.{State, stat_adr, stat_ins}
use cs_app_labs.Isa.Step.Fetch.{Instr, Result, stop, advance}

-- `I_RRMOVQ`: both unconditional and conditional moves.
unfoldable pub step_rrmovq : State → Instr → Result
step_rrmovq s i =
    if not i.ok1
    then stop stat_adr s
    else if not (reg_valid i.hi1)
    then stop stat_ins s
    else if not (reg_valid i.lo1)
    then stop stat_ins s
    else (do
      val ← get_reg_val s.r i.hi1
      r ← (if cond_holds s.cc (to_cond i.fun) then set_reg_val s.r i.lo1 val else some s.r)
      advance (record s { r = r }) i.next)

-- `I_IRMOVQ`.
unfoldable pub step_irmovq : State → Instr → Result
step_irmovq s i =
    if not i.ok1
    then stop stat_adr s
    else if not i.okc
    then stop stat_ins s
    else if not (reg_valid i.lo1)
    then stop stat_ins s
    else (do r ← set_reg_val s.r i.lo1 i.cval; advance (record s { r = r }) i.next)

-- `if (reg_valid(lo1)) cval += get_reg_val(s->r, lo1)`.
unfoldable pub data_address : State → Instr → Option ℕ
data_address s i =
    if reg_valid i.lo1
    then (do base ← get_reg_val s.r i.lo1; some (add64 i.cval base))
    else some i.cval

-- `I_RMMOVQ`.
unfoldable pub step_rmmovq : State → Instr → Result
unfolding data_address
step_rmmovq s i =
    if not i.ok1
    then stop stat_adr s
    else if not i.okc
    then stop stat_ins s
    else if not (reg_valid i.hi1)
    then stop stat_ins s
    else (do
      cval ← data_address s i
      val ← get_reg_val s.r i.hi1
      m ← set_word_val s.m cval val
      elim m [ none ↦ stop stat_adr s | some m' ↦ advance (record s { m = m' }) i.next ])

-- `I_MRMOVQ`.
unfoldable pub step_mrmovq : State → Instr → Result
unfolding data_address
step_mrmovq s i =
    if not i.ok1
    then stop stat_adr s
    else if not i.okc
    then stop stat_ins s
    else if not (reg_valid i.hi1)
    then stop stat_ins s
    else (do
      cval ← data_address s i
      w ← get_word_val s.m cval
      elim w [
        | none ↦ stop stat_adr s
        | some val ↦ (do r ← set_reg_val s.r i.hi1 val; advance (record s { r = r }) i.next)
      ])

-- `I_ALU`, which does not test its register numbers.
unfoldable pub step_alu : State → Instr → Result
step_alu s i = if not i.ok1 then stop stat_adr s else (do
  arg_a ← get_reg_val s.r i.hi1
  arg_b ← get_reg_val s.r i.lo1
  r ← set_reg_val s.r i.lo1 (compute_alu (to_alu i.fun) arg_a arg_b)
  advance (record s { r = r; cc = compute_cc (to_alu i.fun) arg_a arg_b }) i.next)

-- `I_IADDQ`.
unfoldable pub step_iaddq : State → Instr → Result
step_iaddq s i =
    if not i.ok1
    then stop stat_adr s
    else if not i.okc
    then stop stat_ins s
    else if not (reg_valid i.lo1)
    then stop stat_ins s
    else (do
      arg_b ← get_reg_val s.r i.lo1
      r ← set_reg_val s.r i.lo1 (add64 arg_b i.cval)
      advance (record s { r = r; cc = compute_cc a_add i.cval arg_b }) i.next)
