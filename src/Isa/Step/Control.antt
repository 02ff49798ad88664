-- ===== src/Isa/Step/Control.antt =====
-- The jumps, calls and the stack of `step_state` in archlab/sim/misc/isa.c.
use cs_app_labs.Prelude.{◌>>=◌, not, none, some, if◌then◌else◌}
use cs_app_labs.Isa.Word.{add64, sub64}
use cs_app_labs.Isa.Memory.{get_word_val, set_word_val}
use cs_app_labs.Isa.Registers.{reg_rsp, reg_valid, get_reg_val, set_reg_val}
use cs_app_labs.Isa.Alu.{to_cond, cond_holds}
use cs_app_labs.Isa.State.{State, stat_adr, stat_ins}
use cs_app_labs.Isa.Step.Fetch.{Instr, Result, stop, advance}

-- `I_JMP`.
unfoldable pub step_jmp : State → Instr → Result
step_jmp s i =
    if not i.ok1
    then stop stat_adr s
    else if not i.okc
    then stop stat_adr s
    else advance s (if cond_holds s.cc (to_cond i.fun) then i.cval else i.next)

-- `I_CALL`. The stack pointer has moved by the time the push is refused.
unfoldable pub step_call : State → Instr → Result
step_call s i = if not i.ok1 then stop stat_adr s else if not i.okc then stop stat_adr s else (do
  rsp ← get_reg_val s.r reg_rsp
  r ← set_reg_val s.r reg_rsp (sub64 rsp 8)
  m ← set_word_val s.m (sub64 rsp 8) i.next
  elim m [
    | none ↦ stop stat_adr (record s { r = r })
    | some m' ↦ advance (record s { r = r; m = m' }) i.cval
  ])

-- `I_RET`.
unfoldable pub step_ret : State → Instr → Result
step_ret s i = do
  dval ← get_reg_val s.r reg_rsp
  w ← get_word_val s.m dval
  elim w [
    | none ↦ stop stat_adr s
    | some val ↦ (do r ← set_reg_val s.r reg_rsp (add64 dval 8); advance (record s { r = r }) val)
  ]

-- `I_PUSHQ`.
unfoldable pub step_pushq : State → Instr → Result
step_pushq s i =
    if not i.ok1 then stop stat_adr s else if not (reg_valid i.hi1) then stop stat_ins s else (do
      val ← get_reg_val s.r i.hi1
      rsp ← get_reg_val s.r reg_rsp
      r ← set_reg_val s.r reg_rsp (sub64 rsp 8)
      m ← set_word_val s.m (sub64 rsp 8) val
      elim m [
        | none ↦ stop stat_adr (record s { r = r })
        | some m' ↦ advance (record s { r = r; m = m' }) i.next
      ])

-- `I_POPQ`.
unfoldable pub step_popq : State → Instr → Result
step_popq s i =
    if not i.ok1 then stop stat_adr s else if not (reg_valid i.hi1) then stop stat_ins s else (do
      dval ← get_reg_val s.r reg_rsp
      r ← set_reg_val s.r reg_rsp (add64 dval 8)
      w ← get_word_val s.m dval
      elim w [
        | none ↦ stop stat_adr (record s { r = r })
        | some val ↦ (do r' ← set_reg_val r i.hi1 val; advance (record s { r = r' }) i.next)
      ])
