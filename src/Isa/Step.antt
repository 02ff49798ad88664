-- ===== src/Isa/Step.antt =====
-- `step_state` of archlab/sim/misc/isa.c: fetch, decode, and one function for
-- each case of its switch. The messages to `error_file` are left out.
pub mod Fetch
pub mod Moves
pub mod Control
pub mod Valid
pub mod FetchLaws
pub mod Preserve
pub mod Cases
pub mod Stack
pub mod Branch
use cs_app_labs.Prelude.{◌>>=◌, ℕ, Option, none, some}
use cs_app_labs.Isa.Memory.{}
use cs_app_labs.Isa.State.{State, Stat, stat_ins, stat_adr, stat_hlt}
use cs_app_labs.Isa.Step.Fetch.{
  Itype, i_halt, i_nop, i_rrmovq, i_irmovq, i_rmmovq, i_mrmovq, i_alu, i_jmp, i_call, i_ret,
  i_pushq, i_popq, i_iaddq, i_pop2, i_unknown, Instr, Result, stop, advance, fetch,
}
use cs_app_labs.Isa.Step.Moves.{
  step_rrmovq, step_irmovq, step_rmmovq, step_mrmovq, step_alu, step_iaddq,
}
use cs_app_labs.Isa.Step.Control.{step_jmp, step_call, step_ret, step_pushq, step_popq}

-- The switch.
unfoldable pub dispatch : Itype → State → Instr → Result
dispatch i_nop s i = advance s i.next
dispatch i_halt s i = stop stat_hlt s
dispatch i_rrmovq s i = step_rrmovq s i
dispatch i_irmovq s i = step_irmovq s i
dispatch i_rmmovq s i = step_rmmovq s i
dispatch i_mrmovq s i = step_mrmovq s i
dispatch i_alu s i = step_alu s i
dispatch i_jmp s i = step_jmp s i
dispatch i_call s i = step_call s i
dispatch i_ret s i = step_ret s i
dispatch i_pushq s i = step_pushq s i
dispatch i_popq s i = step_popq s i
dispatch i_iaddq s i = step_iaddq s i
dispatch i_pop2 s i = stop stat_ins s
dispatch i_unknown s i = stop stat_ins s

-- `step_state`.
unfoldable pub step_state : State → Result
unfolding fetch dispatch
step_state s = do
  f ← fetch s.m s.pc
  elim f [ none ↦ stop stat_adr s | some i ↦ dispatch i.kind s i ]
