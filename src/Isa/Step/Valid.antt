-- ===== src/Isa/Step/Valid.antt =====
-- The states of archlab/sim/misc/isa.c that the program builds, and results that stay among them.
use cs_app_labs.Prelude.{
  ℕ, ◌^◌, ◌<◌, ◌≡◌, ◌≢◌, Bool, true, false, not, none, some, refl, arith, if◌then◌else◌,
}
use cs_app_labs.Isa.Word.{add64, sub64}
use cs_app_labs.Isa.Memory.Laws.{IsMem}
use cs_app_labs.Isa.Registers.{reg_rsp, reg_valid}
use cs_app_labs.Isa.Registers.Laws.{IsRegs, reg_value, reg_value-lt}
use cs_app_labs.Isa.State.{State, Stat, stat_aok}
use cs_app_labs.Isa.Step.Fetch.{
  Itype, i_rmmovq, i_mrmovq, i_call, i_ret, i_pushq, i_popq, Instr, Result, stop, advance,
}

pub record IsState (s : State) : Type 0 where
  pub regs : IsRegs s.r
  pub mem : IsMem s.m
  pub pc : s.pc < 2 ^ 64

-- The words of a fetched instruction.
pub record IsInstr (i : Instr) : Type 0 where
  pub cval : i.cval < 2 ^ 64
  pub next : i.next < 2 ^ 64

-- What an instruction that reports an error, or halts, leaves of the state: only the stack
-- pointer may have moved.
pub record IsStopped (s s' : State) : Type 0 where
  pub same_pc : s'.pc ≡ s.pc
  pub same_mem : s'.m ≡ s.m
  pub same_cc : s'.cc ≡ s.cc
  pub same_regs : (j : ℕ) → j ≢ reg_rsp → reg_value s'.r j ≡ reg_value s.r j

-- A result that is defined keeps the state valid, and without success it is stopped. It is
-- undefined only where `W` holds.
abbrev pub Keeps : Type 0 → State → Result → Type 0
Keeps W s none = W
Keeps W s (some (e, s')) = IsState s' × (e ≢ stat_aok → IsStopped s s')

pub stop-Keeps : (W : Type 0) {s : State} (e : Stat) → IsState s → Keeps W s (stop e s)
stop-Keeps W e valid = (
  valid,
  λ n. record { same_pc = refl; same_mem = refl; same_cc = refl; same_regs = λ j h. refl },
)

-- An early return before anything has changed.
pub guard-Keeps :
    (W : Type 0) {s : State} (b : Bool) (e : Stat) (r : Result)
    → IsState s
    → Keeps W s r
    → Keeps W s (if not b then stop e s else r)
guard-Keeps W true e r valid h = h
guard-Keeps W false e r valid h = stop-Keeps W e valid

pub advance-Keeps :
    (W : Type 0) (s : State) {s' : State} (pc : ℕ)
    → IsState s'
    → pc < 2 ^ 64
    → Keeps W s (advance s' pc)
advance-Keeps W s pc valid word =
    (record { regs = valid.regs; mem = valid.mem; pc = word }, λ n. absurd (n refl))

-- The memory word that an instruction accesses, if its kind accesses one.
unfoldable pub access : Itype → State → Instr → ℕ
access i_rmmovq s i = if reg_valid i.lo1 then add64 i.cval (reg_value s.r i.lo1) else i.cval
access i_mrmovq s i = if reg_valid i.lo1 then add64 i.cval (reg_value s.r i.lo1) else i.cval
access i_call s i = sub64 (reg_value s.r reg_rsp) 8
access i_ret s i = reg_value s.r reg_rsp
access i_pushq s i = sub64 (reg_value s.r reg_rsp) 8
access i_popq s i = reg_value s.r reg_rsp
access _ s i = 0

pub access-lt : (k : Itype) (s : State) (i : Instr) → IsState s → IsInstr i → access k s i < 2 ^ 64
unfolding access
access-lt i_rmmovq s i valid instr = ground (arith, instr.cval)
access-lt i_mrmovq s i valid instr = ground (arith, instr.cval)
access-lt i_call s i valid instr = omega arith
access-lt i_ret s i valid instr = reg_value-lt s.r reg_rsp valid.regs
access-lt i_pushq s i valid instr = omega arith
access-lt i_popq s i valid instr = reg_value-lt s.r reg_rsp valid.regs
access-lt _ s i valid instr = omega arith
