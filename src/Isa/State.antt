-- ===== src/Isa/State.antt =====
-- The state of the Y86-64 machine in archlab/sim/misc/isa.c, and what it
-- reports after an instruction.
use cs_app_labs.Prelude.{◌>>=◌, ℕ, Bool, ◌||◌, not, Option, some, ◌==◌}
use cs_app_labs.Isa.Memory.{Mem, init_mem, copy_mem, diff_mem}
use cs_app_labs.Isa.Registers.{init_reg, diff_reg}
use cs_app_labs.Isa.Alu.{default_cc}

-- `stat_t`.
pub data Stat : Type 0 where
  stat_bub stat_aok stat_hlt stat_adr stat_ins stat_pip : Stat

-- `state_rec`.
pub record State : Type 0 where
  pub pc : ℕ
  pub r : Mem
  pub m : Mem
  pub cc : ℕ

unfoldable pub new_state : ℕ → State
unfolding init_reg init_mem
new_state mem_len = record { pc = 0; r = init_reg; m = init_mem mem_len; cc = default_cc }

unfoldable pub copy_state : State → State
unfolding copy_mem
copy_state s = record { pc = s.pc; r = copy_mem s.r; m = copy_mem s.m; cc = s.cc }

-- `diff_state` without a file to report to.
unfoldable pub diff_state : State → State → Option Bool
unfolding diff_reg diff_mem
diff_state old new = do
  regs ← diff_reg old.r new.r
  mems ← diff_mem old.m new.m
  some (not (old.pc == new.pc) || not (old.cc == new.cc) || regs || mems)
