-- ===== src/Isa/Step/Cases.antt =====
-- Each case of the switch of `step_state` in archlab/sim/misc/isa.c keeps the state valid.
use cs_app_labs.Prelude.{◌≡◌, none, some, arith, inl, inr}
use cs_app_labs.Isa.Memory.Cases.{Wraps}
use cs_app_labs.Isa.Registers.{reg_rsp, reg_valid}
use cs_app_labs.Isa.Registers.Laws.{reg_value-lt}
use cs_app_labs.Isa.Alu.{to_alu, to_cond, cond_holds}
use cs_app_labs.Isa.State.{State, stat_adr, stat_ins, stat_hlt}
use cs_app_labs.Isa.Step.{dispatch, step_state}
use cs_app_labs.Isa.Step.Fetch.{
  Itype, i_halt, i_nop, i_rrmovq, i_irmovq, i_rmmovq, i_mrmovq, i_alu, i_jmp, i_call, i_ret,
  i_pushq, i_popq, i_iaddq, i_pop2, i_unknown, fetch, Instr, Result, advance,
}
use cs_app_labs.Isa.Step.Valid.{
  IsState, IsInstr, Keeps, access, access-lt, stop-Keeps, guard-Keeps, advance-Keeps,
}
use cs_app_labs.Isa.Step.Preserve.{
  read-Keeps, write-Keeps, load-Keeps, store-Keeps, with_regs, with_mem, stop_moved-Keeps,
  address-Keeps, move-Keeps,
}
use cs_app_labs.Isa.Alu.Laws.{compute_alu-lt}
use cs_app_labs.Isa.Step.FetchLaws.{fetch_total}
use cs_app_labs.Isa.Step.Moves.{
  step_rrmovq, step_irmovq, step_rmmovq, step_mrmovq, step_alu, step_iaddq,
}
use cs_app_labs.Isa.Step.Control.{step_jmp, step_call, step_ret, step_pushq, step_popq}

module _ (W : Type 0) (s : State) (valid : IsState s) (i : Instr) (instr : IsInstr i) where
  step_irmovq-Keeps : Keeps W s (step_irmovq s i)
  unfolding step_irmovq
  step_irmovq-Keeps = guard-Keeps W i.ok1 _ _ valid (
      guard-Keeps W i.okc _ _ valid (
        guard-Keeps W (reg_valid i.lo1) _ _ valid (
          write-Keeps W s valid s.r i.lo1 i.cval _ valid.regs instr.cval
            (λ r regs others. advance-Keeps W s i.next (with_regs W s valid r regs) instr.next))))

  step_rrmovq-Keeps : Keeps W s (step_rrmovq s i)
  unfolding step_rrmovq
  step_rrmovq-Keeps = guard-Keeps W i.ok1 _ _ valid (
      guard-Keeps W (reg_valid i.hi1) _ _ valid (
        guard-Keeps W (reg_valid i.lo1) _ _ valid (
          read-Keeps W s valid i.hi1 _ (
            move-Keeps W s valid (cond_holds s.cc (to_cond i.fun)) i.lo1 _
              (λ r. advance (record s { r = r }) i.next) (reg_value-lt s.r i.hi1 valid.regs)
              λ r regs. advance-Keeps W s i.next (with_regs W s valid r regs) instr.next))))

  step_rmmovq-Keeps : (Wraps (access i_rmmovq s i) → W) → Keeps W s (step_rmmovq s i)
  unfolding step_rmmovq
  step_rmmovq-Keeps undefined = guard-Keeps W i.ok1 _ _ valid (
      guard-Keeps W i.okc _ _ valid (
        guard-Keeps W (reg_valid i.hi1) _ _ valid (
          address-Keeps W s valid i _ (
            read-Keeps W s valid i.hi1 _ (
              store-Keeps W s valid _ _ _ (access-lt i_rmmovq s i valid instr)
                (reg_value-lt s.r i.hi1 valid.regs) undefined (stop-Keeps W stat_adr valid)
                λ m mem. advance-Keeps W s i.next (with_mem W s valid m mem) instr.next)))))

  step_mrmovq-Keeps : (Wraps (access i_rmmovq s i) → W) → Keeps W s (step_mrmovq s i)
  unfolding step_mrmovq
  step_mrmovq-Keeps undefined = guard-Keeps W i.ok1 _ _ valid (
      guard-Keeps W i.okc _ _ valid (
        guard-Keeps W (reg_valid i.hi1) _ _ valid (
          address-Keeps W s valid i _ (
            load-Keeps W s valid _ _ (access-lt i_rmmovq s i valid instr) undefined
              (stop-Keeps W stat_adr valid)
              λ val word. write-Keeps W s valid s.r i.hi1 val _ valid.regs word λ r regs others.
                advance-Keeps W s i.next (with_regs W s valid r regs) instr.next))))

  step_alu-Keeps : Keeps W s (step_alu s i)
  unfolding step_alu
  step_alu-Keeps = guard-Keeps W i.ok1 _ _ valid (
      read-Keeps W s valid i.hi1 _ (
        read-Keeps W s valid i.lo1 _ (
          write-Keeps W s valid s.r i.lo1 _ _ valid.regs
            (compute_alu-lt (to_alu i.fun) _ _ (reg_value-lt s.r i.hi1 valid.regs)
              (reg_value-lt s.r i.lo1 valid.regs))
            λ r regs others.
              advance-Keeps W s i.next (record { regs = regs; mem = valid.mem; pc = valid.pc })
                instr.next)))

  step_iaddq-Keeps : Keeps W s (step_iaddq s i)
  unfolding step_iaddq
  step_iaddq-Keeps = guard-Keeps W i.ok1 _ _ valid (
      guard-Keeps W i.okc _ _ valid (
        guard-Keeps W (reg_valid i.lo1) _ _ valid (
          read-Keeps W s valid i.lo1 _ (
            write-Keeps W s valid s.r i.lo1 _ _ valid.regs (omega arith) λ r regs others.
              advance-Keeps W s i.next (record { regs = regs; mem = valid.mem; pc = valid.pc })
                instr.next))))

  step_jmp-Keeps : Keeps W s (step_jmp s i)
  unfolding step_jmp
  step_jmp-Keeps = guard-Keeps W i.ok1 _ _ valid (
      guard-Keeps W i.okc _ _ valid
        (advance-Keeps W s _ valid (ground (arith, instr.cval, instr.next))))

  step_call-Keeps : (Wraps (access i_call s i) → W) → Keeps W s (step_call s i)
  unfolding step_call access
  step_call-Keeps undefined = guard-Keeps W i.ok1 _ _ valid (
      guard-Keeps W i.okc _ _ valid (
        read-Keeps W s valid reg_rsp _ (
          write-Keeps W s valid s.r reg_rsp _ _ valid.regs (omega arith) λ r regs others.
            store-Keeps W s valid _ i.next _ (omega arith) instr.next undefined
              (stop_moved-Keeps W s valid stat_adr r regs others)
              λ m mem.
                advance-Keeps W s i.cval (record { regs = regs; mem = mem; pc = valid.pc })
                  instr.cval)))

  step_ret-Keeps : (Wraps (access i_ret s i) → W) → Keeps W s (step_ret s i)
  unfolding step_ret access
  step_ret-Keeps undefined = read-Keeps W s valid reg_rsp _ (
      load-Keeps W s valid _ _ (reg_value-lt s.r reg_rsp valid.regs) undefined
        (stop-Keeps W stat_adr valid)
        λ val in_val.
          write-Keeps W s valid s.r reg_rsp _ _ valid.regs (omega arith)
            λ r regs others. advance-Keeps W s val (with_regs W s valid r regs) in_val)

  step_pushq-Keeps : (Wraps (access i_pushq s i) → W) → Keeps W s (step_pushq s i)
  unfolding step_pushq access
  step_pushq-Keeps undefined = guard-Keeps W i.ok1 _ _ valid (
      guard-Keeps W (reg_valid i.hi1) _ _ valid (
        read-Keeps W s valid i.hi1 _ (
          read-Keeps W s valid reg_rsp _ (
            write-Keeps W s valid s.r reg_rsp _ _ valid.regs (omega arith) λ r regs others.
              store-Keeps W s valid _ _ _ (omega arith) (reg_value-lt s.r i.hi1 valid.regs)
                undefined (stop_moved-Keeps W s valid stat_adr r regs others)
                λ m mem.
                  advance-Keeps W s i.next (record { regs = regs; mem = mem; pc = valid.pc })
                    instr.next))))

  step_popq-Keeps : (Wraps (access i_popq s i) → W) → Keeps W s (step_popq s i)
  unfolding step_popq access
  step_popq-Keeps undefined = guard-Keeps W i.ok1 _ _ valid (
      guard-Keeps W (reg_valid i.hi1) _ _ valid (
        read-Keeps W s valid reg_rsp _ (
          write-Keeps W s valid s.r reg_rsp _ _ valid.regs (omega arith) λ r regs others.
            load-Keeps W s valid _ _ (reg_value-lt s.r reg_rsp valid.regs) undefined
              (stop_moved-Keeps W s valid stat_adr r regs others)
              λ val in_val. write-Keeps W s valid r i.hi1 val _ regs in_val λ r' regs' others'.
                advance-Keeps W s i.next (with_regs W s valid r' regs') instr.next)))

dispatch-Keeps :
    (k : Itype) (s : State) (i : Instr)
    → IsState s
    → IsInstr i
    → Keeps (Wraps (access k s i)) s (dispatch k s i)
unfolding dispatch
dispatch-Keeps i_halt s i v n = stop-Keeps (Unit {0}) stat_hlt v
dispatch-Keeps i_nop s i v n = advance-Keeps (Unit {0}) s i.next v n.next
dispatch-Keeps i_rrmovq s i v n = step_rrmovq-Keeps _ s v i n
dispatch-Keeps i_irmovq s i v n = step_irmovq-Keeps _ s v i n
dispatch-Keeps i_rmmovq s i v n = step_rmmovq-Keeps _ s v i n (λ w. w)
dispatch-Keeps i_mrmovq s i v n = step_mrmovq-Keeps _ s v i n (λ w. unfold access in w)
dispatch-Keeps i_alu s i v n = step_alu-Keeps _ s v i n
dispatch-Keeps i_jmp s i v n = step_jmp-Keeps _ s v i n
dispatch-Keeps i_call s i v n = step_call-Keeps _ s v i n (λ w. w)
dispatch-Keeps i_ret s i v n = step_ret-Keeps _ s v i n (λ w. w)
dispatch-Keeps i_pushq s i v n = step_pushq-Keeps _ s v i n (λ w. w)
dispatch-Keeps i_popq s i v n = step_popq-Keeps _ s v i n (λ w. w)
dispatch-Keeps i_iaddq s i v n = step_iaddq-Keeps _ s v i n
dispatch-Keeps i_pop2 s i v n = stop-Keeps (Unit {0}) stat_ins v
dispatch-Keeps i_unknown s i v n = stop-Keeps (Unit {0}) stat_ins v

-- The instruction at the program counter accesses one of the eight addresses that wrap.
pub record AccessWraps (s : State) : Type 0 where
  pub instr : Instr
  pub fetched : fetch s.m s.pc ≡ some (some instr)
  pub address : Wraps (access instr.kind s instr)

weaken : (V W : Type 0) (s : State) (r : Result) → (V → W) → Keeps V s r → Keeps W s r
weaken V W s none f h = f h
weaken V W s (some (e, s')) f h = h

-- Executing an instruction from a valid state is defined unless its data address is one of the
-- eight that wrap, and leaves a valid state. A status other than `STAT_AOK` comes with the
-- program counter, the memory, the condition codes and every register but the stack pointer as
-- they were.
pub step_state-Keeps : (s : State) → IsState s → Keeps (AccessWraps s) s (step_state s)
unfolding step_state
step_state-Keeps s valid = elim (fetch_total s.m s.pc valid.mem valid.pc) [
  | inl bad ↦ rw bad (stop-Keeps (Unit {0}) stat_adr valid)
  | inr (i, got, instr) ↦ rw got (
      weaken _ _ s (dispatch i.kind s i) (λ w. record { instr = i; fetched = got; address = w })
        (dispatch-Keeps i.kind s i valid instr))
]
