-- ===== src/Isa/Step/Branch.antt =====
-- A comparison by `subq` and the conditional jump behind it, in archlab/sim/misc/isa.c.
use cs_app_labs.Prelude.{ℕ, ◌^◌, ◌<◌, ◌≡◌, Bool, true, some, refl, arith, if◌then◌else◌, ◌==◌, ap}
use cs_app_labs.Isa.Word.{signed64, sub64}
use cs_app_labs.Isa.Registers.{reg_none}
use cs_app_labs.Isa.Registers.Laws.{
  reg_value, get_reg_val-IsRegs, set_reg_val-IsRegSet, reg_value-lt,
}
use cs_app_labs.Isa.Alu.{a_sub, to_alu, to_cond, compute_alu, compute_cc, cond_holds}
use cs_app_labs.Isa.Alu.Laws.{compares, cond_holds-compute_cc}
use cs_app_labs.Isa.State.{State, stat_aok}
use cs_app_labs.Isa.Step.Fetch.{Instr}
use cs_app_labs.Isa.Step.Valid.{IsState}
use cs_app_labs.Isa.Step.Moves.{step_alu}
use cs_app_labs.Isa.Step.Control.{step_jmp}

-- From a valid state, and both instructions fetched whole, `subq` leaves the wrapped difference in its second register, and a conditional jump behind it
-- is taken exactly when its condition holds of the signed values of that register and the first
-- before the subtraction, whether or not the difference overflows.
pub step_jmp-step_alu :
    (s : State) (i j : Instr)
    → IsState s
    → i.ok1 ≡ true
    → i.fun ≡ 1
    → i.lo1 < reg_none
    → j.ok1 ≡ true
    → j.okc ≡ true
    → (t u : State) × (step_alu s i ≡ some (stat_aok, t))
      × (step_jmp t j ≡ some (stat_aok, u))
      × ((k : ℕ)
          → reg_value u.r k ≡ (
              if k == i.lo1
              then sub64 (reg_value s.r i.lo1) (reg_value s.r i.hi1)
              else reg_value s.r k))
      × (u.m ≡ s.m)
      × (u.pc ≡ (
          if compares
            (to_cond j.fun)
            (signed64 (reg_value s.r i.lo1))
            (signed64 (reg_value s.r i.hi1))
          then j.cval
          else j.next))
unfolding step_alu step_jmp to_alu compute_alu
step_jmp-step_alu s i j valid ok sub known ok' okc' =
    let a = reg_value s.r i.hi1 in
    let b = reg_value s.r i.lo1 in
    let ha : a < 2 ^ 64 = reg_value-lt s.r i.hi1 valid.regs in
    let hb : b < 2 ^ 64 = reg_value-lt s.r i.lo1 valid.regs in
    let (r, set, is_set) =
      set_reg_val-IsRegSet s.r i.lo1 (sub64 b a) valid.regs known (omega arith) in
    let cc = compute_cc a_sub a b in
    let t : State = record { pc = i.next; r = r; m = s.m; cc = cc } in
    let target : ℕ = if cond_holds cc (to_cond j.fun) then j.cval else j.next in
    (
      t,
      record { pc = target; r = r; m = s.m; cc = cc },
      rw
          (
            ok,
            sub,
            get_reg_val-IsRegs s.r i.hi1 valid.regs,
            get_reg_val-IsRegs s.r i.lo1 valid.regs,
            set,
          )
          refl,
      rw (ok', okc') refl,
      is_set.value,
      refl,
      ap (λ (c : Bool). if c then j.cval else j.next)
          (cond_holds-compute_cc (to_cond j.fun) a b ha hb),
    )
