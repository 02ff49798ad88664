-- ===== src/Isa/Step/Stack.antt =====
-- The stack of the Y86-64 machine in archlab/sim/misc/isa.c: what a push leaves, and that a pop
-- and a return undo a push and a call.
use cs_app_labs.Prelude.{
  ℕ, ◌-◌, ◌^◌, ◌≤◌, ◌<◌, ◌≡◌, ◌⊎◌, true, some, refl, arith, if◌then◌else◌, inr, ltb, ◌==◌, get_or,
  ap, ◌∙◌,
}
use cs_app_labs.Isa.Word.{add64, sub64}
use cs_app_labs.Isa.Memory.{Mem}
use cs_app_labs.Isa.Memory.Bytes.{word_at}
use cs_app_labs.Isa.Memory.Laws.{IsStored, get_word_val-in, set_word_val-in}
use cs_app_labs.Isa.Registers.{reg_none, reg_rsp, reg_valid}
use cs_app_labs.Isa.Registers.Laws.{
  IsRegSet, reg_value, get_reg_val-IsRegs, set_reg_val-IsRegSet, reg_value-lt,
}
use cs_app_labs.Isa.State.{State, stat_aok}
use cs_app_labs.Isa.Step.Fetch.{Instr}
use cs_app_labs.Isa.Step.Valid.{IsState}
use cs_app_labs.Isa.Step.Control.{step_call, step_ret, step_pushq, step_popq}

-- The word at the top of the stack and the one that a push takes lie in the memory.
abbrev pub HasRoom : State → Type 0
HasRoom s = (8 ≤ reg_value s.r reg_rsp) × (reg_value s.r reg_rsp ≤ s.m.len)

-- `t` is `s` with `val` pushed and the program counter at `pc`.
pub record IsPushed (s : State) (val pc : ℕ) (t : State) : Type 0 where
  pub valid : IsState t
  pub at : t.pc ≡ pc
  pub same_cc : t.cc ≡ s.cc
  pub same_len : t.m.len ≡ s.m.len
  pub regs :
      (k : ℕ)
      → reg_value t.r k ≡ (if k == reg_rsp then reg_value s.r reg_rsp - 8 else reg_value s.r k)
  pub top : word_at 8 t.m.contents (reg_value s.r reg_rsp - 8) ≡ val
  pub below :
      (j : ℕ)
      → (j < reg_value s.r reg_rsp - 8) ⊎ (reg_value s.r reg_rsp ≤ j)
      → get_or t.m.contents j 0 ≡ get_or s.m.contents j 0

reg_valid-lt : (id : ℕ) → id < reg_none → reg_valid id ≡ true
unfolding reg_valid
reg_valid-lt id h = ground arith

module _ (s : State) (valid : IsState s) (room : HasRoom s) where
  top-lt : reg_value s.r reg_rsp < 2 ^ 64
  top-lt = reg_value-lt s.r reg_rsp valid.regs

  down : sub64 (reg_value s.r reg_rsp) 8 ≡ reg_value s.r reg_rsp - 8
  down = omega (arith, top-lt)

  pushed :
      (val pc : ℕ) (r m : Mem)
      → pc < 2 ^ 64
      → IsRegSet s.r reg_rsp (reg_value s.r reg_rsp - 8) r
      → IsStored s.m (reg_value s.r reg_rsp - 8) val m
      → IsPushed s val pc (record { pc = pc; r = r; m = m; cc = s.cc })
  pushed val pc r m word set stored = record {
    valid = record { regs = set.regs; mem = stored.mem; pc = word };
    at = refl;
    same_cc = refl;
    same_len = stored.same_len;
    regs = set.value;
    top = stored.inside;
    below = λ j h. stored.elsewhere j (grind arith);
  }

  -- With room on the stack `pushq` stores the register below the old top.
  pub step_pushq-IsPushed :
      (i : Instr)
      → i.ok1 ≡ true
      → reg_valid i.hi1 ≡ true
      → i.next < 2 ^ 64
      → (t : State) × (step_pushq s i ≡ some (stat_aok, t))
        × IsPushed s (reg_value s.r i.hi1) i.next t
  unfolding step_pushq
  step_pushq-IsPushed i ok known word =
      let val = reg_value s.r i.hi1 in
      let (r, set, is_set) =
        set_reg_val-IsRegSet s.r reg_rsp (reg_value s.r reg_rsp - 8) valid.regs (omega arith)
          (omega (arith, top-lt)) in
      let (m, store, stored) =
        set_word_val-in s.m (reg_value s.r reg_rsp - 8) val valid.mem (omega arith)
          (reg_value-lt s.r i.hi1 valid.regs) in
      (
        record { pc = i.next; r = r; m = m; cc = s.cc },
        rw
            (
              ok,
              known,
              get_reg_val-IsRegs s.r i.hi1 valid.regs,
              get_reg_val-IsRegs s.r reg_rsp valid.regs,
              down,
              set,
              store,
            )
            refl,
        pushed val i.next r m word is_set stored,
      )

  -- `call` pushes the address behind it.
  pub step_call-IsPushed :
      (i : Instr)
      → i.ok1 ≡ true
      → i.okc ≡ true
      → i.next < 2 ^ 64
      → i.cval < 2 ^ 64
      → (t : State) × (step_call s i ≡ some (stat_aok, t)) × IsPushed s i.next i.cval t
  unfolding step_call
  step_call-IsPushed i ok okc word target =
      let (r, set, is_set) =
        set_reg_val-IsRegSet s.r reg_rsp (reg_value s.r reg_rsp - 8) valid.regs (omega arith)
          (omega (arith, top-lt)) in
      let (m, store, stored) =
        set_word_val-in s.m (reg_value s.r reg_rsp - 8) i.next valid.mem (omega arith) word in
      (
        record { pc = i.cval; r = r; m = m; cc = s.cc },
        rw (ok, okc, get_reg_val-IsRegs s.r reg_rsp valid.regs, down, set, store) refl,
        pushed i.next i.cval r m target is_set stored,
      )

  module _ (val pc : ℕ) (t : State) (push : IsPushed s val pc t) where
    stack_top : reg_value t.r reg_rsp ≡ reg_value s.r reg_rsp - 8
    stack_top = push.regs reg_rsp

    up : add64 (reg_value t.r reg_rsp) 8 ≡ reg_value s.r reg_rsp
    up = omega (arith, top-lt, stack_top)

    popped : word_at 8 t.m.contents (reg_value t.r reg_rsp) ≡ val
    popped = ap (word_at 8 t.m.contents) stack_top ∙ push.top

    -- `ret` after a push goes to the word on top and gives every register back.
    pub step_ret-undoes :
        (i : Instr)
        → (u : State) × (step_ret t i ≡ some (stat_aok, u))
          × (u.pc ≡ val)
          × (u.m ≡ t.m)
          × (u.cc ≡ s.cc)
          × ((k : ℕ) → reg_value u.r k ≡ reg_value s.r k)
    unfolding step_ret
    step_ret-undoes i =
        let (r, set, is_set) =
          set_reg_val-IsRegSet t.r reg_rsp (reg_value s.r reg_rsp) push.valid.regs (omega arith)
            top-lt in
        let read =
          get_word_val-in t.m (reg_value t.r reg_rsp) push.valid.mem
            (omega (arith, push.same_len, stack_top)) in
        (
          record { pc = val; r = r; m = t.m; cc = t.cc },
          rw (get_reg_val-IsRegs t.r reg_rsp push.valid.regs, read, popped, up, set) refl,
          refl,
          refl,
          push.same_cc,
          λ k. ground (arith, is_set.value k, push.regs k),
        )

    -- `popq` after a push loads the word on top into its register, and gives the others back.
    pub step_popq-undoes :
        (i : Instr)
        → i.ok1 ≡ true
        → i.hi1 < reg_none
        → val < 2 ^ 64
        → (u : State) × (step_popq t i ≡ some (stat_aok, u))
          × (u.pc ≡ i.next)
          × (u.m ≡ t.m)
          × (u.cc ≡ s.cc)
          × ((k : ℕ) → reg_value u.r k ≡ (if k == i.hi1 then val else reg_value s.r k))
    unfolding step_popq reg_valid
    step_popq-undoes i ok known word =
        let valid_reg : ltb i.hi1 reg_none ≡ true = ground arith in
        let (r, set, is_set) =
          set_reg_val-IsRegSet t.r reg_rsp (reg_value s.r reg_rsp) push.valid.regs (omega arith)
            top-lt in
        let (r', set', is_set') = set_reg_val-IsRegSet r i.hi1 val is_set.regs known word in
        let read =
          get_word_val-in t.m (reg_value t.r reg_rsp) push.valid.mem
            (omega (arith, push.same_len, stack_top)) in
        (
          record { pc = i.next; r = r'; m = t.m; cc = t.cc },
          rw
              (
                ok,
                valid_reg,
                get_reg_val-IsRegs t.r reg_rsp push.valid.regs,
                up,
                set,
                read,
                popped,
                set',
              )
              refl,
          refl,
          refl,
          push.same_cc,
          λ k. ground (arith, is_set.value k, is_set'.value k, push.regs k),
        )

-- From a valid state whose stack pointer lies in memory with a word below it, a `pushq` and then
-- a `popq`, both fetched whole and of program registers, succeed and move one register into
-- the other, which may be the same; all other registers, the stack pointer with them, the condition
-- codes and the memory are as before, but for the word below the top of the stack, which keeps the
-- value that was pushed.
pub step_popq-step_pushq :
    (s : State) (i j : Instr)
    → IsState s
    → HasRoom s
    → i.ok1 ≡ true
    → i.hi1 < reg_none
    → i.next < 2 ^ 64
    → j.ok1 ≡ true
    → j.hi1 < reg_none
    → (t u : State) × (step_pushq s i ≡ some (stat_aok, t))
      × (step_popq t j ≡ some (stat_aok, u))
      × (u.pc ≡ j.next)
      × (u.cc ≡ s.cc)
      × ((k : ℕ) → reg_value u.r k ≡ (if k == j.hi1 then reg_value s.r i.hi1 else reg_value s.r k))
      × ((k : ℕ)
          → (k < reg_value s.r reg_rsp - 8) ⊎ (reg_value s.r reg_rsp ≤ k)
          → get_or u.m.contents k 0 ≡ get_or s.m.contents k 0)
      × (u.m.len ≡ s.m.len)
      × (word_at 8 u.m.contents (reg_value s.r reg_rsp - 8) ≡ reg_value s.r i.hi1)
step_popq-step_pushq s i j valid room ok known word ok' known' =
    let (t, push, is) = step_pushq-IsPushed s valid room i ok (reg_valid-lt i.hi1 known) word in
    let (u, pop, pc, mem, cc, regs) =
      step_popq-undoes s valid room (reg_value s.r i.hi1) i.next t is j ok' known'
        (reg_value-lt s.r i.hi1 valid.regs) in
    (
      t,
      u,
      push,
      pop,
      pc,
      cc,
      regs,
      λ k h. ap (λ (m : Mem). get_or m.contents k 0) mem ∙ is.below k h,
      ap (λ (m : Mem). m.len) mem ∙ is.same_len,
      ap (λ (m : Mem). word_at 8 m.contents (reg_value s.r reg_rsp - 8)) mem ∙ is.top,
    )

-- From a valid state whose stack pointer lies in memory with a word below it, a `call` that was
-- fetched whole and then a `ret` succeed: the first goes to its target, and the second comes
-- back to the instruction behind the call, with all registers,
-- the condition codes and the memory at and above the old top as before.
pub step_ret-step_call :
    (s : State) (i j : Instr)
    → IsState s
    → HasRoom s
    → i.ok1 ≡ true
    → i.okc ≡ true
    → i.next < 2 ^ 64
    → i.cval < 2 ^ 64
    → (t u : State) × (step_call s i ≡ some (stat_aok, t))
      × (step_ret t j ≡ some (stat_aok, u))
      × (t.pc ≡ i.cval)
      × (u.pc ≡ i.next)
      × (u.cc ≡ s.cc)
      × ((k : ℕ) → reg_value u.r k ≡ reg_value s.r k)
      × ((k : ℕ) → reg_value s.r reg_rsp ≤ k → get_or u.m.contents k 0 ≡ get_or s.m.contents k 0)
step_ret-step_call s i j valid room ok okc word target =
    let (t, push, is) = step_call-IsPushed s valid room i ok okc word target in
    let (u, ret, pc, mem, cc, regs) = step_ret-undoes s valid room i.next i.cval t is j in
    (
      t,
      u,
      push,
      ret,
      is.at,
      pc,
      cc,
      regs,
      λ k h. ap (λ (m : Mem). get_or m.contents k 0) mem ∙ is.below k (inr h),
    )
