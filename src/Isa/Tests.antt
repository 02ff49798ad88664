-- ===== src/Isa/Tests.antt =====
-- The functions of archlab/sim/misc/isa.c at concrete inputs: a machine of 64 bytes whose stack
-- pointer stands at their end.
use cs_app_labs.Prelude.{
  ◌<◌, ℕ, zero, suc, ◌+◌, ◌-◌, ◌^◌, ◌≡◌, ◌≤◌, ◌⊎◌, refl, inl, true, none, some, List, [], ◌∷◌, ◌++◌,
  arith, if◌then◌else◌, ◌==◌, replicate, get_elem?, get_or,
}
use cs_app_labs.Prelude.Int.{◌+ℤ◌, ◌-ℤ◌}
use cs_app_labs.Isa.Word.{signed64, sub64, add64}
use cs_app_labs.Isa.Memory.{Mem, get_word_val, set_word_val}
use cs_app_labs.Isa.Memory.Bytes.{AllBytes, word_at}
use cs_app_labs.Isa.Memory.Laws.{IsMem, InBounds, get_word_val-set_word_val}
use cs_app_labs.Isa.Memory.Cases.{Wraps, get_word_val_cases}
use cs_app_labs.Isa.Registers.{reg_rsp}
use cs_app_labs.Isa.Registers.Laws.{IsRegs, reg_value}
use cs_app_labs.Isa.Alu.{a_add, a_sub, overflow, compute_cc, cond_holds, c_l, to_cond}
use cs_app_labs.Isa.Alu.Laws.{
  overflow-add, overflow-sub, cond_holds-compute_cc, compares, does_not_fit,
}
use cs_app_labs.Isa.State.{State, stat_aok}
use cs_app_labs.Isa.Step.{step_state}
use cs_app_labs.Isa.Step.Fetch.{Instr, i_pushq, i_popq, i_call, i_ret, i_alu, i_jmp, fetch}
use cs_app_labs.Isa.Step.Moves.{step_alu}
use cs_app_labs.Isa.Step.Control.{step_jmp, step_call, step_ret, step_pushq, step_popq}
use cs_app_labs.Isa.Step.Valid.{IsState, Keeps}
use cs_app_labs.Isa.Step.Cases.{AccessWraps, step_state-Keeps}
use cs_app_labs.Isa.Step.Stack.{HasRoom, step_popq-step_pushq, step_ret-step_call}
use cs_app_labs.Isa.Step.Branch.{step_jmp-step_alu}
use cs_app_labs.Isa.Table.{machine_set, find_instr, iname}
use cs_app_labs.Isa.TableLaws.{iname-find_instr, fetch-bytes}

-- `pushq %rax`, `popq %rbx`, and zeros.
abbrev memory : Mem
memory = record { len = 64; contents = 0xa0 ∷ 0x0f ∷ 0xb0 ∷ 0x3f ∷ replicate 60 0 }

-- `%rax` is 7, `%rsp` is 64.
abbrev registers : Mem
registers = record { len = 128; contents = 7 ∷ replicate 31 0 ++ 64 ∷ replicate 95 0 }

abbrev machine : State
machine = record { pc = 0; r = registers; m = memory; cc = 4 }

replicate-AllBytes : (n : ℕ) → AllBytes (replicate n 0)
replicate-AllBytes zero = tt
replicate-AllBytes (suc n) = (omega arith, replicate-AllBytes n)

append-AllBytes : (xs ys : List ℕ) → AllBytes xs → AllBytes ys → AllBytes (xs ++ ys)
append-AllBytes [] ys hx hy = hy
append-AllBytes (x ∷ xs) ys hx hy = (hx.0, append-AllBytes xs ys hx.1 hy)

memory-IsMem : IsMem memory
memory-IsMem = record {
  sized = refl;
  int_len = omega arith;
  all_bytes = (omega arith, (omega arith, (omega arith, (omega arith, replicate-AllBytes 60))));
}

registers-IsRegs : IsRegs registers
registers-IsRegs = record {
  mem = record {
    sized = refl;
    int_len = omega arith;
    all_bytes = (
      omega arith,
      append-AllBytes (replicate 31 0) (64 ∷ replicate 95 0) (replicate-AllBytes 31)
          (omega arith, replicate-AllBytes 95),
    );
  };
  size = refl;
}

machine-IsState : IsState machine
machine-IsState = record { regs = registers-IsRegs; mem = memory-IsMem; pc = omega arith }

machine-HasRoom : HasRoom machine
unfolding reg_value
machine-HasRoom = (omega arith, omega arith)

abbrev push_rax : Instr
push_rax = record {
  kind = i_pushq;
  fun = 0;
  hi1 = 0;
  lo1 = 15;
  ok1 = true;
  cval = 0;
  okc = true;
  next = 2;
}

abbrev pop_rbx : Instr
pop_rbx = record {
  kind = i_popq;
  fun = 0;
  hi1 = 3;
  lo1 = 15;
  ok1 = true;
  cval = 0;
  okc = true;
  next = 4;
}

abbrev call_20 : Instr
call_20 = record {
  kind = i_call;
  fun = 0;
  hi1 = 15;
  lo1 = 15;
  ok1 = true;
  cval = 20;
  okc = true;
  next = 9;
}

abbrev ret_back : Instr
ret_back = record {
  kind = i_ret;
  fun = 0;
  hi1 = 15;
  lo1 = 15;
  ok1 = true;
  cval = 0;
  okc = true;
  next = 21;
}

-- `subq %rax, %rbx` and `jl 40`.
abbrev sub_rax_rbx : Instr
sub_rax_rbx = record {
  kind = i_alu;
  fun = 1;
  hi1 = 0;
  lo1 = 3;
  ok1 = true;
  cval = 0;
  okc = true;
  next = 2;
}

abbrev jl_40 : Instr
jl_40 = record {
  kind = i_jmp;
  fun = 2;
  hi1 = 15;
  lo1 = 15;
  ok1 = true;
  cval = 40;
  okc = true;
  next = 11;
}

step_state-Keeps_example : Keeps (AccessWraps machine) machine (step_state machine)
step_state-Keeps_example = step_state-Keeps machine machine-IsState

step_popq-step_pushq_example :
    (t u : State) × (step_pushq machine push_rax ≡ some (stat_aok, t))
    × (step_popq t pop_rbx ≡ some (stat_aok, u))
    × (u.pc ≡ 4)
    × (u.cc ≡ 4)
    × ((k : ℕ)
        → reg_value u.r k ≡ (if k == 3 then reg_value registers 0 else reg_value registers k))
    × ((k : ℕ)
        → (k < reg_value registers reg_rsp - 8) ⊎ (reg_value registers reg_rsp ≤ k)
        → get_or u.m.contents k 0 ≡ get_or memory.contents k 0)
    × (u.m.len ≡ 64)
    × (word_at 8 u.m.contents (reg_value registers reg_rsp - 8) ≡ reg_value registers 0)
step_popq-step_pushq_example =
    step_popq-step_pushq machine push_rax pop_rbx machine-IsState machine-HasRoom refl (omega arith)
      (omega arith) refl (omega arith)

step_ret-step_call_example :
    (t u : State) × (step_call machine call_20 ≡ some (stat_aok, t))
    × (step_ret t ret_back ≡ some (stat_aok, u))
    × (t.pc ≡ 20)
    × (u.pc ≡ 9)
    × (u.cc ≡ 4)
    × ((k : ℕ) → reg_value u.r k ≡ reg_value registers k)
    × ((k : ℕ)
        → reg_value registers reg_rsp ≤ k
        → get_or u.m.contents k 0 ≡ get_or memory.contents k 0)
step_ret-step_call_example =
    step_ret-step_call machine call_20 ret_back machine-IsState machine-HasRoom refl refl
      (omega arith) (omega arith)

step_jmp-step_alu_example :
    (t u : State) × (step_alu machine sub_rax_rbx ≡ some (stat_aok, t))
    × (step_jmp t jl_40 ≡ some (stat_aok, u))
    × ((k : ℕ)
        → reg_value u.r k ≡ (
            if k == 3
            then sub64 (reg_value registers 3) (reg_value registers 0)
            else reg_value registers k))
    × (u.m ≡ memory)
    × (u.pc ≡ (
        if compares
          (to_cond 2)
          (signed64 (reg_value registers 3))
          (signed64 (reg_value registers 0))
        then 40
        else 11))
step_jmp-step_alu_example =
    step_jmp-step_alu machine sub_rax_rbx jl_40 machine-IsState refl refl (omega arith) refl refl

cond_holds-compute_cc_example :
    cond_holds (compute_cc a_sub 1 (2 ^ 63)) c_l ≡ compares c_l (signed64 (2 ^ 63)) (signed64 1)
cond_holds-compute_cc_example = cond_holds-compute_cc c_l 1 (2 ^ 63) (omega arith) (omega arith)

overflow-add_example :
    overflow a_add 1 (2 ^ 63 - 1) (add64 1 (2 ^ 63 - 1))
    ≡ does_not_fit (signed64 (2 ^ 63 - 1) +ℤ signed64 1)
overflow-add_example = overflow-add 1 (2 ^ 63 - 1) (omega arith) (omega arith)

overflow-sub_example :
    overflow a_sub 1 (2 ^ 63) (sub64 (2 ^ 63) 1) ≡ does_not_fit (signed64 (2 ^ 63) -ℤ signed64 1)
overflow-sub_example = overflow-sub 1 (2 ^ 63) (omega arith) (omega arith)

get_word_val-set_word_val_example :
    (m' : Mem) × (set_word_val memory 8 1000 ≡ some (some m'))
    × (get_word_val m' 8 ≡ some (some 1000))
    × (get_word_val m' 0 ≡ get_word_val memory 0)
get_word_val-set_word_val_example =
    get_word_val-set_word_val memory 8 1000 0 memory-IsMem (omega arith) (omega arith) (omega arith)
      (inl (omega arith))

get_word_val_cases_example :
    (InBounds memory 60 × (get_word_val memory 60 ≡ some (some (word_at 8 memory.contents 60))))
    ⊎ (¬ InBounds memory 60 × ¬ Wraps 60 × (get_word_val memory 60 ≡ some none))
    ⊎ (Wraps 60 × (get_word_val memory 60 ≡ none))
get_word_val_cases_example = get_word_val_cases memory 60 memory-IsMem (omega arith)

iname-find_instr_example : (find_instr "nop" ≡ get_elem? machine_set 0) × (iname 0x10 ≡ "nop")
iname-find_instr_example = iname-find_instr 0 _ refl

fetch-bytes_example : (i : Instr) × (fetch memory 0 ≡ some (some i)) × (i.next ≡ 0 + 2)
fetch-bytes_example = fetch-bytes 25 _ memory 0 refl memory-IsMem (omega arith) refl
