-- ===== src/Isa/Step/Preserve.antt =====
-- Each case of `step_state` in archlab/sim/misc/isa.c works through these accesses, which keep the state valid.
use cs_app_labs.Prelude.{
  ◌>>=◌, ℕ, ◌^◌, ◌<◌, ◌≡◌, ◌≢◌, Bool, true, false, Option, none, some, refl, arith, Bool-cases,
  if◌then◌else◌, inl, inr,
}
use cs_app_labs.Isa.Memory.{Mem, get_word_val, set_word_val}
use cs_app_labs.Isa.Memory.Laws.{IsMem, get_word_val-in, set_word_val-in}
use cs_app_labs.Isa.Memory.Cases.{
  within, beyond, wraps, Wraps, place, get_word_val-Wraps, set_word_val-Wraps, get_word_val-refused,
  set_word_val-refused, word_at-lt,
}
use cs_app_labs.Isa.Registers.{reg_rsp, reg_valid, get_reg_val, set_reg_val}
use cs_app_labs.Isa.Registers.Laws.{IsRegs, reg_value, get_reg_val-IsRegs, set_reg_val_total}
use cs_app_labs.Isa.State.{State, Stat}
use cs_app_labs.Isa.Step.Fetch.{i_rmmovq, Instr, Result, stop}
use cs_app_labs.Isa.Step.Valid.{IsState, Keeps, access}
use cs_app_labs.Isa.Step.Moves.{data_address}

module _ (W : Type 0) (s : State) (valid : IsState s) where
  -- Reading a register always succeeds.
  pub read-Keeps :
      (id : ℕ) (k : ℕ → Result)
      → Keeps W s (k (reg_value s.r id))
      → Keeps W s (get_reg_val s.r id >>= k)
  read-Keeps id k h = rw (get_reg_val-IsRegs s.r id valid.regs) h

  -- So does writing one.
  pub write-Keeps :
      (r : Mem) (id val : ℕ) (k : Mem → Result)
      → IsRegs r
      → val < 2 ^ 64
      → ((r' : Mem)
          → IsRegs r'
          → ((j : ℕ) → j ≢ id → reg_value r' j ≡ reg_value r j)
          → Keeps W s (k r'))
      → Keeps W s (set_reg_val r id val >>= k)
  write-Keeps r id val k regs word h =
      let (r', returns, regs', others, here) = set_reg_val_total r id val regs word in
      rw returns (h r' regs' others)

  pub load-Keeps :
      (pos : ℕ) (k : Option ℕ → Result)
      → pos < 2 ^ 64
      → (Wraps pos → W)
      → Keeps W s (k none)
      → ((v : ℕ) → v < 2 ^ 64 → Keeps W s (k (some v)))
      → Keeps W s (get_word_val s.m pos >>= k)
  load-Keeps pos k word undefined refused value = elim (place s.m pos) [
    | within h ↦
        rw (get_word_val-in s.m pos valid.mem h)
          (value _ (omega (arith, word_at-lt 8 s.m.contents pos valid.mem.all_bytes)))
    | beyond h n ↦ rw (get_word_val-refused s.m pos valid.mem word n h) refused
    | wraps w ↦ rw (get_word_val-Wraps s.m pos valid.mem w) (undefined w)
  ]

  pub store-Keeps :
      (pos val : ℕ) (k : Option Mem → Result)
      → pos < 2 ^ 64
      → val < 2 ^ 64
      → (Wraps pos → W)
      → Keeps W s (k none)
      → ((m : Mem) → IsMem m → Keeps W s (k (some m)))
      → Keeps W s (set_word_val s.m pos val >>= k)
  store-Keeps pos val k word fits undefined refused value = elim (place s.m pos) [
    | within h ↦
        let (m', returns, stored) = set_word_val-in s.m pos val valid.mem h fits in
        rw returns (value m' stored.mem)
    | beyond h n ↦ rw (set_word_val-refused s.m pos valid.mem val word n h) refused
    | wraps w ↦ rw (set_word_val-Wraps s.m pos valid.mem val w) (undefined w)
  ]

  pub with_regs : (r : Mem) → IsRegs r → IsState (record s { r = r })
  with_regs r regs = record { regs = regs; mem = valid.mem; pc = valid.pc }

  pub with_mem : (m : Mem) → IsMem m → IsState (record s { m = m })
  with_mem m mem = record { regs = valid.regs; mem = mem; pc = valid.pc }

  -- An error after the stack pointer has moved.
  pub stop_moved-Keeps :
      (e : Stat) (r : Mem)
      → IsRegs r
      → ((j : ℕ) → j ≢ reg_rsp → reg_value r j ≡ reg_value s.r j)
      → Keeps W s (stop e (record s { r = r }))
  stop_moved-Keeps e r regs others = (
    with_regs r regs,
    λ n. record { same_pc = refl; same_mem = refl; same_cc = refl; same_regs = others },
  )

  -- The address of a move to or from memory.
  pub address-Keeps :
      (i : Instr) (k : ℕ → Result)
      → Keeps W s (k (access i_rmmovq s i))
      → Keeps W s (data_address s i >>= k)
  unfolding data_address access
  address-Keeps i k h = elim (Bool-cases (reg_valid i.lo1)) [
    | inl base ↦ rw (base, get_reg_val-IsRegs s.r i.lo1 valid.regs) (rw base at h)
    | inr bare ↦ rw bare (rw bare at h)
  ]

  -- The write of a conditional move.
  pub move-Keeps :
      (b : Bool) (id val : ℕ) (k : Mem → Result)
      → val < 2 ^ 64
      → ((r : Mem) → IsRegs r → Keeps W s (k r))
      → Keeps W s ((if b then set_reg_val s.r id val else some s.r) >>= k)
  move-Keeps true id val k word h =
      write-Keeps s.r id val k valid.regs word (λ r regs others. h r regs)
  move-Keeps false id val k word h = h s.r valid.regs
