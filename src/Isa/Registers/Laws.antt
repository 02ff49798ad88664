-- ===== src/Isa/Registers/Laws.antt =====
-- The registers of archlab/sim/misc/isa.c keep apart and keep what is stored in them.
use native.Mathlib.Decide.{dec_lt}
use cs_app_labs.Prelude.{
  ℕ, ◌*◌, ◌^◌, ◌<◌, ◌≡◌, ◌≢◌, ◌⊎◌, inl, inr, refl, ◌∙◌, false, some, arith, leb, ◌==◌,
  if◌then◌else◌, Bool-cases,
}
use cs_app_labs.Isa.Memory.{Mem}
use cs_app_labs.Isa.Memory.Bytes.{word_at}
use cs_app_labs.Isa.Memory.Cases.{word_at-lt}
use cs_app_labs.Isa.Memory.Laws.{IsMem, IsStored, get_word_val-in, set_word_val-in, word_at-same}
use cs_app_labs.Isa.Registers.{reg_none, get_reg_val, set_reg_val}

-- A register file: a memory of 128 bytes.
pub record IsRegs (r : Mem) : Type 0 where
  pub mem : IsMem r
  pub size : r.len ≡ 128

-- The contents of a register; 0 for the numbers that name none.
unfoldable pub reg_value : Mem → ℕ → ℕ
reg_value r id = if leb reg_none id then 0 else word_at 8 r.contents (id * 8)

pub get_reg_val-IsRegs : (r : Mem) (id : ℕ) → IsRegs r → get_reg_val r id ≡ some (reg_value r id)
unfolding get_reg_val reg_value
get_reg_val-IsRegs r id regs = elim (Bool-cases (leb reg_none id)) [
  | inl big ↦ rw big
  | inr small ↦ rw (small, get_word_val-in r (id * 8) regs.mem (ground arith))
]

-- What writing `val` to register `id` leaves of the register file.
pub record IsRegSet (r : Mem) (id val : ℕ) (r' : Mem) : Type 0 where
  pub regs : IsRegs r'
  pub value : (j : ℕ) → reg_value r' j ≡ (if j == id then val else reg_value r j)

module _ (r : Mem) (id val : ℕ) (regs : IsRegs r) (known : id < reg_none)
    (word : val < 2 ^ 64) where
  elsewhere-same :
      (r' : Mem)
      → IsStored r (id * 8) val r'
      → (j : ℕ) → (j == id) ≡ false
      → word_at 8 r'.contents (j * 8) ≡ word_at 8 r.contents (j * 8)
  elsewhere-same r' stored j ne =
      let apart : (j < id) ⊎ (id < j) = ground arith in
      word_at-same 8 r.contents r'.contents (j * 8) (λ k lo hi. stored.elsewhere k (grind arith))

  IsStored-IsRegSet : (r' : Mem) → IsStored r (id * 8) val r' → IsRegSet r id val r'
  unfolding reg_value
  IsStored-IsRegSet r' stored = record {
    regs = record { mem = stored.mem; size = stored.same_len ∙ regs.size };
    value = λ j. elim (Bool-cases (j == id)) [
      | inl e ↦ let same : j ≡ id = ground arith in rw (e, same) (ground (arith, stored.inside))
      | inr ne ↦ rw ne (ground (arith, elsewhere-same r' stored j ne))
    ];
  }

  pub set_reg_val-IsRegSet : (r' : Mem) × (set_reg_val r id val ≡ some r') × IsRegSet r id val r'
  unfolding set_reg_val
  set_reg_val-IsRegSet =
      let (r', returns, stored) =
        set_word_val-in r (id * 8) val regs.mem (omega (arith, regs.size)) word in
      (r', ground (arith, returns), IsStored-IsRegSet r' stored)

-- A write to any number: to a register, or to no register and then without effect.
pub set_reg_val_total :
    (r : Mem) (id val : ℕ)
    → IsRegs r
    → val < 2 ^ 64
    → (r' : Mem) × (set_reg_val r id val ≡ some r')
      × IsRegs r'
      × ((j : ℕ) → j ≢ id → reg_value r' j ≡ reg_value r j)
      × (id < reg_none → reg_value r' id ≡ val)
set_reg_val_total r id val regs word = elim (dec_lt id reg_none) [
  | yes known ↦
      let (r', returns, is) = set_reg_val-IsRegSet r id val regs known word in
      (r', returns, is.regs, λ j ne. ground (arith, is.value j), λ h. ground (arith, is.value id))
  | no other ↦ (r, unfold set_reg_val in ground arith, regs, λ j ne. refl, λ h. absurd (other h))
]

pub reg_value-lt : (r : Mem) (id : ℕ) → IsRegs r → reg_value r id < 2 ^ 64
unfolding reg_value
reg_value-lt r id regs = ground (arith, word_at-lt 8 r.contents (id * 8) regs.mem.all_bytes)
