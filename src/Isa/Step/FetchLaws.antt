-- ===== src/Isa/Step/FetchLaws.antt =====
-- The fetch of `step_state` in archlab/sim/misc/isa.c from a valid memory.
use cs_app_labs.Prelude.{
  ℕ, ◌+◌, ◌^◌, ◌≤◌, ◌<◌, ◌≡◌, ◌⊎◌, ◌||◌, not, not, none, some, refl, arith, Bool-cases,
  if◌then◌else◌, inl, inr, ap, ◌∙◌, get_or,
}
use cs_app_labs.Isa.Word.{is_negative, slt, add64}
use cs_app_labs.Isa.Memory.{Mem, get_byte_val}
use cs_app_labs.Isa.Memory.Bytes.{get_elem?-get_or, word_at}
use cs_app_labs.Isa.Memory.Laws.{IsMem, get_word_val-in}
use cs_app_labs.Isa.Memory.Cases.{within, beyond, wraps, place, get_word_val-refused, word_at-lt}
use cs_app_labs.Isa.Step.Valid.{IsInstr}
use cs_app_labs.Isa.Step.Fetch.{
  Itype, Instr, to_itype, hi4, lo4, needs_regids, needs_imm, no_regids, with_regids, with_imm,
  fetch_regids, fetch_imm, fetch,
}

-- A byte is read below the length and refused elsewhere.
pub get_byte_val_cases :
    (m : Mem) (pos : ℕ)
    → IsMem m
    → pos < 2 ^ 64
    → ((pos < m.len) × (get_byte_val m pos ≡ some (some (get_or m.contents pos 0))))
      ⊎ ((m.len ≤ pos) × (get_byte_val m pos ≡ some none))
unfolding get_byte_val
get_byte_val_cases m pos mem word = elim (Bool-cases (is_negative pos || not (slt pos m.len))) [
  | inl out ↦ inr (ground (arith, mem.int_len), rw out)
  | inr here ↦
      let below : pos < m.len = ground (arith, mem.int_len) in
      inl (below, rw (here, get_elem?-get_or m.contents pos (omega (arith, mem.sized))))
]

get_byte_val-in :
    (m : Mem) (pos : ℕ)
    → IsMem m
    → pos < m.len
    → get_byte_val m pos ≡ some (some (get_or m.contents pos 0))
get_byte_val-in m pos mem here = elim (get_byte_val_cases m pos mem (omega (arith, mem.int_len))) [
  | inl (below, got) ↦ got
  | inr (out, got) ↦ absurd (omega arith)
]

-- The register byte may be missing, but the fetch of it is defined.
fetch_regids_total :
    (m : Mem) (i : Instr)
    → IsMem m
    → i.next < 2 ^ 32
    → (j : Instr) × (fetch_regids m i ≡ some j)
      × (j.cval ≡ i.cval)
      × (j.kind ≡ i.kind)
      × (j.next ≡ i.next + (if needs_regids i.kind then 1 else 0))
unfolding fetch_regids
fetch_regids_total m i mem small = elim (Bool-cases (needs_regids i.kind)) [
  | inl has ↦ elim (get_byte_val_cases m i.next mem (omega arith)) [
    | inl (here, got) ↦ (
      with_regids i (some (get_or m.contents i.next 0)),
      rw (has, got),
      refl,
      refl,
      rw has (omega arith),
    )
    | inr (out, got) ↦ (with_regids i none, rw (has, got), refl, refl, rw has (omega arith))
  ]
  | inr bare ↦ (i, rw bare, refl, refl, rw bare (omega arith))
]

fetch_imm_total :
    (m : Mem) (i : Instr)
    → IsMem m
    → i.cval ≡ 0
    → i.next < 2 ^ 32
    → (j : Instr) × (fetch_imm m i ≡ some j)
      × IsInstr j
      × (j.next ≡ i.next + (if needs_imm i.kind then 8 else 0))
unfolding fetch_imm
fetch_imm_total m i mem zero_cval small = elim (Bool-cases (needs_imm i.kind)) [
  | inl has ↦ elim (place m i.next) [
    | within h ↦ (
      with_imm i (some (word_at 8 m.contents i.next)),
      rw (has, get_word_val-in m i.next mem h),
      record {
        cval = omega (arith, word_at-lt 8 m.contents i.next mem.all_bytes);
        next = omega arith;
      },
      rw has (omega arith),
    )
    | beyond h n ↦ (
      with_imm i none,
      rw (has, get_word_val-refused m i.next mem (omega arith) n h),
      record { cval = omega arith; next = omega arith },
      rw has (omega arith),
    )
    | wraps w ↦ absurd (omega arith)
  ]
  | inr bare ↦
      (i, rw bare, record { cval = omega arith; next = omega arith }, rw bare (omega arith))
]

-- The bytes that an instruction of a kind takes.
unfoldable pub instr_size : Itype → ℕ
instr_size k = 1 + (if needs_regids k then 1 else 0) + (if needs_imm k then 8 else 0)

-- Below the length of the memory there is an instruction, of the kind that its first byte says.
pub fetch-in :
    (m : Mem) (pc : ℕ)
    → IsMem m
    → pc < m.len
    → (i : Instr) × (fetch m pc ≡ some (some i))
      × IsInstr i
      × (i.next ≡ pc + instr_size (to_itype (hi4 (get_or m.contents pc 0))))
unfolding fetch instr_size
fetch-in m pc mem here =
    let byte = get_or m.contents pc 0 in
    let start = no_regids (to_itype (hi4 byte)) (lo4 byte) (add64 pc 1) in
    let got = get_byte_val-in m pc mem here in
    let (i, regs, zero_cval, same, next) =
      fetch_regids_total m start mem (omega (arith, mem.int_len)) in
    let near : i.next < 2 ^ 32 = ground (arith, next, mem.int_len) in
    let (j, imm, instr, end) = fetch_imm_total m i mem zero_cval near in
    let step : i.next ≡ pc + 1 + (if needs_regids (to_itype (hi4 byte)) then 1 else 0) =
      next
      ∙ ap (λ (n : ℕ). n + (if needs_regids (to_itype (hi4 byte)) then 1 else 0))
          (omega (arith, mem.int_len)) in
    (
      j,
      rw (got, regs, imm),
      instr,
      omega (arith, end, step, ap (λ (k : Itype). ◌+◌ 0 (if needs_imm k then 8 else 0)) same),
    )

-- The fetch is always defined: the first byte is outside the memory, or there is an instruction.
pub fetch_total :
    (m : Mem) (pc : ℕ)
    → IsMem m
    → pc < 2 ^ 64
    → (fetch m pc ≡ some none) ⊎ ((i : Instr) × (fetch m pc ≡ some (some i)) × IsInstr i)
unfolding fetch
fetch_total m pc mem word = elim (get_byte_val_cases m pc mem word) [
  | inr (out, got) ↦ inl (rw got)
  | inl (here, got) ↦
      let (i, fetched, instr, size) = fetch-in m pc mem here in inr (i, fetched, instr)
]
