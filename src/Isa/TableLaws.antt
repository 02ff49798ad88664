-- ===== src/Isa/TableLaws.antt =====
-- The tables of archlab/sim/misc/isa.c agree with themselves and with the fetch of `step_state`.
use cs_app_labs.Prelude.{
  ℕ, ◌+◌, ◌<◌, ◌≡◌, refl, ap, sym, ◌∙◌, some, arith, get_elem?, get_or, All, All-get_elem?,
  all_below, all_below_sound, ==_iff, ◌==◌, true,
}
use cs_app_labs.Isa.Memory.{Mem}
use cs_app_labs.Isa.Memory.Laws.{IsMem}
use cs_app_labs.Isa.Step.Fetch.{Instr, fetch, to_itype, hi4, needs_regids, needs_imm}
use cs_app_labs.Isa.Step.FetchLaws.{fetch-in, instr_size}
use cs_app_labs.Isa.Table.{Entry, machine_set, find_instr, iname, find_register, reg_name}

abbrev Found : Entry → Type 0
Found e = (find_instr e.name ≡ some e) × (iname e.code ≡ e.name)

found : All Found machine_set
unfolding find_instr iname
found = (
  (refl, refl),
  (
    (refl, refl),
    (
      (refl, refl),
      (
        (refl, refl),
        (
          (refl, refl),
          (
            (refl, refl),
            (
              (refl, refl),
              (
                (refl, refl),
                (
                  (refl, refl),
                  (
                    (refl, refl),
                    (
                      (refl, refl),
                      (
                        (refl, refl),
                        (
                          (refl, refl),
                          (
                            (refl, refl),
                            (
                              (refl, refl),
                              (
                                (refl, refl),
                                (
                                  (refl, refl),
                                  (
                                    (refl, refl),
                                    (
                                      (refl, refl),
                                      (
                                        (refl, refl),
                                        (
                                          (refl, refl),
                                          (
                                            (refl, refl),
                                            (
                                              (refl, refl),
                                              (
                                                (refl, refl),
                                                (
                                                  (refl, refl),
                                                  (
                                                    (refl, refl),
                                                    ((refl, refl), ((refl, refl), tt)),
                                                  ),
                                                ),
                                              ),
                                            ),
                                          ),
                                        ),
                                      ),
                                    ),
                                  ),
                                ),
                              ),
                            ),
                          ),
                        ),
                      ),
                    ),
                  ),
                ),
              ),
            ),
          ),
        ),
      ),
    ),
  ),
)

-- Every machine instruction is found by its name, and its code gives the name back.
pub iname-find_instr :
    (n : ℕ) (e : Entry)
    → get_elem? machine_set n ≡ some e
    → (find_instr e.name ≡ some e) × (iname e.code ≡ e.name)
iname-find_instr n e h = All-get_elem? Found machine_set n found h

abbrev Sized : Entry → Type 0
Sized e = e.bytes ≡ instr_size (to_itype (hi4 e.code))

sizes : All Sized machine_set
unfolding instr_size to_itype hi4 needs_regids needs_imm
sizes = omega arith

-- For each machine instruction, the length that the table gives the assembler is the one that
-- the simulator fetches at its code, at every address inside a valid memory.
pub fetch-bytes :
    (n : ℕ) (e : Entry) (m : Mem) (pc : ℕ)
    → get_elem? machine_set n ≡ some e
    → IsMem m
    → pc < m.len
    → get_or m.contents pc 0 ≡ e.code
    → (i : Instr) × (fetch m pc ≡ some (some i)) × (i.next ≡ pc + e.bytes)
fetch-bytes n e m pc h mem here code =
    let (i, got, instr, next) = fetch-in m pc mem here in
    let size : e.bytes ≡ instr_size (to_itype (hi4 e.code)) =
      All-get_elem? Sized machine_set n sizes h in
    (
      i,
      got,
      next
          ∙ ap (λ (b : ℕ). pc + instr_size (to_itype (hi4 b))) code
          ∙ ap (λ (k : ℕ). pc + k) (sym size),
    )

register_table : all_below 15 (λ id. find_register (reg_name id) == id) ≡ true
unfolding find_register reg_name
register_table = refl

-- Every register is found by its name.
find_register-reg_name : (id : ℕ) → id < 15 → find_register (reg_name id) ≡ id
find_register-reg_name id h =
    (==_iff _ id).0 (all_below_sound 15 (λ k. find_register (reg_name k) == k) id register_table h)
