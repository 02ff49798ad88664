-- ===== src/Shell/ParseEnds.antt =====
-- `parseline` of shlab/tsh.c ends on every line with at least one character.
use mathlib.Core.Path.{subst}
use cs_app_labs.Prelude.{
  ℕ, zero, suc, ◌<◌, ◌≤◌, ◌≡◌, refl, ap, ◌∙◌, Bool, Option, none, some, List, [], ◌∷◌, ◌==◌, length,
  arith, Bool-cases, Option-cases, inl, inr, lt→ltb,
}
use cs_app_labs.Shell.Parse.{
  max_args, skip_spaces, before, split_at, next_argument, with_argument, build_argv, replace_last,
  background, parseline,
}
use cs_app_labs.Shell.ParseLaws.{copy_line-short, continue, build_argv-suc}

-- Something is left behind a delimiter, and it is shorter.
abbrev IsShorter : List ℕ → Option (List ℕ × List ℕ) → Type 0
IsShorter cs none = Unit
IsShorter cs (some (arg, rest)) = length rest < length cs

before-IsShorter :
    (c : ℕ) (cs : List ℕ) (o : Option (List ℕ × List ℕ))
    → IsShorter cs o
    → IsShorter (c ∷ cs) (before c o)
before-IsShorter c cs none h = tt
before-IsShorter c cs (some (arg, rest)) h = omega arith

split_at-IsShorter : (d : ℕ) (cs : List ℕ) → IsShorter cs (split_at d cs)
unfolding split_at
split_at-IsShorter d [] = tt
split_at-IsShorter d (c ∷ cs) = elim (Bool-cases (c == d)) [
  | inl here ↦ rw here (omega arith)
  | inr later ↦ rw later (before-IsShorter c cs (split_at d cs) (split_at-IsShorter d cs))
]

cons-IsShorter :
    (c : ℕ) (cs : List ℕ) (o : Option (List ℕ × List ℕ)) → IsShorter cs o → IsShorter (c ∷ cs) o
cons-IsShorter c cs none h = tt
cons-IsShorter c cs (some (arg, rest)) h = omega arith

next_argument-IsShorter : (cs : List ℕ) → IsShorter cs (next_argument (skip_spaces cs))
unfolding skip_spaces next_argument
next_argument-IsShorter [] = tt
next_argument-IsShorter (c ∷ cs) = elim (Bool-cases (c == b' ')) [
  | inl space ↦
      rw space (cons-IsShorter c cs (next_argument (skip_spaces cs)) (next_argument-IsShorter cs))
  | inr other ↦ elim (Bool-cases (c == b'\'')) [
    | inl quote ↦
        rw (other, quote) (cons-IsShorter c cs (split_at b'\'' cs) (split_at-IsShorter b'\'' cs))
    | inr letter ↦ rw (other, letter) (split_at-IsShorter b' ' (c ∷ cs))
  ]
]

build_argv_total :
    (fuel : ℕ) (buf : List ℕ)
    → length buf < fuel
    → (argv : List (List ℕ)) × (build_argv fuel buf ≡ some argv) × (length argv ≤ length buf)
build_argv_total zero buf h = absurd (omega arith)
build_argv_total (suc fuel) buf h = elim (Option-cases (next_argument (skip_spaces buf))) [
  | inl e ↦ ([], build_argv-suc fuel buf ∙ ap (continue fuel) e, omega arith)
  | inr ((arg, rest), e) ↦
      let shorter : length rest < length buf =
        subst (IsShorter buf) e (next_argument-IsShorter buf) in
      let (argv, ends, few) = build_argv_total fuel rest (omega arith) in
      (
        arg ∷ argv,
        build_argv-suc fuel buf ∙ ap (continue fuel) e ∙ ap (with_argument arg) ends,
        omega arith,
      )
]

replace_last_total :
    (c : ℕ) (cs : List ℕ)
    → (buf : List ℕ) × (replace_last (c ∷ cs) ≡ some buf) × (length buf ≡ suc (length cs))
unfolding replace_last
replace_last_total c [] = (b' ' ∷ [], refl, refl)
replace_last_total c (d ∷ cs) =
    let (buf, e, size) = replace_last_total d cs in (c ∷ buf, rw e refl, ap suc size)

-- `parseline` of every line with at least one and fewer than `MAXARGS` characters ends and makes no
-- access outside the line or `argv`.
pub parseline_total :
    (c : ℕ) (cs : List ℕ)
    → suc (length cs) < max_args
    → (r : Bool × List (List ℕ)) × (parseline (c ∷ cs) ≡ some r)
unfolding parseline
parseline_total c cs h =
    let (buf, e, size) = replace_last_total c cs in
    let (argv, ends, few) = build_argv_total (suc (length buf)) buf (omega arith) in
    (
      background argv,
      rw
          (
            copy_line-short (c ∷ cs) (omega arith),
            e,
            ends,
            lt→ltb (length argv) max_args (omega (arith, few, size)),
          )
          refl,
    )
