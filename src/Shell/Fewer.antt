-- ===== src/Shell/Fewer.antt =====
-- The process numbers in the job list of shlab/tsh.c, when one entry has changed.
use cs_app_labs.Prelude.{
  ℕ, ◌≡◌, ◌⊎◌, refl, ap, ◌∙◌, Bool, true, false, ◌||◌, Option, none, some, List, [], ◌∷◌, arith,
  ltb, ◌==◌, Bool-cases, inl, inr,
}
use cs_app_labs.Shell.Jobs.{Job, JobState, clearjob, behind, delete_loop}
use cs_app_labs.Shell.JobLaws.{has_pid, Unique}
use cs_app_labs.Shell.Reap.{stop_loop}
use cs_app_labs.Shell.Commands.{set_first}

-- `jobs` with one entry changed, whose process number has stayed or has become 0.
abbrev pub Fewer : List Job → Option (List Job) → Type 0
Fewer js none = Unit
Fewer js (some after) =
    Unique after × ((q : ℕ) → ltb 0 q ≡ true → has_pid q js ≡ false → has_pid q after ≡ false)

Fewer-behind :
    (j : Job) (js : List Job) (r : Option (List Job))
    → (j.pid ≡ 0) ⊎ (has_pid j.pid js ≡ false)
    → Fewer js r
    → Fewer (j ∷ js) (behind j r)
Fewer-behind j js none once few = tt
Fewer-behind j js (some after) once (unique, gone) = (
  (
    elim (Bool-cases (ltb 0 j.pid)) [
      | inl real ↦ elim once [
        | inl zero_pid ↦ inl zero_pid
        | inr alone ↦ inr (gone j.pid real alone)
      ]
      | inr free ↦ inl (ground (arith, free))
    ],
    unique,
  ),
  λ q real out. ground (arith, out, gone q real),
)

pub delete_loop-Fewer : (pid : ℕ) (js : List Job) → Unique js → Fewer js (delete_loop pid js)
unfolding delete_loop clearjob
delete_loop-Fewer pid [] unique = tt
delete_loop-Fewer pid (j ∷ js) (once, unique) = elim (Bool-cases (j.pid == pid)) [
  | inl here ↦ rw here ((inl refl, unique), λ q real out. ground (arith, real, out))
  | inr ne ↦ rw ne (Fewer-behind j js (delete_loop pid js) once (delete_loop-Fewer pid js unique))
]

pub stop_loop-Fewer : (pid : ℕ) (js : List Job) → Unique js → Fewer js (stop_loop pid js)
unfolding stop_loop
stop_loop-Fewer pid [] unique = tt
stop_loop-Fewer pid (j ∷ js) (once, unique) = elim (Bool-cases (j.pid == pid)) [
  | inl here ↦ rw here ((once, unique), λ q real out. out)
  | inr ne ↦ rw ne (Fewer-behind j js (stop_loop pid js) once (stop_loop-Fewer pid js unique))
]

pub has_pid-set_first :
    (p : Job → Bool) (state : JobState) (js : List Job) (q : ℕ)
    → has_pid q (set_first p state js) ≡ has_pid q js
unfolding set_first
has_pid-set_first p state [] q = refl
has_pid-set_first p state (j ∷ js) q = elim (Bool-cases (p j)) [
  | inl here ↦ rw here refl
  | inr ne ↦ rw ne (ap (λ (b : Bool). (j.pid == q) || b) (has_pid-set_first p state js q))
]

pub set_first-Unique :
    (p : Job → Bool) (state : JobState) (js : List Job) → Unique js → Unique (set_first p state js)
unfolding set_first
set_first-Unique p state [] unique = tt
set_first-Unique p state (j ∷ js) (once, unique) = elim (Bool-cases (p j)) [
  | inl here ↦ rw here (once, unique)
  | inr ne ↦ rw ne (
    elim once [
      | inl zero_pid ↦ inl zero_pid
      | inr alone ↦ inr (has_pid-set_first p state js j.pid ∙ alone)
    ],
    set_first-Unique p state js unique,
  )
]
