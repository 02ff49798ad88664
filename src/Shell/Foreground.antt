-- ===== src/Shell/Foreground.antt =====
-- Which jobs of shlab/tsh.c may be in the foreground while the shell waits, or does not wait.
use mathlib.Core.Path.{subst}
use cs_app_labs.Prelude.{
  ℕ, ◌≡◌, ◌<◌, refl, Bool, true, false, ◌&&◌, ◌||◌, not, Option, none, some, List, [], ◌∷◌, arith,
  ltb, ◌==◌, Bool-cases, inl, inr, if◌then◌else◌,
}
use cs_app_labs.Shell.Jobs.{Job, fg, bg, is_foreground, clearjob, behind, add_loop, delete_loop}
use cs_app_labs.Shell.Reap.{stop_loop}
use cs_app_labs.Shell.Commands.{set_first}

-- Only the process that is waited for is in the foreground, and an entry without a process has no
-- job number.
abbrev pub is_waited : Option ℕ → ℕ → Bool
is_waited none pid = false
is_waited (some w) pid = (pid == w) && ltb 0 pid

abbrev pub allowed : Option ℕ → Job → Bool
allowed w j = (not (is_foreground j.state) || is_waited w j.pid) && (ltb 0 j.pid || (j.jid == 0))

abbrev pub all_allowed : Option ℕ → List Job → Bool
all_allowed w [] = true
all_allowed w (j ∷ js) = allowed w j && all_allowed w js

pub all_allowed-weaken :
    (w : Option ℕ) (js : List Job) → all_allowed none js ≡ true → all_allowed w js ≡ true
all_allowed-weaken w [] h = refl
all_allowed-weaken w (j ∷ js) h = ground (arith, h, all_allowed-weaken w js)

abbrev pub allowed_if : Option ℕ → Option (List Job) → Bool
allowed_if w none = true
allowed_if w (some js) = all_allowed w js

allowed_if-behind :
    (w : Option ℕ) (j : Job) (r : Option (List Job))
    → allowed w j ≡ true
    → allowed_if w r ≡ true
    → allowed_if w (behind j r) ≡ true
allowed_if-behind w j none ok ok' = refl
allowed_if-behind w j (some js) ok ok' = ground (arith, ok, ok')

pub add_loop-allowed :
    (w : Option ℕ) (new : Job) (js : List Job)
    → all_allowed w js ≡ true
    → allowed w new ≡ true
    → allowed_if w (add_loop new js) ≡ true
unfolding add_loop
add_loop-allowed w new [] ok ok' = refl
add_loop-allowed w new (j ∷ js) ok ok' = elim (Bool-cases (j.pid == 0)) [
  | inl free ↦ rw free (ground (arith, ok, ok'))
  | inr used ↦ rw used (
      allowed_if-behind w j (add_loop new js) (ground (arith, ok))
        (add_loop-allowed w new js (ground (arith, ok)) ok'))
]

pub delete_loop-allowed :
    (w : Option ℕ) (pid : ℕ) (js : List Job)
    → all_allowed w js ≡ true
    → allowed_if w (delete_loop pid js) ≡ true
unfolding delete_loop clearjob
delete_loop-allowed w pid [] ok = refl
delete_loop-allowed w pid (j ∷ js) ok = elim (Bool-cases (j.pid == pid)) [
  | inl here ↦ rw here (ground (arith, ok))
  | inr ne ↦ rw ne (
      allowed_if-behind w j (delete_loop pid js) (ground (arith, ok))
        (delete_loop-allowed w pid js (ground (arith, ok))))
]

pub stop_loop-allowed :
    (w : Option ℕ) (pid : ℕ) (js : List Job)
    → all_allowed w js ≡ true
    → allowed_if w (stop_loop pid js) ≡ true
unfolding stop_loop
stop_loop-allowed w pid [] ok = refl
stop_loop-allowed w pid (j ∷ js) ok = elim (Bool-cases (j.pid == pid)) [
  | inl here ↦ rw here (ground (arith, ok))
  | inr ne ↦ rw ne (
      allowed_if-behind w j (stop_loop pid js) (ground (arith, ok))
        (stop_loop-allowed w pid js (ground (arith, ok))))
]

-- The first job of a kind.
abbrev pub first : (Job → Bool) → List Job → Option Job
first p [] = none
first p (j ∷ js) = if p j then some j else first p js

pub set_first_bg-allowed :
    (p : Job → Bool) (js : List Job)
    → all_allowed none js ≡ true
    → all_allowed none (set_first p bg js) ≡ true
unfolding set_first
set_first_bg-allowed p [] ok = refl
set_first_bg-allowed p (j ∷ js) ok = elim (Bool-cases (p j)) [
  | inl here ↦ rw here (ground (arith, ok))
  | inr ne ↦ rw ne (ground (arith, ok, set_first_bg-allowed p js))
]

pub set_first_fg-allowed :
    (p : Job → Bool) (js : List Job) (j : Job)
    → first p js ≡ some j
    → 0 < j.pid
    → all_allowed none js ≡ true
    → all_allowed (some j.pid) (set_first p fg js) ≡ true
unfolding set_first
set_first_fg-allowed p [] j found real ok = absurd (cc found)
set_first_fg-allowed p (i ∷ js) j found real ok = elim (Bool-cases (p i)) [
  | inl here ↦
      let same : some i ≡ some j = rw here at found in
      let is : j ≡ i = cc same in
      let own : allowed (some j.pid) (record i { state = fg }) ≡ true =
        subst (λ (k : Job). allowed (some j.pid) (record k { state = fg }) ≡ true) is
          (ground (arith, real)) in
      rw here (ground (arith, own, ok, all_allowed-weaken (some j.pid) js))
  | inr ne ↦
      let later : first p js ≡ some j = rw ne at found in
      rw ne (
        ground (
          arith,
          ok,
          all_allowed-weaken (some j.pid) (i ∷ []),
          set_first_fg-allowed p js j later real,
        ))
]
