-- ===== src/Shell/Waiting.antt =====
-- Which job of shlab/tsh.c is in the foreground while `waitfg` sleeps, and after it.
use cs_app_labs.Prelude.{
  ℕ, suc, ◌≡◌, ◌≤◌, refl, sym, ap, ◌∙◌, true, false, ◌&&◌, Option, none, some, List, [], ◌∷◌, arith,
  ltb, ◌==◌, Bool-cases, inl, inr, if◌then◌else◌,
}
use cs_app_labs.Shell.Jobs.{Job, is_foreground, fgpid, find_pid, getjobpid}
use cs_app_labs.Shell.JobLaws.{has_pid, Unique}
use cs_app_labs.Shell.Eval.{in_foreground, waitfg_again, sigint_handler}
use cs_app_labs.Shell.Foreground.{all_allowed}

-- How many jobs are in the foreground.
abbrev pub foregrounds : List Job → ℕ
foregrounds [] = 0
foregrounds (j ∷ js) = if is_foreground j.state then suc (foregrounds js) else foregrounds js

foregrounds-none : (js : List Job) → all_allowed none js ≡ true → foregrounds js ≡ 0
foregrounds-none [] ok = refl
foregrounds-none (j ∷ js) ok = ground (arith, ok, foregrounds-none js)

foregrounds-others :
    (v : ℕ) (js : List Job)
    → all_allowed (some v) js ≡ true
    → has_pid v js ≡ false
    → foregrounds js ≡ 0
foregrounds-others v [] ok out = refl
foregrounds-others v (j ∷ js) ok out = ground (arith, ok, out, foregrounds-others v js)

pub foregrounds_le :
    (w : Option ℕ) (js : List Job) → all_allowed w js ≡ true → Unique js → foregrounds js ≤ 1
foregrounds_le none js ok unique = ground (arith, foregrounds-none js ok)
foregrounds_le (some v) [] ok unique = ground arith
foregrounds_le (some v) (j ∷ js) ok (once, unique) = elim (Bool-cases (is_foreground j.state)) [
  | inl here ↦
      let at : j.pid ≡ v = ground (arith, ok, here) in
      let alone : has_pid v js ≡ false = elim once [
        | inl zero_pid ↦ absurd (ground (arith, ok, here, zero_pid))
        | inr out ↦ sym (ap (λ (q : ℕ). has_pid q js) at) ∙ out
      ] in
      rw here (ground (arith, foregrounds-others v js (ground (arith, ok)) alone))
  | inr ne ↦ rw ne (foregrounds_le (some v) js (ground (arith, ok)) unique)
]

fgpid-none : (js : List Job) → all_allowed none js ≡ true → fgpid js ≡ 0
unfolding fgpid
fgpid-none [] ok = refl
fgpid-none (j ∷ js) ok = ground (arith, ok, fgpid-none js)

-- Where the process that is waited for has no entry, nothing is in the foreground.
unwaited-allowed :
    (v : ℕ) (js : List Job)
    → all_allowed (some v) js ≡ true
    → (ltb 0 v && has_pid v js) ≡ false
    → all_allowed none js ≡ true
unwaited-allowed v [] ok out = refl
unwaited-allowed v (j ∷ js) ok out = ground (arith, ok, out, unwaited-allowed v js)

find_pid-allowed :
    (v : ℕ) (js : List Job)
    → all_allowed (some v) js ≡ true
    → Unique js
    → ltb 0 v ≡ true
    → in_foreground (find_pid v js) ≡ false
    → all_allowed none js ≡ true
unfolding find_pid
find_pid-allowed v [] ok unique real idle = refl
find_pid-allowed v (j ∷ js) ok (once, unique) real idle = elim (Bool-cases (j.pid == v)) [
  | inl here ↦
      let at : j.pid ≡ v = ground (arith, here) in
      let alone : has_pid v js ≡ false = elim once [
        | inl zero_pid ↦ absurd (ground (arith, here, real, zero_pid))
        | inr out ↦ sym (ap (λ (q : ℕ). has_pid q js) at) ∙ out
      ] in
      let still : is_foreground j.state ≡ false = rw here at idle in
      let rest : all_allowed none js ≡ true =
        unwaited-allowed v js (ground (arith, ok)) (ground (arith, alone)) in
      ground (arith, ok, still, rest)
  | inr ne ↦
      let later : in_foreground (find_pid v js) ≡ false = rw ne at idle in
      let rest : all_allowed none js ≡ true =
        find_pid-allowed v js (ground (arith, ok)) unique real later in
      ground (arith, ok, ne, rest)
]

-- When `waitfg` returns, nothing is in the foreground.
pub waitfg_again-allowed :
    (v : ℕ) (js : List Job)
    → all_allowed (some v) js ≡ true
    → Unique js
    → waitfg_again js v ≡ false
    → all_allowed none js ≡ true
unfolding waitfg_again getjobpid
waitfg_again-allowed v js ok unique idle = elim (Bool-cases (ltb v 1)) [
  | inl none_such ↦ unwaited-allowed v js ok (ground (arith, none_such))
  | inr real ↦ find_pid-allowed v js ok unique (ground (arith, real)) (rw real at idle)
]

-- Until then the job that is waited for is the one in the foreground.
find_pid-fgpid :
    (v : ℕ) (js : List Job)
    → all_allowed (some v) js ≡ true
    → in_foreground (find_pid v js) ≡ true
    → fgpid js ≡ v
unfolding find_pid fgpid
find_pid-fgpid v [] ok busy = absurd (cc busy)
find_pid-fgpid v (j ∷ js) ok busy = elim (Bool-cases (is_foreground j.state)) [
  | inl here ↦ rw here (ground (arith, ok, here))
  | inr ne ↦ elim (Bool-cases (j.pid == v)) [
    | inl at ↦ absurd (let is : is_foreground j.state ≡ true = rw at at busy in cc)
    | inr other ↦ rw ne (find_pid-fgpid v js (ground (arith, ok)) (rw other at busy))
  ]
]

sigint_busy :
    (v : ℕ) (js : List Job)
    → all_allowed (some v) js ≡ true
    → waitfg_again js v ≡ true
    → (if ltb 0 (fgpid js) then some (fgpid js) else none) ≡ some v
unfolding waitfg_again getjobpid
sigint_busy v js ok busy = elim (Bool-cases (ltb v 1)) [
  | inl none_such ↦ absurd (let no : false ≡ true = rw none_such at busy in cc no)
  | inr real ↦ rw (find_pid-fgpid v js ok (rw real at busy)) (ground (arith, real))
]

-- Where ctrl-c and ctrl-z go: to the job that `waitfg` is waiting for.
abbrev pub receiver : Option ℕ → List Job → Option ℕ
receiver none js = none
receiver (some v) js = if waitfg_again js v then some v else none

pub sigint_handler-allowed :
    (w : Option ℕ) (js : List Job)
    → all_allowed w js ≡ true
    → Unique js
    → sigint_handler js ≡ receiver w js
unfolding sigint_handler
sigint_handler-allowed none js ok unique = rw (fgpid-none js ok) refl
sigint_handler-allowed (some v) js ok unique = elim (Bool-cases (waitfg_again js v)) [
  | inl busy ↦ rw busy (sigint_busy v js ok busy)
  | inr idle ↦ rw (idle, fgpid-none js (waitfg_again-allowed v js ok unique idle)) refl
]
