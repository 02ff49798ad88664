-- ===== src/Shell/OneForeground.antt =====
-- Which job of shlab/tsh.c is in the foreground after any command lines and reports.
use mathlib.Core.Path.{subst}
use cs_app_labs.Prelude.{
  ℕ, ◌+◌, ◌≡◌, ◌≤◌, ap, Bool, true, false, Option, none, some, List, ltb, Bool-cases, inl, inr,
}
use cs_app_labs.Shell.Jobs.{Job, Shell, delete_loop, deletejob, maxjid, getjobpid}
use cs_app_labs.Shell.Reap.{
  Status, exited, signaled, stopped, other, stop_loop, with_jobs, reap, reported, getjobpid-reap,
}
use cs_app_labs.Shell.Commands.{Scan}
use cs_app_labs.Shell.Eval.{in_foreground, waitfg_again, sigint_handler, sigtstp_handler}
use cs_app_labs.Shell.Foreground.{allowed_if, delete_loop-allowed, stop_loop-allowed}
use cs_app_labs.Shell.Fewer.{Fewer, delete_loop-Fewer, stop_loop-Fewer}
use cs_app_labs.Shell.Waiting.{
  foregrounds, foregrounds_le, waitfg_again-allowed, receiver, sigint_handler-allowed,
}
use cs_app_labs.Shell.History.{
  Reached, started, evaluated, reaped, returned, IsOrderly, initjobs-IsOrderly,
}
use cs_app_labs.Shell.EvalKeeps.{eval-IsFine}

-- A report of a child.
deleted-IsOrderly :
    (s : Shell) (w : Option ℕ) (r : Option (List Job))
    → IsOrderly s w
    → allowed_if w r ≡ true
    → Fewer s.jobs r
    → IsOrderly
        (elim r as (λ x. Bool × Shell) [
          | none ↦ (false, s)
          | some jobs ↦ (true, record { jobs = jobs; nextjid = maxjid jobs + 1 })
        ]).1
        w
deleted-IsOrderly s w none is ok few = is
deleted-IsOrderly s w (some jobs) is ok (unique, gone) = record { ok = ok; unique = unique }

deletejob-IsOrderly :
    (s : Shell) (w : Option ℕ) (pid : ℕ) → IsOrderly s w → IsOrderly (deletejob s pid).1 w
unfolding deletejob
deletejob-IsOrderly s w pid is = elim (Bool-cases (ltb pid 1)) [
  | inl none_such ↦ rw none_such is
  | inr real ↦ rw real (
      deleted-IsOrderly s w (delete_loop pid s.jobs) is (delete_loop-allowed w pid s.jobs is.ok)
        (delete_loop-Fewer pid s.jobs is.unique))
]

stopped-IsOrderly :
    (s t : Shell) (w : Option ℕ) (r : Option (List Job))
    → IsOrderly s w
    → allowed_if w r ≡ true
    → Fewer s.jobs r
    → with_jobs s r ≡ some t
    → IsOrderly t w
stopped-IsOrderly s t w none is ok few run = absurd (cc run)
stopped-IsOrderly s t w (some jobs) is ok (unique, gone) run =
    subst (λ (x : Shell). IsOrderly x w) {x = record s { jobs = jobs }} (cc run)
      (record { ok = ok; unique = unique })

reap-IsOrderly :
    (s t : Shell) (w : Option ℕ) (pid : ℕ) (status : Status)
    → IsOrderly s w
    → reap s pid status ≡ some t
    → IsOrderly t w
unfolding reap
reap-IsOrderly s t w pid exited is run =
    subst (λ (x : Shell). IsOrderly x w) (cc run) (deletejob-IsOrderly s w pid is)
reap-IsOrderly s t w pid signaled is run =
    subst (λ (x : Shell). IsOrderly x w) (cc run) (deletejob-IsOrderly s w pid is)
reap-IsOrderly s t w pid stopped is run = elim (Bool-cases (ltb pid 1)) [
  | inl none_such ↦ absurd (let no : none ≡ some t = rw none_such at run in cc no)
  | inr real ↦
      stopped-IsOrderly s t w (stop_loop pid s.jobs) is (stop_loop-allowed w pid s.jobs is.ok)
        (stop_loop-Fewer pid s.jobs is.unique) (rw real at run)
]
reap-IsOrderly s t w pid other is run = subst (λ (x : Shell). IsOrderly x w) (cc run) is

-- A child that has ended, or is stopped.
abbrev pub ends_wait : Status → Bool
ends_wait exited = true
ends_wait signaled = true
ends_wait stopped = true
ends_wait other = false

reported-idle :
    (status : Status) (j : Job) (r : Option Job)
    → ends_wait status ≡ true
    → r ≡ reported status j
    → in_foreground r ≡ false
reported-idle exited j r ends is = ap in_foreground is
reported-idle signaled j r ends is = ap in_foreground is
reported-idle stopped j r ends is = ap in_foreground is
reported-idle other j r ends is = absurd (cc ends)

module _ (scan_jid scan_pid : List ℕ → Scan) where
  Reached-IsOrderly : (s : Shell) (w : Option ℕ) → Reached scan_jid scan_pid s w → IsOrderly s w
  Reached-IsOrderly s w (started jobs) =
      let (ok, unique) = initjobs-IsOrderly jobs in record { ok = ok; unique = unique }
  Reached-IsOrderly t w (evaluated s _ cmdline fork events before fresh run) =
      eval-IsFine scan_jid scan_pid s t cmdline fork events (Reached-IsOrderly s none before) fresh
        run
  Reached-IsOrderly t w (reaped s _ _ pid status before run) =
      reap-IsOrderly s t w pid status (Reached-IsOrderly s w before) run
  Reached-IsOrderly s w (returned _ pid before idle) =
      let is = Reached-IsOrderly s (some pid) before in
      record { ok = waitfg_again-allowed pid s.jobs is.ok is.unique idle; unique = is.unique }

  -- Whatever lines are evaluated and whatever children are reported between them and while `waitfg`
  -- sleeps, if `fork` gives process numbers that are not in the list, at most one job is in the
  -- foreground, and ctrl-c and ctrl-z are sent to the job that `waitfg` waits for while it is in
  -- the foreground, and to no other.
  pub Reached-sigint_handler :
      (s : Shell) (w : Option ℕ)
      → Reached scan_jid scan_pid s w
      → (foregrounds s.jobs ≤ 1)
        × (sigint_handler s.jobs ≡ receiver w s.jobs)
        × (sigtstp_handler s.jobs ≡ receiver w s.jobs)
  unfolding sigtstp_handler sigint_handler
  Reached-sigint_handler s w before =
      let is = Reached-IsOrderly s w before in
      (
        foregrounds_le w s.jobs is.ok is.unique,
        sigint_handler-allowed w s.jobs is.ok is.unique,
        sigint_handler-allowed w s.jobs is.ok is.unique,
      )

  -- After any lines, with new process numbers from `fork`, and any reports between them or while
  -- `waitfg` sleeps: if the job that the shell waits for is in the list and is reported to have
  -- exited, to have been killed or to have stopped, the report does not end the shell, and `waitfg`
  -- returns, so that the shell reads the next line.
  pub Reached-reap :
      (s : Shell) (v : ℕ) (status : Status) (j : Job)
      → Reached scan_jid scan_pid s (some v)
      → getjobpid s.jobs v ≡ some j
      → ends_wait status ≡ true
      → (t : Shell) × (reap s v status ≡ some t)
        × (waitfg_again t.jobs v ≡ false)
        × Reached scan_jid scan_pid t none
  unfolding waitfg_again
  Reached-reap s v status j before found ends =
      let is = Reached-IsOrderly s (some v) before in
      let (t, run, after, others, unique) = getjobpid-reap s v status j is.unique found in
      let idle = reported-idle status j _ ends after in
      (t, run, idle, returned t v (reaped s t (some v) v status before run) idle)
