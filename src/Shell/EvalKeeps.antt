-- ===== src/Shell/EvalKeeps.antt =====
-- What a command line of shlab/tsh.c leaves of the job list: one job at most in the foreground.
use mathlib.Core.Path.{subst}
use cs_app_labs.Prelude.{
  ◌>>=◌, ℕ, ◌≡◌, ◌<◌, refl, Bool, true, false, ◌||◌, not, Option, none, some, List, [], ◌∷◌, arith,
  ltb, ◌==◌, Bool-cases, inl, inr, if◌then◌else◌,
}
use cs_app_labs.Shell.Jobs.{
  Job, JobState, fg, bg, Shell, is_foreground, addjob, getjobpid, getjobjid,
}
use cs_app_labs.Shell.JobLaws.{has_pid, add_loop-IsAdded, add_loop-full}
use cs_app_labs.Shell.Parse.{parseline}
use cs_app_labs.Shell.Commands.{
  Scan, number, mismatch, at_end, Event, wait, same_text, bg_name, by_pid, by_jid, do_bgfg, acted,
  Builtin, exit, done, not_builtin, builtin_cmd,
}
use cs_app_labs.Shell.Eval.{Fork, child, failed, going, launch, answer, eval}
use cs_app_labs.Shell.Foreground.{is_waited, all_allowed-weaken, add_loop-allowed}
use cs_app_labs.Shell.History.{
  waits, IsFresh, IsOrderly, IsFine, IsFineIf, continue_job-IsFine, getjobpid-IsFound,
  getjobjid-IsFound,
}

by_pid-IsFine :
    (s : Shell) (name : List ℕ) (scan : Scan) → IsOrderly s none → IsFineIf (by_pid s name scan)
unfolding by_pid
by_pid-IsFine s name (number pid) is =
    continue_job-IsFine s name (λ j. j.pid == pid) (getjobpid s.jobs pid) is
      (getjobpid-IsFound s.jobs pid)
by_pid-IsFine s name mismatch is = is
by_pid-IsFine s name at_end is = tt

by_jid-IsFine :
    (s : Shell) (name : List ℕ) (scan scan' : Scan)
    → IsOrderly s none
    → IsFineIf (by_jid s name scan scan')
unfolding by_jid
by_jid-IsFine s name (number jid) scan' is =
    continue_job-IsFine s name (λ j. j.jid == jid) (getjobjid s.jobs jid) is
      (getjobjid-IsFound s.jobs jid is.ok)
by_jid-IsFine s name mismatch scan' is = by_pid-IsFine s name scan' is
by_jid-IsFine s name at_end scan' is = tt

abbrev IsFineBuiltin : Option Builtin → Type 0
IsFineBuiltin none = Unit
IsFineBuiltin (some exit) = Unit
IsFineBuiltin (some (done t events)) = IsFine (t, events)
IsFineBuiltin (some not_builtin) = Unit

IsFineBuiltin-if :
    (b : Bool) (x y : Option Builtin)
    → IsFineBuiltin x
    → IsFineBuiltin y
    → IsFineBuiltin (if b then x else y)
IsFineBuiltin-if true x y fine fine' = fine
IsFineBuiltin-if false x y fine fine' = fine'

-- A new job.
addjob-IsOrderly :
    (s : Shell) (w : Option ℕ) (pid : ℕ) (state : JobState) (cmdline : List ℕ)
    → IsOrderly s none
    → 0 < pid
    → has_pid pid s.jobs ≡ false
    → (not (is_foreground state) || is_waited w pid) ≡ true
    → IsOrderly (addjob s pid state cmdline).1 w
unfolding addjob
addjob-IsOrderly s w pid state cmdline is real fresh may =
    let new : Job = record { pid = pid; jid = s.nextjid; state = state; cmdline = cmdline } in
    let guard : ltb pid 1 ≡ false = ground (arith, real) in
    let ok =
      add_loop-allowed w new s.jobs (all_allowed-weaken w s.jobs is.ok)
        (ground (arith, may, real)) in
    elim (Bool-cases (has_pid 0 s.jobs)) [
      | inl room ↦
          let (after, adds, added) = add_loop-IsAdded new s.jobs room fresh is.unique in
          rw (guard, adds) (record { ok = rw adds at ok; unique = added.unique })
      | inr full ↦
          rw (guard, add_loop-full new s.jobs full)
            (record { ok = all_allowed-weaken w s.jobs is.ok; unique = is.unique })
    ]

launch-IsFine :
    (s : Shell) (cmdline : List ℕ) (in_background : Bool) (fork : Fork) (t : Shell)
    (events : List Event)
    → IsOrderly s none
    → IsFresh s.jobs fork
    → launch s cmdline in_background fork ≡ going t events
    → IsOrderly t (waits events)
unfolding launch
launch-IsFine s cmdline in_background failed t events is fresh run = absurd (cc run)
launch-IsFine s cmdline true (child pid) t events is (real, fresh) run =
    let same : (addjob s pid bg cmdline).1 ≡ t = cc run in
    let quiet : [] ≡ events = cc run in
    subst (λ es. IsOrderly t (waits es)) quiet
      (subst (λ (x : Shell). IsOrderly x none) same
        (addjob-IsOrderly s none pid bg cmdline is real fresh refl))
launch-IsFine s cmdline false (child pid) t events is (real, fresh) run =
    let same : (addjob s pid fg cmdline).1 ≡ t = cc run in
    let waiting : wait pid ∷ [] ≡ events = cc run in
    subst (λ es. IsOrderly t (waits es)) waiting
      (subst (λ (x : Shell). IsOrderly x (some pid)) same
        (addjob-IsOrderly s (some pid) pid fg cmdline is real fresh (ground (arith, real))))

module _ (scan_jid scan_pid : List ℕ → Scan) where
  do_bgfg-IsFine :
      (s : Shell) (name : List ℕ) (args : List (List ℕ))
      → IsOrderly s none
      → IsFineIf (do_bgfg scan_jid scan_pid s name args)
  unfolding do_bgfg
  do_bgfg-IsFine s name [] is = is
  do_bgfg-IsFine s name (arg ∷ args) is = by_jid-IsFine s name (scan_jid arg) (scan_pid arg) is

  acted-IsFine :
      (r : Option (Shell × List Event)) → IsFineIf r → IsFineBuiltin (acted scan_jid scan_pid r)
  acted-IsFine none fine = tt
  acted-IsFine (some r) fine = fine

  builtin_cmd-IsFine :
      (s : Shell) (argv : List (List ℕ))
      → IsOrderly s none
      → IsFineBuiltin (builtin_cmd scan_jid scan_pid s argv)
  unfolding builtin_cmd
  builtin_cmd-IsFine s [] is = tt
  builtin_cmd-IsFine s (name ∷ args) is =
      IsFineBuiltin-if (same_text name (b'q' ∷ b'u' ∷ b'i' ∷ b't' ∷ [])) (some exit) _ tt (
        IsFineBuiltin-if (same_text name (b'j' ∷ b'o' ∷ b'b' ∷ b's' ∷ [])) (some (done s [])) _ is (
          IsFineBuiltin-if (same_text name bg_name || same_text name (b'f' ∷ b'g' ∷ [])) _
            (some not_builtin)
            (acted-IsFine (do_bgfg scan_jid scan_pid s name args) (do_bgfg-IsFine s name args is))
            tt))

  answer-IsFine :
      (s t : Shell) (cmdline : List ℕ) (in_background : Bool) (fork : Fork) (events : List Event)
      (r : Option Builtin)
      → IsOrderly s none
      → IsFresh s.jobs fork
      → IsFineBuiltin r
      → (r >>= (λ b. some (answer s cmdline in_background fork b))) ≡ some (going t events)
      → IsOrderly t (waits events)
  unfolding answer
  answer-IsFine s t cmdline in_background fork events none is fresh fine run = absurd (cc run)
  answer-IsFine s t cmdline in_background fork events (some exit) is fresh fine run =
      absurd (cc run)
  answer-IsFine s t cmdline in_background fork events (some (done u es)) is fresh fine run =
      let same : u ≡ t = cc run in
      let quiet : es ≡ events = cc run in
      subst (λ xs. IsOrderly t (waits xs)) quiet
        (subst (λ (x : Shell). IsOrderly x (waits es)) same fine)
  answer-IsFine s t cmdline in_background fork events (some not_builtin) is fresh fine run =
      let same : launch s cmdline in_background fork ≡ going t events = cc run in
      launch-IsFine s cmdline in_background fork t events is fresh same

  line-IsFine :
      (s t : Shell) (cmdline : List ℕ) (fork : Fork) (events : List Event)
      (r : Option (Bool × List (List ℕ)))
      → IsOrderly s none
      → IsFresh s.jobs fork
      → (r >>= (λ (line : Bool × List (List ℕ)).
          builtin_cmd scan_jid scan_pid s line.1 >>= (λ b. some (answer s cmdline line.0 fork b))))
        ≡ some (going t events)
      → IsOrderly t (waits events)
  line-IsFine s t cmdline fork events none is fresh run = absurd (cc run)
  line-IsFine s t cmdline fork events (some (in_background, argv)) is fresh run =
      answer-IsFine s t cmdline in_background fork events (builtin_cmd scan_jid scan_pid s argv) is
        fresh (builtin_cmd-IsFine s argv is) run

  pub eval-IsFine :
      (s t : Shell) (cmdline : List ℕ) (fork : Fork) (events : List Event)
      → IsOrderly s none
      → IsFresh s.jobs fork
      → eval scan_jid scan_pid s cmdline fork ≡ some (going t events)
      → IsOrderly t (waits events)
  unfolding eval
  eval-IsFine s t cmdline fork events is fresh run =
      line-IsFine s t cmdline fork events (parseline cmdline) is fresh run
