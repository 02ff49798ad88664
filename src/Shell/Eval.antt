-- ===== src/Shell/Eval.antt =====
-- `eval`, the test of `waitfg`, and the handlers of ctrl-c and ctrl-z of shlab/tsh.c, as the shell
-- itself runs them: the child, with its `execve`, and the signals that are sent are the kernel's.
-- Messages are left out, and the blocking of SIGCHLD, which keeps reports out of the end of `eval`.
use cs_app_labs.Prelude.{
  ◌>>=◌, ℕ, Bool, true, false, Option, none, some, List, [], ◌∷◌, ltb, if◌then◌else◌,
}
use cs_app_labs.Shell.Jobs.{Job, JobState, fg, bg, Shell, is_foreground, addjob, fgpid, getjobpid}
use cs_app_labs.Shell.Parse.{parseline}
use cs_app_labs.Shell.Commands.{Scan, Event, wait, Builtin, exit, done, not_builtin, builtin_cmd}

-- What `fork` gives to the shell.
pub data Fork : Type 0 where
  child : ℕ → Fork
  failed : Fork

-- The shell has ended, or goes on: with `waitfg` if that is among the events.
pub data Outcome : Type 0 where
  ended : Outcome
  going : Shell → List Event → Outcome

abbrev pub job_state : Bool → JobState
job_state true = bg
job_state false = fg

abbrev pub waits_if : Bool → ℕ → List Event
waits_if true pid = []
waits_if false pid = wait pid ∷ []

-- From `fork` to the end of `eval`.
unfoldable pub launch : Shell → List ℕ → (in_background : Bool) → Fork → Outcome
launch s cmdline in_background failed = ended
launch s cmdline in_background (child pid) =
    going (addjob s pid (job_state in_background) cmdline).1 (waits_if in_background pid)

unfoldable pub answer : Shell → List ℕ → (in_background : Bool) → Fork → Builtin → Outcome
unfolding launch
answer s cmdline in_background fork exit = ended
answer s cmdline in_background fork (done t events) = going t events
answer s cmdline in_background fork not_builtin = launch s cmdline in_background fork

-- `eval`; `none` is undefined behaviour of `parseline` or `builtin_cmd`.
unfoldable pub eval : (scan_jid scan_pid : List ℕ → Scan) → Shell → List ℕ → Fork → Option Outcome
unfolding answer
eval scan_jid scan_pid s cmdline fork = parseline cmdline >>= (λ (line : Bool × List (List ℕ)).
    builtin_cmd scan_jid scan_pid s line.1 >>= (λ b. some (answer s cmdline line.0 fork b)))

-- Whether `waitfg` sleeps again.
abbrev pub in_foreground : Option Job → Bool
in_foreground none = false
in_foreground (some job) = is_foreground job.state

unfoldable pub waitfg_again : List Job → (pid : ℕ) → Bool
waitfg_again jobs pid = in_foreground (getjobpid jobs pid)

-- `sigint_handler` and `sigtstp_handler`: the process group that is sent the signal.
unfoldable pub sigint_handler : List Job → Option ℕ
sigint_handler jobs = if ltb 0 (fgpid jobs) then some (fgpid jobs) else none

unfoldable pub sigtstp_handler : List Job → Option ℕ
sigtstp_handler jobs = if ltb 0 (fgpid jobs) then some (fgpid jobs) else none
