-- ===== src/Shell/Commands.antt =====
-- `builtin_cmd` and `do_bgfg` of shlab/tsh.c. Messages are left out.
use cs_app_labs.Prelude.{
  ℕ, Bool, true, false, ◌&&◌, ◌||◌, Option, none, some, List, [], ◌∷◌, ◌==◌, if◌then◌else◌,
}
use cs_app_labs.Shell.Jobs.{Job, JobState, fg, bg, Shell, getjobpid, getjobjid}

-- What `sscanf` of one number gives: the number, nothing that matches, or EOF at once, which is
-- not 0 either and leaves the variable unset. A negative number takes the branch that 0 takes.
pub data Scan : Type 0 where
  number : ℕ → Scan
  mismatch : Scan
  at_end : Scan

-- `kill(-pid, SIGCONT)`, and `waitfg(pid)`.
pub data Event : Type 0 where
  resume : ℕ → Event
  wait : ℕ → Event

-- The job that a lookup points to, the first of its kind, changes its state.
unfoldable pub set_first : (Job → Bool) → JobState → List Job → List Job
set_first p state [] = []
set_first p state (j ∷ js) =
    let rest = set_first p state js in if p j then record j { state = state } ∷ js else j ∷ rest

-- `!strcmp(a, b)`.
unfoldable pub same_text : List ℕ → List ℕ → Bool
same_text [] [] = true
same_text [] (d ∷ ds) = false
same_text (c ∷ cs) [] = false
same_text (c ∷ cs) (d ∷ ds) = (c == d) && same_text cs ds

abbrev pub bg_name : List ℕ
bg_name = b'b' ∷ b'g' ∷ []

-- The end of `do_bgfg`, on the job that was found.
unfoldable pub continue_job :
    Shell → (name : List ℕ) → (Job → Bool) → Option Job → Shell × List Event
continue_job s name p none = (s, [])
continue_job s name p (some job) =
    if same_text name bg_name
    then (record s { jobs = set_first p bg s.jobs }, resume job.pid ∷ [])
    else (record s { jobs = set_first p fg s.jobs }, resume job.pid ∷ wait job.pid ∷ [])

-- The argument is `%` and a job number, or else a process number.
unfoldable pub by_pid : Shell → (name : List ℕ) → Scan → Option (Shell × List Event)
unfolding continue_job
by_pid s name (number pid) = some (continue_job s name (λ j. j.pid == pid) (getjobpid s.jobs pid))
by_pid s name mismatch = some (s, [])
by_pid s name at_end = none

unfoldable pub by_jid :
    Shell → (name : List ℕ) → (as_jid as_pid : Scan) → Option (Shell × List Event)
unfolding by_pid continue_job
by_jid s name (number jid) as_pid =
    some (continue_job s name (λ j. j.jid == jid) (getjobjid s.jobs jid))
by_jid s name mismatch as_pid = by_pid s name as_pid
by_jid s name at_end as_pid = none

-- What `builtin_cmd` does: leave the shell, act on it and return 1, or return 0.
pub data Builtin : Type 0 where
  exit : Builtin
  done : Shell → List Event → Builtin
  not_builtin : Builtin

module _ (scan_jid scan_pid : List ℕ → Scan) where
  -- `do_bgfg`, with `sscanf` of `%%%d` and of `%d`; `none` is the use of an unset variable.
  unfoldable pub do_bgfg :
      Shell → (name : List ℕ) → (args : List (List ℕ)) → Option (Shell × List Event)
  unfolding by_jid
  do_bgfg s name [] = some (s, [])
  do_bgfg s name (arg ∷ args) = by_jid s name (scan_jid arg) (scan_pid arg)

  abbrev pub acted : Option (Shell × List Event) → Option Builtin
  acted none = none
  acted (some (s, events)) = some (done s events)

  -- `builtin_cmd`; `none` is the use of `argv[0]` where it is `NULL`, or of an unset variable.
  unfoldable pub builtin_cmd : Shell → List (List ℕ) → Option Builtin
  unfolding do_bgfg
  builtin_cmd s [] = none
  builtin_cmd s (name ∷ args) =
      if same_text name (b'q' ∷ b'u' ∷ b'i' ∷ b't' ∷ [])
      then some exit
      else if same_text name (b'j' ∷ b'o' ∷ b'b' ∷ b's' ∷ [])
      then some (done s [])
      else if same_text name bg_name || same_text name (b'f' ∷ b'g' ∷ [])
      then acted (do_bgfg s name args)
      else some not_builtin
