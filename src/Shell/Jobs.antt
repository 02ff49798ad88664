-- ===== src/Shell/Jobs.antt =====
-- The job list of shlab/tsh.c: the helper routines from `clearjob` to `pid2jid`. A process number
-- is a natural number: a negative one takes the branch that 0 takes. Printing is left out.
use cs_app_labs.Prelude.{
  ℕ, ◌+◌, Bool, true, false, Option, none, some, List, [], ◌∷◌, ltb, ◌==◌, if◌then◌else◌, map,
}

abbrev pub max_jobs : ℕ
max_jobs = 16

-- `UNDEF`, `FG`, `BG` and `ST`.
pub data JobState : Type 0 where
  undef fg bg st : JobState

-- `job_t`; the command line is its characters up to the terminator.
pub record Job : Type 0 where
  pub pid : ℕ
  pub jid : ℕ
  pub state : JobState
  pub cmdline : List ℕ

-- The globals `jobs` and `nextjid`.
pub record Shell : Type 0 where
  pub jobs : List Job
  pub nextjid : ℕ

abbrev pub is_foreground : JobState → Bool
is_foreground fg = true
is_foreground undef = false
is_foreground bg = false
is_foreground st = false

-- `clearjob`.
unfoldable pub clearjob : Job → Job
clearjob j = record j { pid = 0; jid = 0; state = undef; cmdline = [] }

-- `initjobs`.
unfoldable pub initjobs : List Job → List Job
initjobs jobs = map clearjob jobs

-- `maxjid`, with the largest so far.
unfoldable pub maxjid_loop : ℕ → List Job → ℕ
maxjid_loop max [] = max
maxjid_loop max (j ∷ js) = maxjid_loop (if ltb max j.jid then j.jid else max) js

unfoldable pub maxjid : List Job → ℕ
unfolding maxjid_loop
maxjid jobs = maxjid_loop 0 jobs

abbrev pub behind : Job → Option (List Job) → Option (List Job)
behind j none = none
behind j (some js) = some (j ∷ js)

-- The loop of `addjob`: the first free entry becomes `new`; `none` if there is none.
unfoldable pub add_loop : Job → List Job → Option (List Job)
add_loop new [] = none
add_loop new (j ∷ js) =
    let rest = add_loop new js in if j.pid == 0 then some (new ∷ js) else behind j rest

-- `addjob`; the Boolean is what it returns.
unfoldable pub addjob : Shell → (pid : ℕ) → JobState → List ℕ → Bool × Shell
addjob s pid state cmdline =
    if ltb pid 1
    then (false, s)
    else elim (add_loop (record { pid = pid; jid = s.nextjid; state = state; cmdline = cmdline })
        s.jobs) [
          | none ↦ (false, s)
          | some jobs ↦ (
            true,
            record {
              jobs = jobs;
              nextjid = (if ltb max_jobs (s.nextjid + 1) then 1 else s.nextjid + 1);
            },
          )
        ]

-- The loop of `deletejob`.
unfoldable pub delete_loop : ℕ → List Job → Option (List Job)
unfolding clearjob
delete_loop pid [] = none
delete_loop pid (j ∷ js) =
    let rest = delete_loop pid js in if j.pid == pid then some (clearjob j ∷ js) else behind j rest

-- `deletejob`.
unfoldable pub deletejob : Shell → ℕ → Bool × Shell
deletejob s pid = if ltb pid 1 then (false, s) else elim (delete_loop pid s.jobs) [
  | none ↦ (false, s)
  | some jobs ↦ (true, record { jobs = jobs; nextjid = maxjid jobs + 1 })
]

-- `fgpid`.
unfoldable pub fgpid : List Job → ℕ
fgpid [] = 0
fgpid (j ∷ js) = if is_foreground j.state then j.pid else fgpid js

-- The loop of `getjobpid`; `none` is `NULL`.
unfoldable pub find_pid : ℕ → List Job → Option Job
find_pid pid [] = none
find_pid pid (j ∷ js) = if j.pid == pid then some j else find_pid pid js

unfoldable pub getjobpid : List Job → ℕ → Option Job
unfolding find_pid
getjobpid jobs pid = if ltb pid 1 then none else find_pid pid jobs

unfoldable pub find_jid : ℕ → List Job → Option Job
find_jid jid [] = none
find_jid jid (j ∷ js) = if j.jid == jid then some j else find_jid jid js

-- `getjobjid`.
unfoldable pub getjobjid : List Job → ℕ → Option Job
unfolding find_jid
getjobjid jobs jid = if ltb jid 1 then none else find_jid jid jobs

abbrev pub jid_or_zero : Option Job → ℕ
jid_or_zero none = 0
jid_or_zero (some j) = j.jid

-- `pid2jid`.
unfoldable pub pid2jid : List Job → ℕ → ℕ
unfolding find_pid
pid2jid jobs pid = if ltb pid 1 then 0 else jid_or_zero (find_pid pid jobs)
