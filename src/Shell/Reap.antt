-- ===== src/Shell/Reap.antt =====
-- What `sigchld_handler` of shlab/tsh.c does with each child that `waitpid` reports. The reports
-- are the kernel's; `none` is the exit of the shell by `app_error`.
use cs_app_labs.Prelude.{
  ℕ, ◌≡◌, ◌<◌, refl, ap, ◌∙◌, Bool, true, false, ◌||◌, Option, none, some, List, [], ◌∷◌, arith,
  ltb, ◌==◌, Bool-cases, inl, inr, if◌then◌else◌,
}
use cs_app_labs.Shell.Jobs.{Job, st, Shell, behind, deletejob, find_pid, getjobpid}
use cs_app_labs.Shell.JobLaws.{has_pid, Unique}
use cs_app_labs.Shell.Lookup.{getjobpid-deletejob}

-- What the status that `waitpid` gives says: WIFEXITED, WIFSIGNALED, WIFSTOPPED or none of them.
pub data Status : Type 0 where
  exited signaled stopped other : Status

-- `job->state = ST` on the job that `getjobpid` points to.
unfoldable pub stop_loop : ℕ → List Job → Option (List Job)
stop_loop pid [] = none
stop_loop pid (j ∷ js) =
    let rest = stop_loop pid js in
    if j.pid == pid then some (record j { state = st } ∷ js) else behind j rest

abbrev pub with_jobs : Shell → Option (List Job) → Option Shell
with_jobs s none = none
with_jobs s (some jobs) = some (record s { jobs = jobs })

-- The body of the loop of `sigchld_handler`.
unfoldable pub reap : Shell → (pid : ℕ) → Status → Option Shell
reap s pid exited = some (deletejob s pid).1
reap s pid signaled = some (deletejob s pid).1
reap s pid stopped = if ltb pid 1 then none else with_jobs s (stop_loop pid s.jobs)
reap s pid other = some s

-- The loop, over the children that `waitpid` reports in turn.
unfoldable pub sigchld_handler : Shell → List (ℕ × Status) → Option Shell
sigchld_handler s [] = some s
sigchld_handler s ((pid, status) ∷ more) = elim (reap s pid status) [
  | none ↦ none
  | some t ↦ sigchld_handler t more
]

-- What the list holds of a job after its report.
abbrev pub reported : Status → Job → Option Job
reported exited j = none
reported signaled j = none
reported stopped j = some (record j { state = st })
reported other j = some j

has_pid-find_pid :
    (pid : ℕ) (jobs : List Job) {j : Job} → find_pid pid jobs ≡ some j → has_pid pid jobs ≡ true
unfolding find_pid
has_pid-find_pid pid [] h = absurd (cc)
has_pid-find_pid pid (i ∷ js) h = elim (Bool-cases (i.pid == pid)) [
  | inl e ↦ rw e refl
  | inr ne ↦ rw ne (has_pid-find_pid pid js (rw ne at h))
]

stop_loop_lem :
    (pid : ℕ) (jobs : List Job) (j : Job)
    → find_pid pid jobs ≡ some j
    → Unique jobs
    → (after : List Job) × (stop_loop pid jobs ≡ some after)
      × (find_pid pid after ≡ some (record j { state = st }))
      × ((q : ℕ) → (q == pid) ≡ false → find_pid q after ≡ find_pid q jobs)
      × ((q : ℕ) → has_pid q after ≡ has_pid q jobs)
      × Unique after
unfolding stop_loop find_pid
stop_loop_lem pid [] j h unique = absurd (cc)
stop_loop_lem pid (i ∷ js) j h unique = elim (Bool-cases (i.pid == pid)) [
  | inl e ↦
      let found : some i ≡ some j = rw e at h in
      let same : i ≡ j = cc in
      (
        record i { state = st } ∷ js,
        rw e refl,
        rw e (ap (λ (k : Job). some (record k { state = st })) same),
        λ q ne. ground arith,
        λ q. refl,
        unique,
      )
  | inr ne ↦
      let (after, stops, finds, others, holds, unique') =
        stop_loop_lem pid js j (rw ne at h) unique.1 in
      (
        i ∷ after,
        rw (ne, stops) refl,
        rw (ne, finds) refl,
        λ q nq. elim (Bool-cases (i.pid == q)) [
          | inl at ↦ rw at
          | inr no_at ↦ rw no_at (others q nq)
        ],
        λ q. ap (λ (x : Bool). (i.pid == q) || x) (holds q),
        (
          elim unique.0 [ inl zero_pid ↦ inl zero_pid | inr once ↦ inr (holds i.pid ∙ once) ],
          unique',
        ),
      )
]

-- A job that exited or was killed is deleted.
deletejob-found :
    (s : Shell) (pid : ℕ)
    → Unique s.jobs
    → 0 < pid
    → has_pid pid s.jobs ≡ true
    → (t : Shell) × (some (deletejob s pid).1 ≡ some t)
      × (getjobpid t.jobs pid ≡ none)
      × ((q : ℕ) → (q == pid) ≡ false → getjobpid t.jobs q ≡ getjobpid s.jobs q)
      × Unique t.jobs
deletejob-found s pid unique real here =
    let (t, deletes, gone, others, size, unique', above) =
      getjobpid-deletejob s pid unique real here in
    (t, ap (λ (r : Bool × Shell). some r.1) deletes, gone, others, unique')

reap-found :
    (s : Shell) (pid : ℕ) (status : Status) (j : Job)
    → Unique s.jobs
    → ltb pid 1 ≡ false
    → find_pid pid s.jobs ≡ some j
    → (t : Shell) × (reap s pid status ≡ some t)
      × (getjobpid t.jobs pid ≡ reported status j)
      × ((q : ℕ) → (q == pid) ≡ false → getjobpid t.jobs q ≡ getjobpid s.jobs q)
      × Unique t.jobs
unfolding reap getjobpid
reap-found s pid exited j unique real found =
    deletejob-found s pid unique (ground arith) (has_pid-find_pid pid s.jobs found)
reap-found s pid signaled j unique real found =
    deletejob-found s pid unique (ground arith) (has_pid-find_pid pid s.jobs found)
reap-found s pid stopped j unique real found =
    let (after, stops, finds, others, holds, unique') = stop_loop_lem pid s.jobs j found unique in
    (
      record s { jobs = after },
      rw (real, stops) refl,
      rw (real, finds) refl,
      λ q ne. rw (others q ne) refl,
      unique',
    )
reap-found s pid other j unique real found = (s, refl, rw (real, found) refl, λ q ne. refl, unique)

-- In a list whose process numbers are unique, the report of a job that `getjobpid` finds does not
-- end the shell: the job is gone if it exited or was killed, is stopped if it stopped, and is
-- as it was otherwise; every other job is as before, and the numbers are still unique.
pub getjobpid-reap :
    (s : Shell) (pid : ℕ) (status : Status) (j : Job)
    → Unique s.jobs
    → getjobpid s.jobs pid ≡ some j
    → (t : Shell) × (reap s pid status ≡ some t)
      × (getjobpid t.jobs pid ≡ reported status j)
      × ((q : ℕ) → (q == pid) ≡ false → getjobpid t.jobs q ≡ getjobpid s.jobs q)
      × Unique t.jobs
unfolding getjobpid
getjobpid-reap s pid status j unique live = elim (Bool-cases (ltb pid 1)) [
  | inl none_such ↦ absurd (let gone : none ≡ some j = rw none_such at live in cc)
  | inr real ↦ reap-found s pid status j unique real (rw real at live)
]
