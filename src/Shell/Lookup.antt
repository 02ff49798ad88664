-- ===== src/Shell/Lookup.antt =====
-- `addjob`, `deletejob` and `getjobpid` of shlab/tsh.c against each other.
use cs_app_labs.Prelude.{
  ℕ, ◌+◌, ◌≡◌, ◌<◌, ◌≤◌, ◌⊎◌, refl, true, false, none, List, [], ◌∷◌, arith, ltb, ◌==◌, Bool-cases,
  inl, inr, if◌then◌else◌, length, All,
}
use cs_app_labs.Shell.Jobs.{
  Job, JobState, Shell, addjob, deletejob, maxjid, maxjid_loop, find_pid, getjobpid,
}
use cs_app_labs.Shell.JobLaws.{has_pid, Unique, add_loop-full, delete_loop-IsDeleted}

find_pid-none : (pid : ℕ) (jobs : List Job) → has_pid pid jobs ≡ false → find_pid pid jobs ≡ none
unfolding find_pid
find_pid-none pid [] out = refl
find_pid-none pid (j ∷ js) out =
    let ne : (j.pid == pid) ≡ false = ground arith in rw ne (find_pid-none pid js (ground arith))

maxjid_loop-le : (max : ℕ) (jobs : List Job) → max ≤ maxjid_loop max jobs
unfolding maxjid_loop
maxjid_loop-le max [] = omega arith
maxjid_loop-le max (j ∷ js) = elim (Bool-cases (ltb max j.jid)) [
  | inl more ↦ let up = maxjid_loop-le j.jid js in rw more (ground arith)
  | inr not_more ↦ rw not_more (maxjid_loop-le max js)
]

All-maxjid_loop :
    (max : ℕ) (jobs : List Job) → All (λ (j : Job). j.jid < maxjid_loop max jobs + 1) jobs
unfolding maxjid_loop
All-maxjid_loop max [] = tt
All-maxjid_loop max (j ∷ js) =
    let next : ℕ = if ltb max j.jid then j.jid else max in
    let low : j.jid ≤ next = ground arith in
    (omega (arith, maxjid_loop-le next js, low), All-maxjid_loop next js)

-- In a list whose process numbers are unique, `deletejob` of a number that is there succeeds:
-- `getjobpid` no longer finds it, and finds every other number as before, the numbers are still
-- unique, and the next job number is above all that are in use.
pub getjobpid-deletejob :
    (s : Shell) (pid : ℕ)
    → Unique s.jobs
    → 0 < pid
    → has_pid pid s.jobs ≡ true
    → (t : Shell) × (deletejob s pid ≡ (true, t))
      × (getjobpid t.jobs pid ≡ none)
      × ((q : ℕ) → (q == pid) ≡ false → getjobpid t.jobs q ≡ getjobpid s.jobs q)
      × (length t.jobs ≡ length s.jobs)
      × Unique t.jobs
      × All (λ (j : Job). j.jid < t.nextjid) t.jobs
unfolding deletejob getjobpid maxjid
getjobpid-deletejob s pid unique real here =
    let (after, deletes, is) = delete_loop-IsDeleted pid s.jobs real here unique in
    let guard : ltb pid 1 ≡ false = ground arith in
    (
      record { jobs = after; nextjid = maxjid after + 1 },
      rw (guard, deletes) refl,
      rw guard (find_pid-none pid after is.gone),
      λ q ne. elim (Bool-cases (ltb q 1)) [
        | inl none_such ↦ rw none_such
        | inr some_such ↦ rw some_such (is.others q (ground arith) ne)
      ],
      is.size,
      is.unique,
      All-maxjid_loop 0 after,
    )

-- `addjob` of process number 0, or to a list without a free entry, fails and changes nothing.
pub addjob-refused :
    (s : Shell) (pid : ℕ) (state : JobState) (cmdline : List ℕ)
    → (pid ≡ 0) ⊎ (has_pid 0 s.jobs ≡ false)
    → addjob s pid state cmdline ≡ (false, s)
unfolding addjob
addjob-refused s pid state cmdline why = elim (Bool-cases (ltb pid 1)) [
  | inl none_such ↦ rw none_such refl
  | inr real ↦ elim why [
    | inl zero_pid ↦ absurd (ground arith)
    | inr full ↦ rw (real, add_loop-full _ s.jobs full) refl
  ]
]
