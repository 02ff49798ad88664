-- ===== src/Shell/Tests.antt =====
-- The job list of shlab/tsh.c at concrete inputs.
use cs_app_labs.Prelude.{
  ℕ, zero, suc, ◌+◌, ◌≡◌, ◌<◌, refl, true, false, none, some, [], ◌∷◌, arith, ◌==◌, inl, inr,
  length, All, replicate,
}
use cs_app_labs.Shell.Jobs.{
  Job, undef, fg, bg, Shell, clearjob, add_loop, addjob, delete_loop, deletejob, maxjid,
  maxjid_loop, find_pid, getjobpid, pid2jid,
}
use cs_app_labs.Shell.JobLaws.{Unique}
use cs_app_labs.Shell.Reap.{stop_loop, stopped, reap, reported, getjobpid-reap}
use cs_app_labs.Shell.Lookup.{getjobpid-deletejob, addjob-refused}

abbrev free : Job
free = record { pid = 0; jid = 0; state = undef; cmdline = [] }

abbrev editor : Job
editor = record { pid = 100; jid = 1; state = bg; cmdline = b'v' ∷ b'i' ∷ [] }

abbrev three_entries : Shell
three_entries = record { jobs = free ∷ editor ∷ free ∷ []; nextjid = 2 }

three_entries-Unique : Unique three_entries.jobs
three_entries-Unique = (inl refl, (inr refl, (inl refl, tt)))

getjobpid-deletejob_example :
    (t : Shell) × (deletejob three_entries 100 ≡ (true, t))
    × (getjobpid t.jobs 100 ≡ none)
    × ((q : ℕ) → (q == 100) ≡ false → getjobpid t.jobs q ≡ getjobpid three_entries.jobs q)
    × (length t.jobs ≡ 3)
    × Unique t.jobs
    × All (λ (j : Job). j.jid < t.nextjid) t.jobs
getjobpid-deletejob_example =
    getjobpid-deletejob three_entries 100 three_entries-Unique (omega arith) refl

-- Background jobs with the process numbers from `first` on.
abbrev add_many : (count first : ℕ) → Shell → Shell
add_many zero first s = s
add_many (suc count) first s = add_many count (first + 1) (addjob s first bg []).1

abbrev empty : Shell
empty = record { jobs = replicate 16 free; nextjid = 1 }

-- Sixteen jobs are added, two of them are deleted, and two are added: the number of the last is 1,
-- which the first job still has.
abbrev crowded : Shell
crowded = add_many 2 40 (deletejob (deletejob (add_many 16 20 empty) 24).1 25).1

shared_number : (pid2jid crowded.jobs 20 ≡ 1) × (pid2jid crowded.jobs 41 ≡ 1)
unfolding pid2jid find_pid addjob add_loop deletejob delete_loop clearjob maxjid maxjid_loop
shared_number = (refl, refl)

addjob-refused_example :
    addjob (record { jobs = editor ∷ []; nextjid = 2 }) 200 fg []
    ≡ (false, record { jobs = editor ∷ []; nextjid = 2 })
addjob-refused_example =
    addjob-refused (record { jobs = editor ∷ []; nextjid = 2 }) 200 fg [] (inr refl)

editor_found : getjobpid three_entries.jobs 100 ≡ some editor
unfolding getjobpid find_pid
editor_found = refl

getjobpid-reap_example :
    (t : Shell) × (reap three_entries 100 stopped ≡ some t)
    × (getjobpid t.jobs 100 ≡ reported stopped editor)
    × ((q : ℕ) → (q == 100) ≡ false → getjobpid t.jobs q ≡ getjobpid three_entries.jobs q)
    × Unique t.jobs
getjobpid-reap_example =
    getjobpid-reap three_entries 100 stopped editor three_entries-Unique editor_found

-- A child without an entry that stops ends the shell.
unlisted_stop : reap (record { jobs = editor ∷ []; nextjid = 2 }) 200 stopped ≡ none
unfolding reap stop_loop
unlisted_stop = refl
