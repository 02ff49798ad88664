-- ===== src/Shell/History.antt =====
-- What happens to the job list of shlab/tsh.c: command lines, one after the other, and reports of
-- children between them and while `waitfg` sleeps. A report in the middle of a command is left out.
use cs_app_labs.Prelude.{
  ℕ, ◌≡◌, ◌<◌, refl, sym, ap, ◌∙◌, Bool, true, false, Option, none, some, List, [], ◌∷◌, arith, ltb,
  ◌==◌, Bool-cases, inl, inr, if◌then◌else◌,
}
use cs_app_labs.Shell.Jobs.{
  Job, fg, bg, Shell, clearjob, initjobs, find_pid, find_jid, getjobpid, getjobjid,
}
use cs_app_labs.Shell.JobLaws.{has_pid, Unique}
use cs_app_labs.Shell.Reap.{Status, reap}
use cs_app_labs.Shell.Commands.{Scan, Event, resume, wait, same_text, bg_name, continue_job}
use cs_app_labs.Shell.Eval.{Fork, child, failed, going, eval, waitfg_again}
use cs_app_labs.Shell.Foreground.{
  allowed, all_allowed, first, set_first_bg-allowed, set_first_fg-allowed,
}
use cs_app_labs.Shell.Fewer.{set_first-Unique}

-- Whom the shell waits for after these events.
abbrev pub waits : List Event → Option ℕ
waits [] = none
waits (resume pid ∷ events) = waits events
waits (wait pid ∷ events) = some pid

-- `fork` gives a process number that no child has that is not reaped.
abbrev pub IsFresh : List Job → Fork → Type 0
IsFresh jobs failed = Unit
IsFresh jobs (child pid) = (0 < pid) × (has_pid pid jobs ≡ false)

module _ (scan_jid scan_pid : List ℕ → Scan) where
  -- The shell, and the process that `waitfg` waits for; without one it reads the next line.
  pub data Reached : Shell → Option ℕ → Type 0 where
    started : (jobs : List Job) → Reached (record { jobs = initjobs jobs; nextjid = 1 }) none
    evaluated :
        (s t : Shell) (cmdline : List ℕ) (fork : Fork) (events : List Event)
        → Reached s none
        → IsFresh s.jobs fork
        → eval scan_jid scan_pid s cmdline fork ≡ some (going t events)
        → Reached t (waits events)
    reaped :
        (s t : Shell) (w : Option ℕ) (pid : ℕ) (status : Status)
        → Reached s w
        → reap s pid status ≡ some t
        → Reached t w
    returned :
        (s : Shell) (pid : ℕ)
        → Reached s (some pid)
        → waitfg_again s.jobs pid ≡ false
        → Reached s none

-- What holds of the list, at any of these points.
pub record IsOrderly (s : Shell) (w : Option ℕ) : Type 0 where
  pub ok : all_allowed w s.jobs ≡ true
  pub unique : Unique s.jobs

pub initjobs-IsOrderly :
    (jobs : List Job) → (all_allowed none (initjobs jobs) ≡ true) × Unique (initjobs jobs)
unfolding initjobs clearjob
initjobs-IsOrderly [] = (refl, tt)
initjobs-IsOrderly (j ∷ jobs) =
    let (ok, unique) = initjobs-IsOrderly jobs in (ok, (inl refl, unique))

-- Jobs that are found.
unfoldable pub IsFound : (Job → Bool) → List Job → Option Job → Type 0
IsFound p js none = Unit
IsFound p js (some j) = (first p js ≡ some j) × (0 < j.pid)

first-holds : (p : Job → Bool) (js : List Job) (j : Job) → first p js ≡ some j → p j ≡ true
first-holds p [] j found = absurd (cc found)
first-holds p (i ∷ js) j found = elim (Bool-cases (p i)) [
  | inl here ↦
      let same : some i ≡ some j = rw here at found in
      let is : i ≡ j = cc same in ap p (sym is) ∙ here
  | inr ne ↦ first-holds p js j (rw ne at found)
]

first-allowed :
    (w : Option ℕ) (p : Job → Bool) (js : List Job) (j : Job)
    → all_allowed w js ≡ true
    → first p js ≡ some j
    → allowed w j ≡ true
first-allowed w p [] j ok found = absurd (cc found)
first-allowed w p (i ∷ js) j ok found = elim (Bool-cases (p i)) [
  | inl here ↦
      let same : some i ≡ some j = rw here at found in
      let is : i ≡ j = cc same in ap (allowed w) (sym is) ∙ ground (arith, ok)
  | inr ne ↦ first-allowed w p js j (ground (arith, ok)) (rw ne at found)
]

find_pid-first : (pid : ℕ) (js : List Job) → find_pid pid js ≡ first (λ j. j.pid == pid) js
unfolding find_pid
find_pid-first pid [] = refl
find_pid-first pid (j ∷ js) =
    ap (λ (r : Option Job). if j.pid == pid then some j else r) (find_pid-first pid js)

find_jid-first : (jid : ℕ) (js : List Job) → find_jid jid js ≡ first (λ j. j.jid == jid) js
unfolding find_jid
find_jid-first jid [] = refl
find_jid-first jid (j ∷ js) =
    ap (λ (r : Option Job). if j.jid == jid then some j else r) (find_jid-first jid js)

IsFound-real :
    (p : Job → Bool) (js : List Job) (r : Option Job)
    → ((j : Job) → first p js ≡ some j → 0 < j.pid)
    → r ≡ first p js
    → IsFound p js r
unfolding IsFound
IsFound-real p js none real e = tt
IsFound-real p js (some j) real e = (sym e, real j (sym e))

pub getjobpid-IsFound :
    (js : List Job) (pid : ℕ) → IsFound (λ j. j.pid == pid) js (getjobpid js pid)
unfolding getjobpid IsFound
getjobpid-IsFound js pid = elim (Bool-cases (ltb pid 1)) [
  | inl none_such ↦ rw none_such tt
  | inr real ↦ rw real (
      IsFound-real (λ j. j.pid == pid) js (find_pid pid js)
        (λ j found.
          let holds = first-holds (λ j. j.pid == pid) js j found in ground (arith, holds, real))
        (find_pid-first pid js))
]

pub getjobjid-IsFound :
    (js : List Job) (jid : ℕ)
    → all_allowed none js ≡ true
    → IsFound (λ j. j.jid == jid) js (getjobjid js jid)
unfolding getjobjid IsFound
getjobjid-IsFound js jid ok = elim (Bool-cases (ltb jid 1)) [
  | inl none_such ↦ rw none_such tt
  | inr real ↦ rw real (
      IsFound-real (λ j. j.jid == jid) js (find_jid jid js)
        (λ j found.
          let holds = first-holds (λ j. j.jid == jid) js j found in
          let may = first-allowed none (λ j. j.jid == jid) js j ok found in
          ground (arith, holds, real, may))
        (find_jid-first jid js))
]

-- After a built-in command.
abbrev pub IsFine : Shell × List Event → Type 0
IsFine (t, events) = IsOrderly t (waits events)

abbrev pub IsFineIf : Option (Shell × List Event) → Type 0
IsFineIf none = Unit
IsFineIf (some r) = IsFine r

pub continue_job-IsFine :
    (s : Shell) (name : List ℕ) (p : Job → Bool) (found : Option Job)
    → IsOrderly s none
    → IsFound p s.jobs found
    → IsFine (continue_job s name p found)
unfolding continue_job IsFound
continue_job-IsFine s name p none is found = is
continue_job-IsFine s name p (some job) is (found, real) =
    elim (Bool-cases (same_text name bg_name)) [
      | inl back ↦ rw back (record {
        ok = set_first_bg-allowed p s.jobs is.ok;
        unique = set_first-Unique p bg s.jobs is.unique;
      })
      | inr front ↦ rw front (record {
        ok = set_first_fg-allowed p s.jobs job found real is.ok;
        unique = set_first-Unique p fg s.jobs is.unique;
      })
    ]
