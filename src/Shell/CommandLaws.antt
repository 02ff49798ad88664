-- ===== src/Shell/CommandLaws.antt =====
-- What `bg` and `fg` of shlab/tsh.c do to the job list.
use cs_app_labs.Prelude.{
  ℕ, ◌≡◌, refl, ap, false, Option, none, some, List, [], ◌∷◌, arith, ltb, ◌==◌, Bool-cases, inl,
  inr, if◌then◌else◌,
}
use cs_app_labs.Shell.Jobs.{Job, JobState, fg, bg, Shell, find_pid, getjobpid}
use cs_app_labs.Shell.Commands.{
  Scan, number, mismatch, Event, resume, wait, set_first, same_text, bg_name, continue_job, by_pid,
  by_jid, do_bgfg,
}

find_pid-set_first :
    (pid : ℕ) (state : JobState) (jobs : List Job) (j : Job)
    → find_pid pid jobs ≡ some j
    → (find_pid pid (set_first (λ k. k.pid == pid) state jobs) ≡ some (record j { state = state }))
      × ((q : ℕ)
          → (q == pid) ≡ false
          → find_pid q (set_first (λ k. k.pid == pid) state jobs) ≡ find_pid q jobs)
unfolding find_pid set_first
find_pid-set_first pid state [] j h = absurd (cc)
find_pid-set_first pid state (i ∷ js) j h = elim (Bool-cases (i.pid == pid)) [
  | inl e ↦
      let found : some i ≡ some j = rw e at h in
      let same : i ≡ j = cc in
      (
        rw (e, e) (ap (λ (k : Job). some (record k { state = state })) same),
        λ q other. let away : (i.pid == q) ≡ false = ground arith in rw (e, away) refl,
      )
  | inr ne ↦
      let (found, others) = find_pid-set_first pid state js j (rw ne at h) in
      (
        rw (ne, ne) found,
        λ q other. rw ne (elim (Bool-cases (i.pid == q)) [
          | inl at ↦ rw at refl
          | inr away ↦ rw away (others q other)
        ]),
      )
]

getjobpid-set_first :
    (pid : ℕ) (state : JobState) (jobs : List Job) (j : Job)
    → getjobpid jobs pid ≡ some j
    → (getjobpid (set_first (λ k. k.pid == pid) state jobs) pid ≡ some (record j { state = state }))
      × ((q : ℕ)
          → (q == pid) ≡ false
          → getjobpid (set_first (λ k. k.pid == pid) state jobs) q ≡ getjobpid jobs q)
unfolding getjobpid
getjobpid-set_first pid state jobs j h = elim (Bool-cases (ltb pid 1)) [
  | inl low ↦ let nothing : none ≡ some j = rw low at h in absurd (cc)
  | inr high ↦
      let (found, others) = find_pid-set_first pid state jobs j (rw high at h) in
      (
        rw high found,
        λ q other. ap (λ (o : Option Job). if ltb q 1 then none else o) (others q other),
      )
]

-- `bg` or `fg` with the process number of a job makes it a background or a foreground job, leaves
-- every other job and the next number as they are, lets the job go on, and waits for it after `fg`.
pub getjobpid-do_bgfg :
    (scan_jid scan_pid : List ℕ → Scan) (s : Shell) (name arg : List ℕ) (args : List (List ℕ))
    (pid : ℕ) (j : Job)
    → scan_jid arg ≡ mismatch
    → scan_pid arg ≡ number pid
    → getjobpid s.jobs pid ≡ some j
    → (t : Shell) × (events : List Event) × (do_bgfg scan_jid scan_pid s name (arg ∷ args)
        ≡ some (t, events))
      × (getjobpid t.jobs pid
          ≡ some (record j { state = (if same_text name bg_name then bg else fg) }))
      × ((q : ℕ) → (q == pid) ≡ false → getjobpid t.jobs q ≡ getjobpid s.jobs q)
      × (t.nextjid ≡ s.nextjid)
      × (events ≡ resume j.pid ∷ (if same_text name bg_name then [] else wait j.pid ∷ []))
unfolding do_bgfg by_jid by_pid continue_job
getjobpid-do_bgfg scan_jid scan_pid s name arg args pid j no_jid a_pid found =
    elim (Bool-cases (same_text name bg_name)) [
      | inl back ↦
          let (here, others) = getjobpid-set_first pid bg s.jobs j found in
          (
            record s { jobs = set_first (λ k. k.pid == pid) bg s.jobs },
            resume j.pid ∷ [],
            rw (no_jid, a_pid, found, back) refl,
            rw back here,
            others,
            refl,
            rw back refl,
          )
      | inr fore ↦
          let (here, others) = getjobpid-set_first pid fg s.jobs j found in
          (
            record s { jobs = set_first (λ k. k.pid == pid) fg s.jobs },
            resume j.pid ∷ wait j.pid ∷ [],
            rw (no_jid, a_pid, found, fore) refl,
            rw fore here,
            others,
            refl,
            rw fore refl,
          )
    ]
