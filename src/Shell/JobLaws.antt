-- ===== src/Shell/JobLaws.antt =====
-- What the job list of shlab/tsh.c keeps: a job that is added is found by its process number until
-- it is deleted.
use mathlib.Core.Path.{subst}
use cs_app_labs.Prelude.{
  ℕ, suc, ◌≡◌, ◌<◌, ◌⊎◌, refl, ap, ◌∙◌, Bool, true, false, ◌||◌, none, some, List, [], ◌∷◌, arith,
  ◌==◌, Bool-cases, inl, inr, length,
}
use cs_app_labs.Shell.Jobs.{Job, clearjob, add_loop, delete_loop, find_pid}

-- An entry holds this process number; 0 marks a free entry.
abbrev pub has_pid : ℕ → List Job → Bool
has_pid pid [] = false
has_pid pid (j ∷ js) = (j.pid == pid) || has_pid pid js

-- No process number is in two entries.
abbrev pub Unique : List Job → Type 0
Unique [] = Unit {0}
Unique (j ∷ js) = ((j.pid ≡ 0) ⊎ (has_pid j.pid js ≡ false)) × Unique js

-- `after` is `jobs` with `new` in a free entry.
pub record IsAdded (new : Job) (jobs after : List Job) : Type 0 where
  pub finds : find_pid new.pid after ≡ some new
  pub others : (q : ℕ) → 0 < q → (q == new.pid) ≡ false → find_pid q after ≡ find_pid q jobs
  pub holds : (q : ℕ) → 0 < q → (q == new.pid) ≡ false → has_pid q after ≡ has_pid q jobs
  pub size : length after ≡ length jobs
  pub unique : Unique after

IsAdded-here :
    (new j : Job) (js : List Job)
    → (j.pid == 0) ≡ true
    → has_pid new.pid (j ∷ js) ≡ false
    → Unique (j ∷ js)
    → IsAdded new (j ∷ js) (new ∷ js)
unfolding find_pid
IsAdded-here new j js free fresh unique = record {
  finds = ground arith;
  others = λ q real ne. ground arith;
  holds = λ q real ne. ground arith;
  size = refl;
  unique = (inr (ground arith), unique.1);
}

IsAdded-behind :
    (new j : Job) (js after : List Job)
    → (j.pid == 0) ≡ false
    → has_pid new.pid (j ∷ js) ≡ false
    → Unique (j ∷ js)
    → IsAdded new js after
    → IsAdded new (j ∷ js) (j ∷ after)
unfolding find_pid
IsAdded-behind new j js after used fresh unique rest = record {
  finds = let other : (j.pid == new.pid) ≡ false = ground arith in rw other rest.finds;
  others = λ q real ne. elim (Bool-cases (j.pid == q)) [
    | inl e ↦ rw e
    | inr no_e ↦ rw no_e (rest.others q real ne)
  ];
  holds = λ q real ne. ap (λ (x : Bool). (j.pid == q) || x) (rest.holds q real ne);
  size = ap suc rest.size;
  unique = (
    elim unique.0 [
      | inl zero_pid ↦ inl zero_pid
      | inr once ↦ inr (rest.holds j.pid (ground arith) (ground arith) ∙ once)
    ],
    rest.unique,
  );
}

-- With a free entry, the loop of `addjob` finds it.
pub add_loop-IsAdded :
    (new : Job) (jobs : List Job)
    → has_pid 0 jobs ≡ true
    → has_pid new.pid jobs ≡ false
    → Unique jobs
    → (after : List Job) × (add_loop new jobs ≡ some after) × IsAdded new jobs after
unfolding add_loop
add_loop-IsAdded new [] room fresh unique = absurd (cc)
add_loop-IsAdded new (j ∷ js) room fresh unique = elim (Bool-cases (j.pid == 0)) [
  | inl free ↦ (new ∷ js, rw free refl, IsAdded-here new j js free fresh unique)
  | inr used ↦
      let (after, adds, is) = add_loop-IsAdded new js (ground arith) (ground arith) unique.1 in
      (j ∷ after, rw (used, adds) refl, IsAdded-behind new j js after used fresh unique is)
]

-- A list without a free entry is refused.
pub add_loop-full :
    (new : Job) (jobs : List Job) → has_pid 0 jobs ≡ false → add_loop new jobs ≡ none
unfolding add_loop
add_loop-full new [] full = refl
add_loop-full new (j ∷ js) full =
    let used : (j.pid == 0) ≡ false = ground arith in
    rw (used, add_loop-full new js (ground arith)) refl

-- `after` is `jobs` without the job `pid`.
pub record IsDeleted (pid : ℕ) (jobs after : List Job) : Type 0 where
  pub gone : has_pid pid after ≡ false
  pub others : (q : ℕ) → 0 < q → (q == pid) ≡ false → find_pid q after ≡ find_pid q jobs
  pub holds : (q : ℕ) → 0 < q → (q == pid) ≡ false → has_pid q after ≡ has_pid q jobs
  pub size : length after ≡ length jobs
  pub unique : Unique after

IsDeleted-here :
    (pid : ℕ) (j : Job) (js : List Job)
    → (j.pid == pid) ≡ true
    → 0 < pid
    → Unique (j ∷ js)
    → IsDeleted pid (j ∷ js) (clearjob j ∷ js)
unfolding find_pid clearjob
IsDeleted-here pid j js at real unique =
    let once : has_pid j.pid js ≡ false = elim unique.0 [
      | inl zero_pid ↦ absurd (ground arith)
      | inr out ↦ out
    ] in
    let same : j.pid ≡ pid = ground arith in
    record {
      gone = let out = subst (λ (p : ℕ). has_pid p js ≡ false) same once in ground arith;
      others = λ q pos ne. ground arith;
      holds = λ q pos ne. ground arith;
      size = refl;
      unique = (inl refl, unique.1);
    }

IsDeleted-behind :
    (pid : ℕ) (j : Job) (js after : List Job)
    → (j.pid == pid) ≡ false
    → Unique (j ∷ js)
    → IsDeleted pid js after
    → IsDeleted pid (j ∷ js) (j ∷ after)
unfolding find_pid
IsDeleted-behind pid j js after ne unique rest = record {
  gone = rw (ne, rest.gone);
  others = λ q real other. elim (Bool-cases (j.pid == q)) [
    | inl e ↦ rw e
    | inr no_e ↦ rw no_e (rest.others q real other)
  ];
  holds = λ q real other. ap (λ (x : Bool). (j.pid == q) || x) (rest.holds q real other);
  size = ap suc rest.size;
  unique = (
    elim (Bool-cases (j.pid == 0)) [
      | inl free ↦ inl (ground arith)
      | inr used ↦ elim unique.0 [
        | inl zero_pid ↦ inl zero_pid
        | inr once ↦ inr (rest.holds j.pid (ground arith) ne ∙ once)
      ]
    ],
    rest.unique,
  );
}

-- A job that is there is deleted by the loop of `deletejob`.
pub delete_loop-IsDeleted :
    (pid : ℕ) (jobs : List Job)
    → 0 < pid
    → has_pid pid jobs ≡ true
    → Unique jobs
    → (after : List Job) × (delete_loop pid jobs ≡ some after) × IsDeleted pid jobs after
unfolding delete_loop
delete_loop-IsDeleted pid [] real here unique = absurd (cc)
delete_loop-IsDeleted pid (j ∷ js) real here unique = elim (Bool-cases (j.pid == pid)) [
  | inl at ↦ (clearjob j ∷ js, rw at refl, IsDeleted-here pid j js at real unique)
  | inr ne ↦
      let (after, deletes, is) = delete_loop-IsDeleted pid js real (ground arith) unique.1 in
      (j ∷ after, rw (ne, deletes) refl, IsDeleted-behind pid j js after ne unique is)
]
