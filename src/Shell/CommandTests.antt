-- ===== src/Shell/CommandTests.antt =====
-- Command lines of shlab/tsh.c at concrete inputs.
use cs_app_labs.Prelude.{
  ℕ, zero, suc, ◌≡◌, refl, Bool, true, false, none, some, List, [], ◌∷◌, ◌++◌, arith, ◌==◌, map,
  if◌then◌else◌,
}
use cs_app_labs.Shell.Jobs.{Job, bg, fg, Shell, find_pid, getjobpid}
use cs_app_labs.Shell.Parse.{
  copy_line, skip_spaces, split_at, next_argument, build_argv, replace_last, is_ampersand,
  background, parseline,
}
use cs_app_labs.Shell.ParseLaws.{Word, plain, quoted, text, line, parseline-line}
use cs_app_labs.Shell.ParseEnds.{parseline_total}
use cs_app_labs.Shell.Commands.{
  Scan, number, mismatch, at_end, Event, resume, wait, same_text, bg_name, do_bgfg, by_jid,
  builtin_cmd,
}
use cs_app_labs.Shell.CommandLaws.{getjobpid-do_bgfg}

-- `echo 'a b' &`
abbrev echo : List Word
echo = plain (b'e' ∷ b'c' ∷ b'h' ∷ b'o' ∷ []) ∷ quoted (b'a' ∷ b' ' ∷ b'b' ∷ []) ∷ []

abbrev ampersand : Word
ampersand = plain (b'&' ∷ [])

parseline-line_example :
    parseline (line echo ampersand)
    ≡ some (
        if is_ampersand (text ampersand)
        then (true, map text echo)
        else (false, map text echo ++ text ampersand ∷ []))
parseline-line_example =
    parseline-line echo ampersand
      ((refl, (refl, (refl, (refl, (refl, tt))))), ((refl, (refl, (refl, tt))), tt))
      (refl, (refl, tt)) (omega arith) (omega arith)

parseline_total_example :
    (r : Bool × List (List ℕ)) × (parseline (b'l' ∷ b's' ∷ b'\n' ∷ []) ≡ some r)
parseline_total_example = parseline_total b'l' (b's' ∷ b'\n' ∷ []) (omega arith)

abbrev no_number : List ℕ → Scan
no_number arg = mismatch

abbrev one_hundred : List ℕ → Scan
one_hundred arg = number 100

-- `sscanf` gives EOF on a text without characters.
abbrev end_if_empty : List ℕ → Scan
end_if_empty [] = at_end
end_if_empty (c ∷ cs) = mismatch

abbrev editor : Job
editor = record { pid = 100; jid = 1; state = bg; cmdline = b'v' ∷ b'i' ∷ [] }

abbrev one_job : Shell
one_job = record { jobs = editor ∷ []; nextjid = 2 }

editor-found : getjobpid one_job.jobs 100 ≡ some editor
unfolding getjobpid find_pid
editor-found = refl

getjobpid-do_bgfg_example :
    (t : Shell) × (events : List Event) × (do_bgfg no_number one_hundred one_job
        (b'f' ∷ b'g' ∷ [])
        ((b'1' ∷ b'0' ∷ b'0' ∷ []) ∷ [])
      ≡ some (t, events))
    × (getjobpid t.jobs 100
        ≡ some
            (record editor { state = (if same_text (b'f' ∷ b'g' ∷ []) bg_name then bg else fg) }))
    × ((q : ℕ) → (q == 100) ≡ false → getjobpid t.jobs q ≡ getjobpid one_job.jobs q)
    × (t.nextjid ≡ one_job.nextjid)
    × (events ≡ resume 100 ∷ (if same_text (b'f' ∷ b'g' ∷ []) bg_name then [] else wait 100 ∷ []))
getjobpid-do_bgfg_example =
    getjobpid-do_bgfg no_number one_hundred one_job (b'f' ∷ b'g' ∷ []) (b'1' ∷ b'0' ∷ b'0' ∷ []) []
      100 editor refl refl editor-found

-- A line with only a newline has no arguments, and `builtin_cmd` then uses `argv[0]`.
blank_line :
    (parseline (b'\n' ∷ []) ≡ some (true, [])) × (builtin_cmd no_number no_number one_job [] ≡ none)
unfolding parseline copy_line replace_last build_argv next_argument skip_spaces background
    builtin_cmd
blank_line = (refl, refl)

abbrev letters : ℕ → List ℕ
letters zero = b'\n' ∷ []
letters (suc n) = b'a' ∷ b' ' ∷ letters n

-- 128 arguments leave no place for the `NULL` behind them.
many_arguments : parseline (letters 128) ≡ none
unfolding parseline copy_line replace_last build_argv next_argument skip_spaces background split_at
many_arguments = refl

-- The argument of `bg ''`.
empty_argument : do_bgfg end_if_empty no_number one_job bg_name ([] ∷ []) ≡ none
unfolding do_bgfg by_jid
empty_argument = refl
