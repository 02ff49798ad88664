-- ===== src/Shell/HistoryTests.antt =====
-- A command line of shlab/tsh.c in the foreground, and the report that ends it.
use cs_app_labs.Prelude.{false, ℕ, ◌≡◌, ◌≤◌, refl, none, some, List, [], ◌∷◌, arith}
use cs_app_labs.Shell.Jobs.{
  Job, undef, fg, Shell, clearjob, initjobs, add_loop, addjob, find_pid, getjobpid,
}
use cs_app_labs.Shell.Reap.{exited, reap}
use cs_app_labs.Shell.Parse.{
  copy_line, skip_spaces, split_at, next_argument, build_argv, replace_last, background, parseline,
}
use cs_app_labs.Shell.Commands.{Scan, mismatch, wait, same_text, builtin_cmd}
use cs_app_labs.Shell.Eval.{
  waitfg_again, child, going, launch, answer, eval, sigint_handler, sigtstp_handler,
}
use cs_app_labs.Shell.Waiting.{foregrounds, receiver}
use cs_app_labs.Shell.History.{Reached, started, evaluated}
use cs_app_labs.Shell.OneForeground.{Reached-sigint_handler, Reached-reap}

abbrev no_number : List ℕ → Scan
no_number arg = mismatch

abbrev free : Job
free = record { pid = 0; jid = 0; state = undef; cmdline = [] }

abbrev idle : Shell
idle = record { jobs = free ∷ free ∷ []; nextjid = 1 }

-- `ls`, and the end of the line.
abbrev ls_line : List ℕ
ls_line = b'l' ∷ b's' ∷ b'\n' ∷ []

abbrev ls_job : Job
ls_job = record { pid = 200; jid = 1; state = fg; cmdline = ls_line }

abbrev waiting : Shell
waiting = record { jobs = ls_job ∷ free ∷ []; nextjid = 2 }

idle-Reached : Reached no_number no_number idle none
unfolding initjobs clearjob
idle-Reached = started (free ∷ free ∷ [])

eval_ls : eval no_number no_number idle ls_line (child 200) ≡ some (going waiting (wait 200 ∷ []))
unfolding eval answer launch addjob add_loop parseline copy_line build_argv background next_argument
    split_at skip_spaces builtin_cmd replace_last same_text
eval_ls = refl

waiting-Reached : Reached no_number no_number waiting (some 200)
waiting-Reached =
    evaluated idle waiting ls_line (child 200) (wait 200 ∷ []) idle-Reached (omega arith, refl)
      eval_ls

Reached-sigint_handler_example :
    (foregrounds waiting.jobs ≤ 1)
    × (sigint_handler waiting.jobs ≡ receiver (some 200) waiting.jobs)
    × (sigtstp_handler waiting.jobs ≡ receiver (some 200) waiting.jobs)
Reached-sigint_handler_example =
    Reached-sigint_handler no_number no_number waiting (some 200) waiting-Reached

ls_found : getjobpid waiting.jobs 200 ≡ some ls_job
unfolding getjobpid find_pid
ls_found = refl

Reached-reap_example :
    (t : Shell) × (reap waiting 200 exited ≡ some t)
    × (waitfg_again t.jobs 200 ≡ false)
    × Reached no_number no_number t none
Reached-reap_example =
    Reached-reap no_number no_number waiting 200 exited ls_job waiting-Reached ls_found refl
