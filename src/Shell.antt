-- ===== src/Shell.antt =====
-- The tiny shell, shlab/tsh.c.
pub mod Jobs
pub mod JobLaws
pub mod Lookup
pub mod Reap
pub mod Parse
pub mod ParseLaws
pub mod ParseEnds
pub mod Commands
pub mod CommandLaws
pub mod Eval
pub mod Foreground
pub mod Fewer
pub mod Waiting
pub mod History
pub mod EvalKeeps
pub mod OneForeground
mod Tests
mod CommandTests
mod HistoryTests
