-- ===== src/Shell/Session/Scripts.antt =====
-- Scripts inside the shell: `executeFile` of bin/sbush/sbush.c calls `parseAndExecuteCommand`, which calls
-- it again for a command that runs the shell or `cat`. `lines_of` is what `fgets` gives from the file at a
-- path, and `depth` bounds how many files are open at once.
pub mod Runs
pub mod Endless
mod Tests
use sbuoperating_system.Prelude.{ℕ, zero, suc, List, [], ◌∷◌, Option, none, some}
use sbuoperating_system.Shell.Parser.{CommandArgument}
use sbuoperating_system.Shell.Process.{Calls, Answers, Run, overrun, unfinished, Process, ◌>>=◌}
use sbuoperating_system.Shell.Commands.{Shell}
use sbuoperating_system.Shell.Script.{execute_file}
use sbuoperating_system.Shell.Session.{MemoryView, path_of, run_line, main}

-- `arguments[0]`, which `parseInput` leaves as it was where the command has none.
abbrev pub first_argument : Option (List ℕ) → List (List ℕ) → Option (List ℕ)
first_argument stray [] = stray
first_argument stray (file ∷ arguments) = some file

module _ (k : Answers) (view : MemoryView) (lines_of : Calls → List ℕ → List (List ℕ))
    (fuel : ℕ) where
  unfoldable pub run_script : ℕ → CommandArgument → Shell → Process Shell
  run_script zero c sh = unfinished
  run_script (suc depth) c sh =
      let run = run_line k view (run_script depth) fuel in
      do
        path ← path_of k view (run_script depth) fuel sh
        λ log. elim (first_argument (view.stray log) c.arguments) [
          | none ↦ overrun log
          | some file ↦ execute_file k path run file (lines_of log file) sh log
        ]

  -- The whole shell, for the arguments of `main` and what its terminal gives.
  unfoldable pub sbush :
      ℕ → ℕ → List ℕ → List ℕ → List (Option (List ℕ)) → Shell → Process (ℕ × Shell)
  sbush depth = main k view (run_script depth) fuel
