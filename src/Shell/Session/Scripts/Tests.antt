-- ===== src/Shell/Session/Scripts/Tests.antt =====
-- A script with one line, and one that runs itself.
use sbuoperating_system.Prelude.{ℕ, ◌≡◌, ◌++◌, refl, false, List, [], ◌∷◌, arith}
use sbuoperating_system.Memory.{codes}
use sbuoperating_system.Shell.Parser.{CommandArgument}
use sbuoperating_system.Shell.Process.{Calls, call, close, ◌>>=◌, ◌>>◌, done}
use sbuoperating_system.Shell.Pipes.{cut_at_pipe}
use sbuoperating_system.Shell.Commands.{Shell}
use sbuoperating_system.Shell.Commands.Builtins.{IsOrdered}
use sbuoperating_system.Shell.Execute.{cat_path}
use sbuoperating_system.Shell.Script.{sbush_line}
use sbuoperating_system.Shell.Script.Lines.{run_all, IsRun}
use sbuoperating_system.Shell.Session.Tests.{
  kernel, view, shell, go_root-IsBuiltIn, path_built_in, variable-IsReadable,
}
use sbuoperating_system.Shell.Session.Loop.{Leaves, Outcome}
use sbuoperating_system.Shell.Session.Scripts.{sbush}
use sbuoperating_system.Shell.Session.Scripts.Runs.{IsScript, run_at, sbush-runs_script}

-- Every file is the script with the line `cd /`.
abbrev files : Calls → List ℕ → List (List ℕ)
files log file = (sbush_line ++ b'\n' ∷ []) ∷ codes "cd /\n" ∷ []

go_root-IsRun : IsRun (codes "cd /\n")
unfolding cut_at_pipe
go_root-IsRun = (refl, refl)

files-IsScript : IsScript files (codes "run") (codes "cd /\n" ∷ [])
files-IsScript = record { rest = []; read = λ log. refl; runs = (go_root-IsRun, tt); end = tt }

shell-IsOrdered : IsOrdered shell
shell-IsOrdered = record { packed = tt; prompt = omega arith }

sbush-runs_script_example :
    let r = sbush kernel view files 9 1 2 (codes "run") (codes "P=/") [] shell [] in
    (sh₁ : Shell) × (log₁ : Calls) × (fd : ℕ) × (r
      ≡ (do
        sh' ← run_all kernel (run_at kernel view files 9 0) fd (codes "cd /\n" ∷ []) sh₁
        call kernel (close fd)
        done (0, sh'))
          log₁)
    × Outcome view 9 (Leaves 0) r
sbush-runs_script_example =
    sbush-runs_script kernel view files 9 0 2 (codes "run") (codes "P=/") (codes "cd /\n" ∷ []) []
      shell [] (omega arith) path_built_in variable-IsReadable files-IsScript
      (go_root-IsBuiltIn, tt) shell-IsOrdered

abbrev show : CommandArgument
show = record {
  trimmed_input = codes "rootfs/bin/cat run";
  command = cat_path;
  arguments = codes "run" ∷ [];
  is_background = false;
}

-- The file that shows itself.
abbrev mirror : Calls → List ℕ → List (List ℕ)
mirror log file = (sbush_line ++ b'\n' ∷ []) ∷ codes "rootfs/bin/cat run\n" ∷ []
