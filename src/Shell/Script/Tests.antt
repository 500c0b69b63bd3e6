-- ===== src/Shell/Script/Tests.antt =====
-- A script of one line, and an empty line behind it.
use sbuoperating_system.Prelude.{ℕ, ◌≡◌, ◌++◌, refl, List, [], ◌∷◌, none, true}
use sbuoperating_system.Memory.{codes}
use sbuoperating_system.Libc.Environ.{environ_vars}
use sbuoperating_system.Shell.Process.{
  Answers, Process, custom_fputs, call, close, ◌>>=◌, ◌>>◌, done,
}
use sbuoperating_system.Shell.Pipes.{cut_at_pipe}
use sbuoperating_system.Shell.Commands.{Shell}
use sbuoperating_system.Shell.Script.{sbush_line, open_first, execute_file}
use sbuoperating_system.Shell.Script.Lines.{run_all, IsRun, execute_file-runs}

abbrev kernel : Answers
kernel = record {
  result = λ log c. 0;
  status = λ log. none;
  pipe_ends = λ log. (3, 4);
  cwd = λ log. codes "/";
  exec_returns = λ log. true;
}

abbrev show_line : List ℕ → Shell → Process Shell
show_line line sh = custom_fputs line >> done sh

abbrev shell : Shell
shell = record { environ = environ_vars; ps1 = codes "sbush~>" }

ls_runs : IsRun (codes "ls|cat\n")
unfolding cut_at_pipe
ls_runs = (refl, refl)

execute_file-runs_example :
    execute_file kernel
      (codes "/bin/")
      show_line
      (codes "run")
      ((sbush_line ++ b'\n' ∷ []) ∷ (codes "ls|cat\n" ∷ []) ++ codes "\n" ∷ codes "pwd\n" ∷ [])
      shell
    ≡ (do
      first ← open_first kernel (codes "run")
      call kernel (close first)
      fd ← open_first kernel (codes "run")
      sh' ← run_all kernel show_line fd (codes "ls|cat\n" ∷ []) shell
      call kernel (close fd)
      done sh')
execute_file-runs_example =
    execute_file-runs kernel (codes "/bin/") show_line (codes "run") (codes "ls|cat\n" ∷ [])
      (codes "\n" ∷ codes "pwd\n" ∷ []) shell (ls_runs, tt) refl
