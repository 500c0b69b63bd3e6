-- ===== src/Shell/Execute/Tests.antt =====
-- A pipe of two commands, seen from the child of each.
use sbuoperating_system.Prelude.{
  ℕ, ◌≡◌, if◌then◌else◌, refl, true, false, List, [], ◌∷◌, none, some, arith,
}
use sbuoperating_system.Memory.{codes}
use sbuoperating_system.Libc.Strings.Scans.{compare_text}
use sbuoperating_system.Libc.Environ.{same_text}
use sbuoperating_system.Shell.Parser.{CommandArgument}
use sbuoperating_system.Shell.Process.{
  Calls, write, fork, pipe, close, dup2, setpgid, Answers, Process, returned, ended, done, then_run,
  exited,
}
use sbuoperating_system.Shell.Execute.{
  Execution, set_execution_arguments, execute_binary, run_piping, execute_binary_in_back_ground,
  execute_binary_interactively,
}
use sbuoperating_system.Shell.Execute.Files.{table, effect}
use sbuoperating_system.Shell.Execute.Plumbing.{
  Child, alone, later, IsOpen, input_of, output_of, run_piping-connects,
}
use sbuoperating_system.Shell.Execute.Children.{started, children}

-- Every call works; `fork` answers 9, so that the process is the one that goes on.
abbrev going_on : Answers
going_on = record {
  result = λ log c. 9;
  status = λ log. some 0;
  pipe_ends = λ log. (3, 4);
  cwd = λ log. [];
  exec_returns = λ log. true;
}

-- The same, but as the child.
abbrev born : Answers
born = record going_on { result = λ log c. 0 }

abbrev command : List ℕ → CommandArgument
command name = record {
  trimmed_input = name;
  command = name;
  arguments = [];
  is_background = false;
}

abbrev forked_once : Calls
forked_once = close 4 ∷ fork ∷ pipe ∷ []

second :
    Child going_on 1
      (command (codes "ls") ∷ command (codes "cat") ∷ [])
      0
      []
      (command (codes "cat"))
      (close 3 ∷ dup2 3 0 ∷ forked_once)
unfolding table effect
second =
    later (record { works = omega arith; read_end = refl; write_end = refl; apart = omega arith })
      (omega arith) (omega arith) (alone refl (omega arith) refl)

-- `cat` reads from the pipe and writes where the whole pipe does.
second-IsOpen : IsOpen going_on 0 []
unfolding table
second-IsOpen = record {
  input = λ e. cc;
  output = λ e. cc;
  file_desc = λ e. cc;
  apart = omega arith;
}

abbrev no_file : CommandArgument → Unit {0} → Process (Unit {0})
no_file c s = done s

run_piping-connects_example :
    let at = close 3 ∷ dup2 3 0 ∷ forked_once in
    (run_piping going_on [] none no_file 1
        (command (codes "ls") ∷ command (codes "cat") ∷ [])
        0
        tt
        []
      ≡ then_run
          (execute_binary going_on [] none no_file 1 (command (codes "cat")) tt at)
          (λ u. exited))
    × (table going_on at 0 ≡ input_of going_on 1 0 [])
    × (table going_on at 1 ≡ output_of going_on 1 2 [])
run_piping-connects_example = run_piping-connects going_on [] none no_file 1 tt second second-IsOpen

abbrev ls_execution : Execution
ls_execution = record { file = codes "/bin/ls"; argv = some (codes "/bin/ls") ∷ none ∷ [] }

ls_set :
    set_execution_arguments born (codes "/bin/") none no_file (command (codes "ls")) tt []
    ≡ returned (ls_execution, tt) []
unfolding set_execution_arguments same_text compare_text
ls_set = refl

children_example :
    ((log' : Calls) × (execute_binary_interactively born
          (codes "/bin/")
          none
          no_file
          1
          (command (codes "ls"))
          tt
          []
        ≡ ended log'))
    × (execute_binary_in_back_ground born (codes "/bin/") none no_file (command (codes "ls")) tt []
        ≡ (if born.exec_returns (write (codes "/bin/") ∷ setpgid 0 0 ∷ fork ∷ [])
            then returned tt (
                write (codes "Unable to run in bg\n")
                ∷ started born (codes "/bin/") none no_file ls_execution (setpgid 0 0 ∷ fork ∷ []))
            else ended
                (started born (codes "/bin/") none no_file ls_execution (setpgid 0 0 ∷ fork ∷ []))))
children_example =
    children born (codes "/bin/") none no_file 1 (command (codes "ls")) tt tt ls_execution [] []
      ls_set refl
