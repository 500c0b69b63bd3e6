-- ===== src/Shell/Session/Start.antt =====
-- `_start` of crt/crt1.c, linked to the shell: it starts `main` with one argument and one variable, and
-- leaves the process with `exit`.
mod Tests
use sbuoperating_system.Prelude.{
  ℕ, ◌+◌, ◌<◌, ◌≤◌, ◌≡◌, ◌≢◌, ◌⊎◌, inl, inr, refl, List, [], ◌∷◌, ◌++◌, Option, none, some, All,
  arith, length,
}
use sbuoperating_system.Memory.{codes}
use sbuoperating_system.Libc.Strings.Scans.{compare_text, find_char}
use sbuoperating_system.Libc.Environ.{environ_vars, same_text}
use sbuoperating_system.Shell.Process.{
  Calls, exit, Answers, ended, overrun, Process, Effect, ◌>>=◌, ◌>>◌, exited,
}
use sbuoperating_system.Shell.Pipes.{get_built_in_code}
use sbuoperating_system.Shell.Commands.{Shell}
use sbuoperating_system.Shell.Commands.Builtins.{IsReadable, IsOrdered}
use sbuoperating_system.Shell.Session.{MemoryView, exit_line}
use sbuoperating_system.Shell.Session.Loop.{IsAnswered, Faults, variable_command, main-exits}
use sbuoperating_system.Shell.Session.Scripts.{run_script, sbush}

-- `args[0]`
abbrev pub start_argument : List ℕ
start_argument = codes "Makefile"

-- `envs[0]`
abbrev pub start_variable : List ℕ
start_variable = codes "PATH=/bin/"

-- The variables and the prompt as the program image has them.
abbrev pub initial : Shell
initial = record { environ = environ_vars; ps1 = codes "sbush~>" }

built_in : get_built_in_code (variable_command start_variable) ≢ 0
unfolding get_built_in_code same_text compare_text find_char
built_in e = cc

readable : IsReadable (variable_command start_variable)
readable = record { command = omega arith; short = omega arith; arguments = tt }

initial-IsOrdered : IsOrdered initial
initial-IsOrdered = record { packed = tt; prompt = omega arith }

module _ (k : Answers) (view : MemoryView) (lines_of : Calls → List ℕ → List (List ℕ))
    (fuel depth : ℕ) where
  -- What the process calls behind `terminal`, what its terminal gives.
  unfoldable pub start : List (Option (List ℕ)) → Effect
  start terminal = do
    sbush k view lines_of fuel depth 1 start_argument start_variable terminal initial
    exited

  -- Started as the library does it, after any number of rounds that give NULL, an empty line or a built-in
  -- command, and then `exit`, the shell leaves its process by the call `exit`, whatever the kernel answers
  -- to the commands, unless the release behind one of the lines faults or runs out of fuel: then it ends
  -- there.
  pub start-exits :
      (lines : List (Option (List ℕ))) (log : Calls)
      → All (IsAnswered view) lines
      → let r = start (lines ++ some exit_line ∷ []) log in
        ((log' : Calls) × (r ≡ ended (exit ∷ log')))
        ⊎ ((log' : Calls) × (r ≡ overrun log') × Faults view fuel log')
  unfolding start sbush
  start-exits lines log answered =
      elim (main-exits k view (run_script k view lines_of fuel depth) fuel start_argument
        start_variable lines initial log built_in readable answered initial-IsOrdered) [
          | inl (r, log', ran, kept) ↦ inl (log', rw ran refl)
          | inr (log', ran, faults) ↦ inr (log', rw ran refl, faults)
        ]
