-- ===== src/Shell/Session/Loop.antt =====
-- A session at the terminal, from the start of the shell to `exit`.
use sbuoperating_system.Prelude.{
  ℕ, ◌≡◌, ◌≢◌, ◌⊎◌, inl, inr, refl, true, false, List, [], ◌∷◌, ◌++◌, Option, none, some, All,
}
use sbuoperating_system.Memory.{codes}
use sbuoperating_system.Libc.Strings.Scans.{compare_text}
use sbuoperating_system.Libc.Environ.{same_text}
use sbuoperating_system.Shell.Parser.{CommandArgument, ok}
use sbuoperating_system.Shell.Process.{
  Calls, Answers, returned, overrun, Run, Process, ◌>>=◌, ◌>>◌, done, write,
}
use sbuoperating_system.Shell.Pipes.{execute_command, parse_and_execute_command, get_built_in_code}
use sbuoperating_system.Shell.Commands.{Shell}
use sbuoperating_system.Shell.Commands.Builtins.{IsOrdered, IsReadable, execute_command-IsOrdered}
use sbuoperating_system.Libc.Malloc.Bytes.{Store}
use sbuoperating_system.Shell.Release.{free_command_argument}
use sbuoperating_system.Shell.Session.{
  MemoryView, exit_line, starts_line, run_binary, first_binary, run_first, release, perform,
  run_action, run_line, main_loop, main,
}

-- A line that parses as a built-in command with a readable name and arguments.
pub record IsBuiltIn (view : MemoryView) (input : List ℕ) : Type 0 where
  pub parsed : CommandArgument
  pub parses :
      (log : Calls) → parse_and_execute_command (view.fresh log) input ≡ ok (execute_command parsed)
  pub code : get_built_in_code parsed ≢ 0
  pub readable : IsReadable parsed
  pub text : starts_line input ≡ false
  pub no_exit : same_text input exit_line ≡ false

-- A round that gives NULL, an empty line or a built-in command.
abbrev pub IsAnswered : MemoryView → Option (List ℕ) → Type 0
IsAnswered view none = Unit
IsAnswered view (some input) = (starts_line input ≡ true) ⊎ IsBuiltIn view input

exit_same : same_text exit_line exit_line ≡ true
unfolding same_text compare_text
exit_same = refl

-- The command that `main` makes of the first variable.
abbrev pub variable_command : List ℕ → CommandArgument
variable_command variable = record {
  trimmed_input = [];
  command = variable;
  arguments = [];
  is_background = false;
}

-- The release of a command line, as the memory stands behind the calls `log`, faults or runs out of fuel.
abbrev pub Faults : MemoryView → ℕ → Calls → Type 0
Faults view fuel log =
    free_command_argument view.munmap fuel (view.command log) (view.store log) ≡ none

-- It returns with a result that meets `P`, or it ends in a release that faults.
abbrev pub Outcome : {A : Type 0} → MemoryView → ℕ → (A → Type 0) → Run A → Type 0
Outcome {A} view fuel P r =
    ((a : A) × (log : Calls) × (r ≡ returned a log) × P a)
    ⊎ ((log : Calls) × (r ≡ overrun log) × Faults view fuel log)

pub Outcome-bind :
    {A B : Type 0} (view : MemoryView) (fuel : ℕ) (P : A → Type 0) (Q : B → Type 0) (p : Process A)
    (f : A → Process B) (log : Calls)
    → Outcome view fuel P (p log)
    → ((a : A) (log : Calls) → P a → Outcome view fuel Q (f a log))
    → Outcome view fuel Q ((p >>= f) log)
Outcome-bind view fuel P Q p f log (inl (a, log', e, h)) next = rw e (next a log' h)
Outcome-bind view fuel P Q p f log (inr (log', e, x)) next = inr (log', rw e refl, x)

-- The shell has variables in order, and the status is `n`.
abbrev pub Leaves : ℕ → ℕ × Shell → Type 0
Leaves n r = (r.0 ≡ n) × IsOrdered r.1

Store-cases : (o : Option Store) → ((s : Store) × (o ≡ some s)) ⊎ (o ≡ none)
Store-cases none = inr refl
Store-cases (some s) = inl (s, refl)

module _ (k : Answers) (view : MemoryView) (execute_file : CommandArgument → Shell → Process Shell)
    (fuel : ℕ) where
  release-Outcome :
      (c : CommandArgument) (sh : Shell) (log : Calls)
      → IsOrdered sh
      → Outcome view fuel IsOrdered
          ((release k view execute_file fuel (execute_command c) >> done sh) log)
  unfolding release
  release-Outcome c sh log ordered =
      elim (Store-cases
        (free_command_argument view.munmap fuel (view.command log) (view.store log))) [
          | inl (s, e) ↦ inl (sh, log, rw e refl, ordered)
          | inr e ↦ inr (log, rw e refl, e)
        ]

  run_action-Outcome :
      (c : CommandArgument) (sh : Shell) (log : Calls)
      → get_built_in_code c ≢ 0
      → IsReadable c
      → IsOrdered sh
      → Outcome view fuel IsOrdered (run_action k view execute_file fuel (execute_command c) sh log)
  unfolding run_action
  run_action-Outcome c sh log code readable ordered =
      Outcome-bind view fuel IsOrdered IsOrdered
        (perform k view execute_file fuel (execute_command c) sh)
        (λ sh'. release k view execute_file fuel (execute_command c) >> done sh') log
        (unfold perform in
          inl (
            execute_command-IsOrdered k (view.string_at log) (run_binary k view execute_file fuel)
              (view.blocks log) c sh log code readable ordered))
        (λ sh' log' kept. release-Outcome c sh' log' kept)

  pub run_first-IsOrdered :
      (c : CommandArgument) (sh : Shell) (log : Calls)
      → get_built_in_code c ≢ 0
      → IsReadable c
      → IsOrdered sh
      → (sh' : Shell) × (log' : Calls) × (run_first k view execute_file fuel c sh log
          ≡ returned sh' log')
        × IsOrdered sh'
  unfolding run_first
  run_first-IsOrdered c sh log =
      execute_command-IsOrdered k (view.string_at log) (first_binary k view execute_file fuel)
        (view.blocks log) c sh log

  pub run_line-Outcome :
      (input : List ℕ) (sh : Shell) (log : Calls)
      → IsBuiltIn view input
      → IsOrdered sh
      → Outcome view fuel IsOrdered (run_line k view execute_file fuel input sh log)
  unfolding run_line
  run_line-Outcome input sh log b ordered =
      rw (b.parses log) (run_action-Outcome b.parsed sh log b.code b.readable ordered)

  main_loop-Outcome :
      (lines : List (Option (List ℕ))) (sh : Shell) (log : Calls)
      → All (IsAnswered view) lines
      → IsOrdered sh
      → Outcome view fuel
          (Leaves 1)
          (main_loop k view execute_file fuel (lines ++ some exit_line ∷ []) sh log)
  unfolding main_loop
  main_loop-Outcome [] sh log answered ordered = inl (
    (1, sh),
    write (codes "\n") ∷ write (codes "Exiting as requested") ∷ write sh.ps1 ∷ log,
    rw exit_same refl,
    (refl, ordered),
  )
  main_loop-Outcome (none ∷ lines) sh log (_, answered) ordered =
      main_loop-Outcome lines sh (write sh.ps1 ∷ log) answered ordered
  main_loop-Outcome (some input ∷ lines) sh log (inl newline, answered) ordered =
      rw newline (main_loop-Outcome lines sh (write sh.ps1 ∷ log) answered ordered)
  main_loop-Outcome (some input ∷ lines) sh log (inr b, answered) ordered =
      rw (b.text, b.no_exit)
        (Outcome-bind view fuel IsOrdered (Leaves 1) (run_line k view execute_file fuel input sh)
          (main_loop k view execute_file fuel (lines ++ some exit_line ∷ [])) (write sh.ps1 ∷ log)
          (run_line-Outcome input sh (write sh.ps1 ∷ log) b ordered)
          (λ sh' log' kept. main_loop-Outcome lines sh' log' answered kept))

  -- Started at a terminal with a first variable that is set as a built-in command, after any number of
  -- rounds that give NULL, an empty line or a built-in command, and then `exit`, the shell ends with the
  -- status 1 and variables that are in order, whatever the kernel answers to the commands, unless the release
  -- behind one of the lines faults or runs out of fuel: then it ends there.
  pub main-exits :
      (argument variable : List ℕ) (lines : List (Option (List ℕ))) (sh : Shell) (log : Calls)
      → get_built_in_code (variable_command variable) ≢ 0
      → IsReadable (variable_command variable)
      → All (IsAnswered view) lines
      → IsOrdered sh
      → Outcome view fuel
          (Leaves 1)
          (main k view execute_file fuel 1 argument variable (lines ++ some exit_line ∷ []) sh log)
  unfolding main
  main-exits argument variable lines sh log code readable answered ordered =
      let (sh₁, log₁, ran, kept) =
        run_first-IsOrdered (variable_command variable) sh log code readable ordered in
      rw ran (main_loop-Outcome lines sh₁ log₁ answered kept)
