-- ===== src/Shell/Session.antt =====
-- What a command line does, and the loop of `main`, bin/sbush/sbush.c: the actions of
-- `parseAndExecuteCommand` on processes and variables, and the release of the parsed commands behind them.
-- What the blocks of a parse hold, where they stand, what an address reads as and which bytes the release
-- finds depend on the calls before.
pub mod Loop
pub mod Scripts
pub mod Start
mod Tests
use sbuoperating_system.Prelude.{
  is_empty, ltb, ◌||◌, ℕ, zero, suc, Bool, true, false, List, [], ◌∷◌, Option, none, some, ◌==◌,
  if◌then◌else◌,
}
use sbuoperating_system.Memory.{codes}
use sbuoperating_system.Libc.Environ.{same_text, getenv}
use sbuoperating_system.Shell.Parser.{CommandArgument, Result, ok, too_many}
use sbuoperating_system.Shell.Process.{
  fork, Answers, Run, returned, overrun, unfinished, Process, Effect, ◌>>=◌, ◌>>◌, done, exited,
  custom_fputs, call, Calls, wait_for_process_execution,
}
use sbuoperating_system.Shell.Pipes.{
  Action, run_piping, invalid_pipe, execute_command, parse_and_execute_command,
}
use sbuoperating_system.Shell.Execute.{
  run_piping as pipe_processes, execute_binary, sbush_path, cat_path,
}
use sbuoperating_system.Libc.Malloc.Bytes.{Store}
use sbuoperating_system.Shell.Release.{
  Pointers, free_command_argument, free_all_parsed_command_arguments,
}
use sbuoperating_system.Shell.Commands.{Blocks, Shell, execute_command as switch}

-- What the memory gives to a command line, behind the calls so far; `store`, `command` and `commands` are the
-- bytes and the pointers of the parsed commands that the release finds, and `munmap` is the kernel's.
pub record MemoryView : Type 0 where
  pub fresh : Calls → ℕ → ℕ → List ℕ
  pub blocks : Calls → Blocks
  pub string_at : Calls → ℕ → List ℕ
  pub stray : Calls → Option (List ℕ)
  pub store : Calls → Store
  pub command : Calls → Pointers
  pub commands : Calls → List (Option Pointers)
  pub munmap : ℕ → ℕ → (ℕ → Bool) → ℕ → Bool

abbrev pub exit_line : List ℕ
exit_line = codes "exit\n"

-- `*input == '\n'`
abbrev pub starts_line : List ℕ → Bool
starts_line [] = false
starts_line (ch ∷ text) = ch == b'\n'

-- `execute_file` is `executeFile` on the first argument of a command.
module _ (k : Answers) (view : MemoryView) (execute_file : CommandArgument → Shell → Process Shell)
    (fuel : ℕ) where
  -- The string of `PATH`; `strlen`, `memcpy` and `fputs` take the NULL without one as the empty text.
  unfoldable pub path_of : Shell → Process (List ℕ)
  path_of sh log = elim (getenv (codes "PATH") sh.environ) [
    | none ↦ returned [] log
    | some address ↦ returned (view.string_at log address) log
  ]

  abbrev pub run_binary : CommandArgument → Shell → Process Shell
  run_binary c sh = do
    path ← path_of sh
    λ log. execute_binary k path (view.stray log) execute_file fuel c sh log

  abbrev pub run_pipe : List CommandArgument → Shell → Process Shell
  run_pipe cs sh = do
    path ← path_of sh
    λ log. pipe_processes k path (view.stray log) execute_file fuel cs 0 sh log

  -- The release behind a line. A fault ends the process.
  abbrev pub released : Option Store → Effect
  released none log = overrun log
  released (some s) log = returned tt log

  unfoldable pub release : Action → Effect
  release (execute_command c) log =
      released (free_command_argument view.munmap fuel (view.command log) (view.store log)) log
  release action log =
      released
        (free_all_parsed_command_arguments view.munmap fuel (view.commands log) (view.store log))
        log

  -- What is done in front of the release.
  unfoldable pub perform : Action → Shell → Process Shell
  perform (run_piping cs) sh = do
    c_pid ← call k fork
    if c_pid == 0
        then (do run_pipe cs sh; exited)
        else (do wait_for_process_execution k fuel c_pid; done sh)
  perform invalid_pipe sh = do
    custom_fputs (codes "Invalid pipe syntex. Try Again")
    custom_fputs (codes "\n")
    done sh
  perform (execute_command c) sh =
      λ log. switch k (view.string_at log) run_binary (view.blocks log) c sh log

  unfoldable pub run_action : Action → Shell → Process Shell
  unfolding perform release
  run_action action sh = do sh' ← perform action sh; release action; done sh'

  -- A parse that leaves its buffers, or gives NULL, which is read.
  abbrev pub run_parsed : Result Action → Shell → Process Shell
  run_parsed (ok action) sh = run_action action sh
  run_parsed too_many sh = overrun
  run_parsed Result.overrun sh = overrun

  unfoldable pub run_line : List ℕ → Shell → Process Shell
  run_line input sh log = run_parsed (parse_and_execute_command (view.fresh log) input) sh log

  -- The endless loop of `main`, for what `fgets` gives in its rounds, `none` for NULL; the status and the
  -- variables at its end.
  unfoldable pub main_loop : List (Option (List ℕ)) → Shell → Process (ℕ × Shell)
  main_loop [] sh = unfinished
  main_loop (none ∷ lines) sh = do custom_fputs sh.ps1; main_loop lines sh
  main_loop (some input ∷ lines) sh =
      let next : Process (ℕ × Shell) = (do sh' ← run_line input sh; main_loop lines sh') in
      let again = main_loop lines sh in
      do
        custom_fputs sh.ps1
        if starts_line input
            then again
            else if same_text input exit_line
            then (do
              custom_fputs (codes "Exiting as requested")
              custom_fputs (codes "\n")
              done (1, sh))
            else next

  -- The block of the first variable ends behind it, so a path has no room in front of it.
  unfoldable pub first_binary : CommandArgument → Shell → Process Shell
  unfolding path_of
  first_binary c sh = do
    path ← path_of sh
    if is_empty path || (same_text c.command sbush_path || same_text c.command cat_path)
        then run_binary c sh
        else overrun

  unfoldable pub run_first : CommandArgument → Shell → Process Shell
  unfolding first_binary
  run_first c sh = λ log. switch k (view.string_at log) first_binary (view.blocks log) c sh log

  -- `main`: the first variable of `envp` is run as a command, and then the loop, or the file of `argv[1]`.
  unfoldable pub main : ℕ → List ℕ → List ℕ → List (Option (List ℕ)) → Shell → Process (ℕ × Shell)
  main argc argument variable lines sh = do
    let c : CommandArgument = record {
      trimmed_input = [];
      command = variable;
      arguments = [];
      is_background = false;
    }
    sh ← run_first c sh
    if argc == 1
        then main_loop lines sh
        else if ltb 1 argc
        then (do sh ← execute_file (record c { arguments = argument ∷ [] }) sh; done (0, sh))
        else done (0, sh)
