-- ===== src/Shell/Execute.antt =====
-- The programs that the shell runs, bin/sbush/sbush.c: the arguments of a program, in the background, in
-- the foreground and in a pipe, with `execvpe` of include/sys/syscall.h. `path` is the string of `PATH`,
-- and `stray` what the pointer behind the last argument leads to, which `parseInput` leaves as it was;
-- the NULL that `setExecutionArguments` writes behind `argv` is not part of the list here.
pub mod Files
pub mod Plumbing
pub mod Children
mod Tests
use sbuoperating_system.Prelude.{
  is_empty, ℕ, zero, suc, ◌+◌, ◌-◌, ◌%◌, ◌^◌, Bool, true, false, not, ◌||◌, ◌&&◌, List, [], ◌∷◌,
  ◌++◌, Option, none, some, map, ltb, ◌==◌, if◌then◌else◌, length,
}
use sbuoperating_system.Memory.{codes}
use sbuoperating_system.Libc.Environ.{same_text}
use sbuoperating_system.Shell.Parser.{CommandArgument, command_length}
use sbuoperating_system.Shell.Process.{
  Call, fork, setpgid, execve, pipe, dup2, close, Answers, Run, returned, ended, overrun, Process,
  Effect, ◌>>=◌, ◌>>◌, done, exited, custom_fputs, call, wait_for_process_execution,
}

-- An int of -1.
abbrev pub minus_one : ℕ
minus_one = 2 ^ 32 - 1

-- The command and `argv`.
pub record Execution : Type 0 where
  pub file : List ℕ
  pub argv : List (Option (List ℕ))

-- The size of `buf`.
abbrev pub buffer_length : ℕ
buffer_length = 100

abbrev pub sbush_path : List ℕ
sbush_path = codes "rootfs/bin/sbush"

abbrev pub cat_path : List ℕ
cat_path = codes "rootfs/bin/cat"

module _ (k : Answers) where
  unfoldable pub duplicate_file_descriptors_from_input_to_output : ℕ → ℕ → Effect
  duplicate_file_descriptors_from_input_to_output old_fd new_fd =
      if old_fd == new_fd then done tt else do
        r ← call k (dup2 old_fd new_fd)
        if r == minus_one
            then custom_fputs (codes "error while executing pipes")
            else (do call k (close old_fd); done tt)

  -- The result of `pipe` and the two ends in `fd`.
  abbrev pub open_pipe : Process (ℕ × (ℕ × ℕ))
  open_pipe log = returned (k.result log pipe % 2 ^ 32, k.pipe_ends log) (pipe ∷ log)

-- `execute_file` is `executeFile` on the first argument, which calls back into the shell and may change
-- its state `S`.
module _ {S : Type 0} (k : Answers) (path : List ℕ) (stray : Option (List ℕ))
    (execute_file : CommandArgument → S → Process S) where
  abbrev pub execution : List ℕ → CommandArgument → Execution
  execution file c = record { file = file; argv = some file ∷ map some c.arguments ++ stray ∷ [] }

  -- The path is put in front of the command in the block of the command, to which `argv[0]` points; an
  -- empty one adds no byte to the block. The command stands in `buf` meanwhile.
  unfoldable pub set_execution_arguments : CommandArgument → S → Process (Execution × S)
  set_execution_arguments c s =
      if same_text c.command sbush_path || same_text c.command cat_path
      then (do s' ← execute_file c s; done (execution c.command c, s'))
      else if (is_empty path || ltb (length path + length c.command) command_length)
          && ltb (length c.command) buffer_length
      then done (execution (path ++ c.command) c, s)
      else overrun

  -- `execve` returns if it fails.
  abbrev pub run_execve : Execution → Process ℕ
  run_execve e log =
      let c = execve e.file e.argv in if k.exec_returns log then call k c log else ended (c ∷ log)

  -- It prints the first variable.
  unfoldable pub execvpe : Execution → Process ℕ
  execvpe e = do custom_fputs path; run_execve e

  unfoldable pub execute_binary_in_back_ground : CommandArgument → S → Process S
  execute_binary_in_back_ground c s = do
    (e, s') ← set_execution_arguments c s
    pid ← call k fork
    if pid == 0
        then (do
          call k (setpgid 0 0)
          execvpe e
          custom_fputs (codes "Unable to run in bg\n")
          done s')
        else done s'

  unfoldable pub execute_binary_interactively : ℕ → CommandArgument → S → Process S
  execute_binary_interactively fuel c s = do
    (e, s') ← set_execution_arguments c s
    pid ← call k fork
    if pid == 0
        then (do
          status ← execvpe e
          if status == 0 then done tt else custom_fputs (codes "Command not found.\n")
          exited)
        else (do wait_for_process_execution k fuel pid; done s')

  unfoldable pub execute_binary : ℕ → CommandArgument → S → Process S
  execute_binary fuel c s =
      if c.is_background
      then execute_binary_in_back_ground c s
      else execute_binary_interactively fuel c s

  -- The commands from `currentCommandIndex` on.
  unfoldable pub run_piping : ℕ → List CommandArgument → ℕ → S → Process S
  run_piping fuel [] file_desc s = done s
  run_piping fuel (c ∷ []) file_desc s = do
    duplicate_file_descriptors_from_input_to_output k file_desc 0
    execute_binary fuel c s
    exited
  run_piping fuel (c ∷ d ∷ cs) file_desc s = do
    (made, (read_end, write_end)) ← open_pipe k
    if made == minus_one then custom_fputs (codes "Error while creating pipe") else done tt
    pid ← call k fork
    if pid == minus_one
        then (do
          custom_fputs (codes "Some error occured while forking")
          custom_fputs (codes "\n")
          exited)
        else if pid == 0
        then (do
          call k (close read_end)
          duplicate_file_descriptors_from_input_to_output k file_desc 0
          duplicate_file_descriptors_from_input_to_output k write_end 1
          execute_binary fuel c s
          exited)
        else (do call k (close write_end); run_piping fuel (d ∷ cs) read_end s)
