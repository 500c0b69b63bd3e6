-- ===== src/Shell/Script.antt =====
-- `executeFile`, bin/sbush/sbush.c: a file whose first line names the shell is run line by line, and any
-- other with `#!` is handed to the program that the line names. `fgets` gives a line or NULL, `none`, as in
-- Libc.Stdio; a file is the list of its lines, with NULL behind the last one.
pub mod Lines
mod Tests
use sbuoperating_system.Prelude.{
  ℕ, ◌-◌, Bool, true, false, ◌||◌, List, [], ◌∷◌, Option, none, some, ◌==◌, if◌then◌else◌, length,
  take, drop,
}
use sbuoperating_system.Memory.{codes}
use sbuoperating_system.Libc.Environ.{same_text}
use sbuoperating_system.Shell.Process.{
  Answers, Run, call, open_file, read_line, close, overrun, Process, ◌>>=◌, ◌>>◌, done,
  custom_fputs,
}
use sbuoperating_system.Shell.Pipes.{cut_at_pipe}
use sbuoperating_system.Shell.Parser.{CommandArgument}
use sbuoperating_system.Shell.Process.{Effect}
use sbuoperating_system.Shell.Execute.{Execution, execvpe}
use sbuoperating_system.Shell.Commands.{Shell}

-- `currentLine == NULL || strlen(currentLine) == 0 || *currentLine == '\0' || *currentLine == '\n'`
abbrev pub stops : Option (List ℕ) → Bool
stops none = true
stops (some []) = true
stops (some (ch ∷ text)) = ch == b'\n'

abbrev pub sbush_line : List ℕ
sbush_line = codes "#!rootfs/bin/sbush"

-- `line[0] == '#' && line[1] == '!'`
abbrev pub names_program : List ℕ → Bool
names_program [] = false
names_program (ch ∷ []) = false
names_program (ch ∷ d ∷ line) = if ch == b'#' then d == b'!' else false

-- What the buffer reads as behind the execution of a line: a zero stands in the place of its first `|`.
abbrev pub after_line : List ℕ → List ℕ
after_line text = elim (cut_at_pipe text) [ none ↦ text | some (before, behind) ↦ before ]

-- The line without its last byte.
abbrev pub without_last : List ℕ → List ℕ
without_last line = take (length line - 1) line

-- The endless loop, for the line in the buffer and the lines behind it; `run_line` is
-- `parseAndExecuteCommand`, and `fd` the descriptor of the file.
module _ (k : Answers) (run_line : List ℕ → Shell → Process Shell) (fd : ℕ) where
  unfoldable pub script_loop : Option (List ℕ) → List (List ℕ) → Shell → Process Shell
  script_loop current [] sh = if stops current then done sh else (do call k (read_line fd); done sh)
  script_loop current (next ∷ lines) sh =
      let skipped = script_loop (some next) lines sh in
      let run : Process Shell = (do
        sh' ← run_line next sh
        script_loop (some (after_line next)) lines sh') in
      if stops current
      then done sh
      else (do call k (read_line fd); if stops (some next) then skipped else run)

-- `fopen` of a file, and `fgets` of its first line; the result is the descriptor.
unfoldable pub open_first : Answers → List ℕ → Process ℕ
open_first k file = do fd ← call k (open_file file); call k (read_line fd); done fd

module _ (k : Answers) (path : List ℕ) (run_line : List ℕ → Shell → Process Shell) where
  -- `file` is the path of the file. Without a first line its NULL is read, and an empty one is written in
  -- front of.
  unfoldable pub execute_file : List ℕ → List (List ℕ) → Shell → Process Shell
  unfolding open_first
  execute_file file [] sh = open_first k file >> overrun
  execute_file file ([] ∷ lines) sh = open_first k file >> overrun
  execute_file file ((ch ∷ text) ∷ lines) sh =
      let line = without_last (ch ∷ text) in
      let program = drop 2 line in
      do
        fd ← open_first k file
        call k (close fd)
        if names_program line
            then (if same_text line sbush_line
                then (do
                  fd ← open_first k file
                  sh' ← script_loop k run_line fd (some (ch ∷ text)) lines sh
                  call k (close fd)
                  done sh')
                else do
                  status ←
                      execvpe {S = Shell} k path none (λ c sh'. done sh')
                        (record { file = program; argv = some program ∷ some file ∷ [] })
                  if status == 0
                      then done tt
                      else custom_fputs (codes "Error while executing other shell \n")
                  done sh)
            else done sh
