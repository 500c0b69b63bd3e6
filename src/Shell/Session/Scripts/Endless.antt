-- ===== src/Shell/Session/Scripts/Endless.antt =====
-- A script that runs itself.
use sbuoperating_system.Prelude.{
  ℕ, suc, ◌+◌, ◌*◌, ◌≡◌, ◌||◌, Bool, true, false, if◌then◌else◌, [], ◌∷◌,
}
use sbuoperating_system.Libc.Environ.{same_text}
use sbuoperating_system.Shell.Parser.{CommandArgument}
use sbuoperating_system.Shell.Process.{Call, open_file, read_line, close, Calls, Process}
use sbuoperating_system.Shell.Pipes.{execute_command}
use sbuoperating_system.Shell.Commands.{Shell, execute_command as switch}
use sbuoperating_system.Shell.Execute.{sbush_path, cat_path}

-- The command runs the shell or `cat`.
abbrev pub IsProgram : CommandArgument → Type 0
IsProgram c = (same_text c.command sbush_path || same_text c.command cat_path) ≡ true

-- How many calls a test picks out.
abbrev pub count_calls : (Call → Bool) → Calls → ℕ
count_calls p [] = 0
count_calls p (c ∷ log) = if p c then suc (count_calls p log) else count_calls p log

abbrev pub is_open : Call → Bool
is_open (open_file file) = true
is_open c = false

abbrev pub is_close : Call → Bool
is_close (close fd) = true
is_close c = false

-- A call that is not one of those on a file: it makes a process, runs another program, writes or changes a
-- descriptor.
abbrev pub is_outward : Call → Bool
is_outward (open_file file) = false
is_outward (read_line fd) = false
is_outward (close fd) = false
is_outward c = true

-- What `depth` levels leave open behind `log`: each opens its file twice and closes it once, and makes no call
-- but those of its file.
pub record Nested (depth : ℕ) (log log' : Calls) : Type 0 where
  pub opened : count_calls is_open log' ≡ count_calls is_open log + 2 * depth
  pub closed : count_calls is_close log' ≡ count_calls is_close log + depth
  pub outward : count_calls is_outward log' ≡ count_calls is_outward log
