-- ===== src/Shell/Commands.antt =====
-- The built-in commands and `executeCommand`, bin/sbush/sbush.c. The strings of a command stand in blocks
-- of memory, whose addresses the environment keeps as values; `string_at` is the string at an address.
pub mod Variables
pub mod Returns
pub mod Builtins
mod Tests
use sbuoperating_system.Prelude.{
  ℕ, zero, suc, ◌+◌, ◌%◌, ◌^◌, Bool, true, false, List, [], ◌∷◌, ◌++◌, Option, none, some, map, ltb,
  ◌==◌, if◌then◌else◌, length,
}
use sbuoperating_system.Memory.{codes}
use sbuoperating_system.Libc.Environ.{Environ, same_text, getenv, setenv}
use sbuoperating_system.Shell.Parser.{CommandArgument}
use sbuoperating_system.Shell.Process.{
  Call, chdir, getcwd, Answers, Run, returned, overrun, Process, Effect, ◌>>=◌, ◌>>◌, done,
  custom_fputs, call,
}
use sbuoperating_system.Shell.Pipes.{get_built_in_code}

-- The blocks of a command and of its arguments.
pub record Blocks : Type 0 where
  pub command_at : ℕ
  pub argument_at : ℕ → ℕ

-- `environ_vars` and `PS1`
pub record Shell : Type 0 where
  pub environ : Environ
  pub ps1 : List ℕ

abbrev pub max_ps1_length : ℕ
max_ps1_length = 100

-- The text in front of the first `ch` and the text behind it, as `strchr` finds it: not behind a newline.
unfoldable pub cut_at : ℕ → List ℕ → Option (List ℕ × List ℕ)
cut_at ch [] = none
cut_at ch (d ∷ text) =
    let rest : Option (List ℕ × List ℕ) = elim (cut_at ch text) [
      | none ↦ none
      | some (before, behind) ↦ some (d ∷ before, behind)
    ] in
    if d == b'\n' then none else if d == ch then some ([], text) else rest

-- A round of the loop of `executeBuiltInExport`, for the argument at an address: the value is the address
-- behind the `=`, and the result of `setenv` is not looked at.
unfoldable pub export_argument : ℕ → List ℕ → Environ → Environ
unfolding cut_at
export_argument address text env = elim (cut_at b'=' text) [
  | none ↦ env
  | some (key, value) ↦ (setenv key (address + length key + 1) 1 env).1
]

-- The loop from argument `i` on.
unfoldable pub export_from : (ℕ → ℕ) → ℕ → List (List ℕ) → Environ → Environ
unfolding export_argument
export_from argument_at i [] env = env
export_from argument_at i (text ∷ args) env =
    export_from argument_at (i + 1) args (export_argument (argument_at i) text env)

unfoldable pub execute_built_in_export : Blocks → CommandArgument → Environ → Environ
unfolding export_from
execute_built_in_export blocks c env = export_from blocks.argument_at 0 c.arguments env

-- A missing variable is a NULL, which `custom_fputs` passes over.
abbrev pub put_value : (ℕ → List ℕ) → Option ℕ → Effect
put_value string_at none = done tt
put_value string_at (some value) = custom_fputs (string_at value)

-- A round of the loop of `executeBuiltInEcho`.
unfoldable pub echo_argument : (ℕ → List ℕ) → Environ → List ℕ → Effect
unfolding cut_at
echo_argument string_at env text = elim (cut_at b'$' text) [
  | none ↦ done tt
  | some (before, name) ↦ (do put_value string_at (getenv name env); custom_fputs (codes "\n"))
]

unfoldable pub execute_built_in_echo : (ℕ → List ℕ) → Environ → List (List ℕ) → Effect
unfolding echo_argument
execute_built_in_echo string_at env [] = done tt
execute_built_in_echo string_at env (text ∷ args) = do
  echo_argument string_at env text
  execute_built_in_echo string_at env args

-- A command `key=value`; the new prompt is copied over 100 bytes.
unfoldable pub execute_built_in_without_export : Blocks → CommandArgument → Shell → Process Shell
unfolding cut_at execute_built_in_export
execute_built_in_without_export blocks c sh = elim (cut_at b'=' c.command) [
  | none ↦ done (record sh { environ = execute_built_in_export blocks c sh.environ })
  | some (key, value) ↦
      let env = (setenv key (blocks.command_at + length key + 1) 1 sh.environ).1 in
      let env = execute_built_in_export blocks c env in
      if same_text key (codes "PS1")
      then (if ltb (length value) max_ps1_length
          then done (record { environ = env; ps1 = value })
          else overrun)
      else done (record sh { environ = env })
]

module _ (k : Answers) where
  unfoldable pub change_directory : List ℕ → Effect
  change_directory path = do
    result ← call k (chdir path)
    if result == 0
        then done tt
        else (do custom_fputs (codes "Error in cd"); custom_fputs (codes "\n"))

  -- More than one argument is refused, none stands for the root.
  unfoldable pub execute_built_in_cd : List (List ℕ) → Effect
  unfolding change_directory
  execute_built_in_cd [] = change_directory (codes "/")
  execute_built_in_cd (path ∷ []) = change_directory path
  execute_built_in_cd (path ∷ other ∷ args) = do
    custom_fputs (codes "Max 1 argument is allowed for cd.")
    custom_fputs (codes "\n")

  -- `cwd` behind the call; its result is not looked at.
  abbrev pub ask_cwd : Process (List ℕ)
  ask_cwd log = returned (k.cwd log) (getcwd ∷ log)

  unfoldable pub execute_built_in_pwd : List (List ℕ) → Effect
  execute_built_in_pwd args =
      if ltb 1 (length args)
      then (do custom_fputs (codes "No argument is allowed for pwd."); custom_fputs (codes "\n"))
      else do cwd ← ask_cwd; custom_fputs cwd; custom_fputs (codes "\n")

  -- The switch on the code of the command; `execute_binary` is `executeBinary` on it.
  unfoldable pub execute_command :
      (ℕ → List ℕ)
      → (CommandArgument → Shell → Process Shell)
      → Blocks
      → CommandArgument
      → Shell
      → Process Shell
  execute_command string_at execute_binary blocks c sh =
      let code = get_built_in_code c in
      if code == 0
      then execute_binary c sh
      else if code == 1
      then (do execute_built_in_cd c.arguments; done sh)
      else if code == 2
      then (do execute_built_in_pwd c.arguments; done sh)
      else if code == 3
      then done (record sh { environ = execute_built_in_export blocks c sh.environ })
      else if code == 4
      then (do execute_built_in_echo string_at sh.environ c.arguments; done sh)
      else if code == 5
      then execute_built_in_without_export blocks c sh
      else do custom_fputs (codes "BuiltIn is not implemented"); custom_fputs (codes "\n"); done sh
