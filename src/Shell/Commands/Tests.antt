-- ===== src/Shell/Commands/Tests.antt =====
-- Built-in commands at concrete texts.
use sbuoperating_system.Prelude.{
  ℕ, ◌+◌, ◌≡◌, ◌≢◌, refl, true, false, List, [], ◌∷◌, ◌++◌, some, arith, if◌then◌else◌, length,
}
use sbuoperating_system.Prelude.Int.{pos}
use sbuoperating_system.Memory.{codes}
use sbuoperating_system.Libc.Strings.Scans.{compare_text}
use sbuoperating_system.Libc.Environ.{environ_vars, same_text, setenv, put_slot}
use sbuoperating_system.Libc.Environ.Laws.{IsPacked}
use sbuoperating_system.Shell.Parser.{CommandArgument}
use sbuoperating_system.Shell.Process.{Calls, write, chdir, Answers, returned, done}
use sbuoperating_system.Shell.Pipes.{get_built_in_code}
use sbuoperating_system.Shell.Commands.{
  Blocks, Shell, cut_at, export_argument, echo_argument, execute_built_in_echo, execute_built_in_cd,
  execute_command, change_directory,
}
use sbuoperating_system.Shell.Commands.Variables.{export-echo}
use sbuoperating_system.Shell.Commands.Builtins.{IsOrdered, IsReadable, execute_command-IsOrdered}

abbrev refusing : Answers
refusing = record {
  result = λ log c. 1;
  status = λ log. some 0;
  pipe_ends = λ log. (3, 4);
  cwd = λ log. codes "/";
  exec_returns = λ log. true;
}

-- `echo` writes nothing for an argument without a `$`.
echo_plain : execute_built_in_echo (λ a. []) environ_vars (codes "hello" ∷ []) [] ≡ returned tt []
unfolding execute_built_in_echo echo_argument cut_at
echo_plain = refl

-- A directory that the kernel refuses.
cd_refused :
    execute_built_in_cd refusing (codes "/no" ∷ []) []
    ≡ returned tt (write (codes "\n") ∷ write (codes "Error in cd") ∷ chdir (codes "/no") ∷ [])
unfolding execute_built_in_cd change_directory
cd_refused = refl

abbrev name_a : List ℕ
name_a = codes "A"

room : (setenv name_a (500 + length name_a + 1) 1 environ_vars).0 ≡ pos 0
unfolding setenv put_slot
room = refl

export-echo_example :
    let env' = export_argument 500 (name_a ++ b'=' ∷ codes "v") environ_vars in
    (echo_argument (λ a. codes "v") env' (b'$' ∷ name_a) [] ≡ (
      if same_text name_a name_a
      then returned tt (write (codes "\n") ∷ write (codes "v") ∷ [])
      else echo_argument (λ a. codes "v") environ_vars (b'$' ∷ name_a) []))
    × IsPacked env'
export-echo_example =
    export-echo (λ a. codes "v") 500 name_a (codes "v") name_a environ_vars [] (omega arith, tt)
      ((refl, refl), tt) (omega arith, tt) tt room refl

abbrev cd_no : CommandArgument
cd_no = record {
  trimmed_input = codes "cd /no";
  command = codes "cd";
  arguments = codes "/no" ∷ [];
  is_background = false;
}

abbrev shell : Shell
shell = record { environ = environ_vars; ps1 = codes "sbush~>" }

abbrev blocks : Blocks
blocks = record { command_at = 100; argument_at = λ i. 200 }

is_built_in : get_built_in_code cd_no ≢ 0
unfolding get_built_in_code same_text compare_text
is_built_in e = cc

cd_no-IsReadable : IsReadable cd_no
cd_no-IsReadable = record {
  command = (omega arith, (omega arith, tt));
  short = omega arith;
  arguments = ((omega arith, (omega arith, (omega arith, tt))), tt);
}

shell-IsOrdered : IsOrdered shell
shell-IsOrdered = record { packed = tt; prompt = omega arith }

execute_command-IsOrdered_example :
    (sh' : Shell) × (log' : Calls) × (execute_command refusing
        (λ a. [])
        (λ c sh. done sh)
        blocks
        cd_no
        shell
        []
      ≡ returned sh' log')
    × IsOrdered sh'
execute_command-IsOrdered_example =
    execute_command-IsOrdered refusing (λ a. []) (λ c sh. done sh) blocks cd_no shell [] is_built_in
      cd_no-IsReadable shell-IsOrdered
