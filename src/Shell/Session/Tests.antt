-- ===== src/Shell/Session/Tests.antt =====
-- A session with one command.
use sbuoperating_system.Prelude.{
  ltb, leb, ◌==◌, ◌&&◌, if◌then◌else◌, ◌≡◌, ◌≢◌, refl, inl, inr, false, true, [], ◌∷◌, ◌++◌, none,
  some, arith,
}
use sbuoperating_system.Memory.{codes}
use sbuoperating_system.Libc.Strings.Scans.{compare_text, find_char}
use sbuoperating_system.Libc.Environ.{environ_vars, same_text}
use sbuoperating_system.Shell.Parser.{
  CommandArgument, ok, skip_spaces, strip_end, trim, open_argument, extend_argument, parse_char,
  parse_loop, stored, parse_input,
}
use sbuoperating_system.Shell.Process.{Answers, done}
use sbuoperating_system.Shell.Pipes.{execute_command, parse_and_execute_command, get_built_in_code}
use sbuoperating_system.Shell.Commands.{Shell}
use sbuoperating_system.Shell.Commands.Builtins.{IsReadable}
use sbuoperating_system.Libc.Malloc.Bytes.{Store}
use sbuoperating_system.Shell.Session.{MemoryView, exit_line, main}
use sbuoperating_system.Shell.Session.Loop.{
  IsBuiltIn, variable_command, Leaves, Outcome, main-exits,
}

abbrev pub kernel : Answers
kernel = record {
  result = λ log c. 0;
  status = λ log. some 0;
  pipe_ends = λ log. (3, 4);
  cwd = λ log. codes "/";
  exec_returns = λ log. true;
}

-- One block of the allocator, the last of its list, at 4096, and no other text; its header holds 4672.
abbrev store : Store
store = record {
  memory = λ a. if a == 4096 then 64 else if a == 4097 then 18 else 0;
  mapped = λ a. leb 4096 a && ltb a 16384;
  root = 4096;
}

abbrev pub view : MemoryView
view = record {
  fresh = λ log i j. [];
  blocks = λ log. record { command_at = 100; argument_at = λ i. 200 };
  string_at = λ log a. codes "/bin/";
  stray = λ log. none;
  store = λ log. store;
  command = λ log. record { trimmed_input = 8192; command = 12288; arguments = [] };
  commands = λ log. [];
  munmap = λ a n mapped. mapped;
}

abbrev pub shell : Shell
shell = record { environ = environ_vars; ps1 = codes "sbush~>" }

abbrev pub go_root : CommandArgument
go_root = record {
  trimmed_input = codes "cd /";
  command = codes "cd";
  arguments = codes "/" ∷ [];
  is_background = false;
}

parses : parse_and_execute_command (λ i j. []) (codes "cd /\n") ≡ ok (execute_command go_root)
unfolding parse_and_execute_command find_char parse_input trim skip_spaces strip_end parse_loop
    parse_char open_argument extend_argument stored
parses = refl

pub go_root-IsBuiltIn : IsBuiltIn view (codes "cd /\n")
unfolding get_built_in_code same_text compare_text
go_root-IsBuiltIn = record {
  parsed = go_root;
  parses = λ log. parses;
  code = λ e. cc;
  readable = record {
    command = (omega arith, (omega arith, tt));
    short = omega arith;
    arguments = ((omega arith, tt), tt);
  };
  text = refl;
  no_exit = refl;
}

pub path_built_in : get_built_in_code (variable_command (codes "P=/")) ≢ 0
unfolding get_built_in_code same_text compare_text find_char
path_built_in e = cc

pub variable-IsReadable : IsReadable (variable_command (codes "P=/"))
variable-IsReadable = record {
  command = (omega arith, (omega arith, (omega arith, tt)));
  short = omega arith;
  arguments = tt;
}

main-exits_example : Outcome view 9 (Leaves 1) (
    main kernel view
      (λ c sh. done sh)
      9
      1
      []
      (codes "P=/")
      ((some (codes "cd /\n") ∷ none ∷ some (codes "\n") ∷ []) ++ some exit_line ∷ [])
      shell
      [])
main-exits_example =
    main-exits kernel view (λ c sh. done sh) 9 [] (codes "P=/")
      (some (codes "cd /\n") ∷ none ∷ some (codes "\n") ∷ []) shell [] path_built_in
      variable-IsReadable (inr go_root-IsBuiltIn, (tt, (inl refl, tt)))
      (record { packed = tt; prompt = omega arith })

-- The text of a block written over the header of the first one.
abbrev spoiled : MemoryView
spoiled = record view { store = λ log. record store { memory = λ a. b'a' } }
