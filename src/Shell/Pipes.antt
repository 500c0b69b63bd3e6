-- ===== src/Shell/Pipes.antt =====
-- Command lines with pipes, bin/sbush/sbush.c: counting and splitting at `|`, what is run, and the codes
-- of the built-in commands. Strings are the bytes before their final zero. `fresh i` stands for the new
-- blocks of the parse of command `i`.
pub mod Split
pub mod Codes
mod Tests
use sbuoperating_system.Prelude.{
  is_empty, ℕ, zero, suc, ◌+◌, ◌%◌, ◌^◌, Bool, true, false, ◌&&◌, not, List, [], ◌∷◌, Option, none,
  some, ltb, ◌==◌, if◌then◌else◌,
}
use sbuoperating_system.Libc.Strings.Scans.{find_char}
use sbuoperating_system.Libc.Environ.{same_text}
use sbuoperating_system.Shell.Parser.{CommandArgument, Result, ok, overrun, ◌>>=◌, parse_input}

count_loop : List ℕ → ℕ → ℕ
count_loop [] count = count
count_loop (ch ∷ input) count =
    count_loop input (if ch == b'|' then (count + 1) % 2 ^ 32 else count)

pub count_number_of_pipes : List ℕ → ℕ
unfolding count_loop
count_number_of_pipes input = count_loop input 0

-- `next = strchr(prev, '|')` with the zero that is written there: the text before it and the text behind.
-- The search ends at a newline, as that of `strchr` does.
unfoldable pub cut_at_pipe : List ℕ → Option (List ℕ × List ℕ)
cut_at_pipe [] = none
cut_at_pipe (ch ∷ prev) =
    let rest : Option (List ℕ × List ℕ) = elim (cut_at_pipe prev) [
      | none ↦ none
      | some (text, behind) ↦ some (ch ∷ text, behind)
    ] in
    if ch == b'\n' then none else if ch == b'|' then some ([], prev) else rest

-- Without a `|` the pointer moves on to one behind NULL, which no further round can read.
abbrev pub lost : ℕ → Result (List CommandArgument)
lost zero = ok []
lost (suc k) = overrun

-- The loop with `k` rounds left, from round `i` on.
pub parse_pipe_command : (ℕ → ℕ → List ℕ) → ℕ → ℕ → List ℕ → Result (List CommandArgument)
parse_pipe_command fresh zero i prev = ok []
parse_pipe_command fresh (suc k) i prev = elim (cut_at_pipe prev) [
  | none ↦ (do c ← parse_input (fresh i) prev b' '; cs ← lost k; ok (c ∷ cs))
  | some (text, behind) ↦ (do
    c ← parse_input (fresh i) text b' '
    cs ← parse_pipe_command fresh k (i + 1) behind
    ok (c ∷ cs))
]

-- The rounds of `for (int i = 0 ; i <= numOfPipes; i++)`.
abbrev pub rounds_to : ℕ → ℕ
rounds_to n = if ltb n (2 ^ 31) then n + 1 else 0

pub is_validate_parsed_pipe_input : List CommandArgument → Bool
is_validate_parsed_pipe_input [] = true
is_validate_parsed_pipe_input (c ∷ cs) =
    not (is_empty c.command) && is_validate_parsed_pipe_input cs

-- What a command line leads to: the processes of a pipe, the message on its syntax, or one command.
pub data Action : Type 0 where
  run_piping : List CommandArgument → Action
  invalid_pipe : Action
  execute_command : CommandArgument → Action

abbrev pub piped : List CommandArgument → Action
piped cs = if is_validate_parsed_pipe_input cs then run_piping cs else invalid_pipe

unfoldable pub parse_and_execute_command : (ℕ → ℕ → List ℕ) → List ℕ → Result Action
parse_and_execute_command fresh input = elim (find_char b'|' input) [
  | none ↦ (do c ← parse_input (fresh 0) input b' '; ok (execute_command c))
  | some p ↦ (do
    cs ← parse_pipe_command fresh (rounds_to (count_number_of_pipes input)) 0 input
    ok (piped cs))
]

-- `cd`, `pwd`, `export` and `echo`, and 5 for a command with an `=`.
unfoldable pub get_built_in_code : CommandArgument → ℕ
get_built_in_code c =
    if same_text (b'c' ∷ b'd' ∷ []) c.command
    then 1
    else if same_text (b'p' ∷ b'w' ∷ b'd' ∷ []) c.command
    then 2
    else if same_text (b'e' ∷ b'x' ∷ b'p' ∷ b'o' ∷ b'r' ∷ b't' ∷ []) c.command
    then 3
    else if same_text (b'e' ∷ b'c' ∷ b'h' ∷ b'o' ∷ []) c.command
    then 4
    else elim (find_char b'=' c.command) [ none ↦ 0 | some p ↦ 5 ]
