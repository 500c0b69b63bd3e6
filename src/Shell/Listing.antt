-- ===== src/Shell/Listing.antt =====
-- printParsedCommand of bin/sbush/sbush.c, which is called only in a build with DEBUG.
use sbuoperating_system.Prelude.{
  ◌≡◌, refl, sym, ◌∙◌, ℕ, List, [], ◌∷◌, ◌++◌, append-nil, append_assoc, Option, none, some,
}
use sbuoperating_system.Memory.{codes}
use sbuoperating_system.Shell.Parser.{CommandArgument}
use sbuoperating_system.Shell.Process.{Calls, write, returned, Effect, ◌>>◌, done, custom_fputs}

print_arguments : List (List ℕ) → Effect
print_arguments [] = done tt
print_arguments (text ∷ args) = do
  custom_fputs (codes "Argument ")
  custom_fputs (codes " : ")
  custom_fputs text
  custom_fputs (codes "\n")
  print_arguments args

-- `none` is the NULL of a line with too many arguments.
print_parsed_command : Option CommandArgument → Effect
unfolding print_arguments
print_parsed_command none = do
  custom_fputs (codes "parsed command is NULL")
  custom_fputs (codes "\n")
print_parsed_command (some c) = do
  custom_fputs (codes "command : ")
  custom_fputs c.command
  custom_fputs (codes "\n")
  print_arguments c.arguments

-- What the calls have written, in the order of the calls.
abbrev written : Calls → List ℕ
written [] = []
written (write text ∷ log) = written log ++ text
written (call ∷ log) = written log

-- A line for each argument.
abbrev argument_lines : List (List ℕ) → List ℕ
argument_lines [] = []
argument_lines (text ∷ args) = codes "Argument  : " ++ (text ++ b'\n' ∷ argument_lines args)

print_arguments-lines :
    (args : List (List ℕ)) (log : Calls)
    → (log' : Calls) × (print_arguments args log ≡ returned tt log')
      × (written log' ≡ written log ++ argument_lines args)
unfolding print_arguments
print_arguments-lines [] log = (log, refl, sym (append-nil (written log)))
print_arguments-lines (text ∷ args) log =
    let (log', ran, lines) =
      print_arguments-lines args
        (write (codes "\n") ∷ write text ∷ write (codes " : ") ∷ write (codes "Argument ") ∷ log) in
    (log', ran, lines ∙ simp append_assoc)

-- The whole listing of a command is one line for the command and one for each argument, and the process goes
-- on behind it.
print_parsed_command-lines :
    (c : CommandArgument) (log : Calls)
    → (log' : Calls) × (print_parsed_command (some c) log ≡ returned tt log')
      × (written log'
          ≡ written log
            ++ (codes "command : " ++ (c.command ++ b'\n' ∷ argument_lines c.arguments)))
unfolding print_parsed_command
print_parsed_command-lines c log =
    let (log', ran, lines) =
      print_arguments-lines c.arguments
        (write (codes "\n") ∷ write c.command ∷ write (codes "command : ") ∷ log) in
    (log', ran, lines ∙ simp append_assoc)
