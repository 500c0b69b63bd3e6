-- ===== src/Shell/Pipes/Tests.antt =====
-- Concrete command lines with and without pipes.
use sbuoperating_system.Prelude.{ℕ, ◌≡◌, refl, false, List, [], ◌∷◌, none, arith}
use sbuoperating_system.Memory.{codes}
use sbuoperating_system.Shell.Parser.{CommandArgument, ok, ◌>>=◌}
use sbuoperating_system.Shell.Pipes.{
  piped, count_number_of_pipes, cut_at_pipe, parse_and_execute_command,
}
use sbuoperating_system.Shell.Pipes.Split.{join, parse_each, parse_and_execute-join}

abbrev fresh : ℕ → ℕ → List ℕ
fresh i j = []

abbrev cat : CommandArgument
cat = record {
  trimmed_input = codes "cat";
  command = codes "cat";
  arguments = [];
  is_background = false;
}

-- The search ends at a newline.
cut_at_newline : cut_at_pipe (codes "a\nb|c") ≡ none
unfolding cut_at_pipe
cut_at_newline = refl

parse_and_execute-join_example :
    (count_number_of_pipes (join (codes "ls ") (codes " c\n" ∷ [])) ≡ 1)
    × (parse_and_execute_command fresh (join (codes "ls ") (codes " c\n" ∷ []))
        ≡ (parse_each fresh 0 (codes "ls ") (codes " c\n" ∷ []) >>= (λ cs. ok (piped cs))))
parse_and_execute-join_example =
    parse_and_execute-join fresh (codes "ls ") (codes " c\n") []
      (((refl, refl), ((refl, refl), ((refl, refl), tt))), (refl, (refl, (refl, tt)))) (omega arith)
