-- ===== src/Shell/Parser/Tests.antt =====
-- The parser at concrete command lines.
use sbuoperating_system.Prelude.{false, ℕ, ◌≡◌, refl, true, List, [], ◌∷◌, ◌++◌, arith, replicate}
use sbuoperating_system.Shell.Parser.{
  stored, ok, overrun, skip_spaces, strip_end, trim, parse_char, parse_loop, parse_input,
}
use sbuoperating_system.Shell.Parser.Words.{Words, spread, parse_input-words}
use sbuoperating_system.Memory.{codes}

-- New blocks that are zero, and new blocks that begin with their own header.
abbrev clean : ℕ → List ℕ
clean i = []

abbrev header : ℕ → List ℕ
header i = 0x40 ∷ 2 ∷ []

abbrev ls_words : Words
ls_words = (0, codes "-l") ∷ (2, codes "/bin") ∷ []

parse_ls :
    parse_input clean (codes "  ls -l   /bin &\n") b' '
    ≡ ok (record {
      trimmed_input = codes "ls -l   /bin";
      command = codes "ls";
      arguments = codes "-l" ∷ codes "/bin" ∷ [];
      is_background = true;
    })
unfolding parse_input trim skip_spaces strip_end parse_loop parse_char stored
parse_ls = refl

-- On such blocks the two further spaces before the second argument become arguments.
parse_ls_header :
    parse_input header (codes "ls -l   /bin") b' '
    ≡ ok (record {
      trimmed_input = codes "ls -l   /bin";
      command = codes "ls";
      arguments = codes "-l" ∷ header 1 ∷ header 2 ∷ codes "/bin" ∷ [];
      is_background = false;
    })
unfolding parse_input trim skip_spaces strip_end parse_loop parse_char stored
parse_ls_header = refl

-- 21 arguments of one letter.
parse_overrun :
    parse_input clean (codes "a b b b b b b b b b b b b b b b b b b b b b") b' ' ≡ overrun
unfolding parse_input trim skip_spaces strip_end parse_loop parse_char stored
parse_overrun = refl

parse_input-words_example :
    parse_input header
      (replicate 2 b' ' ++ (codes "ls" ++ spread b' ' ls_words ++ codes " &\n"))
      b' '
    ≡ ok (record {
      trimmed_input = codes "ls" ++ spread b' ' ls_words;
      command = codes "ls";
      arguments = codes "-l" ∷ header 1 ∷ header 2 ∷ codes "/bin" ∷ [];
      is_background = true;
    })
parse_input-words_example =
    parse_input-words header true (λ i. refl) b' ' 2 (codes "ls") ls_words (codes " &\n")
      ((λ e. cc), (refl, (refl, tt)), omega arith)
      (
        ((λ e. cc), (refl, (refl, tt)), omega arith),
        (((λ e. cc), (refl, (refl, (refl, (refl, tt)))), omega arith), tt),
      )
      (omega arith) refl refl (refl, (refl, (refl, tt))) (omega arith)
