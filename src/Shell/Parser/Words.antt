-- ===== src/Shell/Parser/Words.antt =====
-- Parsing reads back the words of a command line.
use mathlib.Core.List.{reverse}
use sbuoperating_system.Prelude.{
  is_empty, ℕ, suc, ◌+◌, ◌<◌, ◌≤◌, ◌≡◌, ◌≢◌, refl, sym, ◌∙◌, Bool, true, false, not, List, [], ◌∷◌,
  ◌++◌, append-nil, append_assoc, ◌==◌, arith, length, replicate, All,
}
use sbuoperating_system.Shell.Parser.{
  stored, ok, input_length, max_arguments, Parse, parse_start, starts_argument, parse_loop,
  parse_input, argument_length,
}
use sbuoperating_system.Shell.Parser.Steps.{
  untouched, extra, blanks, length-blanks, starts_argument-nonempty, stored-word,
  parse_loop-command, parse_loop-argument, parse_loop_gap,
}
use sbuoperating_system.Shell.Parser.Trim.{
  is_tail, has_ampersand, StartsSolid, EndsSolid, trim-body,
}

-- The blank-separated words behind the command: each with the count of separators before it, less one.
abbrev pub Words : Type 0
Words = List (ℕ × List ℕ)

abbrev pub spread : ℕ → Words → List ℕ
spread separator [] = []
spread separator ((gap, word) ∷ ws) = replicate (suc gap) separator ++ (word ++ spread separator ws)

-- The arguments from the `i`-th on that the words are read as.
abbrev pub texts : (ℕ → List ℕ) → Bool → ℕ → Words → List (List ℕ)
texts fresh dirty i [] = []
texts fresh dirty i ((gap, word) ∷ ws) =
    untouched fresh i (extra dirty gap) ++ word ∷ texts fresh dirty (suc (i + extra dirty gap)) ws

abbrev pub count_texts : Bool → Words → ℕ
count_texts dirty [] = 0
count_texts dirty ((gap, word) ∷ ws) = extra dirty gap + 1 + count_texts dirty ws

-- A word that fits its buffer: not empty, without the separator, and shorter than 20 bytes.
abbrev pub IsWord : ℕ → List ℕ → Type 0
IsWord separator word =
    (word ≢ []) × All (λ ch. (ch == separator) ≡ false) word × (length word < argument_length)

abbrev pub AllWords : ℕ → Words → Type 0
AllWords separator [] = Unit
AllWords separator ((gap, word) ∷ ws) = IsWord separator word × AllWords separator ws

module _ (fresh : ℕ → List ℕ) (dirty : Bool) (new : (i : ℕ) → is_empty (fresh i) ≡ not dirty)
    (separator : ℕ) where
  -- The words behind the command become the arguments, in their order.
  parse_loop-spread :
      (ws : Words) (command : List ℕ) (args : List (List ℕ)) (flag : Bool)
      → AllWords separator ws
      → starts_argument fresh args ≡ true
      → length args + count_texts dirty ws ≤ 20
      → (p : Parse) × (parse_loop fresh separator
            (spread separator ws)
            (record { command = command; arguments = args; command_flag = flag })
          ≡ ok p)
        × (p.command ≡ command)
        × (reverse (stored fresh p.arguments)
            ≡ reverse (stored fresh args) ++ texts fresh dirty (length args) ws)
  parse_loop-spread [] command args flag h st few = (
    record { command = command; arguments = args; command_flag = flag },
    unfold parse_loop in refl,
    refl,
    sym (append-nil _),
  )
  parse_loop-spread ((gap, word) ∷ ws) command args flag ((ne, clean, short), h) st few =
      let opened = blanks (extra dirty gap) args in
      let size : length opened ≡ length args + extra dirty gap =
        length-blanks (extra dirty gap) args in
      let (p, ran, same, args') =
        parse_loop-spread ws command (word ∷ opened) false h
          (starts_argument-nonempty fresh word opened ne) (omega arith) in
      (
        p,
        parse_loop_gap fresh dirty new separator gap (word ++ spread separator ws) command args flag
              st (omega arith)
            ∙ parse_loop-argument fresh separator word (spread separator ws) [] command opened clean
                (omega arith)
            ∙ ran,
        same,
        args'
            ∙ rw (
              stored-word fresh (extra dirty gap) word args ne,
              size,
              append_assoc,
              append_assoc (untouched fresh (length args) (extra dirty gap)),
            ),
      )

  -- A line of a command and further words, separated by one or more separators, is read back
  -- exactly: `parseInput` finds the command, the words in their order, and the background flag of an
  -- `&` behind the line, whatever spaces stand before it and whatever spaces, newlines and `&`
  -- behind. New blocks are all empty or all not, and if they are not, each separator beyond one
  -- before a word adds an argument with the text of its block. No word is empty or has the separator
  -- in it or 20 bytes or more, there are at most 20 arguments, the line neither begins with a space
  -- nor ends in a space, a newline or an `&`, and with what stands before it it has fewer than 499
  -- bytes.
  pub parse_input-words :
      (n : ℕ) (command : List ℕ) (ws : Words) (tail : List ℕ)
      → let line = command ++ spread separator ws in
        IsWord separator command
        → AllWords separator ws
        → count_texts dirty ws ≤ max_arguments
        → StartsSolid line
        → EndsSolid line
        → All (λ ch. is_tail ch ≡ true) tail
        → n + length line + 1 < input_length
        → parse_input fresh (replicate n b' ' ++ (line ++ tail)) separator
          ≡ ok (record {
            trimmed_input = line;
            command = command;
            arguments = texts fresh dirty 0 ws;
            is_background = has_ampersand tail;
          })
  unfolding parse_input stored
  parse_input-words n command ws tail (ne, clean, short) h few st en al fits =
      let line = command ++ spread separator ws in
      let (p, ran, same, args) = parse_loop-spread ws command [] true h refl (omega arith) in
      let parsed : parse_loop fresh separator line parse_start ≡ ok p =
        parse_loop-command fresh separator command (spread separator ws) [] [] clean (omega arith)
        ∙ ran in
      rw (trim-body n line tail st en al fits, parsed, same, args)
