-- ===== src/Shell/Parser/Steps.antt =====
-- One word, and one gap between two words, through the loop of parseInput.
use mathlib.Core.List.{reverse, reverse-cons}
use sbuoperating_system.Prelude.{
  is_empty, ℕ, zero, suc, ◌+◌, ◌<◌, ◌≡◌, ◌≢◌, refl, sym, ◌∙◌, Bool, true, false, not, if◌then◌else◌,
  List, [], ◌∷◌, ◌++◌, append-nil, append_assoc, ltb, ◌==◌, arith, length, length-append, replicate,
  All, ==_refl,
}
use sbuoperating_system.Shell.Parser.{
  current_text, stored, open_argument, starts_argument, parse_char, parse_loop,
}

-- The texts of `k` arguments from the `i`-th on that nothing is written to.
abbrev pub untouched : (ℕ → List ℕ) → ℕ → ℕ → List (List ℕ)
untouched fresh i zero = []
untouched fresh i (suc k) = fresh i ∷ untouched fresh (suc i) k

-- A further separator opens an argument of its own exactly if new blocks are not empty.
abbrev pub extra : Bool → ℕ → ℕ
extra dirty gap = if dirty then gap else 0

module _ (fresh : ℕ → List ℕ) (separator : ℕ) where
  pub parse_loop-command :
      (word rest command : List ℕ) (args : List (List ℕ))
      → All (λ ch. (ch == separator) ≡ false) word
      → length command + length word < 20
      → parse_loop fresh separator
          (word ++ rest)
          (record { command = command; arguments = args; command_flag = true })
        ≡ parse_loop fresh separator rest
            (record { command = command ++ word; arguments = args; command_flag = true })
  unfolding parse_loop parse_char
  parse_loop-command [] rest command args h fits = rw append-nil
  parse_loop-command (ch ∷ word) rest command args h fits =
      let room : ltb (length command + 1) 20 ≡ true = ground arith in
      rw (h.0, room)
        (parse_loop-command word rest (command ++ ch ∷ []) args h.1
            (omega (arith, length-append command (ch ∷ [])))
          ∙ rw append_assoc)

  pub parse_loop-argument :
      (word rest cur command : List ℕ) (args : List (List ℕ))
      → All (λ ch. (ch == separator) ≡ false) word
      → length cur + length word < 20
      → parse_loop fresh separator
          (word ++ rest)
          (record { command = command; arguments = cur ∷ args; command_flag = false })
        ≡ parse_loop fresh separator rest
            (record { command = command; arguments = (cur ++ word) ∷ args; command_flag = false })
  unfolding parse_loop parse_char
  parse_loop-argument [] rest cur command args h fits = rw append-nil
  parse_loop-argument (ch ∷ word) rest cur command args h fits =
      let room : ltb (length cur + 1) 20 ≡ true = ground arith in
      rw (h.0, room)
        (parse_loop-argument word rest (cur ++ ch ∷ []) command args h.1
            (omega (arith, length-append cur (ch ∷ [])))
          ∙ rw append_assoc)

-- `k` arguments that nothing is written to, opened behind `args`.
abbrev pub blanks : ℕ → List (List ℕ) → List (List ℕ)
blanks zero args = args
blanks (suc k) args = blanks k ([] ∷ args)

pub length-blanks : (k : ℕ) (args : List (List ℕ)) → length (blanks k args) ≡ length args + k
length-blanks zero args = omega arith
length-blanks (suc k) args = omega (arith, length-blanks k ([] ∷ args))

pub starts_argument-nonempty :
    (fresh : ℕ → List ℕ) (word : List ℕ) (args : List (List ℕ))
    → word ≢ []
    → starts_argument fresh (word ∷ args) ≡ true
starts_argument-nonempty fresh [] args h = absurd (h refl)
starts_argument-nonempty fresh (ch ∷ word) args h = refl

stored-blanks :
    (fresh : ℕ → List ℕ) (k : ℕ) (args : List (List ℕ))
    → reverse (stored fresh (blanks k args))
      ≡ reverse (stored fresh args) ++ untouched fresh (length args) k
unfolding stored
stored-blanks fresh zero args = sym (append-nil _)
stored-blanks fresh (suc k) args =
    stored-blanks fresh k ([] ∷ args) ∙ rw (reverse-cons, append_assoc)

current_text-nonempty :
    (fresh : ℕ → List ℕ) (i : ℕ) (word : List ℕ) → word ≢ [] → current_text fresh i word ≡ word
current_text-nonempty fresh i [] h = absurd (h refl)
current_text-nonempty fresh i (ch ∷ word) h = refl

pub stored-word :
    (fresh : ℕ → List ℕ) (k : ℕ) (word : List ℕ) (args : List (List ℕ))
    → word ≢ []
    → reverse (stored fresh (word ∷ blanks k args))
      ≡ reverse (stored fresh args) ++ (untouched fresh (length args) k ++ word ∷ [])
unfolding stored
stored-word fresh k word args ne = rw (
  current_text-nonempty fresh (length (blanks k args)) word ne,
  reverse-cons,
  stored-blanks fresh k args,
  append_assoc,
)

module _ (fresh : ℕ → List ℕ) (separator : ℕ) where
  -- Behind the first separator of a gap each further one opens an argument if blocks are not empty.
  parse_loop_gap_rest :
      (dirty : Bool)
      → ((i : ℕ) → is_empty (fresh i) ≡ not dirty)
      → (gap : ℕ) (rest command : List ℕ) (args : List (List ℕ))
      → length args + extra dirty gap < 20
      → parse_loop fresh separator
          (replicate gap separator ++ rest)
          (record { command = command; arguments = [] ∷ args; command_flag = false })
        ≡ parse_loop fresh separator rest (record {
          command = command;
          arguments = [] ∷ blanks (extra dirty gap) args;
          command_flag = false;
        })
  unfolding parse_loop parse_char open_argument
  parse_loop_gap_rest true new zero rest command args h = refl
  parse_loop_gap_rest false new zero rest command args h = refl
  parse_loop_gap_rest true new (suc gap) rest command args h =
      let few : ltb 20 (suc (length args)) ≡ false = ground arith in
      let room : ltb (suc (length args)) 20 ≡ true = ground arith in
      rw (==_refl separator, few, new (length args), room)
        (parse_loop_gap_rest true new gap rest command ([] ∷ args) (omega arith))
  parse_loop_gap_rest false new (suc gap) rest command args h =
      let few : ltb 20 (suc (length args)) ≡ false = ground arith in
      rw (==_refl separator, few, new (length args))
        (parse_loop_gap_rest false new gap rest command args (omega arith))

module _ (fresh : ℕ → List ℕ) (dirty : Bool) (new : (i : ℕ) → is_empty (fresh i) ≡ not dirty)
    (separator : ℕ) where
  pub parse_loop_gap :
      (gap : ℕ) (rest command : List ℕ) (args : List (List ℕ)) (flag : Bool)
      → starts_argument fresh args ≡ true
      → length args + extra dirty gap < 20
      → parse_loop fresh separator
          (replicate (suc gap) separator ++ rest)
          (record { command = command; arguments = args; command_flag = flag })
        ≡ parse_loop fresh separator rest (record {
          command = command;
          arguments = [] ∷ blanks (extra dirty gap) args;
          command_flag = false;
        })
  unfolding parse_loop parse_char open_argument
  parse_loop_gap gap rest command args flag st h =
      let few : ltb 20 (length args) ≡ false = ground arith in
      let room : ltb (length args) 20 ≡ true = ground arith in
      rw (==_refl separator, few, st, room)
        (parse_loop_gap_rest fresh separator dirty new gap rest command args h)
