-- ===== src/Shell/Parser.antt =====
-- The command parser, bin/sbush/parser.c. Strings are the bytes before their final zero. A write behind
-- a buffer or behind the array of arguments is `overrun`. The blocks from `malloc` are apart from each
-- other; `fresh i` is the string that the block of argument `i` holds before its first write.
pub mod Trim
pub mod Steps
pub mod Words
pub mod Limit
mod Tests
use sbuoperating_system.Prelude.{
  is_empty, ℕ, zero, suc, ◌+◌, ◌-◌, Bool, true, false, not, ◌&&◌, ◌||◌, List, [], ◌∷◌, ◌++◌, Option,
  none, some, ltb, ◌==◌, if◌then◌else◌, length,
}
use mathlib.Core.List.{reverse}

abbrev pub max_arguments : ℕ
max_arguments = 20

abbrev pub argument_length : ℕ
argument_length = 20

abbrev pub command_length : ℕ
command_length = 20

abbrev pub input_length : ℕ
input_length = 500

-- `commandArgument`; the argument count is the length of the list.
pub record CommandArgument : Type 0 where
  pub trimmed_input : List ℕ
  pub command : List ℕ
  pub arguments : List (List ℕ)
  pub is_background : Bool

pub data Result {ℓ} (A : Type ℓ) : Type ℓ where
  ok : A → Result A
  too_many : Result A
  overrun : Result A

infixl 5 ◌>>=◌
abbrev pub ◌>>=◌ {ℓ κ} : {A : Type ℓ} {B : Type κ} → Result A → (A → Result B) → Result B
ok a >>= f = f a
too_many >>= f = too_many
overrun >>= f = overrun

-- The loop that moves `left_index`.
unfoldable pub skip_spaces : List ℕ → List ℕ
skip_spaces [] = []
skip_spaces (ch ∷ input) = let rest = skip_spaces input in if ch == b' ' then rest else ch ∷ input

-- The loop that moves `right_index`, over the bytes from the last one on, with the background flag.
unfoldable pub strip_end : List ℕ → Bool → List ℕ × Bool
strip_end [] background = ([], background)
strip_end (ch ∷ input) background =
    let rest = strip_end input (ch == b'&' || background) in
    if ch == b' ' || ch == b'\n' || ch == b'&' then rest else (ch ∷ input, background)

-- The trimmed input and the background flag. `trimmedInput[right_index + 2]` is written last and lies
-- behind every copied byte.
unfoldable pub trim : List ℕ → Result (List ℕ × Bool)
trim input =
    let rest = skip_spaces input in
    let (kept, background) = strip_end (reverse rest) false in
    let right_index_suc = length input - length rest + length kept in
    if ltb (right_index_suc + 1) input_length then ok (reverse kept, background) else overrun

-- The loop's variables: the arguments so far, the newest first, and `command_flag`.
pub record Parse : Type 0 where
  pub command : List ℕ
  pub arguments : List (List ℕ)
  pub command_flag : Bool

-- `*p = ch; *(p + 1) = '\0'` behind the text in a buffer of `size` bytes.
abbrev pub put_char : ℕ → List ℕ → ℕ → Result (List ℕ)
put_char size text ch = if ltb (length text + 1) size then ok (text ++ ch ∷ []) else overrun

module _ (fresh : ℕ → List ℕ) where
  -- What argument `i` reads as, where `text` is what has been written to it.
  abbrev pub current_text : ℕ → List ℕ → List ℕ
  current_text i [] = fresh i
  current_text i (ch ∷ text) = ch ∷ text

  -- `argument == NULL || strlen((*c_arg).arguments[count - 1]) != 0`
  abbrev pub starts_argument : List (List ℕ) → Bool
  starts_argument [] = true
  starts_argument (text ∷ args) = not (is_empty (current_text (length args) text))

  -- A separator: the limit, and a new argument unless the last one is empty.
  unfoldable pub open_argument : List (List ℕ) → Result (List (List ℕ))
  open_argument args =
      if ltb max_arguments (length args)
      then too_many
      else if starts_argument args
      then (if ltb (length args) max_arguments then ok ([] ∷ args) else overrun)
      else ok args

-- A byte with the flag down and no separator always finds an argument to go to.
unfoldable pub extend_argument : ℕ → List (List ℕ) → Result (List (List ℕ))
extend_argument ch [] = overrun
extend_argument ch (text ∷ args) = do text' ← put_char argument_length text ch; ok (text' ∷ args)

abbrev pub parse_start : Parse
parse_start = record { command = []; arguments = []; command_flag = true }

module _ (fresh : ℕ → List ℕ) where
  -- One round of the loop.
  unfoldable pub parse_char : ℕ → ℕ → Parse → Result Parse
  unfolding open_argument extend_argument
  parse_char separator ch p =
      if ch == separator
      then (do
        args ← open_argument fresh p.arguments
        ok (record p { arguments = args; command_flag = false }))
      else if p.command_flag
      then (do command ← put_char command_length p.command ch; ok (record p { command = command }))
      else do args ← extend_argument ch p.arguments; ok (record p { arguments = args })

  unfoldable pub parse_loop : ℕ → List ℕ → Parse → Result Parse
  parse_loop separator [] p = ok p
  parse_loop separator (ch ∷ input) p = do
    p' ← parse_char separator ch p
    parse_loop separator input p'

  -- The arguments as they read, from the last one on.
  unfoldable pub stored : List (List ℕ) → List (List ℕ)
  stored [] = []
  stored (text ∷ args) = current_text fresh (length args) text ∷ stored args

  unfoldable pub parse_input : List ℕ → ℕ → Result CommandArgument
  parse_input input_line separator = do
    (text, background) ← trim input_line
    p ← parse_loop separator text parse_start
    ok (record {
      trimmed_input = text;
      command = p.command;
      arguments = reverse (stored p.arguments);
      is_background = background;
    })
