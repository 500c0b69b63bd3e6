-- ===== src/Kernel/Kprintf.antt =====
-- `kprintf` and its handlers, sys/kprintf.c. A fault of the source is `none`: a conversion without an
-- argument of its type, a format that ends in `%`, and a number that overruns the array of digits.
pub mod Numerals
pub mod Handlers
pub mod Confined
pub mod Total
pub mod Clock
pub mod Terminal
pub mod Typing
pub mod Conversions
pub mod Lines
mod Tests
use sbuoperating_system.Prelude.{
  ℕ, zero, suc, ◌+◌, ◌-◌, ◌*◌, ◌/◌, ◌%◌, ◌^◌, Bool, true, false, List, [], ◌∷◌, Option, none, some,
  map, ltb, leb, ◌==◌, if◌then◌else◌,
}
use sbuoperating_system.Kernel.Console.{
  Memory, Console, time_address, put_cell, write_cells, finish_at, get_current_address,
  update_height_width,
}

-- The loop `while (num > 0)` over an array of digits with `k` places left; the digits come out as a
-- stack, the last one first, in which order the second loop prints them.
unfoldable pub digit_loop : ℕ → (ℕ → ℕ) → ℕ → ℕ → List ℕ → Option (List ℕ)
digit_loop radix store zero num stack = if num == 0 then some stack else none
digit_loop radix store (suc k) num stack =
    let rest = digit_loop radix store k (num / radix) (store (num % radix) ∷ stack) in
    if num == 0 then some stack else rest

-- The size of `ch`.
abbrev pub max_digits : ℕ
max_digits = 100

abbrev pub decimal : ℕ → Option (List ℕ)
decimal num = digit_loop 10 (λ d. d) max_digits num []

-- `zeroHex + ch[i]`
abbrev pub digit_char : ℕ → ℕ
digit_char d = 0x30 + d

abbrev pub hex_char : ℕ → ℕ
hex_char rem = if ltb rem 10 then 48 + rem else 55 + rem

abbrev pub write_text : List ℕ → ℕ → Console → Console
write_text text addr c = finish_at (write_cells text addr c.memory) c

unfoldable pub handle_char : ℕ → ℕ → Console → Console
handle_char ch addr c = finish_at (addr + 2, put_cell addr ch c.memory) c

unfoldable pub handle_new_line : Console → Console
handle_new_line c =
    let (_, c) =
      get_current_address (record c { current_height = c.current_height + 1; current_width = 0 }) in
    c

unfoldable pub handle_everything_else : ℕ → ℕ → Console → Console
unfolding handle_new_line
handle_everything_else fmt addr c =
    if fmt == b'\n' then handle_new_line c else finish_at (addr + 2, put_cell addr fmt c.memory) c

-- The string up to its final zero.
unfoldable pub handle_string : List ℕ → ℕ → Console → Console
handle_string str addr c = write_text str addr c

-- The int is its bit pattern. The product with -1 wraps at the least int, which stays negative, and
-- the loop `while (num > 0)` is then not entered.
unfoldable pub handle_signed_int : ℕ → ℕ → Console → Option Console
handle_signed_int arg addr c =
    if arg == 0
    then some (write_text (b'0' ∷ []) addr c)
    else let negative = leb (2 ^ 31) arg in
      let num = if negative then (2 ^ 32 - arg) % 2 ^ 32 else arg in
      let sign : List ℕ = if negative then b'-' ∷ [] else [] in
      let (addr, mem) = write_cells sign addr c.memory in
      elim (decimal (if ltb num (2 ^ 31) then num else 0)) [
        | none ↦ none
        | some ds ↦ some (finish_at (write_cells (map digit_char ds) addr mem) c)
      ]

-- The second loop starts at `j = i`, one place behind the last digit, where the array holds 0.
unfoldable pub handle_address : ℕ → ℕ → Console → Option Console
handle_address num addr c =
    if num == 0
    then some (write_text (b'0' ∷ []) addr c)
    else elim (digit_loop 16 hex_char max_digits num []) [
      | none ↦ none
      | some ch ↦ some (write_text (0 ∷ ch) addr c)
    ]

unfoldable pub handle_unsigned_int : ℕ → ℕ → Console → Option Console
handle_unsigned_int num addr c =
    if num == 0
    then some (write_text (b'0' ∷ []) addr c)
    else elim (decimal num) [ none ↦ none | some ds ↦ some (write_text (map digit_char ds) addr c) ]

-- `printTime`, which leaves the cursor alone.
unfoldable pub print_time : ℕ → Console → Option Console
print_time time c = elim (decimal (time % 2 ^ 32)) [
  | none ↦ none
  | some ds ↦
      let (addr, mem) = write_cells (map digit_char ds) time_address c.memory in
      some (record c { memory = put_cell addr b's' mem })
]

unfoldable pub print_keypress : ℕ → ℕ → Console → Console
print_keypress keypress address c = record c { memory = put_cell address keypress c.memory }

-- What `va_arg` can find.
pub data Arg : Type 0 where
  string : List ℕ → Arg
  number : ℕ → Arg

convert_string : List Arg → ℕ → Console → Option (List Arg × Console)
unfolding handle_string
convert_string (string s ∷ args) addr c = some (args, handle_string s addr c)
convert_string _ addr c = none

convert_number :
    (ℕ → ℕ → Console → Option Console) → List Arg → ℕ → Console → Option (List Arg × Console)
convert_number handle (number n ∷ args) addr c = elim (handle n addr c) [
  | none ↦ none
  | some c' ↦ some (args, c')
]
convert_number handle _ addr c = none

-- The conversion `ch` on the arguments that are left.
pub convert : ℕ → List Arg → Console → Option (List Arg × Console)
unfolding convert_string convert_number
convert ch args c =
    let (addr, c') = get_current_address c in
    if ch == b's'
    then convert_string args addr c'
    else if ch == b'd'
    then convert_number (λ n. handle_signed_int (n % 2 ^ 32)) args addr c'
    else if ch == b'x'
    then convert_number (λ n. handle_unsigned_int (n % 2 ^ 32)) args addr c'
    else if ch == b'c'
    then convert_number (λ n addr c. some (handle_char (n % 2 ^ 8) addr c)) args addr c'
    else if ch == b'p'
    then convert_number (λ n. handle_address (n % 2 ^ 64)) args addr c'
    else some (args, c)

-- The format is the bytes before its final zero. Any other letter behind `%` is skipped with it.
unfoldable pub kprintf : List ℕ → List Arg → Console → Option Console
unfolding convert
kprintf [] args c = some c
kprintf (ch ∷ []) args c =
    let (addr, c') = get_current_address c in
    if ch == b'%' then none else some (handle_everything_else ch addr c')
kprintf (ch ∷ d ∷ fmt) args c =
    let (addr, c') = get_current_address c in
    let plain = kprintf (d ∷ fmt) args (handle_everything_else ch addr c') in
    let converted : Option Console = elim (convert d args c) [
      | none ↦ none
      | some (args', c'') ↦ kprintf fmt args' c''
    ] in
    if ch == b'%' then converted else plain
