-- ===== src/Libc/Stdio.antt =====
-- Reading and writing of bytes: fgetc.c, fgets.c, gets.c, getchar.c, putchar.c, puts.c, print.c and fputs.c of
-- libc/. The system call `read` of one byte is a parameter on a state of the system; `write` is taken to
-- append to the output, since no caller here looks at its result.
pub mod Lines
pub mod Output
pub mod Gets
mod Tests
use sbuoperating_system.Prelude.{
  is_empty, ℕ, zero, suc, ◌+◌, ◌-◌, ◌%◌, ◌^◌, Bool, true, false, not, ◌&&◌, ◌||◌, List, [], ◌∷◌,
  ◌++◌, Option, none, some, length, ltb, ◌==◌, if◌then◌else◌,
}
use sbuoperating_system.Prelude.Int.{ℤ, pos, negsuc}
use sbuoperating_system.Libc.Strings.{rounds}

-- What `read(fd, &c, 1)` returns: 1, 0 or -1.
pub data Count : Type 0 where
  one_byte : Count
  no_byte : Count
  failed : Count

-- The count, and what the variable `c` holds afterwards.
abbrev pub Reading : Type 0
Reading = Count × ℕ

-- What `read` of several bytes leads to: -1, or the bytes read, with the system behind it.
pub data Block {ℓ} (S : Type ℓ) : Type ℓ where
  error : S → Block S
  block : List ℕ → S → Block S

-- A `char` as an `int`.
abbrev pub as_int : ℕ → ℤ
as_int c = if ltb c 128 then pos c else negsuc (255 - c)

abbrev pub eof : ℤ
eof = negsuc 0

abbrev pub is_eof : ℤ → Bool
is_eof (pos n) = false
is_eof (negsuc n) = n == 0

-- An `int` stored into a `char`.
abbrev pub to_byte : ℤ → ℕ
to_byte (pos n) = n % 2 ^ 8
to_byte (negsuc n) = 255 - n % 2 ^ 8

abbrev pub fgetc_result : Reading → ℤ
fgetc_result (no_byte, c) = eof
fgetc_result (one_byte, c) = as_int c
fgetc_result (failed, c) = as_int c

abbrev pub getchar_result : Reading → ℤ
getchar_result (failed, c) = negsuc 0
getchar_result (one_byte, c) = as_int c
getchar_result (no_byte, c) = as_int c

module _ {ℓ} {S : Type ℓ} (read : S → Reading × S) where
  pub fgetc : S → ℤ × S
  fgetc st = let (r, st) = read st in (fgetc_result r, st)

  pub getchar : S → ℤ × S
  getchar st = let (r, st) = read st in (getchar_result r, st)

  -- The loop with at most `k` rounds left: the bytes stored, and whether it ended at EOF.
  pub fgets_loop : ℕ → S → List ℕ × Bool × S
  unfolding fgetc
  fgets_loop zero st = ([], false, st)
  fgets_loop (suc k) st =
      let (c, st) = fgetc st in
      let (text, at_end, last) = fgets_loop k st in
      if is_eof c
      then ([], true, st)
      else if to_byte c == b'\n'
      then (to_byte c ∷ [], false, st)
      else (to_byte c ∷ text, at_end, last)

  -- The bytes in front of the zero that is stored, whether the result is the buffer and not NULL, and the
  -- state of the system.
  pub fgets : ℕ → S → List ℕ × Bool × S
  fgets size st =
      let (text, at_end, last) = fgets_loop (rounds size - 1) st in
      (text, not (is_empty text || at_end), last)

-- A comparison of an `int` with a character.
abbrev pub is_char : ℕ → ℤ → Bool
is_char ch (pos n) = n == ch
is_char ch (negsuc n) = false

abbrev pub line_length : ℕ
line_length = 1024

module _ {ℓ} {S : Type ℓ} (read : S → Reading × S) where
  -- The loop over blanks, on fuel.
  pub skip_blanks : ℕ → S → Option (ℤ × S)
  skip_blanks zero st = none
  skip_blanks (suc fuel) st =
      let (rd, st) = getchar read st in
      let rest = skip_blanks fuel st in
      if is_char b' ' rd || is_char b'\t' rd then rest else some (rd, st)

  -- The second loop with `k` bytes to store at most, the next of them `rd`.
  pub gets_loop : ℕ → ℤ → S → List ℕ × S
  gets_loop zero rd st = ([], st)
  gets_loop (suc k) rd st =
      let (next, st) = getchar read st in
      let (text, last) = gets_loop k next st in
      if is_char b'\n' next || is_eof next then (to_byte rd ∷ [], st) else (to_byte rd ∷ text, last)

  -- The bytes in front of the zero that is stored, and the result: NULL, or how far behind the start of
  -- the buffer `s` stands at the end.
  pub gets : ℕ → S → Option (List ℕ × Option ℕ × S)
  unfolding skip_blanks gets_loop
  gets fuel st = elim (skip_blanks fuel st) [
    | none ↦ none
    | some (rd, st) ↦
        let (text, last) = gets_loop line_length rd st in
        if is_char b'\n' rd then some ([], none, st) else some (text, some (length text), last)
  ]

-- The output, the newest byte last.
pub putchar : ℕ → List ℕ → ℕ × List ℕ
putchar c out = (c, out ++ (c % 2 ^ 8) ∷ [])

-- The loop of `puts`; the string is read byte by byte, and the result of `putchar` is compared.
pub puts : List ℕ → List ℕ → ℤ × List ℕ
unfolding putchar
puts [] out = let (r, out) = putchar b'\n' out in (if r == b'\n' then pos 0 else eof, out)
puts (ch ∷ s) out =
    let (r, out) = putchar ch out in
    let rest = puts s out in if not (r == ch) then (eof, out) else rest

pub print : List ℕ → List ℕ → List ℕ
unfolding putchar
print [] out = out
print (ch ∷ s) out = let rest = print s (putchar ch out).1 in if ch == b'\n' then out else rest

pub fputs : List ℕ → List ℕ → ℤ × List ℕ
fputs s out = (pos 0, out ++ s)
