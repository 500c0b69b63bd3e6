-- ===== src/Kernel/Kprintf/Lines.antt =====
-- Lines with addresses in them, typed character by character.
use native.Mathlib.Nat.{pow-suc, pow-zero}
use sbuoperating_system.Prelude.{
  ℕ, zero, suc, ◌+◌, ◌/◌, ◌%◌, ◌^◌, ◌<◌, ◌≤◌, ◌≡◌, ◌≢◌, ◌⊎◌, inl, inr, refl, sym, ap, ◌∙◌, false,
  List, [], ◌∷◌, ◌++◌, some, map, append-nil, ltb, ◌==◌, arith, length, length-append, All,
  Bool-cases,
}
use sbuoperating_system.Kernel.Kprintf.{Arg, number, digit_loop, hex_char, max_digits}
use sbuoperating_system.Kernel.Kprintf.Numerals.{IsNumeral, digit_loop-IsNumeral}
use sbuoperating_system.Kernel.Kprintf.Terminal.{Terminal, ready, write_at, type_char}
use sbuoperating_system.Kernel.Kprintf.Typing.{
  write_all, Prints, HasRoom, Types, done, plain, converted,
}
use sbuoperating_system.Kernel.Kprintf.Conversions.{address-Prints, zero-Prints}

abbrev pub type_all : List ℕ → Terminal → Terminal
type_all [] t = t
type_all (ch ∷ text) t = type_all text (type_char ch t)

pub type_all-append :
    (xs ys : List ℕ) (t : Terminal) → type_all (xs ++ ys) t ≡ type_all ys (type_all xs t)
type_all-append [] ys t = refl
type_all-append (x ∷ xs) ys t = type_all-append xs ys (type_char x t)

-- What `%p` shows of `n`: the digit 0, or a cell with a zero and the hexadecimal digits.
abbrev pub Shown : ℕ → List ℕ → Type 0
Shown n w =
    ((n ≡ 0) × (w ≡ b'0' ∷ []))
    ⊎ ((ds : List ℕ) × (n ≢ 0) × IsNumeral 16 n ds × (w ≡ 0 ∷ map hex_char ds))

-- The conversion `d` shows `w` for the argument, at least one cell and no newline.
pub record IsPiece (d : ℕ) (arg : Arg) (w : List ℕ) : Type 0 where
  pub prints : Prints d arg w
  pub some_cell : 0 < length w
  pub one_line : All (λ ch. ch ≢ b'\n') w

-- What `%p` shows of a word has at most 17 cells.
pub record IsAddress (n : ℕ) (w : List ℕ) : Type 0 where
  pub shown : Shown (n % 2 ^ 64) w
  pub short : length w ≤ 17
  pub piece : IsPiece b'p' (number n) w

digit_loop-length :
    (store : ℕ → ℕ) (j k num : ℕ) (stack out : List ℕ)
    → num < 16 ^ j
    → digit_loop 16 store k num stack ≡ some out
    → length out ≤ j + length stack
unfolding digit_loop
digit_loop-length store zero zero num stack out h e =
    let z : num ≡ 0 = omega (arith, pow-zero 16) in ground (arith, z)
digit_loop-length store zero (suc k) num stack out h e =
    let z : num ≡ 0 = omega (arith, pow-zero 16) in ground (arith, z)
digit_loop-length store (suc j) zero num stack out h e = ground arith
digit_loop-length store (suc j) (suc k) num stack out h e =
    let below : num / 16 < 16 ^ j = omega (arith, pow-suc 16 j) in
    let more = digit_loop-length store j k (num / 16) (store (num % 16) ∷ stack) out below in
    ground (arith, more)

hex_chars : (ds : List ℕ) → All (λ d. d < 16) ds → All (λ ch. ch ≢ b'\n') (map hex_char ds)
hex_chars [] h = tt
hex_chars (d ∷ ds) (h, all) = (λ e. ground (arith, e), hex_chars ds all)

pub text-IsAddress : (n : ℕ) → (w : List ℕ) × IsAddress n w
text-IsAddress n = elim (Bool-cases (n % 2 ^ 64 == 0)) [
  | inl z ↦
      let e : n % 2 ^ 64 ≡ 0 = ground (arith, z) in
      (
        b'0' ∷ [],
        record {
          shown = inl (e, refl);
          short = omega arith;
          piece = record {
            prints = zero-Prints n e;
            some_cell = omega arith;
            one_line = (λ e. cc, tt);
          };
        },
      )
  | inr other ↦
      let ne : n % 2 ^ 64 ≢ 0 = ground (arith, other) in
      let (ds, ran, num) =
        digit_loop-IsNumeral 16 hex_char max_digits (n % 2 ^ 64) [] (omega arith) (omega arith) in
      let whole : digit_loop 16 hex_char max_digits (n % 2 ^ 64) [] ≡ some (map hex_char ds) =
        ran ∙ ap some (append-nil _) in
      (
        0 ∷ map hex_char ds,
        record {
          shown = inr (ds, ne, num, refl);
          short = omega (
            arith,
            digit_loop-length hex_char 16 max_digits (n % 2 ^ 64) [] _ (omega arith) whole,
          );
          piece = record {
            prints = address-Prints n (map hex_char ds) ne whole;
            some_cell = omega arith;
            one_line = (λ e. cc, hex_chars ds num.digits);
          };
        },
      )
]

-- `Reads fmt args text`: a format with its arguments reads as the text.
pub data Reads : List ℕ → List Arg → List ℕ → Type 0 where
  end : {args : List Arg} → Reads [] args []
  char :
      {ch : ℕ} {fmt : List ℕ} {args : List Arg} {text : List ℕ}
      → ch ≢ b'%'
      → Reads fmt args text
      → Reads (ch ∷ fmt) args (ch ∷ text)
  conversion :
      {d : ℕ} {arg : Arg} {w : List ℕ} {fmt : List ℕ} {args : List Arg} {text text' : List ℕ}
      → IsPiece d arg w
      → Reads fmt args text
      → text' ≡ w ++ text
      → Reads (b'%' ∷ d ∷ fmt) (arg ∷ args) text'

ready-row : (t : Terminal) → (ready t).row ≤ 23
unfolding ready
ready-row t = ground arith

ready-column : (t : Terminal) → (ready t).column ≤ t.column
unfolding ready
ready-column t = ground arith

ready-same : (t : Terminal) → t.row ≤ 23 → ready t ≡ t
unfolding ready
ready-same t h = let off : ltb 23 t.row ≡ false = ground arith in rw off refl

type_char-write : (ch : ℕ) (t : Terminal) → ch ≢ b'\n' → t.row ≤ 23 → type_char ch t ≡ write_at t ch
unfolding type_char
type_char-write ch t ne h =
    let off : (ch == b'\n') ≡ false = ground (arith, ne) in rw (ready-same t h, off) refl

-- A text that ends on the row of the cursor is typed like its characters.
write_all-type_all :
    (w : List ℕ) (t : Terminal)
    → t.row ≤ 23
    → t.column + length w ≤ 80
    → All (λ ch. ch ≢ b'\n') w
    → write_all w t ≡ type_all w t
unfolding write_all
write_all-type_all [] t row fits lines = refl
write_all-type_all (ch ∷ []) t row fits (ne, tt) = sym (type_char-write ch t ne row)
write_all-type_all (ch ∷ x ∷ w) t row fits (ne, lines) =
    write_all-type_all (x ∷ w) (write_at t ch) (ground arith) (ground arith) lines
    ∙ ap (type_all (x ∷ w)) (sym (type_char-write ch t ne row))

type_all-ready : (w : List ℕ) (t : Terminal) → 0 < length w → type_all w (ready t) ≡ type_all w t
unfolding type_char
type_all-ready [] t h = elim h [ ]
type_all-ready (ch ∷ w) t h = rw (ready-same (ready t) (ready-row t)) refl

type_char-column :
    (ch n : ℕ) (t : Terminal) → t.column + suc n ≤ 80 → (type_char ch t).column + n ≤ 80
unfolding type_char ready
type_char-column ch n t h = ground arith

type_all-column :
    (w : List ℕ) (n : ℕ) (t : Terminal)
    → t.column + (length w + n) ≤ 80
    → (type_all w t).column + n ≤ 80
type_all-column [] n t h = omega arith
type_all-column (ch ∷ w) n t h =
    type_all-column w n (type_char ch t) (type_char-column ch (length w + n) t (omega arith))

-- A format whose text ends on the row of the cursor types its text.
pub Reads-Types :
    {fmt : List ℕ} {args : List Arg} {text : List ℕ} (t : Terminal)
    → Reads fmt args text
    → t.column + length text ≤ 80
    → Types fmt args t (type_all text t)
Reads-Types t end h = done
Reads-Types t (char {ch = ch} {text = text} ne reads) h =
    plain ne (Reads-Types (type_char ch t) reads (type_char-column ch (length text) t h))
Reads-Types t (conversion {w = w} {text = text} {text' = text'} a reads e) h =
    let size : length (w ++ text) ≡ length w + length text = length-append w text in
    let all : type_all w (ready t) ≡ type_all w t = type_all-ready w t a.some_cell in
    let written : write_all w (ready t) ≡ type_all w t =
      write_all-type_all w (ready t) (ready-row t)
        (omega (arith, ap length e, size, ready-column t)) a.one_line
      ∙ all in
    let room : HasRoom (ready t) w =
      omega (arith, ap length e, size, ready-column t, ready-row t) in
    let later =
      Reads-Types (type_all w t) reads
        (type_all-column w (length text) t (omega (arith, ap length e, size))) in
    let same : type_all text' t ≡ type_all text (type_all w t) =
      ap (λ x. type_all x t) e ∙ type_all-append w text t in
    rw same (converted w a.prints room (rw written later))
