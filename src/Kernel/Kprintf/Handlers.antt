-- ===== src/Kernel/Kprintf/Handlers.antt =====
-- What each numeric conversion puts on the screen.
use sbuoperating_system.Prelude.{
  ℕ, ◌-◌, ◌%◌, ◌^◌, ◌<◌, ◌≡◌, ◌≢◌, ◌⊎◌, refl, List, [], ◌∷◌, ◌++◌, some, map, append-nil, ltb, leb,
  ◌==◌, if◌then◌else◌, arith, inl, inr, Bool-cases,
}
use sbuoperating_system.Kernel.Console.{Console, time_address, put_cell, write_cells}
use sbuoperating_system.Kernel.Console.Cells.{write_cells-append}
use sbuoperating_system.Kernel.Kprintf.{
  digit_loop, max_digits, digit_char, hex_char, write_text, handle_signed_int, handle_unsigned_int,
  handle_address, print_time,
}
use sbuoperating_system.Kernel.Kprintf.Numerals.{IsNumeral, decimal-IsNumeral, digit_loop-IsNumeral}

-- The text of a number is one `0` for zero, and its numeral otherwise.
pub data IsText (radix : ℕ) (char : ℕ → ℕ) (num : ℕ) : List ℕ → Type 0 where
  zero_text : num ≡ 0 → IsText radix char num (b'0' ∷ [])
  numeral_text :
      {ds : List ℕ} → 0 < num → IsNumeral radix num ds → IsText radix char num (map char ds)

-- For a number below 2 ^ 32, `%x` never overruns its array, and writes the decimal text of the
-- number.
pub handle_unsigned_decimal :
    (num addr : ℕ) (c : Console)
    → num < 2 ^ 32
    → (text : List ℕ) × (handle_unsigned_int num addr c ≡ some (write_text text addr c))
      × IsText 10 digit_char num text
unfolding handle_unsigned_int
handle_unsigned_decimal num addr c h = elim (Bool-cases (num == 0)) [
  | inl z ↦ (b'0' ∷ [], rw z, zero_text (ground arith))
  | inr nz ↦
      let (ds, ran, n) = decimal-IsNumeral num (omega arith) in
      (map digit_char ds, rw (nz, ran), numeral_text (ground arith) n)
]

-- For an address below 2 ^ 64, `%p` never overruns its array: a nonzero address is written as one
-- cell with a zero byte and the hexadecimal digits behind it, the address 0 as one `0`.
pub handle_address_hex :
    (num addr : ℕ) (c : Console)
    → num < 2 ^ 64
    → ((num ≡ 0) × (handle_address num addr c ≡ some (write_text (b'0' ∷ []) addr c)))
      ⊎ ((ds : List ℕ) × (handle_address num addr c
            ≡ some (write_text (0 ∷ map hex_char ds) addr c))
          × IsNumeral 16 num ds
          × (0 < num))
unfolding handle_address
handle_address_hex num addr c h = elim (Bool-cases (num == 0)) [
  | inl z ↦ inl (ground arith, rw z)
  | inr nz ↦
      let (ds, ran, n) =
        digit_loop-IsNumeral 16 hex_char max_digits num [] (omega arith) (omega arith) in
      inr (ds, rw (nz, ran, append-nil), n, ground arith)
]

-- The sign and magnitude of the int with bit pattern `w`.
abbrev pub sign_text : ℕ → List ℕ
sign_text w = if leb (2 ^ 31) w then b'-' ∷ [] else []

abbrev pub magnitude : ℕ → ℕ
magnitude w = if leb (2 ^ 31) w then 2 ^ 32 - w else w

-- The loop starts from the magnitude, unless that is 2 ^ 31.
pub loop_start :
    (w : ℕ)
    → w < 2 ^ 32
    → w ≢ 2 ^ 31
    → let num = if leb (2 ^ 31) w then (2 ^ 32 - w) % 2 ^ 32 else w in
      (if ltb num (2 ^ 31) then num else 0) ≡ magnitude w
loop_start w h ne = ground arith

-- For every 32-bit int but the least, `%d` never overruns its array, and writes the sign and the
-- decimal text of the magnitude.
pub handle_signed_decimal :
    (w addr : ℕ) (c : Console)
    → w < 2 ^ 32
    → w ≢ 2 ^ 31
    → (text : List ℕ) × (handle_signed_int w addr c
        ≡ some (write_text (sign_text w ++ text) addr c))
      × IsText 10 digit_char (magnitude w) text
unfolding handle_signed_int
handle_signed_decimal w addr c h ne = elim (Bool-cases (w == 0)) [
  | inl z ↦ let e : w ≡ 0 = ground arith in (b'0' ∷ [], rw e, zero_text (ground arith))
  | inr nz ↦
      let (ds, ran, n) = decimal-IsNumeral (magnitude w) (ground arith) in
      (
        map digit_char ds,
        rw (
          nz,
          loop_start w h ne,
          ran,
          write_cells-append (sign_text w) (map digit_char ds) addr c.memory,
        ),
        numeral_text (ground arith) n,
      )
]

-- At the least int `%d` writes the sign alone.
pub handle_signed_least :
    (addr : ℕ) (c : Console)
    → handle_signed_int (2 ^ 31) addr c ≡ some (write_text (b'-' ∷ []) addr c)
unfolding handle_signed_int digit_loop write_cells
handle_signed_least addr c = refl

-- `printTime` never overruns its array.
pub print_time-some : (time : ℕ) (c : Console) → (d : Console) × (print_time time c ≡ some d)
unfolding print_time
print_time-some time c =
    let (ds, ran, n) = decimal-IsNumeral (time % 2 ^ 32) (omega arith) in
    let r = write_cells (map digit_char ds) time_address c.memory in
    (record c { memory = put_cell r.0 b's' r.1 }, rw (ran, print_time))
