-- ===== src/Kernel/Kprintf/Conversions.antt =====
-- The texts that the conversions print.
use sbuoperating_system.Prelude.{
  ℕ, ◌+◌, ◌*◌, get_elem?, ◌%◌, ◌^◌, ◌<◌, ◌≡◌, ◌≢◌, refl, false, List, [], ◌∷◌, ◌++◌, Option, some,
  map, ◌==◌, arith,
}
use sbuoperating_system.Kernel.Console.{
  Console, write_cells, get_current_address, update_height_width, base_addr,
}
use sbuoperating_system.Kernel.Console.Cells.{write_cells-append, write_cells-cell}
use sbuoperating_system.Kernel.Kprintf.{
  Arg, write_text, string, number, handle_string, handle_char, handle_unsigned_int,
  handle_signed_int, handle_address, decimal, digit_char, hex_char, digit_loop, max_digits, convert,
  convert_string, convert_number, kprintf,
}
use sbuoperating_system.Kernel.Kprintf.Handlers.{sign_text, magnitude, loop_start}
use sbuoperating_system.Kernel.Kprintf.Typing.{Prints, place}
use sbuoperating_system.Kernel.Kprintf.Terminal.{Terminal, ready, Shows, ready-IsReady}

handle_unsigned-digits :
    (num : ℕ) (ds : List ℕ) (addr : ℕ) (c : Console)
    → num ≢ 0
    → decimal num ≡ some ds
    → handle_unsigned_int num addr c ≡ some (write_text (map digit_char ds) addr c)
unfolding handle_unsigned_int
handle_unsigned-digits num ds addr c ne e =
    let off : (num == 0) ≡ false = ground (arith, ne) in rw (off, e) refl

handle_signed-digits :
    (num : ℕ) (ds : List ℕ) (addr : ℕ) (c : Console)
    → num < 2 ^ 32
    → num ≢ 0
    → num ≢ 2 ^ 31
    → decimal (magnitude num) ≡ some ds
    → handle_signed_int num addr c ≡ some (write_text (sign_text num ++ map digit_char ds) addr c)
unfolding handle_signed_int
handle_signed-digits num ds addr c small ne least e =
    let off : (num == 0) ≡ false = ground (arith, ne) in
    rw
      (
        off,
        loop_start num small least,
        e,
        write_cells-append (sign_text num) (map digit_char ds) addr c.memory,
      )
      refl

handle_address-digits :
    (num : ℕ) (ds : List ℕ) (addr : ℕ) (c : Console)
    → num ≢ 0
    → digit_loop 16 hex_char max_digits num [] ≡ some ds
    → handle_address num addr c ≡ some (write_text (0 ∷ ds) addr c)
unfolding handle_address
handle_address-digits num ds addr c ne e =
    let off : (num == 0) ≡ false = ground (arith, ne) in rw (off, e) refl

converted-number :
    (handle : ℕ → ℕ → Console → Option Console) (n addr : ℕ) (args : List Arg) (c c' : Console)
    → handle n addr c ≡ some c'
    → convert_number handle (number n ∷ args) addr c ≡ some (args, c')
unfolding convert_number
converted-number handle n addr args c c' e = rw (convert_number, e) refl

pub string-Prints : (s : List ℕ) → Prints b's' (string s) s
unfolding convert convert_string handle_string
string-Prints s args c = refl

pub char-Prints : (n : ℕ) → Prints b'c' (number n) (n % 2 ^ 8 ∷ [])
unfolding convert convert_number handle_char write_cells
char-Prints n args c = refl

-- `%x` prints decimal digits.
pub unsigned-Prints :
    (n : ℕ) (ds : List ℕ)
    → n % 2 ^ 32 ≢ 0
    → decimal (n % 2 ^ 32) ≡ some ds
    → Prints b'x' (number n) (map digit_char ds)
unfolding convert
unsigned-Prints n ds ne e args c =
    let (addr, at) = get_current_address c in
    converted-number (λ n. handle_unsigned_int (n % 2 ^ 32)) n addr args at _
      (handle_unsigned-digits (n % 2 ^ 32) ds addr at ne e)

pub signed-Prints :
    (n : ℕ) (ds : List ℕ)
    → n % 2 ^ 32 ≢ 0
    → n % 2 ^ 32 ≢ 2 ^ 31
    → decimal (magnitude (n % 2 ^ 32)) ≡ some ds
    → Prints b'd' (number n) (sign_text (n % 2 ^ 32) ++ map digit_char ds)
unfolding convert
signed-Prints n ds ne least e args c =
    let (addr, at) = get_current_address c in
    converted-number (λ n. handle_signed_int (n % 2 ^ 32)) n addr args at _
      (handle_signed-digits (n % 2 ^ 32) ds addr at (omega arith) ne least e)

-- `%p` prints one cell with a zero in front of the digits.
pub address-Prints :
    (n : ℕ) (ds : List ℕ)
    → n % 2 ^ 64 ≢ 0
    → digit_loop 16 hex_char max_digits (n % 2 ^ 64) [] ≡ some ds
    → Prints b'p' (number n) (0 ∷ ds)
unfolding convert
address-Prints n ds ne e args c =
    let (addr, at) = get_current_address c in
    converted-number (λ n. handle_address (n % 2 ^ 64)) n addr args at _
      (handle_address-digits (n % 2 ^ 64) ds addr at ne e)

-- `%p` of 0.
pub zero-Prints : (n : ℕ) → n % 2 ^ 64 ≡ 0 → Prints b'p' (number n) (b'0' ∷ [])
unfolding convert
zero-Prints n e args c =
    let (addr, at) = get_current_address c in
    let none_left : handle_address (n % 2 ^ 64) addr at ≡ some (write_text (b'0' ∷ []) addr at) =
      rw e (unfold handle_address in refl) in
    converted-number (λ n. handle_address (n % 2 ^ 64)) n addr args at _ none_left

-- A string that has no room on the 24 rows goes on behind them: its character `i`, which is `j` cells behind
-- the last row as the cursor stands, replaces the cell `j` of the status row.
pub kprintf-overwrites :
    (s : List ℕ) (c : Console) (t : Terminal) (i j : ℕ) {ch : ℕ}
    → Shows c t
    → get_elem? s i ≡ some ch
    → place (ready t) + i ≡ 1920 + j
    → (d : Console) × (kprintf (b'%' ∷ b's' ∷ []) (string s ∷ []) c ≡ some d)
      × (d.memory (base_addr + (160 * 24 + 2 * j)) ≡ ch)
unfolding kprintf convert convert_string handle_string update_height_width
kprintf-overwrites s c t i j shows at behind =
    let (addr, c') = get_current_address c in
    let k = ready-IsReady c t shows in
    let cell : addr + 2 * i ≡ base_addr + (160 * 24 + 2 * j) = omega (arith, k.address, behind) in
    (write_text s addr c', refl, rw (← cell) (write_cells-cell s addr i _ c'.memory at).0)
