-- ===== src/Kernel/Kprintf/Tests.antt =====
-- The console at concrete inputs.
use sbuoperating_system.Prelude.{◌+◌, ◌*◌, ◌≡◌, refl, [], ◌∷◌, some, none, arith}
use sbuoperating_system.Kernel.Console.{Console, base_addr}
use sbuoperating_system.Kernel.Kprintf.Total.{Fits, numeric, textual, kprintf-Fits}
use sbuoperating_system.Kernel.Kprintf.Terminal.{Terminal, ready, type_char, Shows}
use sbuoperating_system.Kernel.Kprintf.Typing.{
  place, write_all, Types, plain, converted, done, kprintf-Types,
}
use sbuoperating_system.Kernel.Kprintf.Conversions.{
  signed-Prints, string-Prints, kprintf-overwrites,
}
use sbuoperating_system.Kernel.Kprintf.{
  number, string, decimal, kprintf, write_text, digit_loop, handle_unsigned_int, handle_address,
}
use sbuoperating_system.Kernel.Kprintf.Confined.{kprintf-confined, IsOnScreen, SameOutside}

abbrev screen : Console
screen = record { current_height = 3; current_width = 20; memory = λ a. 0 }

screen-IsOnScreen : IsOnScreen screen
screen-IsOnScreen = record {
  column = omega arith;
  even = refl;
  row = omega arith;
  below = omega arith;
}

-- `%x` of 255 is decimal, and `%p` of 255 has a zero byte in front.
unsigned_255 :
    handle_unsigned_int 255 base_addr screen
    ≡ some (write_text (50 ∷ 53 ∷ 53 ∷ []) base_addr screen)
unfolding handle_unsigned_int digit_loop
unsigned_255 = refl

address_255 :
    handle_address 255 base_addr screen ≡ some (write_text (0 ∷ 70 ∷ 70 ∷ []) base_addr screen)
unfolding handle_address digit_loop
address_255 = refl

-- A format that ends in `%` is read past its end.
percent_at_end : kprintf (b'%' ∷ []) [] screen ≡ none
unfolding kprintf
percent_at_end = refl

kprintf-confined_example :
    (d : Console) × (kprintf (b'o' ∷ b'k' ∷ b'\n' ∷ []) [] screen ≡ some d)
    × IsOnScreen d
    × SameOutside screen d
kprintf-confined_example =
    kprintf-confined (b'o' ∷ b'k' ∷ b'\n' ∷ []) [] screen
      (omega arith, (omega arith, (omega arith, tt))) screen-IsOnScreen

kprintf-Fits_example :
    (d : Console) × (kprintf
        (b'n' ∷ b'%' ∷ b'd' ∷ b'%' ∷ b's' ∷ [])
        (number 7 ∷ string (b'!' ∷ []) ∷ [])
        screen
      ≡ some d)
kprintf-Fits_example =
    kprintf-Fits (Fits.plain (omega arith) (numeric refl (textual Fits.done))) screen

-- The terminal of the screen: blank, with the cursor at row 3 and column 10.
abbrev blank : Terminal
blank = record { cells = λ r k. 0; row = 3; column = 10 }

screen-Shows : Shows screen blank
screen-Shows = record {
  height = refl;
  width = refl;
  on_row = omega arith;
  on_screen = omega arith;
  below = λ e. absurd (omega (arith, e));
  cells = λ r k p q. refl;
}

seven_digits : decimal 7 ≡ some (7 ∷ [])
unfolding digit_loop
seven_digits = refl

abbrev behind : Terminal
behind = write_all (b'!' ∷ []) (ready (write_all (b'7' ∷ []) (ready (type_char b'n' blank))))

seven_Types :
    Types (b'n' ∷ b'%' ∷ b'd' ∷ b'%' ∷ b's' ∷ []) (number 7 ∷ string (b'!' ∷ []) ∷ []) blank behind
unfolding ready type_char write_all
seven_Types = plain (omega arith) (
    converted (b'7' ∷ []) (signed-Prints 7 (7 ∷ []) (omega arith) (omega arith) seven_digits)
      (omega arith) (converted (b'!' ∷ []) (string-Prints (b'!' ∷ [])) (omega arith) done))

kprintf-Types_example :
    (d : Console) × (kprintf
        (b'n' ∷ b'%' ∷ b'd' ∷ b'%' ∷ b's' ∷ [])
        (number 7 ∷ string (b'!' ∷ []) ∷ [])
        screen
      ≡ some d)
    × Shows d behind
kprintf-Types_example = kprintf-Types screen seven_Types screen-Shows

-- A cursor at the last cell of the text, whose terminal is blank.
abbrev last_cell : Console
last_cell = record { current_height = 23; current_width = 158; memory = λ a. 0 }

abbrev last_place : Terminal
last_place = record { cells = λ r k. 0; row = 23; column = 79 }

last_cell-Shows : Shows last_cell last_place
last_cell-Shows = record {
  height = refl;
  width = refl;
  on_row = omega arith;
  on_screen = omega arith;
  below = λ e. absurd (omega (arith, e));
  cells = λ r k p q. refl;
}

last_ready : place (ready last_place) + 1 ≡ 1920 + 0
unfolding ready
last_ready = refl

kprintf-overwrites_example :
    (d : Console) × (kprintf (b'%' ∷ b's' ∷ []) (string (b'o' ∷ b'k' ∷ []) ∷ []) last_cell ≡ some d)
    × (d.memory (base_addr + (160 * 24 + 2 * 0)) ≡ b'k')
kprintf-overwrites_example =
    kprintf-overwrites (b'o' ∷ b'k' ∷ []) last_cell last_place 1 0 last_cell-Shows refl last_ready
