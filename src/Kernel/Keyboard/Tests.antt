-- ===== src/Kernel/Keyboard/Tests.antt =====
-- The keyboard at concrete scan codes.
use sbuoperating_system.Prelude.{◌+◌, ◌≡◌, ◌≢◌, refl, true, false, arith, if◌then◌else◌}
use sbuoperating_system.Kernel.Console.{keypress_address, ctrl_keypress_address}
use sbuoperating_system.Kernel.Keyboard.{
  Keyboard, key_char, press, clear_ctrl, show_key, raise_shown,
}
use sbuoperating_system.Kernel.Keyboard.Display.{press_shows, to_upper}

abbrev shifted : Keyboard
shifted = record { uppercase = true; ctrl_key = false; memory = λ a. b'a' }

-- The key of the letter o, 0x18, has the character 0.
letter_o : key_char 0x18 ≡ b'0'
unfolding key_char
letter_o = refl

letter_a : key_char 0x1E ≡ b'a'
unfolding key_char
letter_a = refl

-- The release of a key while shift is held turns the shown letter into upper case.
release_raises : (press 0x9E shifted).memory (keypress_address + 1) ≡ b'A'
unfolding press clear_ctrl show_key raise_shown key_char
release_raises = refl

a-ne-zero : key_char 0x1E ≢ 0
a-ne-zero = omega (arith, letter_a)

press_shows_example :
    ((press 0x1E shifted).memory (keypress_address + 1)
      ≡ (if shifted.uppercase then to_upper (key_char 0x1E) else key_char 0x1E))
    × ((press 0x1E shifted).memory (ctrl_keypress_address + 1)
        ≡ (if shifted.ctrl_key then b'^' else 0))
    × ((press 0x1E shifted).uppercase ≡ shifted.uppercase)
    × ((press 0x1E shifted).ctrl_key ≡ shifted.ctrl_key)
press_shows_example = press_shows 0x1E shifted refl (omega arith) a-ne-zero
