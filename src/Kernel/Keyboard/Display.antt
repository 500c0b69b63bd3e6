-- ===== src/Kernel/Keyboard/Display.antt =====
-- What the status row shows, and the shift state after any sequence of scan codes.
use sbuoperating_system.Prelude.{
  ℕ, ◌+◌, ◌-◌, ◌<◌, ◌≤◌, ◌≡◌, ◌≢◌, ◌⊎◌, refl, ap, ◌∙◌, Bool, true, false, ◌||◌, List, [], ◌∷◌, ◌==◌,
  if◌then◌else◌, arith,
}
use sbuoperating_system.Kernel.Console.{base_addr, Memory, ctrl_keypress_address, keypress_address}
use sbuoperating_system.Kernel.Keyboard.{
  Keyboard, key_char, is_lower, press, clear_ctrl, show_key, raise_shown,
}

-- The scan codes that only change a modifier.
abbrev pub is_modifier : ℕ → Bool
is_modifier key =
    key == 0x2A
    || key == 0x36
    || key == 0xAA
    || key == 0xB6
    || key == 0x1D
    || key == 0xE0
    || key == 0x9D

abbrev pub to_upper : ℕ → ℕ
to_upper ch = if is_lower ch then ch - 32 else ch

abbrev default_memory : ℕ → Keyboard → Memory
default_memory key k = raise_shown k (show_key k key (clear_ctrl k k.memory))

press-default :
    (key : ℕ) (k : Keyboard)
    → is_modifier key ≡ false
    → press key k ≡ record k { memory = default_memory key k }
unfolding press
press-default key k m = ground arith

default_memory-shows :
    (key : ℕ) (k : Keyboard)
    → key ≤ 88
    → key_char key ≢ 0
    → (default_memory key k (keypress_address + 1)
        ≡ (if k.uppercase then to_upper (key_char key) else key_char key))
      × (default_memory key k (ctrl_keypress_address + 1) ≡ (if k.ctrl_key then b'^' else 0))
unfolding clear_ctrl show_key raise_shown
default_memory-shows key k low shown = ground arith

default_memory-without :
    (key : ℕ) (k : Keyboard)
    → (88 < key) ⊎ (key_char key ≡ 0)
    → default_memory key k (keypress_address + 1) ≡ (
        if k.uppercase
        then to_upper (k.memory (keypress_address + 1))
        else k.memory (keypress_address + 1))
unfolding clear_ctrl show_key raise_shown
default_memory-without key k h = ground arith

default_memory-confined :
    (key : ℕ) (k : Keyboard) (a : ℕ)
    → (a < base_addr + 3840) ⊎ (base_addr + 4000 ≤ a)
    → default_memory key k a ≡ k.memory a
unfolding clear_ctrl show_key raise_shown
default_memory-confined key k a out = ground arith

-- A key changes no byte outside the status row.
pub press_confined :
    (key : ℕ) (k : Keyboard) (a : ℕ)
    → (a < base_addr + 3840) ⊎ (base_addr + 4000 ≤ a)
    → (press key k).memory a ≡ k.memory a
unfolding press
press_confined key k a out = ground (arith, default_memory-confined key k a out)

-- A scan code up to 88 that is no modifier and has a character shows that character, in upper case
-- if shift is held, and `^` beside it exactly if control is held; the modifiers stay.
pub press_shows :
    (key : ℕ) (k : Keyboard)
    → is_modifier key ≡ false
    → key ≤ 88
    → key_char key ≢ 0
    → ((press key k).memory (keypress_address + 1)
        ≡ (if k.uppercase then to_upper (key_char key) else key_char key))
      × ((press key k).memory (ctrl_keypress_address + 1) ≡ (if k.ctrl_key then b'^' else 0))
      × ((press key k).uppercase ≡ k.uppercase)
      × ((press key k).ctrl_key ≡ k.ctrl_key)
press_shows key k m low shown =
    let (ch, ctrl) = default_memory-shows key k low shown in
    rw (press-default key k m) (ch, ctrl, refl, refl)

-- While shift is held, a key without a character, such as a release, raises the letter that is shown;
-- otherwise it leaves the shown character.
pub press_without_character :
    (key : ℕ) (k : Keyboard)
    → is_modifier key ≡ false
    → (88 < key) ⊎ (key_char key ≡ 0)
    → (press key k).memory (keypress_address + 1) ≡ (
        if k.uppercase
        then to_upper (k.memory (keypress_address + 1))
        else k.memory (keypress_address + 1))
press_without_character key k m h = rw (press-default key k m) (default_memory-without key k h)

-- Shift is held exactly if the last shift code was a press.
abbrev pub shift_after : Bool → List ℕ → Bool
shift_after held [] = held
shift_after held (key ∷ keys) =
    shift_after
      (if key == 0x2A || key == 0x36
        then true
        else if key == 0xAA || key == 0xB6
        then false
        else held)
      keys

-- The keys of a list, one interrupt each.
unfoldable pub press_all : List ℕ → Keyboard → Keyboard
press_all [] k = k
press_all (key ∷ keys) k = press_all keys (press key k)

press-uppercase :
    (key : ℕ) (k : Keyboard)
    → (press key k).uppercase ≡ (
        if key == 0x2A || key == 0x36
        then true
        else if key == 0xAA || key == 0xB6
        then false
        else k.uppercase)
unfolding press
press-uppercase key k = ground arith

-- After any scan codes shift counts as held exactly if the last of the four shift codes among them is a
-- press, or if there is none and it was held before.
pub press_all-shift :
    (keys : List ℕ) (k : Keyboard) → (press_all keys k).uppercase ≡ shift_after k.uppercase keys
unfolding press_all
press_all-shift [] k = refl
press_all-shift (key ∷ keys) k =
    press_all-shift keys (press key k) ∙ ap (λ b. shift_after b keys) (press-uppercase key k)
