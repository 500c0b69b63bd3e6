-- ===== src/Kernel/Keyboard.antt =====
-- The keyboard interrupt, sys/ps2Controller.c.
pub mod Display
mod Tests
use sbuoperating_system.Prelude.{
  ℕ, ◌+◌, ◌-◌, ◌%◌, ◌^◌, Bool, true, false, not, ◌&&◌, ◌||◌, List, [], ◌∷◌, Option, get_or, leb,
  ◌==◌, if◌then◌else◌,
}
use sbuoperating_system.Kernel.Ports.{Log, Device, inportb, outportb}
use sbuoperating_system.Kernel.Idt.{Table, set_ir_in_idt}
use sbuoperating_system.Kernel.Console.{Memory, poke, ctrl_keypress_address, keypress_address}

-- `map`, from scan codes to characters.
abbrev pub key_map : List ℕ
key_map =
    0 ∷ 0 ∷ b'1' ∷ b'2' ∷ b'3' ∷ b'4' ∷ b'5' ∷ b'6' ∷ b'7' ∷ b'8' ∷ b'9' ∷ b'0' ∷ b'-' ∷ b'=' ∷ 8
    ∷ 9 ∷ b'q' ∷ b'w' ∷ b'e' ∷ b'r' ∷ b't' ∷ b'y' ∷ b'u' ∷ b'i' ∷ b'0' ∷ b'p' ∷ b'[' ∷ b']' ∷ 13 ∷ 0
    ∷ b'a' ∷ b's' ∷ b'd' ∷ b'f' ∷ b'g' ∷ b'h' ∷ b'j' ∷ b'k' ∷ b'l' ∷ b';' ∷ 39 ∷ 0 ∷ 0 ∷ 92 ∷ b'z'
    ∷ b'x' ∷ b'c' ∷ b'v' ∷ b'b' ∷ b'n' ∷ b'm' ∷ b',' ∷ b'.' ∷ b'/' ∷ 0 ∷ b'*' ∷ 0 ∷ b' ' ∷ 0 ∷ 112
    ∷ 113 ∷ 114 ∷ 115 ∷ 116 ∷ 117 ∷ 118 ∷ 119 ∷ 120 ∷ 121 ∷ 0 ∷ 0 ∷ b'7' ∷ b'8' ∷ b'9' ∷ b'-' ∷ b'4'
    ∷ b'5' ∷ b'6' ∷ b'+' ∷ b'1' ∷ b'2' ∷ b'3' ∷ b'0' ∷ b'.' ∷ 0 ∷ 0 ∷ 0 ∷ 122 ∷ 123 ∷ []

-- `map[key]`
unfoldable pub key_char : ℕ → ℕ
key_char key = get_or key_map key 0

-- `uppercase` and `ctrlKey`, with the memory that the handler writes.
pub record Keyboard : Type 0 where
  pub uppercase : Bool
  pub ctrl_key : Bool
  pub memory : Memory

abbrev pub is_lower : ℕ → Bool
is_lower ch = leb 97 ch && leb ch 122

-- A character and the attribute behind it.
abbrev pub show : ℕ → ℕ → Memory → Memory
show address ch mem = poke (address + 2) 0x07 (poke (address + 1) ch mem)

-- The statements of the `default` case, one after the other.
clear_ctrl : Keyboard → Memory → Memory
clear_ctrl k mem = if not k.ctrl_key then show ctrl_keypress_address 0 mem else mem

show_key : Keyboard → ℕ → Memory → Memory
show_key k key mem =
    let ch = key_char key in
    if leb key 88 && not (ch == 0)
    then (let mem = if k.ctrl_key then show ctrl_keypress_address b'^' mem else mem in
        show keypress_address (if k.uppercase && is_lower ch then ch - 32 else ch) mem)
    else mem

raise_shown : Keyboard → Memory → Memory
raise_shown k mem =
    let shown = mem (keypress_address + 1) in
    if k.uppercase && is_lower shown then show keypress_address (shown - 32) mem else mem

-- The switch on the scan code.
pub press : ℕ → Keyboard → Keyboard
press key k =
    if key == 0x2A || key == 0x36
    then record k { uppercase = true }
    else if key == 0xAA || key == 0xB6
    then record k { uppercase = false }
    else if key == 0x1D || key == 0xE0
    then record k { ctrl_key = true }
    else if key == 0x9D
    then record k { ctrl_key = false }
    else record k { memory = raise_shown k (show_key k key (clear_ctrl k k.memory)) }

unfoldable pub helper_keyboard_handler : Device → Keyboard → Log → Keyboard × Log
unfolding inportb outportb
helper_keyboard_handler device k log =
    let (ch, log) = inportb device 0x60 log in (press ch k, outportb 0x20 0x20 log)

-- `handler` is the address of `keyboard_interrupt_service_routine`.
unfoldable pub init_ps2_controller : ℕ → Table → Option Table
unfolding set_ir_in_idt
init_ps2_controller handler table = set_ir_in_idt 33 handler table
