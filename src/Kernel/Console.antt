-- ===== src/Kernel/Console.antt =====
-- The text screen at 0xb8000, sys/kprintf.c: the memory, the cursor and scrolling.
pub mod Cells
pub mod Scroll
use sbuoperating_system.Prelude.{
  ℕ, zero, suc, ◌+◌, ◌-◌, ◌*◌, ◌/◌, ◌%◌, ◌^◌, Bool, true, false, List, [], ◌∷◌, ltb, ◌==◌,
  if◌then◌else◌,
}
pub use sbuoperating_system.Memory.{Memory, poke}

abbrev pub base_addr : ℕ
base_addr = 0xb8000

abbrev pub max_screen_width : ℕ
max_screen_width = 160

abbrev pub max_screen_height : ℕ
max_screen_height = 24

-- The addresses that sys/main.c fixes on the status row behind the 24 rows of text.
abbrev pub time_address : ℕ
time_address = base_addr + (160 * 24 + 120)

abbrev pub keypress_banner : ℕ
keypress_banner = base_addr + (160 * 24 + 0)

abbrev pub ctrl_keypress_address : ℕ
ctrl_keypress_address = base_addr + (160 * 24 + 21)

abbrev pub keypress_address : ℕ
keypress_address = base_addr + (160 * 24 + 23)

-- `current_height` and `current_width` with the memory.
pub record Console : Type 0 where
  pub current_height : ℕ
  pub current_width : ℕ
  pub memory : Memory

-- The inner loop of the scrolling, with `k` columns left.
scroll_columns : ℕ → ℕ → ℕ → Memory → Memory
scroll_columns zero i j mem = mem
scroll_columns (suc k) i j mem = scroll_columns k i (j + 1) (
    poke (base_addr + (i * max_screen_width + j))
      (mem (base_addr + ((i + 1) * max_screen_width + j))) mem)

scroll_rows : ℕ → ℕ → Memory → Memory
scroll_rows zero i mem = mem
scroll_rows (suc k) i mem = scroll_rows k (i + 1) (scroll_columns max_screen_width i 0 mem)

-- The loop that blanks the last row of text, with `k` rounds left.
blank_from : ℕ → ℕ → Memory → Memory
blank_from zero index mem = mem
blank_from (suc k) index mem = blank_from k (index + 1) (
    if index % 2 == 0
    then poke (base_addr + (23 * max_screen_width + index + 1)) 0x07
        (poke (base_addr + (23 * max_screen_width + index)) 0 mem)
    else mem)

pub scroll : Console → Console
scroll c = record {
  current_height = 23;
  current_width = 0;
  memory = blank_from max_screen_width 0 (scroll_rows (max_screen_height - 1) 0 c.memory);
}

-- The address of the cursor, and the console, scrolled if the cursor stands below the text.
unfoldable pub get_current_address : Console → ℕ × Console
get_current_address c =
    let c = if ltb 23 c.current_height then scroll c else c in
    (base_addr + (c.current_height * max_screen_width + c.current_width), c)

unfoldable pub update_height_width : ℕ → Console → Console
update_height_width curr_addr c =
    let value = (curr_addr + 2 ^ 64 - base_addr) % 2 ^ 64 in
    record c { current_height = value / max_screen_width; current_width = value % max_screen_width }

-- `*currAddr++ = ch; *currAddr++ = 0x07;`
abbrev pub put_cell : ℕ → ℕ → Memory → Memory
put_cell addr ch mem = poke (addr + 1) 0x07 (poke addr ch mem)

-- The cells of a text one behind the other, and the address behind the last.
unfoldable pub write_cells : List ℕ → ℕ → Memory → ℕ × Memory
write_cells [] addr mem = (addr, mem)
write_cells (ch ∷ text) addr mem = write_cells text (addr + 2) (put_cell addr ch mem)

-- A handler's last step: the cursor follows the address that it has reached.
abbrev pub finish_at : ℕ × Memory → Console → Console
finish_at r c = update_height_width r.0 (record c { memory = r.1 })
