-- ===== src/Kernel/Kprintf/Terminal.antt =====
-- What kprintf shows: a terminal of 24 rows with 80 characters each, which wraps, starts
-- new lines and scrolls, and knows nothing of addresses.
use sbuoperating_system.Prelude.{
  ℕ, ◌+◌, ◌*◌, ◌%◌, ◌<◌, ◌≤◌, ◌≡◌, refl, true, false, ◌&&◌, ltb, ◌==◌, if◌then◌else◌, arith, inl,
  inr, Bool-cases,
}
use sbuoperating_system.Kernel.Console.{
  Console, base_addr, put_cell, finish_at, get_current_address, update_height_width, scroll,
}
use sbuoperating_system.Kernel.Console.Scroll.{scroll_lem}
use sbuoperating_system.Kernel.Kprintf.{handle_new_line, handle_everything_else}

-- The character at a row and a column, 0 for a blank, and the place of the next one.
pub record Terminal : Type 0 where
  pub cells : ℕ → ℕ → ℕ
  pub row : ℕ
  pub column : ℕ

-- Below the last row the text moves up, and the last row is blank.
unfoldable pub ready : Terminal → Terminal
ready t =
    if ltb 23 t.row
    then record { cells = λ r k. if ltb r 23 then t.cells (r + 1) k else 0; row = 23; column = 0 }
    else t

abbrev pub new_line : Terminal → Terminal
new_line t = ready (record t { row = t.row + 1; column = 0 })

abbrev pub write_at : Terminal → ℕ → Terminal
write_at t ch = record {
  cells = λ r k. if r == t.row && k == t.column then ch else t.cells r k;
  row = if t.column == 79 then t.row + 1 else t.row;
  column = if t.column == 79 then 0 else t.column + 1;
}

unfoldable pub type_char : ℕ → Terminal → Terminal
type_char ch t = let t = ready t in if ch == b'\n' then new_line t else write_at t ch

-- The memory of the screen has the characters in its even bytes, and the cursor is that of the terminal.
pub record Shows (c : Console) (t : Terminal) : Type 0 where
  pub height : c.current_height ≡ t.row
  pub width : c.current_width ≡ 2 * t.column
  pub on_row : t.column < 80
  pub on_screen : t.row ≤ 24
  pub below : t.row ≡ 24 → t.column ≡ 0
  pub cells : (r k : ℕ) → r < 24 → k < 80 → c.memory (base_addr + (160 * r + 2 * k)) ≡ t.cells r k

-- The screen is ready to be written to at the cursor.
pub record IsReady (r : ℕ × Console) (t : Terminal) : Type 0 where
  pub address : r.0 ≡ base_addr + (160 * t.row + 2 * t.column)
  pub shows : Shows r.1 t
  pub row : t.row ≤ 23

scrolled-cell :
    (c : Console) (r k : ℕ)
    → r < 24
    → k < 80
    → (scroll c).memory (base_addr + (160 * r + 2 * k))
      ≡ (if ltb r 23 then c.memory (base_addr + (160 * (r + 1) + 2 * k)) else 0)
scrolled-cell c r k p q =
    let a = base_addr + (160 * r + 2 * k) in
    let up : a + 160 ≡ base_addr + (160 * (r + 1) + 2 * k) = omega arith in
    let even : a % 2 ≡ 0 = omega arith in
    elim (Bool-cases (ltb r 23)) [
      | inl moved ↦ rw (moved, ← up) (ground (arith, (scroll_lem c a).0, moved))
      | inr last ↦ rw last (ground (arith, (scroll_lem c a).0, last, even))
    ]

pub ready-IsReady :
    (c : Console) (t : Terminal) → Shows c t → IsReady (get_current_address c) (ready t)
unfolding get_current_address ready
ready-IsReady c t s = elim (Bool-cases (ltb 23 t.row)) [
  | inl full ↦
      let over : ltb 23 c.current_height ≡ true = ground (arith, full, s.height) in
      let (at, high, left) = scroll_lem c 0 in
      rw (full, over)
        (record {
          address = omega (arith, high, left);
          shows = record {
            height = high;
            width = left;
            on_row = omega arith;
            on_screen = omega arith;
            below = λ e. refl;
            cells = λ r k p q. ground (arith, scrolled-cell c r k p q, s.cells (r + 1) k);
          };
          row = omega arith;
        })
  | inr room ↦
      let under : ltb 23 c.current_height ≡ false = ground (arith, room, s.height) in
      rw (room, under)
        (record {
          address = omega (arith, s.height, s.width);
          shows = s;
          row = ground (arith, room);
        })
]

write-Shows :
    (ch : ℕ) (r : ℕ × Console) (t : Terminal)
    → IsReady r t
    → Shows (finish_at (r.0 + 2, put_cell r.0 ch r.1.memory) r.1) (write_at t ch)
unfolding update_height_width
write-Shows ch (addr, c) t k =
    let s = k.shows in
    let column = s.on_row in
    record {
      height = ground (arith, k.address, k.row);
      width = ground (arith, k.address, k.row);
      on_row = ground arith;
      on_screen = ground (arith, k.row);
      below = λ e. ground (arith, k.row, e);
      cells = λ i j p q. ground (arith, k.address, k.row, s.cells i j p q);
    }

new_line-Shows :
    (r : ℕ × Console) (t : Terminal) → IsReady r t → Shows (handle_new_line r.1) (new_line t)
unfolding handle_new_line
new_line-Shows (addr, c) t k =
    let s = k.shows in
    let down : Shows (record c { current_height = c.current_height + 1; current_width = 0 })
        (record t { row = t.row + 1; column = 0 }) =
      record {
        height = omega (arith, s.height);
        width = refl;
        on_row = omega arith;
        on_screen = omega (arith, k.row);
        below = λ e. refl;
        cells = s.cells;
      } in
    (ready-IsReady _ _ down).shows

pub type_char-Shows :
    (ch : ℕ) (c : Console) (t : Terminal)
    → Shows c t
    → let r = get_current_address c in Shows (handle_everything_else ch r.0 r.1) (type_char ch t)
unfolding handle_everything_else type_char
type_char-Shows ch c t s =
    let k = ready-IsReady c t s in
    elim (Bool-cases (ch == b'\n')) [
      | inl line ↦ rw line (new_line-Shows (get_current_address c) (ready t) k)
      | inr other ↦ rw other (write-Shows ch (get_current_address c) (ready t) k)
    ]
