-- ===== src/Kernel/Kprintf/Typing.antt =====
-- Formats with conversions on the terminal: a converted text stands cell by cell behind the cursor, as long
-- as it has room on the 24 rows. The handlers do not scroll inside a text.
use sbuoperating_system.Prelude.{
  ℕ, ◌+◌, ◌*◌, ◌<◌, ◌≤◌, ◌≡◌, ◌≢◌, refl, false, List, [], ◌∷◌, some, ◌==◌, arith, length,
}
use sbuoperating_system.Kernel.Console.{
  Memory, Console, base_addr, put_cell, write_cells, get_current_address, update_height_width,
}
use sbuoperating_system.Kernel.Kprintf.{Arg, write_text, handle_everything_else, convert, kprintf}
use sbuoperating_system.Kernel.Kprintf.Terminal.{
  Terminal, ready, write_at, type_char, Shows, IsReady, ready-IsReady, type_char-Shows,
}

-- Cell by cell; a newline is a character like any other here.
unfoldable pub write_all : List ℕ → Terminal → Terminal
write_all [] t = t
write_all (ch ∷ text) t = write_all text (write_at t ch)

-- The place in the 1920 cells of the text.
abbrev pub place : Terminal → ℕ
place t = 80 * t.row + t.column

-- The text ends on the 24 rows.
abbrev pub HasRoom : Terminal → List ℕ → Type 0
HasRoom t text = place t + length text ≤ 1920

-- The memory has the characters of the terminal.
abbrev pub Holds : Memory → Terminal → Type 0
Holds mem t = (r k : ℕ) → r < 24 → k < 80 → mem (base_addr + (160 * r + 2 * k)) ≡ t.cells r k

put-Holds :
    (ch : ℕ) (mem : Memory) (t : Terminal)
    → t.column < 80
    → Holds mem t
    → Holds (put_cell (base_addr + 2 * place t) ch mem) (write_at t ch)
put-Holds ch mem t h holds r k p q = ground (arith, holds r k p q)

write_all-Holds :
    (text : List ℕ) (mem : Memory) (t : Terminal)
    → t.column < 80
    → Holds mem t
    → let r = write_cells text (base_addr + 2 * place t) mem in
      Holds r.1 (write_all text t)
      × (r.0 ≡ base_addr + 2 * place (write_all text t))
      × ((write_all text t).column < 80)
      × (place (write_all text t) ≡ place t + length text)
unfolding write_cells write_all
write_all-Holds [] mem t h holds = (holds, refl, h, omega arith)
write_all-Holds (ch ∷ text) mem t h holds =
    let next : base_addr + 2 * place t + 2 ≡ base_addr + 2 * place (write_at t ch) = ground arith in
    let (all, end, column, moved) =
      write_all-Holds text (put_cell (base_addr + 2 * place t) ch mem) (write_at t ch)
        (ground arith) (put-Holds ch mem t h holds) in
    rw (write_cells, next) (all, end, column, ground (arith, moved))

write_text-Shows :
    (text : List ℕ) (r : ℕ × Console) (t : Terminal)
    → IsReady r t
    → HasRoom t text
    → Shows (write_text text r.0 r.1) (write_all text t)
unfolding update_height_width
write_text-Shows text (addr, c) t k room =
    let at : addr ≡ base_addr + 2 * place t = omega (arith, k.address) in
    let (all, end, column, moved) = write_all-Holds text c.memory t k.shows.on_row k.shows.cells in
    rw at (record {
      height = omega (arith, end, column);
      width = omega (arith, end, column);
      on_row = column;
      on_screen = omega (arith, moved, room);
      below = λ e. omega (arith, moved, room, e);
      cells = all;
    })

-- The conversion `d` writes the text `text` for the argument at the cursor.
abbrev pub Prints : ℕ → Arg → List ℕ → Type 0
Prints d arg text =
    (args : List Arg) (c : Console)
    → convert d (arg ∷ args) c
      ≡ some (args, write_text text (get_current_address c).0 (get_current_address c).1)

-- `Types fmt args t t'`: the format leads from the terminal `t` to `t'`.
pub data Types : List ℕ → List Arg → Terminal → Terminal → Type 0 where
  done : {args : List Arg} {t : Terminal} → Types [] args t t
  plain :
      {ch : ℕ} {fmt : List ℕ} {args : List Arg} {t t' : Terminal}
      → ch ≢ b'%'
      → Types fmt args (type_char ch t) t'
      → Types (ch ∷ fmt) args t t'
  converted :
      {d : ℕ} {arg : Arg} {fmt : List ℕ} {args : List Arg} {t t' : Terminal} (text : List ℕ)
      → Prints d arg text
      → HasRoom (ready t) text
      → Types fmt args (write_all text (ready t)) t'
      → Types (b'%' ∷ d ∷ fmt) (arg ∷ args) t t'

-- If a format types on a terminal, `kprintf` returns from a screen that shows the terminal before, and its
-- screen shows the terminal behind: plain characters wrap, start new lines and scroll, and the text of each
-- conversion stands behind the cursor, if it has room on the 24 rows.
pub kprintf-Types :
    {fmt : List ℕ} {args : List Arg} {t t' : Terminal} (c : Console)
    → Types fmt args t t'
    → Shows c t
    → (d : Console) × (kprintf fmt args c ≡ some d) × Shows d t'
unfolding kprintf
kprintf-Types c done s = (c, refl, s)
kprintf-Types c (plain {ch = ch} {fmt = []} ne done) s =
    let r = get_current_address c in
    let off : (ch == b'%') ≡ false = ground (arith, ne) in
    (handle_everything_else ch r.0 r.1, rw off refl, type_char-Shows ch c _ s)
kprintf-Types c (plain {ch = ch} {fmt = x ∷ fmt} ne types) s =
    let r = get_current_address c in
    let off : (ch == b'%') ≡ false = ground (arith, ne) in
    let (d, ran, shown) =
      kprintf-Types (handle_everything_else ch r.0 r.1) types (type_char-Shows ch c _ s) in
    (d, rw off ran, shown)
kprintf-Types c (converted {args = args} {t = t} text prints room types) s =
    let r = get_current_address c in
    let (d, ran, shown) =
      kprintf-Types (write_text text r.0 r.1) types
        (write_text-Shows text r (ready t) (ready-IsReady c t s) room) in
    (d, rw (prints args c) ran, shown)
