-- ===== src/Kernel/Console/Cells.antt =====
-- What writing cells does to each byte of memory, and where the cursor goes.
use sbuoperating_system.Prelude.{
  ℕ, zero, suc, ◌+◌, ◌*◌, ◌<◌, ◌≤◌, ◌≡◌, refl, List, [], ◌∷◌, ◌++◌, arith, length, get_elem?, ◌⊎◌,
  some, ◌∙◌,
}
use sbuoperating_system.Kernel.Console.{Memory, put_cell, write_cells}

pub write_cells-end :
    (text : List ℕ) (addr : ℕ) (mem : Memory)
    → (write_cells text addr mem).0 ≡ addr + 2 * length text
unfolding write_cells
write_cells-end [] addr mem = omega arith
write_cells-end (ch ∷ text) addr mem =
    omega (arith, write_cells-end text (addr + 2) (put_cell addr ch mem))

pub write_cells-frame :
    (text : List ℕ) (addr : ℕ) (mem : Memory) (b : ℕ)
    → (b < addr) ⊎ (addr + 2 * length text ≤ b)
    → (write_cells text addr mem).1 b ≡ mem b
unfolding write_cells
write_cells-frame [] addr mem b out = refl
write_cells-frame (ch ∷ text) addr mem b out =
    write_cells-frame text (addr + 2) (put_cell addr ch mem) b (omega arith) ∙ ground arith

pub write_cells-cell :
    (text : List ℕ) (addr i ch : ℕ) (mem : Memory)
    → get_elem? text i ≡ some ch
    → ((write_cells text addr mem).1 (addr + 2 * i) ≡ ch)
      × ((write_cells text addr mem).1 (addr + 2 * i + 1) ≡ 7)
unfolding write_cells
write_cells-cell [] addr i ch mem e = cc
write_cells-cell (x ∷ text) addr zero ch mem e = (
  write_cells-frame text (addr + 2) (put_cell addr x mem) (addr + 2 * 0) (omega arith)
      ∙ ground arith,
  write_cells-frame text (addr + 2) (put_cell addr x mem) (addr + 2 * 0 + 1) (omega arith)
      ∙ ground arith,
)
write_cells-cell (x ∷ text) addr (suc i) ch mem e =
    let shift : addr + 2 * suc i ≡ addr + 2 + 2 * i = omega arith in
    rw shift (write_cells-cell text (addr + 2) i ch (put_cell addr x mem) e)

pub write_cells-append :
    (s t : List ℕ) (addr : ℕ) (mem : Memory)
    → write_cells (s ++ t) addr mem
      ≡ write_cells t (write_cells s addr mem).0 (write_cells s addr mem).1
unfolding write_cells
write_cells-append [] t addr mem = refl
write_cells-append (ch ∷ s) t addr mem = write_cells-append s t (addr + 2) (put_cell addr ch mem)
