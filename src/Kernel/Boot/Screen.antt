-- ===== src/Kernel/Boot/Screen.antt =====
-- What the screen holds after the two loops.
use sbuoperating_system.Prelude.{
  ℕ, zero, suc, ◌+◌, ◌-◌, ◌*◌, ◌%◌, ◌<◌, ◌≤◌, ◌≡◌, ◌⊎◌, ◌∙◌, ◌&&◌, some, ltb, leb, ◌==◌,
  if◌then◌else◌, arith, get_elem?,
}
use sbuoperating_system.Kernel.Console.{
  Memory, poke, base_addr, time_address, keypress_banner, write_cells,
}
use sbuoperating_system.Kernel.Console.Cells.{write_cells-frame, write_cells-cell}
use sbuoperating_system.Kernel.Boot.{
  time_string, keypress_string, set_up_welcome_screen, fill_attributes, boot_screen,
}

fill_attributes_lem :
    (k p : ℕ) (mem : Memory) (a : ℕ)
    → fill_attributes k p mem a
      ≡ (if leb p a && ltb a (p + 2 * k) && (a - p) % 2 == 0 then 7 else mem a)
unfolding fill_attributes
fill_attributes_lem zero p mem a = ground arith
fill_attributes_lem (suc k) p mem a = ground (arith, fill_attributes_lem k (p + 2) (poke p 7 mem) a)

same_bytes :
    (a : ℕ)
    → (leb 0xb8001 a && ltb a (0xb8001 + 2 * 2000) && (a - 0xb8001) % 2 == 0)
      ≡ (leb base_addr a && ltb a (base_addr + 25 * 160) && a % 2 == 1)
same_bytes a = ground arith

-- `boot` gives every cell of the 25 rows the attribute 7, and changes no other byte.
pub boot_screen_lem :
    (mem : Memory) (a : ℕ)
    → boot_screen mem a
      ≡ (if leb base_addr a && ltb a (base_addr + 25 * 160) && a % 2 == 1 then 7 else mem a)
unfolding boot_screen
boot_screen_lem mem a = rw (fill_attributes_lem 2000 0xb8001 mem a, same_bytes a)

-- After `setUpWelcomeScreen` the banner of the keys starts the status row and that of the time
-- stands in the 8 cells in front of the time, each byte with the attribute 7; no byte outside the
-- status row changes.
pub set_up_welcome_screen_lem :
    (mem : Memory) (i j x y a : ℕ)
    → get_elem? time_string i ≡ some x
    → get_elem? keypress_string j ≡ some y
    → (a < base_addr + 24 * 160) ⊎ (base_addr + 25 * 160 ≤ a)
    → let mem' = set_up_welcome_screen mem in
      ((mem' (time_address - 16 + 2 * i) ≡ x) × (mem' (time_address - 16 + 2 * i + 1) ≡ 7))
      × ((mem' (keypress_banner + 2 * j) ≡ y) × (mem' (keypress_banner + 2 * j + 1) ≡ 7))
      × (mem' a ≡ mem a)
unfolding set_up_welcome_screen
set_up_welcome_screen_lem mem i j x y a ex ey out =
    let first = (write_cells time_string (time_address - 16) mem).1 in
    let (ch, attr) = write_cells-cell time_string (time_address - 16) i x mem ex in
    (
      (
        write_cells-frame keypress_string keypress_banner first _ (omega arith) ∙ ch,
        write_cells-frame keypress_string keypress_banner first _ (omega arith) ∙ attr,
      ),
      write_cells-cell keypress_string keypress_banner j y first ey,
      write_cells-frame keypress_string keypress_banner first a (omega arith)
          ∙ write_cells-frame time_string (time_address - 16) mem a (omega arith),
    )
