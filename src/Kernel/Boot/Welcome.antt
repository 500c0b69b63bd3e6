-- ===== src/Kernel/Boot/Welcome.antt =====
-- The screen behind the whole boot.
use sbuoperating_system.Prelude.{
  ℕ, ◌+◌, ◌*◌, ◌%◌, ◌^◌, ◌<◌, ◌≤◌, ◌≡◌, refl, List, ◌++◌, some, arith, length,
}
use mathlib.Core.Path.{subst}
use sbuoperating_system.Kernel.Ports.{Device}
use sbuoperating_system.Kernel.Console.{Console, base_addr}
use sbuoperating_system.Kernel.Kprintf.Terminal.{Terminal, Shows}
use sbuoperating_system.Kernel.Kprintf.Lines.{type_all, type_all-append, Shown, text-IsAddress}
use sbuoperating_system.Kernel.Pci.Scan.{Answers, found_buses}
use sbuoperating_system.Kernel.Boot.{boot_screen}
use sbuoperating_system.Kernel.Boot.Screen.{boot_screen_lem}
use sbuoperating_system.Kernel.Boot.Lines.{idtr_line, idtr-IsLine, print_line}
use sbuoperating_system.Kernel.Boot.Messages.{Leads}
use sbuoperating_system.Kernel.Boot.Start.{Image}
use sbuoperating_system.Kernel.Boot.Setup.{System, boot}
use sbuoperating_system.Kernel.Boot.Installed.{IsLinked, coloured}
use sbuoperating_system.Kernel.Boot.Vectors.{boot_screens-Ready}
use sbuoperating_system.Kernel.Boot.Typed.{IsStartText, start_screen-Types}

abbrev console_of : System → Console
console_of s = s.machine.timer.console

-- The attributes of `boot` are in the odd bytes.
boot_screen-Shows :
    (c : Console) (t : Terminal) → Shows c t → Shows (record c { memory = boot_screen c.memory }) t
boot_screen-Shows c t s = record {
  height = s.height;
  width = s.width;
  on_row = s.on_row;
  on_screen = s.on_screen;
  below = s.below;
  cells = λ r k p q.
      let at = base_addr + (160 * r + 2 * k) in
      let even : at % 2 ≡ 0 = omega arith in
      ground (arith, boot_screen_lem c.memory at, even, s.cells r k p q);
}

-- The text of the whole boot: the line on the table of the interrupts in front of that of `start`.
pub record IsBootText (words : ℕ → ℕ) (q : ℕ) (image : Image) (text : List ℕ) : Type 0 where
  pub base : List ℕ
  pub later : List ℕ
  pub is_base : Shown (image.s_idtd % 2 ^ 64) base
  pub is_later : IsStartText words q image later
  pub whole : text ≡ idtr_line base ++ later

-- For an image whose three handlers are not null, a loader whose modules lead to 0x9001, a bus of at most 8
-- devices, and a screen that shows a terminal with the cursor at the start of a row: `boot` reaches its
-- endless loop, and its screen shows the terminal on which the text of the boot has been typed, with the
-- wraps and the scrolling that this takes. The text is a line with the limit 4095 and the address of the
-- interrupt table, in the order of the memory map a line for each entry of usable memory that is not empty
-- and for no other entry, and the lines on `physfree` and on the two ends of the archive; each address is
-- hexadecimal behind a cell with a zero, or the digit 0.
pub boot-Types :
    (device : Device) (config words : ℕ → ℕ) (image : Image) (s : System) {q n : ℕ} (fuel : ℕ)
    (t : Terminal)
    → Answers config device
    → IsLinked image
    → Leads words q 0 n
    → n < fuel
    → s.dev_count ≡ 0
    → length (found_buses config 256 0) ≤ 8
    → Shows (console_of s) t
    → t.column ≡ 0
    → (text : List ℕ) × (s' : System) × IsBootText words q image text
      × (boot device image words fuel s ≡ some s')
      × Shows (console_of s') (type_all text t)
boot-Types device config words image s fuel t answers linked leads h none_yet few shows first =
    let (w, a) = text-IsAddress (image.s_idtd % 2 ^ 64) in
    let (c₁, printed, shows₁, first₁) =
      print_line (coloured s) t (idtr-IsLine a) (boot_screen-Shows (console_of s) t shows) first in
    let (later, c, is_later, shown, shows₂) =
      start_screen-Types words image c₁ (type_all (idtr_line w) t) leads h shows₁ first₁ in
    let (s', ran, ready, count, screen) =
      boot_screens-Ready device config words image s fuel c₁ c answers linked none_yet few printed
        shown in
    let same : image.s_idtd % 2 ^ 64 % 2 ^ 64 ≡ image.s_idtd % 2 ^ 64 = omega arith in
    (
      idtr_line w ++ later,
      s',
      record {
        base = w;
        later = later;
        is_base = subst (λ x. Shown x w) same a.shown;
        is_later = is_later;
        whole = refl;
      },
      ran,
      rw (screen, type_all-append (idtr_line w) later t) shows₂,
    )
