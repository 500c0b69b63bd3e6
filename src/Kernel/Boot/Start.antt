-- ===== src/Kernel/Boot/Start.antt =====
-- `start` of sys/main.c up to its endless loop: the messages on the memory, the status row and the scan of
-- the buses. The modules of the loader are a function from the number of a 32-bit word to the word.
use sbuoperating_system.Prelude.{
  ℕ, zero, suc, ◌+◌, ◌*◌, ◌%◌, ◌^◌, List, [], ◌∷◌, Option, none, some, not, ◌&&◌, ltb, ◌==◌,
  if◌then◌else◌,
}
use sbuoperating_system.Memory.{codes}
use sbuoperating_system.Kernel.Console.{Console}
use sbuoperating_system.Kernel.Kprintf.{number, kprintf}
use sbuoperating_system.Kernel.Boot.{set_up_welcome_screen}

-- The addresses that the linker fixes, and `physfree`, which the loader hands over.
pub record Image : Type 0 where
  pub tss : ℕ
  pub s_idtd : ℕ
  pub default_interrupt_service_routine : ℕ
  pub pit_interrupt_service_routine : ℕ
  pub keyboard_interrupt_service_routine : ℕ
  pub physfree : ℕ
  pub tarfs_start : ℕ
  pub tarfs_end : ℕ

abbrev pub memory_message : List ℕ
memory_message = codes "Available Physical Memory [%p-%p]\n"

abbrev pub physfree_message : List ℕ
physfree_message = codes "physfree %p\n"

abbrev pub tarfs_message : List ℕ
tarfs_message = codes "tarfs in [%p:%p]\n"

module _ (words : ℕ → ℕ) where
  -- The search for the module 0x9001 from word `p` on, on fuel.
  unfoldable pub find_module : ℕ → ℕ → Option ℕ
  find_module zero p = none
  find_module (suc fuel) p =
      let rest = find_module fuel (p + (words (p + 1) + 2) % 2 ^ 32) in
      if words p == 0x9001 then some p else rest

  -- The fields of the `struct smap_t` at word `s`, which is packed.
  abbrev pub smap_base : ℕ → ℕ
  smap_base s = words s + words (s + 1) * 2 ^ 32

  abbrev pub smap_length : ℕ → ℕ
  smap_length s = words (s + 2) + words (s + 3) * 2 ^ 32

  abbrev pub smap_type : ℕ → ℕ
  smap_type s = words (s + 4)

  unfoldable pub print_entry : ℕ → Console → Option Console
  print_entry s c =
      if smap_type s == 1 && not (smap_length s == 0)
      then kprintf memory_message
          (number (smap_base s) ∷ number ((smap_base s + smap_length s) % 2 ^ 64) ∷ []) c
      else some c

  -- The loop over the entries from word `s` to the byte `end`, on fuel.
  unfoldable pub print_smap : ℕ → ℕ → ℕ → Console → Option Console
  unfolding print_entry
  print_smap zero s end c = none
  print_smap (suc fuel) s end c =
      let printed : Option Console = elim (print_entry s c) [
        | none ↦ none
        | some c' ↦ print_smap fuel (s + 5) end c'
      ] in
      if ltb (4 * s) end then printed else some c

  -- Every message of `start`, and the status row. An entry has 20 bytes, so the length of the module in
  -- bytes is fuel enough for the loop.
  unfoldable pub start_screen : ℕ → Image → Console → Option Console
  unfolding find_module print_smap
  start_screen fuel image c = elim (find_module fuel 0) [
    | none ↦ none
    | some p ↦ elim (print_smap (suc (words (p + 1))) (p + 2) (4 * p + words (p + 1) + 2 * 4) c) [
      | none ↦ none
      | some c ↦ elim (kprintf physfree_message (number image.physfree ∷ []) c) [
        | none ↦ none
        | some c ↦
            elim (kprintf tarfs_message (number image.tarfs_start ∷ number image.tarfs_end ∷ [])
              c) [
                | none ↦ none
                | some c ↦ some (record c { memory = set_up_welcome_screen c.memory })
              ]
      ]
    ]
  ]
