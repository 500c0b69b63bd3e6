-- ===== src/Cat.antt =====
-- The program bin/cat/cat.c. The system calls on the two descriptors are parameters on a state of the
-- system: `read` gives the bytes read or -1, and `write` the count as the bits of an int.
pub mod Copy
mod Tests
use sbuoperating_system.Prelude.{
  ℕ, zero, suc, ◌+◌, ◌%◌, ◌^◌, Bool, true, false, List, [], ◌∷◌, ◌++◌, Option, none, some, ltb,
  ◌==◌, if◌then◌else◌, length,
}
use sbuoperating_system.Memory.{codes}
use sbuoperating_system.Prelude.Int.{ℤ, pos, negsuc}
use sbuoperating_system.Libc.Environ.{is_zero}
use sbuoperating_system.Libc.Stdio.{Block, error, block}

abbrev pub buffer_size : ℕ
buffer_size = 4096

module _ {ℓ} {S : Type ℓ} (read : ℕ → S → Block S) (write : List ℕ → S → ℕ × S) where
  -- The loop of `cat`, on fuel.
  unfoldable pub cat : ℕ → S → Option (ℤ × S)
  cat zero st = none
  cat (suc fuel) st = elim (read buffer_size st) [
    | error st ↦ some (negsuc 0, st)
    | block [] st ↦ some (pos 0, st)
    | block (b ∷ bytes) st ↦
        let (written, st) = write (b ∷ bytes) st in
        let rest = cat fuel st in
        if written == length (b ∷ bytes) then rest else some (negsuc 0, st)
  ]

-- The system under `main`: the calls it makes, on descriptors, and `fputs` to the standard output.
pub record Calls {ℓ} (S : Type ℓ) : Type ℓ where
  pub open_file : List ℕ → S → ℕ × S
  pub read : ℕ → ℕ → S → Block S
  pub write : ℕ → List ℕ → S → ℕ × S
  pub close : ℕ → S → S
  pub fputs : List ℕ → S → S

-- The status, which is always 1, and the system behind it.
unfoldable pub main {ℓ} : {S : Type ℓ} → Calls S → ℕ → ℕ → List ℕ → S → Option (ℕ × S)
unfolding cat
main calls fuel argc argv0 st =
    let (fd, opened) = calls.open_file argv0 st in
    let copied : Option (ℕ × _) = elim (cat (calls.read fd) (calls.write 1) fuel opened) [
      | none ↦ none
      | some (result, st) ↦
          let st =
            if is_zero result
            then st
            else calls.fputs (codes "Failed to write file to standard output\n") st in
          some (1, calls.close fd st)
    ] in
    let from_input : Option (ℕ × _) = elim (cat (calls.read 0) (calls.write 1) fuel st) [
      | none ↦ none
      | some (result, st) ↦ some (1, st)
    ] in
    if argc == 0
    then from_input
    else if ltb fd (2 ^ 31)
    then copied
    else some (1, calls.fputs (codes "Failed to open file for reading\n") opened)
