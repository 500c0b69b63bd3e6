-- ===== src/Libc/Files.antt =====
-- The standard files, stdio.c and fileno.c of libc/, and fputs.c down to its system call.
use sbuoperating_system.Prelude.{ℕ, ◌<◌, ◌^◌, ◌≡◌, ◌≢◌, refl, List, Option, none, some, length}
use sbuoperating_system.Prelude.Int.{ℤ, pos}
use sbuoperating_system.Memory.{Memory, null, IsString}
use sbuoperating_system.Libc.Strings.{strlen}
use sbuoperating_system.Libc.Strings.Scans.{strlen-length}
use sbuoperating_system.Libc.Syscall.{Registers, write}

-- `struct __sFile`
record File : Type 0 where
  fd : ℕ

abbrev input_file : File
input_file = record { fd = 0 }

abbrev output_file : File
output_file = record { fd = 1 }

abbrev error_file : File
error_file = record { fd = 2 }

abbrev fileno : File → ℕ
fileno file = file.fd

module _ {ℓ} {S : Type ℓ} (kernel : Registers → S → ℕ × S) (r : Registers) where
  -- `fputs` of the string at an address; `none` is the fuel of `strlen` run out.
  fputs_at : ℕ → Memory → ℕ → File → S → Option (ℤ × S)
  fputs_at fuel mem str file st = elim (strlen fuel mem str) [
    | none ↦ none
    | some size ↦ some (pos 0, (write kernel r (fileno file) str size st).1)
  ]

  -- `fputs` of a string makes one call: number 1 with the descriptor of the file, the address and the length
  -- of the string, and returns 0 whatever it answers.
  fputs_at-write :
      (fuel : ℕ) (mem : Memory) (str : ℕ) (text : List ℕ) (file : File) (st : S)
      → str ≢ null
      → IsString mem str text
      → length text < fuel
      → length text < 2 ^ 31
      → fputs_at fuel mem str file st
        ≡ some (
          pos 0,
          (kernel (record r { rax = 1; rdi = fileno file; rsi = str; rdx = length text }) st).1,
        )
  unfolding fputs_at
  fputs_at-write fuel mem str text file st ne string enough short =
      rw (fputs_at, strlen-length text fuel mem str ne string enough short) (unfold write in refl)
