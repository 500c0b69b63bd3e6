-- ===== src/Libc/Stdio/Tests.antt =====
-- Reading from and writing to lists of bytes.
use sbuoperating_system.Prelude.{ℕ, ◌≡◌, refl, some, length, inl, true, false, List, [], ◌∷◌, arith}
use sbuoperating_system.Prelude.Int.{negsuc}
use sbuoperating_system.Memory.{codes}
use sbuoperating_system.Libc.Stdio.{one_byte, no_byte, Reading, fgetc, fgets, gets}
use sbuoperating_system.Libc.Stdio.Gets.{gets-line}
use sbuoperating_system.Libc.Stdio.Lines.{fgets-line, fgets-end}

abbrev read : List ℕ → Reading × List ℕ
read [] = ((no_byte, 0), [])
read (b ∷ bytes) = ((one_byte, b), bytes)

-- The byte 0xFF reads as the end of the file.
fgetc_ff : fgetc read (0xff ∷ []) ≡ (negsuc 0, [])
unfolding fgetc
fgetc_ff = refl

fgets-line_example : fgets read 10 (codes "ls\ncd") ≡ (codes "ls\n", true, codes "cd")
fgets-line_example =
    fgets-line read (codes "ls") 10 (codes "ls\ncd") (codes "cd")
      ((omega arith, omega arith), ((omega arith, omega arith), tt))
      (codes "s\ncd", refl, (codes "\ncd", refl, (codes "cd", refl, refl))) (omega arith)
      (omega arith)

fgets-end_example : fgets read 10 (codes "ls") ≡ (codes "ls", false, [])
fgets-end_example =
    fgets-end read (codes "ls") 10 0 (codes "ls") [] []
      ((omega arith, omega arith), ((omega arith, omega arith), tt))
      (codes "s", refl, ([], refl, refl)) refl (omega arith) (omega arith)

gets-line_example : gets read 2 (codes " ls\n") ≡ some (codes "ls", some (length (codes "ls")), [])
gets-line_example =
    gets-line read (codes " ") b'l' (codes "s") 2 (codes " ls\n") [] (inl refl, tt) (omega arith)
      (omega arith) ((omega arith, omega arith), ((omega arith, omega arith), tt))
      (codes "ls\n", refl, (codes "s\n", refl, (codes "\n", refl, ([], refl, refl)))) (omega arith)
      (omega arith)
