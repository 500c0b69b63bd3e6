-- ===== src/Libc/Readline/Tests.antt =====
-- A terminal that gives one line.
use sbuoperating_system.Prelude.{ℕ, ◌≡◌, refl, List, [], some, arith, take, drop}
use sbuoperating_system.Memory.{codes}
use sbuoperating_system.Libc.Stdio.{Block, block}
use sbuoperating_system.Libc.Readline.{readline}
use sbuoperating_system.Libc.Readline.Chunks.{short, full, readline-Chunks}

abbrev read : ℕ → List ℕ → Block (List ℕ)
read n st = block (take n st) (drop n st)

readline-Chunks_example : readline read 3 (codes "cat ls\n") ≡ some (codes "cat ls\n", [])
readline-Chunks_example =
    readline-Chunks read 3 1 (codes "cat ls\n") [] (codes "cat ls\n")
      (full refl refl (omega arith) (short refl refl (omega arith)) refl) (omega arith)
