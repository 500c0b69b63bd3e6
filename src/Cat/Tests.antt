-- ===== src/Cat/Tests.antt =====
-- Copying a list of bytes to a list of bytes.
use sbuoperating_system.Prelude.{ℕ, ◌≡◌, ◌++◌, refl, List, [], some, arith, take, drop, length}
use sbuoperating_system.Memory.{codes}
use sbuoperating_system.Libc.Stdio.{Block, block}
use sbuoperating_system.Cat.{Calls, main}
use sbuoperating_system.Cat.Copy.{at_end, Copies, finished, copied, Prints, message_of, main-Copies}

-- The file that is left to read, and what has been written.
pub record Files : Type 0 where
  pub file : List ℕ
  pub output : List ℕ

abbrev read : ℕ → Files → Block Files
read n st = block (take n st.file) (record st { file = drop n st.file })

abbrev write : List ℕ → Files → ℕ × Files
write bytes st = (length bytes, record st { output = st.output ++ bytes })

abbrev before : Files
before = record { file = codes "hello"; output = codes "> " }

abbrev after : Files
after = record { file = []; output = codes "> hello" }

copy_hello : Copies read write (λ st. st.output) before (codes "hello") at_end after 1
copy_hello = copied refl refl refl (finished refl refl refl) refl

abbrev calls : Calls Files
calls = record {
  open_file = λ name st. (3, st);
  read = λ fd. read;
  write = λ fd. write;
  close = λ fd st. st;
  fputs = λ text st. record st { output = st.output ++ text };
}

calls-Prints : Prints calls (λ st. st.output)
calls-Prints = record { opens = λ name st. refl; closes = λ fd st. refl; prints = λ text st. refl }

main-Copies_example :
    (final : Files) × (main calls 2 1 (codes "Makefile") before ≡ some (1, final))
    × (final.output ≡ before.output ++ codes "hello" ++ message_of at_end)
main-Copies_example =
    main-Copies calls (λ st. st.output) 2 1 (codes "Makefile") calls-Prints (omega arith)
      (omega arith) copy_hello (omega arith)
