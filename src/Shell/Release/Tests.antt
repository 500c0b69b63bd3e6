-- ===== src/Shell/Release/Tests.antt =====
-- The release of a command `a` with the argument `word`.
use sbuoperating_system.Prelude.{ℕ, ◌≡◌, inr, refl, Bool, [], ◌∷◌, some, ◌&&◌, leb, ltb, arith}
use sbuoperating_system.Memory.{Memory, poke, codes}
use sbuoperating_system.Libc.Malloc.Bytes.{Store}
use sbuoperating_system.Shell.Release.{free_command_argument}
use sbuoperating_system.Shell.Release.Returns.{
  Cleared, IsBlock, IsSingle, pointers_of, free_command_argument-returns,
}

-- The header of the first block is at 4096 and names 4672.
abbrev memory : Memory
memory = poke 4096 64 (
    poke 4097 18 (
      poke 12288 b'a'
        (poke 16384 b'w' (poke 16385 b'o' (poke 16386 b'r' (poke 16387 b'd' (λ a. 0)))))))

abbrev store : Store
store = record { memory = memory; mapped = λ a. leb 4096 a && ltb a 20480; root = 4096 }

abbrev munmap : ℕ → ℕ → (ℕ → Bool) → ℕ → Bool
munmap address size mapped = mapped

single : IsSingle store 9 12288
single = record { header = refl; last = refl; apart = inr (omega arith) }

command : IsBlock store 9 12288
command = record {
  pointer = omega arith;
  mapped = refl;
  other = omega arith;
  holds = record { text = codes "a"; string = omega arith; short = omega arith };
}

word : IsBlock store 9 16384
word = record {
  pointer = omega arith;
  mapped = refl;
  other = omega arith;
  holds = record { text = codes "word"; string = omega arith; short = omega arith };
}

free_command_argument-returns_example :
    (mem' : Memory) × (free_command_argument munmap 11 (pointers_of 8192 12288 (16384 ∷ [])) store
      ≡ some (record store { memory = mem' }))
    × Cleared 12288 9 memory mem'
free_command_argument-returns_example =
    free_command_argument-returns munmap 9 9 12288 store (omega arith) (omega arith) single command
      8192 (16384 ∷ []) (omega arith) (word, tt)
