-- ===== src/Libc/Malloc/Tests.antt =====
-- The allocator on an empty heap and on one with a block at 4096.
use sbuoperating_system.Prelude.{ℕ, ◌+◌, ◌≡◌, refl, none, some, ◌==◌, if◌then◌else◌, arith, inr}
use sbuoperating_system.Memory.{null}
use sbuoperating_system.Libc.Malloc.{Heap, put_block, new_header, malloc, free}
use sbuoperating_system.Libc.Malloc.Chain.{IsHeap, Allocates, malloc_lem}
use sbuoperating_system.Libc.Malloc.Release.{malloc-free_fault}

-- One page behind the last block.
abbrev mmap : Heap → ℕ → ℕ
mmap h len = h.root + 4096

abbrev one_block : Heap
one_block = record {
  root = 4096;
  blocks = λ a. if a == 4096 then some (new_header 4096 20 null) else none;
}

one_block-IsHeap : IsHeap one_block
one_block-IsHeap = (refl, inr (20, refl))

malloc_lem_example :
    (h' : Heap) × (malloc mmap 20 one_block
      ≡ some ((if one_block.root == null then 8192 + 576 else 8192), h'))
    × Allocates one_block 20 8192 h'
malloc_lem_example =
    malloc_lem mmap one_block 20 one_block-IsHeap (omega arith) (omega arith) (omega arith) refl

malloc-free_fault_example :
    (free 2 (one_block.root + 576) one_block ≡ some (put_block one_block.root none one_block))
    × (malloc mmap 20 (put_block one_block.root none one_block) ≡ none)
malloc-free_fault_example =
    malloc-free_fault mmap one_block 20 one_block-IsHeap (omega arith) (omega arith) (omega arith)
      (omega arith) (omega arith)
