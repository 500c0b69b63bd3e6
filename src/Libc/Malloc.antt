-- ===== src/Libc/Malloc.antt =====
-- The allocator, libc/malloc.c: the headers of the mapped blocks by their address, and `ROOT`. The
-- address that `mmap` answers with is a parameter. A read or a write of a header that is not mapped is
-- `none`. What a caller writes to its memory is not in this state; Bytes has `free` over memory with what is written to it.
pub mod Chain
pub mod Release
pub mod Bytes
mod Tests
use sbuoperating_system.Prelude.{
  ℕ, zero, suc, ◌+◌, ◌*◌, ◌^◌, Bool, ◌||◌, Option, none, some, leb, ◌==◌, if◌then◌else◌,
}
use sbuoperating_system.Memory.{null}

-- `sizeof(meta_block)`: two pointers, an int and its padding.
abbrev pub meta_block_size : ℕ
meta_block_size = 24

pub record MetaBlock : Type 0 where
  pub addr : ℕ
  pub block_size : ℕ
  pub next : ℕ

pub record Heap : Type 0 where
  pub root : ℕ
  pub blocks : ℕ → Option MetaBlock

abbrev pub put_block : ℕ → Option MetaBlock → Heap → Heap
put_block p block h = record h { blocks = λ a. if a == p then block else h.blocks a }

-- `new_meta_block + sizeof(meta_block)` counts in headers, not in bytes.
abbrev pub new_header : ℕ → ℕ → ℕ → MetaBlock
new_header p len next = record {
  addr = p + meta_block_size * meta_block_size;
  block_size = len;
  next = next;
}

module _ (mmap : Heap → ℕ → ℕ) where
  -- The pointer, null if the mapping failed.
  pub get_new_block : ℕ → Heap → ℕ × Heap
  get_new_block len h =
      let p = mmap h (meta_block_size + len) in
      if p == null then (null, h) else (p, put_block p (some (new_header p len null)) h)

  pub allocate_memory_when_list_is_empty : ℕ → Heap → Heap
  unfolding get_new_block
  allocate_memory_when_list_is_empty size h =
      let (p, h) = get_new_block size h in record h { root = p }

  pub get_memory_block_from_os : ℕ → Heap → Option (ℕ × Heap)
  unfolding get_new_block
  get_memory_block_from_os size h =
      let (p, h) = get_new_block size h in
      elim (h.blocks p) [
        | none ↦ none
        | some new ↦ elim (h.blocks h.root) [
          | none ↦ none
          | some old ↦
              let h = put_block p (some (record new { next = old.next })) h in
              some (p, record h { root = p })
        ]
      ]

  -- The size is the bit pattern of an int.
  pub malloc : ℕ → Heap → Option (ℕ × Heap)
  unfolding allocate_memory_when_list_is_empty get_memory_block_from_os
  malloc size h =
      if size == 0 || leb (2 ^ 31) size
      then some (null, h)
      else if h.root == null
      then (let h = allocate_memory_when_list_is_empty size h in
          elim (h.blocks h.root) [ none ↦ none | some b ↦ some (b.addr, h) ])
      else get_memory_block_from_os size h

-- The loop of `free`, with the pointers `trav` and `prev`; `none` is a fault or the fuel run out.
-- `munmap` takes the block and its header away.
pub free_loop : ℕ → ℕ → ℕ → ℕ → Heap → Option Heap
free_loop zero ptr trav prev h = none
free_loop (suc fuel) ptr trav prev h = if trav == null then some h else elim (h.blocks trav) [
  | none ↦ none
  | some b ↦
      let rest = free_loop fuel ptr b.next trav h in
      if b.addr == ptr
      then (if prev == null then some (put_block trav none h) else elim (h.blocks prev) [
        | none ↦ none
        | some q ↦ some (put_block trav none (put_block prev (some (record q { next = b.next })) h))
      ])
      else rest
]

pub free : ℕ → ℕ → Heap → Option Heap
free fuel ptr h = if ptr == null then some h else free_loop fuel ptr h.root null h
