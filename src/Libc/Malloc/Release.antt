-- ===== src/Libc/Malloc/Release.antt =====
-- What `free` releases, and what comes after it.
use sbuoperating_system.Prelude.{
  ℕ, suc, ◌+◌, ◌^◌, ◌<◌, ◌≡◌, ◌≢◌, ◌∙◌, false, not, ◌&&◌, none, some, ◌==◌, if◌then◌else◌, arith,
  inl, inr,
}
use sbuoperating_system.Memory.{null}
use sbuoperating_system.Libc.Malloc.{
  meta_block_size, Heap, put_block, new_header, get_memory_block_from_os, malloc, free_loop, free,
}
use sbuoperating_system.Libc.Malloc.Chain.{IsHeap, malloc_later, mapped_apart, get_new_block_lem}

-- A pointer that is not 576 bytes behind the block of the list, with fuel for two rounds or more.
pub free-other :
    (f ptr : ℕ) (h : Heap) → IsHeap h → ptr ≢ h.root + 576 → free (suc (suc f)) ptr h ≡ some h
unfolding free free_loop
free-other f ptr h (zero_free, inl empty) other = ground arith
free-other f ptr h (zero_free, inr (size, at_root)) other = ground (arith, at_root, other)

-- On a heap whose list is empty or one block, `free` of any pointer returns, and releases the one
-- block of the list if the pointer is the address 576 bytes behind its header; it changes nothing
-- for any other pointer.
pub free_lem :
    (ptr : ℕ) (h : Heap)
    → IsHeap h
    → free 2 ptr h
      ≡ some (if not (h.root == null) && ptr == h.root + 576 then put_block h.root none h else h)
unfolding free free_loop
free_lem ptr h (zero_free, inl empty) = ground arith
free_lem ptr h (zero_free, inr (size, at_root)) =
    let is_root : (h.root == null) ≡ false =
      mapped_apart h h.root null (new_header h.root size null) at_root zero_free in
    ground (arith, at_root, is_root)

-- On a heap whose list is one block, if `mmap` gives a block that is neither null nor mapped yet,
-- `malloc` of a positive int returns a pointer, and freeing that pointer releases nothing.
pub free-malloc :
    (mmap : Heap → ℕ → ℕ) (h : Heap) (size : ℕ)
    → IsHeap h
    → h.root ≢ null
    → 0 < size
    → size < 2 ^ 31
    → let p = mmap h (meta_block_size + size) in
      p ≢ null
      → h.blocks p ≡ none
      → (h' : Heap) × (malloc mmap size h ≡ some (p, h')) × (free 2 p h' ≡ some h')
free-malloc mmap h size (zero_free, inl empty) root positive small ne fresh = absurd (root empty)
free-malloc mmap h size (zero_free, inr (old, at_root)) root positive small ne fresh =
    let p = mmap h (meta_block_size + size) in
    let (h', ran, (at, same, heap)) =
      malloc_later mmap h size old (zero_free, inr (old, at_root)) positive small ne fresh
        at_root in
    (h', ran, free_lem p h' heap ∙ ground (arith, at))

-- On a heap whose list is one block, freeing the address 576 bytes behind its header releases that
-- block, and a `malloc` of a positive int after it reads the header of the released block and
-- faults, if `mmap` gives a block that is neither null nor at the same address again.
pub malloc-free_fault :
    (mmap : Heap → ℕ → ℕ) (h : Heap) (size : ℕ)
    → IsHeap h
    → h.root ≢ null
    → 0 < size
    → size < 2 ^ 31
    → let h' = put_block h.root none h in
      let p = mmap h' (meta_block_size + size) in
      p ≢ null → p ≢ h.root → (free 2 (h.root + 576) h ≡ some h') × (malloc mmap size h' ≡ none)
unfolding malloc get_memory_block_from_os
malloc-free_fault mmap h size heap root positive small ne other =
    let h' = put_block h.root none h in
    (
      free_lem (h.root + 576) h heap ∙ ground arith,
      ground (arith, get_new_block_lem mmap h' size ne),
    )
