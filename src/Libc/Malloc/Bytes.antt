-- ===== src/Libc/Malloc/Bytes.antt =====
-- `free` of libc/malloc.c over the bytes of the memory, where the header of a block is at its address and can
-- be written by the user of the block: from the second block on `malloc` returns the address of the header.
use sbuoperating_system.Prelude.{
  arith, ◌≡◌, ◌≢◌, ℕ, zero, suc, ◌+◌, ◌*◌, ◌/◌, ◌%◌, ◌^◌, Bool, true, false, ◌&&◌, Option, none,
  some, ◌==◌, if◌then◌else◌,
}
use sbuoperating_system.Memory.{Memory, null, poke}

-- The bytes, which of them are mapped, and `ROOT`.
pub record Store : Type 0 where
  pub memory : Memory
  pub mapped : ℕ → Bool
  pub root : ℕ

-- `n` bytes in little-endian order.
abbrev pub read_bytes : ℕ → ℕ → Memory → ℕ
read_bytes zero p mem = 0
read_bytes (suc n) p mem = mem p + 256 * read_bytes n (p + 1) mem

abbrev pub write_bytes : ℕ → ℕ → ℕ → Memory → Memory
write_bytes zero p v mem = mem
write_bytes (suc n) p v mem = write_bytes n (p + 1) (v / 256) (poke p (v % 256) mem)

-- Of the `n` bytes from `p` on each is mapped.
abbrev pub all_mapped : ℕ → ℕ → Store → Bool
all_mapped zero p s = true
all_mapped (suc n) p s = s.mapped p && all_mapped n (p + 1) s

-- The members of a `meta_block`: a pointer, an int with its padding, and a pointer.
abbrev pub addr_of : ℕ → Store → ℕ
addr_of p s = read_bytes 8 p s.memory

abbrev pub size_of : ℕ → Store → ℕ
size_of p s = read_bytes 4 (p + 8) s.memory

abbrev pub next_of : ℕ → Store → ℕ
next_of p s = read_bytes 8 (p + 16) s.memory

-- `munmap` tells what is mapped behind the call, from the address, the size and what was mapped.
module _ (munmap : ℕ → ℕ → (ℕ → Bool) → ℕ → Bool) where
  -- The loop over the list, with the pointers `trav` and `prev`; `none` is an access to a byte that is not
  -- mapped, or the fuel run out.
  unfoldable pub free_block_loop : ℕ → ℕ → ℕ → ℕ → Store → Option Store
  free_block_loop zero ptr trav prev s = none
  free_block_loop (suc fuel) ptr trav prev s =
      let rest = free_block_loop fuel ptr (next_of trav s) trav s in
      let memory =
        if prev == null then s.memory else write_bytes 8 (prev + 16) (next_of trav s) s.memory in
      let mapped = munmap trav ((size_of trav s + 24) % 2 ^ 64) s.mapped in
      let found : Store = record s { memory = memory; mapped = mapped } in
      if trav == null
      then some s
      else if all_mapped 24 trav s
      then (if addr_of trav s == ptr then some found else rest)
      else none

  unfoldable pub free_block : ℕ → ℕ → Store → Option Store
  unfolding free_block_loop
  free_block fuel ptr s = if ptr == null then some s else free_block_loop fuel ptr s.root null s

  -- Where the list ends with its first block, whose header is mapped, `free` of another pointer than the one
  -- that the header holds returns and changes nothing.
  pub free_block-other :
      (fuel ptr : ℕ) (s : Store)
      → all_mapped 24 s.root s ≡ true
      → addr_of s.root s ≢ ptr
      → next_of s.root s ≡ null
      → free_block (suc (suc fuel)) ptr s ≡ some s
  unfolding free_block
  free_block-other fuel ptr s header other last = ground (arith, header, other, last)

  -- Where the first block links to an address that is neither null nor mapped, `free` of a pointer that is
  -- not null and not the one of the header faults.
  pub free_block-faults :
      (fuel ptr : ℕ) (s : Store)
      → s.root ≢ null
      → ptr ≢ null
      → addr_of s.root s ≢ ptr
      → next_of s.root s ≢ null
      → all_mapped 24 (next_of s.root s) s ≡ false
      → free_block fuel ptr s ≡ none
  unfolding free_block
  free_block-faults zero ptr s real pointer other linked unmapped = ground (arith, pointer)
  free_block-faults (suc zero) ptr s real pointer other linked unmapped =
      ground (arith, pointer, real, other)
  free_block-faults (suc (suc fuel)) ptr s real pointer other linked unmapped =
      ground (arith, pointer, real, other, linked, unmapped)
