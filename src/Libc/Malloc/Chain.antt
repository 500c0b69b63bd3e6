-- ===== src/Libc/Malloc/Chain.antt =====
-- The list of blocks never has more than one block, and what that means for `free`.
use sbuoperating_system.Prelude.{
  ℕ, ◌+◌, ◌^◌, ◌<◌, ◌≡◌, ◌≢◌, ◌⊎◌, refl, sym, ap, ◌∙◌, true, false, ◌||◌, none, some, leb, ◌==◌,
  if◌then◌else◌, arith, inl, inr, Bool-cases, ==_refl,
}
use sbuoperating_system.Memory.{null}
use sbuoperating_system.Libc.Malloc.{
  meta_block_size, MetaBlock, Heap, put_block, new_header, get_new_block,
  allocate_memory_when_list_is_empty, get_memory_block_from_os, malloc,
}

-- The null pointer is not mapped, and the list is empty or one mapped block.
abbrev pub IsHeap : Heap → Type 0
IsHeap h =
    (h.blocks null ≡ none)
    × ((h.root ≡ null) ⊎ ((size : ℕ) × (h.blocks h.root ≡ some (new_header h.root size null))))

pub mapped_apart :
    (h : Heap) (a b : ℕ) (x : MetaBlock)
    → h.blocks a ≡ some x
    → h.blocks b ≡ none
    → (a == b) ≡ false
mapped_apart h a b x p q = elim (Bool-cases (a == b)) [
  | inl e ↦ let same : a ≡ b = ground arith in absurd (cc (sym p ∙ ap h.blocks same ∙ q))
  | inr e ↦ e
]

-- What a call of `malloc` that maps its block at `p` leaves behind.
abbrev pub Allocates : Heap → ℕ → ℕ → Heap → Type 0
Allocates h size p h' =
    (h'.root ≡ p)
    × ((a : ℕ) → h'.blocks a ≡ (if a == p then some (new_header p size null) else h.blocks a))
    × IsHeap h'

at_new :
    (h h' : Heap) (size p : ℕ)
    → h.blocks null ≡ none
    → p ≢ null
    → h'.root ≡ p
    → ((a : ℕ) → h'.blocks a ≡ (if a == p then some (new_header p size null) else h.blocks a))
    → Allocates h size p h'
at_new h h' size p zero_free ne e same =
    let off : (null == p) ≡ false = ground arith in
    (
      e,
      same,
      (same null ∙ rw off zero_free, inr (size, ap h'.blocks e ∙ same p ∙ rw (==_refl p, e))),
    )

pub get_new_block_lem :
    (mmap : Heap → ℕ → ℕ) (h : Heap) (size : ℕ)
    → let p = mmap h (meta_block_size + size) in
      p ≢ null → get_new_block mmap size h ≡ (p, put_block p (some (new_header p size null)) h)
unfolding get_new_block
get_new_block_lem mmap h size ne =
    let p = mmap h (meta_block_size + size) in
    let mapped : (p == null) ≡ false = ground arith in rw mapped

malloc_first :
    (mmap : Heap → ℕ → ℕ) (h : Heap) (size : ℕ)
    → IsHeap h
    → 0 < size
    → size < 2 ^ 31
    → let p = mmap h (meta_block_size + size) in
      p ≢ null
      → h.root ≡ null
      → (h' : Heap) × (malloc mmap size h ≡ some (p + 576, h')) × Allocates h size p h'
unfolding malloc allocate_memory_when_list_is_empty get_memory_block_from_os
malloc_first mmap h size heap positive small ne empty =
    let p = mmap h (meta_block_size + size) in
    let sized : (size == 0 || leb (2 ^ 31) size) ≡ false = ground arith in
    let is_root : (h.root == null) ≡ true = ground arith in
    let got = get_new_block_lem mmap h size ne in
    let h' : Heap = record {
      root = p;
      blocks = (put_block p (some (new_header p size null)) h).blocks;
    } in
    (h', ground (arith, got), at_new h h' size p heap.0 ne refl (λ a. refl))

pub malloc_later :
    (mmap : Heap → ℕ → ℕ) (h : Heap) (size old : ℕ)
    → IsHeap h
    → 0 < size
    → size < 2 ^ 31
    → let p = mmap h (meta_block_size + size) in
      p ≢ null
      → h.blocks p ≡ none
      → h.blocks h.root ≡ some (new_header h.root old null)
      → (h' : Heap) × (malloc mmap size h ≡ some (p, h')) × Allocates h size p h'
unfolding malloc allocate_memory_when_list_is_empty get_memory_block_from_os
malloc_later mmap h size old heap positive small ne fresh at_root =
    let p = mmap h (meta_block_size + size) in
    let sized : (size == 0 || leb (2 ^ 31) size) ≡ false = ground arith in
    let is_root : (h.root == null) ≡ false =
      mapped_apart h h.root null (new_header h.root old null) at_root heap.0 in
    let apart : (h.root == p) ≡ false =
      mapped_apart h h.root p (new_header h.root old null) at_root fresh in
    let got = get_new_block_lem mmap h size ne in
    let block = some (new_header p size null) in
    let h' : Heap = record {
      root = p;
      blocks = (put_block p block (put_block p block h)).blocks;
    } in
    (h', ground (arith, got, apart, at_root), at_new h h' size p heap.0 ne refl (λ a. ground arith))

module _ (mmap : Heap → ℕ → ℕ) (h : Heap) (size : ℕ) (heap : IsHeap h) (positive : 0 < size)
    (small : size < 2 ^ 31) where
  -- On a heap whose list is empty or one block, if `mmap` gives a block that is neither null nor
  -- mapped yet, `malloc` of a positive int returns: the new block alone is the list then, every
  -- block of before stays mapped, and the pointer is 576 bytes behind the header for the first block
  -- and the header itself for every later one.
  pub malloc_lem :
      let p = mmap h (meta_block_size + size) in
      p ≢ null
      → h.blocks p ≡ none
      → (h' : Heap) × (malloc mmap size h ≡ some ((if h.root == null then p + 576 else p), h'))
        × Allocates h size p h'
  malloc_lem ne fresh = elim (heap.1) [
    | inl empty ↦
        let is_root : (h.root == null) ≡ true = ground arith in
        rw is_root (malloc_first mmap h size heap positive small ne empty)
    | inr (old, at_root) ↦
        let is_root : (h.root == null) ≡ false =
          mapped_apart h h.root null (new_header h.root old null) at_root heap.0 in
        rw is_root (malloc_later mmap h size old heap positive small ne fresh at_root)
  ]
