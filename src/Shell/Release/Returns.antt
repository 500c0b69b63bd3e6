-- ===== src/Shell/Release/Returns.antt =====
-- When the release of a command returns: the list of the allocator ends with its first block, and no text is
-- written over the header of this block.
use sbuoperating_system.Prelude.{
  ℕ, zero, suc, ◌+◌, ◌^◌, ◌<◌, ◌≤◌, ◌≡◌, ◌≢◌, ◌⊎◌, inl, inr, refl, sym, ◌∙◌, Bool, true, false,
  List, [], ◌∷◌, some, ◌==◌, length, arith, All,
}
use sbuoperating_system.Memory.{Memory, null, IsString}
use sbuoperating_system.Libc.Strings.{strlen, rounds, memset}
use sbuoperating_system.Libc.Strings.Scans.{strlen-length}
use sbuoperating_system.Libc.Strings.Blocks.{memset-fills}
use sbuoperating_system.Libc.Malloc.Bytes.{
  Store, read_bytes, all_mapped, addr_of, next_of, free_block, free_block-other,
}
use sbuoperating_system.Shell.Release.{
  Pointers, length_at, clear, free_arguments, free_command, free_command_argument,
}

read_bytes-same :
    (n p : ℕ) (m m' : Memory)
    → ((a : ℕ) → p ≤ a → a < p + n → m' a ≡ m a)
    → read_bytes n p m' ≡ read_bytes n p m
read_bytes-same zero p m m' same = refl
read_bytes-same (suc n) p m m' same = omega (
  arith,
  same p (omega arith) (omega arith),
  read_bytes-same n (p + 1) m m' (λ a h k. same a (omega arith) (omega arith)),
)

all_mapped-le :
    (k n p : ℕ) (s : Store) (mem : Memory)
    → k ≤ n
    → all_mapped n p s ≡ true
    → all_mapped k p (record s { memory = mem }) ≡ true
all_mapped-le zero n p s mem h e = refl
all_mapped-le (suc k) zero p s mem h e = absurd (omega arith)
all_mapped-le (suc k) (suc n) p s mem h e =
    ground (arith, e, all_mapped-le k n (p + 1) s mem (omega arith))

-- A byte is as before, or it is one of the `n` bytes from `command` on and zero.
abbrev pub Cleared : ℕ → ℕ → Memory → Memory → Type 0
Cleared command n mem mem' =
    (a : ℕ) → (mem' a ≡ mem a) ⊎ ((mem' a ≡ 0) × (command ≤ a) × (a < command + n))

Cleared-trans :
    (command n : ℕ) (m m' m'' : Memory)
    → Cleared command n m m'
    → Cleared command n m' m''
    → Cleared command n m m''
Cleared-trans command n m m' m'' h k a = ground (arith, h a, k a)

memset-Cleared :
    (command n k : ℕ) (mem : Memory)
    → command ≢ null
    → k < n
    → n ≤ 2 ^ 31
    → Cleared command n mem (memset command 0 k mem).1
memset-Cleared command n k mem real less small a =
    let all : rounds k ≡ k = ground (arith, less, small) in
    ground (arith, (memset-fills command 0 k mem real).1 a, all, less)

-- At `p` stands a text of fewer than `n` bytes.
pub record Holds (n : ℕ) (mem : Memory) (p : ℕ) : Type 0 where
  pub text : List ℕ
  pub string : IsString mem p text
  pub short : length text < n

shrunk :
    (command n : ℕ) (mem mem' : Memory) (t : List ℕ) (p : ℕ)
    → Cleared command n mem mem'
    → IsString mem p t
    → (t' : List ℕ) × IsString mem' p t' × (length t' ≤ length t)
shrunk command n mem mem' [] p z h = ([], ground (arith, z p, h), omega arith)
shrunk command n mem mem' (ch ∷ t) p z (h, ne, rest) =
    step (z p) (shrunk command n mem mem' t (p + 1) z rest)
  where
    step :
        (mem' p ≡ mem p) ⊎ ((mem' p ≡ 0) × (command ≤ p) × (p < command + n))
        → (t' : List ℕ) × IsString mem' (p + 1) t' × (length t' ≤ length t)
        → (t' : List ℕ) × IsString mem' p t' × (length t' ≤ suc (length t))
    step (inr (gone, _, _)) shorter = ([], gone, omega arith)
    step (inl same) (t', string, less) =
        (ch ∷ t', (ground (arith, same, h), ne, string), omega (arith, less))

Holds-Cleared :
    (command n : ℕ) (mem mem' : Memory) (p : ℕ)
    → Cleared command n mem mem'
    → Holds n mem p
    → Holds n mem' p
Holds-Cleared command n mem mem' p z x =
    let (t, string, less) = shrunk command n mem mem' x.text p z x.string in
    record { text = t; string = string; short = omega (arith, less, x.short) }

-- A block of `n` mapped bytes that is not the one that the header of the first block names, with a text.
pub record IsBlock (s : Store) (n p : ℕ) : Type 0 where
  pub pointer : p ≢ null
  pub mapped : all_mapped n p s ≡ true
  pub other : addr_of s.root s ≢ p
  pub holds : Holds n s.memory p

-- The list of the allocator is one block, whose header is mapped and apart from the `n` bytes from `command`.
pub record IsSingle (s : Store) (n command : ℕ) : Type 0 where
  pub header : all_mapped 24 s.root s ≡ true
  pub last : next_of s.root s ≡ null
  pub apart : (command + n ≤ s.root) ⊎ (s.root + 24 ≤ command)

abbrev pub pointers_of : ℕ → ℕ → List ℕ → Pointers
pointers_of trimmed command ps = record {
  trimmed_input = trimmed;
  command = command;
  arguments = ps;
}

module _ (munmap : ℕ → ℕ → (ℕ → Bool) → ℕ → Bool) (f n command : ℕ) (s : Store) (enough : n ≤ f)
    (small : n ≤ 2 ^ 31) (single : IsSingle s n command) (block : IsBlock s n command) where
  abbrev pub at : Memory → Store
  at mem = record s { memory = mem }

  header-same :
      (mem : Memory) (a : ℕ)
      → Cleared command n s.memory mem
      → s.root ≤ a
      → a < s.root + 24
      → mem a ≡ s.memory a
  header-same mem a z h k = ground (arith, z a, single.apart)

  free-kept :
      (p : ℕ) (mem : Memory)
      → Cleared command n s.memory mem
      → addr_of s.root s ≢ p
      → free_block munmap (suc (suc f)) p (at mem) ≡ some (at mem)
  free-kept p mem z other =
      let addr : addr_of s.root (at mem) ≡ addr_of s.root s =
        read_bytes-same 8 s.root s.memory mem (λ a h k. header-same mem a z h (omega arith)) in
      let next : next_of s.root (at mem) ≡ next_of s.root s =
        read_bytes-same 8 (s.root + 16) s.memory mem
          (λ a h k. header-same mem a z (omega arith) (omega arith)) in
      free_block-other munmap f p (at mem) single.header (λ e. other (sym addr ∙ e))
        (next ∙ single.last)

  length-kept :
      (p : ℕ) (mem : Memory) (x : Holds n mem p)
      → p ≢ null
      → all_mapped n p s ≡ true
      → length_at (suc (suc f)) p (at mem) ≡ some (length x.text)
  unfolding length_at
  length-kept p mem x pointer mapped =
      let short = x.short in
      let len : strlen (suc (suc f)) mem p ≡ some (length x.text) =
        strlen-length x.text (suc (suc f)) mem p pointer x.string (omega arith) (omega arith) in
      let readable = all_mapped-le (length x.text + 1) n p s mem (omega arith) mapped in
      let real : (p == null) ≡ false = ground (arith, pointer) in
      rw (length_at, len, real, readable) refl

  clear-kept :
      (k : ℕ) (mem : Memory)
      → k < n
      → clear command k (at mem) ≡ some (at (memset command 0 k mem).1)
  unfolding clear
  clear-kept k mem less =
      let pointer = block.pointer in
      let real : (command == null) ≡ false = ground (arith, pointer) in
      let writable = all_mapped-le k n command s mem (omega arith) block.mapped in
      rw (clear, real, writable) refl

  free_arguments-kept :
      (ps : List ℕ) (mem : Memory)
      → Cleared command n s.memory mem
      → All (IsBlock s n) ps
      → (mem' : Memory) × (free_arguments munmap (suc (suc f)) command ps (at mem) ≡ some (at mem'))
        × Cleared command n s.memory mem'
  unfolding free_arguments
  free_arguments-kept [] mem z blocks = (mem, refl, z)
  free_arguments-kept (p ∷ ps) mem z (b, blocks) =
      let x = Holds-Cleared command n s.memory mem p z b.holds in
      let k = length x.text in
      let next = (memset command 0 k mem).1 in
      let z' =
        Cleared-trans command n s.memory mem next z
          (memset-Cleared command n k mem block.pointer x.short small) in
      let (mem', ran, later) = free_arguments-kept ps next z' blocks in
      (
        mem',
        rw
            (
              free_arguments,
              length-kept p mem x b.pointer b.mapped,
              clear-kept k mem x.short,
              free-kept p next z' b.other,
            )
            ran,
        later,
      )

  -- The release of a command returns and gives no block back: of the memory it changes nothing but bytes of
  -- the block of the command, which it sets to zero. The list of the allocator is one block, whose header is
  -- mapped, apart from the block of the command and names none of the pointers; the command and its arguments
  -- are texts of fewer than `n` bytes in blocks of `n` mapped bytes, and the fuel is `n` and two more.
  pub free_command_argument-returns :
      (trimmed : ℕ) (ps : List ℕ)
      → addr_of s.root s ≢ trimmed
      → All (IsBlock s n) ps
      → (mem' : Memory) × (free_command_argument munmap
            (suc (suc f))
            (pointers_of trimmed command ps)
            s
          ≡ some (at mem'))
        × Cleared command n s.memory mem'
  unfolding free_command_argument free_command
  free_command_argument-returns trimmed ps other blocks =
      let pointer = block.pointer in
      let none_yet : Cleared command n s.memory s.memory = λ a. inl refl in
      let real : (command == null) ≡ false = ground (arith, pointer) in
      let x = block.holds in
      let k = length x.text in
      let next = (memset command 0 k s.memory).1 in
      let z = memset-Cleared command n k s.memory pointer x.short small in
      let (mem', ran, later) = free_arguments-kept ps next z blocks in
      (
        mem',
        rw
            (
              free_command_argument,
              free-kept trimmed s.memory none_yet other,
              free_command,
              real,
              length-kept command s.memory x pointer block.mapped,
              clear-kept k s.memory x.short,
              free-kept command next z block.other,
            )
            ran,
        later,
      )
