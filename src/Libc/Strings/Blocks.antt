-- ===== src/Libc/Strings/Blocks.antt =====
-- Copying and filling.
use sbuoperating_system.Prelude.{
  ℕ, zero, suc, ◌+◌, ◌-◌, ◌%◌, ◌^◌, ◌<◌, ◌≤◌, ◌≡◌, ◌≢◌, ◌⊎◌, refl, Bool, false, ◌&&◌, ltb, leb,
  ◌==◌, if◌then◌else◌, arith,
}
use sbuoperating_system.Memory.{Memory, null, poke}
use sbuoperating_system.Libc.Strings.{rounds, memcpy_loop, memcpy, memset_loop, memset}

-- `a` is one of the `n` addresses from `p` on.
abbrev pub covers : ℕ → ℕ → ℕ → Bool
covers p n a = leb p a && ltb a (p + n)

memcpy_loop_lem :
    (k dest src : ℕ) (mem : Memory) (a : ℕ)
    → (dest ≤ src) ⊎ (src + k ≤ dest)
    → memcpy_loop k dest src mem a ≡ (if covers dest k a then mem (a + src - dest) else mem a)
unfolding memcpy_loop
memcpy_loop_lem zero dest src mem a h = ground arith
memcpy_loop_lem (suc k) dest src mem a h =
    let ih = memcpy_loop_lem k (dest + 1) (src + 1) (poke dest (mem src) mem) a (omega arith) in
    let place : a + (src + 1) - (dest + 1) ≡ a + src - dest = omega arith in
    ground (arith, ih, place)

-- `memcpy` of fewer than 2 ^ 31 bytes from a nonnull source, to a block that does not begin inside the
-- source, copies each byte, changes no other, and returns the address behind the copy.
pub memcpy-copies :
    (dest src n : ℕ) (mem : Memory)
    → src ≢ null
    → n < 2 ^ 31
    → (dest ≤ src) ⊎ (src + n ≤ dest)
    → let (end, mem') = memcpy dest src n mem in
      (end ≡ dest + n)
      × ((a : ℕ) → mem' a ≡ (if covers dest n a then mem (a + src - dest) else mem a))
unfolding memcpy
memcpy-copies dest src n mem ne small h =
    let real : (src == null) ≡ false = ground arith in
    let all : rounds n ≡ n = ground arith in
    rw (real, all) (refl, λ a. memcpy_loop_lem n dest src mem a h)

memset_loop_lem :
    (k ch c : ℕ) (mem : Memory) (a : ℕ)
    → memset_loop k ch c mem a ≡ (if covers ch k a then c % 2 ^ 8 else mem a)
unfolding memset_loop
memset_loop_lem zero ch c mem a = ground arith
memset_loop_lem (suc k) ch c mem a =
    ground (arith, memset_loop_lem k (ch + 1) c (poke ch (c % 2 ^ 8) mem) a)

-- `memset` at a nonnull pointer fills as many bytes as the size has in its low 32 bits, or none where
-- those read as a negative int, changes no other byte, and returns its pointer.
pub memset-fills :
    (s c n : ℕ) (mem : Memory)
    → s ≢ null
    → let (r, mem') = memset s c n mem in
      (r ≡ s) × ((a : ℕ) → mem' a ≡ (if covers s (rounds n) a then c % 2 ^ 8 else mem a))
unfolding memset
memset-fills s c n mem ne =
    let real : (s == null) ≡ false = ground arith in
    rw real (refl, λ a. memset_loop_lem (rounds n) s c mem a)
