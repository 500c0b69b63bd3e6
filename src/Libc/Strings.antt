-- ===== src/Libc/Strings.antt =====
-- strlen.c, strcmp.c, strchr.c, memcpy.c and memset.c of libc/, over memory. The loops over a string
-- take fuel, and `none` is the fuel run out.
pub mod Scans
pub mod Blocks
mod Tests
use sbuoperating_system.Prelude.{
  ℕ, zero, suc, ◌+◌, ◌-◌, ◌%◌, ◌^◌, Bool, not, ◌&&◌, ◌||◌, Option, none, some, ltb, ◌==◌,
  if◌then◌else◌,
}
use sbuoperating_system.Prelude.Int.{ℤ, negsuc, sub_ℕ}
use sbuoperating_system.Memory.{Memory, null, poke}

strlen_loop : ℕ → Memory → ℕ → ℕ → Option ℕ
strlen_loop zero mem str len = none
strlen_loop (suc fuel) mem str len =
    let rest = strlen_loop fuel mem (str + 1) ((len + 1) % 2 ^ 32) in
    if mem str == 0 then some len else rest

-- The `int` is its bit pattern.
pub strlen : ℕ → Memory → ℕ → Option ℕ
strlen fuel mem str = if str == null then some 0 else strlen_loop fuel mem str 0

strcmp_loop : ℕ → Memory → ℕ → ℕ → Option ℤ
strcmp_loop zero mem s1 s2 = none
strcmp_loop (suc fuel) mem s1 s2 =
    let rest = strcmp_loop fuel mem (s1 + 1) (s2 + 1) in
    if not (mem s1 == 0) && not (mem s2 == 0) && mem s1 == mem s2
    then rest
    else some (sub_ℕ (mem s1) (mem s2))

-- The pointers stay nonnull in the loop, so the tests of them are made once.
pub strcmp : ℕ → Memory → ℕ → ℕ → Option ℤ
strcmp fuel mem s1 s2 =
    if s1 == null || s2 == null then some (negsuc 0) else strcmp_loop fuel mem s1 s2

-- The search ends at a newline, too.
pub strchr : ℕ → Memory → ℕ → ℕ → Option ℕ
strchr zero mem s c = none
strchr (suc fuel) mem s c =
    let rest = strchr fuel mem (s + 1) c in
    if mem s == 0 || mem s == b'\n' then some null else if mem s == c then some s else rest

-- The rounds of `for (signed int i = 0; i < (signed int) n; ++i)`.
abbrev pub rounds : ℕ → ℕ
rounds n = let m = n % 2 ^ 32 in if ltb m (2 ^ 31) then m else 0

memcpy_loop : ℕ → ℕ → ℕ → Memory → Memory
memcpy_loop zero destination source mem = mem
memcpy_loop (suc k) destination source mem =
    memcpy_loop k (destination + 1) (source + 1) (poke destination (mem source) mem)

-- The result is the destination pointer as the loop leaves it.
pub memcpy : ℕ → ℕ → ℕ → Memory → ℕ × Memory
memcpy dest src n mem =
    if src == null then (dest, mem) else (dest + rounds n, memcpy_loop (rounds n) dest src mem)

memset_loop : ℕ → ℕ → ℕ → Memory → Memory
memset_loop zero ch c mem = mem
memset_loop (suc k) ch c mem = memset_loop k (ch + 1) c (poke ch (c % 2 ^ 8) mem)

pub memset : ℕ → ℕ → ℕ → Memory → ℕ × Memory
memset s c n mem = if s == null then (s, mem) else (s, memset_loop (rounds n) s c mem)
