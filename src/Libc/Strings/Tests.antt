-- ===== src/Libc/Strings/Tests.antt =====
-- The string functions on a small memory.
use sbuoperating_system.Prelude.{
  ℕ, ◌≡◌, refl, List, [], ◌∷◌, some, arith, if◌then◌else◌, get_or, ◌-◌, ◌^◌, leb,
}
use sbuoperating_system.Memory.{Memory, IsString}
use sbuoperating_system.Libc.Strings.{strchr, memcpy}

-- "cd" at 100 and at 103, "c\nd" at 106, zero elsewhere.
abbrev mem : Memory
mem a =
    if leb 100 a then get_or (99 ∷ 100 ∷ 0 ∷ 99 ∷ 100 ∷ 0 ∷ 99 ∷ 10 ∷ 100 ∷ []) (a - 100) 0 else 0

abbrev cd : List ℕ
cd = 99 ∷ 100 ∷ []

cd-IsString : IsString mem 100 cd
cd-IsString = (refl, omega arith, (refl, omega arith, refl))

cd_again-IsString : IsString mem 103 cd
cd_again-IsString = (refl, omega arith, (refl, omega arith, refl))

-- A zero byte is not found, nor anything behind a newline.
strchr_tests :
    (strchr 9 mem 100 0 ≡ some 0)
    × (strchr 9 mem 106 100 ≡ some 0)
    × (strchr 9 mem 100 100 ≡ some 101)
unfolding strchr
strchr_tests = (refl, refl, refl)

-- A size of 2 ^ 31 bytes copies nothing.
memcpy_large : (memcpy 200 100 (2 ^ 31) mem).0 ≡ 200
unfolding memcpy
memcpy_large = refl
