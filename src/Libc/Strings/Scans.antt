-- ===== src/Libc/Strings/Scans.antt =====
-- The scanning functions on zero-terminated strings.
use sbuoperating_system.Prelude.{
  ℕ, zero, suc, ◌+◌, ◌%◌, ◌^◌, ◌<◌, ◌≡◌, ◌≢◌, ◌↔◌, refl, List, [], ◌∷◌, Option, none, some, ◌==◌,
  if◌then◌else◌, arith, length,
}
use sbuoperating_system.Prelude.Int.{ℤ, pos, sub_ℕ}
use sbuoperating_system.Memory.{Memory, null, IsString, IsText, IsString-IsText}
use sbuoperating_system.Libc.Strings.{strlen_loop, strlen, strcmp_loop, strcmp, strchr}

strlen_loop-length :
    (s : List ℕ) (fuel : ℕ) (mem : Memory) (p len : ℕ)
    → IsString mem p s
    → length s < fuel
    → len + length s < 2 ^ 31
    → strlen_loop fuel mem p len ≡ some (len + length s)
unfolding strlen_loop
strlen_loop-length s zero mem p len h f b = elim f [ ]
strlen_loop-length [] (suc fuel) mem p len h f b = ground arith
strlen_loop-length (c ∷ s) (suc fuel) mem p len h f b =
    ground (arith, strlen_loop-length s fuel mem (p + 1) ((len + 1) % 2 ^ 32) h.2)

-- With fuel for more rounds than the string has bytes, `strlen` of a nonnull string of fewer than 2
-- ^ 31 bytes ends and returns its length.
pub strlen-length :
    (s : List ℕ) (fuel : ℕ) (mem : Memory) (p : ℕ)
    → p ≢ null
    → IsString mem p s
    → length s < fuel
    → length s < 2 ^ 31
    → strlen fuel mem p ≡ some (length s)
unfolding strlen
strlen-length s fuel mem p ne h f b =
    ground (arith, strlen_loop-length s fuel mem p 0 h f (omega arith))

-- The difference at the first place where two strings differ, the shorter one ending in 0.
unfoldable pub compare_text : List ℕ → List ℕ → ℤ
compare_text [] [] = pos 0
compare_text [] (d ∷ t) = sub_ℕ 0 d
compare_text (c ∷ s) [] = sub_ℕ c 0
compare_text (c ∷ s) (d ∷ t) = let rest = compare_text s t in if c == d then rest else sub_ℕ c d

strcmp_loop-compare_text :
    (s t : List ℕ) (fuel : ℕ) (mem : Memory) (p q : ℕ)
    → IsString mem p s
    → IsString mem q t
    → length s < fuel
    → strcmp_loop fuel mem p q ≡ some (compare_text s t)
unfolding strcmp_loop compare_text
strcmp_loop-compare_text s t zero mem p q h k f = elim f [ ]
strcmp_loop-compare_text [] [] (suc fuel) mem p q h k f = ground arith
strcmp_loop-compare_text [] (d ∷ t) (suc fuel) mem p q h k f = ground arith
strcmp_loop-compare_text (c ∷ s) [] (suc fuel) mem p q h k f = ground arith
strcmp_loop-compare_text (c ∷ s) (d ∷ t) (suc fuel) mem p q h k f =
    ground (arith, strcmp_loop-compare_text s t fuel mem (p + 1) (q + 1) h.2 k.2 (omega arith))

pub compare_text-zero : (s t : List ℕ) → IsText s → IsText t → compare_text s t ≡ pos 0 → s ≡ t
unfolding compare_text
compare_text-zero [] [] h k e = refl
compare_text-zero [] (d ∷ t) h k e = absurd (k.0 (ground arith))
compare_text-zero (c ∷ s) [] h k e = absurd (h.0 (ground arith))
compare_text-zero (c ∷ s) (d ∷ t) h k e = ground (arith, compare_text-zero s t h.1 k.1)

pub compare_text_self : (s : List ℕ) → compare_text s s ≡ pos 0
unfolding compare_text
compare_text_self [] = refl
compare_text_self (c ∷ s) = ground (arith, compare_text_self s)

-- With fuel for more rounds than the first has bytes, `strcmp` of two nonnull strings ends, and
-- returns 0 exactly if they are equal.
pub strcmp-zero_iff :
    (s t : List ℕ) (fuel : ℕ) (mem : Memory) (p q : ℕ)
    → p ≢ null
    → q ≢ null
    → IsString mem p s
    → IsString mem q t
    → length s < fuel
    → (r : ℤ) × (strcmp fuel mem p q ≡ some r) × ((r ≡ pos 0) ↔ (s ≡ t))
unfolding strcmp
strcmp-zero_iff s t fuel mem p q np nq h k f = (
  compare_text s t,
  ground (arith, strcmp_loop-compare_text s t fuel mem p q h k f),
  (
    compare_text-zero s t (IsString-IsText mem p s h) (IsString-IsText mem q t k),
    λ e. rw (← e) (compare_text_self s),
  ),
)

-- The first place of `c` in front of any newline.
unfoldable pub find_char : ℕ → List ℕ → Option ℕ
find_char c [] = none
find_char c (d ∷ s) =
    let rest : Option ℕ = elim (find_char c s) [ none ↦ none | some i ↦ some (i + 1) ] in
    if d == b'\n' then none else if d == c then some 0 else rest

abbrev pub at_or_null : ℕ → Option ℕ → ℕ
at_or_null p none = null
at_or_null p (some i) = p + i

at_or_null_suc :
    (p : ℕ) (o : Option ℕ)
    → at_or_null (p + 1) o ≡ at_or_null p (elim o [ none ↦ none | some i ↦ some (i + 1) ])
at_or_null_suc p none = refl
at_or_null_suc p (some i) = omega arith

-- With fuel for more rounds than the string has bytes, `strchr` ends, and returns the address of the
-- first `c` in front of any newline, or NULL if there is none.
pub strchr-find_char :
    (s : List ℕ) (fuel : ℕ) (mem : Memory) (p c : ℕ)
    → IsString mem p s
    → length s < fuel
    → strchr fuel mem p c ≡ some (at_or_null p (find_char c s))
unfolding strchr find_char
strchr-find_char s zero mem p c h f = elim f [ ]
strchr-find_char [] (suc fuel) mem p c h f = ground arith
strchr-find_char (d ∷ s) (suc fuel) mem p c h f = ground (
  arith,
  strchr-find_char s fuel mem (p + 1) c h.2 (omega arith),
  at_or_null_suc p (find_char c s),
)
