-- ===== src/Libc/Stdio/Output.antt =====
-- What the output functions write.
use sbuoperating_system.Prelude.{
  ℕ, ◌%◌, ◌^◌, ◌<◌, ◌≡◌, sym, List, [], ◌∷◌, ◌++◌, append-nil, append_assoc, ◌==◌, if◌then◌else◌,
  arith, All, ==_refl, Bool-cases, inl, inr,
}
use sbuoperating_system.Prelude.Int.{pos}
use sbuoperating_system.Libc.Stdio.{putchar, puts, print, fputs}

-- `puts` of a string of bytes never fails, and writes what `fputs` writes of it and then a newline.
pub puts-fputs :
    (s out : List ℕ) → All (λ b. b < 256) s → puts s out ≡ (pos 0, (fputs s out).1 ++ b'\n' ∷ [])
unfolding puts putchar fputs
puts-fputs [] out h = rw append-nil
puts-fputs (ch ∷ s) out (low, h) =
    let same : ch % 2 ^ 8 ≡ ch = omega arith in
    rw (puts, ==_refl ch, same, puts-fputs s (out ++ ch ∷ []) h, append_assoc out (ch ∷ []) s)

-- The bytes in front of the first newline.
abbrev pub first_line : List ℕ → List ℕ
first_line [] = []
first_line (ch ∷ s) = if ch == b'\n' then [] else ch ∷ first_line s

-- `print` of a string of bytes writes its first line, without the newline.
pub print-first_line :
    (s out : List ℕ) → All (λ b. b < 256) s → print s out ≡ (fputs (first_line s) out).1
unfolding print putchar fputs
print-first_line [] out h = sym (append-nil out)
print-first_line (ch ∷ s) out (low, h) =
    let same : ch % 2 ^ 8 ≡ ch = omega arith in
    elim (Bool-cases (ch == b'\n')) [
      | inl line ↦ rw (print, line, append-nil)
      | inr other ↦ rw (print, other, same, print-first_line s (out ++ ch ∷ []) h, append_assoc)
    ]
