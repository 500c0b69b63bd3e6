-- ===== src/Libc/Stdio/Gets.antt =====
-- Reading a line with `gets`.
use sbuoperating_system.Prelude.{
  ℕ, zero, suc, ◌<◌, ◌≤◌, ◌≡◌, ◌≢◌, ◌⊎◌, ◌||◌, refl, true, false, List, [], ◌∷◌, ◌++◌, some, arith,
  length, All,
}
use sbuoperating_system.Libc.Stdio.{
  one_byte, Reading, as_int, is_eof, to_byte, is_char, getchar, skip_blanks, gets_loop, gets,
  line_length,
}
use sbuoperating_system.Libc.Stdio.Lines.{IsInner, Delivers, Delivers-split}

abbrev pub IsBlank : ℕ → Type 0
IsBlank b = (b ≡ b' ') ⊎ (b ≡ b'\t')

module _ {ℓ} {S : Type ℓ} (read : S → Reading × S) where
  skip_blanks-skips :
      (blanks : List ℕ) (b fuel : ℕ) (st mid next : S)
      → All IsBlank blanks
      → Delivers read st blanks mid
      → read mid ≡ ((one_byte, b), next)
      → b ≢ b' '
      → b ≢ b'\t'
      → b < 255
      → length blanks < fuel
      → skip_blanks read fuel st ≡ some (as_int b, next)
  unfolding skip_blanks getchar
  skip_blanks-skips blanks b zero st mid next h d got ns nt low f = elim f [ ]
  skip_blanks-skips [] b (suc fuel) st mid next h d got ns nt low f =
      let stop : (is_char b' ' (as_int b) || is_char b'\t' (as_int b)) ≡ false = ground arith in
      rw (skip_blanks, d, got, stop) refl
  skip_blanks-skips (c ∷ blanks) b (suc fuel) st mid next (blank, h) (st', read_c, d) got ns nt low
        f =
      let on : (is_char b' ' (as_int c) || is_char b'\t' (as_int c)) ≡ true =
        ground (arith, blank) in
      rw (skip_blanks, read_c, on)
        (skip_blanks-skips blanks b fuel st' mid next h d got ns nt low (omega arith))

  gets_loop-line :
      (line : List ℕ) (b k : ℕ) (st mid last : S)
      → IsInner b
      → All IsInner line
      → Delivers read st line mid
      → read mid ≡ ((one_byte, b'\n'), last)
      → length line < k
      → gets_loop read k (as_int b) st ≡ (b ∷ line, last)
  unfolding gets_loop getchar
  gets_loop-line line b zero st mid last i h d end f = elim f [ ]
  gets_loop-line [] b (suc k) st mid last i h d end f =
      let back : to_byte (as_int b) ≡ b = ground (arith, i.0) in rw (gets_loop, d, end, back) refl
  gets_loop-line (c ∷ line) b (suc k) st mid last i (j, h) (st', read_c, d) end f =
      let back : to_byte (as_int b) ≡ b = ground (arith, i.0) in
      let on : (is_char b'\n' (as_int c) || is_eof (as_int c)) ≡ false = ground (arith, j.0, j.1) in
      rw (gets_loop, read_c, on, back, gets_loop-line line c k st' mid last j h d end (omega arith))
        refl

  -- If `read` gives blanks and then a line of 1 to 1024 bytes, the first of them no blank and none of them
  -- 0xFF, with its newline, then with fuel for more than the blanks `gets` stores the line without its
  -- newline and reads nothing behind it; its result points to the zero behind the line, not to its start.
  pub gets-line :
      (blanks : List ℕ) (b : ℕ) (line : List ℕ) (fuel : ℕ) (st last : S)
      → All IsBlank blanks
      → b ≢ b' '
      → b ≢ b'\t'
      → All IsInner (b ∷ line)
      → Delivers read st (blanks ++ (b ∷ line ++ b'\n' ∷ [])) last
      → length (b ∷ line) ≤ line_length
      → length blanks < fuel
      → gets read fuel st ≡ some (b ∷ line, some (length (b ∷ line)), last)
  unfolding gets
  gets-line blanks b line fuel st last blank ns nt (i, h) d fits f =
      let (mid, front, (next, read_b, back)) =
        Delivers-split read blanks (b ∷ line ++ b'\n' ∷ []) st last d in
      let (end, inside, (after, read_newline, e)) =
        Delivers-split read line (b'\n' ∷ []) next last back in
      let off : is_char b'\n' (as_int b) ≡ false = ground (arith, i.0, i.1) in
      rw
        (
          gets,
          skip_blanks-skips blanks b fuel st mid next blank front read_b ns nt i.0 f,
          off,
          gets_loop-line line b line_length next end after i h inside read_newline (omega arith),
          e,
        )
        refl
