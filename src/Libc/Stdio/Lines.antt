-- ===== src/Libc/Stdio/Lines.antt =====
-- Reading a line.
use sbuoperating_system.Prelude.{
  is_empty, append-nil, ℕ, zero, suc, ◌+◌, ◌-◌, ◌^◌, ◌<◌, ◌≤◌, ◌≡◌, ◌≢◌, refl, Bool, true, false,
  not, ◌||◌, List, [], ◌∷◌, ◌++◌, ◌==◌, arith, length, All,
}
use sbuoperating_system.Libc.Strings.{rounds}
use sbuoperating_system.Libc.Stdio.{
  one_byte, no_byte, Reading, as_int, is_eof, to_byte, fgetc, fgets_loop, fgets,
}

-- A byte that neither ends a line nor reads as EOF.
abbrev pub IsInner : ℕ → Type 0
IsInner b = (b < 255) × (b ≢ b'\n')

inner : (b : ℕ) → IsInner b → (is_eof (as_int b) ≡ false) × (to_byte (as_int b) ≡ b)
inner b (low, ne) = (ground arith, ground arith)

is_empty_snoc : (line : List ℕ) → is_empty (line ++ b'\n' ∷ []) ≡ false
is_empty_snoc [] = refl
is_empty_snoc (b ∷ line) = refl

not_or_true : (b : Bool) → not (b || true) ≡ false
not_or_true true = refl
not_or_true false = refl

module _ {ℓ} {S : Type ℓ} (read : S → Reading × S) where
  -- From `st` on `read` gives the bytes one by one, and leads to `last`.
  abbrev pub Delivers : S → List ℕ → S → Type ℓ
  Delivers st [] last = st ≡ last
  Delivers st (b ∷ bytes) last =
      (next : S) × (read st ≡ ((one_byte, b), next)) × Delivers next bytes last

  pub Delivers-split :
      (front back : List ℕ) (st last : S)
      → Delivers st (front ++ back) last
      → (mid : S) × Delivers st front mid × Delivers mid back last
  Delivers-split [] back st last d = (st, refl, d)
  Delivers-split (b ∷ front) back st last (next, got, more) =
      let (mid, first, second) = Delivers-split front back next last more in
      (mid, (next, got, first), second)

  fgets_loop-inner :
      (line : List ℕ) (n k : ℕ) (st mid : S)
      → n ≡ length line + k
      → All IsInner line
      → Delivers st line mid
      → fgets_loop read n st
        ≡ (let (text, at_end, last) = fgets_loop read k mid in (line ++ text, at_end, last))
  unfolding fgets_loop fgetc
  fgets_loop-inner [] n k st mid size h e = let same : n ≡ k = omega arith in rw (e, same)
  fgets_loop-inner (b ∷ line) zero k st mid size h d = absurd (omega arith)
  fgets_loop-inner (b ∷ line) (suc n) k st mid size (i, h) (next, got, more) =
      let (on, back) = inner b i in
      let line_on : (b == b'\n') ≡ false = ground (arith, i.1) in
      rw (
        fgets_loop,
        got,
        on,
        back,
        line_on,
        fgets_loop-inner line n k next mid (omega arith) h more,
      )

  -- If `read` gives the bytes of a line and its newline one by one, no byte of the line is 0xFF, and
  -- the line fits with its newline and the zero behind it, `fgets` stores it with its newline and
  -- returns the buffer, and reads nothing behind it. The size is below 2 ^ 31.
  pub fgets-line :
      (line : List ℕ) (size : ℕ) (st last : S)
      → All IsInner line
      → Delivers st (line ++ b'\n' ∷ []) last
      → length line + 2 ≤ size
      → size < 2 ^ 31
      → fgets read size st ≡ (line ++ b'\n' ∷ [], true, last)
  unfolding fgets
  fgets-line line size st last h d fits small =
      let (mid, first, (next, got, e)) = Delivers-split line (b'\n' ∷ []) st last d in
      let rounds_left : rounds size - 1 ≡ length line + suc (size - length line - 2) =
        ground arith in
      let newline : fgets_loop read (suc (size - length line - 2)) mid ≡ (b'\n' ∷ [], false, last) =
        unfold fgets_loop in unfold fgetc in rw (got, e) in
      rw (
        fgets_loop-inner line (rounds size - 1) _ st mid rounds_left h first,
        newline,
        is_empty_snoc line,
      )

  -- If `read` gives bytes that are neither newlines nor 0xFF and then the end of the file, and they
  -- leave room for another byte and the zero, `fgets` stores them, but returns NULL. The size is
  -- below 2 ^ 31.
  pub fgets-end :
      (line : List ℕ) (size c : ℕ) (st mid last : S)
      → All IsInner line
      → Delivers st line mid
      → read mid ≡ ((no_byte, c), last)
      → length line + 1 < size
      → size < 2 ^ 31
      → fgets read size st ≡ (line, false, last)
  unfolding fgets
  fgets-end line size c st mid last h d at_end fits small =
      let rounds_left : rounds size - 1 ≡ length line + suc (size - length line - 2) =
        ground arith in
      let stop : fgets_loop read (suc (size - length line - 2)) mid ≡ ([], true, last) =
        unfold fgets_loop in unfold fgetc in rw at_end in
      rw (
        fgets_loop-inner line (rounds size - 1) _ st mid rounds_left h d,
        stop,
        append-nil line,
        not_or_true (is_empty line),
      )

  -- If `read` gives as many bytes, neither newlines nor 0xFF, as fit with the zero behind them, at
  -- least one, `fgets` stores those, returns the buffer and reads nothing behind them. The size is
  -- below 2 ^ 31.
  pub fgets-part :
      (line : List ℕ) (size : ℕ) (st mid : S)
      → All IsInner line
      → Delivers st line mid
      → line ≢ []
      → size ≡ length line + 1
      → size < 2 ^ 31
      → fgets read size st ≡ (line, true, mid)
  unfolding fgets
  fgets-part [] size st mid h d ne fits small = absurd (ne refl)
  fgets-part (b ∷ line) size st mid h d ne fits small =
      let rounds_left : rounds size - 1 ≡ length (b ∷ line) + 0 = ground arith in
      let stop : fgets_loop read 0 mid ≡ ([], false, mid) = unfold fgets_loop in refl in
      rw (
        fgets_loop-inner (b ∷ line) (rounds size - 1) 0 st mid rounds_left h d,
        stop,
        append-nil line,
      )
