-- ===== src/Cat/Copy.antt =====
-- What `cat` copies.
use sbuoperating_system.Prelude.{
  ℕ, zero, suc, ◌<◌, ◌≡◌, ◌≢◌, refl, true, false, List, [], ◌∷◌, ◌++◌, some, ◌==◌, arith, length,
  take, sym, ◌∙◌, append-nil, append_assoc, ltb, ◌^◌, if◌then◌else◌,
}
use sbuoperating_system.Prelude.Int.{ℤ, pos, negsuc}
use sbuoperating_system.Libc.Stdio.{Block, error, block}
use sbuoperating_system.Memory.{codes}
use sbuoperating_system.Libc.Environ.{is_zero}
use sbuoperating_system.Cat.{buffer_size, cat, Calls, main}

-- How a copy ends.
pub data Ending : Type 0 where
  at_end : Ending
  read_error : Ending
  short_write : Ending

abbrev pub result_of : Ending → ℤ
result_of at_end = pos 0
result_of read_error = negsuc 0
result_of short_write = negsuc 0

module _ {ℓ} {S : Type ℓ} (read : ℕ → S → Block S) (write : List ℕ → S → ℕ × S)
    (out : S → List ℕ) where
  -- From `st` to `last`, `n` chunks are read and written in full, and then the copy ends: no more bytes, a
  -- read that fails, or a write of another count than its chunk. `out` is the output, to which a read adds
  -- nothing and a write as many bytes as it answers; `text` is what is added.
  pub data Copies : S → List ℕ → Ending → S → ℕ → Type ℓ where
    finished :
        {st last : S} {n : ℕ}
        → n ≡ 0
        → read buffer_size st ≡ block [] last
        → out last ≡ out st
        → Copies st [] at_end last n
    broken :
        {st last : S} {n : ℕ}
        → n ≡ 0
        → read buffer_size st ≡ error last
        → out last ≡ out st
        → Copies st [] read_error last n
    refused :
        {st mid last : S} {b count : ℕ} {bytes text : List ℕ} {n : ℕ}
        → n ≡ 0
        → read buffer_size st ≡ block (b ∷ bytes) mid
        → write (b ∷ bytes) mid ≡ (count, last)
        → count ≢ length (b ∷ bytes)
        → out last ≡ out st ++ take count (b ∷ bytes)
        → text ≡ take count (b ∷ bytes)
        → Copies st text short_write last n
    copied :
        {st mid next last : S} {b : ℕ} {bytes rest text : List ℕ} {ending : Ending} {n : ℕ}
        → read buffer_size st ≡ block (b ∷ bytes) mid
        → write (b ∷ bytes) mid ≡ (length (b ∷ bytes), next)
        → out next ≡ out st ++ b ∷ bytes
        → Copies next rest ending last n
        → text ≡ b ∷ bytes ++ rest
        → Copies st text ending last (suc n)

  -- With fuel for more than the `n` chunks that are copied in full, `cat` ends and adds to the output what
  -- was read, in its order; it returns 0 if it came to the end of the file, and -1 if a read failed or a
  -- write answered another count than its chunk, of which that many bytes are then the last in the output.
  pub cat-Copies :
      (fuel : ℕ) {n : ℕ} {st last : S} {text : List ℕ} {ending : Ending}
      → Copies st text ending last n
      → n < fuel
      → (cat read write fuel st ≡ some (result_of ending, last)) × (out last ≡ out st ++ text)
  unfolding cat
  cat-Copies zero c h = elim h [ ]
  cat-Copies (suc fuel) (finished z got same) h = (rw (cat, got) refl, same ∙ sym (append-nil _))
  cat-Copies (suc fuel) (broken z got same) h = (rw (cat, got) refl, same ∙ sym (append-nil _))
  cat-Copies (suc fuel) (refused {b = b} {count = count} {bytes = bytes} z got put ne added e) h =
      let off : (count == length (b ∷ bytes)) ≡ false = ground (arith, ne) in
      (rw (cat, got, put, off) refl, rw e added)
  cat-Copies (suc fuel)
        (copied {st = st} {b = b} {bytes = bytes} {rest = rest} got put added more e) h =
      let on : (length (b ∷ bytes) == length (b ∷ bytes)) ≡ true = ground arith in
      let (ran, out_rest) = cat-Copies fuel more (omega arith) in
      (
        rw (cat, got, put, on, ran) refl,
        out_rest ∙ rw (added, e) (append_assoc (out st) (b ∷ bytes) rest),
      )

-- What `main` prints behind a copy.
abbrev pub message_of : Ending → List ℕ
message_of at_end = []
message_of read_error = codes "Failed to write file to standard output\n"
message_of short_write = codes "Failed to write file to standard output\n"

-- The output changes with `write` and `fputs` alone.
pub record Prints {ℓ} {S : Type ℓ} (calls : Calls S) (out : S → List ℕ) : Type ℓ where
  pub opens : (name : List ℕ) (st : S) → out (calls.open_file name st).1 ≡ out st
  pub closes : (fd : ℕ) (st : S) → out (calls.close fd st) ≡ out st
  pub prints : (text : List ℕ) (st : S) → out (calls.fputs text st) ≡ out st ++ text

-- The system behind the message and the `close`.
abbrev closing {ℓ} : {S : Type ℓ} → Calls S → ℕ → Ending → S → S
closing calls fd ending last = calls.close fd (
    if is_zero (result_of ending)
    then last
    else calls.fputs (codes "Failed to write file to standard output\n") last)

out-closing {ℓ} :
    {S : Type ℓ} (calls : Calls S) (out : S → List ℕ) (fd : ℕ) (ending : Ending) (last : S)
    → Prints calls out
    → out (closing calls fd ending last) ≡ out last ++ message_of ending
out-closing calls out fd at_end last p = p.closes fd last ∙ sym (append-nil _)
out-closing calls out fd read_error last p = p.closes fd _ ∙ p.prints _ last
out-closing calls out fd short_write last p = p.closes fd _ ∙ p.prints _ last

-- With an argument and a first one that can be opened, `main` copies the file to the output with fuel for
-- more than the `n` chunks that are copied in full, prints a message behind it unless the copy came to the
-- end of the file, and returns 1 in any case.
pub main-Copies {ℓ} :
    {S : Type ℓ} (calls : Calls S) (out : S → List ℕ) (fuel argc : ℕ) (name : List ℕ) {st last : S}
    {n : ℕ} {text : List ℕ} {ending : Ending}
    → Prints calls out
    → argc ≢ 0
    → let (fd, opened) = calls.open_file name st in
      fd < 2 ^ 31
      → Copies (calls.read fd) (calls.write 1) out opened text ending last n
      → n < fuel
      → (final : S) × (main calls fuel argc name st ≡ some (1, final))
        × (out final ≡ out st ++ text ++ message_of ending)
unfolding main
main-Copies {S} calls out fuel argc name {st} {last} {text = text} {ending = ending} p named fine c
      h =
    let (fd, opened) = calls.open_file name st in
    let (ran, added) = cat-Copies (calls.read fd) (calls.write 1) out fuel c h in
    let more : (argc == 0) ≡ false = ground (arith, named) in
    let real : ltb fd (2 ^ 31) ≡ true = ground (arith, fine) in
    (
      closing calls fd ending last,
      rw (more, real, ran) refl,
      out-closing calls out fd ending last p ∙ rw (added, p.opens name st) refl,
    )
