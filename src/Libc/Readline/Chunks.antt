-- ===== src/Libc/Readline/Chunks.antt =====
-- A line that comes in chunks.
use sbuoperating_system.Prelude.{
  append-nil, append_assoc, ℕ, zero, suc, ◌+◌, ◌-◌, ◌*◌, ◌<◌, ◌≡◌, ◌≢◌, refl, ap, ◌∙◌, true, false,
  List, ◌++◌, some, ltb, ◌==◌, arith, length, get_or, length-append, take-length, drop-all,
  get_or-append,
}
use sbuoperating_system.Libc.Readline.{
  Reader, write_at, grow, max_buf_size, start, readline_loop, readline,
}
use sbuoperating_system.Libc.Stdio.{Block, block}

module _ {ℓ} {S : Type ℓ} (read : ℕ → S → Block S) where
  -- From `st` to `last` the reads of 4 bytes give `n` full chunks that do not end in a newline, and then a
  -- chunk that is short or ends in one; together they are `line`.
  pub data Chunks : S → List ℕ → S → ℕ → Type ℓ where
    short :
        {st last : S} {bytes : List ℕ} {n : ℕ}
        → n ≡ 0
        → read max_buf_size st ≡ block bytes last
        → length bytes < max_buf_size
        → Chunks st bytes last n
    newline :
        {st last : S} {bytes : List ℕ} {n : ℕ}
        → n ≡ 0
        → read max_buf_size st ≡ block bytes last
        → length bytes ≡ max_buf_size
        → get_or bytes 3 0 ≡ b'\n'
        → Chunks st bytes last n
    full :
        {st next last : S} {bytes rest line : List ℕ} {n : ℕ}
        → read max_buf_size st ≡ block bytes next
        → length bytes ≡ max_buf_size
        → get_or bytes 3 0 ≢ b'\n'
        → Chunks next rest last n
        → line ≡ bytes ++ rest
        → Chunks st line last (suc n)

  -- At the head of the loop every byte read stands in the block and 4 places are left.
  record AtEnd (r : Reader) : Type 0 where
    current : r.current ≡ length r.data_bytes
    total : r.total ≡ length r.data_bytes
    remaining : r.remaining ≡ max_buf_size
    size : max_buf_size * r.read_count ≡ r.total + max_buf_size

  write_at-end :
      (r : Reader) (bytes : List ℕ)
      → AtEnd r
      → write_at r.current bytes r.data_bytes ≡ r.data_bytes ++ bytes
  write_at-end r bytes e =
      rw
        (
          take-length r.data_bytes r.current e.current,
          drop-all r.data_bytes (r.current + length bytes) (omega (arith, e.current)),
        )
        (append-nil (r.data_bytes ++ bytes))

  abbrev after_full : Reader → List ℕ → Reader
  after_full r bytes = grow (record r {
    data_bytes = r.data_bytes ++ bytes;
    read_count = r.read_count + 1;
    total = r.total + length bytes;
    remaining = r.remaining - length bytes;
  })

  after_full-AtEnd :
      (r : Reader) (bytes : List ℕ)
      → AtEnd r
      → length bytes ≡ max_buf_size
      → (AtEnd (after_full r bytes)) × ((after_full r bytes).data_bytes ≡ r.data_bytes ++ bytes)
  after_full-AtEnd r bytes e four =
      let len = length-append r.data_bytes bytes in
      let all =
        take-length (r.data_bytes ++ bytes) (r.total + length bytes)
          (omega (arith, len, e.total)) in
      (
        record {
          current = omega (arith, ap length all, len, e.total);
          total = omega (arith, ap length all, len, e.total);
          remaining = omega (arith, e.size, four);
          size = omega (arith, e.size, four);
        },
        all,
      )

  readline_loop-Chunks :
      (fuel n : ℕ) (r : Reader) (st last : S) (line : List ℕ)
      → AtEnd r
      → Chunks st line last n
      → n < fuel
      → readline_loop read fuel r st ≡ some (r.data_bytes ++ line, last)
  unfolding readline_loop
  readline_loop-Chunks zero n r st last line e c h = elim h [ ]
  readline_loop-Chunks (suc fuel) n r st last line e (short z got less) h =
      let on : ltb (length line) max_buf_size ≡ true = ground (arith, less) in
      rw (readline_loop, ap (λ k. read k st) e.remaining ∙ got, on, write_at-end r line e) refl
  readline_loop-Chunks (suc fuel) n r st last line e (newline z got four nl) h =
      let off : ltb (length line) max_buf_size ≡ false = ground (arith, four) in
      let there : (get_or (r.data_bytes ++ line) (r.total + length line - 1) 0 == b'\n') ≡ true =
        ground (
          arith,
          nl,
          get_or-append r.data_bytes line (r.total + length line - 1) 3 0
              (omega (arith, e.total, four)),
        ) in
      rw (readline_loop, ap (λ k. read k st) e.remaining ∙ got, off, write_at-end r line e, there)
        refl
  readline_loop-Chunks (suc fuel) (suc n) r st last line e
        (full {next = next} {bytes = bytes} {rest = rest} got four ne more same) h =
      let off : ltb (length bytes) max_buf_size ≡ false = ground (arith, four) in
      let there : (get_or (r.data_bytes ++ bytes) (r.total + length bytes - 1) 0 == b'\n') ≡ false =
        ground (
          arith,
          ne,
          get_or-append r.data_bytes bytes (r.total + length bytes - 1) 3 0
              (omega (arith, e.total, four)),
        ) in
      let empty : (max_buf_size - length bytes == 0) ≡ true = ground (arith, four) in
      let (e', text) = after_full-AtEnd r bytes e four in
      let rest_runs =
        readline_loop-Chunks fuel n (after_full r bytes) next last rest e' more (omega arith) in
      rw
        (
          readline_loop,
          ap (λ k. read k st) e.remaining ∙ got,
          off,
          write_at-end r bytes e,
          there,
          ap (λ k. k - length bytes == 0) e.remaining ∙ empty,
        )
        (rest_runs
          ∙ rw (text, same) (ap (λ l. some (l, last)) (append_assoc r.data_bytes bytes rest)))

  -- If the reads of 4 bytes give a line in `n` full chunks that do not end in a newline and a last one that
  -- is short or ends in one, then with fuel for more than `n` rounds `readline` returns a buffer with
  -- exactly the bytes of the line, in their order, and reads nothing behind the last chunk.
  pub readline-Chunks :
      (fuel n : ℕ) (st last : S) (line : List ℕ)
      → Chunks st line last n
      → n < fuel
      → readline read fuel st ≡ some (line, last)
  unfolding readline
  readline-Chunks fuel n st last line c h =
      readline_loop-Chunks fuel n start st last line
        (record { current = refl; total = refl; remaining = refl; size = refl }) c h
