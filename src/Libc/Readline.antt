-- ===== src/Libc/Readline.antt =====
-- `readline`, libc/readline.c. `read` takes the number of bytes asked for and gives the bytes read
-- or -1. The buffer is the list of the bytes written to it; `malloc` gives a fresh block each time.
pub mod Chunks
mod Tests
use sbuoperating_system.Prelude.{
  ℕ, zero, suc, ◌+◌, ◌-◌, ◌*◌, Bool, true, false, List, [], ◌∷◌, ◌++◌, Option, none, some, ltb,
  ◌==◌, if◌then◌else◌, length, get_or, take, drop,
}
use sbuoperating_system.Libc.Stdio.{Block, error, block}

abbrev pub max_buf_size : ℕ
max_buf_size = 4

-- `data`, `currentBufPtr - data`, `readCount`, `totalReadBytes` and `remainingSpaceInBuf`.
pub record Reader : Type 0 where
  pub data_bytes : List ℕ
  pub current : ℕ
  pub read_count : ℕ
  pub total : ℕ
  pub remaining : ℕ

-- `bytes` written over `data` from `at` on.
abbrev pub write_at : ℕ → List ℕ → List ℕ → List ℕ
write_at at bytes data_bytes = take at data_bytes ++ bytes ++ drop (at + length bytes) data_bytes

-- The new block of `MAX_BUF_SIZE * readCount` bytes with the first `total` bytes copied.
abbrev pub grow : Reader → Reader
grow r = record r {
  data_bytes = take r.total r.data_bytes;
  current = r.total;
  remaining = max_buf_size * r.read_count - r.total;
}

abbrev pub start : Reader
start = record { data_bytes = []; current = 0; read_count = 1; total = 0; remaining = max_buf_size }

module _ {ℓ} {S : Type ℓ} (read : ℕ → S → Block S) where
  -- The loop, on fuel: its condition holds whenever it is reached, as `readBytes` is not -1 there.
  pub readline_loop : ℕ → Reader → S → Option (List ℕ × S)
  readline_loop zero r st = none
  readline_loop (suc fuel) r st = elim (read r.remaining st) [
    | error st ↦ some (r.data_bytes, st)
    | block bytes st ↦
        let text = write_at r.current bytes r.data_bytes in
        let r : Reader = record r {
          data_bytes = text;
          read_count = r.read_count + 1;
          total = r.total + length bytes;
          remaining = r.remaining - length bytes;
        } in
        let rest = readline_loop fuel (if r.remaining == 0 then grow r else r) st in
        if ltb (length bytes) max_buf_size
        then some (text, st)
        else if get_or text (r.total - 1) 0 == b'\n'
        then some (text, st)
        else rest
  ]

  -- The prompt is not used.
  pub readline : ℕ → S → Option (List ℕ × S)
  unfolding readline_loop
  readline fuel st = readline_loop fuel start st
