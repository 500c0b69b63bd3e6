-- ===== src/Shell/Pipes/Split.antt =====
-- A line of commands joined by `|` is split at exactly those places.
use sbuoperating_system.Prelude.{
  ℕ, suc, ◌+◌, ◌%◌, ◌^◌, ◌<◌, ◌≡◌, refl, ap, ◌∙◌, false, List, [], ◌∷◌, ◌++◌, none, some, ◌==◌,
  arith, length, All,
}
use sbuoperating_system.Libc.Strings.Scans.{find_char}
use sbuoperating_system.Shell.Parser.{CommandArgument, Result, ok, ◌>>=◌, parse_input}
use sbuoperating_system.Shell.Pipes.{
  rounds_to, count_loop, count_number_of_pipes, cut_at_pipe, parse_pipe_command, piped,
  parse_and_execute_command,
}

-- The segments `s` and `ts`, joined by `|`.
abbrev pub join : List ℕ → List (List ℕ) → List ℕ
join s [] = s
join s (t ∷ ts) = s ++ b'|' ∷ join t ts

-- No segment has a `|`, and only the last one may have a newline.
abbrev pub AllPlain : List ℕ → List (List ℕ) → Type 0
AllPlain s [] = All (λ ch. (ch == b'|') ≡ false) s
AllPlain s (t ∷ ts) = All (λ ch. ((ch == b'|') ≡ false) × ((ch == b'\n') ≡ false)) s × AllPlain t ts

-- Each segment parsed by itself, in their order.
abbrev pub parse_each :
    (ℕ → ℕ → List ℕ) → ℕ → List ℕ → List (List ℕ) → Result (List CommandArgument)
parse_each fresh i s [] = do c ← parse_input (fresh i) s b' '; ok (c ∷ [])
parse_each fresh i s (t ∷ ts) = do
  c ← parse_input (fresh i) s b' '
  cs ← parse_each fresh (i + 1) t ts
  ok (c ∷ cs)

cut_at_pipe-append :
    (s rest : List ℕ)
    → All (λ ch. ((ch == b'|') ≡ false) × ((ch == b'\n') ≡ false)) s
    → cut_at_pipe (s ++ b'|' ∷ rest) ≡ some (s, rest)
unfolding cut_at_pipe
cut_at_pipe-append [] rest h = refl
cut_at_pipe-append (ch ∷ s) rest ((p, n), h) = rw (n, p, cut_at_pipe-append s rest h)

cut_at_pipe-plain : (s : List ℕ) → All (λ ch. (ch == b'|') ≡ false) s → cut_at_pipe s ≡ none
unfolding cut_at_pipe
cut_at_pipe-plain [] h = refl
cut_at_pipe-plain (ch ∷ s) (p, h) = rw (p, cut_at_pipe-plain s h) (ground arith)

find_char-append :
    (s rest : List ℕ)
    → All (λ ch. ((ch == b'|') ≡ false) × ((ch == b'\n') ≡ false)) s
    → (i : ℕ) × (find_char b'|' (s ++ b'|' ∷ rest) ≡ some i)
unfolding find_char
find_char-append [] rest h = (0, refl)
find_char-append (ch ∷ s) rest ((p, n), h) =
    let (i, found) = find_char-append s rest h in (i + 1, rw (n, p, found))

parse_pipe_command-join :
    (fresh : ℕ → ℕ → List ℕ) (i : ℕ) (s : List ℕ) (ts : List (List ℕ))
    → AllPlain s ts
    → parse_pipe_command fresh (suc (length ts)) i (join s ts) ≡ parse_each fresh i s ts
unfolding parse_pipe_command
parse_pipe_command-join fresh i s [] h = rw (parse_pipe_command, cut_at_pipe-plain s h)
parse_pipe_command-join fresh i s (t ∷ ts) (h, k) =
    rw (parse_pipe_command, cut_at_pipe-append s (join t ts) h)
      (ap (λ r. parse_input (fresh i) s b' ' >>= (λ c. r >>= (λ cs. ok (c ∷ cs))))
        (parse_pipe_command-join fresh (i + 1) t ts k))

count_loop-plain : (s : List ℕ) (n : ℕ) → All (λ ch. (ch == b'|') ≡ false) s → count_loop s n ≡ n
unfolding count_loop
count_loop-plain [] n h = refl
count_loop-plain (ch ∷ s) n (p, h) = rw (count_loop, p) (count_loop-plain s n h)

count_loop-append :
    (s rest : List ℕ) (n : ℕ)
    → All (λ ch. ((ch == b'|') ≡ false) × ((ch == b'\n') ≡ false)) s
    → count_loop (s ++ rest) n ≡ count_loop rest n
unfolding count_loop
count_loop-append [] rest n h = refl
count_loop-append (ch ∷ s) rest n ((p, q), h) = rw (count_loop, p) (count_loop-append s rest n h)

count_loop-join :
    (s : List ℕ) (ts : List (List ℕ)) (n : ℕ)
    → AllPlain s ts
    → n + length ts < 2 ^ 32
    → count_loop (join s ts) n ≡ n + length ts
unfolding count_loop
count_loop-join s [] n h few = count_loop-plain s n h ∙ omega arith
count_loop-join s (t ∷ ts) n (h, k) few =
    let keep : (n + 1) % 2 ^ 32 ≡ n + 1 = omega arith in
    let ih = count_loop-join t ts (n + 1) k (omega arith) in
    rw (count_loop-append s (b'|' ∷ join t ts) n h, count_loop, keep) (ih ∙ omega arith)

-- A line of two or more segments between `|`, no `|` in them and a newline in the last one alone, is
-- parsed segment by segment in their order, and leads to the processes of a pipe if every command that
-- is found has a name, and else to the message on the syntax. There are fewer than 2 ^ 31 segments.
pub parse_and_execute-join :
    (fresh : ℕ → ℕ → List ℕ) (s t : List ℕ) (ts : List (List ℕ))
    → AllPlain s (t ∷ ts)
    → length ts + 1 < 2 ^ 31
    → (count_number_of_pipes (join s (t ∷ ts)) ≡ suc (length ts))
      × (parse_and_execute_command fresh (join s (t ∷ ts))
          ≡ (parse_each fresh 0 s (t ∷ ts) >>= (λ cs. ok (piped cs))))
unfolding parse_and_execute_command count_number_of_pipes
parse_and_execute-join fresh s t ts h few =
    let counted : count_loop (join s (t ∷ ts)) 0 ≡ suc (length ts) =
      count_loop-join s (t ∷ ts) 0 h (omega arith) ∙ omega arith in
    let (i, found) = find_char-append s (join t ts) h.0 in
    let rounds : rounds_to (suc (length ts)) ≡ suc (suc (length ts)) = ground arith in
    (
      counted,
      rw (parse_and_execute_command, found, counted, rounds)
          (ap (λ r. r >>= (λ cs. ok (piped cs))) (parse_pipe_command-join fresh 0 s (t ∷ ts) h)),
    )
