-- ===== src/Shell/Execute/Files.antt =====
-- What the descriptors of a process lead to behind its calls.
use sbuoperating_system.Prelude.{
  ℕ, ◌+◌, ◌%◌, ◌^◌, ◌≡◌, ◌≢◌, refl, List, [], ◌∷◌, Option, none, some, arith, inl, inr, false,
  Bool-cases, ◌==◌, if◌then◌else◌, ltb,
}
use sbuoperating_system.Shell.Process.{
  Call, Calls, write, fork, setpgid, execve, exit, waitpid, pipe, dup2, close, chdir, getcwd,
  open_file, read_line, Answers, Run,
}
use sbuoperating_system.Shell.Execute.{minus_one, duplicate_file_descriptors_from_input_to_output}

-- What a descriptor leads to: what descriptor `n` led to at the start, an end of the pipe number `n`, or a
-- script.
pub data File : Type 0 where
  given : ℕ → File
  reader : ℕ → File
  writer : ℕ → File
  script : List ℕ → File

abbrev pub Table : Type 0
Table = ℕ → Option File

unfoldable pub pipes : Calls → ℕ
pipes [] = 0
pipes (pipe ∷ log) = pipes log + 1
pipes (write text ∷ log) = pipes log
pipes (fork ∷ log) = pipes log
pipes (setpgid pid pgid ∷ log) = pipes log
pipes (execve file argv ∷ log) = pipes log
pipes (exit ∷ log) = pipes log
pipes (waitpid pid ∷ log) = pipes log
pipes (dup2 old_fd new_fd ∷ log) = pipes log
pipes (close fd ∷ log) = pipes log
pipes (chdir path ∷ log) = pipes log
pipes (getcwd ∷ log) = pipes log
pipes (open_file file ∷ log) = pipes log
pipes (read_line fd ∷ log) = pipes log

module _ (k : Answers) where
  -- A call does what it is documented to do, unless it answers -1.
  unfoldable pub effect : Calls → Call → Table → Table
  effect log pipe t f =
      let (r, w) = k.pipe_ends log in
      if k.result log pipe % 2 ^ 32 == minus_one
      then t f
      else if f == r
      then some (reader (pipes log))
      else if f == w
      then some (writer (pipes log))
      else t f
  effect log (dup2 old_fd new_fd) t f =
      if k.result log (dup2 old_fd new_fd) % 2 ^ 32 == minus_one
      then t f
      else if f == new_fd
      then t old_fd
      else t f
  effect log (close fd) t f = if f == fd then none else t f
  effect log (write text) t f = t f
  effect log fork t f = t f
  effect log (setpgid pid pgid) t f = t f
  effect log (execve file argv) t f = t f
  effect log exit t f = t f
  effect log (waitpid pid) t f = t f
  effect log (chdir path) t f = t f
  effect log getcwd t f = t f
  effect log (open_file file) t f =
      if k.result log (open_file file) % 2 ^ 32 == minus_one
      then t f
      else if f == k.result log (open_file file) % 2 ^ 32
      then some (script file)
      else t f
  effect log (read_line fd) t f = t f

  -- The descriptors of the process behind its calls, which starts with the three standard ones.
  unfoldable pub table : Calls → Table
  table [] n = if ltb n 3 then some (given n) else none
  table (c ∷ log) n = effect log c (table log) n

  abbrev pub Works : Calls → Call → Type 0
  Works log c = k.result log c % 2 ^ 32 ≢ minus_one

  abbrev pub duplicated : ℕ → ℕ → Calls → Calls
  duplicated old_fd new_fd log =
      if old_fd == new_fd then log else close old_fd ∷ dup2 old_fd new_fd ∷ log

  pub duplicate-duplicated :
      (old_fd new_fd : ℕ) (log : Calls)
      → Works log (dup2 old_fd new_fd)
      → duplicate_file_descriptors_from_input_to_output k old_fd new_fd log
        ≡ Run.returned tt (duplicated old_fd new_fd log)
  unfolding duplicate_file_descriptors_from_input_to_output
  duplicate-duplicated old_fd new_fd log works = elim (Bool-cases (old_fd == new_fd)) [
    | inl same ↦ rw same refl
    | inr other ↦
        let fine : (k.result log (dup2 old_fd new_fd) % 2 ^ 32 == minus_one) ≡ false =
          ground (arith, works) in
        rw (other, fine) refl
  ]

  pub table-duplicated :
      (old_fd new_fd f : ℕ) (log : Calls)
      → Works log (dup2 old_fd new_fd)
      → table (duplicated old_fd new_fd log) f
        ≡ (if f == new_fd then table log old_fd else if f == old_fd then none else table log f)
  unfolding table effect
  table-duplicated old_fd new_fd f log works = ground arith

  -- `pipe` works, with two descriptors that were not in use.
  pub record Opens (log : Calls) : Type 0 where
    pub works : Works log pipe
    pub read_end : table log (k.pipe_ends log).0 ≡ none
    pub write_end : table log (k.pipe_ends log).1 ≡ none
    pub apart : (k.pipe_ends log).0 ≢ (k.pipe_ends log).1

  pub table-Opens :
      (log : Calls) (f : ℕ)
      → Opens log
      → table (pipe ∷ log) f ≡ (
          if f == (k.pipe_ends log).0
          then some (reader (pipes log))
          else if f == (k.pipe_ends log).1
          then some (writer (pipes log))
          else table log f)
  unfolding table effect
  table-Opens log f opens = ground (arith, opens.works)

  abbrev pub forked : Calls → ℕ
  forked log = k.result (pipe ∷ log) fork % 2 ^ 32

  -- The calls of the child in front of its command, and those of the parent in front of the next round.
  abbrev pub child_calls : ℕ → Calls → Calls
  child_calls fd log =
      let (r, w) = k.pipe_ends log in duplicated w 1 (duplicated fd 0 (close r ∷ fork ∷ pipe ∷ log))

  abbrev pub parent_calls : Calls → Calls
  parent_calls log = close (k.pipe_ends log).1 ∷ fork ∷ pipe ∷ log
