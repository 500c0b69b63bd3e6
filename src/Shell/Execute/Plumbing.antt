-- ===== src/Shell/Execute/Plumbing.antt =====
-- Where the standard input and output of each command of a pipe lead to.
use sbuoperating_system.Prelude.{
  ℕ, suc, ◌+◌, ◌-◌, ◌%◌, ◌^◌, ◌≡◌, ◌≢◌, refl, ap, sym, ◌∙◌, List, [], ◌∷◌, Option, none, some,
  arith, true, false, ◌==◌, if◌then◌else◌, length,
}
use sbuoperating_system.Shell.Parser.{CommandArgument}
use sbuoperating_system.Shell.Process.{
  Calls, fork, pipe, dup2, close, Answers, Process, then_run, exited,
}
use sbuoperating_system.Shell.Execute.{minus_one, execute_binary, run_piping}
use sbuoperating_system.Shell.Execute.Files.{
  File, reader, writer, pipes, effect, table, Works, duplicated, duplicate-duplicated,
  table-duplicated, Opens, table-Opens, forked, child_calls, parent_calls,
}

module _ (k : Answers) where
  -- `Child i cs fd log c log'`: a process that runs the commands `cs` on the input `fd` from `log` on forks
  -- as often as it takes to come to the one for the command `c`, `i` places on, which stands at `log'`; every
  -- call works.
  pub data Child : ℕ → List CommandArgument → ℕ → Calls → CommandArgument → Calls → Type 0 where
    alone :
        {i fd : ℕ} {c : CommandArgument} {log log' : Calls}
        → i ≡ 0
        → Works k log (dup2 fd 0)
        → log' ≡ duplicated k fd 0 log
        → Child i (c ∷ []) fd log c log'
    first :
        {i fd : ℕ} {c d : CommandArgument} {cs : List CommandArgument} {log log' : Calls}
        → i ≡ 0
        → Opens k log
        → forked k log ≡ 0
        → Works k (close (k.pipe_ends log).0 ∷ fork ∷ pipe ∷ log) (dup2 fd 0)
        → Works k
            (duplicated k fd 0 (close (k.pipe_ends log).0 ∷ fork ∷ pipe ∷ log))
            (dup2 (k.pipe_ends log).1 1)
        → log' ≡ child_calls k fd log
        → Child i (c ∷ d ∷ cs) fd log c log'
    later :
        {i fd : ℕ} {c d e : CommandArgument} {cs : List CommandArgument} {log log' : Calls}
        → Opens k log
        → forked k log ≢ 0
        → forked k log ≢ minus_one
        → Child i (d ∷ cs) (k.pipe_ends log).0 (parent_calls k log) e log'
        → Child (suc i) (c ∷ d ∷ cs) fd log e log'

module _ {S : Type 0} (k : Answers) (path : List ℕ) (stray : Option (List ℕ))
    (execute_file : CommandArgument → S → Process S) (fuel : ℕ) (s : S) where
  -- The calls of the process are those of `Child`.
  run_piping-Child :
      {i fd : ℕ} {cs : List CommandArgument} {log : Calls} {c : CommandArgument} {log' : Calls}
      → Child k i cs fd log c log'
      → run_piping k path stray execute_file fuel cs fd s log
        ≡ then_run (execute_binary k path stray execute_file fuel c s log') (λ u. exited)
  unfolding run_piping
  run_piping-Child {fd = fd} {log = log} (alone e works f) =
      rw (duplicate-duplicated k fd 0 log works, f) refl
  run_piping-Child {fd = fd} {log = log} (first {c = c} e opens born in_works out_works f) =
      let made : (k.result log pipe % 2 ^ 32 == minus_one) ≡ false = ground (arith, opens.works) in
      let fine : (forked k log == minus_one) ≡ false = ground (arith, born) in
      let child : (forked k log == 0) ≡ true = ground (arith, born) in
      let (r, w) = k.pipe_ends log in
      let at = close r ∷ fork ∷ pipe ∷ log in
      rw
        (
          made,
          fine,
          child,
          duplicate-duplicated k fd 0 at in_works,
          duplicate-duplicated k w 1 (duplicated k fd 0 at) out_works,
          f,
        )
        refl
  run_piping-Child {fd = fd} {log = log} (later {c = c} opens ne ne' child) =
      let made : (k.result log pipe % 2 ^ 32 == minus_one) ≡ false = ground (arith, opens.works) in
      let fine : (forked k log == minus_one) ≡ false = ground (arith, ne') in
      let parent : (forked k log == 0) ≡ false = ground (arith, ne) in
      rw (made, fine, parent) (run_piping-Child child)

-- The standard input, the standard output and `fd` are in use, and `fd` is not the output.
pub record IsOpen (k : Answers) (fd : ℕ) (log : Calls) : Type 0 where
  pub input : table k log 0 ≢ none
  pub output : table k log 1 ≢ none
  pub file_desc : table k log fd ≢ none
  pub apart : fd ≢ 1

-- Where the input and the output of command `i` of `n` lead, the process standing at `log` with `fd`.
abbrev pub input_of : Answers → ℕ → ℕ → Calls → Option File
input_of k i fd log = if i == 0 then table k log fd else some (reader (pipes log + i - 1))

abbrev pub output_of : Answers → ℕ → ℕ → Calls → Option File
output_of k i n log = if i + 1 == n then table k log 1 else some (writer (pipes log + i))

module _ (k : Answers) where
  table-parent :
      (f : ℕ) (log : Calls)
      → Opens k log
      → table k (parent_calls k log) f ≡ (
          if f == (k.pipe_ends log).0
          then some (reader (pipes log))
          else if f == (k.pipe_ends log).1
          then none
          else table k log f)
  unfolding table effect
  table-parent f log opens = ground (arith, opens.apart, opens.works)

  unused : (f g : ℕ) (log : Calls) → table k log f ≢ none → table k log g ≡ none → f ≢ g
  unused f g log used free e = used (ap (table k log) e ∙ free)

  parent-IsOpen :
      (fd : ℕ) (log : Calls)
      → Opens k log
      → IsOpen k fd log
      → IsOpen k (k.pipe_ends log).0 (parent_calls k log)
  parent-IsOpen fd log opens usable = record {
    input = λ e.
        ground (arith, e, table-parent 0 log opens, opens.read_end, opens.write_end, usable.input);
    output = λ e.
        ground (arith, e, table-parent 1 log opens, opens.read_end, opens.write_end, usable.output);
    file_desc = λ e. ground (arith, e, table-parent (k.pipe_ends log).0 log opens);
    apart = λ e. unused 1 (k.pipe_ends log).0 log usable.output opens.read_end (sym e);
  }

  pipes-parent : (log : Calls) → pipes (parent_calls k log) ≡ pipes log + 1
  unfolding pipes
  pipes-parent log = refl

  table-close :
      (r f : ℕ) (log : Calls)
      → table k (close r ∷ fork ∷ pipe ∷ log) f ≡ (if f == r then none else table k (pipe ∷ log) f)
  unfolding table effect
  table-close r f log = refl

  -- The table of the child in front of its command.
  table-child :
      (fd : ℕ) (log : Calls)
      → Opens k log
      → IsOpen k fd log
      → Works k (close (k.pipe_ends log).0 ∷ fork ∷ pipe ∷ log) (dup2 fd 0)
      → Works k
          (duplicated k fd 0 (close (k.pipe_ends log).0 ∷ fork ∷ pipe ∷ log))
          (dup2 (k.pipe_ends log).1 1)
      → (table k (child_calls k fd log) 0 ≡ table k log fd)
        × (table k (child_calls k fd log) 1 ≡ some (writer (pipes log)))
  table-child fd log opens usable in_works out_works =
      let (r, w) = k.pipe_ends log in
      let at = close r ∷ fork ∷ pipe ∷ log in
      let r_fd = unused fd r log usable.file_desc opens.read_end in
      let w_fd = unused fd w log usable.file_desc opens.write_end in
      let w_0 = unused 0 w log usable.input opens.write_end in
      let w_1 = unused 1 w log usable.output opens.write_end in
      (
        table-duplicated k w 1 0 (duplicated k fd 0 at) out_works
            ∙ ground (
              arith,
              w_0,
              r_fd,
              w_fd,
              table-duplicated k fd 0 0 at in_works,
              table-close r fd log,
              table-Opens k log fd opens,
            ),
        table-duplicated k w 1 1 (duplicated k fd 0 at) out_works
            ∙ ground (
              arith,
              w_0,
              w_fd,
              opens.apart,
              table-duplicated k fd 0 w at in_works,
              table-close r w log,
              table-Opens k log w opens,
            ),
      )

  connects :
      {i fd : ℕ} {cs : List CommandArgument} {log : Calls} {c : CommandArgument} {log' : Calls}
      → Child k i cs fd log c log'
      → IsOpen k fd log
      → (table k log' 0 ≡ input_of k i fd log) × (table k log' 1 ≡ output_of k i (length cs) log)
  connects {fd = fd} {log = log} (alone e works f) usable = (
    ground (arith, e, f, table-duplicated k fd 0 0 log works),
    ground (arith, e, f, table-duplicated k fd 0 1 log works, usable.apart),
  )
  connects {fd = fd} {log = log} (first e opens born in_works out_works f) usable =
      let (input, output) = table-child fd log opens usable in_works out_works in
      (rw (e, f) input, ground (arith, e, f, output))
  connects {fd = fd} {log = log} (later opens ne ne' child) usable =
      let (input, output) = connects child (parent-IsOpen fd log opens usable) in
      let here = pipes-parent log in
      (
        ground (arith, here, input, table-parent (k.pipe_ends log).0 log opens),
        ground (
          arith,
          here,
          output,
          table-parent 1 log opens,
          unused 1 (k.pipe_ends log).0 log usable.output opens.read_end,
          unused 1 (k.pipe_ends log).1 log usable.output opens.write_end,
        ),
      )

module _ {S : Type 0} (k : Answers) (path : List ℕ) (stray : Option (List ℕ))
    (execute_file : CommandArgument → S → Process S) (fuel : ℕ) (s : S) where
  -- In a pipe of the commands `cs` each of whose calls works, with input and output in use and `fd` not the
  -- output, the process for command `i` runs that command where its input is `fd` for the first one and the
  -- read end of the pipe in front of it for any other, and its output is that of the whole pipe for the last
  -- one and the write end of the pipe behind it for any other; behind the command the process exits.
  pub run_piping-connects :
      {i fd : ℕ} {cs : List CommandArgument} {log : Calls} {c : CommandArgument} {log' : Calls}
      → Child k i cs fd log c log'
      → IsOpen k fd log
      → (run_piping k path stray execute_file fuel cs fd s log
          ≡ then_run (execute_binary k path stray execute_file fuel c s log') (λ u. exited))
        × (table k log' 0 ≡ input_of k i fd log)
        × (table k log' 1 ≡ output_of k i (length cs) log)
  run_piping-connects child usable =
      let (input, output) = connects k child usable in
      (run_piping-Child k path stray execute_file fuel s child, input, output)
