-- ===== src/Shell/Script/Lines.antt =====
-- Which lines of a script are run.
use sbuoperating_system.Prelude.{ℕ, ◌≡◌, refl, ap, true, false, List, [], ◌∷◌, ◌++◌, some, All}
use sbuoperating_system.Libc.Strings.Scans.{compare_text}
use sbuoperating_system.Libc.Environ.{same_text}
use sbuoperating_system.Shell.Process.{Answers, Process, ◌>>=◌, ◌>>◌, done, call, close, read_line}
use sbuoperating_system.Shell.Commands.{Shell}
use sbuoperating_system.Shell.Script.{
  stops, sbush_line, after_line, script_loop, open_first, execute_file,
}

pub same_sbush : same_text sbush_line sbush_line ≡ true
unfolding same_text compare_text
same_sbush = refl

-- The lines are read and run one behind the other, and one read more finds the end.
unfoldable pub run_all :
    Answers → (List ℕ → Shell → Process Shell) → ℕ → List (List ℕ) → Shell → Process Shell
run_all k run_line fd [] sh = do call k (read_line fd); done sh
run_all k run_line fd (line ∷ lines) sh = do
  call k (read_line fd)
  sh' ← run_line line sh
  run_all k run_line fd lines sh'

-- A line that does not end the script, before it is run or behind it.
abbrev pub IsRun : List ℕ → Type 0
IsRun line = (stops (some line) ≡ false) × (stops (some (after_line line)) ≡ false)

-- The end of the file, or a line that ends the script.
abbrev pub IsEnd : List (List ℕ) → Type 0
IsEnd [] = Unit
IsEnd (line ∷ rest) = stops (some line) ≡ true

module _ (k : Answers) (run_line : List ℕ → Shell → Process Shell) (fd : ℕ) where
  script_loop-stops :
      (line : List ℕ) (rest : List (List ℕ)) (sh : Shell)
      → stops (some line) ≡ true
      → script_loop k run_line fd (some line) rest sh ≡ done sh
  unfolding script_loop
  script_loop-stops line [] sh e = rw e refl
  script_loop-stops line (next ∷ rest) sh e = rw e refl

  script_loop-run_all :
      (lines : List (List ℕ)) (current : List ℕ) (rest : List (List ℕ)) (sh : Shell)
      → stops (some current) ≡ false
      → All IsRun lines
      → IsEnd rest
      → script_loop k run_line fd (some current) (lines ++ rest) sh ≡ run_all k run_line fd lines sh
  unfolding script_loop run_all
  script_loop-run_all [] current [] sh on runs end = rw on refl
  script_loop-run_all [] current (next ∷ rest) sh on runs end =
      rw (on, end, script_loop-stops next rest sh end) refl
  script_loop-run_all (line ∷ lines) current rest sh on ((before, behind), runs) end =
      rw (on, before)
        (ap (λ (next : Shell → Process Shell). call k (read_line fd) >> (run_line line sh >>= next))
          (λ i sh'. script_loop-run_all lines (after_line line) rest sh' behind runs end i))

-- A file whose first line names the shell is opened, read up to that line and closed, and opened again; the
-- lines behind the first are read and run, each once and in their order, up to the end of the file or the
-- first line that is empty, and it is closed; none of those lines begins with a newline or with a `|`, whose
-- place in the buffer a zero takes.
pub execute_file-runs :
    (k : Answers) (path : List ℕ) (run_line : List ℕ → Shell → Process Shell) (file : List ℕ)
    (lines rest : List (List ℕ)) (sh : Shell)
    → All IsRun lines
    → IsEnd rest
    → execute_file k path run_line file ((sbush_line ++ b'\n' ∷ []) ∷ lines ++ rest) sh ≡ (do
      first ← open_first k file
      call k (close first)
      fd ← open_first k file
      sh' ← run_all k run_line fd lines sh
      call k (close fd)
      done sh')
unfolding execute_file
execute_file-runs k path run_line file lines rest sh runs end = rw same_sbush (
    ap
      (λ (loop : ℕ → Process Shell). (do
        first ← open_first k file
        call k (close first)
        fd ← open_first k file
        sh' ← loop fd
        call k (close fd)
        done sh'))
      (λ i fd.
        script_loop-run_all k run_line fd lines (sbush_line ++ b'\n' ∷ []) rest sh refl runs end i))
