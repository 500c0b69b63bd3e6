-- ===== src/Shell/Session/Scripts/Runs.antt =====
-- What a script does to the shell that runs it.
use sbuoperating_system.Prelude.{
  ◌%◌, ◌^◌, ltb, ◌<◌, ℕ, suc, ◌≡◌, ◌≢◌, inl, ◌∙◌, refl, ap, true, false, List, [], ◌∷◌, ◌++◌,
  Option, none, some, All, ◌==◌, arith,
}
use sbuoperating_system.Memory.{codes}
use sbuoperating_system.Libc.Environ.{getenv}
use sbuoperating_system.Shell.Parser.{CommandArgument}
use sbuoperating_system.Shell.Process.{
  Calls, Answers, returned, ended, overrun, unfinished, Run, Process, ◌>>=◌, ◌>>◌, then_run, done,
  call, open_file, close, read_line,
}
use sbuoperating_system.Shell.Pipes.{get_built_in_code}
use sbuoperating_system.Shell.Commands.{Shell}
use sbuoperating_system.Shell.Commands.Builtins.{IsOrdered, IsReadable}
use sbuoperating_system.Shell.Script.{sbush_line, open_first, execute_file}
use sbuoperating_system.Shell.Script.Lines.{run_all, IsRun, IsEnd, execute_file-runs}
use sbuoperating_system.Shell.Session.{MemoryView, path_of, run_line, main}
use sbuoperating_system.Shell.Session.Loop.{
  IsBuiltIn, variable_command, Leaves, Outcome, Outcome-bind, run_line-Outcome, run_first-IsOrdered,
}
use sbuoperating_system.Shell.Session.Scripts.{run_script, sbush}

-- The file at `file` names the shell in its first line and has the lines `lines` up to its end, or to an
-- empty line.
pub record IsScript (lines_of : Calls → List ℕ → List (List ℕ)) (file : List ℕ)
    (lines : List (List ℕ)) : Type 0 where
  pub rest : List (List ℕ)
  pub read : (log : Calls) → lines_of log file ≡ (sbush_line ++ b'\n' ∷ []) ∷ lines ++ rest
  pub runs : All IsRun lines
  pub end : IsEnd rest

module _ (k : Answers) (view : MemoryView) (fuel : ℕ) where
  pub path_of-returned :
      (execute_file : CommandArgument → Shell → Process Shell) (sh : Shell) (log : Calls)
      → (path : List ℕ) × (path_of k view execute_file fuel sh log ≡ returned path log)
  unfolding path_of
  path_of-returned execute_file sh log = step (getenv (codes "PATH") sh.environ)
    where
      step :
          (o : Option ℕ)
          → (path : List ℕ) × ◌≡◌ {A = Run (List ℕ)}
              (elim o [
                | none ↦ returned [] log
                | some address ↦ returned (view.string_at log address) log
              ])
              (returned path log)
      step none = ([], refl)
      step (some address) = (view.string_at log address, refl)

module _ (k : Answers) (view : MemoryView) (lines_of : Calls → List ℕ → List (List ℕ))
    (fuel : ℕ) where
  closed :
      (r : Run Shell) (fd : ℕ)
      → then_run {B = ℕ × Shell}
          (then_run {B = Shell} r (λ sh'. (do call k (close fd); done sh')))
          (λ sh'. done (0, sh'))
        ≡ then_run r (λ sh'. (do call k (close fd); done (0, sh')))
  closed (returned sh' log) fd = refl
  closed (ended log) fd = refl
  closed (overrun log) fd = refl
  closed (unfinished log) fd = refl

  abbrev pub run_at : ℕ → List ℕ → Shell → Process Shell
  run_at depth = run_line k view (run_script k view lines_of fuel depth) fuel

  -- The script is opened, and its lines are run one behind the other, and it is closed.
  run_script-run_all :
      (depth : ℕ) (file : List ℕ) (lines more : List (List ℕ)) (c : CommandArgument) (sh : Shell)
      (log : Calls)
      → c.arguments ≡ file ∷ more
      → IsScript lines_of file lines
      → (log₁ : Calls) × (fd : ℕ) × (run_script k view lines_of fuel (suc depth) c sh log
          ≡ (do sh' ← run_all k (run_at depth) fd lines sh; call k (close fd); done sh') log₁)
  unfolding run_script open_first
  run_script-run_all depth file lines more c sh log same script =
      let (path, found) =
        path_of-returned k view fuel (run_script k view lines_of fuel depth) sh log in
      let run = run_at depth in
      let first = k.result log (open_file file) % 2 ^ 32 in
      let read = close first ∷ read_line first ∷ open_file file ∷ log in
      let fd = k.result read (open_file file) % 2 ^ 32 in
      (
        read_line fd ∷ open_file file ∷ read,
        fd,
        rw (run_script, found, same, script.read log)
            (ap (λ (p : Process Shell). p log)
              (execute_file-runs k path run file lines script.rest sh script.runs script.end)),
      )

  run_all-Outcome :
      (depth fd : ℕ) (lines : List (List ℕ)) (sh : Shell) (log : Calls)
      → All (IsBuiltIn view) lines
      → IsOrdered sh
      → Outcome view fuel IsOrdered (run_all k (run_at depth) fd lines sh log)
  unfolding run_all
  run_all-Outcome depth fd [] sh log all ordered = inl (sh, read_line fd ∷ log, refl, ordered)
  run_all-Outcome depth fd (line ∷ lines) sh log (b, all) ordered =
      let before = read_line fd ∷ log in
      Outcome-bind view fuel IsOrdered IsOrdered (run_at depth line sh)
        (run_all k (run_at depth) fd lines) before
        (run_line-Outcome k view (run_script k view lines_of fuel depth) fuel line sh before b
          ordered)
        (λ sh' log' kept. run_all-Outcome depth fd lines sh' log' all kept)

  -- Started with a script behind its name, whose lines are built-in commands, each of which neither begins nor
  -- is cut in front of its end, and with a first variable that is set as a built-in command, the shell runs
  -- every line in turn and closes the script; whatever the kernel answers, it ends with the status 0 and
  -- variables that are in order, unless the release behind one of the lines faults or runs out of fuel: then
  -- it ends there.
  pub sbush-runs_script :
      (depth argc : ℕ) (file variable : List ℕ) (lines : List (List ℕ))
      (terminal : List (Option (List ℕ))) (sh : Shell) (log : Calls)
      → 1 < argc
      → get_built_in_code (variable_command variable) ≢ 0
      → IsReadable (variable_command variable)
      → IsScript lines_of file lines
      → All (IsBuiltIn view) lines
      → IsOrdered sh
      → let r = sbush k view lines_of fuel (suc depth) argc file variable terminal sh log in
        (sh₁ : Shell) × (log₁ : Calls) × (fd : ℕ) × (r
          ≡ (do sh' ← run_all k (run_at depth) fd lines sh₁; call k (close fd); done (0, sh')) log₁)
        × Outcome view fuel (Leaves 0) r
  unfolding sbush main
  sbush-runs_script depth argc file variable lines terminal sh log more code readable script all
        ordered =
      let run = run_script k view lines_of fuel (suc depth) in
      let (sh₁, log₁, ran, kept) =
        run_first-IsOrdered k view run fuel (variable_command variable) sh log code readable
          ordered in
      let c = record (variable_command variable) { arguments = file ∷ [] } in
      let off : (argc == 1) ≡ false = ground (arith, more) in
      let above : ltb 1 argc ≡ true = ground (arith, more) in
      let (log₂, fd, script_ran) = run_script-run_all depth file lines [] c sh₁ log₁ refl script in
      let all_run : Process Shell = run_all k (run_at depth) fd lines sh₁ in
      let ends =
        ap (λ (p : Run Shell). then_run {B = ℕ × Shell} p (λ sh'. done (0, sh'))) script_ran
        ∙ closed (all_run log₂) fd in
      let outcome =
        Outcome-bind view fuel IsOrdered (Leaves 0) all_run
          (λ sh'. (do call k (close fd); done (0, sh'))) log₂
          (run_all-Outcome depth fd lines sh₁ log₂ all kept)
          (λ sh' log' ordered'. inl ((0, sh'), close fd ∷ log', refl, (refl, ordered'))) in
      (sh₁, log₂, fd, rw (ran, off, above) ends, rw (ran, off, above, ends) outcome)
