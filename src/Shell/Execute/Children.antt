-- ===== src/Shell/Execute/Children.antt =====
-- Whether the child that is to run a program can come back into the shell.
use sbuoperating_system.Prelude.{
  ℕ, ◌%◌, ◌^◌, ◌≡◌, refl, true, Bool-cases, inl, inr, List, ◌∷◌, Option, ◌==◌, if◌then◌else◌, arith,
}
use sbuoperating_system.Memory.{codes}
use sbuoperating_system.Shell.Parser.{CommandArgument}
use sbuoperating_system.Shell.Process.{
  Calls, write, fork, setpgid, execve, exit, Answers, returned, ended, Process,
}
use sbuoperating_system.Shell.Execute.{
  Execution, set_execution_arguments, execvpe, execute_binary_in_back_ground,
  execute_binary_interactively,
}

module _ {S : Type 0} (k : Answers) (path : List ℕ) (stray : Option (List ℕ))
    (execute_file : CommandArgument → S → Process S) where
  -- The calls of a child up to its `execve`.
  abbrev pub started : Execution → Calls → Calls
  started e log = execve e.file e.argv ∷ write path ∷ log

  -- Once its arguments are set up, a child in the foreground ends, with the program or by `exit`, whatever
  -- the kernel answers; a child in the background ends with the program if `execve` does not return, and
  -- otherwise prints a message and goes on as a second shell.
  pub children :
      (fuel : ℕ) (c : CommandArgument) (s s' : S) (e : Execution) (log log₁ : Calls)
      → set_execution_arguments k path stray execute_file c s log ≡ returned (e, s') log₁
      → k.result log₁ fork % 2 ^ 32 ≡ 0
      → ((log' : Calls) × (execute_binary_interactively k path stray execute_file fuel c s log
            ≡ ended log'))
        × (execute_binary_in_back_ground k path stray execute_file c s log ≡ (
            if k.exec_returns (write path ∷ setpgid 0 0 ∷ fork ∷ log₁)
            then returned s'
                (write (codes "Unable to run in bg\n") ∷ started e (setpgid 0 0 ∷ fork ∷ log₁))
            else ended (started e (setpgid 0 0 ∷ fork ∷ log₁))))
  unfolding execute_binary_interactively execute_binary_in_back_ground execvpe
  children fuel c s s' e log log₁ set born =
      let child : (k.result log₁ fork % 2 ^ 32 == 0) ≡ true = ground (arith, born) in
      (interactive child, back_ground child)
    where
      interactive :
          (k.result log₁ fork % 2 ^ 32 == 0) ≡ true
          → (log' : Calls) × (execute_binary_interactively k path stray execute_file fuel c s log
              ≡ ended log')
      interactive child =
          let at = write path ∷ fork ∷ log₁ in
          let after = started e (fork ∷ log₁) in
          elim (Bool-cases (k.exec_returns at)) [
            | inr gone ↦ (after, rw (set, child, gone) refl)
            | inl back ↦ elim (Bool-cases (k.result at (execve e.file e.argv) % 2 ^ 32 == 0)) [
              | inl fine ↦ (exit ∷ after, rw (set, child, back, fine) refl)
              | inr failed ↦ (
                exit ∷ write (codes "Command not found.\n") ∷ after,
                rw (set, child, back, failed) refl,
              )
            ]
          ]

      back_ground :
          (k.result log₁ fork % 2 ^ 32 == 0) ≡ true
          → execute_binary_in_back_ground k path stray execute_file c s log ≡ (
              if k.exec_returns (write path ∷ setpgid 0 0 ∷ fork ∷ log₁)
              then returned s'
                  (write (codes "Unable to run in bg\n") ∷ started e (setpgid 0 0 ∷ fork ∷ log₁))
              else ended (started e (setpgid 0 0 ∷ fork ∷ log₁)))
      back_ground child =
          elim (Bool-cases (k.exec_returns (write path ∷ setpgid 0 0 ∷ fork ∷ log₁))) [
            | inl back ↦ rw (set, child, back) refl
            | inr gone ↦ rw (set, child, gone) refl
          ]
