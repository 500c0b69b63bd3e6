-- ===== src/Shell/Process.antt =====
-- One process of the shell as the sequence of its system calls, and `waitForProcessExecution` of
-- bin/sbush/sbush.c with the tests of a status of include/signal.h. The kernel answers each call from the
-- calls before it, the newest first; `fork` answers 0 in the process that is the child. An int is its bit
-- pattern.
pub mod Waiting
mod Tests
use sbuoperating_system.Prelude.{
  ℕ, zero, suc, ◌%◌, ◌^◌, Bool, true, false, not, ◌&&◌, List, [], ◌∷◌, Option, none, some, ◌==◌,
  if◌then◌else◌,
}

-- `read_line` stands for the calls of `read`, one for each byte, by which `fgets` takes a line from a descriptor.
-- The mappings of the allocator are not in this list.
pub data Call : Type 0 where
  write : List ℕ → Call
  fork : Call
  setpgid : (pid pgid : ℕ) → Call
  execve : (file : List ℕ) (argv : List (Option (List ℕ))) → Call
  exit : Call
  waitpid : ℕ → Call
  pipe : Call
  dup2 : (old_fd new_fd : ℕ) → Call
  close : ℕ → Call
  chdir : List ℕ → Call
  getcwd : Call
  open_file : List ℕ → Call
  read_line : ℕ → Call

abbrev pub Calls : Type 0
Calls = List Call

-- The kernel, which is not part of the repository: what a call returns, the status that a wait stores, if
-- any, the two ends in `fd` after `pipe`, the text in `cwd` after `getcwd`, and whether `execve` returns.
pub record Answers : Type 0 where
  pub result : Calls → Call → ℕ
  pub status : Calls → Option ℕ
  pub pipe_ends : Calls → ℕ × ℕ
  pub cwd : Calls → List ℕ
  pub exec_returns : Calls → Bool

-- How a piece of the program ends: it goes on, the process is gone or another program, a write lies
-- behind a buffer or an access faults, or the fuel was too little.
pub data Run {ℓ} (A : Type ℓ) : Type ℓ where
  returned : A → Calls → Run A
  ended : Calls → Run A
  overrun : Calls → Run A
  unfinished : Calls → Run A

abbrev pub Process {ℓ} : Type ℓ → Type ℓ
Process A = Calls → Run A

-- A piece of the program that returns nothing.
abbrev pub Effect : Type 0
Effect = Process {0} Unit

abbrev pub then_run {ℓ κ} : {A : Type ℓ} {B : Type κ} → Run A → (A → Process B) → Run B
then_run (returned a log) f = f a log
then_run (ended log) f = ended log
then_run (overrun log) f = overrun log
then_run (unfinished log) f = unfinished log

infixl 5 ◌>>=◌
abbrev pub ◌>>=◌ {ℓ κ} : {A : Type ℓ} {B : Type κ} → Process A → (A → Process B) → Process B
(p >>= f) log = then_run (p log) f

infixl 5 ◌>>◌
abbrev pub ◌>>◌ {ℓ κ} : {A : Type ℓ} {B : Type κ} → Process A → Process B → Process B
p >> q = p >>= (λ a. q)

abbrev pub done {ℓ} : {A : Type ℓ} → A → Process A
done a log = returned a log

-- `exit` does not return.
abbrev pub exited {ℓ} : {A : Type ℓ} → Process A
exited log = ended (exit ∷ log)

-- `fputs` of a text that is not NULL to the standard output.
abbrev pub custom_fputs : List ℕ → Effect
custom_fputs text log = returned tt (write text ∷ log)

-- `_WSTATUS`, `WIFEXITED` and `WIFSIGNALED`
abbrev pub wstatus : ℕ → ℕ
wstatus x = x % 2 ^ 7

abbrev pub wstopped : ℕ
wstopped = 127

abbrev pub wifexited : ℕ → Bool
wifexited x = wstatus x == 0

abbrev pub wifsignaled : ℕ → Bool
wifsignaled x = not (wstatus x == wstopped) && not (wstatus x == 0)

module _ (k : Answers) where
  abbrev pub call : Call → Process ℕ
  call c log = returned (k.result log c % 2 ^ 32) (c ∷ log)

  -- The loop, on fuel; a wait that stores nothing leaves the status of the round before.
  unfoldable pub wait_loop : ℕ → ℕ → ℕ → Effect
  wait_loop zero pid status log = unfinished log
  wait_loop (suc fuel) pid status log =
      let status : ℕ = elim (k.status log) [ none ↦ status | some s ↦ s ] in
      let rest = wait_loop fuel pid status (waitpid pid ∷ log) in
      if not (wifexited status) && not (wifsignaled status)
      then rest
      else returned tt (waitpid pid ∷ log)

  unfoldable pub wait_for_process_execution : ℕ → ℕ → Effect
  unfolding wait_loop
  wait_for_process_execution fuel pid = wait_loop fuel pid 0
