-- ===== src/Shell/Process/Waiting.antt =====
-- When the loop of `waitForProcessExecution` ends.
use sbuoperating_system.Prelude.{
  ℕ, zero, suc, ◌%◌, ◌<◌, ◌≡◌, ◌≢◌, ◌∷◌, none, some, arith, not, ◌&&◌, ◌==◌, true, false,
}
use sbuoperating_system.Shell.Process.{
  Calls, waitpid, Answers, returned, wifexited, wifsignaled, wait_loop, wait_for_process_execution,
}

-- `n` waits for `pid` behind the calls of `log`.
abbrev pub waits : ℕ → ℕ → Calls → Calls
waits zero pid log = log
waits (suc n) pid log = waits n pid (waitpid pid ∷ log)

-- The status after a wait at `log`, when it was `status` before.
abbrev pub next_status : Answers → Calls → ℕ → ℕ
next_status k log status = elim (k.status log) [ none ↦ status | some s ↦ s ]

-- `Stops k pid status log n`: of the waits from `log` on, the first `n` leave a stopped process behind, and
-- the one after them does not.
pub data Stops (k : Answers) (pid : ℕ) : ℕ → Calls → ℕ → Type 0 where
  last :
      {status : ℕ} {log : Calls} {n : ℕ}
      → n ≡ 0
      → next_status k log status % 128 ≢ 127
      → Stops k pid status log n
  stopped :
      {status : ℕ} {log : Calls} {n : ℕ}
      → next_status k log status % 128 ≡ 127
      → Stops k pid (next_status k log status) (waitpid pid ∷ log) n
      → Stops k pid status log (suc n)

goes_on : (x : ℕ) → (not (wifexited x) && not (wifsignaled x)) ≡ (x % 128 == 127)
goes_on x = ground arith

module _ (k : Answers) (pid : ℕ) where
  wait_loop-Stops :
      (fuel n status : ℕ) (log : Calls)
      → Stops k pid status log n
      → n < fuel
      → wait_loop k fuel pid status log ≡ returned tt (waits (suc n) pid log)
  unfolding wait_loop
  wait_loop-Stops zero n status log s h = elim h [ ]
  wait_loop-Stops (suc fuel) n status log (last e ne) h =
      let off : (next_status k log status % 128 == 127) ≡ false = ground (arith, ne) in
      rw (goes_on (next_status k log status), off, e)
  wait_loop-Stops (suc fuel) (suc n) status log (stopped e s) h =
      let on : (next_status k log status % 128 == 127) ≡ true = ground (arith, e) in
      rw (goes_on (next_status k log status), on)
        (wait_loop-Stops fuel n (next_status k log status) (waitpid pid ∷ log) s (omega arith))

  -- If the first `n` waits report a stopped process and the next one does not, then with fuel for more
  -- than `n` rounds the loop ends after exactly `n + 1` waits for the process; a wait that stores no status
  -- keeps the one before, which is 0 at first.
  pub wait_for-Stops :
      (fuel n : ℕ) (log : Calls)
      → Stops k pid 0 log n
      → n < fuel
      → wait_for_process_execution k fuel pid log ≡ returned tt (waits (suc n) pid log)
  unfolding wait_for_process_execution
  wait_for-Stops fuel n log = wait_loop-Stops fuel n 0 log
