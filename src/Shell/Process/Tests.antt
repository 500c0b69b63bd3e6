-- ===== src/Shell/Process/Tests.antt =====
-- Waiting for a process that is stopped once.
use sbuoperating_system.Prelude.{◌≡◌, refl, true, [], ◌∷◌, some, arith}
use sbuoperating_system.Shell.Process.{Answers, returned, wait_for_process_execution, wifexited}
use sbuoperating_system.Shell.Process.Waiting.{waits, Stops, stopped, last, wait_for-Stops}

-- Stopped by signal 19 at the first wait, gone at every later one.
abbrev stopped_once : Answers
stopped_once = record {
  result = λ log c. 7;
  status = λ log. elim log [ [] ↦ some 0x137f | c ∷ cs ↦ some 0 ];
  pipe_ends = λ log. (3, 4);
  cwd = λ log. [];
  exec_returns = λ log. true;
}

exited_status : wifexited 0x100 ≡ true
exited_status = refl

one_stop : Stops stopped_once 7 0 [] 1
one_stop = stopped refl (last refl (omega arith))

wait_for-Stops_example : wait_for_process_execution stopped_once 2 7 [] ≡ returned tt (waits 2 7 [])
wait_for-Stops_example = wait_for-Stops stopped_once 7 2 1 [] one_stop (omega arith)
