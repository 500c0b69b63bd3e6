-- ===== src/Shell/Session/Start/Tests.antt =====
-- A session from the start of the process.
use sbuoperating_system.Prelude.{◌≡◌, ◌⊎◌, inr, [], ◌∷◌, ◌++◌, none, some}
use sbuoperating_system.Memory.{codes}
use sbuoperating_system.Shell.Process.{Calls, exit, ended, overrun}
use sbuoperating_system.Shell.Session.{exit_line}
use sbuoperating_system.Shell.Session.Tests.{kernel, view, go_root-IsBuiltIn}
use sbuoperating_system.Shell.Session.Loop.{Faults}
use sbuoperating_system.Shell.Session.Start.{start, start-exits}

start-exits_example :
    let r =
      start kernel view
        (λ log file. [])
        9
        1
        ((none ∷ some (codes "cd /\n") ∷ []) ++ some exit_line ∷ [])
        [] in
    ((log' : Calls) × (r ≡ ended (exit ∷ log')))
    ⊎ ((log' : Calls) × (r ≡ overrun log') × Faults view 9 log')
start-exits_example =
    start-exits kernel view (λ log file. []) 9 1 (none ∷ some (codes "cd /\n") ∷ []) []
      (tt, (inr go_root-IsBuiltIn, tt))
