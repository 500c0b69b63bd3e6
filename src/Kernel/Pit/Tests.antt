-- ===== src/Kernel/Pit/Tests.antt =====
-- The timer at concrete inputs.
use sbuoperating_system.Prelude.{◌≡◌, refl, [], ◌∷◌, some}
use sbuoperating_system.Kernel.Ports.{output, outportb}
use sbuoperating_system.Kernel.Pit.{Timer, helper_calculate_timer}

abbrev timer : Timer
timer = record {
  pit_count = 0;
  time_in_sec = 1;
  console = record { current_height = 0; current_width = 0; memory = λ a. 0 };
  log = [];
}

-- The first tick prints nothing.
one_tick :
    helper_calculate_timer timer
    ≡ some (record timer { pit_count = 1; log = output 0x20 0x20 ∷ [] })
unfolding helper_calculate_timer outportb
one_tick = refl
