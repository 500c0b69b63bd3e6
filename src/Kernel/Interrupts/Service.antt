-- ===== src/Kernel/Interrupts/Service.antt =====
-- What holds after any interleaving of the two interrupts, and that the clock always goes on.
use sbuoperating_system.Prelude.{
  ℕ, zero, suc, ◌+◌, ◌*◌, ◌/◌, ◌%◌, ◌^◌, ◌<◌, ◌≡◌, refl, sym, ap, ◌∙◌, ◌∷◌, ◌++◌, some, ◌==◌,
  if◌then◌else◌, arith, replicate,
}
use mathlib.Core.Option.{some-injective}
use sbuoperating_system.Kernel.Ports.{Device, outportb, inportb, writes_to}
use sbuoperating_system.Kernel.Kprintf.Clock.{SameText, SameText-refl, SameText-trans}
use sbuoperating_system.Kernel.Pit.Ticks.{calculate_timer_lem}
use sbuoperating_system.Kernel.Keyboard.{helper_keyboard_handler}
use sbuoperating_system.Kernel.Keyboard.Display.{press_confined}
use sbuoperating_system.Kernel.Interrupts.{
  Machine, keyboard_of, on_timer, on_keyboard, Runs, idle, timer_next, key_next,
}

-- The handler of the keyboard sends one end of interrupt and leaves the text and the clock alone.
record KeyServed (m m' : Machine) : Type 0 where
  count : m'.timer.pit_count ≡ m.timer.pit_count
  time : m'.timer.time_in_sec ≡ m.timer.time_in_sec
  text : SameText m.timer.console m'.timer.console
  sent : writes_to 0x20 m'.timer.log ≡ 0x20 ∷ writes_to 0x20 m.timer.log

on_keyboard-KeyServed : (device : Device) (m : Machine) → KeyServed m (on_keyboard device m)
unfolding on_keyboard helper_keyboard_handler inportb outportb
on_keyboard-KeyServed device m = record {
  count = refl;
  time = refl;
  text = record {
    height = refl;
    width = refl;
    memory = λ a out. press_confined _ (keyboard_of m) a out;
  };
  sent = refl;
}

-- The handler of the timer counts, sends one end of interrupt, and leaves the text alone.
record TimerServed (m m' : Machine) : Type 0 where
  count : m'.timer.pit_count ≡ (m.timer.pit_count + 1) % 2 ^ 32
  time : m'.timer.time_in_sec ≡ (
      if (m.timer.pit_count + 1) % 2 ^ 32 % 35 == 0
      then (m.timer.time_in_sec + 1) % 2 ^ 64
      else m.timer.time_in_sec)
  text : SameText m.timer.console m'.timer.console
  sent : writes_to 0x20 m'.timer.log ≡ 0x20 ∷ writes_to 0x20 m.timer.log

on_timer-TimerServed : (m : Machine) → (m' : Machine) × (on_timer m ≡ some m') × TimerServed m m'
unfolding on_timer
on_timer-TimerServed m =
    let (t, ran, count, time, sent, same) = calculate_timer_lem m.timer in
    (
      record m { timer = t },
      rw (on_timer, ran),
      record { count = count; time = time; text = same; sent = sent },
    )

on_timer-step : (m m' : Machine) → on_timer m ≡ some m' → TimerServed m m'
on_timer-step m m' ran =
    let (m₁, ran₁, served) = on_timer-TimerServed m in
    let same : m' ≡ m₁ = some-injective _ _ (sym ran ∙ ran₁) in rw same served

keyboard-step : (m m' : Machine) (device : Device) → m' ≡ on_keyboard device m → KeyServed m m'
keyboard-step m m' device e = rw e (on_keyboard-KeyServed device m)

timer_time :
    (n n' count time time' : ℕ)
    → n' ≡ n + 1
    → n' < 2 ^ 32
    → count ≡ n
    → time ≡ 1 + n / 35
    → time' ≡ (if (count + 1) % 2 ^ 32 % 35 == 0 then (time + 1) % 2 ^ 64 else time)
    → time' ≡ 1 + n' / 35
timer_time n n' count time time' e h c t t' = ground arith

-- From count 0 and time 1, as the initialisers leave them, whatever the order in which `n` < 2 ^ 32
-- interrupts of the timer and `k` of the keyboard come in and whatever the keyboard sends: the count is
-- `n`, the time has gone up once for each full 35 interrupts of the timer, each of the `n + k` has sent
-- one end of interrupt to the first controller, and the text above the status row and its size are those
-- of the beginning.
pub Runs-served :
    {m m' : Machine} {n k : ℕ}
    → m.timer.pit_count ≡ 0
    → m.timer.time_in_sec ≡ 1
    → n < 2 ^ 32
    → Runs m n k m'
    → (m'.timer.pit_count ≡ n)
      × (m'.timer.time_in_sec ≡ 1 + n / 35)
      × (writes_to 0x20 m'.timer.log ≡ replicate (n + k) 0x20 ++ writes_to 0x20 m.timer.log)
      × SameText m.timer.console m'.timer.console
Runs-served c s h (idle e₁ e₂) = (c ∙ sym e₁, omega arith, rw (e₁, e₂), SameText-refl _)
Runs-served {n = n'} {k = k} c s h (timer_next {n = n} run stepped e) =
    let (count, time, sent, same) = Runs-served c s (omega arith) run in
    let now = on_timer-step _ _ stepped in
    let more : n' + k ≡ suc (n + k) = omega arith in
    (
      ground (arith, now.count),
      timer_time n n' _ _ _ e h count time now.time,
      rw more (now.sent ∙ ap (◌∷◌ 0x20) sent),
      SameText-trans _ _ _ same now.text,
    )
Runs-served {n = n} {k = k'} c s h (key_next {k = k} device run e₁ e₂) =
    let (count, time, sent, same) = Runs-served c s h run in
    let now = keyboard-step _ _ device e₁ in
    let more : n + k' ≡ suc (n + k) = omega arith in
    (
      now.count ∙ count,
      now.time ∙ time,
      rw more (now.sent ∙ ap (◌∷◌ 0x20) sent),
      SameText-trans _ _ _ same now.text,
    )

Runs-append :
    {m m' m'' : Machine} {n n' k k' : ℕ}
    → Runs m n k m'
    → Runs m' n' k' m''
    → Runs m (n + n') (k + k') m''
Runs-append {n = n} {n' = n'} {k = k} {k' = k'} run (idle e₁ e₂) =
    let left : n + n' ≡ n = omega arith in
    let right : k + k' ≡ k = omega arith in rw (left, right) run
Runs-append run (timer_next later stepped e) =
    timer_next (Runs-append run later) stepped (omega arith)
Runs-append run (key_next device later e₁ e₂) =
    key_next device (Runs-append run later) e₁ (omega arith)

Runs-some : (n : ℕ) (m : Machine) → (m' : Machine) × Runs m n 0 m'
Runs-some zero m = (m, idle refl refl)
Runs-some (suc n) m =
    let (m₁, run) = Runs-some n m in
    let (m₂, stepped, served) = on_timer-TimerServed m₁ in
    (m₂, timer_next run stepped (omega arith))

-- The clock never stops: wherever a run from count 0 and time 1 stands, as long as the count of its `n`
-- interrupts of the timer and 35 more for each of `j` steps stays below 2 ^ 32, the machine serves those
-- interrupts, and the time is then `j` later.
pub clock_goes_on :
    (j : ℕ) {m m' : Machine} {n k : ℕ}
    → m.timer.pit_count ≡ 0
    → m.timer.time_in_sec ≡ 1
    → n + 35 * j < 2 ^ 32
    → Runs m n k m'
    → (m'' : Machine) × Runs m' (35 * j) 0 m'' × (m''.timer.time_in_sec ≡ m'.timer.time_in_sec + j)
clock_goes_on j {m' = m'} c s h run =
    let (m'', later) = Runs-some (35 * j) m' in
    let (count, time, sent, same) = Runs-served c s (omega arith) run in
    let (count', time', sent', same') = Runs-served c s h (Runs-append run later) in
    (m'', later, omega (arith, time, time'))
