-- ===== src/Kernel/Pit/Ticks.antt =====
-- The clock after any number of timer interrupts.
use sbuoperating_system.Prelude.{
  ℕ, zero, suc, ◌+◌, ◌/◌, ◌%◌, ◌^◌, ◌<◌, ◌≡◌, refl, ap, ◌∙◌, ◌∷◌, ◌++◌, Option, none, some, ◌==◌,
  if◌then◌else◌, arith, inl, inr, Bool-cases, replicate,
}
use sbuoperating_system.Kernel.Ports.{outportb, writes_to}
use sbuoperating_system.Kernel.Idt.{Table, get_ir_from_idt}
use sbuoperating_system.Kernel.Idt.Gates.{set_ir-reads}
use sbuoperating_system.Kernel.Kprintf.Clock.{SameText, SameText-refl, print_time-SameText}
use sbuoperating_system.Kernel.Pit.{
  Timer, helper_calculate_timer, init_pit, pit_channel_0, pit_command,
  pit_square_wave_command_value, max_frequency, base_frequency,
}

-- `n` timer interrupts one behind the other.
unfoldable pub ticks : ℕ → Timer → Option Timer
ticks zero t = some t
ticks (suc n) t = elim (ticks n t) [ none ↦ none | some t' ↦ helper_calculate_timer t' ]

-- What one interrupt does to the counters, that it ends with one end of interrupt, and that it leaves the
-- text of the console alone.
pub calculate_timer_lem :
    (t : Timer)
    → (t' : Timer) × (helper_calculate_timer t ≡ some t')
      × (t'.pit_count ≡ (t.pit_count + 1) % 2 ^ 32)
      × (t'.time_in_sec ≡ (
          if (t.pit_count + 1) % 2 ^ 32 % 35 == 0
          then (t.time_in_sec + 1) % 2 ^ 64
          else t.time_in_sec))
      × (writes_to 0x20 t'.log ≡ 0x20 ∷ writes_to 0x20 t.log)
      × SameText t.console t'.console
unfolding helper_calculate_timer
calculate_timer_lem t = elim (Bool-cases ((t.pit_count + 1) % 2 ^ 32 % 35 == 0)) [
  | inl due ↦
      let (c, printed, same) = print_time-SameText ((t.time_in_sec + 1) % 2 ^ 64 / 100) t.console in
      (
        record {
          pit_count = (t.pit_count + 1) % 2 ^ 32;
          time_in_sec = (t.time_in_sec + 1) % 2 ^ 64;
          console = c;
          log = outportb 0x20 0x20 t.log;
        },
        rw (due, printed),
        refl,
        rw due,
        unfold outportb in refl,
        same,
      )
  | inr early ↦ (
    record t { pit_count = (t.pit_count + 1) % 2 ^ 32; log = outportb 0x20 0x20 t.log },
    rw early,
    refl,
    rw early,
    unfold outportb in refl,
    SameText-refl t.console,
  )
]

-- 35 interrupts later the quotient has gone up by one.
pub time_step :
    (n count time time' : ℕ)
    → suc n < 2 ^ 32
    → count ≡ n
    → time ≡ 1 + n / 35
    → time' ≡ (if (count + 1) % 2 ^ 32 % 35 == 0 then (time + 1) % 2 ^ 64 else time)
    → time' ≡ 1 + suc n / 35
time_step n count time time' h c e e' = ground arith

-- From count 0 and time 1, as `init_pit` and the initialiser leave them, any number of interrupts below
-- 2 ^ 32 succeeds: the count is that number, the time has gone up once for each full 35 of them, and
-- each has sent one end of interrupt.
pub ticks_time :
    (n : ℕ) (t : Timer)
    → n < 2 ^ 32
    → t.pit_count ≡ 0
    → t.time_in_sec ≡ 1
    → (t' : Timer) × (ticks n t ≡ some t')
      × (t'.pit_count ≡ n)
      × (t'.time_in_sec ≡ 1 + n / 35)
      × (writes_to 0x20 t'.log ≡ replicate n 0x20 ++ writes_to 0x20 t.log)
unfolding ticks
ticks_time zero t h c s = (t, refl, c, omega arith, refl)
ticks_time (suc n) t h c s =
    let (t₁, ran, count, time, sent) = ticks_time n t (omega arith) c s in
    let (t₂, stepped, count', time', sent', same) = calculate_timer_lem t₁ in
    (
      t₂,
      rw ran stepped,
      ground arith,
      time_step n _ _ _ h count time time',
      rw sent' (ap (◌∷◌ 0x20) sent),
    )

-- `init_pit` for a handler with a nonzero address.
pub init_pit-reads :
    (handler : ℕ) (table : Table) (t : Timer)
    → 0 < handler
    → handler < 2 ^ 64
    → (table' : Table) × (t' : Timer) × (init_pit handler table t ≡ some (table', t'))
      × ((m : ℕ)
          → get_ir_from_idt m table' ≡ (if m == 32 then handler else get_ir_from_idt m table))
      × (t' ≡ record t {
        pit_count = 0;
        log =
            outportb pit_channel_0 1 (
              outportb pit_channel_0 42 (outportb pit_command pit_square_wave_command_value t.log));
      })
unfolding init_pit
init_pit-reads handler table t p q =
    let (table', wrote, reads) = set_ir-reads 32 handler table (omega arith) p q in
    (table', _, rw (wrote, init_pit), reads, refl)

-- For a handler with a nonzero address below 2 ^ 64, `init_pit` succeeds, installs it on vector 32
-- and leaves the other vectors, starts the count at 0, and sends the divisor of 4000 Hz to channel
-- 0, low byte first.
pub init_pit_lem :
    (handler m : ℕ) (table : Table) (t : Timer)
    → 0 < handler
    → handler < 2 ^ 64
    → (table' : Table) × (t' : Timer) × (init_pit handler table t ≡ some (table', t'))
      × (get_ir_from_idt m table' ≡ (if m == 32 then handler else get_ir_from_idt m table))
      × (t'.pit_count ≡ 0)
      × (writes_to pit_channel_0 t'.log
          ≡ max_frequency / base_frequency / 256
            ∷ max_frequency / base_frequency % 256
            ∷ writes_to pit_channel_0 t.log)
init_pit_lem handler m table t p q =
    let (table', t', ran, reads, same) = init_pit-reads handler table t p q in
    (
      table',
      t',
      ran,
      reads m,
      ap Timer.pit_count same,
      ap (λ (t : Timer). writes_to pit_channel_0 t.log) same ∙ unfold outportb in refl,
    )
