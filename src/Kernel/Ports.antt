-- ===== src/Kernel/Ports.antt =====
-- Port input and output: `inportb`, `outportb` and `io_wait` of sys/pic.c, `inportl` and `outportl`
-- of sys/pci.c. The devices are not part of the repository: a device is a function that answers a
-- read from the events before it, the newest first.
use sbuoperating_system.Prelude.{ℕ, ◌%◌, ◌^◌, List, [], ◌∷◌, ◌==◌, if◌then◌else◌}

pub data Event : Type 0 where
  input : (port value : ℕ) → Event
  output : (port value : ℕ) → Event

-- Every access so far, the newest first.
abbrev pub Log : Type 0
Log = List Event

abbrev pub Device : Type 0
Device = Log → ℕ → ℕ

-- `outb`: the port has 16 bits, the value 8.
unfoldable pub outportb : ℕ → ℕ → Log → Log
outportb port val log = output (port % 2 ^ 16) (val % 2 ^ 8) ∷ log

unfoldable pub outportl : ℕ → ℕ → Log → Log
outportl port val log = output (port % 2 ^ 16) (val % 2 ^ 32) ∷ log

unfoldable pub io_wait : Log → Log
unfolding outportb
io_wait log = outportb 0x80 0 log

-- `inb`: a byte, and the log with the access.
unfoldable pub inportb : Device → ℕ → Log → ℕ × Log
inportb device port log = let v = device log port % 2 ^ 8 in (v, input port v ∷ log)

unfoldable pub inportl : Device → ℕ → Log → ℕ × Log
inportl device port log = let v = device log port % 2 ^ 32 in (v, input port v ∷ log)

-- The values written to one port, the newest first.
abbrev pub writes_to : ℕ → Log → List ℕ
writes_to p [] = []
writes_to p (input q v ∷ log) = writes_to p log
writes_to p (output q v ∷ log) = let rest = writes_to p log in if q == p then v ∷ rest else rest
