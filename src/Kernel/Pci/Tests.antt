-- ===== src/Kernel/Pci/Tests.antt =====
-- The scan of a configuration space with one device, on bus 0 and slot 3.
use sbuoperating_system.Prelude.{ℕ, ◌+◌, ◌/◌, ◌^◌, refl, [], ◌∷◌, ◌==◌, if◌then◌else◌}
use sbuoperating_system.Kernel.Ports.{Device, input, output}
use sbuoperating_system.Kernel.Pci.{Pci, decode, init_pci_dev_info}
use sbuoperating_system.Kernel.Pci.Scan.{
  Answers, Outcome, found_buses, registers_of, init_pci-Outcome,
}

abbrev config : ℕ → ℕ
config a = if a / 2 ^ 11 == 2 ^ 20 + 3 then a else 0xffff_ffff

abbrev device : Device
device [] port = 0
device (input q v ∷ log) port = 0
device (output q v ∷ log) port = config v

device-Answers : Answers config device
device-Answers address log = refl

abbrev empty : Pci
empty = record { dev_info = λ i. decode (registers_of config 0 0); dev_count = 0; log = [] }

init_pci-Outcome_example : Outcome empty (found_buses config 256 0) (init_pci_dev_info device empty)
init_pci-Outcome_example = init_pci-Outcome config device device-Answers empty refl
