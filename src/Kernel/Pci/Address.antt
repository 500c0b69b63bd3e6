-- ===== src/Kernel/Pci/Address.antt =====
-- The address of a configuration register keeps its four fields apart.
use sbuoperating_system.Prelude.{ℕ, ◌+◌, ◌*◌, ◌/◌, ◌%◌, ◌^◌, ◌<◌, ◌≡◌, arith}
use sbuoperating_system.Prelude.Bits.{
  bit_or_disjoint, bit_or_disjoint_right, bit_or_multiple, bit_and-clear_two,
}
use sbuoperating_system.Kernel.Pci.{config_address}

-- The address word is the sum of its fields.
config_address_sum :
    (bus slot func offset : ℕ)
    → bus < 256
    → slot < 32
    → func < 8
    → offset < 256
    → config_address bus slot func offset
      ≡ 2 ^ 31 + bus * 2 ^ 16 + slot * 2 ^ 11 + func * 2 ^ 8 + offset / 4 * 4
unfolding config_address
config_address_sum bus slot func offset b s f o =
    let low = bus * 2 ^ 16 + slot * 2 ^ 11 in
    rw
      (
        bit_and-clear_two offset o,
        bit_or_disjoint 16 bus (slot * 2 ^ 11) (omega arith),
        bit_or_multiple 11 (bus * 2 ^ 5 + slot) low (func * 2 ^ 8) (omega arith) (omega arith),
        bit_or_multiple 8 (bus * 2 ^ 8 + slot * 2 ^ 3 + func) (low + func * 2 ^ 8) (offset / 4 * 4)
            (omega arith) (omega arith),
        bit_or_disjoint_right 31 1 (low + func * 2 ^ 8 + offset / 4 * 4) (omega arith),
      )
      (omega arith)

-- For a bus below 256, a slot below 32, a function below 8 and an offset below 256, the
-- configuration address has bit 31 set, and bus, slot, function and the aligned offset are read back
-- from their bits.
pub config_address_fields :
    (bus slot func offset : ℕ)
    → bus < 256
    → slot < 32
    → func < 8
    → offset < 256
    → let a = config_address bus slot func offset in
      (a / 2 ^ 31 ≡ 1)
      × (a / 2 ^ 16 % 2 ^ 8 ≡ bus)
      × (a / 2 ^ 11 % 2 ^ 5 ≡ slot)
      × (a / 2 ^ 8 % 2 ^ 3 ≡ func)
      × (a % 2 ^ 8 ≡ offset / 4 * 4)
config_address_fields bus slot func offset b s f o =
    omega (arith, config_address_sum bus slot func offset b s f o)
