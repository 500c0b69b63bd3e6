-- ===== src/Kernel/Pci.antt =====
-- The PCI scan, sys/pci.c. A write behind the 8 entries of `devInfo` is `none`.
pub mod Address
pub mod Scan
mod Tests
use sbuoperating_system.Prelude.{
  ℕ, zero, suc, ◌+◌, ◌*◌, ◌/◌, ◌%◌, ◌^◌, Bool, true, false, List, Option, none, some, ltb, ◌==◌,
  if◌then◌else◌,
}
use sbuoperating_system.Prelude.Bits.{◌<<<◌, ◌>>>◌}
use sbuoperating_system.Kernel.Ports.{Log, Device, inportl, outportl}
use Prim.Native.Nat.{bit_and, bit_or}

-- `struct pci_dev_info`
pub record PciDevInfo : Type 0 where
  pub device_id : ℕ
  pub vendor_id : ℕ
  pub status : ℕ
  pub command : ℕ
  pub class_code : ℕ
  pub sub_class : ℕ
  pub prog_if : ℕ
  pub revision_id : ℕ
  pub bist : ℕ
  pub header_type : ℕ
  pub latency_timer : ℕ
  pub cache_line_size : ℕ
  pub bar0 : ℕ
  pub bar1 : ℕ
  pub bar2 : ℕ
  pub bar3 : ℕ
  pub bar4 : ℕ
  pub bar5 : ℕ
  pub card_bus_cis_ptr : ℕ
  pub subsystem_id : ℕ
  pub subsystem_vendor_id : ℕ
  pub expansion_base_rom_addr : ℕ
  pub reserved0 : ℕ
  pub capabilities_ptr : ℕ
  pub reserved1 : ℕ
  pub max_latency : ℕ
  pub min_grant : ℕ
  pub interrupt_pin : ℕ
  pub interrupt_line : ℕ

abbrev pub max_pci_devices : ℕ
max_pci_devices = 8

abbrev pub pci_config_address : ℕ
pci_config_address = 0xCF8

abbrev pub pci_config_data : ℕ
pci_config_data = 0xCFC

-- `devInfo` and `devCount`, with the log of the ports.
pub record Pci : Type 0 where
  pub dev_info : ℕ → PciDevInfo
  pub dev_count : ℕ
  pub log : Log

unfoldable pub config_address : ℕ → ℕ → ℕ → ℕ → ℕ
config_address bus slot func offset =
    bit_or (bit_or (bit_or (bit_or (bus <<< 16) (slot <<< 11)) (func <<< 8)) (bit_and offset 0xfc))
      0x80000000
    % 2 ^ 32

-- The bytes of a register.
abbrev pub low16 : ℕ → ℕ
low16 word = word % 2 ^ 16

abbrev pub high16 : ℕ → ℕ
high16 word = (word >>> 16) % 2 ^ 16

abbrev pub byte : ℕ → ℕ → ℕ
byte i word = (word >>> (8 * i)) % 2 ^ 8

-- The registers of one device, in the order in which they are read.
pub record Registers : Type 0 where
  pub vendor : ℕ
  pub status_word : ℕ
  pub class_word : ℕ
  pub bist_word : ℕ
  pub bar_addr_0 : ℕ
  pub bar_addr_1 : ℕ
  pub bar_addr_2 : ℕ
  pub bar_addr_3 : ℕ
  pub bar_addr_4 : ℕ
  pub bar_addr_5 : ℕ
  pub cs_pointer : ℕ
  pub subsystem : ℕ
  pub rom_base_addr : ℕ
  pub reserved_0 : ℕ
  pub reserved_1 : ℕ
  pub interrupt_flags : ℕ

-- The assignments to the fields of `devInfo[devCount]`.
unfoldable pub decode : Registers → PciDevInfo
decode r = record {
  device_id = high16 r.vendor;
  vendor_id = low16 r.vendor;
  status = high16 r.status_word;
  command = low16 r.status_word;
  class_code = byte 3 r.class_word;
  sub_class = byte 2 r.class_word;
  prog_if = byte 1 r.class_word;
  revision_id = byte 0 r.class_word;
  bist = byte 3 r.bist_word;
  header_type = byte 2 r.bist_word;
  latency_timer = byte 1 r.bist_word;
  cache_line_size = byte 0 r.bist_word;
  bar0 = r.bar_addr_0 % 2 ^ 32;
  bar1 = r.bar_addr_1 % 2 ^ 32;
  bar2 = r.bar_addr_2 % 2 ^ 32;
  bar3 = r.bar_addr_3 % 2 ^ 32;
  bar4 = r.bar_addr_4 % 2 ^ 32;
  bar5 = r.bar_addr_5 % 2 ^ 32;
  card_bus_cis_ptr = r.cs_pointer % 2 ^ 32;
  subsystem_id = high16 r.subsystem;
  subsystem_vendor_id = low16 r.subsystem;
  expansion_base_rom_addr = r.rom_base_addr % 2 ^ 32;
  reserved0 = high16 r.reserved_0;
  capabilities_ptr = low16 r.reserved_0;
  reserved1 = r.reserved_1 % 2 ^ 32;
  max_latency = byte 3 r.interrupt_flags;
  min_grant = byte 2 r.interrupt_flags;
  interrupt_pin = byte 1 r.interrupt_flags;
  interrupt_line = byte 0 r.interrupt_flags;
}

module _ (device : Device) where
  pub pci_config_read_word : ℕ → ℕ → ℕ → ℕ → Log → ℕ × Log
  unfolding config_address inportl outportl
  pci_config_read_word bus slot func offset log =
      inportl device pci_config_data
        (outportl pci_config_address (config_address bus slot func offset) log)

  -- The reads that follow the vendor's, in the order of the source.
  pub read_registers : ℕ → ℕ → ℕ → Log → Registers × Log
  read_registers vendor bus slot log =
      let (w04, log) = pci_config_read_word bus slot 0 0x04 log in
      let (w08, log) = pci_config_read_word bus slot 0 0x08 log in
      let (w0c, log) = pci_config_read_word bus slot 0 0x0C log in
      let (w10, log) = pci_config_read_word bus slot 0 0x10 log in
      let (w14, log) = pci_config_read_word bus slot 0 0x14 log in
      let (w18, log) = pci_config_read_word bus slot 0 0x18 log in
      let (w1c, log) = pci_config_read_word bus slot 0 0x1C log in
      let (w20, log) = pci_config_read_word bus slot 0 0x20 log in
      let (w24, log) = pci_config_read_word bus slot 0 0x24 log in
      let (w28, log) = pci_config_read_word bus slot 0 0x28 log in
      let (w2c, log) = pci_config_read_word bus slot 0 0x2C log in
      let (w30, log) = pci_config_read_word bus slot 0 0x30 log in
      let (w34, log) = pci_config_read_word bus slot 0 0x34 log in
      let (w38, log) = pci_config_read_word bus slot 0 0x38 log in
      let (w3c, log) = pci_config_read_word bus slot 0 0x3C log in
      (
        record {
          vendor = vendor;
          status_word = w04;
          class_word = w08;
          bist_word = w0c;
          bar_addr_0 = w10;
          bar_addr_1 = w14;
          bar_addr_2 = w18;
          bar_addr_3 = w1c;
          bar_addr_4 = w20;
          bar_addr_5 = w24;
          cs_pointer = w28;
          subsystem = w2c;
          rom_base_addr = w30;
          reserved_0 = w34;
          reserved_1 = w38;
          interrupt_flags = w3c;
        },
        log,
      )

  -- The next entry of `devInfo`; the first write behind the array is the fault.
  pub record_device : PciDevInfo → Log → Pci → Option Pci
  record_device d log p =
      if ltb p.dev_count max_pci_devices
      then some (record {
        dev_info = λ i. if i == p.dev_count then d else p.dev_info i;
        dev_count = p.dev_count + 1;
        log = log;
      })
      else none

  -- The state behind the call; the vendor that it returns is not used by the scan.
  pub pci_check_vendor : ℕ → ℕ → Pci → Option Pci
  pci_check_vendor bus slot p =
      let (word, log) = pci_config_read_word bus slot 0 0x00 p.log in
      let (registers, log') = read_registers word bus slot log in
      if low16 word == 0xFFFF
      then some (record p { log = log })
      else record_device (decode registers) log' p

  -- The inner loop with `k` slots left, and the outer loop with `k` buses left.
  pub scan_slots : ℕ → ℕ → ℕ → Pci → Option Pci
  scan_slots zero bus slot p = some p
  scan_slots (suc k) bus slot p = elim (pci_check_vendor bus slot p) [
    | none ↦ none
    | some p' ↦ scan_slots k bus (slot + 1) p'
  ]

  pub scan_buses : ℕ → ℕ → Pci → Option Pci
  scan_buses zero bus p = some p
  scan_buses (suc k) bus p = elim (scan_slots 32 bus 0 p) [
    | none ↦ none
    | some p' ↦ scan_buses k (bus + 1) p'
  ]

  pub init_pci_dev_info : Pci → Option Pci
  init_pci_dev_info = scan_buses 256 0
