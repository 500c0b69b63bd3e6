-- ===== src/Kernel/Pci/Scan.antt =====
-- The scan of all buses against the list of devices that answer.
use native.Mathlib.Decide.{dec_lt}
use sbuoperating_system.Prelude.{
  ℕ, zero, suc, ◌+◌, ◌-◌, ◌%◌, ◌^◌, ◌<◌, ◌≤◌, ◌≡◌, refl, sym, ap, ◌∙◌, List, [], ◌∷◌, ◌++◌, Option,
  none, some, ltb, ◌==◌, if◌then◌else◌, arith, inl, inr, Bool-cases, length, get_elem?,
  length-append, get_elem?-append_left, get_elem?-append_right,
}
use sbuoperating_system.Kernel.Ports.{Log, Device, output}
use sbuoperating_system.Kernel.Pci.{
  PciDevInfo, Registers, Pci, max_pci_devices, pci_config_address, pci_config_data, config_address,
  decode, low16, pci_config_read_word, read_registers, record_device, pci_check_vendor, scan_slots,
  scan_buses, init_pci_dev_info,
}

-- The configuration space answers from the address that was written last, and from nothing else.
abbrev pub Answers : (ℕ → ℕ) → Device → Type 0
Answers config device =
    (address : ℕ) (log : Log)
    → device (output pci_config_address address ∷ log) pci_config_data ≡ config address

-- The register of a device in such a space.
abbrev pub register : (ℕ → ℕ) → ℕ → ℕ → ℕ → ℕ
register config bus slot offset = config (config_address bus slot 0 offset) % 2 ^ 32

pub registers_of : (ℕ → ℕ) → ℕ → ℕ → Registers
registers_of config bus slot = record {
  vendor = register config bus slot 0x00;
  status_word = register config bus slot 0x04;
  class_word = register config bus slot 0x08;
  bist_word = register config bus slot 0x0C;
  bar_addr_0 = register config bus slot 0x10;
  bar_addr_1 = register config bus slot 0x14;
  bar_addr_2 = register config bus slot 0x18;
  bar_addr_3 = register config bus slot 0x1C;
  bar_addr_4 = register config bus slot 0x20;
  bar_addr_5 = register config bus slot 0x24;
  cs_pointer = register config bus slot 0x28;
  subsystem = register config bus slot 0x2C;
  rom_base_addr = register config bus slot 0x30;
  reserved_0 = register config bus slot 0x34;
  reserved_1 = register config bus slot 0x38;
  interrupt_flags = register config bus slot 0x3C;
}

-- What one slot adds, what `k` slots add from `slot` on, and what `k` buses add from `bus` on.
unfoldable pub found_at : (ℕ → ℕ) → ℕ → ℕ → List PciDevInfo
found_at config bus slot =
    if low16 (register config bus slot 0x00) == 0xFFFF
    then []
    else decode (registers_of config bus slot) ∷ []

unfoldable pub found_slots : (ℕ → ℕ) → ℕ → ℕ → ℕ → List PciDevInfo
found_slots config zero bus slot = []
found_slots config (suc k) bus slot =
    found_at config bus slot ++ found_slots config k bus (slot + 1)

unfoldable pub found_buses : (ℕ → ℕ) → ℕ → ℕ → List PciDevInfo
found_buses config zero bus = []
found_buses config (suc k) bus = found_slots config 32 bus 0 ++ found_buses config k (bus + 1)

-- `q` is `p` with the devices `ds` recorded behind those that were there.
pub record Extends (p : Pci) (ds : List PciDevInfo) (q : Pci) : Type 0 where
  pub count : q.dev_count ≡ p.dev_count + length ds
  pub kept : (i : ℕ) → i < p.dev_count → q.dev_info i ≡ p.dev_info i
  pub added : (i : ℕ) (d : PciDevInfo) → get_elem? ds i ≡ some d → q.dev_info (p.dev_count + i) ≡ d

-- The devices are recorded if they fit the array, and otherwise a write leaves it.
pub data Outcome (p : Pci) (ds : List PciDevInfo) : Option Pci → Type 0 where
  stored :
      {q : Pci} → p.dev_count + length ds ≤ max_pci_devices → Extends p ds q → Outcome p ds (some q)
  overrun : max_pci_devices < p.dev_count + length ds → Outcome p ds none

Extends-trans :
    (p q r : Pci) (ds es : List PciDevInfo)
    → Extends p ds q
    → Extends q es r
    → Extends p (ds ++ es) r
Extends-trans p q r ds es x y = record {
  count = omega (arith, x.count, y.count, length-append ds es);
  kept = λ i h. y.kept i (omega (arith, x.count)) ∙ x.kept i h;
  added = λ i d e. elim (dec_lt i (length ds)) [
    | yes early ↦
        y.kept (p.dev_count + i) (omega (arith, x.count))
        ∙ x.added i d (sym (get_elem?-append_left ds es i early) ∙ e)
    | no late ↦
        let j = i - length ds in
        let at : i ≡ length ds + j = omega arith in
        let place : p.dev_count + i ≡ q.dev_count + j = omega (arith, x.count) in
        rw place (
          y.added j d
            (sym (get_elem?-append_right ds es j) ∙ ap (get_elem? (ds ++ es)) (sym at) ∙ e))
  ];
}

bind :
    {p : Pci} {ds : List PciDevInfo} {r : Option Pci} (es : List PciDevInfo)
    (next : Pci → Option Pci)
    → Outcome p ds r
    → ((q : Pci) → Extends p ds q → p.dev_count + length ds ≤ 8 → Outcome q es (next q))
    → Outcome p (ds ++ es) (elim r [ none ↦ none | some q ↦ next q ])
bind {p} {ds} es next (stored {q} fits x) k = go (k q x fits)
  where
    go : {o : Option Pci} → Outcome q es o → Outcome p (ds ++ es) o
    go (stored {q = r} fits' y) =
        stored (omega (arith, x.count, length-append ds es)) (Extends-trans p q r ds es x y)
    go (overrun over) = overrun (omega (arith, x.count, length-append ds es))
bind {p} {ds} es next (overrun over) k = overrun (omega (arith, length-append ds es))

Outcome-same :
    (log : Log) (p : Pci) → p.dev_count ≤ 8 → Outcome p [] (some (record p { log = log }))
Outcome-same log p h =
    stored (omega arith) (record { count = omega arith; kept = λ i h. refl; added = λ i d e. cc })

record_device-Outcome :
    (device : Device) (d : PciDevInfo) (log : Log) (p : Pci)
    → p.dev_count ≤ 8
    → Outcome p (d ∷ []) (record_device device d log p)
unfolding record_device
record_device-Outcome device d log p h = elim (Bool-cases (ltb p.dev_count max_pci_devices)) [
  | inl room ↦ rw room (
      stored (ground arith)
        (record { count = omega arith; kept = λ i h. ground arith; added = added_one }))
  | inr full ↦ rw full (overrun (ground arith))
]
  where
    added_one :
        (i : ℕ) (x : PciDevInfo)
        → get_elem? (d ∷ []) i ≡ some x
        → (if p.dev_count + i == p.dev_count then d else p.dev_info (p.dev_count + i)) ≡ x
    added_one zero x e = ground arith
    added_one (suc i) x e = cc

module _ (config : ℕ → ℕ) (device : Device) (answers : Answers config device) where
  read_word-register :
      (bus slot offset : ℕ) (log : Log)
      → (pci_config_read_word device bus slot 0 offset log).0 ≡ register config bus slot offset
  unfolding pci_config_read_word
  read_word-register bus slot offset log =
      let a = config_address bus slot 0 offset in
      let same : a % 2 ^ 32 ≡ a = unfold config_address in omega arith in
      ap (λ (v : ℕ). v % 2 ^ 32) (answers (a % 2 ^ 32) log ∙ ap config same)

  read_registers-registers_of :
      (bus slot : ℕ) (log : Log)
      → (read_registers device (register config bus slot 0x00) bus slot log).0
        ≡ registers_of config bus slot
  unfolding read_registers registers_of
  read_registers-registers_of bus slot log = simp read_word-register

  check_vendor-Outcome :
      (bus slot : ℕ) (p : Pci)
      → p.dev_count ≤ 8
      → Outcome p (found_at config bus slot) (pci_check_vendor device bus slot p)
  unfolding pci_check_vendor found_at
  check_vendor-Outcome bus slot p h =
      let log = (pci_config_read_word device bus slot 0 0x00 p.log).1 in
      rw (read_word-register bus slot 0x00 p.log)
        (elim (Bool-cases (low16 (register config bus slot 0x00) == 0xFFFF)) [
          | inl absent ↦ rw absent (Outcome-same log p h)
          | inr present ↦
              rw (present, read_registers-registers_of bus slot log)
                (record_device-Outcome device (decode (registers_of config bus slot)) _ p h)
        ])

  scan_slots-Outcome :
      (k bus slot : ℕ) (p : Pci)
      → p.dev_count ≤ 8
      → Outcome p (found_slots config k bus slot) (scan_slots device k bus slot p)
  unfolding scan_slots found_slots
  scan_slots-Outcome zero bus slot p h = Outcome-same p.log p h
  scan_slots-Outcome (suc k) bus slot p h =
      bind (found_slots config k bus (slot + 1)) (scan_slots device k bus (slot + 1))
        (check_vendor-Outcome bus slot p h)
        (λ q x fits. scan_slots-Outcome k bus (slot + 1) q (omega (arith, x.count)))

  scan_buses-Outcome :
      (k bus : ℕ) (p : Pci)
      → p.dev_count ≤ 8
      → Outcome p (found_buses config k bus) (scan_buses device k bus p)
  unfolding scan_buses found_buses
  scan_buses-Outcome zero bus p h = Outcome-same p.log p h
  scan_buses-Outcome (suc k) bus p h =
      bind (found_buses config k (bus + 1)) (scan_buses device k (bus + 1))
        (scan_slots-Outcome 32 bus 0 p h)
        (λ q x fits. scan_buses-Outcome k (bus + 1) q (omega (arith, x.count)))

  -- From an empty table the scan records exactly the devices that answer, in the order of bus and slot
  -- and with their registers decoded, if there are at most 8 of them; with a ninth it writes behind the
  -- table.
  pub init_pci-Outcome :
      (p : Pci)
      → p.dev_count ≡ 0
      → Outcome p (found_buses config 256 0) (init_pci_dev_info device p)
  unfolding init_pci_dev_info
  init_pci-Outcome p h = scan_buses-Outcome 256 0 p (omega arith)
