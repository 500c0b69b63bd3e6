-- ===== src/Kernel.antt =====
-- The kernel under sys/: interrupt tables, controllers, the console and the PCI scan.
pub mod Ports
pub mod Gdt
pub mod Idt
pub mod Entry
pub mod Pic
pub mod Console
pub mod Kprintf
pub mod Pit
pub mod Keyboard
pub mod Pci
pub mod Layout
pub mod Ahci
pub mod Tarfs
pub mod Boot
pub mod Interrupts
