-- ===== src/Apic.antt =====
-- kernel/src/arch/x86_64/apic
pub mod IoApic
pub mod Modes
pub mod Lapic
