-- ===== src/Interrupts.antt =====
-- kernel/src/arch/x86_64/interrupts.rs: the interrupt descriptor table. The addresses of the stubs, which
-- the assembler gives, are arguments, and so is the selector that `Cs::read` gives.
pub mod Table
pub mod Routing
use funderberker.Common.{
  ℕ, zero, suc, ◌+◌, ◌/◌, ◌%◌, ◌^◌, Bool, true, false, Option, none, some, List, [], ◌∷◌, ◌==◌,
  if◌then◌else◌, get_or, set, replicate, Outcome, ok, err, panic, ◌>>=◌, unwrap, unwrap_option,
}
use funderberker.Bitfield.{Bitfield}
use funderberker.Apic.IoApic.{System, RedirectionEntry, Fits, map_irq_to_vector, set_disabled}

-- `GENERIC_ISR_VECTOR` of kernel/src/arch/x86_64/event.rs
abbrev pub generic_isr_vector : ℕ
generic_isr_vector = 255

abbrev pub idt_entries_num : ℕ
idt_entries_num = 256

pub record GateDescriptor : Type 0 where
  pub offset_0 : ℕ
  pub segment_selector : ℕ
  pub ist : ℕ
  pub reserved_0 : ℕ
  pub gate_type : ℕ
  pub zero_ : ℕ
  pub dpl : ℕ
  pub present : ℕ
  pub offset_1 : ℕ
  pub offset_2 : ℕ
  pub reserved_1 : ℕ

pub data GateType : Type 0 where
  interrupt trap : GateType

-- `gate_type as u8`
abbrev pub gate_bits : GateType → ℕ
gate_bits interrupt = 14
gate_bits trap = 15

pub data Dpl : Type 0 where
  kernel user : Dpl

abbrev pub dpl_bits : Dpl → ℕ
dpl_bits kernel = 0
dpl_bits user = 3

pub data Present : Type 0 where
  not_present present_ : Present

abbrev pub present_bits : Present → ℕ
present_bits not_present = 0
present_bits present_ = 1

-- `GateDescriptor::DEFAULT`
abbrev pub default : GateDescriptor
default = record {
  offset_0 = 0;
  segment_selector = 0;
  ist = 0;
  reserved_0 = 0;
  gate_type = 0;
  zero_ = 0;
  dpl = 0;
  present = 0;
  offset_1 = 0;
  offset_2 = 0;
  reserved_1 = 0;
}

abbrev pub Idt : Type 0
Idt = List GateDescriptor

-- The static `IDT` at the start
abbrev pub empty_idt : Idt
empty_idt = replicate idt_entries_num default

-- `GateDescriptor::install`
unfoldable pub install : GateDescriptor → ℕ → ℕ → ℕ → GateType → Dpl → Present → GateDescriptor
install self offset segment_selector ist gate_type dpl present = record self {
  offset_0 = offset % 2 ^ 16;
  segment_selector = segment_selector;
  ist = ist;
  gate_type = gate_bits gate_type;
  dpl = dpl_bits dpl;
  present = present_bits present;
  offset_1 = offset / 2 ^ 16 % 2 ^ 16;
  offset_2 = offset / 2 ^ 32 % 2 ^ 32;
}

abbrev pub install_at : Idt → ℕ → ℕ → ℕ → GateType → Idt
install_at idt i offset cs gate_type =
    set idt i (install (get_or idt i default) offset cs 0 gate_type kernel present_)

-- The lines `self.0[i].install(..)` for the exceptions from `i` on, with their stubs
unfoldable pub install_exceptions : Idt → ℕ → ℕ → List ℕ → Idt
unfolding install
install_exceptions idt i cs [] = idt
install_exceptions idt i cs (stub ∷ stubs) =
    install_exceptions (install_at idt i stub cs trap) (i + 1) cs stubs

unfoldable pub install_exception_isrs : Idt → ℕ → List ℕ → ℕ → Idt
unfolding install_exceptions install
install_exception_isrs idt cs stubs generic_stub =
    install_at (install_exceptions idt 0 cs stubs) generic_isr_vector generic_stub cs interrupt

-- `.enumerate().find(..)` for an entry that is not present, from index `i` on
unfoldable pub find_free : ℕ → Idt → Option (ℕ × GateDescriptor)
find_free i [] = none
find_free i (entry ∷ rest) = if entry.present == 0 then some (i, entry) else find_free (i + 1) rest

unfoldable pub install_isr :
    {E : Type 0} → Idt → ℕ → ℕ → ℕ → GateType → Dpl → Present → Outcome E (ℕ × Idt)
unfolding find_free install
install_isr idt isr_stub segment_selector ist_field gate_type dpl present = do
  (entry_number, entry) ← unwrap_option (find_free 0 idt)
  ok (
    entry_number % 2 ^ 8,
    set idt entry_number (install entry isr_stub segment_selector ist_field gate_type dpl present),
  )

-- The table and the IO APICs, which `register_irq` changes together.
pub record Platform : Type 0 where
  pub idt : Idt
  pub io : System

module _ (B : Bitfield RedirectionEntry Fits) where
  unfoldable pub register_irq : {E : Type 0} → Platform → ℕ → ℕ → ℕ → Outcome E Platform
  unfolding set_disabled install_isr map_irq_to_vector
  register_irq p irq isr_stub cs = do
    masked ← unwrap (set_disabled B p.io irq true)
    (vector, idt) ← install_isr p.idt isr_stub cs 0 interrupt kernel present_
    mapped ← unwrap (map_irq_to_vector B masked vector irq)
    enabled ← unwrap (set_disabled B mapped irq false)
    ok (record { idt = idt; io = enabled })
