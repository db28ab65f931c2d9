-- ===== src/Interrupts/Routing.antt =====
-- kernel/src/arch/x86_64/interrupts.rs: `register_irq`, from the interrupt line to the stub.
use funderberker.Common.{
  ℕ, ◌^◌, ◌≤◌, ◌<◌, ◌≡◌, ◌≢◌, ◌⊎◌, inl, inr, refl, ap, arith, true, false, none, some, get_or,
  length, ok, panic,
}
use funderberker.Bitfield.{Bitfield}
use funderberker.Apic.IoApic.{IoApic, IoApicError, RedirectionEntry, Fits, find_from, irq_to_gsi}
use funderberker.Apic.IoApic.Mapping.{
  entry_of, set_disabled-Changes, irq_to_gsi_same, map_irq_to_vector-set_disabled,
}
use funderberker.Interrupts.{interrupt, kernel, default, Platform, find_free, register_irq}
use funderberker.Interrupts.Table.{LeadsTo, install_isr-LeadsTo}

module _ (B : Bitfield RedirectionEntry Fits) where
  -- The line reaches the stub: a device has its GSI, with an entry that is not masked, and the gate of
  -- the entry's vector leads to the stub.
  pub record Reaches (p : Platform) (irq stub cs : ℕ) : Type 0 where
    pub index : ℕ
    pub device : IoApic
    pub found :
        find_from {E = IoApicError} (irq_to_gsi p.io irq) 0 p.io.io_apics
        ≡ ok (some (index, device))
    pub unmasked : (entry_of B device (irq_to_gsi p.io irq)).mask ≡ 0
    pub gate :
        LeadsTo
          (get_or p.idt (entry_of B device (irq_to_gsi p.io irq)).vector default)
          stub
          cs
          interrupt

  -- For a line whose GSI a device has and a stub of 64 digits, in a table of at most 256 entries: `register_irq` ends, the line
  -- reaches the stub, and the gates that were present are as before. Or no gate is free, and
  -- it panics.
  pub register_irq-Reaches :
      {E : Type 0} (p : Platform) (irq stub cs i : ℕ) (io : IoApic)
      → length p.idt ≤ 256
      → stub < 2 ^ 64
      → find_from {E = IoApicError} (irq_to_gsi p.io irq) 0 p.io.io_apics ≡ ok (some (i, io))
      → ((p' : Platform) × (register_irq B {E = E} p irq stub cs ≡ ok p')
          × Reaches p' irq stub cs
          × ((j : ℕ)
              → (get_or p.idt j default).present ≢ 0
              → get_or p'.idt j default ≡ get_or p.idt j default))
        ⊎ ((register_irq B {E = E} p irq stub cs ≡ panic) × (find_free 0 p.idt ≡ none))
  unfolding register_irq
  register_irq-Reaches {E} p irq stub cs i io small word found =
      let gsi = irq_to_gsi p.io irq in
      let (s₁, masked, c) = set_disabled-Changes B p.io irq true i io found in
      let same₁ = irq_to_gsi_same B p.io s₁ irq c.same_overrides in
      elim (install_isr-LeadsTo {E = E} p.idt stub cs 0 interrupt kernel small word) [
        | inr (panics, full) ↦ inr (rw (register_irq, masked, panics) refl, full)
        | inl (k, idt', installed, inside, free, _, gate, others) ↦
            let (s₂, mapped, s₃, enabled, d) =
              map_irq_to_vector-set_disabled B s₁ irq k false i c.device (omega arith)
                (rw same₁ c.found) in
            let same₃ = irq_to_gsi_same B s₁ s₃ irq d.same_overrides in
            let vector : (entry_of B d.device (irq_to_gsi s₁ irq)).vector ≡ k =
              ap (λ (e : RedirectionEntry). e.vector) d.entry in
            inl (
              record { idt = idt'; io = s₃ },
              rw (register_irq, masked, installed, mapped, enabled) refl,
              record {
                index = i;
                device = d.device;
                found = rw same₃ d.found;
                unmasked = rw same₃ (ap (λ (e : RedirectionEntry). e.mask) d.entry);
                gate = rw (same₃, vector) gate;
              },
              λ j taken. others j (λ same. taken (rw same free)),
            )
      ]
