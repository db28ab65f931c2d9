-- ===== src/Apic/IoApic/Bounds.antt =====
-- kernel/src/arch/x86_64/apic/ioapic.rs: the number of interrupts of a device, and the indices of its entries.
use funderberker.Common.{
  ℕ, ◌+◌, ◌-◌, ◌/◌, ◌^◌, ◌≤◌, ◌<◌, ◌≡◌, sym, ap, arith, true, Outcome, ok, ltb, leb, bit_and,
  Bool-cases, inl, inr,
}
use funderberker.Bits.{and_low}
use funderberker.Apic.IoApic.{IoApic, IoApicError, new, covers, red_tbl_to_index}

covers-true :
    (gsi : ℕ) (io : IoApic)
    → covers {E = IoApicError} gsi io ≡ ok true
    → (io.gsi_base ≤ gsi) × (gsi < io.gsi_base + io.gsi_count)
unfolding covers
covers-true gsi io found = elim (Bool-cases (leb io.gsi_base gsi)) [
  | inr less ↦ let e = rw (covers, less) at found in cc
  | inl le ↦ elim (Bool-cases (ltb (io.gsi_base + io.gsi_count) (2 ^ 32))) [
    | inr big ↦ let e = rw (covers, le, big) at found in cc
    | inl fits ↦
        let e = rw (covers, le, fits) at found in
        let lt : ltb gsi (io.gsi_base + io.gsi_count) ≡ true = cc in ground arith
  ]
]

counted :
    (registers : ℕ → ℕ) (io_sel gsi_base apic_id : ℕ) (io : IoApic)
    → new registers io_sel gsi_base apic_id ≡ ok io
    → (2 ≤ io.gsi_count) × (io.gsi_count ≤ 256) × (io.gsi_base ≡ gsi_base)
unfolding new
counted registers io_sel gsi_base apic_id io made =
    let n = bit_and (registers 1 / 2 ^ 16) 255 in
    let device : ℕ → IoApic = λ count. record {
      io_sel = 1;
      registers = registers;
      gsi_base = gsi_base;
      gsi_count = count;
      apic_id = apic_id;
    } in
    let n_lt : n < 256 = omega (arith, and_low 8 (registers 1 / 2 ^ 16)) in
    elim (Bool-cases (ltb 0 n)) [
      | inr zero_ ↦ let e = rw (new, zero_) at made in cc
      | inl more ↦
          let small : ltb n 256 ≡ true = ground arith in
          let e : ◌≡◌ {A = Outcome IoApicError IoApic} (ok (device (n + 1))) (ok io) =
            rw (new, more, small) at made in
          let same : device (n + 1) ≡ io = cc in
          let count : n + 1 ≡ io.gsi_count = ap (λ (x : IoApic). x.gsi_count) same in
          (ground arith, omega arith, sym (ap (λ (x : IoApic). x.gsi_base) same))
    ]

-- A device that `IoApic::new` accepts has 2 to 256 interrupts, the base and the identifier that it was
-- given. For a GSI that the searches find on it, the pin is one of its interrupts, and the indices
-- of the registers that the driver uses are at most 544, so that no sum overflows.
pub new-bounds :
    (registers : ℕ → ℕ) (io_sel gsi_base apic_id gsi : ℕ) (io : IoApic)
    → new registers io_sel gsi_base apic_id ≡ ok io
    → covers {E = IoApicError} gsi io ≡ ok true
    → (2 ≤ io.gsi_count)
      × (io.gsi_count ≤ 256)
      × (io.gsi_base ≡ gsi_base)
      × (gsi - gsi_base < io.gsi_count)
      × (red_tbl_to_index (gsi - gsi_base) + red_tbl_to_index 1 ≤ 544)
unfolding new covers
new-bounds registers io_sel gsi_base apic_id gsi io made found =
    let (many, few, base) = counted registers io_sel gsi_base apic_id io made in
    let (above, below) = covers-true gsi io found in (many, few, base, omega arith, omega arith)
