-- ===== src/Apic/IoApic/Registers.antt =====
-- kernel/src/arch/x86_64/apic/ioapic.rs: reading and writing entries of the redirection table.
use funderberker.Common.{
  ℕ, ◌+◌, ◌-◌, ◌*◌, ◌/◌, ◌^◌, ◌<◌, ◌≡◌, refl, ◌∙◌, arith, true, false, ◌==◌, ==_iff, bit_and,
  bit_or, leb, if◌then◌else◌,
}
use funderberker.Bits.{bit, bit-and, bit-or, bit-shl, bit-shr, bit_ones, and_low, or-lt, eq_of_bits}
use funderberker.Bitfield.{Bitfield}
use funderberker.Apic.IoApic.{
  IoApic, RedirectionEntry, Fits, red_tbl_to_index, read_redirection_entry, write_redirection_entry,
  get_high, get_low,
}

-- A word is put together from its halves.
halves :
    (x : ℕ)
    → x < 2 ^ 64
    → bit_or (bit_and x 4294967295) (bit_and (x / 2 ^ 32) 4294967295 * 2 ^ 32) ≡ x
halves x lt =
    let low : bit_and x 4294967295 < 2 ^ 32 = omega (arith, and_low 32 x) in
    let high : bit_and (x / 2 ^ 32) 4294967295 < 2 ^ 32 = omega (arith, and_low 32 (x / 2 ^ 32)) in
    eq_of_bits 64 _ x (or-lt 64 _ _ (omega arith) (omega arith)) lt (λ k k_lt. ground (
      arith,
      bit-or (bit_and x 4294967295) (bit_and (x / 2 ^ 32) 4294967295 * 2 ^ 32) k,
      bit-and x 4294967295 k,
      bit_ones 32 k,
      bit-shl 32 (bit_and (x / 2 ^ 32) 4294967295) k,
      bit-and (x / 2 ^ 32) 4294967295 (k - 32),
      bit_ones 32 (k - 32),
      half_bit k,
    ))
  where
    half_bit : (k : ℕ) → leb 32 k ≡ true → bit (x / 2 ^ 32) (k - 32) ≡ bit x k
    half_bit k le = let e : k - 32 + 32 ≡ k = ground arith in bit-shr 32 x (k - 32) ∙ rw e refl

module _ (B : Bitfield RedirectionEntry Fits) (io : IoApic) (offset : ℕ)
    (e : RedirectionEntry) where
  -- An entry that is written is read back, and just the two registers that it is written to change.
  pub read_redirection_entry-write :
      Fits e
      → (index : ℕ)
      → ((read_redirection_entry B (write_redirection_entry B io offset e) offset).0 ≡ e)
        × ((write_redirection_entry B io offset e).registers index ≡ (
            if index == offset + 18
            then get_high B e
            else if index == offset
            then get_low B e
            else io.registers index))
  unfolding read_redirection_entry write_redirection_entry
  read_redirection_entry-write fits index =
      let apart : offset == offset + 18 ≡ false = ground arith in
      let same : offset + 18 == offset + 18 ≡ true = (==_iff _ _).1 refl in
      let same' : offset == offset ≡ true = (==_iff _ _).1 refl in
      (rw (apart, same, same', halves (B.into e) (B.into_lt e fits)) (B.from-into e fits), refl)

-- Writing the entry of a pin leaves the upper register of the pin as it is, and puts the upper half of the
-- entry into the lower register of the entry nine pins further.
pub write_redirection_entry-clobbers :
    (B : Bitfield RedirectionEntry Fits) (io : IoApic) (pin : ℕ) (e : RedirectionEntry)
    → let io' = write_redirection_entry B io (red_tbl_to_index pin) e in
      (io'.registers (red_tbl_to_index pin + 1) ≡ io.registers (red_tbl_to_index pin + 1))
      × (io'.registers (red_tbl_to_index (pin + 9)) ≡ get_high B e)
unfolding write_redirection_entry
write_redirection_entry-clobbers B io pin e =
    let apart : pin * 2 + 16 + 1 == pin * 2 + 16 + 18 ≡ false = ground arith in
    let apart' : pin * 2 + 16 + 1 == pin * 2 + 16 ≡ false = ground arith in
    let same : (pin + 9) * 2 + 16 == pin * 2 + 16 + 18 ≡ true = ground arith in
    (rw (apart, apart') refl, rw same refl)
