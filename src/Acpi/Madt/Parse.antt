-- ===== src/Acpi/Madt/Parse.antt =====
-- boot/src/acpi/madt.rs: the whole table.
use funderberker.Common.{
  ℕ, ◌+◌, ◌-◌, ◌<◌, ◌≡◌, refl, arith, List, length, some, ok, ◌>>=◌, leb, true,
}
use funderberker.Bitfield.{Bitfield, BitfieldOf}
use funderberker.Apic.IoApic.{RedirectionEntry, Fits}
use funderberker.Apic.IoApic
use funderberker.Apic.Lapic.Registers.{LvtReg, LvtFits}
use funderberker.Acpi.{AcpiError, u32_at, table_length, validate_checksum}
use funderberker.Acpi.Madt.{Controllers, Environment, parse, iter, drop, with_io}
use funderberker.Acpi.Madt.Entries.{
  Entry, AllWellFormed, encode_all, total_size, perform_all, parse_loop-encode_all,
}

-- A table that passes its checksum and whose length says that its entries are those that stand behind
-- the 44 bytes of its header: with more rounds than entries `parse` ends, has performed the entries in
-- their order, with the address of the header for the local APICs, up to the first that fails, and if
-- none fails has sized the allocator of interrupt lines by the IO APICs that were added.
pub parse-encode_all :
    (B : Bitfield RedirectionEntry Fits) (L : BitfieldOf 32 LvtReg LvtFits) (env : Environment)
    (fuel : ℕ) (table : List ℕ) (entries : List Entry) (rest : List ℕ) (c : Controllers)
    → validate_checksum table ≡ ok tt
    → table_length table ≡ 44 + total_size entries
    → drop 44 table ≡ encode_all entries rest
    → AllWellFormed entries
    → length entries < fuel
    → parse B L env fuel table c
      ≡ some (
          perform_all B L env (u32_at table 36) entries c >>= λ c'.
          with_io B L env (u32_at table 36) c' (IoApic.init_irq_allocator c'.io))
unfolding parse iter
parse-encode_all B L env fuel table entries rest c valid sized body well enough =
    let fits : leb 44 (44 + total_size entries) ≡ true = ground arith in
    let left : 44 + total_size entries - 44 ≡ total_size entries = omega arith in
    rw
      (
        parse,
        valid,
        iter,
        sized,
        fits,
        left,
        body,
        parse_loop-encode_all B L env (u32_at table 36) {E = AcpiError} entries rest fuel c well
            enough,
      )
      refl
