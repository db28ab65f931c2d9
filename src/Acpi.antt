-- ===== src/Acpi.antt =====
-- boot/src/acpi: the firmware tables. A table is the list of the bytes from its first on; a pointer
-- into it is the rest of the list from there.
pub mod Checksum
pub mod Madt
use funderberker.Common.{
  ℕ, ◌+◌, ◌*◌, ◌^◌, ◌%◌, List, [], ◌∷◌, get_or, take, ◌==◌, not, Outcome, reject, ◌>>◌,
}

pub data AcpiError : Type 0 where
  invalid_checksum : AcpiError

-- The fields of packed structs, whose lowest byte comes first
abbrev pub u8_at : List ℕ → ℕ → ℕ
u8_at p k = get_or p k 0

abbrev pub u16_at : List ℕ → ℕ → ℕ
u16_at p k = u8_at p k + u8_at p (k + 1) * 2 ^ 8

abbrev pub u32_at : List ℕ → ℕ → ℕ
u32_at p k = u16_at p k + u16_at p (k + 2) * 2 ^ 16

abbrev pub u64_at : List ℕ → ℕ → ℕ
u64_at p k = u32_at p k + u32_at p (k + 4) * 2 ^ 32

-- `SdtHeader::length`
abbrev pub table_length : List ℕ → ℕ
table_length table = u32_at table 4

-- The sums of the checksums
abbrev pub sum : List ℕ → ℕ
sum [] = 0
sum (x ∷ xs) = x + sum xs

-- `SdtHeader::validate_checksum`
unfoldable pub validate_checksum : List ℕ → Outcome AcpiError (Unit {0})
validate_checksum table =
    reject (not (sum (take (table_length table) table) % 256 == 0)) invalid_checksum
