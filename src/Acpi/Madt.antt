-- ===== src/Acpi/Madt.antt =====
-- boot/src/acpi/madt.rs: the entries of the table of interrupt controllers.
pub mod Entries
pub mod Parse
use funderberker.Common.{
  ℕ, zero, suc, ◌+◌, ◌-◌, ◌*◌, ◌%◌, List, [], ◌∷◌, get_or, take, ◌==◌, not, if◌then◌else◌, Option,
  none, some, Outcome, ok, err, panic, ◌>>=◌, ◌>>◌, unwrap, sub_usize, map,
}
use mathlib.Core.Option
use funderberker.Bitfield.{Bitfield, BitfieldOf}
use funderberker.Apic.IoApic.{System, RedirectionEntry, Fits, nmi}
use funderberker.Apic.IoApic
use funderberker.Apic.Lapic.{Lapics}
use funderberker.Apic.Lapic
use funderberker.Apic.Lapic.Registers.{LvtReg, LvtFits}
use funderberker.Acpi.{AcpiError, u8_at, u16_at, u32_at, u64_at, table_length, validate_checksum}

-- The controllers that the entries set up
pub record Controllers : Type 0 where
  pub lapics : Lapics
  pub io : System

-- The rest of a list behind so many elements
abbrev pub drop : ℕ → List ℕ → List ℕ
drop zero bytes = bytes
drop (suc n) [] = []
drop (suc n) (x ∷ bytes) = drop n bytes

abbrev pub offset_to_entries : ℕ
offset_to_entries = 44

-- `Iter`, the pointer and the bytes that are left
pub record Iter : Type 0 where
  pub ptr : List ℕ
  pub len : ℕ

-- `Madt::iter`
unfoldable pub iter : {E : Type 0} → List ℕ → Outcome E Iter
iter table = do
  len ← sub_usize (table_length table) offset_to_entries
  ok (record { ptr = drop offset_to_entries table; len = len })

-- `Iter::next`: an entry, and the iterator behind it
unfoldable pub next : {E : Type 0} → Iter → Outcome E (Option (List ℕ × Iter))
next it = if it.len == 0 then ok none else (do
  let len = u8_at it.ptr 1
  left ← sub_usize it.len len
  ok (some (it.ptr, record { ptr = drop len it.ptr; len = left })))

-- What a read of the device at a physical address gives: its registers, and its select register. The
-- features are those of `cpuid`.
pub record Environment : Type 0 where
  pub io_apic_at : ℕ → (ℕ → ℕ) × ℕ
  pub features : ℕ

module _ (B : Bitfield RedirectionEntry Fits) (L : BitfieldOf 32 LvtReg LvtFits) (env : Environment)
    (local_apic_addr : ℕ) where
  abbrev pub with_lapics : {E : Type 0} → Controllers → Outcome E Lapics → Outcome E Controllers
  with_lapics c o = o >>= λ lapics. ok (record c { lapics = lapics })

  abbrev pub with_io : {E F : Type 0} → Controllers → Outcome F System → Outcome E Controllers
  with_io c o = unwrap o >>= λ io. ok (record c { io = io })

  -- The match on the type of an entry in `parse`
  unfoldable pub handle : {E : Type 0} → Controllers → List ℕ → Outcome E Controllers
  handle c entry =
      let entry_type = u8_at entry 0 in
      if entry_type == 0
      then with_lapics c (
          Lapic.add env.features c.lapics local_apic_addr (u8_at entry 2) (u8_at entry 3)
            (u32_at entry 4))
      else if entry_type == 1
      then (let (registers, io_sel) = env.io_apic_at (u32_at entry 4) in
          with_io c (IoApic.add c.io registers io_sel (u32_at entry 8) (u8_at entry 2)))
      else if entry_type == 2
      then with_io c
          (IoApic.override_irq B c.io (u8_at entry 3) (u32_at entry 4) (u16_at entry 8) none)
      else if entry_type == 3
      then with_io c
          (IoApic.override_irq B c.io (u8_at entry 2) (u32_at entry 6) (u16_at entry 4) (some nmi))
      else if entry_type == 4
      then with_lapics c
          (Lapic.config_lints L c.lapics (u8_at entry 2) (u8_at entry 5) (u16_at entry 3))
      else if entry_type == 5
      then ok (record c { lapics = Lapic.override_base c.lapics (u64_at entry 4) })
      else if entry_type == 9
      then with_lapics c (
          Lapic.add env.features c.lapics local_apic_addr (u32_at entry 12) (u32_at entry 4)
            (u32_at entry 8))
      else ok c

  -- The loop of `parse`. With no fuel left the result is `none`.
  unfoldable pub parse_loop : {E : Type 0} → ℕ → Iter → Controllers → Option (Outcome E Controllers)
  unfolding next handle
  parse_loop zero it c = none
  parse_loop {E} (suc fuel) it c = elim (next {E = E} it) [
    | panic ↦ some panic
    | err why ↦ some (err why)
    | ok none ↦ some (ok c)
    | ok (some (entry, rest)) ↦ elim (handle {E = E} c entry) [
      | panic ↦ some panic
      | err why ↦ some (err why)
      | ok c' ↦ parse_loop fuel rest c'
    ]
  ]

-- `parse`, but for the old interrupt controllers that it masks
unfoldable pub parse :
    Bitfield RedirectionEntry Fits
    → BitfieldOf 32 LvtReg LvtFits
    → Environment
    → ℕ
    → List ℕ
    → Controllers
    → Option (Outcome AcpiError Controllers)
parse B L env fuel table c = elim (validate_checksum table >> iter table) [
  | panic ↦ some panic
  | err why ↦ some (err why)
  | ok it ↦
      Option.map
        (λ o. o >>= λ c'. with_io B L env (u32_at table 36) c' (IoApic.init_irq_allocator c'.io))
        (parse_loop B L env (u32_at table 36) fuel it c)
]
