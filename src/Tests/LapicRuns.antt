-- ===== src/Tests/LapicRuns.antt =====
-- Runs of the local APICs and of the firmware tables.
use funderberker.Common.{
  panic, ◌<◌, ◌≤◌, ◌*◌, ◌%◌, ℕ, ◌≡◌, ◌≢◌, ◌↔◌, ◌⊎◌, refl, arith, true, false, List, [], ◌∷◌, get_or,
  ok, err, some, none, take, ◌>>=◌,
}
use funderberker.Bitfield.{BitfieldOf}
use funderberker.Tests.Packing.{pack, unpack, AllFit, unpack-pack, pack_lt, unpack_lt}
use funderberker.Tests.IoApicRuns.{packed, one_device}
use funderberker.Apic.IoApic.{fixed, init_irq_allocator}
use funderberker.Apic.Modes.{active_high, edge_triggered, physical, assert_level, no_shorthand}
use funderberker.Apic.Lapic.{
  LocalApic, Lapics, get_timer_divide_config, set_timer_divider_config, get_apic, config_lints,
  send_ipi, lvt, read,
}
use funderberker.Apic.Lapic.Registers.{
  LvtReg, LvtFits, div4, div16, periodic, ReadableRegs, mode_bits,
}
use funderberker.Hpet.{unsupported_timer_mode}
use funderberker.ApicTimer.{ApicTimer}
use funderberker.ApicTimer
use funderberker.ApicTimer.Configure.{configure-time_to_ticks}
use funderberker.Apic.Lapic.Timer.{get_timer_divide_config-set}
use funderberker.Apic.Lapic.Lints.{IsSetUp}
use funderberker.Apic.Lapic.Config.{HasReserved, LintAt, config_lints-IsSetUp}
use funderberker.Apic.Lapic.Command.{Commands, send_ipi-Commands}
use funderberker.Acpi.{sum, AcpiError, invalid_checksum, validate_checksum}
use funderberker.Acpi.Checksum.{validate_rsdp, validate_rsdp_iff}
use funderberker.Acpi.Madt.{Controllers, Environment, parse, parse_loop, with_io}
use funderberker.Acpi.Madt.Entries.{Entry, perform_all, parse_loop-stuck}
use funderberker.Acpi.Madt.Parse.{parse-encode_all}

abbrev widths : List ℕ
widths = 8 ∷ 3 ∷ 1 ∷ 1 ∷ 1 ∷ 1 ∷ 1 ∷ 1 ∷ 15 ∷ []

abbrev to_fields : LvtReg → List ℕ
to_fields e =
    e.vector ∷ e.delivery_mode ∷ e.reserved ∷ e.delivery_status ∷ e.pin_polarity ∷ e.remote_irr
    ∷ e.trigger_mode ∷ e.mask ∷ e.reserved2 ∷ []

abbrev of_fields : List ℕ → LvtReg
of_fields vs = record {
  vector = get_or vs 0 0;
  delivery_mode = get_or vs 1 0;
  reserved = get_or vs 2 0;
  delivery_status = get_or vs 3 0;
  pin_polarity = get_or vs 4 0;
  remote_irr = get_or vs 5 0;
  trigger_mode = get_or vs 6 0;
  mask = get_or vs 7 0;
  reserved2 = get_or vs 8 0;
}

fields_fit : (e : LvtReg) → LvtFits e → AllFit widths (to_fields e)
fields_fit e f = (
  f.vector_lt,
  (
    f.delivery_mode_lt,
    (
      f.reserved_lt,
      (
        f.delivery_status_lt,
        (
          f.pin_polarity_lt,
          (f.remote_irr_lt, (f.trigger_mode_lt, (f.mask_lt, (f.reserved2_lt, tt)))),
        ),
      ),
    ),
  ),
)

from_fits : (word : ℕ) → LvtFits (of_fields (unpack widths word))
from_fits word = record {
  vector_lt = unpack_lt widths word 0;
  delivery_mode_lt = unpack_lt widths word 1;
  reserved_lt = unpack_lt widths word 2;
  delivery_status_lt = unpack_lt widths word 3;
  pin_polarity_lt = unpack_lt widths word 4;
  remote_irr_lt = unpack_lt widths word 5;
  trigger_mode_lt = unpack_lt widths word 6;
  mask_lt = unpack_lt widths word 7;
  reserved2_lt = unpack_lt widths word 8;
}

abbrev lvt_packed : BitfieldOf 32 LvtReg LvtFits
lvt_packed = record {
  from = λ word. of_fields (unpack widths word);
  into = λ e. pack widths (to_fields e);
  from-Fits = from_fits;
  into_lt = λ e f. pack_lt widths (to_fields e) (fields_fit e f);
  from-into = λ e f. rw (unpack-pack widths (to_fields e) (fields_fit e f)) refl;
}

abbrev zero_words : ℕ → ℕ
zero_words a = 0

abbrev first : LocalApic
first = record { area = 4096; acpi_processor_id = 0; apic_id = 0 }

abbrev second : LocalApic
second = record { area = 4096; acpi_processor_id = 1; apic_id = 1 }

abbrev two_apics : Lapics
two_apics = record { lapics = first ∷ second ∷ []; words = zero_words; apic_base = 0 }

get_timer_divide_config-set_example :
    (get_timer_divide_config (set_timer_divider_config zero_words first div4) first ≡ div16)
    × ((a : ℕ) → a ≢ 5088 → set_timer_divider_config zero_words first div4 a ≡ 0)
get_timer_divide_config-set_example = get_timer_divide_config-set zero_words first div4

config_lints-IsSetUp_example :
    ((true ≡ false) × (config_lints lvt_packed {E = ⊥} two_apics 1 1 5 ≡ ok two_apics))
    ⊎ ((true ≡ true)
        × ((2 ≤ 1) ⊎ HasReserved 5)
        × (config_lints lvt_packed {E = ⊥} two_apics 1 1 5 ≡ panic))
    ⊎ ((true ≡ true)
        × (¬ HasReserved 5)
        × (n : ℕ) × (o : ℕ) × LintAt 1 n o
        × (s' : Lapics) × (config_lints lvt_packed {E = ⊥} two_apics 1 1 5 ≡ ok s')
        × (s'.lapics ≡ two_apics.lapics)
        × IsSetUp lvt_packed zero_words s'.words 4096 n o active_high edge_triggered)
config_lints-IsSetUp_example =
    config_lints-IsSetUp {E = ⊥} lvt_packed two_apics 4096 1 1 5 (refl, (refl, tt))

send_ipi-Commands_example :
    let words' =
      send_ipi zero_words first 48 fixed (physical 3) assert_level edge_triggered no_shorthand in
    Commands
      (read words' first ReadableRegs.interrupt_command_0)
      48
      fixed
      (physical 3)
      assert_level
      edge_triggered
      no_shorthand
    × (read words' first ReadableRegs.interrupt_command_1 ≡ 50331648)
    × ((a : ℕ) → a ≢ 4864 → a ≢ 4880 → words' a ≡ 0)
send_ipi-Commands_example =
    send_ipi-Commands zero_words first 48 fixed (physical 3) assert_level edge_triggered
      no_shorthand (omega arith)

abbrev root_pointer : List ℕ
root_pointer = 200 ∷ 56 ∷ []

validate_rsdp_iff_example :
    ((validate_rsdp root_pointer ≡ ok tt)
      ↔ ((sum (take 20 root_pointer) % 256 ≡ 0) × (sum (take 36 root_pointer) % 256 ≡ 0)))
    × ((validate_rsdp root_pointer ≡ ok tt) ⊎ (validate_rsdp root_pointer ≡ err invalid_checksum))
validate_rsdp_iff_example = validate_rsdp_iff root_pointer

abbrev board : Environment
board = record { io_apic_at = λ addr. (λ index. 1507328, 0); features = 512 }

abbrev nothing_yet : Controllers
nothing_yet = record {
  lapics = record { lapics = []; words = zero_words; apic_base = 0 };
  io = record one_device { io_apics = []; irq_overrides = [] };
}

-- A header of 44 bytes for a table of 84, a processor, an IO APIC, an override, an NMI line and the
-- sum's last bytes in an entry that is skipped
abbrev madt : List ℕ
madt =
    0 ∷ 0 ∷ 0 ∷ 0 ∷ 86 ∷ 0 ∷ 0 ∷ 0 ∷ 0 ∷ 118 ∷ 0 ∷ 0 ∷ 0 ∷ 0 ∷ 0 ∷ 0 ∷ 0 ∷ 0 ∷ 0 ∷ 0 ∷ 0 ∷ 0 ∷ 0 ∷ 0
    ∷ 0 ∷ 0 ∷ 0 ∷ 0 ∷ 0 ∷ 0 ∷ 0 ∷ 0 ∷ 0 ∷ 0 ∷ 0 ∷ 0 ∷ 0 ∷ 16 ∷ 0 ∷ 0 ∷ 0 ∷ 0 ∷ 0 ∷ 0 ∷ 0 ∷ 8 ∷ 1 ∷ 1
    ∷ 1 ∷ 0 ∷ 0 ∷ 0 ∷ 1 ∷ 12 ∷ 2 ∷ 0 ∷ 0 ∷ 0 ∷ 192 ∷ 254 ∷ 0 ∷ 0 ∷ 0 ∷ 0 ∷ 2 ∷ 10 ∷ 0 ∷ 0 ∷ 2 ∷ 0
    ∷ 0 ∷ 0 ∷ 0 ∷ 0 ∷ 4 ∷ 6 ∷ 1 ∷ 5 ∷ 0 ∷ 0 ∷ 12 ∷ 6 ∷ 7 ∷ 7 ∷ 7 ∷ 7 ∷ []

abbrev entries : List Entry
entries =
    Entry.local_apic 1 1 1
    ∷ Entry.io_apic 2 4273995776 0
    ∷ Entry.io_apic_iso 0 0 2 0
    ∷ Entry.local_apic_nmi 1 5 0
    ∷ Entry.unknown 12 (7 ∷ 7 ∷ 7 ∷ 7 ∷ [])
    ∷ []

parse-encode_all_example :
    parse packed lvt_packed board 6 madt nothing_yet
    ≡ some (
        perform_all packed lvt_packed board 4096 entries nothing_yet >>= λ c'.
        with_io packed lvt_packed board 4096 c' (init_irq_allocator c'.io))
unfolding validate_checksum
parse-encode_all_example =
    parse-encode_all packed lvt_packed board 6 madt entries [] nothing_yet refl refl refl
      (omega arith) (omega arith)

parse_loop-stuck_example :
    parse_loop packed lvt_packed board 4096 {E = AcpiError} 9
      (record { ptr = 10 ∷ 0 ∷ []; len = 2 })
      nothing_yet
    ≡ none
parse_loop-stuck_example =
    parse_loop-stuck packed lvt_packed board 4096 {E = AcpiError}
      (record { ptr = 10 ∷ 0 ∷ []; len = 2 }) nothing_yet (omega arith) (omega arith) refl 9

abbrev apic_timer : ApicTimer
apic_timer = record { base_frequency = 100; tsc_deadline_supported = false; apic_id = 1 }

configure-time_to_ticks_example :
    (false ≡ true
      → ApicTimer.configure lvt_packed apic_timer two_apics 20000 periodic
        ≡ err unsupported_timer_mode)
    × (false ≡ false
        → (words' : ℕ → ℕ) × (ApicTimer.configure lvt_packed apic_timer two_apics 20000 periodic
            ≡ ok (5000000, record two_apics { words = words' }))
          × (lvt lvt_packed words' second ReadableRegs.lvt_timer
              ≡ record (lvt lvt_packed zero_words second ReadableRegs.lvt_timer) {
                reserved2 = mode_bits periodic;
                mask = 0;
              })
          × (read words' second ReadableRegs.timer_initial_count ≡ 5000000)
          × ((a : ℕ) → a ≢ 4896 → a ≢ 4992 → words' a ≡ 0))
    × (0 < 100 → 20 < 1000 → 100 * 20 < 5000000)
    × (0 < 100 → 1000 < 20 → 5000000 < 100 * 20)
unfolding get_apic
configure-time_to_ticks_example =
    configure-time_to_ticks lvt_packed apic_timer two_apics second 20000 periodic refl (omega arith)
      (omega arith) (omega arith)
