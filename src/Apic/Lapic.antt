-- ===== src/Apic/Lapic.antt =====
-- kernel/src/arch/x86_64/apic/lapic.rs: the local APICs of the system. The memory behind their areas is a
-- function of the address and keeps what is written; an area is named by the physical address that it
-- is mapped to. The spin locks around the devices are taken for the time of one call, and are left out.
pub mod Registers
pub mod Timer
pub mod Lints
pub mod Config
pub mod Command
use funderberker.Common.{
  ℕ, ◌+◌, ◌*◌, ◌/◌, ◌%◌, ◌^◌, Bool, true, false, not, ◌&&◌, ◌||◌, List, [], ◌∷◌, ◌++◌, map, ◌==◌,
  if◌then◌else◌, bit_and, bit_or, Outcome, ok, err, panic, ◌>>=◌, ◌>>◌, assert, unwrap,
}
use funderberker.Bitfield.{BitfieldOf}
use funderberker.Apic.IoApic.{DeliveryMode, nmi, ext_int, delivery_bits}
use funderberker.Apic.Modes.{
  PinPolarity, polarity_bits, TriggerMode, trigger_bits, edge_triggered, Level, level_bits,
  Destination, DestinationShorthand, shorthand_bits, try_trigger_mode, try_pin_polarity,
}
use funderberker.Apic.Modes
use funderberker.Apic.Lapic.Registers.{
  WriteableRegs, ReadableRegs, write_offset, read_offset, TimerDivisor, divisor_bits, TimerMode,
  mode_bits, LvtReg, LvtFits, DeliveryStatus, idle, send_pending, div1, div2, div4, div8, div16,
  div32, div64, div128,
}

pub record LocalApic : Type 0 where
  pub area : ℕ
  pub acpi_processor_id : ℕ
  pub apic_id : ℕ

-- The static `LOCAL_APICS`, the memory behind the areas, and the low half of `IA32_APIC_BASE`
pub record Lapics : Type 0 where
  pub lapics : List LocalApic
  pub words : ℕ → ℕ
  pub apic_base : ℕ

abbrev pub put : (ℕ → ℕ) → ℕ → ℕ → ℕ → ℕ
put words addr value a = if a == addr then value else words a

-- `area.write`
abbrev pub write : (ℕ → ℕ) → LocalApic → WriteableRegs → ℕ → ℕ → ℕ
write words apic reg value = put words (apic.area + write_offset reg) value

-- `area.read`
abbrev pub read : (ℕ → ℕ) → LocalApic → ReadableRegs → ℕ
read words apic reg = words (apic.area + read_offset reg)

-- `check_support`, with the register that `cpuid` gives
abbrev pub check_support : {E : Type 0} → ℕ → Outcome E (Unit {0})
check_support edx = assert (not (bit_and edx (2 ^ 9) == 0))

abbrev pub apic_enable : ℕ
apic_enable = 2 ^ 11

unfoldable pub hardware_enable : {E : Type 0} → ℕ → Lapics → Outcome E Lapics
hardware_enable edx s =
    check_support edx >> ok (record s { apic_base = bit_or s.apic_base apic_enable })

-- `LocalApic::new`
unfoldable pub new : {E : Type 0} → ℕ → Lapics → ℕ → ℕ → ℕ → Outcome E (LocalApic × Lapics)
unfolding hardware_enable
new edx s area acpi_processor_id apic_id = do
  let apic : LocalApic = record {
    area = area;
    acpi_processor_id = acpi_processor_id;
    apic_id = apic_id;
  }
  s' ← hardware_enable edx s
  ok (
    apic,
    record s' {
      words =
          write (write s'.words apic WriteableRegs.spurious_interrupt_vector 511) apic
            WriteableRegs.task_priority 0;
    },
  )

-- `add`, with the area that `map_pages` maps
unfoldable pub add : {E : Type 0} → ℕ → Lapics → ℕ → ℕ → ℕ → ℕ → Outcome E Lapics
unfolding new
add edx s area acpi_processor_id apic_id flags =
    if not (bit_and flags 1 == 1) && not (bit_and flags 2 == 2) then ok s else (do
      (apic, s') ← new edx s area acpi_processor_id apic_id
      ok (record s' { lapics = s'.lapics ++ apic ∷ [] }))

-- `read_errors`: what is read, and the memory
unfoldable pub read_errors : (ℕ → ℕ) → LocalApic → ℕ × (ℕ → ℕ)
read_errors words apic =
    let words' = write words apic WriteableRegs.error_status 0 in
    (read words' apic ReadableRegs.error_status, words')

-- The transmutation of three bits
abbrev pub divisor_of_bits : ℕ → TimerDivisor
divisor_of_bits pow =
    if pow == 0
    then div2
    else if pow == 1
    then div4
    else if pow == 2
    then div8
    else if pow == 3
    then div16
    else if pow == 4
    then div32
    else if pow == 5
    then div64
    else if pow == 6
    then div128
    else div1

unfoldable pub get_timer_divide_config : (ℕ → ℕ) → LocalApic → TimerDivisor
get_timer_divide_config words apic =
    let ret = read words apic ReadableRegs.timer_divide_config in
    divisor_of_bits (bit_or (bit_and ret 8 / 2) (bit_and ret 3))

unfoldable pub set_timer_divider_config : (ℕ → ℕ) → LocalApic → TimerDivisor → ℕ → ℕ
set_timer_divider_config words apic divider =
    write words apic WriteableRegs.timer_divide_config
      (bit_or (bit_and (divisor_bits divider) 3) (divisor_bits divider * 2))

abbrev pub read_current_timer_count : (ℕ → ℕ) → LocalApic → ℕ
read_current_timer_count words apic = read words apic ReadableRegs.timer_current_count

abbrev pub read_initial_timer_count : (ℕ → ℕ) → LocalApic → ℕ
read_initial_timer_count words apic = read words apic ReadableRegs.timer_initial_count

-- `send_ipi`
unfoldable pub send_ipi :
    (ℕ → ℕ)
    → LocalApic
    → ℕ
    → DeliveryMode
    → Destination
    → Level
    → TriggerMode
    → DestinationShorthand
    → ℕ
    → ℕ
send_ipi words apic vector delivery_mode destination level trigger_mode shorthand =
    let (mode, dest) = Modes.get destination in
    let words' = write words apic WriteableRegs.interrupt_command_1 (dest * 2 ^ 24) in
    write words' apic WriteableRegs.interrupt_command_0 (
      bit_or
        (bit_or
          (bit_or (bit_or (bit_or vector (delivery_bits delivery_mode * 2 ^ 8)) (mode * 2 ^ 11))
            (level_bits level * 2 ^ 14))
          (trigger_bits trigger_mode * 2 ^ 15))
        (shorthand_bits shorthand * 2 ^ 18))

unfoldable pub ipi_status : (ℕ → ℕ) → LocalApic → DeliveryStatus
ipi_status words apic =
    if bit_and (read words apic ReadableRegs.interrupt_command_0) (2 ^ 12) == 0
    then idle
    else send_pending

unfoldable pub signal_eoi : (ℕ → ℕ) → LocalApic → ℕ → ℕ
signal_eoi words apic = write words apic WriteableRegs.end_of_interrupt 0

-- `get_this_apic_id`, with the register that `cpuid` gives
abbrev pub get_this_apic_id : ℕ → ℕ
get_this_apic_id ebx = bit_and (ebx / 2 ^ 24) 255

-- `get_apic`, whose `expect` panics
unfoldable pub get_apic : {E : Type 0} → List LocalApic → ℕ → Outcome E LocalApic
get_apic [] apic_id = panic
get_apic (apic ∷ rest) apic_id = if apic.apic_id == apic_id then ok apic else get_apic rest apic_id

-- `override_base`
unfoldable pub override_base : Lapics → ℕ → Lapics
override_base s base = record s {
  lapics = map {A = LocalApic} (λ apic. record apic { area = base }) s.lapics;
}

module _ (L : BitfieldOf 32 LvtReg LvtFits) where
  -- The entry of a register of the local vector table
  abbrev pub lvt : (ℕ → ℕ) → LocalApic → ReadableRegs → LvtReg
  lvt words apic reg = L.from (read words apic reg)

  -- The registers of the LINT with the number that is given, and of the other one
  abbrev pub lints :
      {E : Type 0} → ℕ → Outcome E (ReadableRegs × ReadableRegs × WriteableRegs × WriteableRegs)
  lints nmi_lint =
      if nmi_lint == 0
      then ok (
        ReadableRegs.lvt_lint_0, ReadableRegs.lvt_lint_1, WriteableRegs.lvt_lint_0,
        WriteableRegs.lvt_lint_1,
      )
      else if nmi_lint == 1
      then ok (
        ReadableRegs.lvt_lint_1, ReadableRegs.lvt_lint_0, WriteableRegs.lvt_lint_1,
        WriteableRegs.lvt_lint_0,
      )
      else panic

  unfoldable pub setup_lvts :
      {E : Type 0} → (ℕ → ℕ) → LocalApic → ℕ → PinPolarity → TriggerMode → Outcome E (ℕ → ℕ)
  setup_lvts words apic nmi_lint polarity trigger_mode = do
    (nmi_reg, ext_reg, nmi_out, ext_out) ← lints nmi_lint
    let nmi_entry = record (lvt words apic nmi_reg) {
      delivery_mode = delivery_bits nmi;
      trigger_mode = trigger_bits trigger_mode;
      pin_polarity = polarity_bits polarity;
      mask = 0;
    }
    let ext_entry = record (lvt words apic ext_reg) {
      delivery_mode = delivery_bits ext_int;
      trigger_mode = trigger_bits edge_triggered;
      mask = 0;
    }
    let error = record (lvt words apic ReadableRegs.lvt_error) { mask = 0 }
    ok (
        write (write (write words apic nmi_out (L.into nmi_entry)) apic ext_out (L.into ext_entry))
          apic WriteableRegs.lvt_error (L.into error))

  -- `config_timer`
  unfoldable pub config_timer : (ℕ → ℕ) → LocalApic → ℕ → TimerMode → ℕ → ℕ
  config_timer words apic cycle_count timer_mode =
      write
        (write words apic WriteableRegs.lvt_timer (
          L.into
            (record (lvt words apic ReadableRegs.lvt_timer) { reserved2 = mode_bits timer_mode })))
        apic WriteableRegs.timer_initial_count cycle_count

  -- `set_timer_disabled`
  unfoldable pub set_timer_disabled : (ℕ → ℕ) → LocalApic → Bool → ℕ → ℕ
  set_timer_disabled words apic disable =
      write words apic WriteableRegs.lvt_timer (
        L.into (record (lvt words apic ReadableRegs.lvt_timer) { mask = if disable then 1 else 0 }))

  abbrev pub all_processors_id : ℕ
  all_processors_id = 255

  -- The loops of `config_lints` over the local APICs
  unfoldable pub config_loop :
      {E : Type 0} → List LocalApic → (ℕ → ℕ) → ℕ → ℕ → ℕ → Outcome E (ℕ → ℕ)
  config_loop [] words acpi_processor_id lint flags = ok words
  config_loop (apic ∷ rest) words acpi_processor_id lint flags =
      if (acpi_processor_id == all_processors_id) || (apic.acpi_processor_id == acpi_processor_id)
      then (do
        polarity ← unwrap (try_pin_polarity (bit_and flags 3))
        trigger_mode ← unwrap (try_trigger_mode (bit_and (flags / 4) 3))
        words' ← setup_lvts words apic lint polarity trigger_mode
        config_loop rest words' acpi_processor_id lint flags)
      else config_loop rest words acpi_processor_id lint flags

  unfoldable pub config_lints : {E : Type 0} → Lapics → ℕ → ℕ → ℕ → Outcome E Lapics
  unfolding config_loop
  config_lints s acpi_processor_id lint flags = do
    words ← config_loop s.lapics s.words acpi_processor_id lint flags
    ok (record s { words = words })
