-- ===== src/Apic/Modes.antt =====
-- kernel/src/arch/x86_64/apic/mod.rs: the modes of an interrupt, and the conversions from the flags of the
-- firmware tables.
use funderberker.Common.{ℕ, Bool, ◌==◌, ◌||◌, if◌then◌else◌, not, bit_and, Outcome, ok, err}

pub data PinPolarity : Type 0 where
  active_high active_low : PinPolarity

abbrev pub polarity_bits : PinPolarity → ℕ
polarity_bits active_high = 0
polarity_bits active_low = 1

pub data TriggerMode : Type 0 where
  edge_triggered level_triggered : TriggerMode

abbrev pub trigger_bits : TriggerMode → ℕ
trigger_bits edge_triggered = 0
trigger_bits level_triggered = 1

pub data Level : Type 0 where
  deassert assert_level : Level

abbrev pub level_bits : Level → ℕ
level_bits deassert = 0
level_bits assert_level = 1

pub data DestinationShorthand : Type 0 where
  no_shorthand self_destination all_including_self all_excluding_self : DestinationShorthand

abbrev pub shorthand_bits : DestinationShorthand → ℕ
shorthand_bits no_shorthand = 0
shorthand_bits self_destination = 1
shorthand_bits all_including_self = 2
shorthand_bits all_excluding_self = 3

pub data Destination : Type 0 where
  physical logical : ℕ → Destination

-- `Destination::new`
unfoldable pub new : ℕ → Bool → Outcome (Unit {0}) Destination
new dest is_logical =
    if is_logical
    then if not (bit_and dest 15 == 0) then err tt else ok (logical dest)
    else ok (physical dest)

-- `Destination::get`
abbrev pub get : Destination → ℕ × ℕ
get (physical dest) = (0, dest)
get (logical dest) = (1, dest)

-- `TryFrom<u16>` of the trigger mode
abbrev pub try_trigger_mode : ℕ → Outcome (Unit {0}) TriggerMode
try_trigger_mode value =
    if (value == 1) || (value == 0)
    then ok edge_triggered
    else if value == 3
    then ok level_triggered
    else err tt

-- `TryFrom<u16>` of the pin polarity
abbrev pub try_pin_polarity : ℕ → Outcome (Unit {0}) PinPolarity
try_pin_polarity value =
    if value == 1
    then ok active_high
    else if (value == 3) || (value == 0)
    then ok active_low
    else err tt

pub data SharedFlags : Type 0 where
  high_edge high_level low_edge low_level : SharedFlags

-- `TryFrom<u16>` of the shared flags
abbrev pub try_shared_flags : ℕ → Outcome (Unit {0}) SharedFlags
try_shared_flags value =
    if value == 0
    then ok high_edge
    else if value == 2
    then ok high_level
    else if value == 8
    then ok low_edge
    else if value == 10
    then ok low_level
    else err tt
