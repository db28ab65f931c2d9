-- ===== src/Apic/Lapic/Command.antt =====
-- kernel/src/arch/x86_64/apic/lapic.rs: the command register, and the lookup of a local APIC.
use funderberker.Common.{
  subst, ℕ, ◌+◌, ◌*◌, ◌/◌, ◌%◌, ◌^◌, ◌<◌, ◌≡◌, ◌≢◌, refl, sym, arith, true, false, ◌==◌, ==_iff,
  bit_or,
}
use funderberker.Bits.{or_apart}
use funderberker.Apic.IoApic.{
  DeliveryMode, delivery_bits, fixed, lowest_priority, smi, nmi, init, start_up, ext_int,
}
use funderberker.Apic.Modes.{
  Level, level_bits, deassert, assert_level, TriggerMode, trigger_bits, edge_triggered,
  level_triggered, Destination, physical, logical, DestinationShorthand, shorthand_bits,
  no_shorthand, self_destination, all_including_self, all_excluding_self,
}
use funderberker.Apic.Modes
use funderberker.Apic.Lapic.{LocalApic, send_ipi, read}
use funderberker.Apic.Lapic.Registers.{ReadableRegs}

delivery_bits_lt : (m : DeliveryMode) → delivery_bits m < 8
delivery_bits_lt fixed = omega arith
delivery_bits_lt lowest_priority = omega arith
delivery_bits_lt smi = omega arith
delivery_bits_lt nmi = omega arith
delivery_bits_lt init = omega arith
delivery_bits_lt start_up = omega arith
delivery_bits_lt ext_int = omega arith

level_bits_lt : (l : Level) → level_bits l < 2
level_bits_lt deassert = omega arith
level_bits_lt assert_level = omega arith

trigger_bits_lt : (t : TriggerMode) → trigger_bits t < 2
trigger_bits_lt edge_triggered = omega arith
trigger_bits_lt level_triggered = omega arith

mode_lt : (d : Destination) → (Modes.get d).0 < 2
mode_lt (physical d) = omega arith
mode_lt (logical d) = omega arith

shorthand_bits_lt : (s : DestinationShorthand) → shorthand_bits s < 4
shorthand_bits_lt no_shorthand = omega arith
shorthand_bits_lt self_destination = omega arith
shorthand_bits_lt all_including_self = omega arith
shorthand_bits_lt all_excluding_self = omega arith

-- Six fields that fit make up a word.
command_word :
    (v m d l t s : ℕ)
    → v < 2 ^ 8
    → m < 8
    → d < 2
    → l < 2
    → t < 2
    → bit_or
        (bit_or (bit_or (bit_or (bit_or v (m * 2 ^ 8)) (d * 2 ^ 11)) (l * 2 ^ 14)) (t * 2 ^ 15))
        (s * 2 ^ 18)
      ≡ v + m * 2 ^ 8 + d * 2 ^ 11 + l * 2 ^ 14 + t * 2 ^ 15 + s * 2 ^ 18
command_word v m d l t s v_lt m_lt d_lt l_lt t_lt =
    rw
      (
        or_apart 8 v m v_lt,
        or_apart 11 (v + m * 2 ^ 8) d (omega arith),
        or_apart 14 (v + m * 2 ^ 8 + d * 2 ^ 11) l (omega arith),
        or_apart 15 (v + m * 2 ^ 8 + d * 2 ^ 11 + l * 2 ^ 14) t (omega arith),
        or_apart 18 (v + m * 2 ^ 8 + d * 2 ^ 11 + l * 2 ^ 14 + t * 2 ^ 15) s (omega arith),
      )
      refl

-- The fields of an interrupt command, in the digits where the processor reads them, and zeros in the digits
-- 12, 13, 16, 17 and from 20 on
pub record Commands (word vector : ℕ) (m : DeliveryMode) (d : Destination) (l : Level)
    (t : TriggerMode) (s : DestinationShorthand) : Type 0 where
  pub vector_at : word % 2 ^ 8 ≡ vector
  pub delivery_at : word / 2 ^ 8 % 2 ^ 3 ≡ delivery_bits m
  pub mode_at : word / 2 ^ 11 % 2 ≡ (Modes.get d).0
  pub idle_at : word / 2 ^ 12 % 4 ≡ 0
  pub level_at : word / 2 ^ 14 % 2 ≡ level_bits l
  pub trigger_at : word / 2 ^ 15 % 2 ≡ trigger_bits t
  pub gap_at : word / 2 ^ 16 % 4 ≡ 0
  pub shorthand_at : word / 2 ^ 18 % 4 ≡ shorthand_bits s
  pub rest_at : word / 2 ^ 20 ≡ 0

abbrev sum_word : ℕ → DeliveryMode → Destination → Level → TriggerMode → DestinationShorthand → ℕ
sum_word v m d l t s =
    v
    + delivery_bits m * 2 ^ 8
    + (Modes.get d).0 * 2 ^ 11
    + level_bits l * 2 ^ 14
    + trigger_bits t * 2 ^ 15
    + shorthand_bits s * 2 ^ 18

word-Commands :
    (v : ℕ) (m : DeliveryMode) (d : Destination) (l : Level) (t : TriggerMode)
    (s : DestinationShorthand)
    → v < 2 ^ 8
    → Commands (sum_word v m d l t s) v m d l t s
word-Commands v m d l t s v_lt =
    omega (
      arith,
      delivery_bits_lt m,
      mode_lt d,
      level_bits_lt l,
      trigger_bits_lt t,
      shorthand_bits_lt s,
    )

-- Sending an interrupt with a vector of eight bits: the lower command register holds every field in its
-- digits and 0 in all its other digits, the upper one the destination from digit 24 on and 0 below, and
-- no other register changes.
pub send_ipi-Commands :
    (words : ℕ → ℕ) (apic : LocalApic) (vector : ℕ) (m : DeliveryMode) (d : Destination) (l : Level)
    (t : TriggerMode) (s : DestinationShorthand)
    → vector < 2 ^ 8
    → let words' = send_ipi words apic vector m d l t s in
      Commands (read words' apic ReadableRegs.interrupt_command_0) vector m d l t s
      × (read words' apic ReadableRegs.interrupt_command_1 ≡ (Modes.get d).1 * 2 ^ 24)
      × ((a : ℕ) → a ≢ apic.area + 768 → a ≢ apic.area + 784 → words' a ≡ words a)
unfolding send_ipi
send_ipi-Commands words apic vector m d l t s v_lt =
    let word =
      command_word vector (delivery_bits m) (Modes.get d).0 (level_bits l) (trigger_bits t)
        (shorthand_bits s) v_lt (delivery_bits_lt m) (mode_lt d) (level_bits_lt l)
        (trigger_bits_lt t) in
    let here : apic.area + 768 == apic.area + 768 ≡ true = (==_iff _ _).1 refl in
    let there : apic.area + 784 == apic.area + 784 ≡ true = (==_iff _ _).1 refl in
    let apart : apic.area + 784 == apic.area + 768 ≡ false = ground arith in
    (
      subst (λ w. Commands w vector m d l t s) (sym (rw (send_ipi, here) word))
          (word-Commands vector m d l t s v_lt),
      rw (apart, there) refl,
      λ a off off'.
          let away : a == apic.area + 768 ≡ false = ground arith in
          let away' : a == apic.area + 784 ≡ false = ground arith in rw (away, away') refl,
    )
