-- ===== src/ApicTimer.antt =====
-- drivers/src/timer/apic.rs: the timer of a local APIC.
pub mod Configure
use funderberker.Common.{
  ℕ, ◌*◌, ◌/◌, ◌%◌, ◌^◌, Bool, true, false, not, ◌&&◌, ◌||◌, ◌==◌, ltb, if◌then◌else◌, Outcome, ok,
  panic, ◌>>=◌, ◌>>◌, assert, reject,
}
use funderberker.Bitfield.{BitfieldOf}
use funderberker.Hpet.{TimerError, unsupported_timer_mode}
use funderberker.Apic.Lapic.{Lapics, get_apic}
use funderberker.Apic.Lapic
use funderberker.Apic.Lapic.Registers.{
  LvtReg, LvtFits, TimerMode, one_shot, periodic, tsc, reserved_mode,
}

pub record ApicTimer : Type 0 where
  pub base_frequency : ℕ
  pub tsc_deadline_supported : Bool
  pub apic_id : ℕ

-- The time is its number of nanoseconds. The product has the overflow check of a `u32`, and a division by
-- zero panics.
unfoldable pub time_to_ticks : {E : Type 0} → ApicTimer → ℕ → Outcome E ℕ
time_to_ticks timer nanos = do
  let product = timer.base_frequency * 1000000
  assert (ltb product (2 ^ 32))
  let micros = nanos / 1000 % 2 ^ 32
  assert (not (micros == 0))
  ok (product / micros)

abbrev pub is_unsupported : ApicTimer → TimerMode → Bool
is_unsupported timer reserved_mode = true
is_unsupported timer tsc = not timer.tsc_deadline_supported
is_unsupported timer one_shot = false
is_unsupported timer periodic = false

module _ (L : BitfieldOf 32 LvtReg LvtFits) where
  -- `configure`: the ticks, and the registers after it
  unfoldable pub configure : ApicTimer → Lapics → ℕ → TimerMode → Outcome TimerError (ℕ × Lapics)
  unfolding time_to_ticks
  configure timer s nanos timer_mode = do
    reject (is_unsupported timer timer_mode) unsupported_timer_mode
    ticks ← time_to_ticks timer nanos
    apic ← get_apic s.lapics timer.apic_id
    ok (
      ticks,
      record s {
        words =
            Lapic.set_timer_disabled L (Lapic.config_timer L s.words apic ticks timer_mode) apic
              false;
      },
    )

  unfoldable pub set_disabled : {E : Type 0} → ApicTimer → Lapics → Bool → Outcome E Lapics
  set_disabled timer s disable = do
    apic ← get_apic s.lapics timer.apic_id
    ok (record s { words = Lapic.set_timer_disabled L s.words apic disable })
