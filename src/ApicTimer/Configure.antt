-- ===== src/ApicTimer/Configure.antt =====
-- What a timer of a local APIC is configured to.
use funderberker.Common.{
  ℕ, ◌+◌, ◌*◌, ◌/◌, ◌%◌, ◌^◌, ◌≤◌, ◌<◌, ◌≡◌, ◌≢◌, ◌==◌, refl, arith, true, false, ltb, ok, err,
  panic,
}
use funderberker.Bitfield.{BitfieldOf}
use funderberker.Hpet.{TimerError, unsupported_timer_mode}
use funderberker.Apic.Lapic.{
  LocalApic, Lapics, get_apic, lvt, read, config_timer, set_timer_disabled,
}
use funderberker.Apic.Lapic.Registers.{LvtReg, LvtFits, TimerMode, ReadableRegs, mode_bits}
use funderberker.Apic.Lapic.Timer.{set_timer_disabled-config_timer}
use funderberker.ApicTimer.{ApicTimer, time_to_ticks, is_unsupported, configure}

-- For a time of some microseconds: a million times the frequency over the time. Above 4294 megahertz it panics.
pub time_to_ticks-IsQuotient :
    {E : Type 0} (timer : ApicTimer) (nanos : ℕ)
    → 1000 ≤ nanos
    → nanos < 2 ^ 32 * 1000
    → (timer.base_frequency ≤ 4294
        → time_to_ticks {E = E} timer nanos ≡ ok (timer.base_frequency * 1000000 / (nanos / 1000)))
      × (4295 ≤ timer.base_frequency → time_to_ticks {E = E} timer nanos ≡ panic)
unfolding time_to_ticks
time_to_ticks-IsQuotient timer nanos some short =
    let whole : nanos / 1000 % 2 ^ 32 ≡ nanos / 1000 = omega arith in
    let on : nanos / 1000 == 0 ≡ false = ground arith in
    (
      λ low.
          let fits : ltb (timer.base_frequency * 1000000) (2 ^ 32) ≡ true = ground arith in
          rw (fits, whole, on) refl,
      λ high.
          let big : ltb (timer.base_frequency * 1000000) (2 ^ 32) ≡ false = ground arith in
          rw big refl,
    )

-- A time of less than a millisecond: more than its ticks
quotient_above : (f m : ℕ) → 0 < f → 0 < m → m < 1000 → f * m < f * 1000000 / m
quotient_above f m some pos short = grind arith

-- A time of more than a millisecond: fewer than its ticks
quotient_below : (f m : ℕ) → 0 < f → 1000 < m → f * 1000000 / m < f * m
quotient_below f m some long = grind arith

-- Configuring a timer whose local APIC is there, for a time from a microsecond up to 2^32 microseconds and
-- with a frequency of at most 4294 megahertz. In a mode that is supported it succeeds: the entry of the
-- timer then has the mode and is not masked, its other fields as before, the initial count is the number
-- that it gives, and no other register changes. That number is a million times the frequency over the
-- microseconds, and not the ticks of the time, which are the frequency times the microseconds: unless the
-- frequency is 0, it is more than them below a millisecond and fewer above. In another mode it fails.
pub configure-time_to_ticks :
    (L : BitfieldOf 32 LvtReg LvtFits) (timer : ApicTimer) (s : Lapics) (apic : LocalApic)
    (nanos : ℕ) (mode : TimerMode)
    → get_apic {E = TimerError} s.lapics timer.apic_id ≡ ok apic
    → 1000 ≤ nanos
    → nanos < 2 ^ 32 * 1000
    → timer.base_frequency ≤ 4294
    → let ticks = timer.base_frequency * 1000000 / (nanos / 1000) in
      (is_unsupported timer mode ≡ true
        → configure L timer s nanos mode ≡ err unsupported_timer_mode)
      × (is_unsupported timer mode ≡ false
          → (words' : ℕ → ℕ) × (configure L timer s nanos mode
              ≡ ok (ticks, record s { words = words' }))
            × (lvt L words' apic ReadableRegs.lvt_timer
                ≡ record (lvt L s.words apic ReadableRegs.lvt_timer) {
                  reserved2 = mode_bits mode;
                  mask = 0;
                })
            × (read words' apic ReadableRegs.timer_initial_count ≡ ticks)
            × ((a : ℕ) → a ≢ apic.area + 800 → a ≢ apic.area + 896 → words' a ≡ s.words a))
      × (0 < timer.base_frequency
          → nanos / 1000 < 1000
          → timer.base_frequency * (nanos / 1000) < ticks)
      × (0 < timer.base_frequency
          → 1000 < nanos / 1000
          → ticks < timer.base_frequency * (nanos / 1000))
unfolding configure
configure-time_to_ticks L timer s apic nanos mode there some short low =
    let ticks = timer.base_frequency * 1000000 / (nanos / 1000) in
    let quotient = (time_to_ticks-IsQuotient {E = TimerError} timer nanos some short).0 low in
    let (entry, count, others) = set_timer_disabled-config_timer L s.words apic ticks mode false in
    (
      λ unsupported. rw unsupported refl,
      λ supported. (
        set_timer_disabled L (config_timer L s.words apic ticks mode) apic false,
        rw (supported, quotient, there) refl,
        entry,
        count,
        others,
      ),
      λ running brief.
          quotient_above timer.base_frequency (nanos / 1000) running (omega arith) brief,
      λ running long. quotient_below timer.base_frequency (nanos / 1000) running long,
    )
