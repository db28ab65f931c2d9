-- ===== src/Apic/Lapic/Timer.antt =====
-- kernel/src/arch/x86_64/apic/lapic.rs: the timer of a local APIC.
use funderberker.Common.{
  ℕ, ◌+◌, ◌≡◌, ◌≢◌, refl, ap, ◌∙◌, arith, Bool, true, false, ◌==◌, ==_iff, if◌then◌else◌,
}
use funderberker.Bitfield.{BitfieldOf}
use funderberker.Apic.Lapic.{
  LocalApic, get_timer_divide_config, set_timer_divider_config, config_timer, set_timer_disabled,
  lvt, read, put,
}
use funderberker.Apic.Lapic.Registers.{
  TimerDivisor, div1, div2, div4, div8, div16, div32, div64, div128, TimerMode, one_shot, periodic,
  tsc, reserved_mode, mode_bits, LvtReg, LvtFits, ReadableRegs,
}

-- What a divisor that was set is read back as
abbrev pub read_back : TimerDivisor → TimerDivisor
read_back div4 = div16
read_back div64 = div1
read_back d = d

-- After the divisor of the timer is set, it is read back as it was set, but for two: `Div4` is read back
-- as `Div16` and `Div64` as `Div1`. No other register changes.
pub get_timer_divide_config-set :
    (words : ℕ → ℕ) (apic : LocalApic) (d : TimerDivisor)
    → let words' = set_timer_divider_config words apic d in
      (get_timer_divide_config words' apic ≡ read_back d)
      × ((a : ℕ) → a ≢ apic.area + 992 → words' a ≡ words a)
unfolding get_timer_divide_config set_timer_divider_config
get_timer_divide_config-set words apic d =
    (back d, λ a apart. let away : a == apic.area + 992 ≡ false = ground arith in rw away refl)
  where
    here : apic.area + 992 == apic.area + 992 ≡ true
    here = (==_iff _ _).1 refl

    back :
        (d : TimerDivisor)
        → get_timer_divide_config (set_timer_divider_config words apic d) apic ≡ read_back d
    back div2 = rw here refl
    back div4 = rw here refl
    back div8 = rw here refl
    back div16 = rw here refl
    back div32 = rw here refl
    back div64 = rw here refl
    back div128 = rw here refl
    back div1 = rw here refl

mode_fits :
    (e : LvtReg)
    → LvtFits e
    → (mode : TimerMode) → LvtFits (record e { reserved2 = mode_bits mode })
mode_fits e fits one_shot = omega arith
mode_fits e fits periodic = omega arith
mode_fits e fits tsc = omega arith
mode_fits e fits reserved_mode = omega arith

pub mask_fits :
    (e : LvtReg)
    → LvtFits e
    → (disable : Bool) → LvtFits (record e { mask = if disable then 1 else 0 })
mask_fits e fits disable = ground arith

-- An entry that is written is read back.
pub from-put :
    (L : BitfieldOf 32 LvtReg LvtFits) (words : ℕ → ℕ) (a : ℕ) (e : LvtReg)
    → LvtFits e
    → L.from (put words a (L.into e) a) ≡ e
from-put L words a e fits = rw ((==_iff a a).1 refl) (L.from-into e fits)

-- After the timer is configured and then enabled or disabled, the entry of the timer has the mode
-- in the digits that other entries reserve and the mask as asked, and its other fields as before; the
-- initial count is the count that was asked for, and no other register changes.
pub set_timer_disabled-config_timer :
    (L : BitfieldOf 32 LvtReg LvtFits) (words : ℕ → ℕ) (apic : LocalApic) (count : ℕ)
    (mode : TimerMode) (disable : Bool)
    → let words' = set_timer_disabled L (config_timer L words apic count mode) apic disable in
      (lvt L words' apic ReadableRegs.lvt_timer ≡ record (lvt L words apic ReadableRegs.lvt_timer) {
        reserved2 = mode_bits mode;
        mask = if disable then 1 else 0;
      })
      × (read words' apic ReadableRegs.timer_initial_count ≡ count)
      × ((a : ℕ) → a ≢ apic.area + 800 → a ≢ apic.area + 896 → words' a ≡ words a)
unfolding set_timer_disabled config_timer
set_timer_disabled-config_timer L words apic count mode disable =
    let apart : apic.area + 800 == apic.area + 896 ≡ false = ground arith in
    let apart' : apic.area + 896 == apic.area + 800 ≡ false = ground arith in
    let old = lvt L words apic ReadableRegs.lvt_timer in
    let fits = mode_fits old (L.from-Fits (words (apic.area + 800))) mode in
    let w₁ = config_timer L words apic count mode in
    let configured : lvt L w₁ apic ReadableRegs.lvt_timer
        ≡ record old { reserved2 = mode_bits mode } =
      rw (lvt, config_timer, apart)
        (from-put L words (apic.area + 800) (record old { reserved2 = mode_bits mode }) fits) in
    let fits' =
      mask_fits (lvt L w₁ apic ReadableRegs.lvt_timer) (L.from-Fits (w₁ (apic.area + 800)))
        disable in
    (
      from-put L w₁ (apic.area + 800)
            (record (lvt L w₁ apic ReadableRegs.lvt_timer) { mask = if disable then 1 else 0 })
            fits'
          ∙ ap (λ (e : LvtReg). record e { mask = if disable then 1 else 0 }) configured,
      rw (apart', (==_iff (apic.area + 896) (apic.area + 896)).1 refl) refl,
      λ a off off'.
          let away : a == apic.area + 800 ≡ false = ground arith in
          let away' : a == apic.area + 896 ≡ false = ground arith in rw (away, away') refl,
    )
