-- ===== src/Apic/Lapic/Config.antt =====
-- kernel/src/arch/x86_64/apic/lapic.rs: `config_lints`.
use funderberker.Common.{
  ℕ, ◌≤◌, ◌/◌, ◌≡◌, ◌≢◌, ◌⊎◌, inl, inr, refl, subst, arith, Bool, true, false, ◌||◌, ◌==◌, List, [],
  ◌∷◌, ok, err, panic, bit_and, Bool-cases, zero, suc, ◌%◌, if◌then◌else◌,
}
use funderberker.Bits.{and_low}
use funderberker.Bitfield.{BitfieldOf}
use funderberker.Apic.Modes.{
  PinPolarity, active_high, active_low, TriggerMode, edge_triggered, level_triggered,
  try_pin_polarity, try_trigger_mode,
}
use funderberker.Apic.Lapic.{LocalApic, setup_lvts, Lapics, config_lints, config_loop}
use funderberker.Apic.Lapic.Registers.{LvtReg, LvtFits}
use funderberker.Apic.Lapic.Lints.{IsSetUp, setup_lvts-IsSetUp, IsSetUp-twice}

-- The local APICs are all mapped to one place.
abbrev pub AllAt : ℕ → List LocalApic → Type 0
AllAt area [] = Unit {0}
AllAt area (apic ∷ rest) = (apic.area ≡ area) × AllAt area rest

-- A local APIC is asked for.
abbrev pub asks : List LocalApic → ℕ → Bool
asks [] id = false
asks (apic ∷ rest) id = (id == 255) || (apic.acpi_processor_id == id) || asks rest id

-- The modes that the flags of the firmware's entries name: digits 0 and 1 the polarity, 2 and 3 the trigger
-- mode, where 2 is reserved
abbrev pub polarity_of : ℕ → PinPolarity
polarity_of flags = if flags % 4 == 1 then active_high else active_low

abbrev pub trigger_of : ℕ → TriggerMode
trigger_of flags = if flags / 4 % 4 == 3 then level_triggered else edge_triggered

abbrev pub HasReserved : ℕ → Type 0
HasReserved flags = (flags % 4 ≡ 2) ⊎ (flags / 4 % 4 ≡ 2)

polarity-cases :
    (flags : ℕ)
    → ((flags % 4 ≡ 2) × (try_pin_polarity (bit_and flags 3) ≡ err tt))
      ⊎ ((flags % 4 ≢ 2) × (try_pin_polarity (bit_and flags 3) ≡ ok (polarity_of flags)))
polarity-cases flags = ground (arith, and_low 2 flags)

trigger-cases :
    (flags : ℕ)
    → ((flags / 4 % 4 ≡ 2) × (try_trigger_mode (bit_and (flags / 4) 3) ≡ err tt))
      ⊎ ((flags / 4 % 4 ≢ 2) × (try_trigger_mode (bit_and (flags / 4) 3) ≡ ok (trigger_of flags)))
trigger-cases flags = ground (arith, and_low 2 (flags / 4))

-- Why a call panics: a reserved mode, or no such LINT
abbrev Refused : ℕ → ℕ → Type 0
Refused lint flags =
    (try_pin_polarity (bit_and flags 3) ≡ err tt)
    ⊎ ((p : PinPolarity) × (try_pin_polarity (bit_and flags 3) ≡ ok p)
        × ((try_trigger_mode (bit_and (flags / 4) 3) ≡ err tt)
            ⊎ ((t : TriggerMode) × (try_trigger_mode (bit_and (flags / 4) 3) ≡ ok t) × (2 ≤ lint))))

module _ {E : Type 0} (L : BitfieldOf 32 LvtReg LvtFits) (id lint flags : ℕ) where
  config_loop-panics :
      (apics : List LocalApic) (words : ℕ → ℕ)
      → Refused lint flags
      → asks apics id ≡ true
      → config_loop L {E = E} apics words id lint flags ≡ panic
  unfolding config_loop
  config_loop-panics [] words why asked = cc
  config_loop-panics (apic ∷ rest) words why asked =
      elim (Bool-cases ((id == 255) || (apic.acpi_processor_id == id))) [
        | inr skip ↦
            let later : asks rest id ≡ true = ground arith in
            rw (config_loop, skip) (config_loop-panics rest words why later)
        | inl hit ↦ elim why [
          | inl reserved ↦ rw (config_loop, hit, reserved) refl
          | inr (p, is_p, inl reserved) ↦ rw (config_loop, hit, is_p, reserved) refl
          | inr (p, is_p, inr (t, is_t, big)) ↦
              let none = (setup_lvts-IsSetUp {E = E} L words apic p t).2 lint big in
              rw (config_loop, hit, is_p, is_t, none) refl
        ]
      ]

  config_loop_skips :
      (apics : List LocalApic) (words : ℕ → ℕ)
      → asks apics id ≡ false
      → config_loop L {E = E} apics words id lint flags ≡ ok words
  unfolding config_loop
  config_loop_skips [] words nobody = refl
  config_loop_skips (apic ∷ rest) words nobody =
      let skip : (id == 255) || (apic.acpi_processor_id == id) ≡ false = ground arith in
      let later : asks rest id ≡ false = ground arith in
      rw (config_loop, skip) (config_loop_skips rest words later)

  module _ (area n o : ℕ) (polarity : PinPolarity) (trigger : TriggerMode)
      (is_polarity : try_pin_polarity (bit_and flags 3) ≡ ok polarity)
      (is_trigger : try_trigger_mode (bit_and (flags / 4) 3) ≡ ok trigger)
      (sets : (words : ℕ → ℕ) (apic : LocalApic)
        → (words' : ℕ → ℕ) × (setup_lvts L {E = E} words apic lint polarity trigger ≡ ok words')
          × IsSetUp L words words' apic.area n o polarity trigger) where
    config_loop-IsSetUp :
        (apics : List LocalApic) (words : ℕ → ℕ)
        → AllAt area apics
        → asks apics id ≡ true
        → (words' : ℕ → ℕ) × (config_loop L {E = E} apics words id lint flags ≡ ok words')
          × IsSetUp L words words' area n o polarity trigger
    unfolding config_loop
    config_loop-IsSetUp [] words all asked = cc
    config_loop-IsSetUp (apic ∷ rest) words (here, all) asked =
        elim (Bool-cases ((id == 255) || (apic.acpi_processor_id == id))) [
          | inr skip ↦
              let later : asks rest id ≡ true = ground arith in
              let (words', done, up) = config_loop-IsSetUp rest words all later in
              (words', rw (config_loop, skip) done, up)
          | inl hit ↦
              let (words', done, up) = sets words apic in
              let up' = subst (λ a. IsSetUp L words words' a n o polarity trigger) here up in
              elim (Bool-cases (asks rest id)) [
                | inr nobody ↦ (
                  words',
                  rw (config_loop, hit, is_polarity, is_trigger, done)
                      (config_loop_skips rest words' nobody),
                  up',
                )
                | inl later ↦
                    let (words'', rest_done, up'') = config_loop-IsSetUp rest words' all later in
                    (
                      words'',
                      rw (config_loop, hit, is_polarity, is_trigger, done) rest_done,
                      IsSetUp-twice up' up'',
                    )
              ]
        ]

-- The offsets of the entry of a LINT and of the other one
abbrev pub LintAt : ℕ → ℕ → ℕ → Type 0
LintAt lint n o = ((lint ≡ 0) × (n ≡ 848) × (o ≡ 864)) ⊎ ((lint ≡ 1) × (n ≡ 864) × (o ≡ 848))

lint-cases : (lint : ℕ) → (2 ≤ lint) ⊎ ((n : ℕ) × (o : ℕ) × LintAt lint n o)
lint-cases zero = inr (848, 864, inl (refl, refl, refl))
lint-cases (suc zero) = inr (864, 848, inr (refl, refl, refl))
lint-cases (suc (suc lint)) = inl (omega arith)

setup_lvts-LintAt :
    {E : Type 0} (L : BitfieldOf 32 LvtReg LvtFits) (lint n o : ℕ)
    → LintAt lint n o
    → (p : PinPolarity) (t : TriggerMode) (words : ℕ → ℕ) (apic : LocalApic)
    → (words' : ℕ → ℕ) × (setup_lvts L {E = E} words apic lint p t ≡ ok words')
      × IsSetUp L words words' apic.area n o p t
setup_lvts-LintAt {E} L lint n o (inl (e, en, eo)) p t words apic =
    rw (e, en, eo) (setup_lvts-IsSetUp {E = E} L words apic p t).0
setup_lvts-LintAt {E} L lint n o (inr (e, en, eo)) p t words apic =
    rw (e, en, eo) (setup_lvts-IsSetUp {E = E} L words apic p t).1

-- While all local APICs are mapped to one place, as the firmware's table of a common address makes
-- them, a call of `config_lints` does one of three things. For a processor that none of them has, it
-- changes nothing. For the processor of any of them (or for all, 255), it panics if the number of the LINT
-- is above 1 or one of the modes in the flags is reserved; and else it sets up, with the modes that the
-- flags name, the entries that are read through every one of them: that of the LINT for NMIs, that of
-- the other one for external interrupts, and the error entry. The list of the local APICs stays.
pub config_lints-IsSetUp :
    {E : Type 0} (L : BitfieldOf 32 LvtReg LvtFits) (s : Lapics) (area id lint flags : ℕ)
    → AllAt area s.lapics
    → ((asks s.lapics id ≡ false) × (config_lints L {E = E} s id lint flags ≡ ok s))
      ⊎ ((asks s.lapics id ≡ true)
          × ((2 ≤ lint) ⊎ HasReserved flags)
          × (config_lints L {E = E} s id lint flags ≡ panic))
      ⊎ ((asks s.lapics id ≡ true)
          × (¬ HasReserved flags)
          × (n : ℕ) × (o : ℕ) × LintAt lint n o
          × (s' : Lapics) × (config_lints L {E = E} s id lint flags ≡ ok s')
          × (s'.lapics ≡ s.lapics)
          × IsSetUp L s.words s'.words area n o (polarity_of flags) (trigger_of flags))
unfolding config_lints
config_lints-IsSetUp {E} L s area id lint flags all = elim (Bool-cases (asks s.lapics id)) [
  | inr nobody ↦
      let skips = config_loop_skips {E = E} L id lint flags s.lapics s.words nobody in
      inl (nobody, rw skips refl)
  | inl asked ↦
      let refuses = config_loop-panics {E = E} L id lint flags s.lapics s.words in
      elim (polarity-cases flags) [
        | inl (reserved, is_p) ↦
            let stops = refuses (inl is_p) asked in
            inr (inl (asked, inr (inl reserved), rw stops refl))
        | inr (p_ok, is_p) ↦ elim (trigger-cases flags) [
          | inl (reserved, is_t) ↦
              let stops = refuses (inr (_, is_p, inl is_t)) asked in
              inr (inl (asked, inr (inr reserved), rw stops refl))
          | inr (t_ok, is_t) ↦ elim (lint-cases lint) [
            | inl big ↦
                let stops = refuses (inr (_, is_p, inr (_, is_t, big))) asked in
                inr (inl (asked, inl big, rw stops refl))
            | inr (n, o, at) ↦
                let none_reserved : ¬ HasReserved flags =
                  λ r. elim r [ inl p ↦ p_ok p | inr t ↦ t_ok t ] in
                let sets =
                  setup_lvts-LintAt {E = E} L lint n o at (polarity_of flags) (trigger_of flags) in
                let (words', done, up) =
                  config_loop-IsSetUp {E = E} L id lint flags area n o (polarity_of flags)
                    (trigger_of flags) is_p is_t sets s.lapics s.words all asked in
                inr (
                  inr (
                    asked,
                    none_reserved,
                    n,
                    o,
                    at,
                    record s { words = words' },
                    rw done refl,
                    refl,
                    up,
                  ))
          ]
        ]
      ]
]
