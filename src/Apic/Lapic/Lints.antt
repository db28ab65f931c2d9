-- ===== src/Apic/Lapic/Lints.antt =====
-- kernel/src/arch/x86_64/apic/lapic.rs: `setup_lvts`.
use funderberker.Common.{
  ℕ, ◌+◌, ◌≤◌, ◌≡◌, ◌≢◌, refl, ap, ◌∙◌, arith, false, ◌==◌, ==_iff, ok, panic,
}
use funderberker.Bitfield.{BitfieldOf}
use funderberker.Apic.Modes.{
  PinPolarity, active_high, active_low, polarity_bits, TriggerMode, edge_triggered, level_triggered,
  trigger_bits,
}
use funderberker.Apic.Lapic.{LocalApic, setup_lvts, put}
use funderberker.Apic.Lapic.Registers.{LvtReg, LvtFits}

-- The entry of an area at an offset
abbrev pub entry_at : BitfieldOf 32 LvtReg LvtFits → (ℕ → ℕ) → ℕ → ℕ → LvtReg
entry_at L words area offset = L.from (words (area + offset))

-- The entries of an area are set up: the LINT at one offset for NMIs with the modes, that at another for
-- external interrupts, and the error entry unmasked.
pub record IsSetUp (L : BitfieldOf 32 LvtReg LvtFits) (words words' : ℕ → ℕ)
    (area nmi_at ext_at : ℕ) (polarity : PinPolarity) (trigger : TriggerMode) : Type 0 where
  pub nmi_entry : entry_at L words' area nmi_at ≡ record (entry_at L words area nmi_at) {
    delivery_mode = 4;
    trigger_mode = trigger_bits trigger;
    pin_polarity = polarity_bits polarity;
    mask = 0;
  }
  pub ext_entry :
      entry_at L words' area ext_at
      ≡ record (entry_at L words area ext_at) { delivery_mode = 7; trigger_mode = 0; mask = 0 }
  pub error_entry : entry_at L words' area 880 ≡ record (entry_at L words area 880) { mask = 0 }
  pub others : (a : ℕ) → a ≢ area + nmi_at → a ≢ area + ext_at → a ≢ area + 880 → words' a ≡ words a

nmi_fits :
    (e : LvtReg)
    → LvtFits e
    → (p : PinPolarity) (t : TriggerMode)
    → LvtFits (record e {
      delivery_mode = 4;
      trigger_mode = trigger_bits t;
      pin_polarity = polarity_bits p;
      mask = 0;
    })
nmi_fits e fits active_high edge_triggered = omega arith
nmi_fits e fits active_high level_triggered = omega arith
nmi_fits e fits active_low edge_triggered = omega arith
nmi_fits e fits active_low level_triggered = omega arith

ext_fits :
    (e : LvtReg) → LvtFits e → LvtFits (record e { delivery_mode = 7; trigger_mode = 0; mask = 0 })
ext_fits e fits = omega arith

error_fits : (e : LvtReg) → LvtFits e → LvtFits (record e { mask = 0 })
error_fits e fits = omega arith

-- Three words are written, at addresses that differ.
abbrev three : (ℕ → ℕ) → ℕ → ℕ → ℕ → ℕ → ℕ → ℕ → ℕ → ℕ
three words a b c x y z = put (put (put words a x) b y) c z

module _ (words : ℕ → ℕ) (a b c x y z : ℕ) (ab : a ≢ b) (ac : a ≢ c) (bc : b ≢ c) where
  three_a : three words a b c x y z a ≡ x
  three_a =
      let e : a == b ≡ false = ground arith in
      let e' : a == c ≡ false = ground arith in rw (e', e, (==_iff a a).1 refl) refl

  three_b : three words a b c x y z b ≡ y
  three_b = let e : b == c ≡ false = ground arith in rw (e, (==_iff b b).1 refl) refl

  three_c : three words a b c x y z c ≡ z
  three_c = rw ((==_iff c c).1 refl) refl

  three_other : (d : ℕ) → d ≢ a → d ≢ b → d ≢ c → three words a b c x y z d ≡ words d
  three_other d da db dc =
      let e : d == a ≡ false = ground arith in
      let e' : d == b ≡ false = ground arith in
      let e'' : d == c ≡ false = ground arith in rw (e'', e', e) refl

module _ (L : BitfieldOf 32 LvtReg LvtFits) (words : ℕ → ℕ) (area n o : ℕ) (apart : n ≢ o)
    (n_apart : n ≢ 880) (o_apart : o ≢ 880) (polarity : PinPolarity) (trigger : TriggerMode) where
  abbrev nmi_word : LvtReg
  nmi_word = record (entry_at L words area n) {
    delivery_mode = 4;
    trigger_mode = trigger_bits trigger;
    pin_polarity = polarity_bits polarity;
    mask = 0;
  }

  abbrev ext_word : LvtReg
  ext_word = record (entry_at L words area o) { delivery_mode = 7; trigger_mode = 0; mask = 0 }

  abbrev error_word : LvtReg
  error_word = record (entry_at L words area 880) { mask = 0 }

  three-IsSetUp :
      IsSetUp L words
        (three words
          (area + n)
          (area + o)
          (area + 880)
          (L.into nmi_word)
          (L.into ext_word)
          (L.into error_word))
        area
        n
        o
        polarity
        trigger
  three-IsSetUp =
      let ab : area + n ≢ area + o = λ e. apart (omega arith) in
      let ac : area + n ≢ area + 880 = λ e. n_apart (omega arith) in
      let bc : area + o ≢ area + 880 = λ e. o_apart (omega arith) in
      let x = L.into nmi_word in
      let y = L.into ext_word in
      let z = L.into error_word in
      record {
        nmi_entry =
            ap L.from (three_a words (area + n) (area + o) (area + 880) x y z ab ac bc)
            ∙ (L.from-into nmi_word (
                nmi_fits (entry_at L words area n) (L.from-Fits (words (area + n))) polarity
                  trigger));
        ext_entry =
            ap L.from (three_b words (area + n) (area + o) (area + 880) x y z ab ac bc)
            ∙ (L.from-into ext_word
                (ext_fits (entry_at L words area o) (L.from-Fits (words (area + o)))));
        error_entry =
            ap L.from (three_c words (area + n) (area + o) (area + 880) x y z ab ac bc)
            ∙ (L.from-into error_word
                (error_fits (entry_at L words area 880) (L.from-Fits (words (area + 880)))));
        others = three_other words (area + n) (area + o) (area + 880) x y z ab ac bc;
      }

-- The set-up of a local APIC: LINT 0 gets NMIs with the modes that are given and LINT 1 external
-- interrupts, or the other way round as asked, neither is masked nor is the error entry, their other
-- fields and all other registers stay. With the number of any other LINT it panics.
pub setup_lvts-IsSetUp :
    {E : Type 0} (L : BitfieldOf 32 LvtReg LvtFits) (words : ℕ → ℕ) (apic : LocalApic)
    (polarity : PinPolarity) (trigger : TriggerMode)
    → ((words' : ℕ → ℕ) × (setup_lvts L {E = E} words apic 0 polarity trigger ≡ ok words')
        × IsSetUp L words words' apic.area 848 864 polarity trigger)
      × ((words' : ℕ → ℕ) × (setup_lvts L {E = E} words apic 1 polarity trigger ≡ ok words')
          × IsSetUp L words words' apic.area 864 848 polarity trigger)
      × ((lint : ℕ) → 2 ≤ lint → setup_lvts L {E = E} words apic lint polarity trigger ≡ panic)
unfolding setup_lvts
setup_lvts-IsSetUp {E} L words apic polarity trigger = (
  (
    _,
    refl,
    three-IsSetUp L words apic.area 848 864 (omega arith) (omega arith) (omega arith) polarity
        trigger,
  ),
  (
    _,
    refl,
    three-IsSetUp L words apic.area 864 848 (omega arith) (omega arith) (omega arith) polarity
        trigger,
  ),
  λ lint big. ground arith,
)

-- One set-up after another of the same area is as the later one alone.
pub IsSetUp-twice :
    {L : BitfieldOf 32 LvtReg LvtFits} {words words' words'' : ℕ → ℕ} {area n o : ℕ}
    {polarity : PinPolarity} {trigger : TriggerMode}
    → IsSetUp L words words' area n o polarity trigger
    → IsSetUp L words' words'' area n o polarity trigger
    → IsSetUp L words words'' area n o polarity trigger
IsSetUp-twice {polarity = polarity} {trigger = trigger} first second = record {
  nmi_entry =
      second.nmi_entry
      ∙ ap
          (λ (e : LvtReg). record e {
            delivery_mode = 4;
            trigger_mode = trigger_bits trigger;
            pin_polarity = polarity_bits polarity;
            mask = 0;
          })
          first.nmi_entry;
  ext_entry =
      second.ext_entry
      ∙ ap (λ (e : LvtReg). record e { delivery_mode = 7; trigger_mode = 0; mask = 0 })
          first.ext_entry;
  error_entry = second.error_entry ∙ ap (λ (e : LvtReg). record e { mask = 0 }) first.error_entry;
  others = λ a an ao ae. second.others a an ao ae ∙ first.others a an ao ae;
}
