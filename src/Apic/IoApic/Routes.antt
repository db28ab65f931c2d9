-- ===== src/Apic/IoApic/Routes.antt =====
-- kernel/src/arch/x86_64/apic/ioapic.rs: the overrides of the identity mapping of interrupt lines.
use funderberker.Common.{
  ℕ, ◌^◌, ◌<◌, ◌≡◌, ◌⊎◌, inl, inr, refl, sym, Bool, true, false, ◌==◌, ==_iff, none, some, List, [],
  ◌∷◌, Bool-cases, Option-cases,
}
use native.Mathlib.Nat.{mod-eq_of_lt}
use funderberker.Apic.IoApic.{System, IrqOverride, find_override, irq_to_gsi, gsi_to_irq}

-- The property holds of every override.
abbrev pub Every : (IrqOverride → Type 0) → List IrqOverride → Type 0
Every P [] = Unit {0}
Every P (o ∷ rest) = P o × Every P rest

-- Every override of the GSI is for the line.
abbrev pub OnlyFor : ℕ → ℕ → List IrqOverride → Type 0
OnlyFor gsi irq = Every (λ o. (o.gsi ≡ gsi) → o.irq ≡ irq)

-- The first override of a line, if there is one
find_override-cases :
    (test : IrqOverride → Bool) (P : IrqOverride → Type 0) (os : List IrqOverride)
    → Every P os
    → (find_override test os ≡ none)
      ⊎ ((o : IrqOverride) × (find_override test os ≡ some o) × (test o ≡ true) × P o)
unfolding find_override
find_override-cases test P [] every = inl refl
find_override-cases test P (o ∷ rest) (here, every) = elim (Bool-cases (test o)) [
  | inl hit ↦ inr (o, rw hit refl, hit, here)
  | inr miss ↦ elim (find_override-cases test P rest every) [
    | inl nothing ↦ inl (rw miss nothing)
    | inr (o', found, hit, holds) ↦ inr (o', rw miss found, hit, holds)
  ]
]

-- What one search finds, a search for a property that it has does not miss.
find_override-none :
    (test test' : IrqOverride → Bool) (os : List IrqOverride) (o : IrqOverride)
    → find_override test os ≡ some o
    → find_override test' os ≡ none
    → test' o ≡ false
unfolding find_override
find_override-none test test' [] o found nothing = cc
find_override-none test test' (x ∷ rest) o found nothing = elim (Bool-cases (test' x)) [
  | inl hit' ↦ let never = rw hit' at nothing in cc
  | inr miss' ↦ elim (Bool-cases (test x)) [
    | inl hit ↦ let same = rw hit at found in let e : x ≡ o = cc in rw (← e) miss'
    | inr miss ↦ find_override-none test test' rest o (rw miss at found) (rw miss' at nothing)
  ]
]

-- If the GSI of an interrupt line is overridden for no other line, the line is found back from the GSI.
pub gsi_to_irq-irq_to_gsi :
    (s : System) (irq : ℕ)
    → irq < 2 ^ 8
    → OnlyFor (irq_to_gsi s irq) irq s.irq_overrides
    → gsi_to_irq s (irq_to_gsi s irq) ≡ irq
unfolding gsi_to_irq irq_to_gsi
gsi_to_irq-irq_to_gsi s irq lt only =
    let gsi = irq_to_gsi s irq in
    elim (find_override-cases (λ o. o.gsi == gsi) (λ o. (o.gsi ≡ gsi) → o.irq ≡ irq) s.irq_overrides
      only) [
        | inr (o, found, hit, owner) ↦ rw (gsi_to_irq, found) (owner ((==_iff o.gsi gsi).0 hit))
        | inl nothing ↦ elim (Option-cases (find_override (λ o. o.irq == irq) s.irq_overrides)) [
          | inl identity ↦
              let e : irq_to_gsi s irq ≡ irq = rw (irq_to_gsi, identity) refl in
              rw (gsi_to_irq, nothing, e) (mod-eq_of_lt lt)
          | inr (o, found) ↦
              let e : irq_to_gsi s irq ≡ o.gsi = rw (irq_to_gsi, found) refl in
              let missed : o.gsi == gsi ≡ false =
                find_override-none (λ o. o.irq == irq) (λ o. o.gsi == gsi) s.irq_overrides o found
                  nothing in
              let hit : o.gsi == gsi ≡ true = (==_iff _ _).1 (sym e) in cc
        ]
      ]
