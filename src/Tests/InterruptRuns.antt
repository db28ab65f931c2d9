-- ===== src/Tests/InterruptRuns.antt =====
-- Runs of the interrupt descriptor table, with two gates, and of the spin lock.
use funderberker.Common.{ℕ, ◌≡◌, ◌≢◌, ◌⊎◌, refl, arith, [], ◌∷◌, get_or, ok, panic, none}
use funderberker.Apic.IoApic.{find_from, find_override, covers, irq_to_gsi}
use funderberker.Interrupts.{Idt, default, find_free, Platform, register_irq}
use funderberker.Interrupts.Routing.{Reaches, register_irq-Reaches}
use funderberker.Tests.IoApicRuns.{packed, zeroed, one_device}
use funderberker.SpinLock.{
  holding, Lock, new, call_lock, swap_round, Runs, done, and_then, calls, swaps,
}
use funderberker.SpinLock.Exclusion.{IsExclusive, Runs-IsExclusive, Runs-enters}

abbrev two_gates : Idt
two_gates = default ∷ default ∷ []

abbrev platform : Platform
platform = record { idt = two_gates; io = one_device }

register_irq-Reaches_example :
    ((p' : Platform) × (register_irq packed {E = ⊥} platform 0 1048576 8 ≡ ok p')
      × Reaches packed p' 0 1048576 8
      × ((j : ℕ)
          → (get_or two_gates j default).present ≢ 0
          → get_or p'.idt j default ≡ get_or two_gates j default))
    ⊎ ((register_irq packed {E = ⊥} platform 0 1048576 8 ≡ panic) × (find_free 0 two_gates ≡ none))
unfolding irq_to_gsi find_override find_from covers
register_irq-Reaches_example =
    register_irq-Reaches packed {E = ⊥} platform 0 1048576 8 0 zeroed (omega arith) (omega arith)
      refl

-- Thread 1 has the guard, and thread 2 spins.
abbrev called : Lock ℕ
called = call_lock ℕ 2 (swap_round ℕ 1 (call_lock ℕ 1 (new ℕ 7)))

called-Runs : Runs ℕ (λ value. value) (new ℕ 7) called
unfolding call_lock swap_round
called-Runs = and_then (and_then (and_then done (calls 1 refl)) (swaps 1 refl)) (calls 2 refl)

Runs-IsExclusive_example : IsExclusive called
Runs-IsExclusive_example = Runs-IsExclusive (λ value. value) called-Runs

Runs-enters_example : (u : Lock ℕ) × Runs ℕ (λ value. value) called u × (u.phase 2 ≡ holding)
unfolding call_lock
Runs-enters_example = Runs-enters (λ value. value) 2 called-Runs refl
