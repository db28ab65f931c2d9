-- ===== src/Hypervisor/Start.antt =====
-- The start of the extension, and the guests that come after it.
use funderberker.Common.{
  ℕ, zero, suc, ◌+◌, ◌^◌, ◌≤◌, ◌<◌, ◌≡◌, ◌⊎◌, inl, inr, ◌==◌, ◌||◌, true, false, refl, arith, List,
  [], ◌∷◌, Outcome, ok, panic, ◌>>=◌, Bool-cases, bit_or, dec_lt, subst, sym,
}
use funderberker.Cpu.{efer_svm}
use funderberker.Bits.{bit, bit-or, bit-pow, and-pow-ne_zero}
use funderberker.Hypervisor.{Host, enable, init_asid_allocator, init_guest_state}
use funderberker.Hypervisor.Block.{uninit}
use funderberker.Hypervisor.Asids.{Handed, init_asid_allocator-Handed}
use funderberker.Hypervisor.Guest.{
  HostAllows, init_guest_state-IsGuest, init_guest_state_none, HostAllows-allocator,
}

-- `enable` succeeds when `cpuid` names the extension and the firmware did not disable it, and panics
-- otherwise. If it succeeds, the digit 12 of EFER is set, its others and the rest of the processor are
-- as before.
pub enable_iff :
    {E : Type 0} (host : Host)
    → (bit host.extended_ecx 2 ≡ true
        → bit host.vm_cr_low 4 ≡ false
        → (efer : ℕ) × (enable {E = E} host ≡ ok (record host { efer = efer }))
          × ((j : ℕ) → bit efer j ≡ (bit host.efer j || (12 == j))))
      × ((bit host.extended_ecx 2 ≡ false) ⊎ (bit host.vm_cr_low 4 ≡ true)
          → enable {E = E} host ≡ panic)
unfolding enable
enable_iff {E} host = (
  λ named allowed. (
    bit_or host.efer efer_svm,
    rw (and-pow-ne_zero host.extended_ecx 2, named, and-pow-ne_zero host.vm_cr_low 4, allowed) refl,
    λ j. rw (bit-or, bit-pow) refl,
  ),
  λ refused. refuses refused,
)
  where
    refuses :
        (bit host.extended_ecx 2 ≡ false) ⊎ (bit host.vm_cr_low 4 ≡ true)
        → enable {E = E} host ≡ panic
    refuses (inl absent) = rw (and-pow-ne_zero host.extended_ecx 2, absent) refl
    refuses (inr disabled) = elim (Bool-cases (bit host.extended_ecx 2)) [
      | inr absent ↦ rw (and-pow-ne_zero host.extended_ecx 2, absent) refl
      | inl named ↦ elim (Bool-cases (bit host.svm_edx 2)) [
        | inl key ↦
            rw
              (
                and-pow-ne_zero host.extended_ecx 2,
                named,
                and-pow-ne_zero host.vm_cr_low 4,
                disabled,
                and-pow-ne_zero host.svm_edx 2,
                key,
              )
              refl
        | inr no_key ↦
            rw
              (
                and-pow-ne_zero host.extended_ecx 2,
                named,
                and-pow-ne_zero host.vm_cr_low 4,
                disabled,
                and-pow-ne_zero host.svm_edx 2,
                no_key,
              )
              refl
      ]
    ]

-- The identifiers of so many guests that are set up one after another
unfoldable pub start_guests : {E : Type 0} → ℕ → Host → ℕ → Outcome E (List ℕ)
unfolding init_guest_state
start_guests zero host rip = ok []
start_guests (suc count) host rip = do
  (vmcb, host') ← init_guest_state host uninit rip
  ids ← start_guests count host' rip
  ok (vmcb.control.guest_asid ∷ ids)

abbrev pub numbers : ℕ → ℕ → List ℕ
numbers zero first = []
numbers (suc count) first = first ∷ numbers count (first + 1)

start_guests-numbers :
    {E : Type 0} (count : ℕ) (host : Host) (rip n k : ℕ)
    → HostAllows host
    → Handed n k host.asid_allocator
    → k + count ≤ n
    → n < 2 ^ 32
    → start_guests {E = E} count host rip ≡ ok (numbers count (k + 1))
unfolding start_guests
start_guests-numbers zero host rip n k allows handed room small = refl
start_guests-numbers {E} (suc count) host rip n k allows handed room small =
    let (vmcb, t, done, guest, handed') =
      init_guest_state-IsGuest {E = E} host uninit rip n k allows handed (omega arith) small in
    let rest =
      start_guests-numbers {E = E} count (record host { asid_allocator = t }) rip n (k + 1)
        (HostAllows-allocator t allows) handed' (omega arith) small in
    rw (start_guests, done, rest, guest.asid) refl

start_guests_none :
    {E : Type 0} (count : ℕ) (host : Host) (rip n k : ℕ)
    → HostAllows host
    → Handed n k host.asid_allocator
    → k ≤ n
    → n < k + count
    → n < 2 ^ 32
    → start_guests {E = E} count host rip ≡ panic
unfolding start_guests
start_guests_none zero host rip n k allows handed low high small = absurd (omega arith)
start_guests_none {E} (suc count) host rip n k allows handed low high small = elim (dec_lt k n) [
  | no full ↦
      let all : n ≡ k = omega arith in
      rw
        (
          start_guests,
          init_guest_state_none {E = E} host uninit rip n allows
              (subst (λ j. Handed n j host.asid_allocator) (sym all) handed),
        )
        refl
  | yes more ↦
      let (vmcb, t, done, guest, handed') =
        init_guest_state-IsGuest {E = E} host uninit rip n k allows handed more small in
      let rest =
        start_guests_none {E = E} count (record host { asid_allocator = t }) rip n (k + 1)
          (HostAllows-allocator t allows) handed' (omega arith) (omega arith) small in
      rw (start_guests, done, rest) refl
]

-- In a processor whose registers allow a guest and which names some identifiers, fewer than 2^32: after the
-- set-up of the allocator, guests that come one after another get the identifiers from 1 on, none
-- twice and up to the number that the processor names; one more panics.
pub start_guests-init_asid_allocator :
    {E : Type 0} (host : Host) (rip count : ℕ)
    → HostAllows host
    → 0 < host.svm_ebx
    → host.svm_ebx < 2 ^ 32
    → (count ≤ host.svm_ebx
        → (init_asid_allocator host >>= λ host'. start_guests {E = E} count host' rip)
          ≡ ok (numbers count 1))
      × (host.svm_ebx < count
          → (init_asid_allocator host >>= λ host'. start_guests {E = E} count host' rip) ≡ panic)
start_guests-init_asid_allocator {E} host rip count allows some small =
    let (t, made, handed) = init_asid_allocator-Handed {E = E} host some (omega arith) in
    let allows' = HostAllows-allocator t allows in
    (
      λ room.
          rw
            (
              made,
              start_guests-numbers {E = E} count (record host { asid_allocator = t }) rip
                  host.svm_ebx 0 allows' handed (omega arith) small,
            )
            refl,
      λ many.
          rw
            (
              made,
              start_guests_none {E = E} count (record host { asid_allocator = t }) rip host.svm_ebx
                  0 allows' handed (omega arith) (omega arith) small,
            )
            refl,
    )
