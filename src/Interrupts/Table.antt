-- ===== src/Interrupts/Table.antt =====
-- kernel/src/arch/x86_64/interrupts.rs: what the gates of the table hold.
use funderberker.Common.{
  ℕ, zero, suc, ◌+◌, ◌*◌, ◌%◌, ◌^◌, ◌≤◌, ◌<◌, ◌≡◌, ◌≢◌, ◌⊎◌, inl, inr, refl, ◌∙◌, arith, true,
  false, ◌==◌, ==_iff, none, some, List, [], ◌∷◌, if◌then◌else◌, get_or, get_or-set, length, set,
  length-set, ok, panic, Bool-cases,
}
use native.Mathlib.Nat.{mod-eq_of_lt}
use funderberker.Interrupts.{
  GateDescriptor, GateType, Dpl, kernel, trap, present_, Idt, default, install, install_at,
  install_exceptions, find_free, install_isr, gate_bits,
}

-- The address that the processor jumps to for a gate, which it puts together from the three parts
abbrev pub handler : GateDescriptor → ℕ
handler gate = gate.offset_0 + 2 ^ 16 * gate.offset_1 + 2 ^ 32 * gate.offset_2

-- A gate is present and leads to a stub, on entry to the kernel with a selector.
pub record LeadsTo (gate : GateDescriptor) (stub cs : ℕ) (kind : GateType) : Type 0 where
  pub address : handler gate ≡ stub
  pub selector : gate.segment_selector ≡ cs
  pub kind_bits : gate.gate_type ≡ gate_bits kind
  pub here : gate.present ≡ 1

pub install-LeadsTo :
    (gate : GateDescriptor) (stub cs ist : ℕ) (kind : GateType) (dpl : Dpl)
    → stub < 2 ^ 64
    → LeadsTo (install gate stub cs ist kind dpl present_) stub cs kind
unfolding install
install-LeadsTo gate stub cs ist kind dpl lt = record {
  address = omega arith;
  selector = refl;
  kind_bits = refl;
  here = refl;
}

none_before :
    (entry : GateDescriptor) (rest : Idt) (k : ℕ)
    → entry.present == 0 ≡ false
    → ((j : ℕ) → j < k → (get_or rest j default).present ≢ 0)
    → (j : ℕ) → j < suc k
    → (get_or (entry ∷ rest) j default).present ≢ 0
none_before entry rest k taken before zero lt = ground (arith, ==_iff entry.present 0)
none_before entry rest k taken before (suc j) lt = before j (omega arith)

-- The first gate that is not present
find_free-cases :
    (i : ℕ) (idt : Idt)
    → (find_free i idt ≡ none)
      ⊎ ((k : ℕ) × (k < length idt)
          × (find_free i idt ≡ some (i + k, get_or idt k default))
          × ((get_or idt k default).present ≡ 0)
          × ((j : ℕ) → j < k → (get_or idt j default).present ≢ 0))
unfolding find_free
find_free-cases i [] = inl refl
find_free-cases i (entry ∷ rest) = elim (Bool-cases (entry.present == 0)) [
  | inl free ↦
      let e : i + 0 ≡ i = omega arith in
      inr (0, omega arith, rw (free, e) refl, (==_iff _ _).0 free, λ j lt. absurd (omega arith))
  | inr taken ↦ elim (find_free-cases (i + 1) rest) [
    | inl nothing ↦ inl (rw taken nothing)
    | inr (k, lt, found, free, before) ↦
        let e : i + suc k ≡ i + 1 + k = omega arith in
        inr (suc k, omega arith, rw (taken, e) found, free, none_before entry rest k taken before)
  ]
]

-- In a table of at most 256 entries, `install_isr` takes the first gate that is not present: the vector is
-- its index, the gate leads to the stub, and the others are as before. With no such gate it
-- panics.
pub install_isr-LeadsTo :
    {E : Type 0} (idt : Idt) (stub cs ist : ℕ) (kind : GateType) (dpl : Dpl)
    → length idt ≤ 256
    → stub < 2 ^ 64
    → ((k : ℕ) × (idt' : Idt) × (install_isr {E = E} idt stub cs ist kind dpl present_
          ≡ ok (k, idt'))
        × (k < length idt)
        × ((get_or idt k default).present ≡ 0)
        × ((j : ℕ) → j < k → (get_or idt j default).present ≢ 0)
        × LeadsTo (get_or idt' k default) stub cs kind
        × ((j : ℕ) → j ≢ k → get_or idt' j default ≡ get_or idt j default))
      ⊎ ((install_isr {E = E} idt stub cs ist kind dpl present_ ≡ panic) × (find_free 0 idt ≡ none))
unfolding install_isr
install_isr-LeadsTo idt stub cs ist kind dpl small lt = elim (find_free-cases 0 idt) [
  | inl nothing ↦ inr (rw (install_isr, nothing) refl, nothing)
  | inr (k, inside, found, free, before) ↦
      let gate = install (get_or idt k default) stub cs ist kind dpl present_ in
      let e : 0 + k ≡ k = omega arith in
      let fits : k % 256 ≡ k = mod-eq_of_lt (omega arith) in
      let same : k == k ≡ true = (==_iff k k).1 refl in
      inl (
        k,
        set idt k gate,
        rw (install_isr, found, e, fits) refl,
        inside,
        free,
        before,
        rw (get_or-set idt k k gate default inside, same)
            (install-LeadsTo (get_or idt k default) stub cs ist kind dpl lt),
        λ j apart.
            let away : k == j ≡ false = ground (arith, apart, ==_iff k j) in
            get_or-set idt k j gate default inside ∙ rw away refl,
      )
]

-- The addresses are words of 64 bits.
abbrev pub AllWords : List ℕ → Type 0
AllWords [] = Unit {0}
AllWords (stub ∷ stubs) = (stub < 2 ^ 64) × AllWords stubs

install_at-get :
    (idt : Idt) (i j stub cs : ℕ) (kind : GateType)
    → i < length idt
    → get_or (install_at idt i stub cs kind) j default ≡ (
        if i == j
        then install (get_or idt i default) stub cs 0 kind kernel present_
        else get_or idt j default)
install_at-get idt i j stub cs kind lt =
    get_or-set idt i j (install (get_or idt i default) stub cs 0 kind kernel present_) default lt

-- The lines for the exceptions leave the gates below the first.
install_exceptions-below :
    (stubs : List ℕ) (idt : Idt) (i cs j : ℕ)
    → i + length stubs ≤ length idt
    → j < i
    → get_or (install_exceptions idt i cs stubs) j default ≡ get_or idt j default
unfolding install_exceptions
install_exceptions-below [] idt i cs j room lt = refl
install_exceptions-below (stub ∷ stubs) idt i cs j room lt =
    let away : i == j ≡ false = ground arith in
    install_exceptions-below stubs (install_at idt i stub cs trap) (i + 1) cs j
      (omega
        (arith, length-set idt i (install (get_or idt i default) stub cs 0 trap kernel present_)))
      (omega arith)
    ∙ install_at-get idt i j stub cs trap (omega arith)
    ∙ rw away refl

-- In a table with room for them, each of the exceptions gets a trap gate that leads to its own stub.
pub install_exceptions-LeadsTo :
    (stubs : List ℕ) (idt : Idt) (i cs k : ℕ)
    → i + length stubs ≤ length idt
    → AllWords stubs
    → k < length stubs
    → LeadsTo
        (get_or (install_exceptions idt i cs stubs) (i + k) default)
        (get_or stubs k 0)
        cs
        trap
unfolding install_exceptions
install_exceptions-LeadsTo [] idt i cs k room words lt = absurd (omega arith)
install_exceptions-LeadsTo (stub ∷ stubs) idt i cs zero room (word, words) lt =
    let e : i + 0 ≡ i = omega arith in
    let same : i == i ≡ true = (==_iff i i).1 refl in
    let len = length-set idt i (install (get_or idt i default) stub cs 0 trap kernel present_) in
    rw
      (
        e,
        install_exceptions-below stubs (install_at idt i stub cs trap) (i + 1) cs i
            (omega (arith, len)) (omega arith),
        install_at-get idt i i stub cs trap (omega arith),
        same,
      )
      (install-LeadsTo (get_or idt i default) stub cs 0 trap kernel word)
install_exceptions-LeadsTo (stub ∷ stubs) idt i cs (suc k) room (word, words) lt =
    let e : i + suc k ≡ i + 1 + k = omega arith in
    let len = length-set idt i (install (get_or idt i default) stub cs 0 trap kernel present_) in
    rw e (
      install_exceptions-LeadsTo stubs (install_at idt i stub cs trap) (i + 1) cs k
        (omega (arith, len)) words (omega arith))
