-- ===== src/Hypervisor/Guest.antt =====
-- A guest's control block after its set-up.
use funderberker.Common.{
  ℕ, Bool, ◌&&◌, ◌+◌, ◌-◌, ◌/◌, ◌%◌, ◌^◌, ◌<◌, ◌≡◌, ◌≢◌, ◌==◌, not, true, false, refl, arith, leb,
  ok, panic, bit_and,
}
use funderberker.Cpu.{efer_svm, efer_lma, efer_all}
use funderberker.Gdt.{
  Gdt, SegmentSelector, FullSegmentSelector, get_base, get_limit, read_full_selector,
}
use funderberker.Id.Tracker.{IdTracker}
use funderberker.Hypervisor.{Host, set_up, init_guest_state, sanity_check_guest_state}
use funderberker.Hypervisor.Block.{Vmcb}
use funderberker.Hypervisor.Asids.{Handed, allocate-Handed, allocate-Handed_all}

-- A selector whose segment the table has: the index is divided by 8 once more.
abbrev pub full : Gdt → SegmentSelector → FullSegmentSelector
full gdt selector =
    let d = gdt.segments (selector.index / 2 ^ 3) in
    record { selector = selector; attributes = d.access; limit = get_limit d; base = get_base d }

read_full_selector_lem :
    {E : Type 0} (gdt : Gdt) (selector : SegmentSelector)
    → selector.index < 48
    → read_full_selector {E = E} gdt selector ≡ ok (full gdt selector)
unfolding read_full_selector
read_full_selector_lem gdt selector small =
    let on : leb (selector.index / 2 ^ 3) 5 ≡ true = ground arith in rw on refl

-- What the processor's registers must be for a guest that begins with them
pub record HostAllows (host : Host) : Type 0 where
  pub enabled : bit_and host.efer efer_svm ≢ 0
  pub efer : bit_and host.efer (2 ^ 64 - 1 - efer_all) ≡ 0
  pub cr3_0 : host.cr3.reserved_mbz_0 ≡ 0
  pub cr3_1 : host.cr3.reserved_mbz_1 ≡ 0
  pub cr4_0 : host.cr4.reserved_mbz_0 ≡ 0
  pub cr4_1 : host.cr4.reserved_mbz_1 ≡ 0
  pub cr4_2 : host.cr4.reserved_mbz_2 ≡ 0
  pub dr6 : host.dr6.reserved_mbz_1 ≡ 0
  pub dr7 : host.dr7.reserved_mbz_1 ≡ 0
  pub cet : host.cr4.cet ≡ 0
  pub cs : host.cs.index < 48
  pub ss : host.ss.index < 48
  pub es : host.es.index < 48
  pub ds : host.ds.index < 48

-- The control block of a guest that begins at `rip` with an identifier
pub record IsGuest (host : Host) (rip : ℕ) (id : ℕ) (vmcb : Vmcb) : Type 0 where
  pub asid : vmcb.control.guest_asid ≡ id
  pub rip_set : vmcb.state_save.rip ≡ rip
  pub vmrun_exits : vmcb.control.intercepts.vmrun ≡ 1
  pub exceptions_exit : vmcb.control.intercepts.exceptions ≡ 2 ^ 32 - 1
  pub ring : vmcb.state_save.cpl ≡ 0
  pub stack : vmcb.state_save.rsp ≡ host.rsp
  pub code : vmcb.state_save.cs ≡ full host.gdt host.cs
  pub stack_segment : vmcb.state_save.ss ≡ full host.gdt host.ss
  pub checked : sanity_check_guest_state {E = Unit {0}} vmcb ≡ ok tt

eq_zero : {n : ℕ} → n ≡ 0 → n == 0 ≡ true
eq_zero h = ground arith

ne_zero : {n : ℕ} → n ≢ 0 → n == 0 ≡ false
ne_zero h = ground arith

and_false : (b : Bool) → b && false ≡ false
and_false true = refl
and_false false = refl

-- The checks pass.
set_up-checked :
    {E : Type 0} {host : Host} (vmcb : Vmcb) (rip : ℕ) (cs ss es ds : FullSegmentSelector) (id : ℕ)
    → HostAllows host
    → id % 2 ^ 32 ≢ 0
    → sanity_check_guest_state {E = E} (set_up host vmcb rip cs ss es ds id) ≡ ok tt
unfolding sanity_check_guest_state
set_up-checked {E} {host} vmcb rip cs ss es ds id allows some =
    rw
      (
        ne_zero some,
        ne_zero allows.enabled,
        eq_zero allows.efer,
        eq_zero allows.cr3_0,
        eq_zero allows.cr3_1,
        eq_zero allows.cr4_0,
        eq_zero allows.cr4_1,
        eq_zero allows.cr4_2,
        eq_zero allows.dr6,
        eq_zero allows.dr7,
        eq_zero allows.cet,
        and_false (not (bit_and host.efer efer_lma == 0)),
      )
      refl

-- In a processor whose registers allow a guest and of whose `n` identifiers, fewer than 2^32, the first `k`
-- are handed out and more are left: the set-up of any control block succeeds, the guest gets the
-- identifier after `k`, its instruction and stack pointers, the code and stack segments that the index of
-- gdt.rs finds for the selectors, all exceptions as exits, passes the checks, and only the allocator of
-- identifiers changes.
pub init_guest_state-IsGuest :
    {E : Type 0} (host : Host) (vmcb : Vmcb) (rip n k : ℕ)
    → HostAllows host
    → Handed n k host.asid_allocator
    → k < n
    → n < 2 ^ 32
    → (vmcb' : Vmcb) × (t : IdTracker) × (init_guest_state {E = E} host vmcb rip
        ≡ ok (vmcb', record host { asid_allocator = t }))
      × IsGuest host rip (k + 1) vmcb'
      × Handed n (k + 1) t
unfolding init_guest_state
init_guest_state-IsGuest {E} host vmcb rip n k allows handed more small =
    let (t, granted, handed') = allocate-Handed handed more in
    let id : (k + 1) % 2 ^ 32 ≡ k + 1 = omega arith in
    let some : (k + 1) % 2 ^ 32 ≢ 0 = omega arith in
    let cs = full host.gdt host.cs in
    let ss = full host.gdt host.ss in
    let es = full host.gdt host.es in
    let ds = full host.gdt host.ds in
    (
      set_up host vmcb rip cs ss es ds (k + 1),
      t,
      rw
          (
            read_full_selector_lem host.gdt host.cs allows.cs,
            read_full_selector_lem host.gdt host.ss allows.ss,
            read_full_selector_lem host.gdt host.es allows.es,
            read_full_selector_lem host.gdt host.ds allows.ds,
            granted,
            set_up-checked {E = E} vmcb rip cs ss es ds (k + 1) allows some,
          )
          refl,
      record {
        asid = id;
        rip_set = refl;
        vmrun_exits = refl;
        exceptions_exit = refl;
        ring = refl;
        stack = refl;
        code = refl;
        stack_segment = refl;
        checked = set_up-checked vmcb rip cs ss es ds (k + 1) allows some;
      },
      handed',
    )

-- With no identifier left the set-up panics.
pub init_guest_state_none :
    {E : Type 0} (host : Host) (vmcb : Vmcb) (rip n : ℕ)
    → HostAllows host
    → Handed n n host.asid_allocator
    → init_guest_state {E = E} host vmcb rip ≡ panic
unfolding init_guest_state
init_guest_state_none host vmcb rip n allows handed =
    rw
      (
        read_full_selector_lem host.gdt host.cs allows.cs,
        read_full_selector_lem host.gdt host.ss allows.ss,
        read_full_selector_lem host.gdt host.es allows.es,
        read_full_selector_lem host.gdt host.ds allows.ds,
        allocate-Handed_all handed,
      )
      refl

-- A new allocator of identifiers changes nothing of what the registers allow.
pub HostAllows-allocator :
    {host : Host} (t : IdTracker)
    → HostAllows host
    → HostAllows (record host { asid_allocator = t })
HostAllows-allocator t allows = record {
  enabled = allows.enabled;
  efer = allows.efer;
  cr3_0 = allows.cr3_0;
  cr3_1 = allows.cr3_1;
  cr4_0 = allows.cr4_0;
  cr4_1 = allows.cr4_1;
  cr4_2 = allows.cr4_2;
  dr6 = allows.dr6;
  dr7 = allows.dr7;
  cet = allows.cet;
  cs = allows.cs;
  ss = allows.ss;
  es = allows.es;
  ds = allows.ds;
}
