-- ===== src/Hypervisor.antt =====
-- hypervisor/src/svm/mod.rs: the set-up of AMD's virtual machine extension and of its guests. What
-- `cpuid` and the processor's registers hold is the state.
pub mod Codes
pub mod Intercepts
pub mod Block
pub mod Asids
pub mod Guest
pub mod Start
use funderberker.Common.{
  ℕ, ◌+◌, ◌-◌, ◌*◌, ◌%◌, ◌^◌, Bool, true, false, not, ◌&&◌, ◌||◌, ◌==◌, if◌then◌else◌, Outcome, ok,
  panic, ◌>>=◌, ◌>>◌, assert, unwrap, unwrap_option, bit_and, bit_or,
}
use funderberker.Cpu.{Cr3, Cr4, AmdDr6, AmdDr7, new_rflags, new_cr0, efer_svm, efer_lma, efer_all}
use funderberker.Gdt.{
  Gdt, SegmentSelector, FullSegmentSelector, DescriptorTablePtr, read_full_selector, from_table,
}
use funderberker.Id.Tracker
use funderberker.Id.Tracker.{IdTracker}
use funderberker.Paging.Tables.{Machine, translate}
use funderberker.Hypervisor.Codes.{InterceptCode}
use funderberker.Hypervisor.Codes
use funderberker.Hypervisor.Block.{Vmcb}

-- The processor as the code reads and writes it, and the allocator of address space identifiers
pub record Host : Type 0 where
  -- `cpuid` 0x8000_0001 and 0x8000_000a
  pub extended_ecx : ℕ
  pub svm_ebx : ℕ
  pub svm_edx : ℕ
  pub efer : ℕ
  -- The low half of the register VM_CR
  pub vm_cr_low : ℕ
  pub cr3 : Cr3
  pub cr4 : Cr4
  pub dr6 : AmdDr6
  pub dr7 : AmdDr7
  pub gdt : Gdt
  pub gdtr : DescriptorTablePtr
  pub idtr : DescriptorTablePtr
  pub cs : SegmentSelector
  pub ss : SegmentSelector
  pub ds : SegmentSelector
  pub es : SegmentSelector
  pub rsp : ℕ
  pub asid_allocator : IdTracker

abbrev pub check_support : {E : Type 0} → Host → Outcome E (Unit {0})
check_support host = assert (not (bit_and host.extended_ecx (2 ^ 2) == 0))

-- Both branches of a processor whose firmware disabled the extension panic.
abbrev pub check_firmware_disabled : {E : Type 0} → Host → Outcome E (Unit {0})
check_firmware_disabled host =
    if not (bit_and host.vm_cr_low (2 ^ 4) == 0)
    then (assert (not (bit_and host.svm_edx (2 ^ 2) == 0)) >> panic)
    else ok tt

unfoldable pub enable : {E : Type 0} → Host → Outcome E Host
enable host = do
  check_support host
  check_firmware_disabled host
  ok (record host { efer = bit_or host.efer efer_svm })

unfoldable pub init_asid_allocator : {E : Type 0} → Host → Outcome E Host
init_asid_allocator host = do
  allocator ← unwrap (Tracker.new 1 host.svm_ebx)
  ok (record host { asid_allocator = allocator })

abbrev set : ℕ → Bool
set n = not (n == 0)

unfoldable pub sanity_check_guest_state : {E : Type 0} → Vmcb → Outcome E (Unit {0})
sanity_check_guest_state vmcb = do
  let s = vmcb.state_save
  assert (not (bit_and s.efer efer_svm == 0))
  assert (not ((s.cr0.cd == 0) && set s.cr0.nw))
  assert (not (set s.cr0.reserved_mbz_3))
  assert (not (set s.cr3.reserved_mbz_0 || set s.cr3.reserved_mbz_1))
  assert (not (set s.cr4.reserved_mbz_0 || (set s.cr4.reserved_mbz_1 || set s.cr4.reserved_mbz_2)))
  assert (not (set s.dr6.reserved_mbz_1))
  assert (not (set s.dr7.reserved_mbz_1))
  assert (not (set (bit_and s.efer (2 ^ 64 - 1 - efer_all))))
  assert (not (set (bit_and s.efer efer_lma) && (set s.cr0.pg && (s.cr4.pae == 0))))
  assert (not (set (bit_and s.efer efer_lma) && (set s.cr0.pg && (s.cr0.pe == 0))))
  assert (not (vmcb.control.intercepts.vmrun == 0))
  assert (not (vmcb.control.guest_asid == 0))
  assert (not (set s.cr4.cet && (s.cr0.wp == 0)))

-- The writes of `init_guest_state`, with the segments that it reads and the identifier
abbrev pub set_up :
    Host
    → Vmcb
    → ℕ
    → FullSegmentSelector
    → FullSegmentSelector
    → FullSegmentSelector
    → FullSegmentSelector
    → ℕ
    → Vmcb
set_up host vmcb rip cs ss es ds id = record {
  control = record vmcb.control {
    intercepts = record vmcb.control.intercepts {
      vmrun = 1;
      cpuid = 1;
      hlt = 1;
      exceptions = 4294967295;
    };
    guest_asid = id % 2 ^ 32;
  };
  state_save = record vmcb.state_save {
    cs = cs;
    rip = rip;
    rflags = record new_rflags { rf = 1 };
    rax = 0;
    ss = ss;
    rsp = host.rsp;
    cr0 = record new_cr0 { cd = 1; nw = 1 };
    cr3 = host.cr3;
    cr4 = host.cr4;
    efer = host.efer;
    idtr = from_table host.idtr;
    gdtr = from_table host.gdtr;
    es = es;
    ds = ds;
    dr6 = host.dr6;
    dr7 = host.dr7;
    cpl = 0;
  };
}

-- `init_guest_state`, with the changed allocator of identifiers
unfoldable pub init_guest_state : {E : Type 0} → Host → Vmcb → ℕ → Outcome E (Vmcb × Host)
unfolding sanity_check_guest_state
init_guest_state host vmcb rip = do
  cs ← read_full_selector host.gdt host.cs
  ss ← read_full_selector host.gdt host.ss
  es ← read_full_selector host.gdt host.es
  ds ← read_full_selector host.gdt host.ds
  (id, allocator) ← unwrap (Tracker.allocate host.asid_allocator)
  let vmcb' = set_up host vmcb rip cs ss es ds id
  sanity_check_guest_state vmcb'
  ok (vmcb', record host { asid_allocator = allocator })

-- Setting up nested paging, behind its check
unfoldable pub setup_nested_paging : {E : Type 0} → Host → Vmcb → Outcome E Vmcb
setup_nested_paging host vmcb = do
  assert (not (bit_and host.svm_edx (2 ^ 0) == 0))
  ok (record vmcb {
    control = record vmcb.control { flags = record vmcb.control.flags { np_enable = 1 } };
  })

-- `todo!` panics.
abbrev pub handle_intercept_during_int : {E : Type 0} → Vmcb → Outcome E (Unit {0})
handle_intercept_during_int vmcb = if vmcb.control.exitintinfo.valid == 0 then ok tt else panic

abbrev pub handle_code : {E : Type 0} → InterceptCode → Outcome E (Unit {0})
handle_code Codes.cpuid = ok tt
handle_code Codes.hlt = ok tt
handle_code Codes.vmrun = ok tt
handle_code Codes.vmload = ok tt
handle_code Codes.vmsave = ok tt
handle_code _ = panic

unfoldable pub handle_vmexit : {E : Type 0} → Vmcb → Outcome E (Unit {0})
handle_vmexit vmcb = handle_intercept_during_int vmcb >> handle_code vmcb.control.exitcode

-- `run` of a control block at a virtual address, with the check of cpu.rs. The instruction `vmrun` gets the
-- physical address, and changes the block.
unfoldable pub run : {E : Type 0} → (ℕ → Vmcb → Vmcb) → Machine → ℕ → ℕ → Vmcb → Outcome E Vmcb
unfolding handle_vmexit
run vmrun m root ptr vmcb = do
  found ← translate m root ptr
  phys_addr ← unwrap_option found
  assert (phys_addr % 4096 == 0)
  let vmcb' = vmrun phys_addr vmcb
  handle_vmexit vmcb'
  ok vmcb'
