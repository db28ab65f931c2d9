-- ===== src/Tests/HypervisorRuns.antt =====
-- Guests on a processor with three identifiers, and the segments of a table.
use funderberker.Common.{
  ℕ, ◌+◌, ◌≤◌, ◌<◌, ◌≡◌, ◌⊎◌, ◌||◌, ◌==◌, refl, arith, true, false, [], ◌∷◌, ok, panic, ◌>>=◌,
}
use funderberker.Bits.{bit}
use funderberker.Cpu.{zero_cr3, zero_cr4, zero_dr6, zero_dr7}
use funderberker.Gdt.{
  Gdt, SegmentSelector, FullSegmentSelector, get_base, get_limit, read_full_selector,
}
use funderberker.Gdt.Selectors.{read_full_selector-index}
use funderberker.Id.Tracker.{IdTracker}
use funderberker.Id.Tracker
use funderberker.Hypervisor.{Host, enable, init_asid_allocator, init_guest_state}
use funderberker.Hypervisor.Block.{Vmcb, uninit}
use funderberker.Hypervisor.Asids.{Handed, init_asid_allocator-Handed}
use funderberker.Hypervisor.Guest.{
  HostAllows, HostAllows-allocator, IsGuest, init_guest_state-IsGuest,
}
use funderberker.Hypervisor.Start.{enable_iff, start_guests, start_guests-init_asid_allocator}

-- A table whose segments are told apart by their access bytes
abbrev table : Gdt
table = record {
  segments = λ i. record {
    limit_0 = 65535;
    base_0 = 0;
    access = 16 + i;
    limit_1 = 15;
    flags = 10;
    base_1 = 0;
  };
}

abbrev selector : ℕ → SegmentSelector
selector i = record { rpl = 0; gdt = 0; index = i }

abbrev host : Host
host = record {
  extended_ecx = 4;
  svm_ebx = 3;
  svm_edx = 1;
  efer = 5376;
  vm_cr_low = 0;
  cr3 = record zero_cr3 { top_pml = 77 };
  cr4 = record zero_cr4 { pae = 1 };
  dr6 = zero_dr6;
  dr7 = zero_dr7;
  gdt = table;
  gdtr = record { limit = 55; base = 4096 };
  idtr = record { limit = 4095; base = 8192 };
  cs = selector 5;
  ss = selector 6;
  ds = selector 6;
  es = selector 6;
  rsp = 9000;
  asid_allocator = Tracker.uninit;
}

host-HostAllows : HostAllows host
host-HostAllows = record {
  enabled = omega arith;
  efer = refl;
  cr3_0 = refl;
  cr3_1 = refl;
  cr4_0 = refl;
  cr4_1 = refl;
  cr4_2 = refl;
  dr6 = refl;
  dr7 = refl;
  cet = refl;
  cs = omega arith;
  ss = omega arith;
  es = omega arith;
  ds = omega arith;
}

start_guests-init_asid_allocator_example :
    (3 ≤ 3
      → (init_asid_allocator host >>= λ host'. start_guests {E = Unit {0}} 3 host' 7)
        ≡ ok (1 ∷ 2 ∷ 3 ∷ []))
    × (3 < 3
        → (init_asid_allocator host >>= λ host'. start_guests {E = Unit {0}} 3 host' 7) ≡ panic)
start_guests-init_asid_allocator_example =
    start_guests-init_asid_allocator {E = Unit {0}} host 7 3 host-HostAllows (omega arith)
      (omega arith)

ready :
    (t : IdTracker) × (init_asid_allocator {E = Unit {0}} host
      ≡ ok (record host { asid_allocator = t }))
    × Handed 3 0 t
ready = init_asid_allocator-Handed {E = Unit {0}} host (omega arith) (omega arith)

abbrev ready_host : Host
ready_host = record host { asid_allocator = ready.0 }

init_guest_state-IsGuest_example :
    (vmcb' : Vmcb) × (t : IdTracker) × (init_guest_state {E = Unit {0}} ready_host uninit 7
      ≡ ok (vmcb', record ready_host { asid_allocator = t }))
    × IsGuest ready_host 7 1 vmcb'
    × Handed 3 1 t
init_guest_state-IsGuest_example =
    init_guest_state-IsGuest {E = Unit {0}} ready_host uninit 7 3 0
      (HostAllows-allocator ready.0 host-HostAllows) ready.2 (omega arith) (omega arith)

enable_iff_example :
    (bit 4 2 ≡ true
      → bit 0 4 ≡ false
      → (efer : ℕ) × (enable {E = Unit {0}} host ≡ ok (record host { efer = efer }))
        × ((j : ℕ) → bit efer j ≡ (bit 5376 j || (12 == j))))
    × ((bit 4 2 ≡ false) ⊎ (bit 0 4 ≡ true) → enable {E = Unit {0}} host ≡ panic)
enable_iff_example = enable_iff {E = Unit {0}} host

read_full_selector-index_example :
    (5 < 8
      → (full : FullSegmentSelector) × (read_full_selector {E = Unit {0}} table (selector 5)
          ≡ ok full)
        × (full.selector ≡ selector 5)
        × (full.attributes ≡ 16)
        × (full.base ≡ get_base (table.segments 0))
        × (full.limit ≡ get_limit (table.segments 0)))
    × (48 ≤ 5 → read_full_selector {E = Unit {0}} table (selector 5) ≡ panic)
read_full_selector-index_example = read_full_selector-index {E = Unit {0}} table (selector 5)
