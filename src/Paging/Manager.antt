-- ===== src/Paging/Manager.antt =====
-- kernel/src/mem/paging.rs, with the functions of kernel/src/arch/x86_64/mod.rs that it calls: the
-- trait `PagingManager`, over the page tables at `root` and the allocators of physical pages and of
-- virtual addresses. `align_offset` is the method of the Rust core library.
pub mod Allocate
pub mod Single
pub mod Flaws
pub mod Many
use funderberker.Common.{
  ℕ, zero, suc, ◌+◌, not, ◌==◌, if◌then◌else◌, Outcome, ok, err, panic, ◌>>=◌, ◌>>◌, assert, unwrap,
  map_err, ok_or, add_usize, mul_usize, none, some,
}
use funderberker.Pmm.Buddy
use funderberker.Vaa.{VirtualAddressAllocator}
use funderberker.Vaa
use funderberker.Paging.{PagingError, page_not_present}
use funderberker.Paging.Flags.{Flags}
use funderberker.Paging.PageSize.{PageSize, page_alignment, to_default_page_count}
use funderberker.Paging.Tables.{Machine, translate, unmap_pages}
use funderberker.Paging.Tables

pub record Memory : Type 0 where
  pub machine : Machine
  pub vaa : VirtualAddressAllocator

-- A step on the machine, with the memory that its error leaves
abbrev pub with_vaa :
    {A : Type 0}
    → VirtualAddressAllocator
    → Outcome (PagingError × Machine) A
    → Outcome (PagingError × Memory) A
with_vaa vaa = map_err (λ (why, m). (why, record { machine = m; vaa = vaa }))

module _ (root : ℕ) where
  -- `base + i * page_size.size()`, with the overflow checks
  abbrev pub nth_page : {E : Type 0} → ℕ → ℕ → PageSize → Outcome E ℕ
  nth_page base i page_size = do offset ← mul_usize i page_size; add_usize base offset

  -- The loop of `allocate_pages`, with the rounds that are left and the number of the round
  unfoldable pub allocate_loop :
      ℕ → ℕ → ℕ → PageSize → Flags → Machine → Outcome (PagingError × Machine) Machine
  allocate_loop zero i base page_size flags m = ok m
  allocate_loop (suc rounds) i base page_size flags m = do
    virt_addr ← nth_page base i page_size
    (phys_addr, pmm) ← unwrap (Buddy.allocate m.pmm 1 (to_default_page_count page_size))
    m' ← Tables.map_pages (record m { pmm = pmm }) root virt_addr phys_addr 1 page_size flags
    allocate_loop rounds (i + 1) base page_size flags m'

  -- The loop of `free_pages`. What it translates is the first page, in every round.
  unfoldable pub free_loop :
      ℕ → ℕ → ℕ → ℕ → PageSize → Machine → Outcome (PagingError × Machine) Machine
  free_loop zero i virt_addr count page_size m = ok m
  free_loop (suc rounds) i virt_addr count page_size m = do
    addr ← nth_page virt_addr i page_size
    found ← translate m root virt_addr
    phys_addr ← ok_or found (page_not_present, m)
    m' ← unmap_pages m root addr count page_size
    pmm ←
        map_err (λ why. (page_not_present, m'))
          (Buddy.free m'.pmm phys_addr (to_default_page_count page_size))
    free_loop rounds (i + 1) virt_addr count page_size (record m' { pmm = pmm })

  unfoldable pub free_pages : ℕ → ℕ → PageSize → Machine → Outcome (PagingError × Machine) Machine
  free_pages virt_addr count page_size m = free_loop count 0 virt_addr count page_size m

  module _ (align_offset : ℕ → ℕ → ℕ) where
    unfoldable pub allocate_pages :
        Memory → ℕ → Flags → PageSize → Outcome (PagingError × Memory) (ℕ × Memory)
    allocate_pages s page_count flags page_size = do
      (base, vaa) ← unwrap (Vaa.handout align_offset s.vaa page_count (page_alignment page_size))
      m ← with_vaa vaa (allocate_loop page_count 0 base page_size flags s.machine)
      assert (not (base == 0))
      ok (base, record { machine = m; vaa = vaa })

    -- The addresses of one page are handed out, whatever the count is.
    unfoldable pub map_pages :
        Memory → ℕ → ℕ → Flags → PageSize → Outcome (PagingError × Memory) (ℕ × Memory)
    map_pages s phys_addr page_count flags page_size = do
      (virt_addr, vaa) ← unwrap (Vaa.handout align_offset s.vaa 1 (page_alignment page_size))
      m ←
          with_vaa vaa
            (Tables.map_pages s.machine root virt_addr phys_addr page_count page_size flags)
      ok (virt_addr, record { machine = m; vaa = vaa })
