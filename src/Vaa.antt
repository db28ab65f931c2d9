-- ===== src/Vaa.antt =====
-- kernel/src/mem/vaa.rs: virtual addresses handed out by page numbers. `align_offset` is the method of
-- raw pointers to `()` in the Rust core library.
use funderberker.Common.{
  ℕ, ◌+◌, ◌-◌, ◌*◌, ◌/◌, ◌%◌, ◌^◌, ◌≤◌, ◌<◌, ◌≡◌, arith, ◌==◌, leb, if◌then◌else◌, Outcome, ok,
  panic, ◌>>=◌, ◌>>◌, assert, unwrap_option, add_usize, sub_usize, mul_usize, usize_mod, ◌≢◌,
}
use funderberker.Pmm.{basic_page_size}
use funderberker.Id.Hander.{IdHander, handout_and_skip, new_starting_from, peek_next}

-- `min_mem_span` of the source, 8 * 0x1000^4 bytes
abbrev min_mem_span : ℕ
min_mem_span = 8 * 4096 ^ 4

pub record VirtualAddressAllocator : Type 0 where
  pub hander : IdHander

-- `new`, with the value of `HHDM_OFFSET`, the sanity check of the development profile, and the largest
-- `usize` as `Id::MAX_ID`.
unfoldable pub new : ℕ → ℕ → Outcome ⊥ VirtualAddressAllocator
new hhdm_offset start_addr = do
  assert (start_addr % basic_page_size == 0)
  span ← sub_usize hhdm_offset start_addr
  assert (leb min_mem_span span)
  ok (record { hander = new_starting_from (start_addr / basic_page_size) (usize_mod - 1) })

unfoldable pub handout :
    (ℕ → ℕ → ℕ) → VirtualAddressAllocator → ℕ → ℕ → Outcome ⊥ (ℕ × VirtualAddressAllocator)
unfolding handout_and_skip
handout align_offset v count page_alignment = do
  total ← add_usize (align_offset (peek_next v.hander) page_alignment) count
  (granted, hander) ← handout_and_skip v.hander total
  page_id ← unwrap_option granted
  addr ← mul_usize page_id basic_page_size
  ok (addr, record { hander = hander })

-- What the core library says of `align_offset` at a type of size 0: no offset is needed at an aligned
-- address, and none helps at another, which gives the largest `usize`.
abbrev pub AlignsUnits : (ℕ → ℕ → ℕ) → Type 0
AlignsUnits align_offset =
    (addr alignment : ℕ)
    → align_offset addr alignment ≡ (if addr % alignment == 0 then 0 else usize_mod - 1)

-- A request when the next page has the alignment: it gets that page, and the next request the page
-- that lies `count` pages behind.
pub handout_aligned :
    (align_offset : ℕ → ℕ → ℕ)
    → AlignsUnits align_offset
    → (next max count page_alignment : ℕ) → next % page_alignment ≡ 0
    → next ≤ max
    → next + count < usize_mod
    → next * basic_page_size < usize_mod
    → handout align_offset
        (record { hander = record { next = next; max = max } })
        count
        page_alignment
      ≡ ok (next * basic_page_size, record { hander = record { next = next + count; max = max } })
unfolding handout handout_and_skip
handout_aligned align_offset spec next max count page_alignment aligned le sum product =
    rw (spec, aligned) (ground arith)

-- A request for a page at least when the next page does not have the alignment panics, whatever is still free:
-- the pointer that is aligned points to a type of size 0.
pub handout_misaligned :
    (align_offset : ℕ → ℕ → ℕ)
    → AlignsUnits align_offset
    → (v : VirtualAddressAllocator) (count page_alignment : ℕ)
    → peek_next v.hander % page_alignment ≢ 0
    → 1 ≤ count
    → handout align_offset v count page_alignment ≡ panic
unfolding handout
handout_misaligned align_offset spec v count page_alignment misaligned le = rw spec (ground arith)
