-- ===== src/Gdt.antt =====
-- kernel/src/arch/x86_64/gdt.rs: segment selectors, and the descriptors that they stand for.
pub mod Selectors
use funderberker.Common.{ℕ, ◌*◌, ◌/◌, ◌^◌, Outcome, ok, ◌>>=◌, ◌>>◌, assert, leb, bit_or}

pub record SegmentDescriptor : Type 0 where
  pub limit_0 : ℕ
  pub base_0 : ℕ
  pub access : ℕ
  pub limit_1 : ℕ
  pub flags : ℕ
  pub base_1 : ℕ

pub record SegmentSelector : Type 0 where
  pub rpl : ℕ
  pub gdt : ℕ
  pub index : ℕ

pub record FullSegmentSelector : Type 0 where
  pub selector : SegmentSelector
  pub attributes : ℕ
  pub limit : ℕ
  pub base : ℕ

-- The six segments
pub record Gdt : Type 0 where
  pub segments : ℕ → SegmentDescriptor

-- The limit and the base of a table, which `sgdt` and `sidt` store
pub record DescriptorTablePtr : Type 0 where
  pub limit : ℕ
  pub base : ℕ

abbrev pub new_selector : SegmentSelector
new_selector = record { rpl = 0; gdt = 0; index = 0 }

abbrev pub get_base : SegmentDescriptor → ℕ
get_base d = bit_or (d.base_1 * 2 ^ 24) d.base_0

abbrev pub get_limit : SegmentDescriptor → ℕ
get_limit d = bit_or (d.limit_1 * 2 ^ 16) d.limit_0

-- `Index::index`
unfoldable pub index : {E : Type 0} → Gdt → SegmentSelector → Outcome E SegmentDescriptor
index gdt selector = do let i = selector.index / 2 ^ 3; assert (leb i 5); ok (gdt.segments i)

unfoldable pub read_full_selector :
    {E : Type 0} → Gdt → SegmentSelector → Outcome E FullSegmentSelector
unfolding index
read_full_selector gdt selector = do
  descriptor ← index gdt selector
  ok (record {
    selector = selector;
    attributes = descriptor.access;
    limit = get_limit descriptor;
    base = get_base descriptor;
  })

-- `From<DescriptorTablePtr>` for a full selector
abbrev pub from_table : DescriptorTablePtr → FullSegmentSelector
from_table value = record {
  selector = new_selector;
  attributes = 0;
  limit = value.limit;
  base = value.base;
}
