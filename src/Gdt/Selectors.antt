-- ===== src/Gdt/Selectors.antt =====
-- Which segments of the table selectors read.
use funderberker.Common.{◌/◌, ◌^◌, ◌≤◌, ◌<◌, ◌≡◌, refl, arith, leb, false, ok, panic}
use funderberker.Gdt.{
  Gdt, SegmentSelector, FullSegmentSelector, get_base, get_limit, read_full_selector,
}

-- A selector with any index below 8 reads the first segment of the table, and one with an index of 48 or
-- more panics.
pub read_full_selector-index :
    {E : Type 0} (gdt : Gdt) (selector : SegmentSelector)
    → (selector.index < 8
        → (full : FullSegmentSelector) × (read_full_selector {E = E} gdt selector ≡ ok full)
          × (full.selector ≡ selector)
          × (full.attributes ≡ (gdt.segments 0).access)
          × (full.base ≡ get_base (gdt.segments 0))
          × (full.limit ≡ get_limit (gdt.segments 0)))
      × (48 ≤ selector.index → read_full_selector {E = E} gdt selector ≡ panic)
unfolding read_full_selector
read_full_selector-index gdt selector = (
  λ low.
      let first : selector.index / 2 ^ 3 ≡ 0 = omega arith in
      (_, rw first refl, refl, refl, refl, refl),
  λ high. let off : leb (selector.index / 2 ^ 3) 5 ≡ false = ground arith in rw off refl,
)
