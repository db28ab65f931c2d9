-- ===== src/Paging/PageSize/Laws.antt =====
-- The tables of page sizes agree with each other.
use native.Mathlib.Omega.{arith}
use funderberker.Common.{ℕ, ◌+◌, ◌*◌, ◌%◌, ◌^◌, ◌<◌, ◌≡◌, refl, some, ok, bit_and, suc, zero}
use funderberker.Bits.{and_low}
use funderberker.Paging.PageSize.{
  PageSize, from_bottom_paging_level, bottom_paging_level, offset_bit_count, get_offset_mask,
  to_default_page_count,
}

-- Each of the three levels has a page size, which has that level; its offset has twelve bits and
-- nine more for each level, it is a power of two by that, its mask takes the offset, and it counts
-- as 512 default pages for each level.
pub from_bottom_paging_level-bottom_paging_level :
    {E : Type 0} (level : ℕ)
    → level < 3
    → (p : PageSize) × (from_bottom_paging_level level ≡ some p)
      × (bottom_paging_level {E = E} p ≡ ok level)
      × (offset_bit_count {E = E} p ≡ ok (12 + level * 9))
      × (p ≡ 2 ^ (12 + level * 9))
      × (to_default_page_count p ≡ 512 ^ level)
      × ((a : ℕ) → bit_and a (get_offset_mask p) ≡ a % p)
unfolding bottom_paging_level offset_bit_count
from_bottom_paging_level-bottom_paging_level zero lt =
    (4096, refl, refl, refl, refl, refl, λ a. and_low 12 a)
from_bottom_paging_level-bottom_paging_level (suc zero) lt =
    (2097152, refl, refl, refl, refl, refl, λ a. and_low 21 a)
from_bottom_paging_level-bottom_paging_level (suc (suc zero)) lt =
    (1073741824, refl, refl, refl, refl, refl, λ a. and_low 30 a)
from_bottom_paging_level-bottom_paging_level (suc (suc (suc n))) lt = absurd (omega arith)
