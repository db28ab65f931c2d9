-- ===== src/Pmm.antt =====
-- pmm/src/lib.rs: the errors and the page size of the physical memory manager.
pub mod Power
pub mod Buddy
use funderberker.Common.{ℕ}

pub data PmmError : Type 0 where
  out_of_bounds no_available_block free_of_already_free invalid_alignment : PmmError
  invalid_address empty_allocation empty_free too_big_allocation : PmmError

abbrev pub basic_page_size : ℕ
basic_page_size = 0x1000
