-- ===== src/Paging.antt =====
-- kernel/src/mem/paging.rs and kernel/src/arch/x86_64/paging: flags, page sizes, the page attribute
-- table and the entries of page tables.
pub mod Flags
pub mod Pat
pub mod PageSize
pub mod Entry
pub mod Ranges
pub mod Manager
pub mod Tables

pub data PagingError : Type 0 where
  page_already_present page_not_present page_fault invalid_page_size : PagingError
  invalid_physical_address invalid_virtual_address invalid_flags : PagingError
  out_of_memory bad_page_count_and_address_combination : PagingError
