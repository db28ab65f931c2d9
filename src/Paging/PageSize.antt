-- ===== src/Paging/PageSize.antt =====
-- kernel/src/arch/x86_64/paging/page_size.rs, with `page_alignment` and `to_default_page_count` of
-- kernel/src/mem/paging.rs: a page size is its number of bytes, which the source makes 4KB, 2MB or
-- 1GB; a match on any other is `unreachable!`.
pub mod Laws
use funderberker.Common.{
  ℕ, ◌-◌, ◌/◌, Bool, true, Option, none, some, ◌==◌, if◌then◌else◌, Outcome, ok, panic,
}
use funderberker.Paging.Flags.{Flags, set_page_size}
use funderberker.Paging.Flags

abbrev pub PageSize : Type 0
PageSize = ℕ

abbrev pub size_4kb : PageSize
size_4kb = 4096

abbrev pub size_2mb : PageSize
size_2mb = 2097152

abbrev pub size_1gb : PageSize
size_1gb = 1073741824

abbrev by_size : {E A : Type 0} → PageSize → A → A → A → Outcome E A
by_size p a b c =
    if p == size_4kb
    then ok a
    else if p == size_2mb
    then ok b
    else if p == size_1gb
    then ok c
    else panic

abbrev pub from_bottom_paging_level : ℕ → Option PageSize
from_bottom_paging_level level =
    if level == 0
    then some size_4kb
    else if level == 1
    then some size_2mb
    else if level == 2
    then some size_1gb
    else none

unfoldable pub bottom_paging_level : {E : Type 0} → PageSize → Outcome E ℕ
bottom_paging_level p = by_size p 0 1 2

unfoldable pub offset_bit_count : {E : Type 0} → PageSize → Outcome E ℕ
offset_bit_count p = by_size p 12 21 30

abbrev pub get_offset_mask : PageSize → ℕ
get_offset_mask p = p - 1

unfoldable pub get_pat_bit : {E : Type 0} → PageSize → Outcome E ℕ
get_pat_bit p = by_size p 7 12 12

abbrev pub to_flags : PageSize → Flags
to_flags p = if p == size_4kb then Flags.new else set_page_size Flags.new true

abbrev pub page_alignment : PageSize → ℕ
page_alignment p = p / size_4kb

abbrev pub to_default_page_count : PageSize → ℕ
to_default_page_count p = p / size_4kb
