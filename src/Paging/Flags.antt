-- ===== src/Paging/Flags.antt =====
-- kernel/src/mem/paging.rs and kernel/src/arch/x86_64/paging/flags.rs: the flags of a page, as the
-- `usize` that holds them.
pub mod Laws
use funderberker.Common.{
  ℕ, ◌^◌, Bool, true, false, not, Option, none, some, bit_and, bit_or, ◌==◌, if◌then◌else◌,
}
use funderberker.Bits.{bit_not}

abbrev pub Flags : Type 0
Flags = ℕ

unfoldable pub get : Flags → ℕ → Bool
get self mask = not (bit_and self mask == 0)

unfoldable pub set : Flags → ℕ → Bool → Flags
set self mask status = if status then bit_or self mask else bit_and self (bit_not 64 mask)

unfoldable pub join : Flags → Flags → Option Flags
unfolding set
join self other = if not (bit_and self other == 0) then none else some (set self other true)

abbrev pub flag_p : ℕ
flag_p = 2 ^ 0

abbrev pub flag_rw : ℕ
flag_rw = 2 ^ 1

abbrev pub flag_us : ℕ
flag_us = 2 ^ 2

abbrev pub flag_pwt : ℕ
flag_pwt = 2 ^ 3

abbrev pub flag_pcd : ℕ
flag_pcd = 2 ^ 4

abbrev pub flag_a : ℕ
flag_a = 2 ^ 5

abbrev pub flag_d : ℕ
flag_d = 2 ^ 6

abbrev pub flag_ps : ℕ
flag_ps = 2 ^ 7

abbrev pub flag_g : ℕ
flag_g = 2 ^ 8

abbrev pub hlat : ℕ
hlat = 2 ^ 11

abbrev pub flag_big_pages_pat : ℕ
flag_big_pages_pat = 2 ^ 12

abbrev pub flag_4kb_pat : ℕ
flag_4kb_pat = 2 ^ 7

abbrev pub flag_xd : ℕ
flag_xd = 2 ^ 63

abbrev pub flag_allocated : ℕ
flag_allocated = 2 ^ 9

abbrev pub flag_last_entry : ℕ
flag_last_entry = 2 ^ 10

abbrev pub new : Flags
new = 0

abbrev pub set_present : Flags → Bool → Flags
set_present self status = set self flag_p status

abbrev pub set_read_write : Flags → Bool → Flags
set_read_write self status = set self flag_rw status

abbrev pub set_user_supervisor : Flags → Bool → Flags
set_user_supervisor self status = set self flag_us status

abbrev pub set_pwt : Flags → Bool → Flags
set_pwt self status = set self flag_pwt status

abbrev pub set_pcd : Flags → Bool → Flags
set_pcd self status = set self flag_pcd status

abbrev pub set_pat_big_pages : Flags → Bool → Flags
set_pat_big_pages self status = set self flag_big_pages_pat status

abbrev pub set_pat_4kb : Flags → Bool → Flags
set_pat_4kb self status = set self flag_4kb_pat status

abbrev pub set_accessed : Flags → Bool → Flags
set_accessed self status = set self flag_a status

abbrev pub set_dirty : Flags → Bool → Flags
set_dirty self status = set self flag_d status

abbrev pub set_page_size : Flags → Bool → Flags
set_page_size self status = set self flag_ps status

abbrev pub set_global : Flags → Bool → Flags
set_global self status = set self flag_g status

abbrev pub set_hlat : Flags → Bool → Flags
set_hlat self status = set self hlat status

abbrev pub set_execute_disable : Flags → Bool → Flags
set_execute_disable self status = set self flag_xd status

abbrev pub set_allocated : Flags → Bool → Flags
set_allocated self status = set self flag_allocated status

abbrev pub set_last_entry : Flags → Bool → Flags
set_last_entry self status = set self flag_last_entry status

abbrev pub get_present : Flags → Bool
get_present self = get self flag_p

abbrev pub get_read_write : Flags → Bool
get_read_write self = get self flag_rw

abbrev pub get_user_supervisor : Flags → Bool
get_user_supervisor self = get self flag_us

abbrev pub get_write_through : Flags → Bool
get_write_through self = get self flag_pwt

abbrev pub get_cache_disable : Flags → Bool
get_cache_disable self = get self flag_pcd

abbrev pub get_accessed : Flags → Bool
get_accessed self = get self flag_a

abbrev pub get_dirty : Flags → Bool
get_dirty self = get self flag_d

abbrev pub get_page_size : Flags → Bool
get_page_size self = get self flag_ps

abbrev pub get_global : Flags → Bool
get_global self = get self flag_g

abbrev pub get_hlat : Flags → Bool
get_hlat self = get self hlat

abbrev pub get_execute_disable : Flags → Bool
get_execute_disable self = get self flag_xd

abbrev pub get_allocated : Flags → Bool
get_allocated self = get self flag_allocated

abbrev pub get_last_entry : Flags → Bool
get_last_entry self = get self flag_last_entry
