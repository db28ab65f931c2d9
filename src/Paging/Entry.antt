-- ===== src/Paging/Entry.antt =====
-- kernel/src/arch/x86_64/paging/mod.rs: the entries of page tables. An entry is its word; a `&mut self`
-- is passed on. An error of `map` carries the entry as the code leaves it.
pub mod Laws
pub mod ReadBack
pub mod Taint
use funderberker.Common.{
  ℕ, ◌+◌, ◌*◌, ◌/◌, ◌^◌, Bool, true, false, ok_or, not, bit_and, bit_or, ◌==◌, if◌then◌else◌,
  Option, none, some, Outcome, ok, err, panic, ◌>>=◌, ◌>>◌, assert, reject, unwrap,
}
use funderberker.Bits.{bit_not}
use funderberker.Paging.{PagingError, page_already_present, page_not_present, invalid_flags}
use funderberker.Paging.Flags
use funderberker.Paging.Flags.{Flags, join, get_present, get_allocated, set_present, set_last_entry}
use funderberker.Paging.PageSize.{PageSize, get_offset_mask, to_flags, size_4kb}
use funderberker.Pmm.Buddy.{BuddyAllocator}
use funderberker.Pmm.Buddy

abbrev pub entries_per_table : ℕ
entries_per_table = 512

abbrev pub Entry : Type 0
Entry = ℕ

unfoldable pub get_flags : Entry → Flags
get_flags self = bit_and self 4095

unfoldable pub set_flags : Entry → Flags → Entry
set_flags self flags = bit_or (bit_and self (bit_not 64 4095)) flags

unfoldable pub get_addr : {E : Type 0} → Entry → PageSize → Outcome E ℕ
get_addr self page_size =
    assert (bit_and (bit_and self (bit_not 64 4095)) (get_offset_mask page_size) == 0)
    >> ok (bit_and self (bit_not 64 (get_offset_mask page_size)))

unfoldable pub set_addr : {E : Type 0} → Entry → ℕ → PageSize → Outcome E Entry
set_addr self addr page_size =
    assert (bit_and addr (get_offset_mask page_size) == 0)
    >> ok (
        bit_or (bit_and self (get_offset_mask page_size))
          (bit_and addr (bit_not 64 (get_offset_mask page_size))))

unfoldable pub map : Entry → ℕ → Flags → PageSize → Outcome (PagingError × Entry) Entry
unfolding get_flags set_flags set_addr Flags.get Flags.set join
map self phys_addr flags page_size = do
  reject (get_present (get_flags self)) (page_already_present, self)
  moved ← set_addr self phys_addr page_size
  joined ←
      ok_or (join (set_last_entry (set_present flags true) true) (to_flags page_size))
        (invalid_flags, moved)
  ok (set_flags moved joined)

-- The page goes back to the page allocator if the entry was allocated.
unfoldable pub release :
    BuddyAllocator → Entry → PageSize → Outcome PagingError (BuddyAllocator × Entry)
unfolding get_flags set_flags get_addr Flags.get Flags.set Buddy.free
release pmm self page_size =
    let flags = get_flags self in
    do
      reject (not (get_present flags)) page_not_present
      pmm' ← elim (get_allocated flags) [
        | false ↦ ok pmm
        | true ↦ do phys_addr ← get_addr self page_size; unwrap (Buddy.free pmm phys_addr 1)
      ]
      ok (pmm', set_flags self (set_present flags false))

-- The index of an address in the table of a level, with 12 as the offset bits of 4KB pages.
unfoldable pub next_level_index : ℕ → ℕ → ℕ
next_level_index addr level = bit_and (addr / 2 ^ (12 + level * 9)) 511
