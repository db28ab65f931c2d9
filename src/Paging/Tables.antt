-- ===== src/Paging/Tables.antt =====
-- kernel/src/arch/x86_64/paging/mod.rs: the page tables. A table is named by its physical address, which
-- the code turns into a pointer by a fixed offset, and its 512 entries are a function of their index.
-- The allocator behind `pmm::get()` is part of the state.
pub mod Tree
pub mod Words
pub mod Index
pub mod Create
pub mod Loop
pub mod Translate
pub mod Unmap
pub mod Refine
pub mod Others
pub mod Fresh
pub mod Present
pub mod Gone
use funderberker.Common.{
  ℕ, zero, suc, ◌+◌, ◌-◌, ◌*◌, ◌%◌, Bool, true, false, not, ◌&&◌, Option, none, some, ◌==◌, ltb,
  if◌then◌else◌, Outcome, ok, err, panic, ◌>>=◌, ◌>>◌, assert, reject, unwrap, add_usize, usize_mod,
  map_err, ok_or,
}
use funderberker.Paging.{
  PagingError, page_not_present, invalid_virtual_address, invalid_physical_address,
  bad_page_count_and_address_combination,
}
use funderberker.Paging.Flags
use funderberker.Paging.Flags.{Flags, get_present, get_last_entry, set_present, set_read_write}
use funderberker.Paging.PageSize.{
  PageSize, size_4kb, page_alignment, bottom_paging_level, from_bottom_paging_level,
}
use funderberker.Paging.Entry.{
  Entry, get_flags, set_flags, get_addr, set_addr, map, release, next_level_index,
  entries_per_table,
}
use funderberker.Pmm.Buddy.{BuddyAllocator}
use funderberker.Pmm.Buddy

pub record Machine : Type 0 where
  pub tables : ℕ → ℕ → Entry
  pub pmm : BuddyAllocator

-- `MAX_BOTTOM_PAGING_LEVEL`
abbrev pub max_bottom_paging_level : ℕ
max_bottom_paging_level = 3

abbrev pub write_entry : (ℕ → ℕ → Entry) → ℕ → ℕ → Entry → ℕ → ℕ → Entry
write_entry tables table i e t j = if (t == table) && (j == i) then e else tables t j

abbrev pub clear_table : (ℕ → ℕ → Entry) → ℕ → ℕ → ℕ → Entry
clear_table tables table t j = if t == table then 0 else tables t j

-- `PageTable::new`
unfoldable pub new_table : {E : Type 0} → Machine → Outcome E (ℕ × Machine)
unfolding Buddy.allocate
new_table m = do
  (phys_addr, pmm) ← unwrap (Buddy.allocate m.pmm (page_alignment size_4kb) 1)
  ok (phys_addr, record { tables = clear_table m.tables phys_addr; pmm = pmm })

-- `Entry::next_level_table`
abbrev pub next_level_table : {E : Type 0} → Entry → Outcome E ℕ
next_level_table e = get_addr e size_4kb

-- The loop of `get_entry` over the levels below `levels`, from the highest on; behind it stands
-- `unreachable!`. The result is a table, an index and a page size.
unfoldable pub get_entry_loop :
    {E : Type 0} → (ℕ → ℕ → Entry) → ℕ → ℕ → ℕ → Outcome E (Option (ℕ × ℕ × PageSize))
unfolding get_flags next_level_index get_addr Flags.get
get_entry_loop tables virt_addr zero table = panic
get_entry_loop tables virt_addr (suc level) table =
    let i = next_level_index virt_addr level in
    let flags = get_flags (tables table i) in
    elim (get_last_entry flags) [
      | true ↦ elim (from_bottom_paging_level level) [
        | none ↦ ok none
        | some page_size ↦ ok (some (table, i, page_size))
      ]
      | false ↦ elim (get_present flags) [
        | true ↦ do
          next ← next_level_table (tables table i)
          get_entry_loop tables virt_addr level next
        | false ↦ ok none
      ]
    ]

unfoldable pub get_entry : {E : Type 0} → Machine → ℕ → ℕ → Outcome E (Option (ℕ × ℕ × PageSize))
unfolding get_entry_loop
get_entry m pml virt_addr = get_entry_loop m.tables virt_addr (max_bottom_paging_level + 1) pml

-- One round of `get_create_table_range`: the entry, made if it is not present.
unfoldable pub ensure_entry : {E : Type 0} → Machine → ℕ → ℕ → Outcome E Machine
unfolding get_flags set_flags set_addr new_table Flags.get Flags.set
ensure_entry m table i =
    let e = m.tables table i in
    let flags = get_flags e in
    elim (get_present flags) [
      | true ↦ ok m
      | false ↦ do
        let marked = set_flags e (set_read_write (set_present flags true) true)
        (phys_addr, m') ← new_table (record m { tables = write_entry m.tables table i marked })
        e' ← set_addr (m'.tables table i) phys_addr size_4kb
        ok (record m' { tables = write_entry m'.tables table i e' })
    ]

-- `for level in (bottom + 1..=MAX_BOTTOM_PAGING_LEVEL).rev()`, with the rounds that are left and the
-- level of the round.
unfoldable pub create_loop : {E : Type 0} → ℕ → ℕ → ℕ → ℕ → Machine → Outcome E (ℕ × Machine)
unfolding ensure_entry next_level_index get_addr
create_loop virt_addr zero level table m = ok (table, m)
create_loop virt_addr (suc rounds) level table m = do
  let i = next_level_index virt_addr level
  m' ← ensure_entry m table i
  next ← next_level_table (m'.tables table i)
  create_loop virt_addr rounds (level - 1) next m'

unfoldable pub get_create_table_range :
    {E : Type 0} → Machine → ℕ → ℕ → PageSize → Outcome E (ℕ × Machine)
unfolding create_loop bottom_paging_level
get_create_table_range m pml base_addr page_size = do
  assert (base_addr % page_size == 0)
  bottom ← bottom_paging_level page_size
  create_loop base_addr (max_bottom_paging_level - bottom) max_bottom_paging_level pml m

-- The same rounds in `get_table_range`, which makes no entry.
unfoldable pub range_loop : {E : Type 0} → (ℕ → ℕ → Entry) → ℕ → ℕ → ℕ → ℕ → Outcome E (Option ℕ)
unfolding get_flags next_level_index get_addr Flags.get
range_loop tables virt_addr zero level table = ok (some table)
range_loop tables virt_addr (suc rounds) level table =
    let e = tables table (next_level_index virt_addr level) in
    elim (get_present (get_flags e)) [
      | false ↦ ok none
      | true ↦ do next ← next_level_table e; range_loop tables virt_addr rounds (level - 1) next
    ]

unfoldable pub get_table_range : {E : Type 0} → Machine → ℕ → ℕ → PageSize → Outcome E (Option ℕ)
unfolding range_loop bottom_paging_level
get_table_range m pml base_addr page_size = do
  assert (base_addr % page_size == 0)
  bottom ← bottom_paging_level page_size
  range_loop m.tables base_addr (max_bottom_paging_level - bottom) max_bottom_paging_level pml

-- The loop of `map_pages` over the entries from `i` on. An error ends it, with the machine as it is then.
unfoldable pub map_loop :
    ℕ → ℕ → ℕ → ℕ → PageSize → Flags → Machine → Outcome (PagingError × Machine) Machine
unfolding map
map_loop zero table i phys_addr page_size flags m = ok m
map_loop (suc count) table i phys_addr page_size flags m =
    let put = λ (e : Entry). record m { tables = write_entry m.tables table i e } in
    elim (ltb phys_addr usize_mod) [
      | false ↦ panic
      | true ↦ elim (map (m.tables table i) phys_addr flags page_size) [
        | ok e ↦ map_loop count table (i + 1) (phys_addr + page_size) page_size flags (put e)
        | err (why, e) ↦ err (why, put e)
        | panic ↦ panic
      ]
    ]

unfoldable pub map_pages :
    Machine → ℕ → ℕ → ℕ → ℕ → PageSize → Flags → Outcome (PagingError × Machine) Machine
unfolding get_create_table_range next_level_index bottom_paging_level map_loop
map_pages m pml base_addr phys_addr page_count page_size flags = do
  reject (not (base_addr % page_size == 0)) (invalid_virtual_address, m)
  reject (not (phys_addr % page_size == 0)) (invalid_physical_address, m)
  (table, m') ← get_create_table_range m pml base_addr page_size
  bottom ← bottom_paging_level page_size
  let to_skip = next_level_index base_addr bottom
  end ← add_usize to_skip page_count
  reject (ltb entries_per_table end) (bad_page_count_and_address_combination, m')
  map_loop page_count table to_skip phys_addr page_size flags m'

-- The loop of `unmap_pages`
unfoldable pub unmap_loop : ℕ → ℕ → ℕ → PageSize → Machine → Outcome (PagingError × Machine) Machine
unfolding release
unmap_loop zero table i page_size m = ok m
unmap_loop (suc count) table i page_size m = do
  (pmm, e) ← map_err (λ why. (why, m)) (release m.pmm (m.tables table i) page_size)
  unmap_loop count table (i + 1) page_size
      (record { tables = write_entry m.tables table i e; pmm = pmm })

unfoldable pub unmap_pages :
    Machine → ℕ → ℕ → ℕ → PageSize → Outcome (PagingError × Machine) Machine
unfolding get_table_range next_level_index bottom_paging_level unmap_loop
unmap_pages m pml base_addr page_count page_size = do
  reject (not (base_addr % page_size == 0)) (invalid_virtual_address, m)
  found ← get_table_range m pml base_addr page_size
  table ← ok_or found (page_not_present, m)
  bottom ← bottom_paging_level page_size
  let to_skip = next_level_index base_addr bottom
  end ← add_usize to_skip page_count
  reject (ltb entries_per_table end) (bad_page_count_and_address_combination, m)
  unmap_loop page_count table to_skip page_size m

-- What `translate` reads out of the entry that it found.
unfoldable pub read_entry : {E : Type 0} → Entry → PageSize → Outcome E (Option ℕ)
unfolding get_flags get_addr Flags.get
read_entry e page_size = elim (get_present (get_flags e)) [
  | false ↦ ok none
  | true ↦ do addr ← get_addr e page_size; ok (some addr)
]

unfoldable pub translate : {E : Type 0} → Machine → ℕ → ℕ → Outcome E (Option ℕ)
unfolding get_entry read_entry
translate m pml base_addr = do
  found ← get_entry m pml base_addr
  elim found [
    | none ↦ ok none
    | some (table, i, page_size) ↦ read_entry (m.tables table i) page_size
  ]
