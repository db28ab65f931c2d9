-- ===== src/Tests/ManagerRuns.antt =====
-- Runs of the paging manager: pages that are allocated, mapped and freed.
use funderberker.Common.{
  ℕ, ◌+◌, ◌-◌, ◌∙◌, ◌*◌, ◌/◌, ◌%◌, ◌^◌, ◌<◌, ◌≡◌, ◌≢◌, ◌⊎◌, refl, arith, [], ◌∷◌, ok, none, ◌==◌,
  if◌then◌else◌, usize_mod,
}
use funderberker.Bits.{bit_not}
use funderberker.LinkedList.Laws.{total}
use funderberker.Paging.Flags
use funderberker.Paging.Flags.{get_allocated}
use funderberker.Paging.Entry.{get_flags, next_level_index}
use funderberker.Paging.Tables.{Machine, translate, get_entry, get_entry_loop}
use funderberker.Paging.Tables.Tree.{IsTree}
use funderberker.Paging.Manager.{Memory, allocate_pages, map_pages, free_pages}
use funderberker.Paging.Manager.Allocate.{Allocated, allocate_pages-Allocated, translate-pmm}
use funderberker.Paging.Manager.Single.{free_pages-frees}
use funderberker.Paging.Manager.Many.{free_pages_many}
use funderberker.Paging.Manager.Flaws.{memory_at, FailsPresent, map_pages_twice}
use funderberker.Pmm.Buddy.{BuddyAllocator, block_size}
use funderberker.Pmm.Buddy.Blocks.{in_block}
use funderberker.Pmm.Buddy.Weight.{weight, weight_from, free_at, misplaced, nodes}
use funderberker.Pmm.Buddy.Valid.{IsValid}
use funderberker.Pmm.Buddy.Free.{InUse}
use funderberker.Pmm.Buddy.Supply.{Supplies, pages-Supplies}
use funderberker.Tests.TableRuns.{
  empty_root, root_only, empty_root-IsTree, one_mapped, four_tables, one_mapped-IsTree,
  one_translated, one_found, three_pages,
}

-- Eight pages at 32768 are free.
abbrev eight_pages : BuddyAllocator
eight_pages = record {
  zones = [] ∷ [] ∷ [] ∷ (32768 ∷ []) ∷ [] ∷ [];
  freelist = 0 ∷ 0 ∷ 0 ∷ 0 ∷ 0 ∷ 0 ∷ 0 ∷ 0 ∷ 0 ∷ 0 ∷ 0 ∷ 0 ∷ 0 ∷ [];
}

eight_pages-IsValid : IsValid 65536 eight_pages
unfolding weight weight_from free_at misplaced in_block total block_size
eight_pages-IsValid = record {
  aligned = refl;
  disjoint = λ p. ground arith;
  bounded = λ p h. ground arith;
  small = omega arith;
}

eight_supplied : Supplies 8 eight_pages
unfolding weight weight_from total nodes
eight_supplied =
    pages-Supplies 65536 (omega arith) 8 eight_pages-IsValid (omega arith) (omega arith)

abbrev wide : Machine
wide = record empty_root { pmm = eight_pages }

wide-IsTree : IsTree root_only wide
unfolding free_at weight weight_from in_block total block_size
wide-IsTree = record {
  words = empty_root-IsTree.words;
  small = empty_root-IsTree.small;
  linked = empty_root-IsTree.linked;
  owned = λ t lt. root_used t lt;
  unshared = empty_root-IsTree.unshared;
}
  where
    root_used : (t : ℕ) → root_only t < 4 → free_at eight_pages t ≡ 0
    root_used t lt = ground arith

abbrev align_units : ℕ → ℕ → ℕ
align_units addr alignment = if addr % alignment == 0 then 0 else usize_mod - 1

none_mapped : (k : ℕ) → k < 2 → translate {E = ⊥} wide 16384 (20480 + (0 + k) * 4096) ≡ ok none
unfolding translate get_entry get_entry_loop get_flags Flags.get bit_not
none_mapped k lt = refl

allocate_pages-Allocated_example :
    (m' : Machine) × (level' : ℕ → ℕ) × (allocate_pages 16384 align_units
        (memory_at wide 5 999)
        2
        2
        4096
      ≡ ok (20480, memory_at m' 7 999))
    × Allocated ⊥ wide 16384 20480 0 2 level' m'
allocate_pages-Allocated_example =
    allocate_pages-Allocated ⊥ align_units (λ addr alignment. refl) 16384 5 999 2 2 wide-IsTree refl
      (omega arith) (omega arith) (omega arith) (omega arith) (omega arith) eight_supplied
      none_mapped

map_pages_twice_example :
    FailsPresent (map_pages 16384 align_units (memory_at empty_root 1 999) 40960 2 2 4096)
    ⊎ ((s : Memory) × (map_pages 16384 align_units (memory_at empty_root 1 999) 40960 2 2 4096
          ≡ ok (4096, s))
        × FailsPresent (map_pages 16384 align_units s 49152 1 2 4096))
unfolding next_level_index
map_pages_twice_example =
    map_pages_twice align_units (λ addr alignment. refl) 16384 1 999 40960 49152 2 1 2 2
      empty_root-IsTree refl refl refl (omega arith) (omega arith) (omega arith) (omega arith)
      (omega arith) (omega arith) (omega arith) (omega arith) (omega arith) three_pages

free_pages_many_example : ¬ ((m' : Machine) × (free_pages 16384 0 2 4096 one_mapped ≡ ok m'))
free_pages_many_example =
    free_pages_many one_mapped-IsTree 16384 0 2 refl (omega arith) (omega arith)

-- The page at 0 and the pair at 8192 are free, and six nodes are spare.
abbrev room_above : BuddyAllocator
room_above = record { zones = (0 ∷ []) ∷ (8192 ∷ []) ∷ [] ∷ [] ∷ [] ∷ []; freelist = 0 ∷ 0 ∷ [] }

room_above-IsValid : IsValid 65536 room_above
unfolding weight weight_from free_at misplaced in_block total block_size
room_above-IsValid = record {
  aligned = refl;
  disjoint = λ p. ground arith;
  bounded = λ p h. ground arith;
  small = omega arith;
}

abbrev one_above : Machine
one_above = record one_mapped { pmm = room_above }

one_above-IsTree : IsTree four_tables one_above
unfolding free_at weight weight_from in_block total block_size
one_above-IsTree = record {
  words = one_mapped-IsTree.words;
  small = one_mapped-IsTree.small;
  linked = one_mapped-IsTree.linked;
  owned = λ t lt. tables_used t lt;
  unshared = one_mapped-IsTree.unshared;
}
  where
    tables_used : (t : ℕ) → four_tables t < 4 → free_at room_above t ≡ 0
    tables_used t lt = ground arith

frame_used : InUse 65536 room_above 0 40960
unfolding in_block block_size free_at weight weight_from total
frame_used = record { aligned = refl; below = λ p le. ground arith; used = λ p. ground arith }

free_pages-frees_example :
    (m' : Machine) × (free_pages 16384 0 1 4096 one_above ≡ ok m')
    × (translate {E = ⊥} m' 16384 0 ≡ ok none)
    × ((w : ℕ)
        → 0 / 4096 % 2 ^ 36 ≢ w / 4096 % 2 ^ 36
        → translate {E = ⊥} m' 16384 w ≡ translate one_above 16384 w)
    × ((a : ℕ) → free_at m'.pmm a ≡ free_at room_above a + in_block a 0 40960)
    × IsValid 65536 m'.pmm
    × IsTree four_tables m'
unfolding get_flags Flags.get in_block block_size get_entry
free_pages-frees_example =
    free_pages-frees one_above-IsTree room_above-IsValid 16384 0 40960 28672 0 refl refl
      (omega arith) (translate-pmm {E = ⊥} one_mapped room_above 16384 0 ∙ one_translated) one_found
      refl (omega arith) frame_used (λ u lt. ground arith)
