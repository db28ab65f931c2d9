-- ===== src/Tests/TableRuns.antt =====
-- Runs of the page tables: a machine whose root table is empty, and one in which the page at 0 is mapped.
use funderberker.Common.{
  ℕ, ◌+◌, ◌*◌, ◌<◌, ◌≡◌, ◌⊎◌, refl, arith, false, [], ◌∷◌, ok, err, some, ◌==◌, if◌then◌else◌,
}
use funderberker.Bits.{bit, bit_not, bit-zero}
use funderberker.LinkedList.Laws.{total}
use funderberker.Paging.{page_already_present}
use funderberker.Paging.Flags
use funderberker.Paging.Flags.{get_allocated}
use funderberker.Paging.Entry.{Entry, get_flags, get_addr, next_level_index}
use funderberker.Paging.Tables.{
  Machine, map_pages, translate, get_entry, get_entry_loop, read_entry,
}
use funderberker.Paging.Tables.Words.{target}
use funderberker.Paging.Tables.Tree.{IsTree}
use funderberker.Paging.Tables.Translate.{Mapped, map_pages-translate}
use funderberker.Paging.Tables.Others.{map_pages-others}
use funderberker.Pmm.Buddy.{BuddyAllocator, block_size}
use funderberker.Pmm.Buddy.Blocks.{in_block}
use funderberker.Pmm.Buddy.Weight.{weight, weight_from, free_at, misplaced, nodes}
use funderberker.Pmm.Buddy.Valid.{IsValid}
use funderberker.Pmm.Buddy.Supply.{Supplies, pages-Supplies}

-- The page at 0 and the pair at 8192 are free, and six nodes are spare.
abbrev pub memory_left : BuddyAllocator
memory_left = record {
  zones = (0 ∷ []) ∷ (8192 ∷ []) ∷ [] ∷ [];
  freelist = 0 ∷ 0 ∷ 0 ∷ 0 ∷ 0 ∷ 0 ∷ [];
}

memory_left-IsValid : IsValid 16384 memory_left
unfolding weight weight_from free_at misplaced in_block total block_size
memory_left-IsValid = record {
  aligned = refl;
  disjoint = λ p. ground arith;
  bounded = λ p h. ground arith;
  small = omega arith;
}

pub three_pages : Supplies 3 memory_left
unfolding weight weight_from total nodes
three_pages = pages-Supplies 16384 (omega arith) 3 memory_left-IsValid (omega arith) (omega arith)

pages-Supplies_example : Supplies 2 memory_left
unfolding weight weight_from total nodes
pages-Supplies_example =
    pages-Supplies 16384 (omega arith) 2 memory_left-IsValid (omega arith) (omega arith)

-- The root table stands at 16384, and is empty.
abbrev pub empty_root : Machine
empty_root = record { tables = λ t i. 0; pmm = memory_left }

abbrev pub root_only : ℕ → ℕ
root_only t = if t == 16384 then 3 else 4

pub empty_root-IsTree : IsTree root_only empty_root
empty_root-IsTree = record {
  words = λ t i. omega arith;
  small = λ t i lo hi. bit-zero 10;
  linked = λ t i lo hi on. ground (arith, bit-zero 0);
  owned = λ t lt. memory_left-IsValid.bounded t (ground arith);
  unshared = λ t i u j lo hi lo' hi' on on' same. ground (arith, bit-zero 0);
}

map_pages-translate_example :
    ((m' : Machine) × (level' : ℕ → ℕ) × (map_pages empty_root 16384 4096 40960 2 4096 2 ≡ ok m')
      × Mapped root_only empty_root level' m'
      × ((k : ℕ)
          → k < 2
          → translate {E = ⊥} m' 16384 (4096 + k * 4096) ≡ ok (some (40960 + k * 4096))))
    ⊎ ((m' : Machine) × (level' : ℕ → ℕ) × (map_pages empty_root 16384 4096 40960 2 4096 2
          ≡ err (page_already_present, m'))
        × Mapped root_only empty_root level' m')
unfolding next_level_index
map_pages-translate_example =
    map_pages-translate {E = ⊥} empty_root-IsTree 16384 4096 40960 2 2 refl refl refl (omega arith)
      (omega arith) (omega arith) three_pages

-- The page at address 0 is mapped to that at 40960, by tables at 20480, 24576 and 28672.
abbrev first_entry : ℕ → Entry
first_entry t =
    if t == 16384
    then 20483
    else if t == 20480
    then 24579
    else if t == 24576
    then 28675
    else if t == 28672
    then 41985
    else 0

abbrev pub one_mapped : Machine
one_mapped = record { tables = λ t i. if i == 0 then first_entry t else 0; pmm = memory_left }

abbrev pub four_tables : ℕ → ℕ
four_tables t =
    if t == 16384
    then 3
    else if t == 20480
    then 2
    else if t == 24576
    then 1
    else if t == 28672
    then 0
    else 4

pub one_mapped-IsTree : IsTree four_tables one_mapped
unfolding bit bit_not
one_mapped-IsTree = record {
  words = λ t i. ground arith;
  small = λ t i lo hi. ground (arith, bit-zero 10, small_words);
  linked = λ t i lo hi on. ground (arith, bit-zero 0, targets);
  owned = λ t lt. memory_left-IsValid.bounded t (ground arith);
  unshared = λ t i u j lo hi lo' hi' on on' same. ground (arith, bit-zero 0, targets);
}
  where
    small_words : (bit 20483 10 ≡ false) × (bit 24579 10 ≡ false) × (bit 28675 10 ≡ false)
    small_words = (refl, refl, refl)

    targets : (target 20483 ≡ 20480) × (target 24579 ≡ 24576) × (target 28675 ≡ 28672)
    targets = (refl, refl, refl)

map_pages-others_example :
    (m' : Machine) × (translate {E = ⊥} m' 16384 0 ≡ translate one_mapped 16384 0)
    × ((map_pages one_mapped 16384 4096 49152 1 4096 2 ≡ ok m')
        ⊎ (map_pages one_mapped 16384 4096 49152 1 4096 2 ≡ err (page_already_present, m')))
map_pages-others_example =
    map_pages-others {E = ⊥} one_mapped-IsTree 16384 4096 49152 2 0 refl refl refl (omega arith)
      (omega arith) three_pages (omega arith)

pub one_translated : translate {E = ⊥} one_mapped 16384 0 ≡ ok (some 40960)
unfolding translate get_entry get_entry_loop read_entry get_flags get_addr Flags.get
    next_level_index bit_not
one_translated = refl

pub one_found : get_entry {E = ⊥} one_mapped 16384 0 ≡ ok (some (28672, 0, 4096))
unfolding get_entry get_entry_loop get_flags get_addr Flags.get next_level_index bit_not
one_found = refl
