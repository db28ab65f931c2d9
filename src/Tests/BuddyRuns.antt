-- ===== src/Tests/BuddyRuns.antt =====
-- Runs of the buddy allocator over the three pages from address 0 on: a zone of single pages, a zone of
-- pairs, and one of quadruples that is empty.
use funderberker.Common.{
  ℕ, zero, suc, ◌+◌, ◌*◌, ◌%◌, ◌^◌, ◌<◌, ◌≡◌, refl, arith, [], ◌∷◌, ok, panic, ◌⊎◌,
}
use funderberker.Pmm.{basic_page_size}
use funderberker.Pmm.Buddy.{
  BuddyAllocator, block_size, holds, allocate, allocate_at, free, zone_index, find_bucket,
  find_bucket_loop, find_aligned, pop_from_zone, disband, disband_loop,
}
use funderberker.Pmm.Power.{
  is_power_of_two, checked_next_power_of_two, ilog2, ceil_log_from, ilog2_rounds,
}
use funderberker.LinkedList
use funderberker.LinkedList.Laws.{total}
use funderberker.Pmm.Buddy.Blocks.{in_block}
use funderberker.Pmm.Buddy.Weight.{weight, weight_from, free_at, misplaced, nodes}
use funderberker.Pmm.Buddy.Valid.{IsValid, Order, Order-pow}
use funderberker.Pmm.Buddy.Find.{NonePasses, at_alignment}
use funderberker.Pmm.Buddy.Allocate.{Grants, allocate-Grants, allocate_at-Grants}
use funderberker.Pmm.Buddy.Free.{InUse, free-Gains, free-allocate}
use funderberker.Pmm.Buddy.Flaws.{allocate_at_panics}

-- The page at 0 and the pair behind it, at 8192, are free.
abbrev pub memory : BuddyAllocator
memory = record { zones = (0 ∷ []) ∷ (8192 ∷ []) ∷ [] ∷ []; freelist = 0 ∷ 0 ∷ 0 ∷ [] }

memory-IsValid : IsValid 16384 memory
unfolding weight weight_from free_at misplaced in_block total block_size
memory-IsValid = record {
  aligned = refl;
  disjoint = λ p. ground arith;
  bounded = λ p h. ground arith;
  small = omega arith;
}

-- The memory after one page was allocated
abbrev one_taken : BuddyAllocator
one_taken = record { zones = [] ∷ (8192 ∷ []) ∷ [] ∷ []; freelist = 0 ∷ 0 ∷ 0 ∷ 0 ∷ [] }

allocate_one : allocate memory 1 1 ≡ ok (0, one_taken)
unfolding allocate zone_index checked_next_power_of_two ceil_log_from ilog2 ilog2_rounds
    is_power_of_two find_bucket find_bucket_loop find_aligned pop_from_zone LinkedList.find
    LinkedList.find_from LinkedList.remove_at LinkedList.push_back disband disband_loop
allocate_one = refl

below_three : (j : ℕ) → j < 2 → 2 ^ j < 3
below_three zero h = omega arith
below_three (suc zero) h = omega arith
below_three (suc (suc j)) h = absurd (omega arith)

one_page : Order 1 0
unfolding zone_index checked_next_power_of_two ceil_log_from ilog2 ilog2_rounds
one_page = record { found = refl; enough = omega arith; least = λ j h. absurd (omega arith) }

three_pages : Order 3 2
unfolding zone_index checked_next_power_of_two ceil_log_from ilog2 ilog2_rounds
three_pages = record { found = refl; enough = omega arith; least = below_three }

no_quadruple : NonePasses (λ i b. holds i 12288 b) 2 1 memory
unfolding LinkedList.find LinkedList.find_from
no_quadruple j lo hi = let e : j ≡ 2 = omega arith in rw e refl

allocate-Grants_example :
    (k : ℕ) × Order 1 k
    × Grants 16384
        (at_alignment 2 (omega arith))
        memory
        k
        (λ a s'. (a, s'))
        (λ a. a % (basic_page_size * 2) ≡ 0)
        (allocate memory 2 1)
unfolding is_power_of_two
allocate-Grants_example =
    allocate-Grants memory-IsValid (omega arith) 1 (omega arith) (omega arith) (omega arith) 2 refl
      (omega arith)

one_taken-IsValid : IsValid 16384 one_taken
unfolding weight weight_from free_at misplaced in_block total block_size
one_taken-IsValid = record {
  aligned = refl;
  disjoint = λ p. ground arith;
  bounded = λ p h. ground arith;
  small = omega arith;
}

first_page-InUse : InUse 16384 one_taken 0 0
unfolding weight weight_from free_at in_block total block_size
first_page-InUse = record { aligned = refl; below = λ p h. ground arith; used = λ p. ground arith }

free-Gains_example :
    (s' : BuddyAllocator) × (free one_taken 0 1 ≡ ok s')
    × IsValid 16384 s'
    × (nodes s' ≡ nodes one_taken)
    × ((p : ℕ) → free_at s' p ≡ free_at one_taken p + in_block p 0 0)
free-Gains_example =
    free-Gains one_taken-IsValid 0 1 0 (omega arith) (omega arith) (omega arith) refl one_page
      (omega arith) first_page-InUse

free-allocate_example :
    (s'' : BuddyAllocator) × (free one_taken 0 1 ≡ ok s'')
    × IsValid 16384 s''
    × (nodes s'' ≡ nodes memory)
    × ((p : ℕ) → free_at s'' p ≡ free_at memory p)
free-allocate_example =
    free-allocate 1 0 0 memory-IsValid (omega arith) (omega arith) (omega arith) allocate_one
      (omega arith)

pair_aligned : (k : ℕ) → Order 2 k → 8192 % block_size k ≡ 0
unfolding block_size
pair_aligned k order = let e : k ≡ 1 = Order-pow {j = 1} order in rw e refl

allocate_at-Grants_example :
    (k : ℕ) × Order 2 k
    × Grants 16384
        (λ i b. holds i 8192 b)
        memory
        k
        (λ a s'. s')
        (λ a. a ≡ 8192)
        (allocate_at memory 8192 2)
allocate_at-Grants_example =
    allocate_at-Grants memory-IsValid (omega arith) 2 (omega arith) (omega arith) (omega arith) 8192
      (omega arith) refl pair_aligned

allocate_at_panics_example :
    (allocate_at memory 12288 3 ≡ panic) ⊎ NonePasses (λ i b. holds i 12288 b) 2 1 memory
unfolding block_size
allocate_at_panics_example =
    allocate_at_panics memory 12288 3 (omega arith) (omega arith) (omega arith) (omega arith) refl 2
      three_pages (omega arith) no_quadruple
