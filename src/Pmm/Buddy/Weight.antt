-- ===== src/Pmm/Buddy/Weight.antt =====
-- Sums over all free blocks, and how the moves of one block change them.
use funderberker.Common.{
  ℕ, zero, suc, ◌+◌, ◌%◌, ◌≤◌, ◌<◌, ◌≡◌, arith, Bool, true, some, List, [], ◌∷◌, length, get_or,
  set, length-set, ok, if◌then◌else◌, ◌==◌,
}
use funderberker.LinkedList
use funderberker.LinkedList.Laws.{
  total, total-push_back, length-push_back, pop_back-some, find-remove_at,
}
use funderberker.Pmm.Buddy.{BuddyAllocator, zone, pop_from_zone, push_to_zone, block_size}
use funderberker.Pmm.Buddy.Blocks.{in_block}

-- The sum of a quantity over the blocks of zones `i`, `i + 1`, ...
unfoldable pub weight_from : (ℕ → ℕ → ℕ) → ℕ → List (List ℕ) → ℕ
weight_from f i [] = 0
weight_from f i (z ∷ zones) = total (f i) z + weight_from f (i + 1) zones

-- The sum of `f i a` over the free blocks, `i` the zone and `a` the address of each.
unfoldable pub weight : (ℕ → ℕ → ℕ) → BuddyAllocator → ℕ
weight f s = weight_from f 0 s.zones

-- How many free blocks hold the address.
unfoldable pub free_at : BuddyAllocator → ℕ → ℕ
free_at s p = weight (in_block p) s

-- How many free blocks are not aligned to their size.
unfoldable pub misplaced : ℕ → ℕ → ℕ
misplaced i a = if a % block_size i == 0 then 0 else 1

-- All nodes: the spare ones, and one for each free block.
unfoldable pub nodes : BuddyAllocator → ℕ
nodes s = length s.freelist + weight (λ _ _. 1) s

weight_from-set :
    (f : ℕ → ℕ → ℕ) (j i : ℕ) (zones : List (List ℕ)) (z : List ℕ)
    → i < length zones
    → weight_from f j (set zones i z) + total (f (j + i)) (get_or zones i [])
      ≡ weight_from f j zones + total (f (j + i)) z
unfolding weight_from
weight_from-set f j i [] z h = absurd (omega arith)
weight_from-set f j zero (y ∷ zones) z h = let e : j + 0 ≡ j = omega arith in rw e (omega arith)
weight_from-set f j (suc i) (y ∷ zones) z h =
    let e : j + suc i ≡ j + 1 + i = omega arith in
    rw e (omega (arith, weight_from-set f (j + 1) i zones z (omega arith)))

weight_set :
    (f : ℕ → ℕ → ℕ) (i : ℕ) (zones : List (List ℕ)) (z : List ℕ)
    → i < length zones
    → weight_from f 0 (set zones i z) + total (f i) (get_or zones i [])
      ≡ weight_from f 0 zones + total (f i) z
weight_set f i zones z h =
    let e : 0 + i ≡ i = omega arith in rw e at (weight_from-set f 0 i zones z h)

-- `s'` has the zones of `s` in number and the same nodes, and every sum differs by the block of
-- zone `i` at `a`, which only `s` has.
pub record Loses (s : BuddyAllocator) (i a : ℕ) (s' : BuddyAllocator) : Type 0 where
  pub same_zones : length s'.zones ≡ length s.zones
  pub same_nodes : nodes s' ≡ nodes s
  pub without : (f : ℕ → ℕ → ℕ) → weight f s ≡ weight f s' + f i a

-- Taking out a block that a search found in a zone.
pub pop_from_zone-Loses :
    (s : BuddyAllocator) (i k a : ℕ) (test : ℕ → Bool)
    → i < length s.zones
    → LinkedList.find test (zone s i) ≡ some (k, a)
    → (test a ≡ true)
      × (s' : BuddyAllocator) × (pop_from_zone s i k ≡ ok s')
      × Loses s i a s'
      × (length s'.freelist ≡ length s.freelist + 1)
unfolding pop_from_zone nodes weight
pop_from_zone-Loses s i k a test inside e =
    let (hit, rest, removed, sums) = find-remove_at test (zone s i) k a e in
    let s' : BuddyAllocator = record {
      zones = set s.zones i rest;
      freelist = LinkedList.push_back s.freelist a;
    } in
    let moved = λ (f : ℕ → ℕ → ℕ). weight_set f i s.zones rest inside in
    let freed = length-push_back s.freelist a in
    (
      hit,
      s',
      rw removed,
      record {
        same_zones = length-set s.zones i rest;
        same_nodes = omega (arith, freed, moved (λ _ _. 1), sums (λ _. 1));
        without = λ f. omega (arith, moved f, sums (f i));
      },
      freed,
    )

-- Putting a block into a zone takes a spare node.
pub push_to_zone-Loses :
    (s : BuddyAllocator) (i a : ℕ)
    → i < length s.zones
    → 0 < length s.freelist
    → (s' : BuddyAllocator) × (push_to_zone s a i ≡ ok s')
      × Loses s' i a s
      × (length s.freelist ≡ length s'.freelist + 1)
unfolding push_to_zone nodes weight
push_to_zone-Loses s i a inside spare =
    let (node, rest, popped, fewer) = pop_back-some s.freelist spare in
    let z : List ℕ = LinkedList.push_back (zone s i) a in
    let s' : BuddyAllocator = record { zones = set s.zones i z; freelist = rest } in
    let moved = λ (f : ℕ → ℕ → ℕ). weight_set f i s.zones z inside in
    let sums = λ (f : ℕ → ℕ). total-push_back f (zone s i) a in
    (
      s',
      rw popped,
      record {
        same_zones = omega (arith, length-set s.zones i z);
        same_nodes = omega (arith, fewer, moved (λ _ _. 1), sums (λ _. 1));
        without = λ f. omega (arith, moved f, sums (f i));
      },
      fewer,
    )

weight_from_zone_le :
    (f : ℕ → ℕ → ℕ) (j i : ℕ) (zones : List (List ℕ))
    → i < length zones
    → total (f (j + i)) (get_or zones i []) ≤ weight_from f j zones
unfolding weight_from
weight_from_zone_le f j i [] h = absurd (omega arith)
weight_from_zone_le f j zero (z ∷ zones) h = let e : j + 0 ≡ j = omega arith in rw e (omega arith)
weight_from_zone_le f j (suc i) (z ∷ zones) h =
    let e : j + suc i ≡ j + 1 + i = omega arith in
    rw e (omega (arith, weight_from_zone_le f (j + 1) i zones (omega arith)))

-- A zone has no more of a quantity than all zones together.
pub weight-zone_le :
    (f : ℕ → ℕ → ℕ) (i : ℕ) (s : BuddyAllocator)
    → i < length s.zones
    → total (f i) (zone s i) ≤ weight f s
unfolding weight
weight-zone_le f i s h =
    let e : 0 + i ≡ i = omega arith in rw e at (weight_from_zone_le f 0 i s.zones h)
