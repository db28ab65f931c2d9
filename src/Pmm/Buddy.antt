-- ===== src/Pmm/Buddy.antt =====
-- pmm/src/buddy.rs: the buddy allocator. A zone holds the addresses of its free blocks, front to
-- back, and a block of zone `i` has 2 ^ i pages. The list of spare nodes is `freelist`. Powers of
-- two and ends of blocks are not checked for overflow: a physical address has at most 52 bits.
pub mod Blocks
pub mod Weight
pub mod Disband
pub mod Coalesce
pub mod Valid
pub mod Find
pub mod Allocate
pub mod Free
pub mod Trace
pub mod Supply
pub mod Flaws
use funderberker.Common.{
  ℕ, zero, suc, ◌+◌, ◌-◌, ◌*◌, ◌/◌, ◌%◌, ◌^◌, min, Bool, true, false, not, ◌&&◌, Option, none, some,
  List, [], ◌∷◌, ltb, leb, ◌==◌, if◌then◌else◌, length, get_or, set, Outcome, ok, err, panic, ◌>>=◌,
  ◌>>◌, reject, assert, unwrap, unwrap_option, ok_or, mul_usize,
}
use funderberker.LinkedList
use funderberker.Pmm.{
  PmmError, no_available_block, free_of_already_free, invalid_alignment, empty_allocation,
  empty_free, too_big_allocation, basic_page_size,
}
use funderberker.Pmm.Power.{checked_next_power_of_two, ilog2, is_power_of_two}

pub record BuddyAllocator : Type 0 where
  pub zones : List (List ℕ)
  pub freelist : List ℕ

abbrev pub Run : Type 0 → Type 0
Run A = Outcome PmmError A

-- `BASIC_PAGE_SIZE.ilog2()`
abbrev pub min_zone_level : ℕ
min_zone_level = 12

-- The bytes of a block of a zone, as `get_buddy_addr` computes them.
unfoldable pub block_size : ℕ → ℕ
block_size i = 2 ^ (i + min_zone_level)

-- The same, as `find_bucket_at` and `is_page_free` compute them.
unfoldable pub bucket_size : ℕ → ℕ
bucket_size i = 2 ^ i * basic_page_size

abbrev pub zone : BuddyAllocator → ℕ → List ℕ
zone s i = get_or s.zones i []

unfoldable pub get_buddy_addr : ℕ → ℕ → Run ℕ
unfolding block_size
get_buddy_addr addr zone_index = do
  assert (addr % block_size zone_index == 0)
  ok (
      if addr % (block_size zone_index * 2) == 0
      then addr + block_size zone_index
      else addr - block_size zone_index)

abbrev pub determine_next_bucket_addr : ℕ → ℕ → ℕ
determine_next_bucket_addr addr buddy_addr = min addr buddy_addr

unfoldable pub pop_from_zone : BuddyAllocator → ℕ → ℕ → Run BuddyAllocator
pop_from_zone s zone_index node_index = do
  (node, rest) ← unwrap_option (LinkedList.remove_at (zone s zone_index) node_index)
  ok (record {
    zones = set s.zones zone_index rest;
    freelist = LinkedList.push_back s.freelist node;
  })

unfoldable pub push_to_zone : BuddyAllocator → ℕ → ℕ → Run BuddyAllocator
push_to_zone s buddy_addr zone_index = do
  (node, rest) ← unwrap_option (LinkedList.pop_back s.freelist)
  ok (record {
    zones = set s.zones zone_index (LinkedList.push_back (zone s zone_index) buddy_addr);
    freelist = rest;
  })

-- `for i in start_index..used_index`, with the rounds that are left.
unfoldable pub disband_loop : ℕ → ℕ → ℕ → BuddyAllocator → Run BuddyAllocator
disband_loop zero i addr s = ok s
disband_loop (suc rounds) i addr s = do
  buddy_addr ← get_buddy_addr addr i
  s' ← push_to_zone s buddy_addr i
  disband_loop rounds (i + 1) (determine_next_bucket_addr addr buddy_addr) s'

unfoldable pub disband : BuddyAllocator → ℕ → ℕ → ℕ → Run BuddyAllocator
unfolding disband_loop
disband s addr start_index used_index = disband_loop (used_index - start_index) start_index addr s

-- `for i in start_index..zones.len()`; behind the loop stands `unreachable!`.
unfoldable pub coalesce_loop : ℕ → ℕ → ℕ → BuddyAllocator → Run BuddyAllocator
coalesce_loop zero i addr s = panic
coalesce_loop (suc rounds) i addr s = do
  buddy_addr ← get_buddy_addr addr i
  elim (LinkedList.find (λ node. node == buddy_addr) (zone s i)) [
    | none ↦ push_to_zone s addr i
    | some (index, _) ↦ do
      s' ← pop_from_zone s i index
      coalesce_loop rounds (i + 1) (determine_next_bucket_addr addr buddy_addr) s'
  ]

unfoldable pub coalesce : BuddyAllocator → ℕ → ℕ → Run BuddyAllocator
unfolding coalesce_loop
coalesce s addr start_index = coalesce_loop (length s.zones - start_index) start_index addr s

-- The first block of a zone with the alignment. The product is computed at each block that the
-- search looks at.
unfoldable pub find_aligned : ℕ → List ℕ → Run (Option (ℕ × ℕ))
find_aligned alignment [] = ok none
find_aligned alignment (x ∷ xs) = do
  bytes ← mul_usize basic_page_size alignment
  ok (LinkedList.find (λ node. node % bytes == 0) (x ∷ xs))

unfoldable pub find_bucket_loop : ℕ → ℕ → ℕ → BuddyAllocator → Run (ℕ × ℕ × BuddyAllocator)
unfolding find_aligned
find_bucket_loop zero i alignment s = err no_available_block
find_bucket_loop (suc rounds) i alignment s = do
  found ← find_aligned alignment (zone s i)
  elim found [
    | none ↦ find_bucket_loop rounds (i + 1) alignment s
    | some (index, addr) ↦ do s' ← pop_from_zone s i index; ok (addr, i, s')
  ]

unfoldable pub find_bucket : BuddyAllocator → ℕ → ℕ → Run (ℕ × ℕ × BuddyAllocator)
unfolding find_bucket_loop
find_bucket s alignment start_index =
    find_bucket_loop (length s.zones - start_index) start_index alignment s

-- `bucket <= addr && addr < bucket + bucket_size`
abbrev pub holds : ℕ → ℕ → ℕ → Bool
holds i addr bucket = leb bucket addr && ltb addr (bucket + bucket_size i)

unfoldable pub find_bucket_at_loop : ℕ → ℕ → ℕ → BuddyAllocator → Run (ℕ × BuddyAllocator)
find_bucket_at_loop zero i addr s = err no_available_block
find_bucket_at_loop (suc rounds) i addr s = elim (LinkedList.find (holds i addr) (zone s i)) [
  | none ↦ find_bucket_at_loop rounds (i + 1) addr s
  | some (index, _) ↦ do s' ← pop_from_zone s i index; ok (i, s')
]

unfoldable pub find_bucket_at : BuddyAllocator → ℕ → ℕ → Run (ℕ × BuddyAllocator)
unfolding find_bucket_at_loop
find_bucket_at s addr start_index =
    find_bucket_at_loop (length s.zones - start_index) start_index addr s

-- The zone of a request: its page count rounded up to a power of two.
unfoldable pub zone_index : ℕ → Run ℕ
zone_index page_count = do
  rounded ← ok_or (checked_next_power_of_two page_count) no_available_block
  ok (ilog2 rounded)

-- `addr.0 % (BASIC_PAGE_SIZE * page_count) != 0`
unfoldable pub misaligned : ℕ → ℕ → Run Bool
misaligned addr page_count = do
  bytes ← mul_usize basic_page_size page_count
  ok (not (addr % bytes == 0))

unfoldable pub allocate_at : BuddyAllocator → ℕ → ℕ → Run BuddyAllocator
allocate_at s addr page_count = do
  reject (page_count == 0) empty_allocation
  reject (ltb (2 ^ length s.zones) page_count) too_big_allocation
  bad ← misaligned addr page_count
  reject bad invalid_alignment
  start_index ← zone_index page_count
  (used_index, s') ← find_bucket_at s addr start_index
  disband s' addr start_index used_index

unfoldable pub allocate : BuddyAllocator → ℕ → ℕ → Run (ℕ × BuddyAllocator)
allocate s alignment page_count = do
  reject (page_count == 0) empty_allocation
  reject (ltb (2 ^ length s.zones) page_count) too_big_allocation
  reject (not (is_power_of_two alignment)) invalid_alignment
  start_index ← zone_index page_count
  (used_addr, used_index, s') ← find_bucket s alignment start_index
  s'' ← disband s' used_addr start_index used_index
  ok (used_addr, s'')

unfoldable pub is_page_free_loop : ℕ → ℕ → ℕ → BuddyAllocator → Bool
is_page_free_loop zero i addr s = false
is_page_free_loop (suc rounds) i addr s = elim (LinkedList.find (holds i addr) (zone s i)) [
  | none ↦ is_page_free_loop rounds (i + 1) addr s
  | some _ ↦ true
]

unfoldable pub is_page_free : BuddyAllocator → ℕ → ℕ → Run Bool
is_page_free s addr page_count = do
  reject (page_count == 0) empty_allocation
  bad ← misaligned addr page_count
  reject bad invalid_alignment
  start_index ← zone_index page_count
  ok (is_page_free_loop (length s.zones - start_index) start_index addr s)

unfoldable pub free : BuddyAllocator → ℕ → ℕ → Run BuddyAllocator
free s addr page_count = do
  reject (page_count == 0) empty_free
  already ← is_page_free s addr page_count
  reject already free_of_already_free
  zone_index ← zone_index page_count
  coalesce s addr zone_index

-- The largest zone, among those below `i`, of which a block fits at the front of a region.
unfoldable pub fitting_zone : ℕ → ℕ → ℕ → Option ℕ
fitting_zone zero addr_id total = none
fitting_zone (suc i) addr_id total =
    if addr_id % 2 ^ i == 0 && leb (2 ^ i) total then some i else fitting_zone i addr_id total

-- The outer loop, on fuel: every round frees a page at least. The inner panic is `unreachable!`.
unfoldable pub break_loop : ℕ → ℕ → ℕ → BuddyAllocator → Run BuddyAllocator
unfolding fitting_zone
break_loop zero addr_id total s = if total == 0 then ok s else panic
break_loop (suc fuel) addr_id total s = if total == 0 then ok s else do
  i ← unwrap_option (fitting_zone (length s.zones) addr_id total)
  s' ← unwrap (free s (addr_id * basic_page_size) (2 ^ i))
  break_loop fuel (addr_id + 2 ^ i) (total - 2 ^ i) s'

unfoldable pub break_into_buckets_n_free : BuddyAllocator → ℕ → ℕ → Run BuddyAllocator
unfolding break_loop
break_into_buckets_n_free s addr total_page_count =
    break_loop total_page_count (addr / basic_page_size) total_page_count s
