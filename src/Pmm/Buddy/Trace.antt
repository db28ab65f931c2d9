-- ===== src/Pmm/Buddy/Trace.antt =====
-- Runs of the allocator: any sequence of granted allocations and of frees of blocks that are in use.
use funderberker.Common.{
  ℕ, ◌+◌, ◌*◌, ◌%◌, ◌^◌, ◌≤◌, ◌<◌, ◌≡◌, List, [], ◌∷◌, ◌++◌, length, ok, usize_mod,
}
use funderberker.Pmm.{basic_page_size}
use funderberker.Pmm.Buddy.{BuddyAllocator, block_size, allocate, free}
use funderberker.Pmm.Buddy.Blocks.{in_block}
use funderberker.Pmm.Buddy.Weight.{free_at}
use funderberker.Pmm.Buddy.Valid.{IsValid, Order}

-- The allocator, and the blocks that its callers hold: the zone and the address of each.
pub record World : Type 0 where
  pub allocator : BuddyAllocator
  pub live : List (ℕ × ℕ)

abbrev pub world : BuddyAllocator → List (ℕ × ℕ) → World
world s live = record { allocator = s; live = live }

-- How many of the blocks hold the address.
unfoldable pub live_at : ℕ → List (ℕ × ℕ) → ℕ
live_at p [] = 0
live_at p ((k, a) ∷ live) = in_block p k a + live_at p live

-- A granted request, and a free of a block that is held, with the number of pages of its zone. Each
-- happens while nodes are spare.
pub data Step : World → World → Type 0 where
  allocated :
      {s s' : BuddyAllocator} {live : List (ℕ × ℕ)} (alignment page_count k a : ℕ)
      → length s.zones ≤ length s.freelist
      → page_count ≤ 2 ^ 63
      → basic_page_size * alignment < usize_mod
      → Order page_count k
      → allocate s alignment page_count ≡ ok (a, s')
      → Step (world s live) (world s' ((k, a) ∷ live))
  freed :
      {s s' : BuddyAllocator} (before after : List (ℕ × ℕ)) {live : List (ℕ × ℕ)}
      (page_count k a : ℕ)
      → live ≡ before ++ (k, a) ∷ after
      → 0 < length s.freelist
      → 0 < page_count
      → basic_page_size * page_count < usize_mod
      → a % (basic_page_size * page_count) ≡ 0
      → Order page_count k
      → k ≤ length s.zones
      → free s a page_count ≡ ok s'
      → Step (world s live) (world s' (before ++ after))

pub data Reach (w : World) : World → Type 0 where
  here : Reach w w
  next : {u t : World} → Reach w u → Step u t → Reach w t

abbrev pub AllAligned : List (ℕ × ℕ) → Type 0
AllAligned [] = Unit {0}
AllAligned ((k, a) ∷ live) = (a % block_size k ≡ 0) × AllAligned live

-- The allocator is valid, and of the free blocks and the blocks that are held no two overlap and
-- none reaches behind the limit.
pub record Sound (limit : ℕ) (w : World) : Type 0 where
  pub valid : IsValid limit w.allocator
  pub apart : (p : ℕ) → free_at w.allocator p + live_at p w.live ≤ 1
  pub below : (p : ℕ) → limit ≤ p → free_at w.allocator p + live_at p w.live ≡ 0
  pub aligned : AllAligned w.live

-- Every address is free or held as often as before.
pub record Conserves (w t : World) : Type 0 where
  pub same :
      (p : ℕ) → free_at t.allocator p + live_at p t.live ≡ free_at w.allocator p + live_at p w.live
