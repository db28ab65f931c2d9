-- ===== src/Pmm/Buddy/Disband.antt =====
-- `disband`: what is left of a block when the part that was asked for is cut out of it.
use funderberker.Common.{ℕ, zero, suc, ◌+◌, ◌%◌, ◌≤◌, ◌≡◌, refl, arith, length, min, ok}
use funderberker.Pmm.Buddy.{BuddyAllocator, disband_loop, block_size}
use funderberker.Pmm.Buddy.Blocks.{in_block, buddy, get_buddy_addr-ok, buddy-Pair}
use funderberker.Pmm.Buddy.Weight.{weight, misplaced, nodes, push_to_zone-Loses}

-- A quantity that two buddies have together as much as the block that they make.
abbrev pub Splits : (ℕ → ℕ → ℕ) → Type 0
Splits f =
    (i a : ℕ) → a % block_size i ≡ 0 → f i a + f i (buddy i a) ≡ f (i + 1) (min a (buddy i a))

pub in_block-Splits : (p : ℕ) → Splits (in_block p)
in_block-Splits p i a h = (buddy-Pair i a h).halves p

pub misplaced-Splits : Splits misplaced
unfolding misplaced
misplaced-Splits i a h =
    let pair = buddy-Pair i a h in ground (arith, pair.buddy_aligned, pair.union_aligned)

-- The block of zone `i + rounds` around the block of zone `i` at an address.
unfoldable pub enclosing : ℕ → ℕ → ℕ → ℕ
enclosing zero i addr = addr
enclosing (suc rounds) i addr = enclosing rounds (i + 1) (min addr (buddy i addr))

pub enclosing_lem :
    (rounds i addr : ℕ)
    → addr % block_size i ≡ 0
    → (enclosing rounds i addr % block_size (i + rounds) ≡ 0)
      × ((p : ℕ) → in_block p i addr ≤ in_block p (i + rounds) (enclosing rounds i addr))
unfolding enclosing
enclosing_lem zero i addr h = let e : i + 0 ≡ i = omega arith in rw e (h, λ p. omega arith)
enclosing_lem (suc rounds) i addr h =
    let e : i + suc rounds ≡ i + 1 + rounds = omega arith in
    let pair = buddy-Pair i addr h in
    let (aligned, inside) =
      enclosing_lem rounds (i + 1) (min addr (buddy i addr)) pair.union_aligned in
    rw e (aligned, λ p. omega (arith, inside p, pair.halves p))

-- `s'` is `s` with a block of zone `j` at `b` in place of a block of zone `i` at `a`.
pub record Exchanges (s : BuddyAllocator) (i a j b : ℕ) (s' : BuddyAllocator) : Type 0 where
  pub same_zones : length s'.zones ≡ length s.zones
  pub same_nodes : nodes s' ≡ nodes s
  pub sums : (f : ℕ → ℕ → ℕ) → Splits f → weight f s' + f i a ≡ weight f s + f j b

-- With a spare node for each round the loop ends without a panic, and what it adds to the zones is
-- the enclosing block without the block that it began with.
pub disband_loop-Exchanges :
    (rounds i addr : ℕ) (s : BuddyAllocator)
    → i + rounds ≤ length s.zones
    → addr % block_size i ≡ 0
    → rounds ≤ length s.freelist
    → (s' : BuddyAllocator) × (disband_loop rounds i addr s ≡ ok s')
      × Exchanges s i addr (i + rounds) (enclosing rounds i addr) s'
unfolding disband_loop enclosing
disband_loop-Exchanges zero i addr s room h spare =
    let e : i + 0 ≡ i = omega arith in
    (s, refl, record { same_zones = refl; same_nodes = refl; sums = λ f split. rw e })
disband_loop-Exchanges (suc rounds) i addr s room h spare =
    let e : i + suc rounds ≡ i + 1 + rounds = omega arith in
    let pair = buddy-Pair i addr h in
    let (s₁, pushed, gained, fewer) =
      push_to_zone-Loses s i (buddy i addr) (omega arith) (omega arith) in
    let (s₂, done, rest) =
      disband_loop-Exchanges rounds (i + 1) (min addr (buddy i addr)) s₁
        (omega (arith, gained.same_zones)) pair.union_aligned (omega arith) in
    (
      s₂,
      rw (get_buddy_addr-ok i addr h, pushed) done,
      record {
        same_zones = omega (arith, gained.same_zones, rest.same_zones);
        same_nodes = omega (arith, gained.same_nodes, rest.same_nodes);
        sums = λ f split. rw e (omega (arith, gained.without f, rest.sums f split, split i addr h));
      },
    )
