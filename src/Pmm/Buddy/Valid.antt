-- ===== src/Pmm/Buddy/Valid.antt =====
-- The invariant of the allocator, and the zone of a request.
use funderberker.Common.{
  dec_lt, ℕ, suc, ◌+◌, ◌%◌, ◌^◌, ◌≤◌, ◌<◌, ◌≡◌, ap, arith, length, ok, inl, inr,
}
use native.Mathlib.Nat.{pow-suc, one-le-pow, pow-le-pow_right}
use funderberker.Pmm.Power.{checked_next_power_of_two-cases, ilog2-pow}
use funderberker.Pmm.Buddy.{BuddyAllocator, block_size, zone_index}
use funderberker.Pmm.Buddy.Blocks.{in_block}
use funderberker.Pmm.Buddy.Weight.{weight, free_at, misplaced, Loses}
use funderberker.Pmm.Buddy.Disband.{in_block-Splits, misplaced-Splits}
use funderberker.Pmm.Buddy.Coalesce.{Gains}

-- The free blocks are aligned, no two overlap, and they lie below `limit`, the end of the memory,
-- which is less than a block behind the last zone would have.
pub record IsValid (limit : ℕ) (s : BuddyAllocator) : Type 0 where
  pub aligned : weight misplaced s ≡ 0
  pub disjoint : (p : ℕ) → free_at s p ≤ 1
  pub bounded : (p : ℕ) → limit ≤ p → free_at s p ≡ 0
  pub small : limit < block_size (length s.zones)

-- `k` is the least zone whose blocks have so many pages.
pub record Order (page_count k : ℕ) : Type 0 where
  pub found : zone_index page_count ≡ ok k
  pub enough : page_count ≤ 2 ^ k
  pub least : (j : ℕ) → j < k → 2 ^ j < page_count

pub zone_index-Order : (page_count : ℕ) → page_count ≤ 2 ^ 63 → (k : ℕ) × Order page_count k
unfolding zone_index
zone_index-Order page_count h = elim (checked_next_power_of_two-cases page_count) [
  | inl (k, found, small, enough, least) ↦ (
    k,
    record { found = rw found (ap ok (ilog2-pow k (omega arith))); enough = enough; least = least },
  )
  | inr (_, big) ↦ absurd (omega arith)
]

module _ {limit i a : ℕ} {s s' : BuddyAllocator} where
  -- A state with a block less is still valid, and the block is aligned.
  pub Loses-IsValid : IsValid limit s → Loses s i a s' → IsValid limit s' × (a % block_size i ≡ 0)
  unfolding misplaced free_at
  Loses-IsValid v lost = (
    record {
      aligned = omega (arith, v.aligned, lost.without misplaced);
      disjoint = λ p. omega (arith, v.disjoint p, lost.without (in_block p));
      bounded = λ p le. omega (arith, v.bounded p le, lost.without (in_block p));
      small = rw lost.same_zones v.small;
    },
    ground (arith, v.aligned, lost.without misplaced),
  )

  -- A state with a block more is valid, if the block is aligned, below the limit and was not free.
  pub Gains-IsValid :
      IsValid limit s
      → Gains s i a s'
      → a % block_size i ≡ 0
      → ((p : ℕ) → free_at s p + in_block p i a ≤ 1)
      → ((p : ℕ) → limit ≤ p → in_block p i a ≡ 0)
      → IsValid limit s'
  unfolding misplaced free_at
  Gains-IsValid v gained h apart below = record {
    aligned = ground (arith, v.aligned, gained.sums misplaced misplaced-Splits, h);
    disjoint = λ p. omega (arith, apart p, gained.sums (in_block p) (in_block-Splits p));
    bounded = λ p le.
        omega (arith, v.bounded p le, below p le, gained.sums (in_block p) (in_block-Splits p));
    small = rw gained.same_zones v.small;
  }

-- The zone of a power of two is its exponent.
pub Order-pow : {k j : ℕ} → Order (2 ^ j) k → k ≡ j
Order-pow {k} {j} order = elim (dec_lt j k) [
  | yes lt ↦ absurd (omega (arith, order.least j lt))
  | no ge ↦ elim (dec_lt k j) [
    | yes lt ↦ absurd (
        omega (
          arith,
          order.enough,
          pow-suc 2 k,
          one-le-pow k 2,
          pow-le-pow_right {n = 2} (omega arith) {i = suc k} {j = j} lt,
        ))
    | no le ↦ omega arith
  ]
]

-- Two zones of a request are the same.
pub Order-unique : {page_count k j : ℕ} → Order page_count k → Order page_count j → k ≡ j
Order-unique {page_count} {k} {j} o o' = elim (dec_lt k j) [
  | yes lt ↦ absurd (omega (arith, o.enough, o'.least k lt))
  | no ge ↦ elim (dec_lt j k) [
    | yes lt ↦ absurd (omega (arith, o'.enough, o.least j lt))
    | no le ↦ omega arith
  ]
]
