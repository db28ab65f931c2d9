-- ===== src/Pmm/Buddy/Allocate.antt =====
-- `allocate` and `allocate_at` against the free addresses.
use funderberker.Common.{
  ℕ, dec_lt, ==_iff, ◌+◌, ◌-◌, ◌*◌, ◌%◌, ◌^◌, ◌≤◌, ◌<◌, ◌≡◌, refl, arith, Bool, true, false, ◌⊎◌,
  inl, inr, length, ok, err, ◌==◌, ltb, lt→ltb, usize_mod,
}
use mathlib.Core.Path.{subst₂}
use funderberker.Pmm.{no_available_block, basic_page_size}
use funderberker.Pmm.Power.{is_power_of_two}
use funderberker.Pmm.Buddy.{
  BuddyAllocator, Run, block_size, holds, misaligned, disband, find_bucket, find_bucket_at,
  allocate, allocate_at,
}
use funderberker.Pmm.Buddy.Blocks.{
  holds-in_block, in_block, in_block_first, in_block_unique, aligned_down,
}
use funderberker.Pmm.Buddy.Weight.{weight, free_at, misplaced, nodes, Loses}
use funderberker.Pmm.Buddy.Disband.{
  enclosing, enclosing_lem, disband_loop-Exchanges, in_block-Splits, misplaced-Splits, Splits,
}
use funderberker.Pmm.Buddy.Valid.{IsValid, Order, Loses-IsValid, zone_index-Order}
use funderberker.Pmm.Buddy.Find.{
  NonePasses, at_alignment, find_bucket_loop-Searches, find_bucket_at_loop-Searches,
}

-- `s'` is valid, has the zones and nodes of `s`, and just the block of zone `k` at `a` is not free
-- any more.
pub record Takes (limit : ℕ) (s : BuddyAllocator) (k a : ℕ) (s' : BuddyAllocator) : Type 0 where
  pub valid : IsValid limit s'
  pub same_zones : length s'.zones ≡ length s.zones
  pub same_nodes : nodes s' ≡ nodes s
  pub taken : (p : ℕ) → free_at s p ≡ free_at s' p + in_block p k a
  pub sums : (f : ℕ → ℕ → ℕ) → Splits f → weight f s ≡ weight f s' + f k a

exchange_sum :
    (f : ℕ → ℕ → ℕ) (k j j' a b c : ℕ)
    → j' ≡ j
    → b ≡ c
    → (s s₁ s' : BuddyAllocator) → weight f s ≡ weight f s₁ + f j b
    → weight f s' + f k a ≡ weight f s₁ + f j' c
    → weight f s ≡ weight f s' + f k a
exchange_sum f k j j' a b c e same s s₁ s' lost gained =
    let at : f j' c ≡ f j b = rw (e, same) in omega arith

module _ {limit : ℕ} {s : BuddyAllocator} (v : IsValid limit s)
    (spare : length s.zones ≤ length s.freelist) where
  -- Cutting a part out of a block that was taken from its zone.
  disband-Takes :
      (k j a b : ℕ) (s₁ : BuddyAllocator)
      → Loses s j b s₁
      → length s₁.freelist ≡ length s.freelist + 1
      → k ≤ j
      → j < length s.zones
      → a % block_size k ≡ 0
      → in_block a j b ≡ 1
      → (s' : BuddyAllocator) × (disband s₁ a k j ≡ ok s') × Takes limit s k a s'
  unfolding disband free_at
  disband-Takes k j a b s₁ lost more le inside aligned within =
      let (v₁, base_aligned) = Loses-IsValid v lost in
      let e : k + (j - k) ≡ j = omega arith in
      let base : ℕ = enclosing (j - k) k a in
      let (s', done, swap) =
        disband_loop-Exchanges (j - k) k a s₁ (omega (arith, lost.same_zones)) aligned
          (omega arith) in
      let (base_down, around) = rw e at (enclosing_lem (j - k) k a aligned) in
      let here : 1 ≤ in_block a j base = omega (arith, around a, in_block_first k a) in
      let same : b ≡ base = in_block_unique a j b base base_aligned base_down within here in
      let sums = λ (f : ℕ → ℕ → ℕ) (split : Splits f).
        exchange_sum f k j (k + (j - k)) a b base e same s s₁ s' (lost.without f)
          (swap.sums f split) in
      let taken = λ (p : ℕ). sums (in_block p) (in_block-Splits p) in
      (
        s',
        done,
        record {
          valid = record {
            aligned = omega (arith, v.aligned, sums misplaced misplaced-Splits);
            disjoint = λ p. omega (arith, v.disjoint p, taken p);
            bounded = λ p h. omega (arith, v.bounded p h, taken p);
            small = rw (swap.same_zones, lost.same_zones) v.small;
          };
          same_zones = omega (arith, swap.same_zones, lost.same_zones);
          same_nodes = omega (arith, swap.same_nodes, lost.same_nodes);
          taken = taken;
          sums = sums;
        },
      )

-- The zone of a request that passes the checks is a zone of the allocator or the one behind the last.
pub Order-le : {page_count k n : ℕ} → Order page_count k → page_count ≤ 2 ^ n → k ≤ n
Order-le {page_count} {k} {n} order fits = elim (dec_lt n k) [
  | yes big ↦ absurd (omega (arith, order.least n big))
  | no le ↦ omega arith
]

-- The two outcomes of a request that passes the checks: a block that is aligned to its size is taken,
-- or no block of the zones from `k` on passes the test.
abbrev pub Grants :
    {A : Type 0}
    → ℕ
    → (ℕ → ℕ → Bool)
    → BuddyAllocator
    → ℕ
    → (ℕ → BuddyAllocator → A)
    → (ℕ → Type 0)
    → Run A
    → Type 0
Grants limit test s k result Wanted o =
    ((a : ℕ) × (s' : BuddyAllocator) × (o ≡ ok (result a s'))
      × Wanted a
      × (a % block_size k ≡ 0)
      × Takes limit s k a s')
    ⊎ ((o ≡ err no_available_block) × NonePasses test k (length s.zones - k) s)

module _ {limit : ℕ} {s : BuddyAllocator} (v : IsValid limit s)
    (spare : length s.zones ≤ length s.freelist) (page_count : ℕ) (pos : 0 < page_count)
    (room : page_count ≤ 2 ^ length s.zones) (small : page_count ≤ 2 ^ 63) where
  -- In a valid state with a spare node for each zone, a request of at least one page and of no more than
  -- the zones can name or 2^63, for an alignment that is a power of two and whose bytes fit 64 digits, is
  -- granted or fails for want of a block. If granted, the result is aligned as asked, and to the size of its block, which is that
  -- of the least zone with so many pages; just this block is not free any more, and the state is
  -- valid. If not, no block of that zone or a higher one has the alignment.
  pub allocate-Grants :
      (alignment : ℕ)
      → is_power_of_two alignment ≡ true
      → (fits : basic_page_size * alignment < usize_mod)
      → (k : ℕ) × Order page_count k
        × Grants limit
            (at_alignment alignment fits)
            s
            k
            (λ a s'. (a, s'))
            (λ a. a % (basic_page_size * alignment) ≡ 0)
            (allocate s alignment page_count)
  unfolding allocate find_bucket
  allocate-Grants alignment power fits =
      let (k, order) = zone_index-Order page_count small in
      let le : k ≤ length s.zones = Order-le order room in
      let nonzero : page_count == 0 ≡ false = ground arith in
      let not_big : ltb (2 ^ length s.zones) page_count ≡ false = ground arith in
      (
        k,
        order,
        elim (find_bucket_loop-Searches alignment fits s (length s.zones - k) k (omega arith)) [
          | inl (a, j, s₁, found, f) ↦
              let (_, aligned) = Loses-IsValid v f.lost in
              let e : k + (j - k) ≡ j = omega (arith, f.from) in
              let fits_k : a % block_size k ≡ 0 = aligned_down (j - k) k a (rw e aligned) in
              let (s', done, takes) =
                disband-Takes v spare k j a a s₁ f.lost f.spare f.from (omega (arith, f.below))
                  fits_k (in_block_first j a) in
              inl (
                a,
                s',
                rw (nonzero, not_big, power, order.found, found, done),
                (==_iff _ _).0 f.passes,
                fits_k,
                takes,
              )
          | inr (none_left, passes) ↦
              inr (rw (nonzero, not_big, power, order.found, none_left), passes)
        ],
      )

  -- In the same states and for the same page counts, a request of the pages from an address on, where the
  -- bytes asked for fit 64 digits and the address is a multiple both of them and of the size of the
  -- block, that is of the least zone with so many pages: granted exactly where one free block of that zone
  -- or a higher one holds the address, and then just the block at the address is taken.
  pub allocate_at-Grants :
      (addr : ℕ)
      → (fits : basic_page_size * page_count < usize_mod)
      → addr % (basic_page_size * page_count) ≡ 0
      → ((k : ℕ) → Order page_count k → addr % block_size k ≡ 0)
      → (k : ℕ) × Order page_count k
        × Grants limit
            (λ i b. holds i addr b)
            s
            k
            (λ a s'. s')
            (λ a. a ≡ addr)
            (allocate_at s addr page_count)
  unfolding allocate_at find_bucket_at misaligned
  allocate_at-Grants addr fits page_aligned block_aligned =
      let (k, order) = zone_index-Order page_count small in
      let le : k ≤ length s.zones = Order-le order room in
      let nonzero : page_count == 0 ≡ false = ground arith in
      let not_big : ltb (2 ^ length s.zones) page_count ≡ false = ground arith in
      let aligned : addr % (basic_page_size * page_count) == 0 ≡ true =
        (==_iff _ _).1 page_aligned in
      let no_overflow = lt→ltb (basic_page_size * page_count) usize_mod fits in
      (
        k,
        order,
        elim (find_bucket_at_loop-Searches addr s (length s.zones - k) k (omega arith)) [
          | inl (b, j, s₁, found, f) ↦
              let (s', done, takes) =
                disband-Takes v spare k j addr b s₁ f.lost f.spare f.from (omega (arith, f.below))
                  (block_aligned k order) (holds-in_block j addr b f.passes) in
              inl (
                addr,
                s',
                rw (nonzero, not_big, no_overflow, aligned, order.found, found, done),
                refl,
                block_aligned k order,
                takes,
              )
          | inr (none_left, passes) ↦
              inr (rw (nonzero, not_big, no_overflow, aligned, order.found, none_left), passes)
        ],
      )

-- What the checks of `allocate` let through.
pub allocate_checks :
    (s : BuddyAllocator) (alignment page_count : ℕ) {r : ℕ × BuddyAllocator}
    → allocate s alignment page_count ≡ ok r
    → (0 < page_count) × (page_count ≤ 2 ^ length s.zones) × (is_power_of_two alignment ≡ true)
unfolding allocate
allocate_checks s alignment page_count e = ground arith

-- A granted request, whatever was asked for: the block of the zone of the request was taken.
pub allocate-Takes :
    {limit : ℕ} {s s' : BuddyAllocator} (alignment page_count a : ℕ)
    → IsValid limit s
    → length s.zones ≤ length s.freelist
    → page_count ≤ 2 ^ 63
    → basic_page_size * alignment < usize_mod
    → allocate s alignment page_count ≡ ok (a, s')
    → (k : ℕ) × Order page_count k
      × (a % (basic_page_size * alignment) ≡ 0)
      × (a % block_size k ≡ 0)
      × Takes limit s k a s'
allocate-Takes {limit} {s} {s'} alignment page_count a v spare small fits e =
    let (pos, room, power) = allocate_checks s alignment page_count e in
    let (k, order, granted) =
      allocate-Grants v spare page_count pos room small alignment power fits in
    elim granted [
      | inr (refused, _) ↦ cc
      | inl (b, s₁, done, wanted, aligned, takes) ↦
          let same_addr : b ≡ a = cc in
          let same_state : s₁ ≡ s' = cc in
          (
            k,
            order,
            rw same_addr at wanted,
            rw same_addr at aligned,
            subst₂ (λ c t. Takes limit s k c t) same_addr same_state takes,
          )
    ]
