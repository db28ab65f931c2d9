-- ===== src/Pmm/Buddy/Coalesce.antt =====
-- `coalesce`: a block that comes back is joined with its free buddies.
use funderberker.Common.{
  ℕ, zero, suc, ◌+◌, ◌-◌, ◌%◌, ◌≤◌, ◌<◌, ◌≡◌, arith, length, min, ◌∙◌, subst, ok, ◌==◌,
  Option-cases, Option, none, some, inl, inr,
}
use funderberker.LinkedList
use funderberker.Pmm.Buddy.{
  BuddyAllocator, zone, push_to_zone, pop_from_zone, coalesce_loop, block_size,
}
use funderberker.Pmm.Buddy.Blocks.{in_block, in_block_last, buddy, get_buddy_addr-ok, buddy-Pair}
use funderberker.Pmm.Buddy.Weight.{weight, free_at, nodes, push_to_zone-Loses, pop_from_zone-Loses}
use funderberker.Pmm.Buddy.Disband.{Splits}

-- `s'` is `s` with a block of zone `i` at `a` more.
pub record Gains (s : BuddyAllocator) (i a : ℕ) (s' : BuddyAllocator) : Type 0 where
  pub same_zones : length s'.zones ≡ length s.zones
  pub same_nodes : nodes s' ≡ nodes s
  pub sums : (f : ℕ → ℕ → ℕ) → Splits f → weight f s' ≡ weight f s + f i a

-- Nothing from `limit` on is free or in the block, and a block behind the last zone does not fit
-- below `limit`.
abbrev pub Fits : ℕ → ℕ → ℕ → BuddyAllocator → Type 0
Fits limit i a s =
    ((p : ℕ) → limit ≤ p → free_at s p + in_block p i a ≡ 0) × (limit < block_size (length s.zones))

module _ (rounds i addr : ℕ) (s : BuddyAllocator) (h : addr % block_size i ≡ 0) where
  abbrev search : Option (ℕ × ℕ)
  search = LinkedList.find (λ node. node == buddy i addr) (zone s i)

  coalesce_loop_alone : search ≡ none → coalesce_loop (suc rounds) i addr s ≡ push_to_zone s addr i
  unfolding coalesce_loop
  coalesce_loop_alone e = ground (arith, get_buddy_addr-ok i addr h, e)

  coalesce_loop_join :
      (k b : ℕ) (s' : BuddyAllocator)
      → search ≡ some (k, b)
      → pop_from_zone s i k ≡ ok s'
      → coalesce_loop (suc rounds) i addr s
        ≡ coalesce_loop rounds (i + 1) (min addr (buddy i addr)) s'
  unfolding coalesce_loop
  coalesce_loop_join k b s' e popped = ground (arith, get_buddy_addr-ok i addr h, e, popped)

-- Where all fits below the limit, the loop never runs into its `unreachable!`: it ends with the
-- block added to what is free.
pub coalesce_loop-Gains :
    (limit rounds i addr : ℕ) (s : BuddyAllocator)
    → i + rounds ≡ length s.zones
    → addr % block_size i ≡ 0
    → 0 < length s.freelist
    → Fits limit i addr s
    → (s' : BuddyAllocator) × (coalesce_loop rounds i addr s ≡ ok s') × Gains s i addr s'
unfolding coalesce_loop
coalesce_loop-Gains limit zero i addr s last h spare (fits, small) =
    let e : i ≡ length s.zones = omega arith in
    let p : ℕ = addr + block_size i - 1 in
    let inside : in_block p i addr ≡ 1 = in_block_last i addr in
    let large : limit < block_size i = rw e small in absurd (omega (arith, fits p (omega arith)))
coalesce_loop-Gains limit (suc rounds) i addr s last h spare (fits, small) =
    elim (Option-cases (LinkedList.find (λ node. node == buddy i addr) (zone s i))) [
      | inl alone ↦
          let (s', pushed, gained, _) = push_to_zone-Loses s i addr (omega arith) spare in
          (
            s',
            coalesce_loop_alone rounds i addr s h alone ∙ pushed,
            record {
              same_zones = omega (arith, gained.same_zones);
              same_nodes = omega (arith, gained.same_nodes);
              sums = λ f split. gained.without f;
            },
          )
      | inr ((k, b), found) ↦
          let (hit, s₁, popped, lost, more) =
            pop_from_zone-Loses s i k b (λ node. node == buddy i addr) (omega arith) found in
          let pair = buddy-Pair i addr h in
          let same : b ≡ buddy i addr = ground arith in
          let sums = λ (f : ℕ → ℕ → ℕ).
            subst (λ c. weight f s ≡ weight f s₁ + f i c) same (lost.without f) in
          let still : Fits limit (i + 1) (min addr (buddy i addr)) s₁ = (
            λ p le. unfold free_at in omega (arith, fits p le, pair.halves p, sums (in_block p)),
            rw lost.same_zones small,
          ) in
          let (s', done, gains) =
            coalesce_loop-Gains limit rounds (i + 1) (min addr (buddy i addr)) s₁
              (omega (arith, lost.same_zones)) pair.union_aligned (omega arith) still in
          (
            s',
            coalesce_loop_join rounds i addr s h k b s₁ found popped ∙ done,
            record {
              same_zones = omega (arith, gains.same_zones, lost.same_zones);
              same_nodes = omega (arith, gains.same_nodes, lost.same_nodes);
              sums = λ f split. omega (arith, gains.sums f split, split i addr h, sums f);
            },
          )
    ]
