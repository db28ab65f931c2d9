-- ===== src/Pmm/Buddy/Free.antt =====
-- `is_page_free` and `free` against the free addresses, and the two together with `allocate`.
use funderberker.Common.{
  sym, ℕ, ==_iff, ◌+◌, ◌-◌, ◌*◌, ◌%◌, ◌^◌, ◌≤◌, ◌<◌, ◌≡◌, ap, arith, true, false, inl, inr, length,
  ok, ◌==◌, lt→ltb, usize_mod,
}
use native.Mathlib.Nat.{one-le-pow, pow-le-pow_right}
use funderberker.LinkedList.Laws.{find-remove_at}
use funderberker.Pmm.{basic_page_size}
use funderberker.Pmm.Buddy.{
  bucket_size, allocate, BuddyAllocator, zone, block_size, holds, misaligned, is_page_free,
  is_page_free_loop, free, coalesce,
}
use funderberker.Pmm.Buddy.Blocks.{bucket_size-eq, holds-in_block, in_block, in_block_first}
use funderberker.Pmm.Buddy.Weight.{free_at, nodes, weight-zone_le}
use funderberker.Pmm.Buddy.Disband.{in_block-Splits}
use funderberker.Pmm.Buddy.Coalesce.{coalesce_loop-Gains}
use funderberker.Pmm.Buddy.Valid.{IsValid, Order, Gains-IsValid, Order-pow}
use funderberker.Pmm.Buddy.Find.{is_page_free_loop-eq}
use funderberker.Pmm.Buddy.Allocate.{Order-le, Takes, allocate-Takes, allocate_checks}

-- What `free` asks of the block of zone `k` at `addr`: it is aligned, lies below the limit, and no
-- part of it is free.
pub record InUse (limit : ℕ) (s : BuddyAllocator) (k addr : ℕ) : Type 0 where
  pub aligned : addr % block_size k ≡ 0
  pub below : (p : ℕ) → limit ≤ p → in_block p k addr ≡ 0
  pub used : (p : ℕ) → free_at s p + in_block p k addr ≤ 1

module _ {limit : ℕ} {s : BuddyAllocator} (v : IsValid limit s) where
  -- No block of a zone holds an address that is not free.
  not_free_loop :
      (addr rounds i : ℕ)
      → i + rounds ≤ length s.zones
      → free_at s addr ≡ 0
      → is_page_free_loop rounds i addr s ≡ false
  not_free_loop addr rounds i room e = elim (is_page_free_loop-eq addr s rounds i) [
    | inr (done, _) ↦ done
    | inl (done, a, j, lo, hi, k, found) ↦
        let (passes, rest, removed, sums) = find-remove_at (holds j addr) (zone s j) k a found in
        let within = holds-in_block j addr a passes in
        absurd (
          unfold free_at in
          omega (
            arith,
            sums (in_block addr j),
            weight-zone_le (in_block addr) j s (omega arith),
            within,
          ))
  ]

  -- In a valid state with a spare node, the block of the least zone that has so many pages, if it is in use
  -- and its address is a multiple of the bytes of the page count as given, which fit 64 digits, can be
  -- freed with this page count: the call succeeds, the block is free then and no other address has
  -- changed, the number of nodes is as before, and the state is valid.
  pub free-Gains :
      (addr page_count k : ℕ)
      → 0 < length s.freelist
      → 0 < page_count
      → basic_page_size * page_count < usize_mod
      → addr % (basic_page_size * page_count) ≡ 0
      → Order page_count k
      → k ≤ length s.zones
      → InUse limit s k addr
      → (s' : BuddyAllocator) × (free s addr page_count ≡ ok s')
        × IsValid limit s'
        × (nodes s' ≡ nodes s)
        × ((p : ℕ) → free_at s' p ≡ free_at s p + in_block p k addr)
  unfolding free is_page_free misaligned coalesce
  free-Gains addr page_count k spare pos fits page_aligned order le use_ =
      let nonzero : page_count == 0 ≡ false = ground arith in
      let aligned : addr % (basic_page_size * page_count) == 0 ≡ true =
        (==_iff _ _).1 page_aligned in
      let no_overflow = lt→ltb (basic_page_size * page_count) usize_mod fits in
      let e : k + (length s.zones - k) ≡ length s.zones = omega arith in
      let busy =
        not_free_loop addr (length s.zones - k) k (omega arith)
          (omega (arith, use_.used addr, in_block_first k addr)) in
      let (s', done, gains) =
        coalesce_loop-Gains limit (length s.zones - k) k addr s e use_.aligned spare
          (λ p h. omega (arith, use_.below p h, v.bounded p h), v.small) in
      (
        s',
        rw (nonzero, no_overflow, aligned, order.found, busy, done),
        Gains-IsValid v gains use_.aligned use_.used use_.below,
        gains.same_nodes,
        λ p. unfold free_at in gains.sums (in_block p) (in_block-Splits p),
      )

-- A block that was just taken is in use.
Takes-InUse :
    {limit k a : ℕ} {s s' : BuddyAllocator}
    → IsValid limit s
    → a % block_size k ≡ 0
    → Takes limit s k a s'
    → InUse limit s' k a
Takes-InUse v aligned takes = record {
  aligned = aligned;
  below = λ p h. omega (arith, v.bounded p h, takes.taken p);
  used = λ p. omega (arith, v.disjoint p, takes.taken p);
}

page_aligned :
    (k a page_count : ℕ)
    → page_count ≡ 2 ^ k
    → a % block_size k ≡ 0
    → a % (basic_page_size * page_count) ≡ 0
page_aligned k a page_count e h =
    let size : basic_page_size * page_count ≡ block_size k =
      rw (e, ← bucket_size-eq k) (unfold bucket_size in omega arith) in
    rw size h

-- In a valid state with a spare node for each zone, a number of pages that is a power of two below 2^52
-- can be given back as it was asked for, with an alignment whose bytes fit 64 digits: after a granted
-- `allocate`, `free` of its result and of the same number of pages succeeds while a node is spare,
-- and exactly the addresses are free that were free before.
pub free-allocate :
    {limit : ℕ} {s s' : BuddyAllocator} (alignment k a : ℕ)
    → IsValid limit s
    → length s.zones ≤ length s.freelist
    → k < 52
    → basic_page_size * alignment < usize_mod
    → allocate s alignment (2 ^ k) ≡ ok (a, s')
    → 0 < length s'.freelist
    → (s'' : BuddyAllocator) × (free s' a (2 ^ k) ≡ ok s'')
      × IsValid limit s''
      × (nodes s'' ≡ nodes s)
      × ((p : ℕ) → free_at s'' p ≡ free_at s p)
free-allocate {limit} {s} {s'} alignment k a v spare small fits e left =
    let pos : 0 < 2 ^ k = one-le-pow k 2 (omega arith) in
    let bound : 2 ^ k ≤ 2 ^ 51 =
      pow-le-pow_right {n = 2} (omega arith) {i = k} {j = 51} (omega arith) in
    let (k', order, _, aligned, takes) =
      allocate-Takes alignment (2 ^ k) a v spare (omega arith) fits e in
    let room : k' ≤ length s'.zones =
      omega (arith, takes.same_zones, Order-le order (allocate_checks s alignment (2 ^ k) e).1) in
    let (s'', done, valid, same_nodes, back) =
      free-Gains takes.valid a (2 ^ k) k' left pos (omega arith)
        (page_aligned k' a (2 ^ k) (ap (λ j. 2 ^ j) (sym (Order-pow order))) aligned) order room
        (Takes-InUse v aligned takes) in
    (
      s'',
      done,
      valid,
      omega (arith, same_nodes, takes.same_nodes),
      λ p. omega (arith, back p, takes.taken p),
    )
