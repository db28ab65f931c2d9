-- ===== src/Pmm/Buddy/Flaws.antt =====
-- Where the allocator does not do what its callers may expect.
use funderberker.Common.{
  dec_lt, ℕ, suc, ◌-◌, ◌*◌, ◌%◌, ◌^◌, ◌≤◌, ◌<◌, ◌≡◌, ◌≢◌, arith, true, false, length, err, panic,
  ◌==◌, ==_iff, ltb, lt→ltb, usize_mod, ◌⊎◌, inl, inr,
}
use funderberker.Pmm.{basic_page_size, invalid_alignment}
use funderberker.Pmm.Buddy.{
  BuddyAllocator, block_size, misaligned, is_page_free, free, disband, disband_loop, get_buddy_addr,
  allocate_at, holds, find_bucket_at,
}
use funderberker.Pmm.Buddy.Valid.{Order}
use funderberker.Pmm.Buddy.Find.{NonePasses, find_bucket_at_loop-Searches}
use funderberker.Pmm.Buddy.Allocate.{Order-le}

-- `free` refuses a block whose address is no multiple of the bytes of its pages, whatever is free
-- or in use. `allocate` aligns to the rounded size alone, so what it hands out for a number of
-- pages that is no power of two may be impossible to give back.
pub free_refuses_misaligned :
    (s : BuddyAllocator) (addr page_count : ℕ)
    → 0 < page_count
    → basic_page_size * page_count < usize_mod
    → addr % (basic_page_size * page_count) ≢ 0
    → free s addr page_count ≡ err invalid_alignment
unfolding free is_page_free misaligned
free_refuses_misaligned s addr page_count pos fits bad =
    let no_overflow = lt→ltb (basic_page_size * page_count) usize_mod fits in
    let nonzero : page_count == 0 ≡ false = ground arith in
    let off : addr % (basic_page_size * page_count) == 0 ≡ false = ground arith in
    rw (nonzero, no_overflow, off)

-- A block that is cut out of a larger one must be aligned to its own size: otherwise `disband` runs
-- into the assertion of `get_buddy_addr`.
pub disband_panics :
    (s : BuddyAllocator) (addr k j : ℕ)
    → k < j
    → addr % block_size k ≢ 0
    → disband s addr k j ≡ panic
unfolding disband disband_loop get_buddy_addr
disband_panics s addr k j lt bad =
    let e : j - k ≡ suc (j - k - 1) = omega arith in
    let off : addr % block_size k == 0 ≡ false = ground arith in rw e (rw off)

-- `allocate_at` checks the alignment for the pages asked for and then takes the rounded number. When
-- at least one page is asked for, no more than the zones can name or 2^63, the bytes asked for fit 64 digits,
-- and the address is a multiple of these bytes but no multiple of the rounded size, it panics, unless a block of just the rounded size
-- holds the address or no block does.
pub allocate_at_panics :
    (s : BuddyAllocator) (addr page_count : ℕ)
    → 0 < page_count
    → page_count ≤ 2 ^ length s.zones
    → page_count ≤ 2 ^ 63
    → basic_page_size * page_count < usize_mod
    → addr % (basic_page_size * page_count) ≡ 0
    → (k : ℕ) → Order page_count k
    → addr % block_size k ≢ 0
    → NonePasses (λ i b. holds i addr b) k 1 s
    → (allocate_at s addr page_count ≡ panic)
      ⊎ NonePasses (λ i b. holds i addr b) k (length s.zones - k) s
unfolding allocate_at find_bucket_at misaligned
allocate_at_panics s addr page_count pos room small fits page_aligned k order bad not_exact =
    let le : k ≤ length s.zones = Order-le order room in
    let nonzero : page_count == 0 ≡ false = ground arith in
    let not_big : ltb (2 ^ length s.zones) page_count ≡ false = ground arith in
    let aligned : addr % (basic_page_size * page_count) == 0 ≡ true = (==_iff _ _).1 page_aligned in
    let no_overflow = lt→ltb (basic_page_size * page_count) usize_mod fits in
    elim (find_bucket_at_loop-Searches addr s (length s.zones - k) k (omega arith)) [
      | inr (_, passes) ↦ inr passes
      | inl (b, j, s₁, found, f) ↦
          let higher : k < j = elim (dec_lt k j) [
            | yes lt ↦ lt
            | no ge ↦
                let (n, at) = f.at in
                let none_here = not_exact j f.from (omega (arith, f.from)) in cc
          ] in
          inl (
            rw (nonzero, not_big, no_overflow, aligned, order.found, found)
              (disband_panics s₁ addr k j higher bad))
    ]
