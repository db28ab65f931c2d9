-- ===== src/Pmm/Buddy/Supply.antt =====
-- Single pages in a row from the allocator, as the page tables ask for them.
use native.Mathlib.Nat.{one-le-pow, pow-suc}
use funderberker.Common.{
  ℕ, zero, suc, ◌+◌, ◌-◌, ◌*◌, ◌%◌, ◌^◌, ◌≤◌, ◌<◌, ◌≡◌, refl, arith, true, ok, inl, inr, dec_lt,
  List, [], ◌∷◌, length, get_or, none, subst, ◌==◌, ==_iff, usize_mod,
}
use funderberker.LinkedList
use funderberker.LinkedList.Laws.{total}
use funderberker.Pmm.{basic_page_size}
use funderberker.Pmm.Power.{is_power_of_two}
use funderberker.Pmm.Buddy.{BuddyAllocator, allocate, zone, block_size}
use funderberker.Pmm.Buddy.Blocks.{in_block, in_block_first, aligned_down}
use funderberker.Pmm.Buddy.Weight.{weight, weight_from, free_at, misplaced, nodes, weight-zone_le}
use funderberker.Pmm.Buddy.Disband.{Splits}
use funderberker.Pmm.Buddy.Find.{NonePasses, at_alignment}
use funderberker.Pmm.Buddy.Valid.{IsValid, Order}
use funderberker.Pmm.Buddy.Allocate.{Takes, allocate-Grants}

-- The page at an address is granted, it was free and is not any more, and no address becomes free.
pub record GrantsPage (s : BuddyAllocator) (a : ℕ) (s' : BuddyAllocator) : Type 0 where
  pub done : allocate s 1 1 ≡ ok (a, s')
  pub aligned : a % 2 ^ 12 ≡ 0
  pub bounded : a < 2 ^ 52
  pub was_free : free_at s a ≡ 1
  pub used : free_at s' a ≡ 0
  pub shrinks : (p : ℕ) → free_at s' p ≤ free_at s p

-- So many single pages are granted one after another.
abbrev pub Supplies : ℕ → BuddyAllocator → Type 0
Supplies zero s = Unit {0}
Supplies (suc n) s = (a : ℕ) × (s' : BuddyAllocator) × GrantsPage s a s' × Supplies n s'

pub Supplies-suc : (n : ℕ) (s : BuddyAllocator) → Supplies (suc n) s → Supplies n s
Supplies-suc zero s h = tt
Supplies-suc (suc n) s (a, s', grant, rest) = (a, s', grant, Supplies-suc n s' rest)

-- The pages of a block of a zone
abbrev pub pages : ℕ → ℕ → ℕ
pages i a = 2 ^ i

pages-Splits : Splits pages
pages-Splits i a h = let e : i + 1 ≡ suc i = omega arith in rw (e, pow-suc 2 i) (omega arith)

total_le : (f g : ℕ → ℕ) → ((a : ℕ) → f a ≤ g a) → (xs : List ℕ) → total f xs ≤ total g xs
unfolding total
total_le f g h [] = omega arith
total_le f g h (x ∷ xs) = omega (arith, h x, total_le f g h xs)

weight_from_le :
    (f g : ℕ → ℕ → ℕ)
    → ((i a : ℕ) → f i a ≤ g i a)
    → (i : ℕ) (zones : List (List ℕ)) → weight_from f i zones ≤ weight_from g i zones
unfolding weight_from
weight_from_le f g h i [] = omega arith
weight_from_le f g h i (z ∷ zones) =
    omega (arith, total_le (f i) (g i) (h i) z, weight_from_le f g h (i + 1) zones)

-- Every block has a page at least.
blocks_le_pages : (s : BuddyAllocator) → weight (λ _ _. 1) s ≤ weight pages s
unfolding weight
blocks_le_pages s = weight_from_le (λ _ _. 1) pages (λ i a. one-le-pow i 2 (omega arith)) 0 s.zones

weight_from_empty :
    (f : ℕ → ℕ → ℕ) (i : ℕ) (zones : List (List ℕ))
    → ((j : ℕ) → j < length zones → get_or zones j [] ≡ [])
    → weight_from f i zones ≡ 0
unfolding weight_from total
weight_from_empty f i [] h = refl
weight_from_empty f i (z ∷ zones) h =
    rw (h 0 (omega arith), weight_from_empty f (i + 1) zones (λ j lt. h (suc j) (omega arith))) refl

block_of_page : (j x : ℕ) → x % block_size j ≡ 0 → x % 4096 ≡ 0
unfolding block_size
block_of_page j x h = let e : 0 + j ≡ j = omega arith in aligned_down j 0 x (rw e h)

-- A zone of aligned blocks, none of which begins at a multiple of a page, is empty.
no_page_empty :
    (j : ℕ) (fits : basic_page_size * 1 < usize_mod) (xs : List ℕ)
    → total (misplaced j) xs ≡ 0
    → LinkedList.find (at_alignment 1 fits j) xs ≡ none
    → xs ≡ []
unfolding total misplaced LinkedList.find LinkedList.find_from
no_page_empty j fits [] placed missed = refl
no_page_empty j fits (x ∷ xs) placed missed =
    let aligned : x % block_size j ≡ 0 = ground arith in
    let page : x % 4096 ≡ 0 = block_of_page j x aligned in
    let hit : x % 4096 == 0 ≡ true = (==_iff _ _).1 page in let found = rw hit at missed in cc

pub Order-one : {k : ℕ} → Order 1 k → k ≡ 0
Order-one {k = zero} order = refl
Order-one {k = suc k} order = absurd (omega (arith, order.least 0 (omega arith)))

-- An allocator with free pages, and nodes for every zone and free page.
module _ (limit : ℕ) (limit_le : limit ≤ 2 ^ 52) where
  page-GrantsPage :
      {s : BuddyAllocator}
      → IsValid limit s
      → length s.zones + weight pages s ≤ nodes s
      → 0 < weight pages s
      → (a : ℕ) × (s' : BuddyAllocator) × GrantsPage s a s' × Takes limit s 0 a s'
  unfolding nodes weight is_power_of_two
  page-GrantsPage {s} v spare some_left =
      let fits : basic_page_size * 1 < usize_mod = omega arith in
      let (k, order, granted) =
        allocate-Grants v (omega (arith, blocks_le_pages s)) 1 (omega arith)
          (one-le-pow (length s.zones) 2 (omega arith)) (omega arith) 1 refl fits in
      let zero_zone : k ≡ 0 = Order-one order in
      elim granted [
        | inl (a, s', done, page, aligned, takes) ↦
            let takes' : Takes limit s 0 a s' = subst (λ j. Takes limit s j a s') zero_zone takes in
            let here : in_block a 0 a ≡ 1 = in_block_first 0 a in
            (
              a,
              s',
              record {
                done = done;
                aligned = page;
                bounded = below_limit a (omega (arith, takes'.taken a));
                was_free = omega (arith, takes'.taken a, v.disjoint a);
                used = omega (arith, takes'.taken a, v.disjoint a);
                shrinks = λ p. omega (arith, takes'.taken p);
              },
              takes',
            )
        | inr (refused, passes) ↦ absurd (omega (arith, all_empty (rw zero_zone at passes)))
      ]
    where
      below_limit : (a : ℕ) → 0 < free_at s a → a < 2 ^ 52
      below_limit a h = elim (dec_lt a limit) [
        | yes lt ↦ omega arith
        | no ge ↦ absurd (omega (arith, v.bounded a (omega arith)))
      ]

      all_empty :
          NonePasses (at_alignment 1 (omega arith)) 0 (length s.zones - 0) s → weight pages s ≡ 0
      all_empty passes = weight_from_empty pages 0 s.zones (λ j lt.
          no_page_empty j (omega arith) (zone s j)
            (omega (arith, weight-zone_le misplaced j s lt, v.aligned))
            (passes j (omega arith) (omega arith)))

  -- A valid allocator of physical memory below 2^52, with a node for each zone and each free page,
  -- grants as many single pages in a row as are free.
  pub pages-Supplies :
      (n : ℕ) {s : BuddyAllocator}
      → IsValid limit s
      → length s.zones + weight pages s ≤ nodes s
      → n ≤ weight pages s
      → Supplies n s
  pages-Supplies zero v spare left = tt
  pages-Supplies (suc n) {s} v spare left =
      let (a, s', grant, takes) = page-GrantsPage v spare (omega arith) in
      let one_less : weight pages s ≡ weight pages s' + 1 = takes.sums pages pages-Splits in
      (
        a,
        s',
        grant,
        pages-Supplies n takes.valid (omega (arith, takes.same_zones, takes.same_nodes))
            (omega arith),
      )
