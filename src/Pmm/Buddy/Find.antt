-- ===== src/Pmm/Buddy/Find.antt =====
-- `find_bucket` and `find_bucket_at`: the first block that passes, from a zone on.
use funderberker.Common.{
  lt→ltb, err, ℕ, zero, suc, ◌+◌, ◌*◌, ◌%◌, ◌≤◌, ◌<◌, ◌≡◌, refl, arith, Bool, true, false, ◌⊎◌, inl,
  inr, length, List, [], ◌∷◌, ok, err, ◌==◌, usize_mod, none, some, Option-cases, dec_lt,
}
use funderberker.LinkedList
use funderberker.Pmm.{no_available_block, basic_page_size}
use funderberker.Pmm.Buddy.{
  BuddyAllocator, Run, zone, find_aligned, find_bucket_loop, find_bucket_at_loop, is_page_free_loop,
  holds,
}
use funderberker.Pmm.Buddy.Weight.{Loses, pop_from_zone-Loses}

-- No block of the zones `i ≤ j < i + rounds` passes the test.
abbrev pub NonePasses : (ℕ → ℕ → Bool) → ℕ → ℕ → BuddyAllocator → Type 0
NonePasses test i rounds s =
    (j : ℕ) → i ≤ j → j < i + rounds → LinkedList.find (test j) (zone s j) ≡ none

-- A block of one of these zones passes, and `s'` is the state without it.
pub record Found (test : ℕ → ℕ → Bool) (i rounds : ℕ) (s : BuddyAllocator) (a j : ℕ)
    (s' : BuddyAllocator) : Type 0 where
  pub from : i ≤ j
  pub below : j < i + rounds
  pub at : (k : ℕ) × (LinkedList.find (test j) (zone s j) ≡ some (k, a))
  pub passes : test j a ≡ true
  pub lost : Loses s j a s'
  pub spare : length s'.freelist ≡ length s.freelist + 1

module _ (test : ℕ → ℕ → Bool) (s : BuddyAllocator) (rounds i : ℕ) where
  NonePasses-cons :
      LinkedList.find (test i) (zone s i) ≡ none
      → NonePasses test (i + 1) rounds s
      → NonePasses test i (suc rounds) s
  NonePasses-cons here rest j lo hi = elim (dec_lt i j) [
    | yes later ↦ rest j (omega arith) (omega arith)
    | no at ↦ let e : j ≡ i = omega arith in rw e here
  ]

  Found-later :
      {a j : ℕ} {s' : BuddyAllocator}
      → Found test (i + 1) rounds s a j s'
      → Found test i (suc rounds) s a j s'
  Found-later f = record {
    from = omega (arith, f.from);
    below = omega (arith, f.below);
    at = f.at;
    passes = f.passes;
    lost = f.lost;
    spare = f.spare;
  }

-- The outcome of a search over zones: the first block that passes is taken out, or none passes.
abbrev pub Searches :
    {A : Type 0}
    → (ℕ → ℕ → Bool)
    → ℕ
    → ℕ
    → BuddyAllocator
    → (ℕ → ℕ → BuddyAllocator → A)
    → Run A
    → Type 0
Searches test i rounds s result o =
    ((a : ℕ) × (j : ℕ) × (s' : BuddyAllocator) × (o ≡ ok (result a j s'))
      × Found test i rounds s a j s')
    ⊎ ((o ≡ err no_available_block) × NonePasses test i rounds s)

module _ (addr : ℕ) (s : BuddyAllocator) where
  pub find_bucket_at_loop-Searches :
      (rounds i : ℕ)
      → i + rounds ≤ length s.zones
      → Searches
          (λ i b. holds i addr b)
          i
          rounds
          s
          (λ a j s'. (j, s'))
          (find_bucket_at_loop rounds i addr s)
  unfolding find_bucket_at_loop
  find_bucket_at_loop-Searches zero i room = inr (refl, λ j lo hi. absurd (omega arith))
  find_bucket_at_loop-Searches (suc rounds) i room =
      elim (Option-cases (LinkedList.find (holds i addr) (zone s i))) [
        | inr ((k, a), found) ↦
            let (passes, s', popped, lost, more) =
              pop_from_zone-Loses s i k a (holds i addr) (omega arith) found in
            inl (
              a,
              i,
              s',
              ground (arith, found, popped),
              record {
                from = omega arith;
                below = omega arith;
                at = (k, found);
                passes = passes;
                lost = lost;
                spare = more;
              },
            )
        | inl nothing ↦ elim (find_bucket_at_loop-Searches rounds (i + 1) (omega arith)) [
          | inl (a, j, s', done, f) ↦ inl (
            a,
            j,
            s',
            ground (arith, nothing, done),
            Found-later (λ i b. holds i addr b) s rounds i f,
          )
          | inr (done, rest) ↦ inr (
            ground (arith, nothing, done),
            NonePasses-cons (λ i b. holds i addr b) s rounds i nothing rest,
          )
        ]
      ]

-- `is_page_free` runs the same search and leaves the zones as they are.
pub is_page_free_loop-eq :
    (addr : ℕ) (s : BuddyAllocator) (rounds i : ℕ)
    → ((is_page_free_loop rounds i addr s ≡ true)
        × (a : ℕ) × (j : ℕ) × (i ≤ j)
        × (j < i + rounds)
        × (k : ℕ) × (LinkedList.find (holds j addr) (zone s j) ≡ some (k, a)))
      ⊎ ((is_page_free_loop rounds i addr s ≡ false)
          × NonePasses (λ i b. holds i addr b) i rounds s)
unfolding is_page_free_loop
is_page_free_loop-eq addr s zero i = inr (refl, λ j lo hi. absurd (omega arith))
is_page_free_loop-eq addr s (suc rounds) i =
    elim (Option-cases (LinkedList.find (holds i addr) (zone s i))) [
      | inr ((k, a), found) ↦ inl (ground (arith, found), a, i, omega arith, omega arith, k, found)
      | inl nothing ↦ elim (is_page_free_loop-eq addr s rounds (i + 1)) [
        | inl (done, a, j, lo, hi, k, found) ↦
            inl (ground (arith, nothing, done), a, j, omega arith, omega arith, k, found)
        | inr (done, rest) ↦ inr (
          ground (arith, nothing, done),
          NonePasses-cons (λ i b. holds i addr b) s rounds i nothing rest,
        )
      ]
    ]

module _ (alignment : ℕ) (fits : basic_page_size * alignment < usize_mod) where
  abbrev pub at_alignment : ℕ → ℕ → Bool
  at_alignment i b = b % (basic_page_size * alignment) == 0

  find_aligned-find :
      (i : ℕ) (xs : List ℕ) → find_aligned alignment xs ≡ ok (LinkedList.find (at_alignment i) xs)
  unfolding find_aligned LinkedList.find
  find_aligned-find i [] = refl
  find_aligned-find i (x ∷ xs) = rw (lt→ltb _ _ fits)

  pub find_bucket_loop-Searches :
      (s : BuddyAllocator) (rounds i : ℕ)
      → i + rounds ≤ length s.zones
      → Searches at_alignment i rounds s
          (λ a j s'. (a, j, s'))
          (find_bucket_loop rounds i alignment s)
  unfolding find_bucket_loop
  find_bucket_loop-Searches s zero i room = inr (refl, λ j lo hi. absurd (omega arith))
  find_bucket_loop-Searches s (suc rounds) i room =
      elim (Option-cases (LinkedList.find (at_alignment i) (zone s i))) [
        | inr ((k, a), found) ↦
            let (passes, s', popped, lost, more) =
              pop_from_zone-Loses s i k a (at_alignment i) (omega arith) found in
            inl (
              a,
              i,
              s',
              ground (arith, find_aligned-find i (zone s i), found, popped),
              record {
                from = omega arith;
                below = omega arith;
                at = (k, found);
                passes = passes;
                lost = lost;
                spare = more;
              },
            )
        | inl nothing ↦ elim (find_bucket_loop-Searches s rounds (i + 1) (omega arith)) [
          | inl (a, j, s', done, f) ↦ inl (
            a,
            j,
            s',
            ground (arith, find_aligned-find i (zone s i), nothing, done),
            Found-later at_alignment s rounds i f,
          )
          | inr (done, rest) ↦ inr (
            ground (arith, find_aligned-find i (zone s i), nothing, done),
            NonePasses-cons at_alignment s rounds i nothing rest,
          )
        ]
      ]
