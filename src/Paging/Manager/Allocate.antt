-- ===== src/Paging/Manager/Allocate.antt =====
-- kernel/src/mem/paging.rs: `allocate_pages` maps fresh frames behind the addresses that it gives.
use native.Mathlib.Nat.{le_refl}
use funderberker.Common.{
  ℕ, zero, suc, ◌+◌, ◌*◌, ◌/◌, ◌%◌, ◌^◌, ◌≤◌, ◌<◌, ◌≡◌, ◌≢◌, refl, ◌∙◌, ap, arith, true, false, ok,
  none, some, ltb, ◌==◌, usize_mod,
}
use funderberker.Pmm.Buddy.{BuddyAllocator}
use funderberker.Pmm.Buddy.Weight.{free_at}
use funderberker.Pmm.Buddy.Supply.{GrantsPage, Supplies}
use funderberker.Vaa.{AlignsUnits, handout_aligned}
use funderberker.Paging.Flags.{Flags}
use funderberker.Paging.Tables.{Machine, translate, get_entry}
use funderberker.Paging.Tables.Tree.{IsTree}
use funderberker.Paging.Tables.Fresh.{MapsPage, map_pages-MapsPage}
use funderberker.Paging.Manager.{allocate_loop, allocate_pages}

-- The `k`th page behind an address
abbrev pub page_at : ℕ → ℕ → ℕ → ℕ
page_at base i k = base + (i + k) * 4096

-- What the loop leaves: `rounds` pages from the `i`th on behind `base` are translated to frames that were free
-- and are not any more, all different; every other page is translated as before.
pub record Allocated (E : Type 0) (m : Machine) (root base i rounds : ℕ) (level' : ℕ → ℕ)
    (m' : Machine) : Type 0 where
  pub tree : IsTree level' m'
  pub top : level' root ≡ 3
  pub frame : ℕ → ℕ
  pub here :
      (k : ℕ) → k < rounds → translate {E = E} m' root (page_at base i k) ≡ ok (some (frame k))
  pub was_free : (k : ℕ) → k < rounds → 0 < free_at m.pmm (frame k)
  pub used : (k : ℕ) → k < rounds → free_at m'.pmm (frame k) ≡ 0
  pub apart : (j k : ℕ) → j < k → k < rounds → frame j ≢ frame k
  pub others :
      (w : ℕ)
      → ((k : ℕ) → k < rounds → page_at base i k / 4096 % 2 ^ 36 ≢ w / 4096 % 2 ^ 36)
      → translate {E = E} m' root w ≡ translate m root w
  pub shrinks : (a : ℕ) → free_at m'.pmm a ≤ free_at m.pmm a

-- Taking a page from the allocator leaves the tables a tree.
granted-IsTree :
    {level : ℕ → ℕ} {m : Machine} (a : ℕ) (pmm : BuddyAllocator)
    → IsTree level m
    → GrantsPage m.pmm a pmm
    → IsTree level (record m { pmm = pmm })
granted-IsTree a pmm tree grant = record {
  words = tree.words;
  small = tree.small;
  linked = tree.linked;
  owned = λ t lt. omega (arith, grant.shrinks t, tree.owned t lt);
  unshared = tree.unshared;
}

-- `translate` does not look at the page allocator.
pub translate-pmm :
    {E : Type 0} (m : Machine) (pmm : BuddyAllocator) (root w : ℕ)
    → translate {E = E} (record m { pmm = pmm }) root w ≡ translate m root w
unfolding translate get_entry
translate-pmm m pmm root w = refl

-- A frame before those of the pages behind
abbrev cons : ℕ → (ℕ → ℕ) → ℕ → ℕ
cons a frame k = elim k [ zero ↦ a | suc j ↦ frame j ]

-- The `suc k`th page is the `k`th behind the next one.
next_page : (base i k : ℕ) → page_at base i (suc k) ≡ page_at base (i + 1) k
next_page base i k = omega arith

-- The frames of a page that is mapped and of those that are allocated behind it
module _ {E : Type 0} {root base rounds a n : ℕ} (i : ℕ) {pmm : BuddyAllocator}
    {level₁ level₂ : ℕ → ℕ} {m m₁ m₂ : Machine} (grant : GrantsPage m.pmm a pmm)
    (page : MapsPage E (record m { pmm = pmm }) root (page_at base i 0) a n level₁ m₁)
    (rest : Allocated E m₁ root base (i + 1) rounds level₂ m₂) where
  cons_here :
      translate {E = E} m₂ root (page_at base i 0) ≡ translate m₁ root (page_at base i 0)
      → (k : ℕ) → k < suc rounds
      → translate {E = E} m₂ root (page_at base i k) ≡ ok (some (cons a rest.frame k))
  cons_here same zero lt = same ∙ page.here
  cons_here same (suc k) lt = rw (next_page base i k) (rest.here k (omega arith))

  cons_was_free : (k : ℕ) → k < suc rounds → 0 < free_at m.pmm (cons a rest.frame k)
  cons_was_free zero lt = omega (arith, grant.was_free)
  cons_was_free (suc k) lt = omega (
    arith,
    page.shrinks (rest.frame k),
    grant.shrinks (rest.frame k),
    rest.was_free k (omega arith),
  )

  cons_used : (k : ℕ) → k < suc rounds → free_at m₂.pmm (cons a rest.frame k) ≡ 0
  cons_used zero lt = omega (arith, rest.shrinks a, page.shrinks a, grant.used)
  cons_used (suc k) lt = rest.used k (omega arith)

  cons_apart : (j k : ℕ) → j < k → k < suc rounds → cons a rest.frame j ≢ cons a rest.frame k
  cons_apart j zero lt lt' = absurd (omega arith)
  cons_apart zero (suc k) lt lt' = λ same. omega (
    arith,
    page.shrinks a,
    grant.used,
    rest.was_free k (omega arith),
    ap (λ p. free_at m₁.pmm p) same,
  )
  cons_apart (suc j) (suc k) lt lt' = rest.apart j k (omega arith) (omega arith)

  Allocated-cons :
      base % 4096 ≡ 0 → suc rounds ≤ 2 ^ 36 → Allocated E m root base i (suc rounds) level₂ m₂
  Allocated-cons aligned few = record {
    tree = rest.tree;
    top = rest.top;
    frame = cons a rest.frame;
    here = cons_here (rest.others (page_at base i 0) (λ k lt. omega arith));
    was_free = cons_was_free;
    used = cons_used;
    apart = cons_apart;
    others = λ w h.
        rest.others w (λ k lt. rw (← next_page base i k) (h (suc k) (omega arith)))
        ∙ page.others w (h 0 (omega arith))
        ∙ translate-pmm {E = E} m pmm root w;
    shrinks = λ p. omega (arith, rest.shrinks p, page.shrinks p, grant.shrinks p);
  }

module _ (E : Type 0) (root base : ℕ) (f : Flags) (aligned : base % 4096 ≡ 0)
    (f_lt : f < 2 ^ 12) where
  allocate_loop-Allocated :
      (rounds i : ℕ) {level : ℕ → ℕ} {m : Machine}
      → IsTree level m
      → level root ≡ 3
      → base + (i + rounds) * 4096 < 2 ^ 64
      → rounds ≤ 2 ^ 36
      → Supplies (rounds * 4) m.pmm
      → ((k : ℕ) → k < rounds → translate {E = E} m root (page_at base i k) ≡ ok none)
      → (m' : Machine) × (level' : ℕ → ℕ) × (allocate_loop root rounds i base 4096 f m ≡ ok m')
        × Allocated E m root base i rounds level' m'
  unfolding allocate_loop
  allocate_loop-Allocated zero i {level} {m} tree top room few supplies fresh = (
    m,
    level,
    refl,
    record {
      tree = tree;
      top = top;
      frame = λ k. 0;
      here = λ k lt. absurd (omega arith);
      was_free = λ k lt. absurd (omega arith);
      used = λ k lt. absurd (omega arith);
      apart = λ j k lt lt'. absurd (omega arith);
      others = λ w h. refl;
      shrinks = λ a. le_refl _;
    },
  )
  allocate_loop-Allocated (suc rounds) i {level} {m} tree top room few supplies fresh =
      let four : suc rounds * 4 ≡ suc (3 + rounds * 4) = omega arith in
      let (a, pmm, grant, left) = rw four at supplies in
      let (m₁, level₁, done, page) =
        map_pages-MapsPage {E = E} (granted-IsTree a pmm tree grant) root (page_at base i 0) a
          (rounds * 4) f top (omega arith) grant.aligned (omega (arith, grant.bounded)) f_lt left
          (translate-pmm {E = E} m pmm root (page_at base i 0) ∙ fresh 0 (omega arith)) in
      let fresh₁ : (k : ℕ)
          → k < rounds
          → translate {E = E} m₁ root (page_at base (i + 1) k) ≡ ok none =
        λ k lt.
          page.others (page_at base (i + 1) k) (omega arith)
          ∙ translate-pmm {E = E} m pmm root (page_at base (i + 1) k)
          ∙ rw (← next_page base i k) (fresh (suc k) (omega arith)) in
      let (m₂, level₂, rest_done, rest) =
        allocate_loop-Allocated rounds (i + 1) page.tree page.top (omega arith) (omega arith)
          page.supplies fresh₁ in
      let small : ltb (i * 4096) usize_mod ≡ true = ground arith in
      let small' : ltb (base + i * 4096) usize_mod ≡ true = ground arith in
      let first : base + i * 4096 ≡ page_at base i 0 = omega arith in
      (
        m₂,
        level₂,
        rw (allocate_loop, small, small', first, grant.done, done) rest_done,
        Allocated-cons i grant page rest aligned few,
      )

-- In a machine whose tables are a tree, with four pages free for each page that is asked for, with
-- nothing mapped behind the next addresses of the virtual address allocator, which are not 0 and fit, and
-- with flags of twelve bits: `allocate_pages` of 4KB pages succeeds and gives the next address. Behind it each page is translated to a frame of its own
-- that was free before and is not any more, every other page is translated as before, and the tables
-- are a tree.
pub allocate_pages-Allocated :
    (E : Type 0) (align_offset : ℕ → ℕ → ℕ)
    → AlignsUnits align_offset
    → (root next max count : ℕ) (f : Flags) {level : ℕ → ℕ} {m : Machine} → IsTree level m
    → level root ≡ 3
    → f < 2 ^ 12
    → 0 < next
    → next ≤ max
    → (next + count) * 4096 < 2 ^ 64
    → count ≤ 2 ^ 36
    → Supplies (count * 4) m.pmm
    → ((k : ℕ) → k < count → translate {E = E} m root (page_at (next * 4096) 0 k) ≡ ok none)
    → (m' : Machine) × (level' : ℕ → ℕ) × (allocate_pages root align_offset
          (record { machine = m; vaa = record { hander = record { next = next; max = max } } })
          count
          f
          4096
        ≡ ok (
          next * 4096,
          record {
            machine = m';
            vaa = record { hander = record { next = next + count; max = max } };
          },
        ))
      × Allocated E m root (next * 4096) 0 count level' m'
unfolding allocate_pages
allocate_pages-Allocated E align_offset spec root next max count f {level} {m} tree top f_lt pos le
      room few supplies fresh =
    let (m', level', done, allocated) =
      allocate_loop-Allocated E root (next * 4096) f (omega arith) f_lt count 0 tree top
        (omega arith) few supplies fresh in
    let base =
      handout_aligned align_offset spec next max count 1 (omega arith) le (omega arith)
        (omega arith) in
    let nonzero : next * 4096 == 0 ≡ false = ground arith in
    (m', level', rw (base, done, nonzero) refl, allocated)
