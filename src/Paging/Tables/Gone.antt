-- ===== src/Paging/Tables/Gone.antt =====
-- kernel/src/arch/x86_64/paging/mod.rs: what `unmap_pages` of several pages leaves when it succeeds.
use funderberker.Common.{
  ltb, usize_mod, true, ℕ, zero, suc, ◌+◌, ◌%◌, ◌<◌, ◌≡◌, refl, ◌∙◌, arith, false, Outcome, ok, err,
  panic, some, none, ◌==◌, ==_iff, ◌>>=◌, >>=-eq-ok, map_err, Bool-cases, inl, inr,
}
use funderberker.Bits.{bit}
use funderberker.Pmm.Buddy.{BuddyAllocator}
use funderberker.Paging.{PagingError}
use funderberker.Paging.Flags.{get_present}
use funderberker.Paging.Entry.{Entry, get_flags, release, next_level_index}
use funderberker.Paging.Tables.{
  Machine, write_entry, unmap_loop, unmap_pages, get_table_range, translate, get_entry,
  get_entry_loop, read_entry,
}
use funderberker.Paging.Tables.Words.{get_present-bit, get_last_entry-bit}
use funderberker.Paging.Tables.Tree.{IsTree, Walk, Walk-level, get_entry_loop-Walk}
use funderberker.Paging.Tables.Translate.{written-IsTree, written_entry, Walk-translate}
use funderberker.Paging.Tables.Unmap.{
  cleared, cleared_lt, bit-cleared, Walk-written, range_loop-Walk,
}

pub map_err-eq-ok :
    {E F A : Type 0} (f : E → F) (o : Outcome E A) {a : A} → map_err f o ≡ ok a → o ≡ ok a
map_err-eq-ok f (ok a) h = cc
map_err-eq-ok f (err e) h = cc
map_err-eq-ok f panic h = cc

-- An entry that is released has lost its present flag.
release-cleared :
    (pmm pmm' : BuddyAllocator) (e e' : Entry) → release pmm e 4096 ≡ ok (pmm', e') → e' ≡ cleared e
unfolding release
release-cleared pmm pmm' e e' h = elim (Bool-cases (get_present (get_flags e))) [
  | inr off ↦ let refused = rw (release, off) at h in cc
  | inl on ↦ given_back _ (rw (release, on) at h)
]
  where
    given_back :
        (o : Outcome PagingError BuddyAllocator)
        → ◌>>=◌ {B = BuddyAllocator × Entry} o (λ pmm'. ok (pmm', cleared e)) ≡ ok (pmm', e')
        → e' ≡ cleared e
    given_back (ok pmm') h = cc
    given_back (err why) h = cc
    given_back panic h = cc

-- The machine with another page allocator
abbrev pub beside : BuddyAllocator → Machine → Machine
beside pmm m = record m { pmm = pmm }

module _ {level : ℕ → ℕ} (t : ℕ) (leaf : level t ≡ 0) (pmm : BuddyAllocator) where
  -- The loop writes in the table only, from its first index on, and leaves the paths.
  unmap_loop-IsTree :
      (count i : ℕ) (m m' : Machine)
      → IsTree level (beside pmm m)
      → unmap_loop count t i 4096 m ≡ ok m'
      → IsTree level (beside pmm m')
        × ((v r u end : ℕ)
            → level u ≡ r
            → r < 4
            → Walk m.tables v r u end
            → Walk m'.tables v r u end)
        × ((j : ℕ) → j < i → m'.tables t j ≡ m.tables t j)
        × (0 < count → m'.tables t i ≡ cleared (m.tables t i))
  unfolding unmap_loop
  unmap_loop-IsTree zero i m m' tree h =
      let same : m ≡ m' = cc in
      (
        rw (← same) tree,
        λ v r u end at lt walk. rw (← same) walk,
        λ j lt. rw (← same) refl,
        λ pos. absurd (omega arith),
      )
  unmap_loop-IsTree (suc count) i m m' tree h =
      let ((pmm', e'), released, rest) =
        >>=-eq-ok (map_err (λ why. (why, m)) (release m.pmm (m.tables t i) 4096)) _ h in
      let e : e' ≡ cleared (m.tables t i) =
        release-cleared m.pmm pmm' (m.tables t i) e'
          (map_err-eq-ok _ (release m.pmm (m.tables t i) 4096) released) in
      let c = cleared (m.tables t i) in
      let c_lt = cleared_lt (m.tables t i) (tree.words t i) in
      let m₁ : Machine = record { tables = write_entry m.tables t i c; pmm = pmm' } in
      let rest' : unmap_loop count t (i + 1) 4096 m₁ ≡ ok m' = rw e at rest in
      let (tree', walks, below, _) =
        unmap_loop-IsTree count (i + 1) m₁ m' (written-IsTree tree t i leaf c c_lt) rest' in
      (
        tree',
        λ v r u end at lt walk.
            walks v r u end at lt (Walk-written tree v t i c leaf r u end at lt walk),
        λ j lt.
            below j (omega arith)
            ∙ (let away : j == i ≡ false = ground arith in rw ((==_iff t t).1 refl, away) refl),
        λ pos. below i (omega arith) ∙ written_entry tree t i leaf c c_lt,
      )

-- A path to an entry that is a last one and is not present gives no translation.
translate-gone :
    {E : Type 0} {level : ℕ → ℕ} {m : Machine}
    → IsTree level m
    → (root v leaf : ℕ) → level root ≡ 3
    → Walk m.tables v 3 root leaf
    → bit (m.tables leaf (next_level_index v 0)) 10 ≡ true
    → bit (m.tables leaf (next_level_index v 0)) 0 ≡ false
    → translate {E = E} m root v ≡ ok none
unfolding translate get_entry get_entry_loop read_entry
translate-gone {E} {level} {m} tree root v leaf top walk last gone =
    let e = m.tables leaf (next_level_index v 0) in
    let found : get_entry {E = E} m root v ≡ ok (some (leaf, next_level_index v 0, 4096)) =
      rw
        (
          get_entry,
          get_entry_loop-Walk tree v {E = E} 3 root leaf top (omega arith) walk,
          get_entry_loop,
          get_last_entry-bit e ∙ last,
        )
        refl in
    rw (translate, found, read_entry, get_present-bit e ∙ gone) refl

-- In a machine whose tables are a tree: when unmapping one or more 4KB pages from a page on that is
-- translated succeeds, that page is not translated any more.
pub unmap_pages-gone :
    {E : Type 0} {level : ℕ → ℕ} {m m' : Machine}
    → IsTree level m
    → (root v p count : ℕ) → level root ≡ 3
    → 0 < count
    → translate {E = E} m root v ≡ ok (some p)
    → unmap_pages m root v count 4096 ≡ ok m'
    → translate {E = E} (beside m.pmm m') root v ≡ ok none
unfolding unmap_pages get_table_range
unmap_pages-gone {E} {level} {m} {m'} tree root v p count top pos given done =
    let (leaf, walk, to) = Walk-translate {E = E} tree root v p top given in
    let i = next_level_index v 0 in
    let e = m.tables leaf i in
    let bottom : level leaf ≡ 0 = Walk-level tree v 3 root leaf top (omega arith) walk in
    let looped : unmap_loop count leaf i 4096 m ≡ ok m' = elim (Bool-cases (v % 4096 == 0)) [
      | inr off ↦ let refused = rw (unmap_pages, off) at done in cc
      | inl aligned ↦
          let found = range_loop-Walk {E = PagingError × Machine} tree v 3 root leaf walk in
          elim (Bool-cases (ltb (i + count) usize_mod)) [
            | inr over ↦
                let refused = rw (unmap_pages, aligned, get_table_range, found, over) at done in cc
            | inl summed ↦ elim (Bool-cases (ltb 512 (i + count))) [
              | inl big ↦
                  let refused =
                    rw (unmap_pages, aligned, get_table_range, found, summed, big) at done in
                  cc
              | inr fits ↦ rw (unmap_pages, aligned, get_table_range, found, summed, fits) at done
            ]
          ]
    ] in
    let (tree', walks, _, first) = unmap_loop-IsTree leaf bottom m.pmm count i m m' tree looped in
    let here = first pos in
    let last : bit (cleared e) 10 ≡ true = ground (arith, bit-cleared e 10, to.last) in
    let gone : bit (cleared e) 0 ≡ false = ground (arith, bit-cleared e 0) in
    translate-gone {E = E} tree' root v leaf top (walks v 3 root leaf top (omega arith) walk)
      (rw here last) (rw here gone)
