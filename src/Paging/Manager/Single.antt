-- ===== src/Paging/Manager/Single.antt =====
-- kernel/src/mem/paging.rs: `free_pages` of one page of 4KB.
use funderberker.Common.{
  ℕ, ◌+◌, ◌*◌, ◌/◌, ◌%◌, ◌^◌, ◌<◌, ◌≡◌, ◌≢◌, refl, false, ◌∙◌, arith, true, ok, none, some, ltb,
  usize_mod, length, subst,
}
use funderberker.Pmm.Buddy.{block_size}
use funderberker.Pmm.Buddy.Blocks.{in_block}
use funderberker.Pmm.Buddy.Weight.{free_at}
use funderberker.Pmm.Buddy.Valid.{IsValid, Order, zone_index-Order}
use funderberker.Pmm.Buddy.Supply.{Order-one}
use funderberker.Pmm.Buddy.Free.{InUse, free-Gains}
use funderberker.Paging.Flags.{get_allocated}
use funderberker.Paging.Entry.{get_flags}
use funderberker.Paging.Tables.{Machine, translate, get_entry}
use funderberker.Paging.Tables.Tree.{IsTree}
use funderberker.Paging.{PagingError}
use funderberker.Paging.Tables.Translate.{Walk-translate, translate-Walk}
use funderberker.Paging.Tables.Unmap.{unmap_pages-translate}
use funderberker.Paging.Manager.{free_loop, free_pages}
use funderberker.Paging.Manager.Allocate.{translate-pmm}

one-Order : Order 1 0
one-Order =
    let (k, order) = zone_index-Order 1 (omega arith) in
    subst (λ j. Order 1 j) (Order-one order) order

-- What is translated is translated with any type of errors.
retranslate :
    {E F : Type 0} {level : ℕ → ℕ} {m : Machine}
    → IsTree level m
    → (root v p : ℕ) → level root ≡ 3
    → translate {E = E} m root v ≡ ok (some p)
    → translate {E = F} m root v ≡ ok (some p)
retranslate {E} {F} tree root v p top given =
    let (leaf, walk, to) = Walk-translate {E = E} tree root v p top given in
    translate-Walk {E = F} tree root v leaf p top walk to

-- In a machine whose tables are a tree and whose page allocator is valid with a spare node:
-- `free_pages` of one 4KB page that is mapped, not marked as allocated, and whose frame is in use and
-- holds no table, succeeds. The page is not translated any more, every other page is as before, the
-- frame is free, which is all that has changed in the valid allocator, and the tables are a tree.
pub free_pages-frees :
    {E : Type 0} {level : ℕ → ℕ} {m : Machine} {limit : ℕ}
    → IsTree level m
    → IsValid limit m.pmm
    → (root v p t i : ℕ) → level root ≡ 3
    → v % 4096 ≡ 0
    → v < 2 ^ 64
    → translate {E = E} m root v ≡ ok (some p)
    → get_entry {E = E} m root v ≡ ok (some (t, i, 4096))
    → get_allocated (get_flags (m.tables t i)) ≡ false
    → 0 < length m.pmm.freelist
    → InUse limit m.pmm 0 p
    → ((u : ℕ) → level u < 4 → in_block u 0 p ≡ 0)
    → (m' : Machine) × (free_pages root v 1 4096 m ≡ ok m')
      × (translate {E = E} m' root v ≡ ok none)
      × ((w : ℕ)
          → v / 4096 % 2 ^ 36 ≢ w / 4096 % 2 ^ 36
          → translate {E = E} m' root w ≡ translate m root w)
      × ((a : ℕ) → free_at m'.pmm a ≡ free_at m.pmm a + in_block a 0 p)
      × IsValid limit m'.pmm
      × IsTree level m'
unfolding free_pages free_loop block_size translate get_entry
free_pages-frees {E} {level} {m} {limit} tree valid root v p t i top aligned small given at_entry
      kept spare use_ apart =
    let (m₁, unmapped, gone, others, tree₁, same) =
      unmap_pages-translate {E = E} tree root v p t i top aligned given at_entry kept in
    let (pmm, freed, valid', nodes_same, adds) =
      free-Gains valid p 1 0 spare (omega arith) (omega arith) (omega (arith, use_.aligned))
        one-Order (omega arith) use_ in
    let found = retranslate {E = E} {F = PagingError × Machine} tree root v p top given in
    let v_small : ltb (v + 0 * 4096) usize_mod ≡ true = ground arith in
    let to_one : 4096 / 4096 ≡ 1 = omega arith in
    let v_first : v + 0 * 4096 ≡ v = omega arith in
    (
      record m₁ { pmm = pmm },
      rw (free_pages, free_loop, v_small, v_first, found, unmapped, same, to_one, freed) refl,
      translate-pmm {E = E} m₁ pmm root v ∙ gone,
      λ w other. translate-pmm {E = E} m₁ pmm root w ∙ others w other,
      adds,
      valid',
      record {
        words = tree₁.words;
        small = tree₁.small;
        linked = tree₁.linked;
        owned = λ u lt. omega (arith, adds u, tree.owned u lt, apart u lt);
        unshared = tree₁.unshared;
      },
    )
