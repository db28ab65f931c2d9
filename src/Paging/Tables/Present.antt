-- ===== src/Paging/Tables/Present.antt =====
-- kernel/src/arch/x86_64/paging/mod.rs: `map_pages` at a page that is mapped.
use funderberker.Common.{
  ◌^◌, ◌<◌, ltb, usize_mod, true, Bool-cases, inl, inr, ℕ, zero, suc, ◌+◌, ◌-◌, ◌%◌, ◌≤◌, ◌≡◌, refl,
  ◌∙◌, arith, false, ok, err, some, ◌==◌, ==_iff, ◌&&◌,
}
use funderberker.Paging.{PagingError, page_already_present}
use funderberker.Paging.Flags.{Flags}
use funderberker.Paging.Entry.{next_level_index}
use funderberker.Paging.Entry.Laws.{map_present}
use funderberker.Paging.Tables.{
  Machine, ensure_entry, create_loop, map_loop, map_pages, get_create_table_range, translate,
  write_entry,
}
use funderberker.Paging.Tables.Words.{target, get_present-bit, get_addr-target}
use funderberker.Paging.Tables.Tree.{IsTree, Walk}
use funderberker.Paging.Tables.Translate.{Walk-translate}

-- Where the path is there, the loop makes no table.
create_loop-Walk :
    {E : Type 0} {level : ℕ → ℕ} {m : Machine}
    → IsTree level m
    → (v r t leaf : ℕ) → Walk m.tables v r t leaf
    → create_loop {E = E} v r r t m ≡ ok (leaf, m)
unfolding create_loop ensure_entry
create_loop-Walk tree v zero t leaf walk = rw walk refl
create_loop-Walk {E} {level} {m} tree v (suc r) t leaf (on, walk) =
    let i = next_level_index v (suc r) in
    let e = m.tables t i in
    let one_less : suc r - 1 ≡ r = omega arith in
    rw
      (
        create_loop,
        ensure_entry,
        get_present-bit e ∙ on,
        get_addr-target {E = E} e (tree.words t i),
        one_less,
      )
      (create_loop-Walk {E = E} tree v r (target e) leaf walk)

write_same :
    (m : Machine) (t i u j : ℕ) → write_entry m.tables t i (m.tables t i) u j ≡ m.tables u j
write_same m t i u j = elim (Bool-cases ((u == t) && (j == i))) [
  | inr away ↦ rw away refl
  | inl here ↦
      let at_t : u ≡ t = ground arith in
      let at_i : j ≡ i = ground arith in rw (here, at_t, at_i) refl
]

-- In a machine whose tables are a tree: mapping 4KB pages of one table from a page on that is translated
-- already fails with `PageAlreadyPresent`, and leaves every entry and the page allocator as they are.
pub map_pages-present :
    {E : Type 0} {level : ℕ → ℕ} {m : Machine}
    → IsTree level m
    → (root v p q count : ℕ) (f : Flags) → level root ≡ 3
    → v % 4096 ≡ 0
    → p % 4096 ≡ 0
    → p < 2 ^ 64
    → 0 < count
    → next_level_index v 0 + count ≤ 512
    → translate {E = E} m root v ≡ ok (some q)
    → (m' : Machine) × (map_pages m root v p count 4096 f ≡ err (page_already_present, m'))
      × ((t i : ℕ) → m'.tables t i ≡ m.tables t i)
      × (m'.pmm ≡ m.pmm)
unfolding map_pages get_create_table_range map_loop
map_pages-present tree root v p q zero f top v_aligned p_aligned p_lt pos fits given =
    absurd (omega arith)
map_pages-present {E} {level} {m} tree root v p q (suc count) f top v_aligned p_aligned p_lt pos
      fits given =
    let (leaf, walk, to) = Walk-translate {E = E} tree root v q top given in
    let i = next_level_index v 0 in
    let e = m.tables leaf i in
    let found = create_loop-Walk {E = PagingError × Machine} tree v 3 root leaf walk in
    let summed : ltb (i + suc count) usize_mod ≡ true = ground arith in
    let p_small : ltb p usize_mod ≡ true = ground arith in
    let not_big : ltb 512 (i + suc count) ≡ false = ground arith in
    let v_ok : v % 4096 == 0 ≡ true = (==_iff _ _).1 v_aligned in
    let p_ok : p % 4096 == 0 ≡ true = (==_iff _ _).1 p_aligned in
    (
      record m { tables = write_entry m.tables leaf i e },
      rw
          (
            map_pages,
            v_ok,
            p_ok,
            get_create_table_range,
            found,
            summed,
            not_big,
            map_loop,
            p_small,
            map_present e p f 4096 (get_present-bit e ∙ to.present),
          )
          refl,
      write_same m leaf i,
      refl,
    )
