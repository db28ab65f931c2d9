-- ===== src/Paging/Tables/Unmap.antt =====
-- kernel/src/arch/x86_64/paging/mod.rs: `unmap_pages` of a page of 4KB that is mapped.
use mathlib.Core.Bool.{xor}
use funderberker.Common.{
  ltb, usize_mod, true, ℕ, zero, suc, ◌+◌, ◌-◌, ◌/◌, ◌%◌, ◌^◌, ◌<◌, ◌≡◌, ◌≢◌, ◌⊎◌, refl, sym, ◌∙◌,
  arith, false, not, ◌&&◌, Outcome, ok, ◌==◌, Bool-cases, inl, inr, ==_iff, Option, some, none,
  bit_and,
}
use funderberker.Bits.{bit, bit_not, bit-and, bit-pow, bit-bit_not, and-le}
use funderberker.Paging.{PagingError}
use funderberker.Paging.Flags
use funderberker.Paging.Flags.{Flags, get_present, get_last_entry, get_allocated, set_present}
use funderberker.Paging.Entry.{Entry, get_flags, set_flags, release, next_level_index}
use funderberker.Paging.Entry.Laws.{bit-set_flags, set_flags_lt}
use funderberker.Paging.PageSize.{PageSize}
use funderberker.Paging.Tables.{
  Machine, write_entry, get_table_range, range_loop, unmap_pages, unmap_loop, translate, get_entry,
  get_entry_loop, read_entry,
}
use funderberker.Paging.Tables.Words.{
  target, get_present-bit, get_last_entry-bit, bit-get_flags_all, get_addr-target,
}
use funderberker.Paging.Tables.Tree.{IsTree, Walk, Walk-level, get_entry_loop-Walk}
use funderberker.Paging.Tables.Index.{next_level_index_lt}
use funderberker.Paging.Tables.Others.{same_look}
use funderberker.Paging.Tables.Translate.{Walk-translate, written-IsTree, written_entry}

-- The loop of `get_table_range` goes along the path.
pub range_loop-Walk :
    {E : Type 0} {level : ℕ → ℕ} {m : Machine}
    → IsTree level m
    → (v r t leaf : ℕ) → Walk m.tables v r t leaf
    → range_loop {E = E} m.tables v r r t ≡ ok (some leaf)
unfolding range_loop
range_loop-Walk tree v zero t leaf path = rw path refl
range_loop-Walk {E} {level} {m} tree v (suc r) t leaf (on, path) =
    let e = m.tables t (next_level_index v (suc r)) in
    let one_less : suc r - 1 ≡ r = omega arith in
    rw
      (
        range_loop,
        get_present-bit e ∙ on,
        get_addr-target {E = E} e (tree.words t (next_level_index v (suc r))),
        one_less,
      )
      (range_loop-Walk {E = E} tree v r (target e) leaf path)

-- The word of an entry without its present flag
abbrev pub cleared : Entry → Entry
cleared e = set_flags e (set_present (get_flags e) false)

pub bit-cleared : (e k : ℕ) → k < 12 → bit (cleared e) k ≡ (bit e k && not (0 == k))
unfolding Flags.set xor
bit-cleared e k lt =
    let g = bit_and (get_flags e) (bit_not 64 (2 ^ 0)) in
    ground (
      arith,
      bit-set_flags e g k (omega arith) (λ j le.
          ground (arith, bit-and (get_flags e) (bit_not 64 (2 ^ 0)) j, bit-get_flags_all e j)),
      bit-and (get_flags e) (bit_not 64 (2 ^ 0)) k,
      bit-bit_not 64 (2 ^ 0) k,
      bit-pow 0 k,
      bit-get_flags_all e k,
    )

pub cleared_lt : (e : ℕ) → e < 2 ^ 64 → cleared e < 2 ^ 64
unfolding Flags.set get_flags
cleared_lt e lt = set_flags_lt e _ lt (
    omega (
      arith,
      and-le 64 (bit_and e 4095) (bit_not 64 (2 ^ 0)) (omega (arith, and-le 64 e 4095 lt)),
      and-le 64 e 4095 lt,
    ))

-- A write in a table of level 0 leaves the paths.
pub Walk-written :
    {level : ℕ → ℕ} {m : Machine} (tree : IsTree level m) (v leaf i e : ℕ)
    → level leaf ≡ 0
    → (r t end : ℕ) → level t ≡ r
    → r < 4
    → Walk m.tables v r t end
    → Walk (write_entry m.tables leaf i e) v r t end
Walk-written tree v leaf i e bottom zero t end at lt path = path
Walk-written {level} {m} tree v leaf i e bottom (suc r) t end at lt (on, path) =
    let j = next_level_index v (suc r) in
    let same : write_entry m.tables leaf i e t j ≡ m.tables t j = elim (Bool-cases (t == leaf)) [
      | inl here ↦
          let e' : t ≡ leaf = (==_iff t leaf).0 here in
          let up : level t ≡ level leaf = rw e' refl in absurd (omega arith)
      | inr away ↦ rw away refl
    ] in
    rw same (
      on,
      Walk-written tree v leaf i e bottom r (target (m.tables t j)) end
          (omega (arith, tree.linked t j (omega arith) (omega arith) on)) (omega arith) path,
    )

-- A write changes the entry that is written only.
pub only_entry :
    (m : Machine) (t i : ℕ) (e : Entry) (u j : ℕ)
    → ((u ≡ t) × (j ≡ i)) ⊎ (write_entry m.tables t i e u j ≡ m.tables u j)
only_entry m t i e u j = elim (Bool-cases ((u == t) && (j == i))) [
  | inl here ↦ inl (ground arith, ground arith)
  | inr away ↦ inr (rw away refl)
]

-- In a machine whose tables are a tree: a page of 4KB that is translated, and whose entry is not marked as
-- allocated, is unmapped. It is then not translated any more, and every other page is as before; the
-- tables are a tree, and the page allocator is as before.
pub unmap_pages-translate :
    {E : Type 0} {level : ℕ → ℕ} {m : Machine}
    → IsTree level m
    → (root v p t i : ℕ) → level root ≡ 3
    → v % 4096 ≡ 0
    → translate {E = E} m root v ≡ ok (some p)
    → get_entry {E = E} m root v ≡ ok (some (t, i, 4096))
    → get_allocated (get_flags (m.tables t i)) ≡ false
    → (m' : Machine) × (unmap_pages m root v 1 4096 ≡ ok m')
      × (translate {E = E} m' root v ≡ ok none)
      × ((w : ℕ)
          → v / 4096 % 2 ^ 36 ≢ w / 4096 % 2 ^ 36
          → translate {E = E} m' root w ≡ translate m root w)
      × IsTree level m'
      × (m'.pmm ≡ m.pmm)
unfolding unmap_pages unmap_loop get_table_range release get_entry get_entry_loop translate
    read_entry
unmap_pages-translate {E} {level} {m} tree root v p t i top aligned given at_entry kept =
    let (leaf, path, to) = Walk-translate {E = E} tree root v p top given in
    let j = next_level_index v 0 in
    let e = m.tables leaf j in
    let bottom : level leaf ≡ 0 = Walk-level tree v 3 root leaf top (omega arith) path in
    let found : get_entry {E = E} m root v ≡ ok (some (leaf, j, 4096)) =
      rw
        (
          get_entry,
          get_entry_loop-Walk tree v {E = E} 3 root leaf top (omega arith) path,
          get_entry_loop,
          get_last_entry-bit e ∙ to.last,
        )
        refl in
    let same : ◌≡◌ {A = Outcome E (Option (ℕ × ℕ × PageSize))} (ok (some (leaf, j, 4096)))
        (ok (some (t, i, 4096))) =
      sym found ∙ at_entry in
    let kept' : get_allocated (get_flags e) ≡ false = cc in
    let c = cleared e in
    let c_lt = cleared_lt e (tree.words leaf j) in
    let tree' = written-IsTree tree leaf j bottom c c_lt in
    let m' : Machine = record m { tables = write_entry m.tables leaf j c } in
    let here : m'.tables leaf j ≡ c = written_entry tree leaf j bottom c c_lt in
    let summed : ltb (j + 1) usize_mod ≡ true = ground (arith, next_level_index_lt v 0) in
    let not_big : ltb 512 (j + 1) ≡ false = ground (arith, next_level_index_lt v 0) in
    let path' = Walk-written tree v leaf j c bottom 3 root leaf top (omega arith) path in
    let last : bit c 10 ≡ true = ground (arith, bit-cleared e 10, to.last) in
    let gone : bit c 0 ≡ false = ground (arith, bit-cleared e 0) in
    let found' : get_entry {E = E} m' root v ≡ ok (some (leaf, j, 4096)) =
      rw
        (
          get_entry,
          get_entry_loop-Walk tree' v {E = E} 3 root leaf top (omega arith) path',
          get_entry_loop,
          here,
          get_last_entry-bit c ∙ last,
        )
        refl in
    (
      m',
      rw
          (
            unmap_pages,
            (==_iff _ _).1 aligned,
            get_table_range,
            range_loop-Walk {E = PagingError × Machine} tree v 3 root leaf path,
            summed,
            not_big,
            unmap_loop,
            release,
            get_present-bit e ∙ to.present,
            kept',
          )
          refl,
      rw (translate, found', read_entry, here, get_present-bit c ∙ gone) refl,
      λ w other.
          same_look w v j leaf root tree tree tree' top top bottom path
            (record { same = λ x r u l lt. refl }) other refl (only_entry m leaf j c),
      tree',
      refl,
    )
