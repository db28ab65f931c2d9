-- ===== src/Paging/Tables/Fresh.antt =====
-- kernel/src/arch/x86_64/paging/mod.rs: `map_pages` of one page that is not mapped.
use funderberker.Common.{
  ltb, usize_mod, true, Bool-cases, inl, inr, ℕ, ◌+◌, ◌/◌, ◌%◌, ◌^◌, ◌≤◌, ◌<◌, ◌≡◌, ◌≢◌, refl, sym,
  ◌∙◌, arith, false, ok, none, some, ◌==◌, ==_iff,
}
use funderberker.Bits.{bit}
use funderberker.Pmm.Buddy.Weight.{free_at}
use funderberker.Pmm.Buddy.Supply.{Supplies}
use funderberker.Paging.{PagingError}
use funderberker.Paging.Flags.{Flags}
use funderberker.Paging.Entry.{Entry, next_level_index}
use funderberker.Paging.Tables.{
  Machine, map_loop, map_pages, get_create_table_range, translate, read_entry,
}
use funderberker.Paging.Tables.Words.{get_present-bit, get_addr-target}
use funderberker.Paging.Tables.Tree.{IsTree, Walk-level, Walk-Keeps, get_entry_loop-Walk}
use funderberker.Paging.Tables.Loop.{create_loop-Created}
use funderberker.Paging.Tables.Index.{next_level_index_lt}
use funderberker.Paging.Tables.Refine.{look, leaf_look, look-zero, translate-look}
use funderberker.Paging.Tables.Translate.{
  map-MapsTo, written, written-IsTree, written-Keeps, written_entry, translate-Walk,
}
use funderberker.Paging.Tables.Others.{same_look}
use funderberker.Paging.Tables.Unmap.{only_entry}

-- What mapping the page `v` to `p` leaves: only this page is translated in another way, `n` more
-- pages are there to spare, and none is free that was not.
pub record MapsPage (E : Type 0) (m : Machine) (root v p n : ℕ) (level' : ℕ → ℕ) (m' : Machine)
    : Type 0 where
  pub tree : IsTree level' m'
  pub top : level' root ≡ 3
  pub here : translate {E = E} m' root v ≡ ok (some p)
  pub others :
      (w : ℕ)
      → v / 4096 % 2 ^ 36 ≢ w / 4096 % 2 ^ 36
      → translate {E = E} m' root w ≡ translate m root w
  pub supplies : Supplies n m'.pmm
  pub shrinks : (a : ℕ) → free_at m'.pmm a ≤ free_at m.pmm a

-- An entry of a table of level 0 through which nothing is found is not present.
leaf_off : {E : Type 0} (e : Entry) → e < 2 ^ 64 → leaf_look {E = E} e ≡ ok none → bit e 0 ≡ false
unfolding read_entry
leaf_off {E} e lt h = elim (Bool-cases (bit e 0)) [
  | inr off ↦ off
  | inl on ↦ elim (Bool-cases (bit e 10)) [
    | inl last ↦
        let h' = rw (last, read_entry, get_present-bit e ∙ on, get_addr-target {E = E} e lt) at h in
        cc
    | inr more ↦ let h' = rw (more, on) at h in cc
  ]
]

-- In a machine whose tables are a tree, with three pages free for tables that miss and `n` more:
-- mapping one page of 4KB that is not mapped succeeds. The page is translated to its frame then,
-- every other address as before, and the `n` pages are left.
pub map_pages-MapsPage :
    {E : Type 0} {level : ℕ → ℕ} {m : Machine}
    → IsTree level m
    → (root v p n : ℕ) (f : Flags) → level root ≡ 3
    → v % 4096 ≡ 0
    → p % 4096 ≡ 0
    → p + 4096 ≤ 2 ^ 64
    → f < 2 ^ 12
    → Supplies (3 + n) m.pmm
    → translate {E = E} m root v ≡ ok none
    → (m' : Machine) × (level' : ℕ → ℕ) × (map_pages m root v p 1 4096 f ≡ ok m')
      × MapsPage E m root v p n level' m'
unfolding map_pages get_create_table_range map_loop
map_pages-MapsPage {E} {level} {m} tree root v p n f top v_aligned p_aligned room f_lt supplies
      unmapped =
    let (leaf, m₁, level₁, made, new) =
      create_loop-Created {E = PagingError × Machine} E v 3 n tree root top (omega arith)
        supplies in
    let top₁ : level₁ root ≡ 3 = omega (arith, new.keeps.levels root (omega arith)) in
    let at : level₁ leaf ≡ 0 = Walk-level new.tree v 3 root leaf top₁ (omega arith) new.walk in
    let i = next_level_index v 0 in
    let e = m₁.tables leaf i in
    let down : look {E = E} m₁ v 3 root ≡ look m₁ v 0 leaf =
      rw (get_entry_loop-Walk new.tree v {E = E} 3 root leaf top₁ (omega arith) new.walk) refl in
    let empty : leaf_look {E = E} e ≡ ok none =
      sym (look-zero new.tree v {E = E} leaf)
      ∙ sym down
      ∙ new.looks.same v 3 root top (omega arith)
      ∙ sym (translate-look {E = E} m root v)
      ∙ unmapped in
    let off : bit e 0 ≡ false = leaf_off {E = E} e (new.tree.words leaf i) empty in
    let (w, done, w_lt, to) =
      map-MapsTo e p f (new.tree.words leaf i) (omega arith) f_lt p_aligned off in
    let m₂ = written new.tree leaf i at w w_lt in
    let tree₂ = written-IsTree new.tree leaf i at w w_lt in
    let keeps = written-Keeps new.tree leaf i at w w_lt off in
    let summed : ltb (i + 1) usize_mod ≡ true = ground (arith, next_level_index_lt v 0) in
    let not_big : ltb 512 (i + 1) ≡ false = ground (arith, next_level_index_lt v 0) in
    let p_small : ltb p usize_mod ≡ true = ground arith in
    let v_ok : v % 4096 == 0 ≡ true = (==_iff _ _).1 v_aligned in
    let p_ok : p % 4096 == 0 ≡ true = (==_iff _ _).1 p_aligned in
    (
      m₂,
      level₁,
      rw
          (
            map_pages, v_ok, p_ok, get_create_table_range, made, summed, not_big, map_loop, p_small,
            done,
          )
          refl,
      record {
        tree = tree₂;
        top = top₁;
        here =
            translate-Walk {E = E} tree₂ root v leaf p top₁
              (Walk-Keeps new.tree v keeps 3 root leaf top₁ (omega arith) new.walk)
              (rw (written_entry new.tree leaf i at w w_lt) to);
        others = λ u other.
            same_look u v i leaf root tree new.tree tree₂ top top₁ at new.walk new.looks other refl
              (only_entry m₁ leaf i w);
        supplies = new.supplies;
        shrinks = new.shrinks;
      },
    )
