-- ===== src/Paging/Tables/Others.antt =====
-- kernel/src/arch/x86_64/paging/mod.rs: the addresses that `map_pages` of one page does not map.
use funderberker.Common.{
  ltb, usize_mod, true, Bool-cases, inl, inr, ℕ, ◌+◌, ◌/◌, ◌%◌, ◌^◌, ◌<◌, ◌≤◌, ◌≡◌, ◌≢◌, ◌⊎◌, refl,
  sym, ◌∙◌, ap, arith, false, Outcome, ok, err, panic, ◌==◌, ==_iff, ◌&&◌,
}
use funderberker.Pmm.Buddy.Supply.{Supplies}
use funderberker.Paging.{PagingError, page_already_present}
use funderberker.Paging.Flags.{Flags}
use funderberker.Paging.Entry.{Entry, map, next_level_index}
use funderberker.Paging.Tables.{
  Machine, write_entry, map_loop, map_pages, get_create_table_range, translate,
}
use funderberker.Paging.Tables.Tree.{IsTree, Walk, Walk-level}
use funderberker.Paging.Tables.Loop.{create_loop-Created}
use funderberker.Paging.Tables.Index.{next_level_index-mod, next_level_index_lt}
use funderberker.Paging.Tables.Refine.{translate-look, look-written, Walk-unique, SameLook}
use funderberker.Paging.Tables.Translate.{map_loop-MapsAll}

-- Addresses whose indices are the same in every table lie in one page.
same_page :
    (v w : ℕ)
    → next_level_index v 0 ≡ next_level_index w 0
    → next_level_index v 1 ≡ next_level_index w 1
    → next_level_index v 2 ≡ next_level_index w 2
    → next_level_index v 3 ≡ next_level_index w 3
    → v / 4096 % 2 ^ 36 ≡ w / 4096 % 2 ^ 36
same_page v w e₀ e₁ e₂ e₃ = omega (
  arith,
  next_level_index-mod v 0,
  next_level_index-mod v 1,
  next_level_index-mod v 2,
  next_level_index-mod v 3,
  next_level_index-mod w 0,
  next_level_index-mod w 1,
  next_level_index-mod w 2,
  next_level_index-mod w 3,
)

-- The machine after one entry was mapped, or the attempt failed
one_entry :
    (t i p : ℕ) (f : Flags) (m m' : Machine)
    → (map_loop 1 t i p 4096 f m ≡ ok m')
      ⊎ (map_loop 1 t i p 4096 f m ≡ err (page_already_present, m'))
    → (u j : ℕ) → ((u ≡ t) × (j ≡ i)) ⊎ (m'.tables u j ≡ m.tables u j)
unfolding map_loop
one_entry t i p f m m' h u j = elim (Bool-cases (ltb p usize_mod)) [
  | inr big ↦ absurd (elim (rw (map_loop, big) at h) [ inl e ↦ cc | inr e ↦ cc ])
  | inl small ↦ of_map (map (m.tables t i) p f 4096) (rw (map_loop, small) at h)
]
  where
    put : Entry → Machine
    put e = record m { tables = write_entry m.tables t i e }

    outcome : Outcome (PagingError × Entry) Entry → Outcome (PagingError × Machine) Machine
    outcome o = elim o [ ok e ↦ ok (put e) | err (why, e) ↦ err (why, put e) | panic ↦ panic ]

    put_only : (e : Entry) → m' ≡ put e → ((u ≡ t) × (j ≡ i)) ⊎ (m'.tables u j ≡ m.tables u j)
    put_only e same = elim (Bool-cases ((u == t) && (j == i))) [
      | inl here ↦ inl (ground arith, ground arith)
      | inr away ↦ inr (ap (λ (x : Machine). x.tables u j) same ∙ rw away refl)
    ]

    of_map :
        (o : Outcome (PagingError × Entry) Entry)
        → (outcome o ≡ ok m') ⊎ (outcome o ≡ err (page_already_present, m'))
        → ((u ≡ t) × (j ≡ i)) ⊎ (m'.tables u j ≡ m.tables u j)
    of_map (ok e) (inl h) = let same : put e ≡ m' = cc in put_only e (sym same)
    of_map (ok e) (inr h) = cc
    of_map (err (why, e)) (inl h) = cc
    of_map (err (why, e)) (inr h) = let same : put e ≡ m' = cc in put_only e (sym same)
    of_map panic (inl h) = cc
    of_map panic (inr h) = cc

-- An address of another page is looked up as before, from the root on.
pub same_look :
    {E : Type 0} {level level₁ : ℕ → ℕ} {m m₁ m₂ : Machine} (w v i leaf root : ℕ)
    → IsTree level m
    → IsTree level₁ m₁
    → IsTree level₁ m₂
    → level root ≡ 3
    → level₁ root ≡ 3
    → level₁ leaf ≡ 0
    → Walk m₁.tables v 3 root leaf
    → SameLook E level m m₁
    → v / 4096 % 2 ^ 36 ≢ w / 4096 % 2 ^ 36
    → next_level_index v 0 ≡ i
    → ((u j : ℕ) → ((u ≡ leaf) × (j ≡ i)) ⊎ (m₂.tables u j ≡ m₁.tables u j))
    → translate {E = E} m₂ root w ≡ translate m root w
same_look {E} {level} {level₁} {m} {m₁} {m₂} w v i leaf root tree tree₁ tree₂ top top₁ at walk looks
      other index only =
    elim (look-written {F = E} tree₁ tree₂ w leaf i only at 3 root top₁ (omega arith)) [
      | inr found ↦
          translate-look {E = E} m₂ root w
          ∙ found
          ∙ looks.same w 3 root top (omega arith)
          ∙ sym (translate-look {E = E} m root w)
      | inl (walk', index') ↦
          let (_, above) =
            Walk-unique tree₁ v w leaf 3 root root top₁ top₁ (omega arith) walk walk' in
          absurd (
            other (
              same_page v w (index ∙ sym index') (above 1 (omega arith) (omega arith))
                (above 2 (omega arith) (omega arith)) (above 3 (omega arith) (omega arith))))
    ]

-- In a machine whose tables are a tree, with three pages free for tables that miss: mapping one page of 4KB
-- at aligned addresses, with a frame below 2^64 and flags of the low twelve digits, whether it succeeds or the page is mapped already, leaves what `translate` gives for every
-- address of another page, mapped or not.
pub map_pages-others :
    {E : Type 0} {level : ℕ → ℕ} {m : Machine}
    → IsTree level m
    → (root v p : ℕ) (f : Flags) (w : ℕ) → level root ≡ 3
    → v % 4096 ≡ 0
    → p % 4096 ≡ 0
    → p + 4096 ≤ 2 ^ 64
    → f < 2 ^ 12
    → Supplies 3 m.pmm
    → v / 4096 % 2 ^ 36 ≢ w / 4096 % 2 ^ 36
    → (m' : Machine) × (translate {E = E} m' root w ≡ translate m root w)
      × ((map_pages m root v p 1 4096 f ≡ ok m')
          ⊎ (map_pages m root v p 1 4096 f ≡ err (page_already_present, m')))
unfolding map_pages get_create_table_range
map_pages-others {E} {level} {m} tree root v p f w top v_aligned p_aligned room f_lt supplies
      other =
    let (leaf, m₁, level₁, made, new) =
      create_loop-Created {E = PagingError × Machine} E v 3 0 tree root top (omega arith)
        supplies in
    let tree₁ = new.tree in
    let keeps = new.keeps in
    let walk = new.walk in
    let looks = new.looks in
    let top₁ : level₁ root ≡ 3 = omega (arith, keeps.levels root (omega arith)) in
    let at : level₁ leaf ≡ 0 = Walk-level tree₁ v 3 root leaf top₁ (omega arith) walk in
    let i = next_level_index v 0 in
    let summed : ltb (i + 1) usize_mod ≡ true = ground (arith, next_level_index_lt v 0) in
    let not_big : ltb 512 (i + 1) ≡ false = ground (arith, next_level_index_lt v 0) in
    let v_ok : v % 4096 == 0 ≡ true = (==_iff _ _).1 v_aligned in
    let p_ok : p % 4096 == 0 ≡ true = (==_iff _ _).1 p_aligned in
    elim (map_loop-MapsAll level₁ leaf at f f_lt 1 i p tree₁ p_aligned room) [
      | inl (m₂, done, mapped, _) ↦ (
        m₂,
        same_look w v i leaf root tree tree₁ mapped.tree top top₁ at walk looks other refl
            (one_entry leaf i p f m₁ m₂ (inl done)),
        inl (rw (map_pages, v_ok, p_ok, get_create_table_range, made, summed, not_big) done),
      )
      | inr (m₂, done, mapped) ↦ (
        m₂,
        same_look w v i leaf root tree tree₁ mapped.tree top top₁ at walk looks other refl
            (one_entry leaf i p f m₁ m₂ (inr done)),
        inr (rw (map_pages, v_ok, p_ok, get_create_table_range, made, summed, not_big) done),
      )
    ]
