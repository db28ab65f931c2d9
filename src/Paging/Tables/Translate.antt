-- ===== src/Paging/Tables/Translate.antt =====
-- kernel/src/arch/x86_64/paging/mod.rs: `map_pages` and then `translate`, for pages of 4KB.
use funderberker.Common.{
  ltb, usize_mod, true, Bool-cases, inl, inr, ℕ, zero, suc, ◌+◌, ◌*◌, ◌%◌, ◌^◌, ◌≤◌, ◌<◌, ◌≡◌, ◌⊎◌,
  refl, sym, ◌∙◌, arith, false, not, ◌&&◌, Outcome, ok, err, ◌==◌, ==_iff, Option, some, none,
  >>=-eq-ok,
}
use funderberker.Bits.{bit}
use funderberker.Pmm.Buddy.Supply.{Supplies}
use funderberker.Paging.{PagingError, page_already_present}
use funderberker.Paging.PageSize.{PageSize}
use funderberker.Paging.Flags.{Flags, get_present}
use funderberker.Paging.Entry.{Entry, get_flags, map, next_level_index}
use funderberker.Paging.Entry.Laws.{map-get_addr, map_lt, map_present}
use funderberker.Paging.Tables.{
  Machine, write_entry, get_create_table_range, map_loop, map_pages, translate, get_entry,
  get_entry_loop, read_entry,
}
use funderberker.Paging.Tables.Words.{
  target, get_present-bit, get_last_entry-bit, bit-get_flags_all, get_addr-target,
}
use funderberker.Paging.Tables.Tree.{
  IsTree, Keeps, Keeps-trans, Walk, Walk-Keeps, Walk-level, get_entry_loop-Walk,
  Walk-get_entry_loop,
}
use funderberker.Paging.Tables.Loop.{create_loop-Created}
use funderberker.Paging.Tables.Index.{next_level_index_leaf, next_level_index_above}

-- An entry of a table of level 0 that maps a 4KB page to an address
pub record MapsTo (e : Entry) (addr : ℕ) : Type 0 where
  pub present : bit e 0 ≡ true
  pub last : bit e 10 ≡ true
  pub leads : target e ≡ addr

-- An entry that is not present takes any page, with flags of the low twelve digits.
pub map-MapsTo :
    (e a : ℕ) (f : Flags)
    → e < 2 ^ 64
    → a < 2 ^ 64
    → f < 2 ^ 12
    → a % 4096 ≡ 0
    → bit e 0 ≡ false
    → (n : Entry) × (map e a f 4096 ≡ ok n) × (n < 2 ^ 64) × MapsTo n a
map-MapsTo e a f e_lt a_lt f_lt aligned off =
    let absent : get_present (get_flags e) ≡ false = get_present-bit e ∙ off in
    let free : (bit f 7 && not (2 ^ 12 == 4096)) ≡ false = ground arith in
    let (n, done, addr, bits) =
      map-get_addr {E = PagingError} e a f 12 e_lt a_lt f_lt (omega arith) aligned absent free
        (λ k le lt. absurd (omega arith)) in
    let n_lt : n < 2 ^ 64 = map_lt e a f 12 e_lt a_lt (omega arith) aligned absent free done in
    let same = get_addr-target {E = PagingError} n n_lt in
    (
      n,
      done,
      n_lt,
      record {
        present = ground (arith, bits 0, bit-get_flags_all n 0);
        last = ground (arith, bits 10, bit-get_flags_all n 10);
        leads = cc;
      },
    )

-- A tree with an entry that was not present written in a table of level 0
module _ {level : ℕ → ℕ} {m : Machine} (tree : IsTree level m) (t i : ℕ) (leaf : level t ≡ 0)
    (e : Entry) (e_lt : e < 2 ^ 64) where
  abbrev pub written : Machine
  written = record m { tables = write_entry m.tables t i e }

  pub elsewhere_entry : (u j : ℕ) → 0 < level u → write_entry m.tables t i e u j ≡ m.tables u j
  elsewhere_entry u j lo = elim (Bool-cases (u == t)) [
    | inl here ↦
        let same : u ≡ t = (==_iff u t).0 here in
        let up : level u ≡ level t = rw same refl in absurd (omega arith)
    | inr away ↦ rw away refl
  ]

  pub written-IsTree : IsTree level written
  written-IsTree = record {
    words = λ u j. ground (arith, tree.words u j);
    small = λ u j lo hi. ground (arith, tree.small u j, ==_iff u t);
    linked = λ u j lo hi p. elsewhere u j lo hi p;
    owned = tree.owned;
    unshared = λ u j v k lo hi lo' hi' on on' same.
        tree.unshared u j v k lo hi lo' hi' (rw (elsewhere_entry u j lo) at on)
          (rw (elsewhere_entry v k lo') at on')
          (rw (← elsewhere_entry u j lo, ← elsewhere_entry v k lo') same);
  }
    where
      elsewhere :
          (u j : ℕ)
          → 0 < level u
          → level u < 4
          → bit (written.tables u j) 0 ≡ true
          → level (target (written.tables u j)) + 1 ≡ level u
      elsewhere u j lo hi p = elim (Bool-cases (u == t)) [
        | inl here ↦
            let same : u ≡ t = (==_iff u t).0 here in
            let up : level u ≡ level t = rw same refl in absurd (omega arith)
        | inr away ↦
            let same : written.tables u j ≡ m.tables u j = rw away refl in
            rw same (tree.linked u j lo hi (rw same at p))
      ]

  pub written-Keeps : bit (m.tables t i) 0 ≡ false → Keeps level m level written
  written-Keeps off = record {
    entries = λ u j lt on. ground (arith, ==_iff u t, ==_iff j i);
    levels = λ u lt. refl;
  }

  pub written_entry : written.tables t i ≡ e
  written_entry = rw ((==_iff t t).1 refl, (==_iff i i).1 refl) refl

  written_stays : (m' : Machine) → Keeps level written level m' → bit e 0 ≡ true → m'.tables t i ≡ e
  written_stays m' k on = k.entries t i (omega arith) (rw written_entry on) ∙ written_entry

-- What mapping leaves of the machine, whether it ends early or not.
pub record Mapped (level : ℕ → ℕ) (m : Machine) (level' : ℕ → ℕ) (m' : Machine) : Type 0 where
  pub tree : IsTree level' m'
  pub keeps : Keeps level m level' m'

MapsTo-cons :
    (entry : ℕ → Entry) (i p count : ℕ)
    → MapsTo (entry i) p
    → ((k : ℕ) → k < count → MapsTo (entry (i + 1 + k)) (p + 4096 + k * 4096))
    → (k : ℕ) → k < suc count
    → MapsTo (entry (i + k)) (p + k * 4096)
MapsTo-cons entry i p count here rest zero lt =
    let e : i + 0 ≡ i = omega arith in let e' : p + 0 * 4096 ≡ p = omega arith in rw (e, e') here
MapsTo-cons entry i p count here rest (suc k) lt =
    let e : i + suc k ≡ i + 1 + k = omega arith in
    let e' : p + suc k * 4096 ≡ p + 4096 + k * 4096 = omega arith in
    rw (e, e') (rest k (omega arith))

-- Mapping entries `i`, `i + 1`, ... of a table of level 0: every one then leads to its page, or one of
-- them was mapped before.
abbrev pub MapsAll :
    (ℕ → ℕ) → Machine → ℕ → ℕ → ℕ → ℕ → Outcome (PagingError × Machine) Machine → Type 0
MapsAll level m count t i p o =
    ((m' : Machine) × (o ≡ ok m')
      × Mapped level m level m'
      × ((k : ℕ) → k < count → MapsTo (m'.tables t (i + k)) (p + k * 4096)))
    ⊎ ((m' : Machine) × (o ≡ err (page_already_present, m')) × Mapped level m level m')

module _ (level : ℕ → ℕ) (t : ℕ) (leaf : level t ≡ 0) (f : Flags) (f_lt : f < 2 ^ 12) where
  pub map_loop-MapsAll :
      (count i p : ℕ) {m : Machine}
      → IsTree level m
      → p % 4096 ≡ 0
      → p + count * 4096 ≤ 2 ^ 64
      → MapsAll level m count t i p (map_loop count t i p 4096 f m)
  unfolding map_loop
  map_loop-MapsAll zero i p {m} tree aligned room = inl (
    m,
    refl,
    record { tree = tree; keeps = record { entries = λ u j lt on. refl; levels = λ u lt. refl } },
    λ k lt. absurd (omega arith),
  )
  map_loop-MapsAll (suc count) i p {m} tree aligned room =
      let e = m.tables t i in
      let p_small : ltb p usize_mod ≡ true = ground arith in
      elim (Bool-cases (bit e 0)) [
        | inl on ↦ inr (
          written tree t i leaf e (tree.words t i),
          rw (map_loop, p_small, map_present e p f 4096 (get_present-bit e ∙ on)) refl,
          record {
            tree = written-IsTree tree t i leaf e (tree.words t i);
            keeps = record {
              entries = λ u j lt on. ground (arith, ==_iff u t, ==_iff j i);
              levels = λ u lt. refl;
            };
          },
        )
        | inr off ↦
            let (n, done, n_lt, to) =
              map-MapsTo e p f (tree.words t i) (omega arith) f_lt aligned off in
            let here = written-Keeps tree t i leaf n n_lt off in
            elim (map_loop-MapsAll count (i + 1) (p + 4096) (written-IsTree tree t i leaf n n_lt)
              (omega arith) (omega arith)) [
                | inl (m', rest, mapped, all) ↦ inl (
                  m',
                  rw (map_loop, p_small, done) rest,
                  record { tree = mapped.tree; keeps = Keeps-trans here mapped.keeps },
                  MapsTo-cons (m'.tables t) i p count
                      (rw (written_stays tree t i leaf n n_lt m' mapped.keeps to.present) to) all,
                )
                | inr (m', rest, mapped) ↦ inr (
                  m',
                  rw (map_loop, p_small, done) rest,
                  record { tree = mapped.tree; keeps = Keeps-trans here mapped.keeps },
                )
              ]
      ]

-- The path of a page is that of the pages next to it in its table.
Walk-block :
    (tables : ℕ → ℕ → Entry) (v k : ℕ)
    → v % 4096 ≡ 0
    → next_level_index v 0 + k < 512
    → (r t leaf : ℕ) → Walk tables v r t leaf
    → Walk tables (v + k * 4096) r t leaf
Walk-block tables v k aligned fits zero t leaf path = path
Walk-block tables v k aligned fits (suc r) t leaf (on, path) =
    rw (next_level_index_above v k aligned fits r) (
      on,
      Walk-block tables v k aligned fits r (target (tables t (next_level_index v (suc r)))) leaf
          path,
    )

-- A path to an entry that maps a page gives the translation.
pub translate-Walk :
    {E : Type 0} {level : ℕ → ℕ} {m : Machine}
    → IsTree level m
    → (root v leaf p : ℕ) → level root ≡ 3
    → Walk m.tables v 3 root leaf
    → MapsTo (m.tables leaf (next_level_index v 0)) p
    → translate {E = E} m root v ≡ ok (some p)
unfolding translate get_entry get_entry_loop read_entry
translate-Walk {E} {level} {m} tree root v leaf p top path to =
    let e = m.tables leaf (next_level_index v 0) in
    let found : get_entry {E = E} m root v ≡ ok (some (leaf, next_level_index v 0, 4096)) =
      rw
        (
          get_entry,
          get_entry_loop-Walk tree v {E = E} 3 root leaf top (omega arith) path,
          get_entry_loop,
          get_last_entry-bit e ∙ to.last,
        )
        refl in
    rw
      (
        translate,
        found,
        read_entry,
        get_present-bit e ∙ to.present,
        get_addr-target {E = E} e (tree.words leaf (next_level_index v 0)),
        to.leads,
      )
      refl

-- A read at a table of level 0 that gives an address
leaf-MapsTo :
    {E : Type 0} {level : ℕ → ℕ} {m : Machine}
    → IsTree level m
    → (v leaf p : ℕ) (x : ℕ × ℕ × PageSize) → get_entry_loop {E = E} m.tables v 1 leaf ≡ ok (some x)
    → read_entry {E = E} (m.tables x.0 x.1) x.2 ≡ ok (some p)
    → MapsTo (m.tables leaf (next_level_index v 0)) p
unfolding get_entry_loop read_entry
leaf-MapsTo {E} {level} {m} tree v leaf p (t, i, size) found read =
    let e = m.tables leaf (next_level_index v 0) in
    let addr = get_addr-target {E = E} e (tree.words leaf (next_level_index v 0)) in
    elim (Bool-cases (bit e 10)) [
      | inl last ↦
          let found' : ◌≡◌ {A = Outcome E (Option (ℕ × ℕ × PageSize))}
              (ok (some (leaf, next_level_index v 0, 4096))) (ok (some (t, i, size))) =
            rw (get_entry_loop, get_last_entry-bit e ∙ last) at found in
          let read' : read_entry {E = E} e 4096 ≡ ok (some p) = cc in
          elim (Bool-cases (bit e 0)) [
            | inl on ↦
                let done = rw (read_entry, get_present-bit e ∙ on, addr) at read' in
                record { present = on; last = last; leads = cc }
            | inr off ↦ let none_read = rw (read_entry, get_present-bit e ∙ off) at read' in cc
          ]
      | inr more ↦ elim (Bool-cases (bit e 0)) [
        | inl on ↦
            let lost =
              rw (get_entry_loop, get_last_entry-bit e ∙ more, get_present-bit e ∙ on, addr) at
                found in
            cc
        | inr off ↦
            let lost =
              rw (get_entry_loop, get_last_entry-bit e ∙ more, get_present-bit e ∙ off) at found in
            cc
      ]
    ]

-- And a translation comes from such a path.
pub Walk-translate :
    {E : Type 0} {level : ℕ → ℕ} {m : Machine}
    → IsTree level m
    → (root v p : ℕ) → level root ≡ 3
    → translate {E = E} m root v ≡ ok (some p)
    → (leaf : ℕ) × Walk m.tables v 3 root leaf × MapsTo (m.tables leaf (next_level_index v 0)) p
unfolding translate get_entry get_entry_loop read_entry
Walk-translate {E} {level} {m} tree root v p top done =
    let ((leaf', i', size), found, read) = walk done in
    let (leaf, path) =
      Walk-get_entry_loop tree v {E = E} 3 root (leaf', i', size) top (omega arith) found in
    let at_leaf : get_entry_loop {E = E} m.tables v 1 leaf ≡ ok (some (leaf', i', size)) =
      sym (get_entry_loop-Walk tree v {E = E} 3 root leaf top (omega arith) path) ∙ found in
    (leaf, path, leaf-MapsTo {E = E} tree v leaf p (leaf', i', size) at_leaf read)
  where
    walk :
        translate {E = E} m root v ≡ ok (some p)
        → (found : ℕ × ℕ × PageSize) × (get_entry_loop {E = E} m.tables v 4 root ≡ ok (some found))
          × (read_entry {E = E} (m.tables found.0 found.1) found.2 ≡ ok (some p))
    walk h = let (x, found, rest) = >>=-eq-ok (get_entry {E = E} m root v) _ h in split x found rest
      where
        split :
            (x : Option (ℕ × ℕ × PageSize))
            → get_entry_loop {E = E} m.tables v 4 root ≡ ok x
            → elim x [
              | none ↦ ok none
              | some (table, i, size) ↦ read_entry {E = E} (m.tables table i) size
            ]
              ≡ ok (some p)
            → (found : ℕ × ℕ × PageSize) × (get_entry_loop {E = E} m.tables v 4 root
                ≡ ok (some found))
              × (read_entry {E = E} (m.tables found.0 found.1) found.2 ≡ ok (some p))
        split none found rest = cc
        split (some x) found rest = (x, found, rest)

-- In a machine whose tables are a tree, with three pages free for tables that miss: mapping `count`
-- pages of 4KB that lie in one table of level 0, at aligned addresses, with frames below 2^64 and flags of
-- the low twelve digits, ends without a panic. Either it succeeds, and then each page is translated to
-- its physical page. Or it fails with `PageAlreadyPresent`. In both cases the tables are a tree, and what was present is.
pub map_pages-translate :
    {E : Type 0} {level : ℕ → ℕ} {m : Machine}
    → IsTree level m
    → (root v p count : ℕ) (f : Flags) → level root ≡ 3
    → v % 4096 ≡ 0
    → p % 4096 ≡ 0
    → p + count * 4096 ≤ 2 ^ 64
    → f < 2 ^ 12
    → next_level_index v 0 + count ≤ 512
    → Supplies 3 m.pmm
    → ((m' : Machine) × (level' : ℕ → ℕ) × (map_pages m root v p count 4096 f ≡ ok m')
        × Mapped level m level' m'
        × ((k : ℕ)
            → k < count
            → translate {E = E} m' root (v + k * 4096) ≡ ok (some (p + k * 4096))))
      ⊎ ((m' : Machine) × (level' : ℕ → ℕ) × (map_pages m root v p count 4096 f
            ≡ err (page_already_present, m'))
          × Mapped level m level' m')
unfolding map_pages get_create_table_range
map_pages-translate {E} {level} {m} tree root v p count f top v_aligned p_aligned room f_lt fits
      supplies =
    let (leaf, m₁, level₁, made, new) =
      create_loop-Created {E = PagingError × Machine} E v 3 0 tree root top (omega arith)
        supplies in
    let tree₁ = new.tree in
    let keeps = new.keeps in
    let path = new.walk in
    let looks = new.looks in
    let at : level₁ leaf ≡ 0 =
      Walk-level tree₁ v 3 root leaf (omega (arith, keeps.levels root (omega arith))) (omega arith)
        path in
    let top₁ : level₁ root ≡ 3 = omega (arith, keeps.levels root (omega arith)) in
    let i = next_level_index v 0 in
    let summed : ltb (i + count) usize_mod ≡ true = ground arith in
    let not_big : ltb 512 (i + count) ≡ false = ground arith in
    let v_ok : v % 4096 == 0 ≡ true = (==_iff _ _).1 v_aligned in
    let p_ok : p % 4096 == 0 ≡ true = (==_iff _ _).1 p_aligned in
    elim (map_loop-MapsAll level₁ leaf at f f_lt count i p tree₁ p_aligned room) [
      | inl (m₂, done, mapped, all) ↦ inl (
        m₂,
        level₁,
        rw (map_pages, v_ok, p_ok, get_create_table_range, made, summed, not_big) done,
        record { tree = mapped.tree; keeps = Keeps-trans keeps mapped.keeps },
        λ k lt.
            let path₂ = Walk-Keeps tree₁ v mapped.keeps 3 root leaf top₁ (omega arith) path in
            let small : i + k < 512 = omega arith in
            translate-Walk {E = E} mapped.tree root (v + k * 4096) leaf (p + k * 4096) top₁
              (Walk-block m₂.tables v k v_aligned small 3 root leaf path₂)
              (rw (next_level_index_leaf v k v_aligned small) (all k lt)),
      )
      | inr (m₂, done, mapped) ↦ inr (
        m₂,
        level₁,
        rw (map_pages, v_ok, p_ok, get_create_table_range, made, summed, not_big) done,
        record { tree = mapped.tree; keeps = Keeps-trans keeps mapped.keeps },
      )
    ]

-- What is translated stays translated to the same page when present entries are kept.
pub translate-Keeps :
    {E : Type 0} {level level' : ℕ → ℕ} {m m' : Machine}
    → IsTree level m
    → Mapped level m level' m'
    → (root v p : ℕ) → level root ≡ 3
    → translate {E = E} m root v ≡ ok (some p)
    → translate {E = E} m' root v ≡ ok (some p)
unfolding translate get_entry get_entry_loop read_entry
translate-Keeps {E} {level} {level'} {m} {m'} tree mapped root v p top done =
    let (leaf, path, to) = Walk-translate {E = E} tree root v p top done in
    let e = m.tables leaf (next_level_index v 0) in
    let same : m'.tables leaf (next_level_index v 0) ≡ e =
      mapped.keeps.entries leaf (next_level_index v 0)
        (omega (arith, Walk-level tree v 3 root leaf top (omega arith) path)) to.present in
    translate-Walk {E = E} mapped.tree root v leaf p
      (omega (arith, mapped.keeps.levels root (omega arith)))
      (Walk-Keeps tree v mapped.keeps 3 root leaf top (omega arith) path) (rw same to)

-- Under the same conditions, a translation that the machine gives is the same after the call of
-- `map_pages`, whether it succeeds or fails.
map_pages-keeps :
    {E : Type 0} {level : ℕ → ℕ} {m : Machine}
    → IsTree level m
    → (root v p count : ℕ) (f : Flags) (w q : ℕ) → level root ≡ 3
    → v % 4096 ≡ 0
    → p % 4096 ≡ 0
    → p + count * 4096 ≤ 2 ^ 64
    → f < 2 ^ 12
    → next_level_index v 0 + count ≤ 512
    → Supplies 3 m.pmm
    → translate {E = E} m root w ≡ ok (some q)
    → (m' : Machine) × (translate {E = E} m' root w ≡ ok (some q))
      × ((map_pages m root v p count 4096 f ≡ ok m')
          ⊎ (map_pages m root v p count 4096 f ≡ err (page_already_present, m')))
map_pages-keeps {E} tree root v p count f w q top v_aligned p_aligned room f_lt fits supplies
      given =
    elim (map_pages-translate {E = E} tree root v p count f top v_aligned p_aligned room f_lt fits
      supplies) [
        | inl (m', level', done, mapped, _) ↦
            (m', translate-Keeps {E = E} tree mapped root w q top given, inl done)
        | inr (m', level', done, mapped) ↦
            (m', translate-Keeps {E = E} tree mapped root w q top given, inr done)
      ]
