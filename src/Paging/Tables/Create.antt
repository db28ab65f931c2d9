-- ===== src/Paging/Tables/Create.antt =====
-- kernel/src/arch/x86_64/paging/mod.rs: `get_create_table_range` makes the tables that miss.
use native.Mathlib.Nat.{le_refl}
use funderberker.Common.{
  ℕ, zero, suc, ◌+◌, ◌^◌, ◌<◌, ◌≤◌, ◌≡◌, refl, sym, ◌∙◌, ap, arith, true, false, ◌&&◌, ok, none,
  ◌==◌, if◌then◌else◌, Bool-cases, ◌⊎◌, inl, inr, ==_iff,
}
use funderberker.Bits.{bit, bit-zero}
use funderberker.Pmm.Buddy.{BuddyAllocator}
use funderberker.Pmm.Buddy.Weight.{free_at}
use funderberker.Pmm.Buddy.Supply.{GrantsPage, Supplies, Supplies-suc}
use funderberker.Paging.Entry.{Entry, get_flags, set_flags, next_level_index}
use funderberker.Paging.Flags.{set_present, set_read_write}
use funderberker.Paging.Tables.{Machine, new_table, ensure_entry, write_entry, clear_table}
use funderberker.Paging.Tables.Words.{
  target, get_present-bit, linked_word, linked_word_lem, set_addr-linked,
}
use funderberker.Paging.Tables.Refine.{look, leaf_look, look-zero, look-suc, SameLook}
use funderberker.Paging.Tables.Tree.{IsTree, Keeps}

-- The levels when a table is added at an address
abbrev pub add_level : (ℕ → ℕ) → ℕ → ℕ → ℕ → ℕ
add_level level a l t = if t == a then l else level t

-- The tables when an entry of `t` leads to a cleared page at `a`
abbrev linked_tables : (ℕ → ℕ → Entry) → ℕ → ℕ → ℕ → ℕ → ℕ → Entry
linked_tables tables t i a =
    write_entry
      (clear_table
        (write_entry tables t i (
          set_flags (tables t i) (set_read_write (set_present (get_flags (tables t i)) true) true)))
        a)
      t i (linked_word (tables t i) a)

-- What a round leaves: the tables, the entry is present, and the pages that are left.
pub record Ensured (F : Type 0) (level : ℕ → ℕ) (m : Machine) (t i n : ℕ) (level' : ℕ → ℕ)
    (m' : Machine) : Type 0 where
  pub tree : IsTree level' m'
  pub present : bit (m'.tables t i) 0 ≡ true
  pub keeps : Keeps level m level' m'
  pub supplies : Supplies n m'.pmm
  pub looks : SameLook F level m m'
  pub shrinks : (p : ℕ) → free_at m'.pmm p ≤ free_at m.pmm p

module _ {level : ℕ → ℕ} {m : Machine} (tree : IsTree level m) (t i r : ℕ) (at : level t ≡ suc r)
    (r_lt : r < 3) (off : bit (m.tables t i) 0 ≡ false) (a : ℕ) (pmm : BuddyAllocator)
    (grant : GrantsPage m.pmm a pmm) where
  a_new : (u : ℕ) → level u < 4 → u == a ≡ false
  a_new u lt = elim (Bool-cases (u == a)) [
    | inr off ↦ off
    | inl same ↦
        let e : u ≡ a = (==_iff u a).0 same in
        absurd (omega (arith, grant.was_free, (rw e at (tree.owned u lt))))
  ]

  abbrev linked_machine : Machine
  linked_machine = record { tables = linked_tables m.tables t i a; pmm = pmm }

  linked_facts :
      (linked_word (m.tables t i) a < 2 ^ 64)
      × (bit (linked_word (m.tables t i) a) 0 ≡ true)
      × (bit (linked_word (m.tables t i) a) 10 ≡ bit (m.tables t i) 10)
      × (target (linked_word (m.tables t i) a) ≡ a)
  linked_facts =
      linked_word_lem (m.tables t i) a (tree.words t i) (omega (arith, grant.bounded)) grant.aligned

  linked_link :
      (u j : ℕ)
      → 0 < add_level level a r u
      → add_level level a r u < 4
      → bit (linked_tables m.tables t i a u j) 0 ≡ true
      → add_level level a r (target (linked_tables m.tables t i a u j)) + 1 ≡ add_level level a r u
  linked_link u j lo hi p =
      let (lt, on, same, leads) = linked_facts in
      let other = a_new t (omega arith) in
      elim (Bool-cases ((u == t) && (j == i))) [
        | inl here ↦ let e : u ≡ t = ground arith in ground (arith, leads, other)
        | inr away ↦ elim (Bool-cases (u == a)) [
          | inl new ↦ ground (arith, bit-zero 0)
          | inr old ↦
              let p' : bit (m.tables u j) 0 ≡ true = ground arith in
              let old_level : add_level level a r u ≡ level u = ground arith in
              let e : level (target (m.tables u j)) + 1 ≡ level u =
                tree.linked u j (omega arith) (omega arith) p' in
              let f = a_new (target (m.tables u j)) (omega arith) in ground (arith, e, f)
        ]
      ]

  linked_owned : (u : ℕ) → add_level level a r u < 4 → free_at pmm u ≡ 0
  linked_owned u lt = elim (Bool-cases (u == a)) [
    | inl new ↦ let e : u ≡ a = (==_iff u a).0 new in rw e grant.used
    | inr old ↦
        let old_level : add_level level a r u ≡ level u = ground arith in
        omega (arith, grant.shrinks u, tree.owned u (omega arith))
  ]

  -- An entry of the new tables that is present is the one that was linked, or was present.
  linked-cases :
      (u j : ℕ)
      → 0 < add_level level a r u
      → add_level level a r u < 4
      → bit (linked_tables m.tables t i a u j) 0 ≡ true
      → ((u ≡ t) × (j ≡ i) × (target (linked_tables m.tables t i a u j) ≡ a))
        ⊎ ((0 < level u)
            × (level u < 4)
            × (bit (m.tables u j) 0 ≡ true)
            × (linked_tables m.tables t i a u j ≡ m.tables u j))
  linked-cases u j lo hi p =
      let (lt, on, same, leads) = linked_facts in
      elim (Bool-cases ((u == t) && (j == i))) [
        | inl here ↦ inl (ground arith, ground arith, rw here leads)
        | inr away ↦ elim (Bool-cases (u == a)) [
          | inl new ↦
              let cleared : linked_tables m.tables t i a u j ≡ 0 = rw (away, new) refl in
              let never : bit 0 0 ≡ true = rw cleared at p in absurd (ground (arith, bit-zero 0))
          | inr old ↦
              let kept : linked_tables m.tables t i a u j ≡ m.tables u j = rw (away, old) refl in
              let old_level : add_level level a r u ≡ level u = rw old refl in
              inr (omega arith, omega arith, rw kept at p, kept)
        ]
      ]

  linked_unshared :
      (u j v k : ℕ)
      → 0 < add_level level a r u
      → add_level level a r u < 4
      → 0 < add_level level a r v
      → add_level level a r v < 4
      → bit (linked_tables m.tables t i a u j) 0 ≡ true
      → bit (linked_tables m.tables t i a v k) 0 ≡ true
      → target (linked_tables m.tables t i a u j) ≡ target (linked_tables m.tables t i a v k)
      → (u ≡ v) × (j ≡ k)
  linked_unshared u j v k lo hi lo' hi' on on' e = elim (linked-cases u j lo hi on) [
    | inl (at_t, at_i, new) ↦ elim (linked-cases v k lo' hi' on') [
      | inl (at_t', at_i', new') ↦ (at_t ∙ sym at_t', at_i ∙ sym at_i')
      | inr (l, h, old, kept) ↦ absurd (not_new v k l h old (rw (← kept) (sym e ∙ new)))
    ]
    | inr (l, h, old, kept) ↦ elim (linked-cases v k lo' hi' on') [
      | inl (at_t', at_i', new') ↦ absurd (not_new u j l h old (rw (← kept) (e ∙ new')))
      | inr (l', h', old', kept') ↦
          tree.unshared u j v k l h l' h' old old' (rw (← kept, ← kept') e)
    ]
  ]
    where
      not_new :
          (u j : ℕ)
          → 0 < level u
          → level u < 4
          → bit (m.tables u j) 0 ≡ true
          → target (m.tables u j) ≡ a
          → ⊥
      not_new u j l h old at_a =
          let below = tree.linked u j l h old in
          let off = a_new (target (m.tables u j)) (omega arith) in
          let same : target (m.tables u j) == a ≡ true = (==_iff _ _).1 at_a in
          let never : false ≡ true = (sym off ∙ same) in cc

  pub linked-IsTree : IsTree (add_level level a r) linked_machine
  linked-IsTree =
      let (lt, on, same, leads) = linked_facts in
      let other = a_new t (omega arith) in
      record {
        words = λ u j. ground (arith, tree.words u j);
        small = λ u j lo hi.
            ground (arith, tree.small u j, tree.small t i, ==_iff u t, ==_iff j i, bit-zero 10);
        linked = λ u j lo hi p. linked_link u j lo hi p;
        owned = λ u lt. linked_owned u lt;
        unshared = linked_unshared;
      }

  pub linked-Keeps : Keeps level m (add_level level a r) linked_machine
  linked-Keeps = record {
    entries = λ u j lt on. let other = a_new u lt in ground (arith, ==_iff u t, ==_iff j i);
    levels = λ u lt. rw (a_new u lt) refl;
  }

  linked_present : bit (linked_machine.tables t i) 0 ≡ true
  linked_present = let (lt, on, same, leads) = linked_facts in ground (arith, on)

  ensure_entry_done : {E : Type 0} → ensure_entry {E = E} m t i ≡ ok linked_machine
  unfolding ensure_entry new_table
  ensure_entry_done {E} =
      rw
        (
          ensure_entry,
          get_present-bit (m.tables t i) ∙ off,
          new_table,
          grant.done,
          a_new t (omega arith),
          (==_iff t t).1 refl,
          (==_iff i i).1 refl,
          set_addr-linked {E = E} (m.tables t i) a grant.aligned,
        )
        refl

module _ {level : ℕ → ℕ} {m : Machine} (tree : IsTree level m) (t i r : ℕ) (at : level t ≡ suc r)
    (r_lt : r < 3) (off : bit (m.tables t i) 0 ≡ false) (a : ℕ) (pmm : BuddyAllocator)
    (grant : GrantsPage m.pmm a pmm) where
  abbrev linked : Machine
  linked = linked_machine tree t i r at r_lt off a pmm grant

  tree' : IsTree (add_level level a r) linked
  tree' = linked-IsTree tree t i r at r_lt off a pmm grant

  other_entry :
      (u j : ℕ) → level u < 4 → (u == t) && (j == i) ≡ false → linked.tables u j ≡ m.tables u j
  other_entry u j lt away = rw (away, a_new tree t i r at r_lt off a pmm grant u lt) refl

  -- Nothing is found in the new table.
  empty_entry : (j : ℕ) → linked.tables a j ≡ 0
  empty_entry j =
      let apart = a_new tree t i r at r_lt off a pmm grant t (omega arith) in
      let away : a == t ≡ false = ground arith in
      let same : a == a ≡ true = (==_iff a a).1 refl in rw (away, same) refl

  not_here : (u j : ℕ) → level u < level t → (u == t) && (j == i) ≡ false
  not_here u j less = elim (Bool-cases (u == t)) [
    | inl here ↦
        let e : u ≡ t = (==_iff u t).0 here in
        let same : level u ≡ level t = ap level e in absurd (omega arith)
    | inr away ↦ rw away refl
  ]

  look_empty : {F : Type 0} (v k : ℕ) → k ≡ r → look {E = F} linked v k a ≡ ok none
  look_empty {F} v zero e =
      let cleared : linked.tables a (next_level_index v 0) ≡ 0 =
        empty_entry (next_level_index v 0) in
      look-zero tree' v {E = F} a ∙ rw (cleared, bit-zero 10, bit-zero 0) refl
  look_empty {F} v (suc k) e =
      let cleared : linked.tables a (next_level_index v (suc k)) ≡ 0 =
        empty_entry (next_level_index v (suc k)) in
      let level_a : add_level level a r a ≡ suc k = rw ((==_iff a a).1 refl) (sym e) in
      look-suc tree' v {E = F} k a level_a (omega arith) ∙ rw (cleared, bit-zero 0) refl

  linked_look :
      {F : Type 0} (v k u : ℕ) → level u ≡ k → k < 4 → look {E = F} linked v k u ≡ look m v k u
  linked_look {F} v zero u l lt =
      let away : (u == t) && (next_level_index v 0 == i) ≡ false =
        not_here u (next_level_index v 0) (omega arith) in
      look-zero tree' v {E = F} u
      ∙ ap leaf_look (other_entry u (next_level_index v 0) (omega arith) away)
      ∙ sym (look-zero tree v {E = F} u)
  linked_look {F} v (suc k) u l lt =
      let j = next_level_index v (suc k) in
      let old : add_level level a r u ≡ level u =
        rw (a_new tree t i r at r_lt off a pmm grant u (omega arith)) refl in
      let before = look-suc tree v {E = F} k u l (omega arith) in
      let after = look-suc tree' v {E = F} k u (old ∙ l) (omega arith) in
      elim (Bool-cases ((u == t) && (j == i))) [
        | inl here ↦
            let (small, on, same, leads) = linked_facts tree t i r at r_lt off a pmm grant in
            let new : linked.tables u j ≡ linked_word (m.tables t i) a = rw here refl in
            let at_t : u ≡ t = ground arith in
            let at_i : j ≡ i = ground arith in
            let absent : bit (m.tables u j) 0 ≡ false = rw (at_t, at_i) off in
            let level_k : k ≡ r = omega (arith, ap level at_t) in
            (rw (new, on, leads) at after)
            ∙ look_empty {F = F} v k level_k
            ∙ sym (rw absent at before)
        | inr away ↦
            let kept = other_entry u j (omega arith) away in
            elim (Bool-cases (bit (m.tables u j) 0)) [
              | inr absent ↦ (rw (kept, absent) at after) ∙ sym (rw absent at before)
              | inl on ↦
                  let below = tree.linked u j (omega arith) (omega arith) on in
                  (rw (kept, on) at after)
                  ∙ linked_look {F = F} v k (target (m.tables u j)) (omega arith) (omega arith)
                  ∙ sym (rw on at before)
            ]
      ]

-- A round gives a present entry, whether it was present before or a new table is linked.
pub ensure_entry-Ensured :
    {E F : Type 0} {level : ℕ → ℕ} {m : Machine}
    → IsTree level m
    → (t i r n : ℕ) → level t ≡ suc r
    → r < 3
    → Supplies (suc n) m.pmm
    → (m' : Machine) × (level' : ℕ → ℕ) × (ensure_entry {E = E} m t i ≡ ok m')
      × Ensured F level m t i n level' m'
unfolding ensure_entry
ensure_entry-Ensured {E} {F} {level} {m} tree t i r n at lt supplies =
    elim (Bool-cases (bit (m.tables t i) 0)) [
      | inl on ↦ (
        m,
        level,
        rw (ensure_entry, get_present-bit (m.tables t i) ∙ on) refl,
        record {
          tree = tree;
          present = on;
          keeps = record { entries = λ u j lt on. refl; levels = λ u lt. refl };
          supplies = Supplies-suc n m.pmm supplies;
          looks = record { same = λ v k u l lt. refl };
          shrinks = λ p. le_refl _;
        },
      )
      | inr off ↦
          let (a, pmm, grant, rest) = supplies in
          (
            linked_machine tree t i r at lt off a pmm grant,
            add_level level a r,
            ensure_entry_done tree t i r at lt off a pmm grant,
            record {
              tree = linked-IsTree tree t i r at lt off a pmm grant;
              present = linked_present tree t i r at lt off a pmm grant;
              keeps = linked-Keeps tree t i r at lt off a pmm grant;
              supplies = rest;
              looks = record { same = linked_look tree t i r at lt off a pmm grant {F = F} };
              shrinks = grant.shrinks;
            },
          )
    ]
