-- ===== src/Paging/Tables/Tree.antt =====
-- kernel/src/arch/x86_64/paging/mod.rs: what the page tables of a machine look like, and the walk to a leaf.
use funderberker.Common.{
  ℕ, zero, suc, ◌+◌, ◌^◌, ◌<◌, ◌≡◌, refl, sym, ◌∙◌, arith, true, false, ok, some, Bool-cases, inl,
  inr,
}
use funderberker.Bits.{bit}
use funderberker.Pmm.Buddy.Weight.{free_at}
use funderberker.Paging.PageSize.{PageSize}
use funderberker.Paging.Entry.{Entry, get_flags, next_level_index}
use funderberker.Paging.Flags.{get_present, get_last_entry}
use funderberker.Paging.Tables.{Machine, get_entry_loop}
use funderberker.Paging.Tables.Words.{target, get_addr-target, get_present-bit, get_last_entry-bit}

-- The level of each table, and 4 or more for what is none. The entries of the tables above level 0
-- lead to tables of the level below, no two of them to the same one, and no table lies in a free page.
pub record IsTree (level : ℕ → ℕ) (m : Machine) : Type 0 where
  pub words : (t i : ℕ) → m.tables t i < 2 ^ 64
  pub small : (t i : ℕ) → 0 < level t → level t < 4 → bit (m.tables t i) 10 ≡ false
  pub linked :
      (t i : ℕ)
      → 0 < level t
      → level t < 4
      → bit (m.tables t i) 0 ≡ true
      → level (target (m.tables t i)) + 1 ≡ level t
  pub owned : (t : ℕ) → level t < 4 → free_at m.pmm t ≡ 0
  pub unshared :
      (t i u j : ℕ)
      → 0 < level t
      → level t < 4
      → 0 < level u
      → level u < 4
      → bit (m.tables t i) 0 ≡ true
      → bit (m.tables u j) 0 ≡ true
      → target (m.tables t i) ≡ target (m.tables u j)
      → (t ≡ u) × (i ≡ j)

-- The entries that are present stay, and so does the level of each table.
pub record Keeps (level : ℕ → ℕ) (m : Machine) (level' : ℕ → ℕ) (m' : Machine) : Type 0 where
  pub entries : (t i : ℕ) → level t < 4 → bit (m.tables t i) 0 ≡ true → m'.tables t i ≡ m.tables t i
  pub levels : (t : ℕ) → level t < 4 → level' t ≡ level t

pub Keeps-trans :
    {level level' level'' : ℕ → ℕ} {m m' m'' : Machine}
    → Keeps level m level' m'
    → Keeps level' m' level'' m''
    → Keeps level m level'' m''
Keeps-trans {level} {level'} {level''} {m} {m'} {m''} k k' = record {
  entries = λ t i lt on.
      let e : m'.tables t i ≡ m.tables t i = k.entries t i lt on in
      k'.entries t i (omega (arith, k.levels t lt)) (rw e on) ∙ e;
  levels = λ t lt. k'.levels t (omega (arith, k.levels t lt)) ∙ k.levels t lt;
}

-- The present entries for an address, from a table of a level down to a table of level 0.
abbrev pub Walk : (ℕ → ℕ → Entry) → ℕ → ℕ → ℕ → ℕ → Type 0
Walk tables virt_addr zero t leaf = t ≡ leaf
Walk tables virt_addr (suc level) t leaf =
    let e = tables t (next_level_index virt_addr (suc level)) in
    (bit e 0 ≡ true) × Walk tables virt_addr level (target e) leaf

module _ {level : ℕ → ℕ} {m : Machine} (tree : IsTree level m) (v : ℕ) where
  pub Walk-level : (r t leaf : ℕ) → level t ≡ r → r < 4 → Walk m.tables v r t leaf → level leaf ≡ 0
  Walk-level zero t leaf at lt path = rw (sym path) at
  Walk-level (suc r) t leaf at lt (on, path) =
      Walk-level r (target (m.tables t (next_level_index v (suc r)))) leaf
        (omega (arith, tree.linked t (next_level_index v (suc r)) (omega arith) (omega arith) on))
        (omega arith) path

  pub Walk-Keeps :
      {level' : ℕ → ℕ} {m' : Machine}
      → Keeps level m level' m'
      → (r t leaf : ℕ) → level t ≡ r
      → r < 4
      → Walk m.tables v r t leaf
      → Walk m'.tables v r t leaf
  Walk-Keeps k zero t leaf at lt path = path
  Walk-Keeps {level'} {m'} k (suc r) t leaf at lt (on, path) =
      let i = next_level_index v (suc r) in
      let e : m'.tables t i ≡ m.tables t i = k.entries t i (omega arith) on in
      let rest =
        Walk-Keeps k r (target (m.tables t i)) leaf
          (omega (arith, tree.linked t i (omega arith) (omega arith) on)) (omega arith) path in
      rw e (on, rest)

  -- The walk for an address goes to the leaf of its path.
  pub get_entry_loop-Walk :
      {E : Type 0} (r t leaf : ℕ)
      → level t ≡ r
      → r < 4
      → Walk m.tables v r t leaf
      → get_entry_loop {E = E} m.tables v (suc r) t ≡ get_entry_loop m.tables v 1 leaf
  unfolding get_entry_loop
  get_entry_loop-Walk {E} zero t leaf at lt path = rw path refl
  get_entry_loop-Walk {E} (suc r) t leaf at lt (on, path) =
      let i = next_level_index v (suc r) in
      let e = m.tables t i in
      let rest =
        get_entry_loop-Walk {E = E} r (target e) leaf
          (omega (arith, tree.linked t i (omega arith) (omega arith) on)) (omega arith) path in
      rw
        (
          get_entry_loop,
          get_last_entry-bit e ∙ tree.small t i (omega arith) (omega arith),
          get_present-bit e ∙ on,
          get_addr-target {E = E} e (tree.words t i),
        )
        rest

  -- A walk that finds an entry went along a path.
  pub Walk-get_entry_loop :
      {E : Type 0} (r t : ℕ) (found : ℕ × ℕ × PageSize)
      → level t ≡ r
      → r < 4
      → get_entry_loop {E = E} m.tables v (suc r) t ≡ ok (some found)
      → (leaf : ℕ) × Walk m.tables v r t leaf
  unfolding get_entry_loop
  Walk-get_entry_loop {E} zero t found at lt e = (t, refl)
  Walk-get_entry_loop {E} (suc r) t found at lt e =
      let i = next_level_index v (suc r) in
      let w = m.tables t i in
      let small : get_last_entry (get_flags w) ≡ false =
        get_last_entry-bit w ∙ tree.small t i (omega arith) (omega arith) in
      elim (Bool-cases (bit w 0)) [
        | inr off ↦
            let absent : get_present (get_flags w) ≡ false = get_present-bit w ∙ off in
            let e' = rw (get_entry_loop, small, absent) at e in cc
        | inl on ↦
            let present : get_present (get_flags w) ≡ true = get_present-bit w ∙ on in
            let e' =
              rw (get_entry_loop, small, present, get_addr-target {E = E} w (tree.words t i)) at
                e in
            let (leaf, path) =
              Walk-get_entry_loop {E = E} r (target w) found
                (omega (arith, tree.linked t i (omega arith) (omega arith) on)) (omega arith) e' in
            (leaf, (on, path))
      ]
