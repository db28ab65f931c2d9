-- ===== src/Paging/Tables/Refine.antt =====
-- kernel/src/arch/x86_64/paging/mod.rs: the page tables as one map from pages to frames.
use funderberker.Common.{
  ℕ, zero, suc, ◌<◌, ◌≤◌, ◌≡◌, ◌⊎◌, inl, inr, refl, sym, ◌∙◌, ap, arith, false, Outcome, ok, err,
  panic, if◌then◌else◌, Bool-cases, Option, some, none, ◌>>=◌, ℕ_discrete,
}
use funderberker.Bits.{bit}
use funderberker.Paging.PageSize.{PageSize}
use funderberker.Paging.Flags.{get_last_entry}
use funderberker.Paging.Entry.{Entry, get_flags, next_level_index}
use funderberker.Paging.Tables.{Machine, get_entry, get_entry_loop, read_entry, translate}
use funderberker.Paging.Tables.Words.{target, get_addr-target, get_present-bit, get_last_entry-bit}
use funderberker.Paging.Tables.Tree.{IsTree, Walk}

-- What `translate` gives for an address from a table of a level on
abbrev pub look_from : {E : Type 0} → Machine → Option (ℕ × ℕ × PageSize) → Outcome E (Option ℕ)
look_from m none = ok none
look_from m (some (table, i, size)) = read_entry (m.tables table i) size

abbrev pub look : {E : Type 0} → Machine → ℕ → ℕ → ℕ → Outcome E (Option ℕ)
look m v r t = get_entry_loop m.tables v (suc r) t >>= look_from m

pub translate-look :
    {E : Type 0} (m : Machine) (root v : ℕ) → translate {E = E} m root v ≡ look m v 3 root
unfolding translate get_entry
translate-look {E} m root v = same (get_entry_loop m.tables v 4 root)
  where
    same :
        (o : Outcome E (Option (ℕ × ℕ × PageSize)))
        → (o >>= λ found. elim found [
          | none ↦ ok none
          | some (table, i, size) ↦ read_entry {E = E} (m.tables table i) size
        ])
          ≡ (o >>= look_from {E = E} m)
    same (ok none) = refl
    same (ok (some x)) = refl
    same (err e) = refl
    same panic = refl

-- What an entry of a table of level 0 gives
abbrev pub leaf_look : {E : Type 0} → Entry → Outcome E (Option ℕ)
leaf_look e = if bit e 10 then read_entry e 4096 else if bit e 0 then panic else ok none

module _ {level : ℕ → ℕ} {m : Machine} (tree : IsTree level m) (v : ℕ) where
  pub look-zero :
      {E : Type 0} (t : ℕ) → look {E = E} m v 0 t ≡ leaf_look (m.tables t (next_level_index v 0))
  unfolding get_entry_loop
  look-zero {E} t =
      let e = m.tables t (next_level_index v 0) in
      let addr = get_addr-target {E = E} e (tree.words t (next_level_index v 0)) in
      elim (Bool-cases (bit e 10)) [
        | inl last ↦ rw (get_entry_loop, get_last_entry-bit e, last) refl
        | inr more ↦ elim (Bool-cases (bit e 0)) [
          | inl on ↦
              rw (get_entry_loop, get_last_entry-bit e, more, get_present-bit e, on, addr) refl
          | inr off ↦ rw (get_entry_loop, get_last_entry-bit e, more, get_present-bit e, off) refl
        ]
      ]

  pub look-suc :
      {E : Type 0} (r t : ℕ)
      → level t ≡ suc r
      → r < 3
      → look {E = E} m v (suc r) t ≡ (
          if bit (m.tables t (next_level_index v (suc r))) 0
          then look m v r (target (m.tables t (next_level_index v (suc r))))
          else ok none)
  unfolding get_entry_loop
  look-suc {E} r t at lt =
      let e = m.tables t (next_level_index v (suc r)) in
      let small : get_last_entry (get_flags e) ≡ false =
        get_last_entry-bit e
        ∙ tree.small t (next_level_index v (suc r)) (omega arith) (omega arith) in
      elim (Bool-cases (bit e 0)) [
        | inl on ↦
            rw
              (
                get_entry_loop,
                small,
                get_present-bit e ∙ on,
                get_addr-target {E = E} e (tree.words t (next_level_index v (suc r))),
                on,
              )
              refl
        | inr off ↦ rw (get_entry_loop, small, get_present-bit e ∙ off, off) refl
      ]

-- The same is found for every address, from every table.
pub record SameLook (E : Type 0) (level : ℕ → ℕ) (m m' : Machine) : Type 0 where
  pub same : (v r t : ℕ) → level t ≡ r → r < 4 → look {E = E} m' v r t ≡ look m v r t

-- Two addresses whose walks end in the same table have the same indices above it.
pub Walk-unique :
    {level : ℕ → ℕ} {m : Machine} (tree : IsTree level m) (v w leaf : ℕ)
    → (r t u : ℕ) → level t ≡ r
    → level u ≡ r
    → r < 4
    → Walk m.tables v r t leaf
    → Walk m.tables w r u leaf
    → (t ≡ u) × ((k : ℕ) → 0 < k → k ≤ r → next_level_index v k ≡ next_level_index w k)
Walk-unique tree v w leaf zero t u at at' lt walk walk' =
    (walk ∙ sym walk', λ k lo hi. absurd (omega arith))
Walk-unique {level} {m} tree v w leaf (suc r) t u at at' lt (on, walk) (on', walk') =
    let i = next_level_index v (suc r) in
    let j = next_level_index w (suc r) in
    let (same, below) =
      Walk-unique tree v w leaf r (target (m.tables t i)) (target (m.tables u j))
        (omega (arith, tree.linked t i (omega arith) (omega arith) on))
        (omega (arith, tree.linked u j (omega arith) (omega arith) on')) (omega arith) walk walk' in
    let (same_table, same_index) =
      tree.unshared t i u j (omega arith) (omega arith) (omega arith) (omega arith) on on' same in
    (
      same_table,
      λ k lo hi. elim (ℕ_discrete k (suc r)) [
        | yes top ↦ rw top same_index
        | no other ↦ below k lo (omega arith)
      ],
    )

-- A write in a table of level 0 is seen only by addresses whose walk ends in this table, with its index.
pub look-written :
    {F : Type 0} {level : ℕ → ℕ} {m m' : Machine} (tree : IsTree level m) (tree' : IsTree level m')
    (w leaf i : ℕ)
    → ((u j : ℕ) → ((u ≡ leaf) × (j ≡ i)) ⊎ (m'.tables u j ≡ m.tables u j))
    → level leaf ≡ 0
    → (r t : ℕ) → level t ≡ r
    → r < 4
    → (Walk m.tables w r t leaf × (next_level_index w 0 ≡ i))
      ⊎ (look {E = F} m' w r t ≡ look m w r t)
look-written {F} tree tree' w leaf i same bottom zero t at lt =
    elim (same t (next_level_index w 0)) [
      | inl (here, index) ↦ inl (here, index)
      | inr kept ↦
          inr (look-zero tree' w {E = F} t ∙ ap leaf_look kept ∙ sym (look-zero tree w {E = F} t))
    ]
look-written {F} {level} {m} {m'} tree tree' w leaf i same bottom (suc r) t at lt =
    let j = next_level_index w (suc r) in
    let before = look-suc tree w {E = F} r t at (omega arith) in
    let after = look-suc tree' w {E = F} r t at (omega arith) in
    elim (same t j) [
      | inl (here, index) ↦ let l : level t ≡ level leaf = ap level here in absurd (omega arith)
      | inr kept ↦ elim (Bool-cases (bit (m.tables t j) 0)) [
        | inr absent ↦ inr ((rw (kept, absent) at after) ∙ sym (rw absent at before))
        | inl on ↦
            let below = tree.linked t j (omega arith) (omega arith) on in
            elim (look-written {F = F} tree tree' w leaf i same bottom r (target (m.tables t j))
              (omega arith) (omega arith)) [
                | inl (walk, index) ↦ inl ((on, walk), index)
                | inr found ↦ inr ((rw (kept, on) at after) ∙ found ∙ sym (rw on at before))
              ]
      ]
    ]
