-- ===== src/Paging/Tables/Loop.antt =====
-- kernel/src/arch/x86_64/paging/mod.rs: the loop of `get_create_table_range` over the levels.
use native.Mathlib.Nat.{le_refl, le_trans}
use funderberker.Common.{ℕ, zero, suc, ◌+◌, ◌-◌, ◌<◌, ◌≤◌, ◌≡◌, refl, ◌∙◌, arith, ok}
use funderberker.Pmm.Buddy.Weight.{free_at}
use funderberker.Pmm.Buddy.Supply.{Supplies}
use funderberker.Paging.Entry.{next_level_index}
use funderberker.Paging.Tables.{Machine, create_loop}
use funderberker.Paging.Tables.Words.{target, get_addr-target}
use funderberker.Paging.Tables.Refine.{SameLook}
use funderberker.Paging.Tables.Tree.{IsTree, Keeps, Keeps-trans, Walk}
use funderberker.Paging.Tables.Create.{ensure_entry-Ensured}

-- What the loop leaves: a path from the table that it began with down to a table of level 0, what was
-- found before, and `n` pages to spare.
pub record Created (F : Type 0) (level : ℕ → ℕ) (m : Machine) (v r t n leaf : ℕ) (level' : ℕ → ℕ)
    (m' : Machine) : Type 0 where
  pub tree : IsTree level' m'
  pub keeps : Keeps level m level' m'
  pub walk : Walk m'.tables v r t leaf
  pub looks : SameLook F level m m'
  pub supplies : Supplies n m'.pmm
  pub shrinks : (p : ℕ) → free_at m'.pmm p ≤ free_at m.pmm p

-- While pages are free for the tables that miss, the loop makes the path from a table down to a
-- table of level 0, and keeps what was mapped.
pub create_loop-Created :
    {E : Type 0} (F : Type 0) (v r n : ℕ) {level : ℕ → ℕ} {m : Machine}
    → IsTree level m
    → (t : ℕ) → level t ≡ r
    → r < 4
    → Supplies (r + n) m.pmm
    → (leaf : ℕ) × (m' : Machine) × (level' : ℕ → ℕ) × (create_loop {E = E} v r r t m
        ≡ ok (leaf, m'))
      × Created F level m v r t n leaf level' m'
unfolding create_loop
create_loop-Created {E} F v zero n {level} {m} tree t at lt supplies = (
  t,
  m,
  level,
  refl,
  record {
    tree = tree;
    keeps = record { entries = λ u j lt on. refl; levels = λ u lt. refl };
    walk = refl;
    looks = record { same = λ v k u l lt. refl };
    supplies = let e : 0 + n ≡ n = omega arith in rw e at supplies;
    shrinks = λ p. le_refl _;
  },
)
create_loop-Created {E} F v (suc r) n {level} {m} tree t at lt supplies =
    let i = next_level_index v (suc r) in
    let more : suc r + n ≡ suc (r + n) = omega arith in
    let (m₁, level₁, done, made) =
      ensure_entry-Ensured {E = E} {F = F} tree t i r (r + n) at (omega arith)
        (rw more at supplies) in
    let e = m₁.tables t i in
    let same : level₁ t ≡ level t = made.keeps.levels t (omega arith) in
    let below : level₁ (target e) ≡ r =
      omega (arith, made.tree.linked t i (omega arith) (omega arith) made.present) in
    let (leaf, m₂, level₂, rest_done, rest) =
      create_loop-Created {E = E} F v r n made.tree (target e) below (omega arith) made.supplies in
    let stays : m₂.tables t i ≡ e = rest.keeps.entries t i (omega arith) made.present in
    let one_less : suc r - 1 ≡ r = omega arith in
    (
      leaf,
      m₂,
      level₂,
      rw (create_loop, done, get_addr-target {E = E} e (made.tree.words t i), one_less) rest_done,
      record {
        tree = rest.tree;
        keeps = Keeps-trans made.keeps rest.keeps;
        walk = rw stays (made.present, rest.walk);
        looks = record {
          same = λ w k u l small.
              rest.looks.same w k u (omega (arith, made.keeps.levels u (omega arith))) small
              ∙ made.looks.same w k u l small;
        };
        supplies = rest.supplies;
        shrinks = λ p. le_trans (rest.shrinks p) (made.shrinks p);
      },
    )
