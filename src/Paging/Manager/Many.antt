-- ===== src/Paging/Manager/Many.antt =====
-- kernel/src/mem/paging.rs: `free_pages` of more than one page.
use funderberker.Common.{
  ℕ, zero, suc, ◌+◌, ◌*◌, ◌^◌, true, ltb, usize_mod, ◌<◌, ◌≡◌, sym, ◌∙◌, arith, Outcome, ok, none,
  some, >>=-eq-ok, Option, ok_or, map_err,
}
use funderberker.Pmm.Buddy.{BuddyAllocator, free}
use funderberker.Paging.{PagingError, page_not_present}
use funderberker.Paging.PageSize.{to_default_page_count}
use funderberker.Paging.Tables.{Machine, translate, unmap_pages}
use funderberker.Paging.Tables.Tree.{IsTree}
use funderberker.Paging.Tables.Gone.{unmap_pages-gone}
use funderberker.Paging.Manager.{free_loop, free_pages, nth_page}
use funderberker.Paging.Manager.Allocate.{translate-pmm}

-- A round that lets the loop go on found the first page translated, and unmapped `count` pages.
free_loop-round :
    (root rounds i v count : ℕ) (m m' : Machine)
    → free_loop root (suc rounds) i v count 4096 m ≡ ok m'
    → (addr p : ℕ) × (m₁ : Machine) × (pmm : BuddyAllocator) × (nth_page root
          {E = PagingError × Machine} v i 4096
        ≡ ok addr)
      × (translate {E = PagingError × Machine} m root v ≡ ok (some p))
      × (unmap_pages m root addr count 4096 ≡ ok m₁)
      × (free_loop root rounds (i + 1) v count 4096 (record m₁ { pmm = pmm }) ≡ ok m')
unfolding free_loop
free_loop-round root rounds i v count m m' h =
    let (addr, summed, h₁) = >>=-eq-ok (nth_page root {E = PagingError × Machine} v i 4096) _ h in
    let (found, translated, h₂) = >>=-eq-ok (translate {E = PagingError × Machine} m root v) _ h₁ in
    let (p, present, h₃) =
      >>=-eq-ok (ok_or {E = PagingError × Machine} found (page_not_present, m)) _ h₂ in
    let (m₁, unmapped, h₄) = >>=-eq-ok (unmap_pages m root addr count 4096) _ h₃ in
    let (pmm, freed, h₅) =
      >>=-eq-ok
        (map_err (λ why. (page_not_present, m₁)) (free m₁.pmm p (to_default_page_count 4096))) _
        h₄ in
    (addr, p, m₁, pmm, summed, translated ∙ some_of found p present, unmapped, h₅)
  where
    some_of :
        (found : Option ℕ) (p : ℕ)
        → ok_or {E = PagingError × Machine} found (page_not_present, m) ≡ ok p
        → ◌≡◌ {A = Outcome (PagingError × Machine) (Option ℕ)} (ok found) (ok (some p))
    some_of none p h = cc
    some_of (some q) p h = cc

ok_inj : {E : Type 0} {a b : ℕ} → ◌≡◌ {A = Outcome E ℕ} (ok a) (ok b) → a ≡ b
ok_inj h = cc

-- In a machine whose tables are a tree, `free_pages` of two 4KB pages or more, of which
-- the second begins below 2^64, never succeeds: the
-- first round unmaps all of them, and the second translates the first one again.
pub free_pages_many :
    {level : ℕ → ℕ} {m : Machine}
    → IsTree level m
    → (root v count : ℕ) → level root ≡ 3
    → 1 < count
    → v + 4096 < 2 ^ 64
    → ¬ ((m' : Machine) × (free_pages root v count 4096 m ≡ ok m'))
unfolding free_pages
free_pages_many {level} {m} tree root v zero top two room (m', h) = absurd (omega arith)
free_pages_many {level} {m} tree root v (suc zero) top two room (m', h) = absurd (omega arith)
free_pages_many {level} {m} tree root v (suc (suc rounds)) top two room (m', h) =
    let count = suc (suc rounds) in
    let E = PagingError × Machine in
    let (addr, p, m₁, pmm, summed, given, unmapped, rest) =
      free_loop-round root (suc rounds) 0 v count m m' h in
    let small : ltb (v + 0 * 4096) usize_mod ≡ true = ground arith in
    let summed' = rw small at summed in
    let first : addr ≡ v = omega (arith, ok_inj summed') in
    let unmapped' : unmap_pages m root v count 4096 ≡ ok m₁ = rw (← first) unmapped in
    let gone = unmap_pages-gone {E = E} tree root v p count top (omega arith) given unmapped' in
    let (_, q, _, _, _, again, _, _) =
      free_loop-round root rounds 1 v count (record m₁ { pmm = pmm }) m' rest in
    let once : translate {E = E} m₁ root v ≡ ok none =
      sym (translate-pmm {E = E} m₁ m.pmm root v) ∙ gone in
    let twice : translate {E = E} m₁ root v ≡ ok (some q) =
      sym (translate-pmm {E = E} m₁ pmm root v) ∙ again in
    cc
