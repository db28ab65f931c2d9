-- ===== src/Paging/Manager/Flaws.antt =====
-- kernel/src/mem/paging.rs: `map_pages` hands out the addresses of one page only, and `free_pages`
-- translates the first page in every round.
use funderberker.Common.{
  ℕ, ◌+◌, ◌*◌, ◌%◌, ◌^◌, ◌≤◌, ◌<◌, ◌≡◌, ◌⊎◌, inl, inr, refl, ap, arith, Outcome, ok, err, some,
}
use funderberker.Pmm.Buddy.Supply.{Supplies}
use funderberker.Vaa.{AlignsUnits, handout_aligned}
use funderberker.Paging.{PagingError, page_already_present}
use funderberker.Paging.Flags.{Flags}
use funderberker.Paging.Entry.{next_level_index}
use funderberker.Paging.Tables.{Machine, translate}
use funderberker.Paging.Tables.Tree.{IsTree}
use funderberker.Paging.Tables.Translate.{map_pages-translate}
use funderberker.Paging.Tables.Present.{map_pages-present}
use funderberker.Paging.Manager.{Memory, map_pages}

-- A memory whose next virtual page is given
abbrev pub memory_at : Machine → ℕ → ℕ → Memory
memory_at m next max = record {
  machine = m;
  vaa = record { hander = record { next = next; max = max } };
}

-- The call fails since a page is mapped already.
abbrev pub FailsPresent : Outcome (PagingError × Memory) (ℕ × Memory) → Type 0
FailsPresent o = (s : Memory) × (o ≡ err (page_already_present, s))

-- In a machine whose tables are a tree, with three pages free for tables, two more virtual addresses that
-- fit, and `align_offset` as the core library documents it. Take a call of `map_pages` for two 4KB pages or
-- more, whose frames are aligned and lie below 2^64 and whose flags fit twelve bits, and as the next call
-- one for a 4KB page at least, whose frames are aligned and begin below 2^64, where the pages of each call lie in one table.
-- One of the two calls fails with `PageAlreadyPresent`.
pub map_pages_twice :
    (align_offset : ℕ → ℕ → ℕ)
    → AlignsUnits align_offset
    → (root next max p p' count count' : ℕ) (f f' : Flags) {level : ℕ → ℕ} {m : Machine}
    → IsTree level m
    → level root ≡ 3
    → p % 4096 ≡ 0
    → p' % 4096 ≡ 0
    → p + count * 4096 ≤ 2 ^ 64
    → p' < 2 ^ 64
    → f < 2 ^ 12
    → 1 < count
    → 0 < count'
    → next + 1 ≤ max
    → (next + 2) * 4096 < 2 ^ 64
    → next_level_index (next * 4096) 0 + count ≤ 512
    → next_level_index ((next + 1) * 4096) 0 + count' ≤ 512
    → Supplies 3 m.pmm
    → FailsPresent (map_pages root align_offset (memory_at m next max) p count f 4096)
      ⊎ ((s : Memory) × (map_pages root align_offset (memory_at m next max) p count f 4096
            ≡ ok (next * 4096, s))
          × FailsPresent (map_pages root align_offset s p' count' f' 4096))
unfolding map_pages
map_pages_twice align_offset spec root next max p p' count count' f f' {level} {m} tree top p_ok
      p'_ok room p'_lt f_lt two one le small fits fits' supplies =
    let first =
      handout_aligned align_offset spec next max 1 1 (omega arith) (omega arith) (omega arith)
        (omega arith) in
    let second =
      handout_aligned align_offset spec (next + 1) max 1 1 (omega arith) (omega arith) (omega arith)
        (omega arith) in
    elim (map_pages-translate {E = ⊥} tree root (next * 4096) p count f top (omega arith) p_ok room
      f_lt fits supplies) [
        | inr (m₁, level₁, failed, mapped) ↦
            inl (memory_at m₁ (next + 1) max, rw (first, failed) refl)
        | inl (m₁, level₁, done, mapped, found) ↦
            let top₁ : level₁ root ≡ 3 = omega (arith, mapped.keeps.levels root (omega arith)) in
            let e : next * 4096 + 1 * 4096 ≡ (next + 1) * 4096 = omega arith in
            let given : translate {E = ⊥} m₁ root ((next + 1) * 4096) ≡ ok (some (p + 1 * 4096)) =
              rw (← e) (found 1 (omega arith)) in
            let (m₂, failed, entries, pmm) =
              map_pages-present {E = ⊥} mapped.tree root ((next + 1) * 4096) p' (p + 1 * 4096)
                count' f' top₁ (omega arith) p'_ok p'_lt one fits' given in
            inr (
              memory_at m₁ (next + 1) max,
              rw (first, done) refl,
              (
                memory_at m₂ (next + 2) max,
                rw (second, failed)
                    (ap (λ k. err (page_already_present, memory_at m₂ k max)) (omega arith)),
              ),
            )
      ]
