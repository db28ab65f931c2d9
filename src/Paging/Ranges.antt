-- ===== src/Paging/Ranges.antt =====
-- kernel/src/arch/x86_64/paging/mod.rs: `map_in_entry`, which maps a range in the largest pages that
-- fit, as the sequence of the pages that it maps. `map_pages` of each page is its effect, and a page
-- that it refuses ends the code with a panic.
use funderberker.Common.{
  ℕ, zero, suc, ◌+◌, ◌-◌, ◌*◌, ◌%◌, ◌≤◌, ◌<◌, ◌≡◌, refl, arith, Bool, true, ◌&&◌, ◌==◌, leb, ltb,
  if◌then◌else◌, Option, none, some, List, [], ◌∷◌, Outcome, ok, panic, ◌>>=◌, unwrap_option,
  Bool-cases, inl, inr, ==_iff, add_usize, usize_mod,
}
use funderberker.Paging.Flags.{Flags}
use funderberker.Paging.PageSize.{PageSize, size_4kb, size_2mb, size_1gb}
use funderberker.Paging.Pat.{PatType, set_pat}

-- The arguments of one call of `map_pages`, whose page count is 1
pub record MappedPage : Type 0 where
  pub virt_addr : ℕ
  pub phys_addr : ℕ
  pub page_size : PageSize
  pub flags : Flags

abbrev fits : ℕ → ℕ → ℕ → PageSize → Bool
fits virt_addr phys_addr total_size p =
    leb p total_size && (phys_addr % p == 0) && (virt_addr % p == 0)

-- The page size of a round; `none` is `unreachable!`.
unfoldable pub choose_page_size : ℕ → ℕ → ℕ → Option PageSize
choose_page_size virt_addr phys_addr total_size =
    if fits virt_addr phys_addr total_size size_1gb
    then some size_1gb
    else if fits virt_addr phys_addr total_size size_2mb
    then some size_2mb
    else if fits virt_addr phys_addr total_size size_4kb
    then some size_4kb
    else none

abbrev apply_pat : Option PatType → Flags → PageSize → Flags
apply_pat none flags p = flags
apply_pat (some t) flags p = set_pat flags t p

-- The loop, on fuel: each round maps a page at least.
unfoldable pub map_in_entry : ℕ → ℕ → ℕ → ℕ → Flags → Option PatType → Outcome ⊥ (List MappedPage)
unfolding choose_page_size set_pat
map_in_entry zero virt_addr phys_addr total_size flags pat =
    if total_size == 0 then ok [] else panic
map_in_entry (suc fuel) virt_addr phys_addr total_size flags pat =
    if total_size == 0 then ok [] else do
      page_size ← unwrap_option (choose_page_size virt_addr phys_addr total_size)
      let marked = apply_pat pat flags page_size
      next_phys ← add_usize phys_addr page_size
      next_virt ← add_usize virt_addr page_size
      pages ← map_in_entry fuel next_virt next_phys (total_size - page_size) marked pat
      let page : MappedPage = record {
        virt_addr = virt_addr;
        phys_addr = phys_addr;
        page_size = page_size;
        flags = marked;
      }
      ok (page ∷ pages)

-- The pages cover a range of virtual addresses, one behind the other, and the physical range with
-- them; each address is a multiple of its page's size.
abbrev pub Tiles : ℕ → ℕ → ℕ → List MappedPage → Type 0
Tiles virt_addr phys_addr total_size [] = total_size ≡ 0
Tiles virt_addr phys_addr total_size (page ∷ pages) =
    (page.virt_addr ≡ virt_addr)
    × (page.phys_addr ≡ phys_addr)
    × (virt_addr % page.page_size ≡ 0)
    × (phys_addr % page.page_size ≡ 0)
    × (page.page_size ≤ total_size)
    × Tiles (virt_addr + page.page_size) (phys_addr + page.page_size) (total_size - page.page_size)
        pages

-- What a round chooses in a range of whole pages: a page size that fits, which is made of whole pages.
choose_page_size_lem :
    (virt_addr phys_addr total_size : ℕ)
    → virt_addr % 4096 ≡ 0
    → phys_addr % 4096 ≡ 0
    → total_size % 4096 ≡ 0
    → 0 < total_size
    → (p : PageSize) × (choose_page_size virt_addr phys_addr total_size ≡ some p)
      × (p ≤ total_size)
      × (virt_addr % p ≡ 0)
      × (phys_addr % p ≡ 0)
      × (p % 4096 ≡ 0)
      × (4096 ≤ p)
unfolding choose_page_size
choose_page_size_lem v p t hv hp ht pos = elim (Bool-cases (fits v p t size_1gb)) [
  | inl e ↦
      (size_1gb, ground (arith, e), ground arith, ground arith, ground arith, refl, omega arith)
  | inr e ↦ elim (Bool-cases (fits v p t size_2mb)) [
    | inl f ↦ (
      size_2mb,
      ground (arith, e, f),
      ground arith,
      ground arith,
      ground arith,
      refl,
      omega arith,
    )
    | inr f ↦ (size_4kb, ground (arith, e, f), ground arith, hv, hp, refl, omega arith)
  ]
]

sum_whole : (a b : ℕ) → a % 4096 ≡ 0 → b % 4096 ≡ 0 → (a + b) % 4096 ≡ 0
sum_whole a b h g = omega arith

difference_whole : (a b : ℕ) → a % 4096 ≡ 0 → b % 4096 ≡ 0 → (a - b) % 4096 ≡ 0
difference_whole a b h g = omega arith

-- A range of whole pages, of which neither end passes the largest `usize`: the loop ends without a
-- panic of its own when it has a round for each 4KB of the range, and the pages that it maps tile the
-- range, whatever the flags and the type of the page attribute table.
pub map_in_entry-Tiles :
    (fuel virt_addr phys_addr total_size : ℕ) (flags : Flags) (pat : Option PatType)
    → virt_addr % 4096 ≡ 0
    → phys_addr % 4096 ≡ 0
    → total_size % 4096 ≡ 0
    → total_size ≤ fuel * 4096
    → virt_addr + total_size < usize_mod
    → phys_addr + total_size < usize_mod
    → (pages : List MappedPage) × (map_in_entry fuel virt_addr phys_addr total_size flags pat
        ≡ ok pages)
      × Tiles virt_addr phys_addr total_size pages
unfolding map_in_entry
map_in_entry-Tiles zero v p t flags pat hv hp ht enough vb pb =
    let e : t ≡ 0 = omega arith in ([], rw e refl, e)
map_in_entry-Tiles (suc fuel) v p t flags pat hv hp ht enough vb pb = elim (Bool-cases (t == 0)) [
  | inl e ↦ ([], rw e refl, (==_iff t 0).0 e)
  | inr e ↦
      let (s, chosen, le, va, pa, whole, least) =
        choose_page_size_lem v p t hv hp ht (ground arith) in
      let (pages, rest, tiles) =
        map_in_entry-Tiles fuel (v + s) (p + s) (t - s) (apply_pat pat flags s) pat
          (sum_whole v s hv whole) (sum_whole p s hp whole) (difference_whole t s ht whole)
          (omega arith) (omega arith) (omega arith) in
      let pv : ltb (v + s) usize_mod ≡ true = ground arith in
      let pp : ltb (p + s) usize_mod ≡ true = ground arith in
      let page : MappedPage = record {
        virt_addr = v;
        phys_addr = p;
        page_size = s;
        flags = apply_pat pat flags s;
      } in
      (page ∷ pages, rw (e, chosen, pp, pv, rest) refl, (refl, refl, va, pa, le, tiles))
]
