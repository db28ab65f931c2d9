-- ===== src/Tests/SlabRuns.antt =====
-- Runs of a slab of three objects of 32 bytes, of which the first is in use, and of the virtual
-- address allocator.
use funderberker.Common.{
  ℕ, ◌-◌, ◌%◌, ◌≡◌, refl, arith, true, [], ◌∷◌, ok, panic, ◌==◌, if◌then◌else◌, usize_mod,
}
use funderberker.Slab.{Layout, Slab, allocate_slab, free_slab}
use funderberker.Slab.Counts.{count}
use funderberker.Slab.Single.{IsValid, is_object, allocate_slab_lem, free_slab_lem}
use funderberker.Vaa.{handout, handout_misaligned}

abbrev words : Layout
words = record { size = 32; align = 32 }

abbrev slab : Slab
slab = record { buffer = 4096; free_objects = 4128 ∷ 4160 ∷ []; allocated_count = 1; capacity = 3 }

slab-IsValid : IsValid words (4096 ∷ []) slab
slab-IsValid = (λ x. ground arith, refl, λ x h. ground arith)

allocate_slab_lem_example :
    (ptr : ℕ) × (s : Slab) × (allocate_slab slab words ≡ (ok ptr, s))
    × (is_object slab words ptr ≡ true)
    × (count ptr (4096 ∷ []) ≡ 0)
    × IsValid words (ptr ∷ 4096 ∷ []) s
allocate_slab_lem_example = allocate_slab_lem slab words (4096 ∷ []) slab-IsValid (omega arith)

free_slab_lem_example :
    (s : Slab) × (free_slab slab 4096 words ≡ ok s)
    × (count 4096 s.free_objects ≡ 1)
    × IsValid words [] s
free_slab_lem_example = free_slab_lem slab words (4096 ∷ []) 4096 slab-IsValid (omega arith)

abbrev align_units : ℕ → ℕ → ℕ
align_units addr alignment = if addr % alignment == 0 then 0 else usize_mod - 1

handout_misaligned_example :
    handout align_units (record { hander = record { next = 514; max = 9999 } }) 1 512 ≡ panic
handout_misaligned_example =
    handout_misaligned align_units (λ addr alignment. refl)
      (record { hander = record { next = 514; max = 9999 } }) 1 512 (omega arith) (omega arith)
