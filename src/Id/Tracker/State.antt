-- ===== src/Id/Tracker/State.antt =====
-- What a tracker stands for: the identifiers of its pool that are taken.
use funderberker.Common.{
  ℕ, ◌+◌, ◌-◌, ◌≤◌, ◌<◌, ◌≡◌, arith, Bool, ok, err, ◌==◌, if◌then◌else◌, usize_mod,
}
use funderberker.Bitmap.Contents
use funderberker.Bitmap.Contents.{contents}
use funderberker.Id.Tracker.{IdTracker, invalid_id, bit_index}

pub record IsValid (t : IdTracker) : Type 0 where
  pub bits : Contents.IsValid t.bitmap
  pub nonempty : 0 < t.bitmap.used_bits_count
  -- The end of the pool is a `usize`.
  pub fits : t.min + t.bitmap.used_bits_count < usize_mod

-- `id` belongs to the pool.
abbrev pub InPool : IdTracker → ℕ → Type 0
InPool t id = (t.min ≤ id) × (id < t.min + t.bitmap.used_bits_count)

unfoldable pub taken : IdTracker → ℕ → Bool
taken t id = contents t.bitmap (id - t.min)

-- `t'` has the pool of `t`, and of its identifiers only the state of `id` is new, namely `b`.
pub record Marks (t : IdTracker) (id : ℕ) (b : Bool) (t' : IdTracker) : Type 0 where
  pub valid : IsValid t'
  pub same_min : t'.min ≡ t.min
  pub same_size : t'.bitmap.used_bits_count ≡ t.bitmap.used_bits_count
  pub marked : (j : ℕ) → InPool t j → taken t' j ≡ (if id == j then b else taken t j)

-- The range check passes exactly on the identifiers of the pool.
pub bit_index-InPool :
    {t : IdTracker} → IsValid t → (id : ℕ) → InPool t id → bit_index t id ≡ ok (id - t.min)
unfolding bit_index
bit_index-InPool v id h = ground (arith, v.fits, v.nonempty)

pub bit_index_outside :
    {t : IdTracker} → IsValid t → (id : ℕ) → ¬ (InPool t id) → bit_index t id ≡ err invalid_id
unfolding bit_index
bit_index_outside v id h = ground (arith, v.fits, v.nonempty)
