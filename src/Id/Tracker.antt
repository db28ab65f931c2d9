-- ===== src/Id/Tracker.antt =====
-- utils/src/collections/id/tracker.rs: identifiers from a finite pool, tracked by a bitmap.
pub mod State
pub mod Allocate
pub mod At
use funderberker.Common.{
  ℕ, zero, suc, ◌+◌, ◌-◌, Bool, true, false, not, Outcome, ok, err, panic, ◌>>=◌, add_usize,
  sub_usize, unwrap, map_err, ltb, if◌then◌else◌,
}
use funderberker.Bitmap
use funderberker.Bitmap.{Bitmap}

pub data IdTrackerError : Type 0 where
  out_of_ids id_already_free invalid_id id_already_taken : IdTrackerError

pub record IdTracker : Type 0 where
  pub bitmap : Bitmap
  pub min : ℕ

abbrev pub uninit : IdTracker
uninit = record { bitmap = Bitmap.uninit; min = 0 }

unfoldable pub new : ℕ → ℕ → Outcome IdTrackerError IdTracker
new min max = do
  span ← sub_usize max min
  count ← add_usize span 1
  ok (record { bitmap = Bitmap.new count; min = min })

-- `for i in 0..used_bits_count`, `n` rounds before its end.
unfoldable pub allocate_loop : IdTracker → ℕ → ℕ → Outcome IdTrackerError (ℕ × IdTracker)
allocate_loop t zero i = err out_of_ids
allocate_loop t (suc n) i =
    let rest = allocate_loop t n (i + 1) in
    do
      taken ← map_err (λ _. invalid_id) (Bitmap.is_set t.bitmap i)
      if not taken
          then (do
            id ← add_usize t.min i
            bitmap ← unwrap (Bitmap.set t.bitmap i)
            ok (id, record t { bitmap = bitmap }))
          else rest

unfoldable pub allocate : IdTracker → Outcome IdTrackerError (ℕ × IdTracker)
allocate t = allocate_loop t t.bitmap.used_bits_count 0

-- The index of the bit of `id`, behind the range check that `allocate_at` and `free` begin with.
-- The last identifier of the pool is computed only if the first half of the check passes.
unfoldable pub bit_index : IdTracker → ℕ → Outcome IdTrackerError ℕ
bit_index t id = if ltb id t.min then err invalid_id else do
  end ← add_usize t.min t.bitmap.used_bits_count
  last ← sub_usize end 1
  if ltb last id then err invalid_id else sub_usize id t.min

unfoldable pub allocate_at : IdTracker → ℕ → Outcome IdTrackerError IdTracker
unfolding bit_index
allocate_at t id = do
  index ← bit_index t id
  found ← unwrap (Bitmap.is_set t.bitmap index)
  if found
      then err id_already_taken
      else (do bitmap ← unwrap (Bitmap.set t.bitmap index); ok (record t { bitmap = bitmap }))

unfoldable pub free : IdTracker → ℕ → Outcome IdTrackerError IdTracker
unfolding bit_index
free t id = do
  index ← bit_index t id
  found ← unwrap (Bitmap.is_set t.bitmap index)
  if not found
      then err id_already_free
      else (do bitmap ← unwrap (Bitmap.unset t.bitmap index); ok (record t { bitmap = bitmap }))
