-- ===== src/Tests/TrackerRuns.antt =====
-- Runs of the identifier tracker over the pool 5 to 7, of which 5 is taken, and of the hander.
use funderberker.Common.{get_or, ℕ, zero, suc, ◌<◌, ◌≡◌, refl, arith, [], ◌∷◌, ok}
use funderberker.Bitmap
use funderberker.Bitmap.{Bitmap}
use funderberker.Id.Tracker.{IdTracker, allocate, allocate_loop}
use funderberker.Id.Tracker.State.{IsValid}
use funderberker.Id.Tracker.Allocate.{Allocates, allocate-Allocates}
use funderberker.Id.Hander.{IdHander, requests, InOrder, requests-InOrder, handout_and_skip}

abbrev three_ids : IdTracker
three_ids = record { bitmap = record { entries = 1 ∷ []; used_bits_count = 3 }; min = 5 }

three_ids-bytes : (k : ℕ) → get_or three_ids.bitmap.entries k 0 < 256
three_ids-bytes zero = omega arith
three_ids-bytes (suc k) = omega arith

three_ids-IsValid : IsValid three_ids
three_ids-IsValid = record {
  bits = record { room = omega arith; bytes = three_ids-bytes };
  nonempty = omega arith;
  fits = omega arith;
}

allocate-Allocates_example : Allocates three_ids (allocate three_ids)
allocate-Allocates_example = allocate-Allocates three_ids-IsValid

abbrev two_taken : IdTracker
two_taken = record { bitmap = record { entries = 3 ∷ []; used_bits_count = 3 }; min = 5 }

allocate_six : allocate three_ids ≡ ok (6, two_taken)
unfolding allocate allocate_loop Bitmap.is_set Bitmap.set Bitmap.update_entry
allocate_six = refl

abbrev ten_ids : IdHander
ten_ids = record { next = 3; max = 9 }

granted_three : requests ten_ids (4 ∷ 5 ∷ 1 ∷ []) ≡ ok ((3, 4) ∷ (7, 5) ∷ [])
unfolding requests handout_and_skip
granted_three = refl

requests-InOrder_example : InOrder 9 3 ((3, 4) ∷ (7, 5) ∷ [])
requests-InOrder_example =
    requests-InOrder ten_ids (4 ∷ 5 ∷ 1 ∷ []) ((3, 4) ∷ (7, 5) ∷ []) granted_three
