-- ===== src/Tests/BitmapRuns.antt =====
-- Runs of bitmaps: the bitmap of ten bits 1010000011.
use funderberker.Common.{
  ℕ, zero, suc, ◌/◌, ◌<◌, ◌≡◌, refl, arith, false, get_or, [], ◌∷◌, ok, ltb, if◌then◌else◌,
}
use funderberker.Bitmap.{Bitmap, div_ceil, grow, shrink}
use funderberker.Bitmap.Contents.{contents, IsValid}
use funderberker.Bitmap.Resize.{grow-shrink}

abbrev ten_bits : Bitmap
ten_bits = record { entries = 5 ∷ 3 ∷ []; used_bits_count = 10 }

ten_bits-bytes : (k : ℕ) → get_or ten_bits.entries k 0 < 256
ten_bits-bytes zero = omega arith
ten_bits-bytes (suc zero) = omega arith
ten_bits-bytes (suc (suc k)) = omega arith

ten_bits-IsValid : IsValid ten_bits
ten_bits-IsValid = record { room = omega arith; bytes = ten_bits-bytes }

abbrev nine_bits : Bitmap
nine_bits = record { entries = 5 ∷ 3 ∷ []; used_bits_count = 9 }

cut : shrink ten_bits 9 ≡ ok nine_bits
unfolding shrink div_ceil
cut = refl

grown : grow nine_bits 10 ≡ ok ten_bits
unfolding grow div_ceil
grown = refl

-- The tenth bit was set, is cut off, and is set again after the bitmap has grown back.
grow-shrink_example :
    contents ten_bits 9 ≡ (if ltb (9 / 8) (div_ceil 9 8) then contents ten_bits 9 else false)
grow-shrink_example = grow-shrink ten_bits-IsValid (omega arith) cut grown 9
