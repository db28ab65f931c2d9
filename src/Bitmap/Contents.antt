-- ===== src/Bitmap/Contents.antt =====
-- What a bitmap stands for, and its well-formedness.
use funderberker.Common.{ℕ, ◌*◌, ◌/◌, ◌%◌, ◌^◌, ◌≤◌, ◌<◌, ◌≡◌, arith, Bool, ok, length, get_or}
use funderberker.Bits.{bit, and-pow-ne_zero}
use funderberker.Bitmap.{Bitmap, is_set}

-- The bit at a place, `false` behind the vector.
unfoldable pub contents : Bitmap → ℕ → Bool
contents b i = bit (get_or b.entries (i / 8) 0) (i % 8)

pub record IsValid (b : Bitmap) : Type 0 where
  -- The vector has room for the bits in use.
  pub room : b.used_bits_count ≤ 8 * length b.entries
  -- Every entry is a byte.
  pub bytes : (k : ℕ) → get_or b.entries k 0 < 2 ^ 8

pub is_set-contents :
    {b : Bitmap} → IsValid b → (i : ℕ) → i < b.used_bits_count → is_set b i ≡ ok (contents b i)
unfolding is_set contents
is_set-contents {b} v i h = ground (arith, and-pow-ne_zero (get_or b.entries (i / 8) 0) (i % 8))
