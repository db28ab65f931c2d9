-- ===== src/Bitmap/Iter.antt =====
-- A `for` loop over the iterator against the contents.
use funderberker.Common.{
  ℕ, zero, suc, ◌+◌, ◌≤◌, ◌<◌, ◌≡◌, arith, Bool, none, some, List, [], ◌∷◌, ok,
}
use funderberker.Bitmap.{Bitmap, BitmapIterator, iter, next}
use funderberker.Bitmap.Contents.{IsValid, contents, is_set-contents}

-- The bits from place `i` on, `n` of them.
unfoldable pub bits_from : Bitmap → ℕ → ℕ → List Bool
bits_from b i zero = []
bits_from b i (suc n) = contents b i ∷ bits_from b (i + 1) n

abbrev at : Bitmap → ℕ → BitmapIterator
at b i = record { bitmap = b; current_index = i }

-- `Yields it xs`: the calls of `next` from `it` on give the items `xs` and then `None`.
pub data Yields : BitmapIterator → List Bool → Type 0 where
  done : {it : BitmapIterator} → next it ≡ ok (none, it) → Yields it []
  item :
      {it it' : BitmapIterator} {x : Bool} {xs : List Bool}
      → next it ≡ ok (some x, it')
      → Yields it' xs
      → Yields it (x ∷ xs)

next_inside :
    {b : Bitmap}
    → IsValid b
    → (i : ℕ) → i < b.used_bits_count
    → next (at b i) ≡ ok (some (contents b i), at b (i + 1))
unfolding next
next_inside {b} v i h = ground (arith, is_set-contents v i h)

next_end : (b : Bitmap) (i : ℕ) → b.used_bits_count ≤ i → next (at b i) ≡ ok (none, at b i)
unfolding next
next_end b i h = ground arith

Yields-from :
    {b : Bitmap}
    → IsValid b
    → (n i : ℕ) → i + n ≡ b.used_bits_count
    → Yields (at b i) (bits_from b i n)
unfolding bits_from
Yields-from {b} v zero i e = done (next_end b i (omega arith))
Yields-from v (suc n) i e =
    item (next_inside v i (omega arith)) (Yields-from v n (i + 1) (omega arith))

-- Iterating over a well-formed bitmap yields its bits in order, each once, and then ends.
pub iter-Yields : {b : Bitmap} → IsValid b → Yields (iter b) (bits_from b 0 b.used_bits_count)
iter-Yields {b} v = Yields-from v b.used_bits_count 0 (omega arith)
