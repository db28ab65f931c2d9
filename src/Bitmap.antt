-- ===== src/Bitmap.antt =====
-- utils/src/collections/bitmap.rs: the growable bitmap. A `u8` is a number below 2 ^ 8; a method
-- on `&mut self` returns the new bitmap, and an error leaves the old one in place. Indexing the
-- vector out of range panics.
pub mod Contents
pub mod Methods
pub mod Resize
pub mod Iter
use funderberker.Common.{
  ℕ, zero, suc, ◌+◌, ◌-◌, ◌/◌, ◌%◌, ◌^◌, ◌≤◌, bit_and, bit_or, bit_xor, Bool, true, false, not,
  Option, none, some, List, [], ◌∷◌, ◌++◌, map, ltb, leb, ◌==◌, if◌then◌else◌, length, get_or,
  set as set_elem, take, replicate, Outcome, ok, err, panic, ◌>>=◌,
}
use funderberker.Bits.{bit_not}

pub record Bitmap : Type 0 where
  pub entries : List ℕ
  pub used_bits_count : ℕ

pub data BitmapError : Type 0 where
  index_out_of_bounds : ℕ → ℕ → BitmapError
  invalid_size : ℕ → BitmapError

abbrev pub uninit : Bitmap
uninit = record { entries = []; used_bits_count = 0 }

-- `div_ceil`
unfoldable pub div_ceil : ℕ → ℕ → ℕ
div_ceil n d = if n % d == 0 then n / d else n / d + 1

unfoldable pub new : ℕ → Bitmap
new n = record { entries = replicate (div_ceil n 8) 0; used_bits_count = n }

-- `self.entries[i] = f(self.entries[i])`
unfoldable pub update_entry : Bitmap → ℕ → (ℕ → ℕ) → Outcome BitmapError Bitmap
update_entry b i f =
    if ltb i (length b.entries)
    then ok (record b { entries = set_elem b.entries i (f (get_or b.entries i 0)) })
    else panic

-- The guard that `set`, `unset`, `flip` and `is_set` begin with.
unfoldable pub in_bounds : {A : Type 0} → Bitmap → ℕ → Outcome BitmapError A → Outcome BitmapError A
in_bounds b index rest =
    if leb b.used_bits_count index then err (index_out_of_bounds index b.used_bits_count) else rest

unfoldable pub set : Bitmap → ℕ → Outcome BitmapError Bitmap
unfolding update_entry in_bounds
set b index =
    in_bounds b index (update_entry b (index / 8) (λ entry. bit_or entry (2 ^ (index % 8))))

unfoldable pub unset : Bitmap → ℕ → Outcome BitmapError Bitmap
unfolding update_entry in_bounds
unset b index =
    in_bounds b index
      (update_entry b (index / 8) (λ entry. bit_and entry (bit_not 8 (2 ^ (index % 8)))))

unfoldable pub flip : Bitmap → ℕ → Outcome BitmapError Bitmap
unfolding update_entry in_bounds
flip b index =
    in_bounds b index (update_entry b (index / 8) (λ entry. bit_xor entry (2 ^ (index % 8))))

unfoldable pub is_set : Bitmap → ℕ → Outcome BitmapError Bool
unfolding in_bounds
is_set b index = in_bounds b index (
    if ltb (index / 8) (length b.entries)
    then ok (not (bit_and (get_or b.entries (index / 8) 0) (2 ^ (index % 8)) == 0))
    else panic)

unfoldable pub grow : Bitmap → ℕ → Outcome BitmapError Bitmap
grow b new_size =
    if ltb new_size b.used_bits_count
    then err (invalid_size new_size)
    else let new_entries_count : ℕ = div_ceil new_size 8 in
      ok (record {
        entries =
            if ltb (length b.entries) new_entries_count
            then b.entries ++ replicate (new_entries_count - length b.entries) 0
            else b.entries;
        used_bits_count = new_size;
      })

unfoldable pub shrink : Bitmap → ℕ → Outcome BitmapError Bitmap
shrink b new_size =
    if ltb b.used_bits_count new_size
    then err (invalid_size new_size)
    else ok (record { entries = take (div_ceil new_size 8) b.entries; used_bits_count = new_size })

unfoldable pub clear : Bitmap → Bitmap
clear b = record b { entries = map (λ _. 0) b.entries }

-- The borrowing and the owning iterator have the same state and the same `next`.
pub record BitmapIterator : Type 0 where
  pub bitmap : Bitmap
  pub current_index : ℕ

abbrev pub iter : Bitmap → BitmapIterator
iter b = record { bitmap = b; current_index = 0 }

-- `unwrap_or(false)`
abbrev pub unwrap_or_false : Outcome BitmapError Bool → Outcome BitmapError Bool
unwrap_or_false (ok b) = ok b
unwrap_or_false (err e) = ok false
unwrap_or_false panic = panic

unfoldable pub next : BitmapIterator → Outcome BitmapError (Option Bool × BitmapIterator)
next it = if leb it.bitmap.used_bits_count it.current_index then ok (none, it) else do
  result ← unwrap_or_false (is_set it.bitmap it.current_index)
  ok (some result, record it { current_index = it.current_index + 1 })
