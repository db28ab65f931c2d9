-- ===== src/Bitmap/Methods.antt =====
-- `set`, `unset` and `flip` against the contents.
use mathlib.Core.Bool.{xor}
use native.Mathlib.Nat.{pow-le-pow_right}
use funderberker.Common.{
  ℕ, ◌/◌, ◌%◌, ◌^◌, ◌≤◌, ◌<◌, ◌≡◌, refl, arith, Bool, true, false, not, Outcome, ok, err, leb,
  length, get_or, set as set_elem, get_or-set, length-set, bit_or, bit_and, bit_xor, ◌==◌,
  if◌then◌else◌,
}
use funderberker.Bits.{
  bit, bit_not, bit-or, bit-and, bit-xor, bit-pow, bit-bit_not, or-lt, and-le, xor-lt,
}
use funderberker.Bitmap.{
  Bitmap, BitmapError, index_out_of_bounds, update_entry, set, unset, flip, is_set,
}
use funderberker.Bitmap.Contents.{IsValid, contents}

-- The operation succeeds, changes the bit at `i` by `g` and no other, and keeps the size.
abbrev pub Changes : Bitmap → ℕ → (Bool → Bool) → Outcome BitmapError Bitmap → Type 0
Changes b i g o =
    (b' : Bitmap) × (o ≡ ok b')
    × IsValid b'
    × (b'.used_bits_count ≡ b.used_bits_count)
    × ((j : ℕ) → contents b' j ≡ (if i == j then g (contents b j) else contents b j))

module _ {b : Bitmap} (v : IsValid b) (i : ℕ) (inside : i < b.used_bits_count) where
  -- An update of one byte that changes one digit of it.
  update_entry-Changes :
      (f : ℕ → ℕ) (g : Bool → Bool)
      → ((x : ℕ) → x < 2 ^ 8 → f x < 2 ^ 8)
      → ((x k : ℕ) → k < 8 → bit (f x) k ≡ (if i % 8 == k then g (bit x k) else bit x k))
      → Changes b i g (update_entry b (i / 8) f)
  unfolding update_entry contents
  update_entry-Changes f g small digit =
      let entry : ℕ = get_or b.entries (i / 8) 0 in
      let room : i / 8 < length b.entries = omega (arith, v.room) in
      let written = λ (k : ℕ). get_or-set b.entries (i / 8) k (f entry) 0 room in
      (
        record b { entries = set_elem b.entries (i / 8) (f entry) },
        ground arith,
        record {
          room = omega (arith, v.room, length-set b.entries (i / 8) (f entry));
          bytes = λ k. ground (arith, written k, v.bytes k, small entry (v.bytes (i / 8)));
        },
        refl,
        λ j. ground (arith, written (j / 8), digit entry (j % 8) (omega arith)),
      )

mask-lt : (i : ℕ) → 2 ^ (i % 8) < 2 ^ 8
mask-lt i = omega (arith, pow-le-pow_right {n = 2} (omega arith) {i = i % 8} {j = 7} (omega arith))

byte-and-lt : (x y : ℕ) → x < 2 ^ 8 → bit_and x y < 2 ^ 8
byte-and-lt x y h = omega (arith, and-le 8 x y h)

module _ {b : Bitmap} (v : IsValid b) (i : ℕ) (inside : i < b.used_bits_count) where
  guard : leb b.used_bits_count i ≡ false
  guard = ground arith

  -- Inside the bitmap, `set` sets the bit at the index and no other.
  pub set-Changes : Changes b i (λ _. true) (set b i)
  unfolding set
  set-Changes = rw guard (
      update_entry-Changes v i inside (λ x. bit_or x (2 ^ (i % 8))) (λ _. true)
        (λ x h. or-lt 8 x (2 ^ (i % 8)) h (mask-lt i))
        (λ x k lt. ground (arith, bit-or x (2 ^ (i % 8)) k, bit-pow (i % 8) k)))

  -- Inside the bitmap, `unset` clears the bit at the index and no other.
  pub unset-Changes : Changes b i (λ _. false) (unset b i)
  unfolding unset
  unset-Changes =
      let mask : ℕ = bit_not 8 (2 ^ (i % 8)) in
      rw guard (
        update_entry-Changes v i inside (λ x. bit_and x mask) (λ _. false)
          (λ x h. byte-and-lt x mask h)
          (λ x k lt.
            unfold xor in
            ground (arith, bit-and x mask k, bit-bit_not 8 (2 ^ (i % 8)) k, bit-pow (i % 8) k)))

  -- Inside the bitmap, `flip` turns the bit at the index over and changes no other.
  pub flip-Changes : Changes b i not (flip b i)
  unfolding flip
  flip-Changes = rw guard (
      update_entry-Changes v i inside (λ x. bit_xor x (2 ^ (i % 8))) not
        (λ x h. xor-lt 8 x (2 ^ (i % 8)) h (mask-lt i))
        (λ x k lt. unfold xor in ground (arith, bit-xor x (2 ^ (i % 8)) k, bit-pow (i % 8) k)))

-- At or behind the number of bits in use, each of the four answers the same error.
pub out_of_bounds :
    (b : Bitmap) (i : ℕ)
    → b.used_bits_count ≤ i
    → let e = index_out_of_bounds i b.used_bits_count in
      (set b i ≡ err e) × (unset b i ≡ err e) × (flip b i ≡ err e) × (is_set b i ≡ err e)
unfolding set unset flip is_set
out_of_bounds b i h = ground arith
