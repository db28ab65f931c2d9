-- ===== src/Bitmap/Resize.antt =====
-- `new`, `grow`, `shrink` and `clear` against the contents.
use funderberker.Common.{
  ℕ, zero, suc, ◌+◌, ◌-◌, ◌*◌, ◌/◌, ◌%◌, ◌≤◌, ◌<◌, ◌≡◌, refl, arith, false, ok, err, List, [], ◌∷◌,
  ◌++◌, map, ltb, length, Bool-cases, inl, inr, max, get_or_beyond, get_or, take, replicate,
  length-append, length-replicate, length-take, get_or-append, get_or-take, get_or-replicate,
  if◌then◌else◌,
}
use funderberker.Bits.{bit-zero}
use funderberker.Bitmap.{Bitmap, invalid_size, div_ceil, new, grow, shrink, clear}
use funderberker.Bitmap.Contents.{IsValid, contents}

-- `div_ceil` by 8 gives the least number of bytes that have room for the bits.
div_ceil_bounds : (n : ℕ) → (n ≤ 8 * div_ceil n 8) × (8 * div_ceil n 8 < n + 8)
unfolding div_ceil
div_ceil_bounds n = ground arith

-- A new bitmap is well formed, has the size asked for, and all its bits are clear.
pub new-IsValid :
    (n : ℕ)
    → IsValid (new n) × ((new n).used_bits_count ≡ n) × ((i : ℕ) → contents (new n) i ≡ false)
unfolding new contents
new-IsValid n = (
  record {
    room = ground (arith, div_ceil_bounds n, length-replicate {A = ℕ} (div_ceil n 8) 0);
    bytes = λ k. rw get_or-replicate (omega arith);
  },
  refl,
  λ i. rw (get_or-replicate, bit-zero),
)

-- The vector after `resize`, which adds zeros and never drops an entry.
resized : List ℕ → ℕ → List ℕ
resized xs n = if ltb (length xs) n then xs ++ replicate (n - length xs) 0 else xs

get_or-resized : (xs : List ℕ) (n k : ℕ) → get_or (resized xs n) k 0 ≡ get_or xs k 0
unfolding resized
get_or-resized xs n k = elim (Bool-cases (ltb (length xs) n)) [
  | inl more ↦
      let zeros : List ℕ = replicate (n - length xs) 0 in
      rw more (
        ground (
          arith,
          get_or-append xs zeros k 0,
          get_or_beyond xs k 0,
          get_or-replicate {A = ℕ} (n - length xs) (k - length xs) 0,
        ))
  | inr enough ↦ rw enough
]

length-resized : (xs : List ℕ) (n : ℕ) → length (resized xs n) ≡ max (length xs) n
unfolding resized
length-resized xs n = elim (Bool-cases (ltb (length xs) n)) [
  | inl more ↦
      let zeros : List ℕ = replicate (n - length xs) 0 in
      rw more (ground (arith, length-append xs zeros, length-replicate {A = ℕ} (n - length xs) 0))
  | inr enough ↦ rw enough (ground arith)
]

-- Growing to a size that is no smaller succeeds: the bitmap stays well formed, has the new size,
-- and every bit of the vector is as before. Any other size is refused.
pub grow_lem :
    {b : Bitmap}
    → IsValid b
    → (n : ℕ)
    → (b.used_bits_count ≤ n
        → (b' : Bitmap) × (grow b n ≡ ok b')
          × IsValid b'
          × (b'.used_bits_count ≡ n)
          × ((i : ℕ) → contents b' i ≡ contents b i))
      × (n < b.used_bits_count → grow b n ≡ err (invalid_size n))
unfolding grow contents resized
grow_lem {b} v n =
    let c : ℕ = div_ceil n 8 in
    (
      λ le. (
        record { entries = resized b.entries c; used_bits_count = n },
        ground arith,
        record {
          room = omega (arith, length-resized b.entries c, div_ceil_bounds n);
          bytes = λ k. rw (get_or-resized b.entries c k) (v.bytes k);
        },
        refl,
        λ i. rw (get_or-resized b.entries c (i / 8)),
      ),
      λ lt. ground arith,
    )

-- Shrinking to a size that is no larger succeeds: the bitmap stays well formed, has the new size,
-- and the bits below it are as before. Any other size is refused.
pub shrink_lem :
    {b : Bitmap}
    → IsValid b
    → (n : ℕ)
    → (n ≤ b.used_bits_count
        → (b' : Bitmap) × (shrink b n ≡ ok b')
          × IsValid b'
          × (b'.used_bits_count ≡ n)
          × ((i : ℕ) → i < n → contents b' i ≡ contents b i))
      × (b.used_bits_count < n → shrink b n ≡ err (invalid_size n))
unfolding shrink contents
shrink_lem {b} v n =
    let c : ℕ = div_ceil n 8 in
    (
      λ le. (
        record { entries = take c b.entries; used_bits_count = n },
        ground arith,
        record {
          room = omega (arith, v.room, length-take c b.entries, div_ceil_bounds n);
          bytes = λ k. ground (arith, get_or-take c b.entries k 0, v.bytes k);
        },
        refl,
        λ i lt. ground (arith, get_or-take c b.entries (i / 8) 0, div_ceil_bounds n),
      ),
      λ lt. ground arith,
    )

shrunk_contents :
    (b c : Bitmap) (n : ℕ)
    → shrink b n ≡ ok c
    → (i : ℕ) → contents c i ≡ (if ltb (i / 8) (div_ceil n 8) then contents b i else false)
unfolding shrink contents
shrunk_contents b c n e i =
    ground (arith, get_or-take (div_ceil n 8) b.entries (i / 8) 0, bit-zero (i % 8))

shrunk_IsValid :
    {b c : Bitmap} {n : ℕ}
    → IsValid b
    → shrink b n ≡ ok c
    → n ≤ b.used_bits_count
    → IsValid c × (c.used_bits_count ≡ n)
shrunk_IsValid {b} {c} {n} v e le =
    let (c', done, v', size, same) = (shrink_lem v n).0 le in
    let same_result : c' ≡ c = cc in (rw same_result at v', rw same_result at size)

-- Growing back to the size before a `shrink` does not restore a clear tail: a bit that was cut
-- off is up again exactly when it was set and its byte was kept, since `shrink` clears no bit of
-- the last byte.
pub grow-shrink :
    {b c d : Bitmap} {n : ℕ}
    → IsValid b
    → n ≤ b.used_bits_count
    → shrink b n ≡ ok c
    → grow c b.used_bits_count ≡ ok d
    → (i : ℕ) → contents d i ≡ (if ltb (i / 8) (div_ceil n 8) then contents b i else false)
grow-shrink {b} {c} {d} {n} v le shrunk grown i =
    let (v', size) = shrunk_IsValid v shrunk le in
    let (d', done, _, _, same) = (grow_lem v' b.used_bits_count).0 (omega arith) in
    let same_result : d' ≡ d = cc in rw (← same_result, same i) (shrunk_contents b c n shrunk i)

zeroed : List ℕ → List ℕ
zeroed xs = map (λ _. 0) xs

get_or-zeroed : (xs : List ℕ) (i : ℕ) → get_or (zeroed xs) i 0 ≡ 0
unfolding zeroed
get_or-zeroed [] i = refl
get_or-zeroed (x ∷ xs) zero = refl
get_or-zeroed (x ∷ xs) (suc i) = get_or-zeroed xs i

length-zeroed : (xs : List ℕ) → length (zeroed xs) ≡ length xs
unfolding zeroed
length-zeroed [] = refl
length-zeroed (x ∷ xs) = omega (arith, length-zeroed xs)

-- `clear`
pub clear_lem :
    {b : Bitmap} → IsValid b → IsValid (clear b) × ((i : ℕ) → contents (clear b) i ≡ false)
unfolding clear contents zeroed
clear_lem {b} v = (
  record {
    room = omega (arith, v.room, length-zeroed b.entries);
    bytes = λ k. rw get_or-zeroed (omega arith);
  },
  λ i. rw (get_or-zeroed, bit-zero),
)

-- Growing a well-formed bitmap to a size that is no smaller succeeds: it stays well formed, has the new
-- size, and every bit of the vector is as before.
pub grow-IsValid :
    {b : Bitmap}
    → IsValid b
    → (n : ℕ) → b.used_bits_count ≤ n
    → (b' : Bitmap) × (grow b n ≡ ok b')
      × IsValid b'
      × (b'.used_bits_count ≡ n)
      × ((i : ℕ) → contents b' i ≡ contents b i)
grow-IsValid v n le = (grow_lem v n).0 le

-- Shrinking a well-formed bitmap to a size that is no larger succeeds: it stays well formed, has the new
-- size, and the bits below it are as before.
pub shrink-IsValid :
    {b : Bitmap}
    → IsValid b
    → (n : ℕ) → n ≤ b.used_bits_count
    → (b' : Bitmap) × (shrink b n ≡ ok b')
      × IsValid b'
      × (b'.used_bits_count ≡ n)
      × ((i : ℕ) → i < n → contents b' i ≡ contents b i)
shrink-IsValid v n le = (shrink_lem v n).0 le
