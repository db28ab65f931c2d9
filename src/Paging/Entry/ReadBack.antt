-- ===== src/Paging/Entry/ReadBack.antt =====
-- What an entry gives back after it was mapped with any flags, also those above the address.
use mathlib.Core.Bool.{xor}
use funderberker.Common.{
  ℕ, ◌-◌, ◌%◌, ◌^◌, ◌<◌, ◌≤◌, ◌≡◌, refl, ◌∙◌, sym, arith, false, not, ◌&&◌, ◌||◌, bit_and, bit_or,
  ◌==◌, leb, ok,
}
use funderberker.Bits.{
  bit, bit_not, bit-and, bit-or, bit-bit_not, bit_ones, bit_of_lt, and_low, and-le, or-lt,
  eq_of_bits,
}
use funderberker.Paging.Flags.{Flags, get_present}
use funderberker.Paging.Flags
use funderberker.Paging.Entry.{Entry, get_flags, set_flags, get_addr, set_addr, map}
use funderberker.Paging.Entry.Laws.{
  moved, joined_flags, bit-moved, moved_lt, set_flags_lt, zero_of_bits, bit_of_aligned,
  get_addr_of_bits,
}

bit-set_flags_any :
    (e g j : ℕ) → j < 64 → bit (set_flags e g) j ≡ (bit g j || (leb 12 j && bit e j))
unfolding set_flags xor
bit-set_flags_any e g j lt = ground (
  arith,
  bit-or (bit_and e (bit_not 64 4095)) g j,
  bit-and e (bit_not 64 4095) j,
  bit-bit_not 64 4095 j,
  bit_ones 12 j,
)

-- The address with the digits of the flags that stand above the low twelve
abbrev pub read_back : ℕ → Flags → ℕ
read_back a f = bit_or a (bit_and f (bit_not 64 4095))

bit-read_back : (a f k : ℕ) → k < 64 → bit (read_back a f) k ≡ (bit a k || (leb 12 k && bit f k))
unfolding xor
bit-read_back a f k lt = ground (
  arith,
  bit-or a (bit_and f (bit_not 64 4095)) k,
  bit-and f (bit_not 64 4095) k,
  bit-bit_not 64 4095 k,
  bit_ones 12 k,
)

read_back_lt : (a f : ℕ) → a < 2 ^ 64 → f < 2 ^ 64 → read_back a f < 2 ^ 64
read_back_lt a f a_lt f_lt = or-lt 64 _ _ a_lt (omega (arith, and-le 64 f (bit_not 64 4095) f_lt))

read_back_aligned :
    (a f b : ℕ)
    → a < 2 ^ 64
    → f < 2 ^ 64
    → a % 2 ^ b ≡ 0
    → ((k : ℕ) → 12 ≤ k → k < b → bit f k ≡ false)
    → read_back a f % 2 ^ b ≡ 0
read_back_aligned a f b a_lt f_lt aligned middle =
    sym (and_low b (read_back a f))
    ∙ zero_of_bits _
        (omega (
          arith,
          read_back_lt a f a_lt f_lt,
          and-le 64 (read_back a f) (2 ^ b - 1) (read_back_lt a f a_lt f_lt),
        ))
        (λ k lt. ground (
          arith,
          bit-and (read_back a f) (2 ^ b - 1) k,
          bit_ones b k,
          bit-read_back a f k lt,
          bit_of_aligned a b k aligned,
          middle k,
        ))

-- Without flags above the low twelve digits it is the address.
read_back_low : (a f : ℕ) → a < 2 ^ 64 → f < 2 ^ 12 → read_back a f ≡ a
read_back_low a f a_lt f_lt =
    eq_of_bits 64 _ _ (read_back_lt a f a_lt (omega arith)) a_lt
      (λ k lt. ground (arith, bit-read_back a f k lt, bit_of_lt 12 f k f_lt))

-- Mapping an entry of 64 digits that is not present to an address that is aligned to a page size of at least
-- 4KB, with flags of 64 digits, where neither the entry nor the flags have digits between the low twelve
-- and the page size and the flags of a big page do not have the page size digit: the entry is made. Its
-- low flags are those asked for, with the present and the last entry flag, and the page size flag
-- exactly if the page is big. The address that is read back is the one asked for if the flags have
-- only the low twelve digits; in general it has the higher digits of the flags as well.
pub map-read_back :
    {E : Type 0} (e a f b : ℕ)
    → e < 2 ^ 64
    → a < 2 ^ 64
    → f < 2 ^ 64
    → 12 ≤ b
    → a % 2 ^ b ≡ 0
    → get_present (get_flags e) ≡ false
    → (bit f 7 && not (2 ^ b == 4096)) ≡ false
    → ((k : ℕ) → 12 ≤ k → k < b → bit e k ≡ false)
    → ((k : ℕ) → 12 ≤ k → k < b → bit f k ≡ false)
    → (n : Entry) × (r : ℕ) × (map e a f (2 ^ b) ≡ ok n)
      × (get_addr {E = E} n (2 ^ b) ≡ ok r)
      × (f < 2 ^ 12 → r ≡ a)
      × ((k : ℕ) → k < 64 → bit r k ≡ (bit a k || (leb 12 k && bit f k)))
      × ((k : ℕ)
          → k < 12
          → bit (get_flags n) k
            ≡ (bit f k || (0 == k) || (10 == k) || (not (2 ^ b == 4096) && (7 == k))))
unfolding map set_addr get_flags Flags.get Flags.set
map-read_back {E} e a f b e_lt a_lt f_lt low aligned absent free middle f_middle =
    let (g, joined, g_lt, bits) = joined_flags (2 ^ b) f f_lt free in
    let m = moved e a b in
    let m_lt = moved_lt e a b e_lt a_lt in
    let n = set_flags m g in
    let mask : bit_and a (2 ^ b - 1) ≡ 0 = and_low b a ∙ aligned in
    (
      n,
      read_back a f,
      rw (absent, mask, joined) refl,
      get_addr_of_bits {E = E} n (read_back a f) b (set_flags_lt m g m_lt g_lt)
          (read_back_lt a f a_lt f_lt) (read_back_aligned a f b a_lt f_lt aligned f_middle)
          (λ k lt p q.
            ground (
              arith,
              bit-set_flags_any m g k lt,
              bit-moved e a b k lt,
              middle k,
              bits k,
              f_middle k,
            ))
          (λ k lt p. ground (
            arith,
            bit-set_flags_any m g k lt,
            bit-moved e a b k lt,
            bits k,
            bit-read_back a f k lt,
          )),
      λ small. read_back_low a f a_lt small,
      bit-read_back a f,
      λ k lt.
          ground
            (arith, bit-and n 4095 k, bit_ones 12 k, bit-set_flags_any m g k (omega arith), bits k),
    )
