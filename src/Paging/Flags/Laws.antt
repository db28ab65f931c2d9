-- ===== src/Paging/Flags/Laws.antt =====
-- The flags as the digits of their word.
use mathlib.Core.Bool.{xor}
use funderberker.Common.{
  ℕ, ◌^◌, ◌<◌, ◌≡◌, arith, Bool, true, false, ◌&&◌, ◌||◌, none, some, bit_and, bit_or, ◌==◌,
  if◌then◌else◌, Bool-cases, ==_iff, inl, inr,
}
use funderberker.Bits.{
  bit, bit_not, bit-and, bit-or, bit-pow, bit-bit_not, and-pow-ne_zero, bit-zero, eq_of_bits,
  and-le, or-lt,
}
use funderberker.Paging.Flags.{Flags, get, set, join}

-- Reading a flag reads its digit.
pub get-bit : (f : Flags) (k : ℕ) → get f (2 ^ k) ≡ bit f k
unfolding get
get-bit f k = and-pow-ne_zero f k

-- Setting or clearing a flag gives its digit the value, and leaves the others.
pub bit-set :
    (f : Flags) (k : ℕ) (status : Bool) (j : ℕ)
    → j < 64
    → bit (set f (2 ^ k) status) j ≡ (if k == j then status else bit f j)
unfolding set xor
bit-set f k true j h = ground (arith, bit-or f (2 ^ k) j, bit-pow k j)
bit-set f k false j h =
    ground (arith, bit-and f (bit_not 64 (2 ^ k)) j, bit-bit_not 64 (2 ^ k) j, bit-pow k j)

-- Reading a flag after another was set or cleared gives what was set, if it is the same flag, and
-- what the flag was before, if it is another.
pub get-set :
    (f : Flags) (k j : ℕ) (status : Bool)
    → j < 64
    → get (set f (2 ^ k) status) (2 ^ j) ≡ (if k == j then status else get f (2 ^ j))
get-set f k j status h = rw (get-bit, get-bit) (bit-set f k status j h)

disjoint_bits :
    (w a b : ℕ) → a < 2 ^ w → ((k : ℕ) → k < w → (bit a k && bit b k) ≡ false) → bit_and a b ≡ 0
disjoint_bits w a b h apart =
    eq_of_bits w (bit_and a b) 0 (omega (arith, and-le w a b h)) (omega arith)
      (λ k lt. rw (bit-and, bit-zero) (apart k lt))

-- `join` unites two sets of flags that share none.
pub join-some :
    (f g : Flags)
    → f < 2 ^ 64
    → g < 2 ^ 64
    → ((k : ℕ) → k < 64 → (bit f k && bit g k) ≡ false)
    → (h : Flags) × (join f g ≡ some h) × (h < 2 ^ 64) × ((k : ℕ) → bit h k ≡ (bit f k || bit g k))
unfolding join
join-some f g small small_g apart =
    let e = disjoint_bits 64 f g small apart in
    (bit_or f g, rw e, or-lt 64 f g small small_g, λ k. bit-or f g k)

-- `join` refuses two sets of flags that share one.
pub join-none : (f g : Flags) (k : ℕ) → bit f k ≡ true → bit g k ≡ true → join f g ≡ none
unfolding join
join-none f g k in_f in_g = elim (Bool-cases (bit_and f g == 0)) [
  | inr some_bit ↦ rw some_bit
  | inl no_bit ↦
      let e : bit_and f g ≡ 0 = (==_iff _ _).0 no_bit in
      let clear : bit (bit_and f g) k ≡ false = rw (e, bit-zero) in
      let set_ : bit (bit_and f g) k ≡ true = rw (bit-and, in_f) in_g in cc
]
