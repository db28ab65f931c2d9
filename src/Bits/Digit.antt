-- ===== src/Bits/Digit.antt =====
-- The digit at a place of a word, and the digits of what `&`, `|`, `^` and `!` give.
use mathlib.Core.Bool.{xor}
use native.Mathlib.Nat.{pow-suc, one-le-pow}
use funderberker.Common.{
  ℕ, zero, suc, ◌-◌, ◌/◌, ◌%◌, ◌^◌, ◌≤◌, ◌<◌, ◌≡◌, refl, bit_and, bit_or, bit_xor, arith, Bool,
  false, ◌&&◌, ◌||◌, ◌==◌, ltb,
}
use funderberker.Bits.Step.{and_step, or_step, xor_step, zero-and}

-- The digit of `a` at place `k`.
unfoldable pub bit : ℕ → ℕ → Bool
bit a zero = a % 2 == 1
bit a (suc k) = bit (a / 2) k

-- `!a` on a word of `w` digits
unfoldable pub bit_not : ℕ → ℕ → ℕ
bit_not w a = bit_xor a (2 ^ w - 1)

pub bit-and : (a b k : ℕ) → bit (bit_and a b) k ≡ (bit a k && bit b k)
unfolding bit
bit-and a b zero = ground (arith, and_step a b)
bit-and a b (suc k) =
    let e : bit_and a b / 2 ≡ bit_and (a / 2) (b / 2) = omega (arith, and_step a b) in
    rw e (bit-and (a / 2) (b / 2) k)

pub bit-or : (a b k : ℕ) → bit (bit_or a b) k ≡ (bit a k || bit b k)
unfolding bit
bit-or a b zero = ground (arith, or_step a b)
bit-or a b (suc k) =
    let e : bit_or a b / 2 ≡ bit_or (a / 2) (b / 2) = omega (arith, or_step a b) in
    rw e (bit-or (a / 2) (b / 2) k)

pub bit-xor : (a b k : ℕ) → bit (bit_xor a b) k ≡ xor (bit a k) (bit b k)
unfolding bit xor
bit-xor a b zero = ground (arith, xor_step a b)
bit-xor a b (suc k) =
    let e : bit_xor a b / 2 ≡ bit_xor (a / 2) (b / 2) = omega (arith, xor_step a b) in
    rw e (bit-xor (a / 2) (b / 2) k)

pub bit-zero : (k : ℕ) → bit 0 k ≡ false
unfolding bit
bit-zero zero = refl
bit-zero (suc k) = bit-zero k

pub bit-pow : (i j : ℕ) → bit (2 ^ i) j ≡ (i == j)
unfolding bit
bit-pow zero zero = refl
bit-pow zero (suc j) = rw (bit-zero j) (ground arith)
bit-pow (suc i) zero = ground (arith, pow-suc 2 i)
bit-pow (suc i) (suc j) =
    let e : 2 ^ suc i / 2 ≡ 2 ^ i = omega (arith, pow-suc 2 i) in rw e (ground (arith, bit-pow i j))

pub bit_ones : (w k : ℕ) → bit (2 ^ w - 1) k ≡ ltb k w
unfolding bit
bit_ones zero zero = refl
bit_ones zero (suc k) = rw (bit-zero k) (ground arith)
bit_ones (suc w) zero = ground (arith, pow-suc 2 w, one-le-pow w 2)
bit_ones (suc w) (suc k) =
    let e : (2 ^ suc w - 1) / 2 ≡ 2 ^ w - 1 = omega (arith, pow-suc 2 w, one-le-pow w 2) in
    rw e (ground (arith, bit_ones w k))

pub bit-bit_not : (w a k : ℕ) → bit (bit_not w a) k ≡ xor (bit a k) (ltb k w)
unfolding bit_not
bit-bit_not w a k = rw (bit-xor, bit_ones)

-- A word below 2 ^ w has no digit from place w on.
pub bit_of_lt : (w a k : ℕ) → a < 2 ^ w → w ≤ k → bit a k ≡ false
unfolding bit
bit_of_lt zero a k h le = let e : a ≡ 0 = omega arith in rw e (bit-zero k)
bit_of_lt (suc w) a zero h le = absurd (omega arith)
bit_of_lt (suc w) a (suc k) h le = bit_of_lt w (a / 2) k (omega (arith, pow-suc 2 w)) (omega arith)

pub or-lt : (w a b : ℕ) → a < 2 ^ w → b < 2 ^ w → bit_or a b < 2 ^ w
or-lt zero a b p q =
    let e : a ≡ 0 = omega arith in let f : b ≡ 0 = omega arith in rw (e, f) (omega arith)
or-lt (suc w) a b p q = omega (
  arith,
  or_step a b,
  pow-suc 2 w,
  or-lt w (a / 2) (b / 2) (omega (arith, pow-suc 2 w)) (omega (arith, pow-suc 2 w)),
)

pub xor-lt : (w a b : ℕ) → a < 2 ^ w → b < 2 ^ w → bit_xor a b < 2 ^ w
xor-lt zero a b p q =
    let e : a ≡ 0 = omega arith in let f : b ≡ 0 = omega arith in rw (e, f) (omega arith)
xor-lt (suc w) a b p q = omega (
  arith,
  xor_step a b,
  pow-suc 2 w,
  xor-lt w (a / 2) (b / 2) (omega (arith, pow-suc 2 w)) (omega (arith, pow-suc 2 w)),
)

pub and-le : (w a b : ℕ) → a < 2 ^ w → bit_and a b ≤ a
and-le zero a b p = let e : a ≡ 0 = omega arith in rw e (omega (arith, zero-and b))
and-le (suc w) a b p =
    omega (arith, and_step a b, and-le w (a / 2) (b / 2) (omega (arith, pow-suc 2 w)))

-- Words with the same digits are the same.
pub eq_of_bits : (w a b : ℕ) → a < 2 ^ w → b < 2 ^ w → ((k : ℕ) → k < w → bit a k ≡ bit b k) → a ≡ b
unfolding bit
eq_of_bits zero a b p q h = omega arith
eq_of_bits (suc w) a b p q h = ground (
  arith,
  h 0,
  eq_of_bits w (a / 2) (b / 2) (omega (arith, pow-suc 2 w)) (omega (arith, pow-suc 2 w))
      (λ k lt. h (suc k) (omega arith)),
)
