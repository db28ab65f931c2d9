-- ===== src/Bits/Mask.antt =====
-- Masks of one digit and of low digits, and fields joined by `|`.
use native.Mathlib.Nat.{pow-suc, one-le-pow, mul-one, mul_comm, div-div-eq-div-mul}
use funderberker.Common.{
  ℕ, zero, suc, ◌+◌, ◌-◌, ◌*◌, ◌/◌, ◌%◌, ◌^◌, ◌<◌, ◌≡◌, bit_and, bit_or, arith, not, ◌==◌, leb,
  false, sym, ap, ◌∙◌, if◌then◌else◌,
}
use Prim.Native.Nat.{bit_or-bitwise}
use funderberker.Bits.Step.{and_step, and-zero, or_step}
use funderberker.Bits.Digit.{bit}

-- `a & (1 << k)` keeps the one digit.
pub and-pow : (a k : ℕ) → bit_and a (2 ^ k) ≡ (if bit a k then 2 ^ k else 0)
unfolding bit
and-pow a zero = ground (arith, and_step a 1, and-zero (a / 2))
and-pow a (suc k) =
    let e : 2 ^ suc k / 2 ≡ 2 ^ k = omega (arith, pow-suc 2 k) in
    let f : bit_and a (2 ^ suc k) ≡ bit_and (a / 2) (2 ^ k) * 2 =
      rw (and_step a (2 ^ suc k), e) (omega (arith, pow-suc 2 k)) in
    ground (arith, f, and-pow (a / 2) k, pow-suc 2 k)

-- The test `a & (1 << k) != 0` reads the digit.
pub and-pow-ne_zero : (a k : ℕ) → not (bit_and a (2 ^ k) == 0) ≡ bit a k
and-pow-ne_zero a k = ground (arith, and-pow a k, one-le-pow k 2)

mod_double : (a m : ℕ) → 0 < m → a % (m * 2) ≡ a / 2 % m * 2 + a % 2
mod_double a m h = grind arith

-- A mask of `k` low digits is the remainder.
pub and_low : (k a : ℕ) → bit_and a (2 ^ k - 1) ≡ a % 2 ^ k
and_low zero a = rw and-zero (omega arith)
and_low (suc k) a =
    let e : (2 ^ suc k - 1) / 2 ≡ 2 ^ k - 1 = omega (arith, pow-suc 2 k, one-le-pow k 2) in
    rw
      (
        and_step a (2 ^ suc k - 1),
        e,
        and_low k (a / 2),
        pow-suc 2 k,
        mod_double a (2 ^ k) (one-le-pow k 2 (omega arith)),
      )
      (omega (arith, one-le-pow k 2))

shl_step : (s a : ℕ) → a * 2 ^ suc s ≡ a * 2 ^ s * 2
shl_step s a = rw pow-suc (grind arith)

-- The digits of a number shifted to the left.
pub bit-shl : (s a k : ℕ) → bit (a * 2 ^ s) k ≡ (if leb s k then bit a (k - s) else false)
unfolding bit
bit-shl zero a k = rw mul-one (ground arith)
bit-shl (suc s) a zero = ground (arith, shl_step s a)
bit-shl (suc s) a (suc k) =
    let e : a * 2 ^ suc s / 2 ≡ a * 2 ^ s = omega (arith, shl_step s a) in
    rw (e, bit-shl s a k) (ground arith)

-- The digits of a number shifted to the right.
pub bit-shr : (s a k : ℕ) → bit (a / 2 ^ s) k ≡ bit a (k + s)
unfolding bit
bit-shr zero a k = ground arith
bit-shr (suc s) a k =
    let e : a / 2 ^ suc s ≡ a / 2 / 2 ^ s =
      rw pow-suc (ap (λ m. a / m) (mul_comm (2 ^ s) 2) ∙ sym (div-div-eq-div-mul a 2 (2 ^ s))) in
    let f : k + suc s ≡ suc (k + s) = omega arith in rw (e, f) (bit-shr s (a / 2) k)

zero-or : (b : ℕ) → bit_or 0 b ≡ b
zero-or b = simp bit_or-bitwise

-- Digits above those of a word are added by `|`.
pub or_apart : (k low high : ℕ) → low < 2 ^ k → bit_or low (high * 2 ^ k) ≡ low + high * 2 ^ k
or_apart zero low high lt =
    let e : low ≡ 0 = omega arith in
    let f : high * 2 ^ 0 ≡ high = omega arith in rw (e, f, zero-or high) (omega arith)
or_apart (suc k) low high lt =
    let twice : high * 2 ^ suc k ≡ high * 2 ^ k * 2 = shl_step k high in
    let halved : high * 2 ^ suc k / 2 ≡ high * 2 ^ k = omega arith in
    let even : high * 2 ^ suc k % 2 ≡ 0 = omega arith in
    or_step low (high * 2 ^ suc k)
    ∙ rw (halved, even, or_apart k (low / 2) high (omega (arith, pow-suc 2 k))) (omega arith)
