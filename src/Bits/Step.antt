-- ===== src/Bits/Step.antt =====
-- The native operations on binary digits, one digit at a time.
use Prim.Native.Nat.{
  min, max, digits, bitwise, differ, bit_and-bitwise, bit_or-bitwise, bit_xor-bitwise,
}
use native.Mathlib.Nat.{le_refl}
use funderberker.Common.{
  ℕ, zero, suc, ◌+◌, ◌*◌, ◌/◌, ◌%◌, ◌≤◌, ◌<◌, ◌≡◌, refl, bit_and, bit_or, bit_xor, arith,
}

module _ (z : ℕ → ℕ) (f : ℕ → ℕ → ℕ) where
  -- The count of digits to go does not matter once it is enough.
  digits_count : (a b : ℕ) (n m : ℕ) → a ≤ n → a ≤ m → digits z f n a b ≡ digits z f m a b
  digits_count a b zero zero p q = refl
  digits_count zero b zero (suc m) p q = refl
  digits_count (suc a) b zero (suc m) p q = absurd (omega arith)
  digits_count zero b (suc n) zero p q = refl
  digits_count (suc a) b (suc n) zero p q = absurd (omega arith)
  digits_count zero b (suc n) (suc m) p q = refl
  digits_count (suc a) b (suc n) (suc m) p q =
      rw (digits_count (suc a / 2) (b / 2) n m (omega arith) (omega arith))

  bitwise_digit :
      (a b : ℕ)
      → bitwise z f (suc a) b ≡ bitwise z f (suc a / 2) (b / 2) * 2 + f (suc a % 2) (b % 2)
  bitwise_digit a b =
      omega (arith, digits_count (suc a / 2) (b / 2) a (suc a / 2) (omega arith) (le_refl _))

pub and_step : (a b : ℕ) → bit_and a b ≡ bit_and (a / 2) (b / 2) * 2 + min (a % 2) (b % 2)
and_step zero y = simp bit_and-bitwise (omega arith)
and_step (suc x) y = simp bit_and-bitwise (bitwise_digit (λ rest. 0) min x y)

pub or_step : (a b : ℕ) → bit_or a b ≡ bit_or (a / 2) (b / 2) * 2 + max (a % 2) (b % 2)
or_step zero y = simp bit_or-bitwise (omega arith)
or_step (suc x) y = simp bit_or-bitwise (bitwise_digit (λ rest. rest) max x y)

differ-mod : (x y : ℕ) → x < 2 → y < 2 → differ x y ≡ (x + y) % 2
differ-mod zero y p q = omega arith
differ-mod (suc zero) zero p q = omega arith
differ-mod (suc zero) (suc zero) p q = omega arith
differ-mod (suc zero) (suc (suc y)) p q = absurd (omega arith)
differ-mod (suc (suc x)) y p q = absurd (omega arith)

xor_step_differ : (a b : ℕ) → bit_xor a b ≡ bit_xor (a / 2) (b / 2) * 2 + differ (a % 2) (b % 2)
xor_step_differ zero b = simp bit_xor-bitwise (omega arith)
xor_step_differ (suc a) b = simp bit_xor-bitwise (bitwise_digit (λ y. y) differ a b)

pub xor_step : (a b : ℕ) → bit_xor a b ≡ bit_xor (a / 2) (b / 2) * 2 + (a % 2 + b % 2) % 2
xor_step a b =
    omega (arith, xor_step_differ a b, differ-mod (a % 2) (b % 2) (omega arith) (omega arith))

pub zero-and : (b : ℕ) → bit_and 0 b ≡ 0
zero-and b = simp bit_and-bitwise

and-zero_of_le : (n a : ℕ) → a ≤ n → bit_and a 0 ≡ 0
and-zero_of_le n zero h = zero-and 0
and-zero_of_le zero (suc a) h = absurd (omega arith)
and-zero_of_le (suc n) (suc a) h =
    omega (arith, and_step (suc a) 0, and-zero_of_le n (suc a / 2) (omega arith))

pub and-zero : (a : ℕ) → bit_and a 0 ≡ 0
and-zero a = and-zero_of_le a a (le_refl a)

or-zero_of_le : (n a : ℕ) → a ≤ n → bit_or a 0 ≡ a
or-zero_of_le n zero h = simp bit_or-bitwise
or-zero_of_le zero (suc a) h = absurd (omega arith)
or-zero_of_le (suc n) (suc a) h =
    omega (arith, or_step (suc a) 0, or-zero_of_le n (suc a / 2) (omega arith))

pub or-zero : (a : ℕ) → bit_or a 0 ≡ a
or-zero a = or-zero_of_le a a (le_refl a)
