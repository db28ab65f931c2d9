-- ===== src/Pmm/Power.antt =====
-- Powers of two, as the library of Rust computes them on `usize`.
use native.Mathlib.Nat.{pow-suc, one-le-pow}
use funderberker.Common.{
  ◌*◌, ℕ, zero, suc, ◌+◌, ◌/◌, ◌^◌, ◌≤◌, ◌<◌, ◌≡◌, refl, arith, Bool, Option, none, some, ltb, leb,
  ◌==◌, if◌then◌else◌, Bool-cases, ◌⊎◌, dec_lt, inl, inr,
}

-- The first `k` from a start on, within so many rounds, with `n ≤ 2 ^ k`.
unfoldable pub ceil_log_from : ℕ → ℕ → ℕ → ℕ
ceil_log_from zero k n = k
ceil_log_from (suc rounds) k n =
    let rest = ceil_log_from rounds (k + 1) n in if leb n (2 ^ k) then k else rest

-- `checked_next_power_of_two`: the smallest power that is no smaller, if it is a `usize`.
unfoldable pub checked_next_power_of_two : ℕ → Option ℕ
unfolding ceil_log_from
checked_next_power_of_two n =
    let k = ceil_log_from 64 0 n in if ltb k 64 then some (2 ^ k) else none

unfoldable pub ilog2_rounds : ℕ → ℕ → ℕ
ilog2_rounds zero n = 0
ilog2_rounds (suc rounds) n =
    let rest = suc (ilog2_rounds rounds (n / 2)) in if ltb n 2 then 0 else rest

-- `ilog2` of a `usize`: 64 halvings are enough.
unfoldable pub ilog2 : ℕ → ℕ
unfolding ilog2_rounds
ilog2 n = ilog2_rounds 64 n

-- `is_power_of_two`
unfoldable pub is_power_of_two : ℕ → Bool
unfolding ilog2
is_power_of_two n = 2 ^ ilog2 n == n

ilog2_rounds-pow : (rounds k : ℕ) → k ≤ rounds → ilog2_rounds rounds (2 ^ k) ≡ k
unfolding ilog2_rounds
ilog2_rounds-pow zero k h = omega arith
ilog2_rounds-pow (suc rounds) zero h = refl
ilog2_rounds-pow (suc rounds) (suc k) h =
    let half : 2 ^ suc k / 2 ≡ 2 ^ k = omega (arith, pow-suc 2 k) in
    let large : ltb (2 ^ suc k) 2 ≡ Bool.false = ground (arith, pow-suc 2 k, one-le-pow k 2) in
    rw (large, half, ilog2_rounds-pow rounds k (omega arith))

pub ilog2-pow : (k : ℕ) → k ≤ 64 → ilog2 (2 ^ k) ≡ k
unfolding ilog2
ilog2-pow k h = ilog2_rounds-pow 64 k h

-- The search stops at the least exponent that is enough, or at its end.
ceil_log_from_lem :
    (rounds k n : ℕ)
    → let r = ceil_log_from rounds k n in
      (k ≤ r)
      × (r ≤ k + rounds)
      × ((r < k + rounds → n ≤ 2 ^ r))
      × ((j : ℕ) → k ≤ j → j < r → 2 ^ j < n)
unfolding ceil_log_from
ceil_log_from_lem zero k n =
    (omega arith, omega arith, λ h. absurd (omega arith), λ j lo hi. absurd (omega arith))
ceil_log_from_lem (suc rounds) k n = elim (Bool-cases (leb n (2 ^ k))) [
  | inl enough ↦
      rw enough (omega arith, omega arith, λ h. ground arith, λ j lo hi. absurd (omega arith))
  | inr more ↦
      let (lo, hi, fits, least) = ceil_log_from_lem rounds (k + 1) n in
      rw more (
        omega arith,
        omega arith,
        λ h. fits (omega arith),
        λ j jlo jhi. elim (dec_lt k j) [
          | yes above ↦ least j (omega arith) jhi
          | no at ↦ let e : j ≡ k = omega arith in rw e (ground arith)
        ],
      )
]

-- `checked_next_power_of_two` gives 2 ^ k for the least k that is enough, or nothing when 2 ^ 63 is
-- not enough.
pub checked_next_power_of_two-cases :
    (n : ℕ)
    → ((k : ℕ) × (checked_next_power_of_two n ≡ some (2 ^ k))
        × (k < 64)
        × (n ≤ 2 ^ k)
        × ((j : ℕ) → j < k → 2 ^ j < n))
      ⊎ ((checked_next_power_of_two n ≡ none) × (2 ^ 63 < n))
unfolding checked_next_power_of_two
checked_next_power_of_two-cases n =
    let k : ℕ = ceil_log_from 64 0 n in
    let (lo, hi, fits, least) = ceil_log_from_lem 64 0 n in
    elim (dec_lt k 64) [
      | yes small ↦ inl (k, ground arith, small, fits small, λ j h. least j (omega arith) h)
      | no big ↦ inr (ground arith, least 63 (omega arith) (omega arith))
    ]

pub pow-add : (a b : ℕ) → 2 ^ (a + b) ≡ 2 ^ a * 2 ^ b
pow-add a zero = let e : a + 0 ≡ a = omega arith in rw e (omega arith)
pow-add a (suc b) =
    let e : a + suc b ≡ suc (a + b) = omega arith in
    rw (e, pow-suc 2 (a + b), pow-suc 2 b, pow-add a b) (omega arith)
