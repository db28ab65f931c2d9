-- ===== src/Hpet/Cycles.antt =====
-- drivers/src/timer/hpet.rs: `time_to_cycles` rounds up, and `get_status` clears one digit.
use funderberker.Common.{
  ℕ, ◌+◌, ◌-◌, ◌*◌, ◌/◌, ◌%◌, ◌^◌, ◌≤◌, ◌<◌, ◌≡◌, ◌≢◌, refl, arith, Bool, true, false, not, ◌&&◌,
  ◌==◌, ==_iff, ltb, lt→ltb, bit_and, ok, Bool-cases, inl, inr, dec_lt,
}
use mathlib.Core.Bool.{xor}
use native.Mathlib.Nat.{div-add-mod, mod-lt, mul-le-mul_left, div-eq_of_eq-mul_right}
use funderberker.Bits.{bit, bit_not, bit-and, bit-pow, bit-bit_not, and-pow, and-pow-ne_zero}
use funderberker.Hpet.{Hpet, Board, time_to_cycles, general_interrupt_status}
use funderberker.Hpet.Timer.{HpetTimer, get_status}

-- The least number of periods that make up a time
pub record IsCeiling (time period c : ℕ) : Type 0 where
  pub enough : time ≤ period * c
  pub least : (d : ℕ) → time ≤ period * d → c ≤ d

IsCeiling-exact : (f p : ℕ) → 0 < p → f % p ≡ 0 → IsCeiling f p (f / p)
IsCeiling-exact f p pos exact =
    let whole : p * (f / p) ≡ f = omega (arith, div-add-mod f p) in
    record {
      enough = omega arith;
      least = λ d le. elim (dec_lt d (f / p)) [
        | no ge ↦ omega arith
        | yes lt ↦ absurd (omega (arith, mul-le-mul_left {m = d + 1} {n = f / p} p (omega arith)))
      ];
    }

IsCeiling-round : (f p : ℕ) → 0 < p → f % p ≢ 0 → IsCeiling f p ((f + (p - f % p)) / p)
IsCeiling-round f p pos rest =
    let small : f % p < p = mod-lt f pos in
    let q = f / p in
    let whole : p * q + f % p ≡ f = div-add-mod f p in
    let sum : f + (p - f % p) ≡ p * (q + 1) = omega arith in
    let e : (f + (p - f % p)) / p ≡ q + 1 = div-eq_of_eq-mul_right pos sum in
    rw e (record {
      enough = omega arith;
      least = λ d le. elim (dec_lt d (q + 1)) [
        | no ge ↦ omega arith
        | yes lt ↦
            absurd
              (omega (arith, mul-le-mul_left {m = d} {n = q} p (omega arith), ℕ-pos (f % p) rest))
      ];
    })
  where
    ℕ-pos : (n : ℕ) → n ≢ 0 → 0 < n
    ℕ-pos n h = ground arith

-- For a period that is not zero, and a time that a `Duration` can hold, nothing overflows, and the
-- result is the least number of clock periods that make up the time, as far as it fits into
-- 64 digits.
pub time_to_cycles-IsCeiling :
    {E : Type 0} (h : Hpet) (nanos : ℕ)
    → 0 < h.main_clock_period
    → h.main_clock_period < 2 ^ 64
    → nanos < 2 ^ 64 * 1000000000
    → (c : ℕ) × (time_to_cycles {E = E} h nanos ≡ ok (c % 2 ^ 64))
      × IsCeiling (nanos * 1000000) h.main_clock_period c
unfolding time_to_cycles
time_to_cycles-IsCeiling {E} h nanos pos small time =
    let f = nanos * 1000000 in
    let p = h.main_clock_period in
    let fits : ltb f (2 ^ 128) ≡ true = lt→ltb f (2 ^ 128) (omega arith) in
    let fits' : ltb (f + (p - f % p)) (2 ^ 128) ≡ true = lt→ltb _ (2 ^ 128) (omega arith) in
    let nonzero : p == 0 ≡ false = ground arith in
    elim (Bool-cases (f % p == 0)) [
      | inl exact ↦ (
        f / p,
        rw (time_to_cycles, fits, nonzero, exact) refl,
        IsCeiling-exact f p pos ((==_iff _ _).0 exact),
      )
      | inr rest ↦ (
        (f + (p - f % p)) / p,
        rw (time_to_cycles, fits, nonzero, rest, fits') refl,
        IsCeiling-round f p pos (λ e. let exact : f % p == 0 ≡ true = (==_iff _ _).1 e in cc),
      )
    ]

-- The digits of the interrupt status, for the timers below 64
abbrev pub fired : Board → ℕ → Bool
fired b k = bit (b.registers general_interrupt_status) k

-- `get_status` tells whether the timer has fired, and clears its digit in the status. The digits of the other
-- timers and the other registers stay.
pub get_status-fired :
    (b : Board) (t : HpetTimer) (k o : ℕ)
    → t.id < 64
    → k < 64
    → o ≢ general_interrupt_status
    → let (status, b') = get_status b t in
      (status ≡ fired b t.id)
      × (fired b' k ≡ (fired b k && not (t.id == k)))
      × (b'.registers o ≡ b.registers o)
unfolding get_status xor
get_status-fired b t k o id_lt k_lt other =
    let s = b.registers general_interrupt_status in
    elim (Bool-cases (bit s t.id)) [
      | inl on ↦
          let read : bit_and s (2 ^ t.id) ≡ 2 ^ t.id = ground (arith, and-pow s t.id) in
          let nonzero : 2 ^ t.id == 0 ≡ false = ground (arith, and-pow-ne_zero s t.id) in
          let away : o == 32 ≡ false = ground (arith, ==_iff o 32) in
          let cleared : bit (bit_and s (bit_not 64 (2 ^ t.id))) k ≡ (bit s k && not (t.id == k)) =
            ground (
              arith,
              bit-and s (bit_not 64 (2 ^ t.id)) k,
              bit-bit_not 64 (2 ^ t.id) k,
              bit-pow t.id k,
            ) in
          (
            rw (get_status, read, nonzero, on) refl,
            rw (get_status, read, nonzero) cleared,
            rw (get_status, read, nonzero, away) refl,
          )
      | inr off ↦
          let zero_read : bit_and s (2 ^ t.id) == 0 ≡ true =
            ground (arith, and-pow-ne_zero s t.id) in
          (
            rw (get_status, zero_read, off) refl,
            rw (get_status, zero_read) (ground (arith, ==_iff t.id k)),
            rw (get_status, zero_read) refl,
          )
    ]
