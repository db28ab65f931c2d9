-- ===== src/Acpi/Checksum.antt =====
-- boot/src/acpi/rsdp.rs: the checksums of the root pointer.
use funderberker.Common.{
  ℕ, zero, suc, ◌+◌, ◌-◌, ◌%◌, ◌≡◌, ◌↔◌, ◌⊎◌, arith, List, [], ◌∷◌, take, ◌==◌, not, bit_and,
  Outcome, ok, err, reject, ◌>>◌,
}
use funderberker.Bits.{and_low}
use funderberker.Acpi.{AcpiError, invalid_checksum, u8_at, sum}

-- The sizes of the packed structs `Rsdp` and `Rsdp2`
abbrev pub rsdp_size : ℕ
rsdp_size = 20

abbrev pub rsdp2_size : ℕ
rsdp2_size = 36

-- A loop that adds up so many bytes from an index on
unfoldable pub sum_loop : List ℕ → ℕ → ℕ → ℕ → ℕ
sum_loop bytes zero i total = total
sum_loop bytes (suc rounds) i total = sum_loop bytes rounds (i + 1) (total + u8_at bytes i)

-- `Rsdp2::validate_checksum`
unfoldable pub validate_rsdp : List ℕ → Outcome AcpiError (Unit {0})
unfolding sum_loop
validate_rsdp bytes = do
  reject (not (bit_and (sum_loop bytes rsdp_size 0 0) 255 == 0)) invalid_checksum
  reject (not (bit_and (sum_loop bytes (rsdp2_size - rsdp_size) rsdp_size 0) 255 == 0))
      invalid_checksum

sum_loop_acc :
    (bytes : List ℕ) (rounds i total : ℕ)
    → sum_loop bytes rounds i total ≡ total + sum_loop bytes rounds i 0
unfolding sum_loop
sum_loop_acc bytes zero i total = omega arith
sum_loop_acc bytes (suc rounds) i total = omega (
  arith,
  sum_loop_acc bytes rounds (i + 1) (total + u8_at bytes i),
  sum_loop_acc bytes rounds (i + 1) (0 + u8_at bytes i),
)

-- One byte more
sum-take-suc :
    (bytes : List ℕ) (i : ℕ) → sum (take (suc i) bytes) ≡ sum (take i bytes) + u8_at bytes i
sum-take-suc [] zero = omega arith
sum-take-suc [] (suc i) = omega arith
sum-take-suc (x ∷ bytes) zero = omega arith
sum-take-suc (x ∷ bytes) (suc i) = omega (arith, sum-take-suc bytes i)

-- The loop adds up the bytes from an index on.
sum_loop-take :
    (bytes : List ℕ) (rounds i : ℕ)
    → sum (take i bytes) + sum_loop bytes rounds i 0 ≡ sum (take (i + rounds) bytes)
unfolding sum_loop
sum_loop-take bytes zero i = let e : i + 0 ≡ i = omega arith in rw e (omega arith)
sum_loop-take bytes (suc rounds) i =
    let e : i + suc rounds ≡ suc i + rounds = omega arith in
    let f : i + 1 ≡ suc i = omega arith in
    rw (e, f)
      (omega (
        arith,
        sum_loop_acc bytes rounds (suc i) (0 + u8_at bytes i),
        sum-take-suc bytes i,
        sum_loop-take bytes rounds (suc i),
      ))

-- The checks of the root pointer pass exactly when the first 20 bytes and all 36 bytes add up to
-- multiples of 256, as the firmware specification asks, though the second sum of the code leaves the
-- first 20 bytes out; they never panic.
pub validate_rsdp_iff :
    (bytes : List ℕ)
    → ((validate_rsdp bytes ≡ ok tt)
        ↔ ((sum (take 20 bytes) % 256 ≡ 0) × (sum (take 36 bytes) % 256 ≡ 0)))
      × ((validate_rsdp bytes ≡ ok tt) ⊎ (validate_rsdp bytes ≡ err invalid_checksum))
unfolding validate_rsdp
validate_rsdp_iff bytes =
    let low = and_low 8 (sum_loop bytes 20 0 0) in
    let high = and_low 8 (sum_loop bytes 16 20 0) in
    let first = sum_loop-take bytes 20 0 in
    let all = sum_loop-take bytes 16 20 in
    (
      (
        λ passed. ground (arith, low, high, first, all),
        λ sums. ground (arith, low, high, first, all),
      ),
      ground (arith, low, high),
    )
