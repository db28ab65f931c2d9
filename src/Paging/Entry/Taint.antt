-- ===== src/Paging/Entry/Taint.antt =====
-- The digit of the page attribute table for big pages in an entry, and the order of the two low digits.
use mathlib.Core.Bool.{xor}
use funderberker.Common.{
  ℕ, ◌-◌, ◌%◌, ◌^◌, ◌<◌, ◌≡◌, refl, ap, ◌∙◌, arith, true, false, bit_and, ◌==◌, Bool-cases, ==_iff,
  inl, inr, ok, panic,
}
use funderberker.Bits.{
  bit, bit_not, bit-and, bit-or, bit-zero, bit_ones, and_low, bit-bit_not, and-pow-ne_zero,
}
use funderberker.Paging.Flags.Laws.{get-set}
use funderberker.Paging.Flags
use funderberker.Paging.Flags.{Flags, get_present, get_write_through, get_cache_disable}
use funderberker.Paging.Entry.{Entry, get_flags, set_flags, set_addr, get_addr, map}
use funderberker.Paging.Entry.Laws.{moved, joined_flags}
use funderberker.Paging.Pat.{set_pat, PatType, entry_index, from_type}
use funderberker.Paging.PageSize.{PageSize}

taken_bit : (x k : ℕ) → bit x k ≡ true → (x == 0) ≡ false
taken_bit x k h = elim (Bool-cases (x == 0)) [
  | inr e ↦ e
  | inl e ↦ let z = ap (λ n. bit n k) ((==_iff x 0).0 e) in ground (arith, z, bit-zero k)
]

-- Mapping a big page with flags that have the digit 12, the one for the page attribute table: the entry
-- is made, but reading its address panics.
pub map_pat-panics :
    {E : Type 0} (e a f b : ℕ)
    → f < 2 ^ 64
    → 12 < b
    → b < 64
    → a % 2 ^ b ≡ 0
    → get_present (get_flags e) ≡ false
    → bit f 7 ≡ false
    → bit f 12 ≡ true
    → (n : Entry) × (map e a f (2 ^ b) ≡ ok n) × (get_addr {E = E} n (2 ^ b) ≡ panic)
unfolding xor map set_addr set_flags get_addr Flags.get Flags.set
map_pat-panics e a f b f_lt low high aligned absent free pat =
    let (g, joined, g_lt, bits) = joined_flags (2 ^ b) f f_lt (ground arith) in
    let m = moved e a b in
    let n = set_flags m g in
    let mask : bit_and a (2 ^ b - 1) ≡ 0 = and_low b a ∙ aligned in
    let n_12 : bit n 12 ≡ true =
      ground (arith, bit-or (bit_and m (bit_not 64 4095)) g 12, bits 12) in
    let flagless : bit (bit_and n (bit_not 64 4095)) 12 ≡ true =
      ground
        (arith, n_12, bit-and n (bit_not 64 4095) 12, bit-bit_not 64 4095 12, bit_ones 12 12) in
    let kept : bit (bit_and (bit_and n (bit_not 64 4095)) (2 ^ b - 1)) 12 ≡ true =
      ground
        (arith, bit-and (bit_and n (bit_not 64 4095)) (2 ^ b - 1) 12, flagless, bit_ones b 12) in
    (n, rw (absent, mask, joined) refl, rw (taken_bit _ 12 kept) refl)

-- With the type of an entry of the page attribute table set, its digit 1 is read back as the
-- write-through flag and its digit 0 as the cache-disable flag.
pub set_pat_lem :
    (f : Flags) (t : PatType) (p : PageSize)
    → (get_write_through (set_pat f t p) ≡ bit (entry_index (from_type t)) 1)
      × (get_cache_disable (set_pat f t p) ≡ bit (entry_index (from_type t)) 0)
unfolding set_pat Flags.get Flags.set
set_pat_lem f t p = (
  get-set _ 4 3 _ (omega arith) ∙ get-set _ 3 3 _ (omega arith) ∙ and-pow-ne_zero _ 1,
  get-set _ 4 4 _ (omega arith) ∙ and-pow-ne_zero _ 0,
)
