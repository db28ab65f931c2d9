-- ===== src/Paging/Pat/Laws.antt =====
-- The page attribute table as its eight fields.
use mathlib.Core.Bool.{xor}
use funderberker.Common.{
  ℕ, ◌+◌, ◌-◌, ◌*◌, ◌/◌, ◌^◌, ◌<◌, ◌≡◌, refl, arith, true, ◌&&◌, ◌==◌, leb, ltb, if◌then◌else◌,
  Bool-cases, inl, inr, ok,
}
use funderberker.Bits.{
  bit, bit-and, bit-or, bit-bit_not, bit-shl, bit-shr, bit_ones, bit_of_lt, and_low,
  and-pow-ne_zero, eq_of_bits,
}
use funderberker.Paging.Pat.{
  PatType, PatEntry, uncacheable, write_combining, write_through, write_protected, write_back,
  uncached, pat0, pat1, pat2, pat3, pat4, pat5, pat6, pat7, type_bits, entry_index, set_field,
  get_field, set, try_from, get_type, from_type, setup_pat,
}

bit_seven : (k : ℕ) → bit 7 k ≡ ltb k 3
bit_seven k = bit_ones 3 k

-- The digits after a field was set: within the field the value's, elsewhere what they were.
bit-set_field :
    (p n v j : ℕ)
    → v < 8
    → j < 64
    → bit (set_field p n v) j
      ≡ (if leb (n * 8) j && ltb j (n * 8 + 3) then bit v (j - n * 8) else bit p j)
unfolding set_field xor
bit-set_field p n v j small lt =
    rw (bit-or, bit-and, bit-bit_not, bit-shl, bit-shl, bit_seven)
      (ground (arith, bit_of_lt 3 v (j - n * 8) small))

bit-get_field : (p n k : ℕ) → k < 3 → bit (get_field p n) k ≡ bit p (k + n * 8)
unfolding get_field
bit-get_field p n k lt = rw (bit-and, bit-shr, bit_seven) (ground arith)

get_field_lt : (p n : ℕ) → get_field p n < 8
unfolding get_field
get_field_lt p n = omega (arith, and_low 3 (p / 2 ^ (n * 8)))

get_field-set_field :
    (p n v j : ℕ)
    → v < 8
    → j < 8
    → get_field (set_field p n v) j ≡ (if n == j then v else get_field p j)
get_field-set_field p n v j small lt =
    eq_of_bits 3 _ _ (get_field_lt (set_field p n v) j) (ground (arith, get_field_lt p j))
      (λ k small_k. ground (
        arith,
        bit-get_field (set_field p n v) j k small_k,
        bit-get_field p j k small_k,
        bit-set_field p n v (k + j * 8) small (omega arith),
      ))

type_bits_lt : (t : PatType) → type_bits t < 8
unfolding type_bits
type_bits_lt uncacheable = omega arith
type_bits_lt write_combining = omega arith
type_bits_lt write_through = omega arith
type_bits_lt write_protected = omega arith
type_bits_lt write_back = omega arith
type_bits_lt uncached = omega arith

entry_index_lt : (e : PatEntry) → entry_index e < 8
unfolding entry_index
entry_index_lt pat0 = omega arith
entry_index_lt pat1 = omega arith
entry_index_lt pat2 = omega arith
entry_index_lt pat3 = omega arith
entry_index_lt pat4 = omega arith
entry_index_lt pat5 = omega arith
entry_index_lt pat6 = omega arith
entry_index_lt pat7 = omega arith

try_from-type_bits : (t : PatType) → try_from (type_bits t) ≡ ok t
unfolding try_from type_bits
try_from-type_bits uncacheable = refl
try_from-type_bits write_combining = refl
try_from-type_bits write_through = refl
try_from-type_bits write_protected = refl
try_from-type_bits write_back = refl
try_from-type_bits uncached = refl

-- Reading an entry after one was set gives the type that was set, if it is the same entry, and what
-- the entry gave before, if it is another.
pub get_type-set :
    {E : Type 0} (msr : ℕ) (e : PatEntry) (t : PatType) (f : PatEntry)
    → get_type {E = E} (set msr e t) f
      ≡ (if entry_index e == entry_index f then ok t else get_type msr f)
unfolding get_type set
get_type-set msr e t f =
    rw
      (get_field-set_field msr (entry_index e) (type_bits t) (entry_index f) (type_bits_lt t)
        (entry_index_lt f))
      (elim (Bool-cases (entry_index e == entry_index f)) [
        | inl same ↦ rw (same, try_from-type_bits) refl
        | inr other ↦ rw other refl
      ])

abbrev programmed : ℕ → ℕ
programmed msr =
    set
      (set
        (set (set (set (set msr pat0 write_back) pat1 write_through) pat2 uncached) pat3
          uncacheable)
        pat4 write_combining)
      pat5 write_protected

programmed-get_type :
    {E : Type 0} (msr : ℕ) (t : PatType) → get_type {E = E} (programmed msr) (from_type t) ≡ ok t
unfolding from_type entry_index
programmed-get_type msr write_back = simp get_type-set
programmed-get_type msr write_through = simp get_type-set
programmed-get_type msr uncached = simp get_type-set
programmed-get_type msr uncacheable = simp get_type-set
programmed-get_type msr write_combining = simp get_type-set
programmed-get_type msr write_protected = simp get_type-set

programmed-kept :
    {E : Type 0} (msr : ℕ)
    → (get_type {E = E} (programmed msr) pat6 ≡ get_type msr pat6)
      × (get_type {E = E} (programmed msr) pat7 ≡ get_type msr pat7)
unfolding entry_index
programmed-kept msr = (simp get_type-set, simp get_type-set)

-- On a processor with the page attribute table, the setup gives every type the entry that the type
-- is converted to, and leaves the last two entries.
pub setup_pat-get_type :
    {E : Type 0} (edx msr : ℕ)
    → bit edx 16 ≡ true
    → (next : ℕ) × (setup_pat {E = E} edx msr ≡ ok next)
      × ((t : PatType) → get_type {E = E} next (from_type t) ≡ ok t)
      × (get_type {E = E} next pat6 ≡ get_type msr pat6)
      × (get_type {E = E} next pat7 ≡ get_type msr pat7)
unfolding setup_pat
setup_pat-get_type edx msr supported = (
  programmed msr,
  rw (and-pow-ne_zero, supported) refl,
  programmed-get_type msr,
  (programmed-kept msr).0,
  (programmed-kept msr).1,
)
