-- ===== src/Paging/Tables/Words.antt =====
-- The word of an entry that leads to another table.
use mathlib.Core.Bool.{xor}
use funderberker.Common.{
  ℕ, ◌-◌, ◌%◌, ◌^◌, ◌<◌, ◌≡◌, refl, ◌∙◌, arith, true, not, ◌&&◌, ◌||◌, bit_and, bit_or, ◌==◌, ltb,
  if◌then◌else◌, ok,
}
use funderberker.Bits.{
  bit, bit_not, bit-and, bit-or, bit-bit_not, bit_ones, bit-pow, and_low, and-le, or-lt, eq_of_bits,
}
use funderberker.Paging.Flags
use funderberker.Paging.Flags.{get_present, get_last_entry, set_present, set_read_write}
use funderberker.Paging.Flags.Laws.{get-bit}
use funderberker.Paging.Entry.{Entry, get_flags, set_flags, get_addr, set_addr}
use funderberker.Paging.Entry.Laws.{
  bit_of_aligned, moved, bit-moved, moved_lt, bit-set_flags, set_flags_lt, zero_of_bits,
}

-- The address in an entry: all digits from 12 on
abbrev pub target : Entry → ℕ
target e = bit_and e (bit_not 64 4095)

pub bit-target : (e k : ℕ) → k < 64 → bit (target e) k ≡ (bit e k && not (ltb k 12))
unfolding xor
bit-target e k lt =
    ground (arith, bit-and e (bit_not 64 4095) k, bit-bit_not 64 4095 k, bit_ones 12 k)

pub get_addr-target :
    {E : Type 0} (e : Entry) → e < 2 ^ 64 → get_addr {E = E} e 4096 ≡ ok (target e)
unfolding get_addr
get_addr-target e lt =
    let f : bit_and (target e) (2 ^ 12 - 1) ≡ 0 =
      zero_of_bits _
        (omega (
          arith,
          and-le 64 (target e) (2 ^ 12 - 1) (omega (arith, and-le 64 e (bit_not 64 4095) lt)),
          and-le 64 e (bit_not 64 4095) lt,
        ))
        (λ k p.
          ground (arith, bit-and (target e) (2 ^ 12 - 1) k, bit-target e k p, bit_ones 12 k)) in
    rw f refl

pub bit-get_flags_all : (e k : ℕ) → bit (get_flags e) k ≡ (bit e k && ltb k 12)
unfolding get_flags
bit-get_flags_all e k = ground (arith, bit-and e 4095 k, bit_ones 12 k)

pub get_present-bit : (e : Entry) → get_present (get_flags e) ≡ bit e 0
get_present-bit e = ground (arith, get-bit (get_flags e) 0, bit-get_flags_all e 0)

pub get_last_entry-bit : (e : Entry) → get_last_entry (get_flags e) ≡ bit e 10
get_last_entry-bit e = ground (arith, get-bit (get_flags e) 10, bit-get_flags_all e 10)

-- The word that a round of `get_create_table_range` leaves in an entry
abbrev pub linked_word : Entry → ℕ → Entry
linked_word e a = moved (set_flags e (set_read_write (set_present (get_flags e) true) true)) a 12

bit-marked_flags :
    (f k : ℕ) → bit (set_read_write (set_present f true) true) k ≡ (bit f k || (0 == k) || (1 == k))
unfolding Flags.set
bit-marked_flags f k =
    ground
      (arith, bit-or (bit_or f (2 ^ 0)) (2 ^ 1) k, bit-or f (2 ^ 0) k, bit-pow 0 k, bit-pow 1 k)

marked_word_lt :
    (e : ℕ)
    → e < 2 ^ 64
    → set_flags e (set_read_write (set_present (get_flags e) true) true) < 2 ^ 64
unfolding Flags.set get_flags
marked_word_lt e lt = set_flags_lt e _ lt (
    or-lt 64 (bit_or (bit_and e 4095) (2 ^ 0)) (2 ^ 1)
      (or-lt 64 (bit_and e 4095) (2 ^ 0) (omega (arith, and-le 64 e 4095 lt)) (omega arith))
      (omega arith))

bit-linked_word :
    (e a k : ℕ)
    → k < 64
    → bit (linked_word e a) k ≡ (if ltb k 12 then bit e k || (0 == k) || (1 == k) else bit a k)
bit-linked_word e a k lt =
    let f = set_read_write (set_present (get_flags e) true) true in
    ground (
      arith,
      bit-moved (set_flags e f) a 12 k lt,
      bit-set_flags e f k lt
          (λ j le. ground (arith, bit-marked_flags (get_flags e) j, bit-get_flags_all e j)),
      bit-marked_flags (get_flags e) k,
      bit-get_flags_all e k,
    )

-- Such a word is present, keeps the last entry flag, and holds the address.
pub linked_word_lem :
    (e a : ℕ)
    → e < 2 ^ 64
    → a < 2 ^ 64
    → a % 2 ^ 12 ≡ 0
    → (linked_word e a < 2 ^ 64)
      × (bit (linked_word e a) 0 ≡ true)
      × (bit (linked_word e a) 10 ≡ bit e 10)
      × (target (linked_word e a) ≡ a)
linked_word_lem e a e_lt a_lt aligned =
    let small = moved_lt _ a 12 (marked_word_lt e e_lt) a_lt in
    (
      small,
      ground (arith, bit-linked_word e a 0),
      ground (arith, bit-linked_word e a 10),
      eq_of_bits 64 _ _ (omega (arith, and-le 64 (linked_word e a) (bit_not 64 4095) small)) a_lt
          (λ k lt. ground (
            arith,
            bit-target (linked_word e a) k lt,
            bit-linked_word e a k lt,
            bit_of_aligned a 12 k aligned,
          )),
    )

-- A round with a new table at `a`: the flags and then the address are set.
pub set_addr-linked :
    {E : Type 0} (e a : ℕ)
    → a % 2 ^ 12 ≡ 0
    → set_addr {E = E} (set_flags e (set_read_write (set_present (get_flags e) true) true)) a 4096
      ≡ ok (linked_word e a)
unfolding set_addr
set_addr-linked e a aligned =
    let f : bit_and a (2 ^ 12 - 1) ≡ 0 = and_low 12 a ∙ aligned in rw f refl
