-- ===== src/Paging/Entry/Laws.antt =====
-- What an entry holds after it was mapped.
use mathlib.Core.Bool.{xor}
use funderberker.Common.{
  ℕ, ◌-◌, ◌%◌, ◌^◌, ◌<◌, ◌≤◌, ◌≡◌, refl, ◌∙◌, arith, true, false, not, ◌&&◌, ◌||◌, bit_and, bit_or,
  ◌==◌, ltb, if◌then◌else◌, none, some, ok, err,
}
use funderberker.Bits.{
  bit, bit_not, bit-and, bit-or, bit-bit_not, bit_ones, bit-pow, bit-zero, bit_of_lt, and_low,
  and-le, or-lt, eq_of_bits,
}
use funderberker.Paging.{page_already_present, invalid_flags}
use funderberker.Paging.Flags.{Flags, join, get_present, set_present, set_last_entry}
use funderberker.Paging.Flags
use funderberker.Paging.Flags.Laws.{join-some, join-none}
use funderberker.Paging.PageSize.{to_flags}
use funderberker.Paging.Entry.{Entry, get_flags, set_flags, get_addr, set_addr, map}

-- The word that `set_addr` leaves
abbrev pub moved : Entry → ℕ → ℕ → Entry
moved e a b = bit_or (bit_and e (2 ^ b - 1)) (bit_and a (bit_not 64 (2 ^ b - 1)))

-- the flags that `map` joins with those of the page size
abbrev pub marked : Flags → Flags
marked f = bit_or (bit_or f (2 ^ 0)) (2 ^ 10)

bit-to_flags : (p k : ℕ) → bit (to_flags p) k ≡ (not (p == 4096) && (7 == k))
unfolding Flags.set
bit-to_flags p k = ground (arith, bit-zero k, bit-or 0 (2 ^ 7) k, bit-pow 7 k)

bit-marked : (f k : ℕ) → bit (marked f) k ≡ (bit f k || (0 == k) || (10 == k))
bit-marked f k =
    ground
      (arith, bit-or (bit_or f (2 ^ 0)) (2 ^ 10) k, bit-or f (2 ^ 0) k, bit-pow 0 k, bit-pow 10 k)

marked_lt : (f : ℕ) → f < 2 ^ 64 → marked f < 2 ^ 64
marked_lt f small =
    or-lt 64 (bit_or f (2 ^ 0)) (2 ^ 10) (or-lt 64 f (2 ^ 0) small (omega arith)) (omega arith)

to_flags_lt : (p : ℕ) → to_flags p < 2 ^ 64
unfolding Flags.set
to_flags_lt p = ground arith

-- The flags that are left when the flags of a page size are joined: all of both.
pub joined_flags :
    (p f : ℕ)
    → f < 2 ^ 64
    → (bit f 7 && not (p == 4096)) ≡ false
    → (g : Flags) × (join (marked f) (to_flags p) ≡ some g)
      × (g < 2 ^ 64)
      × ((k : ℕ) → bit g k ≡ (bit f k || (0 == k) || (10 == k) || (not (p == 4096) && (7 == k))))
joined_flags p f small free =
    let (g, e, bound, bits) =
      join-some (marked f) (to_flags p) (marked_lt f small) (to_flags_lt p)
        (λ k lt. ground (arith, bit-marked f k, bit-to_flags p k)) in
    (g, e, bound, λ k. ground (arith, bits k, bit-marked f k, bit-to_flags p k))

pub bit-moved :
    (e a b j : ℕ) → j < 64 → bit (moved e a b) j ≡ (if ltb j b then bit e j else bit a j)
unfolding xor
bit-moved e a b j lt = rw (bit-or, bit-and, bit-and, bit-bit_not, bit_ones) (ground arith)

pub bit-set_flags :
    (e g j : ℕ)
    → j < 64
    → ((k : ℕ) → 12 ≤ k → bit g k ≡ false)
    → bit (set_flags e g) j ≡ (if ltb j 12 then bit g j else bit e j)
unfolding set_flags xor
bit-set_flags e g j lt high = ground (
  arith,
  bit-or (bit_and e (bit_not 64 4095)) g j,
  bit-and e (bit_not 64 4095) j,
  bit-bit_not 64 4095 j,
  bit_ones 12 j,
  high j,
)

pub zero_of_bits : (x : ℕ) → x < 2 ^ 64 → ((k : ℕ) → k < 64 → bit x k ≡ false) → x ≡ 0
zero_of_bits x lt h = eq_of_bits 64 x 0 lt (omega arith) (λ k p. rw (h k p, bit-zero) refl)

pub moved_lt : (e a b : ℕ) → e < 2 ^ 64 → a < 2 ^ 64 → moved e a b < 2 ^ 64
moved_lt e a b p q =
    or-lt 64 _ _ (omega (arith, and-le 64 e (2 ^ b - 1) p))
      (omega (arith, and-le 64 a (bit_not 64 (2 ^ b - 1)) q))

pub set_flags_lt : (e g : ℕ) → e < 2 ^ 64 → g < 2 ^ 64 → set_flags e g < 2 ^ 64
unfolding set_flags
set_flags_lt e g p q = or-lt 64 _ _ (omega (arith, and-le 64 e (bit_not 64 4095) p)) q

bit-get_flags : (e k : ℕ) → k < 12 → bit (get_flags e) k ≡ bit e k
unfolding get_flags
bit-get_flags e k lt = ground (arith, bit-and e 4095 k, bit_ones 12 k)

-- The digits of an aligned address below the alignment.
pub bit_of_aligned : (a b j : ℕ) → a % 2 ^ b ≡ 0 → j < b → bit a j ≡ false
bit_of_aligned a b j h lt =
    ground (arith, and_low b a, bit-and a (2 ^ b - 1) j, bit_ones b j, bit-zero j)

-- An address is read back when the entry has its digits from the page size on, and none between the
-- flags and there.
pub get_addr_of_bits :
    {E : Type 0} (n a b : ℕ)
    → n < 2 ^ 64
    → a < 2 ^ 64
    → a % 2 ^ b ≡ 0
    → ((k : ℕ) → k < 64 → 12 ≤ k → k < b → bit n k ≡ false)
    → ((k : ℕ) → k < 64 → b ≤ k → bit n k ≡ bit a k)
    → get_addr {E = E} n (2 ^ b) ≡ ok a
unfolding get_addr xor
get_addr_of_bits n a b n_lt a_lt aligned middle high =
    let flagless = bit_and n (bit_not 64 4095) in
    let flagless_lt : flagless < 2 ^ 64 = omega (arith, and-le 64 n (bit_not 64 4095) n_lt) in
    let e : bit_and flagless (2 ^ b - 1) ≡ 0 =
      zero_of_bits _ (omega (arith, and-le 64 flagless (2 ^ b - 1) flagless_lt)) (λ k lt. ground (
        arith,
        bit-and flagless (2 ^ b - 1) k,
        bit-and n (bit_not 64 4095) k,
        bit-bit_not 64 4095 k,
        bit_ones 12 k,
        bit_ones b k,
        middle k,
      )) in
    let f : bit_and n (bit_not 64 (2 ^ b - 1)) ≡ a =
      eq_of_bits 64 _ _ (omega (arith, and-le 64 n (bit_not 64 (2 ^ b - 1)) n_lt)) a_lt (λ k lt.
        ground (
          arith,
          bit-and n (bit_not 64 (2 ^ b - 1)) k,
          bit-bit_not 64 (2 ^ b - 1) k,
          bit_ones b k,
          high k lt,
          bit_of_aligned a b k aligned,
        )) in
    rw (e, f) refl

-- Mapping an entry that is not present and has no digits between the flags and the page size, to an
-- aligned address, with flags of the low twelve digits that do not set the page size digit of a big
-- page: the entry then gives the address back, and its flags are those asked for, with the present
-- and the last entry flag, and the page size flag exactly if the page is big.
pub map-get_addr :
    {E : Type 0} (e a f b : ℕ)
    → e < 2 ^ 64
    → a < 2 ^ 64
    → f < 2 ^ 12
    → 12 ≤ b
    → a % 2 ^ b ≡ 0
    → get_present (get_flags e) ≡ false
    → (bit f 7 && not (2 ^ b == 4096)) ≡ false
    → ((k : ℕ) → 12 ≤ k → k < b → bit e k ≡ false)
    → (n : Entry) × (map e a f (2 ^ b) ≡ ok n)
      × (get_addr {E = E} n (2 ^ b) ≡ ok a)
      × ((k : ℕ)
          → k < 12
          → bit (get_flags n) k
            ≡ (bit f k || (0 == k) || (10 == k) || (not (2 ^ b == 4096) && (7 == k))))
unfolding map set_addr Flags.get Flags.set
map-get_addr e a f b e_lt a_lt f_lt low aligned absent free middle =
    let (g, joined, g_lt, bits) = joined_flags (2 ^ b) f (omega arith) free in
    let g_high : (k : ℕ) → 12 ≤ k → bit g k ≡ false =
      λ k le. ground (arith, bits k, bit_of_lt 12 f k f_lt) in
    let m = moved e a b in
    let m_lt = moved_lt e a b e_lt a_lt in
    let mask : bit_and a (2 ^ b - 1) ≡ 0 = and_low b a ∙ aligned in
    (
      set_flags m g,
      rw (absent, mask, joined) refl,
      get_addr_of_bits (set_flags m g) a b (set_flags_lt m g m_lt g_lt) a_lt aligned
          (λ k lt p q.
            ground (arith, bit-set_flags m g k lt g_high, bit-moved e a b k lt, middle k))
          (λ k lt p. ground (arith, bit-set_flags m g k lt g_high, bit-moved e a b k lt)),
      λ k lt. ground (
        arith,
        bit-get_flags (set_flags m g) k lt,
        bit-set_flags m g k (omega arith) g_high,
        bits k,
      ),
    )

-- The word stays one of 64 bits.
pub map_lt :
    (e a f b : ℕ) {n : Entry}
    → e < 2 ^ 64
    → a < 2 ^ 64
    → f < 2 ^ 64
    → a % 2 ^ b ≡ 0
    → get_present (get_flags e) ≡ false
    → (bit f 7 && not (2 ^ b == 4096)) ≡ false
    → map e a f (2 ^ b) ≡ ok n
    → n < 2 ^ 64
unfolding map set_addr Flags.get Flags.set
map_lt e a f b {n} e_lt a_lt f_lt aligned absent free done =
    let (g, joined, g_lt, bits) = joined_flags (2 ^ b) f f_lt free in
    let mask : bit_and a (2 ^ b - 1) ≡ 0 = and_low b a ∙ aligned in
    let same : map e a f (2 ^ b) ≡ ok (set_flags (moved e a b) g) =
      rw (map, absent, mask, joined) refl in
    let e' : n ≡ set_flags (moved e a b) g = cc in
    rw e' (set_flags_lt (moved e a b) g (moved_lt e a b e_lt a_lt) g_lt)

-- The refusals of `map`: of an entry that is present, which stays as it is.
pub map_present :
    (e a f p : ℕ) → get_present (get_flags e) ≡ true → map e a f p ≡ err (page_already_present, e)
unfolding map
map_present e a f p present = rw present refl

-- Flags that set the page size digit are refused for a big page, and the entry, that was not present,
-- is left with the address.
pub map_conflict :
    (e a f b : ℕ)
    → f < 2 ^ 64
    → a % 2 ^ b ≡ 0
    → get_present (get_flags e) ≡ false
    → (bit f 7 && not (2 ^ b == 4096)) ≡ true
    → map e a f (2 ^ b) ≡ err (invalid_flags, moved e a b)
unfolding map set_addr Flags.get Flags.set
map_conflict e a f b f_lt aligned absent clash =
    let mask : bit_and a (2 ^ b - 1) ≡ 0 = and_low b a ∙ aligned in
    let refused : join (marked f) (to_flags (2 ^ b)) ≡ none =
      join-none (marked f) (to_flags (2 ^ b)) 7 (ground (arith, bit-marked f 7))
        (ground (arith, bit-to_flags (2 ^ b) 7)) in
    rw (absent, mask, refused) refl
