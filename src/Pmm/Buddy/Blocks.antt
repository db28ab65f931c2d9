-- ===== src/Pmm/Buddy/Blocks.antt =====
-- Blocks, their buddies and the addresses that they hold.
use native.Mathlib.Nat.{
  add-mod, pow-suc, one-le-pow, div-add-mod, mul-mod_right, mul-add-mod_self_left, mod-eq_of_lt,
}
use funderberker.Common.{
  true, false, sym, dec_lt, zero, suc, ◌≤◌, ℕ, suc, ◌+◌, ◌-◌, ◌*◌, ◌/◌, ◌%◌, ◌<◌, ◌≡◌, arith, ◌&&◌,
  ltb, leb, ◌==◌, if◌then◌else◌, min, ap, ◌∙◌, ℕ_discrete, ok,
}
use funderberker.Pmm.Power.{pow-add}
use funderberker.Pmm.Buddy.{bucket_size, holds, block_size, bucket_size, holds, get_buddy_addr}

pub block_size_pos : (i : ℕ) → 0 < block_size i
unfolding block_size
block_size_pos i = one-le-pow (i + 12) 2 (omega arith)

pub block_size-suc : (i : ℕ) → block_size (i + 1) ≡ block_size i * 2
unfolding block_size
block_size-suc i = let e : i + 1 + 12 ≡ suc (i + 12) = omega arith in rw e (pow-suc 2 (i + 12))

-- Whether the block of zone `i` at `b` holds the address `p`, as a number.
unfoldable pub in_block : ℕ → ℕ → ℕ → ℕ
in_block p i b = if leb b p && ltb p (b + block_size i) then 1 else 0

-- The block beside a block that is aligned to its size.
unfoldable pub buddy : ℕ → ℕ → ℕ
buddy i addr = if addr % (block_size i * 2) == 0 then addr + block_size i else addr - block_size i

pub get_buddy_addr-ok :
    (i addr : ℕ) → addr % block_size i ≡ 0 → get_buddy_addr addr i ≡ ok (buddy i addr)
unfolding get_buddy_addr buddy
get_buddy_addr-ok i addr h = ground arith

-- A multiple of `d` is an even or an odd one.
data Multiple (d a : ℕ) : Type 0 where
  even : (h : ℕ) → a ≡ d * 2 * h → Multiple d a
  odd : (h : ℕ) → a ≡ d * 2 * h + d → Multiple d a

multiple : (a d : ℕ) → a % d ≡ 0 → Multiple d a
multiple a d aligned =
    let m : ℕ = a / d in
    let whole : a ≡ d * m = omega (arith, div-add-mod a d) in
    elim (ℕ_discrete (m % 2) 0) [
      | yes e ↦
          let halves : m ≡ 2 * (m / 2) = omega arith in
          even (m / 2) (whole ∙ ap (λ (t : ℕ). d * t) halves ∙ omega arith)
      | no e ↦
          let halves : m ≡ 2 * (m / 2) + 1 = omega arith in
          odd (m / 2) (whole ∙ ap (λ (t : ℕ). d * t) halves ∙ omega arith)
    ]

even-mod : (d h : ℕ) → (d * 2 * h) % (d * 2) ≡ 0
even-mod d h = mul-mod_right (d * 2) h

odd-mod : (d h : ℕ) → 0 < d → (d * 2 * h + d) % (d * 2) ≡ d
odd-mod d h pos = mul-add-mod_self_left (d * 2) h d ∙ mod-eq_of_lt (omega arith)

even-mod_half : (d h : ℕ) → (d * 2 * h) % d ≡ 0
even-mod_half d h = let e : d * 2 * h ≡ d * (2 * h) = omega arith in rw e (mul-mod_right d (2 * h))

odd-mod_half : (d h : ℕ) → (d * 2 * h + d) % d ≡ 0
odd-mod_half d h =
    let e : d * 2 * h + d ≡ d * (2 * h + 1) = omega arith in rw e (mul-mod_right d (2 * h + 1))

union-aligned : (i h : ℕ) → (block_size i * 2 * h) % block_size (i + 1) ≡ 0
union-aligned i h = rw block_size-suc (even-mod (block_size i) h)

in_block_halves :
    (p i low : ℕ) → in_block p i low + in_block p i (low + block_size i) ≡ in_block p (i + 1) low
unfolding in_block
in_block_halves p i low = ground (arith, block_size-suc i)

-- A block and its buddy are aligned to the block size; the lower of the two begins the block of the
-- next zone that is made of both.
pub record Pair (i a : ℕ) : Type 0 where
  pub buddy_aligned : buddy i a % block_size i ≡ 0
  pub union_aligned : min a (buddy i a) % block_size (i + 1) ≡ 0
  pub halves :
      (p : ℕ) → in_block p i a + in_block p i (buddy i a) ≡ in_block p (i + 1) (min a (buddy i a))

buddy-even : (i h : ℕ) → buddy i (block_size i * 2 * h) ≡ block_size i * 2 * h + block_size i
unfolding buddy
buddy-even i h = rw (even-mod (block_size i) h)

buddy-odd : (i h : ℕ) → buddy i (block_size i * 2 * h + block_size i) ≡ block_size i * 2 * h
unfolding buddy
buddy-odd i h = ground (arith, odd-mod (block_size i) h (block_size_pos i), block_size_pos i)

pub buddy-Pair : (i a : ℕ) → a % block_size i ≡ 0 → Pair i a
buddy-Pair i a aligned = from_shape (multiple a (block_size i) aligned)
  where
    from_shape : Multiple (block_size i) a → Pair i a
    from_shape (even h e) =
        let low : ℕ = block_size i * 2 * h in
        let least : min low (low + block_size i) ≡ low = omega arith in
        rw e (record {
          buddy_aligned = rw (buddy-even i h) (odd-mod_half (block_size i) h);
          union_aligned = rw (buddy-even i h, least) (union-aligned i h);
          halves = λ p. rw (buddy-even i h, least) (in_block_halves p i low);
        })
    from_shape (odd h e) =
        let low : ℕ = block_size i * 2 * h in
        let least : min (low + block_size i) low ≡ low = omega arith in
        rw e (record {
          buddy_aligned = rw (buddy-odd i h) (even-mod_half (block_size i) h);
          union_aligned = rw (buddy-odd i h, least) (union-aligned i h);
          halves = λ p. rw (buddy-odd i h, least) (omega (arith, in_block_halves p i low));
        })

pub in_block_last : (i a : ℕ) → in_block (a + block_size i - 1) i a ≡ 1
unfolding in_block
in_block_last i a = ground (arith, block_size_pos i)

-- A multiple of a block size is one of every smaller block size.
pub aligned_down : (n i a : ℕ) → a % block_size (i + n) ≡ 0 → a % block_size i ≡ 0
aligned_down zero i a h = let e : i + 0 ≡ i = omega arith in rw e at h
aligned_down (suc n) i a h =
    let e : i + suc n ≡ i + n + 1 = omega arith in
    aligned_down n i a (half_aligned (block_size (i + n)) (rw (e, block_size-suc) at h))
  where
    half_aligned : (d : ℕ) → a % (d * 2) ≡ 0 → a % d ≡ 0
    half_aligned d k =
        let whole : a ≡ d * 2 * (a / (d * 2)) = omega (arith, div-add-mod a (d * 2)) in
        rw whole (even-mod_half d (a / (d * 2)))

-- Of the aligned blocks of a size only one holds an address that begins one.
pub aligned_unique : (d a b : ℕ) → a % d ≡ 0 → b % d ≡ 0 → b ≤ a → a < b + d → a ≡ b
aligned_unique d a b ha hb lo hi =
    let c : ℕ = a - b in
    let small : c % d ≡ c = mod-eq_of_lt (omega arith) in
    let sum : b + c ≡ a = omega arith in
    let parts : (b + c) % d ≡ (b % d + c % d) % d = add-mod b c d in
    let left : b % d + c % d ≡ c = omega (arith, hb, small) in
    let same : a % d ≡ c =
      ap (λ (t : ℕ). t % d) (sym sum) ∙ parts ∙ ap (λ (t : ℕ). t % d) left ∙ small in
    omega (arith, same, ha)

pub in_block_first : (i a : ℕ) → in_block a i a ≡ 1
unfolding in_block
in_block_first i a = ground (arith, block_size_pos i)

-- An address lies in one aligned block of each zone at most.
pub in_block_unique :
    (p i a b : ℕ)
    → a % block_size i ≡ 0
    → b % block_size i ≡ 0
    → in_block p i a ≡ 1
    → 1 ≤ in_block p i b
    → a ≡ b
unfolding in_block
in_block_unique p i a b ha hb ia ib =
    let d : ℕ = block_size i in
    let ra : (a ≤ p) × (p < a + d) = ground arith in
    let rb : (b ≤ p) × (p < b + d) = ground arith in
    elim (dec_lt a b) [
      | yes lt ↦ sym (aligned_unique d b a hb ha (omega arith) (omega arith))
      | no ge ↦ aligned_unique d a b ha hb (omega arith) (omega arith)
    ]

-- The two ways to compute the size of a block agree.
pub bucket_size-eq : (i : ℕ) → bucket_size i ≡ block_size i
unfolding bucket_size block_size
bucket_size-eq i = rw (pow-add i 12)

pub holds-in_block : (i p b : ℕ) → holds i p b ≡ true → in_block p i b ≡ 1
unfolding in_block
holds-in_block i p b h = ground (arith, bucket_size-eq i)

pub in_block-holds : (i p b : ℕ) → holds i p b ≡ false → in_block p i b ≡ 0
unfolding in_block
in_block-holds i p b h = ground (arith, bucket_size-eq i)
