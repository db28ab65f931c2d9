-- ===== src/Slab/Counts.antt =====
-- How often an address stands in a list of addresses.
use funderberker.Common.{
  ℕ, ◌+◌, ◌≤◌, ◌≡◌, arith, true, false, List, [], ◌∷◌, ◌==◌, if◌then◌else◌, length,
}
use funderberker.Slab.{holds_object}

abbrev pub count : ℕ → List ℕ → ℕ
count x [] = 0
count x (y ∷ ys) = (if y == x then 1 else 0) + count x ys

-- The list without the first place at which an address stands
abbrev pub erase : ℕ → List ℕ → List ℕ
erase x [] = []
erase x (y ∷ ys) = if y == x then ys else y ∷ erase x ys

pub count-erase :
    (x y : ℕ) (ys : List ℕ)
    → 1 ≤ count x ys
    → count y (erase x ys) + (if x == y then 1 else 0) ≡ count y ys
count-erase x y [] h = absurd (omega arith)
count-erase x y (z ∷ ys) h = ground (arith, count-erase x y ys)

pub length-erase : (x : ℕ) (ys : List ℕ) → 1 ≤ count x ys → length (erase x ys) + 1 ≡ length ys
length-erase x [] h = absurd (omega arith)
length-erase x (z ∷ ys) h = ground (arith, length-erase x ys)

pub holds_object-count :
    (x : ℕ) (ys : List ℕ) → holds_object x ys ≡ (if count x ys == 0 then false else true)
unfolding holds_object
holds_object-count x [] = ground arith
holds_object-count x (z ∷ ys) = ground (arith, holds_object-count x ys)
