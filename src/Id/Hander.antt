-- ===== src/Id/Hander.antt =====
-- utils/src/collections/id/hander.rs: identifiers counted up from a start, never given back.
-- A hander has no error cases, only the panic of an overflowing sum.
use native.Mathlib.Nat.{le_refl}
use funderberker.Common.{
  ℕ, ◌+◌, ◌≤◌, ◌<◌, ◌≡◌, arith, Option, none, some, Outcome, ok, panic, ◌>>=◌, add_usize, usize_mod,
  ltb, if◌then◌else◌, ◌⊎◌, subst, inl, inr, >>=-eq-ok, List, [], ◌∷◌, inl, inr,
}

pub record IdHander : Type 0 where
  pub next : ℕ
  pub max : ℕ

abbrev pub uninit : IdHander
uninit = record { next = 0; max = 0 }

abbrev pub new_starting_from : ℕ → ℕ → IdHander
new_starting_from start_id max_id = record { next = start_id; max = max_id }

abbrev pub new : ℕ → IdHander
new max_id = new_starting_from 0 max_id

unfoldable pub handout_and_skip : IdHander → ℕ → Outcome ⊥ (Option ℕ × IdHander)
handout_and_skip h count =
    if ltb h.max h.next
    then ok (none, h)
    else do next ← add_usize h.next count; ok (some h.next, record h { next = next })

unfoldable pub handout : IdHander → Outcome ⊥ (Option ℕ × IdHander)
unfolding handout_and_skip
handout h = handout_and_skip h 1

abbrev pub peek_next : IdHander → ℕ
peek_next h = h.next

-- What a request adds to the granted ranges, each a first identifier and a count.
abbrev pub add_range : Option ℕ → ℕ → List (ℕ × ℕ) → List (ℕ × ℕ)
add_range none count ranges = ranges
add_range (some id) count ranges = (id, count) ∷ ranges

-- A sequence of requests, each for so many identifiers: the ranges that were granted.
unfoldable pub requests : IdHander → List ℕ → Outcome ⊥ (List (ℕ × ℕ))
requests h [] = ok []
requests h (count ∷ counts) = do
  (granted, h') ← handout_and_skip h count
  ranges ← requests h' counts
  ok (add_range granted count ranges)

-- The ranges lie one behind the other from `lo` on, and each begins at most at `max`.
abbrev pub InOrder : ℕ → ℕ → List (ℕ × ℕ) → Type 0
InOrder max lo [] = Unit {0}
InOrder max lo ((id, count) ∷ ranges) = (lo ≤ id) × (id ≤ max) × InOrder max (id + count) ranges

granted_cases :
    (h h' : IdHander) (count : ℕ) (granted : Option ℕ)
    → handout_and_skip h count ≡ ok (granted, h')
    → ((granted ≡ none) × (h' ≡ h))
      ⊎ ((granted ≡ some h.next) × (h.next ≤ h.max) × (h' ≡ record h { next = h.next + count }))
unfolding handout_and_skip
granted_cases h h' count granted e = ground arith

add_range-InOrder :
    (h h' : IdHander) (count : ℕ) (granted : Option ℕ) (ranges : List (ℕ × ℕ))
    → ((granted ≡ none) × (h' ≡ h))
      ⊎ ((granted ≡ some h.next) × (h.next ≤ h.max) × (h' ≡ record h { next = h.next + count }))
    → InOrder h'.max h'.next ranges
    → InOrder h.max h.next (add_range granted count ranges)
add_range-InOrder h h' count granted ranges (inl (refused, same)) r =
    rw refused (subst (λ k. InOrder k.max k.next ranges) same r)
add_range-InOrder h h' count granted ranges (inr (given, le, new)) r =
    rw given (le_refl _, le, subst (λ (k : IdHander). InOrder k.max k.next ranges) new r)

-- Whatever is asked for, the granted ranges come in order and never overlap, they begin at the
-- hander's next identifier or behind it, and none begins behind its maximum.
pub requests-InOrder :
    (h : IdHander) (counts : List ℕ) (ranges : List (ℕ × ℕ))
    → requests h counts ≡ ok ranges
    → InOrder h.max h.next ranges
unfolding requests handout_and_skip
requests-InOrder h [] ranges e = let e' : [] ≡ ranges = cc in rw (← e') tt
requests-InOrder h (count ∷ counts) ranges e =
    let ((granted, h'), got, rest) = >>=-eq-ok (handout_and_skip h count) _ e in
    let (ranges', tail, whole) = >>=-eq-ok (requests h' counts) _ rest in
    let in_order = requests-InOrder h' counts ranges' tail in
    let whole' : add_range granted count ranges' ≡ ranges = cc whole in
    rw (← whole')
      (add_range-InOrder h h' count granted ranges' (granted_cases h h' count granted got) in_order)

-- A hander that is past its maximum answers `None` and stays as it is; any other grants its next
-- identifier, whatever the count, as long as the sum is a `usize`.
pub handout_and_skip_lem :
    (h : IdHander) (count : ℕ)
    → (h.max < h.next → handout_and_skip h count ≡ ok (none, h))
      × (h.next ≤ h.max
          → h.next + count < usize_mod
          → handout_and_skip h count ≡ ok (some h.next, record h { next = h.next + count }))
      × (h.next ≤ h.max → usize_mod ≤ h.next + count → handout_and_skip h count ≡ panic)
unfolding handout_and_skip
handout_and_skip_lem h count = (λ lt. ground arith, λ le fits. ground arith, λ le big. ground arith)
