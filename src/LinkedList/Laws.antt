-- ===== src/LinkedList/Laws.antt =====
-- Sums over the elements of a list, and how the operations change them.
use funderberker.Common.{
  ℕ, suc, ◌+◌, ◌<◌, ◌≡◌, refl, arith, Bool, true, false, Bool-cases, inl, inr, Option, none, some,
  List, [], ◌∷◌, length,
}
use funderberker.LinkedList.{push_back, pop_back, remove_at, find, find_from}

module _ {A : Type 0} where
  -- The sum of a quantity over the elements.
  unfoldable pub total : (A → ℕ) → List A → ℕ
  total f [] = 0
  total f (x ∷ xs) = f x + total f xs

  pub total-push_back :
      (f : A → ℕ) (xs : List A) (a : A) → total f (push_back xs a) ≡ total f xs + f a
  unfolding total push_back
  total-push_back f [] a = omega arith
  total-push_back f (x ∷ xs) a = omega (arith, total-push_back f xs a)

  pub length-push_back : (xs : List A) (a : A) → length (push_back xs a) ≡ length xs + 1
  unfolding push_back
  length-push_back [] a = refl
  length-push_back (x ∷ xs) a = omega (arith, length-push_back xs a)

  -- A list that is not empty has a last element.
  pub pop_back-some :
      (xs : List A)
      → 0 < length xs
      → (a : A) × (rest : List A) × (pop_back xs ≡ some (a, rest)) × (length xs ≡ length rest + 1)
  unfolding pop_back
  pop_back-some [] h = elim h [ ]
  pop_back-some (x ∷ []) h = (x, [], refl, refl)
  pop_back-some (x ∷ (y ∷ xs)) h =
      let (a, rest, e, l) = pop_back-some (y ∷ xs) (omega arith) in (a, x ∷ rest, rw e, omega arith)

  -- What a search found stands at the index that it gives, and passes the test.
  pub find_from-remove_at :
      (i : ℕ) (test : A → Bool) (xs : List A) (j : ℕ) (a : A)
      → find_from i test xs ≡ some (j, a)
      → (test a ≡ true)
        × (k : ℕ) × (j ≡ i + k)
        × (rest : List A) × (remove_at xs k ≡ some (a, rest))
        × ((f : A → ℕ) → total f xs ≡ total f rest + f a)
  unfolding find_from remove_at total
  find_from-remove_at i test [] j a e = cc
  find_from-remove_at i test (x ∷ xs) j a e = elim (Bool-cases (test x)) [
    | inl hit ↦
        let e' : ◌≡◌ {A = Option (ℕ × A)} (some (i, x)) (some (j, a)) = rw hit at e in
        let same : x ≡ a = cc in (rw (← same) hit, 0, ground arith, xs, rw same, λ f. ground arith)
    | inr miss ↦
        let e' : find_from (i + 1) test xs ≡ some (j, a) = rw miss at e in
        let (hit, k, at, rest, removed, sums) = find_from-remove_at (i + 1) test xs j a e' in
        (hit, suc k, omega arith, x ∷ rest, rw removed, λ f. omega (arith, sums f))
  ]

  pub find-remove_at :
      (test : A → Bool) (xs : List A) (k : ℕ) (a : A)
      → find test xs ≡ some (k, a)
      → (test a ≡ true)
        × (rest : List A) × (remove_at xs k ≡ some (a, rest))
        × ((f : A → ℕ) → total f xs ≡ total f rest + f a)
  unfolding find
  find-remove_at test xs k a e =
      let (hit, k', at, rest, removed, sums) = find_from-remove_at 0 test xs k a e in
      let same : k ≡ k' = omega arith in (hit, rest, rw same removed, sums)

  find_from-none :
      (i : ℕ) (test : A → Bool) (xs : List A)
      → find_from i test xs ≡ none
      → (f : A → ℕ) → ((a : A) → test a ≡ false → f a ≡ 0)
      → total f xs ≡ 0
  unfolding find_from total
  find_from-none i test [] e f h = refl
  find_from-none i test (x ∷ xs) e f h = elim (Bool-cases (test x)) [
    | inl hit ↦ let e' : some (i, x) ≡ none = rw hit at e in cc
    | inr miss ↦
        let e' : find_from (i + 1) test xs ≡ none = rw miss at e in
        omega (arith, h x miss, find_from-none (i + 1) test xs e' f h)
  ]

  -- A search that finds nothing: a quantity that only the passing elements have sums up to zero.
  pub find-none :
      (test : A → Bool) (xs : List A)
      → find test xs ≡ none
      → (f : A → ℕ) → ((a : A) → test a ≡ false → f a ≡ 0)
      → total f xs ≡ 0
  unfolding find
  find-none test xs e f h = find_from-none 0 test xs e f h
