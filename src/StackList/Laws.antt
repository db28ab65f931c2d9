-- ===== src/StackList/Laws.antt =====
-- The counted length, and the order of `into_vec`.
use mathlib.Core.List.{reverse-cons, reverse-reverse, append_assoc, append-nil}
use funderberker.Common.{
  ℕ, zero, suc, ◌+◌, ◌-◌, ◌<◌, ◌≤◌, ◌≡◌, refl, ap, ◌∙◌, arith, Bool, leb, sym, Bool-cases, inl, inr,
  none, some, List, [], ◌∷◌, ◌++◌, reverse, length, ◌⊎◌,
}
use funderberker.StackList.{
  StackList, new, push, remove_at, unlink, get, get_from, drain, into_vec, retain_loop,
}

module _ {A : Type 0} where
  -- A stack onto which the elements of a list were pushed, the first one first.
  unfoldable pub pushed : StackList A → List A → StackList A
  pushed s [] = s
  pushed s (x ∷ xs) = pushed (push s x) xs

  drain_lem : (xs vec : List A) → drain xs vec ≡ vec ++ xs
  unfolding drain
  drain_lem [] vec = sym (append-nil vec)
  drain_lem (x ∷ xs) vec = drain_lem xs (vec ++ x ∷ []) ∙ append_assoc vec (x ∷ []) xs

  pushed-elements :
      (s : StackList A) (xs : List A) → (pushed s xs).elements ≡ reverse xs ++ s.elements
  unfolding pushed
  pushed-elements s [] = refl
  pushed-elements s (x ∷ xs) =
      pushed-elements (push s x) xs
      ∙ sym (append_assoc (reverse xs) (x ∷ []) s.elements)
      ∙ ap (λ ys. ys ++ s.elements) (sym (reverse-cons x xs))

  -- The vector of a stack holds the elements in the order in which they were pushed onto it.
  pub into_vec-pushed : (xs : List A) → into_vec (pushed new xs) ≡ xs
  unfolding into_vec
  into_vec-pushed xs =
      ap reverse
        (drain_lem (pushed new xs).elements [] ∙ pushed-elements new xs ∙ append-nil (reverse xs))
      ∙ reverse-reverse xs

  unlink_lem :
      (xs : List A) (i : ℕ)
      → ((a : A) × (rest : List A) × (unlink xs i ≡ some (a, rest))
          × (get_from xs i ≡ some a)
          × (i < length xs)
          × (length rest + 1 ≡ length xs))
        ⊎ ((unlink xs i ≡ none) × (get_from xs i ≡ none) × (length xs ≤ i))
  unfolding unlink get_from
  unlink_lem [] i = inr (refl, refl, omega arith)
  unlink_lem (x ∷ xs) zero = inl (x, xs, refl, refl, omega arith, omega arith)
  unlink_lem (x ∷ xs) (suc i) = elim (unlink_lem xs i) [
    | inl (a, rest, e, f, lt, len) ↦
        inl (a, x ∷ rest, rw e refl, f, omega (arith, lt), omega (arith, len))
    | inr (e, f, le) ↦ inr (rw e refl, f, omega (arith, le))
  ]

  -- An element can be removed at exactly the places below the length, if the length is counted right,
  -- and then it is counted right again.
  pub remove_at_lem :
      (s : StackList A) (index : ℕ)
      → s.len ≡ length s.elements
      → ((a : A) × (s' : StackList A) × (remove_at s index ≡ some (a, s'))
          × (get s index ≡ some a)
          × (index < s.len)
          × (s'.len ≡ length s'.elements)
          × (s'.len + 1 ≡ s.len))
        ⊎ ((remove_at s index ≡ none) × (get s index ≡ none) × (s.len ≤ index))
  unfolding remove_at get
  remove_at_lem s index counted = elim (Bool-cases (leb s.len index)) [
    | inl out ↦ inr (rw out refl, rw out refl, ground arith)
    | inr within ↦ elim (unlink_lem s.elements index) [
      | inr (_, _, le) ↦ absurd (ground (arith, le))
      | inl (a, rest, e, f, lt, len) ↦ inl (
        a,
        record { elements = rest; len = s.len - 1 },
        rw (within, e) refl,
        rw (within, f) refl,
        ground arith,
        omega (arith, len),
        omega (arith, lt),
      )
    ]
  ]

  -- `retain` keeps the length right, if no more elements than the length are dropped.
  retain_loop_lem :
      (f : A → Bool) (xs : List A) (n : ℕ)
      → length xs ≤ n
      → (length (retain_loop f xs n).0 + n ≡ (retain_loop f xs n).1 + length xs)
        × (length (retain_loop f xs n).0 ≤ length xs)
  unfolding retain_loop
  retain_loop_lem f [] n le = (omega arith, omega arith)
  retain_loop_lem f (x ∷ xs) n le =
      let (sum, bound) = retain_loop_lem f xs n (omega arith) in
      elim (Bool-cases (f x)) [
        | inl keep ↦ (rw keep (omega (arith, sum, bound)), rw keep (omega (arith, sum, bound)))
        | inr drop ↦ (rw drop (omega (arith, sum, bound)), rw drop (omega (arith, sum, bound)))
      ]
