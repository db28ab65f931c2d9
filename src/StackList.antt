-- ===== src/StackList.antt =====
-- utils/src/collections/stacklist.rs: the singly linked stack, as the sequence of its elements from the
-- head on, with the length that the source counts beside it.
pub mod Laws
use funderberker.Common.{
  ℕ, zero, suc, ◌+◌, ◌-◌, Bool, true, false, Option, none, some, List, [], ◌∷◌, ◌++◌, reverse,
  length, leb, ◌==◌, if◌then◌else◌,
}

pub record StackList (A : Type 0) : Type 0 where
  pub elements : List A
  pub len : ℕ

module _ {A : Type 0} where
  abbrev pub new : StackList A
  new = record { elements = []; len = 0 }

  -- `push` and `push_node`
  abbrev pub push : StackList A → A → StackList A
  push s x = record { elements = x ∷ s.elements; len = s.len + 1 }

  -- `pop` and `pop_node`
  abbrev pub pop : StackList A → Option (A × StackList A)
  pop s = elim s.elements [
    | [] ↦ none
    | x ∷ rest ↦ some (x, record { elements = rest; len = s.len - 1 })
  ]

  abbrev pub peek : StackList A → Option A
  peek s = elim s.elements [ [] ↦ none | x ∷ rest ↦ some x ]

  -- The element that so many `next` pointers lead to, and the list without it
  unfoldable pub unlink : List A → ℕ → Option (A × List A)
  unlink [] i = none
  unlink (x ∷ xs) zero = some (x, xs)
  unlink (x ∷ xs) (suc i) = elim (unlink xs i) [ none ↦ none | some (a, rest) ↦ some (a, x ∷ rest) ]

  unfoldable pub remove_at : StackList A → ℕ → Option (A × StackList A)
  unfolding unlink
  remove_at s index = if leb s.len index then none else elim (unlink s.elements index) [
    | none ↦ none
    | some (a, rest) ↦ some (a, record { elements = rest; len = s.len - 1 })
  ]

  unfoldable pub get_from : List A → ℕ → Option A
  get_from [] i = none
  get_from (x ∷ xs) zero = some x
  get_from (x ∷ xs) (suc i) = get_from xs i

  unfoldable pub get : StackList A → ℕ → Option A
  unfolding get_from
  get s index = if leb s.len index then none else get_from s.elements index

  abbrev pub is_empty : StackList A → Bool
  is_empty s = elim s.elements [ [] ↦ true | _ ∷ _ ↦ false ]

  -- The loop of `into_vec`, which pushes each popped element at the end of the vector
  unfoldable pub drain : List A → List A → List A
  drain [] vec = vec
  drain (x ∷ xs) vec = drain xs (vec ++ x ∷ [])

  unfoldable pub into_vec : StackList A → List A
  unfolding drain
  into_vec s = reverse (drain s.elements [])

  -- The loop of `retain`, with the elements that are kept and the length
  unfoldable pub retain_loop : (A → Bool) → List A → ℕ → List A × ℕ
  retain_loop f [] len = ([], len)
  retain_loop f (x ∷ xs) len =
      let (kept, left) = retain_loop f xs len in if f x then (x ∷ kept, left) else (kept, left - 1)

  unfoldable pub retain : StackList A → (A → Bool) → StackList A
  unfolding retain_loop
  retain s f =
      let (kept, left) = retain_loop f s.elements s.len in record { elements = kept; len = left }
