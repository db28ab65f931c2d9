-- ===== src/LinkedList.antt =====
-- utils/src/collections/linkedlist.rs: the doubly linked list, as the sequence of its elements from
-- head to tail. A node that the callers move between lists is its element.
pub mod Laws
use funderberker.Common.{
  ℕ, zero, suc, ◌+◌, Bool, Option, none, some, List, [], ◌∷◌, ◌++◌, reverse, if◌then◌else◌,
}

module _ {ℓ} {A : Type ℓ} where
  -- `push_node_back` and `push_back`
  unfoldable pub push_back : List A → A → List A
  push_back xs a = xs ++ a ∷ []

  unfoldable pub cons_popped : A → Option (A × List A) → Option (A × List A)
  cons_popped x none = some (x, [])
  cons_popped x (some (a, rest)) = some (a, x ∷ rest)

  -- `pop_node_back` and `pop_back`: the last element, and the list without it.
  unfoldable pub pop_back : List A → Option (A × List A)
  unfolding cons_popped
  pop_back [] = none
  pop_back (x ∷ xs) = cons_popped x (pop_back xs)

  unfoldable pub cons_removed : A → Option (A × List A) → Option (A × List A)
  cons_removed x none = none
  cons_removed x (some (a, rest)) = some (a, x ∷ rest)

  -- `remove_at_node`: the element at an index, and the list without it.
  unfoldable pub remove_at : List A → ℕ → Option (A × List A)
  unfolding cons_removed
  remove_at [] i = none
  remove_at (x ∷ xs) zero = some (x, xs)
  remove_at (x ∷ xs) (suc i) = cons_removed x (remove_at xs i)

  -- `iter_nodes().enumerate().find(..)`: the first index, with its element, that passes the test.
  unfoldable pub find_from : ℕ → (A → Bool) → List A → Option (ℕ × A)
  find_from i test [] = none
  find_from i test (x ∷ xs) = if test x then some (i, x) else find_from (i + 1) test xs

  unfoldable pub find : (A → Bool) → List A → Option (ℕ × A)
  unfolding find_from
  find test xs = find_from 0 test xs
