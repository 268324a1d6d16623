-- ===== src/Interval/Traverse.antt =====
-- `_ordered_intervals`: the loop over an explicit stack yields the intervals in order.
use mathlib.Core.List.{append-nil, append_assoc}
use zynum.Prelude.{
  ℕ, zero, suc, ◌+◌, ◌≤◌, ◌≡◌, refl, sym, ap, ◌∙◌, some, List, [], ◌∷◌, ◌++◌, arith,
}
use zynum.Interval.{Interval, Tree, leaf, node, push_left, drain, node_count, ordered_intervals}
use zynum.Interval.Outline.{inorder}

module _ {ℓ} {V : Type ℓ} where
  -- What a stack has left to yield, and how many nodes it holds.
  abbrev pending : List (Interval V × Tree V) → List (Interval V)
  pending [] = []
  pending ((y, r) ∷ stack) = y ∷ (inorder r ++ pending stack)

  abbrev pending_count : List (Interval V × Tree V) → ℕ
  pending_count [] = 0
  pending_count ((y, r) ∷ stack) = 1 + node_count r + pending_count stack

  pending-push_left :
      (t : Tree V) (stack : List (Interval V × Tree V))
      → pending (push_left t stack) ≡ inorder t ++ pending stack
  unfolding push_left
  pending-push_left leaf stack = refl
  pending-push_left (node y l r h) stack =
      pending-push_left l ((y, r) ∷ stack)
      ∙ sym (append_assoc (inorder l) (y ∷ inorder r) (pending stack))

  pending_count-push_left :
      (t : Tree V) (stack : List (Interval V × Tree V))
      → pending_count (push_left t stack) ≡ node_count t + pending_count stack
  unfolding push_left node_count
  pending_count-push_left leaf stack = omega arith
  pending_count-push_left (node y l r h) stack =
      omega (arith, pending_count-push_left l ((y, r) ∷ stack))

  drain-pending :
      (fuel : ℕ) (stack : List (Interval V × Tree V))
      → pending_count stack ≤ fuel
      → drain fuel stack ≡ some (pending stack)
  unfolding drain
  drain-pending fuel [] h = refl
  drain-pending zero ((y, r) ∷ stack) h = absurd (omega arith)
  drain-pending (suc fuel) ((y, r) ∷ stack) h =
      let more =
        drain-pending fuel (push_left r stack) (omega (arith, pending_count-push_left r stack)) in
      rw (more, drain) (ap (λ xs. some (y ∷ xs)) (pending-push_left r stack))

  -- The traversal ends, and yields the intervals of the tree from left to right.
  pub ordered_intervals_lem : (t : Tree V) → ordered_intervals t ≡ some (inorder t)
  unfolding ordered_intervals
  ordered_intervals_lem t =
      drain-pending (node_count t) (push_left t []) (omega (arith, pending_count-push_left t []))
      ∙ ap some (pending-push_left t [] ∙ append-nil (inorder t))
