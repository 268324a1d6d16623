-- ===== src/Interval.antt =====
-- tools/abi_artifact_parity.py, `_AtomInterval` and the functions over it: the AVL tree of assigned
-- half-open byte ranges that `_AtomBuilder` keeps. A Python node that is rewired in place is owned
-- by one parent, so each function returns the tree that the mutation leaves.
pub mod Outline
pub mod Balance
pub mod Insert
pub mod Search
pub mod Traverse
mod Examples
pub mod Remove
use zynum.Prelude.{
  ℕ, zero, suc, ◌+◌, max, ◌≡◌, Bool, true, false, Option, none, some, List, [], ◌∷◌, compare,
  Ordering, ltb, leb, if◌then◌else◌, Outcome, ok, err, ◌>>=◌,
}

-- The fields of a node but its links and its height.
pub record Interval {ℓ} (V : Type ℓ) : Type ℓ where
  pub start : ℕ
  pub end : ℕ
  pub value : V

-- `_AtomInterval | None`. The last field of a node is its cached height.
pub data Tree {ℓ} (V : Type ℓ) : Type ℓ where
  leaf : Tree V
  node : Interval V → Tree V → Tree V → ℕ → Tree V

-- `AssertionError`, by an `assert` of a rotation or a raise.
pub data Assertion : Type 0 where
  missing_child : Assertion
  duplicate_start : ℕ → Assertion
  missing_start : ℕ → Assertion

module _ {ℓ} {V : Type ℓ} where
  unfoldable pub interval_height : Tree V → ℕ
  interval_height leaf = 0
  interval_height (node x l r h) = h

  -- A node with its height brought up to date.
  unfoldable pub update_interval_height : Interval V → Tree V → Tree V → Tree V
  unfolding interval_height
  update_interval_height x l r = node x l r (1 + max (interval_height l) (interval_height r))

  unfoldable pub rotate_interval_left : Interval V → Tree V → Tree V → Outcome Assertion (Tree V)
  unfolding update_interval_height
  rotate_interval_left x l leaf = err missing_child
  rotate_interval_left x l (node y rl rr h) =
      ok (update_interval_height y (update_interval_height x l rl) rr)

  unfoldable pub rotate_interval_right : Interval V → Tree V → Tree V → Outcome Assertion (Tree V)
  unfolding update_interval_height
  rotate_interval_right x leaf r = err missing_child
  rotate_interval_right x (node y ll lr h) r =
      ok (update_interval_height y ll (update_interval_height x lr r))

  -- The branch `balance > 1`.
  unfoldable pub balance_left_heavy : Interval V → Tree V → Tree V → Outcome Assertion (Tree V)
  unfolding rotate_interval_left rotate_interval_right
  balance_left_heavy x leaf r = err missing_child
  balance_left_heavy x (node y ll lr h) r =
      if ltb (interval_height ll) (interval_height lr)
      then (do left ← rotate_interval_left y ll lr; rotate_interval_right x left r)
      else rotate_interval_right x (node y ll lr h) r

  -- The branch `balance < -1`.
  unfoldable pub balance_right_heavy : Interval V → Tree V → Tree V → Outcome Assertion (Tree V)
  unfolding rotate_interval_left rotate_interval_right
  balance_right_heavy x l leaf = err missing_child
  balance_right_heavy x l (node y rl rr h) =
      if ltb (interval_height rr) (interval_height rl)
      then (do right ← rotate_interval_right y rl rr; rotate_interval_left x l right)
      else rotate_interval_left x l (node y rl rr h)

  unfoldable pub balance_interval : Interval V → Tree V → Tree V → Outcome Assertion (Tree V)
  unfolding balance_left_heavy balance_right_heavy
  balance_interval x l r =
      if ltb (interval_height r + 1) (interval_height l)
      then balance_left_heavy x l r
      else if ltb (interval_height l + 1) (interval_height r)
      then balance_right_heavy x l r
      else ok (update_interval_height x l r)

  unfoldable pub insert_interval : Tree V → Interval V → Outcome Assertion (Tree V)
  insert_interval leaf x = ok (node x leaf leaf 1)
  insert_interval (node y l r h) x = elim (compare x.start y.start) [
    | Ordering.lt ↦ do left ← insert_interval l x; balance_interval y left r
    | Ordering.gt ↦ do right ← insert_interval r x; balance_interval y l right
    | Ordering.eq ↦ err (duplicate_start x.start)
  ]

  -- `while successor.left is not None`, from a node with the given fields.
  unfoldable pub leftmost : Interval V → Tree V → Interval V
  leftmost x leaf = x
  leftmost x (node y l r h) = leftmost y l

  -- The three cases of a found start. `rest` is the right branch with the successor removed, which
  -- only a node with two children asks for.
  unfoldable pub unlink_root :
      Interval V → Tree V → Tree V → Outcome Assertion (Tree V) → Outcome Assertion (Tree V)
  unlink_root s leaf r rest = ok r
  unlink_root s l leaf rest = ok l
  unlink_root s l r rest = do right ← rest; balance_interval s l right

  unfoldable pub remove_interval : Tree V → ℕ → Outcome Assertion (Tree V)
  unfolding leftmost unlink_root
  remove_interval leaf start = err (missing_start start)
  remove_interval (node y l r h) start = elim (compare start y.start) [
    | Ordering.lt ↦ do left ← remove_interval l start; balance_interval y left r
    | Ordering.gt ↦ do right ← remove_interval r start; balance_interval y l right
    | Ordering.eq ↦ unlink_root (leftmost y r) l r (remove_interval r (leftmost y r).start)
  ]

  -- The three searches walk down one branch and remember the last node that qualified.
  unfoldable pub lower_bound_from : Option (Interval V) → Tree V → ℕ → Option (Interval V)
  lower_bound_from result leaf start = result
  lower_bound_from result (node y l r h) start = elim (leb start y.start) [
    | true ↦ lower_bound_from (some y) l start
    | false ↦ lower_bound_from result r start
  ]

  unfoldable pub lower_bound_interval : Tree V → ℕ → Option (Interval V)
  unfolding lower_bound_from
  lower_bound_interval = lower_bound_from none

  unfoldable pub predecessor_from : Option (Interval V) → Tree V → ℕ → Option (Interval V)
  predecessor_from result leaf start = result
  predecessor_from result (node y l r h) start = elim (ltb y.start start) [
    | true ↦ predecessor_from (some y) r start
    | false ↦ predecessor_from result l start
  ]

  unfoldable pub predecessor_interval : Tree V → ℕ → Option (Interval V)
  unfolding predecessor_from
  predecessor_interval = predecessor_from none

  unfoldable pub successor_from : Option (Interval V) → Tree V → ℕ → Option (Interval V)
  successor_from result leaf start = result
  successor_from result (node y l r h) start = elim (ltb start y.start) [
    | true ↦ successor_from (some y) l start
    | false ↦ successor_from result r start
  ]

  unfoldable pub successor_interval : Tree V → ℕ → Option (Interval V)
  unfolding successor_from
  successor_interval = successor_from none

  -- `while root is not None: stack.append(root); root = root.left`. What the loop reads of a
  -- stacked node is the interval and the right branch.
  unfoldable pub push_left : Tree V → List (Interval V × Tree V) → List (Interval V × Tree V)
  push_left leaf stack = stack
  push_left (node y l r h) stack = push_left l ((y, r) ∷ stack)

  -- One round of the outer loop: push, pop, yield. `none` means that the fuel ran out.
  unfoldable pub drain : ℕ → List (Interval V × Tree V) → Option (List (Interval V))
  unfolding push_left
  drain fuel [] = some []
  drain zero ((y, r) ∷ stack) = none
  drain (suc fuel) ((y, r) ∷ stack) = elim (drain fuel (push_left r stack)) [
    | none ↦ none
    | some ys ↦ some (y ∷ ys)
  ]

  -- Every node is popped once, so the number of nodes is fuel enough.
  unfoldable pub node_count : Tree V → ℕ
  node_count leaf = 0
  node_count (node y l r h) = node_count l + node_count r + 1

  unfoldable pub ordered_intervals : Tree V → Option (List (Interval V))
  unfolding drain node_count
  ordered_intervals root = drain (node_count root) (push_left root [])
