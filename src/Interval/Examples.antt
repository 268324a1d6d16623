-- ===== src/Interval/Examples.antt =====
-- Runs of the interval tree, and its theorems at concrete trees.
use zynum.Prelude.{ℕ, ◌+◌, ◌≡◌, refl, none, some, [], ◌∷◌, arith, Outcome, ok, err, ◌>>=◌, inl, inr}
use zynum.Interval.{
  Interval, Tree, leaf, node, Assertion, duplicate_start, missing_start, insert_interval,
  remove_interval, balance_interval, lower_bound_interval, predecessor_interval, successor_interval,
  ordered_intervals, interval_height,
}
use zynum.Interval.Outline.{inorder}
use zynum.Interval.Balance.{IsBalanced}
use zynum.Interval.Insert.{IsInserted, insert_lem}
use zynum.Interval.Remove.{IsRemoved, remove_lem}
use zynum.Interval.Search.{first_from, last_before, search_lem}
use zynum.Interval.Traverse.{ordered_intervals_lem}

abbrev at : ℕ → Interval ℕ
at n = record { start = n; end = n + 4; value = n }

abbrev small : Tree ℕ
small = node (at 10) (node (at 0) leaf leaf 1) (node (at 20) leaf leaf 1) 2

-- Rising starts make a balanced tree.
rising : Outcome Assertion (Tree ℕ)
rising = do
  a ← insert_interval leaf (at 0)
  b ← insert_interval a (at 10)
  insert_interval b (at 20)

rising_runs : rising ≡ ok small
unfolding rising insert_interval balance_interval
rising_runs = refl

zigzag_runs : (insert_interval (node (at 20) (node (at 0) leaf leaf 1) leaf 2) (at 10)) ≡ ok small
unfolding insert_interval balance_interval
zigzag_runs = refl

duplicate_runs : insert_interval small (at 10) ≡ err (duplicate_start 10)
unfolding insert_interval
duplicate_runs = refl

remove_root_runs : remove_interval small 10 ≡ ok (node (at 20) (node (at 0) leaf leaf 1) leaf 2)
unfolding remove_interval balance_interval
remove_root_runs = refl

missing_runs : remove_interval small 11 ≡ err (missing_start 11)
unfolding remove_interval
missing_runs = refl

searches_run :
    (lower_bound_interval small 11 ≡ some (at 20))
    × (predecessor_interval small 10 ≡ some (at 0))
    × (successor_interval small 20 ≡ none)
    × (ordered_intervals small ≡ some (at 0 ∷ at 10 ∷ at 20 ∷ []))
unfolding lower_bound_interval predecessor_interval successor_interval ordered_intervals
searches_run = (refl, refl, refl, refl)

small-IsBalanced : IsBalanced small
unfolding interval_height
small-IsBalanced = omega arith

insert_example : (t : Tree ℕ) × IsInserted small (at 15) t
insert_example = insert_lem small (at 15) 0 small-IsBalanced (omega arith) (omega arith)

remove_example : (t : Tree ℕ) × IsRemoved small 10 t
remove_example = remove_lem small 10 0 small-IsBalanced (omega arith) (inr (inl refl))

ordered_intervals_example : ordered_intervals small ≡ some (inorder small)
ordered_intervals_example = ordered_intervals_lem small

search_example :
    (lower_bound_interval small 11 ≡ first_from 11 (inorder small))
    × (predecessor_interval small 11 ≡ last_before 11 (inorder small))
    × (successor_interval small 11 ≡ first_from 12 (inorder small))
search_example = search_lem small 11 0 (omega arith)
