-- ===== src/Interval/Balance.antt =====
-- The height discipline of the tree, and what the rebalancing step does to it.
use mathlib.Core.List.{append_assoc}
use zynum.Prelude.{
  ◌+◌, max, ◌≤◌, ◌≡◌, refl, List, ◌∷◌, ◌++◌, arith, ltb, Outcome, ok, err, ◌>>=◌, Returns,
  Bool-cases, inl, inr, Returns-value, ltb→lt, ltb→ge,
}
use zynum.Interval.{
  Interval, Tree, leaf, node, Assertion, interval_height, update_interval_height,
  rotate_interval_left, rotate_interval_right, balance_left_heavy, balance_right_heavy,
  balance_interval,
}
use zynum.Interval.Outline.{inorder}

module _ {ℓ} {V : Type ℓ} where
  -- Cached heights are right, and the heights of two siblings differ by at most one.
  abbrev pub IsBalanced : Tree V → Type 0
  IsBalanced leaf = Unit
  IsBalanced (node x l r h) =
      (h ≡ 1 + max (interval_height l) (interval_height r))
      × (interval_height l ≤ interval_height r + 1)
      × (interval_height r ≤ interval_height l + 1)
      × IsBalanced l
      × IsBalanced r

  -- What one step leaves: a balanced tree, one level up at most, and none where no rotation is due.
  pub record IsRebalanced (l r t : Tree V) : Type 0 where
    pub balanced : IsBalanced t
    pub low : max (interval_height l) (interval_height r) ≤ interval_height t
    pub high : interval_height t ≤ 1 + max (interval_height l) (interval_height r)
    pub level :
        interval_height l ≤ interval_height r + 1
        → interval_height r ≤ interval_height l + 1
        → interval_height t ≡ 1 + max (interval_height l) (interval_height r)

  left_heavy-IsRebalanced :
      (x : Interval V) (l r : Tree V)
      → IsBalanced l
      → IsBalanced r
      → interval_height l ≡ interval_height r + 2
      → Returns (balance_left_heavy x l r) (IsRebalanced l r)
  unfolding balance_left_heavy interval_height update_interval_height
  left_heavy-IsRebalanced x leaf r bl br e = absurd (omega arith)
  left_heavy-IsRebalanced x (node y ll leaf h) r bl br e = ground arith
  left_heavy-IsRebalanced x (node y ll (node z ml mr k) h) r bl br e =
      elim (Bool-cases (ltb (interval_height ll) k)) [
        | inl low ↦
            let lower = ltb→lt (interval_height ll) k low in
            rw low (record {
              balanced = (
                refl,
                omega arith,
                omega arith,
                (refl, omega arith, omega arith, bl.3, bl.4.3),
                (refl, omega arith, omega arith, bl.4.4, br),
              );
              low = omega arith;
              high = omega arith;
              level = omega arith;
            })
        | inr high ↦
            let higher = ltb→ge (interval_height ll) k high in
            rw high (record {
              balanced = (
                refl,
                omega arith,
                omega arith,
                bl.3,
                (refl, omega arith, omega arith, bl.4, br),
              );
              low = omega arith;
              high = omega arith;
              level = omega arith;
            })
      ]

  right_heavy-IsRebalanced :
      (x : Interval V) (l r : Tree V)
      → IsBalanced l
      → IsBalanced r
      → interval_height r ≡ interval_height l + 2
      → Returns (balance_right_heavy x l r) (IsRebalanced l r)
  unfolding balance_right_heavy interval_height update_interval_height
  right_heavy-IsRebalanced x l leaf bl br e = absurd (omega arith)
  right_heavy-IsRebalanced x l (node y leaf rr h) bl br e = ground arith
  right_heavy-IsRebalanced x l (node y (node z ml mr k) rr h) bl br e =
      elim (Bool-cases (ltb (interval_height rr) k)) [
        | inl low ↦
            let lower = ltb→lt (interval_height rr) k low in
            rw low (record {
              balanced = (
                refl,
                omega arith,
                omega arith,
                (refl, omega arith, omega arith, bl, br.3.3),
                (refl, omega arith, omega arith, br.3.4, br.4),
              );
              low = omega arith;
              high = omega arith;
              level = omega arith;
            })
        | inr high ↦
            let higher = ltb→ge (interval_height rr) k high in
            rw high (record {
              balanced = (
                refl,
                omega arith,
                omega arith,
                (refl, omega arith, omega arith, bl, br.3),
                br.4,
              );
              low = omega arith;
              high = omega arith;
              level = omega arith;
            })
      ]

  pub balance-IsRebalanced :
      (x : Interval V) (l r : Tree V)
      → IsBalanced l
      → IsBalanced r
      → interval_height l ≤ interval_height r + 2
      → interval_height r ≤ interval_height l + 2
      → Returns (balance_interval x l r) (IsRebalanced l r)
  unfolding balance_interval
  balance-IsRebalanced x l r bl br hl hr =
      elim (Bool-cases (ltb (interval_height r + 1) (interval_height l))) [
        | inl left ↦
            let heavy = ltb→lt (interval_height r + 1) (interval_height l) left in
            rw left (left_heavy-IsRebalanced x l r bl br (omega arith))
        | inr other ↦
            rw other (elim (Bool-cases (ltb (interval_height l + 1) (interval_height r))) [
              | inl right ↦
                  let heavy = ltb→lt (interval_height l + 1) (interval_height r) right in
                  rw right (right_heavy-IsRebalanced x l r bl br (omega arith))
              | inr even ↦
                  let near = ltb→ge (interval_height r + 1) (interval_height l) other in
                  let near' = ltb→ge (interval_height l + 1) (interval_height r) even in
                  rw even (
                    unfold interval_height update_interval_height in
                    record {
                      balanced = (refl, omega arith, omega arith, bl, br);
                      low = omega arith;
                      high = omega arith;
                      level = λ _ _. refl;
                    })
            ])
      ]

  -- The code raises, or returns a tree that reads `xs` from left to right.
  abbrev pub Yields : List (Interval V) → Outcome Assertion (Tree V) → Type ℓ
  Yields xs (ok t) = inorder t ≡ xs
  Yields xs (err e) = Unit

  Yields-rotate_left :
      (x : Interval V) (l r : Tree V)
      → Yields (inorder l ++ (x ∷ inorder r)) (rotate_interval_left x l r)
  unfolding rotate_interval_left
  Yields-rotate_left x l leaf = tt
  Yields-rotate_left x l (node y rl rr h) = simp append_assoc

  Yields-rotate_right :
      (x : Interval V) (l r : Tree V)
      → Yields (inorder l ++ (x ∷ inorder r)) (rotate_interval_right x l r)
  unfolding rotate_interval_right
  Yields-rotate_right x leaf r = tt
  Yields-rotate_right x (node y ll lr h) r = simp append_assoc

  Yields-bind :
      (xs ys : List (Interval V)) (m : Outcome Assertion (Tree V))
      (f : Tree V → Outcome Assertion (Tree V))
      → Yields xs m
      → ((t : Tree V) → inorder t ≡ xs → Yields ys (f t))
      → Yields ys (m >>= f)
  Yields-bind xs ys (ok t) f h k = k t h
  Yields-bind xs ys (err e) f h k = tt

  Yields-left_heavy :
      (x : Interval V) (l r : Tree V)
      → Yields (inorder l ++ (x ∷ inorder r)) (balance_left_heavy x l r)
  unfolding balance_left_heavy
  Yields-left_heavy x leaf r = tt
  Yields-left_heavy x (node y ll lr h) r =
      elim (Bool-cases (ltb (interval_height ll) (interval_height lr))) [
        | inl low ↦ rw low (
            Yields-bind _ _ (rotate_interval_left y ll lr) _ (Yields-rotate_left y ll lr)
              (λ t e. rw (← e) (Yields-rotate_right x t r)))
        | inr high ↦ rw high (Yields-rotate_right x (node y ll lr h) r)
      ]

  Yields-right_heavy :
      (x : Interval V) (l r : Tree V)
      → Yields (inorder l ++ (x ∷ inorder r)) (balance_right_heavy x l r)
  unfolding balance_right_heavy
  Yields-right_heavy x l leaf = tt
  Yields-right_heavy x l (node y rl rr h) =
      elim (Bool-cases (ltb (interval_height rr) (interval_height rl))) [
        | inl low ↦ rw low (
            Yields-bind _ _ (rotate_interval_right y rl rr) _ (Yields-rotate_right y rl rr)
              (λ t e. rw (← e) (Yields-rotate_left x l t)))
        | inr high ↦ rw high (Yields-rotate_left x l (node y rl rr h))
      ]

  -- A rebalancing step keeps the intervals and their order.
  pub Yields-balance :
      (x : Interval V) (l r : Tree V)
      → Yields (inorder l ++ (x ∷ inorder r)) (balance_interval x l r)
  unfolding balance_interval update_interval_height
  Yields-balance x l r = elim (Bool-cases (ltb (interval_height r + 1) (interval_height l))) [
    | inl left ↦ rw left (Yields-left_heavy x l r)
    | inr other ↦ rw other (elim (Bool-cases (ltb (interval_height l + 1) (interval_height r))) [
      | inl right ↦ rw right (Yields-right_heavy x l r)
      | inr even ↦ rw even refl
    ])
  ]

  -- The step in one statement: it returns, balanced, with the same intervals.
  pub balance_lem :
      (x : Interval V) (l r : Tree V)
      → IsBalanced l
      → IsBalanced r
      → interval_height l ≤ interval_height r + 2
      → interval_height r ≤ interval_height l + 2
      → (t : Tree V) × (balance_interval x l r ≡ ok t)
        × IsRebalanced l r t
        × (inorder t ≡ inorder l ++ (x ∷ inorder r))
  balance_lem x l r bl br hl hr =
      let done =
        Returns-value (IsRebalanced l r) (balance_interval x l r)
          (balance-IsRebalanced x l r bl br hl hr) in
      (done.0, done.1, done.2, rw done.1 at (Yields-balance x l r))
