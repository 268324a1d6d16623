-- ===== src/Interval/Remove.antt =====
-- `_remove_interval`: on a balanced tree that holds the start it returns, and removes the interval
-- from the sorted list.
use mathlib.Core.List.{append-nil}
use zynum.Prelude.{
  ℕ, suc, ◌+◌, ◌≤◌, ◌<◌, ◌≡◌, refl, sym, ap, ◌∙◌, List, [], ◌∷◌, ◌++◌, arith, compare, Ordering, ok,
  ◌>>=◌, ◌⊎◌, inl, inr, Ordering-cases,
}
use zynum.Interval.{
  Interval, Tree, leaf, node, interval_height, remove_interval, balance_interval, leftmost,
  unlink_root,
}
use zynum.Interval.Outline.{
  inorder, SortedFrom, AllBelow, AllAbove, AllAbove-SortedFrom, AllAbove-trans, AllBelow-trans,
  SortedFrom-split, remove_start, remove_start-left, remove_start-past, remove_start-at,
}
use zynum.Interval.Balance.{IsBalanced, balance_lem}

compare_self : (n : ℕ) → compare n n ≡ Ordering.eq
compare_self n = ground arith

module _ {ℓ} {V : Type ℓ} where
  -- Some interval of the list has this start.
  abbrev pub Holds : ℕ → List (Interval V) → Type 0
  Holds start [] = ⊥
  Holds start (x ∷ xs) = (x.start ≡ start) ⊎ Holds start xs

  -- The tree that a removal leaves: at most one level lower, without the interval.
  pub record IsRemoved (t : Tree V) (start : ℕ) (t' : Tree V) : Type ℓ where
    pub returned : remove_interval t start ≡ ok t'
    pub balanced : IsBalanced t'
    pub low : interval_height t' ≤ interval_height t
    pub high : interval_height t ≤ interval_height t' + 1
    pub content : inorder t' ≡ remove_start start (inorder t)

  Holds-AllAbove : (start : ℕ) (xs : List (Interval V)) → AllAbove start xs → Holds start xs → ⊥
  Holds-AllAbove start (x ∷ xs) a (inl e) = omega arith
  Holds-AllAbove start (x ∷ xs) a (inr h) = Holds-AllAbove start xs a.1 h
  Holds-AllAbove start [] a h = h

  Holds-append :
      (start : ℕ) (xs ys : List (Interval V))
      → Holds start (xs ++ ys)
      → Holds start xs ⊎ Holds start ys
  Holds-append start [] ys h = inr h
  Holds-append start (x ∷ xs) ys (inl e) = inl (inl e)
  Holds-append start (x ∷ xs) ys (inr h) = elim (Holds-append start xs ys h) [
    | inl p ↦ inl (inr p)
    | inr q ↦ inr q
  ]

  Holds-AllBelow : (start : ℕ) (xs : List (Interval V)) → AllBelow start xs → Holds start xs → ⊥
  Holds-AllBelow start [] b h = h
  Holds-AllBelow start (x ∷ xs) b (inl e) = omega arith
  Holds-AllBelow start (x ∷ xs) b (inr h) = Holds-AllBelow start xs b.1 h

  Holds-below :
      (start : ℕ) (l : Tree V) (y : Interval V) (r : Tree V)
      → start < y.start
      → AllAbove y.start (inorder r)
      → Holds start (inorder l ++ (y ∷ inorder r))
      → Holds start (inorder l)
  Holds-below start l y r lt above held =
      elim (Holds-append start (inorder l) (y ∷ inorder r) held) [
        | inl left ↦ left
        | inr (inl e) ↦ absurd (omega arith)
        | inr (inr right) ↦ absurd (
            Holds-AllAbove start (inorder r)
              (AllAbove-trans start y.start (inorder r) (omega arith) above) right)
      ]

  Holds-above :
      (start : ℕ) (l : Tree V) (y : Interval V) (r : Tree V)
      → y.start < start
      → AllBelow y.start (inorder l)
      → Holds start (inorder l ++ (y ∷ inorder r))
      → Holds start (inorder r)
  Holds-above start l y r gt below held =
      elim (Holds-append start (inorder l) (y ∷ inorder r) held) [
        | inl left ↦ absurd (
            Holds-AllBelow start (inorder l)
              (AllBelow-trans y.start start (inorder l) (omega arith) below) left)
        | inr (inl e) ↦ absurd (omega arith)
        | inr (inr right) ↦ right
      ]

  remove-below :
      (y : Interval V) (l r : Tree V) (h start : ℕ)
      → compare start y.start ≡ Ordering.lt
      → remove_interval (node y l r h) start
        ≡ (remove_interval l start >>= λ left. balance_interval y left r)
  unfolding remove_interval
  remove-below y l r h start e = rw (e, remove_interval)

  remove-above :
      (y : Interval V) (l r : Tree V) (h start : ℕ)
      → compare start y.start ≡ Ordering.gt
      → remove_interval (node y l r h) start
        ≡ (remove_interval r start >>= λ right. balance_interval y l right)
  unfolding remove_interval
  remove-above y l r h start e = rw (e, remove_interval)

  remove-root :
      (y : Interval V) (l r : Tree V) (h start : ℕ)
      → compare start y.start ≡ Ordering.eq
      → remove_interval (node y l r h) start
        ≡ unlink_root (leftmost y r) l r (remove_interval r (leftmost y r).start)
  unfolding remove_interval
  remove-root y l r h start e = rw (e, remove_interval)

  -- `leftmost` finds the head of the list.
  inorder-leftmost :
      (x y : Interval V) (l r : Tree V) (h : ℕ)
      → (rest : List (Interval V)) × (inorder (node y l r h) ≡ leftmost x (node y l r h) ∷ rest)
  unfolding leftmost
  inorder-leftmost x y leaf r h = (inorder r, refl)
  inorder-leftmost x y (node z ll lr k) r h =
      let (rest, e) = inorder-leftmost y z ll lr k in (rest ++ (y ∷ inorder r), rw e)

  remove_left :
      (y : Interval V) (l r : Tree V) (h start : ℕ) (l' : Tree V)
      → IsBalanced (node y l r h)
      → AllAbove y.start (inorder r)
      → start < y.start
      → compare start y.start ≡ Ordering.lt
      → IsRemoved l start l'
      → (t' : Tree V) × IsRemoved (node y l r h) start t'
  unfolding interval_height
  remove_left y l r h start l' b above lt e i =
      let (t, returned, step, content) =
        balance_lem y l' r i.balanced b.4 (omega arith) (omega arith) in
      let level = step.level in
      (
        t,
        record {
          returned = remove-below y l r h start e ∙ rw i.returned returned;
          balanced = step.balanced;
          low = ground arith;
          high = ground arith;
          content =
              content
              ∙ (ap (λ xs. xs ++ (y ∷ inorder r)) i.content
                  ∙ sym (remove_start-left start (inorder l) y (inorder r) lt above));
        },
      )

  remove_right :
      (y : Interval V) (l r : Tree V) (h start : ℕ) (r' : Tree V)
      → IsBalanced (node y l r h)
      → AllBelow y.start (inorder l)
      → y.start < start
      → compare start y.start ≡ Ordering.gt
      → IsRemoved r start r'
      → (t' : Tree V) × IsRemoved (node y l r h) start t'
  unfolding interval_height
  remove_right y l r h start r' b below gt e i =
      let (t, returned, step, content) =
        balance_lem y l r' b.3 i.balanced (omega arith) (omega arith) in
      let level = step.level in
      (
        t,
        record {
          returned = remove-above y l r h start e ∙ rw i.returned returned;
          balanced = step.balanced;
          low = ground arith;
          high = ground arith;
          content =
              content
              ∙ (ap (λ xs. inorder l ++ (y ∷ xs)) i.content
                  ∙ sym (remove_start-past start (inorder l) y (inorder r) below gt));
        },
      )

  -- The root has two children, and the successor is out of the right one.
  replace_root :
      (y : Interval V) (z w : Interval V) (ll lr rl rr : Tree V) (j k h : ℕ) (s : Interval V)
      (rest : List (Interval V)) (r' : Tree V)
      → IsBalanced (node y (node z ll lr j) (node w rl rr k) h)
      → AllBelow y.start (inorder (node z ll lr j))
      → compare y.start y.start ≡ Ordering.eq
      → leftmost y (node w rl rr k) ≡ s
      → inorder (node w rl rr k) ≡ s ∷ rest
      → IsRemoved (node w rl rr k) s.start r'
      → (t' : Tree V) × IsRemoved (node y (node z ll lr j) (node w rl rr k) h) y.start t'
  unfolding interval_height unlink_root
  replace_root y z w ll lr rl rr j k h s rest r' b below e found split i =
      let (t, returned, step, content) =
        balance_lem s (node z ll lr j) r' b.3 i.balanced (omega arith) (omega arith) in
      let level = step.level in
      let smaller : inorder r' ≡ rest =
        i.content ∙ (ap (remove_start s.start) split ∙ remove_start-at [] s rest tt) in
      (
        t,
        record {
          returned =
              remove-root y (node z ll lr j) (node w rl rr k) h y.start e
              ∙ rw (found, i.returned) returned;
          balanced = step.balanced;
          low = ground arith;
          high = ground arith;
          content =
              content
              ∙ (ap (λ xs. inorder (node z ll lr j) ++ (s ∷ xs)) smaller
                  ∙ (ap (λ xs. inorder (node z ll lr j) ++ xs) (sym split)
                      ∙ sym (
                          remove_start-at (inorder (node z ll lr j)) y (inorder (node w rl rr k))
                            below)));
        },
      )

  remove_at_root :
      (y : Interval V) (l r : Tree V) (h : ℕ)
      → IsBalanced (node y l r h)
      → AllBelow y.start (inorder l)
      → ((start : ℕ) → Holds start (inorder r) → (r' : Tree V) × IsRemoved r start r')
      → (t' : Tree V) × IsRemoved (node y l r h) y.start t'
  unfolding interval_height unlink_root
  remove_at_root y leaf r h b below ih = (
    r,
    record {
      returned = remove-root y leaf r h y.start (compare_self y.start);
      balanced = b.4;
      low = omega arith;
      high = omega arith;
      content = sym (remove_start-at [] y (inorder r) tt);
    },
  )
  remove_at_root y (node z ll lr j) leaf h b below ih = (
    node z ll lr j,
    record {
      returned = remove-root y (node z ll lr j) leaf h y.start (compare_self y.start);
      balanced = b.3;
      low = omega arith;
      high = omega arith;
      content =
          sym (append-nil (inorder (node z ll lr j)))
          ∙ sym (remove_start-at (inorder (node z ll lr j)) y [] below);
    },
  )
  remove_at_root y (node z ll lr j) (node w rl rr k) h b below ih =
      let (rest, split) = inorder-leftmost y w rl rr k in
      let s = leftmost y (node w rl rr k) in
      let (r', i) = ih s.start (rw split (inl refl)) in
      replace_root y z w ll lr rl rr j k h s rest r' b below (compare_self y.start) refl split i

  -- A balanced tree whose starts rise gives up a start that it holds: the call returns, the new tree
  -- is balanced and at most one level lower, and it stands for the list without the interval.
  pub remove_lem :
      (t : Tree V) (start low : ℕ)
      → IsBalanced t
      → SortedFrom low (inorder t)
      → Holds start (inorder t)
      → (t' : Tree V) × IsRemoved t start t'
  remove_lem leaf start low b s f = absurd f
  remove_lem (node y l r h) start low b s f =
      let (sl, below, _, sr) = SortedFrom-split low (inorder l) y (inorder r) s in
      let above = AllAbove-SortedFrom y.start (inorder r) sr in
      elim (Ordering-cases start y.start) [
        | inl (lt, e) ↦
            let (l', i) = remove_lem l start low b.3 sl (Holds-below start l y r lt above f) in
            remove_left y l r h start l' b above lt e i
        | inr (inl (eq, e)) ↦ rw eq (
            remove_at_root y l r h b below
              (λ start' held. remove_lem r start' (suc y.start) b.4 sr held))
        | inr (inr (gt, e)) ↦
            let (r', i) =
              remove_lem r start (suc y.start) b.4 sr (Holds-above start l y r gt below f) in
            remove_right y l r h start r' b below gt e i
      ]
