-- ===== src/Interval/Insert.antt =====
-- `_insert_interval`: on a balanced tree in order it returns, and inserts into the sorted list.
use zynum.Prelude.{
  ℕ, suc, ◌+◌, ◌≤◌, ◌<◌, ◌≡◌, refl, sym, ap, ◌∙◌, ◌∷◌, ◌++◌, arith, compare, Ordering, ok, ◌>>=◌,
  inl, inr, Ordering-cases,
}
use zynum.Interval.{Interval, Tree, leaf, node, interval_height, insert_interval, balance_interval}
use zynum.Interval.Outline.{
  inorder, SortedFrom, AllBelow, IsFresh, IsFresh-append, SortedFrom-split, insert_sorted,
  insert_sorted-left, insert_sorted-past,
}
use zynum.Interval.Balance.{IsBalanced, balance_lem}

module _ {ℓ} {V : Type ℓ} where
  -- The tree that an insertion leaves: at most one level higher, one more interval in order.
  pub record IsInserted (t : Tree V) (x : Interval V) (t' : Tree V) : Type ℓ where
    pub returned : insert_interval t x ≡ ok t'
    pub balanced : IsBalanced t'
    pub low : interval_height t ≤ interval_height t'
    pub high : interval_height t' ≤ interval_height t + 1
    pub content : inorder t' ≡ insert_sorted x (inorder t)

  insert-below :
      (y : Interval V) (l r : Tree V) (h : ℕ) (x : Interval V)
      → compare x.start y.start ≡ Ordering.lt
      → insert_interval (node y l r h) x
        ≡ (insert_interval l x >>= λ left. balance_interval y left r)
  unfolding insert_interval
  insert-below y l r h x e = rw (e, insert_interval)

  insert-above :
      (y : Interval V) (l r : Tree V) (h : ℕ) (x : Interval V)
      → compare x.start y.start ≡ Ordering.gt
      → insert_interval (node y l r h) x
        ≡ (insert_interval r x >>= λ right. balance_interval y l right)
  unfolding insert_interval
  insert-above y l r h x e = rw (e, insert_interval)

  insert_left :
      (y : Interval V) (l r : Tree V) (h : ℕ) (x : Interval V) (l' : Tree V)
      → IsBalanced (node y l r h)
      → x.start < y.start
      → compare x.start y.start ≡ Ordering.lt
      → IsInserted l x l'
      → (t' : Tree V) × IsInserted (node y l r h) x t'
  unfolding interval_height
  insert_left y l r h x l' b lt e i =
      let (t, returned, step, content) =
        balance_lem y l' r i.balanced b.4 (omega arith) (omega arith) in
      let level = step.level in
      (
        t,
        record {
          returned = insert-below y l r h x e ∙ rw i.returned returned;
          balanced = step.balanced;
          low = ground arith;
          high = ground arith;
          content =
              content
              ∙ (ap (λ xs. xs ++ (y ∷ inorder r)) i.content
                  ∙ sym (insert_sorted-left x y (inorder l) (inorder r) lt));
        },
      )

  insert_right :
      (y : Interval V) (l r : Tree V) (h : ℕ) (x : Interval V) (r' : Tree V)
      → IsBalanced (node y l r h)
      → AllBelow y.start (inorder l)
      → y.start < x.start
      → compare x.start y.start ≡ Ordering.gt
      → IsInserted r x r'
      → (t' : Tree V) × IsInserted (node y l r h) x t'
  unfolding interval_height
  insert_right y l r h x r' b below gt e i =
      let (t, returned, step, content) =
        balance_lem y l r' b.3 i.balanced (omega arith) (omega arith) in
      let level = step.level in
      (
        t,
        record {
          returned = insert-above y l r h x e ∙ rw i.returned returned;
          balanced = step.balanced;
          low = ground arith;
          high = ground arith;
          content =
              content
              ∙ (ap (λ xs. inorder l ++ (y ∷ xs)) i.content
                  ∙ sym (insert_sorted-past x y (inorder l) (inorder r) below gt));
        },
      )

  -- A balanced tree whose starts rise takes an interval whose start it does not hold: the call
  -- returns, the new tree is balanced and at most one level higher, and it stands for the list with
  -- the interval in its place.
  pub insert_lem :
      (t : Tree V) (x : Interval V) (low : ℕ)
      → IsBalanced t
      → SortedFrom low (inorder t)
      → IsFresh x.start (inorder t)
      → (t' : Tree V) × IsInserted t x t'
  unfolding insert_interval
  insert_lem leaf x low b s f = (
    node x leaf leaf 1,
    unfold interval_height insert_sorted in
        record {
          returned = refl;
          balanced = omega arith;
          low = omega arith;
          high = omega arith;
          content = refl;
        },
  )
  insert_lem (node y l r h) x low b s f =
      let (sl, below, _, sr) = SortedFrom-split low (inorder l) y (inorder r) s in
      let (fl, fr) = IsFresh-append x.start (inorder l) (y ∷ inorder r) f in
      elim (Ordering-cases x.start y.start) [
        | inl (lt, e) ↦
            let (l', i) = insert_lem l x low b.3 sl fl in insert_left y l r h x l' b lt e i
        | inr (inl (eq, e)) ↦ absurd (fr.0 (sym eq))
        | inr (inr (gt, e)) ↦
            let (r', i) = insert_lem r x (suc y.start) b.4 sr fr.1 in
            insert_right y l r h x r' b below gt e i
      ]
