-- ===== src/Interval/Search.antt =====
-- The three descents of the tree, as searches in its sorted list.
use zynum.Prelude.{
  ℕ, suc, ◌≤◌, ◌<◌, ◌≡◌, refl, sym, ap, ◌∙◌, Option, none, some, List, [], ◌∷◌, ◌++◌, arith, ltb,
  leb, if◌then◌else◌, Bool-cases, inl, inr, leb→le, leb→gt, ltb→lt, ltb→ge,
}
use zynum.Interval.{
  Interval, Tree, leaf, node, lower_bound_from, lower_bound_interval, predecessor_from,
  predecessor_interval, successor_from, successor_interval,
}
use zynum.Interval.Outline.{
  inorder, SortedFrom, AllBelow, AllAbove, AllAbove-SortedFrom, SortedFrom-split,
}

abbrev pub or_else {ℓ} : {A : Type ℓ} → Option A → Option A → Option A
or_else (some a) b = some a
or_else none b = b

or_else_assoc {ℓ} :
    {A : Type ℓ} (a b c : Option A) → or_else (or_else a b) c ≡ or_else a (or_else b c)
or_else_assoc (some a) b c = refl
or_else_assoc none b c = refl

module _ {ℓ} {V : Type ℓ} where
  -- The first interval that starts at `start` or later.
  unfoldable pub first_from : ℕ → List (Interval V) → Option (Interval V)
  first_from start [] = none
  first_from start (x ∷ xs) = if leb start x.start then some x else first_from start xs

  -- The last interval that starts before `start`.
  unfoldable pub last_before : ℕ → List (Interval V) → Option (Interval V)
  last_before start [] = none
  last_before start (x ∷ xs) =
      or_else (last_before start xs) (if ltb x.start start then some x else none)

  first_from-append :
      (start : ℕ) (xs : List (Interval V)) (y : Interval V) (ys : List (Interval V))
      → start ≤ y.start
      → first_from start (xs ++ (y ∷ ys)) ≡ or_else (first_from start xs) (some y)
  unfolding first_from
  first_from-append start [] y ys h = ground arith
  first_from-append start (x ∷ xs) y ys h = ground (arith, first_from-append start xs y ys h)

  first_from-past :
      (start : ℕ) (xs : List (Interval V)) (y : Interval V) (ys : List (Interval V))
      → y.start < start
      → AllBelow y.start xs
      → first_from start (xs ++ (y ∷ ys)) ≡ first_from start ys
  unfolding first_from
  first_from-past start [] y ys h b = ground arith
  first_from-past start (x ∷ xs) y ys h b = ground (arith, first_from-past start xs y ys h b.1)

  last_before-append :
      (start : ℕ) (xs : List (Interval V)) (y : Interval V) (ys : List (Interval V))
      → y.start < start
      → last_before start (xs ++ (y ∷ ys)) ≡ or_else (last_before start ys) (some y)
  unfolding last_before
  last_before-append start [] y ys h = ground arith
  last_before-append start (x ∷ xs) y ys h =
      rw (last_before-append start xs y ys h) (or_else_assoc (last_before start ys) (some y) _)

  last_before-none :
      (start : ℕ) (xs : List (Interval V)) (low : ℕ)
      → start ≤ suc low
      → AllAbove low xs
      → last_before start xs ≡ none
  unfolding last_before
  last_before-none start [] low h a = refl
  last_before-none start (x ∷ xs) low h a = ground (arith, last_before-none start xs low h a.1)

  last_before-short :
      (start : ℕ) (xs : List (Interval V)) (y : Interval V) (ys : List (Interval V))
      → start ≤ y.start
      → AllAbove y.start ys
      → last_before start (xs ++ (y ∷ ys)) ≡ last_before start xs
  unfolding last_before
  last_before-short start [] y ys h a =
      ground (arith, last_before-none start ys y.start (omega arith) a)
  last_before-short start (x ∷ xs) y ys h a = rw (last_before-short start xs y ys h a)

  lower_bound_from-eq :
      (result : Option (Interval V)) (t : Tree V) (start low : ℕ)
      → SortedFrom low (inorder t)
      → lower_bound_from result t start ≡ or_else (first_from start (inorder t)) result
  unfolding lower_bound_from first_from
  lower_bound_from-eq result leaf start low s = refl
  lower_bound_from-eq result (node y l r h) start low s =
      let (sl, below, _, sr) = SortedFrom-split low (inorder l) y (inorder r) s in
      elim (Bool-cases (leb start y.start)) [
        | inl at ↦
            rw (at, lower_bound_from)
              (lower_bound_from-eq (some y) l start low sl
                ∙ (sym (or_else_assoc (first_from start (inorder l)) (some y) result)
                    ∙ ap (λ o. or_else o result)
                        (sym (first_from-append start (inorder l) y (inorder r) (leb→le _ _ at)))))
        | inr past ↦
            rw (past, lower_bound_from)
              (lower_bound_from-eq result r start (suc y.start) sr
                ∙ ap (λ o. or_else o result)
                    (sym (first_from-past start (inorder l) y (inorder r) (leb→gt _ _ past) below)))
      ]

  or_else-none : (a : Option (Interval V)) → or_else a none ≡ a
  or_else-none (some a) = refl
  or_else-none none = refl

  -- In a tree whose starts rise, the descent finds the first interval at or after `start`.
  pub lower_bound_lem :
      (t : Tree V) (start low : ℕ)
      → SortedFrom low (inorder t)
      → lower_bound_interval t start ≡ first_from start (inorder t)
  unfolding lower_bound_interval
  lower_bound_lem t start low s =
      lower_bound_from-eq none t start low s ∙ or_else-none (first_from start (inorder t))

  predecessor_from-eq :
      (result : Option (Interval V)) (t : Tree V) (start low : ℕ)
      → SortedFrom low (inorder t)
      → predecessor_from result t start ≡ or_else (last_before start (inorder t)) result
  unfolding predecessor_from last_before
  predecessor_from-eq result leaf start low s = refl
  predecessor_from-eq result (node y l r h) start low s =
      let (sl, below, _, sr) = SortedFrom-split low (inorder l) y (inorder r) s in
      elim (Bool-cases (ltb y.start start)) [
        | inl before ↦
            rw (before, predecessor_from)
              (predecessor_from-eq (some y) r start (suc y.start) sr
                ∙ (sym (or_else_assoc (last_before start (inorder r)) (some y) result)
                    ∙ ap (λ o. or_else o result)
                        (sym (
                          last_before-append start (inorder l) y (inorder r) (ltb→lt _ _ before)))))
        | inr after ↦
            rw (after, predecessor_from)
              (predecessor_from-eq result l start low sl
                ∙ ap (λ o. or_else o result)
                    (sym (
                      last_before-short start (inorder l) y (inorder r) (ltb→ge _ _ after)
                        (AllAbove-SortedFrom y.start (inorder r) sr))))
      ]

  -- The last interval that starts before `start`.
  pub predecessor_lem :
      (t : Tree V) (start low : ℕ)
      → SortedFrom low (inorder t)
      → predecessor_interval t start ≡ last_before start (inorder t)
  unfolding predecessor_interval
  predecessor_lem t start low s =
      predecessor_from-eq none t start low s ∙ or_else-none (last_before start (inorder t))

  successor_from-eq :
      (result : Option (Interval V)) (t : Tree V) (start : ℕ)
      → successor_from result t start ≡ lower_bound_from result t (suc start)
  unfolding successor_from lower_bound_from
  successor_from-eq result leaf start = refl
  successor_from-eq result (node y l r h) start =
      ground (arith, successor_from-eq (some y) l start, successor_from-eq result r start)

  -- The first interval that starts after `start`.
  pub successor_lem :
      (t : Tree V) (start low : ℕ)
      → SortedFrom low (inorder t)
      → successor_interval t start ≡ first_from (suc start) (inorder t)
  unfolding successor_interval
  successor_lem t start low s =
      successor_from-eq none t start
      ∙ unfold lower_bound_interval in lower_bound_lem t (suc start) low s

  -- In a tree whose starts rise the lower bound is the first interval that starts at or after
  -- `start`, the predecessor the last that starts before it, and the successor the first that
  -- starts after it.
  pub search_lem :
      (t : Tree V) (start low : ℕ)
      → SortedFrom low (inorder t)
      → (lower_bound_interval t start ≡ first_from start (inorder t))
        × (predecessor_interval t start ≡ last_before start (inorder t))
        × (successor_interval t start ≡ first_from (suc start) (inorder t))
  search_lem t start low s =
      (lower_bound_lem t start low s, predecessor_lem t start low s, successor_lem t start low s)
