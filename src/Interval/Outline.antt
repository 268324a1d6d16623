-- ===== src/Interval/Outline.antt =====
-- What a tree of intervals stands for: the list of its intervals from left to right, and what
-- insertion, removal and search are on such a list.
use zynum.Prelude.{
  ℕ, suc, ◌≤◌, ◌<◌, ◌≡◌, refl, List, [], ◌∷◌, ◌++◌, arith, compare, Ordering, ltb, if◌then◌else◌,
  All,
}
use zynum.Interval.{Interval, Tree, leaf, node}

module _ {ℓ} {V : Type ℓ} where
  abbrev pub inorder : Tree V → List (Interval V)
  inorder leaf = []
  inorder (node x l r h) = inorder l ++ (x ∷ inorder r)

  -- The starts rise, and none lies below `low`.
  abbrev pub SortedFrom : ℕ → List (Interval V) → Type 0
  SortedFrom low [] = Unit
  SortedFrom low (x ∷ xs) = (low ≤ x.start) × SortedFrom (suc x.start) xs

  abbrev pub IsSorted : List (Interval V) → Type 0
  IsSorted = SortedFrom 0

  abbrev pub AllBelow : ℕ → List (Interval V) → Type 0
  AllBelow start = All (λ x. x.start < start)

  abbrev pub AllAbove : ℕ → List (Interval V) → Type 0
  AllAbove start = All (λ x. start < x.start)

  -- No interval of the list has this start.
  abbrev pub IsFresh : ℕ → List (Interval V) → Type 0
  IsFresh start = All (λ x. x.start ≡ start → ⊥)

  unfoldable pub insert_sorted : Interval V → List (Interval V) → List (Interval V)
  insert_sorted x [] = x ∷ []
  insert_sorted x (y ∷ ys) = if ltb x.start y.start then x ∷ y ∷ ys else y ∷ insert_sorted x ys

  unfoldable pub remove_start : ℕ → List (Interval V) → List (Interval V)
  remove_start start [] = []
  remove_start start (y ∷ ys) = elim (compare start y.start) [
    | Ordering.eq ↦ ys
    | _ ↦ y ∷ remove_start start ys
  ]

module _ {ℓ} {V : Type ℓ} where
  pub SortedFrom-weaken :
      (a b : ℕ) (xs : List (Interval V)) → a ≤ b → SortedFrom b xs → SortedFrom a xs
  SortedFrom-weaken a b [] h s = tt
  SortedFrom-weaken a b (x ∷ xs) h s = (omega arith, s.1)

  -- A sorted list, split at one of its intervals.
  pub SortedFrom-split :
      (low : ℕ) (xs : List (Interval V)) (y : Interval V) (ys : List (Interval V))
      → SortedFrom low (xs ++ (y ∷ ys))
      → SortedFrom low xs × AllBelow y.start xs × (low ≤ y.start) × SortedFrom (suc y.start) ys
  SortedFrom-split low [] y ys s = (tt, tt, s.0, s.1)
  SortedFrom-split low (x ∷ xs) y ys s =
      let rest = SortedFrom-split (suc x.start) xs y ys s.1 in
      ((s.0, rest.0), (omega arith, rest.1), omega arith, rest.3)

  pub AllAbove-SortedFrom :
      (low : ℕ) (xs : List (Interval V)) → SortedFrom (suc low) xs → AllAbove low xs
  AllAbove-SortedFrom low [] s = tt
  AllAbove-SortedFrom low (x ∷ xs) s = (
    s.0,
    AllAbove-SortedFrom low xs (SortedFrom-weaken (suc low) (suc x.start) xs (omega arith) s.1),
  )

  pub AllBelow-trans : (a b : ℕ) (xs : List (Interval V)) → a ≤ b → AllBelow a xs → AllBelow b xs
  AllBelow-trans a b [] h s = tt
  AllBelow-trans a b (x ∷ xs) h s = (omega arith, AllBelow-trans a b xs h s.1)

  pub IsFresh-append :
      (start : ℕ) (xs ys : List (Interval V))
      → IsFresh start (xs ++ ys)
      → IsFresh start xs × IsFresh start ys
  IsFresh-append start [] ys f = (tt, f)
  IsFresh-append start (x ∷ xs) ys f =
      let rest = IsFresh-append start xs ys f.1 in ((f.0, rest.0), rest.1)

  -- An insertion goes to the side of a pivot that the order of the starts says.
  pub insert_sorted-left :
      (x y : Interval V) (xs ys : List (Interval V))
      → x.start < y.start
      → insert_sorted x (xs ++ (y ∷ ys)) ≡ insert_sorted x xs ++ (y ∷ ys)
  unfolding insert_sorted
  insert_sorted-left x y [] ys h = ground arith
  insert_sorted-left x y (z ∷ xs) ys h = ground (arith, insert_sorted-left x y xs ys h)

  pub insert_sorted-right :
      (x : Interval V) (xs ys : List (Interval V))
      → AllBelow x.start xs
      → insert_sorted x (xs ++ ys) ≡ xs ++ insert_sorted x ys
  unfolding insert_sorted
  insert_sorted-right x [] ys h = refl
  insert_sorted-right x (z ∷ xs) ys h = ground (arith, insert_sorted-right x xs ys h.1)

  pub insert_sorted-past :
      (x y : Interval V) (xs ys : List (Interval V))
      → AllBelow y.start xs
      → y.start < x.start
      → insert_sorted x (xs ++ (y ∷ ys)) ≡ xs ++ (y ∷ insert_sorted x ys)
  unfolding insert_sorted
  insert_sorted-past x y [] ys b h = ground arith
  insert_sorted-past x y (z ∷ xs) ys b h = ground (arith, insert_sorted-past x y xs ys b.1 h)

  pub insert_sorted-above :
      (x : Interval V) (xs : List (Interval V)) → AllAbove x.start xs → insert_sorted x xs ≡ x ∷ xs
  unfolding insert_sorted
  insert_sorted-above x [] h = refl
  insert_sorted-above x (y ∷ xs) h = ground arith

  remove_start-absent :
      (start : ℕ) (xs : List (Interval V)) → AllAbove start xs → remove_start start xs ≡ xs
  unfolding remove_start
  remove_start-absent start [] h = refl
  remove_start-absent start (y ∷ xs) h = ground (arith, remove_start-absent start xs h.1)

  pub AllAbove-trans : (a b : ℕ) (xs : List (Interval V)) → a ≤ b → AllAbove b xs → AllAbove a xs
  AllAbove-trans a b [] h s = tt
  AllAbove-trans a b (x ∷ xs) h s = (omega arith, AllAbove-trans a b xs h s.1)

  pub remove_start-left :
      (start : ℕ) (xs : List (Interval V)) (y : Interval V) (ys : List (Interval V))
      → start < y.start
      → AllAbove y.start ys
      → remove_start start (xs ++ (y ∷ ys)) ≡ remove_start start xs ++ (y ∷ ys)
  unfolding remove_start
  remove_start-left start [] y ys h a =
      ground (arith, remove_start-absent start ys (AllAbove-trans start y.start ys (omega arith) a))
  remove_start-left start (z ∷ xs) y ys h a = ground (arith, remove_start-left start xs y ys h a)

  pub remove_start-right :
      (start : ℕ) (xs ys : List (Interval V))
      → AllBelow start xs
      → remove_start start (xs ++ ys) ≡ xs ++ remove_start start ys
  unfolding remove_start
  remove_start-right start [] ys h = refl
  remove_start-right start (z ∷ xs) ys h = ground (arith, remove_start-right start xs ys h.1)

  pub remove_start-past :
      (start : ℕ) (xs : List (Interval V)) (y : Interval V) (ys : List (Interval V))
      → AllBelow y.start xs
      → y.start < start
      → remove_start start (xs ++ (y ∷ ys)) ≡ xs ++ (y ∷ remove_start start ys)
  unfolding remove_start
  remove_start-past start [] y ys b h = ground arith
  remove_start-past start (z ∷ xs) y ys b h = ground (arith, remove_start-past start xs y ys b.1 h)

  pub remove_start-at :
      (xs : List (Interval V)) (y : Interval V) (ys : List (Interval V))
      → AllBelow y.start xs
      → remove_start y.start (xs ++ (y ∷ ys)) ≡ xs ++ ys
  unfolding remove_start
  remove_start-at [] y ys b = ground arith
  remove_start-at (z ∷ xs) y ys b = ground (arith, remove_start-at xs y ys b.1)
