-- ===== src/Atoms/Edit.antt =====
-- One insertion or removal in a tree whose layout is known at the place.
use zynum.Prelude.{
  ℕ, ◌≡◌, refl, ap, ◌∙◌, List, [], ◌∷◌, ◌++◌, arith, All-append, inl, inr, Outcome, ok,
}
use zynum.Interval.{Interval, Tree, Assertion, insert_interval, remove_interval}
use zynum.Interval.Outline.{
  inorder, AllBelow, AllAbove, IsFresh, insert_sorted, insert_sorted-right, insert_sorted-above,
  remove_start, remove_start-at,
}
use zynum.Interval.Balance.{IsBalanced}
use zynum.Interval.Insert.{insert_lem}
use zynum.Interval.Remove.{Holds, remove_lem}
use zynum.Atoms.Layout.{Within, Within-split, Within-SortedFrom, Within-starts-below}

module _ {ℓ} {V : Type ℓ} where
  -- The call returns a balanced tree that reads `xs`.
  pub record Leaves (m : Outcome Assertion (Tree V)) (xs : List (Interval V)) : Type ℓ where
    pub tree : Tree V
    pub returned : m ≡ ok tree
    pub balanced : IsBalanced tree
    pub content : inorder tree ≡ xs

  Holds-here :
      (xs : List (Interval V)) (y : Interval V) (ys : List (Interval V))
      → Holds y.start (xs ++ (y ∷ ys))
  Holds-here [] y ys = inl refl
  Holds-here (x ∷ xs) y ys = inr (Holds-here xs y ys)

  IsFresh-below : (start : ℕ) (xs : List (Interval V)) → AllBelow start xs → IsFresh start xs
  IsFresh-below start [] a = tt
  IsFresh-below start (x ∷ xs) a = (omega arith, IsFresh-below start xs a.1)

  IsFresh-above : (start : ℕ) (xs : List (Interval V)) → AllAbove start xs → IsFresh start xs
  IsFresh-above start [] a = tt
  IsFresh-above start (x ∷ xs) a = (omega arith, IsFresh-above start xs a.1)

  pub remove_at :
      (t : Tree V) (low high : ℕ) (xs : List (Interval V)) (y : Interval V) (ys : List (Interval V))
      → IsBalanced t
      → inorder t ≡ xs ++ (y ∷ ys)
      → Within low high (xs ++ (y ∷ ys))
      → Leaves (remove_interval t y.start) (xs ++ ys)
  remove_at t low high xs y ys b e w =
      let (t', r) =
        remove_lem t y.start low b (rw e (Within-SortedFrom low high _ w))
          (rw e (Holds-here xs y ys)) in
      let below = Within-starts-below low y.start xs (Within-split low high xs y ys w).0 in
      record {
        tree = t';
        returned = r.returned;
        balanced = r.balanced;
        content =
            r.content ∙ (ap (λ zs. remove_start y.start zs) e ∙ remove_start-at xs y ys below);
      }

  pub insert_at :
      (t : Tree V) (low high : ℕ) (xs : List (Interval V)) (y : Interval V) (ys : List (Interval V))
      → IsBalanced t
      → inorder t ≡ xs ++ ys
      → Within low high (xs ++ ys)
      → AllBelow y.start xs
      → AllAbove y.start ys
      → Leaves (insert_interval t y) (xs ++ (y ∷ ys))
  insert_at t low high xs y ys b e w below above =
      let (t', r) = insert_lem t y low b (rw e (Within-SortedFrom low high _ w)) (
        rw e (
          All-append (λ x. x.start ≡ y.start → ⊥) xs ys (IsFresh-below y.start xs below)
            (IsFresh-above y.start ys above))) in
      record {
        tree = t';
        returned = r.returned;
        balanced = r.balanced;
        content =
            r.content
            ∙ (ap (insert_sorted y) e
                ∙ (insert_sorted-right y xs ys below
                    ∙ ap (λ zs. xs ++ zs) (insert_sorted-above y ys above)));
      }
