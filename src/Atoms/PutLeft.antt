-- ===== src/Atoms/PutLeft.antt =====
-- The first half of `_put`: a neighbour on the left with the same value is taken in.
use mathlib.Core.List.{append_assoc}
use zynum.Prelude.{
  ℕ, ◌≤◌, ◌<◌, ◌≡◌, refl, ap, ◌∙◌, some, List, [], ◌∷◌, ◌++◌, arith, All, inl, inr, ok, ◌&&◌,
  Bool-cases, same→eq, &&-true, ==→eq, ◌==◌, same,
}
use zynum.Interval.{Tree, remove_interval, predecessor_interval}
use zynum.Interval.Outline.{inorder}
use zynum.Interval.Search.{last_before, predecessor_lem}
use zynum.Interval.Balance.{IsBalanced}
use zynum.Atoms.{Metadata, metadata_eq, Assigned, join_left}
use zynum.Atoms.Edit.{remove_at}
use zynum.Atoms.Layout.{
  Within, Within-split, Within-SortedFrom, Within-starts-above, Within-lower, Within-join, cover,
  cover-before, cover-at,
}
use zynum.Atoms.Window.{last_before-above}

-- A list is empty or ends in an element.
data Ends {ℓ} {A : Type ℓ} (xs : List A) : Type ℓ where
  empty : xs ≡ [] → Ends xs
  last : (ys : List A) (y : A) → xs ≡ ys ++ (y ∷ []) → Ends xs

ends {ℓ} : {A : Type ℓ} (xs : List A) → Ends xs
ends [] = empty refl
ends (x ∷ xs) = elim (ends xs) [
  | empty e ↦ last [] x (ap (λ zs. x ∷ zs) e)
  | last ys y e ↦ last (x ∷ ys) y (ap (λ zs. x ∷ zs) e)
]

-- A tree whose layout is `before` a gap and `behind` it.
pub record Around (t : Tree Metadata) (low start end high : ℕ) (before behind : List Assigned)
    : Type 0 where
  pub balanced : IsBalanced t
  pub content : inorder t ≡ before ++ behind
  pub before_Within : Within low start before
  pub behind_Within : Within end high behind

pub Around-Within :
    {t : Tree Metadata} {low start end high : ℕ} {before behind : List Assigned}
    → start ≤ end
    → Around t low start end high before behind
    → Within low high (before ++ behind)
Around-Within {low = low} {start = start} {end = end} {high = high} {before = before}
      {behind = behind} h p =
    Within-join low start high before behind p.before_Within
      (Within-lower end start high behind h p.behind_Within)

-- What the first half of `_put` finds and leaves.
pub record LeftJoined (t : Tree Metadata) (low start end high : ℕ) (value : Metadata)
    (before behind : List Assigned) : Type 0 where
  pub start' : ℕ
  pub tree : Tree Metadata
  pub before' : List Assigned
  pub returned : join_left t start value (predecessor_interval t start) ≡ ok (start', tree)
  pub around : Around tree low start' end high before' behind
  pub reach : start' ≤ start
  pub taken : (i : ℕ) → start' ≤ i → i < start → cover before i ≡ some value
  pub kept : (i : ℕ) → i < start' → cover before i ≡ cover before' i

last_before-snoc :
    (start : ℕ) (xs : List Assigned) (y : Assigned) (ys : List Assigned)
    → y.start < start
    → All (λ x. start ≤ x.start) ys
    → last_before start (xs ++ (y ∷ ys)) ≡ some y
unfolding last_before
last_before-snoc start [] y ys h a = rw (last_before-above start ys a) (ground arith)
last_before-snoc start (x ∷ xs) y ys h a = ground (arith, last_before-snoc start xs y ys h a)

-- Nothing to take in on the left.
left_alone :
    {t : Tree Metadata} {low start end high : ℕ} (value : Metadata) {before behind : List Assigned}
    → Around t low start end high before behind
    → join_left t start value (predecessor_interval t start) ≡ ok (start, t)
    → LeftJoined t low start end high value before behind
left_alone {t} {low} {start} {end} {high} value {before} {behind} p e = record {
  start' = start;
  tree = t;
  before' = before;
  returned = e;
  around = p;
  reach = omega arith;
  taken = λ i h k. absurd (omega arith);
  kept = λ i h. refl;
}

left_joined :
    {t : Tree Metadata} {low start end high : ℕ} (value : Metadata) (ys : List Assigned)
    (y : Assigned) {behind : List Assigned}
    → start < end
    → Around t low start end high (ys ++ (y ∷ [])) behind
    → y.end ≡ start
    → y.value ≡ value
    → ((t' : Tree Metadata)
        → remove_interval t y.start ≡ ok t'
        → join_left t start value (predecessor_interval t start) ≡ ok (y.start, t'))
    → LeftJoined t low start end high value (ys ++ (y ∷ [])) behind
left_joined {t} {low} {start} {end} {high} value ys y {behind} n p e f k =
    let (v, inside, _) = Within-split low start ys y [] p.before_Within in
    let shape = append_assoc ys (y ∷ []) behind in
    let r =
      remove_at t low high ys y behind p.balanced (p.content ∙ shape)
        (rw (← shape) (Around-Within (omega arith) p)) in
    record {
      start' = y.start;
      tree = r.tree;
      before' = ys;
      returned = k r.tree r.returned;
      around = record {
        balanced = r.balanced;
        content = r.content;
        before_Within = v;
        behind_Within = p.behind_Within;
      };
      reach = omega arith;
      taken = λ i h j. cover-at low i ys y [] v h (omega arith) ∙ ap some f;
      kept = λ i h. cover-before y.end i ys y [] (omega arith) h;
    }

predecessor-before :
    {t : Tree Metadata} {low start end high : ℕ} {before behind : List Assigned}
    → start ≤ end
    → Around t low start end high before behind
    → predecessor_interval t start ≡ last_before start (before ++ behind)
predecessor-before {t} {low} {start} {end} {high} {before} {behind} h p =
    predecessor_lem t start low (rw p.content (Within-SortedFrom low high _ (Around-Within h p)))
    ∙ ap (last_before start) p.content

pub join_left_lem :
    {t : Tree Metadata} {low start end high : ℕ} (value : Metadata) (before : List Assigned)
    {behind : List Assigned}
    → start < end
    → Around t low start end high before behind
    → LeftJoined t low start end high value before behind
unfolding join_left
join_left_lem {t} {low} {start} {end} {high} value before {behind} n p = elim (ends before) [
  | empty e ↦ left_alone value p (
      rw
        (
          predecessor-before (omega arith) p,
          e,
          last_before-above start behind
              (Within-starts-above end high start behind (omega arith) p.behind_Within),
        )
        refl)
  | last ys y e ↦
      let (v, inside, room) = Within-split low start ys y [] (rw e at p.before_Within) in
      let found =
        predecessor-before (omega arith) p
        ∙ (ap (λ zs. last_before start (zs ++ behind)) e
            ∙ (ap (last_before start) (append_assoc ys (y ∷ []) behind)
                ∙ last_before-snoc start ys y behind (omega arith)
                    (Within-starts-above end high start behind (omega arith) p.behind_Within))) in
      elim (Bool-cases ((y.end == start) && same y.value value)) [
        | inl joined ↦
            let (at, equal) = &&-true (y.end == start) (same y.value value) joined in
            rw e (
              left_joined value ys y n (rw e at p) (==→eq _ _ at) (same→eq _ _ equal)
                (λ t' r. rw found (rw joined (rw r refl))))
        | inr apart ↦ left_alone value p (rw found (rw apart refl))
      ]
]
