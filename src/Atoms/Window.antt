-- ===== src/Atoms/Window.antt =====
-- `_overlaps`: the search ends, and finds exactly the ranges that share a byte with the given one.
use mathlib.Core.List.{append_assoc}
use zynum.Prelude.{
  ℕ, zero, suc, ◌≤◌, ◌<◌, ◌≡◌, refl, sym, ap, ◌∙◌, Option, none, some, List, [], ◌∷◌, ◌++◌, arith,
  ltb, All, inl, inr, length, length-append, Bool-cases, ltb→lt, ltb→ge,
}
use zynum.Interval.{Tree, leaf, node, node_count, successor_interval}
use zynum.Interval.Outline.{inorder}
use zynum.Interval.Search.{first_from, last_before, lower_bound_lem, predecessor_lem, successor_lem}
use zynum.Atoms.{Metadata, Assigned, first_overlap, scan_overlaps, overlaps}
use zynum.Atoms.Layout.{
  Within, Within-split, Within-SortedFrom, Within-starts-above, Within-starts-below,
}

abbrev pub head? {ℓ} : {A : Type ℓ} → List A → Option A
head? [] = none
head? (x ∷ xs) = some x

-- The layout of a tree around a range: what ends before it, what overlaps it, what starts behind.
pub record Window (t : Tree Metadata) (start end : ℕ) : Type 0 where
  pub before : List Assigned
  pub inside : List Assigned
  pub behind : List Assigned
  pub layout : inorder t ≡ before ++ (inside ++ behind)
  pub ends_before : All (λ x. x.end ≤ start) before
  pub shares : All (λ x. (start < x.end) × (x.start < end)) inside
  pub starts_behind : All (λ x. end ≤ x.start) behind
  pub found : overlaps t start end ≡ some inside

first_from-reached :
    (start : ℕ) (x : Assigned) (xs : List Assigned)
    → start ≤ x.start
    → first_from start (x ∷ xs) ≡ some x
unfolding first_from
first_from-reached start x xs h = ground arith

pub last_before-above :
    (start : ℕ) (xs : List Assigned) → All (λ x. start ≤ x.start) xs → last_before start xs ≡ none
unfolding last_before
last_before-above start [] a = refl
last_before-above start (x ∷ xs) a = ground (arith, last_before-above start xs a.1)

-- Where the scan of a sorted list begins.
abbrev candidate : ℕ → List Assigned → Option Assigned
candidate start xs = first_overlap (last_before start xs) (first_from start xs) start

candidate-past :
    (start : ℕ) (x : Assigned) (xs : List Assigned)
    → x.start < start
    → x.end ≤ start
    → candidate start (x ∷ xs) ≡ candidate start xs
unfolding last_before first_from
candidate-past start x xs h k = ground arith

candidate-here :
    (start : ℕ) (x : Assigned) (xs : List Assigned) (high : ℕ)
    → Within x.end high xs
    → start < x.end
    → candidate start (x ∷ xs) ≡ some x
unfolding last_before first_from
candidate-here start x xs high w h =
    ground
      (arith, last_before-above start xs (Within-starts-above x.end high start xs (omega arith) w))

ends_above :
    (low high start : ℕ) (xs : List Assigned)
    → Within low high xs
    → start ≤ low
    → All (λ x. start < x.end) xs
ends_above low high start [] w h = tt
ends_above low high start (x ∷ xs) w h =
    (omega arith, ends_above x.end high start xs w.2 (omega arith))

-- A layout cut at the first range that ends behind `start`.
record Cut (start : ℕ) (xs : List Assigned) : Type 0 where
  before : List Assigned
  rest : List Assigned
  layout : xs ≡ before ++ rest
  ends_before : All (λ x. x.end ≤ start) before
  ends_behind : All (λ x. start < x.end) rest
  first : candidate start xs ≡ head? rest

Cut-at : (low high start : ℕ) (xs : List Assigned) → Within low high xs → Cut start xs
Cut-at low high start [] w = record {
  before = [];
  rest = [];
  layout = refl;
  ends_before = tt;
  ends_behind = tt;
  first = unfold last_before first_from in refl;
}
Cut-at low high start (x ∷ xs) w = elim (Bool-cases (ltb start x.end)) [
  | inl here ↦ record {
    before = [];
    rest = x ∷ xs;
    layout = refl;
    ends_before = tt;
    ends_behind = (
      ltb→lt _ _ here,
      ends_above x.end high start xs w.2 (omega (arith, ltb→lt start x.end here)),
    );
    first = candidate-here start x xs high w.2 (ltb→lt _ _ here);
  }
  | inr past ↦
      let k = ltb→ge start x.end past in
      let c = Cut-at x.end high start xs w.2 in
      record {
        before = x ∷ c.before;
        rest = c.rest;
        layout = ap (λ ys. x ∷ ys) c.layout;
        ends_before = (k, c.ends_before);
        ends_behind = c.ends_behind;
        first = candidate-past start x xs (omega arith) k ∙ c.first;
      }
]

pub first_from-skip :
    (start : ℕ) (xs ys : List Assigned)
    → All (λ x. x.start < start) xs
    → first_from start (xs ++ ys) ≡ first_from start ys
unfolding first_from
first_from-skip start [] ys a = refl
first_from-skip start (x ∷ xs) ys a = ground (arith, first_from-skip start xs ys a.1)

pub first_from-head :
    (low high start : ℕ) (xs : List Assigned)
    → Within low high xs
    → start ≤ low
    → first_from start xs ≡ head? xs
first_from-head low high start [] w h = unfold first_from in refl
first_from-head low high start (x ∷ xs) w h = first_from-reached start x xs (omega arith)

starts_from :
    (x : Assigned) (done : List Assigned)
    → All (λ y. y.start < x.start) done
    → All (λ y. y.start < suc x.start) (done ++ (x ∷ []))
starts_from x [] a = (omega arith, tt)
starts_from x (y ∷ done) a = (omega arith, starts_from x done a.1)

-- From an interval of the list the successor is the next one.
successor-next :
    (t : Tree Metadata) (low high : ℕ) (done : List Assigned) (x : Assigned) (xs : List Assigned)
    → inorder t ≡ done ++ (x ∷ xs)
    → Within low high (inorder t)
    → successor_interval t x.start ≡ head? xs
successor-next t low high done x xs e w =
    let (before, inside, rest) = Within-split low high done x xs (rw e at w) in
    successor_lem t x.start low (Within-SortedFrom low high (inorder t) w)
    ∙ (ap (first_from (suc x.start)) (e ∙ sym (append_assoc done (x ∷ []) xs))
        ∙ (first_from-skip (suc x.start) (done ++ (x ∷ [])) xs
              (starts_from x done (Within-starts-below low x.start done before))
            ∙ first_from-head x.end high (suc x.start) xs rest inside))

-- What a scan from the head of `cs` finds.
record Scan (t : Tree Metadata) (fuel start end : ℕ) (cs : List Assigned) : Type 0 where
  inside : List Assigned
  behind : List Assigned
  layout : cs ≡ inside ++ behind
  shares : All (λ x. (start < x.end) × (x.start < end)) inside
  starts_behind : All (λ x. end ≤ x.start) behind
  found : scan_overlaps fuel t start end (head? cs) ≡ some inside

scan_stops :
    (t : Tree Metadata) (fuel start end : ℕ) (x : Assigned)
    → end ≤ x.start
    → scan_overlaps (suc fuel) t start end (some x) ≡ some []
unfolding scan_overlaps
scan_stops t fuel start end x h = ground arith

scan_takes :
    (t : Tree Metadata) (fuel start end : ℕ) (x : Assigned) (rest : List Assigned)
    → x.start < end
    → start < x.end
    → scan_overlaps fuel t start end (successor_interval t x.start) ≡ some rest
    → scan_overlaps (suc fuel) t start end (some x) ≡ some (x ∷ rest)
unfolding scan_overlaps
scan_takes t fuel start end x rest h k e = ground arith

scan_lem :
    (t : Tree Metadata) (low high start end : ℕ)
    → Within low high (inorder t)
    → (fuel : ℕ) (at : ℕ) (done cs : List Assigned) → inorder t ≡ done ++ cs
    → Within at high cs
    → All (λ x. start < x.end) cs
    → length cs ≤ fuel
    → Scan t fuel start end cs
scan_lem t low high start end w fuel at done [] e v a n = record {
  inside = [];
  behind = [];
  layout = refl;
  shares = tt;
  starts_behind = tt;
  found = unfold scan_overlaps in refl;
}
scan_lem t low high start end w zero at done (x ∷ cs) e v a n = absurd (omega arith)
scan_lem t low high start end w (suc fuel) at done (x ∷ cs) e v a n =
    elim (Bool-cases (ltb x.start end)) [
      | inl here ↦
          let s =
            scan_lem t low high start end w fuel x.end (done ++ (x ∷ [])) cs
              (e ∙ sym (append_assoc done (x ∷ []) cs)) v.2 a.1 (omega arith) in
          record {
            inside = x ∷ s.inside;
            behind = s.behind;
            layout = ap (λ ys. x ∷ ys) s.layout;
            shares = ((a.0, ltb→lt _ _ here), s.shares);
            starts_behind = s.starts_behind;
            found = scan_takes t fuel start end x s.inside (ltb→lt _ _ here) a.0 (
                ap (scan_overlaps fuel t start end) (successor-next t low high done x cs e w)
                ∙ s.found);
          }
      | inr stop ↦
          let h = ltb→ge x.start end stop in
          record {
            inside = [];
            behind = x ∷ cs;
            layout = refl;
            shares = tt;
            starts_behind = (h, Within-starts-above x.end high end cs (omega arith) v.2);
            found = scan_stops t fuel start end x h;
          }
    ]

length-inorder : (t : Tree Metadata) → length (inorder t) ≡ node_count t
unfolding node_count
length-inorder leaf = refl
length-inorder (node x l r h) =
    omega (arith, length-append (inorder l) (x ∷ inorder r), length-inorder l, length-inorder r)

pub Within-suffix :
    (low high : ℕ) (xs ys : List Assigned)
    → Within low high (xs ++ ys)
    → (at : ℕ) × Within at high ys
Within-suffix low high [] ys w = (low, w)
Within-suffix low high (x ∷ xs) ys w = Within-suffix x.end high xs ys w.2

-- In a layout the overlaps of a range are found: no fuel runs out, none is missed.
pub overlaps_lem :
    (t : Tree Metadata) (low high start end : ℕ) → Within low high (inorder t) → Window t start end
unfolding overlaps
overlaps_lem t low high start end w =
    let c = Cut-at low high start (inorder t) w in
    let (at, v) = Within-suffix low high c.before c.rest (rw c.layout at w) in
    let sorted = Within-SortedFrom low high (inorder t) w in
    let s =
      scan_lem t low high start end w (suc (node_count t)) at c.before c.rest c.layout v
        c.ends_behind
        (omega (
          arith,
          length-inorder t,
          ap (length {A = Assigned}) c.layout,
          length-append c.before c.rest,
        )) in
    record {
      before = c.before;
      inside = s.inside;
      behind = s.behind;
      layout = c.layout ∙ ap (λ ys. c.before ++ ys) s.layout;
      ends_before = c.ends_before;
      shares = s.shares;
      starts_behind = s.starts_behind;
      found =
          rw (predecessor_lem t start low sorted, lower_bound_lem t start low sorted, c.first)
            s.found;
    }
