-- ===== src/Atoms/Carve.antt =====
-- The loop of `add` over the overlapped intervals: outside the range every byte keeps its value,
-- and inside nothing is left.
use mathlib.Core.List.{append_assoc, append-nil}
use zynum.Prelude.{
  ℕ, suc, ◌≤◌, ◌<◌, ◌≡◌, refl, sym, ap, ◌∙◌, List, [], ◌∷◌, ◌++◌, arith, inl, inr, ok, Bool-cases,
  ltb, ltb→lt, if◌then◌else◌,
}
use zynum.Interval.{Tree, remove_interval}
use zynum.Interval.Outline.{inorder}
use zynum.Interval.Balance.{IsBalanced}
use zynum.Atoms.{Metadata, Assigned, carve, keep_before, keep_behind}
use zynum.Atoms.Edit.{Leaves, insert_at}
use zynum.Atoms.Layout.{
  Within, Within-starts-below, Within-starts-above, Within-lower, Within-join, cover,
  cover-append-left, cover-append-right, cover-below,
}

-- The part of an interval before `start`, and the part from `end` on.
abbrev pub left_part : ℕ → Assigned → List Assigned
left_part start x = if ltb x.start start then record x { end = start } ∷ [] else []

abbrev pub right_part : ℕ → Assigned → List Assigned
right_part end x = if ltb end x.end then record x { start = end } ∷ [] else []

pub left_part-Within :
    (low start : ℕ) (x : Assigned)
    → low ≤ start
    → low ≤ x.start
    → Within low start (left_part start x)
left_part-Within low start x h k = ground arith

-- One kept part goes in at its place.
pub keep_before_lem :
    (t : Tree Metadata) (start low high : ℕ) (xs : List Assigned) (x : Assigned)
    (ys : List Assigned)
    → IsBalanced t
    → inorder t ≡ xs ++ ys
    → Within low x.start xs
    → x.start < x.end
    → Within x.end high ys
    → Leaves (keep_before t start x) ((xs ++ left_part start x) ++ ys)
unfolding keep_before
keep_before_lem t start low high xs x ys b e v i w = elim (Bool-cases (ltb x.start start)) [
  | inl inside ↦
      let done =
        insert_at t low high xs (record x { end = start }) ys b e
          (Within-join low x.start high xs ys v
            (Within-lower x.end x.start high ys (omega arith) w))
          (Within-starts-below low x.start xs v)
          (Within-starts-above x.end high (suc x.start) ys i w) in
      record {
        tree = done.tree;
        returned = rw inside done.returned;
        balanced = done.balanced;
        content =
            done.content ∙ rw inside (sym (append_assoc xs (record x { end = start } ∷ []) ys));
      }
  | inr outside ↦ record {
    tree = t;
    returned = rw outside refl;
    balanced = b;
    content = e ∙ rw outside (ap (λ zs. zs ++ ys) (sym (append-nil xs)));
  }
]

pub keep_behind_lem :
    (t : Tree Metadata) (end low high : ℕ) (xs : List Assigned) (x : Assigned) (ys : List Assigned)
    → IsBalanced t
    → inorder t ≡ xs ++ ys
    → Within low end xs
    → Within x.end high ys
    → Leaves (keep_behind t end x) (xs ++ (right_part end x ++ ys))
unfolding keep_behind
keep_behind_lem t end low high xs x ys b e v w = elim (Bool-cases (ltb end x.end)) [
  | inl inside ↦
      let past = ltb→lt end x.end inside in
      let done =
        insert_at t low high xs (record x { start = end }) ys b e
          (Within-join low end high xs ys v (Within-lower x.end end high ys (omega arith) w))
          (Within-starts-below low end xs v) (Within-starts-above x.end high (suc end) ys past w) in
      record {
        tree = done.tree;
        returned = rw inside done.returned;
        balanced = done.balanced;
        content = done.content ∙ rw inside refl;
      }
  | inr outside ↦ record {
    tree = t;
    returned = rw outside refl;
    balanced = b;
    content = e ∙ rw outside refl;
  }
]

cover-congr :
    (i : ℕ) (xs ys zs : List Assigned)
    → cover ys i ≡ cover zs i
    → cover (xs ++ ys) i ≡ cover (xs ++ zs) i
unfolding cover
cover-congr i [] ys zs h = h
cover-congr i (x ∷ xs) ys zs h = ground (arith, cover-congr i xs ys zs h)

cover-left_part :
    (start high i : ℕ) (x : Assigned) (ys : List Assigned)
    → start < x.end
    → Within x.end high ys
    → i < start
    → cover (left_part start x) i ≡ cover (x ∷ ys) i
unfolding cover
cover-left_part start high i x ys h w k = ground (arith, cover-below x.end high i ys w)

cover-right_part :
    (end i : ℕ) (x : Assigned) (ys : List Assigned)
    → x.start < end
    → end ≤ i
    → cover (right_part end x ++ ys) i ≡ cover (x ∷ ys) i
unfolding cover
cover-right_part end i x ys h k = ground arith

-- One round, as a change of the layout.
pub round_before :
    (low high start end a i : ℕ) (xs : List Assigned) (x : Assigned) (ys : List Assigned)
    → Within low a xs
    → Within a high (x ∷ ys)
    → start < x.end
    → x.start < end
    → start ≤ end
    → i < start
    → cover ((xs ++ left_part start x) ++ (right_part end x ++ ys)) i ≡ cover (xs ++ (x ∷ ys)) i
round_before low high start end a i xs x ys v w h k n j =
    cover-append-left start high i (xs ++ left_part start x) (right_part end x ++ ys)
      (right_Within start high end x ys w h n) j
    ∙ cover-congr i xs (left_part start x) (x ∷ ys) (cover-left_part start high i x ys h w.2 j)
  where
    right_Within :
        (start high end : ℕ) (x : Assigned) (ys : List Assigned)
        → Within a high (x ∷ ys)
        → start < x.end
        → start ≤ end
        → Within start high (right_part end x ++ ys)
    right_Within start high end x ys w h n = elim (Bool-cases (ltb end x.end)) [
      | inl past ↦ rw past (n, ltb→lt _ _ past, w.2)
      | inr short ↦ rw short (Within-lower x.end start high ys (omega arith) w.2)
    ]

pub round_behind :
    (low start end a i : ℕ) (xs : List Assigned) (x : Assigned) (ys : List Assigned)
    → Within low a xs
    → a ≤ start
    → a ≤ x.start
    → x.start < end
    → start ≤ end
    → end ≤ i
    → cover ((xs ++ left_part start x) ++ (right_part end x ++ ys)) i ≡ cover (xs ++ (x ∷ ys)) i
round_behind low start end a i xs x ys v h h' k n j =
    cover-append-right low start i (xs ++ left_part start x) (right_part end x ++ ys)
      (Within-join low a start xs (left_part start x) v (left_part-Within a start x h h'))
      (omega arith)
    ∙ (cover-right_part end i x ys k j
        ∙ sym (cover-append-right low a i xs (x ∷ ys) v (omega arith)))

pub carve-cons :
    (t t1 t2 t3 : Tree Metadata) (start end : ℕ) (x : Assigned) (xs : List Assigned)
    → remove_interval t x.start ≡ ok t1
    → keep_before t1 start x ≡ ok t2
    → keep_behind t2 end x ≡ ok t3
    → carve t start end (x ∷ xs) ≡ carve t3 start end xs
unfolding carve
carve-cons t t1 t2 t3 start end x xs e f g = rw (e, carve) (rw (f, carve) (rw (g, carve) refl))
