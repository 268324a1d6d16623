-- ===== src/Atoms/PutRight.antt =====
-- The second half of `_put`: a neighbour on the right with the same value is taken in.
use zynum.Prelude.{
  ℕ, ◌≤◌, ◌<◌, ◌≡◌, refl, ap, ◌∙◌, some, List, [], ◌∷◌, arith, inl, inr, ok, ◌&&◌, Bool-cases,
  same→eq, &&-true, ==→eq, ◌==◌, same,
}
use zynum.Interval.{Tree, lower_bound_interval}
use zynum.Interval.Search.{first_from, lower_bound_lem}
use zynum.Atoms.{Metadata, metadata_eq, Assigned, join_right}
use zynum.Atoms.Edit.{remove_at}
use zynum.Atoms.Layout.{Within-SortedFrom, Within-starts-below, cover}
use zynum.Atoms.Window.{first_from-skip, first_from-head, head?}
use zynum.Atoms.PutLeft.{Around, Around-Within}

-- What the second half of `_put` finds and leaves.
pub record RightJoined (t : Tree Metadata) (low start end high : ℕ) (value : Metadata)
    (before behind : List Assigned) : Type 0 where
  pub end' : ℕ
  pub tree : Tree Metadata
  pub behind' : List Assigned
  pub returned : join_right t end value (lower_bound_interval t start) ≡ ok (end', tree)
  pub around : Around tree low start end' high before behind'
  pub reach : end ≤ end'
  pub taken : (i : ℕ) → end ≤ i → i < end' → cover behind i ≡ some value
  pub kept : (i : ℕ) → end' ≤ i → cover behind i ≡ cover behind' i

lower_bound-behind :
    {t : Tree Metadata} {low start end high : ℕ} {before behind : List Assigned}
    → start ≤ end
    → Around t low start end high before behind
    → lower_bound_interval t start ≡ head? behind
lower_bound-behind {t} {low} {start} {end} {high} {before} {behind} h p =
    lower_bound_lem t start low (rw p.content (Within-SortedFrom low high _ (Around-Within h p)))
    ∙ (ap (first_from start) p.content
        ∙ (first_from-skip start before behind
              (Within-starts-below low start before p.before_Within)
            ∙ first_from-head end high start behind p.behind_Within h))

right_alone :
    {t : Tree Metadata} {low start end high : ℕ} (value : Metadata) {before behind : List Assigned}
    → Around t low start end high before behind
    → join_right t end value (lower_bound_interval t start) ≡ ok (end, t)
    → RightJoined t low start end high value before behind
right_alone {t} {low} {start} {end} {high} value {before} {behind} p e = record {
  end' = end;
  tree = t;
  behind' = behind;
  returned = e;
  around = p;
  reach = omega arith;
  taken = λ i h k. absurd (omega arith);
  kept = λ i h. refl;
}

cover-first :
    (i : ℕ) (s : Assigned) (xs : List Assigned)
    → s.start ≤ i
    → i < s.end
    → cover (s ∷ xs) i ≡ some s.value
unfolding cover
cover-first i s xs h k = ground arith

cover-rest : (i : ℕ) (s : Assigned) (xs : List Assigned) → s.end ≤ i → cover (s ∷ xs) i ≡ cover xs i
unfolding cover
cover-rest i s xs h = ground arith

pub join_right_lem :
    {t : Tree Metadata} {low start end high : ℕ} (value : Metadata) {before : List Assigned}
    (behind : List Assigned)
    → start ≤ end
    → Around t low start end high before behind
    → RightJoined t low start end high value before behind
unfolding join_right
join_right_lem value [] n p = right_alone value p (rw (lower_bound-behind n p) refl)
join_right_lem {t} {low} {start} {end} {high} value {before} (s ∷ rest) n p =
    let found = lower_bound-behind n p in
    elim (Bool-cases ((s.start == end) && same s.value value)) [
      | inl joined ↦
          let (at, equal) = &&-true (s.start == end) (same s.value value) joined in
          let here = ==→eq s.start end at in
          let r = remove_at t low high before s rest p.balanced p.content (Around-Within n p) in
          record {
            end' = s.end;
            tree = r.tree;
            behind' = rest;
            returned = rw found (rw joined (rw r.returned refl));
            around = record {
              balanced = r.balanced;
              content = r.content;
              before_Within = p.before_Within;
              behind_Within = p.behind_Within.2;
            };
            reach = omega (arith, p.behind_Within.1);
            taken = λ i h k. cover-first i s rest (omega arith) k ∙ ap some (same→eq _ _ equal);
            kept = λ i h. cover-rest i s rest h;
          }
      | inr apart ↦ right_alone value p (rw found (rw apart refl))
    ]
