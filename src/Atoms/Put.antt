-- ===== src/Atoms/Put.antt =====
-- `_put` as a whole: the range is assigned its value, and no other byte changes.
use zynum.Prelude.{
  ℕ, suc, ◌≤◌, ◌<◌, ◌≡◌, sym, ap, ◌∙◌, Option, some, List, ◌∷◌, ◌++◌, arith, inl, inr, Outcome, ok,
  ◌&&◌, ltb, leb, if◌then◌else◌, Bool-cases, ltb→lt, ltb→ge,
}
use zynum.Interval.{Tree, Assertion}
use zynum.Interval.Outline.{inorder}
use zynum.Interval.Balance.{IsBalanced}
use zynum.Atoms.{Metadata, Assigned, put}
use zynum.Atoms.Edit.{insert_at}
use zynum.Atoms.Layout.{
  Within, Within-starts-below, Within-starts-above, Within-join, cover, cover-before, cover-at,
  cover-behind, cover-append-left, cover-append-right,
}
use zynum.Atoms.PutLeft.{Around, Around-Within, join_left_lem}
use zynum.Atoms.PutRight.{join_right_lem}

-- The values of the bytes after the range [start, end) was assigned `value`.
abbrev pub assign : (ℕ → Option Metadata) → ℕ → ℕ → Metadata → ℕ → Option Metadata
assign given start end value i = if leb start i && ltb i end then some value else given i

pub record Placed (m : Outcome Assertion (Tree Metadata)) (low start end high : ℕ)
    (value : Metadata) (given : List Assigned) : Type 0 where
  pub tree : Tree Metadata
  pub returned : m ≡ ok tree
  pub balanced : IsBalanced tree
  pub layout : Within low high (inorder tree)
  pub values : (i : ℕ) → cover (inorder tree) i ≡ assign (cover given) start end value i

assign-before :
    (given : ℕ → Option Metadata) (start end : ℕ) (value : Metadata) (i : ℕ)
    → i < start
    → assign given start end value i ≡ given i
assign-before given start end value i h = ground arith

assign-at :
    (given : ℕ → Option Metadata) (start end : ℕ) (value : Metadata) (i : ℕ)
    → start ≤ i
    → i < end
    → assign given start end value i ≡ some value
assign-at given start end value i h k = ground arith

assign-behind :
    (given : ℕ → Option Metadata) (start end : ℕ) (value : Metadata) (i : ℕ)
    → end ≤ i
    → assign given start end value i ≡ given i
assign-behind given start end value i h = ground arith

-- An interval between two layouts, against the two layouts that it grew over.
grown :
    (low start' start end end' high : ℕ) (value : Metadata)
    (before before' behind behind' : List Assigned)
    → start' ≤ start
    → start < end
    → end ≤ end'
    → Within low start before
    → Within end high behind
    → Within low start' before'
    → Within end' high behind'
    → ((i : ℕ) → start' ≤ i → i < start → cover before i ≡ some value)
    → ((i : ℕ) → i < start' → cover before i ≡ cover before' i)
    → ((i : ℕ) → end ≤ i → i < end' → cover behind i ≡ some value)
    → ((i : ℕ) → end' ≤ i → cover behind i ≡ cover behind' i)
    → (i : ℕ)
    → cover (before' ++ (record { start = start'; end = end'; value = value } ∷ behind')) i
      ≡ assign (cover (before ++ behind)) start end value i
grown low start' start end end' high value before before' behind behind' h n k v w v' w' lt lk rt rk
      i =
    elim (Bool-cases (ltb i start)) [
      | inl early ↦
          let e = ltb→lt i start early in
          let right =
            assign-before (cover (before ++ behind)) start end value i e
            ∙ cover-append-left end high i before behind w (omega arith) in
          elim (Bool-cases (ltb i start')) [
            | inl out ↦
                let o = ltb→lt i start' out in
                cover-before high i before' x behind' (omega arith, omega arith, w') o
                ∙ (sym (lk i o) ∙ sym right)
            | inr taken ↦
                let o = ltb→ge i start' taken in
                cover-at low i before' x behind' v' o (omega arith) ∙ (sym (lt i o e) ∙ sym right)
          ]
      | inr late ↦
          let e = ltb→ge i start late in
          elim (Bool-cases (ltb i end)) [
            | inl within ↦
                let o = ltb→lt i end within in
                cover-at low i before' x behind' v' (omega arith) (omega arith)
                ∙ sym (assign-at (cover (before ++ behind)) start end value i e o)
            | inr past ↦
                let o = ltb→ge i end past in
                let right =
                  assign-behind (cover (before ++ behind)) start end value i o
                  ∙ cover-append-right low start i before behind v e in
                elim (Bool-cases (ltb i end')) [
                  | inl taken ↦
                      let u = ltb→lt i end' taken in
                      cover-at low i before' x behind' v' (omega arith) u
                      ∙ (sym (rt i o u) ∙ sym right)
                  | inr out ↦
                      let u = ltb→ge i end' out in
                      cover-behind low i before' x behind' v' (omega arith) u
                      ∙ (sym (rk i u) ∙ sym right)
                ]
          ]
    ]
  where
    x : Assigned
    x = record { start = start'; end = end'; value = value }

-- In a layout with a gap for the range, `_put` returns; no assertion fails.
pub put_lem :
    (t : Tree Metadata) (low start end high : ℕ) (value : Metadata) (before behind : List Assigned)
    → start < end
    → Around t low start end high before behind
    → Placed (put t start end value) low start end high value (before ++ behind)
unfolding put
put_lem t low start end high value before behind n p =
    let l = join_left_lem value before n p in
    let r = join_right_lem value behind (omega (arith, l.reach)) l.around in
    let a = r.around in
    let x : Assigned = record { start = l.start'; end = r.end'; value = value } in
    let shorter : l.start' < r.end' = omega (arith, l.reach, r.reach) in
    let i =
      insert_at r.tree low high l.before' x r.behind' a.balanced a.content
        (Around-Within (omega arith) a) (Within-starts-below low l.start' l.before' a.before_Within)
        (Within-starts-above r.end' high (suc l.start') r.behind' shorter a.behind_Within) in
    record {
      tree = i.tree;
      returned = rw l.returned (rw r.returned i.returned);
      balanced = i.balanced;
      layout = rw i.content (
          Within-join low l.start' high l.before' (x ∷ r.behind') a.before_Within
            (omega arith, shorter, a.behind_Within));
      values = λ j.
          ap (λ zs. cover zs j) i.content
          ∙ grown low l.start' start end r.end' high value before l.before' behind r.behind' l.reach
              n r.reach p.before_Within p.behind_Within a.before_Within a.behind_Within l.taken
              l.kept r.taken r.kept j;
    }
