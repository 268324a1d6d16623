-- ===== src/Atoms/Commit.antt =====
-- The part of `add` behind its checks: the overlapped intervals are carved and the range is put.
use zynum.Prelude.{
  ℕ, ◌≤◌, ◌<◌, ◌≡◌, sym, ap, ◌∙◌, Option, List, [], ◌∷◌, ◌++◌, arith, All, ◌>>=◌, length,
}
use zynum.Interval.Outline.{inorder}
use zynum.Interval.Balance.{IsBalanced}
use zynum.Atoms.{Metadata, Assigned, AtomBuilder, carve, put}
use zynum.Atoms.Layout.{Within, cover}
use zynum.Atoms.Window.{Window, overlaps_lem, Within-suffix}
use zynum.Atoms.CarveLoop.{carve_lem}
use zynum.Atoms.Put.{Placed, assign, put_lem}

-- The value that the builder has assigned to a byte.
abbrev pub assigned : AtomBuilder → ℕ → Option Metadata
assigned b = cover (inorder b.root)

-- The tree is balanced, its ranges are non-empty, in order, apart and inside the data.
pub record IsValid (b : AtomBuilder) : Type 0 where
  pub balanced : IsBalanced b.root
  pub layout : Within 0 (length b.bytes) (inorder b.root)

Within-cut :
    (low high start : ℕ) (xs ys : List Assigned)
    → low ≤ start
    → Within low high (xs ++ ys)
    → All (λ x. x.end ≤ start) xs
    → (a : ℕ) × Within low a xs × (a ≤ start) × Within a high ys
Within-cut low high start [] ys h w e = (low, omega arith, h, w)
Within-cut low high start (x ∷ xs) ys h w e =
    let (a, v, k, u) = Within-cut x.end high start xs ys e.0 w.2 e.1 in (a, (w.0, w.1, v), k, u)

Within-tail :
    (low high end : ℕ) (xs ys : List Assigned)
    → end ≤ high
    → Within low high (xs ++ ys)
    → All (λ x. end ≤ x.start) ys
    → Within end high ys
Within-tail low high end xs [] h w a = h
Within-tail low high end xs (y ∷ ys) h w a =
    let (at, v) = Within-suffix low high xs (y ∷ ys) w in (a.0, v.1, v.2)

-- The layout of a builder around a range that fits its data.
pub record RangeLayout (b : AtomBuilder) (start end : ℕ) : Type 0 where
  pub window : Window b.root start end
  pub a : ℕ
  pub settled : Within 0 a window.before
  pub reach : a ≤ start
  pub ahead : Within a (length b.bytes) (window.inside ++ window.behind)
  pub rest : Within end (length b.bytes) window.behind

pub range_layout :
    (b : AtomBuilder) (start end : ℕ) → IsValid b → end ≤ length b.bytes → RangeLayout b start end
range_layout b start end v h =
    let w = overlaps_lem b.root 0 (length b.bytes) start end v.layout in
    let (a, settled, reach, ahead) =
      Within-cut 0 (length b.bytes) start w.before (w.inside ++ w.behind) (omega arith)
        (rw w.layout at v.layout) w.ends_before in
    record {
      window = w;
      a = a;
      settled = settled;
      reach = reach;
      ahead = ahead;
      rest = Within-tail a (length b.bytes) end w.inside w.behind h ahead w.starts_behind;
    }

assign-congr :
    (f g : ℕ → Option Metadata) (start end : ℕ) (value : Metadata)
    → ((i : ℕ) → i < start → f i ≡ g i)
    → ((i : ℕ) → end ≤ i → f i ≡ g i)
    → (i : ℕ) → assign f start end value i ≡ assign g start end value i
assign-congr f g start end value h k i = ground (arith, h i, k i)

-- Behind the checks nothing can fail: carving and putting return.
pub commit_lem :
    (b : AtomBuilder) (start end : ℕ) (value : Metadata)
    → start < end
    → IsValid b
    → (r : RangeLayout b start end)
    → Placed
        (carve b.root start end r.window.inside >>= λ carved. put carved start end value)
        0
        start
        end
        (length b.bytes)
        value
        (inorder b.root)
commit_lem b start end value n v r =
    let w = r.window in
    let c = carve_lem w.inside b.root 0 (length b.bytes) start end r.a w.before w.behind n (record {
      balanced = v.balanced;
      content = w.layout;
      settled = r.settled;
      reach = r.reach;
      ahead = r.ahead;
      shares = w.shares;
      rest = r.rest;
    }) in
    let p = put_lem c.tree 0 start end (length b.bytes) value c.before c.behind n (record {
      balanced = c.balanced;
      content = c.content;
      before_Within = c.before_Within;
      behind_Within = c.behind_Within;
    }) in
    record {
      tree = p.tree;
      returned = rw c.returned p.returned;
      balanced = p.balanced;
      layout = p.layout;
      values = λ i.
          p.values i
          ∙ (assign-congr (cover (c.before ++ c.behind))
                (cover (w.before ++ (w.inside ++ w.behind))) start end value c.keeps_before
                c.keeps_behind i
              ∙ ap (λ xs. assign (cover xs) start end value i) (sym w.layout));
    }
