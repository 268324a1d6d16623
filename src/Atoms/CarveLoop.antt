-- ===== src/Atoms/CarveLoop.antt =====
-- The whole loop of `add` over the overlapped intervals.
use zynum.Prelude.{
  ℕ, ◌≤◌, ◌<◌, ◌≡◌, refl, sym, ap, ◌∙◌, List, [], ◌∷◌, ◌++◌, arith, All, inl, inr, Outcome, ok,
  false, Bool-cases, ltb, ltb→lt, ge→ltb,
}
use zynum.Interval.{Tree, Assertion}
use zynum.Interval.Outline.{inorder}
use zynum.Interval.Balance.{IsBalanced}
use zynum.Atoms.{Metadata, Assigned, carve}
use zynum.Atoms.Edit.{remove_at}
use zynum.Atoms.Layout.{Within, Within-lower, Within-raise, Within-join, cover}
use zynum.Atoms.Carve.{
  left_part, right_part, left_part-Within, keep_before_lem, keep_behind_lem, round_before,
  round_behind, carve-cons,
}

-- What the loop leaves of a layout `given`.
pub record Carved (m : Outcome Assertion (Tree Metadata)) (low high start end : ℕ)
    (given : List Assigned) : Type 0 where
  pub tree : Tree Metadata
  pub returned : m ≡ ok tree
  pub balanced : IsBalanced tree
  pub before : List Assigned
  pub behind : List Assigned
  pub content : inorder tree ≡ before ++ behind
  pub before_Within : Within low start before
  pub behind_Within : Within end high behind
  pub keeps_before : (i : ℕ) → i < start → cover (before ++ behind) i ≡ cover given i
  pub keeps_behind : (i : ℕ) → end ≤ i → cover (before ++ behind) i ≡ cover given i

-- The place of a loop round: what is settled in front, what is left to carve, what is behind.
pub record Place (t : Tree Metadata) (low high start end a : ℕ) (xs todo ys : List Assigned)
    : Type 0 where
  pub balanced : IsBalanced t
  pub content : inorder t ≡ xs ++ (todo ++ ys)
  pub settled : Within low a xs
  pub reach : a ≤ start
  pub ahead : Within a high (todo ++ ys)
  pub shares : All (λ x. (start < x.end) × (x.start < end)) todo
  pub rest : Within end high ys

-- Only the last overlapped interval can stick out behind the range.
right_part-move :
    (high end : ℕ) (x : Assigned) (todo ys : List Assigned)
    → Within x.end high (todo ++ ys)
    → All (λ y. y.start < end) todo
    → right_part end x ++ (todo ++ ys) ≡ todo ++ (right_part end x ++ ys)
right_part-move high end x [] ys w a = refl
right_part-move high end x (y ∷ todo) ys w a =
    let none_left : ltb end x.end ≡ false = ge→ltb end x.end (omega arith) in rw none_left refl

right_part-Within :
    (high start end : ℕ) (x : Assigned) (ys : List Assigned)
    → Within x.end high ys
    → start < x.end
    → start ≤ end
    → Within start high (right_part end x ++ ys)
right_part-Within high start end x ys w h n = elim (Bool-cases (ltb end x.end)) [
  | inl past ↦ rw past (n, ltb→lt _ _ past, w)
  | inr short ↦ rw short (Within-lower x.end start high ys (omega arith) w)
]

right_part-rest :
    (high end : ℕ) (x : Assigned) (todo ys : List Assigned)
    → Within x.end high (todo ++ ys)
    → All (λ y. y.start < end) todo
    → Within end high ys
    → Within end high (right_part end x ++ ys)
right_part-rest high end x [] ys w a v = elim (Bool-cases (ltb end x.end)) [
  | inl past ↦ rw past (omega arith, ltb→lt _ _ past, w)
  | inr short ↦ rw short v
]
right_part-rest high end x (y ∷ todo) ys w a v =
    let none_left : ltb end x.end ≡ false = ge→ltb end x.end (omega arith) in rw none_left v

starts :
    (start end : ℕ) (xs : List Assigned)
    → All (λ x. (start < x.end) × (x.start < end)) xs
    → All (λ x. x.start < end) xs
starts start end [] a = tt
starts start end (x ∷ xs) a = (a.0.1, starts start end xs a.1)

-- The loop returns for every list of overlaps that the layout has.
pub carve_lem :
    (todo : List Assigned) (t : Tree Metadata) (low high start end a : ℕ) (xs ys : List Assigned)
    → start < end
    → Place t low high start end a xs todo ys
    → Carved (carve t start end todo) low high start end (xs ++ (todo ++ ys))
carve_lem [] t low high start end a xs ys n p = record {
  tree = t;
  returned = unfold carve in refl;
  balanced = p.balanced;
  before = xs;
  behind = ys;
  content = p.content;
  before_Within = Within-raise low a start xs p.reach p.settled;
  behind_Within = p.rest;
  keeps_before = λ i h. refl;
  keeps_behind = λ i h. refl;
}
carve_lem (x ∷ todo) t low high start end a xs ys n p =
    let below = starts start end todo p.shares.1 in
    let removed =
      remove_at t low high xs x (todo ++ ys) p.balanced p.content
        (Within-join low a high xs (x ∷ (todo ++ ys)) p.settled p.ahead) in
    let before =
      keep_before_lem removed.tree start low high xs x (todo ++ ys) removed.balanced removed.content
        (Within-raise low a x.start xs p.ahead.0 p.settled) p.ahead.1 p.ahead.2 in
    let settled =
      Within-join low a start xs (left_part start x) p.settled
        (left_part-Within a start x p.reach p.ahead.0) in
    let behind =
      keep_behind_lem before.tree end low high (xs ++ left_part start x) x (todo ++ ys)
        before.balanced before.content
        (Within-raise low start end (xs ++ left_part start x) (omega arith) settled) p.ahead.2 in
    let moved = right_part-move high end x todo ys p.ahead.2 below in
    let c =
      carve_lem todo behind.tree low high start end start (xs ++ left_part start x)
        (right_part end x ++ ys) n
        (record {
          balanced = behind.balanced;
          content = behind.content ∙ ap (λ zs. (xs ++ left_part start x) ++ zs) moved;
          settled = settled;
          reach = omega arith;
          ahead = rw (← moved) (
              right_part-Within high start end x (todo ++ ys) p.ahead.2 p.shares.0.0 (omega arith));
          shares = p.shares.1;
          rest = right_part-rest high end x todo ys p.ahead.2 below p.rest;
        }) in
    record {
      tree = c.tree;
      returned =
          carve-cons t removed.tree before.tree behind.tree start end x todo removed.returned
            before.returned behind.returned
          ∙ c.returned;
      balanced = c.balanced;
      before = c.before;
      behind = c.behind;
      content = c.content;
      before_Within = c.before_Within;
      behind_Within = c.behind_Within;
      keeps_before = λ i h.
          c.keeps_before i h
          ∙ (ap (λ zs. cover ((xs ++ left_part start x) ++ zs) i) (sym moved)
              ∙ round_before low high start end a i xs x (todo ++ ys) p.settled p.ahead p.shares.0.0
                  p.shares.0.1 (omega arith) h);
      keeps_behind = λ i h.
          c.keeps_behind i h
          ∙ (ap (λ zs. cover ((xs ++ left_part start x) ++ zs) i) (sym moved)
              ∙ round_behind low start end a i xs x (todo ++ ys) p.settled p.reach p.ahead.0
                  p.shares.0.1 (omega arith) h);
    }
