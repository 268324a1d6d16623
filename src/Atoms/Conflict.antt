-- ===== src/Atoms/Conflict.antt =====
-- Which conflict `_AtomBuilder.add` reports.
use mathlib.Core.Path.{subst₂}
use zynum.Prelude.{
  ℕ, zero, suc, ◌+◌, ◌≤◌, ◌<◌, ◌≡◌, refl, sym, ap, ◌∙◌, none, some, List, [], ◌∷◌, ◌++◌, arith, All,
  inl, inr, err, leb, length, false, Bool-cases, String, leb→le, leb→gt, max,
}
use zynum.Prelude.Int.{pos}
use zynum.Interval.Outline.{inorder}
use zynum.Atoms.{
  Metadata, Assigned, AtomBuilder, already_assigned, claim_limit, max_atom_claims, require_free,
  add,
}
use zynum.Atoms.Layout.{
  Within, Within-join, Within-split, cover, cover-at, cover-before, cover-above,
}
use zynum.Atoms.Commit.{IsValid, RangeLayout, range_layout, assigned}
use zynum.Atoms.Add.{full, checks, checked_add, add-empty, add-outside, add-checked}
use zynum.Atoms.AddLaws.{checked_lem, Outcome-cases}

-- The byte is the first one of the range that is assigned, and its atom has the locator.
pub record Conflict (b : AtomBuilder) (start end byte : ℕ) (prior : String) : Type 0 where
  pub low : start ≤ byte
  pub high : byte < end
  pub value : Metadata
  pub taken : assigned b byte ≡ some value
  pub named : value.locator ≡ prior
  pub first : (i : ℕ) → start ≤ i → i < byte → assigned b i ≡ none

Conflict-at :
    (b : AtomBuilder) (start end a : ℕ) (xs : List Assigned) (x : Assigned) (ys : List Assigned)
    → start < end
    → inorder b.root ≡ xs ++ (x ∷ ys)
    → Within 0 a xs
    → a ≤ start
    → Within a (length b.bytes) (x ∷ ys)
    → start < x.end
    → x.start < end
    → Conflict b start end (max start x.start) x.value.locator
Conflict-at b start end a xs x ys n e v h w k m = record {
  low = omega arith;
  high = omega arith;
  value = x.value;
  taken =
      ap (λ zs. cover zs (max start x.start)) e
      ∙ cover-at 0 (max start x.start) xs x ys
          (Within-split 0 (length b.bytes) xs x ys (joined w)).0 (omega arith) (omega arith);
  named = refl;
  first = λ i lo hi.
      ap (λ zs. cover zs i) e
      ∙ (cover-before (length b.bytes) i xs x ys (omega arith, w.1, w.2) (omega arith)
          ∙ cover-above 0 a i xs v (omega arith));
}
  where
    joined : Within a (length b.bytes) (x ∷ ys) → Within 0 (length b.bytes) (xs ++ (x ∷ ys))
    joined w = Within-join 0 a (length b.bytes) xs (x ∷ ys) v w

reported :
    (b : AtomBuilder) (start end a byte : ℕ) (name prior name' : String)
    (xs todo ys : List Assigned)
    → start < end
    → inorder b.root ≡ xs ++ (todo ++ ys)
    → Within 0 a xs
    → a ≤ start
    → Within a (length b.bytes) (todo ++ ys)
    → All (λ x. (start < x.end) × (x.start < end)) todo
    → require_free start name todo ≡ err (already_assigned byte prior name')
    → Conflict b start end byte prior
unfolding require_free
reported b start end a byte name prior name' xs [] ys n e v h w s f = absurd (cc)
reported b start end a byte name prior name' xs (x ∷ todo) ys n e v h w s f =
    let c = Conflict-at b start end a xs x (todo ++ ys) n e v h w s.0.0 s.0.1 in
    subst₂ (Conflict b start end) (cc) (cc) c

reported_checked :
    (b : AtomBuilder) (start end byte : ℕ) (given : Metadata) (prior name : String)
    → start < end
    → IsValid b
    → (r : RangeLayout b start end)
    → checked_add b start end given false r.window.inside ≡ err (already_assigned byte prior name)
    → Conflict b start end byte prior
reported_checked b start end byte given prior name n v r e =
    elim (Outcome-cases (checks false start (full b given) r.window.inside)) [
      | inr (e', c) ↦
          let same_error : checked_add b start end given false r.window.inside ≡ err e' =
            rw c refl in
          reported b start end r.a byte (full b given) prior name r.window.before r.window.inside
            r.window.behind n r.window.layout r.settled r.reach r.ahead r.window.shares
            (cc (sym same_error ∙ e, c))
      | inl c ↦ elim (Bool-cases (leb max_atom_claims b.claim_count)) [
        | inl many ↦
            let limit : checked_add b start end given false r.window.inside
                ≡ err (claim_limit (full b given)) =
              rw c (rw many refl) in
            absurd (cc (sym limit ∙ e))
        | inr room ↦
            let (b', returned, _) = checked_lem b start end given false n v r c (leb→gt _ _ room) in
            absurd (cc (sym returned ∙ e))
      ]
    ]

-- A conflict is reported at the first byte of the range that is assigned, with the locator that it
-- is assigned to.
pub add-Conflict :
    (b : AtomBuilder) (start size byte : ℕ) (given : Metadata) (prior name : String)
    → IsValid b
    → add b (pos start) (pos size) given false ≡ err (already_assigned byte prior name)
    → Conflict b start (start + size) byte prior
add-Conflict b start size byte given prior name v e =
    elim (Bool-cases (leb (start + size) (length b.bytes))) [
      | inl fits ↦ inside size (leb→le _ _ fits) e
      | inr not_fits ↦
          absurd (cc (sym (add-outside b start size given false (leb→gt _ _ not_fits)) ∙ e))
    ]
  where
    inside :
        (n : ℕ)
        → start + n ≤ length b.bytes
        → add b (pos start) (pos n) given false ≡ err (already_assigned byte prior name)
        → Conflict b start (start + n) byte prior
    inside zero h e = absurd (cc (sym (add-empty b start given false (omega arith)) ∙ e))
    inside (suc n) h e =
        let r = range_layout b start (start + suc n) v h in
        reported_checked b start (start + suc n) byte given prior name (omega arith) v r (
          sym
            (add-checked b start (suc n) given false r.window.inside h (omega arith) r.window.found)
          ∙ e)
