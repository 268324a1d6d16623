-- ===== src/Atoms/Permit.antt =====
-- What the checks of `add` ask of the bytes: the overlaps that they look at are the assigned bytes
-- of the range.
use zynum.Prelude.{
  ℕ, ◌≤◌, ◌<◌, ◌≡◌, refl, sym, ap, ◌∙◌, some, List, [], ◌∷◌, ◌++◌, arith, All, inl, inr, Outcome,
  ok, err, ltb, leb, ◌&&◌, length, Bool, true, false, Bool-cases, max, same, same→eq, string_eq,
  String,
}
use mathlib.Core.List.{append_assoc}
use mathlib.Core.Option.{some-injective}
use mathlib.Core.Bool.{false≢true}
use zynum.Prelude.{subst}
use zynum.Interval.Outline.{inorder}
use zynum.Atoms.{
  Metadata, Assigned, AtomBuilder, AtomError, cannot_replace, require_free, require_replaceable,
}
use zynum.Atoms.Layout.{
  Within, Within-split, cover, cover-at, cover-append-right, cover-append-left,
}
use zynum.Atoms.Commit.{IsValid, RangeLayout, assigned}
use zynum.Atoms.Add.{checks}

-- Every byte of the range that is assigned may be taken: `replace` was passed and its atom is
-- invariant.
abbrev pub Permits : AtomBuilder → ℕ → ℕ → Bool → Type 0
Permits b start end replace =
    (i : ℕ) (v : Metadata)
    → start ≤ i
    → i < end
    → assigned b i ≡ some v
    → (replace ≡ true) × (v.role ≡ "invariant")

cover-All :
    (P : Metadata → Type 0) (xs : List Assigned) (i : ℕ) (v : Metadata)
    → All (λ x. P x.value) xs
    → cover xs i ≡ some v
    → P v
unfolding cover
cover-All P [] i v a e = cc
cover-All P (x ∷ xs) i v a e = elim (Bool-cases (leb x.start i && ltb i x.end)) [
  | inl here ↦ subst P (some-injective x.value v (rw here at e)) a.0
  | inr other ↦ cover-All P xs i v a.1 (rw other at e)
]

-- Inside the range only the overlaps answer.
pub assigned-inside :
    (b : AtomBuilder) (start end i : ℕ) (r : RangeLayout b start end)
    → start ≤ i
    → i < end
    → assigned b i ≡ cover r.window.inside i
assigned-inside b start end i r h k =
    let w = r.window in
    ap (λ xs. cover xs i) w.layout
    ∙ (cover-append-right 0 r.a i w.before (w.inside ++ w.behind) r.settled (omega (arith, r.reach))
        ∙ cover-append-left end (length b.bytes) i w.inside w.behind r.rest k)

same_invariant : (s : String) → s ≡ "invariant" → same s "invariant" ≡ true
same_invariant s e = ground arith

roles_of_check :
    (start : ℕ) (name : String) (xs : List Assigned)
    → require_replaceable start name xs ≡ ok tt
    → All (λ x. x.value.role ≡ "invariant") xs
unfolding require_replaceable
roles_of_check start name [] h = tt
roles_of_check start name (x ∷ xs) h = elim (Bool-cases (same x.value.role "invariant")) [
  | inl yes' ↦ (same→eq _ _ yes', roles_of_check start name xs (rw yes' at h))
  | inr no' ↦ absurd (differ (rw no' at h))
]
  where
    differ :
        ◌≡◌ {A = Outcome AtomError (Unit {0})}
          (err (cannot_replace x.value.role (max start x.start) name))
          (ok tt)
        → ⊥
    differ h = cc

check_of_roles :
    (start : ℕ) (name : String) (xs : List Assigned)
    → All (λ x. x.value.role ≡ "invariant") xs
    → require_replaceable start name xs ≡ ok tt
unfolding require_replaceable
check_of_roles start name [] a = refl
check_of_roles start name (x ∷ xs) a =
    rw (same_invariant x.value.role a.0) (check_of_roles start name xs a.1)

none_free :
    (start i : ℕ) (name : String) (v : Metadata) (xs : List Assigned)
    → require_free start name xs ≡ ok tt
    → cover xs i ≡ some v
    → (false ≡ true) × (v.role ≡ "invariant")
unfolding require_free cover
none_free start i name v [] h e = absurd (cc)
none_free start i name v (x ∷ xs) h e = absurd (cc)

-- The checks pass only if the bytes may be taken.
pub Permits-of_checks :
    (b : AtomBuilder) (start end : ℕ) (name : String) (replace : Bool) (r : RangeLayout b start end)
    → checks replace start name r.window.inside ≡ ok tt
    → Permits b start end replace
Permits-of_checks b start end name true r h i v lo hi e = (
  refl,
  cover-All (λ m. m.role ≡ "invariant") r.window.inside i v
      (roles_of_check start name r.window.inside h)
      (sym (assigned-inside b start end i r lo hi) ∙ e),
)
Permits-of_checks b start end name false r h i v lo hi e =
    none_free start i name v r.window.inside h (sym (assigned-inside b start end i r lo hi) ∙ e)

-- Every overlap has a byte of the range.
overlap_byte :
    (high start end : ℕ) (t : List Assigned) (xs : List Assigned) (x : Assigned)
    (ys : List Assigned)
    → start < end
    → Within 0 high t
    → t ≡ xs ++ (x ∷ ys)
    → start < x.end
    → x.start < end
    → cover t (max start x.start) ≡ some x.value
overlap_byte high start end t xs x ys n w e h k =
    let (v, inside, _) = Within-split 0 high xs x ys (rw e at w) in
    ap (λ zs. cover zs (max start x.start)) e
    ∙ cover-at 0 (max start x.start) xs x ys v (omega arith) (omega arith)

All-roles :
    (b : AtomBuilder) (start end : ℕ) (xs todo ys : List Assigned)
    → start < end
    → IsValid b
    → Permits b start end true
    → inorder b.root ≡ xs ++ (todo ++ ys)
    → All (λ x. (start < x.end) × (x.start < end)) todo
    → All (λ x. x.value.role ≡ "invariant") todo
All-roles b start end xs [] ys n v p e a = tt
All-roles b start end xs (x ∷ todo) ys n v p e a = (
  (p (max start x.start) x.value (omega arith) (omega (arith, a.0.0, a.0.1)) (
      overlap_byte (length b.bytes) start end (inorder b.root) xs x (todo ++ ys) n v.layout e a.0.0
        a.0.1)).1,
  All-roles b start end (xs ++ (x ∷ [])) todo ys n v p
      (e ∙ sym (append_assoc xs (x ∷ []) (todo ++ ys))) a.1,
)

none_taken :
    (b : AtomBuilder) (start end : ℕ) (name : String) (xs todo ys : List Assigned)
    → start < end
    → IsValid b
    → Permits b start end false
    → inorder b.root ≡ xs ++ (todo ++ ys)
    → All (λ x. (start < x.end) × (x.start < end)) todo
    → require_free start name todo ≡ ok tt
unfolding require_free
none_taken b start end name xs [] ys n v p e a = refl
none_taken b start end name xs (x ∷ todo) ys n v p e a = absurd (
    false≢true
      (p (max start x.start) x.value (omega arith) (omega (arith, a.0.0, a.0.1)) (
        overlap_byte (length b.bytes) start end (inorder b.root) xs x (todo ++ ys) n v.layout e
          a.0.0 a.0.1)).0)

-- The checks pass if the bytes may be taken.
pub checks_of_Permits :
    (b : AtomBuilder) (start end : ℕ) (name : String) (replace : Bool) (r : RangeLayout b start end)
    → start < end
    → IsValid b
    → Permits b start end replace
    → checks replace start name r.window.inside ≡ ok tt
checks_of_Permits b start end name true r n v p = check_of_roles start name r.window.inside (
    All-roles b start end r.window.before r.window.inside r.window.behind n v p r.window.layout
      r.window.shares)
checks_of_Permits b start end name false r n v p =
    none_taken b start end name r.window.before r.window.inside r.window.behind n v p
      r.window.layout r.window.shares
