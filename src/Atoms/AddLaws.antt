-- ===== src/Atoms/AddLaws.antt =====
-- What `_AtomBuilder.add` promises its callers.
use zynum.Prelude.{
  ℕ, zero, suc, ◌+◌, ◌≤◌, ◌<◌, ◌≡◌, refl, ◌∙◌, List, [], ◌∷◌, arith, inl, inr, Outcome, ok, err,
  leb, length, Bool, true, false, Bool-cases, String, leb→le, leb→gt, gt→leb, ◌⊎◌, same, string_eq,
}
use zynum.Prelude.Int.{ℤ, pos, negsuc}
use zynum.Atoms.{
  Metadata, Assigned, AtomBuilder, AtomError, range_exceeds, assertion, unfinished, max_atom_claims,
  require_range, require_free, require_replaceable, carve, add,
}
use zynum.Atoms.Put.{assign}
use zynum.Atoms.Commit.{IsValid, RangeLayout, range_layout, commit_lem, assigned}
use zynum.Atoms.Add.{
  full, stamped, checks, checked_add, add-empty, add-outside, add-checked, lift-bind,
}
use zynum.Atoms.Permit.{Permits, Permits-of_checks, checks_of_Permits}

-- The builder after the range [start, end) got `value`: nothing else changed.
pub record Added (b b' : AtomBuilder) (start end : ℕ) (value : Metadata) : Type 0 where
  pub bytes : b'.bytes ≡ b.bytes
  pub prefix : b'.prefix ≡ b.prefix
  pub claims : b'.claim_count ≡ b.claim_count + 1
  pub valid : IsValid b'
  pub values : (i : ℕ) → assigned b' i ≡ assign (assigned b) start end value i

-- Past its checks `add` returns.
pub checked_lem :
    (b : AtomBuilder) (start end : ℕ) (given : Metadata) (replace : Bool)
    → start < end
    → IsValid b
    → (r : RangeLayout b start end) → checks replace start (full b given) r.window.inside ≡ ok tt
    → b.claim_count < max_atom_claims
    → (b' : AtomBuilder) × (checked_add b start end given replace r.window.inside ≡ ok b')
      × Added b b' start end (stamped b given)
checked_lem b start end given replace n v r c m =
    let p = commit_lem b start end (stamped b given) n v r in
    let room = gt→leb max_atom_claims b.claim_count m in
    (
      record b { root = p.tree; claim_count = b.claim_count + 1 },
      rw c (rw room (lift-bind (carve b.root start end r.window.inside) _ _ p.tree p.returned)),
      record {
        bytes = refl;
        prefix = refl;
        claims = refl;
        valid = record { balanced = p.balanced; layout = p.layout };
        values = p.values;
      },
    )

-- A claim that fits the data, below the claim limit, of bytes that may be taken, is accepted: the
-- bytes of the range get the value, every other byte keeps its own, and the builder stays valid.
pub add-accepts :
    (b : AtomBuilder) (start size : ℕ) (given : Metadata) (replace : Bool)
    → IsValid b
    → start + size ≤ length b.bytes
    → 0 < size
    → b.claim_count < max_atom_claims
    → Permits b start (start + size) replace
    → (b' : AtomBuilder) × (add b (pos start) (pos size) given replace ≡ ok b')
      × Added b b' start (start + size) (stamped b given)
add-accepts b start size given replace v h n m p =
    let r = range_layout b start (start + size) v h in
    let shorter : start < start + size = omega arith in
    let (b', returned, added) =
      checked_lem b start (start + size) given replace shorter v r
        (checks_of_Permits b start (start + size) (full b given) replace r shorter v p) m in
    (
      b',
      add-checked b start size given replace r.window.inside h n r.window.found ∙ returned,
      added,
    )

-- The exceptions that are `ParityError`.
abbrev pub IsParityError : AtomError → Type 0
IsParityError (assertion e) = ⊥
IsParityError unfinished = ⊥
IsParityError _ = Unit

-- The two ways in which `add` returns.
pub data Accepted (b : AtomBuilder) (offset size : ℤ) (given : Metadata) (replace : Bool)
    (b' : AtomBuilder) : Type 0 where
  nothing : size ≡ pos 0 → b' ≡ b → Accepted b offset size given replace b'
  claimed :
      (start n : ℕ)
      → offset ≡ pos start
      → size ≡ pos n
      → 0 < n
      → start + n ≤ length b.bytes
      → b.claim_count < max_atom_claims
      → Permits b start (start + n) replace
      → Added b b' start (start + n) (stamped b given)
      → Accepted b offset size given replace b'

-- What `add` did, for each result.
abbrev pub Explained :
    AtomBuilder → ℤ → ℤ → Metadata → Bool → Outcome AtomError AtomBuilder → Type 0
Explained b offset size given replace (ok b') = Accepted b offset size given replace b'
Explained b offset size given replace (err e) = IsParityError e

abbrev pub Honest {ℓ} : {A : Type ℓ} → Outcome AtomError A → Type 0
Honest (ok a) = Unit
Honest (err e) = IsParityError e

require_free-Honest :
    (start : ℕ) (name : String) (xs : List Assigned) → Honest (require_free start name xs)
unfolding require_free
require_free-Honest start name [] = tt
require_free-Honest start name (x ∷ xs) = tt

require_replaceable-Honest :
    (start : ℕ) (name : String) (xs : List Assigned) → Honest (require_replaceable start name xs)
unfolding require_replaceable
require_replaceable-Honest start name [] = tt
require_replaceable-Honest start name (x ∷ xs) = elim (Bool-cases (same x.value.role "invariant")) [
  | inl fits ↦ rw fits (require_replaceable-Honest start name xs)
  | inr other ↦ rw other tt
]

checks-Honest :
    (start : ℕ) (name : String) (replace : Bool) (xs : List Assigned)
    → Honest (checks replace start name xs)
checks-Honest start name true xs = require_replaceable-Honest start name xs
checks-Honest start name false xs = require_free-Honest start name xs

pub Outcome-cases :
    (r : Outcome AtomError (Unit {0})) → (r ≡ ok tt) ⊎ ((e : AtomError) × (r ≡ err e))
Outcome-cases (ok tt) = inl refl
Outcome-cases (err e) = inr (e, refl)

explain_checked :
    (b : AtomBuilder) (start size : ℕ) (given : Metadata) (replace : Bool)
    → IsValid b
    → start + size ≤ length b.bytes
    → 0 < size
    → (r : RangeLayout b start (start + size))
    → Explained b
        (pos start)
        (pos size)
        given
        replace
        (checked_add b start (start + size) given replace r.window.inside)
explain_checked b start size given replace v h n r =
    elim (Outcome-cases (checks replace start (full b given) r.window.inside)) [
      | inr (e, c) ↦ rw c (rw c at (checks-Honest start (full b given) replace r.window.inside))
      | inl c ↦ elim (Bool-cases (leb max_atom_claims b.claim_count)) [
        | inl many ↦ rw c (rw many tt)
        | inr room ↦
            let m = leb→gt max_atom_claims b.claim_count room in
            let (b', returned, added) =
              checked_lem b start (start + size) given replace (omega arith) v r c m in
            rw returned (
              claimed start size refl refl n h m
                (Permits-of_checks b start (start + size) (full b given) replace r c) added)
      ]
    ]

-- Whatever it is called with, `add` on a valid builder either accepts (no byte, or a range that
-- may be taken, with exactly the values that the claim asks for) or raises `ParityError`: no
-- assertion of the tree fails, and no search runs out of fuel.
pub add-Explained :
    (b : AtomBuilder) (offset size : ℤ) (given : Metadata) (replace : Bool)
    → IsValid b
    → Explained b offset size given replace (add b offset size given replace)
add-Explained b (negsuc o) size given replace v = unfold add require_range in tt
add-Explained b (pos o) (negsuc s) given replace v = unfold add require_range in tt
add-Explained b (pos start) (pos size) given replace v =
    elim (Bool-cases (leb (start + size) (length b.bytes))) [
      | inl fits ↦ inside size (leb→le _ _ fits)
      | inr not_fits ↦ rw (outside (leb→gt _ _ not_fits)) tt
    ]
  where
    outside :
        length b.bytes < start + size
        → add b (pos start) (pos size) given replace
          ≡ err (range_exceeds (pos start) (pos size) (length b.bytes) given.locator)
    outside h = add-outside b start size given replace h

    inside :
        (n : ℕ)
        → start + n ≤ length b.bytes
        → Explained b (pos start) (pos n) given replace (add b (pos start) (pos n) given replace)
    inside zero h = rw (add-empty b start given replace (omega arith)) (nothing refl refl)
    inside (suc n) h =
        let r = range_layout b start (start + suc n) v h in
        rw
          (add-checked b start (suc n) given replace r.window.inside h (omega arith) r.window.found)
          (explain_checked b start (suc n) given replace v h (omega arith) r)
