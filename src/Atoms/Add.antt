-- ===== src/Atoms/Add.antt =====
-- `_AtomBuilder.add`: its checks, one after the other, over a valid builder.
use zynum.Prelude.{
  ℕ, ◌+◌, ◌≤◌, ◌<◌, ◌≡◌, refl, some, List, arith, Outcome, ok, err, ◌>>=◌, ◌>>◌, leb, if◌then◌else◌,
  length, Bool, ne→==, String,
}
use zynum.Prelude.Int.{ℤ, pos, negsuc}
use zynum.Interval.{Tree, Assertion}
use zynum.Atoms.{
  Metadata, Assigned, AtomBuilder, AtomError, range_exceeds, claim_limit, lift, max_atom_claims,
  require_range, require_free, require_replaceable, full_locator, overlaps, carve, put, add,
}

abbrev pub full : AtomBuilder → Metadata → String
full b given = full_locator b.prefix given.locator

-- The value that the bytes get: the locator is prefixed.
abbrev pub stamped : AtomBuilder → Metadata → Metadata
stamped b given = record given { locator = full b given }

abbrev pub checks : Bool → ℕ → String → List Assigned → Outcome AtomError (Unit {0})
checks replace start name found =
    if replace then require_replaceable start name found else require_free start name found

-- `add` behind the range check and the overlaps.
abbrev pub checked_add :
    AtomBuilder → ℕ → ℕ → Metadata → Bool → List Assigned → Outcome AtomError AtomBuilder
checked_add b start end given replace found =
    checks replace start (full b given) found
    >> (if leb max_atom_claims b.claim_count
        then err (claim_limit (full b given))
        else (lift (carve b.root start end found) >>= λ carved.
            lift (put carved start end (stamped b given)) >>= λ root.
            ok (record b { root = root; claim_count = b.claim_count + 1 })))

pub require_range-fits :
    (total start size : ℕ) (locator : String)
    → start + size ≤ total
    → require_range total (pos start) (pos size) locator ≡ ok (start, size)
unfolding require_range
require_range-fits total start size locator h = ground arith

pub require_range-outside :
    (total start size : ℕ) (locator : String)
    → total < start + size
    → require_range total (pos start) (pos size) locator
      ≡ err (range_exceeds (pos start) (pos size) total locator)
unfolding require_range
require_range-outside total start size locator h = ground arith

pub require_range-inv :
    (total : ℕ) (offset size : ℤ) (locator : String) (r : ℕ × ℕ)
    → require_range total offset size locator ≡ ok r
    → (offset ≡ pos r.0) × (size ≡ pos r.1) × (r.0 + r.1 ≤ total)
unfolding require_range
require_range-inv total (pos o) (pos s) locator r h = ground arith
require_range-inv total (pos o) (negsuc s) locator r h = cc
require_range-inv total (negsuc o) s locator r h = cc

pub add-empty :
    (b : AtomBuilder) (start : ℕ) (given : Metadata) (replace : Bool)
    → start ≤ length b.bytes
    → add b (pos start) (pos 0) given replace ≡ ok b
unfolding add
add-empty b start given replace h =
    rw (require_range-fits (length b.bytes) start 0 given.locator (omega arith)) refl

pub add-outside :
    (b : AtomBuilder) (start size : ℕ) (given : Metadata) (replace : Bool)
    → length b.bytes < start + size
    → add b (pos start) (pos size) given replace
      ≡ err (range_exceeds (pos start) (pos size) (length b.bytes) given.locator)
unfolding add
add-outside b start size given replace h =
    rw (require_range-outside (length b.bytes) start size given.locator h) refl

pub add-checked :
    (b : AtomBuilder) (start size : ℕ) (given : Metadata) (replace : Bool) (found : List Assigned)
    → start + size ≤ length b.bytes
    → 0 < size
    → overlaps b.root start (start + size) ≡ some found
    → add b (pos start) (pos size) given replace
      ≡ checked_add b start (start + size) given replace found
unfolding add
add-checked b start size given replace found h n e =
    rw (require_range-fits (length b.bytes) start size given.locator h)
      (rw (ne→== size 0 (omega arith)) (rw e refl))

pub lift-bind :
    {A : Type 0} (m : Outcome Assertion (Tree Metadata))
    (f : Tree Metadata → Outcome Assertion (Tree Metadata))
    (k : Tree Metadata → Outcome AtomError A) (t : Tree Metadata)
    → (m >>= f) ≡ ok t
    → (lift m >>= λ c. lift (f c) >>= k) ≡ k t
lift-bind (ok c) f k t h = rw h refl
lift-bind (err e) f k t h = cc
