-- ===== src/Atoms.antt =====
-- tools/abi_artifact_parity.py, `_AtomBuilder`, `ByteAtom` and `_require_range`: every byte of an
-- artifact is assigned to one atom. The builder's state is passed on; an exception drops it, which
-- is what the callers do.
pub mod Layout
pub mod Window
pub mod Edit
pub mod Carve
pub mod CarveLoop
pub mod PutLeft
pub mod PutRight
pub mod Put
pub mod Commit
pub mod Add
pub mod Permit
pub mod AddLaws
pub mod Conflict
pub mod Finish
pub mod Gaps
pub mod Partition
pub mod Claims
mod Examples
use Prim.Native.Nat.{pred}
use native.Mathlib.Decide.{ℕ_discrete}
use zynum.Prelude.{
  ℕ, zero, suc, ◌+◌, ◌-◌, ◌≡◌, String, ◌<>◌, Bool, true, false, ◌||◌, ◌&&◌, not, Option, none, some,
  List, [], ◌∷◌, ◌++◌, map, max, ltb, leb, ◌==◌, if◌then◌else◌, Eq, same, String-discrete,
  string_eq, Outcome, ok, err, ◌>>=◌, ◌>>◌, length, take, drop,
}
use zynum.Prelude.Int.{ℤ, pos, negsuc}
use zynum.Interval.{
  Interval, Tree, leaf, node, Assertion, insert_interval, remove_interval, lower_bound_interval,
  predecessor_interval, successor_interval, node_count, ordered_intervals,
}

-- `_AtomMetadata`: bytes are numbers below 256, which nothing here depends on.
pub record Metadata : Type 0 where
  pub locator : String
  pub role : String
  pub depends_on : List String
  pub note : Option String
  pub canonical_payload : Option (List ℕ)

unfoldable pub Metadata-discrete : Discrete Metadata
unfolding String-discrete
Metadata-discrete = hlevel (String-discrete, ℕ_discrete)

instance abbrev pub metadata_eq : Eq Metadata
metadata_eq = record { dec = Metadata-discrete }

-- The exceptions, with what their texts are formatted from. `unfinished` is the model's own, for
-- fuel that ran out.
pub data AtomError : Type 0 where
  range_exceeds : ℤ → ℤ → ℕ → String → AtomError
  already_assigned : ℕ → String → String → AtomError
  cannot_replace : String → ℕ → String → AtomError
  claim_limit : String → AtomError
  uncovered : List (ℕ × ℕ) → String → AtomError
  unknown_role : String → String → AtomError
  invalid_atom_range : String → AtomError
  stray_canonical_payload : String → AtomError
  locators_not_unique : String → AtomError
  assertion : Assertion → AtomError
  unfinished : AtomError

-- The calls of the tree functions, whose `AssertionError` passes through.
abbrev pub lift {ℓ} : {A : Type ℓ} → Outcome Assertion A → Outcome AtomError A
lift (ok a) = ok a
lift (err e) = err (assertion e)

abbrev pub finished {ℓ} : {A : Type ℓ} → Option A → Outcome AtomError A
finished (some a) = ok a
finished none = err unfinished

-- The offset and the size as natural numbers, once neither is negative and the range fits.
unfoldable pub require_range : ℕ → ℤ → ℤ → String → Outcome AtomError (ℕ × ℕ)
require_range total (pos offset) (pos size) locator =
    if ltb total offset || ltb (total - offset) size
    then err (range_exceeds (pos offset) (pos size) total locator)
    else ok (offset, size)
require_range total offset size locator = err (range_exceeds offset size total locator)

abbrev pub max_atom_claims : ℕ
max_atom_claims = 262144

pub record AtomBuilder : Type 0 where
  pub bytes : List ℕ
  pub prefix : String
  pub root : Tree Metadata
  pub claim_count : ℕ

-- `_AtomBuilder(data, prefix)`.
abbrev pub new_builder : List ℕ → String → AtomBuilder
new_builder bytes prefix = record { bytes = bytes; prefix = prefix; root = leaf; claim_count = 0 }

abbrev pub Assigned : Type 0
Assigned = Interval Metadata

-- The interval from which the overlaps of a range are read: the predecessor of its start if that
-- reaches past it, else the first interval at or after it.
abbrev pub first_overlap : Option Assigned → Option Assigned → ℕ → Option Assigned
first_overlap none first start = first
first_overlap (some p) first start = if ltb start p.end then some p else first

-- `while current is not None and current.start < end`. `none` means that the fuel ran out.
unfoldable pub scan_overlaps : ℕ → Tree Metadata → ℕ → ℕ → Option Assigned → Option (List Assigned)
scan_overlaps fuel root start end none = some []
scan_overlaps zero root start end (some current) = none
scan_overlaps (suc fuel) root start end (some current) =
    let more = scan_overlaps fuel root start end (successor_interval root current.start) in
    if ltb current.start end
    then elim more [
      | none ↦ none
      | some rest ↦ some (if ltb start current.end then current ∷ rest else rest)
    ]
    else some []

-- Each round moves to a later interval: one round for each node, and one to stop.
unfoldable pub overlaps : Tree Metadata → ℕ → ℕ → Option (List Assigned)
unfolding scan_overlaps
overlaps root start end =
    scan_overlaps (suc (node_count root)) root start end
      (first_overlap (predecessor_interval root start) (lower_bound_interval root start) start)

-- The first `if` of `_put`: a neighbour on the left with the same value is taken in.
unfoldable pub join_left :
    Tree Metadata → ℕ → Metadata → Option Assigned → Outcome Assertion (ℕ × Tree Metadata)
join_left root start value none = ok (start, root)
join_left root start value (some p) =
    if p.end == start && same p.value value
    then (do root' ← remove_interval root p.start; ok (p.start, root'))
    else ok (start, root)

-- The second: a neighbour on the right.
unfoldable pub join_right :
    Tree Metadata → ℕ → Metadata → Option Assigned → Outcome Assertion (ℕ × Tree Metadata)
join_right root end value none = ok (end, root)
join_right root end value (some s) =
    if s.start == end && same s.value value
    then (do root' ← remove_interval root s.start; ok (s.end, root'))
    else ok (end, root)

unfoldable pub put : Tree Metadata → ℕ → ℕ → Metadata → Outcome Assertion (Tree Metadata)
unfolding join_left join_right
put root start end value = do
  (start', root') ← join_left root start value (predecessor_interval root start)
  (end', root'') ← join_right root' end value (lower_bound_interval root' start')
  insert_interval root'' (record { start = start'; end = end'; value = value })

-- What is kept of an overlapped interval before the range, and behind it.
unfoldable pub keep_before : Tree Metadata → ℕ → Assigned → Outcome Assertion (Tree Metadata)
keep_before root start prior =
    if ltb prior.start start then insert_interval root (record prior { end = start }) else ok root

unfoldable pub keep_behind : Tree Metadata → ℕ → Assigned → Outcome Assertion (Tree Metadata)
keep_behind root end prior =
    if ltb end prior.end then insert_interval root (record prior { start = end }) else ok root

-- `for prior_start, prior_end, prior_value in overlaps`.
unfoldable pub carve : Tree Metadata → ℕ → ℕ → List Assigned → Outcome Assertion (Tree Metadata)
unfolding keep_before keep_behind
carve root start end [] = ok root
carve root start end (prior ∷ rest) = do
  removed ← remove_interval root prior.start
  before ← keep_before removed start prior
  behind ← keep_behind before end prior
  carve behind start end rest

-- `if not replace and overlaps`.
unfoldable pub require_free : ℕ → String → List Assigned → Outcome AtomError (Unit {0})
require_free start full [] = ok tt
require_free start full (prior ∷ _) =
    err (already_assigned (max start prior.start) prior.value.locator full)

-- `if replace`: only invariant atoms may be replaced.
unfoldable pub require_replaceable : ℕ → String → List Assigned → Outcome AtomError (Unit {0})
require_replaceable start full [] = ok tt
require_replaceable start full (prior ∷ rest) =
    if same prior.value.role "invariant"
    then require_replaceable start full rest
    else err (cannot_replace prior.value.role (max start prior.start) full)

-- `f"{prefix}.{locator}" if prefix else locator`.
unfoldable pub full_locator : String → String → String
full_locator prefix locator = if same prefix "" then locator else prefix <> "." <> locator

-- The keyword arguments of `add`; `locator` in `value` is the one that was passed.
unfoldable pub add : AtomBuilder → ℤ → ℤ → Metadata → Bool → Outcome AtomError AtomBuilder
unfolding require_range require_free require_replaceable full_locator
add b offset length_ given replace = do
  (start, size) ← require_range (length b.bytes) offset length_ given.locator
  if size == 0 then ok b else do
    let full = full_locator b.prefix given.locator
    let value = record given { locator = full }
    let end = start + size
    found ← finished (overlaps b.root start end)
    if replace then require_replaceable start full found else require_free start full found
    if leb max_atom_claims b.claim_count then err (claim_limit full) else do
      carved ← lift (carve b.root start end found)
      root ← lift (put carved start end value)
      ok (record b { root = root; claim_count = b.claim_count + 1 })
