-- ===== src/Ranges.antt =====
-- tools/abi_artifact_parity.py, `_check_disjoint`: the ranges of the tables of a file.
pub mod Disjoint
pub mod Accepted
mod Examples
use Prim.Native.String.{compare}
use text.Mathlib.Text.{is_le}
use zynum.Prelude.{
  ℕ, ◌+◌, String, ◌<>◌, Bool, true, false, ◌||◌, ◌&&◌, List, [], ◌∷◌, ltb, ◌==◌, if◌then◌else◌,
  Outcome, ok, err, ◌>>=◌, ◌>>◌,
}
use zynum.Prelude.Int.{pos}
use zynum.Atoms.{require_range}
use zynum.Parse.{ParseError, parity, raise_if, of_atom}

-- A range that a load command names.
pub record Range : Type 0 where
  pub start : ℕ
  pub size : ℕ
  pub name : String

-- Python's order of the triples.
abbrev pub is_before : Range → Range → Bool
is_before a b =
    ltb a.start b.start
    || (a.start == b.start
        && (ltb a.size b.size || (a.size == b.size && is_le (compare a.name b.name))))

abbrev pub insert_range : Range → List Range → List Range
insert_range r [] = r ∷ []
insert_range r (s ∷ ranges) =
    let rest = insert_range r ranges in if is_before r s then r ∷ s ∷ ranges else s ∷ rest

-- The ranges that are not empty, sorted.
abbrev pub material : List Range → List Range
material [] = []
material (r ∷ ranges) =
    let rest = material ranges in if r.size == 0 then rest else insert_range r rest

-- `_require_range` for its exception.
unfoldable pub range_test : ℕ → Range → Outcome ParseError (Unit {0})
unfolding require_range
range_test total r = of_atom (require_range total (pos r.start) (pos r.size) r.name >>= λ _. ok tt)

-- The loop, behind the end of a range.
unfoldable pub check_behind : ℕ → ℕ → String → List Range → Outcome ParseError (Unit {0})
unfolding range_test
check_behind total previous_end previous_name [] = ok tt
check_behind total previous_end previous_name (r ∷ ranges) = do
  range_test total r
  raise_if (ltb r.start previous_end) (parity ("overlaps " <> previous_name) r.name)
  check_behind total (r.start + r.size) r.name ranges

unfoldable pub check_disjoint : ℕ → List Range → Outcome ParseError (Unit {0})
unfolding check_behind
check_disjoint total ranges = check_behind total 0 "" (material ranges)
