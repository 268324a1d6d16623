-- ===== src/Atoms/Examples.antt =====
-- Runs of the atom builder, and its theorems at a concrete artifact.
use zynum.Prelude.{
  ℕ, ◌≡◌, refl, true, false, String, none, List, [], ◌∷◌, arith, Outcome, ok, err, ◌>>=◌,
  String-discrete,
}
use zynum.Prelude.Int.{pos, negsuc}
use zynum.Interval.{
  leaf, node, insert_interval, remove_interval, balance_interval, ordered_intervals,
  interval_height, lower_bound_interval, predecessor_interval, successor_interval,
}
use zynum.Atoms.{
  Metadata, Metadata-discrete, AtomBuilder, AtomError, range_exceeds, already_assigned, new_builder,
  overlaps, carve, put, add,
}
use zynum.Atoms.AddLaws.{Added, add-accepts, Explained, add-Explained}
use zynum.Atoms.Add.{stamped}
use zynum.Atoms.Commit.{IsValid, assigned}
use zynum.Atoms.Conflict.{Conflict, add-Conflict}
use zynum.Atoms.Finish.{ByteAtom, finish, decimal}
use zynum.Atoms.Gaps.{InRanges}
use zynum.Atoms.Layout.{cover}
use zynum.Atoms.Partition.{Partition, finish-Partition, finish-rejects}
use zynum.Atoms.Permit.{Permits}

abbrev atom : String → String → Metadata
atom locator role = record {
  locator = locator;
  role = role;
  depends_on = [];
  note = none;
  canonical_payload = none;
}

abbrev file : List ℕ
file = 10 ∷ 11 ∷ 12 ∷ 13 ∷ 14 ∷ 15 ∷ []

abbrev empty : AtomBuilder
empty = new_builder file "macho"

-- The first four bytes are one invariant atom.
abbrev with_header : AtomBuilder
with_header = record {
  bytes = file;
  prefix = "macho";
  root = node (record { start = 0; end = 4; value = atom "macho.header" "invariant" }) leaf leaf 1;
  claim_count = 1;
}

header_runs : add empty (pos 0) (pos 4) (atom "header" "invariant") false ≡ ok with_header
unfolding add overlaps carve put insert_interval lower_bound_interval predecessor_interval
    String-discrete
header_runs = refl

-- A derived field replaces the middle of the header, and the rest of the data is claimed.
whole : Outcome AtomError AtomBuilder
whole = do
  b ← add with_header (pos 1) (pos 2) (atom "uuid" "derived_field") true
  add b (pos 4) (pos 2) (atom "body" "invariant") false

atoms_run :
    (do b ← whole; finish b)
    ≡ ok (
        record {
          locator = "macho.header";
          role = "invariant";
          offset = 0;
          size = 1;
          payload = 10 ∷ [];
          depends_on = [];
          note = none;
          canonical_payload = none;
        }
        ∷ record {
          locator = "macho.uuid";
          role = "derived_field";
          offset = 1;
          size = 2;
          payload = 11 ∷ 12 ∷ [];
          depends_on = [];
          note = none;
          canonical_payload = none;
        }
        ∷ record {
          locator = "macho.header#1";
          role = "invariant";
          offset = 3;
          size = 1;
          payload = 13 ∷ [];
          depends_on = [];
          note = none;
          canonical_payload = none;
        }
        ∷ record {
          locator = "macho.body";
          role = "invariant";
          offset = 4;
          size = 2;
          payload = 14 ∷ 15 ∷ [];
          depends_on = [];
          note = none;
          canonical_payload = none;
        }
        ∷ [])
unfolding whole add overlaps carve put insert_interval remove_interval balance_interval
    lower_bound_interval predecessor_interval successor_interval String-discrete Metadata-discrete
    finish ordered_intervals decimal
atoms_run = refl

outside_runs :
    (add empty (pos 4) (pos 3) (atom "tail" "invariant") false
      ≡ err (range_exceeds (pos 4) (pos 3) 6 "tail"))
    × (add empty (negsuc 0) (pos 3) (atom "tail" "invariant") false
        ≡ err (range_exceeds (negsuc 0) (pos 3) 6 "tail"))
unfolding add
outside_runs = (refl, refl)

conflict_runs :
    add with_header (pos 2) (pos 4) (atom "body" "invariant") false
    ≡ err (already_assigned 2 "macho.header" "macho.body")
unfolding add overlaps lower_bound_interval predecessor_interval successor_interval String-discrete
conflict_runs = refl

with_header-IsValid : IsValid with_header
unfolding interval_height
with_header-IsValid = record { balanced = omega arith; layout = omega arith }

-- All assigned bytes are invariant, so they may be replaced.
replaceable : Permits with_header 1 3 true
unfolding cover
replaceable i v lo hi e = ground arith

add-accepts_example :
    (b : AtomBuilder) × (add with_header (pos 1) (pos 2) (atom "uuid" "derived_field") true ≡ ok b)
    × Added with_header b 1 3 (stamped with_header (atom "uuid" "derived_field"))
add-accepts_example =
    add-accepts with_header 1 2 (atom "uuid" "derived_field") true with_header-IsValid (omega arith)
      (omega arith) (omega arith) replaceable

add-Explained_example :
    Explained with_header
      (pos 1)
      (pos 2)
      (atom "uuid" "derived_field")
      true
      (add with_header (pos 1) (pos 2) (atom "uuid" "derived_field") true)
add-Explained_example =
    add-Explained with_header (pos 1) (pos 2) (atom "uuid" "derived_field") true with_header-IsValid

add-Conflict_example : Conflict with_header 2 6 2 "macho.header"
add-Conflict_example =
    add-Conflict with_header 2 4 2 (atom "body" "invariant") "macho.header" "macho.body"
      with_header-IsValid conflict_runs

-- A builder whose claims cover a file of two bytes.
abbrev covered : AtomBuilder
covered = record {
  bytes = 7 ∷ 8 ∷ [];
  prefix = "";
  root =
      node (record { start = 0; end = 1; value = atom "a" "invariant" }) leaf
        (node (record { start = 1; end = 2; value = atom "b" "derived_field" }) leaf leaf 1) 2;
  claim_count = 2;
}

abbrev covered_atoms : List ByteAtom
covered_atoms =
    record {
      locator = "a";
      role = "invariant";
      offset = 0;
      size = 1;
      payload = 7 ∷ [];
      depends_on = [];
      note = none;
      canonical_payload = none;
    }
    ∷ record {
      locator = "b";
      role = "derived_field";
      offset = 1;
      size = 1;
      payload = 8 ∷ [];
      depends_on = [];
      note = none;
      canonical_payload = none;
    }
    ∷ []

covered_runs : finish covered ≡ ok covered_atoms
unfolding finish ordered_intervals decimal String-discrete
covered_runs = refl

covered-IsValid : IsValid covered
unfolding interval_height
covered-IsValid = record { balanced = omega arith; layout = omega arith }

finish-Partition_example : Partition covered covered_atoms
finish-Partition_example = finish-Partition covered covered_atoms covered-IsValid covered_runs

unassigned : assigned with_header 4 ≡ none
unfolding cover
unassigned = refl

finish-rejects_example :
    (ranges : List (ℕ × ℕ)) × (finish with_header ≡ err (AtomError.uncovered ranges "macho"))
    × InRanges 4 ranges
finish-rejects_example = finish-rejects with_header 4 with_header-IsValid (omega arith) unassigned
