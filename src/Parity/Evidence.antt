-- ===== src/Parity/Evidence.antt =====
-- tools/abi_artifact_parity.py, `_compare_parsed`: the loop over the locators that both artifacts have.
use zynum.Prelude.{
  ℕ, String, ◌<>◌, Bool, true, false, ◌||◌, ◌&&◌, not, none, some, List, [], ◌∷◌, ◌++◌,
  if◌then◌else◌, same, string_eq, same_list, get_item,
}
use zynum.Atoms.Finish.{ByteAtom}
use zynum.Parity.Records.{
  texts_eq, payload_eq, shape_eq, symbol_key_eq, hex_of, AtomJson, AllowedEdit, DerivedField,
}
use zynum.Parity.Pairing.{
  size_delta, byte_difference_count, changed_dependencies, is_filled, is_derived,
}

-- What the loop over the locators has collected.
pub record Evidence : Type 0 where
  pub failures : List String
  pub allowed_edits : List AllowedEdit
  pub derived_fields : List DerivedField
  pub invalid_derived : List String

abbrev pub nothing_found : Evidence
nothing_found = record {
  failures = [];
  allowed_edits = [];
  derived_fields = [];
  invalid_derived = [];
}

abbrev pub further : Evidence → Evidence → Evidence
further e f = record {
  failures = e.failures ++ f.failures;
  allowed_edits = e.allowed_edits ++ f.allowed_edits;
  derived_fields = e.derived_fields ++ f.derived_fields;
  invalid_derived = e.invalid_derived ++ f.invalid_derived;
}

-- `if not …: failures.append(…)`.
abbrev pub unless : Bool → String → List String
unless true failure = []
unless false failure = failure ∷ []

module _ (sha256 : List ℕ → String) where
  abbrev pub atom_json : ByteAtom → AtomJson
  atom_json a = record {
    locator = a.locator;
    role = a.role;
    offset = a.offset;
    size = a.size;
    sha256 = sha256 a.payload;
    depends_on = a.depends_on;
    note = a.note;
    canonical_payload_hex = hex_of a.canonical_payload;
    canonical_payload_sha256 = elim a.canonical_payload [ none ↦ none | some p ↦ some (sha256 p) ];
  }

  abbrev pub allowed_edit : String → ByteAtom → ByteAtom → AllowedEdit
  allowed_edit locator left right = record {
    locator = locator;
    left = atom_json left;
    right = atom_json right;
    changed = not (same_list left.payload right.payload);
    byte_difference_count = byte_difference_count left.payload right.payload;
    size_delta = size_delta left.size right.size;
  }

  -- The evidence of a derived atom: its changed dependencies are given.
  unfoldable pub derived_evidence : String → ByteAtom → ByteAtom → List String → Evidence
  derived_evidence locator left right changed =
      let equal = same_list left.payload right.payload in
      let canonical_equal = same left.canonical_payload right.canonical_payload in
      let valid = canonical_equal && (equal || is_filled changed) in
      let failure =
        if canonical_equal
        then "derived atom changed without a changed allowed base: " <> locator
        else "derived atom canonical payload differs: " <> locator in
      record {
        failures = unless valid failure;
        allowed_edits = [];
        derived_fields =
            record {
              locator = locator;
              role = left.role;
              left = atom_json left;
              right = atom_json right;
              changed = not equal;
              byte_difference_count = byte_difference_count left.payload right.payload;
              size_delta = size_delta left.size right.size;
              changed_dependencies = changed;
              canonical_payload_equal = canonical_equal;
              valid = valid;
            }
            ∷ [];
        invalid_derived = unless valid locator;
      }

  -- A round of the loop, on the atoms of a locator.
  unfoldable pub compare_atom :
      List (String × ByteAtom) → List (String × ByteAtom) → String → ByteAtom → ByteAtom → Evidence
  unfolding derived_evidence
  compare_atom lefts rights locator left right =
      let equal = same_list left.payload right.payload in
      if not (same left.role right.role) || not (same left.depends_on right.depends_on)
      then record nothing_found { failures = ("atom contract differs at " <> locator) ∷ [] }
      else if same left.role "invariant" && not equal
      then record nothing_found { failures = ("invariant atom differs: " <> locator) ∷ [] }
      else if same left.role "allowed_payload"
      then record nothing_found { allowed_edits = allowed_edit locator left right ∷ [] }
      else if is_derived left.role
      then derived_evidence locator left right (changed_dependencies lefts rights left.depends_on)
      else nothing_found

  abbrev pub compare_at : List (String × ByteAtom) → List (String × ByteAtom) → String → Evidence
  compare_at lefts rights locator = elim (get_item locator lefts) [
    | none ↦ nothing_found
    | some left ↦ elim (get_item locator rights) [
      | none ↦ nothing_found
      | some right ↦ compare_atom lefts rights locator left right
    ]
  ]

  -- The loop over the locators.
  unfoldable pub compare_locators :
      List (String × ByteAtom) → List (String × ByteAtom) → List String → Evidence
  unfolding compare_atom
  compare_locators lefts rights [] = nothing_found
  compare_locators lefts rights (locator ∷ locators) =
      further (compare_at lefts rights locator) (compare_locators lefts rights locators)
