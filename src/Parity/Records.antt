-- ===== src/Parity/Records.antt =====
-- tools/abi_artifact_parity.py: what the comparison of two artifacts reads and returns.
use native.Mathlib.Decide.{ℕ_discrete}
use zynum.Prelude.{
  ℕ, ◌/◌, ◌%◌, String, ◌<>◌, Bool, Option, none, some, List, [], ◌∷◌, Eq, String-discrete,
  string_eq, get_elem?,
}
use zynum.Prelude.Int.{ℤ}
use zynum.Atoms.Finish.{ByteAtom}
use zynum.Parity.Axes.{Items}

unfoldable pub Texts-discrete : Discrete (List String)
unfolding String-discrete
Texts-discrete = hlevel String-discrete

unfoldable pub Payload-discrete : Discrete (Option (List ℕ))
Payload-discrete = hlevel ℕ_discrete

unfoldable pub Shape-discrete : Discrete (List (String × String))
unfolding String-discrete
Shape-discrete = hlevel String-discrete

instance abbrev pub texts_eq : Eq (List String)
texts_eq = record { dec = Texts-discrete }

instance abbrev pub payload_eq : Eq (Option (List ℕ))
payload_eq = record { dec = Payload-discrete }

instance abbrev pub shape_eq : Eq (List (String × String))
shape_eq = record { dec = Shape-discrete }

-- What `comparison_key` returns.
pub record SymbolKey : Type 0 where
  pub name : String
  pub base_type : String
  pub section : ℕ
  pub external : Bool
  pub private_external : Bool
  pub stab : ℕ
  pub desc : ℕ
  pub type_code : ℕ

unfoldable pub SymbolKey-discrete : Discrete SymbolKey
unfolding String-discrete
SymbolKey-discrete = hlevel (String-discrete, ℕ_discrete)

instance abbrev pub symbol_key_eq : Eq SymbolKey
symbol_key_eq = record { dec = SymbolKey-discrete }

pub record SymbolRecord : Type 0 where
  pub index : ℕ
  pub name : String
  pub base_type : String
  pub section : ℕ
  pub external : Bool
  pub private_external : Bool
  pub stab : ℕ
  pub desc : ℕ
  pub value : ℕ
  pub type_code : ℕ

pub record ProvenanceLocator : Type 0 where
  pub kind : String
  pub source_locator : String
  pub path : String
  pub path_offset : ℕ
  pub path_size : ℕ
  pub expected_basename : String
  pub expected_mtime_seconds : Option ℕ

-- What the comparison reads of a `MachOArtifact` or an `ArchiveArtifact`.
pub record Artifact : Type 0 where
  pub raw : List ℕ
  pub label : String
  pub structured_axes : Items
  pub symbols : List SymbolRecord
  pub atoms : List ByteAtom
  pub provenance : List ProvenanceLocator

abbrev hex_names : List String
hex_names =
    "0" ∷ "1" ∷ "2" ∷ "3" ∷ "4" ∷ "5" ∷ "6" ∷ "7" ∷ "8" ∷ "9" ∷ "a" ∷ "b" ∷ "c" ∷ "d" ∷ "e" ∷ "f"
    ∷ []

abbrev hex_digit : ℕ → String
hex_digit d = elim (get_elem? hex_names d) [ none ↦ "" | some s ↦ s ]

-- `bytes.hex()`.
unfoldable pub hex : List ℕ → String
hex [] = ""
hex (b ∷ bytes) = hex_digit (b / 16) <> (hex_digit (b % 16) <> hex bytes)

abbrev pub hex_of : Option (List ℕ) → Option String
hex_of none = none
hex_of (some bytes) = some (hex bytes)

-- `ByteAtom.json`, where an absent key is an empty list or no value.
pub record AtomJson : Type 0 where
  pub locator : String
  pub role : String
  pub offset : ℕ
  pub size : ℕ
  pub sha256 : String
  pub depends_on : List String
  pub note : Option String
  pub canonical_payload_hex : Option String
  pub canonical_payload_sha256 : Option String

pub record AllowedEdit : Type 0 where
  pub locator : String
  pub left : AtomJson
  pub right : AtomJson
  pub changed : Bool
  pub byte_difference_count : ℕ
  pub size_delta : ℤ

pub record DerivedField : Type 0 where
  pub locator : String
  pub role : String
  pub left : AtomJson
  pub right : AtomJson
  pub changed : Bool
  pub byte_difference_count : ℕ
  pub size_delta : ℤ
  pub changed_dependencies : List String
  pub canonical_payload_equal : Bool
  pub valid : Bool

-- `canonicalize_atoms`: the dictionary of an atom, before it is written as JSON.
pub data CanonicalValue : Type 0 where
  fixed : String → String → String → ℕ → CanonicalValue
  free : String → String → String → List String → Option String → CanonicalValue

pub record SymbolEntry : Type 0 where
  pub key : SymbolKey
  pub entry_count : ℕ

pub record SymbolAxes : Type 0 where
  pub order_equal : Bool
  pub multiset_equal : Bool
  pub left_count : ℕ
  pub right_count : ℕ
  pub left_only : List SymbolEntry
  pub right_only : List SymbolEntry

pub record Comparison : Type 0 where
  pub artifact_kind : String
  pub left_label : String
  pub right_label : String
  pub left_raw_sha256 : String
  pub right_raw_sha256 : String
  pub left_size : ℕ
  pub right_size : ℕ
  pub axes_equal : Bool
  pub left_axes : Items
  pub right_axes : Items
  pub symbol_axes : SymbolAxes
  pub allowed_edit_atoms : List AllowedEdit
  pub derived_fields : List DerivedField
  pub left_canonical_digest : String
  pub right_canonical_digest : String
  pub uncovered_left_bytes : List ℕ
  pub uncovered_right_bytes : List ℕ
  pub unpaired_atoms : List String
  pub invalid_derived_fields : List String
  pub left_provenance : List ProvenanceLocator
  pub right_provenance : List ProvenanceLocator
  pub verdict : String
  pub failures : List String
