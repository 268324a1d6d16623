-- ===== src/Parity/Examples.antt =====
-- Runs and witnesses for the comparison of tools/abi_artifact_parity.py.
use native.Mathlib.Decide.{ℕ_discrete}
use zynum.Prelude.{
  ℕ, ◌+◌, ◌%◌, ◌≡◌, ◌↔◌, refl, String, true, false, Option, none, some, List, [], ◌∷◌, Outcome, ok,
  err, length, String-discrete,
}
use zynum.Prelude.Int.{pos}
use zynum.Atoms.Finish.{ByteAtom, decimal}
use zynum.Parity.Axes.{
  Items, number, text_value, list_of, dict_of, end_of_items, item, end_of_values, value,
  normalized_items, equal_dicts, equal_axes, normalized_axes, without_place, normalized_directories,
  directories_without_place, not_dylib,
}
use zynum.Parity.Records.{
  Artifact, CanonicalValue, Comparison, ProvenanceLocator, SymbolKey, SymbolRecord, Texts-discrete,
  Payload-discrete, Shape-discrete, SymbolKey-discrete, hex,
}
use zynum.Parity.Evidence.{compare_locators, compare_atom, derived_evidence}
use zynum.Parity.Symbols.{comparison_key, symbol_axes}
use zynum.Parity.Compare.{compare_parsed, canonicalize_atoms}
use zynum.Parity.Verdict.{AtParity}
use zynum.Parity.Complete.{compare_parsed_lem}
use zynum.Parity.Provenance.{
  MachoArtifact, mh_dylib, bind_provenance, compare_dynamic_artifact_pair,
}
use zynum.Parity.Bound.{compare_dynamic_artifact_pair_lem}

abbrev sum : List ℕ → ℕ
sum [] = 0
sum (b ∷ bytes) = b + sum bytes

-- A weak digest, and a weak text of canonical values.
abbrev weak_sha256 : List ℕ → String
weak_sha256 bytes = decimal (sum bytes % 256)

abbrev weak_json : List CanonicalValue → List ℕ
weak_json values = length values ∷ []

abbrev name_of : SymbolKey → String
name_of k = k.name

abbrev no_object : String → Option String
no_object name = none

abbrev header_atom : ByteAtom
header_atom = record {
  locator = "macho.header";
  role = "invariant";
  offset = 0;
  size = 2;
  payload = 207 ∷ 250 ∷ [];
  depends_on = [];
  note = none;
  canonical_payload = none;
}

abbrev path_atom : ℕ → ByteAtom
path_atom byte = record {
  locator = "dwarf.path";
  role = "allowed_payload";
  offset = 2;
  size = 1;
  payload = byte ∷ [];
  depends_on = [];
  note = none;
  canonical_payload = none;
}

abbrev hash_atom : ℕ → ByteAtom
hash_atom byte = record {
  locator = "code.hash";
  role = "derived_field";
  offset = 3;
  size = 1;
  payload = byte ∷ [];
  depends_on = "dwarf.path" ∷ [];
  note = none;
  canonical_payload = none;
}

abbrev symbol : SymbolRecord
symbol = record {
  index = 0;
  name = "_dgemm";
  base_type = "section";
  section = 1;
  external = true;
  private_external = false;
  stab = 0;
  desc = 0;
  value = 16;
  type_code = 15;
}

abbrev cache_path : ProvenanceLocator
cache_path = record {
  kind = "n_oso";
  source_locator = "dwarf.path";
  path = "/c/a.o";
  path_offset = 2;
  path_size = 1;
  expected_basename = "a.o";
  expected_mtime_seconds = some 12;
}

abbrev axes_of : ℕ → Items
axes_of size = item "format" (text_value "Mach-O") (item "size" (number (pos size)) end_of_items)

-- An artifact by the byte of its path, that of its hash, and a size that is not compared.
abbrev artifact_of : ℕ → ℕ → ℕ → Artifact
artifact_of path_byte hash_byte size = record {
  raw = 207 ∷ 250 ∷ path_byte ∷ hash_byte ∷ [];
  label = "artifact";
  structured_axes = axes_of size;
  symbols = symbol ∷ [];
  atoms = header_atom ∷ path_atom path_byte ∷ hash_atom hash_byte ∷ [];
  provenance = cache_path ∷ [];
}

abbrev library_of : ℕ → ℕ → ℕ → MachoArtifact
library_of path_byte hash_byte size = record {
  filetype = 6;
  artifact = artifact_of path_byte hash_byte size;
}

abbrev verdict_and_failures :
    Outcome zynum.Parity.Axes.CompareError Comparison → String × List String
verdict_and_failures (ok c) = (c.verdict, c.failures)
verdict_and_failures (err e) = ("raised", [])

-- A changed path lets the hash change.
pass_run :
    verdict_and_failures (
      compare_parsed weak_sha256 weak_json name_of no_object "dynamic"
        (artifact_of 3 4 7)
        (artifact_of 5 6 8))
    ≡ ("pass", [])
unfolding compare_parsed compare_locators compare_atom derived_evidence canonicalize_atoms
    symbol_axes comparison_key hex normalized_items equal_dicts String-discrete Texts-discrete
    Payload-discrete Shape-discrete SymbolKey-discrete decimal ℕ_discrete
pass_run = refl

-- The hash alone may not.
fail_run :
    verdict_and_failures (
      compare_parsed weak_sha256 weak_json name_of no_object "dynamic"
        (artifact_of 3 4 7)
        (artifact_of 3 6 8))
    ≡ ("fail", "derived atom changed without a changed allowed base: code.hash" ∷ [])
unfolding compare_parsed compare_locators compare_atom derived_evidence canonicalize_atoms
    symbol_axes comparison_key hex normalized_items equal_dicts String-discrete Texts-discrete
    Payload-discrete Shape-discrete SymbolKey-discrete decimal ℕ_discrete
fail_run = refl

compare_parsed_lem_example :
    AtParity weak_sha256 weak_json name_of no_object (artifact_of 3 4 7) (artifact_of 5 6 8) ↔ (
      (c : Comparison) × (compare_parsed weak_sha256 weak_json name_of no_object "dynamic"
          (artifact_of 3 4 7)
          (artifact_of 5 6 8)
        ≡ ok c)
      × (c.verdict ≡ "pass"))
compare_parsed_lem_example =
    compare_parsed_lem weak_sha256 weak_json name_of no_object "dynamic" (artifact_of 3 4 7)
      (artifact_of 5 6 8)

compare_dynamic_artifact_pair_lem_example :
    (((library_of 3 4 7).filetype ≡ mh_dylib)
      × (((library_of 5 6 8).filetype ≡ mh_dylib)
          × AtParity weak_sha256 weak_json name_of no_object
              (artifact_of 3 4 7)
              (artifact_of 5 6 8)))
    ↔ ((c : Comparison) × (compare_dynamic_artifact_pair weak_sha256 weak_json name_of no_object
            (library_of 3 4 7)
            (library_of 5 6 8)
          ≡ ok c)
        × (c.verdict ≡ "pass"))
compare_dynamic_artifact_pair_lem_example =
    compare_dynamic_artifact_pair_lem weak_sha256 weak_json name_of no_object (library_of 3 4 7)
      (library_of 5 6 8)

digest_run :
    (bind_provenance cache_path true (some (pos 13)) (some "0a")).failures
    ≡ "mtime does not match N_OSO n_value" ∷ "sha256 is not 64 lowercase hexadecimal characters"
      ∷ []
unfolding bind_provenance
digest_run = refl

-- A list of directories, one with its place.
abbrev directory_axes : Items
directory_axes = item "uuid" (number (pos 1)) (
    item "dwarf_directories"
      (list_of (
        value
          (dict_of
            (item "path" (text_value "/b") (item "unit_index" (number (pos 0)) end_of_items)))
          end_of_values))
      end_of_items)

abbrev placeless_axes : Items
placeless_axes =
    item "dwarf_directories"
      (list_of (value (dict_of (item "unit_index" (number (pos 0)) end_of_items)) end_of_values))
      end_of_items

normalized_run : normalized_items directory_axes ≡ ok placeless_axes
unfolding normalized_items normalized_directories directories_without_place without_place
    String-discrete
normalized_run = refl
