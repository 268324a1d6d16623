-- ===== src/Parity/Compare.antt =====
-- tools/abi_artifact_parity.py, `canonicalize_atoms` and `_compare_parsed`.
use zynum.Prelude.{
  ℕ, String, Option, List, [], ◌∷◌, ◌++◌, map, if◌then◌else◌, same, string_eq, Outcome, ok, ◌>>=◌,
  length, sorted, distinct,
}
use zynum.Atoms.Finish.{ByteAtom}
use zynum.Parity.Axes.{CompareError, normalized_items, equal_dicts}
use zynum.Parity.Records.{
  texts_eq, payload_eq, shape_eq, SymbolKey, symbol_key_eq, ProvenanceLocator, Artifact, hex,
  hex_of, CanonicalValue, Comparison, fixed, free,
}
use zynum.Parity.Pairing.{by_locator, in_both, itself, unpaired_atoms, unpaired_failures, is_filled}
use zynum.Parity.Evidence.{unless, compare_locators}
use zynum.Parity.Symbols.{symbol_axes}

abbrev pub provenance_shape : List ProvenanceLocator → List (String × String)
provenance_shape [] = []
provenance_shape (p ∷ ps) = (p.kind, p.expected_basename) ∷ provenance_shape ps

abbrev pub verdict_of : List String → String
verdict_of failures = if is_filled failures then "fail" else "pass"

-- SHA-256 in hexadecimal digits, `canonical_json_bytes` of the canonical values, `repr` of a key, and
-- the second group of `CACHE_OBJECT_RE.fullmatch` on a name, are hashlib's, json's, the
-- interpreter's and re's.

module _ (sha256 : List ℕ → String) (json_bytes : List CanonicalValue → List ℕ) where
  abbrev pub canonical_value : ByteAtom → CanonicalValue
  canonical_value a =
      if same a.role "invariant"
      then fixed a.locator a.role (sha256 a.payload) a.size
      else free a.locator a.role a.locator a.depends_on (hex_of a.canonical_payload)

  unfoldable pub canonicalize_atoms : List ByteAtom → List ℕ
  unfolding hex
  canonicalize_atoms atoms =
      json_bytes (map canonical_value (sorted (λ (a : ByteAtom). a.locator) atoms))

  abbrev pub canonical_digest : List ByteAtom → String
  canonical_digest atoms = sha256 (canonicalize_atoms atoms)

module _ (sha256 : List ℕ → String) (json_bytes : List CanonicalValue → List ℕ)
    (repr : SymbolKey → String) (cache_object : String → Option String) where
  -- `_compare_parsed`. A dictionary of failures keeps each once.
  unfoldable pub compare_parsed : String → Artifact → Artifact → Outcome CompareError Comparison
  unfolding compare_locators canonicalize_atoms symbol_axes normalized_items equal_dicts
  compare_parsed kind left right = do
    let lefts = by_locator left.atoms
    let rights = by_locator right.atoms
    let unpaired = unpaired_atoms lefts rights
    let evidence = compare_locators sha256 lefts rights (sorted itself (in_both lefts rights))
    left_axes ← normalized_items left.structured_axes
    right_axes ← normalized_items right.structured_axes
    let symbols = symbol_axes repr cache_object left.symbols right.symbols
    let axes_equal = equal_dicts left_axes right_axes
    let left_digest = canonical_digest sha256 json_bytes left.atoms
    let right_digest = canonical_digest sha256 json_bytes right.atoms
    let failures = distinct (
        unpaired_failures unpaired
        ++ (evidence.failures
            ++ (unless axes_equal "structured axes differ"
                ++ (unless symbols.order_equal "symbol order differs"
                    ++ (unless symbols.multiset_equal "symbol multiset differs"
                        ++ (unless (same left_digest right_digest) "canonical digests differ"
                            ++ unless
                                (same (provenance_shape left.provenance)
                                  (provenance_shape right.provenance))
                                "provenance locator kind or basename differs"))))))
    ok (record {
      artifact_kind = kind;
      left_label = left.label;
      right_label = right.label;
      left_raw_sha256 = sha256 left.raw;
      right_raw_sha256 = sha256 right.raw;
      left_size = length left.raw;
      right_size = length right.raw;
      axes_equal = axes_equal;
      left_axes = left_axes;
      right_axes = right_axes;
      symbol_axes = symbols;
      allowed_edit_atoms = evidence.allowed_edits;
      derived_fields = evidence.derived_fields;
      left_canonical_digest = left_digest;
      right_canonical_digest = right_digest;
      uncovered_left_bytes = [];
      uncovered_right_bytes = [];
      unpaired_atoms = unpaired;
      invalid_derived_fields = evidence.invalid_derived;
      left_provenance = left.provenance;
      right_provenance = right.provenance;
      verdict = verdict_of failures;
      failures = failures;
    })
