-- ===== src/Parity/Provenance.antt =====
-- tools/abi_artifact_parity.py, `bind_provenance`, and `compare_dynamic_artifact_pair` on artifacts
-- that were read.
use Prim.Native.Char.{Char, code}
use Prim.Native.String.{[] as empty_text, ◌∷◌ as ◌∷ₜ◌}
use zynum.Prelude.{
  ℕ, zero, suc, String, Bool, true, false, ◌||◌, ◌&&◌, not, Option, none, some, List, [], ◌∷◌, ◌++◌,
  leb, ◌==◌, if◌then◌else◌, Outcome, err,
}
use zynum.Prelude.Int.{ℤ, pos}
use zynum.Parity.Axes.{CompareError, not_dylib, same_int}
use zynum.Parity.Records.{Artifact, CanonicalValue, Comparison, ProvenanceLocator, SymbolKey}
use zynum.Parity.Evidence.{unless}
use zynum.Parity.Compare.{verdict_of, compare_parsed}

-- `[0-9a-f]`.
abbrev is_hex_digit : Char → Bool
is_hex_digit c = (leb 48 (code c) && leb (code c) 57) || (leb 97 (code c) && leb (code c) 102)

-- `[0-9a-f]{count}` on a whole text.
abbrev pub is_lower_hex : ℕ → String → Bool
is_lower_hex zero empty_text = true
is_lower_hex (suc count) (c ∷ₜ text) = is_hex_digit c && is_lower_hex count text
is_lower_hex count text = false

pub record BoundProvenance : Type 0 where
  pub locator : ProvenanceLocator
  pub exists : Bool
  pub mtime_seconds : Option ℤ
  pub sha256 : Option String
  pub verdict : String
  pub failures : List String

abbrev pub mtime_failures : Option ℕ → Option ℤ → List String
mtime_failures none mtime = []
mtime_failures (some expected) none = "mtime was not supplied" ∷ []
mtime_failures (some expected) (some mtime) =
    unless (same_int mtime (pos expected)) "mtime does not match N_OSO n_value"

abbrev pub sha256_failures : Option String → List String
sha256_failures none = []
sha256_failures (some digest) =
    unless (is_lower_hex 64 digest) "sha256 is not 64 lowercase hexadecimal characters"

unfoldable pub bind_provenance :
    ProvenanceLocator → Bool → Option ℤ → Option String → BoundProvenance
bind_provenance locator exists mtime_seconds sha256 =
    let failures =
      unless exists "path does not exist"
      ++ (mtime_failures locator.expected_mtime_seconds mtime_seconds ++ sha256_failures sha256) in
    record {
      locator = locator;
      exists = exists;
      mtime_seconds = mtime_seconds;
      sha256 = sha256;
      verdict = verdict_of failures;
      failures = failures;
    }

-- An artifact with the file type that its header has.
pub record MachoArtifact : Type 0 where
  pub filetype : ℕ
  pub artifact : Artifact

abbrev pub mh_dylib : ℕ
mh_dylib = 6

module _ (sha256 : List ℕ → String) (json_bytes : List CanonicalValue → List ℕ)
    (repr : SymbolKey → String) (cache_object : String → Option String) where
  unfoldable pub compare_dynamic_artifact_pair :
      MachoArtifact → MachoArtifact → Outcome CompareError Comparison
  unfolding compare_parsed
  compare_dynamic_artifact_pair left right =
      if not (left.filetype == mh_dylib) || not (right.filetype == mh_dylib)
      then err not_dylib
      else compare_parsed sha256 json_bytes repr cache_object "dynamic" left.artifact right.artifact
