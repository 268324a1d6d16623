-- ===== src/Parity/Bound.antt =====
-- What `bind_provenance` and `compare_dynamic_artifact_pair` of tools/abi_artifact_parity.py decide.
use zynum.Prelude.{
  ℕ, ◌≡◌, ◌↔◌, String, Bool, true, ◌||◌, not, Option, some, List, ◌==◌, ==→eq, eq→==, not-false,
  ||-false, Bool-cases, inl, inr, ok,
}
use zynum.Prelude.Int.{ℤ, pos}
use zynum.Parity.Records.{CanonicalValue, Comparison, ProvenanceLocator, SymbolKey}
use zynum.Parity.Verdict.{AtParity}
use zynum.Parity.Complete.{compare_parsed_lem}
use zynum.Parity.Provenance.{MachoArtifact, is_lower_hex, mh_dylib, compare_dynamic_artifact_pair}

-- The facts that a caller supplies fit a locator.
pub record IsBound (locator : ProvenanceLocator) (exists : Bool) (mtime : Option ℤ)
    (sha256 : Option String) : Type 0 where
  pub there : exists ≡ true
  pub on_time : (m : ℕ) → locator.expected_mtime_seconds ≡ some m → mtime ≡ some (pos m)
  pub digest : (d : String) → sha256 ≡ some d → is_lower_hex 64 d ≡ true

module _ (sha256 : List ℕ → String) (json_bytes : List CanonicalValue → List ℕ)
    (repr : SymbolKey → String) (cache_object : String → Option String) where
  -- The comparison of two dynamic artifacts returns with the verdict "pass" exactly if both are
  -- dynamic libraries and they are at parity.
  pub compare_dynamic_artifact_pair_lem :
      (left right : MachoArtifact)
      → ((left.filetype ≡ mh_dylib)
          × ((right.filetype ≡ mh_dylib)
              × AtParity sha256 json_bytes repr cache_object left.artifact right.artifact))
        ↔ ((c : Comparison) × (compare_dynamic_artifact_pair sha256 json_bytes repr cache_object
                left right
              ≡ ok c)
            × (c.verdict ≡ "pass"))
  unfolding compare_dynamic_artifact_pair
  compare_dynamic_artifact_pair_lem left right =
      let parity =
        compare_parsed_lem sha256 json_bytes repr cache_object "dynamic" left.artifact
          right.artifact in
      (
        λ (l, (r, p)).
            let (c, run, pass) = parity.0 p in
            (
              c,
              rw (eq→== left.filetype mh_dylib l) (rw (eq→== right.filetype mh_dylib r) run),
              pass,
            ),
        λ (c, run, pass).
            elim (Bool-cases
              (not (left.filetype == mh_dylib) || not (right.filetype == mh_dylib))) [
                | inl e ↦ let k = rw e at run in absurd (cc k)
                | inr e ↦
                    let (l, r) = ||-false _ _ e in
                    let k = rw e at run in
                    (==→eq _ _ (not-false _ l), (==→eq _ _ (not-false _ r), parity.1 (c, k, pass)))
              ],
      )
