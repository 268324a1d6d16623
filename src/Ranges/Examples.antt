-- ===== src/Ranges/Examples.antt =====
-- Runs and witnesses for `_check_disjoint` of tools/abi_artifact_parity.py.
use zynum.Prelude.{◌≡◌, ◌↔◌, refl, List, [], ◌∷◌, All, ok, err}
use zynum.Parse.{parity, raise_if, of_atom}
use zynum.Ranges.{Range, check_disjoint}
use zynum.Ranges.Disjoint.{IsInside, AreApart}
use zynum.Ranges.Accepted.{check_disjoint_lem}

abbrev tables : List Range
tables =
    record { start = 8; size = 4; name = "strings" }
    ∷ record { start = 2; size = 0; name = "empty" }
    ∷ record { start = 0; size = 8; name = "symbols" }
    ∷ []

accepted_run : check_disjoint 12 tables ≡ ok tt
unfolding check_disjoint raise_if of_atom
accepted_run = refl

overlap_run :
    check_disjoint 12 (record { start = 7; size = 4; name = "hashes" } ∷ tables)
    ≡ err (parity "overlaps symbols" "hashes")
unfolding check_disjoint raise_if of_atom
overlap_run = refl

check_disjoint_lem_example :
    (check_disjoint 12 tables ≡ ok tt) ↔ (All (λ r. IsInside 12 r) tables × AreApart tables)
check_disjoint_lem_example = check_disjoint_lem 12 tables
