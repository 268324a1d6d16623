-- ===== src/Fields/Examples.antt =====
-- Runs and witnesses for the fields that tools/abi_artifact_parity.py reads.
use zynum.Prelude.{inl, ℕ, ◌≡◌, ◌↔◌, refl, List, [], ◌∷◌, ◌++◌, arith, ok, err}
use zynum.Fields.{
  parse_ascii_int, invalid_archive_number, uleb, cstring, non_minimal_uleb, oversized_uleb,
  unterminated_string,
}
use zynum.Fields.Canonical.{IsEncoded, uleb_lem}
use zynum.Fields.AsciiInt.{digits_of, spaces, parse_ascii_int-digits_of}
use zynum.Fields.Cstring.{IsTerminated, cstring_lem}

abbrev field_bytes : List ℕ
field_bytes = 7 ∷ 229 ∷ 142 ∷ 38 ∷ 97 ∷ 98 ∷ 0 ∷ 99 ∷ []

uleb_run : uleb field_bytes 1 8 "field" ≡ ok (624485, 4)
unfolding uleb
uleb_run = refl

padded_run : uleb (129 ∷ 0 ∷ []) 0 2 "field" ≡ err (non_minimal_uleb "field")
unfolding uleb
padded_run = refl

cut_run : uleb field_bytes 1 3 "field" ≡ err (oversized_uleb "field")
unfolding uleb
cut_run = refl

cstring_run : cstring field_bytes 4 8 "name" ≡ ok (97 ∷ 98 ∷ [], 7)
unfolding cstring
cstring_run = refl

unterminated_run : cstring field_bytes 7 8 "name" ≡ err (unterminated_string "name")
unfolding cstring
unterminated_run = refl

uleb_lem_example :
    (uleb field_bytes 1 8 "field" ≡ ok (624485, 4)) ↔ IsEncoded field_bytes 1 8 624485 4
uleb_lem_example = uleb_lem field_bytes 1 8 "field" 624485 4 (
  omega arith,
  (
    omega arith,
    (omega arith, (omega arith, (omega arith, (omega arith, (omega arith, (omega arith, tt)))))),
  ),
)

cstring_lem_example :
    (cstring field_bytes 4 8 "name" ≡ ok (97 ∷ 98 ∷ [], 7))
    ↔ IsTerminated field_bytes 4 8 (97 ∷ 98 ∷ []) 7
cstring_lem_example = cstring_lem field_bytes 4 8 "name" (97 ∷ 98 ∷ []) 7

number_run : parse_ascii_int (48 ∷ 55 ∷ 49 ∷ 32 ∷ 32 ∷ []) 8 "mode" ≡ ok 57
unfolding parse_ascii_int
number_run = refl

digit_run : parse_ascii_int (49 ∷ 56 ∷ []) 8 "mode" ≡ err (invalid_archive_number "mode")
unfolding parse_ascii_int
digit_run = refl

parse_ascii_int-digits_of_example :
    parse_ascii_int (digits_of 10 10 1234 ++ spaces 6) 10 "size" ≡ ok 1234
parse_ascii_int-digits_of_example =
    parse_ascii_int-digits_of 10 10 1234 6 "size" (inl (refl, omega arith)) (omega arith)
      (omega arith)
