-- ===== src/Signature/Examples.antt =====
-- Runs and witnesses for the signature of tools/abi_artifact_parity.py.
use zynum.Prelude.{
  ℕ, zero, suc, ◌+◌, ◌%◌, ◌≡◌, ◌⊎◌, refl, String, Option, none, some, List, [], ◌∷◌, Outcome, ok,
  err, take, String-discrete, arith,
}
use zynum.Interval.{
  interval_height, insert_interval, remove_interval, balance_interval, lower_bound_interval,
  predecessor_interval, successor_interval,
}
use zynum.Atoms.{AtomBuilder, Metadata-discrete, new_builder, add, overlaps, carve, put}
use zynum.Atoms.Commit.{IsValid}
use zynum.Parse.{ParseError, parity_value, raise_if, of_field, of_atom}
use zynum.Signature.{CodeDirectory, code_header, parse_code_directory}
use zynum.Signature.Accepted.{IsSigned, parse_code_directory-IsSigned}
use zynum.Signature.Tamper.{Collision, parse_code_directory-tamper}
use zynum.Signature.Claims.{IsPartitioned, parse_code_directory-IsPartitioned}

abbrev sum : List ℕ → ℕ
sum [] = 0
sum (b ∷ bytes) = b + sum bytes

abbrev zeros : ℕ → List ℕ
zeros zero = []
zeros (suc n) = 0 ∷ zeros n

-- A weak hash of 32 bytes, and a decoder of one name.
abbrev weak_hash : List ℕ → List ℕ
weak_hash bytes = sum bytes % 256 ∷ zeros 31

abbrev weak_hex : List ℕ → String
weak_hex bytes = "00"

abbrev one_name : List ℕ → Option String
one_name bytes = some "a"

-- A signature of four bytes, whose sum is 10.
abbrev signature : List ℕ
signature =
    250 ∷ 222 ∷ 12 ∷ 192 ∷ 0 ∷ 0 ∷ 0 ∷ 142 ∷ 0 ∷ 0 ∷ 0 ∷ 1 ∷ 0 ∷ 0 ∷ 0 ∷ 0 ∷ 0 ∷ 0 ∷ 0 ∷ 20 ∷ 250
    ∷ 222 ∷ 12 ∷ 2 ∷ 0 ∷ 0 ∷ 0 ∷ 122 ∷ 0 ∷ 2 ∷ 4 ∷ 0 ∷ 0 ∷ 2 ∷ 0 ∷ 2 ∷ 0 ∷ 0 ∷ 0 ∷ 90 ∷ 0 ∷ 0 ∷ 0
    ∷ 88 ∷ 0 ∷ 0 ∷ 0 ∷ 0 ∷ 0 ∷ 0 ∷ 0 ∷ 1 ∷ 0 ∷ 0 ∷ 0 ∷ 4 ∷ 32 ∷ 2 ∷ 0 ∷ 12 ∷ 0 ∷ 0 ∷ 0 ∷ 0 ∷ 0 ∷ 0
    ∷ 0 ∷ 0 ∷ 0 ∷ 0 ∷ 0 ∷ 0 ∷ 0 ∷ 0 ∷ 0 ∷ 0 ∷ 0 ∷ 0 ∷ 0 ∷ 0 ∷ 0 ∷ 0 ∷ 0 ∷ 0 ∷ 0 ∷ 0 ∷ 0 ∷ 0 ∷ 0 ∷ 0
    ∷ 0 ∷ 0 ∷ 0 ∷ 0 ∷ 0 ∷ 0 ∷ 0 ∷ 0 ∷ 0 ∷ 0 ∷ 0 ∷ 0 ∷ 0 ∷ 0 ∷ 0 ∷ 0 ∷ 0 ∷ 0 ∷ 97 ∷ 0 ∷ 10 ∷ 0 ∷ 0
    ∷ 0 ∷ 0 ∷ 0 ∷ 0 ∷ 0 ∷ 0 ∷ 0 ∷ 0 ∷ 0 ∷ 0 ∷ 0 ∷ 0 ∷ 0 ∷ 0 ∷ 0 ∷ 0 ∷ 0 ∷ 0 ∷ 0 ∷ 0 ∷ 0 ∷ 0 ∷ 0 ∷ 0
    ∷ 0 ∷ 0 ∷ 0 ∷ 0 ∷ 0 ∷ []

abbrev signed_file : List ℕ
signed_file = 1 ∷ 2 ∷ 3 ∷ 4 ∷ signature

abbrev other_file : List ℕ
other_file = 4 ∷ 3 ∷ 2 ∷ 1 ∷ signature

abbrev forged_file : List ℕ
forged_file = 4 ∷ 3 ∷ 2 ∷ 2 ∷ signature

abbrev directory : CodeDirectory
directory = record {
  offset = 4;
  size = 142;
  version = 0x20400;
  flags = 0x20002;
  identifier = "a";
  code_limit = 4;
  code_slots = 1;
  page_size = 4096;
  hash_type = 2;
  hash_size = 32;
  cdhash = "00";
}

signed_run :
    parse_code_directory weak_hash weak_hex one_name signed_file 4 142 none ≡ ok (directory, none)
unfolding parse_code_directory raise_if of_field of_atom String-discrete
signed_run = refl

other_run :
    parse_code_directory weak_hash weak_hex one_name other_file 4 142 none ≡ ok (directory, none)
unfolding parse_code_directory raise_if of_field of_atom String-discrete
other_run = refl

forged_run :
    parse_code_directory weak_hash weak_hex one_name forged_file 4 142 none
    ≡ err (parity_value "page hash does not match signed bytes" 0 "macho.code_signature")
unfolding parse_code_directory raise_if of_field of_atom String-discrete
forged_run = refl

parse_code_directory-IsSigned_example :
    IsSigned weak_hash weak_hex one_name signed_file 4 142 directory
parse_code_directory-IsSigned_example =
    parse_code_directory-IsSigned weak_hash weak_hex one_name signed_file 4 142 none none directory
      signed_run

parse_code_directory-tamper_example : (take 4 signed_file ≡ take 4 other_file) ⊎ Collision weak_hash
parse_code_directory-tamper_example =
    parse_code_directory-tamper weak_hash weak_hex one_name signed_file other_file 4 142 none none
      none none directory directory signed_run other_run refl

abbrev builder_of : Outcome ParseError (CodeDirectory × Option AtomBuilder) → AtomBuilder
builder_of (ok (d, some b)) = b
builder_of r = new_builder [] ""

abbrev fresh_builder : AtomBuilder
fresh_builder = new_builder signed_file "macho"

claimed_builder : AtomBuilder
unfolding parse_code_directory raise_if of_field of_atom String-discrete Metadata-discrete add
    overlaps carve put insert_interval remove_interval balance_interval lower_bound_interval
    predecessor_interval successor_interval
claimed_builder =
    builder_of
      (parse_code_directory weak_hash weak_hex one_name signed_file 4 142 (some fresh_builder))

claims_run :
    parse_code_directory weak_hash weak_hex one_name signed_file 4 142 (some fresh_builder)
    ≡ ok (directory, some claimed_builder)
unfolding parse_code_directory raise_if of_field of_atom String-discrete Metadata-discrete add
    overlaps carve put insert_interval remove_interval balance_interval lower_bound_interval
    predecessor_interval successor_interval claimed_builder
claims_run = refl

fresh_builder-IsValid : IsValid fresh_builder
unfolding interval_height
fresh_builder-IsValid = record { balanced = tt; layout = omega arith }

parse_code_directory-IsPartitioned_example :
    IsPartitioned fresh_builder claimed_builder 4 142 (code_header signed_file 24)
parse_code_directory-IsPartitioned_example =
    parse_code_directory-IsPartitioned weak_hash weak_hex one_name signed_file 4 142 fresh_builder
      claimed_builder directory fresh_builder-IsValid claims_run
