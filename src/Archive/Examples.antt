-- ===== src/Archive/Examples.antt =====
-- Runs and witnesses for the archives of tools/abi_artifact_parity.py.
use zynum.Prelude.{
  ℕ, ◌≡◌, refl, String, Option, none, some, List, [], ◌∷◌, ◌++◌, Outcome, ok, err, drop, same_list,
  if◌then◌else◌, String-discrete,
}
use zynum.Atoms.Finish.{decimal}
use zynum.Interval.{
  node_count, insert_interval, remove_interval, balance_interval, lower_bound_interval,
  predecessor_interval, successor_interval,
}
use zynum.Atoms.{Metadata-discrete, new_builder, add, overlaps, carve, put}
use zynum.Fields.{parse_ascii_int, cstring}
use zynum.Parse.{range_check, ParseError, raise_if, or_raise, of_field, of_atom, text, field_le}
use zynum.Parse.Guards.{Runs}
use zynum.Archive.Table.{RanlibEntry, parse_ranlib}
use zynum.Archive.Layout.{ar_magic}
use zynum.Archive.Reader.{Opened, open_archive}
use zynum.Archive.Ranlib.{AreEntries, parse_ranlib-AreEntries}
use zynum.Archive.Ends.{open_archive-Runs}
use zynum.Archive.Opening.{IsOpened, open_archive-IsOpened}

-- A decoder of three names.
abbrev names : List ℕ → Option String
names bytes =
    if same_list bytes (95 ∷ [])
    then some "_"
    else if same_list bytes (97 ∷ [])
    then some "a"
    else if same_list bytes (95 ∷ 95 ∷ 46 ∷ 83 ∷ 89 ∷ 77 ∷ 68 ∷ 69 ∷ 70 ∷ [])
    then some "__.SYMDEF"
    else none

-- An index of one symbol, in the member at 96.
abbrev index_body : List ℕ
index_body = 8 ∷ 0 ∷ 0 ∷ 0 ∷ 0 ∷ 0 ∷ 0 ∷ 0 ∷ 96 ∷ 0 ∷ 0 ∷ 0 ∷ 2 ∷ 0 ∷ 0 ∷ 0 ∷ 95 ∷ 0 ∷ []

abbrev header_of : ℕ → ℕ → ℕ → List ℕ
header_of name tens ones =
    35 ∷ 49 ∷ 47 ∷ name ∷ 32 ∷ 32 ∷ 32 ∷ 32 ∷ 32 ∷ 32 ∷ 32 ∷ 32 ∷ 32 ∷ 32 ∷ 32 ∷ 32 ∷ 48 ∷ 32 ∷ 32
    ∷ 32 ∷ 32 ∷ 32 ∷ 32 ∷ 32 ∷ 32 ∷ 32 ∷ 32 ∷ 32 ∷ 48 ∷ 32 ∷ 32 ∷ 32 ∷ 32 ∷ 32 ∷ 48 ∷ 32 ∷ 32 ∷ 32
    ∷ 32 ∷ 32 ∷ 54 ∷ 52 ∷ 52 ∷ 32 ∷ 32 ∷ 32 ∷ 32 ∷ 32 ∷ tens ∷ ones ∷ 32 ∷ 32 ∷ 32 ∷ 32 ∷ 32 ∷ 32
    ∷ 32 ∷ 32 ∷ 96 ∷ 10 ∷ []

-- An index of 26 bytes, and a member of 3 and its padding.
abbrev archive_file : List ℕ
archive_file =
    ar_magic
    ++ (header_of 57 50 55
        ++ (95 ∷ 95 ∷ 46 ∷ 83 ∷ 89 ∷ 77 ∷ 68 ∷ 69 ∷ 70 ∷ [])
        ++ index_body
        ++ (10 ∷ [])
        ++ header_of 49 51 32
        ++ (97 ∷ 7 ∷ 8 ∷ 10 ∷ []))

parse_ranlib_run :
    parse_ranlib names index_body ((96, "a") ∷ [])
    ≡ ok (record { index = 0; symbol = "_"; string_offset = 0; member_offset = 96 } ∷ [])
unfolding parse_ranlib raise_if or_raise of_field text cstring
parse_ranlib_run = refl

abbrev index_entries : List RanlibEntry
index_entries = record { index = 0; symbol = "_"; string_offset = 0; member_offset = 96 } ∷ []

parse_ranlib-AreEntries_example :
    (8 ≡ field_le index_body 0 4)
    × AreEntries names index_body (drop 16 index_body) ((96, "a") ∷ []) 0 index_entries
parse_ranlib-AreEntries_example =
    parse_ranlib-AreEntries names index_body ((96, "a") ∷ []) index_entries parse_ranlib_run

abbrev opened_of : Outcome ParseError Opened → Opened
opened_of (ok o) = o
opened_of (err e) = record { members = []; ranlib = []; builder = new_builder [] "" }

opened : Opened
unfolding open_archive range_check raise_if or_raise of_field of_atom text cstring parse_ascii_int
    String-discrete Metadata-discrete add overlaps carve put insert_interval remove_interval
    balance_interval lower_bound_interval predecessor_interval successor_interval
opened = opened_of (open_archive names archive_file)

opened_run : open_archive names archive_file ≡ ok opened
unfolding open_archive range_check raise_if or_raise of_field of_atom text cstring parse_ascii_int
    String-discrete Metadata-discrete add overlaps carve put insert_interval remove_interval
    balance_interval lower_bound_interval predecessor_interval successor_interval opened decimal
    node_count
opened_run = refl

open_archive-IsOpened_example : IsOpened names archive_file opened
open_archive-IsOpened_example = open_archive-IsOpened names archive_file opened opened_run

open_archive-Runs_example : Runs (open_archive names archive_file)
open_archive-Runs_example = open_archive-Runs names archive_file
