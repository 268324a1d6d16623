-- ===== src/Dwarf/Examples.antt =====
-- Runs and witnesses for the line tables of tools/abi_artifact_parity.py.
use zynum.Prelude.{
  ℕ, ◌≡◌, refl, String, Option, none, some, List, [], ◌∷◌, Outcome, ok, err, same_list,
  if◌then◌else◌, true, false, String-discrete, arith,
}
use zynum.Interval.{
  interval_height, node_count, insert_interval, remove_interval, balance_interval,
  lower_bound_interval, predecessor_interval, successor_interval,
}
use zynum.Fields.{cstring, uleb}
use zynum.Atoms.{AtomBuilder, Metadata-discrete, new_builder, add, overlaps, carve, put}
use zynum.Atoms.Commit.{IsValid}
use zynum.Atoms.Finish.{decimal}
use zynum.Parse.{ParseError, parity_value, raise_if, of_field, of_atom, text, range_check}
use zynum.Parse.Guards.{Runs}
use zynum.Dwarf.Cache.{is_cache_directory}
use zynum.Dwarf.Tables.{LineSection}
use zynum.Dwarf.Lines.{LineTable, the_only, parse_dwarf_v4_debug_line}
use zynum.Dwarf.Accepted.{IsLineTable, parse_dwarf_v4_debug_line-IsLineTable}
use zynum.Dwarf.Claims.{IsReleased, parse_dwarf_v4_debug_line-IsReleased}
use zynum.Dwarf.Ends.{parse_dwarf_v4_debug_line-Runs}

cache_run : is_cache_directory "/global-cache/b/aaaaaaaaaaaaaaaaaaaaaaaaaaaaaaaa" ≡ true
unfolding is_cache_directory String-discrete
cache_run = refl

nested_run : is_cache_directory "/home/u/global-cache/b/aaaaaaaaaaaaaaaaaaaaaaaaaaaaaaaa" ≡ true
unfolding is_cache_directory String-discrete
nested_run = refl

relative_run : is_cache_directory "global-cache/b/aaaaaaaaaaaaaaaaaaaaaaaaaaaaaaaa" ≡ false
unfolding is_cache_directory String-discrete
relative_run = refl

-- A section of one unit, with one directory and one file.
abbrev line_bytes : List ℕ
line_bytes =
    78 ∷ 0 ∷ 0 ∷ 0 ∷ 4 ∷ 0 ∷ 72 ∷ 0 ∷ 0 ∷ 0 ∷ 1 ∷ 1 ∷ 1 ∷ 251 ∷ 14 ∷ 1 ∷ 47 ∷ 103 ∷ 108 ∷ 111 ∷ 98
    ∷ 97 ∷ 108 ∷ 45 ∷ 99 ∷ 97 ∷ 99 ∷ 104 ∷ 101 ∷ 47 ∷ 98 ∷ 47 ∷ 97 ∷ 97 ∷ 97 ∷ 97 ∷ 97 ∷ 97 ∷ 97
    ∷ 97 ∷ 97 ∷ 97 ∷ 97 ∷ 97 ∷ 97 ∷ 97 ∷ 97 ∷ 97 ∷ 97 ∷ 97 ∷ 97 ∷ 97 ∷ 97 ∷ 97 ∷ 97 ∷ 97 ∷ 97 ∷ 97
    ∷ 97 ∷ 97 ∷ 97 ∷ 97 ∷ 97 ∷ 97 ∷ 0 ∷ 0 ∷ 98 ∷ 117 ∷ 105 ∷ 108 ∷ 116 ∷ 105 ∷ 110 ∷ 46 ∷ 122 ∷ 105
    ∷ 103 ∷ 0 ∷ 1 ∷ 0 ∷ 0 ∷ 0 ∷ []

abbrev two_names : List ℕ → Option String
two_names bytes =
    if same_list bytes (98 ∷ 117 ∷ 105 ∷ 108 ∷ 116 ∷ 105 ∷ 110 ∷ 46 ∷ 122 ∷ 105 ∷ 103 ∷ [])
    then some "builtin.zig"
    else some "/global-cache/b/aaaaaaaaaaaaaaaaaaaaaaaaaaaaaaaa"

abbrev line_section : LineSection
line_section = record {
  decode = two_names;
  bytes = line_bytes;
  file_offset = 0;
  locator_prefix = "dwarf";
}

abbrev other_section : LineSection
other_section = record line_section { decode = λ bytes. some "x" }

abbrev fresh : AtomBuilder
fresh = new_builder line_bytes "macho"

abbrev table_of : Outcome ParseError LineTable → LineTable
table_of (ok t) = t
table_of (err e) = record {
  directories = [];
  files = [];
  builder = none;
  provenance = record {
    kind = "";
    source_locator = "";
    path = "";
    path_offset = 0;
    path_size = 0;
    expected_basename = "";
    expected_mtime_seconds = none;
  };
}

line_table : LineTable
unfolding parse_dwarf_v4_debug_line range_check raise_if of_field of_atom text cstring uleb
    String-discrete Metadata-discrete add overlaps carve put insert_interval remove_interval
    balance_interval lower_bound_interval predecessor_interval successor_interval decimal node_count
    the_only
line_table =
    table_of (parse_dwarf_v4_debug_line line_section "dwarf.global_cache_directory" (some fresh))

line_run :
    parse_dwarf_v4_debug_line line_section "dwarf.global_cache_directory" (some fresh)
    ≡ ok line_table
unfolding parse_dwarf_v4_debug_line range_check raise_if of_field of_atom text cstring uleb
    String-discrete Metadata-discrete add overlaps carve put insert_interval remove_interval
    balance_interval lower_bound_interval predecessor_interval successor_interval decimal node_count
    the_only line_table
line_run = refl

missing_run :
    parse_dwarf_v4_debug_line other_section "dwarf.global_cache_directory" none
    ≡ err (parity_value "expected one global-cache b/<32hex> directory, found" 0 "dwarf")
unfolding parse_dwarf_v4_debug_line range_check raise_if of_field of_atom text cstring uleb
    String-discrete Metadata-discrete add overlaps carve put insert_interval remove_interval
    balance_interval lower_bound_interval predecessor_interval successor_interval decimal node_count
    the_only
missing_run = refl

parse_dwarf_v4_debug_line-IsLineTable_example : IsLineTable line_section line_table
parse_dwarf_v4_debug_line-IsLineTable_example =
    parse_dwarf_v4_debug_line-IsLineTable line_section "dwarf.global_cache_directory" (some fresh)
      line_table line_run

fresh-IsValid : IsValid fresh
unfolding interval_height
fresh-IsValid = record { balanced = tt; layout = omega arith }

parse_dwarf_v4_debug_line-IsReleased_example :
    (b' : AtomBuilder) × (line_table.builder ≡ some b')
    × IsReleased fresh b' line_table.provenance.path_offset line_table.provenance.path_size
parse_dwarf_v4_debug_line-IsReleased_example =
    parse_dwarf_v4_debug_line-IsReleased line_section "dwarf.global_cache_directory" fresh
      line_table fresh-IsValid line_run

parse_dwarf_v4_debug_line-Runs_example :
    Runs (parse_dwarf_v4_debug_line line_section "dwarf.global_cache_directory" none)
parse_dwarf_v4_debug_line-Runs_example =
    parse_dwarf_v4_debug_line-Runs line_section "dwarf.global_cache_directory" none
