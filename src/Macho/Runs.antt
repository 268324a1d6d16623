-- ===== src/Macho/Runs.antt =====
-- Runs and witnesses for the load commands of tools/abi_artifact_parity.py.
use zynum.Prelude.{
  ℕ, zero, suc, ◌%◌, ◌/◌, ◌≡◌, refl, some, List, [], ◌∷◌, ◌++◌, Outcome, ok, err, String-discrete,
}
use zynum.Interval.{
  insert_interval, remove_interval, balance_interval, lower_bound_interval, predecessor_interval,
  successor_interval, node_count,
}
use zynum.Atoms.{AtomBuilder, Metadata-discrete, new_builder, add, overlaps, carve, put}
use zynum.Atoms.Finish.{decimal}
use zynum.Parse.{ParseError, parity, raise_if, or_raise, of_atom, text, range_check}
use zynum.Macho.Names.{fixed_name}
use zynum.Macho.Sections.{
  MachoFile, run_if, check_section, read_section, read_sections, read_segment,
}
use zynum.Macho.Commands.{LoadState, read_build_version, read_command}
use zynum.Macho.Marks.{derived, claim_last, claim_segment, claim_command}
use zynum.Macho.Walk.{walk_commands, check_header, load_commands, no_commands}

abbrev zeros : ℕ → List ℕ
zeros zero = []
zeros (suc n) = 0 ∷ zeros n

abbrev word : ℕ → List ℕ
word n = n % 256 ∷ (n / 256) % 256 ∷ (n / 65536) % 256 ∷ n / 16777216 ∷ []

abbrev short_name : List ℕ
short_name = 97 ∷ zeros 15

-- A dynamic library with five commands, one of them a segment of one section, and a byte behind them.
abbrev library : List ℕ
library =
    word 0xFEEDFACF
    ++ word 0x0100000C
    ++ word 0
    ++ word 6
    ++ word 5
    ++ word 304
    ++ word 0
    ++ word 0
    ++ (word 0x19 ++ word 152 ++ short_name ++ zeros 40 ++ word 1 ++ word 0)
    ++ (short_name ++ short_name ++ zeros 48)
    ++ (word 2 ++ word 24 ++ zeros 16)
    ++ (word 0xB ++ word 80 ++ zeros 72)
    ++ (word 0x32 ++ word 24 ++ zeros 16)
    ++ (word 0x1B ++ word 24 ++ zeros 16)
    ++ 7 ∷ []

abbrev library_file : MachoFile
library_file = record { decode = λ bytes. some "a"; bytes = library; filetype = 6 }

abbrev loaded_of :
    Outcome ParseError (List ℕ × (LoadState × AtomBuilder)) → List ℕ × (LoadState × AtomBuilder)
loaded_of (ok r) = r
loaded_of (err e) = ([], (no_commands, new_builder [] ""))

loaded : List ℕ × (LoadState × AtomBuilder)
unfolding load_commands check_header walk_commands read_command read_segment read_sections
    read_section check_section fixed_name run_if range_check text read_build_version claim_command
    claim_last claim_segment derived raise_if or_raise of_atom String-discrete Metadata-discrete add
    overlaps carve put insert_interval remove_interval balance_interval lower_bound_interval
    predecessor_interval successor_interval
loaded = loaded_of (load_commands library_file "macho")

seen_run : loaded.0 ≡ 27 ∷ 50 ∷ 11 ∷ 2 ∷ 25 ∷ []
unfolding load_commands check_header walk_commands read_command read_segment read_sections
    read_section check_section fixed_name run_if range_check text read_build_version claim_command
    claim_last claim_segment derived raise_if or_raise of_atom String-discrete Metadata-discrete add
    overlaps carve put insert_interval remove_interval balance_interval lower_bound_interval
    predecessor_interval successor_interval decimal node_count loaded
seen_run = refl

truncated_run :
    load_commands (record { decode = λ bytes. some "a"; bytes = zeros 31; filetype = 6 }) "macho"
    ≡ err (parity "Mach-O header is truncated" "macho")
unfolding load_commands check_header raise_if
truncated_run = refl
