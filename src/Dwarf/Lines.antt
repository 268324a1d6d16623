-- ===== src/Dwarf/Lines.antt =====
-- tools/abi_artifact_parity.py, `parse_dwarf_v4_debug_line`: the loop over the units, the choice of the
-- cache directory, and the claims.
use zynum.Prelude.{
  ℕ, zero, suc, ◌+◌, String, ◌<>◌, true, ◌&&◌, not, Option, none, some, List, [], ◌∷◌, ◌++◌, ltb,
  ◌==◌, if◌then◌else◌, same, string_eq, Outcome, ok, err, ◌>>=◌, ◌>>◌, length,
}
use zynum.Prelude.Int.{pos}
use zynum.Atoms.{AtomBuilder, Metadata, add}
use zynum.Atoms.Finish.{decimal}
use zynum.Parse.{ParseError, parity, parity_value, raise_if, of_atom, out_of_fuel}
use zynum.Parity.Records.{ProvenanceLocator}
use zynum.Dwarf.Cache.{is_cache_directory}
use zynum.Dwarf.Tables.{
  DwarfDirectory, DwarfFile, LineSection, unit_header, read_directories, read_files,
}

-- The end of a unit with its directories and files. A round of either loop reads a byte or more.
unfoldable pub read_unit :
    LineSection → ℕ → ℕ → Outcome ParseError (ℕ × (List DwarfDirectory × List DwarfFile))
unfolding unit_header read_directories read_files
read_unit s unit offset = do
  h ← unit_header s offset
  (directories, (directory_index, middle)) ←
      read_directories s unit h.prologue_end (suc (length s.bytes)) 1 h.tables
  (files, cursor) ← read_files s unit h.prologue_end directory_index (suc (length s.bytes)) 1 middle
  raise_if (not (cursor == h.prologue_end))
      (parity "DWARF file table does not exactly fill the prologue" s.locator_prefix)
  ok (h.unit_end, (directories, files))

-- The claim of a length that follows from the directory.
abbrev pub length_claim : LineSection → String → ℕ → String → Metadata
length_claim s dependency unit name = record {
  locator = s.locator_prefix <> (".unit[" <> (decimal unit <> ("]." <> name)));
  role = "derived_field";
  depends_on = dependency ∷ [];
  note = none;
  canonical_payload = none;
}

unfoldable pub claim_lengths :
    LineSection → String → ℕ → ℕ → Option AtomBuilder → Outcome ParseError (Option AtomBuilder)
claim_lengths s dependency unit offset none = ok none
claim_lengths s dependency unit offset (some b) = do
  let base = s.file_offset + offset
  b1 ← of_atom (add b (pos base) (pos 4) (length_claim s dependency unit "total_length") true)
  b2 ←
      of_atom
        (add b1 (pos (base + 6)) (pos 4) (length_claim s dependency unit "prologue_length") true)
  ok (some b2)

-- The loop over the units. A unit has ten bytes or more.
unfoldable pub read_units :
    LineSection
    → String
    → ℕ
    → Option AtomBuilder
    → ℕ
    → ℕ
    → Outcome ParseError (List DwarfDirectory × (List DwarfFile × Option AtomBuilder))
unfolding read_unit claim_lengths
read_units s dependency zero b offset unit =
    if ltb offset (length s.bytes) then err out_of_fuel else ok ([], ([], b))
read_units s dependency (suc fuel) b offset unit =
    let round = do
      (unit_end, (directories, files)) ← read_unit s unit offset
      b' ← claim_lengths s dependency unit offset b
      (more_directories, (more_files, last)) ← read_units s dependency fuel b' unit_end (suc unit)
      ok (directories ++ more_directories, (files ++ more_files, last))
    in if ltb offset (length s.bytes) then round else ok ([], ([], b))

abbrev pub eligible : List DwarfDirectory → List DwarfDirectory
eligible [] = []
eligible (d ∷ directories) =
    let rest = eligible directories in if is_cache_directory d.path then d ∷ rest else rest

abbrev pub builtin_files : DwarfDirectory → List DwarfFile → List DwarfFile
builtin_files d [] = []
builtin_files d (f ∷ files) =
    let rest = builtin_files d files in
    if f.unit_index == d.unit_index
      && (f.directory_index == d.directory_index && same f.name "builtin.zig")
    then f ∷ rest
    else rest

unfoldable pub the_only {ℓ} : {A : Type ℓ} → List A → ParseError → Outcome ParseError A
the_only (x ∷ []) e = ok x
the_only xs e = err e

abbrev pub directory_claim : Metadata
directory_claim = record {
  locator = "dwarf.global_cache_directory";
  role = "allowed_payload";
  depends_on = [];
  note = some "unique DWARF-v4 global-cache b/<32hex> directory";
  canonical_payload = none;
}

unfoldable pub claim_directory :
    DwarfDirectory → Option AtomBuilder → Outcome ParseError (Option AtomBuilder)
claim_directory d none = ok none
claim_directory d (some b) =
    of_atom (add b (pos d.offset) (pos d.size) directory_claim true) >>= λ b'. ok (some b')

-- What is returned, with the builder after the claims.
pub record LineTable : Type 0 where
  pub directories : List DwarfDirectory
  pub files : List DwarfFile
  pub provenance : ProvenanceLocator
  pub builder : Option AtomBuilder

abbrev pub builtin_provenance : LineSection → DwarfDirectory → ProvenanceLocator
builtin_provenance s d = record {
  kind = "static_builtin";
  source_locator =
      s.locator_prefix
      <> (".unit["
          <> (decimal d.unit_index <> ("].directory[" <> (decimal d.directory_index <> "]"))));
  path = d.path <> "/builtin.zig";
  path_offset = d.offset;
  path_size = d.size;
  expected_basename = "builtin.zig";
  expected_mtime_seconds = none;
}

unfoldable pub parse_dwarf_v4_debug_line :
    LineSection → String → Option AtomBuilder → Outcome ParseError LineTable
unfolding read_units is_cache_directory claim_directory
parse_dwarf_v4_debug_line s dependency builder = do
  (directories, (files, b)) ← read_units s dependency (length s.bytes) builder 0 0
  let candidates = eligible directories
  cache_dir ← the_only candidates (
      parity_value "expected one global-cache b/<32hex> directory, found" (length candidates)
        s.locator_prefix)
  builtin ← the_only (builtin_files cache_dir files) (
      parity "global-cache directory must be referenced by exactly one builtin.zig"
        s.locator_prefix)
  b' ← claim_directory cache_dir b
  ok (record {
    directories = directories;
    files = files;
    provenance = builtin_provenance s cache_dir;
    builder = b';
  })
