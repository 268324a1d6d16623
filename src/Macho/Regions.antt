-- ===== src/Macho/Regions.antt =====
-- tools/abi_artifact_parity.py, `_parse_macho_bytes`: the tests that the regions of a file lie in it and
-- do not overlap.
use zynum.Prelude.{
  ℕ, ◌*◌, String, ◌<>◌, ◌||◌, ◌&&◌, not, Option, none, some, List, [], ◌∷◌, ◌++◌, ltb, ◌==◌,
  if◌then◌else◌, Outcome, ◌>>◌, length,
}
use zynum.Atoms.Finish.{decimal}
use zynum.Parse.{ParseError, parity, raise_if, field_le, range_check}
use zynum.Ranges.{Range, check_disjoint}
use zynum.Macho.Sections.{Section, Segment, is_zerofill}

pub record SymbolTable : Type 0 where
  pub symoff : ℕ
  pub nsyms : ℕ
  pub stroff : ℕ
  pub strsize : ℕ

-- What the load commands have named.
pub record Regions : Type 0 where
  pub segments : List Segment
  pub sections : List Section
  pub linkedit_ranges : List Range
  pub symtab : SymbolTable
  pub signature_range : Option (ℕ × ℕ)

abbrev pub section_name : Section → String
section_name s = decimal s.index <> ("]:" <> (s.segment <> ("," <> s.name)))

abbrev pub section_range : Section → Range
section_range s = record { start = s.offset; size = s.size; name = "section[" <> section_name s }

abbrev pub section_data_ranges : List Section → List Range
section_data_ranges [] = []
section_data_ranges (s ∷ sections) =
    let rest = section_data_ranges sections in
    if not (is_zerofill s) && not (s.size == 0) then section_range s ∷ rest else rest

abbrev pub segment_file_ranges : List Segment → List Range
segment_file_ranges [] = []
segment_file_ranges (s ∷ segments) =
    let rest = segment_file_ranges segments in
    if s.filesize == 0
    then rest
    else (record {
      start = s.fileoff;
      size = s.filesize;
      name = "segment[" <> (decimal s.index <> ("]:" <> s.name));
    }
        ∷ rest)

abbrev pub relocation_ranges : List Section → List Range
relocation_ranges [] = []
relocation_ranges (s ∷ sections) =
    let rest = relocation_ranges sections in
    if s.nreloc == 0
    then rest
    else (record { start = s.reloff; size = s.nreloc * 8; name = "relocations[" <> section_name s }
        ∷ rest)

abbrev pub signature_ranges : Option (ℕ × ℕ) → List Range
signature_ranges none = []
signature_ranges (some (offset, size)) =
    record { start = offset; size = size; name = "code_signature" } ∷ []

abbrev pub symbol_ranges : SymbolTable → List Range
symbol_ranges t =
    record { start = t.symoff; size = t.nsyms * 16; name = "symtab" }
    ∷ record { start = t.stroff; size = t.strsize; name = "strtab" }
    ∷ []

abbrev pub all_table_ranges : Regions → List Range
all_table_ranges r =
    r.linkedit_ranges ++ (symbol_ranges r.symtab ++ signature_ranges r.signature_range)

abbrev pub concrete_ranges : Regions → List Range
concrete_ranges r =
    section_data_ranges r.sections ++ (relocation_ranges r.sections ++ all_table_ranges r)

abbrev pub max_symbols : ℕ
max_symbols = 4000000

unfoldable pub check_regions : List ℕ → String → Regions → Outcome ParseError (Unit {0})
check_regions bytes prefix r = do
  let total = length bytes
  let t = r.symtab
  check_disjoint total (segment_file_ranges r.segments)
  check_disjoint total (section_data_ranges r.sections)
  check_disjoint total (relocation_ranges r.sections)
  raise_if (ltb max_symbols t.nsyms) (parity "symbol table is unreasonably large" prefix)
  range_check total t.symoff (t.nsyms * 16) (prefix <> ".symtab")
  range_check total t.stroff t.strsize (prefix <> ".strtab")
  raise_if (t.strsize == 0 || not (field_le bytes t.stroff 1 == 0))
      (parity "Mach-O string table must begin with NUL" prefix)
  check_disjoint total (all_table_ranges r)
  check_disjoint total (concrete_ranges r)
