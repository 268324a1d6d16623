-- ===== src/Macho/Layout.antt =====
-- tools/abi_artifact_parity.py, `_parse_macho_bytes`: the layout of an object, whose offsets and
-- addresses follow from the sections.
use zynum.Prelude.{
  ℕ, ◌+◌, ◌^◌, max, min, String, ◌<>◌, Bool, ◌||◌, ◌&&◌, not, List, [], ◌∷◌, ltb, leb, ◌==◌,
  if◌then◌else◌, same, string_eq, Outcome, ok, err, ◌>>=◌, ◌>>◌, length,
}
use zynum.Atoms.Finish.{decimal}
use zynum.Parse.{ParseError, parity, parity_value, raise_if}
use zynum.Dwarf.Lines.{the_only}
use zynum.Macho.Names.{align_up}
use zynum.Macho.Sections.{Section, Segment, is_zerofill, run_if}

abbrev pub is_debug_line : Section → Bool
is_debug_line s = same s.segment "__DWARF" && same s.name "__debug_line"

abbrev pub object_debug_lines : List Section → List Section
object_debug_lines [] = []
object_debug_lines (s ∷ sections) =
    let rest = object_debug_lines sections in if is_debug_line s then s ∷ rest else rest

abbrev pub file_sections : List Section → List Section
file_sections [] = []
file_sections (s ∷ sections) =
    let rest = file_sections sections in
    if not (is_zerofill s) && not (s.size == 0) then s ∷ rest else rest

-- The bounds of sections, from that of the first.
abbrev pub min_offset : ℕ → List Section → ℕ
min_offset first [] = first
min_offset first (s ∷ sections) = min_offset (min first s.offset) sections

abbrev pub max_end : (Section → ℕ) → ℕ → List Section → ℕ
max_end end last [] = last
max_end end last (s ∷ sections) = max_end end (max last (end s)) sections

abbrev pub file_end : Section → ℕ
file_end s = s.offset + s.size

abbrev pub virtual_end : Section → ℕ
virtual_end s = s.addr + s.size

abbrev pub section_place : String → Section → String
section_place prefix s = prefix <> (".section[" <> (decimal s.index <> "]"))

-- The offset in the segment is that of the address, also if one of them lies before it.
unfoldable pub check_offsets : String → Segment → List Section → Outcome ParseError (Unit {0})
check_offsets prefix segment [] = ok tt
check_offsets prefix segment (s ∷ sections) =
    raise_if (not (s.offset + segment.vmaddr == segment.fileoff + s.addr))
      (parity "object section file offset is not derived from its address" (section_place prefix s))
    >> check_offsets prefix segment sections

abbrev pub whole_file_segment : ℕ → Segment → Bool
whole_file_segment total segment =
    segment.fileoff == 0
    && (segment.filesize == total && (segment.vmaddr == 0 && segment.vmsize == total))

unfoldable pub check_segment :
    String → Segment → Section → List Section → List Section → Outcome ParseError (Unit {0})
check_segment prefix segment first others sections = do
  raise_if (not (min_offset first.offset others == segment.fileoff))
      (parity "object segment file offset is not the first section offset" prefix)
  raise_if (not (segment.fileoff + segment.filesize == max_end file_end (file_end first) others))
      (parity "object segment file size is not derived from its sections" prefix)
  check_offsets prefix segment (first ∷ others)
  raise_if (not (segment.vmaddr + segment.vmsize == max_end virtual_end 0 sections))
      (parity "object segment virtual size is not derived from its sections" prefix)

-- Behind the section that is left out, which its index tells from the others.
abbrev pub is_tail : Section → Section → Bool
is_tail debug s = not (s.index == debug.index) && leb (debug.addr + debug.size) s.addr

abbrev pub comes_before : Section → Section → Bool
comes_before r s = ltb r.addr s.addr || (r.addr == s.addr && leb r.index s.index)

abbrev pub insert_section : Section → List Section → List Section
insert_section r [] = r ∷ []
insert_section r (s ∷ sections) =
    let rest = insert_section r sections in if comes_before r s then r ∷ s ∷ sections else s ∷ rest

abbrev pub tail_sections : Section → List Section → List Section
tail_sections debug [] = []
tail_sections debug (s ∷ sections) =
    let rest = tail_sections debug sections in
    if is_tail debug s then insert_section s rest else rest

-- The indices of the sections whose addresses move, from an address on.
unfoldable pub shifted_indices : String → ℕ → List Section → Outcome ParseError (List ℕ)
shifted_indices prefix cursor [] = ok []
shifted_indices prefix cursor (s ∷ sections) = do
  raise_if (not (is_zerofill s)) (
      parity "non-zero-fill section follows __debug_line in object address layout"
        (section_place prefix s))
  expected ← align_up cursor (2 ^ s.align)
  raise_if (not (s.addr == expected)) (
      parity "post-__debug_line section address is not precisely alignment-derived"
        (section_place prefix s))
  rest ← shifted_indices prefix (s.addr + s.size) sections
  ok (s.index ∷ rest)

-- The tests of the segment against the sections with contents in the file.
unfoldable pub check_contents :
    ℕ → String → Segment → List Section → List Section → Outcome ParseError (Unit {0})
check_contents total prefix segment sections [] =
    err (parity "MH_OBJECT has no file-backed sections" prefix)
check_contents total prefix segment sections (first ∷ others) =
    run_if (not (whole_file_segment total segment))
      (check_segment prefix segment first others sections)

-- The section of the line table, and the indices of those that move with it.
unfoldable pub object_layout :
    ℕ → String → List Segment → List Section → Outcome ParseError (Section × List ℕ)
object_layout total prefix segments sections = do
  segment ←
      the_only segments
        (parity_value "MH_OBJECT requires exactly one segment, found" (length segments) prefix)
  let lines = object_debug_lines sections
  debug ←
      the_only lines
        (parity_value "expected one __DWARF,__debug_line section, found" (length lines) prefix)
  check_contents total prefix segment sections (file_sections sections)
  indices ← shifted_indices prefix (debug.addr + debug.size) (tail_sections debug sections)
  ok (debug, indices)
