-- ===== src/Macho/Sections.antt =====
-- tools/abi_artifact_parity.py, `_parse_macho_bytes`: the segment command and its sections.
use zynum.Prelude.{
  ℕ, zero, suc, ◌+◌, ◌-◌, ◌*◌, ◌%◌, ◌^◌, String, ◌<>◌, Bool, true, false, ◌||◌, ◌&&◌, not, Option,
  List, [], ◌∷◌, ltb, leb, ◌==◌, if◌then◌else◌, same, string_eq, Outcome, ok, ◌>>=◌, ◌>>◌, length,
}
use zynum.Prelude.Int.{ℤ, pos, negsuc}
use zynum.Atoms.Finish.{slice, decimal}
use zynum.Parse.{ParseError, parity, raise_if, field_le, require_buffer, range_check}
use zynum.Macho.Names.{fixed_name}

pub record Section : Type 0 where
  pub index : ℕ
  pub segment : String
  pub name : String
  pub addr : ℕ
  pub size : ℕ
  pub offset : ℕ
  pub align : ℕ
  pub reloff : ℕ
  pub nreloc : ℕ
  pub flags : ℕ
  pub reserved1 : ℕ
  pub reserved2 : ℕ
  pub reserved3 : ℕ

-- S_ZEROFILL or S_THREAD_LOCAL_ZEROFILL.
abbrev pub is_zerofill : Section → Bool
is_zerofill s = s.flags % 256 == 1 || s.flags % 256 == 18

pub record Segment : Type 0 where
  pub index : ℕ
  pub name : String
  pub vmaddr : ℕ
  pub vmsize : ℕ
  pub fileoff : ℕ
  pub filesize : ℕ
  pub maxprot : ℤ
  pub initprot : ℤ
  pub flags : ℕ
  pub sections : List Section

-- The bytes and the file type that is expected, with the decoding of UTF-8.
pub record MachoFile : Type 0 where
  pub decode : List ℕ → Option String
  pub bytes : List ℕ
  pub filetype : ℕ

abbrev pub is_object : MachoFile → Bool
is_object m = m.filetype == 1

-- A signed field of four bytes.
abbrev pub signed : ℕ → ℤ
signed n = if ltb n (2 ^ 31) then pos n else negsuc (2 ^ 32 - n - 1)

unfoldable pub run_if : Bool → Outcome ParseError (Unit {0}) → Outcome ParseError (Unit {0})
run_if true check = check
run_if false check = ok tt

abbrev pub section_locator : String → ℕ → String → String
section_locator locator local_index part =
    locator <> (".section[" <> (decimal local_index <> ("]." <> part)))

-- The header of a section, whose names are known.
abbrev pub section_header : List ℕ → ℕ → ℕ → String → String → Section
section_header bytes o index segment name = record {
  index = index;
  segment = segment;
  name = name;
  addr = field_le bytes (o + 32) 8;
  size = field_le bytes (o + 40) 8;
  offset = field_le bytes (o + 48) 4;
  align = field_le bytes (o + 52) 4;
  reloff = field_le bytes (o + 56) 4;
  nreloc = field_le bytes (o + 60) 4;
  flags = field_le bytes (o + 64) 4;
  reserved1 = field_le bytes (o + 68) 4;
  reserved2 = field_le bytes (o + 72) 4;
  reserved3 = field_le bytes (o + 76) 4;
}

-- The tests of a section in a segment from `fileoff` on.
unfoldable pub check_section : MachoFile → String → ℕ → ℕ → Section → Outcome ParseError (Unit {0})
check_section m locator fileoff filesize s = do
  raise_if (ltb 63 s.align) (parity "invalid section alignment exponent" locator)
  run_if (not (is_zerofill s)) (
      range_check (length m.bytes) s.offset s.size (locator <> ("." <> (s.name <> ".data")))
      >> raise_if
          (not (is_object m)
            && not (leb fileoff s.offset && leb (s.offset + s.size) (fileoff + filesize)))
          (parity "section is outside its file-backed segment" locator))
  run_if (not (s.nreloc == 0)) (
      range_check (length m.bytes) s.reloff (s.nreloc * 8)
        (locator <> ("." <> (s.name <> ".relocations"))))

unfoldable pub read_section :
    MachoFile → String → String → ℕ → ℕ → ℕ → ℕ → ℕ → Outcome ParseError Section
read_section m locator segname fileoff filesize index local_index o = do
  require_buffer m.bytes o 80
  name ← fixed_name m.decode (slice m.bytes o (o + 16)) (section_locator locator local_index "name")
  segment ←
      fixed_name m.decode (slice m.bytes (o + 16) (o + 32))
        (section_locator locator local_index "segment")
  raise_if (not (same segment segname) && not (is_object m && same segname ""))
      (parity "section segment name disagrees with enclosing segment" locator)
  check_section m locator fileoff filesize (section_header m.bytes o index segment name)
  ok (section_header m.bytes o index segment name)

-- The loop over `nsects` sections, behind `index - 1` of the file and `local_index` of the segment.
unfoldable pub read_sections :
    MachoFile → String → String → ℕ → ℕ → ℕ → ℕ → ℕ → ℕ → Outcome ParseError (List Section)
read_sections m locator segname fileoff filesize zero index local_index o = ok []
read_sections m locator segname fileoff filesize (suc nsects) index local_index o = do
  s ← read_section m locator segname fileoff filesize index local_index o
  rest ←
      read_sections m locator segname fileoff filesize nsects (suc index) (suc local_index) (o + 80)
  ok (s ∷ rest)

abbrev pub max_sections : ℕ
max_sections = 65536

-- LC_SEGMENT_64 at an offset, behind `segment_count` segments and `section_count` sections.
unfoldable pub read_segment : MachoFile → String → ℕ → ℕ → ℕ → ℕ → Outcome ParseError Segment
read_segment m locator segment_count section_count o command_size = do
  raise_if (ltb command_size 72) (parity "truncated segment command" locator)
  require_buffer m.bytes o 72
  let fileoff = field_le m.bytes (o + 40) 8
  let filesize = field_le m.bytes (o + 48) 8
  let nsects = field_le m.bytes (o + 64) 4
  raise_if (ltb max_sections nsects || not (command_size == 72 + 80 * nsects))
      (parity "segment section count does not match command size" locator)
  segname ← fixed_name m.decode (slice m.bytes (o + 8) (o + 24)) (locator <> ".segname")
  range_check (length m.bytes) fileoff filesize (locator <> ".file_range")
  sections ← read_sections m locator segname fileoff filesize nsects (suc section_count) 0 (o + 72)
  ok (record {
    index = segment_count;
    name = segname;
    vmaddr = field_le m.bytes (o + 24) 8;
    vmsize = field_le m.bytes (o + 32) 8;
    fileoff = fileoff;
    filesize = filesize;
    maxprot = signed (field_le m.bytes (o + 56) 4);
    initprot = signed (field_le m.bytes (o + 60) 4);
    flags = field_le m.bytes (o + 68) 4;
    sections = sections;
  })
