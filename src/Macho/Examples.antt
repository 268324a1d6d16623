-- ===== src/Macho/Examples.antt =====
-- Runs and witnesses for the segments, the regions and the layout of a Mach-O file of
-- tools/abi_artifact_parity.py.
use zynum.Prelude.{
  ℕ, zero, suc, ◌%◌, ◌/◌, ◌^◌, ◌≡◌, ◌↔◌, refl, String, Option, some, List, [], ◌∷◌, ◌++◌, ok, err,
  String-discrete,
}
use zynum.Prelude.Int.{pos}
use zynum.Atoms.Finish.{decimal}
use zynum.Parse.{parity, raise_if, of_atom, text, range_check}
use zynum.Ranges.{check_disjoint, check_behind, range_test}
use zynum.Dwarf.Lines.{the_only}
use zynum.Macho.Names.{fixed_name, align_up}
use zynum.Macho.Padded.{IsPadded, fixed_name_lem}
use zynum.Macho.Align.{IsAligned, align_up-IsAligned}
use zynum.Macho.Sections.{Section, Segment, MachoFile, run_if, read_segment}
use zynum.Macho.Regions.{Regions, check_regions}
use zynum.Macho.Concrete.{AreSound, check_regions_lem}
use zynum.Macho.Layout.{
  check_offsets, check_segment, shifted_indices, check_contents, object_layout,
}
use zynum.Macho.Derived.{IsLayout, object_layout-IsLayout}

abbrev zeros : ℕ → List ℕ
zeros zero = []
zeros (suc n) = 0 ∷ zeros n

-- A number in so many bytes, and a name in 16.
abbrev le : ℕ → ℕ → List ℕ
le zero n = []
le (suc width) n = n % 256 ∷ le width (n / 256)

abbrev short_name : List ℕ
short_name = 97 ∷ zeros 15

abbrev one_name : List ℕ → Option String
one_name bytes = some "a"

-- A segment command with one section, and the contents of that.
abbrev segment_bytes : List ℕ
segment_bytes =
    le 4 25
    ++ le 4 152
    ++ short_name
    ++ le 8 0
    ++ le 8 8
    ++ le 8 152
    ++ le 8 8
    ++ le 4 7
    ++ le 4 5
    ++ le 4 1
    ++ le 4 0
    ++ short_name
    ++ short_name
    ++ le 8 0
    ++ le 8 8
    ++ le 4 152
    ++ le 4 3
    ++ le 4 0
    ++ le 4 0
    ++ le 4 0
    ++ le 4 0
    ++ le 4 0
    ++ le 4 0
    ++ zeros 8

abbrev macho_file : MachoFile
macho_file = record { decode = one_name; bytes = segment_bytes; filetype = 6 }

abbrev code : Section
code = record {
  index = 1;
  segment = "a";
  name = "a";
  addr = 0;
  size = 8;
  offset = 152;
  align = 3;
  reloff = 0;
  nreloc = 0;
  flags = 0;
  reserved1 = 0;
  reserved2 = 0;
  reserved3 = 0;
}

abbrev segment : Segment
segment = record {
  index = 0;
  name = "a";
  vmaddr = 0;
  vmsize = 8;
  fileoff = 152;
  filesize = 8;
  maxprot = pos 7;
  initprot = pos 5;
  flags = 0;
  sections = code ∷ [];
}

outside_run :
    read_segment (record { decode = one_name; bytes = zeros 40; filetype = 6 }) "load" 0 0 0 71
    ≡ err (parity "truncated segment command" "load")
unfolding read_segment raise_if
outside_run = refl

aligned_run : align_up 13 8 ≡ ok 16
unfolding align_up raise_if
aligned_run = refl

align_up-IsAligned_example :
    (aligned : ℕ) × (align_up 13 (2 ^ 3) ≡ ok aligned) × IsAligned 13 3 aligned
align_up-IsAligned_example = align_up-IsAligned 13 3

-- An object with a section behind its line table.
abbrev lines : Section
lines = record {
  index = 2;
  segment = "__DWARF";
  name = "__debug_line";
  addr = 8;
  size = 5;
  offset = 160;
  align = 0;
  reloff = 168;
  nreloc = 1;
  flags = 0;
  reserved1 = 0;
  reserved2 = 0;
  reserved3 = 0;
}

abbrev zerofill : Section
zerofill = record {
  index = 3;
  segment = "a";
  name = "b";
  addr = 16;
  size = 4;
  offset = 0;
  align = 3;
  reloff = 0;
  nreloc = 0;
  flags = 1;
  reserved1 = 0;
  reserved2 = 0;
  reserved3 = 0;
}

abbrev object_sections : List Section
object_sections = code ∷ lines ∷ zerofill ∷ []

abbrev object_segment : Segment
object_segment = record {
  index = 0;
  name = "";
  vmaddr = 0;
  vmsize = 20;
  fileoff = 152;
  filesize = 13;
  maxprot = pos 7;
  initprot = pos 7;
  flags = 0;
  sections = object_sections;
}

layout_run : object_layout 200 "object" (object_segment ∷ []) object_sections ≡ ok (lines, 3 ∷ [])
unfolding object_layout the_only check_contents check_segment check_offsets shifted_indices align_up
    run_if raise_if String-discrete
layout_run = refl

object_layout-IsLayout_example : IsLayout 200 (object_segment ∷ []) object_sections lines (3 ∷ [])
object_layout-IsLayout_example =
    object_layout-IsLayout 200 "object" (object_segment ∷ []) object_sections lines (3 ∷ [])
      layout_run

-- Its regions, with a symbol and a signature.
abbrev regions : Regions
regions = record {
  segments = object_segment ∷ [];
  sections = object_sections;
  linkedit_ranges = [];
  symtab = record { symoff = 176; nsyms = 1; stroff = 192; strsize = 4 };
  signature_range = some (196, 4);
}

regions_run : check_regions (zeros 200) "object" regions ≡ ok tt
unfolding check_regions check_disjoint check_behind range_test range_check raise_if of_atom decimal
regions_run = refl

check_regions_lem_example :
    (check_regions (zeros 200) "object" regions ≡ ok tt) ↔ AreSound (zeros 200) regions
check_regions_lem_example = check_regions_lem (zeros 200) "object" regions

padded_run : fixed_name one_name (97 ∷ 0 ∷ 0 ∷ []) "name" ≡ ok "a"
unfolding fixed_name text raise_if
padded_run = refl

stray_run :
    fixed_name one_name (97 ∷ 0 ∷ 1 ∷ []) "name"
    ≡ err (parity "nonzero bytes after fixed-name terminator" "name")
unfolding fixed_name raise_if
stray_run = refl

fixed_name_lem_example :
    (fixed_name one_name (97 ∷ 0 ∷ 0 ∷ []) "name" ≡ ok "a")
    ↔ IsPadded one_name (97 ∷ 0 ∷ 0 ∷ []) "a"
fixed_name_lem_example = fixed_name_lem one_name "name" (97 ∷ 0 ∷ 0 ∷ []) "a"
