-- ===== src/Macho/Commands.antt =====
-- tools/abi_artifact_parity.py, `_parse_macho_bytes`: the load commands, and what each of them says.
use zynum.Prelude.{
  Bool, true, false, ℕ, zero, suc, ◌+◌, ◌*◌, ◌/◌, ◌%◌, String, ◌<>◌, ◌||◌, not, Option, none, some,
  List, [], ◌∷◌, ◌++◌, ltb, ◌==◌, if◌then◌else◌, Outcome, ok, err, ◌>>=◌, ◌>>◌, length,
}
use zynum.Atoms.Finish.{decimal}
use zynum.Parse.{ParseError, parity, raise_if, field_le, require_buffer}
use zynum.Ranges.{Range}
use zynum.Macho.Kinds.{
  LoadCommand, command_name, lc_segment_64, lc_symtab, lc_dysymtab, lc_load_dylib, lc_id_dylib,
  lc_load_dylinker, lc_prebound_dylib, lc_load_weak_dylib, lc_reexport_dylib, lc_lazy_load_dylib,
  lc_load_upward_dylib, lc_uuid, lc_code_signature, lc_dyld_info_only, lc_function_starts,
  lc_source_version, lc_data_in_code, lc_linker_optimization_hint, lc_build_version, lc_rpath,
}
use zynum.Macho.Names.{parse_load_string}
use zynum.Macho.Sections.{Section, Segment, MachoFile, read_segment}
use zynum.Macho.Regions.{SymbolTable}

pub record Dylib : Type 0 where
  pub name : String
  pub timestamp : ℕ
  pub current_version : String
  pub compatibility_version : String
  pub kind : String

pub record BuildVersion : Type 0 where
  pub platform : ℕ
  pub minimum_platform : String
  pub sdk : String
  pub tools : List (ℕ × ℕ)

-- What the commands have said so far.
pub record LoadState : Type 0 where
  pub segments : List Segment
  pub sections : List Section
  pub symtab : Option SymbolTable
  pub dysymtab : Option (List ℕ)
  pub signature_range : Option (ℕ × ℕ)
  pub build_versions : List BuildVersion
  pub install_names : List Dylib
  pub dependencies : List Dylib
  pub rpaths : List String
  pub linkedit_ranges : List Range

-- A command, the place and the size of it, and its locator.
pub record Command : Type 0 where
  pub command : LoadCommand
  pub offset : ℕ
  pub size : ℕ
  pub locator : String

abbrev pub version : ℕ → String
version value =
    decimal (value / 65536)
    <> ("." <> (decimal ((value / 256) % 256) <> ("." <> decimal (value % 256))))

-- `count` fields of four bytes.
abbrev pub words : List ℕ → ℕ → ℕ → List ℕ
words bytes offset zero = []
words bytes offset (suc count) = field_le bytes offset 4 ∷ words bytes (offset + 4) count

abbrev pub pairs : List ℕ → ℕ → ℕ → List (ℕ × ℕ)
pairs bytes offset zero = []
pairs bytes offset (suc count) =
    (field_le bytes offset 4, field_le bytes (offset + 4) 4) ∷ pairs bytes (offset + 8) count

unfoldable pub read_dylib : MachoFile → Command → Outcome ParseError Dylib
read_dylib m c = do
  raise_if (ltb c.size 24) (parity "truncated dylib command" c.locator)
  require_buffer m.bytes (c.offset + 8) 16
  name ←
      parse_load_string m.decode m.bytes c.offset c.size (field_le m.bytes (c.offset + 8) 4)
        (c.locator <> ".name")
  ok (record {
    name = name;
    timestamp = field_le m.bytes (c.offset + 12) 4;
    current_version = version (field_le m.bytes (c.offset + 16) 4);
    compatibility_version = version (field_le m.bytes (c.offset + 20) 4);
    kind = command_name c.command;
  })

unfoldable pub read_path : MachoFile → Command → Outcome ParseError String
read_path m c = do
  raise_if (ltb c.size 12) (parity "truncated path command" c.locator)
  require_buffer m.bytes (c.offset + 8) 4
  parse_load_string m.decode m.bytes c.offset c.size (field_le m.bytes (c.offset + 8) 4)
      (c.locator <> ".path")

unfoldable pub read_build_version : MachoFile → Command → Outcome ParseError BuildVersion
read_build_version m c = do
  raise_if (ltb c.size 24) (parity "truncated LC_BUILD_VERSION" c.locator)
  require_buffer m.bytes (c.offset + 8) 16
  let ntools = field_le m.bytes (c.offset + 20) 4
  raise_if (not (c.size == 24 + ntools * 8))
      (parity "LC_BUILD_VERSION tool count mismatch" c.locator)
  require_buffer m.bytes (c.offset + 24) (ntools * 8)
  ok (record {
    platform = field_le m.bytes (c.offset + 8) 4;
    minimum_platform = version (field_le m.bytes (c.offset + 12) 4);
    sdk = version (field_le m.bytes (c.offset + 16) 4);
    tools = pairs m.bytes (c.offset + 24) ntools;
  })

-- The ranges of LC_DYLD_INFO_ONLY that are not empty.
abbrev pub dyld_ranges : List ℕ → ℕ → String → List String → List Range
dyld_ranges bytes offset locator [] = []
dyld_ranges bytes offset locator (label ∷ labels) =
    let rest = dyld_ranges bytes (offset + 8) locator labels in
    if field_le bytes (offset + 4) 4 == 0
    then rest
    else (record {
      start = field_le bytes offset 4;
      size = field_le bytes (offset + 4) 4;
      name = locator <> ("." <> label);
    }
        ∷ rest)

abbrev pub dyld_labels : List String
dyld_labels = "rebase" ∷ "bind" ∷ "weak_bind" ∷ "lazy_bind" ∷ "export" ∷ []

abbrev pub is_given {ℓ} : {A : Type ℓ} → Option A → Bool
is_given none = false
is_given (some a) = true

-- `dataoff` and `datasize`.
unfoldable pub linkedit_data : MachoFile → Command → Outcome ParseError (ℕ × ℕ)
linkedit_data m c = do
  raise_if (not (c.size == 16)) (parity "invalid linkedit-data command size" c.locator)
  require_buffer m.bytes (c.offset + 8) 8
  ok (field_le m.bytes (c.offset + 8) 4, field_le m.bytes (c.offset + 12) 4)

abbrev pub linkedit_range : String → ℕ × ℕ → List Range
linkedit_range locator (dataoff, datasize) =
    if datasize == 0 then [] else (record { start = dataoff; size = datasize; name = locator } ∷ [])

unfoldable pub add_linkedit : MachoFile → Command → LoadState → Outcome ParseError LoadState
add_linkedit m c s = do
  place ← linkedit_data m c
  ok (record s { linkedit_ranges = s.linkedit_ranges ++ linkedit_range c.locator place })

unfoldable pub add_dependency : MachoFile → Command → LoadState → Outcome ParseError LoadState
add_dependency m c s = do
  dylib ← read_dylib m c
  ok (record s { dependencies = s.dependencies ++ (dylib ∷ []) })

-- What a command adds, and the tests of it.
unfoldable pub read_command :
    LoadCommand → MachoFile → Command → LoadState → Outcome ParseError LoadState
read_command lc_segment_64 m c s = do
  segment ← read_segment m c.locator (length s.segments) (length s.sections) c.offset c.size
  ok (record s {
    segments = s.segments ++ (segment ∷ []);
    sections = s.sections ++ segment.sections;
  })
read_command lc_symtab m c s = do
  raise_if (not (c.size == 24) || is_given s.symtab)
      (parity "invalid or duplicate LC_SYMTAB" c.locator)
  require_buffer m.bytes (c.offset + 8) 16
  ok (record s {
    symtab = some (record {
      symoff = field_le m.bytes (c.offset + 8) 4;
      nsyms = field_le m.bytes (c.offset + 12) 4;
      stroff = field_le m.bytes (c.offset + 16) 4;
      strsize = field_le m.bytes (c.offset + 20) 4;
    });
  })
read_command lc_dysymtab m c s = do
  raise_if (not (c.size == 80) || is_given s.dysymtab)
      (parity "invalid or duplicate LC_DYSYMTAB" c.locator)
  require_buffer m.bytes (c.offset + 8) 72
  ok (record s { dysymtab = some (words m.bytes (c.offset + 8) 18) })
read_command lc_id_dylib m c s = do
  dylib ← read_dylib m c
  ok (record s { install_names = s.install_names ++ (dylib ∷ []) })
read_command lc_load_dylib m c s = add_dependency m c s
read_command lc_load_weak_dylib m c s = add_dependency m c s
read_command lc_reexport_dylib m c s = add_dependency m c s
read_command lc_lazy_load_dylib m c s = add_dependency m c s
read_command lc_load_upward_dylib m c s = add_dependency m c s
read_command lc_load_dylinker m c s = read_path m c >>= λ path. ok s
read_command lc_rpath m c s =
    read_path m c >>= λ path. ok (record s { rpaths = s.rpaths ++ (path ∷ []) })
read_command lc_uuid m c s = do
  raise_if (not (c.size == 24)) (parity "invalid LC_UUID size" c.locator)
  ok s
read_command lc_build_version m c s = do
  build ← read_build_version m c
  ok (record s { build_versions = s.build_versions ++ (build ∷ []) })
read_command lc_dyld_info_only m c s = do
  raise_if (not (c.size == 48)) (parity "invalid LC_DYLD_INFO_ONLY size" c.locator)
  require_buffer m.bytes (c.offset + 8) 40
  ok (record s {
    linkedit_ranges = s.linkedit_ranges ++ dyld_ranges m.bytes (c.offset + 8) c.locator dyld_labels;
  })
read_command lc_code_signature m c s = do
  (dataoff, datasize) ← linkedit_data m c
  raise_if (is_given s.signature_range || datasize == 0)
      (parity "missing or duplicate code signature" c.locator)
  ok (record s { signature_range = some (dataoff, datasize) })
read_command lc_function_starts m c s = add_linkedit m c s
read_command lc_data_in_code m c s = add_linkedit m c s
read_command lc_linker_optimization_hint m c s = add_linkedit m c s
read_command lc_source_version m c s = do
  raise_if (not (c.size == 16)) (parity "invalid LC_SOURCE_VERSION size" c.locator)
  ok s
read_command lc_prebound_dylib m c s = err (parity "prebound dylib layout is unsupported" c.locator)
