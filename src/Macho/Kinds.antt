-- ===== src/Macho/Kinds.antt =====
-- tools/abi_artifact_parity.py, `_parse_macho_bytes`: the load commands that are known.
use zynum.Prelude.{ℕ, String, Option, none, some, List, [], ◌∷◌, ◌==◌, if◌then◌else◌}

pub data LoadCommand : Type 0 where
  lc_segment_64 : LoadCommand
  lc_symtab : LoadCommand
  lc_dysymtab : LoadCommand
  lc_load_dylib : LoadCommand
  lc_id_dylib : LoadCommand
  lc_load_dylinker : LoadCommand
  lc_prebound_dylib : LoadCommand
  lc_load_weak_dylib : LoadCommand
  lc_reexport_dylib : LoadCommand
  lc_lazy_load_dylib : LoadCommand
  lc_load_upward_dylib : LoadCommand
  lc_uuid : LoadCommand
  lc_code_signature : LoadCommand
  lc_dyld_info_only : LoadCommand
  lc_function_starts : LoadCommand
  lc_source_version : LoadCommand
  lc_data_in_code : LoadCommand
  lc_linker_optimization_hint : LoadCommand
  lc_build_version : LoadCommand
  lc_rpath : LoadCommand

abbrev pub command_number : LoadCommand → ℕ
command_number lc_segment_64 = 0x19
command_number lc_symtab = 0x2
command_number lc_dysymtab = 0xB
command_number lc_load_dylib = 0xC
command_number lc_id_dylib = 0xD
command_number lc_load_dylinker = 0xE
command_number lc_prebound_dylib = 0x10
command_number lc_load_weak_dylib = 0x80000018
command_number lc_reexport_dylib = 0x8000001F
command_number lc_lazy_load_dylib = 0x20
command_number lc_load_upward_dylib = 0x80000023
command_number lc_uuid = 0x1B
command_number lc_code_signature = 0x1D
command_number lc_dyld_info_only = 0x80000022
command_number lc_function_starts = 0x26
command_number lc_source_version = 0x2A
command_number lc_data_in_code = 0x29
command_number lc_linker_optimization_hint = 0x2E
command_number lc_build_version = 0x32
command_number lc_rpath = 0x8000001C

abbrev pub command_name : LoadCommand → String
command_name lc_segment_64 = "LC_SEGMENT_64"
command_name lc_symtab = "LC_SYMTAB"
command_name lc_dysymtab = "LC_DYSYMTAB"
command_name lc_load_dylib = "LC_LOAD_DYLIB"
command_name lc_id_dylib = "LC_ID_DYLIB"
command_name lc_load_dylinker = "LC_LOAD_DYLINKER"
command_name lc_prebound_dylib = "LC_PREBOUND_DYLIB"
command_name lc_load_weak_dylib = "LC_LOAD_WEAK_DYLIB"
command_name lc_reexport_dylib = "LC_REEXPORT_DYLIB"
command_name lc_lazy_load_dylib = "LC_LAZY_LOAD_DYLIB"
command_name lc_load_upward_dylib = "LC_LOAD_UPWARD_DYLIB"
command_name lc_uuid = "LC_UUID"
command_name lc_code_signature = "LC_CODE_SIGNATURE"
command_name lc_dyld_info_only = "LC_DYLD_INFO_ONLY"
command_name lc_function_starts = "LC_FUNCTION_STARTS"
command_name lc_source_version = "LC_SOURCE_VERSION"
command_name lc_data_in_code = "LC_DATA_IN_CODE"
command_name lc_linker_optimization_hint = "LC_LINKER_OPTIMIZATION_HINT"
command_name lc_build_version = "LC_BUILD_VERSION"
command_name lc_rpath = "LC_RPATH"

-- The keys of the dictionary of names.
abbrev pub known_commands : List LoadCommand
known_commands =
    lc_segment_64 ∷ lc_symtab ∷ lc_dysymtab ∷ lc_load_dylib ∷ lc_id_dylib ∷ lc_load_dylinker
    ∷ lc_prebound_dylib ∷ lc_load_weak_dylib ∷ lc_reexport_dylib ∷ lc_lazy_load_dylib
    ∷ lc_load_upward_dylib ∷ lc_uuid ∷ lc_code_signature ∷ lc_dyld_info_only ∷ lc_function_starts
    ∷ lc_source_version ∷ lc_data_in_code ∷ lc_linker_optimization_hint ∷ lc_build_version
    ∷ lc_rpath ∷ []

abbrev pub command_in : List LoadCommand → ℕ → Option LoadCommand
command_in [] number = none
command_in (c ∷ commands) number =
    if command_number c == number then some c else command_in commands number
