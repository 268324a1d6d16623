-- ===== src/Macho/Walk.antt =====
-- tools/abi_artifact_parity.py, `_parse_macho_bytes`: the header, and the loop over the load commands.
use zynum.Prelude.{
  ℕ, zero, suc, ◌+◌, ◌-◌, ◌%◌, String, ◌<>◌, Bool, false, ◌||◌, ◌&&◌, not, none, List, [], ◌∷◌, ltb,
  ◌==◌, if◌then◌else◌, string_eq, Outcome, ok, ◌>>=◌, ◌>>◌, length, same_list,
}
use zynum.Prelude.Int.{pos}
use zynum.Atoms.{AtomBuilder, new_builder, add}
use zynum.Atoms.Finish.{slice, decimal}
use zynum.Parse.{
  ParseError, parity, parity_value, raise_if, or_raise, of_atom, field_le, require_buffer,
}
use zynum.Signature.{claim}
use zynum.Macho.Kinds.{
  LoadCommand, lc_symtab, lc_dysymtab, lc_build_version, command_name, command_number, command_in,
  known_commands,
}
use zynum.Macho.Sections.{MachoFile}
use zynum.Macho.Commands.{LoadState, Command, read_command}
use zynum.Macho.Marks.{claim_command}

abbrev pub load_locator : ℕ → String → String
load_locator index name = "load[" <> (decimal index <> name)

abbrev pub command_at : LoadCommand → ℕ → ℕ → ℕ → Command
command_at command index offset size = record {
  command = command;
  offset = offset;
  size = size;
  locator = load_locator index (":" <> (command_name command <> "]"));
}

-- The loop over the commands, with the numbers of those that were seen. What is returned is the end of
-- the last, the numbers, the state and the builder.
unfoldable pub walk_commands :
    MachoFile
    → String
    → ℕ
    → ℕ
    → ℕ
    → ℕ
    → AtomBuilder
    → List ℕ
    → LoadState
    → Outcome ParseError (ℕ × (List ℕ × (LoadState × AtomBuilder)))
walk_commands m prefix load_end zero index offset b seen s = ok (offset, (seen, (s, b)))
walk_commands m prefix load_end (suc ncmds) index offset b seen s = do
  raise_if (ltb load_end (offset + 8)) (parity "truncated load command" prefix)
  require_buffer m.bytes offset 8
  let number = field_le m.bytes offset 4
  let size = field_le m.bytes (offset + 4) 4
  command ←
      or_raise (command_in known_commands number)
        (parity_value "unsupported load command" number (prefix <> ("." <> load_locator index "]")))
  raise_if (ltb size 8 || (not (size % 8 == 0) || ltb load_end (offset + size)))
      (parity "invalid load-command size" (prefix <> ("." <> load_locator index "]")))
  let c = command_at command index offset size
  b1 ← of_atom (add b (pos offset) (pos size) (claim c.locator "invariant" []) false)
  s' ← read_command command m c s
  b2 ← claim_command command m (prefix <> ".dwarf.global_cache_directory") b1 c s'
  walk_commands m prefix load_end ncmds (suc index) (offset + size) b2 (number ∷ seen) s'

abbrev pub mh_magic_64 : List ℕ
mh_magic_64 = 207 ∷ 250 ∷ 237 ∷ 254 ∷ []

-- The magic numbers of other Mach-O files.
abbrev pub other_magics : List (List ℕ)
other_magics =
    (254 ∷ 237 ∷ 250 ∷ 207 ∷ [])
    ∷ (206 ∷ 250 ∷ 237 ∷ 254 ∷ [])
    ∷ (254 ∷ 237 ∷ 250 ∷ 206 ∷ [])
    ∷ (202 ∷ 254 ∷ 186 ∷ 190 ∷ [])
    ∷ (190 ∷ 186 ∷ 254 ∷ 202 ∷ [])
    ∷ (202 ∷ 254 ∷ 186 ∷ 191 ∷ [])
    ∷ (191 ∷ 186 ∷ 254 ∷ 202 ∷ [])
    ∷ []

abbrev pub is_other_magic : List ℕ → List (List ℕ) → Bool
is_other_magic magic [] = false
is_other_magic magic (other ∷ others) = same_list magic other || is_other_magic magic others

abbrev pub wrong_magic : List ℕ → String
wrong_magic magic =
    if is_other_magic magic other_magics
    then "fat, 32-bit, or big-endian Mach-O is unsupported"
    else "not a little-endian 64-bit Mach-O"

-- The tests of the header.
unfoldable pub check_header : MachoFile → String → Outcome ParseError (Unit {0})
check_header m prefix = do
  let total = length m.bytes
  raise_if (ltb total 32) (parity "Mach-O header is truncated" prefix)
  raise_if (not (same_list (slice m.bytes 0 4) mh_magic_64))
      (parity (wrong_magic (slice m.bytes 0 4)) prefix)
  raise_if (not (field_le m.bytes 4 4 == 0x0100000C) || not (field_le m.bytes 12 4 == m.filetype))
      (parity "requires a thin arm64 Mach-O of the requested file type" prefix)
  raise_if
      (not (field_le m.bytes 28 4 == 0)
        || (ltb 4096 (field_le m.bytes 16 4) || ltb (total - 32) (field_le m.bytes 20 4)))
      (parity "invalid Mach-O header fields" prefix)

abbrev pub no_commands : LoadState
no_commands = record {
  segments = [];
  sections = [];
  symtab = none;
  dysymtab = none;
  signature_range = none;
  build_versions = [];
  install_names = [];
  dependencies = [];
  rpaths = [];
  linkedit_ranges = [];
}

-- How often a number was seen.
abbrev pub occurrences : ℕ → List ℕ → ℕ
occurrences number [] = 0
occurrences number (other ∷ seen) =
    let rest = occurrences number seen in if other == number then suc rest else rest

abbrev pub once : LoadCommand → List ℕ → Bool
once c seen = occurrences (command_number c) seen == 1

-- The header, the rest of the file as one claim, and the load commands.
unfoldable pub load_commands :
    MachoFile → String → Outcome ParseError (List ℕ × (LoadState × AtomBuilder))
load_commands m prefix = do
  check_header m prefix
  let total = length m.bytes
  let load_end = 32 + field_le m.bytes 20 4
  b1 ←
      of_atom
        (add (new_builder m.bytes prefix) (pos 0) (pos 32) (claim "header" "invariant" []) false)
  b2 ← of_atom (
      if ltb load_end total
      then add b1 (pos load_end) (pos (total - load_end)) (claim "content" "invariant" []) false
      else ok b1)
  (end, (seen, (s, b3))) ←
      walk_commands m prefix load_end (field_le m.bytes 16 4) 0 32 b2 [] no_commands
  raise_if (not (end == load_end)) (parity "load commands do not exactly fill sizeofcmds" prefix)
  raise_if (not (once lc_symtab seen && (once lc_dysymtab seen && once lc_build_version seen)))
      (parity "requires exactly one symtab, dysymtab, and build-version command" prefix)
  ok (seen, (s, b3))
