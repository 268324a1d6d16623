-- ===== src/Macho/Marks.antt =====
-- tools/abi_artifact_parity.py, `_parse_macho_bytes`: the claims within the load commands.
use zynum.Prelude.{
  ℕ, suc, ◌+◌, ◌*◌, String, ◌<>◌, Bool, true, false, ◌&&◌, not, none, some, List, [], ◌∷◌, ltb,
  ◌==◌, if◌then◌else◌, same, string_eq, Outcome, ok, ◌>>=◌, ◌>>◌, length,
}
use zynum.Atoms.{AtomBuilder, Metadata}
use zynum.Atoms.Finish.{decimal}
use zynum.Parse.{ParseError, parity, raise_if, of_atom, field_le}
use zynum.Signature.{claim, replaced, dynamic_dependencies}
use zynum.Macho.Kinds.{
  LoadCommand, lc_segment_64, lc_symtab, lc_dysymtab, lc_uuid, lc_code_signature,
  lc_function_starts, lc_data_in_code, lc_linker_optimization_hint,
}
use zynum.Macho.Sections.{section_locator, Section, Segment, MachoFile, is_object, is_zerofill}
use zynum.Macho.Layout.{is_debug_line, object_debug_lines, is_tail}
use zynum.Macho.Commands.{LoadState, Command}

-- A replacing claim of derived bytes, if it is wanted.
unfoldable pub derived :
    Bool → AtomBuilder → ℕ → ℕ → String → List String → Outcome ParseError AtomBuilder
derived true b start size locator depends_on =
    of_atom (replaced b start size (claim locator "derived_field" depends_on))
derived false b start size locator depends_on = ok b

-- Whether a section lies behind the first line table of its segment.
abbrev pub moves : List Section → Section → Bool
moves [] s = false
moves (debug ∷ lines) s = is_tail debug s

unfoldable pub claim_section :
    String → String → List Section → AtomBuilder → ℕ → ℕ → Section → Outcome ParseError AtomBuilder
claim_section dependency locator lines b base local_index s = do
  b1 ←
      derived (is_debug_line s) b (base + 40) 8
        (section_locator locator local_index "debug_line_size") (dependency ∷ [])
  raise_if (moves lines s && not (is_zerofill s))
      (parity "only zero-fill sections may follow __debug_line in object address layout" locator)
  b2 ←
      derived (moves lines s) b1 (base + 32) 8 (section_locator locator local_index "addr")
        (dependency ∷ [])
  derived (not (s.reloff == 0)) b2 (base + 56) 4 (section_locator locator local_index "reloff")
      (dependency ∷ [])

unfoldable pub claim_sections :
    String
    → String
    → List Section
    → AtomBuilder
    → ℕ
    → ℕ
    → List Section
    → Outcome ParseError AtomBuilder
claim_sections dependency locator lines b base local_index [] = ok b
claim_sections dependency locator lines b base local_index (s ∷ sections) = do
  b' ← claim_section dependency locator lines b base local_index s
  claim_sections dependency locator lines b' (base + 80) (suc local_index) sections

-- The sizes of a segment.
unfoldable pub claim_sizes : List String → AtomBuilder → Command → Outcome ParseError AtomBuilder
claim_sizes depends_on b c = do
  b' ← derived true b (c.offset + 32) 8 (c.locator <> ".derived_vmsize") depends_on
  derived true b' (c.offset + 48) 8 (c.locator <> ".derived_filesize") depends_on

unfoldable pub claim_segment :
    MachoFile → String → AtomBuilder → Command → Segment → Outcome ParseError AtomBuilder
claim_segment m dependency b c segment =
    if is_object m
    then (do
      b' ← claim_sizes (dependency ∷ []) b c
      raise_if (ltb 1 (length (object_debug_lines segment.sections)))
          (parity "multiple __DWARF,__debug_line sections in one object segment" c.locator)
      claim_sections dependency c.locator (object_debug_lines segment.sections) b' (c.offset + 72) 0
          segment.sections)
    else (if same segment.name "__LINKEDIT" then claim_sizes dynamic_dependencies b c else ok b)

-- The segment that was read last.
unfoldable pub claim_last :
    MachoFile → String → AtomBuilder → Command → List Segment → Outcome ParseError AtomBuilder
claim_last m dependency b c [] = ok b
claim_last m dependency b c (segment ∷ []) = claim_segment m dependency b c segment
claim_last m dependency b c (segment ∷ next ∷ segments) =
    claim_last m dependency b c (next ∷ segments)

-- The offsets of LC_DYSYMTAB that are not zero, at the fields of the given indices.
unfoldable pub claim_offsets :
    MachoFile → String → AtomBuilder → Command → List ℕ → Outcome ParseError AtomBuilder
claim_offsets m dependency b c [] = ok b
claim_offsets m dependency b c (i ∷ indices) = do
  b' ←
      derived (not (field_le m.bytes (c.offset + 8 + i * 4) 4 == 0)) b (c.offset + 8 + i * 4) 4
        (c.locator <> (".offset[" <> (decimal i <> "]"))) (dependency ∷ [])
  claim_offsets m dependency b' c indices

abbrev pub uuid_claim : Metadata
uuid_claim = record {
  locator = "load[LC_UUID].uuid";
  role = "allowed_payload";
  depends_on = [];
  note = some "fresh-build UUID";
  canonical_payload = none;
}

-- The layout of a table that an object has.
unfoldable pub claim_layout :
    MachoFile → String → AtomBuilder → Command → Outcome ParseError AtomBuilder
claim_layout m dependency b c =
    derived (is_object m && not (field_le m.bytes (c.offset + 12) 4 == 0)) b (c.offset + 8) 8
      (c.locator <> ".layout") (dependency ∷ [])

-- The claims within a command, when it has been read.
unfoldable pub claim_command :
    LoadCommand
    → MachoFile
    → String
    → AtomBuilder
    → Command
    → LoadState
    → Outcome ParseError AtomBuilder
claim_command lc_segment_64 m dependency b c s = claim_last m dependency b c s.segments
claim_command lc_symtab m dependency b c s =
    if is_object m
    then derived true b (c.offset + 8) 16 (c.locator <> ".layout") (dependency ∷ [])
    else derived true b (c.offset + 20) 4 (c.locator <> ".strsize") ("macho.symtab.n_oso.path" ∷ [])
claim_command lc_dysymtab m dependency b c s =
    if is_object m then claim_offsets m dependency b c (6 ∷ 8 ∷ 10 ∷ 12 ∷ 14 ∷ 16 ∷ []) else ok b
claim_command lc_uuid m dependency b c s = of_atom (replaced b (c.offset + 8) 16 uuid_claim)
claim_command lc_code_signature m dependency b c s =
    derived true b (c.offset + 8) 8 (c.locator <> ".layout") dynamic_dependencies
claim_command lc_function_starts m dependency b c s = claim_layout m dependency b c
claim_command lc_data_in_code m dependency b c s = claim_layout m dependency b c
claim_command lc_linker_optimization_hint m dependency b c s = claim_layout m dependency b c
claim_command _ m dependency b c s = ok b
