-- ===== src/Lib.antt =====
-- Zynum: the Python tooling beside the BLAS library, and its correctness.
--
-- tools/abi_artifact_parity.py decides whether two Darwin artifacts are the same ABI. It assigns
-- every byte of an artifact to one atom: `_AtomBuilder` takes claims of byte ranges, keeps them in
-- an AVL tree of half-open intervals (`_AtomInterval`), and `finish` returns the atoms.
--
-- * Interval.antt models `_AtomInterval` and the functions over it: `interval_height` to
--   `ordered_intervals` are `_interval_height` to `_ordered_intervals`. A `while` that walks down
--   the tree is structural recursion. The traversal with an explicit stack has the number of nodes
--   as fuel, and pops one node in each round. Interval/Outline has the list that a tree stands
--   for.
-- * Atoms.antt models `_require_range` and the methods of `_AtomBuilder` up to `add`; the state is
--   the record AtomBuilder. Atoms/Finish models `ByteAtom` and `finish`. The scan of `_overlaps`
--   has one more than the number of nodes as fuel. Atoms/Layout reads a sorted list of ranges as a
--   value for each byte, which is the view in which the theorems are stated.
-- * Fields.antt models `_uleb`, `_cstring` and `_parse_ascii_int`, which read a variable-length
--   number, a terminated text and a number in digits. The loop of `_uleb` has as fuel the ten
--   rounds that its condition allows. The limit on the decimal digits that `int` takes is Python's
--   default. Ranges.antt models `_check_disjoint`.
-- * Parse.antt has what the parsers share: `struct.unpack_from` on bytes, `_text`, and ParityError.
--   Signature.antt models `parse_code_directory` with its tests, the loop over the pages, and its
--   claims.
-- * Archive/Table models `parse_ranlib`, and Archive/Layout and Archive/Reader
--   `parse_static_archive` up to the loop over the members' objects. The loop over the members and
--   the loop over the string table have as fuel the number of bytes; a round of the first reads 60
--   bytes or more, and one of the second a byte or more.
-- * Dwarf has the line tables of an object: Dwarf/Tables models the header of a unit and the loops of
--   `parse_dwarf_v4_debug_line` over directories and files, Dwarf/Lines the loop over the units, the
--   choice of the cache directory and the claims, and Dwarf/Cache `GLOBAL_CACHE_DIR_RE`. The loops
--   over directories and files have as fuel one more than the number of bytes, and read a byte or
--   more in a round; the loop over the units has that number, and reads ten.
-- * Macho has parts of `_parse_macho_bytes`: Macho/Kinds and Macho/Commands have the load commands and
--   what each adds to the state, which is the record LoadState; Macho/Marks has their claims, and
--   Macho/Walk the header and the loop over the commands, as many as the header counts. A command is
--   read before its claims are made. Macho/Sections reads a segment command with its sections, Macho/Regions tests that the
--   regions of the file are disjoint, and Macho/Layout that the layout of an object follows from its
--   sections. Macho/Names models `_fixed_name`, `_parse_load_string` and `_align_up`. A section is told
--   from another by its index, which is its place in the file.
-- * Parity has the comparison of artifacts that were read: Parity/Pairing and Parity/Evidence model
--   the loop of `_compare_parsed` over the locators, Parity/Symbols `_symbol_axes`, and
--   Parity/Compare `canonicalize_atoms` and the verdict. Parity/Axes models `_normalized_axes`, and
--   Parity/Provenance `bind_provenance` and `compare_dynamic_artifact_pair`. A dictionary is a list
--   of items, in the order of their first insertion; a list that a loop appends to is what its
--   rounds add. What json.dumps, hashlib, repr and re.fullmatch return are parameters.
-- * Prelude has the shared names, Python's `==` as an instance, and exceptions as values.
--
-- bench/tools/report_schedule.py orders the fresh processes of the benchmark reports.
--
-- * Schedule.antt models its functions, with what `collect_repeats` returns; its announcements are
--   left out. A label is a text whose normal form is a parameter: it is made by `str.strip`,
--   `str.lower` and `re.sub`.
--
-- tools/repack_darwin_archive.py rebuilds an archive from its members.
--
-- * Members.antt models `member_names`, from the lines of the listing; what runs `ar` and moves files
--   is not modelled.
--
-- Bytes are natural numbers; offsets and sizes that a caller passes are integers, and natural
-- numbers once `_require_range` has passed them. The decoding of UTF-8 and SHA-256 are parameters.
-- Not modelled: the symbols and relocations of a Mach-O file with their claims, and with these the
-- objects of an archive's members. The other Python tools are not modelled: most run
-- compilers, git or benchmarks, and read and write files.
pub mod Prelude
pub mod Archive
pub mod Atoms
pub mod Dwarf
pub mod Fields
pub mod Interval
pub mod Macho
pub mod Members
pub mod Parity
pub mod Parse
pub mod Ranges
pub mod Schedule
pub mod Signature
