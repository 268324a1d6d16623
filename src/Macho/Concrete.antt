-- ===== src/Macho/Concrete.antt =====
-- The regions of a file that `_parse_macho_bytes` of tools/abi_artifact_parity.py accepts.
use zynum.Macho.Sections.{Segment}
use zynum.Prelude.{
  map, ℕ, ◌+◌, ◌*◌, ◌≤◌, ◌<◌, ◌≡◌, ◌↔◌, List, ◌++◌, String, ◌<>◌, false, ◌==◌, ◌||◌, ge→ltb, ltb→ge,
  not, ok, arith, length,
}
use zynum.Parse.{field_le, range_check, raise_if}
use zynum.Parse.Guards.{raise_if-ok, bind-ok_unit, range_check-inside, range_check-accepts}
use zynum.Ranges.{check_disjoint}
use zynum.Ranges.Accepted.{check_disjoint_lem}
use zynum.Macho.Regions.{
  Regions, section_data_ranges, relocation_ranges, all_table_ranges, check_regions,
}
use zynum.Macho.Extents.{
  AreDisjoint, extent, regions_of, append-AreDisjoint, Thins-AreDisjoint, regions_thin,
  segments_thin,
}

-- The segments are apart, and so are the data and relocations of the sections with the tables; the
-- symbols and their texts lie in the file, and the texts start with a zero.
pub record AreSound (bytes : List ℕ) (r : Regions) : Type 0 where
  pub segments_disjoint :
      AreDisjoint (length bytes) (map (λ (s : Segment). extent s.fileoff s.filesize) r.segments)
  pub few_symbols : r.symtab.nsyms ≤ 4000000
  pub symbols_inside : r.symtab.symoff + r.symtab.nsyms * 16 ≤ length bytes
  pub texts_inside : r.symtab.stroff + r.symtab.strsize ≤ length bytes
  pub some_texts : 0 < r.symtab.strsize
  pub empty_text : field_le bytes r.symtab.stroff 1 ≡ 0
  pub regions_disjoint : AreDisjoint (length bytes) (regions_of r)

accepted :
    (bytes : List ℕ) (prefix : String) (r : Regions)
    → check_regions bytes prefix r ≡ ok tt
    → AreSound bytes r
unfolding check_regions
accepted bytes prefix r h =
    let (segments, h) = bind-ok_unit (check_disjoint _ _) _ h in
    let (_, h) = bind-ok_unit (check_disjoint _ _) _ h in
    let (_, h) = bind-ok_unit (check_disjoint _ _) _ h in
    let (few, h) = raise_if-ok _ _ _ h in
    let (symbols, h) = bind-ok_unit (range_check _ _ _ _) _ h in
    let (texts, h) = bind-ok_unit (range_check _ _ _ _) _ h in
    let (start, h) =
      raise_if-ok (r.symtab.strsize == 0 || not (field_le bytes r.symtab.stroff 1 == 0)) _ _ h in
    let (_, h) = bind-ok_unit (check_disjoint _ _) _ h in
    record {
      segments_disjoint =
          (Thins-AreDisjoint _ _ _ (segments_thin r.segments)).1
            ((check_disjoint_lem _ _).0 segments);
      few_symbols = ltb→ge _ _ few;
      symbols_inside = range_check-inside _ _ _ _ symbols;
      texts_inside = range_check-inside _ _ _ _ texts;
      some_texts = ground (arith, start);
      empty_text = ground (arith, start);
      regions_disjoint =
          (Thins-AreDisjoint _ _ _ (regions_thin r)).1 ((check_disjoint_lem _ _).0 h);
    }

sound :
    (bytes : List ℕ) (prefix : String) (r : Regions)
    → AreSound bytes r
    → check_regions bytes prefix r ≡ ok tt
unfolding check_regions raise_if
sound bytes prefix r s =
    let total = length bytes in
    let segments = (Thins-AreDisjoint total _ _ (segments_thin r.segments)).0 s.segments_disjoint in
    let regions = (Thins-AreDisjoint total _ _ (regions_thin r)).0 s.regions_disjoint in
    let (contents, others) =
      append-AreDisjoint total (section_data_ranges r.sections)
        (relocation_ranges r.sections ++ all_table_ranges r) regions in
    let (relocations, tables) =
      append-AreDisjoint total (relocation_ranges r.sections) (all_table_ranges r) others in
    let test : (r.symtab.strsize == 0 || not (field_le bytes r.symtab.stroff 1 == 0)) ≡ false =
      ground (arith, s.some_texts, s.empty_text) in
    rw
      (
        (check_disjoint_lem _ _).1 segments,
        (check_disjoint_lem _ _).1 contents,
        (check_disjoint_lem _ _).1 relocations,
        ge→ltb _ _ s.few_symbols,
        range_check-accepts _ _ _ (prefix <> ".symtab") s.symbols_inside,
        range_check-accepts _ _ _ (prefix <> ".strtab") s.texts_inside,
        test,
        (check_disjoint_lem _ _).1 tables,
      )
      ((check_disjoint_lem _ _).1 regions)

-- The regions of a file are accepted exactly if no two segments share a byte of it; there are at most
-- 4,000,000 symbols, which lie in it with their texts, and the texts start with a zero; and the data
-- and the relocations of the sections, the tables and the code signature lie in it, no two of them on
-- the same byte.
pub check_regions_lem :
    (bytes : List ℕ) (prefix : String) (r : Regions)
    → (check_regions bytes prefix r ≡ ok tt) ↔ AreSound bytes r
check_regions_lem bytes prefix r = (accepted bytes prefix r, sound bytes prefix r)
