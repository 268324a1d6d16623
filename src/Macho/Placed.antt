-- ===== src/Macho/Placed.antt =====
-- What a segment command and its sections are, once `_parse_macho_bytes` of
-- tools/abi_artifact_parity.py has accepted them.
use zynum.Prelude.{
  ℕ, zero, suc, ◌+◌, ◌*◌, ◌≤◌, ◌≡◌, ◌⊎◌, refl, ap, subst, inl, inr, String, Bool, true, false, ◌||◌,
  ◌&&◌, not, List, [], ◌∷◌, ltb, ltb→ge, leb, ◌==◌, same, same→eq, string_eq, &&-true, Bool-cases,
  ok-value, ok, bind-ok, arith, length, Outcome,
}
use zynum.Parse.{ParseError, range_check, field_le}
use zynum.Parse.Guards.{raise_if-ok, raise_if-only, bind-ok_unit, range_check-inside}
use zynum.Macho.Names.{fixed_name}
use zynum.Macho.Padded.{IsPadded, fixed_name_lem}
use zynum.Atoms.Finish.{slice}
use zynum.Macho.Sections.{
  Section, Segment, MachoFile, is_object, is_zerofill, run_if, section_header, check_section,
  read_section, read_sections, max_sections, read_segment,
}

-- The contents of a section that takes up the file lie in it, and in the segment unless the file is an
-- object.
pub record HasContents (m : MachoFile) (fileoff filesize : ℕ) (s : Section) : Type 0 where
  pub inside : s.offset + s.size ≤ length m.bytes
  pub in_segment :
      (is_object m ≡ true) ⊎ ((fileoff ≤ s.offset) × (s.offset + s.size ≤ fileoff + filesize))

-- The section that the 80 bytes at an offset spell, in a segment from `fileoff` on.
pub record IsSection (m : MachoFile) (name : String) (fileoff filesize index o : ℕ) (s : Section)
    : Type 0 where
  pub header_inside : o + 80 ≤ length m.bytes
  pub spelled : s ≡ section_header m.bytes o index s.segment s.name
  pub named : IsPadded m.decode (slice m.bytes o (o + 16)) s.name
  pub segment_named : IsPadded m.decode (slice m.bytes (o + 16) (o + 32)) s.segment
  pub owned : (s.segment ≡ name) ⊎ ((is_object m ≡ true) × (name ≡ ""))
  pub few_bits : s.align ≤ 63
  pub contents : (is_zerofill s ≡ true) ⊎ HasContents m fileoff filesize s
  pub relocations_inside : (s.nreloc ≡ 0) ⊎ (s.reloff + s.nreloc * 8 ≤ length m.bytes)

-- The sections behind each other from an offset on, numbered from `index` on.
abbrev pub AreSections : MachoFile → String → ℕ → ℕ → ℕ → ℕ → List Section → Type 0
AreSections m name fileoff filesize index o [] = Unit {0}
AreSections m name fileoff filesize index o (s ∷ sections) =
    IsSection m name fileoff filesize index o s
    × AreSections m name fileoff filesize (suc index) (o + 80) sections

pub run_if-ok :
    (test : Bool) (check : Outcome ParseError (Unit {0}))
    → run_if test check ≡ ok tt
    → (test ≡ false) ⊎ (check ≡ ok tt)
unfolding run_if
run_if-ok true check h = inr h
run_if-ok false check h = inl refl

check_contents :
    (m : MachoFile) (fileoff filesize : ℕ) (s : Section)
    → s.offset + s.size ≤ length m.bytes
    → (not (is_object m)
        && not (leb fileoff s.offset && leb (s.offset + s.size) (fileoff + filesize)))
      ≡ false
    → HasContents m fileoff filesize s
check_contents m fileoff filesize s inside test = record {
  inside = inside;
  in_segment = elim (Bool-cases (is_object m)) [
    | inl e ↦ inl e
    | inr e ↦ let test = rw e at test in inr (ground (arith, test), ground (arith, test))
  ];
}

record IsChecked (m : MachoFile) (fileoff filesize : ℕ) (s : Section) : Type 0 where
  few_bits : s.align ≤ 63
  contents : (is_zerofill s ≡ true) ⊎ HasContents m fileoff filesize s
  relocations_inside : (s.nreloc ≡ 0) ⊎ (s.reloff + s.nreloc * 8 ≤ length m.bytes)

check_section-IsChecked :
    (m : MachoFile) (locator : String) (fileoff filesize : ℕ) (s : Section)
    → check_section m locator fileoff filesize s ≡ ok tt
    → IsChecked m fileoff filesize s
unfolding check_section
check_section-IsChecked m locator fileoff filesize s h =
    let (bits, h) = raise_if-ok (ltb 63 s.align) _ _ h in
    let (contents, h) = bind-ok_unit (run_if (not (is_zerofill s)) _) _ h in
    record {
      few_bits = ltb→ge _ _ bits;
      contents = elim (run_if-ok _ _ contents) [
        | inl e ↦ inl (ground (arith, e))
        | inr k ↦
            let (inside, k) = bind-ok_unit (range_check _ _ _ _) _ k in
            inr (
              check_contents m fileoff filesize s (range_check-inside _ _ _ _ inside)
                (raise_if-only _ _ k))
      ];
      relocations_inside = elim (run_if-ok _ _ h) [
        | inl e ↦ inl (ground (arith, e))
        | inr k ↦ inr (range_check-inside _ _ _ _ k)
      ];
    }

read_section-IsSection :
    (m : MachoFile) (locator name : String) (fileoff filesize index local_index o : ℕ) (s : Section)
    → read_section m locator name fileoff filesize index local_index o ≡ ok s
    → IsSection m name fileoff filesize index o s
unfolding read_section
read_section-IsSection m locator name fileoff filesize index local_index o s h =
    let (buffer, h) = raise_if-ok _ _ _ h in
    let (sectname, first, h) = bind-ok (fixed_name _ _ _) _ h in
    let (segment, second, h) = bind-ok (fixed_name _ _ _) _ h in
    let (owner, h) =
      raise_if-ok (not (same segment name) && not (is_object m && same name "")) _ _ h in
    let (checked, h) = bind-ok_unit (check_section _ _ _ _ _) _ h in
    let c =
      check_section-IsChecked m locator fileoff filesize
        (section_header m.bytes o index segment sectname) checked in
    subst (λ s. IsSection m name fileoff filesize index o s) (ok-value h)
      (record {
        header_inside = ltb→ge _ _ buffer;
        spelled = refl;
        named = (fixed_name_lem m.decode _ _ sectname).0 first;
        segment_named = (fixed_name_lem m.decode _ _ segment).0 second;
        owned = elim (Bool-cases (same segment name)) [
          | inl e ↦ inl (same→eq _ _ e)
          | inr e ↦
              let (object, unnamed) =
                &&-true (is_object m) (same name "") (ground (arith, owner, e)) in
              inr (object, same→eq _ _ unnamed)
        ];
        few_bits = c.few_bits;
        contents = c.contents;
        relocations_inside = c.relocations_inside;
      })

read_sections-AreSections :
    (m : MachoFile) (locator name : String) (fileoff filesize nsects index local_index o : ℕ)
    (sections : List Section)
    → read_sections m locator name fileoff filesize nsects index local_index o ≡ ok sections
    → (length sections ≡ nsects) × AreSections m name fileoff filesize index o sections
unfolding read_sections
read_sections-AreSections m locator name fileoff filesize zero index local_index o sections h =
    subst (λ l. (length l ≡ 0) × AreSections m name fileoff filesize index o l) (ok-value h)
      (refl, tt)
read_sections-AreSections m locator name fileoff filesize (suc nsects) index local_index o sections
      h =
    let (s, first, h) =
      bind-ok (read_section m locator name fileoff filesize index local_index o) _ h in
    let (rest, further, h) =
      bind-ok
        (read_sections m locator name fileoff filesize nsects (suc index) (suc local_index)
          (o + 80))
        _ h in
    let one = read_section-IsSection m locator name fileoff filesize index local_index o s first in
    let (count, more) =
      read_sections-AreSections m locator name fileoff filesize nsects (suc index) (suc local_index)
        (o + 80) rest further in
    subst (λ l. (length l ≡ suc nsects) × AreSections m name fileoff filesize index o l)
      (ok-value h) (ap suc count, (one, more))

-- The segment that a command at an offset describes, behind `before` segments and `sections_before`
-- sections of the file.
pub record IsSegment (m : MachoFile) (before sections_before o command_size : ℕ) (s : Segment)
    : Type 0 where
  pub numbered : s.index ≡ before
  pub named : IsPadded m.decode (slice m.bytes (o + 8) (o + 24)) s.name
  pub header_inside : o + 72 ≤ length m.bytes
  pub size_eq : command_size ≡ 72 + 80 * length s.sections
  pub few_sections : length s.sections ≤ max_sections
  pub inside : s.fileoff + s.filesize ≤ length m.bytes
  pub spelled :
      (s.fileoff ≡ field_le m.bytes (o + 40) 8) × (s.filesize ≡ field_le m.bytes (o + 48) 8)
  pub sections_placed :
      AreSections m s.name s.fileoff s.filesize (suc sections_before) (o + 72) s.sections

pub read_segment-IsSegment :
    (m : MachoFile) (locator : String) (before sections_before o command_size : ℕ) (s : Segment)
    → read_segment m locator before sections_before o command_size ≡ ok s
    → IsSegment m before sections_before o command_size s
unfolding read_segment
read_segment-IsSegment m locator before sections_before o command_size s h =
    let (_, h) = raise_if-ok _ _ _ h in
    let (buffer, h) = raise_if-ok _ _ _ h in
    let (count, h) =
      raise_if-ok
        (ltb max_sections (field_le m.bytes (o + 64) 4)
          || not (command_size == 72 + 80 * field_le m.bytes (o + 64) 4))
        _ _ h in
    let (name, read_name, h) = bind-ok (fixed_name _ _ _) _ h in
    let (inside, h) = bind-ok_unit (range_check _ _ _ _) _ h in
    let (sections, read, h) = bind-ok (read_sections _ _ _ _ _ _ _ _ _) _ h in
    let (length_eq, placed) = read_sections-AreSections _ _ _ _ _ _ _ _ _ sections read in
    subst (λ s. IsSegment m before sections_before o command_size s) (ok-value h)
      (record {
        numbered = refl;
        named = (fixed_name_lem m.decode _ _ name).0 read_name;
        header_inside = ltb→ge _ _ buffer;
        size_eq = ground (arith, count, length_eq);
        few_sections = ground (arith, count, length_eq);
        inside = range_check-inside _ _ _ _ inside;
        spelled = (refl, refl);
        sections_placed = placed;
      })
