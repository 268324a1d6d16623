-- ===== src/Macho/Derived.antt =====
-- The layout of an object that `_parse_macho_bytes` of tools/abi_artifact_parity.py accepts.
use zynum.Prelude.Only.{IsOnly, keep, keep-IsOnly, IsOnly-same, Any}
use zynum.Prelude.{
  refl, sym, ◌∙◌, &&-true, same→eq, eq→same, string_eq, ℕ, ◌+◌, ◌≡◌, ◌⊎◌, subst, inl, inr, String,
  true, List, [], ◌∷◌, ok-value, ok, bind-ok, arith,
}
use zynum.Parse.Guards.{bind-ok_unit}
use zynum.Dwarf.Lines.{the_only}
use zynum.Dwarf.Accepted.{the_only-ok}
use zynum.Macho.Sections.{Section, Segment}
use zynum.Macho.Placed.{run_if-ok}
use zynum.Macho.Stack.{IsStacked, shifted_indices-IsStacked, AreTails, tail_sections-AreTails}
use zynum.Macho.Layout.{
  is_debug_line, object_debug_lines, file_sections, whole_file_segment, tail_sections,
  shifted_indices, check_contents, object_layout,
}
use zynum.Macho.Contents.{TakesFile, IsDerived, check_segment-IsDerived, Any-file_sections}

-- The one segment is the whole file.
pub record IsWhole (total : ℕ) (segment : Segment) : Type 0 where
  pub from_start : segment.fileoff ≡ 0
  pub to_end : segment.filesize ≡ total
  pub from_zero : segment.vmaddr ≡ 0
  pub as_long : segment.vmsize ≡ total

whole_file_segment-IsWhole :
    (total : ℕ) (segment : Segment)
    → whole_file_segment total segment ≡ true
    → IsWhole total segment
whole_file_segment-IsWhole total segment h = record {
  from_start = ground (arith, h);
  to_end = ground (arith, h);
  from_zero = ground (arith, h);
  as_long = ground (arith, h);
}

check_contents-IsDerived :
    (total : ℕ) (prefix : String) (segment : Segment) (sections files : List Section)
    → file_sections sections ≡ files
    → check_contents total prefix segment sections files ≡ ok tt
    → Any (λ s. TakesFile s × Unit {0}) sections
      × (IsWhole total segment ⊎ IsDerived segment sections)
unfolding check_contents
check_contents-IsDerived total prefix segment sections [] listed h = absurd (cc h)
check_contents-IsDerived total prefix segment sections (first ∷ others) listed h = (
  Any-file_sections (λ s. Unit {0}) sections
      (subst (λ l. Any (λ s. Unit {0}) l) (sym listed) (inl tt)),
  elim (run_if-ok _ _ h) [
    | inl e ↦ inl (whole_file_segment-IsWhole total segment (ground (arith, e)))
    | inr k ↦ inr (check_segment-IsDerived prefix segment first others sections listed k)
  ],
)

-- The section of a line table.
abbrev pub IsDebugLine : Section → Type 0
IsDebugLine s = (s.segment ≡ "__DWARF") × (s.name ≡ "__debug_line")

object_debug_lines-IsOnly :
    (sections : List Section) (debug : Section)
    → object_debug_lines sections ≡ debug ∷ []
    → IsOnly IsDebugLine debug sections
object_debug_lines-IsOnly sections debug h =
    IsOnly-same (λ s. is_debug_line s ≡ true) IsDebugLine debug sections
      (λ s k. let (a, b) = &&-true _ _ k in (same→eq _ _ a, same→eq _ _ b))
      (λ s (a, b). rw (eq→same _ _ a, eq→same _ _ b) refl)
      (keep-IsOnly is_debug_line debug sections (sym (listed sections) ∙ h))
  where
    listed : (sections : List Section) → object_debug_lines sections ≡ keep is_debug_line sections
    listed [] = refl
    listed (s ∷ sections) = rw (listed sections) refl

-- The layout of an object: its segment, the section of its line table, and those that move with that.
pub record IsLayout (total : ℕ) (segments : List Segment) (sections : List Section)
    (debug : Section) (indices : List ℕ) : Type 0 where
  pub segment : Segment
  pub alone : segments ≡ segment ∷ []
  pub line_table : IsOnly IsDebugLine debug sections
  pub filled : Any (λ s. TakesFile s × Unit {0}) sections
  pub contents : IsWhole total segment ⊎ IsDerived segment sections
  pub tails : List Section
  pub tails_there : AreTails debug sections tails
  pub stacked : IsStacked (debug.addr + debug.size) tails indices

-- The layout of an object that is accepted follows from its sections: there is one segment, and one
-- section __DWARF,__debug_line; some section has contents in the file; the segment is the whole file, or
-- it starts at the first of the sections with contents and ends with the last of them, each as far
-- behind its start as the address says, and its addresses end with the last of all sections; and the
-- other sections whose addresses are not before the end of the line table are zero-fill sections that
-- stand, one behind the other, at the least address that their alignments allow, and their indices
-- are returned in this order.
pub object_layout-IsLayout :
    (total : ℕ) (prefix : String) (segments : List Segment) (sections : List Section)
    (debug : Section) (indices : List ℕ)
    → object_layout total prefix segments sections ≡ ok (debug, indices)
    → IsLayout total segments sections debug indices
unfolding object_layout
object_layout-IsLayout total prefix segments sections debug indices h =
    let (segment, alone, h) = bind-ok (the_only segments _) _ h in
    let (debug', lines, h) = bind-ok (the_only (object_debug_lines sections) _) _ h in
    let (contents, h) =
      bind-ok_unit (check_contents total prefix segment sections (file_sections sections)) _ h in
    let (indices', tails, h) =
      bind-ok (shifted_indices prefix (debug'.addr + debug'.size) (tail_sections debug' sections)) _
        h in
    let (filled, contents) =
      check_contents-IsDerived total prefix segment sections (file_sections sections) refl
        contents in
    subst (λ r. IsLayout total segments sections r.0 r.1) (ok-value h)
      (record {
        segment = segment;
        alone = the_only-ok _ _ segment alone;
        line_table = object_debug_lines-IsOnly sections debug' (the_only-ok _ _ debug' lines);
        filled = filled;
        contents = contents;
        tails = tail_sections debug' sections;
        tails_there = tail_sections-AreTails debug' sections;
        stacked = shifted_indices-IsStacked _ _ _ indices' tails;
      })
