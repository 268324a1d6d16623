-- ===== src/Macho/Given.antt =====
-- The claims of a segment command in tools/abi_artifact_parity.py, once it has been read.
use zynum.Prelude.{
  ap, ◌++◌, ℕ, ◌+◌, ◌≡◌, refl, sym, ◌∙◌, subst, String, List, [], ◌∷◌, same, string_eq, ok-value,
  ok, bind-ok, length,
}
use zynum.Atoms.{AtomBuilder}
use zynum.Parse.{field_le}
use zynum.Macho.Kinds.{lc_segment_64}
use zynum.Macho.Sections.{Segment, MachoFile, read_segment}
use zynum.Macho.Placed.{IsSegment, read_segment-IsSegment}
use zynum.Macho.Chain.{IsCommand, HasNumber}
use zynum.Macho.Commands.{Command, LoadState, read_command}
use zynum.Macho.Marks.{claim_segment, claim_last}
use zynum.Macho.Covered.{Covers, claim_segment-Covers}

claim_last-append :
    (m : MachoFile) (dependency : String) (b : AtomBuilder) (c : Command) (before : List Segment)
    (segment : Segment)
    → claim_last m dependency b c (before ++ segment ∷ []) ≡ claim_segment m dependency b c segment
unfolding claim_last
claim_last-append m dependency b c [] segment = refl
claim_last-append m dependency b c (s ∷ []) segment = refl
claim_last-append m dependency b c (s ∷ t ∷ before) segment =
    claim_last-append m dependency b c (t ∷ before) segment

-- The segment that the state has gained.
read_command-segment :
    (m : MachoFile) (c : Command) (s s' : LoadState)
    → read_command lc_segment_64 m c s ≡ ok s'
    → (segment : Segment) × IsSegment m
        (length s.segments)
        (length s.sections)
        c.offset
        c.size
        segment
      × (s'.segments ≡ s.segments ++ segment ∷ [])
unfolding read_command
read_command-segment m c s s' h =
    let (segment, read, h) =
      bind-ok (read_segment m c.locator (length s.segments) (length s.sections) c.offset c.size) _
        h in
    (
      segment,
      read_segment-IsSegment m c.locator _ _ _ _ segment read,
      sym (ap (λ (x : LoadState). x.segments) (ok-value h)),
    )

-- The claims of a segment command that was read.
pub claim_last-Covers :
    (m : MachoFile) (load_end low high : ℕ) (dependency : String) (b b' : AtomBuilder) (c : Command)
    (s s' : LoadState)
    → IsCommand m.bytes load_end c.offset
    → HasNumber m c.offset 0x19
    → c.size ≡ field_le m.bytes (c.offset + 4) 4
    → read_command lc_segment_64 m c s ≡ ok s'
    → Covers m load_end low high b
    → claim_last m dependency b c s'.segments ≡ ok b'
    → Covers m load_end low high b'
claim_last-Covers m load_end low high dependency b b' c s s' at n size read k h =
    let (segment, new, same) = read_command-segment m c s s' read in
    claim_segment-Covers m load_end low high dependency b b' c segment _ _ at n size new k (
      sym (claim_last-append m dependency b c s.segments segment)
      ∙ subst (λ l. claim_last m dependency b c l ≡ ok b') same h)
