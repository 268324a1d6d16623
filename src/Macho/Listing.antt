-- ===== src/Macho/Listing.antt =====
-- The segments and sections that the load commands of a file list, for tools/abi_artifact_parity.py.
use mathlib.Core.List.{append_assoc, append-nil}
use zynum.Prelude.{
  ℕ, suc, ◌+◌, ◌≡◌, refl, sym, ap, ◌∙◌, subst, String, List, [], ◌∷◌, ◌++◌, arith, length,
}
use zynum.Parse.{field_le}
use zynum.Macho.Sections.{Section, Segment, MachoFile}
use zynum.Macho.Placed.{AreSections, IsSegment}

-- Numbered one after the other.
abbrev pub AreNumbered {ℓ} : {A : Type ℓ} → (A → ℕ) → ℕ → List A → Type 0
AreNumbered index n [] = Unit {0}
AreNumbered index n (x ∷ xs) = (index x ≡ n) × AreNumbered index (suc n) xs

AreNumbered-append :
    {A : Type 0} (index : A → ℕ) (n k : ℕ) (xs ys : List A)
    → k ≡ n + length xs
    → AreNumbered index n xs
    → AreNumbered index k ys
    → AreNumbered index n (xs ++ ys)
AreNumbered-append index n k [] ys e p q = subst (λ k. AreNumbered index k ys) (omega (arith, e)) q
AreNumbered-append index n k (x ∷ xs) ys e (h, p) q =
    (h, AreNumbered-append index (suc n) k xs ys (omega (arith, e)) p q)

abbrev pub sections_of : List Segment → List Section
sections_of [] = []
sections_of (s ∷ segments) = s.sections ++ sections_of segments

sections_of-append :
    (segments : List Segment) (s : Segment)
    → sections_of (segments ++ (s ∷ [])) ≡ sections_of segments ++ s.sections
sections_of-append [] s = append-nil s.sections
sections_of-append (t ∷ segments) s =
    ap (λ l. t.sections ++ l) (sections_of-append segments s)
    ∙ sym (append_assoc t.sections (sections_of segments) s.sections)

-- The commands from the header up to an offset, with the segments and the sections that the segment
-- commands among them spell, in their order.
pub data AreListed (m : MachoFile) : ℕ → List Segment → List Section → Type 0 where
  listed_none : AreListed m 32 [] []
  listed_segment :
      {o : ℕ} {segments : List Segment} {sections : List Section} (s : Segment)
      → AreListed m o segments sections
      → field_le m.bytes o 4 ≡ 0x19
      → IsSegment m (length segments) (length sections) o (field_le m.bytes (o + 4) 4) s
      → AreListed m (o + field_le m.bytes (o + 4) 4) (segments ++ s ∷ []) (sections ++ s.sections)
  listed_other :
      {o : ℕ} {segments : List Segment} {sections : List Section}
      → AreListed m o segments sections
      → (field_le m.bytes o 4 ≡ 0x19 → ⊥)
      → AreListed m (o + field_le m.bytes (o + 4) 4) segments sections

-- The segments are numbered from 0 and the sections from 1, and the sections are those of the segments.
abbrev pub AreInOrder : List Segment → List Section → Type 0
AreInOrder segments sections =
    AreNumbered (λ (x : Segment). x.index) 0 segments
    × (AreNumbered (λ (x : Section). x.index) 1 sections × (sections ≡ sections_of segments))

AreSections-AreNumbered :
    (m : MachoFile) (name : String) (fileoff filesize index o : ℕ) (sections : List Section)
    → AreSections m name fileoff filesize index o sections
    → AreNumbered (λ (x : Section). x.index) index sections
AreSections-AreNumbered m name fileoff filesize index o [] h = tt
AreSections-AreNumbered m name fileoff filesize index o (s ∷ sections) (first, rest) = (
  ap (λ (x : Section). x.index) first.spelled,
  AreSections-AreNumbered m name fileoff filesize (suc index) (o + 80) sections rest,
)

pub AreListed-AreInOrder :
    (m : MachoFile) (o : ℕ) (segments : List Segment) (sections : List Section)
    → AreListed m o segments sections
    → AreInOrder segments sections
AreListed-AreInOrder m o segments sections listed_none = (tt, (tt, refl))
AreListed-AreInOrder m o segments sections (listed_other h n) = AreListed-AreInOrder m _ _ _ h
AreListed-AreInOrder m o segments sections
      (listed_segment {segments = before} {sections = listed} s h n new) =
    let (p, (q, same)) = AreListed-AreInOrder m _ before listed h in
    (
      AreNumbered-append _ 0 _ before _ (omega arith) p (new.numbered, tt),
      (
        AreNumbered-append _ 1 (suc (length listed)) listed s.sections (omega arith) q
            (AreSections-AreNumbered m _ _ _ _ _ s.sections new.sections_placed),
        ap (λ l. l ++ s.sections) same ∙ sym (sections_of-append before s),
      ),
    )
