-- ===== src/Macho/Extents.antt =====
-- The regions of a file as it has them, for the tests in `_parse_macho_bytes` of
-- tools/abi_artifact_parity.py.
use zynum.Prelude.Only.{All-imp}
use zynum.Macho.Sections.{Section, Segment, is_zerofill}
use zynum.Prelude.{
  ◌%◌, sym, map, if◌then◌else◌, Option, none, some, Bool-cases, inl, inr, refl, ℕ, ◌*◌, ◌≡◌, ◌↔◌,
  List, [], ◌∷◌, ◌++◌, ◌==◌, ◌||◌, All, arith,
}
use zynum.Ranges.{Range}
use zynum.Ranges.Disjoint.{IsInside, IsApart, AreApart, IsApart-sym}
use zynum.Macho.Regions.{
  Regions, segment_file_ranges, section_data_ranges, relocation_ranges, concrete_ranges,
  signature_ranges,
}

append-All : {A : Type 0} (P : A → Type 0) (xs ys : List A) → All P (xs ++ ys) → All P xs × All P ys
append-All P [] ys h = (tt, h)
append-All P (x ∷ xs) ys (p, h) = let (front, back) = append-All P xs ys h in ((p, front), back)

-- Ranges that fit into `total` bytes next to each other.
abbrev pub AreDisjoint : ℕ → List Range → Type 0
AreDisjoint total ranges = All (λ r. IsInside total r) ranges × AreApart ranges

append-AreApart : (xs ys : List Range) → AreApart (xs ++ ys) → AreApart xs × AreApart ys
append-AreApart [] ys h = (tt, h)
append-AreApart (x ∷ xs) ys (first, h) =
    let (front, back) = append-AreApart xs ys h in
    (((append-All (λ s. IsApart x s) xs ys first).0, front), back)

pub append-AreDisjoint :
    (total : ℕ) (xs ys : List Range)
    → AreDisjoint total (xs ++ ys)
    → AreDisjoint total xs × AreDisjoint total ys
append-AreDisjoint total xs ys (inside, apart) =
    let (i, j) = append-All (λ r. IsInside total r) xs ys inside in
    let (a, b) = append-AreApart xs ys apart in ((i, a), (j, b))

-- The ranges of a file as it has them, without names, whether they are empty or not.
abbrev pub extent : ℕ → ℕ → Range
extent start size = record { start = start; size = size; name = "" }

abbrev pub contents_of : Section → Range
contents_of s = extent s.offset (if s.flags % 256 == 1 || s.flags % 256 == 18 then 0 else s.size)

abbrev pub relocations_of : Section → Range
relocations_of s = extent s.reloff (8 * s.nreloc)

abbrev pub signature_of : Option (ℕ × ℕ) → List Range
signature_of none = []
signature_of (some (offset, size)) = extent offset size ∷ []

abbrev pub tables_of : Regions → List Range
tables_of r =
    r.linkedit_ranges
    ++ (extent r.symtab.symoff (16 * r.symtab.nsyms)
        ∷ extent r.symtab.stroff r.symtab.strsize
        ∷ signature_of r.signature_range)

-- The contents and the relocations of all sections, the tables of the commands, the symbols, their
-- texts and the code signature.
abbrev pub regions_of : Regions → List Range
regions_of r = map contents_of r.sections ++ (map relocations_of r.sections ++ tables_of r)

-- The second list has the ranges of the first one, but for names and empty ranges.
pub data Thins : List Range → List Range → Type 0 where
  thin_end : Thins [] []
  thin_keep :
      {xs ys : List Range} (x y : Range)
      → Thins xs ys
      → x.start ≡ y.start
      → x.size ≡ y.size
      → Thins (x ∷ xs) (y ∷ ys)
  thin_drop : {xs ys : List Range} (x : Range) → Thins xs ys → x.size ≡ 0 → Thins (x ∷ xs) ys

Thins-append : (xs ys us vs : List Range) → Thins xs ys → Thins us vs → Thins (xs ++ us) (ys ++ vs)
Thins-append xs ys us vs thin_end q = q
Thins-append xs ys us vs (thin_keep x y p e f) q = thin_keep x y (Thins-append _ _ us vs p q) e f
Thins-append xs ys us vs (thin_drop x p e) q = thin_drop x (Thins-append _ _ us vs p q) e

Thins-same : (xs : List Range) → Thins xs xs
Thins-same [] = thin_end
Thins-same (x ∷ xs) = thin_keep x x (Thins-same xs) refl refl

IsApart-same : (r x y : Range) → x.start ≡ y.start → x.size ≡ y.size → IsApart r x ↔ IsApart r y
IsApart-same r x y e f = (
  (λ h. elim h [
    | inl (inl a) ↦ inl (inl a)
    | inl (inr a) ↦ inl (inr (omega (arith, a, f)))
    | inr (inl a) ↦ inr (inl (omega (arith, a, e)))
    | inr (inr a) ↦ inr (inr (omega (arith, a, e, f)))
  ]),
  (λ h. elim h [
    | inl (inl a) ↦ inl (inl a)
    | inl (inr a) ↦ inl (inr (omega (arith, a, f)))
    | inr (inl a) ↦ inr (inl (omega (arith, a, e)))
    | inr (inr a) ↦ inr (inr (omega (arith, a, e, f)))
  ]),
)

-- Being apart from a range, or inside the file, is the same of both lists.
Thins-All :
    (P : Range → Type 0)
    → ((x : Range) → x.size ≡ 0 → P x)
    → ((x y : Range) → x.start ≡ y.start → x.size ≡ y.size → P x ↔ P y)
    → (xs ys : List Range) → Thins xs ys
    → All P xs ↔ All P ys
Thins-All P empty same xs ys thin_end = ((λ h. h), (λ h. h))
Thins-All P empty same xs ys (thin_keep x y t e f) =
    let (forward, backward) = Thins-All P empty same _ _ t in
    ((λ (p, h). ((same x y e f).0 p, forward h)), (λ (p, h). ((same x y e f).1 p, backward h)))
Thins-All P empty same xs ys (thin_drop x t e) =
    let (forward, backward) = Thins-All P empty same _ _ t in
    ((λ (p, h). forward h), (λ h. (empty x e, backward h)))

Thins-IsApart :
    (r : Range) (xs ys : List Range)
    → Thins xs ys
    → All (λ s. IsApart r s) xs ↔ All (λ s. IsApart r s) ys
Thins-IsApart r xs ys t =
    Thins-All (λ s. IsApart r s) (λ x e. inl (inr e)) (λ x y e f. IsApart-same r x y e f) xs ys t

-- From one range to another that differs in its name.
swap-IsApart :
    (x y : Range) (xs : List Range)
    → x.start ≡ y.start
    → x.size ≡ y.size
    → All (λ s. IsApart x s) xs
    → All (λ s. IsApart y s) xs
swap-IsApart x y xs e f h =
    All-imp xs (λ s k. IsApart-sym s y ((IsApart-same s x y e f).0 (IsApart-sym x s k))) h

all-IsApart : (x : Range) (xs : List Range) → x.size ≡ 0 → All (λ s. IsApart x s) xs
all-IsApart x [] e = tt
all-IsApart x (y ∷ xs) e = (inl (inl e), all-IsApart x xs e)

Thins-AreApart : (xs ys : List Range) → Thins xs ys → AreApart xs ↔ AreApart ys
Thins-AreApart xs ys thin_end = ((λ h. h), (λ h. h))
Thins-AreApart xs ys (thin_keep {xs = us} {ys = vs} x y t e f) =
    let (forward, backward) = Thins-AreApart us vs t in
    (
      (λ (p, h). (swap-IsApart x y vs e f ((Thins-IsApart x us vs t).0 p), forward h)),
      (λ (p, h). ((Thins-IsApart x us vs t).1 (swap-IsApart y x vs (sym e) (sym f) p), backward h)),
    )
Thins-AreApart xs ys (thin_drop {xs = us} x t e) =
    let (forward, backward) = Thins-AreApart _ _ t in
    ((λ (p, h). forward h), (λ h. (all-IsApart x us e, backward h)))

pub Thins-AreDisjoint :
    (total : ℕ) (xs ys : List Range) → Thins xs ys → AreDisjoint total xs ↔ AreDisjoint total ys
Thins-AreDisjoint total xs ys t =
    let (a, b) =
      Thins-All (λ r. IsInside total r) (λ x e. inl e)
        (λ x y e f. (
          (λ h. elim h [
            | inl k ↦ inl (omega (arith, k, f))
            | inr k ↦ inr (omega (arith, k, e, f))
          ]),
          (λ h. elim h [
            | inl k ↦ inl (omega (arith, k, f))
            | inr k ↦ inr (omega (arith, k, e, f))
          ]),
        ))
        xs ys t in
    let (c, d) = Thins-AreApart xs ys t in ((λ (h, k). (a h, c k)), (λ (h, k). (b h, d k)))

contents_thin :
    (sections : List Section) → Thins (map contents_of sections) (section_data_ranges sections)
contents_thin [] = thin_end
contents_thin (s ∷ sections) = elim (Bool-cases (is_zerofill s)) [
  | inl e ↦ rw e (thin_drop _ (contents_thin sections) refl)
  | inr e ↦ elim (Bool-cases (s.size == 0)) [
    | inl f ↦ rw (e, f) (thin_drop _ (contents_thin sections) (ground (arith, f)))
    | inr f ↦ rw (e, f) (thin_keep _ _ (contents_thin sections) refl refl)
  ]
]

relocations_thin :
    (sections : List Section) → Thins (map relocations_of sections) (relocation_ranges sections)
relocations_thin [] = thin_end
relocations_thin (s ∷ sections) = elim (Bool-cases (s.nreloc == 0)) [
  | inl f ↦ rw f (thin_drop _ (relocations_thin sections) (ground (arith, f)))
  | inr f ↦ rw f (thin_keep _ _ (relocations_thin sections) refl (omega arith))
]

signature_thin : (o : Option (ℕ × ℕ)) → Thins (signature_of o) (signature_ranges o)
signature_thin none = thin_end
signature_thin (some (offset, size)) = thin_keep _ _ thin_end refl refl

pub regions_thin : (r : Regions) → Thins (regions_of r) (concrete_ranges r)
regions_thin r = Thins-append _ _ _ _ (contents_thin r.sections) (
    Thins-append _ _ _ _ (relocations_thin r.sections) (
      Thins-append _ _ _ _ (Thins-same r.linkedit_ranges) (
        thin_keep _ _ (thin_keep _ _ (signature_thin r.signature_range) refl refl) refl
          (omega arith))))

pub segments_thin :
    (segments : List Segment)
    → Thins
        (map (λ (s : Segment). extent s.fileoff s.filesize) segments)
        (segment_file_ranges segments)
segments_thin [] = thin_end
segments_thin (s ∷ segments) = elim (Bool-cases (s.filesize == 0)) [
  | inl f ↦ rw f (thin_drop _ (segments_thin segments) (ground (arith, f)))
  | inr f ↦ rw f (thin_keep _ _ (segments_thin segments) refl refl)
]
