-- ===== src/Macho/Contents.antt =====
-- The contents of an object in the file, which `_parse_macho_bytes` of tools/abi_artifact_parity.py
-- compares with its segment.
use zynum.Prelude.Only.{Any, All-Any}
use zynum.Prelude.{
  sym, ◌<◌, Bool, Bool-cases, ◌&&◌, &&-true, string_eq, ltb, ℕ, ◌+◌, ◌≤◌, ◌≡◌, ◌⊎◌, subst, inl, inr,
  max, min, String, true, not, List, [], ◌∷◌, ◌==◌, All, ok, arith,
}
use zynum.Parse.Guards.{raise_if-ok, raise_if-only, bind-ok_unit}
use zynum.Macho.Sections.{Section, Segment, is_zerofill}
use zynum.Macho.Stack.{IsZerofill, is_zerofill-IsZerofill, IsZerofill-is_zerofill}
use zynum.Macho.Layout.{
  file_sections, min_offset, max_end, file_end, virtual_end, check_offsets, check_segment,
}

min_offset-All :
    (bound first : ℕ) (sections : List Section)
    → bound ≤ min_offset first sections
    → (bound ≤ first) × All (λ s. bound ≤ s.offset) sections
min_offset-All bound first [] h = (h, tt)
min_offset-All bound first (s ∷ sections) h =
    let (k, rest) = min_offset-All bound (min first s.offset) sections h in
    (omega (arith, k), (omega (arith, k), rest))

max_end-All :
    (end : Section → ℕ) (bound last : ℕ) (sections : List Section)
    → max_end end last sections ≤ bound
    → (last ≤ bound) × All (λ s. end s ≤ bound) sections
max_end-All end bound last [] h = (h, tt)
max_end-All end bound last (s ∷ sections) h =
    let (k, rest) = max_end-All end bound (max last (end s)) sections h in
    (omega (arith, k), (omega (arith, k), rest))

-- The bounds are those of some section, or of the first.
min_offset-Any :
    (bound first : ℕ) (sections : List Section)
    → min_offset first sections ≡ bound
    → (first ≡ bound) ⊎ Any (λ s. s.offset ≡ bound) sections
min_offset-Any bound first [] h = inl h
min_offset-Any bound first (s ∷ sections) h =
    elim (min_offset-Any bound (min first s.offset) sections h) [
      | inr k ↦ inr (inr k)
      | inl k ↦ elim (Bool-cases (ltb first s.offset)) [
        | inl e ↦ inl (ground (arith, e, k))
        | inr e ↦ inr (inl (ground (arith, e, k)))
      ]
    ]

max_end-Any :
    (end : Section → ℕ) (bound last : ℕ) (sections : List Section)
    → max_end end last sections ≡ bound
    → (last ≡ bound) ⊎ Any (λ s. end s ≡ bound) sections
max_end-Any end bound last [] h = inl h
max_end-Any end bound last (s ∷ sections) h =
    elim (max_end-Any end bound (max last (end s)) sections h) [
      | inr k ↦ inr (inr k)
      | inl k ↦ elim (Bool-cases (ltb last (end s))) [
        | inl e ↦ inr (inl (ground (arith, e, k)))
        | inr e ↦ inl (ground (arith, e, k))
      ]
    ]

-- A section with contents in the file.
abbrev pub TakesFile : Section → Type 0
TakesFile s = (IsZerofill s → ⊥) × (0 < s.size)

abbrev pub takes_file : Section → Bool
takes_file s = not (is_zerofill s) && not (s.size == 0)

takes_file-TakesFile : (s : Section) → takes_file s ≡ true → TakesFile s
takes_file-TakesFile s h =
    let (stored, filled) = &&-true (not (is_zerofill s)) (not (s.size == 0)) h in
    ((λ z. let e = IsZerofill-is_zerofill s z in ground (arith, e, stored)), ground (arith, filled))

TakesFile-takes_file : (s : Section) → TakesFile s → takes_file s ≡ true
TakesFile-takes_file s (stored, filled) = elim (Bool-cases (is_zerofill s)) [
  | inl e ↦ absurd (stored (is_zerofill-IsZerofill s e))
  | inr e ↦ rw e (ground (arith, filled))
]

All-file_sections :
    (P : Section → Type 0) (sections : List Section)
    → All P (file_sections sections)
    → All (λ s. TakesFile s → P s) sections
All-file_sections P [] h = tt
All-file_sections P (s ∷ sections) h = elim (Bool-cases (takes_file s)) [
  | inl e ↦ let h = rw e at h in (λ _. h.0, All-file_sections P sections h.1)
  | inr e ↦
      let h = rw e at h in
      (λ k. absurd (cc (e, TakesFile-takes_file s k)), All-file_sections P sections h)
]

pub Any-file_sections :
    (P : Section → Type 0) (sections : List Section)
    → Any P (file_sections sections)
    → Any (λ s. TakesFile s × P s) sections
Any-file_sections P [] h = h
Any-file_sections P (s ∷ sections) h = elim (Bool-cases (takes_file s)) [
  | inl e ↦ elim (rw e at h) [
    | inl p ↦ inl (takes_file-TakesFile s e, p)
    | inr k ↦ inr (Any-file_sections P sections k)
  ]
  | inr e ↦ inr (Any-file_sections P sections (rw e at h))
]

check_offsets-All :
    (prefix : String) (segment : Segment) (sections : List Section)
    → check_offsets prefix segment sections ≡ ok tt
    → All (λ s. s.offset + segment.vmaddr ≡ segment.fileoff + s.addr) sections
unfolding check_offsets
check_offsets-All prefix segment [] h = tt
check_offsets-All prefix segment (s ∷ sections) h =
    let (first, h) =
      raise_if-ok (not (s.offset + segment.vmaddr == segment.fileoff + s.addr)) _ _ h in
    (ground (arith, first), check_offsets-All prefix segment sections h)

-- The segment starts at the first of the sections with contents in the file and ends with the last of
-- them, each as far behind its start as the address is behind that of the segment; and its addresses
-- end with the last of all sections.
pub record IsDerived (segment : Segment) (sections : List Section) : Type 0 where
  pub starts : All (λ s. TakesFile s → segment.fileoff ≤ s.offset) sections
  pub start_met : Any (λ s. TakesFile s × (s.offset ≡ segment.fileoff)) sections
  pub ends :
      All (λ s. TakesFile s → s.offset + s.size ≤ segment.fileoff + segment.filesize) sections
  pub end_met :
      Any (λ s. TakesFile s × (s.offset + s.size ≡ segment.fileoff + segment.filesize)) sections
  pub offsets :
      All (λ s. TakesFile s → s.offset + segment.vmaddr ≡ segment.fileoff + s.addr) sections
  pub addresses : All (λ s. s.addr + s.size ≤ segment.vmaddr + segment.vmsize) sections
  pub address_met : Any (λ s. s.addr + s.size ≡ segment.vmaddr + segment.vmsize) sections

pub check_segment-IsDerived :
    (prefix : String) (segment : Segment) (first : Section) (others sections : List Section)
    → file_sections sections ≡ first ∷ others
    → check_segment prefix segment first others sections ≡ ok tt
    → IsDerived segment sections
unfolding check_segment
check_segment-IsDerived prefix segment first others sections listed h =
    let file_bound = segment.fileoff + segment.filesize in
    let virtual_bound = segment.vmaddr + segment.vmsize in
    let (start, h) = raise_if-ok (not (min_offset first.offset others == segment.fileoff)) _ _ h in
    let (file, h) =
      raise_if-ok (not (file_bound == max_end file_end (file_end first) others)) _ _ h in
    let (offsets, h) = bind-ok_unit (check_offsets prefix segment (first ∷ others)) _ h in
    let virtual = raise_if-only (not (virtual_bound == max_end virtual_end 0 sections)) _ h in
    let all : (P : Section → Type 0)
        → All P (first ∷ others)
        → All (λ s. TakesFile s → P s) sections =
      λ P k. All-file_sections P sections (subst (λ l. All P l) (sym listed) k) in
    let any : (P : Section → Type 0)
        → Any P (first ∷ others)
        → Any (λ s. TakesFile s × P s) sections =
      λ P k. Any-file_sections P sections (subst (λ l. Any P l) (sym listed) k) in
    let end_met =
      any (λ s. file_end s ≡ file_bound)
        (max_end-Any file_end file_bound (file_end first) others (ground (arith, file))) in
    let addresses =
      (max_end-All virtual_end virtual_bound 0 sections (ground (arith, virtual))).1 in
    record {
      starts =
          all (λ s. segment.fileoff ≤ s.offset)
            (min_offset-All segment.fileoff first.offset others (ground (arith, start)));
      start_met =
          any (λ s. s.offset ≡ segment.fileoff)
            (min_offset-Any segment.fileoff first.offset others (ground (arith, start)));
      ends =
          all (λ s. file_end s ≤ file_bound)
            (max_end-All file_end file_bound (file_end first) others (ground (arith, file)));
      end_met = end_met;
      offsets = all _ (check_offsets-All prefix segment (first ∷ others) offsets);
      addresses = addresses;
      address_met =
          elim (max_end-Any virtual_end virtual_bound 0 sections (ground (arith, virtual))) [
            | inr k ↦ k
            | inl e ↦ absurd (
                All-Any sections (λ s low (takes, _). omega (arith, low, e, takes.1)) addresses
                  end_met)
          ];
    }
