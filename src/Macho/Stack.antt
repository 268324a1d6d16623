-- ===== src/Macho/Stack.antt =====
-- The sections behind the line table of an object, which `_parse_macho_bytes` of
-- tools/abi_artifact_parity.py moves.
use zynum.Prelude.Only.{All-imp, Any}
use zynum.Prelude.{
  ◌⊎◌, ◌%◌, ℕ, ◌+◌, ◌^◌, ◌≤◌, ◌≡◌, refl, sym, subst, ◌∙◌, inl, inr, String, true, not, List, [],
  ◌∷◌, ◌==◌, Bool-cases, ok-value, All, ok, bind-ok, arith, if-true,
}
use zynum.Parse.Guards.{raise_if-ok}
use zynum.Macho.Names.{align_up}
use zynum.Macho.Align.{IsAligned, align_up-IsAligned}
use zynum.Macho.Sections.{Section, is_zerofill}
use zynum.Macho.Layout.{is_tail, comes_before, insert_section, tail_sections, shifted_indices}

-- S_ZEROFILL or S_THREAD_LOCAL_ZEROFILL.
abbrev pub IsZerofill : Section → Type 0
IsZerofill s = (s.flags % 256 ≡ 1) ⊎ (s.flags % 256 ≡ 18)

pub is_zerofill-IsZerofill : (s : Section) → is_zerofill s ≡ true → IsZerofill s
is_zerofill-IsZerofill s h = ground (arith, h)

pub IsZerofill-is_zerofill : (s : Section) → IsZerofill s → is_zerofill s ≡ true
IsZerofill-is_zerofill s (inl h) = rw h refl
IsZerofill-is_zerofill s (inr h) = rw h refl

-- Sections behind each other from an address on, each at the least address that its alignment allows,
-- with their indices; none of them takes up the file.
abbrev pub IsStacked : ℕ → List Section → List ℕ → Type 0
IsStacked cursor [] [] = Unit {0}
IsStacked cursor (s ∷ sections) (i ∷ indices) =
    (i ≡ s.index)
    × (IsZerofill s
        × (IsAligned cursor s.align s.addr × IsStacked (s.addr + s.size) sections indices))
IsStacked cursor sections indices = ⊥

pub shifted_indices-IsStacked :
    (prefix : String) (cursor : ℕ) (sections : List Section) (indices : List ℕ)
    → shifted_indices prefix cursor sections ≡ ok indices
    → IsStacked cursor sections indices
unfolding shifted_indices
shifted_indices-IsStacked prefix cursor [] indices h =
    subst (λ l. IsStacked cursor [] l) (ok-value h) tt
shifted_indices-IsStacked prefix cursor (s ∷ sections) indices h =
    let (zerofill, h) = raise_if-ok (not (is_zerofill s)) _ _ h in
    let (expected, up, h) = bind-ok (align_up cursor (2 ^ s.align)) _ h in
    let (place, h) = raise_if-ok (not (s.addr == expected)) _ _ h in
    let (rest, further, h) = bind-ok (shifted_indices prefix (s.addr + s.size) sections) _ h in
    let (aligned, up', is_aligned) = align_up-IsAligned cursor s.align in
    let same : aligned ≡ s.addr = ok-value (sym up' ∙ up) ∙ ground (arith, place) in
    subst (λ l. IsStacked cursor (s ∷ sections) l) (ok-value h)
      (
        refl,
        (
          is_zerofill-IsZerofill s (ground (arith, zerofill)),
          (
            subst (λ a. IsAligned cursor s.align a) same is_aligned,
            shifted_indices-IsStacked prefix (s.addr + s.size) sections rest further,
          ),
        ),
      )

All-insert_section :
    (P : Section → Type 0) (r : Section) (sections : List Section)
    → All P (insert_section r sections)
    → P r × All P sections
All-insert_section P r [] h = h
All-insert_section P r (s ∷ sections) h =
    elim (if-true (λ l. All P l) (comes_before r s) (r ∷ s ∷ sections)
      (s ∷ insert_section r sections) h) [
        | inl k ↦ k
        | inr (q, k) ↦ let (p, t) = All-insert_section P r sections k in (p, (q, t))
      ]

-- What holds of the sorted sections holds of every section that is sorted.
All-tail_sections :
    (P : Section → Type 0) (debug : Section) (sections : List Section)
    → All P (tail_sections debug sections)
    → All (λ s. is_tail debug s ≡ true → P s) sections
All-tail_sections P debug [] h = tt
All-tail_sections P debug (s ∷ sections) h = elim (Bool-cases (is_tail debug s)) [
  | inl e ↦
      let h = rw e at h in
      let (p, rest) = All-insert_section P s (tail_sections debug sections) h in
      (λ _. p, All-tail_sections P debug sections rest)
  | inr e ↦ let h = rw e at h in (λ t. absurd (cc (e, t)), All-tail_sections P debug sections h)
]

insert_section-All :
    (P : Section → Type 0) (r : Section) (sections : List Section)
    → P r
    → All P sections
    → All P (insert_section r sections)
insert_section-All P r [] p h = (p, tt)
insert_section-All P r (s ∷ sections) p (q, h) = elim (Bool-cases (comes_before r s)) [
  | inl e ↦ rw e (p, (q, h))
  | inr e ↦ rw e (q, insert_section-All P r sections p h)
]

-- What holds of every section that is sorted holds of the sorted ones.
tail_sections-All :
    (P : Section → Type 0) (debug : Section) (sections : List Section)
    → All (λ s. is_tail debug s ≡ true → P s) sections
    → All P (tail_sections debug sections)
tail_sections-All P debug [] h = tt
tail_sections-All P debug (s ∷ sections) (p, h) =
    let rest = tail_sections-All P debug sections h in
    elim (Bool-cases (is_tail debug s)) [
      | inl e ↦ rw e (insert_section-All P s (tail_sections debug sections) (p e) rest)
      | inr e ↦ rw e rest
    ]

-- Not the section of the line table, and not before its end.
abbrev pub IsTail : Section → Section → Type 0
IsTail debug s = (s.index ≡ debug.index → ⊥) × (debug.addr + debug.size ≤ s.addr)

is_tail-IsTail : (debug s : Section) → is_tail debug s ≡ true → IsTail debug s
is_tail-IsTail debug s h = ((λ e. ground (arith, h, e)), ground (arith, h))

IsTail-is_tail : (debug s : Section) → IsTail debug s → is_tail debug s ≡ true
IsTail-is_tail debug s (apart, behind) = ground (arith, apart, behind)

-- A list of sections has those behind the line table, and no others.
pub record AreTails (debug : Section) (sections tails : List Section) : Type 0 where
  pub all_there : All (λ s. IsTail debug s → Any (λ t. t ≡ s) tails) sections
  pub from_there : All (λ t. IsTail debug t × Any (λ s. s ≡ t) sections) tails

each_there : (sections : List Section) → All (λ s. Any (λ t. t ≡ s) sections) sections
each_there [] = tt
each_there (s ∷ sections) = (inl refl, All-imp sections (λ t h. inr h) (each_there sections))

pub tail_sections-AreTails :
    (debug : Section) (sections : List Section)
    → AreTails debug sections (tail_sections debug sections)
tail_sections-AreTails debug sections =
    let tails = tail_sections debug sections in
    record {
      all_there =
          All-imp sections (λ s h k. h (IsTail-is_tail debug s k))
            (All-tail_sections (λ s. Any (λ t. t ≡ s) tails) debug sections (each_there tails));
      from_there =
          tail_sections-All (λ t. IsTail debug t × Any (λ s. s ≡ t) sections) debug sections
            (All-imp sections (λ s h k. (is_tail-IsTail debug s k, h)) (each_there sections));
    }
