-- ===== src/Atoms/Gaps.antt =====
-- The ranges that `finish` reports are exactly the unassigned bytes.
use zynum.Prelude.{
  ℕ, ◌+◌, ◌-◌, ◌≤◌, ◌<◌, ◌≡◌, refl, none, List, [], ◌∷◌, arith, ltb, ◌⊎◌, inl, inr, Bool-cases,
  ltb→lt, ltb→ge, lt→ltb, ge→ltb, sym, ◌∙◌,
}
use zynum.Atoms.{Assigned}
use zynum.Atoms.Finish.{gaps}
use zynum.Atoms.Layout.{Within, cover, cover-below, Within-bounds}

-- The byte lies in one of the ranges.
abbrev pub InRanges : ℕ → List (ℕ × ℕ) → Type 0
InRanges i [] = ⊥
InRanges i ((offset, size) ∷ rest) = ((offset ≤ i) × (i < offset + size)) ⊎ InRanges i rest

pub gaps-open :
    (cursor total : ℕ) (x : Assigned) (xs : List Assigned)
    → cursor < x.start
    → gaps cursor total (x ∷ xs) ≡ (cursor, x.start - cursor) ∷ gaps x.end total xs
unfolding gaps
gaps-open cursor total x xs h = rw (lt→ltb cursor x.start h)

pub gaps-shut :
    (cursor total : ℕ) (x : Assigned) (xs : List Assigned)
    → x.start ≤ cursor
    → gaps cursor total (x ∷ xs) ≡ gaps x.end total xs
unfolding gaps
gaps-shut cursor total x xs h = rw (ge→ltb cursor x.start h)

pub cover-outside :
    (i : ℕ) (x : Assigned) (xs : List Assigned)
    → (i < x.start) ⊎ (x.end ≤ i)
    → cover (x ∷ xs) i ≡ cover xs i
unfolding cover
cover-outside i x xs (inl h) = ground arith
cover-outside i x xs (inr h) = ground arith

-- A byte in a reported range is in the data and not assigned.
pub gap-unassigned :
    (cursor total i : ℕ) (xs : List Assigned)
    → Within cursor total xs
    → InRanges i (gaps cursor total xs)
    → (cursor ≤ i) × (i < total) × (cover xs i ≡ none)
unfolding gaps cover
gap-unassigned cursor total i [] w h = elim (Bool-cases (ltb cursor total)) [
  | inl short ↦ elim (rw short at h) [
    | inl (lo, hi) ↦ (lo, omega (arith, ltb→lt cursor total short), refl)
    | inr none_left ↦ absurd none_left
  ]
  | inr full ↦ absurd (rw full at h)
]
gap-unassigned cursor total i (x ∷ xs) w h = elim (Bool-cases (ltb cursor x.start)) [
  | inl gap ↦
      let g = ltb→lt cursor x.start gap in
      elim (rw (gaps-open cursor total x xs g) at h) [
        | inl (lo, hi) ↦
            let below : i < x.start = omega arith in
            (
              lo,
              omega (arith, Within-bounds x.end total xs w.2),
              cover-outside i x xs (inl below) ∙ cover-below x.end total i xs w.2 (omega arith),
            )
        | inr later ↦
            let (lo, hi, e) = gap-unassigned x.end total i xs w.2 later in
            (omega arith, hi, cover-outside i x xs (inr lo) ∙ e)
      ]
  | inr touch ↦
      let (lo, hi, e) =
        gap-unassigned x.end total i xs w.2
          (rw (gaps-shut cursor total x xs (ltb→ge cursor x.start touch)) at h) in
      (omega arith, hi, cover-outside i x xs (inr lo) ∙ e)
]

cover-inside :
    (i : ℕ) (x : Assigned) (xs : List Assigned)
    → x.start ≤ i
    → i < x.end
    → cover (x ∷ xs) i ≡ none
    → ⊥
unfolding cover
cover-inside i x xs lo hi e = ground arith

-- A byte of the data that is not assigned is in a reported range.
pub unassigned-gap :
    (cursor total i : ℕ) (xs : List Assigned)
    → Within cursor total xs
    → cursor ≤ i
    → i < total
    → cover xs i ≡ none
    → InRanges i (gaps cursor total xs)
unfolding gaps
unassigned-gap cursor total i [] w lo hi e =
    rw (lt→ltb cursor total (omega arith)) (inl (lo, omega arith))
unassigned-gap cursor total i (x ∷ xs) w lo hi e = elim (Bool-cases (ltb i x.start)) [
  | inl early ↦
      let k = ltb→lt i x.start early in
      rw (gaps-open cursor total x xs (omega arith)) (inl (lo, omega arith))
  | inr late ↦ elim (Bool-cases (ltb i x.end)) [
    | inl taken ↦ absurd (cover-inside i x xs (ltb→ge _ _ late) (ltb→lt _ _ taken) e)
    | inr past ↦
        let k = ltb→ge i x.end past in
        let more =
          unassigned-gap x.end total i xs w.2 k hi (sym (cover-outside i x xs (inr k)) ∙ e) in
        elim (Bool-cases (ltb cursor x.start)) [
          | inl gap ↦ rw (gaps-open cursor total x xs (ltb→lt _ _ gap)) (inr more)
          | inr touch ↦ rw (gaps-shut cursor total x xs (ltb→ge _ _ touch)) more
        ]
  ]
]
