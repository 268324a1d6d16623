-- ===== src/Ranges/Disjoint.antt =====
-- The ranges that `_check_disjoint` of tools/abi_artifact_parity.py accepts.
use zynum.Prelude.{
  ℕ, ◌+◌, ◌≤◌, ◌≡◌, ◌⊎◌, inl, inr, List, [], ◌∷◌, String, ltb→ge, ◌==◌, if-true, Bool-cases, ==→eq,
  All, ok, arith,
}
use zynum.Atoms.{require_range}
use zynum.Parse.{of_atom}
use zynum.Parse.Guards.{raise_if-ok, bind-ok_unit}
use zynum.Ranges.{
  Range, is_before, insert_range, material, range_test, check_behind, check_disjoint,
}

abbrev pub IsInside : ℕ → Range → Type 0
IsInside total r = (r.size ≡ 0) ⊎ (r.start + r.size ≤ total)

-- One ends before the other starts, or one is empty.
abbrev pub IsApart : Range → Range → Type 0
IsApart r s =
    ((r.size ≡ 0) ⊎ (s.size ≡ 0)) ⊎ ((r.start + r.size ≤ s.start) ⊎ (s.start + s.size ≤ r.start))

abbrev pub AreApart : List Range → Type 0
AreApart [] = Unit {0}
AreApart (r ∷ ranges) = All (λ s. IsApart r s) ranges × AreApart ranges

pub IsApart-sym : (r s : Range) → IsApart r s → IsApart s r
IsApart-sym r s (inl (inl e)) = inl (inr e)
IsApart-sym r s (inl (inr e)) = inl (inl e)
IsApart-sym r s (inr (inl e)) = inr (inr e)
IsApart-sym r s (inr (inr e)) = inr (inl e)

All-insert_range :
    (P : Range → Type 0) (r : Range) (ranges : List Range)
    → All P (insert_range r ranges)
    → P r × All P ranges
All-insert_range P r [] h = h
All-insert_range P r (s ∷ ranges) h =
    elim (if-true (λ l. All P l) (is_before r s) (r ∷ s ∷ ranges) (s ∷ insert_range r ranges) h) [
      | inl k ↦ k
      | inr (q, k) ↦ let (p, t) = All-insert_range P r ranges k in (p, (q, t))
    ]

AreApart-insert_range :
    (r : Range) (ranges : List Range) → AreApart (insert_range r ranges) → AreApart (r ∷ ranges)
AreApart-insert_range r [] h = h
AreApart-insert_range r (s ∷ ranges) h =
    elim (if-true AreApart (is_before r s) (r ∷ s ∷ ranges) (s ∷ insert_range r ranges) h) [
      | inl k ↦ k
      | inr (q, k) ↦
          let (first, rest) = AreApart-insert_range r ranges k in
          let (sr, others) = All-insert_range (λ t. IsApart s t) r ranges q in
          ((IsApart-sym s r sr, first), (others, rest))
    ]

-- What holds of the ranges that are not empty holds of all, for what holds of the empty ones.
All-material :
    (P : Range → Type 0) (ranges : List Range)
    → ((r : Range) → r.size ≡ 0 → P r)
    → All P (material ranges)
    → All P ranges
All-material P [] empty h = tt
All-material P (r ∷ ranges) empty h = elim (Bool-cases (r.size == 0)) [
  | inl e ↦ let k = rw e at h in (empty r (==→eq _ _ e), All-material P ranges empty k)
  | inr e ↦
      let k = rw e at h in
      let (p, rest) = All-insert_range P r (material ranges) k in
      (p, All-material P ranges empty rest)
]

AreApart-material : (ranges : List Range) → AreApart (material ranges) → AreApart ranges
AreApart-material [] h = tt
AreApart-material (r ∷ ranges) h = elim (Bool-cases (r.size == 0)) [
  | inl e ↦
      let k = rw e at h in (every ranges (λ s. inl (inl (==→eq _ _ e))), AreApart-material ranges k)
  | inr e ↦
      let k = rw e at h in
      let (first, rest) = AreApart-insert_range r (material ranges) k in
      (
        All-material (λ s. IsApart r s) ranges (λ s z. inl (inr z)) first,
        AreApart-material ranges rest,
      )
]
  where
    every : {P : Range → Type 0} (rs : List Range) → ((s : Range) → P s) → All P rs
    every [] f = tt
    every (s ∷ rs) f = (f s, every rs f)

range_test-inside : (total : ℕ) (r : Range) → range_test total r ≡ ok tt → r.start + r.size ≤ total
unfolding range_test require_range of_atom
range_test-inside total r h = ground (arith, h)

-- Every range is inside and starts behind an end, and they are apart.
check_behind-apart :
    (total previous_end : ℕ) (previous_name : String) (ranges : List Range)
    → check_behind total previous_end previous_name ranges ≡ ok tt
    → All (λ r. r.start + r.size ≤ total) ranges
      × (All (λ r. previous_end ≤ r.start) ranges × AreApart ranges)
unfolding check_behind
check_behind-apart total previous_end previous_name [] h = (tt, (tt, tt))
check_behind-apart total previous_end previous_name (r ∷ ranges) h =
    let (inside, h) = bind-ok_unit (range_test total r) _ h in
    let (behind, h) = raise_if-ok _ _ _ h in
    let (insides, (starts, apart)) = check_behind-apart total (r.start + r.size) r.name ranges h in
    let after : previous_end ≤ r.start = ltb→ge r.start previous_end behind in
    (
      (range_test-inside total r inside, insides),
      (
        (after, later ranges (λ s k. omega (arith, after, k)) starts),
        (later ranges (λ s k. inr (inl k)) starts, apart),
      ),
    )
  where
    later :
        {P Q : Range → Type 0} (rs : List Range) → ((s : Range) → P s → Q s) → All P rs → All Q rs
    later [] f h = tt
    later (s ∷ rs) f (p, h) = (f s p, later rs f h)

-- Ranges that are accepted lie within the total, and no two of them overlap, in whatever order they
-- were given; a range without bytes may be anywhere.
pub check_disjoint-AreApart :
    (total : ℕ) (ranges : List Range)
    → check_disjoint total ranges ≡ ok tt
    → All (λ r. IsInside total r) ranges × AreApart ranges
unfolding check_disjoint
check_disjoint-AreApart total ranges h =
    let (insides, (_, apart)) = check_behind-apart total 0 "" (material ranges) h in
    (
      All-material (λ r. IsInside total r) ranges (λ r z. inl z) (later (material ranges) insides),
      AreApart-material ranges apart,
    )
  where
    later :
        (rs : List Range) → All (λ r. r.start + r.size ≤ total) rs → All (λ r. IsInside total r) rs
    later [] k = tt
    later (r ∷ rs) (p, k) = (inr p, later rs k)
