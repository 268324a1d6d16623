-- ===== src/Ranges/Accepted.antt =====
-- `_check_disjoint` of tools/abi_artifact_parity.py accepts every disjoint set of ranges.
use zynum.Prelude.Only.{All-imp}
use zynum.Prelude.{
  ℕ, ◌+◌, ◌≤◌, ◌<◌, ◌≡◌, ◌↔◌, refl, inl, inr, List, [], ◌∷◌, String, ge→ltb, ◌==◌, Bool-cases, All,
  ok, arith,
}
use zynum.Atoms.{require_range}
use zynum.Parse.{of_atom, raise_if}
use zynum.Ranges.{
  Range, is_before, insert_range, material, range_test, check_behind, check_disjoint,
}
use zynum.Ranges.Disjoint.{IsInside, IsApart, AreApart, IsApart-sym, check_disjoint-AreApart}

insert_range-All :
    (P : Range → Type 0) (r : Range) (ranges : List Range)
    → P r
    → All P ranges
    → All P (insert_range r ranges)
insert_range-All P r [] p h = (p, tt)
insert_range-All P r (s ∷ ranges) p (q, h) = elim (Bool-cases (is_before r s)) [
  | inl e ↦ rw e (p, (q, h))
  | inr e ↦ rw e (q, insert_range-All P r ranges p h)
]

-- In the order of their starts.
abbrev AreOrdered : List Range → Type 0
AreOrdered [] = Unit {0}
AreOrdered (r ∷ ranges) = All (λ s. r.start ≤ s.start) ranges × AreOrdered ranges

insert_range-AreOrdered :
    (r : Range) (ranges : List Range) → AreOrdered ranges → AreOrdered (insert_range r ranges)
insert_range-AreOrdered r [] h = (tt, tt)
insert_range-AreOrdered r (s ∷ ranges) (first, h) = elim (Bool-cases (is_before r s)) [
  | inl e ↦
      let lower : r.start ≤ s.start = ground (arith, e) in
      rw e ((lower, All-imp ranges (λ t k. omega (arith, lower, k)) first), (first, h))
  | inr e ↦
      let lower : s.start ≤ r.start = ground (arith, e) in
      rw e (
        insert_range-All (λ t. s.start ≤ t.start) r ranges lower first,
        insert_range-AreOrdered r ranges h,
      )
]

insert_range-AreApart :
    (r : Range) (ranges : List Range)
    → All (λ s. IsApart r s) ranges
    → AreApart ranges
    → AreApart (insert_range r ranges)
insert_range-AreApart r [] all h = (tt, tt)
insert_range-AreApart r (s ∷ ranges) (rs, all) (first, h) = elim (Bool-cases (is_before r s)) [
  | inl e ↦ rw e ((rs, all), (first, h))
  | inr e ↦ rw e (
    insert_range-All (λ t. IsApart s t) r ranges (IsApart-sym r s rs) first,
    insert_range-AreApart r ranges all h,
  )
]

-- What holds of all ranges holds of those that are not empty, together with that.
material-All :
    (P : Range → Type 0) (ranges : List Range)
    → All P ranges
    → All (λ r. P r × (0 < r.size)) (material ranges)
material-All P [] h = tt
material-All P (r ∷ ranges) (p, h) = elim (Bool-cases (r.size == 0)) [
  | inl e ↦ rw e (material-All P ranges h)
  | inr e ↦ rw e (
      insert_range-All (λ s. P s × (0 < s.size)) r (material ranges) (p, ground (arith, e))
        (material-All P ranges h))
]

material-AreOrdered : (ranges : List Range) → AreOrdered (material ranges)
material-AreOrdered [] = tt
material-AreOrdered (r ∷ ranges) = elim (Bool-cases (r.size == 0)) [
  | inl e ↦ rw e (material-AreOrdered ranges)
  | inr e ↦ rw e (insert_range-AreOrdered r (material ranges) (material-AreOrdered ranges))
]

material-AreApart : (ranges : List Range) → AreApart ranges → AreApart (material ranges)
material-AreApart [] h = tt
material-AreApart (r ∷ ranges) (first, h) = elim (Bool-cases (r.size == 0)) [
  | inl e ↦ rw e (material-AreApart ranges h)
  | inr e ↦ rw e (
      insert_range-AreApart r (material ranges)
        (All-imp (material ranges) (λ s k. k.0) (material-All (λ s. IsApart r s) ranges first))
        (material-AreApart ranges h))
]

range_test-accepts : (total : ℕ) (r : Range) → r.start + r.size ≤ total → range_test total r ≡ ok tt
unfolding range_test require_range of_atom
range_test-accepts total r h = ground (arith, h)

-- A range behind another, from the order of their starts.
behind :
    (r s : Range)
    → 0 < r.size
    → 0 < s.size
    → r.start ≤ s.start
    → IsApart r s
    → r.start + r.size ≤ s.start
behind r s p q h (inl (inl e)) = absurd (omega (arith, p, e))
behind r s p q h (inl (inr e)) = absurd (omega (arith, q, e))
behind r s p q h (inr (inl e)) = e
behind r s p q h (inr (inr e)) = absurd (omega (arith, q, h, e))

further_ranges :
    (total : ℕ) (r : Range) (ranges : List Range)
    → 0 < r.size
    → All (λ s. IsInside total s × (0 < s.size)) ranges
    → All (λ s. r.start ≤ s.start) ranges
    → All (λ s. IsApart r s) ranges
    → All (λ s. r.start + r.size ≤ s.start) ranges
further_ranges total r [] p a b c = tt
further_ranges total r (s ∷ ranges) p (h, a) (k, b) (l, c) =
    (behind r s p h.1 k l, further_ranges total r ranges p a b c)

check_behind-accepts :
    (total previous_end : ℕ) (previous_name : String) (ranges : List Range)
    → All (λ r. IsInside total r × (0 < r.size)) ranges
    → AreOrdered ranges
    → AreApart ranges
    → All (λ r. previous_end ≤ r.start) ranges
    → check_behind total previous_end previous_name ranges ≡ ok tt
unfolding check_behind raise_if
check_behind-accepts total previous_end previous_name [] insides ordered apart starts = refl
check_behind-accepts total previous_end previous_name (r ∷ ranges) (i, insides) (o, ordered)
      (a, apart) (s, starts) =
    let inside : r.start + r.size ≤ total = ground (arith, i) in
    rw (range_test-accepts total r inside) (
      rw (ge→ltb r.start previous_end s) (
        check_behind-accepts total (r.start + r.size) r.name ranges insides ordered apart
          (further_ranges total r ranges i.1 insides o a)))

-- Ranges are accepted exactly if each one that is not empty lies within the total and no two of them
-- overlap, in whatever order they are given.
pub check_disjoint_lem :
    (total : ℕ) (ranges : List Range)
    → (check_disjoint total ranges ≡ ok tt) ↔ (All (λ r. IsInside total r) ranges × AreApart ranges)
unfolding check_disjoint
check_disjoint_lem total ranges = (
  λ h. check_disjoint-AreApart total ranges h,
  λ (insides, apart).
      let all = material-All (λ r. IsInside total r) ranges insides in
      check_behind-accepts total 0 "" (material ranges) all (material-AreOrdered ranges)
        (material-AreApart ranges apart) (All-imp (material ranges) (λ r h. omega arith) all),
)
