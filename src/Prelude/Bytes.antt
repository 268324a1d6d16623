-- ===== src/Prelude/Bytes.antt =====
-- Equality of lists of numbers, as the programs test it.
use Prim.Native.Nat.{ℕ}
use mathlib.Core.Path.{◌≡◌, refl}
use mathlib.Core.Logic.{inl, inr}
use mathlib.Core.Bool.{Bool, true, false}
use mathlib.Core.List.{List, [], ◌∷◌}
use native.Mathlib.Omega.{arith}
use zynum.Prelude.Tests.{◌==◌, if◌then◌else◌, Bool-cases, ==→eq}

abbrev pub same_list : List ℕ → List ℕ → Bool
same_list [] [] = true
same_list [] (d ∷ ds) = false
same_list (c ∷ cs) [] = false
same_list (c ∷ cs) (d ∷ ds) = if c == d then same_list cs ds else false

pub same_list_refl : (name : List ℕ) → same_list name name ≡ true
same_list_refl [] = refl
same_list_refl (c ∷ cs) = ground (arith, same_list_refl cs)

pub same_list→eq : (a b : List ℕ) → same_list a b ≡ true → a ≡ b
same_list→eq [] [] h = refl
same_list→eq [] (d ∷ ds) h = absurd (cc h)
same_list→eq (c ∷ cs) [] h = absurd (cc h)
same_list→eq (c ∷ cs) (d ∷ ds) h = elim (Bool-cases (c == d)) [
  | inl e ↦
      let head = ==→eq c d e in
      let tail = same_list→eq cs ds (ground (arith, e, h)) in cc (head, tail)
  | inr e ↦ absurd (ground (arith, e, h))
]

pub same_list-differ : (a b : List ℕ) → same_list a b ≡ false → a ≡ b → ⊥
same_list-differ a b h e = let p = same_list_refl b in absurd (cc (h, e, p))

pub same_list-apart : (a b : List ℕ) → (a ≡ b → ⊥) → same_list a b ≡ false
same_list-apart a b h = elim (Bool-cases (same_list a b)) [
  | inl e ↦ absurd (h (same_list→eq a b e))
  | inr e ↦ e
]
