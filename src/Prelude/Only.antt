-- ===== src/Prelude/Only.antt =====
-- The elements of a list with a property: some of them, and the only one in its place.
use mathlib.Core.Path.{◌≡◌, sym, ap, ◌∙◌}
use mathlib.Core.Bool.{Bool, true}
use mathlib.Core.List.{List, [], ◌∷◌, ◌++◌}
use mathlib.Core.Logic.{◌⊎◌, inl, inr}
use zynum.Prelude.Lists.{All}
use zynum.Prelude.Tests.{Bool-cases, if◌then◌else◌}

-- The element stands between others that all lack the property.
pub record IsOnly {ℓ} {A : Type ℓ} (P : A → Type 0) (x : A) (xs : List A) : Type ℓ where
  pub before : List A
  pub after : List A
  pub layout : xs ≡ before ++ x ∷ after
  pub holds : P x
  pub none_before : All (λ y. P y → ⊥) before
  pub none_after : All (λ y. P y → ⊥) after

module _ {ℓ} {A : Type ℓ} (test : A → Bool) where
  abbrev pub keep : List A → List A
  keep [] = []
  keep (x ∷ xs) = let rest = keep xs in if test x then x ∷ rest else rest

  keep-none : (xs : List A) → keep xs ≡ [] → All (λ y. test y ≡ true → ⊥) xs
  keep-none [] h = tt
  keep-none (x ∷ xs) h = elim (Bool-cases (test x)) [
    | inl e ↦ let h = rw e at h in absurd (cc h)
    | inr e ↦ let h = rw e at h in (λ t. absurd (cc (e, t)), keep-none xs h)
  ]

  pub keep-IsOnly : (x : A) (xs : List A) → keep xs ≡ x ∷ [] → IsOnly (λ y. test y ≡ true) x xs
  keep-IsOnly x [] h = absurd (cc h)
  keep-IsOnly x (y ∷ xs) h = elim (Bool-cases (test y)) [
    | inl e ↦
        let h = rw e at h in
        let head : y ≡ x = cc h in
        let tail : keep xs ≡ [] = cc h in
        record {
          before = [];
          after = xs;
          layout = ap (λ z. z ∷ xs) head;
          holds = ap test (sym head) ∙ e;
          none_before = tt;
          none_after = keep-none xs tail;
        }
    | inr e ↦
        let h = rw e at h in
        let o = keep-IsOnly x xs h in
        record {
          before = y ∷ o.before;
          after = o.after;
          layout = ap (λ l. y ∷ l) o.layout;
          holds = o.holds;
          none_before = (λ t. absurd (cc (e, t)), o.none_before);
          none_after = o.none_after;
        }
  ]

pub All-imp {ℓ} :
    {A : Type ℓ} {P Q : A → Type 0} (xs : List A) → ((x : A) → P x → Q x) → All P xs → All Q xs
All-imp [] f h = tt
All-imp (x ∷ xs) f (p, h) = (f x p, All-imp xs f h)

-- The same element for a property that says the same.
pub IsOnly-same {ℓ} :
    {A : Type ℓ} (P Q : A → Type 0) (x : A) (xs : List A)
    → ((y : A) → P y → Q y)
    → ((y : A) → Q y → P y)
    → IsOnly P x xs
    → IsOnly Q x xs
IsOnly-same P Q x xs f g o = record {
  before = o.before;
  after = o.after;
  layout = o.layout;
  holds = f x o.holds;
  none_before = All-imp {P = λ y. P y → ⊥} o.before (λ y k q. k (g y q)) o.none_before;
  none_after = All-imp {P = λ y. P y → ⊥} o.after (λ y k q. k (g y q)) o.none_after;
}

-- Some element has the property.
abbrev pub Any {ℓ} : {A : Type ℓ} → (A → Type 0) → List A → Type 0
Any P [] = ⊥
Any P (x ∷ xs) = P x ⊎ Any P xs

pub Any-imp {ℓ} :
    {A : Type ℓ} {P Q : A → Type 0} (xs : List A) → ((x : A) → P x → Q x) → Any P xs → Any Q xs
Any-imp [] f h = h
Any-imp (x ∷ xs) f (inl p) = inl (f x p)
Any-imp (x ∷ xs) f (inr h) = inr (Any-imp xs f h)

pub All-Any {ℓ} :
    {A : Type ℓ} {P Q : A → Type 0} (xs : List A)
    → ((x : A) → P x → Q x → ⊥)
    → All P xs
    → Any Q xs
    → ⊥
All-Any [] f h k = k
All-Any (x ∷ xs) f (p, h) (inl q) = f x p q
All-Any (x ∷ xs) f (p, h) (inr k) = All-Any xs f h k
