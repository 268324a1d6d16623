-- ===== src/Prelude/Lists.antt =====
-- Lists measured and indexed by native numbers, under the library's names.
use Prim.Native.Nat.{ℕ, zero, suc, ◌+◌, ◌-◌, ◌≤◌, min}
use mathlib.Core.Path.{◌≡◌, refl, sym, ap, ◌∙◌}
use mathlib.Core.List.{List, [], ◌∷◌, ◌++◌}
use mathlib.Core.Option.{Option, none, some}
use native.Mathlib.Omega.{arith}

module _ {ℓ} {A : Type ℓ} where
  abbrev pub length : List A → ℕ
  length [] = 0
  length (x ∷ xs) = suc (length xs)

  abbrev pub get_elem? : List A → ℕ → Option A
  get_elem? [] i = none
  get_elem? (x ∷ xs) zero = some x
  get_elem? (x ∷ xs) (suc i) = get_elem? xs i

  abbrev pub take : ℕ → List A → List A
  take zero xs = []
  take (suc n) [] = []
  take (suc n) (x ∷ xs) = x ∷ take n xs

  abbrev pub drop : ℕ → List A → List A
  drop zero xs = xs
  drop (suc n) [] = []
  drop (suc n) (x ∷ xs) = drop n xs

  abbrev pub All {κ} : (A → Type κ) → List A → Type κ
  All P [] = Unit
  All P (x ∷ xs) = P x × All P xs

module _ {ℓ} {A : Type ℓ} where
  pub length-append : (xs ys : List A) → length (xs ++ ys) ≡ length xs + length ys
  length-append [] ys = omega arith
  length-append (x ∷ xs) ys = omega (arith, length-append xs ys)

  pub length-take : (n : ℕ) (xs : List A) → length (take n xs) ≡ min n (length xs)
  length-take zero xs = omega arith
  length-take (suc n) [] = omega arith
  length-take (suc n) (x ∷ xs) = omega (arith, length-take n xs)

  pub length-drop : (n : ℕ) (xs : List A) → length (drop n xs) ≡ length xs - n
  length-drop zero xs = omega arith
  length-drop (suc n) [] = omega arith
  length-drop (suc n) (x ∷ xs) = omega (arith, length-drop n xs)

  pub take-append-drop : (n : ℕ) (xs : List A) → take n xs ++ drop n xs ≡ xs
  take-append-drop zero xs = refl
  take-append-drop (suc n) [] = refl
  take-append-drop (suc n) (x ∷ xs) = ap (λ t. x ∷ t) (take-append-drop n xs)

  pub All-append {κ} : (P : A → Type κ) (xs ys : List A) → All P xs → All P ys → All P (xs ++ ys)
  All-append P [] ys p q = q
  All-append P (x ∷ xs) ys p q = (p.0, All-append P xs ys p.1 q)

module _ {ℓ} {A : Type ℓ} where
  drop-[] : (n : ℕ) → drop {A = A} n [] ≡ []
  drop-[] zero = refl
  drop-[] (suc n) = refl

  pub drop_add : (xs : List A) (start k j : ℕ) → start + k ≡ j → drop j xs ≡ drop k (drop start xs)
  drop_add xs zero k j e = let e' : j ≡ k = omega arith in cc e'
  drop_add xs (suc start) k zero e = absurd (omega arith)
  drop_add [] (suc start) k (suc j) e = sym (drop-[] k)
  drop_add (x ∷ xs) (suc start) k (suc j) e = drop_add xs start k j (omega arith)

  take-[] : (n : ℕ) → take {A = A} n [] ≡ []
  take-[] zero = refl
  take-[] (suc n) = refl

  -- A prefix that reaches further is a prefix and what stands between.
  pub take-split :
      (xs : List A) (m e : ℕ) → m ≤ e → take e xs ≡ take m xs ++ take (e - m) (drop m xs)
  take-split xs zero e h = ap (λ k. take k xs) (omega arith)
  take-split [] (suc m) e h = take-[] e ∙ sym (take-[] (e - suc m))
  take-split (x ∷ xs) (suc m) zero h = absurd (omega arith)
  take-split (x ∷ xs) (suc m) (suc e) h =
      let k : suc e - suc m ≡ e - m = omega arith in
      rw k (ap (λ t. x ∷ t) (take-split xs m e (omega arith)))
