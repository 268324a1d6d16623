-- ===== src/Prelude/Texts.antt =====
-- Python's texts and dictionaries by text, as the comparisons use them.
use Prim.Native.Nat.{ℕ, suc}
use Prim.Native.String.{String, compare, [] as empty_text, ◌∷◌ as ◌∷ₜ◌}
use text.Mathlib.Text.{is_le}
use mathlib.Core.Path.{◌≡◌, refl}
use mathlib.Core.Logic.{inl, inr}
use mathlib.Core.Bool.{Bool, true, false, ◌||◌}
use mathlib.Core.Option.{Option, none, some}
use mathlib.Core.List.{List, [], ◌∷◌}
use native.Mathlib.Omega.{arith}
use zynum.Prelude.Tests.{if◌then◌else◌, Eq, same, string_eq, if-elim, if-true, Bool-cases}
use zynum.Prelude.Lists.{All}

-- `text.endswith(suffix)`.
abbrev pub ends_with : String → String → Bool
ends_with empty_text suffix = same empty_text suffix
ends_with (c ∷ₜ text) suffix = same (c ∷ₜ text) suffix || ends_with text suffix

module _ {ℓ} {A : Type ℓ} where
  -- `sorted` by a text, which keeps the order of equal keys.
  abbrev pub insert_sorted : (A → String) → A → List A → List A
  insert_sorted key x [] = x ∷ []
  insert_sorted key x (y ∷ ys) =
      let rest = insert_sorted key x ys in
      if is_le (compare (key x) (key y)) then x ∷ y ∷ ys else y ∷ rest

  abbrev pub sorted : (A → String) → List A → List A
  sorted key [] = []
  sorted key (x ∷ xs) = insert_sorted key x (sorted key xs)

  abbrev pub set_item : String → A → List (String × A) → List (String × A)
  set_item key value [] = (key, value) ∷ []
  set_item key value ((k, v) ∷ items) =
      let rest = set_item key value items in
      if same k key then (k, value) ∷ items else (k, v) ∷ rest

  abbrev pub get_item : String → List (String × A) → Option A
  get_item key [] = none
  get_item key ((k, v) ∷ items) =
      let rest = get_item key items in if same k key then some v else rest

  abbrev pub has_key : String → List (String × A) → Bool
  has_key key [] = false
  has_key key ((k, v) ∷ items) = same k key || has_key key items

module _ {ℓ} {A : Type ℓ} ⦃e : Eq A⦄ where
  abbrev pub without : A → List A → List A
  without x [] = []
  without x (y ∷ ys) = let rest = without x ys in if same x y then rest else y ∷ rest

  -- `dict.fromkeys`: the first of equal values.
  abbrev pub distinct : List A → List A
  distinct [] = []
  distinct (x ∷ xs) = x ∷ without x (distinct xs)

  -- `Counter(xs)[x]`.
  abbrev pub count : A → List A → ℕ
  count x [] = 0
  count x (y ∷ ys) = let rest = count x ys in if same y x then suc rest else rest

module _ {ℓ κ} {A : Type ℓ} where
  insert_sorted-All :
      (P : A → Type κ) (key : A → String) (x : A) (xs : List A)
      → P x
      → All P xs
      → All P (insert_sorted key x xs)
  insert_sorted-All P key x [] p h = (p, tt)
  insert_sorted-All P key x (y ∷ ys) p (q, h) =
      if-elim (λ zs. All P zs) (is_le (compare (key x) (key y))) (x ∷ y ∷ ys)
        (y ∷ insert_sorted key x ys) (p, (q, h)) (q, insert_sorted-All P key x ys p h)

  All-insert_sorted :
      (P : A → Type κ) (key : A → String) (x : A) (xs : List A)
      → All P (insert_sorted key x xs)
      → P x × All P xs
  All-insert_sorted P key x [] h = h
  All-insert_sorted P key x (y ∷ ys) h =
      elim (if-true (λ zs. All P zs) (is_le (compare (key x) (key y))) (x ∷ y ∷ ys)
        (y ∷ insert_sorted key x ys) h) [
          | inl k ↦ k
          | inr (q, k) ↦ let (p, t) = All-insert_sorted P key x ys k in (p, (q, t))
        ]

  -- What holds of the values holds of them sorted, and the other way round.
  pub sorted-All :
      (P : A → Type κ) (key : A → String) (xs : List A) → All P xs → All P (sorted key xs)
  sorted-All P key [] h = h
  sorted-All P key (x ∷ xs) (p, h) =
      insert_sorted-All P key x (sorted key xs) p (sorted-All P key xs h)

  pub All-sorted :
      (P : A → Type κ) (key : A → String) (xs : List A) → All P (sorted key xs) → All P xs
  All-sorted P key [] h = h
  All-sorted P key (x ∷ xs) h =
      let (p, t) = All-insert_sorted P key x (sorted key xs) h in (p, All-sorted P key xs t)

module _ {ℓ} {A : Type ℓ} where
  -- A key that has a value is there.
  pub get_item-has_key :
      (key : String) (items : List (String × A)) (v : A)
      → get_item key items ≡ some v
      → has_key key items ≡ true
  get_item-has_key key [] v h = absurd (cc h)
  get_item-has_key key ((k, w) ∷ items) v h = ground (arith, h, get_item-has_key key items v)

  pub has_key-get_item :
      (key : String) (items : List (String × A))
      → has_key key items ≡ true
      → (v : A) × (get_item key items ≡ some v)
  has_key-get_item key [] h = absurd (cc h)
  has_key-get_item key ((k, w) ∷ items) h = elim (Bool-cases (same k key)) [
    | inl e ↦ (w, rw e refl)
    | inr e ↦
        let further : has_key key items ≡ true = ground (arith, e, h) in
        let (v, at) = has_key-get_item key items further in (v, rw e at)
  ]
