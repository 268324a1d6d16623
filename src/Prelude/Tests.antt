-- ===== src/Prelude/Tests.antt =====
-- Boolean tests on the native numbers, the conditional, and Python's `==` as an instance.
use Prim.Native.Nat.{ℕ, ◌≤◌, ◌<◌, compare, Ordering}
use Prim.Native.String.{String}
use mathlib.Core.Path.{◌≡◌, refl}
use mathlib.Core.Logic.{◌⊎◌, inl, inr, dite, ite}
use mathlib.Core.Bool.{Bool, true, false, ◌&&◌, ◌||◌, not, Bool-discrete}
use native.Mathlib.Omega.{arith}
use text.Mathlib.Text
use text.Mathlib.TextEquality.{eq_iff}

-- These compute to `compare`, which `ground` and `grind` read.
abbrev pub ltb : ℕ → ℕ → Bool
ltb a b = elim (compare a b) [ Ordering.lt ↦ true | _ ↦ false ]

abbrev pub leb : ℕ → ℕ → Bool
leb a b = elim (compare a b) [ Ordering.gt ↦ false | _ ↦ true ]

infix 50 ◌==◌
abbrev pub ◌==◌ : ℕ → ℕ → Bool
a == b = elim (compare a b) [ Ordering.eq ↦ true | _ ↦ false ]

infix 1 if◌then◌else◌
abbrev pub if◌then◌else◌ {ℓ} : {A : Type ℓ} → Bool → A → A → A
if true then x else y = x
if false then x else y = y

pub ltb→lt : (a b : ℕ) → ltb a b ≡ true → a < b
ltb→lt a b h = ground arith

pub ltb→ge : (a b : ℕ) → ltb a b ≡ false → b ≤ a
ltb→ge a b h = ground arith

pub lt→ltb : (a b : ℕ) → a < b → ltb a b ≡ true
lt→ltb a b h = ground arith

pub ge→ltb : (a b : ℕ) → b ≤ a → ltb a b ≡ false
ge→ltb a b h = ground arith

pub leb→le : (a b : ℕ) → leb a b ≡ true → a ≤ b
leb→le a b h = ground arith

pub leb→gt : (a b : ℕ) → leb a b ≡ false → b < a
leb→gt a b h = ground arith

pub le→leb : (a b : ℕ) → a ≤ b → leb a b ≡ true
le→leb a b h = ground arith

pub gt→leb : (a b : ℕ) → b < a → leb a b ≡ false
gt→leb a b h = ground arith

-- To split on a computed value and keep the equation.
pub Bool-cases : (b : Bool) → (b ≡ true) ⊎ (b ≡ false)
Bool-cases true = inl refl
Bool-cases false = inr refl

-- A three-way comparison, with the fact that each answer stands for.
pub Ordering-cases :
    (a b : ℕ)
    → ((a < b) × (compare a b ≡ Ordering.lt))
      ⊎ (((a ≡ b) × (compare a b ≡ Ordering.eq)) ⊎ ((b < a) × (compare a b ≡ Ordering.gt)))
Ordering-cases a b = ground arith

-- A type whose values Python compares by `==`.
pub record Eq {ℓ} (A : Type ℓ) : Type ℓ where
  pub dec : Discrete A

abbrev pub same {ℓ} : {A : Type ℓ} ⦃e : Eq A⦄ → A → A → Bool
same ⦃e⦄ a b = ite (e.dec a b) true false

unfoldable pub String-discrete : Discrete String
String-discrete s t =
    dite (Bool-discrete (Text.◌==◌ s t) true) (λ equal. yes ((eq_iff s t).0 equal))
      (λ differ. no (λ p. differ ((eq_iff s t).1 p)))

instance abbrev pub string_eq : Eq String
string_eq = record { dec = String-discrete }

pub same→eq {ℓ} : {A : Type ℓ} ⦃e : Eq A⦄ (a b : A) → same a b ≡ true → a ≡ b
same→eq ⦃e⦄ a b h = elim (e.dec a b) [ yes p ↦ p | no n ↦ absurd (differ n) ]
  where
    differ : (a ≡ b → ⊥) → ⊥
    differ n = ground arith

pub eq→same {ℓ} : {A : Type ℓ} ⦃e : Eq A⦄ (a b : A) → a ≡ b → same a b ≡ true
eq→same ⦃e⦄ a b h = elim (e.dec a b) [ yes p ↦ same_one p | no n ↦ absurd (n h) ]
  where
    same_one : a ≡ b → same a b ≡ true
    same_one p = ground (arith, h)

pub &&-true : (b c : Bool) → (b && c) ≡ true → (b ≡ true) × (c ≡ true)
&&-true b c h = ground arith

pub ||-false : (b c : Bool) → (b || c) ≡ false → (b ≡ false) × (c ≡ false)
||-false b c h = ground arith

pub ==→eq : (a b : ℕ) → (a == b) ≡ true → a ≡ b
==→eq a b h = ground arith

pub eq→== : (a b : ℕ) → a ≡ b → (a == b) ≡ true
eq→== a b h = ground arith

pub ne→== : (a b : ℕ) → (a ≡ b → ⊥) → (a == b) ≡ false
ne→== a b h = ground arith

-- A conditional that has a value, taken apart.
pub if-cases {ℓ} :
    {A : Type ℓ} (t : Bool) (x y : A) {z : A}
    → (if t then x else y) ≡ z
    → ((t ≡ true) × (x ≡ z)) ⊎ ((t ≡ false) × (y ≡ z))
if-cases true x y h = inl (refl, h)
if-cases false x y h = inr (refl, h)

pub not-false : (b : Bool) → not b ≡ false → b ≡ true
not-false true h = refl
not-false false h = absurd (cc h)

pub not_eq-false : (a b : ℕ) → not (a == b) ≡ false → a ≡ b
not_eq-false a b h = ==→eq a b (not-false (a == b) h)

-- A property of a conditional from that of both its values, and of one of them from it.
pub if-elim {ℓ κ} :
    {A : Type ℓ} (P : A → Type κ) (t : Bool) (x y : A) → P x → P y → P (if t then x else y)
if-elim P true x y p q = p
if-elim P false x y p q = q

pub if-true {ℓ κ} :
    {A : Type ℓ} (P : A → Type κ) (t : Bool) (x y : A) → P (if t then x else y) → P x ⊎ P y
if-true P true x y h = inl h
if-true P false x y h = inr h

pub same_refl {ℓ} : {A : Type ℓ} ⦃e : Eq A⦄ (a : A) → same a a ≡ true
same_refl ⦃e⦄ a = decided (e.dec a a)
  where
    decided : (d : Dec (a ≡ a)) → ite d true false ≡ true
    decided (yes p) = refl
    decided (no n) = absurd (n refl)
