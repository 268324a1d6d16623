-- ===== src/Macho/Padded.antt =====
-- The names that `_fixed_name` of tools/abi_artifact_parity.py accepts.
use mathlib.Core.List.{append-nil}
use zynum.Prelude.{
  ℕ, ◌≡◌, ◌↔◌, refl, sym, ap, ◌∙◌, subst, String, List, [], ◌∷◌, ◌++◌, Option, none, some, false,
  ◌==◌, not, Bool-cases, inl, inr, arith, ne→==, ||-false, ok, length, drop, All,
}
use zynum.Fields.{until_zero}
use zynum.Fields.Cstring.{NonZero, until_zero-append, until_zero-some}
use zynum.Parse.{raise_if, text}
use zynum.Parse.Guards.{raise_if-ok, text-ok}
use zynum.Archive.Table.{any_nonzero}
use zynum.Macho.Names.{fixed_name}

-- The bytes of a name without a zero, padded with zeros, which are decoded without them.
pub record IsPadded (decode : List ℕ → Option String) (value : List ℕ) (s : String) : Type 0 where
  pub name : List ℕ
  pub padding : List ℕ
  pub layout : value ≡ name ++ padding
  pub clean : NonZero name
  pub zeros : All (λ byte. byte ≡ 0) padding
  pub decoded_eq : decode name ≡ some s

any_nonzero-All : (bytes : List ℕ) → any_nonzero bytes ≡ false → All (λ byte. byte ≡ 0) bytes
any_nonzero-All [] h = tt
any_nonzero-All (b ∷ bytes) h =
    let (first, rest) = ||-false (not (b == 0)) (any_nonzero bytes) h in
    (ground (arith, first), any_nonzero-All bytes rest)

All-any_nonzero : (bytes : List ℕ) → All (λ byte. byte ≡ 0) bytes → any_nonzero bytes ≡ false
All-any_nonzero [] h = refl
All-any_nonzero (b ∷ bytes) (e, h) = let rest = All-any_nonzero bytes h in ground (arith, e, rest)

until_zero-none : (bytes : List ℕ) → until_zero bytes ≡ none → NonZero bytes
until_zero-none [] h = tt
until_zero-none (b ∷ bytes) h = elim (Bool-cases (b == 0)) [
  | inl e ↦ absurd (ground (arith, e, h))
  | inr e ↦ (
    λ z. absurd (ground (arith, e, z)),
    until_zero-none bytes (shorter (until_zero bytes) refl e),
  )
]
  where
    shorter :
        (o : Option (List ℕ)) → until_zero bytes ≡ o → b == 0 ≡ false → until_zero bytes ≡ none
    shorter none at e = at
    shorter (some found) at e = absurd (ground (arith, e, h, at))

NonZero-until_zero : (bytes : List ℕ) → NonZero bytes → until_zero bytes ≡ none
NonZero-until_zero [] h = refl
NonZero-until_zero (b ∷ bytes) (here, h) = rw (ne→== b 0 here, NonZero-until_zero bytes h) refl

drop-length_append : (xs ys : List ℕ) → drop (length xs) (xs ++ ys) ≡ ys
drop-length_append [] ys = refl
drop-length_append (x ∷ xs) ys = drop-length_append xs ys

module _ (decode : List ℕ → Option String) (locator : String) where
  accepted :
      (value : List ℕ) (s : String) (o : Option (List ℕ))
      → until_zero value ≡ o
      → fixed_name decode value locator ≡ ok s
      → IsPadded decode value s
  unfolding fixed_name
  accepted value s none at h =
      let h = rw (fixed_name, at) at h in
      record {
        name = value;
        padding = [];
        layout = sym (append-nil value);
        clean = until_zero-none value at;
        zeros = tt;
        decoded_eq = text-ok decode value locator h;
      }
  accepted value s (some name) at h =
      let h = rw (fixed_name, at) at h in
      let (clean, (rest, layout)) = until_zero-some value name at in
      let (padded, h) = raise_if-ok (any_nonzero (drop (length name) value)) _ _ h in
      record {
        name = name;
        padding = 0 ∷ rest;
        layout = layout;
        clean = clean;
        zeros = any_nonzero-All (0 ∷ rest) (
            ap any_nonzero
              (sym (ap (drop (length name)) layout ∙ drop-length_append name (0 ∷ rest)))
            ∙ padded);
        decoded_eq = text-ok decode name locator h;
      }

  padded :
      (name padding : List ℕ) (s : String)
      → NonZero name
      → All (λ byte. byte ≡ 0) padding
      → decode name ≡ some s
      → fixed_name decode (name ++ padding) locator ≡ ok s
  unfolding fixed_name text raise_if
  padded name [] s clean zeros e =
      subst (λ v. fixed_name decode v locator ≡ ok s) (sym (append-nil name))
        (rw (fixed_name, NonZero-until_zero name clean, text, e) refl)
  padded name (b ∷ padding) s clean (z, zeros) e =
      let at : until_zero (name ++ b ∷ padding) ≡ some name =
        subst (λ d. until_zero (name ++ d ∷ padding) ≡ some name) (sym z)
          (until_zero-append name padding clean) in
      let fill : any_nonzero (drop (length name) (name ++ b ∷ padding)) ≡ false =
        ap any_nonzero (drop-length_append name (b ∷ padding))
        ∙ All-any_nonzero (b ∷ padding) (z, zeros) in
      rw (fixed_name, at, fill, text, e) refl

  -- _fixed_name returns a text exactly if the bytes are those of a name without a zero, padded with
  -- zeros, and the name is decoded as the text.
  pub fixed_name_lem :
      (value : List ℕ) (s : String)
      → (fixed_name decode value locator ≡ ok s) ↔ IsPadded decode value s
  fixed_name_lem value s = (
    accepted value s (until_zero value) refl,
    λ p.
        subst (λ v. fixed_name decode v locator ≡ ok s) (sym p.layout)
          (padded p.name p.padding s p.clean p.zeros p.decoded_eq),
  )
