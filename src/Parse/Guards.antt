-- ===== src/Parse/Guards.antt =====
-- A chain of tests and calls that returns, taken apart.
use zynum.Prelude.{
  arith, ◌+◌, ◌≤◌, ℕ, ◌≡◌, refl, String, Bool, true, false, Option, none, some, List, Outcome, ok,
  err, ◌>>=◌, ◌>>◌,
}
use zynum.Fields.{FieldError}
use zynum.Atoms.{require_range, AtomError}
use zynum.Parse.{
  range_check, ParseError, raise_if, or_raise, of_field, of_atom, text, decoded, parity,
  parity_value, field, atom, struct_error, out_of_fuel,
}

-- No test before the rest raised.
pub raise_if-ok {ℓ} :
    {A : Type ℓ} (test : Bool) (e : ParseError) (rest : Outcome ParseError A) {a : A}
    → (raise_if test e >> rest) ≡ ok a
    → (test ≡ false) × (rest ≡ ok a)
unfolding raise_if
raise_if-ok true e rest h = absurd (cc h)
raise_if-ok false e rest h = (refl, h)

pub of_field-ok {ℓ} : {A : Type ℓ} (r : Outcome FieldError A) {a : A} → of_field r ≡ ok a → r ≡ ok a
unfolding of_field
of_field-ok (ok b) h = cc h
of_field-ok (err e) h = absurd (cc h)

pub of_atom-ok {ℓ} : {A : Type ℓ} (r : Outcome AtomError A) {a : A} → of_atom r ≡ ok a → r ≡ ok a
unfolding of_atom
of_atom-ok (ok b) h = cc h
of_atom-ok (err e) h = absurd (cc h)

pub text-ok :
    (decode : List ℕ → Option String) (value : List ℕ) (locator : String) {s : String}
    → text decode value locator ≡ ok s
    → decode value ≡ some s
unfolding text
text-ok decode value locator {s} h = found (decode value) h
  where
    found : (o : Option String) → decoded o locator ≡ ok s → o ≡ some s
    found none h = absurd (cc h)
    found (some t) h = cc h

pub or_raise-ok {ℓ} :
    {A : Type ℓ} (o : Option A) (e : ParseError) {a : A} → or_raise o e ≡ ok a → o ≡ some a
unfolding or_raise
or_raise-ok none e h = absurd (cc h)
or_raise-ok (some b) e h = cc h

-- The last test of a function.
pub raise_if-only : (test : Bool) (e : ParseError) → raise_if test e ≡ ok tt → test ≡ false
unfolding raise_if
raise_if-only true e h = absurd (cc h)
raise_if-only false e h = refl

-- A call for its exceptions alone.
pub bind-ok_unit {ℓ} :
    {A : Type ℓ} (first : Outcome ParseError (Unit {0})) (next : Unit {0} → Outcome ParseError A)
    {a : A}
    → (first >>= next) ≡ ok a
    → (first ≡ ok tt) × (next tt ≡ ok a)
bind-ok_unit (ok tt) next h = (refl, h)
bind-ok_unit (err e) next h = absurd (cc h)

-- The model's own exception is not raised.
unfoldable pub Runs {ℓ} : {A : Type ℓ} → Outcome ParseError A → Type 0
Runs (err out_of_fuel) = ⊥
Runs _ = Unit {0}

pub Runs-ok {ℓ} : {A : Type ℓ} (a : A) → Runs (ok a)
unfolding Runs
Runs-ok a = tt

pub Runs-bind {ℓ κ} :
    {A : Type ℓ} {B : Type κ} (first : Outcome ParseError A) (next : A → Outcome ParseError B)
    → Runs first
    → ((a : A) → first ≡ ok a → Runs (next a))
    → Runs (first >>= next)
unfolding Runs
Runs-bind (ok a) next h k = k a refl
Runs-bind (err out_of_fuel) next h k = h
Runs-bind (err (parity m l)) next h k = tt
Runs-bind (err (parity_value m n l)) next h k = tt
Runs-bind (err (field e)) next h k = tt
Runs-bind (err (atom e)) next h k = tt
Runs-bind (err struct_error) next h k = tt

-- What a test raises is not that.
pub Runs-raise_if {ℓ} :
    {A : Type ℓ} (test : Bool) (message locator : String) (next : Outcome ParseError A)
    → (test ≡ false → Runs next)
    → Runs (raise_if test (parity message locator) >> next)
unfolding raise_if Runs
Runs-raise_if true message locator next k = tt
Runs-raise_if false message locator next k = k refl

pub Runs-buffer {ℓ} :
    {A : Type ℓ} (test : Bool) (next : Outcome ParseError A)
    → (test ≡ false → Runs next)
    → Runs (raise_if test struct_error >> next)
unfolding raise_if Runs
Runs-buffer true next k = tt
Runs-buffer false next k = k refl

pub Runs-of_field {ℓ} : {A : Type ℓ} (r : Outcome FieldError A) → Runs (of_field r)
unfolding Runs of_field
Runs-of_field (ok a) = tt
Runs-of_field (err e) = tt

pub Runs-of_atom {ℓ} : {A : Type ℓ} (r : Outcome AtomError A) → Runs (of_atom r)
unfolding Runs of_atom
Runs-of_atom (ok a) = tt
Runs-of_atom (err e) = tt

pub Runs-text :
    (decode : List ℕ → Option String) (value : List ℕ) (locator : String)
    → Runs (text decode value locator)
unfolding text Runs
Runs-text decode value locator = found (decode value)
  where
    found : (o : Option String) → Runs (decoded o locator)
    found none = tt
    found (some s) = tt

pub Runs-or_raise {ℓ} :
    {A : Type ℓ} (o : Option A) (message locator : String)
    → Runs (or_raise o (parity message locator))
unfolding Runs or_raise
Runs-or_raise none message locator = tt
Runs-or_raise (some a) message locator = tt

pub Runs-parity {ℓ} :
    (A : Type ℓ) (message locator : String) → Runs {A = A} (err (parity message locator))
unfolding Runs
Runs-parity A message locator = tt

pub range_check-inside :
    (total start size : ℕ) (locator : String)
    → range_check total start size locator ≡ ok tt
    → start + size ≤ total
unfolding range_check require_range of_atom
range_check-inside total start size locator h = ground (arith, h)

pub range_check-Runs :
    (total start size : ℕ) (locator : String) → Runs (range_check total start size locator)
unfolding range_check
range_check-Runs total start size locator = Runs-of_atom _

pub Runs-raise_value {ℓ} :
    {A : Type ℓ} (test : Bool) (message : String) (n : ℕ) (locator : String)
    (next : Outcome ParseError A)
    → (test ≡ false → Runs next)
    → Runs (raise_if test (parity_value message n locator) >> next)
unfolding raise_if Runs
Runs-raise_value true message n locator next k = tt
Runs-raise_value false message n locator next k = k refl

pub Runs-raise_only :
    (test : Bool) (message locator : String) → Runs (raise_if test (parity message locator))
unfolding raise_if Runs
Runs-raise_only true message locator = tt
Runs-raise_only false message locator = tt

pub Runs-parity_value {ℓ} :
    (A : Type ℓ) (message : String) (n : ℕ) (locator : String)
    → Runs {A = A} (err (parity_value message n locator))
unfolding Runs
Runs-parity_value A message n locator = tt

pub range_check-accepts :
    (total start size : ℕ) (locator : String)
    → start + size ≤ total
    → range_check total start size locator ≡ ok tt
unfolding range_check require_range of_atom
range_check-accepts total start size locator h = ground (arith, h)
