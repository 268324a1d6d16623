-- ===== src/Parse.antt =====
-- What the parsers of tools/abi_artifact_parity.py share: `struct.unpack_from`, `_text`, and
-- `ParityError` with its text and locator.
pub mod Guards
use zynum.Prelude.{
  ℕ, zero, suc, ◌+◌, ◌*◌, String, Bool, true, false, Option, none, some, List, [], ◌∷◌, ltb, ◌==◌,
  if◌then◌else◌, Outcome, ok, err, ◌>>=◌, length, take, drop,
}
use zynum.Fields.{FieldError}
use zynum.Prelude.Int.{pos}
use zynum.Atoms.{AtomError, require_range}
use zynum.Atoms.Finish.{slice}

-- `parity` has the text and the locator of a `ParityError`, and `parity_value` also the number that
-- the text ends with. The exceptions of the fields and of the builder pass through.
pub data ParseError : Type 0 where
  parity : String → String → ParseError
  parity_value : String → ℕ → String → ParseError
  field : FieldError → ParseError
  atom : AtomError → ParseError
  struct_error : ParseError
  out_of_fuel : ParseError

-- `if test: raise …`.
unfoldable pub raise_if : Bool → ParseError → Outcome ParseError (Unit {0})
raise_if true e = err e
raise_if false e = ok tt

unfoldable pub of_field {ℓ} : {A : Type ℓ} → Outcome FieldError A → Outcome ParseError A
of_field (ok a) = ok a
of_field (err e) = err (field e)

unfoldable pub of_atom {ℓ} : {A : Type ℓ} → Outcome AtomError A → Outcome ParseError A
of_atom (ok a) = ok a
of_atom (err e) = err (atom e)

-- The number that bytes spell, the highest byte first, behind the digits `acc`; and the lowest first.
abbrev pub big_endian : ℕ → List ℕ → ℕ
big_endian acc [] = acc
big_endian acc (byte ∷ bytes) = big_endian (256 * acc + byte) bytes

abbrev pub little_endian : List ℕ → ℕ
little_endian [] = 0
little_endian (byte ∷ bytes) = byte + 256 * little_endian bytes

-- The unsigned fields at an offset, of `width` bytes each.
abbrev pub field_be : List ℕ → ℕ → ℕ → ℕ
field_be bytes offset width = big_endian 0 (slice bytes offset (offset + width))

abbrev pub field_le : List ℕ → ℕ → ℕ → ℕ
field_le bytes offset width = little_endian (slice bytes offset (offset + width))

-- `unpack_from` wants `size` bytes behind the offset.
abbrev pub require_buffer : List ℕ → ℕ → ℕ → Outcome ParseError (Unit {0})
require_buffer bytes offset size = raise_if (ltb (length bytes) (offset + size)) struct_error

-- The value of a key of a dictionary, if it is there.
unfoldable pub or_raise {ℓ} : {A : Type ℓ} → Option A → ParseError → Outcome ParseError A
or_raise (some a) e = ok a
or_raise none e = err e

abbrev pub decoded : Option String → String → Outcome ParseError String
decoded (some s) locator = ok s
decoded none locator = err (parity "string is not UTF-8" locator)

-- `_text`, with `bytes.decode("utf-8")` as an argument, which has no value on other bytes.
unfoldable pub text : (List ℕ → Option String) → List ℕ → String → Outcome ParseError String
text decode value locator = decoded (decode value) locator

-- `_require_range` on natural numbers, for its exception.
unfoldable pub range_check : ℕ → ℕ → ℕ → String → Outcome ParseError (Unit {0})
unfolding require_range
range_check total start size locator =
    of_atom (require_range total (pos start) (pos size) locator >>= λ _. ok tt)
