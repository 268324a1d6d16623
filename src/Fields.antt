-- ===== src/Fields.antt =====
-- tools/abi_artifact_parity.py, the fields that its parsers read: `_uleb`, `_cstring` and
-- `_parse_ascii_int`. Offsets and limits are natural numbers, as those are that the parsers pass.
pub mod Digits
pub mod Uleb
pub mod Cstring
pub mod AsciiInt
pub mod Canonical
pub mod Progress
mod Examples
use Prim.Native.Nat.{bit_and, bit_or}
use zynum.Prelude.{
  ℕ, zero, suc, ◌+◌, ◌-◌, ◌*◌, ◌^◌, String, Bool, true, false, ◌||◌, ◌&&◌, not, leb, Option, none,
  some, List, [], ◌∷◌, ltb, ◌==◌, if◌then◌else◌, Outcome, ok, err, ◌>>=◌, ◌>>◌, length, take, drop,
  get_elem?,
}

-- `ParityError`, by its text and with the locator; and `IndexError`.
pub data FieldError : Type 0 where
  non_minimal_uleb : String → FieldError
  oversized_uleb : String → FieldError
  range_exceeds : String → FieldError
  invalid_string_limit : String → FieldError
  unterminated_string : String → FieldError
  invalid_archive_number : String → FieldError
  index_error : FieldError

-- `data[offset]`.
unfoldable pub byte_at : List ℕ → ℕ → Outcome FieldError ℕ
byte_at bytes offset = elim (get_elem? bytes offset) [
  | some byte ↦ ok byte
  | none ↦ err index_error
]

-- `a << b`.
abbrev pub shift_left : ℕ → ℕ → ℕ
shift_left a b = a * 2 ^ b

-- The loop of `_uleb`. `rounds` are those that `offset - start < 10` leaves.
unfoldable pub uleb_from : List ℕ → ℕ → String → ℕ → ℕ → ℕ → ℕ → ℕ → Outcome FieldError (ℕ × ℕ)
uleb_from bytes limit locator start zero value shift offset = err (oversized_uleb locator)
uleb_from bytes limit locator start (suc rounds) value shift offset =
    let rest = λ (byte : ℕ).
      uleb_from bytes limit locator start rounds
        (bit_or value (shift_left (bit_and byte 127) shift)) (shift + 7) (suc offset) in
    if ltb offset limit
    then (byte_at bytes offset >>= λ byte.
        if bit_and byte 128 == 0
        then if ltb 1 (suc offset - start) && byte == 0
          then err (non_minimal_uleb locator)
          else ok (bit_or value (shift_left (bit_and byte 127) shift), suc offset)
        else rest byte)
    else err (oversized_uleb locator)

unfoldable pub uleb : List ℕ → ℕ → ℕ → String → Outcome FieldError (ℕ × ℕ)
unfolding uleb_from byte_at
uleb bytes offset limit locator = uleb_from bytes limit locator offset 10 0 0 offset

-- `data.find(b"\0", start, limit)` over what stands from `start` on, with the bytes before the zero.
abbrev pub until_zero : List ℕ → Option (List ℕ)
until_zero [] = none
until_zero (byte ∷ bytes) =
    if byte == 0
    then some []
    else (elim (until_zero bytes) [ some found ↦ some (byte ∷ found) | none ↦ none ])

unfoldable pub cstring : List ℕ → ℕ → ℕ → String → Outcome FieldError (List ℕ × ℕ)
cstring bytes start limit locator =
    if ltb (length bytes) start
    then err (range_exceeds locator)
    else if ltb limit start || ltb (length bytes) limit
    then err (invalid_string_limit locator)
    else elim (until_zero (take (limit - start) (drop start bytes))) [
      | none ↦ err (unterminated_string locator)
      | some found ↦ ok (found, suc (start + length found))
    ]

-- `value.rstrip(…)` of one byte.
abbrev pub rstrip : ℕ → List ℕ → List ℕ
rstrip blank [] = []
rstrip blank (byte ∷ bytes) = elim (rstrip blank bytes) [
  | [] ↦ if byte == blank then [] else byte ∷ []
  | (b ∷ rest) ↦ byte ∷ b ∷ rest
]

-- Whether a byte is a digit below the count, in ASCII.
abbrev pub is_digit : ℕ → ℕ → Bool
is_digit digit_count byte = leb 48 byte && ltb byte (48 + digit_count)

abbrev pub all_digits : ℕ → List ℕ → Bool
all_digits digit_count [] = true
all_digits digit_count (byte ∷ bytes) = is_digit digit_count byte && all_digits digit_count bytes

-- The number of digits behind a value; none if one of them is not below the base.
abbrev pub int_from : ℕ → ℕ → List ℕ → Option ℕ
int_from base value [] = some value
int_from base value (byte ∷ bytes) =
    let rest = int_from base (value * base + (byte - 48)) bytes in
    if is_digit base byte then rest else none

-- The most digits that Python's `int` takes, `sys.int_info.default_max_str_digits`; more are a
-- `ValueError`, unless the base is a power of two.
abbrev pub max_str_digits : ℕ
max_str_digits = 4300

-- `int(stripped, base)` on digits; none for the `ValueError`.
abbrev pub int_of_digits : ℕ → List ℕ → Option ℕ
int_of_digits base digits =
    if base == 10 && ltb max_str_digits (length digits) then none else int_from base 0 digits

abbrev pub is_empty : List ℕ → Bool
is_empty [] = true
is_empty (b ∷ bytes) = false

unfoldable pub parse_ascii_int : List ℕ → ℕ → String → Outcome FieldError ℕ
parse_ascii_int value base locator =
    let stripped = rstrip 32 value in
    if is_empty stripped || not (all_digits (if base == 10 then 10 else 8) stripped)
    then err (invalid_archive_number locator)
    else elim (int_of_digits base stripped) [
      | some n ↦ ok n
      | none ↦ err (invalid_archive_number locator)
    ]
