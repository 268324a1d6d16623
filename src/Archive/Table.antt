-- ===== src/Archive/Table.antt =====
-- tools/abi_artifact_parity.py, `parse_ranlib`: the index of an archive.
use zynum.Prelude.{
  ℕ, zero, suc, ◌+◌, ◌-◌, ◌*◌, ◌/◌, ◌%◌, String, ◌<>◌, Bool, false, ◌||◌, not, Option, none, some,
  List, [], ◌∷◌, ltb, ◌==◌, if◌then◌else◌, string_eq, Outcome, ok, err, ◌>>=◌, ◌>>◌, length, drop,
}
use zynum.Fields.{cstring, is_empty}
use zynum.Atoms.Finish.{decimal}
use zynum.Parse.{
  ParseError, parity, raise_if, or_raise, of_field, out_of_fuel, field_le, require_buffer, text,
}

pub record RanlibEntry : Type 0 where
  pub index : ℕ
  pub symbol : String
  pub string_offset : ℕ
  pub member_offset : ℕ

abbrev pub any_nonzero : List ℕ → Bool
any_nonzero [] = false
any_nonzero (b ∷ bytes) = not (b == 0) || any_nonzero bytes

abbrev pub lookup {ℓ} : {A : Type ℓ} → ℕ → List (ℕ × A) → Option A
lookup key [] = none
lookup key ((k, v) ∷ rest) = if k == key then some v else lookup key rest

-- What a round of the loop that fills `boundaries` does with the text that was found and its end;
-- `rest` are the further rounds.
unfoldable pub boundary_found :
    List ℕ
    → ℕ
    → (ℕ → Outcome ParseError (List (ℕ × List ℕ)))
    → List ℕ × ℕ
    → Outcome ParseError (List (ℕ × List ℕ))
boundary_found strings cursor rest (value, end) =
    if is_empty value
    then (raise_if (any_nonzero (drop cursor strings))
          (parity "nonzero bytes after ranlib string terminator" "archive.ranlib")
        >> ok [])
    else (rest end >>= λ more. ok ((cursor, value) ∷ more))

-- The loop. Each round moves the cursor, so that as many rounds as there are bytes are enough.
unfoldable pub boundaries_from : List ℕ → ℕ → ℕ → Outcome ParseError (List (ℕ × List ℕ))
unfolding cstring boundary_found
boundaries_from strings zero cursor = if ltb cursor (length strings) then err out_of_fuel else ok []
boundaries_from strings (suc fuel) cursor =
    let found = boundary_found strings cursor (λ end. boundaries_from strings fuel end) in
    if ltb cursor (length strings)
    then (of_field (cstring strings cursor (length strings) "archive.ranlib.strings") >>= found)
    else ok []

abbrev pub entry_locator : ℕ → String
entry_locator index = "archive.ranlib[" <> decimal index <> "]"

-- One round of the loop over the table.
unfoldable pub ranlib_entry :
    (List ℕ → Option String)
    → List ℕ
    → List (ℕ × List ℕ)
    → List (ℕ × String)
    → ℕ
    → Outcome ParseError RanlibEntry
unfolding text
ranlib_entry decode bytes boundaries member_offsets index = do
  require_buffer bytes (4 + index * 8) 8
  let string_offset = field_le bytes (4 + index * 8) 4
  let member_offset = field_le bytes (4 + index * 8 + 4) 4
  value ←
      or_raise (lookup string_offset boundaries)
        (parity "ranlib string offset is not at a string boundary" (entry_locator index))
  name ←
      or_raise (lookup member_offset member_offsets)
        (parity "ranlib member offset does not name an archive header" (entry_locator index))
  symbol ← text decode value (entry_locator index <> ".symbol")
  ok (record {
    index = index;
    symbol = symbol;
    string_offset = string_offset;
    member_offset = member_offset;
  })

unfoldable pub ranlib_entries :
    (List ℕ → Option String)
    → List ℕ
    → List (ℕ × List ℕ)
    → List (ℕ × String)
    → ℕ
    → ℕ
    → Outcome ParseError (List RanlibEntry)
unfolding ranlib_entry
ranlib_entries decode bytes boundaries member_offsets zero index = ok []
ranlib_entries decode bytes boundaries member_offsets (suc count) index = do
  entry ← ranlib_entry decode bytes boundaries member_offsets index
  entries ← ranlib_entries decode bytes boundaries member_offsets count (suc index)
  ok (entry ∷ entries)

unfoldable pub parse_ranlib :
    (List ℕ → Option String) → List ℕ → List (ℕ × String) → Outcome ParseError (List RanlibEntry)
unfolding boundaries_from ranlib_entries
parse_ranlib decode bytes member_offsets = do
  raise_if (ltb (length bytes) 8) (parity "ranlib body is truncated" "archive.ranlib")
  let table_size = field_le bytes 0 4
  raise_if (not (table_size % 8 == 0) || ltb (length bytes - 8) table_size)
      (parity "invalid ranlib table byte count" "archive.ranlib")
  require_buffer bytes (4 + table_size) 4
  let strings_size = field_le bytes (4 + table_size) 4
  let strings_offset = 4 + table_size + 4
  raise_if (not (strings_offset + strings_size == length bytes))
      (parity "ranlib string table does not exactly fill member" "archive.ranlib")
  let strings = drop strings_offset bytes
  boundaries ← boundaries_from strings (length strings) 0
  ranlib_entries decode bytes boundaries member_offsets (table_size / 8) 0
