-- ===== src/Dwarf/Tables.antt =====
-- tools/abi_artifact_parity.py, `parse_dwarf_v4_debug_line`: the header of a unit, and the loops over
-- its directories and its files.
use zynum.Prelude.{
  ℕ, zero, suc, ◌+◌, ◌-◌, String, ◌<>◌, ◌||◌, not, Option, List, [], ◌∷◌, ltb, leb, ◌==◌,
  if◌then◌else◌, Outcome, ok, err, ◌>>=◌, ◌>>◌, length,
}
use zynum.Fields.{cstring, uleb, is_empty}
use zynum.Atoms.Finish.{decimal}
use zynum.Parse.{
  ParseError, parity, parity_value, raise_if, of_field, out_of_fuel, field_le, require_buffer, text,
  range_check,
}

pub record DwarfDirectory : Type 0 where
  pub unit_index : ℕ
  pub directory_index : ℕ
  pub path : String
  pub offset : ℕ
  pub size : ℕ

pub record DwarfFile : Type 0 where
  pub unit_index : ℕ
  pub file_index : ℕ
  pub name : String
  pub directory_index : ℕ
  pub mtime : ℕ
  pub length : ℕ

-- The arguments of the parser that its loops read, and the decoding of UTF-8.
pub record LineSection : Type 0 where
  pub decode : List ℕ → Option String
  pub bytes : List ℕ
  pub file_offset : ℕ
  pub locator_prefix : String

-- Where a unit ends, where its prologue does, and where its tables start.
pub record UnitHeader : Type 0 where
  pub unit_end : ℕ
  pub prologue_end : ℕ
  pub tables : ℕ

-- The scalars of a prologue: the opcode lengths start behind them.
unfoldable pub check_scalars : LineSection → ℕ → Outcome ParseError (Unit {0})
check_scalars s cursor =
    raise_if
      (field_le s.bytes cursor 1 == 0
        || (field_le s.bytes (cursor + 1) 1 == 0
            || (ltb 1 (field_le s.bytes (cursor + 2) 1)
                || (field_le s.bytes (cursor + 4) 1 == 0 || field_le s.bytes (cursor + 5) 1 == 0))))
      (parity "invalid DWARF v4 line-table scalar prologue" s.locator_prefix)

-- The header of the unit at an offset before the end. The ten bytes that the first test asks for hold
-- the fields that are read from it.
unfoldable pub unit_header : LineSection → ℕ → Outcome ParseError UnitHeader
unfolding check_scalars
unit_header s offset = do
  raise_if (ltb (length s.bytes - offset) 10)
      (parity "truncated line-table unit header" s.locator_prefix)
  let total_length = field_le s.bytes offset 4
  raise_if (total_length == 0xFFFFFFFF)
      (parity "DWARF64 line tables are unsupported" s.locator_prefix)
  range_check (length s.bytes) offset (4 + total_length) s.locator_prefix
  let version = field_le s.bytes (offset + 4) 2
  raise_if (not (version == 4))
      (parity_value "unsupported DWARF line-table version" version s.locator_prefix)
  let prologue_length = field_le s.bytes (offset + 6) 4
  let cursor = offset + 10
  let prologue_end = cursor + prologue_length
  raise_if (ltb (offset + 4 + total_length) prologue_end || ltb prologue_length 6)
      (parity "invalid DWARF line-table prologue length" s.locator_prefix)
  require_buffer s.bytes cursor 6
  check_scalars s cursor
  let opcode_base = field_le s.bytes (cursor + 5) 1
  raise_if (ltb prologue_end (cursor + 6 + opcode_base - 1))
      (parity "truncated standard opcode lengths" s.locator_prefix)
  ok (record {
    unit_end = offset + 4 + total_length;
    prologue_end = prologue_end;
    tables = cursor + 6 + opcode_base - 1;
  })

abbrev pub directory_locator : LineSection → ℕ → String
directory_locator s index = s.locator_prefix <> (".directory[" <> (decimal index <> "]"))

-- A round of the loop over the directories, on the text that was found and its end; `rest` are the
-- further rounds.
unfoldable pub directory_read :
    LineSection
    → ℕ
    → ℕ
    → ℕ
    → (ℕ → Outcome ParseError (List DwarfDirectory × (ℕ × ℕ)))
    → List ℕ × ℕ
    → Outcome ParseError (List DwarfDirectory × (ℕ × ℕ))
directory_read s unit index cursor rest (value, next) =
    if is_empty value then ok ([], (index, next)) else (do
      path ← text s.decode value (directory_locator s index)
      (more, stop) ← rest next
      ok (
        record {
          unit_index = unit;
          directory_index = index;
          path = path;
          offset = s.file_offset + cursor;
          size = length value;
        }
            ∷ more,
        stop,
      ))

-- The loop: the directories, the index behind the last one, and the cursor. A round moves the cursor.
unfoldable pub read_directories :
    LineSection → ℕ → ℕ → ℕ → ℕ → ℕ → Outcome ParseError (List DwarfDirectory × (ℕ × ℕ))
unfolding cstring directory_read
read_directories s unit end zero index cursor = err out_of_fuel
read_directories s unit end (suc fuel) index cursor =
    of_field (cstring s.bytes cursor end (s.locator_prefix <> ".directory"))
    >>= directory_read s unit index cursor
        (λ next. read_directories s unit end fuel (suc index) next)

-- The numbers behind the name of a file.
unfoldable pub file_entry :
    LineSection → ℕ → ℕ → ℕ → ℕ → List ℕ → ℕ → Outcome ParseError (DwarfFile × ℕ)
unfolding uleb
file_entry s unit end directory_index index value cursor = do
  (dir_index, c1) ← of_field (uleb s.bytes cursor end (s.locator_prefix <> ".file.dir"))
  (mtime, c2) ← of_field (uleb s.bytes c1 end (s.locator_prefix <> ".file.mtime"))
  (size, c3) ← of_field (uleb s.bytes c2 end (s.locator_prefix <> ".file.length"))
  raise_if (leb directory_index dir_index)
      (parity "file references an absent directory" s.locator_prefix)
  name ← text s.decode value (s.locator_prefix <> (".file[" <> (decimal index <> "]")))
  ok (
    record {
      unit_index = unit;
      file_index = index;
      name = name;
      directory_index = dir_index;
      mtime = mtime;
      length = size;
    },
    c3,
  )

unfoldable pub file_read :
    LineSection
    → ℕ
    → ℕ
    → ℕ
    → ℕ
    → (ℕ → Outcome ParseError (List DwarfFile × ℕ))
    → List ℕ × ℕ
    → Outcome ParseError (List DwarfFile × ℕ)
unfolding file_entry
file_read s unit end directory_index index rest (value, next) =
    if is_empty value then ok ([], next) else (do
      (file, cursor) ← file_entry s unit end directory_index index value next
      (more, stop) ← rest cursor
      ok (file ∷ more, stop))

-- The loop: the files and the cursor.
unfoldable pub read_files :
    LineSection → ℕ → ℕ → ℕ → ℕ → ℕ → ℕ → Outcome ParseError (List DwarfFile × ℕ)
unfolding cstring file_read
read_files s unit end directory_index zero index cursor = err out_of_fuel
read_files s unit end directory_index (suc fuel) index cursor =
    of_field (cstring s.bytes cursor end (s.locator_prefix <> ".file"))
    >>= file_read s unit end directory_index index
        (λ next. read_files s unit end directory_index fuel (suc index) next)
