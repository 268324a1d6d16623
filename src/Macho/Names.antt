-- ===== src/Macho/Names.antt =====
-- tools/abi_artifact_parity.py, `_fixed_name`, `_parse_load_string` and `_align_up`.
use Prim.Native.Nat.{bit_and}
use zynum.Prelude.{
  ℕ, ◌+◌, ◌-◌, String, ◌||◌, not, Option, none, some, List, ltb, leb, ◌==◌, Outcome, ok, ◌>>=◌,
  ◌>>◌, length, drop,
}
use zynum.Fields.{cstring, until_zero}
use zynum.Atoms.Finish.{slice}
use zynum.Parse.{ParseError, parity, parity_value, raise_if, of_field, text}
use zynum.Archive.Table.{any_nonzero}

unfoldable pub fixed_name : (List ℕ → Option String) → List ℕ → String → Outcome ParseError String
unfolding text
fixed_name decode value locator = elim (until_zero value) [
  | none ↦ text decode value locator
  | some name ↦
      raise_if (any_nonzero (drop (length name) value))
        (parity "nonzero bytes after fixed-name terminator" locator)
      >> text decode name locator
]

unfoldable pub parse_load_string :
    (List ℕ → Option String) → List ℕ → ℕ → ℕ → ℕ → String → Outcome ParseError String
unfolding cstring
parse_load_string decode bytes command_offset command_size field_offset locator = do
  raise_if (ltb field_offset 8 || leb command_size field_offset)
      (parity "invalid load-command string offset" locator)
  (value, end) ←
      of_field
        (cstring bytes (command_offset + field_offset) (command_offset + command_size) locator)
  raise_if (any_nonzero (slice bytes end (command_offset + command_size)))
      (parity "nonzero load-command string padding" locator)
  text decode value locator

-- `x & -a` of a positive `a`: the bits of `x` that `a - 1` has not.
abbrev pub and_negative : ℕ → ℕ → ℕ
and_negative x a = x - bit_and x (a - 1)

unfoldable pub align_up : ℕ → ℕ → Outcome ParseError ℕ
align_up value alignment = do
  raise_if (alignment == 0 || not (bit_and alignment (alignment - 1) == 0))
      (parity_value "invalid power-of-two alignment" alignment "")
  ok (and_negative (value + alignment - 1) alignment)
