-- ===== src/Archive/Reader.antt =====
-- tools/abi_artifact_parity.py, `parse_static_archive` up to the members' objects.
use zynum.Prelude.{
  ℕ, ◌+◌, ◌*◌, String, ◌<>◌, Bool, true, false, ◌||◌, not, Option, none, List, [], ◌∷◌, ◌==◌, same,
  string_eq, same_list, Outcome, ok, err, ◌>>=◌, ◌>>◌, length, take,
}
use zynum.Atoms.{AtomBuilder, add, new_builder}
use zynum.Atoms.Finish.{slice, decimal}
use zynum.Parse.{ParseError, parity, raise_if, of_atom}
use zynum.Prelude.Int.{pos}
use zynum.Archive.Table.{RanlibEntry, parse_ranlib}
use zynum.Archive.Layout.{RawMember, ar_magic, walk_members}

abbrev pub is_symdef : RawMember → Bool
is_symdef m = same m.name "__.SYMDEF"

abbrev pub any_symdef : List RawMember → Bool
any_symdef [] = false
any_symdef (m ∷ ms) = is_symdef m || any_symdef ms

-- The dictionary of the members' header offsets. Each offset is another.
abbrev pub offset_names : List RawMember → List (ℕ × String)
offset_names [] = []
offset_names (m ∷ ms) = (m.header_offset, m.name) ∷ offset_names ms

-- The loop that claims the member offsets of the index.
unfoldable pub claim_index : AtomBuilder → ℕ → List RanlibEntry → Outcome ParseError AtomBuilder
claim_index b body_offset [] = ok b
claim_index b body_offset (entry ∷ entries) = do
  b' ← of_atom (
      add b (pos (body_offset + 4 + entry.index * 8 + 4)) (pos 4)
        (record {
          locator = "ranlib[" <> decimal entry.index <> "].member_offset";
          role = "derived_field";
          depends_on = "dwarf.global_cache_directory" ∷ [];
          note = none;
          canonical_payload = none;
        })
        true)
  claim_index b' body_offset entries

abbrev pub is_empty_list : List RawMember → Bool
is_empty_list [] = true
is_empty_list (m ∷ ms) = false

pub record Opened : Type 0 where
  pub members : List RawMember
  pub ranlib : List RanlibEntry
  pub builder : AtomBuilder

-- The members are the index and two or more in all, and only the first is an index.
unfoldable pub open_index :
    (List ℕ → Option String) → List ℕ → List RawMember → AtomBuilder → Outcome ParseError Opened
unfolding parse_ranlib claim_index
open_index decode bytes [] b =
    err (parity "archive must contain __.SYMDEF followed by object members" "")
open_index decode bytes (first ∷ members) b = do
  raise_if (is_empty_list members || not (is_symdef first))
      (parity "archive must contain __.SYMDEF followed by object members" "")
  raise_if (any_symdef members) (parity "duplicate __.SYMDEF member" "")
  ranlib ←
      parse_ranlib decode (slice bytes first.body_offset (first.body_offset + first.body_size))
        (offset_names members)
  b' ← claim_index b first.body_offset ranlib
  ok (record { members = first ∷ members; ranlib = ranlib; builder = b' })

-- `parse_static_archive` on the bytes of a file, up to the objects. A round of the walk reads 60
-- bytes or more, so that as many rounds as there are bytes are enough.
unfoldable pub open_archive : (List ℕ → Option String) → List ℕ → Outcome ParseError Opened
unfolding walk_members open_index
open_archive decode bytes = do
  raise_if (not (same_list (take 8 bytes) ar_magic)) (parity "not a Darwin ar archive" "")
  b ← of_atom (
      add (new_builder bytes "archive") (pos 0) (pos 8)
        (record {
          locator = "magic";
          role = "invariant";
          depends_on = [];
          note = none;
          canonical_payload = none;
        })
        false)
  (members, (b', offset)) ← walk_members decode bytes (length bytes) b 0 8
  raise_if (not (offset == length bytes))
      (parity "archive must contain __.SYMDEF followed by object members" "")
  open_index decode bytes members b'
