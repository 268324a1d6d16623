-- ===== src/Archive/Layout.antt =====
-- tools/abi_artifact_parity.py, `parse_static_archive`: the loop over the members and its claims.
use zynum.Prelude.{
  ℕ, zero, suc, ◌+◌, ◌-◌, ◌%◌, String, ◌<>◌, false, ◌||◌, not, Option, none, List, [], ◌∷◌, ltb,
  leb, ◌==◌, if◌then◌else◌, string_eq, same_list, Outcome, ok, err, ◌>>=◌, ◌>>◌, length, take, drop,
}
use zynum.Fields.{parse_ascii_int, rstrip, is_empty}
use zynum.Atoms.{AtomBuilder, AtomError, Metadata, add}
use zynum.Atoms.Finish.{slice, decimal}
use zynum.Parse.{ParseError, parity, raise_if, of_field, of_atom, out_of_fuel, text, range_check}
use zynum.Prelude.Int.{pos}
use zynum.Archive.Table.{any_nonzero}

pub record RawMember : Type 0 where
  pub index : ℕ
  pub name : String
  pub header_offset : ℕ
  pub payload_offset : ℕ
  pub name_length : ℕ
  pub body_offset : ℕ
  pub body_size : ℕ
  pub stored_size : ℕ
  pub date : ℕ
  pub uid : ℕ
  pub gid : ℕ
  pub mode : ℕ

-- "!<arch>\n".
abbrev pub ar_magic : List ℕ
ar_magic = 33 ∷ 60 ∷ 97 ∷ 114 ∷ 99 ∷ 104 ∷ 62 ∷ 10 ∷ []

abbrev pub max_archive_members : ℕ
max_archive_members = 65536

abbrev pub member_locator : ℕ → String
member_locator index = "archive.member[" <> decimal index <> "]"

-- The numbers of a header.
pub record MemberFields : Type 0 where
  pub date : ℕ
  pub uid : ℕ
  pub gid : ℕ
  pub mode : ℕ
  pub stored_size : ℕ

unfoldable pub member_fields : List ℕ → Outcome ParseError MemberFields
unfolding parse_ascii_int
member_fields header = do
  date ← of_field (parse_ascii_int (slice header 16 28) 10 "archive.member.date")
  uid ← of_field (parse_ascii_int (slice header 28 34) 10 "archive.member.uid")
  gid ← of_field (parse_ascii_int (slice header 34 40) 10 "archive.member.gid")
  mode ← of_field (parse_ascii_int (slice header 40 48) 8 "archive.member.mode")
  stored_size ← of_field (parse_ascii_int (slice header 48 58) 10 "archive.member.size")
  ok (record { date = date; uid = uid; gid = gid; mode = mode; stored_size = stored_size })

-- The name of a member, which stands before its body, and how many bytes it has there.
unfoldable pub member_name :
    (List ℕ → Option String) → List ℕ → ℕ → List ℕ → ℕ → ℕ → Outcome ParseError (ℕ × String)
unfolding parse_ascii_int text
member_name decode bytes index header payload_offset stored_size = do
  let extended = rstrip 32 (take 16 header)
  raise_if (not (same_list (take 3 extended) (35 ∷ 49 ∷ 47 ∷ [])))
      (parity "only Darwin #1/<length> member names are supported" (member_locator index))
  name_length ←
      of_field (parse_ascii_int (drop 3 extended) 10 "archive.member.extended_name_length")
  raise_if (name_length == 0 || ltb stored_size name_length)
      (parity "invalid extended archive name length" (member_locator index))
  let name_storage = slice bytes payload_offset (payload_offset + name_length)
  let logical_name = rstrip 0 name_storage
  raise_if (is_empty logical_name || any_nonzero (drop (length logical_name) name_storage))
      (parity "invalid Darwin extended member name padding" (member_locator index))
  name ← text decode logical_name (member_locator index <> ".name")
  ok (name_length, name)

-- The member whose header stands at an offset.
unfoldable pub read_member :
    (List ℕ → Option String) → List ℕ → ℕ → ℕ → Outcome ParseError RawMember
unfolding member_fields member_name
read_member decode bytes index offset = do
  range_check (length bytes) offset 60 "archive.member.header"
  let header = slice bytes offset (offset + 60)
  raise_if (not (same_list (slice header 58 60) (96 ∷ 10 ∷ [])))
      (parity "invalid archive member trailer" (member_locator index))
  f ← member_fields header
  let payload_offset = offset + 60
  range_check (length bytes) payload_offset f.stored_size "archive.member.payload"
  (name_length, name) ← member_name decode bytes index header payload_offset f.stored_size
  ok (record {
    index = index;
    name = name;
    header_offset = offset;
    payload_offset = payload_offset;
    name_length = name_length;
    body_offset = payload_offset + name_length;
    body_size = f.stored_size - name_length;
    stored_size = f.stored_size;
    date = f.date;
    uid = f.uid;
    gid = f.gid;
    mode = f.mode;
  })

-- A claim without keyword arguments, of a part of a member.
abbrev pub part : ℕ → String → Metadata
part index name = record {
  locator = "member[" <> decimal index <> "]." <> name;
  role = "invariant";
  depends_on = [];
  note = none;
  canonical_payload = none;
}

abbrev pub padding : ℕ → Metadata
padding index = record {
  locator = "member[" <> decimal index <> "].padding";
  role = "derived_padding";
  depends_on = "dwarf.global_cache_directory" ∷ [];
  note = none;
  canonical_payload = none;
}

-- `if body_size`.
abbrev pub claim_body : AtomBuilder → RawMember → Outcome AtomError AtomBuilder
claim_body b m =
    if m.body_size == 0
    then ok b
    else add b (pos m.body_offset) (pos m.body_size) (part m.index "body") false

-- The claims of a member before its padding.
unfoldable pub claim_member : AtomBuilder → RawMember → Outcome ParseError AtomBuilder
claim_member b0 m = do
  b1 ← of_atom (add b0 (pos m.header_offset) (pos 60) (part m.index "header") false)
  b2 ←
      of_atom
        (add b1 (pos m.payload_offset) (pos m.name_length) (part m.index "extended_name") false)
  of_atom (claim_body b2 m)

-- `if stored_size & 1`: the builder and the offset behind the padding.
unfoldable pub claim_padding :
    List ℕ → AtomBuilder → RawMember → ℕ → Outcome ParseError (AtomBuilder × ℕ)
claim_padding bytes b m offset =
    if m.stored_size % 2 == 1
    then (do
      range_check (length bytes) offset 1 (member_locator m.index <> ".padding")
      raise_if (not (same_list (slice bytes offset (offset + 1)) (10 ∷ [])))
          (parity "archive odd-member padding must be newline" (member_locator m.index))
      b' ← of_atom (add b (pos offset) (pos 1) (padding m.index) false)
      ok (b', offset + 1))
    else ok (b, offset)

-- The loop over the members, from an index and an offset on. A round reads 60 bytes or more.
unfoldable pub walk_members :
    (List ℕ → Option String)
    → List ℕ
    → ℕ
    → AtomBuilder
    → ℕ
    → ℕ
    → Outcome ParseError (List RawMember × (AtomBuilder × ℕ))
unfolding read_member claim_member claim_padding
walk_members decode bytes zero b index offset =
    if ltb offset (length bytes) then err out_of_fuel else ok ([], (b, offset))
walk_members decode bytes (suc fuel) b index offset =
    let round = do
      raise_if (leb max_archive_members index) (parity "too many archive members" "")
      m ← read_member decode bytes index offset
      b1 ← claim_member b m
      (b2, next) ← claim_padding bytes b1 m (m.payload_offset + m.stored_size)
      (ms, rest) ← walk_members decode bytes fuel b2 (suc index) next
      ok (m ∷ ms, rest)
    in if ltb offset (length bytes) then round else ok ([], (b, offset))
