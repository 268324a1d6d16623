-- ===== src/Signature.antt =====
-- tools/abi_artifact_parity.py, `parse_code_directory`: the ad-hoc signature that a linker puts at the
-- end of a dynamic library. Offsets and sizes are natural numbers, as the load command has them.
pub mod Accepted
pub mod Tamper
pub mod Claims
mod Examples
use zynum.Prelude.{
  ℕ, zero, suc, ◌+◌, ◌-◌, ◌*◌, ◌/◌, ◌^◌, String, Bool, true, false, ◌||◌, ◌&&◌, not, Option, none,
  some, List, [], ◌∷◌, ltb, ◌==◌, if◌then◌else◌, same, string_eq, same_list, min, Outcome, ok, err,
  ◌>>=◌, ◌>>◌, length,
}
use zynum.Prelude.Int.{pos}
use zynum.Fields.{cstring}
use zynum.Atoms.{AtomError, AtomBuilder, Metadata, require_range, add}
use zynum.Atoms.Finish.{slice}
use zynum.Parse.{
  ParseError, parity, parity_value, raise_if, of_field, of_atom, field_be, require_buffer, text,
}

-- The fields of the header that `unpack_from(">IIIIIIIII4BIIIIQQQQ", …)` names.
pub record CodeHeader : Type 0 where
  pub cd_magic : ℕ
  pub cd_length : ℕ
  pub version : ℕ
  pub flags : ℕ
  pub hash_offset : ℕ
  pub ident_offset : ℕ
  pub special_slots : ℕ
  pub code_slots : ℕ
  pub code_limit_32 : ℕ
  pub hash_size : ℕ
  pub hash_type : ℕ
  pub platform : ℕ
  pub page_exp : ℕ
  pub spare2 : ℕ
  pub scatter_offset : ℕ
  pub team_offset : ℕ
  pub spare3 : ℕ
  pub code_limit_64 : ℕ
  pub exec_seg_base : ℕ
  pub exec_seg_limit : ℕ
  pub exec_seg_flags : ℕ

unfoldable pub code_header : List ℕ → ℕ → CodeHeader
code_header bytes cd = record {
  cd_magic = field_be bytes cd 4;
  cd_length = field_be bytes (cd + 4) 4;
  version = field_be bytes (cd + 8) 4;
  flags = field_be bytes (cd + 12) 4;
  hash_offset = field_be bytes (cd + 16) 4;
  ident_offset = field_be bytes (cd + 20) 4;
  special_slots = field_be bytes (cd + 24) 4;
  code_slots = field_be bytes (cd + 28) 4;
  code_limit_32 = field_be bytes (cd + 32) 4;
  hash_size = field_be bytes (cd + 36) 1;
  hash_type = field_be bytes (cd + 37) 1;
  platform = field_be bytes (cd + 38) 1;
  page_exp = field_be bytes (cd + 39) 1;
  spare2 = field_be bytes (cd + 40) 4;
  scatter_offset = field_be bytes (cd + 44) 4;
  team_offset = field_be bytes (cd + 48) 4;
  spare3 = field_be bytes (cd + 52) 4;
  code_limit_64 = field_be bytes (cd + 56) 8;
  exec_seg_base = field_be bytes (cd + 64) 8;
  exec_seg_limit = field_be bytes (cd + 72) 8;
  exec_seg_flags = field_be bytes (cd + 80) 8;
}

pub record CodeDirectory : Type 0 where
  pub offset : ℕ
  pub size : ℕ
  pub version : ℕ
  pub flags : ℕ
  pub identifier : String
  pub code_limit : ℕ
  pub code_slots : ℕ
  pub page_size : ℕ
  pub hash_type : ℕ
  pub hash_size : ℕ
  pub cdhash : String

abbrev pub locator : String
locator = "macho.code_signature"

-- The checks of the superblob, before the header.
unfoldable pub check_superblob : List ℕ → ℕ → ℕ → Outcome ParseError (Unit {0})
check_superblob bytes offset size = do
  raise_if (ltb size 20) (parity "signature is too small" locator)
  require_buffer bytes offset 12
  raise_if
      (not (field_be bytes offset 4 == 0xfade0cc0)
        || (not (field_be bytes (offset + 4) 4 == size)
            || not (field_be bytes (offset + 8) 4 == 1)))
      (parity "requires a single-slot embedded signature" locator)
  require_buffer bytes (offset + 12) 8
  raise_if (not (field_be bytes (offset + 12) 4 == 0) || not (field_be bytes (offset + 16) 4 == 20))
      (parity "requires exactly one primary CodeDirectory" locator)
  raise_if (ltb size (20 + 88)) (parity "CodeDirectory header is truncated" locator)

-- The tests of the header up to the page exponent. 0x20002 is `CS_ADHOC | CS_LINKER_SIGNED`.
unfoldable pub check_header : CodeHeader → ℕ → Outcome ParseError (Unit {0})
check_header h size = do
  raise_if (not (h.cd_magic == 0xfade0c02) || not (h.cd_length == size - 20))
      (parity "invalid CodeDirectory length or magic" locator)
  raise_if (not (h.version == 0x20400))
      (parity_value "unsupported CodeDirectory version" h.version locator)
  raise_if (not (h.flags == 0x20002))
      (parity_value "signature flags are not ad-hoc linker-signed" h.flags locator)
  raise_if (not (h.special_slots == 0) || (not (h.scatter_offset == 0) || not (h.team_offset == 0)))
      (parity "special, scatter, team, entitlement, or requirement slots are forbidden" locator)
  raise_if (not (h.spare2 == 0) || (not (h.spare3 == 0) || not (h.platform == 0)))
      (parity "nonzero reserved CodeDirectory field" locator)
  raise_if (not (h.hash_type == 2) || not (h.hash_size == 32))
      (parity "only full SHA-256 CodeDirectories are supported" locator)
  raise_if (ltb 30 h.page_exp) (parity "invalid CodeDirectory page exponent" locator)

unfoldable pub code_limit_of : CodeHeader → Outcome ParseError ℕ
code_limit_of h =
    if h.code_limit_32 == 0xffffffff
    then (raise_if (not (ltb 0xffffffff h.code_limit_64))
          (parity "non-canonical 64-bit CodeDirectory code limit" locator)
        >> ok h.code_limit_64)
    else (raise_if (not (h.code_limit_64 == 0))
          (parity "unexpected 64-bit CodeDirectory code limit" locator)
        >> ok h.code_limit_32)

-- The tests of the derived sizes.
unfoldable pub check_limits : CodeHeader → ℕ → ℕ → Outcome ParseError (Unit {0})
check_limits h code_limit offset = do
  let page_size = 2 ^ h.page_exp
  raise_if (not (code_limit == offset))
      (parity "CodeDirectory code limit does not equal signature offset" locator)
  raise_if (not (h.code_slots == (code_limit + page_size - 1) / page_size))
      (parity "CodeDirectory code-slot count is not derived from code limit" locator)
  raise_if (ltb h.ident_offset 88 || not (ltb h.ident_offset h.cd_length))
      (parity "invalid CodeDirectory identifier offset" locator)

-- The bytes of a page.
abbrev pub page : List ℕ → ℕ → ℕ → ℕ → List ℕ
page bytes page_size code_limit index =
    slice bytes (index * page_size) (min (index * page_size + page_size) code_limit)

module _ (sha256 : List ℕ → List ℕ) where
  -- The rounds of the loop over the pages from `index` on.
  unfoldable pub check_pages : List ℕ → ℕ → ℕ → ℕ → ℕ → ℕ → Outcome ParseError (Unit {0})
  check_pages bytes hashes page_size code_limit index zero = ok tt
  check_pages bytes hashes page_size code_limit index (suc slots) =
      let actual_start = hashes + index * 32 in
      raise_if
        (not (
          same_list (slice bytes actual_start (actual_start + 32))
            (sha256 (page bytes page_size code_limit index))))
        (parity_value "page hash does not match signed bytes" index locator)
      >> check_pages bytes hashes page_size code_limit (suc index) slots

abbrev pub dynamic_dependencies : List String
dynamic_dependencies =
    "macho.load[LC_UUID].uuid" ∷ "macho.symtab.n_oso.mtime" ∷ "macho.symtab.n_oso.path" ∷ []

abbrev pub claim : String → String → List String → Metadata
claim name role depends_on = record {
  locator = name;
  role = role;
  depends_on = depends_on;
  note = none;
  canonical_payload = none;
}

abbrev pub replaced : AtomBuilder → ℕ → ℕ → Metadata → Outcome AtomError AtomBuilder
replaced b start size given = add b (pos start) (pos size) given true

-- The five claims.
unfoldable pub claim_signature : AtomBuilder → ℕ → ℕ → CodeHeader → Outcome AtomError AtomBuilder
claim_signature b0 offset size h = do
  let cd = offset + 20
  b1 ← replaced b0 offset size (claim "code_signature" "invariant" [])
  b2 ←
      replaced b1 (offset + 4) 4
        (claim "code_signature.superblob_length" "derived_field" dynamic_dependencies)
  b3 ←
      replaced b2 (cd + 4) 4
        (claim "code_signature.directory_length" "derived_field" dynamic_dependencies)
  b4 ←
      replaced b3 (cd + 28) 8
        (claim "code_signature.code_slots_and_limit" "derived_field" dynamic_dependencies)
  replaced b4 (cd + h.hash_offset) (h.code_slots * h.hash_size)
      (claim "code_signature.page_hashes" "derived_field" dynamic_dependencies)

abbrev if_given :
    Option AtomBuilder
    → (AtomBuilder → Outcome AtomError AtomBuilder)
    → Outcome ParseError (Option AtomBuilder)
if_given none run = ok none
if_given (some b) run = of_atom (run b) >>= λ b'. ok (some b')

module _ (sha256 : List ℕ → List ℕ) (sha256_hex : List ℕ → String)
    (decode : List ℕ → Option String) where
  -- `sha256` is `hashlib.sha256(…).digest()`, `sha256_hex` its `hexdigest()`, and `decode` decodes
  -- UTF-8. What is returned, and the builder after the claims.
  unfoldable pub parse_code_directory :
      List ℕ → ℕ → ℕ → Option AtomBuilder → Outcome ParseError (CodeDirectory × Option AtomBuilder)
  unfolding check_superblob code_header check_header code_limit_of check_limits check_pages
      claim_signature cstring text require_range
  parse_code_directory bytes offset size builder = do
    of_atom (require_range (length bytes) (pos offset) (pos size) locator >>= λ _. ok tt)
    check_superblob bytes offset size
    let cd = offset + 20
    require_buffer bytes cd 88
    let h = code_header bytes cd
    check_header h size
    let page_size = 2 ^ h.page_exp
    code_limit ← code_limit_of h
    check_limits h code_limit offset
    (ident_bytes, ident_end) ←
        of_field
          (cstring bytes (cd + h.ident_offset) (cd + h.cd_length) "macho.code_signature.identifier")
    identifier ← text decode ident_bytes "macho.code_signature.identifier"
    raise_if (same identifier "") (parity "empty CodeDirectory identifier" locator)
    raise_if (not (h.hash_offset == ident_end - cd))
        (parity "CodeDirectory hash offset is not immediately after identifier" locator)
    raise_if (not (h.hash_offset + h.code_slots * h.hash_size == h.cd_length))
        (parity "CodeDirectory hash array does not exactly fill the blob" locator)
    check_pages sha256 bytes (cd + h.hash_offset) page_size code_limit 0 h.code_slots
    after ← if_given builder (λ b. claim_signature b offset size h)
    ok (
      record {
        offset = offset;
        size = size;
        version = h.version;
        flags = h.flags;
        identifier = identifier;
        code_limit = code_limit;
        code_slots = h.code_slots;
        page_size = page_size;
        hash_type = h.hash_type;
        hash_size = h.hash_size;
        cdhash = sha256_hex (slice bytes cd (cd + h.cd_length));
      },
      after,
    )
