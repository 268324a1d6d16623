-- ===== src/Signature/Accepted.antt =====
-- What holds of a signature that `parse_code_directory` accepts.
use zynum.Prelude.{
  ℕ, zero, suc, ◌+◌, ◌-◌, ◌*◌, ◌/◌, ◌^◌, ◌≤◌, ◌<◌, ◌≡◌, refl, ap, subst, ◌∙◌, String, Option, List,
  ltb, ltb→ge, ◌⊎◌, ◌==◌, ==→eq, string_eq, same_list→eq, arith, ||-false, not-false, not_eq-false,
  Bool-cases, inl, inr, ok, ◌>>=◌, bind-ok, ok-second, length,
}
use zynum.Prelude.Int.{pos}
use zynum.Fields.{cstring}
use zynum.Atoms.{AtomBuilder, require_range}
use zynum.Atoms.Finish.{slice}
use zynum.Parse.{raise_if, of_field, of_atom, text}
use zynum.Parse.Guards.{raise_if-ok, raise_if-only, bind-ok_unit}
use zynum.Signature.{
  CodeHeader, code_header, CodeDirectory, page, check_superblob, check_header, code_limit_of,
  check_limits, check_pages, locator, claim_signature, if_given, parse_code_directory,
}

-- The fields that the tests of the header fix.
pub record IsPlain (h : CodeHeader) (size : ℕ) : Type 0 where
  pub magic_eq : h.cd_magic ≡ 0xfade0c02
  pub length_eq : h.cd_length ≡ size - 20
  pub version_eq : h.version ≡ 0x20400
  pub flags_eq : h.flags ≡ 0x20002
  pub no_special : h.special_slots ≡ 0
  pub hash_type_eq : h.hash_type ≡ 2
  pub hash_size_eq : h.hash_size ≡ 32
  pub exponent : h.page_exp ≤ 30

check_header-IsPlain : (h : CodeHeader) (size : ℕ) → check_header h size ≡ ok tt → IsPlain h size
unfolding check_header
check_header-IsPlain h size e =
    let (t0, e) = raise_if-ok _ _ _ e in
    let (t1, e) = raise_if-ok _ _ _ e in
    let (t2, e) = raise_if-ok _ _ _ e in
    let (t3, e) = raise_if-ok _ _ _ e in
    let (t4, e) = raise_if-ok _ _ _ e in
    let (t5, e) = raise_if-ok _ _ _ e in
    let (a, b) = ||-false _ _ t0 in
    let (c, _) = ||-false _ _ t3 in
    let (d, f) = ||-false _ _ t5 in
    record {
      magic_eq = not_eq-false _ _ a;
      length_eq = not_eq-false _ _ b;
      version_eq = not_eq-false _ _ t1;
      flags_eq = not_eq-false _ _ t2;
      no_special = not_eq-false _ _ c;
      hash_type_eq = not_eq-false _ _ d;
      hash_size_eq = not_eq-false _ _ f;
      exponent = ltb→ge 30 h.page_exp (raise_if-only _ _ e);
    }

-- The code limit stands in one of the two fields, in the short one if it fits.
abbrev pub IsLimit : CodeHeader → ℕ → Type 0
IsLimit h limit =
    ((h.code_limit_32 ≡ limit) × (h.code_limit_64 ≡ 0))
    ⊎ ((h.code_limit_32 ≡ 0xffffffff) × ((h.code_limit_64 ≡ limit) × (0xffffffff < limit)))

code_limit_of-IsLimit : (h : CodeHeader) (limit : ℕ) → code_limit_of h ≡ ok limit → IsLimit h limit
unfolding code_limit_of raise_if
code_limit_of-IsLimit h limit e = ground (arith, e)

check_limits-ok :
    (h : CodeHeader) (limit offset : ℕ)
    → check_limits h limit offset ≡ ok tt
    → (limit ≡ offset) × (h.code_slots ≡ (limit + 2 ^ h.page_exp - 1) / 2 ^ h.page_exp)
unfolding check_limits
check_limits-ok h limit offset e =
    let (t0, e) = raise_if-ok _ _ _ e in
    let (t1, e) = raise_if-ok _ _ _ e in (not_eq-false _ _ t0, not_eq-false _ _ t1)

check_pages-ok :
    (sha256 : List ℕ → List ℕ) (bytes : List ℕ) (hashes page_size limit index slots i : ℕ)
    → check_pages sha256 bytes hashes page_size limit index slots ≡ ok tt
    → index ≤ i
    → i < index + slots
    → slice bytes (hashes + i * 32) (hashes + i * 32 + 32) ≡ sha256 (page bytes page_size limit i)
unfolding check_pages
check_pages-ok sha256 bytes hashes page_size limit index zero i e low high = absurd (omega arith)
check_pages-ok sha256 bytes hashes page_size limit index (suc slots) i e low high =
    let (t, rest) = raise_if-ok _ _ _ e in
    elim (Bool-cases (index == i)) [
      | inl here ↦
          subst
            (λ j.
              slice bytes (hashes + j * 32) (hashes + j * 32 + 32)
              ≡ sha256 (page bytes page_size limit j))
            (==→eq index i here) (same_list→eq _ _ (not-false _ t))
      | inr there ↦
          check_pages-ok sha256 bytes hashes page_size limit (suc index) slots i rest
            (ground (arith, there)) (omega arith)
    ]

check_superblob-room :
    (bytes : List ℕ) (offset size : ℕ) → check_superblob bytes offset size ≡ ok tt → 108 ≤ size
unfolding check_superblob
check_superblob-room bytes offset size e =
    let (_, e) = raise_if-ok _ _ _ e in
    let (_, e) = raise_if-ok _ _ _ e in
    let (_, e) = raise_if-ok _ _ _ e in
    let (_, e) = raise_if-ok _ _ _ e in
    let (_, e) = raise_if-ok _ _ _ e in ltb→ge size 108 (raise_if-only (ltb size 108) _ e)

module _ (sha256 : List ℕ → List ℕ) (sha256_hex : List ℕ → String)
    (decode : List ℕ → Option String) where
  -- The signature at `offset`, of `size` bytes, signs the bytes before it.
  pub record IsSigned (bytes : List ℕ) (offset size : ℕ) (d : CodeDirectory) : Type 0 where
    pub header : CodeHeader
    pub header_eq : header ≡ code_header bytes (offset + 20)
    pub plain : IsPlain header size
    pub limit : IsLimit header offset
    pub slots : header.code_slots ≡ (offset + 2 ^ header.page_exp - 1) / 2 ^ header.page_exp
    pub filled : header.hash_offset + header.code_slots * 32 ≡ size - 20
    pub room : 108 ≤ size
    pub hashes :
        (i : ℕ)
        → i < header.code_slots
        → slice bytes
            (offset + 20 + header.hash_offset + i * 32)
            (offset + 20 + header.hash_offset + i * 32 + 32)
          ≡ sha256 (page bytes (2 ^ header.page_exp) offset i)

  -- All tests passed, and the claims were made.
  pub parse_code_directory-ok :
      (bytes : List ℕ) (offset size : ℕ) (builder after : Option AtomBuilder) (d : CodeDirectory)
      → parse_code_directory sha256 sha256_hex decode bytes offset size builder ≡ ok (d, after)
      → IsSigned bytes offset size d
        × (if_given builder (λ b. claim_signature b offset size (code_header bytes (offset + 20)))
            ≡ ok after)
  unfolding parse_code_directory
  parse_code_directory-ok bytes offset size builder after d e =
      let h = code_header bytes (offset + 20) in
      let (_, e) =
        bind-ok_unit
          (of_atom (require_range (length bytes) (pos offset) (pos size) locator >>= λ _. ok tt)) _
          e in
      let (checked, e) = bind-ok_unit (check_superblob bytes offset size) _ e in
      let (_, e) = raise_if-ok _ _ _ e in
      let (header_ok, e) = bind-ok_unit (check_header h size) _ e in
      let (limit, limit_ok, e) = bind-ok (code_limit_of h) _ e in
      let (limits_ok, e) = bind-ok_unit (check_limits h limit offset) _ e in
      let ((ident_bytes, ident_end), _, e) =
        bind-ok
          (of_field (
            cstring bytes (offset + 20 + h.ident_offset) (offset + 20 + h.cd_length)
              "macho.code_signature.identifier"))
          _ e in
      let (identifier, _, e) =
        bind-ok (text decode ident_bytes "macho.code_signature.identifier") _ e in
      let (_, e) = raise_if-ok _ _ _ e in
      let (_, e) = raise_if-ok _ _ _ e in
      let (filled, e) = raise_if-ok _ _ _ e in
      let (pages_ok, e) =
        bind-ok_unit
          (check_pages sha256 bytes (offset + 20 + h.hash_offset) (2 ^ h.page_exp) limit 0
            h.code_slots)
          _ e in
      let plain = check_header-IsPlain h size header_ok in
      let (at_offset, slots) = check_limits-ok h limit offset limits_ok in
      let (made, claims_ok, e) =
        bind-ok (if_given builder (λ b. claim_signature b offset size h)) _ e in
      let same_after : made ≡ after = ok-second e in
      (
        record {
          header = h;
          header_eq = refl;
          plain = plain;
          limit = subst (λ l. IsLimit h l) at_offset (code_limit_of-IsLimit h limit limit_ok);
          slots =
              subst (λ l. h.code_slots ≡ (l + 2 ^ h.page_exp - 1) / 2 ^ h.page_exp) at_offset slots;
          filled = rw (← plain.length_eq, ← plain.hash_size_eq) (not_eq-false _ _ filled);
          room = check_superblob-room bytes offset size checked;
          hashes = λ i less.
              check_pages-ok sha256 bytes (offset + 20 + h.hash_offset) (2 ^ h.page_exp) limit 0
                h.code_slots i pages_ok (omega arith) (omega arith)
              ∙ ap (λ l. sha256 (page bytes (2 ^ h.page_exp) l i)) at_offset;
        },
        claims_ok ∙ ap ok same_after,
      )

  -- A signature that is accepted signs the bytes before it.
  pub parse_code_directory-IsSigned :
      (bytes : List ℕ) (offset size : ℕ) (builder after : Option AtomBuilder) (d : CodeDirectory)
      → parse_code_directory sha256 sha256_hex decode bytes offset size builder ≡ ok (d, after)
      → IsSigned bytes offset size d
  parse_code_directory-IsSigned bytes offset size builder after d e =
      (parse_code_directory-ok bytes offset size builder after d e).0
