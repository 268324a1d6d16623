-- ===== src/Signature/Claims.antt =====
-- Which bytes of a signature the builder has as derived, and which as invariant.
use zynum.Prelude.{
  ℕ, ◌+◌, ◌-◌, ◌*◌, ◌≤◌, ◌<◌, ◌≡◌, ap, ◌∙◌, arith, true, ◌⊎◌, String, List, [], Option, some, ok,
  bind-ok,
}
use zynum.Atoms.{AtomBuilder}
use zynum.Atoms.Commit.{IsValid}
use zynum.Atoms.Claims.{add-IsClaimed, role_at, IsClaimed-role}
use zynum.Parse.{of_atom}
use zynum.Parse.Guards.{of_atom-ok}
use zynum.Signature.Accepted.{parse_code_directory-ok}
use zynum.Signature.{
  CodeHeader, code_header, CodeDirectory, claim, claim_signature, parse_code_directory, replaced,
  dynamic_dependencies,
}

-- The ranges whose bytes follow from others: two lengths, the slot count with the code limit, and
-- the page hashes.
abbrev pub IsDerived : ℕ → CodeHeader → ℕ → Type 0
IsDerived offset h i =
    ((offset + 4 ≤ i) × (i < offset + 8))
    ⊎ (((offset + 24 ≤ i) × (i < offset + 28))
        ⊎ (((offset + 48 ≤ i) × (i < offset + 56))
            ⊎ ((offset + 20 + h.hash_offset ≤ i)
                × (i < offset + 20 + h.hash_offset + h.code_slots * h.hash_size))))

pub record IsPartitioned (b b' : AtomBuilder) (offset size : ℕ) (h : CodeHeader) : Type 0 where
  pub valid : IsValid b'
  pub derived : (i : ℕ) → IsDerived offset h i → role_at b' i ≡ some "derived_field"
  pub invariant :
      (i : ℕ)
      → offset ≤ i
      → i < offset + size
      → (IsDerived offset h i → ⊥)
      → role_at b' i ≡ some "invariant"
  pub others : (i : ℕ) → (i < offset) ⊎ (offset + size ≤ i) → role_at b' i ≡ role_at b i

claim_signature-IsPartitioned :
    (b b' : AtomBuilder) (offset size : ℕ) (h : CodeHeader)
    → IsValid b
    → claim_signature b offset size h ≡ ok b'
    → ((i : ℕ) → IsDerived offset h i → (offset ≤ i) × (i < offset + size))
    → IsPartitioned b b' offset size h
unfolding claim_signature
claim_signature-IsPartitioned b b' offset size h v e inner =
    let (b1, e1, e) =
      bind-ok (replaced b offset size (claim "code_signature" "invariant" [])) _ e in
    let (b2, e2, e) =
      bind-ok
        (replaced b1 (offset + 4) 4
          (claim "code_signature.superblob_length" "derived_field" dynamic_dependencies))
        _ e in
    let (b3, e3, e) =
      bind-ok
        (replaced b2 (offset + 20 + 4) 4
          (claim "code_signature.directory_length" "derived_field" dynamic_dependencies))
        _ e in
    let (b4, e4, e) =
      bind-ok
        (replaced b3 (offset + 20 + 28) 8
          (claim "code_signature.code_slots_and_limit" "derived_field" dynamic_dependencies))
        _ e in
    let c1 = add-IsClaimed b b1 _ _ _ true v e1 in
    let c2 = add-IsClaimed b1 b2 _ _ _ true c1.valid e2 in
    let c3 = add-IsClaimed b2 b3 _ _ _ true c2.valid e3 in
    let c4 = add-IsClaimed b3 b4 _ _ _ true c3.valid e4 in
    let c5 = add-IsClaimed b4 b' _ _ _ true c4.valid e in
    let r1 = IsClaimed-role b b1 _ _ _ true c1 in
    let r2 = IsClaimed-role b1 b2 _ _ _ true c2 in
    let r3 = IsClaimed-role b2 b3 _ _ _ true c3 in
    let r4 = IsClaimed-role b3 b4 _ _ _ true c4 in
    let r5 = IsClaimed-role b4 b' _ _ _ true c5 in
    record {
      valid = c5.valid;
      derived = λ i d. ground (arith, r5 i, r4 i, r3 i, r2 i, d);
      invariant = λ i low high d. ground (arith, r5 i, r4 i, r3 i, r2 i, r1 i, d);
      others = λ i out. ground (arith, r5 i, r4 i, r3 i, r2 i, r1 i, inner i, out);
    }

derived_inside :
    (h : CodeHeader) (offset size i : ℕ)
    → 108 ≤ size
    → h.hash_offset + h.code_slots * 32 ≡ size - 20
    → h.hash_size ≡ 32
    → IsDerived offset h i
    → (offset ≤ i) × (i < offset + size)
derived_inside h offset size i room filled full d =
    let area : h.code_slots * h.hash_size ≡ h.code_slots * 32 = ap (λ n. h.code_slots * n) full in
    (ground (arith, d, area), ground (arith, d, area))

module _ (sha256 : List ℕ → List ℕ) (sha256_hex : List ℕ → String)
    (decode : List ℕ → Option String) where
  -- An accepted signature leaves a valid builder in which the bytes of the signature are derived
  -- exactly in the two lengths, the slot count with the code limit, and the page hashes, and are
  -- invariant elsewhere; the bytes outside keep their roles.
  pub parse_code_directory-IsPartitioned :
      (bytes : List ℕ) (offset size : ℕ) (b b' : AtomBuilder) (d : CodeDirectory)
      → IsValid b
      → parse_code_directory sha256 sha256_hex decode bytes offset size (some b) ≡ ok (d, some b')
      → IsPartitioned b b' offset size (code_header bytes (offset + 20))
  parse_code_directory-IsPartitioned bytes offset size b b' d v e =
      let (signed, claims) =
        parse_code_directory-ok sha256 sha256_hex decode bytes offset size (some b) (some b') d e in
      let (made, claims_ok, same) =
        bind-ok (of_atom (claim_signature b offset size (code_header bytes (offset + 20)))) _
          claims in
      let at : made ≡ b' = cc same in
      claim_signature-IsPartitioned b b' offset size (code_header bytes (offset + 20)) v
        (of_atom-ok _ claims_ok ∙ ap ok at)
        (λ i.
          derived_inside (code_header bytes (offset + 20)) offset size i signed.room
            (cc (signed.filled, signed.header_eq))
            (cc (signed.plain.hash_size_eq, signed.header_eq)))
