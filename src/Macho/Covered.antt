-- ===== src/Macho/Covered.antt =====
-- The claims of tools/abi_artifact_parity.py, and what they leave of the bytes that are covered.
use zynum.Prelude.{
  ap, ◌*◌, ◌%◌, ◌==◌, All, &&-true, same→eq, ℕ, suc, ◌+◌, ◌≤◌, ◌<◌, ◌≡◌, ◌⊎◌, refl, sym, ◌∙◌, subst,
  inl, inr, String, Bool, true, false, ◌&&◌, not, some, List, [], ◌∷◌, if-cases, ltb, leb, same,
  string_eq, Bool-cases, ok-value, ok, bind-ok, arith, length,
}
use zynum.Prelude.Int.{pos}
use zynum.Atoms.{AtomBuilder, Metadata, add}
use zynum.Atoms.Commit.{IsValid}
use zynum.Atoms.Claims.{add-IsClaimed, role_at, IsClaimed-role}
use zynum.Parse.{field_le}
use zynum.Parse.Guards.{of_atom-ok, raise_if-ok}
use zynum.Signature.{claim, dynamic_dependencies}
use zynum.Macho.Sections.{Section, Segment, MachoFile, is_object, is_zerofill}
use zynum.Macho.Padded.{IsPadded}
use zynum.Macho.Placed.{IsSection, AreSections, IsSegment}
use zynum.Macho.Stack.{is_zerofill-IsZerofill}
use zynum.Macho.Layout.{object_debug_lines}
use zynum.Macho.Chain.{
  IsCommand, HasNumber, Spans, IsSectionAt, IsDerivedField, vmsize_field, filesize_field,
  size_field, addr_field, reloff_field, dysymtab_field, IsGiven,
}
use zynum.Atoms.Finish.{slice}
use zynum.Macho.Commands.{Command}
use zynum.Macho.Marks.{
  derived, moves, claim_section, claim_sections, claim_sizes, claim_segment, claim_offsets,
}

-- Before `low`, or from `high` on.
abbrev pub IsOuter : List ℕ → ℕ → ℕ → ℕ → Type 0
IsOuter bytes low high i = (i < low) ⊎ ((high ≤ i) × (i < length bytes))

module _ (m : MachoFile) (load_end : ℕ) where
  pub record Covers (low high : ℕ) (b : AtomBuilder) : Type 0 where
    pub valid : IsValid b
    pub roles : (i : ℕ) → IsOuter m.bytes low high i → IsGiven m load_end i (role_at b i)

  -- A claim that is accepted, with what it covers besides.
  pub add-Covers :
      (low high low' high' : ℕ) (b b' : AtomBuilder) (start size : ℕ) (given : Metadata)
      (replace : Bool)
      → Covers low high b
      → add b (pos start) (pos size) given replace ≡ ok b'
      → ((i : ℕ) → start ≤ i → i < start + size → IsGiven m load_end i (some given.role))
      → ((i : ℕ)
          → IsOuter m.bytes low' high' i
          → IsOuter m.bytes low high i ⊎ ((start ≤ i) × (i < start + size)))
      → Covers low' high' b'
  add-Covers low high low' high' b b' start size given replace k h fair reach =
      let c = add-IsClaimed b b' start size given replace k.valid h in
      record {
        valid = c.valid;
        roles = λ i out.
            let role = IsClaimed-role b b' start size given replace c i in
            elim (Bool-cases (leb start i && ltb i (start + size))) [
              | inl e ↦
                  let at : role_at b' i ≡ some given.role = role ∙ rw e refl in
                  subst (λ r. IsGiven m load_end i r) (sym at)
                    (fair i (ground (arith, e)) (ground (arith, e)))
              | inr e ↦
                  let at : role_at b' i ≡ role_at b i = role ∙ rw e refl in
                  elim (reach i out) [
                    | inl old ↦ subst (λ r. IsGiven m load_end i r) (sym at) (k.roles i old)
                    | inr (l, r) ↦ absurd (ground (arith, e, l, r))
                  ]
            ];
      }

  module _ (low high : ℕ) where
    pub derived-Covers :
        (o : ℕ) (test : Bool) (b b' : AtomBuilder) (start size : ℕ) (locator : String)
        (depends_on : List String)
        → IsCommand m.bytes load_end o
        → (test ≡ true → (i : ℕ) → Spans start size i → IsDerivedField m o i)
        → Covers low high b
        → derived test b start size locator depends_on ≡ ok b'
        → Covers low high b'
    unfolding derived
    derived-Covers o true b b' start size locator depends_on at fair k h =
        add-Covers low high low high b b' start size (claim locator "derived_field" depends_on) true
          k (of_atom-ok _ h) (λ i l r. inr (o, at, inl (refl, fair refl i (l, r))))
          (λ i out. inl out)
    derived-Covers o false b b' start size locator depends_on at fair k h =
        subst (λ b. Covers low high b) (ok-value h) k

    claim_section-Covers :
        (o k' : ℕ) (name : String) (fileoff filesize index : ℕ) (dependency locator : String)
        (lines : List Section) (b b' : AtomBuilder) (base local_index : ℕ) (s : Section)
        → IsCommand m.bytes load_end o
        → IsSectionAt m o k' base
        → IsSection m name fileoff filesize index base s
        → Covers low high b
        → claim_section dependency locator lines b base local_index s ≡ ok b'
        → Covers low high b'
    unfolding claim_section
    claim_section-Covers o k' name fileoff filesize index dependency locator lines b b' base
          local_index s at place spells k h =
        let flags : s.flags ≡ field_le m.bytes (base + 64) 4 =
          ap (λ (x : Section). x.flags) spells.spelled in
        let reloff : s.reloff ≡ field_le m.bytes (base + 56) 4 =
          ap (λ (x : Section). x.reloff) spells.spelled in
        let (b1, one, h) = bind-ok (derived _ b _ _ _ _) _ h in
        let (zero, h) = raise_if-ok (moves lines s && not (is_zerofill s)) _ _ h in
        let (b2, two, h) = bind-ok (derived _ b1 _ _ _ _) _ h in
        let k1 =
          derived-Covers o _ b b1 _ _ _ _ at
            (λ t i span.
              let (a, c) = &&-true _ _ t in
              size_field k' base place
                (subst (λ n. IsPadded m.decode (slice m.bytes base (base + 16)) n) (same→eq _ _ c)
                  spells.named)
                (subst (λ n. IsPadded m.decode (slice m.bytes (base + 16) (base + 32)) n)
                  (same→eq _ _ a) spells.segment_named)
                span)
            k one in
        let k2 =
          derived-Covers o (moves lines s) b1 b2 _ _ _ _ at
            (λ t i span.
              let z : is_zerofill s ≡ true = ground (arith, t, zero) in
              addr_field k' base place
                (subst (λ f. (f % 256 ≡ 1) ⊎ (f % 256 ≡ 18)) flags (is_zerofill-IsZerofill s z))
                span)
            k1 two in
        derived-Covers o (not (s.reloff == 0)) b2 b' _ _ _ _ at
          (λ t i span. reloff_field k' base place (λ e. ground (arith, t, reloff, e)) span) k2 h

    claim_sections-Covers :
        (o k' : ℕ) (name : String) (fileoff filesize index : ℕ) (dependency locator : String)
        (lines : List Section) (b b' : AtomBuilder) (base local_index : ℕ) (sections : List Section)
        → IsCommand m.bytes load_end o
        → HasNumber m o 0x19
        → m.filetype ≡ 1
        → base ≡ o + 72 + 80 * k'
        → 72 + 80 * (k' + length sections) ≤ field_le m.bytes (o + 4) 4
        → AreSections m name fileoff filesize index base sections
        → Covers low high b
        → claim_sections dependency locator lines b base local_index sections ≡ ok b'
        → Covers low high b'
    unfolding claim_sections
    claim_sections-Covers o k' name fileoff filesize index dependency locator lines b b' base
          local_index [] at n f place room spells k h =
        subst (λ b. Covers low high b) (ok-value h) k
    claim_sections-Covers o k' name fileoff filesize index dependency locator lines b b' base
          local_index (s ∷ sections) at n f place room (spells, more) k h =
        let (b1, one, h) =
          bind-ok (claim_section dependency locator lines b base local_index s) _ h in
        let here : IsSectionAt m o k' base = record {
          segment = n;
          object = f;
          place = place;
          inside = omega (arith, room);
        } in
        claim_sections-Covers o (suc k') name fileoff filesize (suc index) dependency locator lines
          b1 b' (base + 80) (suc local_index) sections at n f (omega (arith, place))
          (omega (arith, room)) more
          (claim_section-Covers o k' name fileoff filesize index dependency locator lines b b1 base
            local_index s at here spells k one)
          h

    claim_sizes-Covers :
        (depends_on : List String) (b b' : AtomBuilder) (c : Command)
        → IsCommand m.bytes load_end c.offset
        → HasNumber m c.offset 0x19
        → (m.filetype ≡ 1)
          ⊎ IsPadded m.decode (slice m.bytes (c.offset + 8) (c.offset + 24)) "__LINKEDIT"
        → Covers low high b
        → claim_sizes depends_on b c ≡ ok b'
        → Covers low high b'
    unfolding claim_sizes
    claim_sizes-Covers depends_on b b' c at n which k h =
        let (b1, one, h) = bind-ok (derived _ b _ _ _ _) _ h in
        derived-Covers c.offset true b1 b' _ _ _ _ at (λ t i span. filesize_field n which span)
          (derived-Covers c.offset true b b1 _ _ _ _ at (λ t i span. vmsize_field n which span) k
            one)
          h

    pub claim_segment-Covers :
        (dependency : String) (b b' : AtomBuilder) (c : Command) (segment : Segment)
        (before sections_before : ℕ)
        → IsCommand m.bytes load_end c.offset
        → HasNumber m c.offset 0x19
        → c.size ≡ field_le m.bytes (c.offset + 4) 4
        → IsSegment m before sections_before c.offset c.size segment
        → Covers low high b
        → claim_segment m dependency b c segment ≡ ok b'
        → Covers low high b'
    unfolding claim_segment
    claim_segment-Covers dependency b b' c segment before sections_before at n size new k h =
        elim (if-cases (is_object m) _ _ h) [
          | inl (t, h) ↦
              let object : m.filetype ≡ 1 = ground (arith, t) in
              let (b1, one, h) = bind-ok (claim_sizes (dependency ∷ []) b c) _ h in
              let (_, h) = raise_if-ok _ _ _ h in
              claim_sections-Covers c.offset 0 segment.name segment.fileoff segment.filesize
                (suc sections_before) dependency c.locator (object_debug_lines segment.sections) b1
                b' (c.offset + 72) 0 segment.sections at n object (omega arith)
                (omega (arith, size, new.size_eq)) new.sections_placed
                (claim_sizes-Covers (dependency ∷ []) b b1 c at n (inl object) k one) h
          | inr (_, h) ↦ elim (if-cases (same segment.name "__LINKEDIT") _ _ h) [
            | inl (t, h) ↦
                claim_sizes-Covers dynamic_dependencies b b' c at n
                  (inr (
                    subst (λ n. IsPadded m.decode (slice m.bytes (c.offset + 8) (c.offset + 24)) n)
                      (same→eq _ _ t) new.named))
                  k h
            | inr (_, h) ↦ subst (λ b. Covers low high b) (ok-value h) k
          ]
        ]

    pub claim_offsets-Covers :
        (dependency : String) (b b' : AtomBuilder) (c : Command) (indices : List ℕ)
        → IsCommand m.bytes load_end c.offset
        → HasNumber m c.offset 0xB
        → m.filetype ≡ 1
        → All (λ j. (6 ≤ j) × ((j ≤ 16) × (j % 2 ≡ 0))) indices
        → Covers low high b
        → claim_offsets m dependency b c indices ≡ ok b'
        → Covers low high b'
    unfolding claim_offsets
    claim_offsets-Covers dependency b b' c [] at n f all k h =
        subst (λ b. Covers low high b) (ok-value h) k
    claim_offsets-Covers dependency b b' c (j ∷ indices) at n f (fits, all) k h =
        let (b1, one, h) = bind-ok (derived _ b _ _ _ _) _ h in
        claim_offsets-Covers dependency b1 b' c indices at n f all
          (derived-Covers c.offset (not (field_le m.bytes (c.offset + 8 + j * 4) 4 == 0)) b b1 _ _ _
            _ at (λ t i span. dysymtab_field j n f fits (λ e. ground (arith, t, e)) span) k one)
          h
