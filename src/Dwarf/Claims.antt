-- ===== src/Dwarf/Claims.antt =====
-- Which bytes of an object the claims of a line table in tools/abi_artifact_parity.py let differ.
use zynum.Prelude.{
  ℕ, zero, suc, ◌+◌, ◌<◌, ◌≤◌, ◌≡◌, ◌⊎◌, refl, sym, ap, ◌∙◌, subst, inl, inr, String, true, Option,
  some, List, [], if-cases, ltb, leb, ◌&&◌, Bool-cases, ok-value, Outcome, ok, bind-ok, arith,
  length,
}
use zynum.Prelude.Int.{pos}
use zynum.Atoms.{AtomBuilder, Metadata, add}
use zynum.Atoms.Commit.{IsValid}
use zynum.Atoms.Claims.{add-IsClaimed, role_at, IsClaimed-role}
use zynum.Parse.{ParseError, of_atom}
use zynum.Parse.Guards.{of_atom-ok}
use zynum.Dwarf.Tables.{DwarfDirectory, DwarfFile, LineSection}
use zynum.Dwarf.Lines.{
  read_unit, length_claim, claim_lengths, read_units, eligible, builtin_files, the_only,
  claim_directory, directory_claim, LineTable, parse_dwarf_v4_debug_line,
}

-- Bytes of the builder have become derived, or have kept their roles.
record IsLoosened (b b' : AtomBuilder) : Type 0 where
  valid : IsValid b'
  roles : (i : ℕ) → (role_at b' i ≡ role_at b i) ⊎ (role_at b' i ≡ some "derived_field")

IsLoosened-trans : (a b c : AtomBuilder) → IsLoosened a b → IsLoosened b c → IsLoosened a c
IsLoosened-trans a b c p q = record {
  valid = q.valid;
  roles = λ i. elim (q.roles i) [
    | inr e ↦ inr e
    | inl e ↦ elim (p.roles i) [ inl f ↦ inl (e ∙ f) | inr f ↦ inr (e ∙ f) ]
  ];
}

add-IsLoosened :
    (b b' : AtomBuilder) (start size : ℕ) (given : Metadata)
    → IsValid b
    → given.role ≡ "derived_field"
    → add b (pos start) (pos size) given true ≡ ok b'
    → IsLoosened b b'
add-IsLoosened b b' start size given v derived h =
    let c = add-IsClaimed b b' start size given true v h in
    record {
      valid = c.valid;
      roles = λ i.
          let role = IsClaimed-role b b' start size given true c i in
          elim (Bool-cases (leb start i && ltb i (start + size))) [
            | inl e ↦ inr (role ∙ rw e (ap some derived))
            | inr e ↦ inl (role ∙ rw e refl)
          ];
    }

claim_lengths-IsLoosened :
    (s : LineSection) (dependency : String) (unit offset : ℕ) (b : AtomBuilder)
    (o : Option AtomBuilder)
    → IsValid b
    → claim_lengths s dependency unit offset (some b) ≡ ok o
    → (b' : AtomBuilder) × (o ≡ some b') × IsLoosened b b'
unfolding claim_lengths
claim_lengths-IsLoosened s dependency unit offset b o v h =
    let base = s.file_offset + offset in
    let (b1, h1, h) =
      bind-ok
        (of_atom (add b (pos base) (pos 4) (length_claim s dependency unit "total_length") true)) _
        h in
    let (b2, h2, h) =
      bind-ok
        (of_atom
          (add b1 (pos (base + 6)) (pos 4) (length_claim s dependency unit "prologue_length") true))
        _ h in
    let one = add-IsLoosened b b1 base 4 _ v refl (of_atom-ok _ h1) in
    let two = add-IsLoosened b1 b2 (base + 6) 4 _ one.valid refl (of_atom-ok _ h2) in
    (b2, sym (ok-value h), IsLoosened-trans b b1 b2 one two)

stopped :
    (b : AtomBuilder) (ds : List DwarfDirectory) (fs : List DwarfFile) (o : Option AtomBuilder)
    → IsValid b
    → ◌≡◌ {A = Outcome ParseError (List DwarfDirectory × (List DwarfFile × Option AtomBuilder))}
        (ok ([], ([], some b)))
        (ok (ds, (fs, o)))
    → (b' : AtomBuilder) × (o ≡ some b') × IsLoosened b b'
stopped b ds fs o v h =
    (b, sym (ap (λ r. r.1.1) (ok-value h)), record { valid = v; roles = λ i. inl refl })

read_units-IsLoosened :
    (s : LineSection) (dependency : String) (fuel : ℕ) (b : AtomBuilder) (offset unit : ℕ)
    (ds : List DwarfDirectory) (fs : List DwarfFile) (o : Option AtomBuilder)
    → IsValid b
    → read_units s dependency fuel (some b) offset unit ≡ ok (ds, (fs, o))
    → (b' : AtomBuilder) × (o ≡ some b') × IsLoosened b b'
unfolding read_units
read_units-IsLoosened s dependency zero b offset unit ds fs o v h =
    elim (if-cases (ltb offset (length s.bytes)) _ _ h) [
      | inl (_, k) ↦ absurd (cc k)
      | inr (_, k) ↦ stopped b ds fs o v k
    ]
read_units-IsLoosened s dependency (suc fuel) b offset unit ds fs o v h =
    elim (if-cases (ltb offset (length s.bytes)) _ _ h) [
      | inr (_, k) ↦ stopped b ds fs o v k
      | inl (_, k) ↦
          let ((unit_end, (ds1, fs1)), _, k) = bind-ok (read_unit s unit offset) _ k in
          let (o1, claimed, k) = bind-ok (claim_lengths s dependency unit offset (some b)) _ k in
          let ((ds2, (fs2, o2)), further, k) =
            bind-ok (read_units s dependency fuel o1 unit_end (suc unit)) _ k in
          let (b1, at, one) = claim_lengths-IsLoosened s dependency unit offset b o1 v claimed in
          let further =
            subst (λ x. read_units s dependency fuel x unit_end (suc unit) ≡ ok (ds2, (fs2, o2))) at
              further in
          let (b2, at2, two) =
            read_units-IsLoosened s dependency fuel b1 unit_end (suc unit) ds2 fs2 o2 one.valid
              further in
          (b2, sym (ap (λ r. r.1.1) (ok-value k)) ∙ at2, IsLoosened-trans b b1 b2 one two)
    ]

-- The builder after the claims of a line table: the path of the cache directory may differ, other bytes
-- have become derived or have kept their roles.
pub record IsReleased (b b' : AtomBuilder) (start size : ℕ) : Type 0 where
  pub valid : IsValid b'
  pub path : (i : ℕ) → start ≤ i → i < start + size → role_at b' i ≡ some "allowed_payload"
  pub others :
      (i : ℕ)
      → (i < start) ⊎ (start + size ≤ i)
      → (role_at b' i ≡ role_at b i) ⊎ (role_at b' i ≡ some "derived_field")

claim_directory-IsReleased :
    (d : DwarfDirectory) (a b : AtomBuilder) (o : Option AtomBuilder)
    → IsLoosened a b
    → claim_directory d (some b) ≡ ok o
    → (b' : AtomBuilder) × (o ≡ some b') × IsReleased a b' d.offset d.size
unfolding claim_directory
claim_directory-IsReleased d a b o l h =
    let (b', added, h) =
      bind-ok (of_atom (add b (pos d.offset) (pos d.size) directory_claim true)) _ h in
    let c = add-IsClaimed b b' d.offset d.size directory_claim true l.valid (of_atom-ok _ added) in
    let role = IsClaimed-role b b' d.offset d.size directory_claim true c in
    (
      b',
      sym (ok-value h),
      record {
        valid = c.valid;
        path = λ i low high. ground (arith, role i, low, high);
        others = λ i out.
            let kept : role_at b' i ≡ role_at b i = ground (arith, role i, out) in
            elim (l.roles i) [ inl e ↦ inl (kept ∙ e) | inr e ↦ inr (kept ∙ e) ];
      },
    )

-- On a valid builder, an accepted line table leaves a valid builder in which the bytes of the path that
-- the provenance names are an allowed payload, and every other byte is derived or keeps its role.
pub parse_dwarf_v4_debug_line-IsReleased :
    (s : LineSection) (dependency : String) (b : AtomBuilder) (t : LineTable)
    → IsValid b
    → parse_dwarf_v4_debug_line s dependency (some b) ≡ ok t
    → (b' : AtomBuilder) × (t.builder ≡ some b')
      × IsReleased b b' t.provenance.path_offset t.provenance.path_size
unfolding parse_dwarf_v4_debug_line
parse_dwarf_v4_debug_line-IsReleased s dependency b t v h =
    let ((ds, (fs, o)), read, h) =
      bind-ok (read_units s dependency (length s.bytes) (some b) 0 0) _ h in
    let (d, _, h) = bind-ok (the_only (eligible ds) _) _ h in
    let (f, _, h) = bind-ok (the_only (builtin_files d fs) _) _ h in
    let (o', claimed, h) = bind-ok (claim_directory d o) _ h in
    let (b1, at, l) = read_units-IsLoosened s dependency (length s.bytes) b 0 0 ds fs o v read in
    let claimed = subst (λ x. claim_directory d x ≡ ok o') at claimed in
    let (b', at', r) = claim_directory-IsReleased d b b1 o' l claimed in
    subst
      (λ (x : LineTable).
        (b' : AtomBuilder) × (x.builder ≡ some b')
        × IsReleased b b' x.provenance.path_offset x.provenance.path_size)
      (ok-value h) (b', at', r)
