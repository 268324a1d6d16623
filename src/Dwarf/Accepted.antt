-- ===== src/Dwarf/Accepted.antt =====
-- What a line table is, once tools/abi_artifact_parity.py has accepted it.
use zynum.Prelude.Only.{All-imp, IsOnly, keep, keep-IsOnly, IsOnly-same}
use zynum.Prelude.{
  ℕ, zero, suc, ◌≡◌, ◌⊎◌, refl, sym, ◌∙◌, subst, inl, inr, String, ◌<>◌, ◌&&◌, &&-true, true, Bool,
  Option, List, [], ◌∷◌, ◌++◌, if-cases, ltb, ◌==◌, ==→eq, same, same→eq, eq→same, eq→==, string_eq,
  Bool-cases, ok-value, All, All-append, ok, bind-ok, arith, length,
}
use zynum.Atoms.{AtomBuilder}
use zynum.Parse.{ParseError}
use zynum.Parse.Guards.{raise_if-ok}
use zynum.Dwarf.Cache.{is_cache_directory}
use zynum.Dwarf.Tables.{
  DwarfDirectory, DwarfFile, LineSection, unit_header, read_directories, read_files,
}
use zynum.Dwarf.Rows.{
  IsDirectory, HasDirectory, IsFile, read_directories-AreDirectories, read_files-All,
}
use zynum.Dwarf.Lines.{
  read_unit, claim_lengths, read_units, eligible, builtin_files, the_only, claim_directory,
  LineTable, parse_dwarf_v4_debug_line,
}

-- A file names no directory, by a zero, or one of its unit.
abbrev pub IsKnown : List DwarfDirectory → DwarfFile → Type 0
IsKnown ds f = (f.directory_index ≡ 0) ⊎ HasDirectory ds f.unit_index f.directory_index

HasDirectory-front :
    (ds more : List DwarfDirectory) (unit index : ℕ)
    → HasDirectory ds unit index
    → HasDirectory (ds ++ more) unit index
HasDirectory-front [] more unit index h = absurd h
HasDirectory-front (d ∷ ds) more unit index (inl h) = inl h
HasDirectory-front (d ∷ ds) more unit index (inr h) = inr (HasDirectory-front ds more unit index h)

HasDirectory-behind :
    (ds more : List DwarfDirectory) (unit index : ℕ)
    → HasDirectory more unit index
    → HasDirectory (ds ++ more) unit index
HasDirectory-behind [] more unit index h = h
HasDirectory-behind (d ∷ ds) more unit index h = inr (HasDirectory-behind ds more unit index h)

-- The directories are spelled by the section, and the files name directories of their units.
record AreRows (s : LineSection) (ds : List DwarfDirectory) (fs : List DwarfFile) : Type 0 where
  spelled : All (λ d. IsDirectory s d) ds
  known : All (λ f. IsKnown ds f) fs

read_unit-AreRows :
    (s : LineSection) (unit offset unit_end : ℕ) (ds : List DwarfDirectory) (fs : List DwarfFile)
    → read_unit s unit offset ≡ ok (unit_end, (ds, fs))
    → AreRows s ds fs
unfolding read_unit
read_unit-AreRows s unit offset unit_end ds fs e =
    let (h, _, e) = bind-ok (unit_header s offset) _ e in
    let ((ds', (count, middle)), rows, e) =
      bind-ok (read_directories s unit h.prologue_end (suc (length s.bytes)) 1 h.tables) _ e in
    let ((fs', cursor), files, e) =
      bind-ok (read_files s unit h.prologue_end count (suc (length s.bytes)) 1 middle) _ e in
    let (_, e) = raise_if-ok _ _ _ e in
    let d =
      read_directories-AreDirectories s unit h.prologue_end (suc (length s.bytes)) 1 h.tables ds'
        count middle rows in
    let f =
      read_files-All s unit h.prologue_end count (suc (length s.bytes)) 1 middle fs' cursor files in
    subst (λ r. AreRows s r.1.0 r.1.1) (ok-value e)
      (record {
        spelled = d.spelled;
        known =
            All-imp {P = λ x. IsFile unit count x} fs'
              (λ x k. elim (Bool-cases (x.directory_index == 0)) [
                | inl z ↦ inl (==→eq _ _ z)
                | inr z ↦ inr (
                    subst (λ u. HasDirectory ds' u x.directory_index) (sym k.unit_eq)
                      (d.numbered x.directory_index (ground (arith, z)) k.known))
              ])
              f;
      })

read_units-AreRows :
    (s : LineSection) (dependency : String) (fuel : ℕ) (b : Option AtomBuilder) (offset unit : ℕ)
    (ds : List DwarfDirectory) (fs : List DwarfFile) (b' : Option AtomBuilder)
    → read_units s dependency fuel b offset unit ≡ ok (ds, (fs, b'))
    → AreRows s ds fs
unfolding read_units
read_units-AreRows s dependency zero b offset unit ds fs b' h =
    elim (if-cases (ltb offset (length s.bytes)) _ _ h) [
      | inl (_, k) ↦ absurd (cc k)
      | inr (_, k) ↦
          subst (λ r. AreRows s r.0 r.1.0) (ok-value k) (record { spelled = tt; known = tt })
    ]
read_units-AreRows s dependency (suc fuel) b offset unit ds fs b' h =
    elim (if-cases (ltb offset (length s.bytes)) _ _ h) [
      | inr (_, k) ↦
          subst (λ r. AreRows s r.0 r.1.0) (ok-value k) (record { spelled = tt; known = tt })
      | inl (_, k) ↦
          let ((unit_end, (ds1, fs1)), read, k) = bind-ok (read_unit s unit offset) _ k in
          let (b1, _, k) = bind-ok (claim_lengths s dependency unit offset b) _ k in
          let ((ds2, (fs2, b2)), further, k) =
            bind-ok (read_units s dependency fuel b1 unit_end (suc unit)) _ k in
          let one = read_unit-AreRows s unit offset unit_end ds1 fs1 read in
          let more =
            read_units-AreRows s dependency fuel b1 unit_end (suc unit) ds2 fs2 b2 further in
          subst (λ r. AreRows s r.0 r.1.0) (ok-value k)
            (record {
              spelled = All-append _ ds1 ds2 one.spelled more.spelled;
              known =
                  All-append _ fs1 fs2
                    (All-imp fs1
                      (λ f k. elim k [
                        | inl z ↦ inl z
                        | inr q ↦ inr (HasDirectory-front ds1 ds2 _ _ q)
                      ])
                      one.known)
                    (All-imp fs2
                      (λ f k. elim k [
                        | inl z ↦ inl z
                        | inr q ↦ inr (HasDirectory-behind ds1 ds2 _ _ q)
                      ])
                      more.known);
            })
    ]

pub the_only-ok {ℓ} :
    {A : Type ℓ} (xs : List A) (e : ParseError) (x : A) → the_only xs e ≡ ok x → xs ≡ x ∷ []
unfolding the_only
the_only-ok [] e x h = absurd (cc h)
the_only-ok (y ∷ []) e x h = cc h
the_only-ok (y ∷ z ∷ ys) e x h = absurd (cc h)

eligible-All :
    (P : DwarfDirectory → Type 0) (ds : List DwarfDirectory)
    → All P ds
    → All (λ d. P d × (is_cache_directory d.path ≡ true)) (eligible ds)
eligible-All P [] h = tt
eligible-All P (d ∷ ds) (p, h) = elim (Bool-cases (is_cache_directory d.path)) [
  | inl e ↦ rw e ((p, e), eligible-All P ds h)
  | inr e ↦ rw e (eligible-All P ds h)
]

eligible-keep : (ds : List DwarfDirectory) → eligible ds ≡ keep (λ d. is_cache_directory d.path) ds
eligible-keep [] = refl
eligible-keep (d ∷ ds) = rw (eligible-keep ds) refl

-- A file of the cache directory that is named builtin.zig.
abbrev pub IsBuiltin : DwarfDirectory → DwarfFile → Type 0
IsBuiltin d f =
    (f.unit_index ≡ d.unit_index)
    × ((f.directory_index ≡ d.directory_index) × (f.name ≡ "builtin.zig"))

abbrev is_builtin : DwarfDirectory → DwarfFile → Bool
is_builtin d f =
    f.unit_index == d.unit_index
    && (f.directory_index == d.directory_index && same f.name "builtin.zig")

is_builtin-IsBuiltin : (d : DwarfDirectory) (f : DwarfFile) → is_builtin d f ≡ true → IsBuiltin d f
is_builtin-IsBuiltin d f h =
    let (unit, rest) = &&-true _ _ h in
    let (index, name) = &&-true _ _ rest in (==→eq _ _ unit, (==→eq _ _ index, same→eq _ _ name))

IsBuiltin-is_builtin : (d : DwarfDirectory) (f : DwarfFile) → IsBuiltin d f → is_builtin d f ≡ true
IsBuiltin-is_builtin d f (unit, (index, name)) =
    rw (eq→== _ _ unit, eq→== _ _ index, eq→same _ _ name) refl

builtin_files-keep :
    (d : DwarfDirectory) (fs : List DwarfFile) → builtin_files d fs ≡ keep (is_builtin d) fs
builtin_files-keep d [] = refl
builtin_files-keep d (f ∷ fs) = rw (builtin_files-keep d fs) refl

-- The accepted line table: one of its directories, and no other, is the cache directory, spelled where
-- the provenance says, and one of its files, and no other, is a builtin.zig in that.
pub record IsLineTable (s : LineSection) (t : LineTable) : Type 0 where
  pub spelled : All (λ d. IsDirectory s d) t.directories
  pub known : All (λ f. IsKnown t.directories f) t.files
  pub cache : DwarfDirectory
  pub cache_spelled : IsDirectory s cache
  pub only_cache :
      IsOnly (λ (d : DwarfDirectory). is_cache_directory d.path ≡ true) cache t.directories
  pub builtin : DwarfFile
  pub only_builtin : IsOnly (IsBuiltin cache) builtin t.files
  pub path_eq : t.provenance.path ≡ cache.path <> "/builtin.zig"
  pub offset_eq : t.provenance.path_offset ≡ cache.offset
  pub size_eq : t.provenance.path_size ≡ cache.size

-- An accepted line table has its directories where they say, terminated and decoded from there; its
-- files name directories of their units, or none; exactly one of its directories is a cache directory,
-- exactly one of its files is a builtin.zig of that directory, and the provenance has the path of the
-- two and the place of the directory.
pub parse_dwarf_v4_debug_line-IsLineTable :
    (s : LineSection) (dependency : String) (builder : Option AtomBuilder) (t : LineTable)
    → parse_dwarf_v4_debug_line s dependency builder ≡ ok t
    → IsLineTable s t
unfolding parse_dwarf_v4_debug_line
parse_dwarf_v4_debug_line-IsLineTable s dependency builder t h =
    let ((ds, (fs, b)), read, h) =
      bind-ok (read_units s dependency (length s.bytes) builder 0 0) _ h in
    let (d, chosen, h) = bind-ok (the_only (eligible ds) _) _ h in
    let (f, found, h) = bind-ok (the_only (builtin_files d fs) _) _ h in
    let (b', _, h) = bind-ok (claim_directory d b) _ h in
    let rows = read_units-AreRows s dependency (length s.bytes) builder 0 0 ds fs b read in
    let one = the_only-ok (eligible ds) _ d chosen in
    let only = the_only-ok (builtin_files d fs) _ f found in
    let cache =
      subst (λ l. All (λ x. IsDirectory s x × (is_cache_directory x.path ≡ true)) l) one
        (eligible-All _ ds rows.spelled) in
    let only_cache =
      keep-IsOnly (λ (x : DwarfDirectory). is_cache_directory x.path) d ds
        (sym (eligible-keep ds) ∙ one) in
    let only_builtin =
      IsOnly-same (λ x. is_builtin d x ≡ true) (IsBuiltin d) f fs (is_builtin-IsBuiltin d)
        (IsBuiltin-is_builtin d)
        (keep-IsOnly (is_builtin d) f fs (sym (builtin_files-keep d fs) ∙ only)) in
    subst (λ x. IsLineTable s x) (ok-value h)
      (record {
        spelled = rows.spelled;
        known = rows.known;
        cache = d;
        cache_spelled = cache.0.0;
        only_cache = only_cache;
        builtin = f;
        only_builtin = only_builtin;
        path_eq = refl;
        offset_eq = refl;
        size_eq = refl;
      })
