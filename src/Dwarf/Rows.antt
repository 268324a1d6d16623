-- ===== src/Dwarf/Rows.antt =====
-- What the directories and files of a unit are, once tools/abi_artifact_parity.py has read them.
use zynum.Prelude.{
  ℕ, zero, suc, ◌+◌, ◌<◌, ◌≤◌, ◌≡◌, ◌⊎◌, refl, subst, inl, inr, ◌<>◌, false, List, [], ◌∷◌, some,
  if-cases, leb→gt, All, ok, ok-first, ok-value, ok-second, bind-ok, arith, length, ◌==◌,
  Bool-cases,
}
use zynum.Fields.{cstring, uleb, is_empty}
use zynum.Fields.Cstring.{IsTerminated, cstring_lem}
use zynum.Fields.Progress.{Advances, Advances-trans, cstring-Advances, uleb-Advances}
use zynum.Parse.{of_field, text}
use zynum.Parse.Guards.{of_field-ok, text-ok, raise_if-ok}
use zynum.Dwarf.Tables.{
  DwarfDirectory, DwarfFile, LineSection, directory_locator, directory_read, read_directories,
  file_entry, file_read, read_files,
}

-- A directory stands in the section where it says, terminated, and its path is decoded from there.
pub record IsDirectory (s : LineSection) (d : DwarfDirectory) : Type 0 where
  pub place : ℕ
  pub value : List ℕ
  pub limit : ℕ
  pub next : ℕ
  pub offset_eq : d.offset ≡ s.file_offset + place
  pub size_eq : d.size ≡ length value
  pub filled : is_empty value ≡ false
  pub terminated : IsTerminated s.bytes place limit value next
  pub path_eq : s.decode value ≡ some d.path

-- Some directory of the list has an index in a unit.
abbrev pub HasDirectory : List DwarfDirectory → ℕ → ℕ → Type 0
HasDirectory [] unit index = ⊥
HasDirectory (d ∷ ds) unit index =
    ((d.unit_index ≡ unit) × (d.directory_index ≡ index)) ⊎ HasDirectory ds unit index

-- The directories that the loop reads, from an index on, and where it stops.
pub record AreDirectories (s : LineSection) (unit end index cursor : ℕ) (ds : List DwarfDirectory)
    (stop next : ℕ) : Type 0 where
  pub spelled : All (λ d. IsDirectory s d) ds
  pub numbered : (i : ℕ) → index ≤ i → i < stop → HasDirectory ds unit i
  pub advances : Advances cursor end next

pub read_directories-AreDirectories :
    (s : LineSection) (unit end fuel index cursor : ℕ) (ds : List DwarfDirectory) (stop next : ℕ)
    → read_directories s unit end fuel index cursor ≡ ok (ds, (stop, next))
    → AreDirectories s unit end index cursor ds stop next
unfolding read_directories directory_read
read_directories-AreDirectories s unit end zero index cursor ds stop next h = absurd (cc h)
read_directories-AreDirectories s unit end (suc fuel) index cursor ds stop next h =
    let ((value, after), found, h) =
      bind-ok (of_field (cstring s.bytes cursor end (s.locator_prefix <> ".directory"))) _ h in
    let found = of_field-ok _ found in
    let here =
      cstring-Advances s.bytes cursor end (s.locator_prefix <> ".directory") value after found in
    let at =
      (cstring_lem s.bytes cursor end (s.locator_prefix <> ".directory") value after).0 found in
    elim (if-cases (is_empty value) _ _ h) [
      | inl (empty, k) ↦
          subst (λ r. AreDirectories s unit end index cursor r.0 r.1.0 r.1.1) (ok-value k)
            (record {
              spelled = tt;
              numbered = λ i low high. absurd (omega arith);
              advances = here;
            })
      | inr (filled, k) ↦
          let (path, decoded, k) = bind-ok (text s.decode value (directory_locator s index)) _ k in
          let ((more, (stop', next')), further, k) =
            bind-ok (read_directories s unit end fuel (suc index) after) _ k in
          let rest =
            read_directories-AreDirectories s unit end fuel (suc index) after more stop' next'
              further in
          subst (λ r. AreDirectories s unit end index cursor r.0 r.1.0 r.1.1) (ok-value k)
            (record {
              spelled = (
                record {
                  place = cursor;
                  value = value;
                  limit = end;
                  next = after;
                  offset_eq = refl;
                  size_eq = refl;
                  filled = filled;
                  terminated = at;
                  path_eq = text-ok _ _ _ decoded;
                },
                rest.spelled,
              );
              numbered = λ i low high. elim (Bool-cases (i == index)) [
                | inl same ↦ inl (refl, ground (arith, same))
                | inr other ↦ inr (rest.numbered i (ground (arith, other, low)) high)
              ];
              advances = Advances-trans cursor end after next' here rest.advances;
            })
    ]

-- A file of a unit that names one of the directories below a bound.
pub record IsFile (unit directory_count : ℕ) (f : DwarfFile) : Type 0 where
  pub unit_eq : f.unit_index ≡ unit
  pub known : f.directory_index < directory_count

pub file_entry-IsFile :
    (s : LineSection) (unit end count index : ℕ) (value : List ℕ) (cursor : ℕ) (f : DwarfFile)
    (next : ℕ)
    → file_entry s unit end count index value cursor ≡ ok (f, next)
    → IsFile unit count f × Advances cursor end next
unfolding file_entry
file_entry-IsFile s unit end count index value cursor f next h =
    let ((dir_index, c1), r1, h) =
      bind-ok (of_field (uleb s.bytes cursor end (s.locator_prefix <> ".file.dir"))) _ h in
    let ((mtime, c2), r2, h) =
      bind-ok (of_field (uleb s.bytes c1 end (s.locator_prefix <> ".file.mtime"))) _ h in
    let ((size, c3), r3, h) =
      bind-ok (of_field (uleb s.bytes c2 end (s.locator_prefix <> ".file.length"))) _ h in
    let (known, h) = raise_if-ok _ _ _ h in
    let (name, _, h) = bind-ok (text s.decode value _) _ h in
    let a1 = uleb-Advances s.bytes cursor end _ dir_index c1 (of_field-ok _ r1) in
    let a2 = uleb-Advances s.bytes c1 end _ mtime c2 (of_field-ok _ r2) in
    let a3 = uleb-Advances s.bytes c2 end _ size c3 (of_field-ok _ r3) in
    (
      subst (λ x. IsFile unit count x) (ok-first h)
          (record { unit_eq = refl; known = leb→gt count dir_index known }),
      subst (λ n. Advances cursor end n) (ok-second h)
          (Advances-trans cursor end c1 c3 a1 (Advances-trans c1 end c2 c3 a2 a3)),
    )

pub read_files-All :
    (s : LineSection) (unit end count fuel index cursor : ℕ) (fs : List DwarfFile) (next : ℕ)
    → read_files s unit end count fuel index cursor ≡ ok (fs, next)
    → All (λ f. IsFile unit count f) fs
unfolding read_files file_read
read_files-All s unit end count zero index cursor fs next h = absurd (cc h)
read_files-All s unit end count (suc fuel) index cursor fs next h =
    let ((value, after), _, h) =
      bind-ok (of_field (cstring s.bytes cursor end (s.locator_prefix <> ".file"))) _ h in
    elim (if-cases (is_empty value) _ _ h) [
      | inl (empty, k) ↦ subst (λ l. All (λ f. IsFile unit count f) l) (ok-first k) tt
      | inr (filled, k) ↦
          let ((f, c), entry, k) = bind-ok (file_entry s unit end count index value after) _ k in
          let ((more, stop), further, k) =
            bind-ok (read_files s unit end count fuel (suc index) c) _ k in
          subst (λ l. All (λ f. IsFile unit count f) l) (ok-first k)
            (
              (file_entry-IsFile s unit end count index value after f c entry).0,
              read_files-All s unit end count fuel (suc index) c more stop further,
            )
    ]
