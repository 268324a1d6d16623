-- ===== src/Dwarf/Ends.antt =====
-- The loops over a line table of tools/abi_artifact_parity.py end, whatever its bytes are.
use zynum.Prelude.{
  ℕ, zero, suc, ◌+◌, ◌<◌, ◌≤◌, ◌≡◌, subst, inl, inr, String, ◌<>◌, Option, none, some, List, [],
  ◌∷◌, ltb, ltb→ge, ge→ltb, Bool-cases, ||-false, ok-value, ok-first, bind-ok, arith, length, ok,
  err,
}
use zynum.Fields.{cstring, is_empty}
use zynum.Fields.Progress.{cstring-Advances}
use zynum.Atoms.{AtomBuilder}
use zynum.Parse.{ParseError, of_field, text, range_check, field_le}
use zynum.Parse.Guards.{
  raise_if-ok, bind-ok_unit, of_field-ok, range_check-inside, range_check-Runs, Runs, Runs-ok,
  Runs-bind, Runs-raise_if, Runs-buffer, Runs-of_field, Runs-of_atom, Runs-text, Runs-parity,
  Runs-parity_value, Runs-raise_value, Runs-raise_only,
}
use zynum.Dwarf.Tables.{
  DwarfDirectory, DwarfFile, LineSection, UnitHeader, check_scalars, unit_header, directory_locator,
  directory_read, read_directories, file_entry, file_read, read_files,
}
use zynum.Dwarf.Rows.{read_directories-AreDirectories, file_entry-IsFile}
use zynum.Dwarf.Lines.{
  read_unit, claim_lengths, read_units, eligible, builtin_files, the_only, claim_directory,
  parse_dwarf_v4_debug_line,
}

-- Where the parts of a unit lie.
pub record IsUnit (total offset : ℕ) (h : UnitHeader) : Type 0 where
  pub room : offset + 16 ≤ h.prologue_end
  pub prologue : h.prologue_end ≤ h.unit_end
  pub inside : h.unit_end ≤ total
  pub tables : h.tables ≤ h.prologue_end

pub unit_header-IsUnit :
    (s : LineSection) (offset : ℕ) (h : UnitHeader)
    → unit_header s offset ≡ ok h
    → IsUnit (length s.bytes) offset h
unfolding unit_header
unit_header-IsUnit s offset h e =
    let total = 4 + field_le s.bytes offset 4 in
    let (_, e) = raise_if-ok _ _ _ e in
    let (_, e) = raise_if-ok _ _ _ e in
    let (inside, e) =
      bind-ok_unit (range_check (length s.bytes) offset total s.locator_prefix) _ e in
    let (_, e) = raise_if-ok _ _ _ e in
    let (fits, e) = raise_if-ok _ _ _ e in
    let (_, e) = raise_if-ok _ _ _ e in
    let (_, e) = bind-ok_unit (check_scalars s (offset + 10)) _ e in
    let (opcodes, e) = raise_if-ok _ _ _ e in
    let (below, size) = ||-false _ _ fits in
    let room = range_check-inside (length s.bytes) offset total s.locator_prefix inside in
    subst (λ x. IsUnit (length s.bytes) offset x) (ok-value e)
      (record {
        room = omega (arith, ltb→ge _ _ size);
        prologue = ltb→ge _ _ below;
        inside = omega (arith, room);
        tables = ltb→ge _ _ opcodes;
      })

check_scalars-Runs : (s : LineSection) (cursor : ℕ) → Runs (check_scalars s cursor)
unfolding check_scalars
check_scalars-Runs s cursor = Runs-raise_only _ _ _

unit_header-Runs : (s : LineSection) (offset : ℕ) → Runs (unit_header s offset)
unfolding unit_header
unit_header-Runs s offset = Runs-raise_if _ _ _ _ (λ _. Runs-raise_if _ _ _ _ (λ _.
    Runs-bind (range_check _ _ _ _) _ (range_check-Runs _ _ _ _) (λ _ _.
      Runs-raise_value _ _ _ _ _ (λ _. Runs-raise_if _ _ _ _ (λ _. Runs-buffer _ _ (λ _.
        Runs-bind (check_scalars s (offset + 10)) _ (check_scalars-Runs s (offset + 10))
          (λ _ _. Runs-raise_if _ _ _ _ (λ _. Runs-ok _))))))))

read_directories-Runs :
    (s : LineSection) (unit end fuel index cursor : ℕ)
    → cursor ≤ end
    → end < cursor + fuel
    → Runs (read_directories s unit end fuel index cursor)
unfolding read_directories directory_read
read_directories-Runs s unit end zero index cursor h k = absurd (omega arith)
read_directories-Runs s unit end (suc fuel) index cursor h k =
    Runs-bind (of_field (cstring s.bytes cursor end (s.locator_prefix <> ".directory"))) _
      (Runs-of_field _)
      (λ (value, next) found. elim (Bool-cases (is_empty value)) [
        | inl e ↦ rw e (Runs-ok _)
        | inr e ↦
            let up = cstring-Advances s.bytes cursor end _ value next (of_field-ok _ found) in
            rw e (
              Runs-bind (text s.decode value (directory_locator s index)) _ (Runs-text _ _ _)
                (λ path _.
                  Runs-bind (read_directories s unit end fuel (suc index) next) _
                    (read_directories-Runs s unit end fuel (suc index) next up.inside
                      (omega (arith, up.forward)))
                    (λ rest _. Runs-ok _)))
      ])

file_entry-Runs :
    (s : LineSection) (unit end count index : ℕ) (value : List ℕ) (cursor : ℕ)
    → Runs (file_entry s unit end count index value cursor)
unfolding file_entry
file_entry-Runs s unit end count index value cursor = Runs-bind _ _ (Runs-of_field _) (λ r1 _.
    Runs-bind _ _ (Runs-of_field _) (λ r2 _. Runs-bind _ _ (Runs-of_field _) (λ r3 _.
      Runs-raise_if _ _ _ _
        (λ _. Runs-bind (text s.decode value _) _ (Runs-text _ _ _) (λ name _. Runs-ok _)))))

read_files-Runs :
    (s : LineSection) (unit end count fuel index cursor : ℕ)
    → cursor ≤ end
    → end < cursor + fuel
    → Runs (read_files s unit end count fuel index cursor)
unfolding read_files file_read
read_files-Runs s unit end count zero index cursor h k = absurd (omega arith)
read_files-Runs s unit end count (suc fuel) index cursor h k =
    Runs-bind (of_field (cstring s.bytes cursor end (s.locator_prefix <> ".file"))) _
      (Runs-of_field _)
      (λ (value, next) found. elim (Bool-cases (is_empty value)) [
        | inl e ↦ rw e (Runs-ok _)
        | inr e ↦
            let up = cstring-Advances s.bytes cursor end _ value next (of_field-ok _ found) in
            rw e (
              Runs-bind (file_entry s unit end count index value next) _
                (file_entry-Runs s unit end count index value next)
                (λ (f, c) entry.
                  let on = (file_entry-IsFile s unit end count index value next f c entry).1 in
                  Runs-bind (read_files s unit end count fuel (suc index) c) _
                    (read_files-Runs s unit end count fuel (suc index) c on.inside
                      (omega (arith, up.forward, on.forward)))
                    (λ rest _. Runs-ok _)))
      ])

read_unit-Runs : (s : LineSection) (unit offset : ℕ) → Runs (read_unit s unit offset)
unfolding read_unit
read_unit-Runs s unit offset =
    Runs-bind (unit_header s offset) _ (unit_header-Runs s offset) (λ h header.
      let u = unit_header-IsUnit s offset h header in
      let fuel = suc (length s.bytes) in
      Runs-bind (read_directories s unit h.prologue_end fuel 1 h.tables) _
        (read_directories-Runs s unit h.prologue_end fuel 1 h.tables u.tables
          (omega (arith, u.prologue, u.inside)))
        (λ (ds, (count, middle)) read.
          let d =
            read_directories-AreDirectories s unit h.prologue_end fuel 1 h.tables ds count middle
              read in
          Runs-bind (read_files s unit h.prologue_end count fuel 1 middle) _
            (read_files-Runs s unit h.prologue_end count fuel 1 middle d.advances.inside
              (omega (arith, u.prologue, u.inside)))
            (λ (fs, cursor) _. Runs-raise_if _ _ _ _ (λ _. Runs-ok _))))

-- A unit that is read ends behind its start.
pub read_unit-forward :
    (s : LineSection) (unit offset unit_end : ℕ) (ds : List DwarfDirectory) (fs : List DwarfFile)
    → read_unit s unit offset ≡ ok (unit_end, (ds, fs))
    → (offset < unit_end) × (unit_end ≤ length s.bytes)
unfolding read_unit
read_unit-forward s unit offset unit_end ds fs e =
    let (h, header, e) = bind-ok (unit_header s offset) _ e in
    let ((ds', (count, middle)), _, e) =
      bind-ok (read_directories s unit h.prologue_end (suc (length s.bytes)) 1 h.tables) _ e in
    let ((fs', cursor), _, e) =
      bind-ok (read_files s unit h.prologue_end count (suc (length s.bytes)) 1 middle) _ e in
    let (_, e) = raise_if-ok _ _ _ e in
    let u = unit_header-IsUnit s offset h header in
    let at : h.unit_end ≡ unit_end = ok-first e in
    (omega (arith, at, u.room, u.prologue), omega (arith, at, u.inside))

claim_lengths-Runs :
    (s : LineSection) (dependency : String) (unit offset : ℕ) (b : Option AtomBuilder)
    → Runs (claim_lengths s dependency unit offset b)
unfolding claim_lengths
claim_lengths-Runs s dependency unit offset none = Runs-ok none
claim_lengths-Runs s dependency unit offset (some b) =
    Runs-bind _ _ (Runs-of_atom _) (λ b1 _. Runs-bind _ _ (Runs-of_atom _) (λ b2 _. Runs-ok _))

read_units-Runs :
    (s : LineSection) (dependency : String) (fuel : ℕ) (b : Option AtomBuilder) (offset unit : ℕ)
    → length s.bytes ≤ offset + fuel
    → Runs (read_units s dependency fuel b offset unit)
unfolding read_units
read_units-Runs s dependency zero b offset unit h =
    rw (ge→ltb offset (length s.bytes) (omega arith)) (Runs-ok _)
read_units-Runs s dependency (suc fuel) b offset unit h =
    elim (Bool-cases (ltb offset (length s.bytes))) [
      | inr e ↦ rw e (Runs-ok _)
      | inl e ↦ rw e (
          Runs-bind (read_unit s unit offset) _ (read_unit-Runs s unit offset)
            (λ (unit_end, (ds, fs)) read.
              let up = read_unit-forward s unit offset unit_end ds fs read in
              Runs-bind (claim_lengths s dependency unit offset b) _
                (claim_lengths-Runs s dependency unit offset b)
                (λ b' _.
                  Runs-bind (read_units s dependency fuel b' unit_end (suc unit)) _
                    (read_units-Runs s dependency fuel b' unit_end (suc unit) (omega (arith, up.0)))
                    (λ rest _. Runs-ok _))))
    ]

the_only-Runs {ℓ} :
    {A : Type ℓ} (xs : List A) (e : ParseError) → Runs {A = A} (err e) → Runs (the_only xs e)
unfolding the_only Runs
the_only-Runs [] e h = h
the_only-Runs (x ∷ []) e h = tt
the_only-Runs (x ∷ y ∷ xs) e h = h

claim_directory-Runs : (d : DwarfDirectory) (b : Option AtomBuilder) → Runs (claim_directory d b)
unfolding claim_directory
claim_directory-Runs d none = Runs-ok none
claim_directory-Runs d (some b) = Runs-bind _ _ (Runs-of_atom _) (λ b' _. Runs-ok _)

-- Whatever the bytes of a section are, the loops over its units, directories, files and numbers end.
pub parse_dwarf_v4_debug_line-Runs :
    (s : LineSection) (dependency : String) (builder : Option AtomBuilder)
    → Runs (parse_dwarf_v4_debug_line s dependency builder)
unfolding parse_dwarf_v4_debug_line
parse_dwarf_v4_debug_line-Runs s dependency builder =
    Runs-bind (read_units s dependency (length s.bytes) builder 0 0) _
      (read_units-Runs s dependency (length s.bytes) builder 0 0 (omega arith))
      (λ (ds, (fs, b)) _.
        Runs-bind (the_only (eligible ds) _) _
          (the_only-Runs (eligible ds) _ (Runs-parity_value _ _ _ _))
          (λ d _.
            Runs-bind (the_only (builtin_files d fs) _) _
              (the_only-Runs (builtin_files d fs) _ (Runs-parity _ _ _))
              (λ f _.
                Runs-bind (claim_directory d b) _ (claim_directory-Runs d b) (λ b' _. Runs-ok _))))
