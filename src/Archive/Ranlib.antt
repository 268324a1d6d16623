-- ===== src/Archive/Ranlib.antt =====
-- What the index of an archive says once `parse_ranlib` accepts it.
use zynum.Prelude.{
  ℕ, zero, suc, ◌+◌, ◌*◌, ◌/◌, ◌%◌, ◌≤◌, ◌≡◌, refl, ap, subst, String, ◌<>◌, false, Option, some,
  List, [], ◌∷◌, ltb, ◌==◌, ==→eq, arith, All, ge→ltb, if-cases, ok-value, some-value, ||-false,
  not_eq-false, not_eq-false, Bool-cases, inl, inr, ok, bind-ok, length, drop,
}
use zynum.Fields.{cstring, is_empty}
use zynum.Fields.Cstring.{IsTerminated, cstring_lem}
use zynum.Parse.{parity, or_raise, of_field, field_le, text}
use zynum.Parse.Guards.{
  raise_if-ok, or_raise-ok, Runs-or_raise, of_field-ok, text-ok, Runs, Runs-ok, Runs-bind,
  Runs-raise_if, Runs-buffer, Runs-of_field, Runs-text,
}
use zynum.Archive.Table.{
  RanlibEntry, lookup, boundary_found, boundaries_from, entry_locator, ranlib_entry, ranlib_entries,
  parse_ranlib,
}

-- The offsets at which a text of the string table starts: its first byte, and what follows a text that
-- is not empty and starts at such an offset.
pub data IsStart (strings : List ℕ) : ℕ → Type 0 where
  at_first : IsStart strings 0
  behind :
      {cursor : ℕ} (value : List ℕ) (end : ℕ)
      → IsStart strings cursor
      → (value ≡ [] → ⊥)
      → IsTerminated strings cursor (length strings) value end
      → IsStart strings end

-- A text of the string table: not empty, and terminated, at a start.
pub record IsBoundary (strings : List ℕ) (cursor : ℕ) (value : List ℕ) : Type 0 where
  pub start : IsStart strings cursor
  pub filled : value ≡ [] → ⊥
  pub end : ℕ
  pub terminated : IsTerminated strings cursor (length strings) value end

not_empty : (value : List ℕ) → is_empty value ≡ false → value ≡ [] → ⊥
not_empty [] h e = absurd (cc h)
not_empty (b ∷ value) h e = absurd (cc e)

boundaries_from-All :
    (strings : List ℕ) (fuel cursor : ℕ) (bs : List (ℕ × List ℕ))
    → IsStart strings cursor
    → boundaries_from strings fuel cursor ≡ ok bs
    → All (λ b. IsBoundary strings b.0 b.1) bs
unfolding boundaries_from boundary_found
boundaries_from-All strings zero cursor [] at h = tt
boundaries_from-All strings zero cursor (b ∷ bs) at h =
    elim (if-cases (ltb cursor (length strings)) _ _ h) [
      | inl (e, k) ↦ absurd (cc k)
      | inr (e, k) ↦ absurd (cc k)
    ]
boundaries_from-All strings (suc fuel) cursor bs at h =
    elim (if-cases (ltb cursor (length strings)) _ _ h) [
      | inr (e, k) ↦
          let none_left : [] ≡ bs = ok-value k in
          subst (λ l. All (λ b. IsBoundary strings b.0 b.1) l) none_left tt
      | inl (e, k) ↦
          let ((value, end), found, k) =
            bind-ok (of_field (cstring strings cursor (length strings) "archive.ranlib.strings")) _
              k in
          elim (if-cases (is_empty value) _ _ k) [
            | inl (f, k) ↦
                let (_, k) = raise_if-ok _ _ _ k in
                let none_left : [] ≡ bs = ok-value k in
                subst (λ l. All (λ b. IsBoundary strings b.0 b.1) l) none_left tt
            | inr (f, k) ↦
                let (more, further, k) = bind-ok (boundaries_from strings fuel end) _ k in
                let terminated =
                  (cstring_lem strings cursor (length strings) "archive.ranlib.strings" value end).0
                    (of_field-ok _ found) in
                subst (λ l. All (λ b. IsBoundary strings b.0 b.1) l) (ok-value k)
                  (
                    record {
                      start = at;
                      filled = not_empty value f;
                      end = end;
                      terminated = terminated;
                    },
                    boundaries_from-All strings fuel end more
                        (behind value end at (not_empty value f) terminated) further,
                  )
          ]
    ]

-- The fuel is enough.
boundaries_from-Runs :
    (strings : List ℕ) (fuel cursor : ℕ)
    → length strings ≤ cursor + fuel
    → Runs (boundaries_from strings fuel cursor)
unfolding boundaries_from boundary_found
boundaries_from-Runs strings zero cursor h =
    rw (ge→ltb cursor (length strings) (omega arith)) (Runs-ok [])
boundaries_from-Runs strings (suc fuel) cursor h = elim (Bool-cases (ltb cursor (length strings))) [
  | inr e ↦ rw e (Runs-ok [])
  | inl e ↦ rw e (
      Runs-bind (of_field (cstring strings cursor (length strings) "archive.ranlib.strings")) _
        (Runs-of_field (cstring strings cursor (length strings) "archive.ranlib.strings"))
        (λ (value, end) found. elim (Bool-cases (is_empty value)) [
          | inl f ↦ rw f (Runs-raise_if _ _ _ _ (λ _. Runs-ok []))
          | inr f ↦
              let at =
                (cstring_lem strings cursor (length strings) "archive.ranlib.strings" value end).0
                  (of_field-ok _ found) in
              rw f (
                Runs-bind (boundaries_from strings fuel end) _
                  (boundaries_from-Runs strings fuel end (omega (arith, at.ends)))
                  (λ more k. Runs-ok ((cursor, value) ∷ more)))
        ]))
]

-- A key that is found has its value in the list.
lookup-All {ℓ} :
    {A : Type ℓ} (P : ℕ → A → Type 0) (key : ℕ) (xs : List (ℕ × A)) (v : A)
    → All (λ x. P x.0 x.1) xs
    → lookup key xs ≡ some v
    → P key v
lookup-All P key [] v h e = absurd (cc e)
lookup-All P key ((k, w) ∷ xs) v (here, h) e = elim (if-cases (k == key) _ _ e) [
  | inl (t, f) ↦
      let same : k ≡ key = ==→eq k key t in
      let value : w ≡ v = some-value f in subst (λ j. P j v) same (subst (λ u. P k u) value here)
  | inr (t, f) ↦ lookup-All P key xs v h f
]

-- The entry at an index of the table: its two numbers stand there, the first is the offset of a text
-- of the string table, which the symbol decodes, and the second that of a member.
pub record IsEntry (decode : List ℕ → Option String) (bytes strings : List ℕ)
    (members : List (ℕ × String)) (index : ℕ) (entry : RanlibEntry) : Type 0 where
  pub index_eq : entry.index ≡ index
  pub string_eq : entry.string_offset ≡ field_le bytes (4 + index * 8) 4
  pub member_eq : entry.member_offset ≡ field_le bytes (4 + index * 8 + 4) 4
  pub name : String
  pub member : lookup entry.member_offset members ≡ some name
  pub value : List ℕ
  pub boundary : IsBoundary strings entry.string_offset value
  pub decoded_eq : decode value ≡ some entry.symbol

abbrev pub AreEntries :
    (List ℕ → Option String) → List ℕ → List ℕ → List (ℕ × String) → ℕ → List RanlibEntry → Type 0
AreEntries decode bytes strings members index [] = Unit {0}
AreEntries decode bytes strings members index (e ∷ es) =
    IsEntry decode bytes strings members index e
    × AreEntries decode bytes strings members (suc index) es

ranlib_entry-IsEntry :
    (decode : List ℕ → Option String) (bytes strings : List ℕ) (bs : List (ℕ × List ℕ))
    (members : List (ℕ × String)) (index : ℕ) (e : RanlibEntry)
    → All (λ b. IsBoundary strings b.0 b.1) bs
    → ranlib_entry decode bytes bs members index ≡ ok e
    → IsEntry decode bytes strings members index e
unfolding ranlib_entry
ranlib_entry-IsEntry decode bytes strings bs members index e all h =
    let (_, h) = raise_if-ok _ _ _ h in
    let (value, found, h) =
      bind-ok
        (or_raise (lookup (field_le bytes (4 + index * 8) 4) bs)
          (parity "ranlib string offset is not at a string boundary" (entry_locator index)))
        _ h in
    let (name, member, h) =
      bind-ok
        (or_raise (lookup (field_le bytes (4 + index * 8 + 4) 4) members)
          (parity "ranlib member offset does not name an archive header" (entry_locator index)))
        _ h in
    let (symbol, decoded, h) = bind-ok (text decode value (entry_locator index <> ".symbol")) _ h in
    subst (λ x. IsEntry decode bytes strings members index x) (ok-value h)
      (record {
        index_eq = refl;
        string_eq = refl;
        member_eq = refl;
        name = name;
        member = or_raise-ok _ _ member;
        value = value;
        boundary =
            lookup-All (λ k v. IsBoundary strings k v) (field_le bytes (4 + index * 8) 4) bs value
              all (or_raise-ok _ _ found);
        decoded_eq = text-ok decode value _ decoded;
      })

ranlib_entries-AreEntries :
    (decode : List ℕ → Option String) (bytes strings : List ℕ) (bs : List (ℕ × List ℕ))
    (members : List (ℕ × String)) (count index : ℕ) (es : List RanlibEntry)
    → All (λ b. IsBoundary strings b.0 b.1) bs
    → ranlib_entries decode bytes bs members count index ≡ ok es
    → (length es ≡ count) × AreEntries decode bytes strings members index es
unfolding ranlib_entries
ranlib_entries-AreEntries decode bytes strings bs members zero index es all h =
    subst (λ l. (length l ≡ 0) × AreEntries decode bytes strings members index l) (ok-value h)
      (refl, tt)
ranlib_entries-AreEntries decode bytes strings bs members (suc count) index es all h =
    let (e, one, h) = bind-ok (ranlib_entry decode bytes bs members index) _ h in
    let (rest, more, h) = bind-ok (ranlib_entries decode bytes bs members count (suc index)) _ h in
    let (size, others) =
      ranlib_entries-AreEntries decode bytes strings bs members count (suc index) rest all more in
    subst (λ l. (length l ≡ suc count) × AreEntries decode bytes strings members index l)
      (ok-value h)
      (
        ap (λ n. suc n) size,
        (ranlib_entry-IsEntry decode bytes strings bs members index e all one, others),
      )

-- An index that is accepted has exactly the entries of its table, each at a member and at a text of the
-- string table, where the texts stand one behind the other from its first byte on, none of them empty.
pub parse_ranlib-AreEntries :
    (decode : List ℕ → Option String) (bytes : List ℕ) (members : List (ℕ × String))
    (es : List RanlibEntry)
    → parse_ranlib decode bytes members ≡ ok es
    → (8 * length es ≡ field_le bytes 0 4)
      × AreEntries decode bytes (drop (8 + field_le bytes 0 4) bytes) members 0 es
unfolding parse_ranlib
parse_ranlib-AreEntries decode bytes members es h =
    let (_, h) = raise_if-ok _ _ _ h in
    let (whole, h) = raise_if-ok _ _ _ h in
    let (_, h) = raise_if-ok _ _ _ h in
    let (_, h) = raise_if-ok _ _ _ h in
    let table_size = field_le bytes 0 4 in
    let strings = drop (4 + table_size + 4) bytes in
    let (bs, found, h) = bind-ok (boundaries_from strings (length strings) 0) _ h in
    let (size, entries) =
      ranlib_entries-AreEntries decode bytes strings bs members (table_size / 8) 0 es
        (boundaries_from-All strings (length strings) 0 bs at_first found) h in
    let at : 4 + table_size + 4 ≡ 8 + table_size = omega arith in
    let multiple : table_size % 8 ≡ 0 = not_eq-false _ 0 (||-false _ _ whole).0 in
    (
      omega (arith, size, multiple),
      subst (λ k. AreEntries decode bytes (drop k bytes) members 0 es) at entries,
    )

ranlib_entry-Runs :
    (decode : List ℕ → Option String) (bytes : List ℕ) (bs : List (ℕ × List ℕ))
    (members : List (ℕ × String)) (index : ℕ)
    → Runs (ranlib_entry decode bytes bs members index)
unfolding ranlib_entry
ranlib_entry-Runs decode bytes bs members index = Runs-buffer _ _ (λ _.
    Runs-bind _ _ (Runs-or_raise _ _ _) (λ value _.
      Runs-bind _ _ (Runs-or_raise _ _ _)
        (λ name _. Runs-bind _ _ (Runs-text decode value _) (λ symbol _. Runs-ok _))))

ranlib_entries-Runs :
    (decode : List ℕ → Option String) (bytes : List ℕ) (bs : List (ℕ × List ℕ))
    (members : List (ℕ × String)) (count index : ℕ)
    → Runs (ranlib_entries decode bytes bs members count index)
unfolding ranlib_entries
ranlib_entries-Runs decode bytes bs members zero index = Runs-ok _
ranlib_entries-Runs decode bytes bs members (suc count) index =
    Runs-bind (ranlib_entry decode bytes bs members index) _
      (ranlib_entry-Runs decode bytes bs members index)
      (λ e _.
        Runs-bind (ranlib_entries decode bytes bs members count (suc index)) _
          (ranlib_entries-Runs decode bytes bs members count (suc index)) (λ es _. Runs-ok _))

-- Whatever the bytes are, the loops of `parse_ranlib` end.
pub parse_ranlib-Runs :
    (decode : List ℕ → Option String) (bytes : List ℕ) (members : List (ℕ × String))
    → Runs (parse_ranlib decode bytes members)
unfolding parse_ranlib
parse_ranlib-Runs decode bytes members =
    let strings = drop (4 + field_le bytes 0 4 + 4) bytes in
    Runs-raise_if _ _ _ _ (λ _. Runs-raise_if _ _ _ _ (λ _. Runs-buffer _ _ (λ _.
      Runs-raise_if _ _ _ _ (λ _.
        Runs-bind (boundaries_from strings (length strings) 0) _
          (boundaries_from-Runs strings (length strings) 0 (omega arith))
          (λ bs _. ranlib_entries-Runs decode bytes bs members (field_le bytes 0 4 / 8) 0)))))
