-- ===== src/Archive/Ends.antt =====
-- The loops over an archive end, whatever its bytes are.
use zynum.Prelude.{
  ℕ, zero, suc, ◌+◌, ◌%◌, ◌≤◌, ◌≡◌, String, ◌<>◌, false, Option, List, [], ◌∷◌, ltb, ge→ltb, ◌==◌,
  arith, if-cases, ok-second, Bool-cases, inl, inr, ok, bind-ok, length,
}
use zynum.Prelude.Int.{pos}
use zynum.Atoms.{AtomBuilder, add}
use zynum.Parse.{range_check, of_atom}
use zynum.Parse.Guards.{
  range_check-Runs, raise_if-ok, bind-ok_unit, Runs, Runs-ok, Runs-bind, Runs-raise_if,
  Runs-of_field, Runs-of_atom, Runs-text, Runs-parity,
}
use zynum.Archive.Table.{RanlibEntry}
use zynum.Archive.Layout.{
  RawMember, member_locator, member_fields, member_name, read_member, claim_member, claim_padding,
  padding, walk_members,
}
use zynum.Archive.Reader.{claim_index, open_index, open_archive, offset_names}
use zynum.Atoms.Finish.{slice}
use zynum.Archive.Ranlib.{parse_ranlib-Runs}
use zynum.Archive.Walk.{read_member-IsMember}

member_fields-Runs : (header : List ℕ) → Runs (member_fields header)
unfolding member_fields
member_fields-Runs header = Runs-bind _ _ (Runs-of_field _) (λ date _.
    Runs-bind _ _ (Runs-of_field _) (λ uid _. Runs-bind _ _ (Runs-of_field _) (λ gid _.
      Runs-bind _ _ (Runs-of_field _)
        (λ mode _. Runs-bind _ _ (Runs-of_field _) (λ size _. Runs-ok _)))))

member_name-Runs :
    (decode : List ℕ → Option String) (bytes : List ℕ) (index : ℕ) (header : List ℕ)
    (payload_offset stored_size : ℕ)
    → Runs (member_name decode bytes index header payload_offset stored_size)
unfolding member_name
member_name-Runs decode bytes index header payload_offset stored_size = Runs-raise_if _ _ _ _ (λ _.
    Runs-bind _ _ (Runs-of_field _) (λ n _. Runs-raise_if _ _ _ _ (λ _.
      Runs-raise_if _ _ _ _ (λ _. Runs-bind _ _ (Runs-text decode _ _) (λ name _. Runs-ok _)))))

read_member-Runs :
    (decode : List ℕ → Option String) (bytes : List ℕ) (index offset : ℕ)
    → Runs (read_member decode bytes index offset)
unfolding read_member
read_member-Runs decode bytes index offset =
    let total = length bytes in
    let header = slice bytes offset (offset + 60) in
    Runs-bind (range_check total offset 60 "archive.member.header") _ (range_check-Runs _ _ _ _)
      (λ _ _. Runs-raise_if _ _ _ _ (λ _.
        Runs-bind (member_fields header) _ (member_fields-Runs header) (λ f _.
          Runs-bind (range_check total (offset + 60) f.stored_size "archive.member.payload") _
            (range_check-Runs _ _ _ _)
            (λ _ _.
              Runs-bind (member_name decode bytes index header (offset + 60) f.stored_size) _
                (member_name-Runs decode bytes index header (offset + 60) f.stored_size)
                (λ n _. Runs-ok _)))))

claim_member-Runs : (b : AtomBuilder) (m : RawMember) → Runs (claim_member b m)
unfolding claim_member
claim_member-Runs b m =
    Runs-bind _ _ (Runs-of_atom _) (λ b1 _. Runs-bind _ _ (Runs-of_atom _) (λ b2 _. Runs-of_atom _))

claim_padding-Runs :
    (bytes : List ℕ) (b : AtomBuilder) (m : RawMember) (offset : ℕ)
    → Runs (claim_padding bytes b m offset)
unfolding claim_padding
claim_padding-Runs bytes b m offset = elim (Bool-cases (m.stored_size % 2 == 1)) [
  | inr e ↦ rw e (Runs-ok _)
  | inl e ↦ rw e (
      Runs-bind _ _ (range_check-Runs _ _ _ _)
        (λ _ _. Runs-raise_if _ _ _ _ (λ _. Runs-bind _ _ (Runs-of_atom _) (λ b' _. Runs-ok _))))
]

claim_padding-ascends :
    (bytes : List ℕ) (b b' : AtomBuilder) (m : RawMember) (offset next : ℕ)
    → claim_padding bytes b m offset ≡ ok (b', next)
    → offset ≤ next
unfolding claim_padding
claim_padding-ascends bytes b b' m offset next h = elim (if-cases (m.stored_size % 2 == 1) _ _ h) [
  | inr (e, k) ↦ let at : offset ≡ next = ok-second k in omega arith
  | inl (e, k) ↦
      let (_, k) =
        bind-ok_unit (range_check (length bytes) offset 1 (member_locator m.index <> ".padding")) _
          k in
      let (_, k) = raise_if-ok _ _ _ k in
      let (c, _, k) = bind-ok (of_atom (add b (pos offset) (pos 1) (padding m.index) false)) _ k in
      let at : offset + 1 ≡ next = ok-second k in omega arith
]

walk_members-Runs :
    (decode : List ℕ → Option String) (bytes : List ℕ) (fuel : ℕ) (b : AtomBuilder)
    (index offset : ℕ)
    → length bytes ≤ offset + fuel
    → Runs (walk_members decode bytes fuel b index offset)
unfolding walk_members
walk_members-Runs decode bytes zero b index offset h =
    rw (ge→ltb offset (length bytes) (omega arith)) (Runs-ok _)
walk_members-Runs decode bytes (suc fuel) b index offset h =
    elim (Bool-cases (ltb offset (length bytes))) [
      | inr e ↦ rw e (Runs-ok _)
      | inl e ↦ rw e (
          Runs-raise_if _ _ _ _ (λ _.
            Runs-bind (read_member decode bytes index offset) _
              (read_member-Runs decode bytes index offset)
              (λ m read. Runs-bind (claim_member b m) _ (claim_member-Runs b m) (λ b1 _.
                Runs-bind (claim_padding bytes b1 m (m.payload_offset + m.stored_size)) _
                  (claim_padding-Runs bytes b1 m (m.payload_offset + m.stored_size))
                  (λ (b2, next) padded.
                    let r = read_member-IsMember decode bytes index offset m read in
                    let up =
                      claim_padding-ascends bytes b1 b2 m (m.payload_offset + m.stored_size) next
                        padded in
                    Runs-bind (walk_members decode bytes fuel b2 (suc index) next) _
                      (walk_members-Runs decode bytes fuel b2 (suc index) next
                        (omega (arith, r.payload_eq, up)))
                      (λ rest _. Runs-ok _))))))
    ]

claim_index-Runs :
    (b : AtomBuilder) (body_offset : ℕ) (es : List RanlibEntry)
    → Runs (claim_index b body_offset es)
unfolding claim_index
claim_index-Runs b body_offset [] = Runs-ok b
claim_index-Runs b body_offset (e ∷ es) =
    Runs-bind _ _ (Runs-of_atom _) (λ b' _. claim_index-Runs b' body_offset es)

open_index-Runs :
    (decode : List ℕ → Option String) (bytes : List ℕ) (ms : List RawMember) (b : AtomBuilder)
    → Runs (open_index decode bytes ms b)
unfolding open_index
open_index-Runs decode bytes [] b = Runs-parity _ _ _
open_index-Runs decode bytes (m ∷ ms) b = Runs-raise_if _ _ _ _ (λ _. Runs-raise_if _ _ _ _ (λ _.
    Runs-bind _ _
      (parse_ranlib-Runs decode (slice bytes m.body_offset (m.body_offset + m.body_size))
        (offset_names ms))
      (λ ranlib _. Runs-bind _ _ (claim_index-Runs b m.body_offset ranlib) (λ b' _. Runs-ok _))))

-- Whatever the bytes of an archive are, the loops of its first half end.
pub open_archive-Runs :
    (decode : List ℕ → Option String) (bytes : List ℕ) → Runs (open_archive decode bytes)
unfolding open_archive
open_archive-Runs decode bytes = Runs-raise_if _ _ _ _ (λ _. Runs-bind _ _ (Runs-of_atom _) (λ b _.
    Runs-bind _ _ (walk_members-Runs decode bytes (length bytes) b 0 8 (omega arith))
      (λ w _. Runs-raise_if _ _ _ _ (λ _. open_index-Runs decode bytes w.0 w.1.0))))
