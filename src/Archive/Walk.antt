-- ===== src/Archive/Walk.antt =====
-- The members of an archive tile it, and every byte of it is claimed.
use zynum.Prelude.{
  ◌<>◌, ℕ, zero, suc, ◌+◌, ◌%◌, ◌≤◌, ◌<◌, ◌≡◌, refl, sym, subst, String, false, Option, List, [],
  ◌∷◌, ltb, ltb→ge, ◌==◌, ==→eq, arith, if-cases, ok-value, ok-first, ok-second, inl, inr, Outcome,
  ok, bind-ok, length, take, drop,
}
use zynum.Prelude.Int.{pos}
use zynum.Fields.{parse_ascii_int, rstrip}
use zynum.Atoms.{AtomBuilder, add}
use zynum.Atoms.Commit.{IsValid}
use zynum.Atoms.Claims.{IsExtended, IsExtended-none, IsExtended-join, add-IsExtended}
use zynum.Atoms.Finish.{slice}
use zynum.Parse.{range_check, ParseError, of_field, of_atom, text}
use zynum.Parse.Guards.{range_check-inside, raise_if-ok, bind-ok_unit, of_atom-ok}
use zynum.Archive.Layout.{
  RawMember, member_fields, member_name, member_locator, read_member, part, padding, claim_body,
  claim_member, claim_padding, walk_members,
}

-- Where the parts of a member lie.
pub record IsMember (total index offset : ℕ) (m : RawMember) : Type 0 where
  pub index_eq : m.index ≡ index
  pub header_eq : m.header_offset ≡ offset
  pub payload_eq : m.payload_offset ≡ offset + 60
  pub body_eq : m.body_offset ≡ offset + 60 + m.name_length
  pub size_eq : m.name_length + m.body_size ≡ m.stored_size
  pub named : 0 < m.name_length
  pub inside : offset + 60 + m.stored_size ≤ total

member_name-fits :
    (decode : List ℕ → Option String) (bytes : List ℕ) (index : ℕ) (header : List ℕ)
    (payload_offset stored_size name_length : ℕ) (name : String)
    → member_name decode bytes index header payload_offset stored_size ≡ ok (name_length, name)
    → (0 < name_length) × (name_length ≤ stored_size)
unfolding member_name
member_name-fits decode bytes index header payload_offset stored_size name_length name h =
    let (_, h) = raise_if-ok _ _ _ h in
    let (n, _, h) =
      bind-ok
        (of_field (
          parse_ascii_int (drop 3 (rstrip 32 (take 16 header))) 10
            "archive.member.extended_name_length"))
        _ h in
    let (fits, h) = raise_if-ok _ _ _ h in
    let (_, h) = raise_if-ok _ _ _ h in
    let (s, _, h) =
      bind-ok
        (text decode (rstrip 0 (slice bytes payload_offset (payload_offset + n)))
          (member_locator index <> ".name"))
        _ h in
    let same : n ≡ name_length = ok-first h in
    (ground (arith, fits, same), ground (arith, fits, same))

pub read_member-IsMember :
    (decode : List ℕ → Option String) (bytes : List ℕ) (index offset : ℕ) (m : RawMember)
    → read_member decode bytes index offset ≡ ok m
    → IsMember (length bytes) index offset m
unfolding read_member
read_member-IsMember decode bytes index offset m h =
    let header = slice bytes offset (offset + 60) in
    let (_, h) = bind-ok_unit (range_check (length bytes) offset 60 "archive.member.header") _ h in
    let (_, h) = raise_if-ok _ _ _ h in
    let (f, _, h) = bind-ok (member_fields header) _ h in
    let (room, h) =
      bind-ok_unit (range_check (length bytes) (offset + 60) f.stored_size "archive.member.payload")
        _ h in
    let ((name_length, name), named, h) =
      bind-ok (member_name decode bytes index header (offset + 60) f.stored_size) _ h in
    let (positive, fits) =
      member_name-fits decode bytes index header (offset + 60) f.stored_size name_length name
        named in
    subst (λ x. IsMember (length bytes) index offset x) (ok-value h)
      (record {
        index_eq = refl;
        header_eq = refl;
        payload_eq = refl;
        body_eq = refl;
        size_eq = omega (arith, fits);
        named = positive;
        inside =
            range_check-inside (length bytes) (offset + 60) f.stored_size "archive.member.payload"
              room;
      })

claim_body-IsExtended :
    (b b' : AtomBuilder) (m : RawMember)
    → IsValid b
    → claim_body b m ≡ ok b'
    → IsExtended b b' m.body_offset (m.body_offset + m.body_size)
claim_body-IsExtended b b' m v h = elim (if-cases (m.body_size == 0) _ _ h) [
  | inl (empty, k) ↦
      let none_left : m.body_offset + m.body_size ≡ m.body_offset =
        omega (arith, ==→eq _ _ empty) in
      subst (λ c. IsExtended b c m.body_offset (m.body_offset + m.body_size)) (ok-value k)
        (subst (λ e. IsExtended b b m.body_offset e) (sym none_left)
          (IsExtended-none b m.body_offset v))
  | inr (filled, k) ↦ add-IsExtended b b' m.body_offset m.body_size _ false v k
]

claim_member-IsExtended :
    (total index offset : ℕ) (b b' : AtomBuilder) (m : RawMember)
    → IsValid b
    → IsMember total index offset m
    → claim_member b m ≡ ok b'
    → IsExtended b b' offset (offset + 60 + m.stored_size)
unfolding claim_member
claim_member-IsExtended total index offset b b' m v r h =
    let (b1, h1, h) =
      bind-ok (of_atom (add b (pos m.header_offset) (pos 60) (part m.index "header") false)) _ h in
    let (b2, h2, h) =
      bind-ok
        (of_atom
          (add b1 (pos m.payload_offset) (pos m.name_length) (part m.index "extended_name") false))
        _ h in
    let e1 = add-IsExtended b b1 m.header_offset 60 _ false v (of_atom-ok _ h1) in
    let e2 =
      add-IsExtended b1 b2 m.payload_offset m.name_length _ false e1.valid (of_atom-ok _ h2) in
    let e3 = claim_body-IsExtended b2 b' m e2.valid (of_atom-ok _ h) in
    let f1 : IsExtended b b1 offset (offset + 60) =
      subst (λ o. IsExtended b b1 o (o + 60)) r.header_eq e1 in
    let f2 : IsExtended b1 b2 (offset + 60) (offset + 60 + m.name_length) =
      subst (λ o. IsExtended b1 b2 o (o + m.name_length)) r.payload_eq e2 in
    let behind : m.body_offset + m.body_size ≡ offset + 60 + m.stored_size =
      omega (arith, r.body_eq, r.size_eq) in
    let f3 : IsExtended b2 b' (offset + 60 + m.name_length) (offset + 60 + m.stored_size) =
      subst (λ o. IsExtended b2 b' o (offset + 60 + m.stored_size)) r.body_eq
        (subst (λ e. IsExtended b2 b' m.body_offset e) behind e3) in
    IsExtended-join b b2 b' offset (offset + 60 + m.name_length) (offset + 60 + m.stored_size)
      (IsExtended-join b b1 b2 offset (offset + 60) (offset + 60 + m.name_length) f1 f2
        (omega arith) (omega arith))
      f3 (omega arith) (omega (arith, r.size_eq))

claim_padding-IsExtended :
    (bytes : List ℕ) (b b' : AtomBuilder) (m : RawMember) (offset next : ℕ)
    → IsValid b
    → offset ≤ length bytes
    → claim_padding bytes b m offset ≡ ok (b', next)
    → IsExtended b b' offset next × ((next ≡ offset + m.stored_size % 2) × (next ≤ length bytes))
unfolding claim_padding
claim_padding-IsExtended bytes b b' m offset next v room h =
    elim (if-cases (m.stored_size % 2 == 1) _ _ h) [
      | inr (even, k) ↦
          let at : offset ≡ next = ok-second k in
          (
            subst (λ c. IsExtended b c offset next) (ok-first k)
                (subst (λ e. IsExtended b b offset e) at (IsExtended-none b offset v)),
            (ground (arith, even, at), omega (arith, at)),
          )
      | inl (odd, k) ↦
          let (fits, k) =
            bind-ok_unit
              (range_check (length bytes) offset 1 (member_locator m.index <> ".padding")) _ k in
          let (_, k) = raise_if-ok _ _ _ k in
          let (c, added, k) =
            bind-ok (of_atom (add b (pos offset) (pos 1) (padding m.index) false)) _ k in
          let at : offset + 1 ≡ next = ok-second k in
          let e = add-IsExtended b c offset 1 _ false v (of_atom-ok _ added) in
          (
            subst (λ d. IsExtended b d offset next) (ok-first k)
                (subst (λ o. IsExtended b c offset o) at e),
            (
              ground (arith, odd, at),
              omega (arith, at, range_check-inside (length bytes) offset 1 _ fits),
            ),
          )
    ]

-- The members follow each other from an offset to another, each padded to an even size.
abbrev pub IsTiled : ℕ → ℕ → ℕ → List RawMember → ℕ → Type 0
IsTiled total index offset [] end = offset ≡ end
IsTiled total index offset (m ∷ ms) end =
    IsMember total index offset m
    × IsTiled total (suc index) (offset + 60 + m.stored_size + m.stored_size % 2) ms end

-- What the walk returns: members that tile the bytes from the offset to the end, all claimed.
pub record IsWalked (bytes : List ℕ) (index offset : ℕ) (b : AtomBuilder) (ms : List RawMember)
    (b' : AtomBuilder) (end : ℕ) : Type 0 where
  pub tiled : IsTiled (length bytes) index offset ms end
  pub extended : IsExtended b b' offset end
  pub ascending : offset ≤ end
  pub whole : length bytes ≤ end

stopped-IsWalked :
    (bytes : List ℕ) (index offset : ℕ) (b b' : AtomBuilder) (ms : List RawMember) (end : ℕ)
    → IsValid b
    → length bytes ≤ offset
    → ◌≡◌ {A = Outcome ParseError (List RawMember × (AtomBuilder × ℕ))}
        (ok ([], (b, offset)))
        (ok (ms, (b', end)))
    → IsWalked bytes index offset b ms b' end
stopped-IsWalked bytes index offset b b' ms end v past h =
    subst (λ r. IsWalked bytes index offset b r.0 r.1.0 r.1.1) (ok-value h)
      (record {
        tiled = refl;
        extended = IsExtended-none b offset v;
        ascending = omega arith;
        whole = past;
      })

pub walk_members-IsWalked :
    (decode : List ℕ → Option String) (bytes : List ℕ) (fuel : ℕ) (b : AtomBuilder)
    (index offset : ℕ) (ms : List RawMember) (b' : AtomBuilder) (end : ℕ)
    → IsValid b
    → walk_members decode bytes fuel b index offset ≡ ok (ms, (b', end))
    → IsWalked bytes index offset b ms b' end
unfolding walk_members
walk_members-IsWalked decode bytes zero b index offset ms b' end v h =
    elim (if-cases (ltb offset (length bytes)) _ _ h) [
      | inl (inside, k) ↦ absurd (cc k)
      | inr (past, k) ↦
          stopped-IsWalked bytes index offset b b' ms end v (ltb→ge offset (length bytes) past) k
    ]
walk_members-IsWalked decode bytes (suc fuel) b index offset ms b' end v h =
    elim (if-cases (ltb offset (length bytes)) _ _ h) [
      | inr (past, k) ↦
          stopped-IsWalked bytes index offset b b' ms end v (ltb→ge offset (length bytes) past) k
      | inl (inside, k) ↦
          let (_, k) = raise_if-ok _ _ _ k in
          let (m, read, k) = bind-ok (read_member decode bytes index offset) _ k in
          let (b1, claimed, k) = bind-ok (claim_member b m) _ k in
          let ((b2, next), padded, k) =
            bind-ok (claim_padding bytes b1 m (m.payload_offset + m.stored_size)) _ k in
          let ((rest, (b3, end')), walked, k) =
            bind-ok (walk_members decode bytes fuel b2 (suc index) next) _ k in
          let r = read_member-IsMember decode bytes index offset m read in
          let e1 = claim_member-IsExtended (length bytes) index offset b b1 m v r claimed in
          let behind : m.payload_offset + m.stored_size ≡ offset + 60 + m.stored_size =
            omega (arith, r.payload_eq) in
          let (e2, (next_eq, next_room)) =
            claim_padding-IsExtended bytes b1 b2 m (m.payload_offset + m.stored_size) next e1.valid
              (omega (arith, behind, r.inside)) padded in
          let w =
            walk_members-IsWalked decode bytes fuel b2 (suc index) next rest b3 end' e2.valid
              walked in
          let at : next ≡ offset + 60 + m.stored_size + m.stored_size % 2 =
            omega (arith, next_eq, behind) in
          subst (λ t. IsWalked bytes index offset b t.0 t.1.0 t.1.1) (ok-value k)
            (record {
              tiled = (r, subst (λ o. IsTiled (length bytes) (suc index) o rest end') at w.tiled);
              extended =
                  IsExtended-join b b1 b3 offset (offset + 60 + m.stored_size) end' e1
                    (subst (λ o. IsExtended b1 b3 o end') behind
                      (IsExtended-join b1 b2 b3 (m.payload_offset + m.stored_size) next end' e2
                        w.extended (omega (arith, next_eq)) w.ascending))
                    (omega arith) (omega (arith, at, w.ascending));
              ascending = omega (arith, at, w.ascending);
              whole = w.whole;
            })
    ]
