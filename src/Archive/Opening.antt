-- ===== src/Archive/Opening.antt =====
-- What `parse_static_archive` knows of an archive before it reads the objects.
use zynum.Prelude.{
  ℕ, ◌+◌, ◌*◌, ◌<◌, ◌≡◌, refl, sym, subst, String, ◌<>◌, none, true, false, Option, some, List, [],
  ◌∷◌, not_eq-false, not-false, ||-false, arith, ok-value, inl, inr, ok, bind-ok, length, drop,
  take, leb, ltb, ◌&&◌, same, Bool-cases, same_list→eq,
}
use zynum.Prelude.Int.{pos}
use zynum.Interval.{interval_height}
use zynum.Atoms.{AtomBuilder, Metadata, new_builder, add}
use zynum.Atoms.Commit.{IsValid}
use zynum.Atoms.Finish.{slice, decimal}
use zynum.Atoms.Claims.{IsExtended-join, IsClaimed-role, add-IsClaimed, add-IsExtended, role_at}
use zynum.Parse.{of_atom, field_le}
use zynum.Parse.Guards.{raise_if-ok, of_atom-ok}
use zynum.Archive.Table.{RanlibEntry, parse_ranlib}
use zynum.Archive.Layout.{RawMember, ar_magic, walk_members}
use zynum.Archive.Reader.{
  Opened, is_symdef, any_symdef, is_empty_list, offset_names, claim_index, open_index, open_archive,
}
use zynum.Archive.Ranlib.{AreEntries, parse_ranlib-AreEntries}
use zynum.Archive.Walk.{IsTiled, walk_members-IsWalked}

-- Some atom has the byte.
abbrev pub HasRole : AtomBuilder → ℕ → Type 0
HasRole b i = (r : String) × (role_at b i ≡ some r)

-- The body of a member.
abbrev pub body_of : List ℕ → RawMember → List ℕ
body_of bytes m = slice bytes m.body_offset (m.body_offset + m.body_size)

-- The first member is the index, of the other members, which are one or more.
pub record IsIndexed (decode : List ℕ → Option String) (bytes : List ℕ) (members : List RawMember)
    (ranlib : List RanlibEntry) : Type 0 where
  pub first : RawMember
  pub rest : List RawMember
  pub members_eq : members ≡ first ∷ rest
  pub named : is_symdef first ≡ true
  pub some_left : is_empty_list rest ≡ false
  pub alone : any_symdef rest ≡ false
  pub entries :
      AreEntries decode
        (body_of bytes first)
        (drop (8 + field_le (body_of bytes first) 0 4) (body_of bytes first))
        (offset_names rest)
        0
        ranlib

claim_index-HasRole :
    (b b' : AtomBuilder) (body_offset : ℕ) (es : List RanlibEntry)
    → IsValid b
    → claim_index b body_offset es ≡ ok b'
    → (i : ℕ) → HasRole b i
    → HasRole b' i
unfolding claim_index
claim_index-HasRole b b' body_offset [] v h i (r, at) = (r, cc (ok-value h, at))
claim_index-HasRole b b' body_offset (e ∷ es) v h i (r, at) =
    let given : Metadata = record {
      locator = "ranlib[" <> decimal e.index <> "].member_offset";
      role = "derived_field";
      depends_on = "dwarf.global_cache_directory" ∷ [];
      note = none;
      canonical_payload = none;
    } in
    let start = body_offset + 4 + e.index * 8 + 4 in
    let (c, added, h) = bind-ok (of_atom (add b (pos start) (pos 4) given true)) _ h in
    let k = add-IsClaimed b c start 4 given true v (of_atom-ok _ added) in
    let role = IsClaimed-role b c start 4 given true k i in
    claim_index-HasRole c b' body_offset es k.valid h i
      (elim (Bool-cases (leb start i && ltb i (start + 4))) [
        | inl t ↦ (given.role, ground (arith, role, t))
        | inr t ↦ (r, ground (arith, role, t, at))
      ])

open_index-IsIndexed :
    (decode : List ℕ → Option String) (bytes : List ℕ) (members : List RawMember) (b : AtomBuilder)
    (o : Opened)
    → IsValid b
    → open_index decode bytes members b ≡ ok o
    → IsIndexed decode bytes members o.ranlib
      × ((o.members ≡ members) × ((i : ℕ) → HasRole b i → HasRole o.builder i))
unfolding open_index
open_index-IsIndexed decode bytes [] b o v h = absurd (cc h)
open_index-IsIndexed decode bytes (first ∷ rest) b o v h =
    let (shape, h) = raise_if-ok _ _ _ h in
    let (lone, h) = raise_if-ok _ _ _ h in
    let (ranlib, parsed, h) =
      bind-ok (parse_ranlib decode (body_of bytes first) (offset_names rest)) _ h in
    let (b', claims, h) = bind-ok (claim_index b first.body_offset ranlib) _ h in
    subst
      (λ (x : Opened).
        IsIndexed decode bytes (first ∷ rest) x.ranlib
        × ((x.members ≡ first ∷ rest) × ((i : ℕ) → HasRole b i → HasRole x.builder i)))
      (ok-value h)
      (
        record {
          first = first;
          rest = rest;
          members_eq = refl;
          named = not-false _ (||-false _ _ shape).1;
          some_left = (||-false _ _ shape).0;
          alone = lone;
          entries =
              (parse_ranlib-AreEntries decode (body_of bytes first) (offset_names rest) ranlib
                parsed).1;
        },
        (refl, claim_index-HasRole b b' first.body_offset ranlib v claims),
      )

-- An archive that was opened.
pub record IsOpened (decode : List ℕ → Option String) (bytes : List ℕ) (o : Opened) : Type 0 where
  pub magic : take 8 bytes ≡ ar_magic
  pub tiled : IsTiled (length bytes) 0 8 o.members (length bytes)
  pub indexed : IsIndexed decode bytes o.members o.ranlib
  pub covered : (i : ℕ) → i < length bytes → HasRole o.builder i

pub new_builder-IsValid : (bytes : List ℕ) (prefix : String) → IsValid (new_builder bytes prefix)
unfolding interval_height
new_builder-IsValid bytes prefix = record { balanced = tt; layout = omega arith }

-- When `parse_static_archive` gets to the objects, the file starts with the magic, the members tile
-- it from there to its end, the first member is the one index, whose entries name the others, and
-- every byte of the file is claimed.
pub open_archive-IsOpened :
    (decode : List ℕ → Option String) (bytes : List ℕ) (o : Opened)
    → open_archive decode bytes ≡ ok o
    → IsOpened decode bytes o
unfolding open_archive
open_archive-IsOpened decode bytes o h =
    let fresh = new_builder bytes "archive" in
    let given : Metadata = record {
      locator = "magic";
      role = "invariant";
      depends_on = [];
      note = none;
      canonical_payload = none;
    } in
    let (magic, h) = raise_if-ok _ _ _ h in
    let (b, added, h) = bind-ok (of_atom (add fresh (pos 0) (pos 8) given false)) _ h in
    let ((members, (b', offset)), walked, h) =
      bind-ok (walk_members decode bytes (length bytes) b 0 8) _ h in
    let (at_end, h) = raise_if-ok _ _ _ h in
    let e =
      add-IsExtended fresh b 0 8 given false (new_builder-IsValid bytes "archive")
        (of_atom-ok _ added) in
    let w =
      walk_members-IsWalked decode bytes (length bytes) b 0 8 members b' offset e.valid walked in
    let at : offset ≡ length bytes = not_eq-false _ _ at_end in
    let (indexed, (same, keeps)) =
      open_index-IsIndexed decode bytes members b' o w.extended.valid h in
    let all = IsExtended-join fresh b b' 0 8 offset e w.extended (omega arith) w.ascending in
    record {
      magic = same_list→eq _ _ (not-false _ magic);
      tiled =
          subst (λ ms. IsTiled (length bytes) 0 8 ms (length bytes)) (sym same)
            (subst (λ n. IsTiled (length bytes) 0 8 members n) at w.tiled);
      indexed = subst (λ ms. IsIndexed decode bytes ms o.ranlib) (sym same) indexed;
      covered = λ i inside. keeps i (all.inside i (omega arith) (omega (arith, at)));
    }
