-- ===== src/Atoms/Partition.antt =====
-- What `finish` returns: the atoms tile the data, and each says what its bytes were assigned.
use zynum.Prelude.{
  ℕ, zero, suc, ◌+◌, ◌-◌, ◌≤◌, ◌<◌, ◌≡◌, refl, sym, ap, ◌∙◌, Option, none, some, List, [], ◌∷◌,
  ◌++◌, map, arith, subst, String, true, ok, err, bind-ok, length, drop, take-append-drop, ltb,
  if◌then◌else◌, Bool-cases, ltb→lt, ltb→ge, inl, inr,
}
use zynum.Interval.Outline.{inorder}
use zynum.Interval.Traverse.{ordered_intervals_lem}
use zynum.Atoms.{Metadata, Assigned, AtomBuilder, uncovered, locators_not_unique}
use zynum.Atoms.Commit.{IsValid, assigned}
use zynum.Atoms.Finish.{
  ByteAtom, byte_atom, slice, gaps, atom_of, build_atoms, count_up, are_unique, require_covered,
  finish,
}
use zynum.Atoms.Gaps.{InRanges, unassigned-gap, gaps-open, gaps-shut, cover-outside}
use zynum.Atoms.Layout.{Within, cover}

-- The byte was assigned what the atom says, up to the numbering of its locator.
pub record Describes (a : ByteAtom) (o : Option Metadata) : Type 0 where
  pub value : Metadata
  pub is_value : o ≡ some value
  pub role : a.role ≡ value.role
  pub depends_on : a.depends_on ≡ value.depends_on
  pub note : a.note ≡ value.note
  pub canonical_payload : a.canonical_payload ≡ value.canonical_payload

-- The atoms follow one another from `at` to `total`, none is empty, and each describes its bytes.
abbrev pub Tiles : (ℕ → Option Metadata) → ℕ → ℕ → List ByteAtom → Type 0
Tiles view at total [] = at ≡ total
Tiles view at total (a ∷ atoms) =
    (a.offset ≡ at)
    × (0 < a.size)
    × (length a.payload ≡ a.size)
    × ((i : ℕ) → at ≤ i → i < at + a.size → Describes a (view i))
    × Tiles view (at + a.size) total atoms

unfoldable pub payloads : List ByteAtom → List ℕ
payloads [] = []
payloads (a ∷ atoms) = a.payload ++ payloads atoms

-- What a byte atom that passes its checks is.
byte_atom-ok : (a a' : ByteAtom) → byte_atom a ≡ ok a' → (a' ≡ a) × (length a.payload ≡ a.size)
unfolding byte_atom
byte_atom-ok a a' h = ground arith

gaps-closed :
    (cursor total : ℕ) (x : Assigned) (xs : List Assigned)
    → gaps cursor total (x ∷ xs) ≡ []
    → (x.start ≤ cursor) × (gaps x.end total xs ≡ [])
gaps-closed cursor total x xs e = elim (Bool-cases (ltb cursor x.start)) [
  | inl gap ↦ absurd (cc (sym (gaps-open cursor total x xs (ltb→lt _ _ gap)) ∙ e))
  | inr touch ↦ let h = ltb→ge cursor x.start touch in (h, sym (gaps-shut cursor total x xs h) ∙ e)
]

gaps-end : (cursor total : ℕ) → gaps cursor total [] ≡ [] → total ≤ cursor
unfolding gaps
gaps-end cursor total e = elim (Bool-cases (ltb cursor total)) [
  | inl short ↦ absurd (nonempty (rw short at e))
  | inr full ↦ ltb→ge cursor total full
]
  where
    nonempty : ◌≡◌ {A = List (ℕ × ℕ)} ((cursor, total - cursor) ∷ []) [] → ⊥
    nonempty e = cc

drop-nil : (n : ℕ) → drop {A = ℕ} n [] ≡ []
drop-nil zero = refl
drop-nil (suc n) = refl

drop-drop : (n m k : ℕ) (xs : List ℕ) → n + m ≡ k → drop m (drop n xs) ≡ drop k xs
drop-drop zero m k xs e = let e' : m ≡ k = omega arith in rw e' refl
drop-drop (suc n) m k [] e = drop-nil m ∙ sym (drop-nil k)
drop-drop (suc n) m zero (x ∷ xs) e = absurd (omega arith)
drop-drop (suc n) m (suc k) (x ∷ xs) e = drop-drop n m k xs (omega arith)

-- A slice and what follows it.
slice-append-drop :
    (bytes : List ℕ) (start end : ℕ)
    → start ≤ end
    → slice bytes start end ++ drop end bytes ≡ drop start bytes
slice-append-drop bytes start end h =
    ap (λ zs. slice bytes start end ++ zs)
      (sym (drop-drop start (end - start) end bytes (omega arith)))
    ∙ take-append-drop (end - start) (drop start bytes)

-- The atoms that are built from covered ranges.
record Built (view : ℕ → Option Metadata) (bytes : List ℕ) (at : ℕ) (atoms : List ByteAtom)
    : Type 0 where
  tiles : Tiles view at (length bytes) atoms
  payload : payloads atoms ≡ drop at bytes

drop_all : (n : ℕ) (xs : List ℕ) → length xs ≤ n → drop n xs ≡ []
drop_all zero [] h = refl
drop_all zero (x ∷ xs) h = absurd (omega arith)
drop_all (suc n) [] h = refl
drop_all (suc n) (x ∷ xs) h = drop_all n xs (omega arith)

cover-head :
    (i : ℕ) (x : Assigned) (xs : List Assigned)
    → x.start ≤ i
    → i < x.end
    → cover (x ∷ xs) i ≡ some x.value
unfolding cover
cover-head i x xs lo hi = ground arith

Built-nil :
    (view : ℕ → Option Metadata) (bytes : List ℕ) (at : ℕ)
    → at ≡ length bytes
    → Built view bytes at []
unfolding payloads
Built-nil view bytes at h = record { tiles = h; payload = sym (drop_all at bytes (omega arith)) }

Built-cons :
    (view : ℕ → Option Metadata) (bytes : List ℕ) (at n : ℕ) (x : Assigned) (xs : List Assigned)
    (atoms : List ByteAtom)
    → x.start ≡ at
    → x.start < x.end
    → ((i : ℕ) → at ≤ i → view i ≡ cover (x ∷ xs) i)
    → length (slice bytes x.start x.end) ≡ x.end - x.start
    → Built view bytes x.end atoms
    → Built view bytes at (atom_of bytes n x ∷ atoms)
unfolding payloads
Built-cons view bytes at n x xs atoms e lt v len b =
    let next : x.end ≡ at + (x.end - x.start) = omega arith in
    record {
      tiles = (
        e,
        omega arith,
        len,
        λ i lo hi. record {
          value = x.value;
          is_value = v i lo ∙ cover-head i x xs (omega arith) (omega arith);
          role = refl;
          depends_on = refl;
          note = refl;
          canonical_payload = refl;
        },
        subst (λ k. Tiles view k (length bytes) atoms) next b.tiles,
      );
      payload =
          ap (λ zs. slice bytes x.start x.end ++ zs) b.payload
          ∙ (slice-append-drop bytes x.start x.end (omega arith) ∙ ap (λ k. drop k bytes) e);
    }

build-Built :
    (view : ℕ → Option Metadata) (bytes : List ℕ) (seen : String → ℕ) (at : ℕ) (xs : List Assigned)
    (atoms : List ByteAtom)
    → Within at (length bytes) xs
    → gaps at (length bytes) xs ≡ []
    → ((i : ℕ) → at ≤ i → view i ≡ cover xs i)
    → build_atoms bytes seen xs ≡ ok atoms
    → Built view bytes at atoms
unfolding build_atoms
build-Built view bytes seen at [] atoms w g v e =
    let end = gaps-end at (length bytes) g in
    let none_built : atoms ≡ [] = cc in rw none_built (Built-nil view bytes at (omega arith))
build-Built view bytes seen at (x ∷ xs) atoms w g v e =
    let n = seen x.value.locator in
    let (atom, made, e') = bind-ok (byte_atom (atom_of bytes n x)) _ e in
    let (rest, built, e'') = bind-ok (build_atoms bytes (count_up seen x.value.locator) xs) _ e' in
    let (same_atom, len) = byte_atom-ok (atom_of bytes n x) atom made in
    let (touch, g') = gaps-closed at (length bytes) x xs g in
    let b =
      build-Built view bytes (count_up seen x.value.locator) x.end xs rest w.2 g'
        (λ i h. v i (omega (arith, w.0, w.1)) ∙ cover-outside i x xs (inr h)) built in
    let shape : atoms ≡ atom_of bytes n x ∷ rest = cc (e'', same_atom) in
    rw shape (Built-cons view bytes at n x xs rest (omega arith) w.1 v len b)

-- `finish` on a valid builder returns only a partition of the data.
pub record Partition (b : AtomBuilder) (atoms : List ByteAtom) : Type 0 where
  pub tiles : Tiles (assigned b) 0 (length b.bytes) atoms
  pub payload : payloads atoms ≡ b.bytes
  pub unique : are_unique (map (λ a. a.locator) atoms) ≡ true

covered-gaps :
    (ranges : List (ℕ × ℕ)) (prefix : String) → require_covered ranges prefix ≡ ok tt → ranges ≡ []
unfolding require_covered
covered-gaps [] prefix e = refl
covered-gaps (r ∷ ranges) prefix e = absurd (cc)

uncovered-gaps :
    (i : ℕ) (ranges : List (ℕ × ℕ)) (prefix : String)
    → InRanges i ranges
    → require_covered ranges prefix ≡ err (uncovered ranges prefix)
unfolding require_covered
uncovered-gaps i [] prefix h = absurd h
uncovered-gaps i (r ∷ ranges) prefix h = refl

finish-checked :
    (b : AtomBuilder) (built atoms : List ByteAtom)
    → Built (assigned b) b.bytes 0 built
    → (if are_unique (map (λ a. a.locator) built)
        then ok built
        else err (locators_not_unique b.prefix))
      ≡ ok atoms
    → Partition b atoms
finish-checked b built atoms w e = elim (Bool-cases (are_unique (map (λ a. a.locator) built))) [
  | inl unique ↦
      let shape : atoms ≡ built = cc (rw unique at e) in
      rw shape (record { tiles = w.tiles; payload = w.payload; unique = unique })
  | inr twice ↦ absurd (cc (rw twice at e))
]

-- The atoms that `finish` returns tile the data from its first byte to its last, each is not empty
-- and describes the claim that its bytes were assigned; put together their payloads are the data,
-- and their locators are all different.
pub finish-Partition :
    (b : AtomBuilder) (atoms : List ByteAtom) → IsValid b → finish b ≡ ok atoms → Partition b atoms
unfolding finish
finish-Partition b atoms v e =
    let (_, covered, e') =
      bind-ok (require_covered (gaps 0 (length b.bytes) (inorder b.root)) b.prefix) _
        (rw (ordered_intervals_lem b.root) at e) in
    let (built, made, e'') = bind-ok (build_atoms b.bytes (λ _. 0) (inorder b.root)) _ e' in
    finish-checked b built atoms
      (build-Built (assigned b) b.bytes (λ _. 0) 0 (inorder b.root) built v.layout
        (covered-gaps _ b.prefix covered) (λ i h. refl) made)
      e''

-- A byte of the data that no claim took makes `finish` raise, and it is in one of the ranges that
-- the exception lists.
pub finish-rejects :
    (b : AtomBuilder) (i : ℕ)
    → IsValid b
    → i < length b.bytes
    → assigned b i ≡ none
    → (ranges : List (ℕ × ℕ)) × (finish b ≡ err (uncovered ranges b.prefix)) × InRanges i ranges
unfolding finish
finish-rejects b i v h e =
    let inside = unassigned-gap 0 (length b.bytes) i (inorder b.root) v.layout (omega arith) h e in
    (
      gaps 0 (length b.bytes) (inorder b.root),
      rw (ordered_intervals_lem b.root) (rw (uncovered-gaps i _ b.prefix inside) refl),
      inside,
    )
