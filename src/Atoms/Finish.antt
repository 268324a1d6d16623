-- ===== src/Atoms/Finish.antt =====
-- `ByteAtom` and `_AtomBuilder.finish`: from the assigned ranges to the atoms of the artifact.
use zynum.Prelude.{
  ℕ, zero, suc, ◌+◌, ◌-◌, ◌/◌, ◌%◌, String, ◌<>◌, Bool, true, false, ◌||◌, ◌&&◌, not, Option, none,
  some, List, [], ◌∷◌, map, ltb, ◌==◌, if◌then◌else◌, same, string_eq, Outcome, ok, err, ◌>>=◌,
  ◌>>◌, length, take, drop, get_elem?,
}
use zynum.Interval.{ordered_intervals}
use zynum.Atoms.{
  Assigned, AtomBuilder, AtomError, uncovered, unknown_role, invalid_atom_range,
  stray_canonical_payload, locators_not_unique, finished,
}

pub record ByteAtom : Type 0 where
  pub locator : String
  pub role : String
  pub offset : ℕ
  pub size : ℕ
  pub payload : List ℕ
  pub depends_on : List String
  pub note : Option String
  pub canonical_payload : Option (List ℕ)

abbrev pub is_known_role : String → Bool
is_known_role role =
    same role "invariant"
    || (same role "allowed_payload" || (same role "derived_field" || same role "derived_padding"))

abbrev pub has_stray_payload : ByteAtom → Bool
has_stray_payload a = elim a.canonical_payload [
  | none ↦ false
  | some _ ↦ not (same a.role "derived_field")
]

-- `ByteAtom(…)` with its `__post_init__`. Offsets and sizes are natural numbers here, so the tests
-- for negative ones have no case.
unfoldable pub byte_atom : ByteAtom → Outcome AtomError ByteAtom
byte_atom a =
    if not (is_known_role a.role)
    then err (unknown_role a.role a.locator)
    else if not (length a.payload == a.size)
    then err (invalid_atom_range a.locator)
    else if has_stray_payload a
    then err (stray_canonical_payload a.locator)
    else ok a

-- `data[start:end]`.
abbrev pub slice : List ℕ → ℕ → ℕ → List ℕ
slice bytes start end = take (end - start) (drop start bytes)

-- The uncovered ranges: offset and size of each.
unfoldable pub gaps : ℕ → ℕ → List Assigned → List (ℕ × ℕ)
gaps cursor total [] = if ltb cursor total then (cursor, total - cursor) ∷ [] else []
gaps cursor total (x ∷ xs) =
    if ltb cursor x.start
    then (cursor, x.start - cursor) ∷ gaps x.end total xs
    else gaps x.end total xs

abbrev digit_names : List String
digit_names = "0" ∷ "1" ∷ "2" ∷ "3" ∷ "4" ∷ "5" ∷ "6" ∷ "7" ∷ "8" ∷ "9" ∷ []

abbrev digit : ℕ → String
digit d = elim (get_elem? digit_names d) [ none ↦ "" | some s ↦ s ]

-- A number has at most as many digits behind its first as it counts, so `n` rounds are enough.
decimal_from : ℕ → ℕ → String
decimal_from zero n = digit n
decimal_from (suc fuel) n = elim (ltb n 10) [
  | true ↦ digit n
  | false ↦ decimal_from fuel (n / 10) <> digit (n % 10)
]

-- `f"{n}"`.
unfoldable pub decimal : ℕ → String
unfolding decimal_from
decimal n = decimal_from n n

-- The second atom of a locator is called `#1`, and so on.
unfoldable pub numbered : String → ℕ → String
unfolding decimal
numbered base occurrence = if occurrence == 0 then base else base <> "#" <> decimal occurrence

-- `occurrences[base] += 1` on a `defaultdict(int)`.
abbrev pub count_up : (String → ℕ) → String → String → ℕ
count_up seen base other = if same other base then seen base + 1 else seen other

abbrev pub atom_of : List ℕ → ℕ → Assigned → ByteAtom
atom_of bytes occurrence x = record {
  locator = numbered x.value.locator occurrence;
  role = x.value.role;
  offset = x.start;
  size = x.end - x.start;
  payload = slice bytes x.start x.end;
  depends_on = x.value.depends_on;
  note = x.value.note;
  canonical_payload = x.value.canonical_payload;
}

unfoldable pub build_atoms :
    List ℕ → (String → ℕ) → List Assigned → Outcome AtomError (List ByteAtom)
unfolding byte_atom numbered
build_atoms bytes seen [] = ok []
build_atoms bytes seen (x ∷ xs) = do
  atom ← byte_atom (atom_of bytes (seen x.value.locator) x)
  atoms ← build_atoms bytes (count_up seen x.value.locator) xs
  ok (atom ∷ atoms)

abbrev pub is_member : String → List String → Bool
is_member s [] = false
is_member s (t ∷ ts) = same s t || is_member s ts

-- `len(locators) == len(set(locators))`.
abbrev pub are_unique : List String → Bool
are_unique [] = true
are_unique (s ∷ ss) = not (is_member s ss) && are_unique ss

unfoldable pub require_covered : List (ℕ × ℕ) → String → Outcome AtomError (Unit {0})
require_covered [] prefix = ok tt
require_covered (range ∷ ranges) prefix = err (uncovered (range ∷ ranges) prefix)

unfoldable pub finish : AtomBuilder → Outcome AtomError (List ByteAtom)
unfolding gaps require_covered build_atoms
finish b = do
  intervals ← finished (ordered_intervals b.root)
  require_covered (gaps 0 (length b.bytes) intervals) b.prefix
  atoms ← build_atoms b.bytes (λ _. 0) intervals
  if are_unique (map (λ a. a.locator) atoms) then ok atoms else err (locators_not_unique b.prefix)
