-- ===== src/Parity/Pairing.antt =====
-- tools/abi_artifact_parity.py, `_compare_parsed`: the atoms of two artifacts by their locators, and
-- what a derived atom may depend on.
use zynum.Prelude.{
  ℕ, suc, ◌-◌, String, ◌<>◌, Bool, true, false, ◌||◌, ◌&&◌, not, Option, some, List, [], ◌∷◌, ◌++◌,
  ltb, ◌==◌, if◌then◌else◌, same, string_eq, same_list, length, ends_with, sorted, set_item,
  get_item, has_key,
}
use zynum.Prelude.Int.{ℤ, pos, negsuc}
use zynum.Atoms.Finish.{ByteAtom, decimal}
use zynum.Parity.Records.{texts_eq, payload_eq, shape_eq, symbol_key_eq}

-- `right - left`.
abbrev pub size_delta : ℕ → ℕ → ℤ
size_delta left right = if ltb right left then negsuc (left - right - 1) else pos (right - left)

abbrev pub byte_difference_count : List ℕ → List ℕ → ℕ
byte_difference_count [] right = length right
byte_difference_count (b ∷ left) [] = suc (length left)
byte_difference_count (b ∷ left) (c ∷ right) =
    let rest = byte_difference_count left right in if b == c then rest else suc rest

-- `{atom.locator: atom for atom in atoms}`, over the items so far.
abbrev pub index_atoms : List (String × ByteAtom) → List ByteAtom → List (String × ByteAtom)
index_atoms items [] = items
index_atoms items (a ∷ atoms) = index_atoms (set_item a.locator a items) atoms

abbrev pub by_locator : List ByteAtom → List (String × ByteAtom)
by_locator atoms = index_atoms [] atoms

-- The keys of one dictionary that another lacks, and that it has.
abbrev pub only_in : List (String × ByteAtom) → List (String × ByteAtom) → List String
only_in [] others = []
only_in ((k, a) ∷ items) others =
    let rest = only_in items others in if has_key k others then rest else k ∷ rest

abbrev pub in_both : List (String × ByteAtom) → List (String × ByteAtom) → List String
in_both [] others = []
in_both ((k, a) ∷ items) others =
    let rest = in_both items others in if has_key k others then k ∷ rest else rest

abbrev pub itself : String → String
itself s = s

abbrev pub unpaired_atoms : List (String × ByteAtom) → List (String × ByteAtom) → List String
unpaired_atoms left right = sorted itself (only_in left right ++ only_in right left)

abbrev pub unpaired_failures : List String → List String
unpaired_failures [] = []
unpaired_failures (l ∷ locators) =
    (decimal (suc (length locators)) <> " atom locators are unpaired") ∷ []

-- The locators of allowed payloads that end with a dependency.
abbrev pub allowed_bases : List (String × ByteAtom) → String → List String
allowed_bases [] dependency = []
allowed_bases ((k, a) ∷ items) dependency =
    let rest = allowed_bases items dependency in
    if same a.role "allowed_payload" && ends_with k dependency then k ∷ rest else rest

abbrev pub payloads_differ : Option ByteAtom → Option ByteAtom → Bool
payloads_differ (some a) (some b) = not (same_list a.payload b.payload)
payloads_differ left right = false

abbrev pub any_changed : List (String × ByteAtom) → List (String × ByteAtom) → List String → Bool
any_changed left right [] = false
any_changed left right (c ∷ candidates) =
    payloads_differ (get_item c left) (get_item c right) || any_changed left right candidates

abbrev pub dependency_changed : List (String × ByteAtom) → List (String × ByteAtom) → String → Bool
dependency_changed left right dependency =
    any_changed left right (dependency ∷ allowed_bases left dependency)

abbrev pub changed_dependencies :
    List (String × ByteAtom) → List (String × ByteAtom) → List String → List String
changed_dependencies left right [] = []
changed_dependencies left right (d ∷ dependencies) =
    let rest = changed_dependencies left right dependencies in
    if dependency_changed left right d then d ∷ rest else rest

-- `bool` of a list.
abbrev pub is_filled {ℓ} : {A : Type ℓ} → List A → Bool
is_filled [] = false
is_filled (x ∷ xs) = true

abbrev pub is_derived : String → Bool
is_derived role = same role "derived_field" || same role "derived_padding"
