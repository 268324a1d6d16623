-- ===== src/Parity/Axes.antt =====
-- tools/abi_artifact_parity.py, `_normalized_axes`, and Python's `==` on what it returns.
use zynum.Prelude.{
  ℕ, suc, String, Bool, true, false, ◌||◌, ◌&&◌, Option, none, some, List, [], ◌∷◌, ◌==◌,
  if◌then◌else◌, same, string_eq, Outcome, ok, err, ◌>>=◌,
}
use zynum.Prelude.Int.{ℤ, pos, negsuc}

-- The values of the structured axes. The items of a dictionary have different keys.
mutual
  pub data Value : Type 0 where
    null : Value
    boolean : Bool → Value
    number : ℤ → Value
    text_value : String → Value
    list_of : Values → Value
    tuple_of : Values → Value
    dict_of : Items → Value

  pub data Values : Type 0 where
    end_of_values : Values
    value : Value → Values → Values

  pub data Items : Type 0 where
    end_of_items : Items
    item : String → Value → Items → Items

-- What the comparison raises: `attribute_error` for `.items()` of what is no dictionary, and
-- `type_error` for a loop over what cannot be looped over.
pub data CompareError : Type 0 where
  attribute_error : CompareError
  type_error : CompareError
  not_dylib : CompareError

abbrev pub is_one_of : String → List String → Bool
is_one_of key [] = false
is_one_of key (name ∷ names) = same key name || is_one_of key names

abbrev pub dropped_keys : List String
dropped_keys =
    "uuid" ∷ "code_directory" ∷ "symoff" ∷ "stroff" ∷ "strsize" ∷ "dataoff" ∷ "datasize" ∷ "addr"
    ∷ "fileoff" ∷ "filesize" ∷ "vmsize" ∷ "reloff" ∷ "member_offset" ∷ "header_offset"
    ∷ "data_offset" ∷ "stored_size" ∷ "object_sha256" ∷ "index" ∷ "ranges" ∷ "fields" ∷ "size" ∷ []

abbrev pub dropped_directory_keys : List String
dropped_directory_keys = "path" ∷ "offset" ∷ "size" ∷ []

-- The dictionary of a directory without its place.
unfoldable pub without_place : Items → Items
without_place end_of_items = end_of_items
without_place (item key v items) =
    let rest = without_place items in
    if is_one_of key dropped_directory_keys then rest else item key v rest

unfoldable pub directories_without_place : Values → Outcome CompareError Values
directories_without_place end_of_values = ok end_of_values
directories_without_place (value (dict_of directory) vs) =
    directories_without_place vs >>= λ rest. ok (value (dict_of (without_place directory)) rest)
directories_without_place (value v vs) = err attribute_error

-- A loop over the value of `dwarf_directories`. The characters of a text and the keys of a dictionary
-- are texts, which have no `items`; without one, the loop makes no round.
unfoldable pub normalized_directories : Value → Outcome CompareError Value
normalized_directories (list_of vs) = directories_without_place vs >>= λ rest. ok (list_of rest)
normalized_directories (tuple_of vs) = directories_without_place vs >>= λ rest. ok (list_of rest)
normalized_directories (text_value s) =
    if same s "" then ok (list_of end_of_values) else err attribute_error
normalized_directories (dict_of end_of_items) = ok (list_of end_of_values)
normalized_directories (dict_of items) = err attribute_error
normalized_directories v = err type_error

unfoldable mutual
  pub normalized_axes : Value → Outcome CompareError Value
  normalized_axes (list_of vs) = normalized_values vs >>= λ rest. ok (list_of rest)
  normalized_axes (tuple_of vs) = normalized_values vs >>= λ rest. ok (list_of rest)
  normalized_axes (dict_of items) = normalized_items items >>= λ rest. ok (dict_of rest)
  normalized_axes v = ok v

  pub normalized_values : Values → Outcome CompareError Values
  normalized_values end_of_values = ok end_of_values
  normalized_values (value v vs) = do
    first ← normalized_axes v
    rest ← normalized_values vs
    ok (value first rest)

  pub normalized_items : Items → Outcome CompareError Items
  normalized_items end_of_items = ok end_of_items
  normalized_items (item key v items) =
      let rest = normalized_items items in
      let inner = normalized_axes v in
      if is_one_of key dropped_keys
      then rest
      else ((if same key "dwarf_directories" then normalized_directories v else inner) >>= λ w.
          rest >>= λ more. ok (item key w more))

abbrev pub get_value : String → Items → Option Value
get_value key end_of_items = none
get_value key (item k v items) =
    let rest = get_value key items in if same k key then some v else rest

abbrev pub size_of : Items → ℕ
size_of end_of_items = 0
size_of (item key v items) = suc (size_of items)

-- `int(b)`, since a truth value equals a number.
abbrev pub int_of : Bool → ℤ
int_of true = pos 1
int_of false = pos 0

abbrev pub same_int : ℤ → ℤ → Bool
same_int (pos m) (pos n) = m == n
same_int (negsuc m) (negsuc n) = m == n
same_int m n = false

abbrev pub equal_number : ℤ → Value → Bool
equal_number n (number m) = same_int n m
equal_number n (boolean b) = same_int n (int_of b)
equal_number n v = false

-- `==`.
unfoldable mutual
  pub equal_axes : Value → Value → Bool
  equal_axes null null = true
  equal_axes (boolean b) v = equal_number (int_of b) v
  equal_axes (number n) v = equal_number n v
  equal_axes (text_value s) (text_value t) = same s t
  equal_axes (list_of vs) (list_of ws) = equal_values vs ws
  equal_axes (tuple_of vs) (tuple_of ws) = equal_values vs ws
  equal_axes (dict_of items) (dict_of others) =
      (size_of items == size_of others) && items_equal items others
  equal_axes v w = false

  pub equal_values : Values → Values → Bool
  equal_values end_of_values end_of_values = true
  equal_values (value v vs) (value w ws) = equal_axes v w && equal_values vs ws
  equal_values vs ws = false

  pub items_equal : Items → Items → Bool
  items_equal end_of_items others = true
  items_equal (item key v items) others =
      elim (get_value key others) [ none ↦ false | some w ↦ equal_axes v w ]
      && items_equal items others

-- `==` of two dictionaries.
unfoldable pub equal_dicts : Items → Items → Bool
unfolding equal_axes
equal_dicts items others = equal_axes (dict_of items) (dict_of others)
