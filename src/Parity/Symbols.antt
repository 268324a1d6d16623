-- ===== src/Parity/Symbols.antt =====
-- tools/abi_artifact_parity.py, `comparison_key` and `_symbol_axes`.
use zynum.Prelude.{
  ℕ, ◌-◌, String, ◌<>◌, Bool, true, false, ◌&&◌, Option, none, some, List, [], ◌∷◌, map, ◌==◌,
  if◌then◌else◌, same, string_eq, length, sorted, distinct, count,
}
use zynum.Parity.Records.{
  texts_eq, payload_eq, shape_eq, SymbolKey, SymbolKey-discrete, symbol_key_eq, SymbolRecord,
  SymbolEntry, SymbolAxes,
}

abbrev pub n_oso : ℕ
n_oso = 102

abbrev pub same_keys : List SymbolKey → List SymbolKey → Bool
same_keys [] [] = true
same_keys (k ∷ ks) (l ∷ ls) = same k l && same_keys ks ls
same_keys ks ls = false

abbrev pub counts_equal : List SymbolKey → List SymbolKey → List SymbolKey → Bool
counts_equal [] left right = true
counts_equal (k ∷ keys) left right = (count k left == count k right) && counts_equal keys left right

-- `Counter(left) == Counter(right)`, where an absent key counts zero.
abbrev pub multisets_equal : List SymbolKey → List SymbolKey → Bool
multisets_equal left right = counts_equal left left right && counts_equal right left right

-- `Counter(left) - Counter(right)` on some keys: the counts above zero.
abbrev pub surplus : List SymbolKey → List SymbolKey → List SymbolKey → List SymbolEntry
surplus [] left right = []
surplus (k ∷ keys) left right =
    let rest = surplus keys left right in
    let more = count k left - count k right in
    if more == 0 then rest else record { key = k; entry_count = more } ∷ rest

module _ (cache_object : String → Option String) where
  unfoldable pub comparison_key : SymbolRecord → SymbolKey
  comparison_key s =
      let normalized_name =
        if s.type_code == n_oso
        then elim (cache_object s.name) [
          | none ↦ s.name
          | some basename ↦ "<local-cache>/o/<digest>/" <> basename
        ]
        else s.name in
      record {
        name = normalized_name;
        base_type = s.base_type;
        section = s.section;
        external = s.external;
        private_external = s.private_external;
        stab = s.stab;
        desc = s.desc;
        type_code = s.type_code;
      }

module _ (repr : SymbolKey → String) (cache_object : String → Option String) where
  unfoldable pub symbol_axes : List SymbolRecord → List SymbolRecord → SymbolAxes
  unfolding comparison_key SymbolKey-discrete
  symbol_axes left right =
      let left_keys = map (comparison_key cache_object) left in
      let right_keys = map (comparison_key cache_object) right in
      let by_repr = sorted (λ (e : SymbolEntry). repr e.key) in
      record {
        order_equal = same_keys left_keys right_keys;
        multiset_equal = multisets_equal left_keys right_keys;
        left_count = length left;
        right_count = length right;
        left_only = by_repr (surplus (distinct left_keys) left_keys right_keys);
        right_only = by_repr (surplus (distinct right_keys) right_keys left_keys);
      }
