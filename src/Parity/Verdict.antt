-- ===== src/Parity/Verdict.antt =====
-- When the comparison of tools/abi_artifact_parity.py passes.
use zynum.Prelude.{
  ℕ, ◌≡◌, refl, sym, ap, ◌∙◌, subst, inl, inr, String, true, Option, some, List, [], ◌∷◌, map, same,
  same→eq, string_eq, Bool-cases, ok, bind-ok, ok-value, arith, All, sorted, get_item, has_key,
  All-sorted, get_item-has_key, &&-true,
}
use zynum.Atoms.Finish.{ByteAtom}
use zynum.Parity.Axes.{Items, normalized_items, equal_dicts}
use zynum.Parity.Records.{Artifact, Comparison, CanonicalValue, SymbolKey, shape_eq, symbol_key_eq}
use zynum.Parity.Pairing.{by_locator, only_in, in_both, unpaired_atoms, unpaired_failures, itself}
use zynum.Parity.Evidence.{compare_at, compare_locators}
use zynum.Parity.Symbols.{same_keys, symbol_axes, comparison_key}
use zynum.Parity.Compare.{provenance_shape, canonical_digest, compare_parsed}
use zynum.Parity.Agreed.{
  Indexed, IsAgreed, compare_atom-IsAgreed, ++-empty, distinct-empty, unless-empty, verdict_of-pass,
}

only_in-has_key :
    (items others : Indexed) (key : String)
    → only_in items others ≡ []
    → has_key key items ≡ true
    → has_key key others ≡ true
only_in-has_key [] others key h k = absurd (cc k)
only_in-has_key ((l, a) ∷ items) others key h k = elim (Bool-cases (has_key l others)) [
  | inr e ↦ let h = rw e at h in absurd (cc h)
  | inl e ↦
      let h = rw e at h in
      elim (Bool-cases (same l key)) [
        | inl f ↦ subst (λ n. has_key n others ≡ true) (same→eq l key f) e
        | inr f ↦ only_in-has_key items others key h (ground (arith, f, k))
      ]
]

sorted-empty : (xs : List String) → sorted itself xs ≡ [] → xs ≡ []
sorted-empty xs h =
    none_left xs (All-sorted (λ x. ⊥) itself xs (subst (λ l. All (λ x. ⊥) l) (sym h) tt))
  where
    none_left : (ys : List String) → All (λ y. ⊥) ys → ys ≡ []
    none_left [] all = refl
    none_left (y ∷ ys) (wrong, all) = absurd wrong

-- Both artifacts have atoms at the same locators.
unpaired_atoms-paired :
    (lefts rights : Indexed)
    → unpaired_atoms lefts rights ≡ []
    → (key : String) → has_key key lefts ≡ has_key key rights
unpaired_atoms-paired lefts rights h key =
    let (l, r) = ++-empty (only_in lefts rights) (only_in rights lefts) (sorted-empty _ h) in
    ground (arith, only_in-has_key lefts rights key l, only_in-has_key rights lefts key r)

unpaired_failures-empty : (locators : List String) → unpaired_failures locators ≡ [] → locators ≡ []
unpaired_failures-empty [] h = refl
unpaired_failures-empty (l ∷ locators) h = absurd (cc h)

in_both-All :
    (P : String → Type 0) (items others : Indexed)
    → All P (in_both items others)
    → (key : String) → has_key key items ≡ true
    → has_key key others ≡ true
    → P key
in_both-All P [] others all key l r = absurd (cc l)
in_both-All P ((k, a) ∷ items) others all key l r = elim (Bool-cases (same k key)) [
  | inl e ↦
      let at : has_key k others ≡ true =
        subst (λ n. has_key n others ≡ true) (sym (same→eq k key e)) r in
      let all = rw at at all in subst P (same→eq k key e) all.0
  | inr e ↦ elim (Bool-cases (has_key k others)) [
    | inl f ↦ let all = rw f at all in in_both-All P items others all.1 key (ground (arith, e, l)) r
    | inr f ↦ let all = rw f at all in in_both-All P items others all key (ground (arith, e, l)) r
  ]
]

same_keys→eq : (left right : List SymbolKey) → same_keys left right ≡ true → left ≡ right
same_keys→eq [] [] h = refl
same_keys→eq [] (k ∷ ks) h = absurd (cc h)
same_keys→eq (k ∷ ks) [] h = absurd (cc h)
same_keys→eq (k ∷ ks) (l ∷ ls) h =
    let (head, tail) = &&-true _ _ h in
    let first = same→eq k l head in let rest = same_keys→eq ks ls tail in cc (first, rest)

module _ (sha256 : List ℕ → String) where
  compare_locators-All :
      (lefts rights : Indexed) (locators : List String)
      → (compare_locators sha256 lefts rights locators).failures ≡ []
      → All (λ l. (compare_at sha256 lefts rights l).failures ≡ []) locators
  unfolding compare_locators
  compare_locators-All lefts rights [] h = tt
  compare_locators-All lefts rights (l ∷ locators) h =
      let (here, rest) = ++-empty _ _ h in (here, compare_locators-All lefts rights locators rest)

  compare_locators-IsAgreed :
      (lefts rights : Indexed)
      → (compare_locators sha256 lefts rights (sorted itself (in_both lefts rights))).failures ≡ []
      → (locator : String) (a b : ByteAtom) → get_item locator lefts ≡ some a
      → get_item locator rights ≡ some b
      → IsAgreed lefts rights a b
  compare_locators-IsAgreed lefts rights h locator a b l r =
      let all =
        All-sorted (λ k. (compare_at sha256 lefts rights k).failures ≡ []) itself
          (in_both lefts rights)
          (compare_locators-All lefts rights (sorted itself (in_both lefts rights)) h) in
      let here : (compare_at sha256 lefts rights locator).failures ≡ [] =
        in_both-All (λ k. (compare_at sha256 lefts rights k).failures ≡ []) lefts rights all locator
          (get_item-has_key locator lefts a l) (get_item-has_key locator rights b r) in
      let here = rw (l, compare_at) at here in
      let here = rw (r, compare_at) at here in
      compare_atom-IsAgreed sha256 lefts rights locator a b here

module _ (sha256 : List ℕ → String) (json_bytes : List CanonicalValue → List ℕ)
    (repr : SymbolKey → String) (cache_object : String → Option String) where
  -- Two artifacts that are at parity.
  pub record AtParity (left right : Artifact) : Type 0 where
    pub paired :
        (locator : String)
        → has_key locator (by_locator left.atoms) ≡ has_key locator (by_locator right.atoms)
    pub agreed :
        (locator : String) (a b : ByteAtom)
        → get_item locator (by_locator left.atoms) ≡ some a
        → get_item locator (by_locator right.atoms) ≡ some b
        → IsAgreed (by_locator left.atoms) (by_locator right.atoms) a b
    pub left_axes : Items
    pub right_axes : Items
    pub left_normalized : normalized_items left.structured_axes ≡ ok left_axes
    pub right_normalized : normalized_items right.structured_axes ≡ ok right_axes
    pub axes : equal_dicts left_axes right_axes ≡ true
    pub symbols :
        map (comparison_key cache_object) left.symbols
        ≡ map (comparison_key cache_object) right.symbols
    pub digests :
        canonical_digest sha256 json_bytes left.atoms
        ≡ canonical_digest sha256 json_bytes right.atoms
    pub provenance : provenance_shape left.provenance ≡ provenance_shape right.provenance

  -- A comparison that passes is of two artifacts with atoms at the same locators, which agree: roles
  -- and dependencies are equal, invariant payloads are equal, and a derived payload is equal or has a
  -- changed base. Their normalized axes, the keys of their symbols in order, their canonical digests,
  -- and the kinds and names of their provenance are equal.
  pub compare_parsed-AtParity :
      (kind : String) (left right : Artifact) (c : Comparison)
      → compare_parsed sha256 json_bytes repr cache_object kind left right ≡ ok c
      → c.verdict ≡ "pass"
      → AtParity left right
  unfolding compare_parsed symbol_axes
  compare_parsed-AtParity kind left right c h pass =
      let (left_axes, left_ok, h) = bind-ok (normalized_items left.structured_axes) _ h in
      let (right_axes, right_ok, h) = bind-ok (normalized_items right.structured_axes) _ h in
      let verdict = ap (λ (x : Comparison). x.verdict) (ok-value h) ∙ pass in
      let empty = distinct-empty _ (verdict_of-pass _ verdict) in
      let (unpaired, empty) = ++-empty _ _ empty in
      let (evidence, empty) = ++-empty _ _ empty in
      let (axes, empty) = ++-empty _ _ empty in
      let (order, empty) = ++-empty _ _ empty in
      let (multiset, empty) = ++-empty _ _ empty in
      let (digests, provenance) = ++-empty _ _ empty in
      let lefts = by_locator left.atoms in
      let rights = by_locator right.atoms in
      record {
        paired = unpaired_atoms-paired lefts rights (unpaired_failures-empty _ unpaired);
        agreed = compare_locators-IsAgreed sha256 lefts rights evidence;
        left_axes = left_axes;
        right_axes = right_axes;
        left_normalized = left_ok;
        right_normalized = right_ok;
        axes = unless-empty _ _ axes;
        symbols = same_keys→eq _ _ (unless-empty _ _ order);
        digests = same→eq _ _ (unless-empty _ _ digests);
        provenance = same→eq _ _ (unless-empty _ _ provenance);
      }
