-- ===== src/Parity/Complete.antt =====
-- The comparison of tools/abi_artifact_parity.py passes whatever is at parity.
use zynum.Prelude.{
  ℕ, ◌≡◌, ◌↔◌, refl, sym, ap, ◌∙◌, subst, String, true, Option, List, [], ◌∷◌, ◌++◌, map, eq→==,
  same, same_refl, Eq, string_eq, Outcome, ok, ◌>>=◌, bind-ok, ok-value, arith, has_key, count,
  distinct,
}
use zynum.Parity.Axes.{Items, normalized_items, equal_dicts}
use zynum.Parity.Records.{
  Artifact, Comparison, CanonicalValue, SymbolKey, shape_eq, texts_eq, payload_eq, symbol_key_eq,
}
use zynum.Parity.Pairing.{by_locator, only_in, unpaired_atoms, unpaired_failures}
use zynum.Parity.Symbols.{same_keys, counts_equal, multisets_equal, symbol_axes, comparison_key}
use zynum.Parity.Compare.{verdict_of, compare_parsed}
use zynum.Parity.Agreed.{Indexed}
use zynum.Parity.Verdict.{AtParity, compare_parsed-AtParity}
use zynum.Parity.Silent.{unless-true, in_both-silent}

only_in-empty :
    (items others : Indexed)
    → ((key : String) → has_key key items ≡ true → has_key key others ≡ true)
    → only_in items others ≡ []
only_in-empty [] others h = refl
only_in-empty ((k, a) ∷ items) others h =
    let here = h k (rw (same_refl {A = String} k) refl) in
    rw here (only_in-empty items others (λ key l. h key (ground (arith, l))))

unpaired_atoms-empty :
    (lefts rights : Indexed)
    → ((key : String) → has_key key lefts ≡ has_key key rights)
    → unpaired_atoms lefts rights ≡ []
unpaired_atoms-empty lefts rights h =
    let l = only_in-empty lefts rights (λ key k. sym (h key) ∙ k) in
    let r = only_in-empty rights lefts (λ key k. h key ∙ k) in rw l (rw r refl)

same_keys_refl : (ks : List SymbolKey) → same_keys ks ks ≡ true
same_keys_refl [] = refl
same_keys_refl (k ∷ ks) = rw (same_refl {A = SymbolKey} k) (same_keys_refl ks)

counts_equal_refl : (ks all : List SymbolKey) → counts_equal ks all all ≡ true
counts_equal_refl [] all = refl
counts_equal_refl (k ∷ ks) all =
    rw (eq→== (count k all) (count k all) refl) (counts_equal_refl ks all)

bind-returns {ℓ κ μ} :
    {E : Type μ} {A : Type ℓ} {B : Type κ} (first : Outcome E A) (next : A → Outcome E B) {a : A}
    → first ≡ ok a
    → (b : B) × (next a ≡ ok b)
    → (b : B) × ((first >>= next) ≡ ok b)
bind-returns first next h (b, k) = (b, ap (λ f. f >>= next) h ∙ k)

eq→same {ℓ} : {A : Type ℓ} ⦃e : Eq A⦄ {a b : A} → a ≡ b → same a b ≡ true
eq→same {a} h = subst (λ x. same a x ≡ true) h (same_refl a)

verdict_of-silent :
    (u e a o m d p : List String)
    → u ≡ []
    → e ≡ []
    → a ≡ []
    → o ≡ []
    → m ≡ []
    → d ≡ []
    → p ≡ []
    → verdict_of (distinct (u ++ (e ++ (a ++ (o ++ (m ++ (d ++ p))))))) ≡ "pass"
verdict_of-silent u e a o m d p hu he ha ho hm hd hp =
    rw hu (rw he (rw ha (rw ho (rw hm (rw hd (rw hp refl))))))

module _ (sha256 : List ℕ → String) (json_bytes : List CanonicalValue → List ℕ)
    (repr : SymbolKey → String) (cache_object : String → Option String) where
  compare_parsed-runs :
      (kind : String) (left right : Artifact) (left_axes right_axes : Items)
      → normalized_items left.structured_axes ≡ ok left_axes
      → normalized_items right.structured_axes ≡ ok right_axes
      → (c : Comparison) × (compare_parsed sha256 json_bytes repr cache_object kind left right
          ≡ ok c)
  unfolding compare_parsed
  compare_parsed-runs kind left right left_axes right_axes l r =
      bind-returns (normalized_items left.structured_axes) _ l
        (bind-returns (normalized_items right.structured_axes) _ r (_, refl))

  AtParity-passes :
      (kind : String) (left right : Artifact) (c : Comparison)
      → compare_parsed sha256 json_bytes repr cache_object kind left right ≡ ok c
      → AtParity sha256 json_bytes repr cache_object left right
      → c.verdict ≡ "pass"
  unfolding compare_parsed symbol_axes
  AtParity-passes kind left right c h p =
      let (left_axes, left_ok, h) = bind-ok (normalized_items left.structured_axes) _ h in
      let (right_axes, right_ok, h) = bind-ok (normalized_items right.structured_axes) _ h in
      let lefts = by_locator left.atoms in
      let rights = by_locator right.atoms in
      let same_left : p.left_axes ≡ left_axes = ok-value (sym p.left_normalized ∙ left_ok) in
      let same_right : p.right_axes ≡ right_axes = ok-value (sym p.right_normalized ∙ right_ok) in
      let axes : equal_dicts left_axes right_axes ≡ true =
        subst (λ x. equal_dicts x right_axes ≡ true) same_left
          (subst (λ y. equal_dicts p.left_axes y ≡ true) same_right p.axes) in
      let left_keys = map (comparison_key cache_object) left.symbols in
      let right_keys = map (comparison_key cache_object) right.symbols in
      let order : same_keys left_keys right_keys ≡ true =
        subst (λ ks. same_keys left_keys ks ≡ true) p.symbols (same_keys_refl left_keys) in
      let multisets : multisets_equal left_keys right_keys ≡ true =
        subst (λ ks. multisets_equal left_keys ks ≡ true) p.symbols
          (rw (counts_equal_refl left_keys left_keys) refl) in
      sym (ap (λ (x : Comparison). x.verdict) (ok-value h))
      ∙ verdict_of-silent _ _ _ _ _ _ _
          (ap unpaired_failures (unpaired_atoms-empty lefts rights p.paired))
          (in_both-silent sha256 lefts rights p.agreed) (unless-true _ _ axes)
          (unless-true _ _ order) (unless-true _ _ multisets) (unless-true _ _ (eq→same p.digests))
          (unless-true _ _ (eq→same p.provenance))

  -- The comparison of two artifacts returns with the verdict "pass" exactly if they are at parity:
  -- atoms stand at the same locators, those of a locator have equal roles and dependencies, an
  -- invariant payload is equal, a derived atom has an equal canonical payload and either an equal
  -- payload or a changed base, the axes can be normalized and are then equal, and so are the keys
  -- of the symbols in order, the canonical digests, and the kinds and names of the provenance.
  pub compare_parsed_lem :
      (kind : String) (left right : Artifact)
      → AtParity sha256 json_bytes repr cache_object left right ↔ (
          (c : Comparison) × (compare_parsed sha256 json_bytes repr cache_object kind left right
            ≡ ok c)
          × (c.verdict ≡ "pass"))
  compare_parsed_lem kind left right = (
    λ p.
        let (c, run) =
          compare_parsed-runs kind left right p.left_axes p.right_axes p.left_normalized
            p.right_normalized in
        (c, run, AtParity-passes kind left right c run p),
    λ (c, run, pass).
        compare_parsed-AtParity sha256 json_bytes repr cache_object kind left right c run pass,
  )
