-- ===== src/Parity/Agreed.antt =====
-- What the comparison of tools/abi_artifact_parity.py knows of two atoms that it accepts.
use zynum.Prelude.{
  ℕ, ◌≡◌, ◌≢◌, ◌⊎◌, refl, ap, ◌∙◌, inl, inr, String, Bool, true, false, ◌||◌, ◌&&◌, not, Option,
  none, some, List, [], ◌∷◌, ◌++◌, same, same→eq, same_refl, string_eq, String-discrete, same_list,
  same_list→eq, same_list-differ, Bool-cases, &&-true, ||-false, not-false, arith, All, ends_with,
  get_item, distinct,
}
use zynum.Atoms.Finish.{ByteAtom}
use zynum.Parity.Records.{texts_eq, payload_eq, shape_eq, symbol_key_eq}
use zynum.Parity.Pairing.{
  allowed_bases, payloads_differ, any_changed, dependency_changed, changed_dependencies, is_filled,
  is_derived,
}
use zynum.Parity.Evidence.{unless, derived_evidence, compare_atom}
use zynum.Parity.Compare.{verdict_of}

abbrev pub Indexed : Type 0
Indexed = List (String × ByteAtom)

abbrev pub HasItem : String → ByteAtom → Indexed → Type 0
HasItem key a [] = ⊥
HasItem key a ((k, b) ∷ items) = ((k ≡ key) × (b ≡ a)) ⊎ HasItem key a items

-- A payload that a derived atom may depend on has changed: it is at the dependency, or at the locator
-- of an allowed payload that ends with it.
pub record IsChangedBase (lefts rights : Indexed) (dependency : String) : Type 0 where
  pub locator : String
  pub left : ByteAtom
  pub right : ByteAtom
  pub left_at : get_item locator lefts ≡ some left
  pub right_at : get_item locator rights ≡ some right
  pub differ : left.payload ≢ right.payload
  pub matches :
      (locator ≡ dependency)
      ⊎ ((a : ByteAtom) × HasItem locator a lefts
          × (a.role ≡ "allowed_payload")
          × (ends_with locator dependency ≡ true))

abbrev pub HasChangedBase : Indexed → Indexed → List String → Type 0
HasChangedBase lefts rights [] = ⊥
HasChangedBase lefts rights (d ∷ ds) = IsChangedBase lefts rights d ⊎ HasChangedBase lefts rights ds

-- Two atoms of a locator that may stand for each other.
pub record IsAgreed (lefts rights : Indexed) (left right : ByteAtom) : Type 0 where
  pub role_eq : left.role ≡ right.role
  pub depends_eq : left.depends_on ≡ right.depends_on
  pub invariant : left.role ≡ "invariant" → left.payload ≡ right.payload
  pub derived :
      is_derived left.role ≡ true
      → (left.canonical_payload ≡ right.canonical_payload)
        × ((left.payload ≡ right.payload) ⊎ HasChangedBase lefts rights left.depends_on)

pub ++-empty : {A : Type 0} (xs ys : List A) → (xs ++ ys) ≡ [] → (xs ≡ []) × (ys ≡ [])
++-empty [] ys h = (refl, h)
++-empty (x ∷ xs) ys h = absurd (cc h)

pub distinct-empty : (xs : List String) → distinct xs ≡ [] → xs ≡ []
distinct-empty [] h = refl
distinct-empty (x ∷ xs) h = absurd (cc h)

pub unless-empty : (test : Bool) (failure : String) → unless test failure ≡ [] → test ≡ true
unless-empty true failure h = refl
unless-empty false failure h = absurd (cc h)

pub verdict_of-pass : (failures : List String) → verdict_of failures ≡ "pass" → failures ≡ []
unfolding String-discrete
verdict_of-pass [] h = refl
verdict_of-pass (f ∷ failures) h =
    let wrong : false ≡ true = ap (λ s. same s "pass") h in absurd (cc wrong)

-- The candidates for a changed base of a dependency.
abbrev IsCandidate : Indexed → String → String → Type 0
IsCandidate lefts dependency locator =
    (locator ≡ dependency)
    ⊎ ((a : ByteAtom) × HasItem locator a lefts
        × (a.role ≡ "allowed_payload")
        × (ends_with locator dependency ≡ true))

pub All-imp :
    {A : Type 0} {P Q : A → Type 0} (xs : List A) → ((x : A) → P x → Q x) → All P xs → All Q xs
All-imp [] f h = tt
All-imp (x ∷ xs) f (p, h) = (f x p, All-imp xs f h)

allowed_bases-All :
    (items : Indexed) (dependency : String)
    → All
        (λ k.
          (a : ByteAtom) × HasItem k a items
          × (a.role ≡ "allowed_payload")
          × (ends_with k dependency ≡ true))
        (allowed_bases items dependency)
allowed_bases-All [] dependency = tt
allowed_bases-All ((k, a) ∷ items) dependency =
    let rest =
      All-imp (allowed_bases items dependency) (λ l (b, at, role, ends). (b, inr at, role, ends))
        (allowed_bases-All items dependency) in
    elim (Bool-cases (same a.role "allowed_payload" && ends_with k dependency)) [
      | inl e ↦
          let (role, ends) = &&-true _ _ e in
          rw e ((a, inl (refl, refl), same→eq a.role "allowed_payload" role, ends), rest)
      | inr e ↦ rw e rest
    ]

payloads_differ-true :
    (left right : Option ByteAtom)
    → payloads_differ left right ≡ true
    → (a : ByteAtom) × (b : ByteAtom) × (left ≡ some a) × (right ≡ some b) × (a.payload ≢ b.payload)
payloads_differ-true (some a) (some b) h =
    (a, b, refl, refl, same_list-differ a.payload b.payload (ground (arith, h)))
payloads_differ-true none right h = absurd (cc h)
payloads_differ-true (some a) none h = absurd (cc h)

any_changed-IsChangedBase :
    (lefts rights : Indexed) (dependency : String) (candidates : List String)
    → All (IsCandidate lefts dependency) candidates
    → any_changed lefts rights candidates ≡ true
    → IsChangedBase lefts rights dependency
any_changed-IsChangedBase lefts rights dependency [] all h = absurd (cc h)
any_changed-IsChangedBase lefts rights dependency (c ∷ candidates) (here, all) h =
    elim (Bool-cases (payloads_differ (get_item c lefts) (get_item c rights))) [
      | inl e ↦
          let (a, b, left_at, right_at, differ) = payloads_differ-true _ _ e in
          record {
            locator = c;
            left = a;
            right = b;
            left_at = left_at;
            right_at = right_at;
            differ = differ;
            matches = here;
          }
      | inr e ↦
          any_changed-IsChangedBase lefts rights dependency candidates all (ground (arith, e, h))
    ]

changed_dependencies-HasChangedBase :
    (lefts rights : Indexed) (ds : List String)
    → is_filled (changed_dependencies lefts rights ds) ≡ true
    → HasChangedBase lefts rights ds
changed_dependencies-HasChangedBase lefts rights [] h = absurd (cc h)
changed_dependencies-HasChangedBase lefts rights (d ∷ ds) h =
    elim (Bool-cases (dependency_changed lefts rights d)) [
      | inl e ↦ inl (
          any_changed-IsChangedBase lefts rights d (d ∷ allowed_bases lefts d)
            (inl refl, All-imp (allowed_bases lefts d) (λ l h. inr h) (allowed_bases-All lefts d))
            e)
      | inr e ↦
          let further : is_filled (changed_dependencies lefts rights ds) ≡ true =
            ground (arith, e, h) in
          inr (changed_dependencies-HasChangedBase lefts rights ds further)
    ]

module _ (sha256 : List ℕ → String) where
  derived_evidence-agrees :
      (lefts rights : Indexed) (locator : String) (a b : ByteAtom)
      → (derived_evidence sha256 locator a b
          (changed_dependencies lefts rights a.depends_on)).failures
        ≡ []
      → (a.canonical_payload ≡ b.canonical_payload)
        × ((a.payload ≡ b.payload) ⊎ HasChangedBase lefts rights a.depends_on)
  unfolding derived_evidence
  derived_evidence-agrees lefts rights locator a b h =
      let (canonical, change) = &&-true _ _ (unless-empty _ _ h) in
      (
        same→eq a.canonical_payload b.canonical_payload canonical,
        elim (Bool-cases (same_list a.payload b.payload)) [
          | inl e ↦ inl (same_list→eq a.payload b.payload e)
          | inr e ↦ inr (
              changed_dependencies-HasChangedBase lefts rights a.depends_on
                (ground (arith, e, change)))
        ],
      )

  -- An allowed payload is not derived.
  allowed-not_derived : (role : String) → role ≡ "allowed_payload" → is_derived role ≡ false
  unfolding String-discrete
  allowed-not_derived role h = ap is_derived h

  -- Atoms of which a round says nothing.
  pub compare_atom-IsAgreed :
      (lefts rights : Indexed) (locator : String) (a b : ByteAtom)
      → (compare_atom sha256 lefts rights locator a b).failures ≡ []
      → IsAgreed lefts rights a b
  unfolding compare_atom
  compare_atom-IsAgreed lefts rights locator a b h =
      elim (Bool-cases (not (same a.role b.role) || not (same a.depends_on b.depends_on))) [
        | inl e ↦ let k = rw e at h in absurd (cc k)
        | inr e ↦
            let k = rw e at h in
            let (role, depends) = ||-false _ _ e in
            elim (Bool-cases (same a.role "invariant" && not (same_list a.payload b.payload))) [
              | inl f ↦ let k = rw f at k in absurd (cc k)
              | inr f ↦
                  let k = rw f at k in
                  record {
                    role_eq = same→eq a.role b.role (not-false _ role);
                    depends_eq = same→eq a.depends_on b.depends_on (not-false _ depends);
                    invariant = λ r. same_list→eq a.payload b.payload (
                        let t : same a.role "invariant" ≡ true =
                          ap (λ x. same x "invariant") r ∙ same_refl {A = String} "invariant" in
                        ground (arith, f, t));
                    derived = λ d. elim (Bool-cases (same a.role "allowed_payload")) [
                      | inl g ↦
                          let not_derived =
                            allowed-not_derived a.role (same→eq a.role "allowed_payload" g) in
                          absurd (cc (not_derived, d))
                      | inr g ↦
                          let k = rw g at k in
                          let k = rw d at k in derived_evidence-agrees lefts rights locator a b k
                    ];
                  }
            ]
      ]
