-- ===== src/Parity/Silent.antt =====
-- The loop over the locators in tools/abi_artifact_parity.py says nothing of atoms that agree.
use zynum.Prelude.{
  ℕ, ◌≡◌, ◌⊎◌, refl, sym, ap, ◌∙◌, subst, inl, inr, String, ◌<>◌, Bool, true, false, ◌||◌, ◌&&◌,
  not, some, List, [], ◌∷◌, if◌then◌else◌, same, same→eq, same_refl, string_eq, same_list,
  same_list_refl, same_list-apart, Bool-cases, arith, All, sorted, get_item, has_key, sorted-All,
  has_key-get_item, ends_with,
}
use zynum.Atoms.Finish.{ByteAtom}
use zynum.Parity.Records.{shape_eq, texts_eq, payload_eq, symbol_key_eq}
use zynum.Parity.Pairing.{
  in_both, itself, allowed_bases, payloads_differ, any_changed, dependency_changed,
  changed_dependencies, is_filled, is_derived,
}
use zynum.Parity.Evidence.{
  Evidence, unless, allowed_edit, nothing_found, derived_evidence, compare_at, compare_atom,
  compare_locators,
}
use zynum.Parity.Agreed.{Indexed, HasItem, HasChangedBase, IsChangedBase, IsAgreed}

abbrev IsIn : String → List String → Type 0
IsIn name [] = ⊥
IsIn name (n ∷ names) = (n ≡ name) ⊎ IsIn name names

allowed_bases-IsIn :
    (items : Indexed) (dependency locator : String) (a : ByteAtom)
    → HasItem locator a items
    → a.role ≡ "allowed_payload"
    → ends_with locator dependency ≡ true
    → IsIn locator (allowed_bases items dependency)
allowed_bases-IsIn [] dependency locator a at role ends = absurd at
allowed_bases-IsIn ((k, b) ∷ items) dependency locator a (inl (key, atom)) role ends =
    let allowed : same b.role "allowed_payload" ≡ true =
      ap (λ (x : ByteAtom). same x.role "allowed_payload") atom
      ∙ ap (λ r. same r "allowed_payload") role
      ∙ same_refl {A = String} "allowed_payload" in
    let suffix : ends_with k dependency ≡ true = ap (λ n. ends_with n dependency) key ∙ ends in
    rw allowed (rw suffix (inl key))
allowed_bases-IsIn ((k, b) ∷ items) dependency locator a (inr at) role ends =
    let rest = allowed_bases-IsIn items dependency locator a at role ends in
    elim (Bool-cases (same b.role "allowed_payload" && ends_with k dependency)) [
      | inl e ↦ rw e (inr rest)
      | inr e ↦ rw e rest
    ]

any_changed-IsIn :
    (lefts rights : Indexed) (locator : String) (candidates : List String)
    → payloads_differ (get_item locator lefts) (get_item locator rights) ≡ true
    → IsIn locator candidates
    → any_changed lefts rights candidates ≡ true
any_changed-IsIn lefts rights locator [] differ at = absurd at
any_changed-IsIn lefts rights locator (c ∷ candidates) differ (inl e) =
    let here : payloads_differ (get_item c lefts) (get_item c rights) ≡ true =
      subst (λ k. payloads_differ (get_item k lefts) (get_item k rights) ≡ true) (sym e) differ in
    rw here refl
any_changed-IsIn lefts rights locator (c ∷ candidates) differ (inr at) =
    ground (arith, any_changed-IsIn lefts rights locator candidates differ at)

dependency_changed-IsChangedBase :
    (lefts rights : Indexed) (dependency : String)
    → IsChangedBase lefts rights dependency
    → dependency_changed lefts rights dependency ≡ true
dependency_changed-IsChangedBase lefts rights dependency c =
    let apart = same_list-apart c.left.payload c.right.payload c.differ in
    let differ : payloads_differ (get_item c.locator lefts) (get_item c.locator rights) ≡ true =
      rw c.left_at (rw c.right_at (rw apart refl)) in
    any_changed-IsIn lefts rights c.locator (dependency ∷ allowed_bases lefts dependency) differ
      (elim c.matches [
        | inl e ↦ inl (sym e)
        | inr (a, at, role, ends) ↦
            inr (allowed_bases-IsIn lefts dependency c.locator a at role ends)
      ])

changed_dependencies-filled :
    (lefts rights : Indexed) (ds : List String)
    → HasChangedBase lefts rights ds
    → is_filled (changed_dependencies lefts rights ds) ≡ true
changed_dependencies-filled lefts rights [] h = absurd h
changed_dependencies-filled lefts rights (d ∷ ds) (inl c) =
    rw (dependency_changed-IsChangedBase lefts rights d c) refl
changed_dependencies-filled lefts rights (d ∷ ds) (inr h) =
    elim (Bool-cases (dependency_changed lefts rights d)) [
      | inl e ↦ rw e refl
      | inr e ↦ rw e (changed_dependencies-filled lefts rights ds h)
    ]

pub unless-true : (test : Bool) (failure : String) → test ≡ true → unless test failure ≡ []
unless-true test failure h = rw h refl

rest-silent :
    (t d : Bool) (e f : Evidence)
    → e.failures ≡ []
    → (d ≡ true → f.failures ≡ [])
    → (if t then e else if d then f else nothing_found).failures ≡ []
rest-silent true d e f h k = h
rest-silent false true e f h k = k refl
rest-silent false false e f h k = refl

guarded-silent :
    (t u : Bool) (e f g : Evidence)
    → t ≡ false
    → u ≡ false
    → g.failures ≡ []
    → (if t then e else if u then f else g).failures ≡ []
guarded-silent true u e f g h k l = absurd (cc h)
guarded-silent false true e f g h k l = absurd (cc k)
guarded-silent false false e f g h k l = l

in_both-every :
    (P : String → Type 0) (items others : Indexed)
    → ((key : String) → has_key key items ≡ true → has_key key others ≡ true → P key)
    → All P (in_both items others)
in_both-every P [] others h = tt
in_both-every P ((k, a) ∷ items) others h =
    let rest = in_both-every P items others (λ key l r. h key (ground (arith, l)) r) in
    elim (Bool-cases (has_key k others)) [
      | inl e ↦ rw e (h k (rw (same_refl {A = String} k) refl) e, rest)
      | inr e ↦ rw e rest
    ]

module _ (sha256 : List ℕ → String) where
  derived_evidence-silent :
      (lefts rights : Indexed) (locator : String) (a b : ByteAtom)
      → (a.canonical_payload ≡ b.canonical_payload)
        × ((a.payload ≡ b.payload) ⊎ HasChangedBase lefts rights a.depends_on)
      → (derived_evidence sha256 locator a b
          (changed_dependencies lefts rights a.depends_on)).failures
        ≡ []
  unfolding derived_evidence
  derived_evidence-silent lefts rights locator a b (canonical, change) =
      let first : same a.canonical_payload b.canonical_payload ≡ true =
        ap (λ p. same a.canonical_payload p) (sym canonical) ∙ same_refl a.canonical_payload in
      unless-true _ _ (
        rw first (elim change [
          | inl p ↦
              let q : same_list a.payload b.payload ≡ true =
                ap (λ l. same_list a.payload l) (sym p) ∙ same_list_refl a.payload in
              rw q refl
          | inr h ↦
              let filled = changed_dependencies-filled lefts rights a.depends_on h in
              ground (arith, filled)
        ]))

  compare_atom-silent :
      (lefts rights : Indexed) (locator : String) (a b : ByteAtom)
      → IsAgreed lefts rights a b
      → (compare_atom sha256 lefts rights locator a b).failures ≡ []
  unfolding compare_atom
  compare_atom-silent lefts rights locator a b g =
      let role : same a.role b.role ≡ true =
        ap (λ r. same a.role r) (sym g.role_eq) ∙ same_refl a.role in
      let depends : same a.depends_on b.depends_on ≡ true =
        ap (λ r. same a.depends_on r) (sym g.depends_eq) ∙ same_refl a.depends_on in
      let rest =
        rest-silent (same a.role "allowed_payload") (is_derived a.role)
          (record nothing_found { allowed_edits = allowed_edit sha256 locator a b ∷ [] })
          (derived_evidence sha256 locator a b (changed_dependencies lefts rights a.depends_on))
          refl (λ d. derived_evidence-silent lefts rights locator a b (g.derived d)) in
      let contract : not (same a.role b.role) || not (same a.depends_on b.depends_on) ≡ false =
        rw role (rw depends refl) in
      let kept : same a.role "invariant" && not (same_list a.payload b.payload) ≡ false =
        elim (Bool-cases (same a.role "invariant")) [
          | inl e ↦
              let p : same_list a.payload b.payload ≡ true =
                ap (λ l. same_list a.payload l) (sym (g.invariant (same→eq a.role "invariant" e)))
                ∙ same_list_refl a.payload in
              rw p (ground arith)
          | inr e ↦ rw e refl
        ] in
      guarded-silent (not (same a.role b.role) || not (same a.depends_on b.depends_on))
        (same a.role "invariant" && not (same_list a.payload b.payload))
        (record nothing_found { failures = ("atom contract differs at " <> locator) ∷ [] })
        (record nothing_found { failures = ("invariant atom differs: " <> locator) ∷ [] })
        (if same a.role "allowed_payload"
          then record nothing_found { allowed_edits = allowed_edit sha256 locator a b ∷ [] }
          else if is_derived a.role
          then derived_evidence sha256 locator a b (changed_dependencies lefts rights a.depends_on)
          else nothing_found)
        contract kept rest

  compare_locators-silent :
      (lefts rights : Indexed) (locators : List String)
      → All (λ l. (compare_at sha256 lefts rights l).failures ≡ []) locators
      → (compare_locators sha256 lefts rights locators).failures ≡ []
  unfolding compare_locators
  compare_locators-silent lefts rights [] all = refl
  compare_locators-silent lefts rights (l ∷ locators) (here, all) =
      let rest = compare_locators-silent lefts rights locators all in rw here rest

  pub in_both-silent :
      (lefts rights : Indexed)
      → ((locator : String) (a b : ByteAtom)
          → get_item locator lefts ≡ some a
          → get_item locator rights ≡ some b
          → IsAgreed lefts rights a b)
      → (compare_locators sha256 lefts rights (sorted itself (in_both lefts rights))).failures ≡ []
  in_both-silent lefts rights agreed =
      compare_locators-silent lefts rights (sorted itself (in_both lefts rights)) (
        sorted-All (λ k. (compare_at sha256 lefts rights k).failures ≡ []) itself
          (in_both lefts rights)
          (in_both-every _ lefts rights (λ k l r.
            let (a, left_at) = has_key-get_item k lefts l in
            let (b, right_at) = has_key-get_item k rights r in
            let silent = compare_atom-silent lefts rights k a b (agreed k a b left_at right_at) in
            let here : (compare_at sha256 lefts rights k).failures ≡ [] =
              rw (left_at, compare_at) (rw right_at silent) in
            here)))
