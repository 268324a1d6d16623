-- ===== src/Schedule/Labels.antt =====
-- Which labels of libraries are accepted.
use zynum.Prelude.{
  ◌≡◌, refl, List, [], ◌∷◌, map, arith, ◌↔◌, String, false, same, string_eq, Bool-cases, inl, inr,
  Option, none, some, ok,
}
use zynum.Schedule.{get, validate_labels, validate_unique_library_labels}

-- No text of the list is this one.
abbrev pub IsNew : String → List String → Type 0
IsNew s [] = Unit {0}
IsNew s (t ∷ ts) = (same s t ≡ false) × IsNew s ts

-- No two texts of the list are equal.
abbrev pub AllDiffer : List String → Type 0
AllDiffer [] = Unit {0}
AllDiffer (t ∷ ts) = IsNew t ts × AllDiffer ts

module _ (normalized_library_label : String → String) where
  abbrev Unseen : List (String × String) → List String → Type 0
  Unseen seen [] = Unit {0}
  Unseen seen (l ∷ ls) =
      (get (normalized_library_label) (normalized_library_label l) seen ≡ none) × Unseen seen ls

  Unseen-nothing : (labels : List String) → Unseen [] labels
  Unseen-nothing [] = tt
  Unseen-nothing (l ∷ ls) = (refl, Unseen-nothing ls)

  -- A further label is seen.
  Unseen-cons :
      (key label : String) (seen : List (String × String)) (labels : List String)
      → Unseen ((key, label) ∷ seen) labels
        ↔ (IsNew key (map normalized_library_label labels) × Unseen seen labels)
  Unseen-cons key label seen [] = ((λ h. (tt, tt)), (λ h. tt))
  Unseen-cons key label seen (l ∷ ls) =
      let (forward, backward) = Unseen-cons key label seen ls in
      (
        (λ (h, hs).
            let (news, rest) = forward hs in
            elim (Bool-cases (same key (normalized_library_label l))) [
              | inl e ↦ absurd (ground (arith, h, e))
              | inr e ↦ ((e, news), (ground (arith, h, e), rest))
            ]),
        (λ ((e, news), (h, hs)). (rw e h, backward (news, hs))),
      )

  validate_labels_lem :
      (seen : List (String × String)) (labels : List String)
      → (validate_labels normalized_library_label seen labels ≡ ok tt)
        ↔ (AllDiffer (map normalized_library_label labels) × Unseen seen labels)
  unfolding validate_labels
  validate_labels_lem seen [] = ((λ h. (tt, tt)), (λ h. refl))
  validate_labels_lem seen (l ∷ ls) =
      let key = normalized_library_label l in
      let (forward, backward) = validate_labels_lem ((key, l) ∷ seen) ls in
      (
        (λ h. taken_apart forward (get normalized_library_label key seen) refl h),
        (λ ((news, differ), (h, hs)).
            rw (h, validate_labels) (backward (differ, (Unseen-cons key l seen ls).1 (news, hs)))),
      )
    where
      taken_apart :
          (validate_labels normalized_library_label ((normalized_library_label l, l) ∷ seen) ls
              ≡ ok tt
            → AllDiffer (map normalized_library_label ls)
              × Unseen ((normalized_library_label l, l) ∷ seen) ls)
          → (found : Option String)
          → get normalized_library_label (normalized_library_label l) seen ≡ found
          → validate_labels normalized_library_label seen (l ∷ ls) ≡ ok tt
          → AllDiffer (map normalized_library_label (l ∷ ls)) × Unseen seen (l ∷ ls)
      taken_apart forward (some label) e h = absurd (cc (e, h))
      taken_apart forward none e h =
          let (differ, unseen) = forward (ground (arith, e, h)) in
          let (news, rest) = (Unseen-cons (normalized_library_label l) l seen ls).0 unseen in
          ((news, differ), (e, rest))

  -- Labels are accepted exactly if no two of them have the same normal form.
  pub validate_unique_library_labels_lem :
      (labels : List String)
      → (validate_unique_library_labels normalized_library_label labels ≡ ok tt)
        ↔ AllDiffer (map normalized_library_label labels)
  unfolding validate_unique_library_labels
  validate_unique_library_labels_lem labels =
      let (forward, backward) = validate_labels_lem [] labels in
      ((λ h. (forward h).0), (λ h. backward (h, Unseen-nothing labels)))
