-- ===== src/Members/Accepted.antt =====
-- Which listings are accepted.
use zynum.Prelude.{
  ℕ, ◌≡◌, ◌↔◌, ◌⊎◌, refl, false, Bool-cases, inl, inr, List, [], ◌∷◌, arith, ||-false, same_list,
  same_list-differ, same_list-apart, Outcome, ok, err, ◌>>=◌, All,
}
use zynum.Members.{
  MemberError, is_forbidden, any_forbidden, starts_as_option, is_unsafe, is_seen, require_names,
  member_names,
}

-- Neither `/` nor `\`, and none of NUL, CR and tab.
pub record IsPlain (c : ℕ) : Type 0 where
  pub no_slash : c ≡ 47 → ⊥
  pub no_backslash : c ≡ 92 → ⊥
  pub no_nul : c ≡ 0 → ⊥
  pub no_return : c ≡ 13 → ⊥
  pub no_tab : c ≡ 9 → ⊥

is_forbidden-IsPlain : (c : ℕ) → (is_forbidden c ≡ false) ↔ IsPlain c
is_forbidden-IsPlain c = (
  (λ h. record {
    no_slash = λ e. ground (arith, h, e);
    no_backslash = λ e. ground (arith, h, e);
    no_nul = λ e. ground (arith, h, e);
    no_return = λ e. ground (arith, h, e);
    no_tab = λ e. ground (arith, h, e);
  }),
  (λ p. ground (arith, p.no_slash, p.no_backslash, p.no_nul, p.no_return, p.no_tab)),
)

-- A file name of one component that is no option and no response file.
pub record IsSafe (name : List ℕ) : Type 0 where
  pub not_empty : name ≡ [] → ⊥
  pub not_here : name ≡ 46 ∷ [] → ⊥
  pub not_above : name ≡ 46 ∷ 46 ∷ [] → ⊥
  pub no_option : (rest : List ℕ) → name ≡ 45 ∷ rest → ⊥
  pub no_response : (rest : List ℕ) → name ≡ 64 ∷ rest → ⊥
  pub plain : All IsPlain name

-- The names that have passed are safe, new and different.
abbrev pub Passed : List (List ℕ) → List (List ℕ) → Type 0
Passed seen [] = Unit {0}
Passed seen (name ∷ names) =
    IsSafe name × (All (λ s. s ≡ name → ⊥) seen × Passed (name ∷ seen) names)

any_forbidden-All : (name : List ℕ) → (any_forbidden name ≡ false) ↔ All IsPlain name
any_forbidden-All [] = ((λ h. tt), (λ h. refl))
any_forbidden-All (c ∷ cs) =
    let (forward, backward) = any_forbidden-All cs in
    (
      (λ h.
          let (a, b) = ||-false (is_forbidden c) (any_forbidden cs) h in
          ((is_forbidden-IsPlain c).0 a, forward b)),
      (λ (a, b). rw ((is_forbidden-IsPlain c).1 a, backward b) refl),
    )

is_seen-All :
    (name : List ℕ) (seen : List (List ℕ))
    → (is_seen name seen ≡ false) ↔ All (λ s. s ≡ name → ⊥) seen
is_seen-All name [] = ((λ h. tt), (λ h. refl))
is_seen-All name (s ∷ seen) =
    let (forward, backward) = is_seen-All name seen in
    (
      (λ h.
          let (a, b) = ||-false (same_list s name) (is_seen name seen) h in
          (same_list-differ s name a, forward b)),
      (λ (a, b). rw (same_list-apart s name a, backward b) refl),
    )

option_head :
    (name : List ℕ) (c : ℕ) (rest : List ℕ)
    → starts_as_option name ≡ false
    → (c ≡ 45) ⊎ (c ≡ 64)
    → name ≡ c ∷ rest
    → ⊥
option_head [] c rest h k e = absurd (cc e)
option_head (d ∷ name) c rest h k e = let head : d ≡ c = cc e in ground (arith, h, k, head)

no_option_head :
    (name : List ℕ)
    → ((rest : List ℕ) → name ≡ 45 ∷ rest → ⊥)
    → ((rest : List ℕ) → name ≡ 64 ∷ rest → ⊥)
    → starts_as_option name ≡ false
no_option_head [] h k = refl
no_option_head (d ∷ name) h k =
    let dash : d ≡ 45 → ⊥ = λ e. h name (cc e) in
    let at : d ≡ 64 → ⊥ = λ e. k name (cc e) in ground (arith, dash, at)

is_unsafe-IsSafe : (name : List ℕ) → (is_unsafe name ≡ false) ↔ IsSafe name
is_unsafe-IsSafe name = (
  (λ h.
      let (a, h1) = ||-false _ _ h in
      let (b, h2) = ||-false _ _ h1 in
      let (c, h3) = ||-false _ _ h2 in
      let (d, e) = ||-false _ _ h3 in
      record {
        not_empty = same_list-differ name [] a;
        not_here = same_list-differ name (46 ∷ []) b;
        not_above = same_list-differ name (46 ∷ 46 ∷ []) c;
        no_option = λ rest. option_head name 45 rest d (inl refl);
        no_response = λ rest. option_head name 64 rest d (inr refl);
        plain = (any_forbidden-All name).0 e;
      }),
  (λ s.
      rw
        (
          same_list-apart name [] s.not_empty,
          same_list-apart name (46 ∷ []) s.not_here,
          same_list-apart name (46 ∷ 46 ∷ []) s.not_above,
          no_option_head name s.no_option s.no_response,
          (any_forbidden-All name).1 s.plain,
        )
        refl),
)

require_names-Passed :
    (seen names : List (List ℕ)) → (require_names seen names ≡ ok tt) ↔ Passed seen names
unfolding require_names
require_names-Passed seen [] = ((λ h. tt), (λ h. refl))
require_names-Passed seen (name ∷ names) =
    let (forward, backward) = require_names-Passed (name ∷ seen) names in
    (
      (λ h. elim (Bool-cases (is_unsafe name)) [
        | inl e ↦ absurd (ground (arith, e, h))
        | inr e ↦ elim (Bool-cases (is_seen name seen)) [
          | inl f ↦ absurd (ground (arith, e, f, h))
          | inr f ↦ (
            (is_unsafe-IsSafe name).0 e,
            ((is_seen-All name seen).0 f, forward (ground (arith, e, f, h))),
          )
        ]
      ]),
      (λ (safe, (new, rest)).
          rw ((is_unsafe-IsSafe name).1 safe, (is_seen-All name seen).1 new) (backward rest)),
    )

-- The names of a listing are returned exactly if each of them is safe and differs from those before it.
-- A safe name is neither empty nor `.` or `..`, starts with neither `-` nor `@`, and has no slash,
-- backslash, NUL, carriage return or tab.
pub member_names_lem : (names : List (List ℕ)) → (member_names names ≡ ok names) ↔ Passed [] names
unfolding member_names
member_names_lem names =
    let (forward, backward) = require_names-Passed [] names in
    ((λ h. forward (returned (require_names [] names) h)), (λ h. rw (backward h) refl))
  where
    returned : (r : Outcome MemberError (Unit {0})) → (r >>= λ _. ok names) ≡ ok names → r ≡ ok tt
    returned (ok tt) h = refl
    returned (err e) h = absurd (cc h)
