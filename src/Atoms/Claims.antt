-- ===== src/Atoms/Claims.antt =====
-- `_AtomBuilder.add` as the parsers see it: a claim that was accepted.
use zynum.Prelude.{
  ℕ, ◌+◌, ◌≤◌, ◌<◌, ◌≡◌, refl, sym, ap, subst, ◌∙◌, arith, String, Bool, true, false, ltb, leb,
  ltb→lt, ltb→ge, Bool-cases, ◌⊎◌, inl, inr, ◌&&◌, if◌then◌else◌, Option, none, some, ok, length,
}
use zynum.Prelude.Int.{pos}
use zynum.Atoms.{Metadata, AtomBuilder, add}
use zynum.Atoms.Put.{assign}
use zynum.Atoms.Commit.{IsValid, assigned}
use zynum.Atoms.Add.{stamped}
use zynum.Atoms.Permit.{Permits}
use zynum.Atoms.AddLaws.{Accepted, nothing, claimed, Explained, add-Explained}

-- The builder after a claim of `size` bytes from `start` on, which may be none.
pub record IsClaimed (b b' : AtomBuilder) (start size : ℕ) (given : Metadata) (replace : Bool)
    : Type 0 where
  pub valid : IsValid b'
  pub bytes : b'.bytes ≡ b.bytes
  pub prefix : b'.prefix ≡ b.prefix
  pub inside : 0 < size → start + size ≤ length b.bytes
  pub permitted : 0 < size → Permits b start (start + size) replace
  pub values :
      (i : ℕ) → assigned b' i ≡ assign (assigned b) start (start + size) (stamped b given) i

pos_eq : (a b : ℕ) → pos a ≡ pos b → a ≡ b
pos_eq a b h = cc h

of_Accepted :
    (b b' : AtomBuilder) (start size : ℕ) (given : Metadata) (replace : Bool)
    → IsValid b
    → Accepted b (pos start) (pos size) given replace b'
    → IsClaimed b b' start size given replace
of_Accepted b b' start size given replace v (nothing void same) =
    let empty : size ≡ 0 = pos_eq size 0 void in
    record {
      valid = subst (λ c. IsValid c) (sym same) v;
      bytes = ap (λ (c : AtomBuilder). c.bytes) same;
      prefix = ap (λ (c : AtomBuilder). c.prefix) same;
      inside = λ h. absurd (omega arith);
      permitted = λ h. absurd (omega arith);
      values = λ i. ap (λ c. assigned c i) same ∙ ground (arith, empty);
    }
of_Accepted b b' start size given replace v (claimed s n e f positive fits room permitted a) =
    let at : s ≡ start = sym (pos_eq start s e) in
    let long : n ≡ size = sym (pos_eq size n f) in
    record {
      valid = a.valid;
      bytes = a.bytes;
      prefix = a.prefix;
      inside = λ h. omega (arith, fits, at, long);
      permitted = λ h.
          subst (λ m. Permits b start (start + m) replace) long
            (subst (λ t. Permits b t (t + n) replace) at permitted);
      values = λ i. a.values i ∙ cc (at, long);
    }

-- A claim that `add` accepts on a valid builder.
pub add-IsClaimed :
    (b b' : AtomBuilder) (start size : ℕ) (given : Metadata) (replace : Bool)
    → IsValid b
    → add b (pos start) (pos size) given replace ≡ ok b'
    → IsClaimed b b' start size given replace
add-IsClaimed b b' start size given replace v h = of_Accepted b b' start size given replace v (
    subst (λ r. Explained b (pos start) (pos size) given replace r) h
      (add-Explained b (pos start) (pos size) given replace v))

-- The role of the atom that has a byte.
abbrev pub role_of : Option Metadata → Option String
role_of none = none
role_of (some m) = some m.role

abbrev pub role_at : AtomBuilder → ℕ → Option String
role_at b i = role_of (assigned b i)

pub IsClaimed-role :
    (b b' : AtomBuilder) (start size : ℕ) (given : Metadata) (replace : Bool)
    → IsClaimed b b' start size given replace
    → (i : ℕ)
    → role_at b' i ≡ (if leb start i && ltb i (start + size) then some given.role else role_at b i)
IsClaimed-role b b' start size given replace c i =
    ap role_of (c.values i) ∙ split (leb start i && ltb i (start + size))
  where
    split :
        (t : Bool)
        → role_of (if t then some (stamped b given) else assigned b i)
          ≡ (if t then some given.role else role_at b i)
    split true = refl
    split false = refl

-- The bytes from `low` up to `high` are claimed, and nothing else has changed.
pub record IsExtended (b b' : AtomBuilder) (low high : ℕ) : Type 0 where
  pub valid : IsValid b'
  pub bytes : b'.bytes ≡ b.bytes
  pub inside : (i : ℕ) → low ≤ i → i < high → (r : String) × (role_at b' i ≡ some r)
  pub outside : (i : ℕ) → (i < low) ⊎ (high ≤ i) → role_at b' i ≡ role_at b i

pub IsClaimed-IsExtended :
    (b b' : AtomBuilder) (start size : ℕ) (given : Metadata) (replace : Bool)
    → IsClaimed b b' start size given replace
    → IsExtended b b' start (start + size)
IsClaimed-IsExtended b b' start size given replace c = record {
  valid = c.valid;
  bytes = c.bytes;
  inside =
      λ i low high. (given.role, ground (arith, IsClaimed-role b b' start size given replace c i));
  outside = λ i out. ground (arith, IsClaimed-role b b' start size given replace c i, out);
}

pub IsExtended-none : (b : AtomBuilder) (low : ℕ) → IsValid b → IsExtended b b low low
IsExtended-none b low v = record {
  valid = v;
  bytes = refl;
  inside = λ i l h. absurd (omega arith);
  outside = λ i out. refl;
}

-- Claims side by side.
pub IsExtended-join :
    (b b1 b2 : AtomBuilder) (low middle high : ℕ)
    → IsExtended b b1 low middle
    → IsExtended b1 b2 middle high
    → low ≤ middle
    → middle ≤ high
    → IsExtended b b2 low high
IsExtended-join b b1 b2 low middle high e f h k = record {
  valid = f.valid;
  bytes = f.bytes ∙ e.bytes;
  inside = λ i l r. elim (Bool-cases (ltb i middle)) [
    | inl t ↦
        let (role, at) = e.inside i l (ltb→lt i middle t) in
        (role, f.outside i (inl (ltb→lt i middle t)) ∙ at)
    | inr t ↦ f.inside i (ltb→ge i middle t) r
  ];
  outside = λ i out. elim out [
    | inl less ↦ f.outside i (inl (omega arith)) ∙ e.outside i (inl less)
    | inr more ↦ f.outside i (inr more) ∙ e.outside i (inr (omega arith))
  ];
}

-- A claim that `add` accepts extends what is claimed.
pub add-IsExtended :
    (b b' : AtomBuilder) (start size : ℕ) (given : Metadata) (replace : Bool)
    → IsValid b
    → add b (pos start) (pos size) given replace ≡ ok b'
    → IsExtended b b' start (start + size)
add-IsExtended b b' start size given replace v h =
    IsClaimed-IsExtended b b' start size given replace
      (add-IsClaimed b b' start size given replace v h)
