-- ===== src/Fields/Cstring.antt =====
-- `_cstring` reads what stands before the first zero.
use mathlib.Core.List.{append_assoc}
use zynum.Prelude.{
  ℕ, zero, suc, ◌+◌, ◌-◌, ◌<◌, ◌≤◌, ◌≡◌, ◌↔◌, refl, sym, ap, subst, ◌∙◌, String, List, [], ◌∷◌,
  ◌++◌, Option, none, some, true, false, Bool-cases, inl, inr, ◌||◌, ◌==◌, ltb, arith, ltb→ge,
  ge→ltb, ne→==, ==→eq, ||-false, ok, length, take, drop, take-append-drop, drop_add, length-take,
  length-append, All,
}
use zynum.Fields.{until_zero, cstring}

-- No byte of the list is zero.
abbrev pub NonZero : List ℕ → Type 0
NonZero bytes = All (λ byte. byte ≡ 0 → ⊥) bytes

pub until_zero-append :
    (text rest : List ℕ) → NonZero text → until_zero (text ++ 0 ∷ rest) ≡ some text
until_zero-append [] rest h = refl
until_zero-append (b ∷ text) rest (here, h) =
    rw (ne→== b 0 here, until_zero-append text rest h) refl

-- What is found stands before a zero.
pub until_zero-some :
    (bytes text : List ℕ)
    → until_zero bytes ≡ some text
    → NonZero text × ((rest : List ℕ) × (bytes ≡ text ++ 0 ∷ rest))
until_zero-some [] text h = absurd (cc h)
until_zero-some (b ∷ bytes) text h = elim (Bool-cases (b == 0)) [
  | inl e ↦ at_zero e text h
  | inr e ↦ further e (λ found at. until_zero-some bytes found at) (until_zero bytes) refl
]
  where
    at_zero :
        b == 0 ≡ true
        → (text : List ℕ) → until_zero (b ∷ bytes) ≡ some text
        → NonZero text × ((rest : List ℕ) × (b ∷ bytes ≡ text ++ 0 ∷ rest))
    at_zero e [] h = (tt, (bytes, cc (==→eq b 0 e)))
    at_zero e (c ∷ text) h = absurd (ground (arith, e, h))

    further :
        b == 0 ≡ false
        → ((found : List ℕ)
            → until_zero bytes ≡ some found
            → NonZero found × ((rest : List ℕ) × (bytes ≡ found ++ 0 ∷ rest)))
        → (o : Option (List ℕ)) → until_zero bytes ≡ o
        → NonZero text × ((rest : List ℕ) × (b ∷ bytes ≡ text ++ 0 ∷ rest))
    further e shorter none at = absurd (ground (arith, e, h, at))
    further e shorter (some found) at =
        let p : b ∷ found ≡ text = ground (arith, e, h, at) in
        let (clean, (rest, q)) = shorter found at in
        subst (λ t. NonZero t × ((rest' : List ℕ) × (b ∷ bytes ≡ t ++ 0 ∷ rest'))) p
          (((λ z. absurd (ground (arith, e, z))), clean), (rest, cc q))

take-found :
    (text rest : List ℕ) (n : ℕ)
    → length text < n
    → (after : List ℕ) × (take n (text ++ 0 ∷ rest) ≡ text ++ 0 ∷ after)
take-found text rest zero h = absurd (omega arith)
take-found [] rest (suc n) h = (take n rest, refl)
take-found (b ∷ text) rest (suc n) h =
    let (after, e) = take-found text rest n (omega arith) in (after, cc e)

drop-append_zero : (text rest : List ℕ) → drop (suc (length text)) (text ++ 0 ∷ rest) ≡ rest
drop-append_zero [] rest = refl
drop-append_zero (b ∷ text) rest = drop-append_zero text rest

drop-found :
    (bytes text rest : List ℕ) (start : ℕ)
    → drop start bytes ≡ text ++ 0 ∷ rest
    → drop (suc (start + length text)) bytes ≡ rest
drop-found bytes text rest start h =
    drop_add bytes start (suc (length text)) (suc (start + length text)) (omega arith)
    ∙ (ap (drop (suc (length text))) h ∙ drop-append_zero text rest)

-- A text without a zero stands at the start, and a zero behind it, within the limit.
pub record IsTerminated (bytes : List ℕ) (start limit : ℕ) (text : List ℕ) (end : ℕ) : Type 0 where
  pub clean : NonZero text
  pub layout : drop start bytes ≡ text ++ 0 ∷ drop end bytes
  pub ends : end ≡ suc (start + length text)
  pub inside : end ≤ limit
  pub within : limit ≤ length bytes

-- What is found in the window is terminated.
found-IsTerminated :
    (bytes text : List ℕ) (start limit end : ℕ)
    → until_zero (take (limit - start) (drop start bytes)) ≡ some text
    → limit ≤ length bytes
    → end ≡ suc (start + length text)
    → IsTerminated bytes start limit text end
found-IsTerminated bytes text start limit end at h e =
    let (clean, (rest, q)) = until_zero-some (take (limit - start) (drop start bytes)) text at in
    let behind = drop (limit - start) (drop start bytes) in
    let whole : drop start bytes ≡ text ++ 0 ∷ (rest ++ behind) =
      sym (take-append-drop (limit - start) (drop start bytes))
      ∙ (ap (λ xs. xs ++ behind) q ∙ append_assoc text (0 ∷ rest) behind) in
    let later : drop end bytes ≡ rest ++ behind = rw e (drop-found bytes text _ start whole) in
    let size = ap length q in
    record {
      clean = clean;
      layout = whole ∙ cc later;
      ends = e;
      inside = omega (
        arith,
        e,
        size,
        length-take (limit - start) (drop start bytes),
        length-append text (0 ∷ rest),
      );
      within = h;
    }

-- `_cstring` returns a text and an end exactly if the text is terminated there.
pub cstring_lem :
    (bytes : List ℕ) (start limit : ℕ) (locator : String) (text : List ℕ) (end : ℕ)
    → (cstring bytes start limit locator ≡ ok (text, end)) ↔ IsTerminated bytes start limit text end
unfolding cstring
cstring_lem bytes start limit locator text end = (forward, backward)
  where
    found_text :
        ltb (length bytes) start ≡ false
        → (ltb limit start ≡ false) × (ltb (length bytes) limit ≡ false)
        → (o : Option (List ℕ)) → until_zero (take (limit - start) (drop start bytes)) ≡ o
        → cstring bytes start limit locator ≡ ok (text, end)
        → IsTerminated bytes start limit text end
    found_text a (b, c) none at h = absurd (ground (arith, a, b, c, h, at))
    found_text a (b, c) (some found) at h =
        let text_eq : found ≡ text = ground (arith, a, b, c, h, at) in
        let end_eq : suc (start + length found) ≡ end = ground (arith, a, b, c, h, at) in
        found-IsTerminated bytes text start limit end (at ∙ cc text_eq) (ltb→ge _ _ c)
          (sym end_eq ∙ cc text_eq)

    forward :
        cstring bytes start limit locator ≡ ok (text, end) → IsTerminated bytes start limit text end
    forward h = elim (Bool-cases (ltb (length bytes) start)) [
      | inl a ↦ absurd (ground (arith, a, h))
      | inr a ↦ elim (Bool-cases (ltb limit start || ltb (length bytes) limit)) [
        | inl b ↦ absurd (ground (arith, a, b, h))
        | inr b ↦
            found_text a (||-false _ _ b) (until_zero (take (limit - start) (drop start bytes)))
              refl h
      ]
    ]

    backward :
        IsTerminated bytes start limit text end → cstring bytes start limit locator ≡ ok (text, end)
    backward r =
        let (after, q) =
          take-found text (drop end bytes) (limit - start) (omega (arith, r.ends, r.inside)) in
        let at : until_zero (take (limit - start) (drop start bytes)) ≡ some text =
          ap (λ d. until_zero (take (limit - start) d)) r.layout
          ∙ (ap until_zero q ∙ until_zero-append text after r.clean) in
        rw
          (
            ge→ltb (length bytes) start (omega (arith, r.ends, r.inside, r.within)),
            ge→ltb limit start (omega (arith, r.ends, r.inside)),
            ge→ltb (length bytes) limit r.within,
            at,
          )
          (cc r.ends)
