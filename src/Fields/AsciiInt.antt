-- ===== src/Fields/AsciiInt.antt =====
-- The numeric fields of an archive header.
use native.Mathlib.Nat.{mod-lt}
use zynum.Prelude.{
  ℕ, zero, suc, ◌+◌, ◌-◌, ◌*◌, ◌/◌, ◌%◌, ◌^◌, ◌<◌, ◌≤◌, ◌≡◌, ◌⊎◌, refl, sym, ap, subst, ◌∙◌, String,
  List, [], ◌∷◌, ◌++◌, some, true, false, Bool-cases, inl, inr, ◌==◌, ltb, arith, if◌then◌else◌,
  ltb→lt, ltb→ge, ok, All, All-append, length, length-append, false, ◌&&◌,
}
use zynum.Fields.{rstrip, is_digit, all_digits, int_from, max_str_digits, is_empty, parse_ascii_int}

-- The digits of a number, the highest first, with at most so many.
unfoldable pub digits_of : ℕ → ℕ → ℕ → List ℕ
digits_of base zero n = []
digits_of base (suc count) n =
    let rest = digits_of base count (n / base) in
    if ltb n base then (48 + n) ∷ [] else rest ++ (48 + n % base) ∷ []

abbrev pub spaces : ℕ → List ℕ
spaces zero = []
spaces (suc n) = 32 ∷ spaces n

abbrev Digits : ℕ → List ℕ → Type 0
Digits base bytes = All (λ byte. (48 ≤ byte) × (byte < 48 + base)) bytes

rstrip-spaces : (n : ℕ) → rstrip 32 (spaces n) ≡ []
rstrip-spaces zero = refl
rstrip-spaces (suc n) = rw (rstrip-spaces n) refl

rstrip-append :
    (base n : ℕ) (bytes : List ℕ) → Digits base bytes → rstrip 32 (bytes ++ spaces n) ≡ bytes
rstrip-append base n [] h = rstrip-spaces n
rstrip-append base n (b ∷ []) ((low, high), h) = rw (rstrip-spaces n, rstrip) (ground arith)
rstrip-append base n (b ∷ c ∷ bytes) (_, h) = rw (rstrip-append base n (c ∷ bytes) h, rstrip) refl

Digits-all_digits : (base : ℕ) (bytes : List ℕ) → Digits base bytes → all_digits base bytes ≡ true
Digits-all_digits base [] h = refl
Digits-all_digits base (b ∷ bytes) ((low, high), h) =
    ground (arith, low, high, Digits-all_digits base bytes h)

int_from-snoc :
    (base value result d : ℕ) (bytes : List ℕ)
    → d < base
    → int_from base value bytes ≡ some result
    → int_from base value (bytes ++ (48 + d) ∷ []) ≡ some (result * base + d)
int_from-snoc base value result d [] h e =
    let same : value ≡ result = cc e in
    let digit : is_digit base (48 + d) ≡ true = ground arith in
    let off : 48 + d - 48 ≡ d = omega arith in rw (digit, off, same) refl
int_from-snoc base value result d (b ∷ bytes) h e = elim (Bool-cases (is_digit base b)) [
  | inl f ↦
      rw (f, int_from)
        (int_from-snoc base (value * base + (b - 48)) result d bytes h (ground (arith, e, f)))
  | inr f ↦ absurd (ground (arith, e, f))
]

-- The digits of a number are digits, and their number is the number.
digits_of-Digits : (base count n : ℕ) → 0 < base → Digits base (digits_of base count n)
unfolding digits_of
digits_of-Digits base zero n pos = tt
digits_of-Digits base (suc count) n pos = elim (Bool-cases (ltb n base)) [
  | inl e ↦ rw e ((omega arith, omega (arith, ltb→lt n base e)), tt)
  | inr e ↦ rw e (
      All-append _ (digits_of base count (n / base)) _ (digits_of-Digits base count (n / base) pos)
        ((omega arith, omega (arith, mod-lt n pos)), tt))
]

-- The bases of the fields.
abbrev pub IsBase : ℕ → Type 0
IsBase base = (base ≡ 10) ⊎ (base ≡ 8)

IsBase-positive : (base : ℕ) → IsBase base → 0 < base
IsBase-positive base (inl e) = omega arith
IsBase-positive base (inr e) = omega arith

shorter : (base count n : ℕ) → IsBase base → n < base ^ suc count → n / base < base ^ count
shorter base count n (inl e) h =
    subst (λ b. n < b ^ suc count → n / b < b ^ count) (sym e) (λ k. omega arith) h
shorter base count n (inr e) h =
    subst (λ b. n < b ^ suc count → n / b < b ^ count) (sym e) (λ k. omega arith) h

some_digit : (base count n : ℕ) → IsBase base → base ≤ n → n < base ^ suc count → 0 < count
some_digit base zero n k low h = absurd (too_small k)
  where
    too_small : IsBase base → ⊥
    too_small (inl e) = let small = subst (λ b. n < b ^ 1) e h in omega (arith, small, low, e)
    too_small (inr e) = let small = subst (λ b. n < b ^ 1) e h in omega (arith, small, low, e)
some_digit base (suc count) n k low h = omega arith

int_from-digits_of :
    (base count n : ℕ)
    → IsBase base
    → 0 < count
    → n < base ^ count
    → int_from base 0 (digits_of base count n) ≡ some n
unfolding digits_of
int_from-digits_of base zero n k left h = absurd (omega arith)
int_from-digits_of base (suc count) n k left h =
    let pos = IsBase-positive base k in
    elim (Bool-cases (ltb n base)) [
      | inl e ↦
          let digit : is_digit base (48 + n) ≡ true = ground (arith, ltb→lt n base e) in
          rw (e, digit) (ap some (omega arith))
      | inr e ↦ rw e (
          int_from-snoc base 0 (n / base) (n % base) (digits_of base count (n / base))
            (mod-lt n pos)
            (int_from-digits_of base count (n / base) k
              (some_digit base count n k (ltb→ge n base e) h) (shorter base count n k h))
          ∙ ap some (omega arith))
    ]

digits_of-filled : (base count n : ℕ) → 0 < count → is_empty (digits_of base count n) ≡ false
unfolding digits_of
digits_of-filled base zero n h = absurd (omega arith)
digits_of-filled base (suc count) n h = elim (Bool-cases (ltb n base)) [
  | inl e ↦ rw e refl
  | inr e ↦ rw e (filled (digits_of base count (n / base)))
]
  where
    filled : (bytes : List ℕ) → is_empty (bytes ++ (48 + n % base) ∷ []) ≡ false
    filled [] = refl
    filled (b ∷ bytes) = refl

allowed : (base : ℕ) → IsBase base → (if base == 10 then 10 else 8) ≡ base
allowed base (inl e) = ground (arith, e)
allowed base (inr e) = ground (arith, e)

length-digits_of : (base count n : ℕ) → length (digits_of base count n) ≤ count
unfolding digits_of
length-digits_of base zero n = omega arith
length-digits_of base (suc count) n = elim (Bool-cases (ltb n base)) [
  | inl e ↦ rw e (omega arith)
  | inr e ↦ rw e (
      omega (
        arith,
        length-append (digits_of base count (n / base)) ((48 + n % base) ∷ []),
        length-digits_of base count (n / base),
      ))
]

-- A number below `base ^ count`, written with up to so many digits and then spaces, is read as that
-- number; the base is 8, or it is 10 and the count is 4300 at most.
pub parse_ascii_int-digits_of :
    (base count n padding : ℕ) (locator : String)
    → ((base ≡ 10) × (count ≤ 4300)) ⊎ (base ≡ 8)
    → 0 < count
    → n < base ^ count
    → parse_ascii_int (digits_of base count n ++ spaces padding) base locator ≡ ok n
unfolding parse_ascii_int
parse_ascii_int-digits_of base count n padding locator bounded some_count h =
    let k : IsBase base = elim bounded [ inl (e, _) ↦ inl e | inr e ↦ inr e ] in
    let few : (base == 10 && ltb max_str_digits (length (digits_of base count n))) ≡ false =
      ground (arith, bounded, length-digits_of base count n) in
    let digits = digits_of-Digits base count n (IsBase-positive base k) in
    rw
      (
        rstrip-append base padding (digits_of base count n) digits,
        digits_of-filled base count n some_count,
        allowed base k,
        Digits-all_digits base (digits_of base count n) digits,
        few,
        int_from-digits_of base count n k some_count h,
      )
      refl
