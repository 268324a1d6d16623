-- ===== src/Fields/Canonical.antt =====
-- What `_uleb` has read is the shortest encoding of the value that it returns.
use zynum.Prelude.{
  ℕ, zero, suc, ◌+◌, ◌*◌, ◌/◌, ◌%◌, ◌^◌, ◌<◌, ◌≤◌, ◌≡◌, ◌↔◌, refl, sym, ap, ◌∙◌, String, List, [],
  ◌∷◌, ◌++◌, Bool, true, false, Bool-cases, inl, inr, ltb, arith, if◌then◌else◌, ltb→lt, ltb→ge,
  Outcome, ok, err, length, drop, All,
}
use zynum.Fields.{FieldError, non_minimal_uleb, byte_at, uleb_from, uleb}
use zynum.Fields.Uleb.{
  encode, encode-last, encode-more, drop-byte_at, uleb_from-more, uleb_from-last, uleb_from-encode,
  seven, fits,
}

-- The bytes are bytes.
abbrev pub AreBytes : List ℕ → Type 0
AreBytes bytes = All (λ byte. byte < 256) bytes

byte_at-All :
    (bytes : List ℕ) (offset byte : ℕ)
    → AreBytes bytes
    → byte_at bytes offset ≡ ok byte
    → byte < 256
unfolding byte_at
byte_at-All [] offset byte small h = absurd (cc h)
byte_at-All (b ∷ bytes) zero byte (small, _) h = let same : b ≡ byte = cc h in omega arith
byte_at-All (b ∷ bytes) (suc offset) byte (_, small) h = byte_at-All bytes offset byte small h

-- A round that returns has a byte.
round_byte :
    (bytes : List ℕ) (limit : ℕ) (locator : String) (start rounds value shift offset : ℕ)
    (result : ℕ × ℕ)
    → uleb_from bytes limit locator start (suc rounds) value shift offset ≡ ok result
    → (byte : ℕ) × (offset < limit) × (byte_at bytes offset ≡ ok byte)
unfolding uleb_from
round_byte bytes limit locator start rounds value shift offset result h =
    elim (Bool-cases (ltb offset limit)) [
      | inl e ↦ byte_of e (byte_at bytes offset) refl
      | inr e ↦ absurd (ground (arith, h, e))
    ]
  where
    byte_of :
        ltb offset limit ≡ true
        → (o : Outcome FieldError ℕ) → byte_at bytes offset ≡ o
        → (byte : ℕ) × (offset < limit) × (byte_at bytes offset ≡ ok byte)
    byte_of e (ok byte) at = (byte, ltb→lt _ _ e, at)
    byte_of e (err why) at = absurd (ground (arith, h, e, at))

-- The shortest encoding of the value stands between the offset and the end.
pub record IsEncoded (bytes : List ℕ) (offset limit value end : ℕ) : Type 0 where
  pub fits_value : value < 2 ^ 70
  pub text : drop offset bytes ≡ encode 10 value ++ drop end bytes
  pub ends : end ≡ offset + length (encode 10 value)
  pub inside : end ≤ limit

-- What the loop has read: the number `n`, added to the value at its place.
record Read (bytes : List ℕ) (limit start rounds value shift offset result end n : ℕ) : Type 0 where
  bounded : n < 128 ^ rounds
  total : result ≡ value + n * 2 ^ shift
  text : drop offset bytes ≡ encode rounds n ++ drop end bytes
  ends : end ≡ offset + length (encode rounds n)
  inside : end ≤ limit
  minimal : n ≡ 0 → offset ≤ start

-- What is returned at the last byte.
last_result :
    (late : Bool) (locator : String) (value offset v end : ℕ)
    → if◌then◌else◌ {A = Outcome FieldError (ℕ × ℕ)} late
        (err (non_minimal_uleb locator))
        (ok (value, offset))
      ≡ ok (v, end)
    → (late ≡ false) × ((v ≡ value) × (end ≡ offset))
last_result true locator value offset v end h = absurd (cc h)
last_result false locator value offset v end h = (refl, (cc h, cc h))

positive : (rounds : ℕ) → 0 < 128 ^ rounds
positive zero = omega arith
positive (suc rounds) = omega (arith, positive rounds)

-- A byte with the top bit and what was read behind it.
further_byte :
    (bytes : List ℕ) (limit start rounds value shift offset v end byte m : ℕ)
    → start ≤ offset
    → byte < 256
    → 128 ≤ byte
    → drop offset bytes ≡ byte ∷ drop (suc offset) bytes
    → Read bytes limit start rounds
        (value + byte % 128 * 2 ^ shift)
        (shift + 7)
        (suc offset)
        v
        end
        m
    → Read bytes limit start (suc rounds) value shift offset v end (128 * m + byte % 128)
further_byte bytes limit start rounds value shift offset v end byte zero order small high here r =
    let late = r.minimal refl in absurd (omega (arith, late))
further_byte bytes limit start rounds value shift offset v end byte (suc m) order small high here
      r =
    let n = 128 * suc m + byte % 128 in
    let high_part : n / 128 ≡ suc m = omega arith in
    let low_part : n % 128 + 128 ≡ byte = omega arith in
    let code : encode (suc rounds) n ≡ byte ∷ encode rounds (suc m) =
      encode-more rounds n (omega arith) ∙ cc (high_part, low_part) in
    let size : length (encode (suc rounds) n) ≡ suc (length (encode rounds (suc m))) =
      ap length code in
    let scaled : suc m * 2 ^ (shift + 7) ≡ suc m * (128 * 2 ^ shift) =
      ap (λ p. suc m * p) (seven shift) in
    record {
      bounded = omega (arith, r.bounded);
      total = omega (arith, r.total, scaled);
      text = here ∙ cc (code, r.text);
      ends = omega (arith, size, r.ends);
      inside = r.inside;
      minimal = λ p. absurd (omega arith);
    }

-- The loop returns only what it has read so.
uleb_from-Read :
    (bytes : List ℕ) (limit : ℕ) (locator : String) (start rounds value shift offset v end : ℕ)
    → AreBytes bytes
    → start ≤ offset
    → value < 2 ^ shift
    → uleb_from bytes limit locator start rounds value shift offset ≡ ok (v, end)
    → (n : ℕ) × Read bytes limit start rounds value shift offset v end n
unfolding uleb_from
uleb_from-Read bytes limit locator start zero value shift offset v end small order l h =
    absurd (cc h)
uleb_from-Read bytes limit locator start (suc rounds) value shift offset v end small order l h =
    let (byte, room, at) = round_byte bytes limit locator start rounds value shift offset _ h in
    let byte_small = byte_at-All bytes offset byte small at in
    let here = drop-byte_at bytes offset byte at in
    elim (Bool-cases (ltb byte 128)) [
      | inl e ↦
          let low = ltb→lt byte 128 e in
          let h' =
            sym (
              uleb_from-last bytes limit locator start rounds value shift offset byte room at low l)
            ∙ h in
          let (early, (value_eq, end_eq)) = last_result _ locator _ _ v end h' in
          let last = encode-last rounds byte low in
          let size : length (encode (suc rounds) byte) ≡ 1 = ap length last in
          (
            byte,
            record {
              bounded = omega (arith, positive rounds);
              total = value_eq;
              text = here ∙ cc (last, end_eq);
              ends = omega (arith, size, end_eq);
              inside = omega (arith, end_eq);
              minimal = λ p. ground (arith, early);
            },
          )
      | inr e ↦
          let high = ltb→ge byte 128 e in
          let h' =
            sym (
              uleb_from-more bytes limit locator start rounds value shift offset byte room at
                byte_small high l)
            ∙ h in
          let (m, r) =
            uleb_from-Read bytes limit locator start rounds (value + byte % 128 * 2 ^ shift)
              (shift + 7) (suc offset) v end small (omega arith)
              (rw (seven shift) (fits value byte (2 ^ shift) l)) h' in
          (
            128 * m + byte % 128,
            further_byte bytes limit start rounds value shift offset v end byte m order byte_small
                high here r,
          )
    ]

-- For bytes, `_uleb` returns a value and an end exactly if the value is below `2 ^ 70`, its shortest
-- encoding stands at the offset, and the end is behind that and not beyond the limit.
pub uleb_lem :
    (bytes : List ℕ) (offset limit : ℕ) (locator : String) (value end : ℕ)
    → AreBytes bytes
    → (uleb bytes offset limit locator ≡ ok (value, end)) ↔ IsEncoded bytes offset limit value end
unfolding uleb
uleb_lem bytes offset limit locator value end small = (forward, backward)
  where
    forward :
        uleb bytes offset limit locator ≡ ok (value, end) → IsEncoded bytes offset limit value end
    forward h =
        let (n, r) =
          uleb_from-Read bytes limit locator offset 10 0 0 offset value end small (omega arith)
            (omega arith) h in
        let same : value ≡ n = omega (arith, r.total) in
        record {
          fits_value = omega (arith, r.bounded);
          text = r.text ∙ cc same;
          ends = omega (arith, r.ends, ap (λ m. length (encode 10 m)) same);
          inside = r.inside;
        }

    backward :
        IsEncoded bytes offset limit value end → uleb bytes offset limit locator ≡ ok (value, end)
    backward r =
        let whole : 0 + value * 1 ≡ value = omega arith in
        uleb_from-encode bytes (drop end bytes) limit locator offset 10 value 0 0 offset r.text
          r.fits_value (omega arith) (omega arith) (λ p. omega arith)
          (omega (arith, r.ends, r.inside))
        ∙ cc (whole, r.ends)
