-- ===== src/Fields/Uleb.antt =====
-- `_uleb` reads exactly the shortest encodings.
use Prim.Native.Nat.{bit_and, bit_or}
use zynum.Prelude.{
  ℕ, zero, suc, ◌+◌, ◌-◌, ◌*◌, ◌/◌, ◌%◌, ◌^◌, ◌<◌, ◌≤◌, ◌≡◌, refl, ap, ◌∙◌, String, List, [], ◌∷◌,
  ◌++◌, false, Bool-cases, inl, inr, ◌&&◌, ◌==◌, ltb, arith, if◌then◌else◌, ltb→lt, ltb→ge, lt→ltb,
  ge→ltb, ok, err, length, drop,
}
use zynum.Fields.{non_minimal_uleb, byte_at, shift_left, uleb_from}
use zynum.Fields.Digits.{low_bits, top_bit, bit_or-add}

-- The shortest encoding of a number, with at most so many bytes.
unfoldable pub encode : ℕ → ℕ → List ℕ
encode zero n = []
encode (suc rounds) n =
    let rest = encode rounds (n / 128) in if ltb n 128 then n ∷ [] else (n % 128 + 128) ∷ rest

byte_at-append :
    (before after : List ℕ) (byte : ℕ) → byte_at (before ++ byte ∷ after) (length before) ≡ ok byte
unfolding byte_at
byte_at-append [] after byte = refl
byte_at-append (b ∷ before) after byte = byte_at-append before after byte

-- What one round does to the value.
added_bits :
    (byte value shift : ℕ)
    → byte < 256
    → value < 2 ^ shift
    → bit_or value (shift_left (bit_and byte 127) shift) ≡ value + (byte % 128) * 2 ^ shift
added_bits byte value shift h l = rw (low_bits byte h) (bit_or-add shift value (byte % 128) l)

-- One round at a byte whose top bit is set.
pub uleb_from-more :
    (bytes : List ℕ) (limit : ℕ) (locator : String) (start rounds value shift offset byte : ℕ)
    → offset < limit
    → byte_at bytes offset ≡ ok byte
    → byte < 256
    → 128 ≤ byte
    → value < 2 ^ shift
    → uleb_from bytes limit locator start (suc rounds) value shift offset
      ≡ uleb_from bytes limit locator start rounds
          (value + (byte % 128) * 2 ^ shift)
          (shift + 7)
          (suc offset)
unfolding uleb_from
uleb_from-more bytes limit locator start rounds value shift offset byte inside at small high l =
    rw
      (
        lt→ltb offset limit inside,
        at,
        top_bit byte small,
        ge→ltb byte 128 high,
        added_bits byte value shift small l,
      )
      refl

-- One round at the last byte.
pub uleb_from-last :
    (bytes : List ℕ) (limit : ℕ) (locator : String) (start rounds value shift offset byte : ℕ)
    → offset < limit
    → byte_at bytes offset ≡ ok byte
    → byte < 128
    → value < 2 ^ shift
    → uleb_from bytes limit locator start (suc rounds) value shift offset ≡ (
        if ltb 1 (suc offset - start) && byte == 0
        then err (non_minimal_uleb locator)
        else ok (value + byte * 2 ^ shift, suc offset))
unfolding uleb_from
uleb_from-last bytes limit locator start rounds value shift offset byte inside at small l =
    let whole : byte % 128 ≡ byte = omega arith in
    rw
      (
        lt→ltb offset limit inside,
        at,
        top_bit byte (omega arith),
        lt→ltb byte 128 small,
        added_bits byte value shift (omega arith) l,
        whole,
      )
      refl

byte_at-drop :
    (bytes : List ℕ) (offset byte : ℕ) (rest : List ℕ)
    → drop offset bytes ≡ byte ∷ rest
    → byte_at bytes offset ≡ ok byte
unfolding byte_at
byte_at-drop [] zero byte rest h = absurd (cc h)
byte_at-drop [] (suc offset) byte rest h = absurd (cc h)
byte_at-drop (b ∷ bytes) zero byte rest h = cc h
byte_at-drop (b ∷ bytes) (suc offset) byte rest h = byte_at-drop bytes offset byte rest h

drop-suc :
    (bytes : List ℕ) (offset byte : ℕ) (rest : List ℕ)
    → drop offset bytes ≡ byte ∷ rest
    → drop (suc offset) bytes ≡ rest
drop-suc [] zero byte rest h = absurd (cc h)
drop-suc [] (suc offset) byte rest h = absurd (cc h)
drop-suc (b ∷ bytes) zero byte rest h = cc h
drop-suc (b ∷ bytes) (suc offset) byte rest h = drop-suc bytes offset byte rest h

pub drop-byte_at :
    (bytes : List ℕ) (offset byte : ℕ)
    → byte_at bytes offset ≡ ok byte
    → drop offset bytes ≡ byte ∷ drop (suc offset) bytes
unfolding byte_at
drop-byte_at [] offset byte h = absurd (cc h)
drop-byte_at (b ∷ bytes) zero byte h = cc h
drop-byte_at (b ∷ bytes) (suc offset) byte h = drop-byte_at bytes offset byte h

-- What a further byte adds to the value, and that it fits.
pub carried :
    (n value p : ℕ) → (value + ((n % 128 + 128) % 128) * p) + (n / 128) * (128 * p) ≡ value + n * p
carried n value p =
    let low : (n % 128 + 128) % 128 ≡ n % 128 = omega arith in
    let whole : n ≡ 128 * (n / 128) + n % 128 = omega arith in
    let scaled : n * p ≡ (128 * (n / 128) + n % 128) * p = ap (λ m. m * p) whole in
    rw low (omega (arith, scaled))

pub seven : (shift : ℕ) → 2 ^ (shift + 7) ≡ 128 * 2 ^ shift
seven shift =
    let steps : shift + 7 ≡ suc (suc (suc (suc (suc (suc (suc shift)))))) = omega arith in
    rw steps (omega arith)

pub fits : (value byte p : ℕ) → value < p → value + (byte % 128) * p < 128 * p
fits value byte p h =
    let low : byte % 128 ≤ 127 = omega arith in
    let scaled : byte % 128 * p ≤ 127 * p = grind (arith, low) in omega (arith, scaled)

some_round : (n rounds : ℕ) → 0 < n → n < 128 ^ rounds → 0 < rounds
some_round n zero h bound = absurd (omega arith)
some_round n (suc rounds) h bound = omega arith

pub encode-last : (rounds n : ℕ) → n < 128 → encode (suc rounds) n ≡ n ∷ []
unfolding encode
encode-last rounds n h = rw (lt→ltb n 128 h) refl

pub encode-more :
    (rounds n : ℕ) → 128 ≤ n → encode (suc rounds) n ≡ (n % 128 + 128) ∷ encode rounds (n / 128)
unfolding encode
encode-more rounds n h = rw (ge→ltb n 128 h) refl

-- The loop reads an encoding.
pub uleb_from-encode :
    (bytes after : List ℕ) (limit : ℕ) (locator : String) (start rounds n value shift offset : ℕ)
    → drop offset bytes ≡ encode rounds n ++ after
    → n < 128 ^ rounds
    → value < 2 ^ shift
    → 0 < rounds
    → (n ≡ 0 → offset ≤ start)
    → offset + length (encode rounds n) ≤ limit
    → uleb_from bytes limit locator start rounds value shift offset
      ≡ ok (value + n * 2 ^ shift, offset + length (encode rounds n))
uleb_from-encode bytes after limit locator start zero n value shift offset at bound l left first
      room =
    absurd (omega arith)
uleb_from-encode bytes after limit locator start (suc rounds) n value shift offset at bound l left
      first room =
    elim (Bool-cases (ltb n 128)) [
      | inl e ↦
          let last = encode-last rounds n (ltb→lt _ _ e) in
          let at' : drop offset bytes ≡ n ∷ after = at ∙ ap (λ xs. xs ++ after) last in
          let size : length (encode (suc rounds) n) ≡ 1 = ap length last in
          let minimal : (ltb 1 (suc offset - start) && n == 0) ≡ false = ground (arith, first) in
          uleb_from-last bytes limit locator start rounds value shift offset n
            (omega (arith, size, room)) (byte_at-drop bytes offset _ _ at') (ltb→lt _ _ e) l
          ∙ rw (minimal, size) (ap (λ end. ok (value + n * 2 ^ shift, end)) (omega arith))
      | inr e ↦
          let high = ltb→ge _ _ e in
          let more = encode-more rounds n high in
          let at' = at ∙ ap (λ xs. xs ++ after) more in
          let size : length (encode (suc rounds) n) ≡ suc (length (encode rounds (n / 128))) =
            ap length more in
          let pow = seven shift in
          uleb_from-more bytes limit locator start rounds value shift offset (n % 128 + 128)
            (omega (arith, size, room)) (byte_at-drop bytes offset _ _ at') (omega arith)
            (omega arith) l
          ∙ (uleb_from-encode bytes after limit locator start rounds (n / 128)
                (value + (n % 128 + 128) % 128 * 2 ^ shift) (shift + 7) (suc offset)
                (drop-suc bytes offset _ _ at') (omega arith)
                (rw pow (fits value (n % 128 + 128) (2 ^ shift) l))
                (some_round (n / 128) rounds (omega arith) (omega arith))
                (λ p. absurd (omega arith)) (omega (arith, size, room))
              ∙ rw (pow, carried n value (2 ^ shift), size)
                  (ap (λ end. ok (value + n * 2 ^ shift, end)) (omega arith)))
    ]
