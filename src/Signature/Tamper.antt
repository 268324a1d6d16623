-- ===== src/Signature/Tamper.antt =====
-- What a signature protects.
use native.Mathlib.Nat.{mod-lt}
use zynum.Prelude.{
  ℕ, zero, suc, ◌+◌, ◌-◌, ◌*◌, ◌/◌, ◌%◌, ◌^◌, ◌≤◌, ◌<◌, ◌≡◌, refl, sym, ap, subst, ◌∙◌, String,
  Option, List, same_list, same_list→eq, same_list-differ, min, arith, ◌⊎◌, ltb, ltb→lt, ltb→ge,
  Bool-cases, inl, inr, ok, take, drop, drop_add, take-split,
}
use zynum.Atoms.{AtomBuilder}
use zynum.Atoms.Finish.{slice}
use zynum.Parse.{field_be, big_endian}
use zynum.Signature.{CodeHeader, code_header, CodeDirectory, page, parse_code_directory}
use zynum.Signature.Accepted.{IsSigned, parse_code_directory-IsSigned}

-- What stands behind an offset fixes every slice behind it.
slice_behind :
    (xs ys : List ℕ) (offset at end : ℕ)
    → drop offset xs ≡ drop offset ys
    → offset ≤ at
    → slice xs at end ≡ slice ys at end
slice_behind xs ys offset at end e h = ap (take (end - at)) (
    drop_add xs offset (at - offset) at (omega arith)
    ∙ (ap (drop (at - offset)) e ∙ sym (drop_add ys offset (at - offset) at (omega arith))))

header_behind :
    (xs ys : List ℕ) (offset : ℕ)
    → drop offset xs ≡ drop offset ys
    → code_header xs (offset + 20) ≡ code_header ys (offset + 20)
unfolding code_header
header_behind xs ys offset e =
    let cd = offset + 20 in
    let word : (at width : ℕ) → offset ≤ at → field_be xs at width ≡ field_be ys at width =
      λ at width h. ap (big_endian 0) (slice_behind xs ys offset at (at + width) e h) in
    cc (
      word cd 4 (omega arith),
      word (cd + 4) 4 (omega arith),
      word (cd + 8) 4 (omega arith),
      word (cd + 12) 4 (omega arith),
      word (cd + 16) 4 (omega arith),
      word (cd + 20) 4 (omega arith),
      word (cd + 24) 4 (omega arith),
      word (cd + 28) 4 (omega arith),
      word (cd + 32) 4 (omega arith),
      word (cd + 36) 1 (omega arith),
      word (cd + 37) 1 (omega arith),
      word (cd + 38) 1 (omega arith),
      word (cd + 39) 1 (omega arith),
      word (cd + 40) 4 (omega arith),
      word (cd + 44) 4 (omega arith),
      word (cd + 48) 4 (omega arith),
      word (cd + 52) 4 (omega arith),
      word (cd + 56) 8 (omega arith),
      word (cd + 64) 8 (omega arith),
      word (cd + 72) 8 (omega arith),
      word (cd + 80) 8 (omega arith),
    )

-- Two texts with the same hash.
pub record Collision (sha256 : List ℕ → List ℕ) : Type 0 where
  pub first : List ℕ
  pub second : List ℕ
  pub apart : first ≡ second → ⊥
  pub together : sha256 first ≡ sha256 second

-- Pages of the same hashes are the same, or two of them collide.
pages_agree :
    (sha256 : List ℕ → List ℕ) (f g : ℕ → List ℕ) (n : ℕ)
    → ((i : ℕ) → i < n → sha256 (f i) ≡ sha256 (g i))
    → ((i : ℕ) → i < n → f i ≡ g i) ⊎ Collision sha256
pages_agree sha256 f g zero h = inl (λ i less. absurd (omega arith))
pages_agree sha256 f g (suc n) h = elim (pages_agree sha256 f g n (λ i less. h i (omega arith))) [
  | inr c ↦ inr c
  | inl same ↦ elim (Bool-cases (same_list (f n) (g n))) [
    | inr e ↦ inr (record {
      first = f n;
      second = g n;
      apart = same_list-differ (f n) (g n) e;
      together = h n (omega arith);
    })
    | inl e ↦ inl (λ i less. elim (Bool-cases (ltb i n)) [
      | inl lower ↦ same i (ltb→lt i n lower)
      | inr last ↦
          let at : n ≡ i = omega (arith, ltb→ge i n last) in
          subst (λ j. f j ≡ g j) at (same_list→eq (f n) (g n) e)
    ])
  ]
]

-- The pages together are the bytes up to the limit.
take-pages :
    (xs ys : List ℕ) (size limit n : ℕ)
    → ((i : ℕ) → i < n → page xs size limit i ≡ page ys size limit i)
    → take (min (n * size) limit) xs ≡ take (min (n * size) limit) ys
take-pages xs ys size limit zero h =
    let none_yet : min (0 * size) limit ≡ 0 = omega arith in rw none_yet refl
take-pages xs ys size limit (suc n) h =
    let before = take-pages xs ys size limit n (λ i less. h i (omega arith)) in
    let next : suc n * size ≡ n * size + size = omega arith in
    elim (Bool-cases (ltb limit (n * size))) [
      | inl past ↦
          let m : min (suc n * size) limit ≡ min (n * size) limit =
            omega (arith, next, ltb→lt limit (n * size) past) in
          rw m before
      | inr inside ↦
          let whole : min (n * size) limit ≡ n * size =
            omega (arith, ltb→ge limit (n * size) inside) in
          let end = min (n * size + size) limit in
          let reached : n * size ≤ end = omega (arith, ltb→ge limit (n * size) inside) in
          let before' : take (n * size) xs ≡ take (n * size) ys =
            subst (λ m. take m xs ≡ take m ys) whole before in
          rw next (
            take-split xs (n * size) end reached
            ∙ (cc (before', h n (omega arith)) ∙ sym (take-split ys (n * size) end reached)))
    ]

-- There are enough pages.
slots_reach :
    (limit size slots : ℕ)
    → 0 < size
    → slots ≡ (limit + size - 1) / size
    → min (slots * size) limit ≡ limit
slots_reach limit size slots h e =
    let small : (limit + size - 1) % size < size = mod-lt (limit + size - 1) h in
    let times : slots * size ≡ (limit + size - 1) / size * size = ap (λ n. n * size) e in
    omega (arith, small, times)

positive_power : (n : ℕ) → 0 < 2 ^ n
positive_power zero = omega arith
positive_power (suc n) = omega (arith, positive_power n)

module _ (sha256 : List ℕ → List ℕ) (sha256_hex : List ℕ → String)
    (decode : List ℕ → Option String) where
  signed_bytes :
      (xs ys : List ℕ) (offset size : ℕ) (d d' : CodeDirectory)
      → IsSigned sha256 sha256_hex decode xs offset size d
      → IsSigned sha256 sha256_hex decode ys offset size d'
      → drop offset xs ≡ drop offset ys
      → (take offset xs ≡ take offset ys) ⊎ Collision sha256
  signed_bytes xs ys offset size d d' r r' e =
      let same_header : r.header ≡ r'.header =
        r.header_eq ∙ (header_behind xs ys offset e ∙ sym r'.header_eq) in
      let page_size = 2 ^ r.header.page_exp in
      let all_pages =
        slots_reach offset page_size r.header.code_slots (positive_power r.header.page_exp)
          r.slots in
      let theirs =
        subst
          (λ (h : CodeHeader).
            (i : ℕ)
            → i < h.code_slots
            → slice ys (offset + 20 + h.hash_offset + i * 32)
                (offset + 20 + h.hash_offset + i * 32 + 32)
              ≡ sha256 (page ys (2 ^ h.page_exp) offset i))
          (sym same_header) r'.hashes in
      let same_hash : (i : ℕ)
          → i < r.header.code_slots
          → sha256 (page xs page_size offset i) ≡ sha256 (page ys page_size offset i) =
        λ i less.
          sym (r.hashes i less)
          ∙ (slice_behind xs ys offset (offset + 20 + r.header.hash_offset + i * 32)
                (offset + 20 + r.header.hash_offset + i * 32 + 32) e (omega arith)
              ∙ theirs i less) in
      elim (pages_agree sha256 (page xs page_size offset) (page ys page_size offset)
        r.header.code_slots same_hash) [
          | inr c ↦ inr c
          | inl same ↦ inl (
              subst (λ m. take m xs ≡ take m ys) all_pages
                (take-pages xs ys page_size offset r.header.code_slots same))
        ]

  -- Two files with accepted signatures at the same offset that agree from there on are equal before
  -- it, or two texts with the same SHA-256 are known.
  pub parse_code_directory-tamper :
      (xs ys : List ℕ) (offset size : ℕ) (builder builder' after after' : Option AtomBuilder)
      (d d' : CodeDirectory)
      → parse_code_directory sha256 sha256_hex decode xs offset size builder ≡ ok (d, after)
      → parse_code_directory sha256 sha256_hex decode ys offset size builder' ≡ ok (d', after')
      → drop offset xs ≡ drop offset ys
      → (take offset xs ≡ take offset ys) ⊎ Collision sha256
  parse_code_directory-tamper xs ys offset size builder builder' after after' d d' h h' e =
      signed_bytes xs ys offset size d d'
        (parse_code_directory-IsSigned sha256 sha256_hex decode xs offset size builder after d h)
        (parse_code_directory-IsSigned sha256 sha256_hex decode ys offset size builder' after' d'
          h')
        e
