-- ===== src/Fields/Digits.antt =====
-- The operations on bits that `_uleb` uses, as arithmetic.
use Prim.Native.Nat.{bit_and, bit_or, bit_or-bitwise, digits}
use zynum.Prelude.{
  ℕ, zero, suc, ◌+◌, ◌*◌, ◌/◌, ◌%◌, ◌^◌, ◌<◌, ◌≤◌, ◌≡◌, refl, ◌∙◌, max, Bool, true, false, ◌&&◌,
  ◌==◌, ltb, arith, &&-true, ==→eq,
}

-- Something holds for the numbers below a bound.
abbrev below : ℕ → (ℕ → Bool) → Bool
below zero test = true
below (suc n) test = test n && below n test

below-test : (n : ℕ) (test : ℕ → Bool) (i : ℕ) → below n test ≡ true → i < n → test i ≡ true
below-test zero test i h less = absurd (omega arith)
below-test (suc n) test i h less =
    let (here, rest) = &&-true (test n) (below n test) h in
    ground (arith, here, below-test n test i rest)

abbrev same_truth : Bool → Bool → Bool
same_truth true b = b
same_truth false true = false
same_truth false false = true

same_truth-eq : (b c : Bool) → same_truth b c ≡ true → b ≡ c
same_truth-eq true c h = ground arith
same_truth-eq false c h = ground arith

low_bits-table : below 256 (λ b. bit_and b 127 == b % 128) ≡ true
low_bits-table = refl

top_bit-table : below 256 (λ b. same_truth (bit_and b 128 == 0) (ltb b 128)) ≡ true
top_bit-table = refl

pub low_bits : (byte : ℕ) → byte < 256 → bit_and byte 127 ≡ byte % 128
low_bits byte h = ==→eq _ _ (below-test 256 (λ b. bit_and b 127 == b % 128) byte low_bits-table h)

pub top_bit : (byte : ℕ) → byte < 256 → (bit_and byte 128 == 0) ≡ ltb byte 128
top_bit byte h =
    same_truth-eq _ _
      (below-test 256 (λ b. same_truth (bit_and b 128 == 0) (ltb b 128)) byte top_bit-table h)

-- Numbers with no bit in common.
pub bit_or-digits :
    (s n a w : ℕ) → a ≤ n → a < 2 ^ s → digits (λ b. b) max n a (w * 2 ^ s) ≡ a + w * 2 ^ s
bit_or-digits s zero a w h l = omega arith
bit_or-digits s (suc n) zero w h l = omega arith
bit_or-digits zero (suc n) (suc a) w h l = absurd (omega arith)
bit_or-digits (suc s) (suc n) (suc a) w h l =
    let pow : 2 ^ suc s ≡ 2 * 2 ^ s = omega arith in
    let double : w * 2 ^ suc s ≡ 2 * (w * 2 ^ s) = rw pow (omega arith) in
    let halved : (w * 2 ^ suc s) / 2 ≡ w * 2 ^ s = omega (arith, double) in
    let even : (w * 2 ^ suc s) % 2 ≡ 0 = omega (arith, double) in
    rw (halved, even, bit_or-digits s n (suc a / 2) w (omega arith) (omega arith))
      (omega (arith, double))

pub bit_or-add : (s a w : ℕ) → a < 2 ^ s → bit_or a (w * 2 ^ s) ≡ a + w * 2 ^ s
bit_or-add s a w h = bit_or-bitwise a (w * 2 ^ s) ∙ bit_or-digits s a a w (omega arith) h
