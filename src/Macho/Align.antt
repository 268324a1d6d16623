-- ===== src/Macho/Align.antt =====
-- `_align_up` of tools/abi_artifact_parity.py at a power of two.
use Prim.Native.Nat.{min, bit_and, bit_and-bitwise, digits}
use zynum.Prelude.{
  ℕ, zero, suc, ◌+◌, ◌-◌, ◌*◌, ◌/◌, ◌%◌, ◌^◌, ◌<◌, ◌≤◌, ◌≡◌, refl, ap, ◌∙◌, ◌==◌, ◌||◌, not, false,
  ok, arith,
}
use native.Mathlib.Nat.{one-le-pow}
use zynum.Parse.{raise_if}
use zynum.Macho.Names.{align_up}

-- The low digits of a number, by a mask of `k` ones.
low_digits :
    (k n a q r : ℕ)
    → a ≡ q * 2 ^ k + r
    → r < 2 ^ k
    → a ≤ n
    → digits (λ b. zero) min n a (2 ^ k - 1) ≡ r
low_digits k zero a q r e l h = omega (arith, e, h)
low_digits k (suc n) zero q r e l h = omega (arith, e)
low_digits zero (suc n) (suc a) q r e l h =
    let rest =
      low_digits zero n (suc a / 2) (suc a / 2) 0 (omega arith) (omega arith) (omega arith) in
    omega (arith, rest, l)
low_digits (suc k) (suc n) (suc a) q r e l h =
    let pow : 2 ^ suc k ≡ 2 * 2 ^ k = omega arith in
    let double : q * 2 ^ suc k ≡ 2 * (q * 2 ^ k) = rw pow (omega arith) in
    let some : 0 < 2 ^ suc k = omega (arith, l) in
    let half : (2 ^ suc k - 1) / 2 ≡ 2 ^ k - 1 = omega (arith, pow) in
    let odd : (2 ^ suc k - 1) % 2 ≡ 1 = omega (arith, pow, some) in
    let rest =
      low_digits k n (suc a / 2) q (r / 2) (omega (arith, e, double)) (omega (arith, l, pow))
        (omega (arith, h)) in
    rw (half, odd, rest) (omega (arith, e, double))

bit_and-mask : (k a q r : ℕ) → a ≡ q * 2 ^ k + r → r < 2 ^ k → bit_and a (2 ^ k - 1) ≡ r
bit_and-mask k a q r e l = bit_and-bitwise a (2 ^ k - 1) ∙ low_digits k a a q r e l (omega arith)

pub pow-positive : (k : ℕ) → 0 < 2 ^ k
pow-positive k = one-le-pow k 2 (omega arith)

-- The least multiple of `2 ^ k` that is at least `value`.
pub record IsAligned (value k aligned : ℕ) : Type 0 where
  pub quotient : ℕ
  pub multiple : aligned ≡ quotient * 2 ^ k
  pub behind : value ≤ aligned
  pub least : aligned < value + 2 ^ k

-- _align_up accepts every power of two as the alignment, and returns the least multiple of it that is
-- not below the value.
pub align_up-IsAligned :
    (value k : ℕ)
    → (aligned : ℕ) × (align_up value (2 ^ k) ≡ ok aligned) × IsAligned value k aligned
unfolding align_up raise_if
align_up-IsAligned value k =
    let p = pow-positive k in
    let x = value + 2 ^ k - 1 in
    let q = x / 2 ^ k in
    let r = x % 2 ^ k in
    let split : x ≡ q * 2 ^ k + r = ground (arith, p) in
    let small : r < 2 ^ k = ground (arith, p) in
    let mask : bit_and x (2 ^ k - 1) ≡ r = bit_and-mask k x q r split small in
    let power : bit_and (2 ^ k) (2 ^ k - 1) ≡ 0 = bit_and-mask k (2 ^ k) 1 0 (omega arith) p in
    let test : (2 ^ k == 0 || not (bit_and (2 ^ k) (2 ^ k - 1) == 0)) ≡ false =
      ground (arith, p, power) in
    (
      q * 2 ^ k,
      rw (test, mask) (ap ok (omega (arith, split))),
      record {
        quotient = q;
        multiple = refl;
        behind = omega (arith, split, small);
        least = omega (arith, split, p);
      },
    )
