-- ===== src/Prelude/Mask.antt =====
-- `x & (2 ^ k - 1)` is the remainder by `2 ^ k`, at every width: an induction on the digits that
-- the native operation stands for, with the quotient and the remainder as witnesses.
use Prim.Native.Nat.{
  ℕ, zero, suc, ◌+◌, ◌-◌, ◌*◌, ◌/◌, ◌%◌, ◌^◌, ◌≤◌, ◌<◌, min, bit_and, digits, bit_and-bitwise,
}
use mathlib.Core.Path.{◌≡◌, ap, ◌∙◌}
use native.Mathlib.Nat.{pow-suc, one-le-pow, le_refl}
use native.Mathlib.Omega.{arith}

abbrev masked : ℕ → ℕ → ℕ → ℕ
masked fuel x k = digits (λ _. 0) min fuel x (2 ^ k - 1)

-- the halves of a number in terms of the halves of its remainder
halve_split : (x q r k : ℕ) → x ≡ q * 2 ^ suc k + r → x / 2 ≡ q * 2 ^ k + r / 2
halve_split x q r k split =
    let doubled : q * 2 ^ suc k ≡ q * 2 ^ k * 2 =
      omega (arith, ap (λ (t : ℕ). q * t) (pow-suc 2 k)) in
    omega arith

parity_split : (x q r k : ℕ) → x ≡ q * 2 ^ suc k + r → x % 2 ≡ r % 2
parity_split x q r k split =
    let doubled : q * 2 ^ suc k ≡ q * 2 ^ k * 2 =
      omega (arith, ap (λ (t : ℕ). q * t) (pow-suc 2 k)) in
    omega arith

masked_lem : (fuel k x q r : ℕ) → x ≤ fuel → x ≡ q * 2 ^ k + r → r < 2 ^ k → masked fuel x k ≡ r
masked_lem zero k zero q r le split small = omega arith
masked_lem zero k (suc x) q r le split small = absurd (omega arith)
masked_lem (suc fuel) k zero q r le split small = omega arith
masked_lem (suc fuel) zero (suc x) q r le split small = omega (
  arith,
  masked_lem fuel zero (suc x / 2) (suc x / 2) 0 (omega arith) (omega arith) (omega arith),
)
masked_lem (suc fuel) (suc k) (suc x) q r le split small =
    let pow = pow-suc 2 k in
    let pos = one-le-pow k 2 in
    let rest =
      masked_lem fuel k (suc x / 2) q (r / 2) (omega arith) (halve_split (suc x) q r k split)
        (omega arith) in
    let half : (2 ^ suc k - 1) / 2 ≡ 2 ^ k - 1 = ground arith in
    let low = parity_split (suc x) q r k split in rw half (ground arith)

pub bit_and_mask : (k a : ℕ) → bit_and a (2 ^ k - 1) ≡ a % 2 ^ k
bit_and_mask k a =
    let pos = one-le-pow k 2 in
    bit_and-bitwise a (2 ^ k - 1)
    ∙ masked_lem a k a (a / 2 ^ k) (a % 2 ^ k) (le_refl a) (ground arith) (ground arith)
