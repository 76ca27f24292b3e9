-- ===== src/Residency/Ring.antt =====
-- Slot indices on the ring: the mask as a remainder, and distances as linear arithmetic.
use native.Mathlib.Decide.{ℕ_discrete}
use native.Mathlib.Nat.{mod_self, mod-eq_of_lt, one-le-pow, pow-le-pow_right}
use gpuinfra.Prelude.{
  ℕ, ◌+◌, ◌-◌, ◌%◌, ◌^◌, ◌≤◌, ◌<◌, ◌≡◌, bit_and, arith, ◌==◌, if◌then◌else◌, size_mod,
}
use gpuinfra.Prelude.Mask.{bit_and_mask}
use gpuinfra.Types.{GpuDataKey, StdHash, key_hash}
use gpuinfra.Residency.{slot_mask, next_slot, home_slot}

-- A slot count that the mask works for.
abbrev pub IsPowerOfTwo : ℕ → Type 0
IsPowerOfTwo count = (k : ℕ) × (k ≤ 63) × (count ≡ 2 ^ k)

pub power_bounds : (count : ℕ) → IsPowerOfTwo count → (1 ≤ count) × (count ≤ 2 ^ 63)
power_bounds count (k, h, e) =
    let low = one-le-pow k 2 (omega arith) in
    let two : 0 < 2 = omega arith in
    let high = pow-le-pow_right {n = 2} two h in (omega arith, omega arith)

mask-mod : (count x : ℕ) → IsPowerOfTwo count → bit_and x (slot_mask count) ≡ x % count
mask-mod count x (k, h, e) =
    let b = power_bounds count (k, h, e) in
    let m : slot_mask count ≡ 2 ^ k - 1 = omega arith in rw (m, e) (bit_and_mask k x)

-- With a power of two of slots the home slot of every key is one of them.
pub home_slot-lt :
    (std : StdHash) (count : ℕ) (key : GpuDataKey)
    → IsPowerOfTwo count
    → home_slot std count key < count
unfolding home_slot
home_slot-lt std count key p =
    omega (arith, power_bounds count p, mask-mod count (key_hash std key) p)

mod-next :
    (count index : ℕ)
    → index < count
    → (index + 1) % count ≡ (if index + 1 == count then 0 else index + 1)
mod-next count index h = elim (ℕ_discrete (index + 1) count) [
  | yes e ↦ let w : (index + 1) % count ≡ 0 = rw e (mod_self count) in ground arith
  | no d ↦ let w : (index + 1) % count ≡ index + 1 = mod-eq_of_lt (omega arith) in ground arith
]

-- One step along the ring, with the wrap written out.
pub next_slot_lem :
    (count index : ℕ)
    → IsPowerOfTwo count
    → index < count
    → next_slot count index ≡ (if index + 1 == count then 0 else index + 1)
unfolding next_slot
next_slot_lem count index p h =
    let b = power_bounds count p in
    let w : (index + 1) % size_mod ≡ index + 1 = omega arith in
    rw (w, mask-mod count (index + 1) p) (mod-next count index h)
