-- ===== src/Residency/Count.antt =====
-- The number of taken slots, and the free slot that a small count leaves.
use gpuinfra.Prelude.{
  ℕ, zero, suc, ◌+◌, ◌<◌, ◌≡◌, refl, inl, inr, Bool, Bool-cases, true, false, List, [], ◌∷◌, length,
  set, replicate, arith,
}
use gpuinfra.Residency.{Slot, empty_slot}
use gpuinfra.Residency.Probed.{occ}

abbrev pub one_if : Bool → ℕ
one_if true = 1
one_if false = 0

abbrev pub taken_count : List Slot → ℕ
taken_count [] = 0
taken_count (s ∷ slots) = one_if s.occupied + taken_count slots

pub taken_count-set :
    (slots : List Slot) (i : ℕ) (v : Slot)
    → i < length slots
    → taken_count (set slots i v) + one_if (occ slots i) ≡ taken_count slots + one_if v.occupied
taken_count-set [] i v h = absurd (omega arith)
taken_count-set (s ∷ slots) zero v h = omega arith
taken_count-set (s ∷ slots) (suc i) v h = omega (arith, taken_count-set slots i v)

pub taken_count-replicate : (n : ℕ) → taken_count (replicate n empty_slot) ≡ 0
taken_count-replicate zero = refl
taken_count-replicate (suc n) = omega (arith, taken_count-replicate n)

pub free_slot :
    (slots : List Slot)
    → taken_count slots < length slots
    → (z : ℕ) × (z < length slots) × (occ slots z ≡ false)
free_slot [] h = absurd (omega arith)
free_slot (s ∷ slots) h = elim (Bool-cases s.occupied) [
  | inl o ↦ let (z, lt, e) = free_slot slots (ground arith) in (suc z, omega arith, e)
  | inr e ↦ (0, omega arith, e)
]
