-- ===== src/Residency/Init.antt =====
-- `initialize` and `clear`: the capacities that are accepted, and the empty table that results.
use native.Mathlib.Decide.{dec_lt}
use native.Mathlib.Nat.{pow-suc, pow-le-pow_right}
use gpuinfra.Prelude.{
  ℕ, zero, suc, ◌+◌, ◌*◌, ◌/◌, ◌^◌, ◌≤◌, ◌<◌, ◌≡◌, refl, ◌⊎◌, inl, inr, Bool, true, false, some,
  none, length, replicate, arith, Bool-cases, Option-cases, get_or-replicate, length-replicate, ltb,
  size_max, subst, sym,
}
use gpuinfra.Types.{GpuDataKey, StdHash}
use gpuinfra.Residency.{
  ResidencyTable, empty_slot, grow_slots, required_slots, slot_count_for, initialize, clear, find,
  new_table,
}
use gpuinfra.Residency.Ring.{IsPowerOfTwo}
use gpuinfra.Residency.Probed.{Stored, IsProbed}
use gpuinfra.Residency.Count.{taken_count-replicate}
use gpuinfra.Residency.Valid.{IsValid, find-Stored}

two_pos : 0 < 2
two_pos = omega arith

exponent-le : (j c : ℕ) → c ≡ 2 ^ j → c < 2 ^ 63 → j ≤ 62
exponent-le j c e h = elim (dec_lt 62 j) [
  | yes big ↦ let p = pow-le-pow_right {n = 2} two_pos big in absurd (omega arith)
  | no small ↦ omega arith
]

-- The doubling loop reaches a power of two between the required count and twice that.
grow_slots_lem :
    (fuel j required count : ℕ)
    → 64 ≤ fuel + j
    → count ≡ 2 ^ j
    → j ≤ 63
    → required ≤ 2 ^ 63
    → count < 2 * required
    → (c : ℕ) × (grow_slots fuel required count ≡ some c)
      × IsPowerOfTwo c
      × (required ≤ c)
      × (c < 2 * required)
unfolding grow_slots
grow_slots_lem zero j required count f e h r b = absurd (omega arith)
grow_slots_lem (suc fuel) j required count f e h r b = elim (Bool-cases (ltb count required)) [
  | inr stop ↦ (count, ground arith, (j, h, e), ground arith, b)
  | inl more ↦
      let small = exponent-le j count e (ground arith) in
      let (c, done, p, le, lt) =
        grow_slots_lem fuel (suc j) required (count * 2) (omega arith) (omega (arith, pow-suc 2 j))
          (omega arith) r (ground arith) in
      (c, ground arith, p, le, lt)
]

-- Past half of the largest `size_t` the loop reports the overflow.
slot_count_for-lem :
    (max_entries : ℕ)
    → 1 ≤ max_entries
    → max_entries ≤ 2 ^ 62
    → (c : ℕ) × (slot_count_for max_entries ≡ some c)
      × IsPowerOfTwo c
      × (2 * max_entries ≤ c)
      × (c < 4 * max_entries)
unfolding slot_count_for required_slots
slot_count_for-lem max_entries pos le =
    let (c, e, p, lo, hi) =
      grow_slots_lem 65 0 (max_entries * 2) 1 (omega arith) refl (omega arith) (omega arith)
        (omega arith) in
    (c, ground arith, p, omega arith, omega arith)

slot_count_for-zero : slot_count_for 0 ≡ some 0
unfolding slot_count_for required_slots grow_slots
slot_count_for-zero = refl

grow_slots_overflow :
    (fuel j required count : ℕ)
    → 64 ≤ fuel + j
    → count ≡ 2 ^ j
    → j ≤ 63
    → 2 ^ 63 < required
    → grow_slots fuel required count ≡ none
unfolding grow_slots
grow_slots_overflow zero j required count f e h r = absurd (omega arith)
grow_slots_overflow (suc fuel) j required count f e h r =
    let top = pow-le-pow_right {n = 2} two_pos h in
    elim (Bool-cases (ltb (size_max / 2) count)) [
      | inl last ↦ ground arith
      | inr more ↦
          let small = exponent-le j count e (ground arith) in
          let rest =
            grow_slots_overflow fuel (suc j) required (count * 2) (omega arith)
              (omega (arith, pow-suc 2 j)) (omega arith) r in
          ground arith
    ]

slot_count_for_overflow :
    (max_entries : ℕ) → 2 ^ 62 < max_entries → slot_count_for max_entries ≡ none
unfolding slot_count_for required_slots
slot_count_for_overflow max_entries big =
    let e = λ (h : 2 ^ 63 < max_entries * 2).
      grow_slots_overflow 65 0 (max_entries * 2) 1 (omega arith) refl (omega arith) h in
    let e' = e (omega arith) in ground arith

module _ (std : StdHash) where
  replicate-IsProbed : (n : ℕ) → IsProbed std (replicate n empty_slot)
  replicate-IsProbed n = record {
    path = λ i j hi hj o d. ground (arith, get_or-replicate n i empty_slot);
    distinct = λ i j hi hj oi oj e. ground (arith, get_or-replicate n i empty_slot);
  }

  not-Stored-replicate : (n : ℕ) (k : GpuDataKey) (e : ℕ) → ¬ Stored (replicate n empty_slot) k e
  not-Stored-replicate n k e (i, h) = ground (arith, get_or-replicate n i empty_slot, h.taken)

  -- A table whose slots are all free finds nothing.
  find-free :
      (t : ResidencyTable) (n : ℕ)
      → IsValid std t
      → t.slots ≡ replicate n empty_slot
      → (k : GpuDataKey) → find std t k ≡ none
  find-free t n v e k = elim (Option-cases (find std t k)) [
    | inl miss ↦ miss
    | inr (i, hit) ↦
        absurd
          (not-Stored-replicate n k i (subst (λ s. Stored s k i) e (find-Stored std t v k i hit)))
  ]

  -- The slots are all free, and the table holds up to `limit` entries.
  pub record IsFresh (limit : ℕ) (t : ResidencyTable) : Type 0 where
    pub valid : IsValid std t
    pub initialized : t.initialized ≡ true
    pub capacity : t.resident_limit ≡ limit
    pub none_resident : t.resident_count ≡ 0
    pub misses : (k : GpuDataKey) → find std t k ≡ none

  abbrev free_table : ℕ → ℕ → ResidencyTable
  free_table n limit = record {
    slots = replicate n empty_slot;
    resident_limit = limit;
    resident_count = 0;
    initialized = true;
  }

  free_table-IsFresh :
      (n limit : ℕ) → IsPowerOfTwo n → 2 * limit ≤ n → IsFresh limit (free_table n limit)
  free_table-IsFresh n limit p le =
      let len = length-replicate n empty_slot in
      let v : IsValid std (free_table n limit) = record {
        shape = inr (subst IsPowerOfTwo (sym len) p, refl);
        roomy = omega arith;
        counted = sym (taken_count-replicate n);
        bounded = omega arith;
        probed = replicate-IsProbed n;
      } in
      record {
        valid = v;
        initialized = refl;
        capacity = refl;
        none_resident = refl;
        misses = find-free (free_table n limit) n v refl;
      }

  no_slots-IsFresh : IsFresh 0 (free_table 0 0)
  no_slots-IsFresh =
      let v : IsValid std (free_table 0 0) = record {
        shape = inl refl;
        roomy = omega arith;
        counted = refl;
        bounded = omega arith;
        probed = replicate-IsProbed 0;
      } in
      record {
        valid = v;
        initialized = refl;
        capacity = refl;
        none_resident = refl;
        misses = find-free (free_table 0 0) 0 v refl;
      }

  -- Up to 2 ^ 62 entries, a new table whose slots can be allocated is initialized: fresh, of the
  -- capacity asked for, and with at most four slots for each entry.
  pub initialize-IsFresh :
      (max_entries : ℕ)
      → max_entries ≤ 2 ^ 62
      → ((initialize true new_table max_entries).1 ≡ true)
        × IsFresh max_entries (initialize true new_table max_entries).0
        × (length (initialize true new_table max_entries).0.slots ≤ 4 * max_entries)
  unfolding initialize
  initialize-IsFresh zero h = rw slot_count_for-zero (refl, no_slots-IsFresh, omega arith)
  initialize-IsFresh (suc m) h =
      let (c, e, p, lo, hi) = slot_count_for-lem (suc m) (omega arith) h in
      rw e (refl, free_table-IsFresh c (suc m) p lo, omega (arith, length-replicate c empty_slot))

  -- Beyond 2 ^ 62 entries, without memory, or on a table in use, initialize returns false and
  -- nothing changes.
  pub initialize_refused :
      (resize_ok : Bool) (t : ResidencyTable) (max_entries : ℕ)
      → (2 ^ 62 < max_entries) ⊎ ((resize_ok ≡ false) ⊎ (t.initialized ≡ true))
      → initialize resize_ok t max_entries ≡ (t, false)
  unfolding initialize
  initialize_refused resize_ok t max_entries (inl big) =
      let e = slot_count_for_overflow max_entries big in ground arith
  initialize_refused resize_ok t max_entries (inr (inl full)) = ground arith
  initialize_refused resize_ok t max_entries (inr (inr used)) = ground arith

  -- clear on a valid, initialized table forgets every key and keeps the capacity.
  pub clear-IsFresh :
      (t : ResidencyTable)
      → IsValid std t
      → t.initialized ≡ true
      → IsFresh t.resident_limit (clear t)
  unfolding clear
  clear-IsFresh t v init = record {
    valid = cleared;
    initialized = init;
    capacity = refl;
    none_resident = refl;
    misses = find-free (clear t) (length t.slots) cleared refl;
  }
    where
      cleared : IsValid std (clear t)
      cleared = record {
        shape = elim v.shape [
          | inl e ↦ inl (rw e refl)
          | inr (p, i) ↦ inr (subst IsPowerOfTwo (sym (length-replicate _ empty_slot)) p, i)
        ];
        roomy = omega (arith, length-replicate (length t.slots) empty_slot, v.roomy);
        counted = sym (taken_count-replicate (length t.slots));
        bounded = omega arith;
        probed = replicate-IsProbed (length t.slots);
      }
