-- ===== src/Residency/EraseLaws.antt =====
-- What `erase` returns on every branch, and what a later `find` sees.
use gpuinfra.Prelude.{
  ℕ, ◌+◌, ◌-◌, ◌≡◌, ◌≢◌, refl, ap, inl, inr, true, false, some, none, length, arith, Bool-cases,
  Option-cases, Option-ext, if◌then◌else◌, subst, sym,
}
use gpuinfra.Types.{GpuDataKey, StdHash, key_eq, key_eq_iff}
use gpuinfra.Residency.{
  ResidencyTable, find, find_slot, erase, erase_slot, slot_at, erase_end, next_slot,
}
use gpuinfra.Residency.Gap.{erase_scan-stops}
use gpuinfra.Residency.Ring.{IsPowerOfTwo}
use gpuinfra.Residency.Probed.{occ, key_at, distance-lt, next_slot-lt}
use gpuinfra.Residency.Count.{free_slot}
use gpuinfra.Residency.Valid.{IsValid, find-Stored, Stored-find, find_slot-located}
use gpuinfra.Residency.Erase.{Erased, start, start-IsGap, erase_slot-Erased}

module _ (std : StdHash) (t : ResidencyTable) (v : IsValid std t) (key : GpuDataKey) where
  -- The table after the slot `i` is erased.
  abbrev erased : ℕ → ResidencyTable
  erased i = record t { slots = erase_slot std t.slots i; resident_count = t.resident_count - 1 }

  module _ (i : ℕ) (hit : find_slot std t.slots key ≡ some i) where
    power_of_hit : IsPowerOfTwo (length t.slots) × (t.initialized ≡ true)
    power_of_hit = elim v.shape [
      | inl e ↦ absurd (omega (arith, ap length e, find_slot-located std t v key i hit))
      | inr p ↦ p
    ]

    erased_lem : Erased std t.slots i (erase_slot std t.slots i)
    erased_lem =
        let (hi, o, e) = find_slot-located std t v key i hit in
        let (z, hz, free) = free_slot t.slots (omega (arith, v.roomy, v.counted, v.bounded)) in
        erase_slot-Erased std t.slots power_of_hit.0 v.probed z hz free i hi o

    erased-IsValid : IsValid std (erased i)
    erased-IsValid =
        let r = erased_lem in
        let (p, init) = power_of_hit in
        record {
          shape = inr (subst IsPowerOfTwo (sym r.size) p, init);
          roomy = omega (arith, r.size, v.roomy);
          counted = omega (arith, r.count, v.counted);
          bounded = omega (arith, v.bounded);
          probed = r.probed;
        }

    find-erased :
        (k : GpuDataKey) → find std (erased i) k ≡ (if key_eq key k then none else find std t k)
    find-erased k =
        let (hi, o, at) = find_slot-located std t v key i hit in
        let r = erased_lem in
        elim (Bool-cases (key_eq key k)) [
          | inl same ↦ rw same (elim (Option-cases (find std (erased i) k)) [
            | inl gone ↦ gone
            | inr (e, h) ↦
                let kept = (r.entries k e).0 (find-Stored std (erased i) erased-IsValid k e h) in
                absurd (kept.1 (ground (arith, key_eq_iff key k)))
          ])
          | inr other ↦
              let ne : k ≢ key_at t.slots i = ground (arith, key_eq_iff key k) in
              rw other (
                Option-ext _ _
                  (λ e h.
                    Stored-find std t v k e
                      ((r.entries k e).0 (find-Stored std (erased i) erased-IsValid k e h)).0)
                  (λ e h.
                    Stored-find std (erased i) erased-IsValid k e
                      ((r.entries k e).1 (find-Stored std t v k e h, ne))))
        ]

  -- In a valid table the loop of eraseSlot on a resident key ends by its own test: within one round
  -- for each slot it meets a free slot.
  pub erase_end-stops :
      (i : ℕ)
      → find_slot std t.slots key ≡ some i
      → occ (erase_end std t.slots i).slots (erase_end std t.slots i).scan_index ≡ false
  unfolding erase_end
  erase_end-stops i hit =
      let (hi, o, e) = find_slot-located std t v key i hit in
      let (p, init) = power_of_hit i hit in
      let n = length t.slots in
      let (z, hz, free) = free_slot t.slots (omega (arith, v.roomy, v.counted, v.bounded)) in
      let next = next_slot-lt n i p hi in
      let gap = start-IsGap std t.slots p v.probed z hz free i hi o in
      (erase_scan-stops std n z (start t.slots i) gap (distance-lt n (next_slot n i) z next hz)).2

  found_slot :
      (entry : ℕ)
      → find std t key ≡ some entry
      → (i : ℕ) × (find_slot std t.slots key ≡ some i)
        × ((slot_at t.slots i).entry_index ≡ entry)
        × (t.initialized ≡ true)
  unfolding find
  found_slot entry e = elim (Option-cases (find_slot std t.slots key)) [
    | inl miss ↦ absurd (ground arith)
    | inr (i, hit) ↦ (i, hit, ground arith, ground arith)
  ]

  erase-erased :
      (entry i : ℕ)
      → find_slot std t.slots key ≡ some i
      → (slot_at t.slots i).entry_index ≡ entry
      → t.initialized ≡ true
      → erase std t key entry ≡ (erased i, true)
  unfolding erase
  erase-erased entry i hit e init = ground arith

  -- Erasing the entry that a key is bound to in a valid table succeeds, keeps the invariant, takes
  -- one from the count, unbinds the key, and leaves the lookup of every other key as it was.
  pub erase-find :
      (entry : ℕ)
      → find std t key ≡ some entry
      → ((erase std t key entry).1 ≡ true)
        × IsValid std (erase std t key entry).0
        × ((erase std t key entry).0.resident_count + 1 ≡ t.resident_count)
        × ((k : GpuDataKey)
            → find std (erase std t key entry).0 k ≡ (if key_eq key k then none else find std t k))
  erase-find entry found =
      let (i, hit, e, init) = found_slot entry found in
      let r = erased_lem i hit in
      rw (erase-erased entry i hit e init)
        (refl, erased-IsValid i hit, omega (arith, r.count, v.counted), find-erased i hit)

  -- In a valid table a key that is absent or bound to another entry is not erased, and nothing
  -- changes.
  pub erase_refused : (entry : ℕ) → find std t key ≢ some entry → erase std t key entry ≡ (t, false)
  unfolding erase find
  erase_refused entry ne = elim (Option-cases (find_slot std t.slots key)) [
    | inl miss ↦ ground arith
    | inr (i, hit) ↦ ground arith
  ]
