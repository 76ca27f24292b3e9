-- ===== src/Residency/InsertLaws.antt =====
-- What `insert` returns on every branch, and what a later `find` sees.
use gpuinfra.Prelude.{
  ℕ, ◌+◌, ◌≤◌, ◌<◌, ◌≡◌, ◌≢◌, refl, ◌⊎◌, inl, inr, true, false, some, none, length, set, arith,
  Bool-cases, Option-cases, Option-ext, length-set, if◌then◌else◌, subst, sym,
}
use gpuinfra.Types.{GpuDataKey, StdHash, key_eq, key_eq_iff}
use gpuinfra.Residency.{ResidencyTable, find, find_slot, insert, home_slot}
use gpuinfra.Residency.Ring.{IsPowerOfTwo}
use gpuinfra.Residency.Count.{taken_count-set}
use gpuinfra.Residency.Valid.{IsValid, find-Stored, Stored-find}
use gpuinfra.Residency.Insert.{
  taken_slot, IsPlace, set-IsProbed, Stored-set, set-Stored, set-Stored_self, insert-places,
  insert_from-found, absent_of_find_slot, power_of_lt,
}

module _ (std : StdHash) (t : ResidencyTable) (v : IsValid std t) (key : GpuDataKey)
    (entry : ℕ) where
  -- The table after a successful insertion at the slot `i`.
  abbrev inserted : ℕ → ResidencyTable
  inserted i = record t {
    slots = set t.slots i (taken_slot key entry);
    resident_count = t.resident_count + 1;
  }

  module _ (lt : t.resident_count < t.resident_limit) (miss : find_slot std t.slots key ≡ none)
      (i : ℕ) (place : IsPlace std t.slots key entry i) where
    inserted-IsValid : IsValid std (inserted i)
    inserted-IsValid =
        let len = length-set t.slots i (taken_slot key entry) in
        let (p, init) = power_of_lt std t v key entry lt in
        let count = taken_count-set t.slots i (taken_slot key entry) place.in_range in
        record {
          shape = inr (subst IsPowerOfTwo (sym len) p, init);
          roomy = omega (arith, v.roomy);
          counted = ground (arith, v.counted, place.free);
          bounded = omega arith;
          probed =
              set-IsProbed std t.slots key entry v.probed
                (absent_of_find_slot std t v key entry miss) i place;
        }

    find-inserted :
        (k : GpuDataKey)
        → find std (inserted i) k ≡ (if key_eq key k then some entry else find std t k)
    find-inserted k =
        let absent = absent_of_find_slot std t v key entry miss in
        elim (Bool-cases (key_eq key k)) [
          | inl same ↦
              let stored = set-Stored_self std t.slots key entry v.probed absent i place in
              rw (same, ← (key_eq_iff key k).0 same)
                (Stored-find std (inserted i) inserted-IsValid key entry stored)
          | inr other ↦
              let ne : k ≢ key = ground (arith, key_eq_iff key k) in
              rw other (
                Option-ext _ _
                  (λ e h. Stored-find std t v k e (
                    Stored-set std t.slots key entry v.probed absent i place k e ne
                      (find-Stored std (inserted i) inserted-IsValid k e h)))
                  (λ e h. Stored-find std (inserted i) inserted-IsValid k e (
                    set-Stored std t.slots key entry v.probed absent i place k e
                      (find-Stored std t v k e h))))
        ]

  find_slot_of_find :
      t.initialized ≡ true → find std t key ≡ none → find_slot std t.slots key ≡ none
  unfolding find
  find_slot_of_find init miss = ground arith

  -- With room left, an absent key is stored in a valid table: the insertion succeeds, keeps the
  -- invariant, adds one to the count, binds the key to the entry, and leaves the lookup of every
  -- other key as it was.
  pub insert-find :
      t.resident_count < t.resident_limit
      → find std t key ≡ none
      → ((insert std t key entry).1 ≡ true)
        × IsValid std (insert std t key entry).0
        × ((insert std t key entry).0.resident_count ≡ t.resident_count + 1)
        × ((k : GpuDataKey)
            → find std (insert std t key entry).0 k
              ≡ (if key_eq key k then some entry else find std t k))
  insert-find lt absent =
      let miss = find_slot_of_find (power_of_lt std t v key entry lt).1 absent in
      let (i, place, e) = insert-places std t v key entry lt miss in
      rw e (refl, inserted-IsValid lt miss i place, refl, find-inserted lt miss i place)

  refused_of_found :
      (i : ℕ) → find_slot std t.slots key ≡ some i → insert std t key entry ≡ (t, false)
  unfolding insert find_slot
  refused_of_found i hit =
      let n = length t.slots in
      ground (arith, insert_from-found std t.slots key entry n (home_slot std n key) i)

  refused_of_resident : find std t key ≢ none → insert std t key entry ≡ (t, false)
  unfolding find
  refused_of_resident resident = elim (Option-cases (find_slot std t.slots key)) [
    | inl miss ↦ absurd (resident (ground arith))
    | inr (i, hit) ↦ refused_of_found i hit
  ]

  -- A valid table that is full, or holds the key already, refuses an insertion, and nothing
  -- changes.
  pub insert_refused :
      (t.resident_limit ≤ t.resident_count) ⊎ (find std t key ≢ none)
      → insert std t key entry ≡ (t, false)
  unfolding insert
  insert_refused (inl full) = ground arith
  insert_refused (inr resident) = refused_of_resident resident
