-- ===== src/Residency/Insert.antt =====
-- `insert`: it stores an absent key while there is room, and refuses in every other case.
use gpuinfra.Prelude.{
  ℕ, zero, suc, ◌+◌, ◌≤◌, ◌<◌, ◌≡◌, ◌≢◌, refl, inl, inr, true, false, List, some, none, length, set,
  arith, Bool-cases, ap, get_or-set, length-set,
}
use gpuinfra.Types.{GpuDataKey, StdHash, key_eq_iff}
use gpuinfra.Residency.{
  Slot, ResidencyTable, empty_slot, probe_distance, home_slot, next_slot, find_slot, find_from,
  insert, insert_from,
}
use gpuinfra.Residency.Ring.{IsPowerOfTwo, home_slot-lt}
use gpuinfra.Residency.Probed.{
  occ, key_at, IsProbed, Stored, distance-lt, distance-injective, distance-next, next_slot-lt,
}
use gpuinfra.Residency.Count.{free_slot}
use gpuinfra.Residency.Valid.{IsValid, find_slot-stored}

-- `{key, entryIndex, true}`
abbrev pub taken_slot : GpuDataKey → ℕ → Slot
taken_slot key entry = record { key = key; entry_index = entry; occupied = true }

module _ (std : StdHash) (slots : List Slot) (key : GpuDataKey) (entry : ℕ) where
  -- The loop of `insert` stops where that of `findSlot` finds the key.
  pub insert_from-found :
      (probes c i : ℕ)
      → find_from std slots key probes c ≡ some i
      → insert_from std slots key entry probes c ≡ none
  unfolding find_from insert_from
  insert_from-found zero c i e = refl
  insert_from-found (suc probes) c i e =
      ground (arith, insert_from-found probes (next_slot (length slots) c) i)

  -- Where an insertion may place the key: a free slot, with every slot from the home to it taken.
  pub record IsPlace (i : ℕ) : Type 0 where
    pub in_range : i < length slots
    pub free : occ slots i ≡ false
    pub reached :
        (j : ℕ)
        → j < length slots
        → probe_distance (length slots) (home_slot std (length slots) key) j
          < probe_distance (length slots) (home_slot std (length slots) key) i
        → occ slots j ≡ true

  module _ (p : IsPowerOfTwo (length slots))
      (absent : (i : ℕ) → i < length slots → occ slots i ≡ true → key_at slots i ≢ key) (z : ℕ)
      (hz : z < length slots) (free : occ slots z ≡ false) where
    -- The probe of an absent key stops at a free slot at the latest when it meets `z`.
    insert_from-places :
        (probes c : ℕ)
        → c < length slots
        → probe_distance (length slots) (home_slot std (length slots) key) c
          ≤ probe_distance (length slots) (home_slot std (length slots) key) z
        → probe_distance (length slots) (home_slot std (length slots) key) z
          < probe_distance (length slots) (home_slot std (length slots) key) c + probes
        → ((j : ℕ)
            → j < length slots
            → probe_distance (length slots) (home_slot std (length slots) key) j
              < probe_distance (length slots) (home_slot std (length slots) key) c
            → occ slots j ≡ true)
        → (i : ℕ) × IsPlace i
          × (insert_from std slots key entry probes c ≡ some (set slots i (taken_slot key entry)))
    unfolding insert_from
    insert_from-places zero c hc le lt seen = absurd (omega arith)
    insert_from-places (suc probes) c hc le lt seen = elim (Bool-cases (occ slots c)) [
      | inr here ↦ (c, record { in_range = hc; free = here; reached = seen }, ground arith)
      | inl o ↦
          let n = length slots in
          let h = home_slot-lt std n key p in
          let home = home_slot std n key in
          let apart = distance-injective n home c z h hc hz in
          let dz = distance-lt n home z h hz in
          let far : probe_distance n home c < probe_distance n home z = ground arith in
          let step = distance-next n home c p h hc (omega arith) in
          let next = next_slot-lt n c p hc in
          let more : (j : ℕ)
              → j < n
              → probe_distance n home j < probe_distance n home (next_slot n c)
              → occ slots j ≡ true =
            λ j hj lj. ground (arith, seen j hj, distance-injective n home j c h hj hc) in
          let (i, place, e) =
            insert_from-places probes (next_slot n c) next (omega arith) (omega arith) more in
          (i, place, ground (arith, key_eq_iff (key_at slots c) key, absent c hc o))
    ]

  module _ (v : IsProbed std slots)
      (absent : (i : ℕ) → i < length slots → occ slots i ≡ true → key_at slots i ≢ key) (i : ℕ)
      (place : IsPlace i) where
    -- The new slots are probed too.
    pub set-IsProbed : IsProbed std (set slots i (taken_slot key entry))
    set-IsProbed =
        let n = length slots in
        let len = length-set slots i (taken_slot key entry) in
        let at = λ (j : ℕ). get_or-set slots i j (taken_slot key entry) empty_slot place.in_range in
        record {
          path = λ a b ha hb o d. ground (arith, at a, at b, v.path a b, place.reached b);
          distinct =
              λ a b ha hb oa ob e. ground (arith, at a, at b, v.distinct a b, absent a, absent b);
        }

    pub Stored-set :
        (k : GpuDataKey) (e : ℕ)
        → k ≢ key
        → Stored (set slots i (taken_slot key entry)) k e
        → Stored slots k e
    Stored-set k e ne (j, s) =
        let len = length-set slots i (taken_slot key entry) in
        let at = get_or-set slots i j (taken_slot key entry) empty_slot place.in_range in
        (j, ground (arith, s.in_range, s.taken, s.same_key, s.same_entry))

    pub set-Stored :
        (k : GpuDataKey) (e : ℕ)
        → Stored slots k e
        → Stored (set slots i (taken_slot key entry)) k e
    set-Stored k e (j, s) =
        let len = length-set slots i (taken_slot key entry) in
        let at = get_or-set slots i j (taken_slot key entry) empty_slot place.in_range in
        (j, ground (arith, s.in_range, s.taken, s.same_key, s.same_entry, place.free))

    pub set-Stored_self : Stored (set slots i (taken_slot key entry)) key entry
    set-Stored_self =
        let len = length-set slots i (taken_slot key entry) in
        let at = get_or-set slots i i (taken_slot key entry) empty_slot place.in_range in
        (i, ground (arith, place.in_range))

module _ (std : StdHash) (t : ResidencyTable) (v : IsValid std t) (key : GpuDataKey)
    (entry : ℕ) where
  pub absent_of_find_slot :
      find_slot std t.slots key ≡ none
      → (i : ℕ) → i < length t.slots
      → occ t.slots i ≡ true
      → key_at t.slots i ≢ key
  absent_of_find_slot miss i h o e = ground (arith, find_slot-stored std t v i key h o e)

  pub power_of_lt :
      t.resident_count < t.resident_limit → IsPowerOfTwo (length t.slots) × (t.initialized ≡ true)
  power_of_lt lt = elim v.shape [ inl z ↦ absurd (omega (arith, ap length z, v.roomy)) | inr p ↦ p ]

  pub insert-places :
      t.resident_count < t.resident_limit
      → find_slot std t.slots key ≡ none
      → (i : ℕ) × IsPlace std t.slots key entry i
        × (insert std t key entry ≡ (
          record t {
            slots = set t.slots i (taken_slot key entry);
            resident_count = t.resident_count + 1;
          },
          true,
        ))
  unfolding insert
  insert-places lt miss =
      let n = length t.slots in
      let (p, init) = power_of_lt lt in
      let h = home_slot-lt std n key p in
      let (z, hz, free) = free_slot t.slots (omega (arith, v.roomy, v.counted)) in
      let d = distance-lt n (home_slot std n key) z h hz in
      let (i, place, e) =
        insert_from-places std t.slots key entry p (absent_of_find_slot miss) z hz free n
          (home_slot std n key) h (ground arith) (ground arith)
          (λ j hj lj. absurd (ground arith)) in
      (i, place, ground arith)
