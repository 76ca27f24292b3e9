-- ===== src/Residency/Valid.antt =====
-- The invariant of a table, and `find` as membership.
use gpuinfra.Prelude.{
  ℕ, ◌*◌, ◌≤◌, ◌<◌, ◌≡◌, ◌⊎◌, inl, inr, ◌↔◌, true, [], some, none, length, arith, Option-cases, ap,
}
use gpuinfra.Types.{GpuDataKey, StdHash}
use gpuinfra.Residency.{ResidencyTable, find, find_slot}
use gpuinfra.Residency.Ring.{IsPowerOfTwo}
use gpuinfra.Residency.Probed.{Stored, IsProbed, key_at, occ}
use gpuinfra.Residency.Count.{taken_count}
use gpuinfra.Residency.Find.{find_slot-reaches, find_slot_sound}

module _ (std : StdHash) where
  pub record IsValid (t : ResidencyTable) : Type 0 where
    pub shape : (t.slots ≡ []) ⊎ (IsPowerOfTwo (length t.slots) × (t.initialized ≡ true))
    pub roomy : 2 * t.resident_limit ≤ length t.slots
    pub counted : t.resident_count ≡ taken_count t.slots
    pub bounded : t.resident_count ≤ t.resident_limit
    pub probed : IsProbed std t.slots

  module _ (t : ResidencyTable) (v : IsValid t) where
    find_slot-nil : (key : GpuDataKey) → t.slots ≡ [] → find_slot std t.slots key ≡ none
    unfolding find_slot
    find_slot-nil key e = ground arith

    pub find_slot-located :
        (key : GpuDataKey) (i : ℕ)
        → find_slot std t.slots key ≡ some i
        → (i < length t.slots) × (occ t.slots i ≡ true) × (key_at t.slots i ≡ key)
    find_slot-located key i e = elim v.shape [
      | inl z ↦ absurd (ground (arith, find_slot-nil key z))
      | inr (p, _) ↦ find_slot_sound std t.slots p key i e
    ]

    pub find_slot-stored :
        (i : ℕ) (key : GpuDataKey)
        → i < length t.slots
        → occ t.slots i ≡ true
        → key_at t.slots i ≡ key
        → find_slot std t.slots key ≡ some i
    find_slot-stored i key h o e = elim v.shape [
      | inl z ↦ absurd (omega (arith, ap length z))
      | inr (p, _) ↦ rw (← e) (find_slot-reaches std t.slots p v.probed i h o)
    ]

    pub initialized_of_lt : (i : ℕ) → i < length t.slots → t.initialized ≡ true
    initialized_of_lt i h = elim v.shape [
      | inl z ↦ absurd (omega (arith, ap length z))
      | inr (_, e) ↦ e
    ]

    pub find-Stored :
        (key : GpuDataKey) (entry : ℕ) → find std t key ≡ some entry → Stored t.slots key entry
    unfolding find
    find-Stored key entry e = elim (Option-cases (find_slot std t.slots key)) [
      | inl miss ↦ absurd (ground arith)
      | inr (i, hit) ↦ let at = find_slot-located key i hit in (i, ground arith)
    ]

    pub Stored-find :
        (key : GpuDataKey) (entry : ℕ) → Stored t.slots key entry → find std t key ≡ some entry
    unfolding find
    Stored-find key entry (i, s) =
        let hit = find_slot-stored i key s.in_range s.taken s.same_key in
        ground (arith, initialized_of_lt i s.in_range)

    -- In a valid table a lookup returns an entry index exactly when that entry is stored under the
    -- key.
    pub find-iff-Stored :
        (key : GpuDataKey) (entry : ℕ) → (find std t key ≡ some entry) ↔ Stored t.slots key entry
    find-iff-Stored key entry = (find-Stored key entry, Stored-find key entry)
