-- ===== src/Residency/Find.antt =====
-- `findSlot`: the bounded probe finds a key exactly where it is stored.
use gpuinfra.Prelude.{ℕ, zero, suc, ◌+◌, ◌≤◌, ◌<◌, ◌≡◌, true, List, some, length, arith}
use gpuinfra.Types.{GpuDataKey, StdHash, key_eq_iff}
use gpuinfra.Residency.{Slot, probe_distance, home_slot, next_slot, find_from, find_slot}
use gpuinfra.Residency.Ring.{IsPowerOfTwo, home_slot-lt}
use gpuinfra.Residency.Probed.{
  occ, key_at, home, IsProbed, distance-lt, distance-injective, distance-next, next_slot-lt,
}

module _ (std : StdHash) (slots : List Slot) (p : IsPowerOfTwo (length slots)) where
  -- What a probe returns is a slot of the key.
  pub find_from_sound :
      (key : GpuDataKey) (probes c i : ℕ)
      → c < length slots
      → find_from std slots key probes c ≡ some i
      → (i < length slots) × (occ slots i ≡ true) × (key_at slots i ≡ key)
  unfolding find_from
  find_from_sound key zero c i h e = ground arith
  find_from_sound key (suc probes) c i h e = ground (
    arith,
    key_eq_iff (key_at slots c) key,
    find_from_sound key probes (next_slot (length slots) c) i (next_slot-lt _ c p h),
  )

  module _ (v : IsProbed std slots) (i : ℕ) (hi : i < length slots) (o : occ slots i ≡ true) where
    -- A probe that starts on the path of a key reaches it.
    pub find_from-reaches :
        (probes c : ℕ)
        → c < length slots
        → probe_distance (length slots) (home std slots i) c
          ≤ probe_distance (length slots) (home std slots i) i
        → probe_distance (length slots) (home std slots i) i
          < probe_distance (length slots) (home std slots i) c + probes
        → find_from std slots (key_at slots i) probes c ≡ some i
    unfolding find_from
    find_from-reaches zero c hc le lt = absurd (omega arith)
    find_from-reaches (suc probes) c hc le lt =
        let n = length slots in
        let h = home_slot-lt std n (key_at slots i) p in
        ground (
          arith,
          key_eq_iff (key_at slots c) (key_at slots i),
          v.path i c,
          v.distinct c i,
          distance-lt n (home std slots i) i,
          distance-injective n (home std slots i) i c,
          distance-next n (home std slots i) c p,
          find_from-reaches probes (next_slot n c) (next_slot-lt n c p hc),
        )

    pub find_slot-reaches : find_slot std slots (key_at slots i) ≡ some i
    unfolding find_slot
    find_slot-reaches =
        let n = length slots in
        let h = home_slot-lt std n (key_at slots i) p in
        ground (arith, distance-lt n (home std slots i) i, find_from-reaches n (home std slots i) h)

  pub find_slot_sound :
      (key : GpuDataKey) (i : ℕ)
      → find_slot std slots key ≡ some i
      → (i < length slots) × (occ slots i ≡ true) × (key_at slots i ≡ key)
  unfolding find_slot
  find_slot_sound key i e =
      let n = length slots in
      ground (arith, find_from_sound key n (home_slot std n key) i (home_slot-lt std n key p))
