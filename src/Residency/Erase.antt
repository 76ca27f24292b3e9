-- ===== src/Residency/Erase.antt =====
-- `eraseSlot` and `erase`: the closed gap leaves a probed table without the key.
use gpuinfra.Prelude.{
  ℕ, ◌+◌, ◌≤◌, ◌<◌, ◌≡◌, ◌≢◌, ◌↔◌, true, false, List, length, set, arith, get_or-set, length-set,
  ◌∙◌,
}
use gpuinfra.Types.{GpuDataKey, StdHash}
use gpuinfra.Residency.{
  Slot, EraseScan, empty_slot, probe_distance, next_slot, erase_slot, erase_end, erase_scan,
}
use gpuinfra.Residency.Ring.{IsPowerOfTwo, home_slot-lt}
use gpuinfra.Residency.Probed.{
  occ, key_at, home, IsProbed, Stored, distance-lt, distance-injective, distance-next,
  distance-closer, distance-between, next_slot-lt,
}
use gpuinfra.Residency.Count.{taken_count, taken_count-set}
use gpuinfra.Residency.Gap.{Kept, IsGap, erase_scan-stops}

module _ (std : StdHash) (z : ℕ) (s : EraseScan) (g : IsGap std z s) where
  -- When the scan has met a free slot, no entry has the gap on its path.
  gap_uncrossed :
      occ s.slots s.scan_index ≡ false
      → (i : ℕ) → i < length s.slots
      → i ≢ s.empty_index
      → occ s.slots i ≡ true
      → ¬ (
          probe_distance (length s.slots) (home std s.slots i) s.empty_index
          < probe_distance (length s.slots) (home std s.slots i) i)
  gap_uncrossed stop i hi ne o d =
      let n = length s.slots in
      let h = home_slot-lt std n (key_at s.slots i) g.power in
      let apart : s.scan_index ≢ i = ground arith in
      let le = g.ahead i hi ne o d in
      let lt : probe_distance n s.empty_index s.scan_index < probe_distance n s.empty_index i =
        ground (arith, distance-injective n s.empty_index s.scan_index i g.gap_lt g.scan_lt hi) in
      let on =
        distance-between n (home std s.slots i) s.empty_index s.scan_index i h g.gap_lt g.scan_lt hi
          d lt in
      let taken = g.path i s.scan_index hi g.scan_lt ne o on in cc (taken, stop)

  -- Clearing the gap then leaves a probed table.
  closed-IsProbed :
      occ s.slots s.scan_index ≡ false → IsProbed std (set s.slots s.empty_index empty_slot)
  closed-IsProbed stop =
      let len = length-set s.slots s.empty_index empty_slot in
      let at = λ (j : ℕ). get_or-set s.slots s.empty_index j empty_slot empty_slot g.gap_lt in
      record {
        path = λ i j hi hj o d. ground (arith, at i, at j, g.path i j, gap_uncrossed stop i);
        distinct = λ i j hi hj oi oj e. ground (arith, at i, at j, g.distinct i j);
      }

  Stored-closed :
      (k : GpuDataKey) (e : ℕ) → Stored (set s.slots s.empty_index empty_slot) k e → Kept s k e
  Stored-closed k e (i, h) =
      let len = length-set s.slots s.empty_index empty_slot in
      let at = get_or-set s.slots s.empty_index i empty_slot empty_slot g.gap_lt in
      (i, ground (arith, h.in_range, h.taken, h.same_key, h.same_entry))

  closed-Stored :
      (k : GpuDataKey) (e : ℕ) → Kept s k e → Stored (set s.slots s.empty_index empty_slot) k e
  closed-Stored k e (i, h) =
      let len = length-set s.slots s.empty_index empty_slot in
      let at = get_or-set s.slots s.empty_index i empty_slot empty_slot g.gap_lt in
      (i, ground (arith, h.stored, h.beside))

-- The loop of `eraseSlot` before its first round.
abbrev pub start : List Slot → ℕ → EraseScan
start slots i = record { slots = slots; empty_index = i; scan_index = next_slot (length slots) i }

-- The slots after `eraseSlot`: probed, one entry fewer, and every other key's entry kept.
pub record Erased (std : StdHash) (slots : List Slot) (i : ℕ) (slots' : List Slot) : Type 0 where
  pub size : length slots' ≡ length slots
  pub count : taken_count slots' + 1 ≡ taken_count slots
  pub probed : IsProbed std slots'
  pub entries :
      (k : GpuDataKey) (e : ℕ) → Stored slots' k e ↔ (Stored slots k e × (k ≢ key_at slots i))

module _ (std : StdHash) (slots : List Slot) (p : IsPowerOfTwo (length slots))
    (v : IsProbed std slots) (z : ℕ) (hz : z < length slots) (free : occ slots z ≡ false) (i : ℕ)
    (hi : i < length slots) (o : occ slots i ≡ true) where
  pub start-IsGap : IsGap std z (start slots i)
  start-IsGap =
      let n = length slots in
      let ne : i ≢ z = λ e. ground arith in
      let dz = distance-lt n i z hi hz in
      let closer = distance-closer n i z p hi hz ne in
      let far : 1 ≤ probe_distance n i z = omega arith in
      let step = distance-next n i i p hi hi (ground arith) in
      record {
        power = p;
        gap_lt = hi;
        scan_lt = next_slot-lt n i p hi;
        free_lt = hz;
        free = free;
        gap_taken = o;
        scan_ne = λ e. ground arith;
        before_free = ground arith;
        path = λ a b ha hb na oa d. v.path a b ha hb oa d;
        distinct = λ a b ha hb na nb oa ob e. v.distinct a b ha hb oa ob e;
        ahead = λ a ha na oa d. ground (arith, distance-injective n i i a hi hi ha);
      }

  Kept-start :
      (k : GpuDataKey) (e : ℕ) → Stored slots k e → k ≢ key_at slots i → Kept (start slots i) k e
  Kept-start k e (a, h) ne =
      (a, record { stored = h; beside = λ same. ne (ground (arith, h.same_key)) })

  start-Kept :
      (k : GpuDataKey) (e : ℕ) → Kept (start slots i) k e → Stored slots k e × (k ≢ key_at slots i)
  start-Kept k e (a, h) = (
    (a, h.stored),
    λ same.
        h.beside (v.distinct a i h.stored.in_range hi h.stored.taken o (ground (arith, h.stored))),
  )

  pub erase_slot-Erased : Erased std slots i (erase_slot std slots i)
  unfolding erase_slot erase_end
  erase_slot-Erased =
      let n = length slots in
      let next = next_slot-lt n i p hi in
      let (g, k, stop) =
        erase_scan-stops std n z (start slots i) start-IsGap
          (distance-lt n (next_slot n i) z next hz) in
      let end = erase_scan std n (start slots i) in
      record {
        size = length-set end.slots end.empty_index empty_slot ∙ k.size;
        count = ground (
          arith,
          taken_count-set end.slots end.empty_index empty_slot g.gap_lt,
          g.gap_taken,
          k.count,
        );
        probed = closed-IsProbed std z end g stop;
        entries = λ key e. (
          λ h. start-Kept key e ((k.entries key e).1 (Stored-closed std z end g key e h)),
          λ (h, ne). closed-Stored std z end g key e ((k.entries key e).0 (Kept-start key e h ne)),
        );
      }
