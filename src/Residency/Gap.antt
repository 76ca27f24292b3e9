-- ===== src/Residency/Gap.antt =====
-- The loop of `eraseSlot`: entries behind the gap move back over it until a free slot is met.
use gpuinfra.Prelude.{
  ℕ, zero, suc, ◌≤◌, ◌<◌, ◌≡◌, ◌≢◌, refl, inl, inr, true, false, length, set, arith, Bool-cases,
  ◌==◌, if◌then◌else◌, ◌↔◌, ltb, get_or-set, length-set, sym, subst, ◌∙◌,
}
use native.Mathlib.Decide.{ℕ_discrete}
use gpuinfra.Types.{GpuDataKey, StdHash}
use gpuinfra.Residency.{
  EraseScan, slot_at, empty_slot, probe_distance, next_slot, erase_step, erase_scan,
}
use gpuinfra.Residency.Ring.{IsPowerOfTwo}
use gpuinfra.Residency.Probed.{
  occ, key_at, home, StoredAt, distance-lt, distance-injective, distance-next, distance-closer,
  next_slot-lt,
}
use gpuinfra.Residency.Count.{taken_count, taken_count-set}

-- The entry stands in a slot other than the gap.
pub record KeptAt (s : EraseScan) (key : GpuDataKey) (entry i : ℕ) : Type 0 where
  pub stored : StoredAt s.slots key entry i
  pub beside : i ≢ s.empty_index

abbrev pub Kept : EraseScan → GpuDataKey → ℕ → Type 0
Kept s key entry = (i : ℕ) × KeptAt s key entry i

-- What rounds of the loop keep of a state.
pub record Keeps (s s' : EraseScan) : Type 0 where
  pub size : length s'.slots ≡ length s.slots
  pub count : taken_count s'.slots ≡ taken_count s.slots
  pub entries : (k : GpuDataKey) (e : ℕ) → Kept s k e ↔ Kept s' k e

Keeps-refl : (s : EraseScan) → Keeps s s
Keeps-refl s = record { size = refl; count = refl; entries = λ k e. (λ h. h, λ h. h) }

Keeps-trans : (s t u : EraseScan) → Keeps s t → Keeps t u → Keeps s u
Keeps-trans s t u p q = record {
  size = q.size ∙ p.size;
  count = q.count ∙ p.count;
  entries = λ k e.
      (λ h. (q.entries k e).0 ((p.entries k e).0 h), λ h. (p.entries k e).1 ((q.entries k e).1 h));
}

module _ (std : StdHash) where
  -- The loop invariant: the slots but the gap are probed, only entries from the scan index on have
  -- the gap on their path, and the free slot `z` lies ahead.
  pub record IsGap (z : ℕ) (s : EraseScan) : Type 0 where
    pub power : IsPowerOfTwo (length s.slots)
    pub gap_lt : s.empty_index < length s.slots
    pub scan_lt : s.scan_index < length s.slots
    pub free_lt : z < length s.slots
    pub free : occ s.slots z ≡ false
    pub gap_taken : occ s.slots s.empty_index ≡ true
    pub scan_ne : s.scan_index ≢ s.empty_index
    pub before_free :
        probe_distance (length s.slots) s.empty_index s.scan_index
        ≤ probe_distance (length s.slots) s.empty_index z
    pub path :
        (i j : ℕ)
        → i < length s.slots
        → j < length s.slots
        → i ≢ s.empty_index
        → occ s.slots i ≡ true
        → probe_distance (length s.slots) (home std s.slots i) j
          < probe_distance (length s.slots) (home std s.slots i) i
        → occ s.slots j ≡ true
    pub distinct :
        (i j : ℕ)
        → i < length s.slots
        → j < length s.slots
        → i ≢ s.empty_index
        → j ≢ s.empty_index
        → occ s.slots i ≡ true
        → occ s.slots j ≡ true
        → key_at s.slots i ≡ key_at s.slots j
        → i ≡ j
    pub ahead :
        (i : ℕ)
        → i < length s.slots
        → i ≢ s.empty_index
        → occ s.slots i ≡ true
        → probe_distance (length s.slots) (home std s.slots i) s.empty_index
          < probe_distance (length s.slots) (home std s.slots i) i
        → probe_distance (length s.slots) s.empty_index s.scan_index
          ≤ probe_distance (length s.slots) s.empty_index i

  module _ (z : ℕ) (s : EraseScan) (g : IsGap z s) (o : occ s.slots s.scan_index ≡ true) where
    -- The two results of a step.
    abbrev moved : EraseScan
    moved = record {
      slots = set s.slots s.empty_index (slot_at s.slots s.scan_index);
      empty_index = s.scan_index;
      scan_index = next_slot (length s.slots) s.scan_index;
    }

    abbrev passed : EraseScan
    passed = record s { scan_index = next_slot (length s.slots) s.scan_index }

    scan_ne_free : s.scan_index ≢ z
    scan_ne_free e = ground (arith, g.free)

    passed-IsGap :
        probe_distance (length s.slots) (home std s.slots s.scan_index) s.scan_index
          ≤ probe_distance (length s.slots) (home std s.slots s.scan_index) s.empty_index
        → IsGap z passed
    passed-IsGap le =
        let n = length s.slots in
        let strict : probe_distance n s.empty_index s.scan_index
            < probe_distance n s.empty_index z =
          ground (
            arith,
            g.before_free,
            distance-injective n s.empty_index s.scan_index z g.gap_lt g.scan_lt g.free_lt,
            scan_ne_free,
          ) in
        let dz = distance-lt n s.empty_index z g.gap_lt g.free_lt in
        let step =
          distance-next n s.empty_index s.scan_index g.power g.gap_lt g.scan_lt (omega arith) in
        record {
          power = g.power;
          gap_lt = g.gap_lt;
          scan_lt = next_slot-lt n s.scan_index g.power g.scan_lt;
          free_lt = g.free_lt;
          free = g.free;
          gap_taken = g.gap_taken;
          scan_ne = λ e. ground arith;
          before_free = omega arith;
          path = g.path;
          distinct = g.distinct;
          ahead = λ i hi ne oi d. ground (
            arith,
            g.ahead i hi ne oi d,
            distance-injective n s.empty_index s.scan_index i g.gap_lt g.scan_lt hi,
          );
        }

    moved-IsGap :
        probe_distance (length s.slots) (home std s.slots s.scan_index) s.empty_index
          < probe_distance (length s.slots) (home std s.slots s.scan_index) s.scan_index
        → IsGap z moved
    moved-IsGap lt =
        let n = length s.slots in
        let v = slot_at s.slots s.scan_index in
        let len = length-set s.slots s.empty_index v in
        let at = λ (j : ℕ). get_or-set s.slots s.empty_index j v empty_slot g.gap_lt in
        let here = scan_ne_free in
        let dz = distance-lt n s.scan_index z g.scan_lt g.free_lt in
        let pos : 1 ≤ probe_distance n s.scan_index z =
          ground (
            arith,
            distance-injective n s.scan_index s.scan_index z g.scan_lt g.scan_lt g.free_lt,
          ) in
        let step =
          distance-next n s.scan_index s.scan_index g.power g.scan_lt g.scan_lt (ground arith) in
        record {
          power = subst IsPowerOfTwo (sym len) g.power;
          gap_lt = rw len g.scan_lt;
          scan_lt = rw len (next_slot-lt n s.scan_index g.power g.scan_lt);
          free_lt = rw len g.free_lt;
          free = ground (arith, at z, g.free, g.gap_taken);
          gap_taken = ground (arith, at s.scan_index, o);
          scan_ne = λ e. ground arith;
          before_free = rw len (ground arith);
          path = λ i j hi hj ne oi d. ground (
            arith,
            lt,
            at i,
            at j,
            g.gap_taken,
            g.path i j,
            g.path s.scan_index j g.scan_lt,
            g.scan_ne,
          );
          distinct = λ i j hi hj ni nj oi oj e. ground (
            arith,
            at i,
            at j,
            g.scan_ne,
            g.distinct i j,
            g.distinct s.scan_index j g.scan_lt,
            g.distinct i s.scan_index,
          );
          ahead = λ i hi ne oi d.
              ground (arith, distance-injective n s.scan_index s.scan_index i g.scan_lt g.scan_lt);
        }

    at_moved :
        (j : ℕ)
        → slot_at moved.slots j
          ≡ (if s.empty_index == j then slot_at s.slots s.scan_index else slot_at s.slots j)
    at_moved j =
        get_or-set s.slots s.empty_index j (slot_at s.slots s.scan_index) empty_slot g.gap_lt

    length-moved : length moved.slots ≡ length s.slots
    length-moved = length-set s.slots s.empty_index (slot_at s.slots s.scan_index)

    -- A move keeps every entry: the one at the scan index now stands in the old gap.
    Kept-moved : (k : GpuDataKey) (e : ℕ) → Kept s k e → Kept moved k e
    Kept-moved k e (i, kept) =
        let len = length-moved in
        elim (ℕ_discrete i s.scan_index) [
          | yes here ↦ (
            s.empty_index,
            ground (arith, at_moved s.empty_index, g.gap_lt, g.scan_ne, kept.stored, kept.beside),
          )
          | no away ↦ (i, ground (arith, at_moved i, kept.stored, kept.beside))
        ]

    moved-Kept : (k : GpuDataKey) (e : ℕ) → Kept moved k e → Kept s k e
    moved-Kept k e (i, kept) =
        let len = length-moved in
        elim (ℕ_discrete i s.empty_index) [
          | yes here ↦ (
            s.scan_index,
            ground (arith, at_moved i, g.scan_lt, g.scan_ne, o, kept.stored, kept.beside),
          )
          | no away ↦ (i, ground (arith, at_moved i, kept.stored, kept.beside))
        ]

    taken_count-moved : taken_count moved.slots ≡ taken_count s.slots
    taken_count-moved =
        let c = taken_count-set s.slots s.empty_index (slot_at s.slots s.scan_index) g.gap_lt in
        ground (arith, g.gap_taken)

    -- One round keeps the invariant and the entries, and comes closer to the free slot.
    erase_step-IsGap :
        IsGap z (erase_step std s)
        × Keeps s (erase_step std s)
        × (probe_distance (length s.slots) (erase_step std s).scan_index z
            < probe_distance (length s.slots) s.scan_index z)
    unfolding erase_step
    erase_step-IsGap =
        elim (Bool-cases (
          ltb (probe_distance n home_index s.empty_index)
            (probe_distance n home_index s.scan_index))) [
              | inl back ↦
                  rw (back, erase_step)
                    (
                      moved-IsGap (ground arith),
                      record {
                        size = length-moved;
                        count = taken_count-moved;
                        entries = λ k e. (Kept-moved k e, moved-Kept k e);
                      },
                      distance-closer n s.scan_index z g.power g.scan_lt g.free_lt scan_ne_free,
                    )
              | inr stay ↦
                  rw (stay, erase_step)
                    (
                      passed-IsGap (ground arith),
                      record {
                        size = refl;
                        count = refl;
                        entries = λ k e. (
                          λ (i, h). (i, record { stored = h.stored; beside = h.beside }),
                          λ (i, h). (i, record { stored = h.stored; beside = h.beside }),
                        );
                      },
                      distance-closer n s.scan_index z g.power g.scan_lt g.free_lt scan_ne_free,
                    )
            ]
      where
        n : ℕ
        n = length s.slots

        home_index : ℕ
        home_index = home std s.slots s.scan_index

  -- With one round for each slot the loop ends by its test, at a free slot.
  pub erase_scan-stops :
      (fuel z : ℕ) (s : EraseScan)
      → IsGap z s
      → probe_distance (length s.slots) s.scan_index z < fuel
      → IsGap z (erase_scan std fuel s)
        × Keeps s (erase_scan std fuel s)
        × (occ (erase_scan std fuel s).slots (erase_scan std fuel s).scan_index ≡ false)
  unfolding erase_scan
  erase_scan-stops zero z s g h = absurd (omega arith)
  erase_scan-stops (suc fuel) z s g h = elim (Bool-cases (occ s.slots s.scan_index)) [
    | inr stop ↦ rw stop (g, Keeps-refl s, stop)
    | inl more ↦ rw more (
        let (g', k, closer) = erase_step-IsGap z s g more in
        let (final, k', stop) =
          erase_scan-stops fuel z (erase_step std s) g' (rw k.size (omega arith)) in
        (final, Keeps-trans _ _ _ k k', stop))
  ]
