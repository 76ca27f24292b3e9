-- ===== src/Residency/Probed.antt =====
-- The invariant of linear probing, and what the table holds.
use gpuinfra.Prelude.{ℕ, ◌+◌, ◌<◌, ◌≡◌, ◌≢◌, Bool, true, List, length, arith}
use gpuinfra.Types.{GpuDataKey, StdHash}
use gpuinfra.Residency.{Slot, slot_at, probe_distance, home_slot, next_slot}
use gpuinfra.Residency.Ring.{IsPowerOfTwo, next_slot_lem}

abbrev pub occ : List Slot → ℕ → Bool
occ slots i = (slot_at slots i).occupied

abbrev pub key_at : List Slot → ℕ → GpuDataKey
key_at slots i = (slot_at slots i).key

-- The slot `i` holds the entry.
pub record StoredAt (slots : List Slot) (key : GpuDataKey) (entry i : ℕ) : Type 0 where
  pub in_range : i < length slots
  pub taken : occ slots i ≡ true
  pub same_key : key_at slots i ≡ key
  pub same_entry : (slot_at slots i).entry_index ≡ entry

-- The entry is in the table, wherever it stands.
abbrev pub Stored : List Slot → GpuDataKey → ℕ → Type 0
Stored slots key entry = (i : ℕ) × StoredAt slots key entry i

module _ (std : StdHash) where
  abbrev pub home : List Slot → ℕ → ℕ
  home slots i = home_slot std (length slots) (key_at slots i)

  -- Every slot from a key's home up to its place is taken, and no key is stored twice.
  pub record IsProbed (slots : List Slot) : Type 0 where
    pub path :
        (i j : ℕ)
        → i < length slots
        → j < length slots
        → occ slots i ≡ true
        → probe_distance (length slots) (home slots i) j
          < probe_distance (length slots) (home slots i) i
        → occ slots j ≡ true
    pub distinct :
        (i j : ℕ)
        → i < length slots
        → j < length slots
        → occ slots i ≡ true
        → occ slots j ≡ true
        → key_at slots i ≡ key_at slots j
        → i ≡ j

-- Distances from a home.
pub distance-lt : (n h i : ℕ) → h < n → i < n → probe_distance n h i < n
distance-lt n h i p q = ground arith

pub distance-injective :
    (n h i j : ℕ) → h < n → i < n → j < n → probe_distance n h i ≡ probe_distance n h j → i ≡ j
distance-injective n h i j p q r e = ground arith

pub distance-next :
    (n h i : ℕ)
    → IsPowerOfTwo n
    → h < n
    → i < n
    → probe_distance n h i + 1 < n
    → probe_distance n h (next_slot n i) ≡ probe_distance n h i + 1
distance-next n h i p hh hi r = rw (next_slot_lem n i p hi) (ground arith)

pub next_slot-lt : (n i : ℕ) → IsPowerOfTwo n → i < n → next_slot n i < n
next_slot-lt n i p h = rw (next_slot_lem n i p h) (ground arith)

pub distance-closer :
    (n i z : ℕ)
    → IsPowerOfTwo n
    → i < n
    → z < n
    → i ≢ z
    → probe_distance n (next_slot n i) z < probe_distance n i z
distance-closer n i z p hi hz ne = rw (next_slot_lem n i p hi) (ground arith)

-- Behind `e` on the way from `h` to `i`, and closer to `e` than `i` is: also on the way to `i`.
pub distance-between :
    (n h e s i : ℕ)
    → h < n
    → e < n
    → s < n
    → i < n
    → probe_distance n h e < probe_distance n h i
    → probe_distance n e s < probe_distance n e i
    → probe_distance n h s < probe_distance n h i
distance-between n h e s i hh he hs hi a b = ground arith
