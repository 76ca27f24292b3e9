-- ===== src/Residency.antt =====
-- src/DataCache/GpuResidencyTable.{h,cpp}: the fixed-capacity linear-probing table from a key to
-- the index of the cache entry that holds it. `NO_SLOT` is `none`; a method returns the new table
-- beside its result.
pub mod Ring
pub mod Probed
pub mod Find
pub mod Count
pub mod Valid
pub mod Insert
pub mod InsertLaws
pub mod Gap
pub mod Erase
pub mod EraseLaws
pub mod Init
mod Tests
use gpuinfra.Prelude.{
  ℕ, zero, suc, ◌+◌, ◌-◌, ◌*◌, ◌/◌, ◌%◌, ◌≤◌, Bool, true, false, not, ◌||◌, ◌&&◌, Option, none,
  some, List, [], bit_and, ltb, leb, ◌==◌, if◌then◌else◌, size_mod, size_max, length, get_or, set,
  replicate,
}
use gpuinfra.Types.{GpuDataKey, default_key, key_eq, StdHash, key_hash}

-- `GpuResidencyTable::Slot`
pub record Slot : Type 0 where
  pub key : GpuDataKey
  pub entry_index : ℕ
  pub occupied : Bool

-- `Slot()`
abbrev pub empty_slot : Slot
empty_slot = record { key = default_key; entry_index = 0; occupied = false }

-- the members of `GpuResidencyTable`
pub record ResidencyTable : Type 0 where
  pub slots : List Slot
  pub resident_limit : ℕ
  pub resident_count : ℕ
  pub initialized : Bool

-- a default-constructed table
abbrev pub new_table : ResidencyTable
new_table = record { slots = []; resident_limit = 0; resident_count = 0; initialized = false }

abbrev pub is_empty {ℓ} : {A : Type ℓ} → List A → Bool
is_empty xs = length xs == 0

-- `slots[i]`, for an index in range
abbrev pub slot_at : List Slot → ℕ → Slot
slot_at slots i = get_or slots i empty_slot

-- The loop that doubles the slot count; `none` is the `return false` on overflow.
unfoldable pub grow_slots : ℕ → ℕ → ℕ → Option ℕ
grow_slots zero required count = some count
grow_slots (suc fuel) required count =
    let rest = grow_slots fuel required (count * 2) in
    if ltb count required then if ltb (size_max / 2) count then none else rest else some count

-- `requiredSlots`, with the test that guards its multiplication.
unfoldable pub required_slots : ℕ → Option ℕ
required_slots max_entries =
    if max_entries == 0
    then some 0
    else (if ltb (size_max / 2) max_entries then none else some (max_entries * 2))

-- The slot count that `initialize` settles on; 65 rounds double 1 past any 64-bit size.
unfoldable pub slot_count_for : ℕ → Option ℕ
slot_count_for max_entries = elim (required_slots max_entries) [
  | none ↦ none
  | some required ↦ grow_slots 65 required (if required == 0 then 0 else 1)
]

-- `initialize`. `resize_ok` is whether the allocation of the slots succeeds.
unfoldable pub initialize : Bool → ResidencyTable → ℕ → ResidencyTable × Bool
initialize resize_ok t max_entries =
    if t.initialized
      || not (is_empty t.slots)
      || not (t.resident_limit == 0)
      || not (t.resident_count == 0)
    then (t, false)
    else elim (slot_count_for max_entries) [
      | none ↦ (t, false)
      | some count ↦
          if resize_ok
          then (
            record {
              slots = replicate count empty_slot;
              resident_limit = max_entries;
              resident_count = 0;
              initialized = true;
            },
            true,
          )
          else (t, false)
    ]

-- `clear`
unfoldable pub clear : ResidencyTable → ResidencyTable
clear t = record t { slots = replicate (length t.slots) empty_slot; resident_count = 0 }

-- `release`
unfoldable pub release : ResidencyTable → ResidencyTable
release t = new_table

-- `slots.size() - 1` on a `size_t`
abbrev pub slot_mask : ℕ → ℕ
slot_mask count = (count + size_mod - 1) % size_mod

-- `nextSlot`, for a table of `count` slots
unfoldable pub next_slot : ℕ → ℕ → ℕ
next_slot count index = bit_and ((index + 1) % size_mod) (slot_mask count)

-- `probeDistance`
abbrev pub probe_distance : ℕ → ℕ → ℕ → ℕ
probe_distance count home index = if leb home index then index - home else count - (home - index)

-- The variables of the loop in `eraseSlot`.
pub record EraseScan : Type 0 where
  pub slots : List Slot
  pub empty_index : ℕ
  pub scan_index : ℕ

module _ (std : StdHash) where
  -- `homeSlot`
  unfoldable pub home_slot : ℕ → GpuDataKey → ℕ
  home_slot count key = bit_and (key_hash std key) (slot_mask count)

  -- The loop of `findSlot`, with the number of probes left.
  unfoldable pub find_from : List Slot → GpuDataKey → ℕ → ℕ → Option ℕ
  find_from slots key zero index = none
  find_from slots key (suc probes) index =
      let rest = find_from slots key probes (next_slot (length slots) index) in
      if not (slot_at slots index).occupied
      then none
      else (if key_eq (slot_at slots index).key key then some index else rest)

  -- `findSlot`
  unfoldable pub find_slot : List Slot → GpuDataKey → Option ℕ
  find_slot slots key =
      if is_empty slots
      then none
      else find_from slots key (length slots) (home_slot (length slots) key)

  -- `find`: the entry index, if the key is resident
  unfoldable pub find : ResidencyTable → GpuDataKey → Option ℕ
  find t key = if not t.initialized then none else elim (find_slot t.slots key) [
    | none ↦ none
    | some index ↦ some (slot_at t.slots index).entry_index
  ]

  -- The loop of `insert`; `none` is its `return false`.
  unfoldable pub insert_from : List Slot → GpuDataKey → ℕ → ℕ → ℕ → Option (List Slot)
  insert_from slots key entry zero index = none
  insert_from slots key entry (suc probes) index =
      let rest = insert_from slots key entry probes (next_slot (length slots) index) in
      if not (slot_at slots index).occupied
      then some (set slots index (record { key = key; entry_index = entry; occupied = true }))
      else (if key_eq (slot_at slots index).key key then none else rest)

  -- `insert`
  unfoldable pub insert : ResidencyTable → GpuDataKey → ℕ → ResidencyTable × Bool
  insert t key entry =
      if not t.initialized || leb t.resident_limit t.resident_count || is_empty t.slots
      then (t, false)
      else elim (insert_from t.slots key entry (length t.slots) (home_slot (length t.slots) key)) [
        | none ↦ (t, false)
        | some slots ↦ (record t { slots = slots; resident_count = t.resident_count + 1 }, true)
      ]

  -- The loop's body: an entry whose probe path crosses the gap moves back into it.
  unfoldable pub erase_step : EraseScan → EraseScan
  erase_step s =
      let count = length s.slots in
      let scanned = slot_at s.slots s.scan_index in
      let home = home_slot count scanned.key in
      if ltb (probe_distance count home s.empty_index) (probe_distance count home s.scan_index)
      then record {
        slots = set s.slots s.empty_index scanned;
        empty_index = s.scan_index;
        scan_index = next_slot count s.scan_index;
      }
      else record s { scan_index = next_slot count s.scan_index }

  -- `while (slots[scanIndex].occupied)`
  unfoldable pub erase_scan : ℕ → EraseScan → EraseScan
  erase_scan zero s = s
  erase_scan (suc fuel) s =
      let rest = erase_scan fuel (erase_step s) in
      if (slot_at s.slots s.scan_index).occupied then rest else s

  -- The loop of `eraseSlot`, with one round for each slot.
  unfoldable pub erase_end : List Slot → ℕ → EraseScan
  erase_end slots index =
      erase_scan (length slots)
        (record { slots = slots; empty_index = index; scan_index = next_slot (length slots) index })

  -- `eraseSlot`
  unfoldable pub erase_slot : List Slot → ℕ → List Slot
  erase_slot slots index =
      let end = erase_end slots index in set end.slots end.empty_index empty_slot

  -- `erase`
  unfoldable pub erase : ResidencyTable → GpuDataKey → ℕ → ResidencyTable × Bool
  erase t key entry = if not t.initialized then (t, false) else elim (find_slot t.slots key) [
    | none ↦ (t, false)
    | some index ↦ if not ((slot_at t.slots index).entry_index == entry) then (t, false) else (
      record t { slots = erase_slot t.slots index; resident_count = t.resident_count - 1 },
      true,
    )
  ]
