-- ===== src/Residency/Tests.antt =====
-- Runs of the table, and its theorems at concrete inputs.
use gpuinfra.Prelude.{ℕ, ◌*◌, ◌^◌, ◌≤◌, ◌≡◌, ◌↔◌, refl, inl, true, false, some, length, arith}
use gpuinfra.Types.{GpuDataKey, StdHash, key_eq, hash_mix, key_hash}
use gpuinfra.Residency.{
  ResidencyTable, new_table, grow_slots, required_slots, slot_count_for, initialize, clear, release,
  next_slot, home_slot, find_from, find_slot, find, insert_from, insert, erase_step, erase_scan,
  erase_end, erase_slot, erase,
}
use gpuinfra.Residency.Probed.{Stored, occ}
use gpuinfra.Residency.Valid.{IsValid, find-iff-Stored}
use gpuinfra.Residency.InsertLaws.{insert-find, insert_refused}
use gpuinfra.Residency.EraseLaws.{erase-find, erase_refused, erase_end-stops}
use gpuinfra.Residency.Init.{IsFresh, initialize-IsFresh, initialize_refused}

program : Unit {0}
unfolding key_eq hash_mix key_hash grow_slots required_slots slot_count_for initialize clear release
    next_slot home_slot find_from find_slot find insert_from insert erase_step erase_scan erase_end
    erase_slot erase
program = tt

-- a standard library whose hash of an integer is the integer
abbrev std : StdHash
std = record { hash_u64 = λ n. n; hash_u32 = λ n. n }

abbrev key : ℕ → GpuDataKey
key n = record { frame_id = n; camera_id = 0; variant_id = 0 }

abbrev empty_table : ResidencyTable
empty_table = (initialize true new_table 2).0

abbrev one_key : ResidencyTable
one_key = (insert std empty_table (key 1) 7).0

abbrev two_keys : ResidencyTable
two_keys = (insert std one_key (key 5) 8).0

find-two_keys : find std two_keys (key 5) ≡ some 8
unfolding program
find-two_keys = refl

find-erase : find std (erase std two_keys (key 1) 7).0 (key 5) ≡ some 8
unfolding program
find-erase = refl

fresh : IsFresh std 2 empty_table
fresh = (initialize-IsFresh std 2 (omega arith)).1

initialize-IsFresh_example :
    ((initialize true new_table 2).1 ≡ true)
    × IsFresh std 2 (initialize true new_table 2).0
    × (length (initialize true new_table 2).0.slots ≤ 4 * 2)
initialize-IsFresh_example = initialize-IsFresh std 2 (omega arith)

initialize_refused_example : initialize true new_table (2 ^ 63) ≡ (new_table, false)
initialize_refused_example = initialize_refused std true new_table (2 ^ 63) (inl (omega arith))

one_key-IsValid : IsValid std one_key
one_key-IsValid =
    (insert-find std empty_table fresh.valid (key 1) 7
      (omega (arith, fresh.none_resident, fresh.capacity)) (fresh.misses (key 1))).1

two_keys-IsValid : IsValid std two_keys
unfolding program
two_keys-IsValid = (insert-find std one_key one_key-IsValid (key 5) 8 (omega arith) refl).1

find-iff-Stored_example : (find std one_key (key 1) ≡ some 7) ↔ Stored one_key.slots (key 1) 7
find-iff-Stored_example = find-iff-Stored std one_key one_key-IsValid (key 1) 7

insert-find_example : (insert std one_key (key 5) 8).1 ≡ true
unfolding program
insert-find_example = (insert-find std one_key one_key-IsValid (key 5) 8 (omega arith) refl).0

insert_refused_example : insert std two_keys (key 9) 3 ≡ (two_keys, false)
unfolding program
insert_refused_example = insert_refused std two_keys two_keys-IsValid (key 9) 3 (inl (omega arith))

erase-find_example : (erase std two_keys (key 1) 7).1 ≡ true
unfolding program
erase-find_example = (erase-find std two_keys two_keys-IsValid (key 1) 7 refl).0

erase_refused_example : erase std two_keys (key 1) 9 ≡ (two_keys, false)
unfolding program
erase_refused_example = erase_refused std two_keys two_keys-IsValid (key 1) 9 (λ e. ground arith)

erase_end-stops_example : occ (erase_end std two_keys.slots 2).slots 0 ≡ false
unfolding program
erase_end-stops_example = erase_end-stops std two_keys two_keys-IsValid (key 1) 2 refl
