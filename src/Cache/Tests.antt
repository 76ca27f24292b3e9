-- ===== src/Cache/Tests.antt =====
-- Runs of the cache, and its theorems at concrete inputs.
use gpuinfra.Prelude.{
  ℕ, zero, suc, ◌+◌, ◌<◌, ◌≡◌, refl, true, false, [], ◌∷◌, ◌++◌, some, none, arith, inl,
  if◌then◌else◌, ◌==◌,
}
use gpuinfra.Prelude.Int.{pos}
use gpuinfra.Types.{StdHash, FrameMetadata, key_eq, hash_mix, key_hash, metadata_eq}
use gpuinfra.Entry.{
  initialize_entry, replica_data, replicas_valid, invalidated, marked, has_replica,
}
use gpuinfra.Residency.{
  grow_slots, required_slots, slot_count_for, initialize, clear, next_slot, home_slot, find_from,
  find_slot, find, insert_from, insert, erase_step, erase_scan, erase_end, erase_slot, erase,
}
use gpuinfra.Access.{lru, GpuDataAccess, no_access, keep}
use gpuinfra.Cache.{GpuDataCache, GpuCacheRequest, new_cache, entry_at, full_timeout}
use gpuinfra.Cache.Lists.{
  set_next_evictable, set_previous_evictable, mark_evictable, add_evictable_entry,
  remove_evictable_entry, add_filled_entry, remove_filled_entry, first_idle, take_evictable,
  take_candidate, restore_candidate,
}
use gpuinfra.Cache.Chain.{Threads}
use gpuinfra.Cache.Evictable.{evictable, add-Threads, remove-Threads}
use gpuinfra.Cache.Lookup.{
  Outcome, returned, asleep, count_fallback, make_access, make_fallback_access, is_eligible,
  is_acceptable, begin_wait, end_wait, wait_or_fall_back, blocked_by_loading, blocked_by_full,
  grant_hit, lease_hit, on_resident, start_fill, claim_candidate, use_empty, use_evicted, on_absent,
  pass, get_cache_data, wake, new_request,
}
use gpuinfra.Cache.Finish.{
  note_sync_failure, matches, reset_entry, release_reader_entry, complete_fallback, complete_hit,
  publish_fill, complete_fill, named_entry, complete_access, free_cache_data, abort_access,
}
use gpuinfra.Cache.Manage.{
  is_pristine, is_one_gpu, make_entries, ascending, initialize_cache, all_idle, can_reset,
  clear_entries, reset_entries, reset_cache,
}
use gpuinfra.Cache.Counted.{Counts, tally}
use gpuinfra.Cache.Counted.Requests.{get_cache_data-Counts, wake-Counts}
use gpuinfra.Cache.Settled.{ledger, settle_access, complete_access-settles, free_cache_data-refuses}
use gpuinfra.Cache.RoundTrip.{complete_access-make_fallback_access}
use gpuinfra.Cache.Startup.{IsReady, initialize_cache-IsReady, initialize_cache_refused}
use gpuinfra.Residency.Valid.{IsValid}
use gpuinfra.Residency.InsertLaws.{insert-find}
use gpuinfra.Cache.Reset.{IsIdle, IsCleared, reset_cache-IsCleared, reset_cache_refused}
use gpuinfra.Cache.Grants.{Grants, get_cache_data-Grants}
use gpuinfra.Cache.Fills.{Fills, get_cache_data-Fills}

program : Unit {0}
unfolding key_eq hash_mix key_hash metadata_eq grow_slots required_slots slot_count_for initialize
    clear next_slot home_slot find_from find_slot find insert_from insert erase_step erase_scan
    erase_end erase_slot erase initialize_entry replica_data replicas_valid invalidated marked
    has_replica set_next_evictable set_previous_evictable mark_evictable add_evictable_entry
    remove_evictable_entry add_filled_entry remove_filled_entry first_idle take_evictable
    take_candidate restore_candidate count_fallback make_access make_fallback_access is_eligible
    is_acceptable begin_wait end_wait wait_or_fall_back blocked_by_loading blocked_by_full grant_hit
    lease_hit on_resident start_fill claim_candidate use_empty use_evicted on_absent pass
    get_cache_data wake note_sync_failure matches reset_entry release_reader_entry complete_fallback
    complete_hit publish_fill complete_fill named_entry complete_access free_cache_data abort_access
    is_pristine is_one_gpu make_entries ascending initialize_cache all_idle can_reset clear_entries
    reset_entries reset_cache
program = tt

abbrev std : StdHash
std = record { hash_u64 = λ n. n; hash_u32 = λ n. n }

-- two entries of 16 bytes on GPU 0
abbrev cache : GpuDataCache
cache =
    (initialize_cache true (λ i. some (i + 1000)) (new_cache 1) (pos 0 ∷ []) 16 2 (pos 50) lru).0

abbrev frame_of : ℕ → FrameMetadata
frame_of n = record {
  key = record { frame_id = n; camera_id = 0; variant_id = 0 };
  bytes = 16;
  width = pos 4;
  height = pos 4;
  dtype = pos 0;
}

abbrev request : GpuCacheRequest
request = record { gpu_id = pos 0; stream = 7; d_fallback = 2000; fallback_bytes = 16 }

abbrev access_of : Outcome → GpuDataAccess
access_of (returned a) = a
access_of (asleep r) = no_access

-- the cache and the access after a request
abbrev asked : GpuDataCache → ℕ → GpuDataCache × GpuDataAccess
asked c n =
    let (c', outcome) = get_cache_data std c (frame_of n) request false in (c', access_of outcome)

-- a frame, filled or read, and released
abbrev used : GpuDataCache → ℕ → GpuDataCache
used c n = let (c', access) = asked c n in (free_cache_data std c' access true keep true).0

abbrev one_frame : GpuDataCache
one_frame = used cache 1

abbrev two_frames : GpuDataCache
two_frames = used one_frame 2

evictable-two_frames : Threads (evictable two_frames) (0 ∷ 1 ∷ [])
unfolding program
evictable-two_frames = record {
  chain = (refl, refl, (refl, refl, (refl, refl)));
  distinct = (((λ e. omega (arith, e)), tt), (tt, tt));
}

-- the third frame takes the place of the first
find-third : find std (used two_frames 3).residency_table (frame_of 3).key ≡ some 0
unfolding program
find-third = refl

find-first : find std (used two_frames 3).residency_table (frame_of 1).key ≡ none
unfolding program
find-first = refl

remove-Threads_example :
    ((remove_evictable_entry two_frames 0).1 ≡ true)
    × Threads (evictable (remove_evictable_entry two_frames 0).0) ([] ++ 1 ∷ [])
unfolding program
remove-Threads_example =
    remove-Threads two_frames [] 0 (1 ∷ []) evictable-two_frames (omega arith, (omega arith, tt))
      refl

-- the first entry, valid and idle, outside the list
abbrev loose : GpuDataCache
loose = (remove_evictable_entry two_frames 0).0

add-Threads_example :
    ((add_evictable_entry loose 0).1 ≡ true)
    × Threads (evictable (add_evictable_entry loose 0).0) (1 ∷ 0 ∷ [])
unfolding program
add-Threads_example =
    add-Threads loose 0 (1 ∷ [])
      (record { in_range = omega arith; state = refl; idle = refl; out = refl })
      (record { chain = (refl, refl, (refl, refl)); distinct = (tt, tt) }) (omega arith, tt)
      ((λ e. omega (arith, e)), tt)

get_cache_data-Counts_example :
    Counts true (tally one_frame) (get_cache_data std one_frame (frame_of 1) request true)
get_cache_data-Counts_example = get_cache_data-Counts std one_frame (frame_of 1) request true

-- the same, and one request that waits
abbrev awaited : GpuDataCache
awaited = record one_frame { waiting_accesses = 1 }

wake-Counts_example :
    Counts true
      (record (tally awaited) { waiting = 0 })
      (wake std awaited (frame_of 1) request new_request 5 true)
unfolding program
wake-Counts_example = wake-Counts std awaited (frame_of 1) request new_request 5 true

complete_access-settles_example :
    ledger (complete_access std (asked cache 1).0 (asked cache 1).1 true keep).0
    ≡ settle_access
        (asked cache 1).1
        (complete_access std (asked cache 1).0 (asked cache 1).1 true keep).1
        (ledger (asked cache 1).0)
unfolding program
complete_access-settles_example =
    complete_access-settles std (asked cache 1).0 (asked cache 1).1 true keep refl

free_cache_data-refuses_example :
    (free_cache_data std (asked cache 1).0 (asked cache 1).1 true keep false).1 ≡ false
unfolding program
free_cache_data-refuses_example =
    (free_cache_data-refuses std (asked cache 1).0 (asked cache 1).1 true keep
      (λ e. omega (arith, e)) (λ e. omega (arith, e))).0

complete_access-make_fallback_access_example :
    complete_access std
      (make_fallback_access cache (frame_of 1) request full_timeout).0
      (make_fallback_access cache (frame_of 1) request full_timeout).1
      true
      keep
    ≡ (record cache { statistics = count_fallback cache.statistics full_timeout }, true)
unfolding program
complete_access-make_fallback_access_example =
    (complete_access-make_fallback_access std cache (frame_of 1) request full_timeout refl refl
      (λ e. omega (arith, e)) true keep).0

new_cache-IsReady : IsReady std (λ i. i + 1000) 0 16 2 cache
unfolding program
new_cache-IsReady =
    (initialize_cache-IsReady (new_cache 1) refl (λ i. some (i + 1000)) 0 16 2 50 lru
      (λ e. omega (arith, e)) (omega arith) std (λ i. i + 1000) (λ i. refl)).1

initialize_cache-IsReady_example :
    (initialize_cache true (λ i. some (i + 1000)) (new_cache 1) (pos 0 ∷ []) 16 2 (pos 50) lru).1
    ≡ true
unfolding program
initialize_cache-IsReady_example =
    (initialize_cache-IsReady (new_cache 1) refl (λ i. some (i + 1000)) 0 16 2 50 lru
      (λ e. omega (arith, e)) (omega arith) std (λ i. i + 1000) (λ i. refl)).0

initialize_cache_refused_example :
    initialize_cache true
      (λ i. if i == 1 then none else some 9)
      (new_cache 1)
      (pos 0 ∷ [])
      16
      2
      (pos 50)
      lru
    ≡ (new_cache 1, false)
unfolding program
initialize_cache_refused_example =
    initialize_cache_refused (new_cache 1) refl (λ i. if i == 1 then none else some 9) 0 16 2 50 lru
      (λ e. omega (arith, e)) (omega arith) 1 (omega arith) refl

one_frame-IsValid : IsValid std one_frame.residency_table
unfolding program
one_frame-IsValid =
    (insert-find std cache.residency_table new_cache-IsReady.table.valid (frame_of 1).key 0
      (omega arith) refl).1

all_quiet : (j : ℕ) → j < 2 → IsIdle (entry_at one_frame j)
unfolding program
all_quiet zero h = record { unread = refl; settled = λ e. ground (arith, e) }
all_quiet (suc zero) h = record { unread = refl; settled = λ e. ground (arith, e) }
all_quiet (suc (suc j)) h = absurd (omega arith)

reset_cache-IsCleared_example :
    ((reset_cache one_frame).1 ≡ some one_frame.statistics)
    × IsCleared std one_frame (reset_cache one_frame).0
unfolding program
reset_cache-IsCleared_example =
    reset_cache-IsCleared one_frame std refl refl refl
      (record { no_fallback = refl; no_waiting = refl; idle = all_quiet }) one_frame-IsValid refl

reset_cache_refused_example : reset_cache (new_cache 1) ≡ (new_cache 1, none)
reset_cache_refused_example = reset_cache_refused (new_cache 1) (inl refl)

get_cache_data-Grants_example :
    Grants one_frame
      (frame_of 1)
      request
      0
      (get_cache_data std one_frame (frame_of 1) request false)
unfolding program
get_cache_data-Grants_example =
    get_cache_data-Grants one_frame (frame_of 1) request std 0 false refl

get_cache_data-Fills_example :
    Fills std (frame_of 1) request cache (get_cache_data std cache (frame_of 1) request false)
unfolding program
get_cache_data-Fills_example =
    get_cache_data-Fills std (frame_of 1) request cache false new_cache-IsReady.table.valid refl
