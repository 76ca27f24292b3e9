-- ===== src/Cache/Finish.antt =====
-- The end of a lease: `completeAccess`, `abortAccess`, `noteSyncFailure` and `resetEntry`, and the
-- two callers in GpuDataAccess.cpp, for which `synchronized` is the answer of
-- `cudaStreamSynchronize`.
use gpuinfra.Prelude.{
  ℕ, ◌-◌, Bool, true, false, not, ◌||◌, ◌&&◌, Option, none, some, ◌∷◌, leb, ltb, ◌==◌,
  if◌then◌else◌, length,
}
use gpuinfra.Types.{StdHash, default_metadata, key_eq, null}
use gpuinfra.Entry.{
  GpuDataCacheEntry, empty, valid, is_valid, is_loading, data_for_gpu, replica_valid, invalidated,
  has_replica, marked,
}
use gpuinfra.Access.{
  GpuDataAccess, CacheRetention, keep, discard, other, is_discard, invalid, cache_hit, cache_fill,
  task_fallback,
}
use gpuinfra.Residency.{erase}
use gpuinfra.Cache.{GpuDataCache, incr, entry_at, put_entry}
use gpuinfra.Cache.Lists.{
  add_evictable_entry, remove_evictable_entry, add_filled_entry, remove_filled_entry,
}

-- `noteSyncFailure`
unfoldable pub note_sync_failure : GpuDataCache → GpuDataCache
note_sync_failure c = record c {
  statistics = record (c.statistics) { sync_failures = incr c.statistics.sync_failures };
  failed = true;
}

-- `++statistics.discard`
abbrev pub count_discard : GpuDataCache → GpuDataCache
count_discard c = record c {
  statistics = record (c.statistics) { discards = incr c.statistics.discards };
}

abbrev pub count_fill_succeeded : GpuDataCache → GpuDataCache
count_fill_succeeded c = record c {
  statistics = record (c.statistics) { fill_succeeded = incr c.statistics.fill_succeeded };
}

abbrev pub count_fill_failed : GpuDataCache → GpuDataCache
count_fill_failed c = record c {
  statistics = record (c.statistics) { fill_failed = incr c.statistics.fill_failed };
}

-- the fields that `resetEntry` clears
abbrev pub cleared_entry : GpuDataCacheEntry → GpuDataCacheEntry
cleared_entry e = record e {
  metadata = default_metadata;
  replicas = invalidated e.replicas;
  cache_state = empty;
  active_accesses = 0;
  previous_evictable = none;
  next_evictable = none;
  in_evictable_list = false;
  previous_filled = none;
  next_filled = none;
  in_filled_list = false;
  discard_when_unused = false;
}

-- the comparison of an access with the entry that it names
unfoldable pub matches : GpuDataCache → GpuDataAccess → ℕ → Bool
matches c access index =
    let entry = entry_at c index in
    key_eq entry.metadata.key access.data_key
    && data_for_gpu entry access.device_id == access.d_data
    && access.data_bytes == c.data_bytes

module _ (std : StdHash) where
  -- `resetEntry`
  unfoldable pub reset_entry : GpuDataCache → ℕ → GpuDataCache
  reset_entry c index =
      let c₁ : GpuDataCache =
        if (entry_at c index).in_evictable_list then (remove_evictable_entry c index).0 else c in
      let c₂ : GpuDataCache =
        if (entry_at c₁ index).in_filled_list then (remove_filled_entry c₁ index).0 else c₁ in
      let c₃ = record c₂ {
        residency_table = (erase std c₂.residency_table (entry_at c₂ index).metadata.key index).0;
        empty_entries = index ∷ c₂.empty_entries;
      } in
      put_entry c₃ index (cleared_entry (entry_at c₃ index))

  -- `releaseReaderEntry`
  unfoldable pub release_reader_entry : GpuDataCache → ℕ → GpuDataCache × Bool
  release_reader_entry c index =
      let entry = entry_at c index in
      if not (entry.active_accesses == 0)
      then (c, true)
      else (if entry.discard_when_unused
          then (count_discard (reset_entry c index), true)
          else add_evictable_entry c index)

  -- the branch of `completeAccess` for a fallback
  unfoldable pub complete_fallback : GpuDataCache → GpuDataAccess → Bool → GpuDataCache × Bool
  complete_fallback c access succeeded =
      let ok : Bool =
        c.initialized
        && not c.releasing
        && ltb 0 c.active_fallback_accesses
        && (elim access.entry_index [ none ↦ true | some i ↦ false ])
        && not (access.d_data == null)
        && access.data_bytes == c.data_bytes in
      (
        if ok then record c { active_fallback_accesses = c.active_fallback_accesses - 1 } else c,
        ok && succeeded,
      )

  -- the branch for a hit, on the entry that the access names
  unfoldable pub complete_hit :
      GpuDataCache → GpuDataAccess → ℕ → CacheRetention → GpuDataCache × Bool
  complete_hit c access index retention =
      let entry = entry_at c index in
      if is_valid entry.cache_state
        && ltb 0 entry.active_accesses
        && not entry.in_evictable_list
        && replica_valid entry access.device_id
      then release_reader_entry
          (put_entry c index (record entry {
            discard_when_unused = entry.discard_when_unused || is_discard retention;
            active_accesses = entry.active_accesses - 1;
          }))
          index
      else (c, false)

  -- the end of a fill whose replica has been marked valid
  unfoldable pub publish_fill : GpuDataCache → ℕ → CacheRetention → GpuDataCache × Bool
  publish_fill c index retention =
      if is_discard retention
      then (count_discard (reset_entry c index), true)
      else (let (c₁, filled) = add_filled_entry c index in
          if filled
          then (let (c₂, evictable) = add_evictable_entry c₁ index in
              if evictable then (c₂, true) else (reset_entry c₂ index, false))
          else (reset_entry c₁ index, false))

  -- the branch for a fill, on the entry that the access names
  unfoldable pub complete_fill :
      GpuDataCache → GpuDataAccess → ℕ → Bool → CacheRetention → GpuDataCache × Bool
  complete_fill c access index succeeded retention =
      let entry = entry_at c index in
      if is_loading entry.cache_state && entry.active_accesses == 1 && not entry.in_evictable_list
      then (if succeeded
          then (if has_replica entry.replicas access.device_id
              then publish_fill
                  (put_entry c index (record entry {
                    replicas = marked entry.replicas access.device_id;
                    cache_state = valid;
                    active_accesses = 0;
                  }))
                  index retention
              else (reset_entry c index, false))
          else (reset_entry c index, false))
      else (c, false)

  -- `++statistics.fillSucceeded` or `++statistics.fillFailed`
  abbrev pub count_fill : GpuDataCache × Bool → GpuDataCache × Bool
  count_fill (c, true) = (count_fill_succeeded c, true)
  count_fill (c, false) = (count_fill_failed c, false)

  -- the index that a cache-backed access names, if the cache has it and it matches
  unfoldable pub named_entry : GpuDataCache → GpuDataAccess → Option ℕ
  named_entry c access = elim access.entry_index [
    | none ↦ none
    | some index ↦
        if not (leb (length c.entries) index) && matches c access index then some index else none
  ]

  -- `completeAccess`: the cache and the result. The access itself is `no_access` afterwards.
  unfoldable pub complete_access :
      GpuDataCache → GpuDataAccess → Bool → CacheRetention → GpuDataCache × Bool
  complete_access c access succeeded retention =
      let named : Option ℕ =
        if c.initialized && not c.releasing then named_entry c access else none in
      if not (access.owner == c.self) then (c, false) else elim access.access_status [
        | task_fallback ↦ complete_fallback c access succeeded
        | cache_hit ↦ elim named [
          | none ↦ (c, false)
          | some index ↦
              let (c', ok) = complete_hit c access index retention in (c', ok && succeeded)
        ]
        | cache_fill ↦ elim named [
          | none ↦ count_fill (c, false)
          | some index ↦ count_fill (complete_fill c access index succeeded retention)
        ]
        | invalid ↦ (c, false)
      ]

  -- the cache-backed branches of `abortAccess`, on the entry that the access names
  unfoldable pub abort_hit : GpuDataCache → ℕ → GpuDataCache
  abort_hit c index =
      let entry = entry_at c index in
      if is_valid entry.cache_state && ltb 0 entry.active_accesses && not entry.in_evictable_list
      then (release_reader_entry
          (put_entry c index (record entry { active_accesses = entry.active_accesses - 1 }))
          index).0
      else c

  unfoldable pub abort_fill : GpuDataCache → ℕ → GpuDataCache
  abort_fill c index =
      let entry = entry_at c index in
      if is_loading entry.cache_state && entry.active_accesses == 1 && not entry.in_evictable_list
      then reset_entry c index
      else c

  -- `abortAccess`. The access itself is `no_access` afterwards.
  unfoldable pub abort_access : GpuDataCache → GpuDataAccess → GpuDataCache
  abort_access c access = if not (access.owner == c.self) then c else elim access.access_status [
    | task_fallback ↦ record c { active_fallback_accesses = c.active_fallback_accesses - 1 }
    | cache_hit ↦ elim (named_entry c access) [ none ↦ c | some index ↦ abort_hit c index ]
    | cache_fill ↦ elim (named_entry c access) [
      | none ↦ count_fill_failed c
      | some index ↦ abort_fill (count_fill_failed c) index
    ]
    | invalid ↦ c
  ]

  -- `GpuDataAccess::freeCacheData` on an access of this cache
  unfoldable pub free_cache_data :
      GpuDataCache → GpuDataAccess → Bool → CacheRetention → Bool → GpuDataCache × Bool
  free_cache_data c access submitted retention synchronized =
      if access.owner == null || access.stream == null
      then (c, false)
      else (let valid_retention : Bool = elim retention [
        | keep ↦ true
        | discard ↦ true
        | other ↦ false
      ] in
          let c' : GpuDataCache = if synchronized then c else note_sync_failure c in
          complete_access c' access (submitted && valid_retention && synchronized)
            (if valid_retention then retention else keep))

  -- `GpuDataAccess::abortUnfinishedAccess` on an access of this cache
  unfoldable pub abort_unfinished_access : GpuDataCache → GpuDataAccess → Bool → GpuDataCache
  abort_unfinished_access c access synchronized =
      if access.owner == null
      then c
      else abort_access (if synchronized then c else note_sync_failure c) access
