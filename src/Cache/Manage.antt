-- ===== src/Cache/Manage.antt =====
-- The cold path: `initialize`, `resetCache` and `release`, and the observers.
use gpuinfra.Prelude.{
  ℕ, zero, suc, ◌+◌, Bool, true, false, not, ◌||◌, ◌&&◌, Option, none, some, is_some, List, [], ◌∷◌,
  ◌==◌, if◌then◌else◌, length,
}
use gpuinfra.Prelude.Int.{ℤ, pos, negsuc, is_neg}
use gpuinfra.Entry.{GpuDataCacheEntry, new_entry, is_loading, initialize_entry, release_entry}
use gpuinfra.Access.{CacheEvictionPolicy}
use gpuinfra.Residency.{new_table, initialize, clear, release, is_empty}
use gpuinfra.Cache.{GpuDataCache, CacheStatistics, no_statistics}
use gpuinfra.Cache.Finish.{cleared_entry}

-- the state in which `initialize` may start
unfoldable pub is_pristine : GpuDataCache → Bool
is_pristine c =
    not c.initialized
    && not c.releasing
    && is_empty c.entries
    && is_empty c.eligible_gpu_ids
    && not c.residency_table.initialized
    && is_empty c.empty_entries
    && not (is_some c.least_recently_used)
    && not (is_some c.most_recently_used)
    && not (is_some c.oldest_filled)
    && not (is_some c.newest_filled)

-- `gpuIds.size() == 1 && gpuIds.front() >= 0`
unfoldable pub is_one_gpu : List ℤ → Bool
is_one_gpu [] = false
is_one_gpu (gpu ∷ others) = is_empty others && not (is_neg gpu)

-- The loop that makes the entries, from `index` on; `pointer` answers each entry's allocation.
unfoldable pub make_entries : (ℕ → Option ℕ) → List ℤ → ℕ → ℕ → ℕ → Option (List GpuDataCacheEntry)
make_entries pointer gpus bytes index zero = some []
make_entries pointer gpus bytes index (suc count) =
    let rest = make_entries pointer gpus bytes (index + 1) count in
    let (entry, ok) = initialize_entry (pointer index) new_entry gpus bytes in
    if ok then elim rest [ none ↦ none | some entries ↦ some (entry ∷ entries) ] else none

-- the free stack 0, 1, …, its back first
unfoldable pub ascending : ℕ → ℕ → List ℕ
ascending index zero = []
ascending index (suc count) = index ∷ ascending (index + 1) count

-- `initialize`. `resize_ok` and `pointer` are the answers of the host and device allocations.
unfoldable pub initialize_cache :
    Bool
    → (ℕ → Option ℕ)
    → GpuDataCache
    → List ℤ
    → ℕ
    → ℕ
    → ℤ
    → CacheEvictionPolicy
    → GpuDataCache × Bool
initialize_cache resize_ok pointer c gpus bytes count (negsuc _) policy = (c, false)
initialize_cache resize_ok pointer c gpus bytes count (pos timeout) policy =
    if not (is_pristine c) || not (is_one_gpu gpus) || bytes == 0
    then (c, false)
    else (let (table, table_ok) = initialize resize_ok new_table count in
        if not table_ok then (c, false) else elim (make_entries pointer gpus bytes 0 count) [
          | none ↦ (c, false)
          | some entries ↦ (
            record c {
              eligible_gpu_ids = gpus;
              entries = entries;
              residency_table = table;
              empty_entries = ascending 0 count;
              data_bytes = bytes;
              wait_timeout = timeout;
              eviction_policy = policy;
              active_fallback_accesses = 0;
              statistics = no_statistics;
              failed = false;
              initialized = true;
            },
            true,
          )
        ])

-- the loop of `canResetLocked`
unfoldable pub all_idle : List GpuDataCacheEntry → Bool
all_idle [] = true
all_idle (e ∷ es) = e.active_accesses == 0 && not (is_loading e.cache_state) && all_idle es

-- `canResetLocked`
unfoldable pub can_reset : GpuDataCache → Bool
can_reset c = c.active_fallback_accesses == 0 && c.waiting_accesses == 0 && all_idle c.entries

-- the loop of `resetEntriesLocked` over the entries
unfoldable pub clear_entries : List GpuDataCacheEntry → List GpuDataCacheEntry
clear_entries [] = []
clear_entries (e ∷ es) = cleared_entry e ∷ clear_entries es

-- `resetEntriesLocked`
unfoldable pub reset_entries : GpuDataCache → GpuDataCache
reset_entries c = record c {
  residency_table = clear c.residency_table;
  empty_entries = ascending 0 (length c.entries);
  least_recently_used = none;
  most_recently_used = none;
  oldest_filled = none;
  newest_filled = none;
  entries = clear_entries c.entries;
}

-- `resetCache`: the statistics of the interval that ends, if it succeeds
unfoldable pub reset_cache : GpuDataCache → GpuDataCache × Option CacheStatistics
reset_cache c =
    if not c.initialized || c.releasing || c.failed || not (can_reset c)
    then (c, none)
    else (reset_entries (record c { statistics = no_statistics }), some c.statistics)

-- the loop of `release` over the entries: what is left of them, and `ok`
unfoldable pub release_entries : (ℕ → Bool) → List GpuDataCacheEntry → List GpuDataCacheEntry × Bool
release_entries freed [] = ([], true)
release_entries freed (e ∷ es) =
    let (rest, ok) = release_entries freed es in
    let (e', released) = release_entry freed e in (e' ∷ rest, released && ok)

-- `allReleased`
unfoldable pub none_initialized : List GpuDataCacheEntry → Bool
none_initialized [] = true
none_initialized (e ∷ es) = not e.initialized && none_initialized es

-- `release`; `freed` answers each `cudaFree`
unfoldable pub release_cache : (ℕ → Bool) → GpuDataCache → GpuDataCache × Bool
release_cache freed c =
    if not c.initialized
      && is_empty c.entries
      && is_empty c.eligible_gpu_ids
      && not c.residency_table.initialized
      && is_empty c.empty_entries
    then (c, true)
    else (if c.releasing || not (can_reset c)
        then (c, false)
        else (let (entries, ok) = release_entries freed c.entries in
            let c' : GpuDataCache = record c {
              entries = entries;
              initialized = false;
              releasing = false;
            } in
            (
              if none_initialized entries
                  then record c' {
                    entries = [];
                    eligible_gpu_ids = [];
                    residency_table = release c.residency_table;
                    empty_entries = [];
                    least_recently_used = none;
                    most_recently_used = none;
                    oldest_filled = none;
                    newest_filled = none;
                    data_bytes = 0;
                    active_fallback_accesses = 0;
                    failed = false;
                  }
                  else c',
              ok,
            )))
