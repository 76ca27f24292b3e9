-- ===== src/Cache.antt =====
-- src/DataCache/GpuDataCache.{h,cpp}, CacheStatistics.h and GpuCacheRequest.h: the members of the
-- cache. A method that runs under the mutex returns the new cache beside its result; the pointers
-- in `entries` are never null, and `NO_ENTRY` is `none`.
pub mod Lists
pub mod Chain
pub mod Evictable
pub mod Frame
pub mod Lookup
pub mod Counted
pub mod Finish
pub mod Manage
pub mod Reset
pub mod Settled
pub mod RoundTrip
pub mod Startup
pub mod Payload
pub mod Grants
pub mod Fills
mod Tests
use gpuinfra.Prelude.{
  ℕ, ◌+◌, ◌%◌, ◌≡◌, Bool, true, false, Option, none, List, [], size_mod, get_or, set, max, length,
}
use gpuinfra.Prelude.Int.{ℤ}
use gpuinfra.Entry.{GpuDataCacheEntry, new_entry}
use gpuinfra.Access.{CacheEvictionPolicy, lru}
use gpuinfra.Residency.{ResidencyTable, new_table}

-- `CacheFallbackReason`
pub data CacheFallbackReason : Type 0 where
  capacity_zero loading_timeout full_timeout loading_no_wait full_no_wait : CacheFallbackReason
  replica_unavailable : CacheFallbackReason

-- `CacheFallbackStatistics`
pub record CacheFallbackStatistics : Type 0 where
  pub capacity_zeros : ℕ
  pub loading_timeouts : ℕ
  pub full_timeouts : ℕ
  pub loading_no_waits : ℕ
  pub full_no_waits : ℕ
  pub replica_unavailables : ℕ

-- `CacheStatistics`; durations in nanoseconds
pub record CacheStatistics : Type 0 where
  pub hit : ℕ
  pub fill : ℕ
  pub fallback : ℕ
  pub invalid_requests : ℕ
  pub fill_succeeded : ℕ
  pub fill_failed : ℕ
  pub eviction : ℕ
  pub discards : ℕ
  pub sync_failures : ℕ
  pub first_blocked_loading : ℕ
  pub first_blocked_full : ℕ
  pub fallback_reasons : CacheFallbackStatistics
  pub waited_requests : ℕ
  pub total_wait_time : ℕ
  pub max_wait_time : ℕ

-- `CacheStatistics()`
abbrev pub no_statistics : CacheStatistics
no_statistics = record {
  hit = 0;
  fill = 0;
  fallback = 0;
  invalid_requests = 0;
  fill_succeeded = 0;
  fill_failed = 0;
  eviction = 0;
  discards = 0;
  sync_failures = 0;
  first_blocked_loading = 0;
  first_blocked_full = 0;
  fallback_reasons = record {
    capacity_zeros = 0;
    loading_timeouts = 0;
    full_timeouts = 0;
    loading_no_waits = 0;
    full_no_waits = 0;
    replica_unavailables = 0;
  };
  waited_requests = 0;
  total_wait_time = 0;
  max_wait_time = 0;
}

-- `++` on a `std::uint64_t`
abbrev pub incr : ℕ → ℕ
incr n = (n + 1) % size_mod

-- `GpuCacheRequest`
pub record GpuCacheRequest : Type 0 where
  pub gpu_id : ℤ
  pub stream : ℕ
  pub d_fallback : ℕ
  pub fallback_bytes : ℕ

-- the members of `GpuDataCache`. `self` is its address; the head of `empty_entries` is the back of
-- the vector.
pub record GpuDataCache : Type 0 where
  pub self : ℕ
  pub statistics : CacheStatistics
  pub wait_timeout : ℕ
  pub eviction_policy : CacheEvictionPolicy
  pub waiting_accesses : ℕ
  pub entries : List GpuDataCacheEntry
  pub eligible_gpu_ids : List ℤ
  pub residency_table : ResidencyTable
  pub empty_entries : List ℕ
  pub least_recently_used : Option ℕ
  pub most_recently_used : Option ℕ
  pub oldest_filled : Option ℕ
  pub newest_filled : Option ℕ
  pub data_bytes : ℕ
  pub active_fallback_accesses : ℕ
  pub initialized : Bool
  pub releasing : Bool
  pub failed : Bool

-- a default-constructed cache at the address `self`
abbrev pub new_cache : ℕ → GpuDataCache
new_cache self = record {
  self = self;
  statistics = no_statistics;
  wait_timeout = 50;
  eviction_policy = lru;
  waiting_accesses = 0;
  entries = [];
  eligible_gpu_ids = [];
  residency_table = new_table;
  empty_entries = [];
  least_recently_used = none;
  most_recently_used = none;
  oldest_filled = none;
  newest_filled = none;
  data_bytes = 0;
  active_fallback_accesses = 0;
  initialized = false;
  releasing = false;
  failed = false;
}

-- `*entries[i]`, for an index in range
abbrev pub entry_at : GpuDataCache → ℕ → GpuDataCacheEntry
entry_at c i = get_or c.entries i new_entry

-- a write through `*entries[i]`
abbrev pub put_entry : GpuDataCache → ℕ → GpuDataCacheEntry → GpuDataCache
put_entry c i e = record c { entries = set c.entries i e }
