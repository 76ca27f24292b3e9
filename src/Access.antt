-- ===== src/Access.antt =====
-- src/DataCache/GpuDataAccess.{h,cpp} and CachePolicy.h: the lease that a request returns. The
-- owner is the address of the cache; an entry index of `none` is `NO_ENTRY`.
use gpuinfra.Prelude.{ℕ, Bool, true, false, Option, some}
use gpuinfra.Prelude.Int.{ℤ, negsuc}
use gpuinfra.Types.{GpuDataKey, default_key, null}

-- `CacheEvictionPolicy`
pub data CacheEvictionPolicy : Type 0 where
  lru fifo : CacheEvictionPolicy

abbrev pub is_fifo : CacheEvictionPolicy → Bool
is_fifo lru = false
is_fifo fifo = true

-- `CacheRetention`; `other` is any value outside the enumeration.
pub data CacheRetention : Type 0 where
  keep discard other : CacheRetention

abbrev pub is_discard : CacheRetention → Bool
is_discard keep = false
is_discard discard = true
is_discard other = false

-- `CacheStatus`
pub data CacheStatus : Type 0 where
  invalid cache_hit cache_fill task_fallback : CacheStatus

-- the members of `GpuDataAccess`
pub record GpuDataAccess : Type 0 where
  pub owner : ℕ
  pub d_data : ℕ
  pub data_bytes : ℕ
  pub entry_index : Option ℕ
  pub data_key : GpuDataKey
  pub stream : ℕ
  pub device_id : ℤ
  pub access_status : CacheStatus

-- `GpuDataAccess()`, and what `reset` leaves
abbrev pub no_access : GpuDataAccess
no_access = record {
  owner = null;
  d_data = null;
  data_bytes = 0;
  entry_index = some 0;
  data_key = default_key;
  stream = null;
  device_id = negsuc 0;
  access_status = invalid;
}

-- `writableData`
unfoldable pub writable_data : GpuDataAccess → ℕ
writable_data a = elim a.access_status [
  | invalid ↦ null
  | cache_hit ↦ null
  | cache_fill ↦ a.d_data
  | task_fallback ↦ a.d_data
]

-- `takeAccess`: the destination and the source after a move
unfoldable pub take_access : GpuDataAccess → GpuDataAccess × GpuDataAccess
take_access source = (source, no_access)
