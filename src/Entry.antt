-- ===== src/Entry.antt =====
-- src/DataCache/GpuDataCacheEntry.{h,cpp}: one reusable cache entry and its per-GPU replicas.
-- `NO_ENTRY` is `none`.
use gpuinfra.Prelude.{
  ℕ, Bool, true, false, not, ◌||◌, ◌&&◌, Option, none, some, is_some, List, [], ◌∷◌, ◌==◌,
  if◌then◌else◌, length,
}
use gpuinfra.Prelude.Int.{ℤ, eq_ℤ, is_neg}
use gpuinfra.Types.{FrameMetadata, default_metadata, null}

-- `GpuReplica`
pub record GpuReplica : Type 0 where
  pub gpu_id : ℤ
  pub d_data : ℕ
  pub valid : Bool

-- `GpuCacheState`
pub data GpuCacheState : Type 0 where
  empty loading valid : GpuCacheState

-- `entry.cacheState == GpuCacheState::Valid`, and the same for the other two
abbrev pub is_valid : GpuCacheState → Bool
is_valid empty = false
is_valid loading = false
is_valid valid = true

abbrev pub is_loading : GpuCacheState → Bool
is_loading empty = false
is_loading loading = true
is_loading valid = false

abbrev pub is_empty_state : GpuCacheState → Bool
is_empty_state empty = true
is_empty_state loading = false
is_empty_state valid = false

-- the members of `GpuDataCacheEntry`
pub record GpuDataCacheEntry : Type 0 where
  pub metadata : FrameMetadata
  pub cache_state : GpuCacheState
  pub active_accesses : ℕ
  pub previous_evictable : Option ℕ
  pub next_evictable : Option ℕ
  pub previous_filled : Option ℕ
  pub next_filled : Option ℕ
  pub replicas : List GpuReplica
  pub data_bytes : ℕ
  pub in_evictable_list : Bool
  pub in_filled_list : Bool
  pub discard_when_unused : Bool
  pub initialized : Bool

-- a default-constructed entry
abbrev pub new_entry : GpuDataCacheEntry
new_entry = record {
  metadata = default_metadata;
  cache_state = empty;
  active_accesses = 0;
  previous_evictable = none;
  next_evictable = none;
  previous_filled = none;
  next_filled = none;
  replicas = [];
  data_bytes = 0;
  in_evictable_list = false;
  in_filled_list = false;
  discard_when_unused = false;
  initialized = false;
}

-- the loop of `dataForGpu`
unfoldable pub replica_data : List GpuReplica → ℤ → ℕ
replica_data [] gpu = null
replica_data (r ∷ rs) gpu = if eq_ℤ r.gpu_id gpu then r.d_data else replica_data rs gpu

-- `dataForGpu`
abbrev pub data_for_gpu : GpuDataCacheEntry → ℤ → ℕ
data_for_gpu e gpu = replica_data e.replicas gpu

-- the loop of `replicaValid`
unfoldable pub replicas_valid : List GpuReplica → ℤ → Bool
replicas_valid [] gpu = false
replicas_valid (r ∷ rs) gpu = if eq_ℤ r.gpu_id gpu then r.valid else replicas_valid rs gpu

-- `replicaValid`
abbrev pub replica_valid : GpuDataCacheEntry → ℤ → Bool
replica_valid e gpu = replicas_valid e.replicas gpu

-- the loop of `invalidateReplicas`
unfoldable pub invalidated : List GpuReplica → List GpuReplica
invalidated [] = []
invalidated (r ∷ rs) = record r { valid = false } ∷ invalidated rs

-- `invalidateReplicas`
abbrev pub invalidate_replicas : GpuDataCacheEntry → GpuDataCacheEntry
invalidate_replicas e = record e { replicas = invalidated e.replicas }

-- the loop of `markReplicaValid`: only the first replica on the GPU is marked
unfoldable pub marked : List GpuReplica → ℤ → List GpuReplica
marked [] gpu = []
marked (r ∷ rs) gpu =
    if eq_ℤ r.gpu_id gpu then record r { valid = true } ∷ rs else r ∷ marked rs gpu

-- whether `markReplicaValid` finds a replica
unfoldable pub has_replica : List GpuReplica → ℤ → Bool
has_replica [] gpu = false
has_replica (r ∷ rs) gpu = if eq_ℤ r.gpu_id gpu then true else has_replica rs gpu

-- `markReplicaValid`
abbrev pub mark_replica_valid : GpuDataCacheEntry → ℤ → GpuDataCacheEntry × Bool
mark_replica_valid e gpu =
    if has_replica e.replicas gpu
    then (record e { replicas = marked e.replicas gpu }, true)
    else (e, false)

-- `initialize`, for the one GPU that is accepted. `pointer` is the answer of the device guard and
-- of `cudaMalloc`: the allocation, or `none`; a failure ends in `release`, which clears the entry.
unfoldable pub initialize_entry :
    Option ℕ → GpuDataCacheEntry → List ℤ → ℕ → GpuDataCacheEntry × Bool
initialize_entry pointer e gpus bytes =
    if e.initialized
      || not (length e.replicas == 0)
      || not (is_empty_state e.cache_state)
      || not (e.active_accesses == 0)
      || is_some e.previous_evictable
      || is_some e.next_evictable
      || e.in_evictable_list
      || is_some e.previous_filled
      || is_some e.next_filled
      || e.in_filled_list
      || e.discard_when_unused
      || bytes == 0
    then (e, false)
    else elim gpus [
      | [] ↦ (e, false)
      | gpu ∷ others ↦ if not (length others == 0) || is_neg gpu then (e, false) else elim pointer [
        | none ↦ (new_entry, false)
        | some address ↦ (
          record e {
            replicas = record { gpu_id = gpu; d_data = address; valid = false } ∷ [];
            data_bytes = bytes;
            initialized = true;
          },
          true,
        )
      ]
    ]

-- the loop of `release` over the replicas. `freed` is the answer of the device guard and of
-- `cudaFree` for an allocation; the results are the replicas left and whether all went well.
unfoldable pub free_replicas : (ℕ → Bool) → List GpuReplica → List GpuReplica × Bool
free_replicas freed [] = ([], true)
free_replicas freed (r ∷ rs) =
    let (rest, ok) = free_replicas freed rs in
    if r.d_data == null
    then (r ∷ rest, ok)
    else (if freed r.d_data
        then (record r { d_data = null; valid = false } ∷ rest, ok)
        else (r ∷ rest, false))

-- `allReleased`
unfoldable pub all_released : List GpuReplica → Bool
all_released [] = true
all_released (r ∷ rs) = r.d_data == null && all_released rs

-- `release`
unfoldable pub release_entry : (ℕ → Bool) → GpuDataCacheEntry → GpuDataCacheEntry × Bool
release_entry freed e =
    if not (e.active_accesses == 0) || is_loading e.cache_state
    then (e, false)
    else (let (replicas, ok) = free_replicas freed e.replicas in
        (if all_released replicas then new_entry else record e { replicas = replicas }, ok))
