-- ===== src/StaticData.antt =====
-- src/StaticData/StaticData.{h,cpp}: the cache and the static buffers of one graph copy. The answers
-- of CUDA are arguments, and `gpus` is the answer of `gpuIdsForCurrentNumaNode`.
pub mod Plan
mod Tests
use gpuinfra.Prelude.{
  ℕ, ◌+◌, ◌-◌, ◌*◌, ◌/◌, ◌%◌, Bool, true, false, not, ◌||◌, ◌&&◌, Option, none, some, List, [], ◌∷◌,
  ltb, ◌==◌, if◌then◌else◌, size_mod, size_max,
}
use gpuinfra.Prelude.Int.{ℤ, negsuc, eq_ℤ}
use gpuinfra.Types.{StdHash, FrameMetadata, AlgoRuntimeInfo, default_runtime, null}
use gpuinfra.Access.{CacheEvictionPolicy, GpuDataAccess, no_access}
use gpuinfra.Cache.{GpuDataCache, GpuCacheRequest, CacheStatistics}
use gpuinfra.Cache.Lookup.{Outcome, returned, get_cache_data}
use gpuinfra.Cache.Manage.{initialize_cache, reset_cache, release_cache}
use gpuinfra.StaticGpuData.{
  StaticGpuData, StaticGpuDataType, is_empty, is_ready, InitAnswers, UploadAnswers, ReleaseAnswers,
}
use gpuinfra.StaticGpuData.Operations.{initialize, upload, finalize, release, data_of}

-- `StaticDataConfig`
pub record StaticDataConfig : Type 0 where
  pub runtime : AlgoRuntimeInfo
  pub detection_zone_bytes : ℕ
  pub distortion_bytes : ℕ
  pub gpu_cache_entries : ℕ
  pub gpu_cache_wait_timeout : ℤ
  pub gpu_cache_eviction_policy : CacheEvictionPolicy

-- the members of `StaticData`
pub record StaticData : Type 0 where
  pub gpu_data_cache : GpuDataCache
  pub gpu_static_data : StaticGpuData
  pub frame_runtime : AlgoRuntimeInfo
  pub initialized : Bool

-- What the system answers to `init`: the GPU ids, the device guard, the free bytes of
-- `cudaMemGetInfo`, and the calls below it. `freed` and `static_data.release` are for a failure.
pub record StaticAnswers : Type 0 where
  pub gpus : List ℤ × Bool
  pub device_ok : Bool
  pub free_bytes : Option ℕ
  pub resize_ok : Bool
  pub pointer : ℕ → Option ℕ
  pub static_data : InitAnswers
  pub finalized : UploadAnswers
  pub freed : ℕ → Bool

-- `matchesRuntime`
unfoldable pub matches_runtime : FrameMetadata → AlgoRuntimeInfo → Bool
matches_runtime m r =
    not (m.bytes == 0)
    && m.bytes == r.in_bytes
    && eq_ℤ m.width r.frame_w
    && eq_ℤ m.height r.frame_h
    && eq_ℤ m.dtype r.frame_dtype

-- the bytes of the cache, on a `size_t`
unfoldable pub cache_gpu_bytes : StaticDataConfig → ℕ
cache_gpu_bytes g = (g.gpu_cache_entries * g.runtime.in_bytes) % size_mod

-- `totalGpuBytes`, on a `size_t`
unfoldable pub total_gpu_bytes : StaticDataConfig → ℕ
total_gpu_bytes g = (cache_gpu_bytes g + g.detection_zone_bytes + g.distortion_bytes) % size_mod

-- the checks of `init` before its sum: no product or sum wraps
unfoldable pub plan_fits : StaticDataConfig → Bool
plan_fits g =
    let cached = cache_gpu_bytes g in
    not (not (g.gpu_cache_entries == 0) && ltb (size_max / g.gpu_cache_entries) g.runtime.in_bytes)
    && not (ltb (size_max - cached) g.detection_zone_bytes)
    && not (
        ltb ((size_max - cached + size_mod - g.detection_zone_bytes) % size_mod) g.distortion_bytes)

-- the check of the free memory
unfoldable pub has_memory : StaticAnswers → ℕ → Bool
has_memory a total =
    total == 0
    || a.device_ok && elim a.free_bytes [ none ↦ false | some free ↦ not (ltb free total) ]

-- `release`
unfoldable pub release_data : (ℕ → Bool) → ReleaseAnswers → StaticData → StaticData × Bool
release_data freed a d =
    let (cache, released) = release_cache freed d.gpu_data_cache in
    let (static_data, ok) = release a d.gpu_static_data in
    if not released then (record d { gpu_data_cache = cache }, false) else (
      record {
        gpu_data_cache = cache;
        gpu_static_data = static_data;
        frame_runtime =
            if is_empty static_data.current_state then default_runtime else d.frame_runtime;
        initialized = false;
      },
      ok,
    )

-- `init`, from the initialization of the cache on
unfoldable pub init_parts : StaticAnswers → StaticData → StaticDataConfig → ℤ → StaticData × Bool
init_parts a d g gpu =
    let (cache, cached) =
      initialize_cache a.resize_ok a.pointer d.gpu_data_cache (a.gpus.0) g.runtime.in_bytes
        g.gpu_cache_entries g.gpu_cache_wait_timeout g.gpu_cache_eviction_policy in
    let d₁ : StaticData = record d { gpu_data_cache = cache } in
    let (static_data, opened) =
      initialize a.static_data d.gpu_static_data gpu g.detection_zone_bytes g.distortion_bytes in
    let d₂ : StaticData = record d₁ { gpu_static_data = static_data } in
    let (finished, closed) = finalize a.finalized static_data in
    let no_regions = g.detection_zone_bytes == 0 && g.distortion_bytes == 0 in
    let d₃ : StaticData = record d₂ {
      gpu_static_data = if no_regions then finished else static_data;
    } in
    if not cached
    then (d₁, false)
    else (if not opened
        then ((release_data a.freed a.static_data.release d₂).0, false)
        else (if no_regions && not closed
            then ((release_data a.freed a.static_data.release d₃).0, false)
            else (record d₃ { frame_runtime = g.runtime; initialized = true }, true)))

-- `init`
unfoldable pub init : StaticAnswers → StaticData → StaticDataConfig → StaticData × Bool
init a d g =
    if d.initialized
      || not (is_empty d.gpu_static_data.current_state)
      || d.gpu_data_cache.initialized
      || not (d.frame_runtime.in_bytes == 0)
      || g.runtime.in_bytes == 0
      || not a.gpus.1
    then (d, false)
    else (if not (plan_fits g) || not (has_memory a (total_gpu_bytes g))
        then (d, false)
        else elim a.gpus.0 [ [] ↦ (d, false) | gpu ∷ others ↦ init_parts a d g gpu ])

-- `uploadStaticData`
unfoldable pub upload_static_data :
    UploadAnswers → StaticData → StaticGpuDataType → ℕ → ℕ → ℕ → StaticData × Bool
upload_static_data a d type source count offset =
    let (static_data, ok) = upload a d.gpu_static_data type source count offset in
    if d.initialized then (record d { gpu_static_data = static_data }, ok) else (d, false)

-- `finalizeStaticData`
unfoldable pub finalize_static_data : UploadAnswers → StaticData → StaticData × Bool
finalize_static_data a d =
    let (static_data, ok) = finalize a d.gpu_static_data in
    if d.initialized then (record d { gpu_static_data = static_data }, ok) else (d, false)

-- `staticGpuData`
unfoldable pub static_gpu_data : StaticData → StaticGpuDataType → ℕ
static_gpu_data d type = if d.initialized then data_of d.gpu_static_data type else null

-- `StaticData::resetCache`
unfoldable pub reset_data_cache : StaticData → StaticData × Option CacheStatistics
reset_data_cache d =
    let (cache, statistics) = reset_cache d.gpu_data_cache in
    if d.initialized && not (d.frame_runtime.in_bytes == 0)
    then (record d { gpu_data_cache = cache }, statistics)
    else (d, none)

-- `execute`
unfoldable pub execute : StaticData → Bool
execute d = d.initialized && is_ready d.gpu_static_data.current_state

-- `validateFrame`
unfoldable pub validate_frame : StaticData → FrameMetadata → Bool
validate_frame d m = execute d && matches_runtime m d.frame_runtime

-- `StaticData::getCacheData`, up to its first wait or its return
unfoldable pub get_data :
    StdHash → StaticData → FrameMetadata → GpuCacheRequest → Bool → StaticData × Outcome
get_data std d m q past_deadline =
    let (cache, outcome) = get_cache_data std d.gpu_data_cache m q past_deadline in
    if validate_frame d m
    then (record d { gpu_data_cache = cache }, outcome)
    else (d, returned no_access)
