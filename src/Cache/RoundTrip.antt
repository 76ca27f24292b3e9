-- ===== src/Cache/RoundTrip.antt =====
-- A fallback lease from `getCacheData` to `completeAccess` or `abortAccess`.
use gpuinfra.Prelude.{◌≡◌, ◌≢◌, Bool, true, false, arith}
use gpuinfra.Types.{StdHash, FrameMetadata, null}
use gpuinfra.Access.{CacheRetention}
use gpuinfra.Cache.{GpuDataCache, GpuCacheRequest, CacheFallbackReason}
use gpuinfra.Cache.Lookup.{make_access, make_fallback_access, count_fallback}
use gpuinfra.Cache.Finish.{complete_fallback, complete_access, abort_access}

module _ (std : StdHash) (c : GpuDataCache) (m : FrameMetadata) (q : GpuCacheRequest)
    (reason : CacheFallbackReason) where
  -- On a working cache that is not being released, a fallback with a buffer of the caller that is
  -- granted and then completed leaves the cache as it was but for the statistics, with the caller's
  -- own verdict as the result; one that is aborted leaves the same cache.
  pub complete_access-make_fallback_access :
      c.initialized ≡ true
      → c.releasing ≡ false
      → q.d_fallback ≢ null
      → (s : Bool) (k : CacheRetention)
      → (complete_access std
            (make_fallback_access c m q reason).0
            (make_fallback_access c m q reason).1
            s
            k
          ≡ (record c { statistics = count_fallback c.statistics reason }, s))
        × (abort_access std
              (make_fallback_access c m q reason).0
              (make_fallback_access c m q reason).1
            ≡ record c { statistics = count_fallback c.statistics reason })
  unfolding make_fallback_access make_access complete_access complete_fallback abort_access
  complete_access-make_fallback_access on kept buffer s k = (ground arith, ground arith)
