-- ===== src/Cache/Counted.antt =====
-- The accounting of `getCacheData`, and its branches for a resident key.
pub mod Requests
use gpuinfra.Prelude.{
  ℕ, ◌+◌, ◌-◌, ◌≡◌, ◌≢◌, refl, ◌∙◌, ap, inl, inr, Bool, true, false, Option, none, some, [], ◌∷◌,
  arith, Option-cases, size_mod, ◌%◌, if◌then◌else◌, not, ◌==◌, ◌||◌, ◌&&◌, length, leb,
}
use gpuinfra.Types.{StdHash, FrameMetadata, metadata_eq, null}
use gpuinfra.Entry.{empty, loading, valid, data_for_gpu, replica_valid}
use gpuinfra.Access.{CacheStatus, invalid, cache_hit, cache_fill, task_fallback, is_fifo}
use gpuinfra.Residency.{find, insert, erase, is_empty}
use gpuinfra.Cache.{
  GpuDataCache, CacheStatistics, GpuCacheRequest, CacheFallbackReason, capacity_zero,
  loading_timeout, full_timeout, loading_no_wait, full_no_wait, replica_unavailable, incr, entry_at,
  put_entry,
}
use gpuinfra.Cache.Lists.{
  remove_evictable_entry, remove_filled_entry, take_candidate, restore_candidate,
}
use gpuinfra.Cache.Frame.{
  frame, frame-remove_evictable, frame-remove_filled, frame-restore, frame-take,
}
use gpuinfra.Cache.Lookup.{
  RequestState, Outcome, returned, asleep, count_fallback, make_access, make_fallback_access,
  refuse, fall_back, begin_wait, wait_or_fall_back, blocked_by_loading, blocked_by_full, grant_hit,
  lease_hit, on_resident, start_fill, claim_candidate, use_empty, use_evicted, on_absent, pass,
  end_wait, wake, is_acceptable, get_cache_data, new_request,
}

-- The counters of the returns (hits, fills, fallbacks and invalid requests), the live counts of
-- fallbacks and of sleeping requests, and the timeout.
pub record Tally : Type 0 where
  pub hits : ℕ
  pub fills : ℕ
  pub fallbacks : ℕ
  pub invalids : ℕ
  pub running_fallbacks : ℕ
  pub waiting : ℕ
  pub timeout : ℕ

abbrev pub tally : GpuDataCache → Tally
tally c = record {
  hits = c.statistics.hit;
  fills = c.statistics.fill;
  fallbacks = c.statistics.fallback;
  invalids = c.statistics.invalid_requests;
  running_fallbacks = c.active_fallback_accesses;
  waiting = c.waiting_accesses;
  timeout = c.wait_timeout;
}

abbrev pub count_status : CacheStatus → Tally → Tally
count_status invalid t = record t { invalids = incr t.invalids }
count_status cache_hit t = record t { hits = incr t.hits }
count_status cache_fill t = record t { fills = incr t.fills }
count_status task_fallback t = record t {
  fallbacks = incr t.fallbacks;
  running_fallbacks = t.running_fallbacks + 1;
}

-- A result that counts its outcome on top of `t`. A request sleeps only before its deadline and
-- with a timeout, and is not counted yet.
abbrev pub Counts : Bool → Tally → GpuDataCache × Outcome → Type 0
Counts late t (c, returned access) = tally c ≡ count_status access.access_status t
Counts late t (c, asleep r) =
    (tally c ≡ record t { waiting = t.waiting + 1 }) × (late ≡ false) × (t.timeout ≢ 0)

pub tally-frame : (c c' : GpuDataCache) → frame c' ≡ frame c → tally c' ≡ tally c
tally-frame c c' h = ap tally h

pub refuse-Counts :
    (late : Bool) (t : Tally) (c : GpuDataCache) → tally c ≡ t → Counts late t (refuse c)
refuse-Counts late t c h = ap (count_status invalid) h

module _ (late : Bool) (t : Tally) (c : GpuDataCache) (m : FrameMetadata)
    (q : GpuCacheRequest) where
  pub fall_back-Counts :
      (reason : CacheFallbackReason) → tally c ≡ t → Counts late t (fall_back c m q reason)
  unfolding make_fallback_access count_fallback make_access
  fall_back-Counts capacity_zero h = ap (count_status task_fallback) h
  fall_back-Counts loading_timeout h = ap (count_status task_fallback) h
  fall_back-Counts full_timeout h = ap (count_status task_fallback) h
  fall_back-Counts loading_no_wait h = ap (count_status task_fallback) h
  fall_back-Counts full_no_wait h = ap (count_status task_fallback) h
  fall_back-Counts replica_unavailable h = ap (count_status task_fallback) h

  grant_hit-Counts : (i : ℕ) → tally c ≡ t → Counts late t (grant_hit c m q i)
  unfolding grant_hit make_access
  grant_hit-Counts i h = ap (count_status cache_hit) h

  pub start_fill-Counts : (i : ℕ) (e : Bool) → tally c ≡ t → Counts late t (start_fill c m q i e)
  unfolding start_fill make_access
  start_fill-Counts i e h = ap (count_status cache_fill) h

module _ (late : Bool) (t : Tally) (c : GpuDataCache) (m : FrameMetadata) (q : GpuCacheRequest)
    (h : tally c ≡ t) where
  wait_or_fall_back-Counts :
      (r : RequestState) (a b : CacheFallbackReason)
      → Counts late t (wait_or_fall_back c m q r late a b)
  unfolding wait_or_fall_back begin_wait
  wait_or_fall_back-Counts r a b =
      let first = fall_back-Counts late t c m q a h in
      let second = fall_back-Counts late t c m q b h in ground (arith, first, second, h)

  lease_hit-Counts : (i : ℕ) → Counts late t (lease_hit c m q i)
  unfolding lease_hit
  lease_hit-Counts i =
      let taken = remove_evictable_entry c i in
      let same : tally taken.0 ≡ t = tally-frame c taken.0 (frame-remove_evictable c i) ∙ h in
      let granted = grant_hit-Counts late t taken.0 m q i same in
      let refused = refuse-Counts late t taken.0 same in
      let granted₀ = grant_hit-Counts late t c m q i h in
      let refused₀ = refuse-Counts late t c h in
      ground (arith, granted, refused, granted₀, refused₀)

module _ (late : Bool) (t : Tally) (c : GpuDataCache) (m : FrameMetadata) (q : GpuCacheRequest)
    (h : tally c ≡ t) where
  blocked_by_loading-Counts : (r : RequestState) → Counts late t (blocked_by_loading c m q r late)
  unfolding blocked_by_loading
  blocked_by_loading-Counts r =
      wait_or_fall_back-Counts late t _ m q (ground (arith, h)) (record r { blocked = true })
        loading_no_wait loading_timeout

  pub blocked_by_full-Counts : (r : RequestState) → Counts late t (blocked_by_full c m q r late)
  unfolding blocked_by_full
  blocked_by_full-Counts r =
      let zero = fall_back-Counts late t c m q capacity_zero h in
      let counted : GpuDataCache = if r.blocked then c else record c {
        statistics = record (c.statistics) {
          first_blocked_full = incr c.statistics.first_blocked_full;
        };
      } in
      let same : tally counted ≡ t = ground (arith, h) in
      let waits =
        wait_or_fall_back-Counts late t counted m q same (record r { blocked = true }) full_no_wait
          full_timeout in
      ground (arith, zero, waits)

  pub on_resident-Counts : (r : RequestState) (i : ℕ) → Counts late t (on_resident c m q r late i)
  unfolding on_resident
  on_resident-Counts r i =
      let refused = refuse-Counts late t c h in
      let blocked = blocked_by_loading-Counts r in
      let fallback = fall_back-Counts late t c m q replica_unavailable h in
      let hit = lease_hit-Counts late t c m q h i in ground (arith, refused, blocked, fallback, hit)
