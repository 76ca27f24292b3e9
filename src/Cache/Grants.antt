-- ===== src/Cache/Grants.antt =====
-- What the access that `getCacheData` returns promises, by its status.
use gpuinfra.Prelude.{
  ℕ, ◌+◌, ◌<◌, ◌≡◌, ◌≢◌, refl, Bool, true, none, some, arith, length, get_or-set,
}
use gpuinfra.Types.{StdHash, FrameMetadata, metadata_eq, metadata_eq_iff, null}
use gpuinfra.Entry.{new_entry, valid, data_for_gpu, replica_valid}
use gpuinfra.Access.{
  GpuDataAccess, no_access, CacheStatus, invalid, cache_hit, cache_fill, task_fallback,
}
use gpuinfra.Residency.{find}
use gpuinfra.Cache.{
  GpuDataCache, CacheStatistics, GpuCacheRequest, CacheFallbackReason, replica_unavailable,
  loading_timeout, loading_no_wait, incr, entry_at,
}
use gpuinfra.Cache.Lists.{remove_evictable_entry}
use gpuinfra.Cache.Frame.{frame, frame-remove_evictable}
use gpuinfra.Cache.Payload.{payload, Alike, remove_evictable-Alike}
use gpuinfra.Cache.Lookup.{
  RequestState, Outcome, returned, asleep, make_access, make_fallback_access, refuse, fall_back,
  begin_wait, wait_or_fall_back, blocked_by_loading, grant_hit, lease_hit, on_resident, pass,
  get_cache_data, new_request,
}

-- A reader lease on the entry `i` of `c`, which has turned into `c'`.
pub record IsHit (c : GpuDataCache) (m : FrameMetadata) (q : GpuCacheRequest) (i : ℕ)
    (c' : GpuDataCache) (a : GpuDataAccess) : Type 0 where
  pub in_range : i < length c.entries
  pub state : (entry_at c i).cache_state ≡ valid
  pub same_frame : (entry_at c i).metadata ≡ m
  pub usable : replica_valid (entry_at c i) q.gpu_id ≡ true
  pub allocated : data_for_gpu (entry_at c i) q.gpu_id ≢ null
  pub access : a ≡ make_access c m q (data_for_gpu (entry_at c i) q.gpu_id) (some i) cache_hit
  pub reader :
      payload (entry_at c' i)
      ≡ record (payload (entry_at c i)) { active_accesses = (entry_at c i).active_accesses + 1 }

-- Nothing but counters has changed.
abbrev pub Untouched : GpuDataCache → GpuDataCache → Type 0
Untouched c c' = (c'.entries ≡ c.entries) × (c'.residency_table ≡ c.residency_table)

module _ (c : GpuDataCache) (m : FrameMetadata) (q : GpuCacheRequest) where
  -- What an outcome on a resident key at the entry `i` promises.
  abbrev GrantsAs : ℕ → CacheStatus → GpuDataCache → GpuDataAccess → Type 0
  GrantsAs i invalid c' a = a ≡ no_access
  GrantsAs i cache_hit c' a = IsHit c m q i c' a
  GrantsAs i cache_fill c' a = ⊥
  GrantsAs i task_fallback c' a =
      (a ≡ make_access c m q q.d_fallback none task_fallback) × Untouched c c'

  abbrev pub Grants : ℕ → GpuDataCache × Outcome → Type 0
  Grants i (c', returned a) = GrantsAs i a.access_status c' a
  Grants i (c', asleep r) = Untouched c c'

  refuse-Grants : (i : ℕ) (c' : GpuDataCache) → Grants i (refuse c')
  refuse-Grants i c' = refl

  fall_back-Grants :
      (i : ℕ) (s : CacheStatistics) (reason : CacheFallbackReason)
      → Grants i (fall_back (record c { statistics = s }) m q reason)
  unfolding make_fallback_access make_access
  fall_back-Grants i s reason = (refl, (refl, refl))

  wait_or_fall_back-Grants :
      (i : ℕ) (s : CacheStatistics) (r : RequestState) (late : Bool) (a b : CacheFallbackReason)
      → Grants i (wait_or_fall_back (record c { statistics = s }) m q r late a b)
  unfolding wait_or_fall_back begin_wait
  wait_or_fall_back-Grants i s r late a b =
      let first = fall_back-Grants i s a in
      let second = fall_back-Grants i s b in ground (arith, first, second)

  blocked_by_loading-Grants :
      (i : ℕ) (r : RequestState) (late : Bool) → Grants i (blocked_by_loading c m q r late)
  unfolding blocked_by_loading
  blocked_by_loading-Grants i r late =
      let r' : RequestState = record r { blocked = true } in
      let counted : CacheStatistics = record (c.statistics) {
        first_blocked_loading = incr c.statistics.first_blocked_loading;
      } in
      let one = wait_or_fall_back-Grants i c.statistics r' late loading_no_wait loading_timeout in
      let two = wait_or_fall_back-Grants i counted r' late loading_no_wait loading_timeout in
      ground (arith, one, two)

  grant_hit-IsHit :
      (i : ℕ) (c₁ : GpuDataCache)
      → Alike i c c₁
      → frame c₁ ≡ frame c
      → i < length c.entries
      → (entry_at c i).cache_state ≡ valid
      → metadata_eq (entry_at c i).metadata m ≡ true
      → replica_valid (entry_at c i) q.gpu_id ≡ true
      → data_for_gpu (entry_at c i) q.gpu_id ≢ null
      → Grants i (grant_hit c₁ m q i)
  unfolding grant_hit make_access
  grant_hit-IsHit i c₁ alike same h v s r p =
      let put =
        get_or-set c₁.entries i i
          (record (entry_at c₁ i) { active_accesses = (entry_at c₁ i).active_accesses + 1 })
          new_entry (rw alike.1 h) in
      let met = (metadata_eq_iff (entry_at c i).metadata m).0 s in
      let (like, size) = alike in
      record {
        in_range = h;
        state = v;
        same_frame = met;
        usable = r;
        allocated = p;
        access = ground (arith, same, like);
        reader = ground (arith, put, like);
      }

  lease_hit-Grants :
      (i : ℕ)
      → i < length c.entries
      → (entry_at c i).cache_state ≡ valid
      → metadata_eq (entry_at c i).metadata m ≡ true
      → replica_valid (entry_at c i) q.gpu_id ≡ true
      → data_for_gpu (entry_at c i) q.gpu_id ≢ null
      → Grants i (lease_hit c m q i)
  unfolding lease_hit
  lease_hit-Grants i h v s r p =
      let c₁ = (remove_evictable_entry c i).0 in
      let first =
        grant_hit-IsHit i c₁ (remove_evictable-Alike i c i) (frame-remove_evictable c i) h v s r
          p in
      let second = grant_hit-IsHit i c (refl, refl) refl h v s r p in
      let refused = refuse-Grants i c in
      let refused₁ = refuse-Grants i c₁ in ground (arith, first, second, refused, refused₁)

  on_resident-Grants :
      (i : ℕ) (r : RequestState) (late : Bool) → Grants i (on_resident c m q r late i)
  unfolding on_resident
  on_resident-Grants i r late =
      let refused = refuse-Grants i c in
      let blocked = blocked_by_loading-Grants i r late in
      let fallback = fall_back-Grants i c.statistics replica_unavailable in
      let hit = λ (h : i < length c.entries). lease_hit-Grants i h in
      ground (arith, refused, blocked, fallback, hit)

  -- A request for a resident key gets a reader lease, a fallback, a refusal or sleep. A lease is
  -- only granted on an allocated, valid replica of the very frame, and adds one reader to the
  -- entry; a fallback hands out the caller's buffer, and like sleep leaves all entries and the
  -- table alone.
  pub get_cache_data-Grants :
      (std : StdHash) (i : ℕ) (late : Bool)
      → find std c.residency_table m.key ≡ some i
      → Grants i (get_cache_data std c m q late)
  unfolding get_cache_data pass
  get_cache_data-Grants std i late found =
      let refused = refuse-Grants i c in
      let resident = on_resident-Grants i new_request late in
      ground (arith, found, refused, resident)
