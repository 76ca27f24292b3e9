-- ===== src/Cache/Settled.antt =====
-- The end of a lease: `completeAccess` and `freeCacheData`, what they leave alone and count.
use gpuinfra.Prelude.{
  ℕ, ◌-◌, ◌||◌, ◌≡◌, ◌≢◌, refl, ap, inl, inr, Bool, true, false, arith, Option-cases,
}
use gpuinfra.Types.{StdHash, FrameMetadata, null}
use gpuinfra.Entry.{marked, valid}
use gpuinfra.Access.{
  GpuDataAccess, CacheRetention, keep, is_discard, invalid, cache_hit, cache_fill, task_fallback,
}
use gpuinfra.Residency.{new_table}
use gpuinfra.Cache.{GpuDataCache, GpuCacheRequest, incr, entry_at, put_entry}
use gpuinfra.Cache.Lists.{add_evictable_entry, remove_evictable_entry, add_filled_entry}
use gpuinfra.Cache.Frame.{
  frame, frame-add_evictable, frame-remove_evictable, frame-add_filled, frame-remove_filled,
}
use gpuinfra.Cache.Lookup.{refuse, is_acceptable, get_cache_data}
use gpuinfra.Cache.Finish.{
  note_sync_failure, count_discard, reset_entry, release_reader_entry, complete_fallback,
  complete_hit, publish_fill, complete_fill, count_fill, named_entry, complete_access,
  free_cache_data,
}

-- The members that the end of a cache-backed lease leaves alone, `discards` aside.
abbrev pub outline : GpuDataCache → GpuDataCache
outline c = record (frame c) {
  residency_table = new_table;
  statistics = record (c.statistics) { discards = 0 };
}

outline-frame : (c c' : GpuDataCache) → frame c' ≡ frame c → outline c' ≡ outline c
outline-frame c c' h = ap outline h

module _ (std : StdHash) where
  outline-reset_entry : (c : GpuDataCache) (i : ℕ) → outline (reset_entry std c i) ≡ outline c
  unfolding reset_entry
  outline-reset_entry c i =
      let evicted = (remove_evictable_entry c i).0 in
      let one = frame-remove_evictable c i in
      let two = frame-remove_filled c i in
      let three = frame-remove_filled evicted i in ground (arith, one, two, three)

  outline-discarded :
      (c : GpuDataCache) (i : ℕ) → outline (count_discard (reset_entry std c i)) ≡ outline c
  outline-discarded c i = outline-reset_entry c i

  outline-release_reader :
      (c : GpuDataCache) (i : ℕ) → outline (release_reader_entry std c i).0 ≡ outline c
  unfolding release_reader_entry
  outline-release_reader c i =
      let discarded = outline-discarded c i in
      let listed = outline-frame c (add_evictable_entry c i).0 (frame-add_evictable c i) in
      ground (arith, discarded, listed)

  outline-complete_hit :
      (c : GpuDataCache) (a : GpuDataAccess) (i : ℕ) (k : CacheRetention)
      → outline (complete_hit std c a i k).0 ≡ outline c
  unfolding complete_hit
  outline-complete_hit c a i k =
      let e = entry_at c i in
      let left = put_entry c i (record e {
        discard_when_unused = e.discard_when_unused || is_discard k;
        active_accesses = e.active_accesses - 1;
      }) in
      let released = outline-release_reader left i in ground (arith, released)

  outline-publish_fill :
      (c : GpuDataCache) (i : ℕ) (k : CacheRetention)
      → outline (publish_fill std c i k).0 ≡ outline c
  unfolding publish_fill
  outline-publish_fill c i k =
      let discarded = outline-discarded c i in
      let c₁ = (add_filled_entry c i).0 in
      let c₂ = (add_evictable_entry c₁ i).0 in
      let one = outline-frame c c₁ (frame-add_filled c i) in
      let two = outline-frame c₁ c₂ (frame-add_evictable c₁ i) in
      let undone₁ = outline-reset_entry c₁ i in
      let undone₂ = outline-reset_entry c₂ i in
      ground (arith, discarded, one, two, undone₁, undone₂)

  outline-complete_fill :
      (c : GpuDataCache) (a : GpuDataAccess) (i : ℕ) (s : Bool) (k : CacheRetention)
      → outline (complete_fill std c a i s k).0 ≡ outline c
  unfolding complete_fill
  outline-complete_fill c a i s k =
      let e = entry_at c i in
      let loaded = put_entry c i (record e {
        replicas = marked e.replicas a.device_id;
        cache_state = valid;
        active_accesses = 0;
      }) in
      let published = outline-publish_fill loaded i k in
      let undone = outline-reset_entry c i in ground (arith, published, undone)

  complete_fill_failed :
      (c : GpuDataCache) (a : GpuDataAccess) (i : ℕ) (k : CacheRetention)
      → (complete_fill std c a i false k).1 ≡ false
  unfolding complete_fill
  complete_fill_failed c a i k = ground arith

-- The outcomes of fills that are counted.
pub record Ledger : Type 0 where
  pub succeeded : ℕ
  pub failed : ℕ
  pub broken : Bool

abbrev pub ledger : GpuDataCache → Ledger
ledger c = record {
  succeeded = c.statistics.fill_succeeded;
  failed = c.statistics.fill_failed;
  broken = c.failed;
}

-- The ledger after a fill that has ended well, or not.
abbrev pub settle : Bool → Ledger → Ledger
settle true l = record l { succeeded = incr l.succeeded }
settle false l = record l { failed = incr l.failed }

abbrev pub settle_access : GpuDataAccess → Bool → Ledger → Ledger
settle_access a ok l = elim a.access_status [
  | invalid ↦ l
  | cache_hit ↦ l
  | cache_fill ↦ settle ok l
  | task_fallback ↦ l
]

ledger-outline : (c c' : GpuDataCache) → outline c' ≡ outline c → ledger c' ≡ ledger c
ledger-outline c c' h = ap ledger h

count_fill-ledger :
    (std : StdHash) (r : GpuDataCache × Bool)
    → ledger (count_fill std r).0 ≡ settle (count_fill std r).1 (ledger r.0)
count_fill-ledger std (c, true) = refl
count_fill-ledger std (c, false) = refl

-- Completing an access of this cache counts a fill once, as succeeded exactly when the completion
-- returns true, and counts no other access; whether the cache has failed does not change.
pub complete_access-settles :
    (std : StdHash) (c : GpuDataCache) (a : GpuDataAccess) (s : Bool) (k : CacheRetention)
    → a.owner ≡ c.self
    → ledger (complete_access std c a s k).0
      ≡ settle_access a (complete_access std c a s k).1 (ledger c)
unfolding complete_access complete_fallback
complete_access-settles std c a s k own = elim (Option-cases (named_entry std c a)) [
  | inl e ↦ ground (arith, e, own)
  | inr (i, e) ↦
      let hit = ledger-outline c (complete_hit std c a i k).0 (outline-complete_hit std c a i k) in
      let filled = complete_fill std c a i s k in
      let same = ledger-outline c filled.0 (outline-complete_fill std c a i s k) in
      let counted = count_fill-ledger std filled in ground (arith, e, own, hit, same, counted)
]

module _ (std : StdHash) (c : GpuDataCache) (a : GpuDataAccess) where
  complete_access_failed : (k : CacheRetention) → (complete_access std c a false k).1 ≡ false
  unfolding complete_access complete_fallback
  complete_access_failed k = elim (Option-cases (named_entry std c a)) [
    | inl e ↦ ground (arith, e)
    | inr (i, e) ↦ let lost = complete_fill_failed std c a i k in ground (arith, e, lost)
  ]

  complete_access-failed :
      (s : Bool) (k : CacheRetention) → (complete_access std c a s k).0.failed ≡ c.failed
  unfolding complete_access complete_fallback
  complete_access-failed s k = elim (Option-cases (named_entry std c a)) [
    | inl e ↦ ground (arith, e)
    | inr (i, e) ↦
        let hit =
          ledger-outline c (complete_hit std c a i k).0 (outline-complete_hit std c a i k) in
        let filled = complete_fill std c a i s k in
        let same = ledger-outline c filled.0 (outline-complete_fill std c a i s k) in
        let counted = count_fill-ledger std filled in ground (arith, e, hit, same, counted)
  ]

-- When the stream of a lease with an owner and a stream fails to synchronize, freeCacheData returns
-- false and the cache has failed: each request to it is refused and changes nothing but the counter
-- of invalid requests.
pub free_cache_data-refuses :
    (std : StdHash) (c : GpuDataCache) (a : GpuDataAccess) (submitted : Bool) (k : CacheRetention)
    → a.owner ≢ null
    → a.stream ≢ null
    → ((free_cache_data std c a submitted k false).1 ≡ false)
      × ((m : FrameMetadata) (q : GpuCacheRequest) (late : Bool)
          → get_cache_data std (free_cache_data std c a submitted k false).0 m q late
            ≡ refuse (free_cache_data std c a submitted k false).0)
unfolding free_cache_data get_cache_data is_acceptable note_sync_failure
free_cache_data-refuses std c a submitted k owned streamed =
    let broken = note_sync_failure c in
    let lost₁ = complete_access_failed std broken a k in
    let lost₂ = complete_access_failed std broken a keep in
    let down₁ = complete_access-failed std broken a false k in
    let down₂ = complete_access-failed std broken a false keep in
    let shut : (free_cache_data std c a submitted k false).0.failed ≡ true =
      ground (arith, owned, streamed, down₁, down₂) in
    (ground (arith, owned, streamed, lost₁, lost₂), λ m q late. ground (arith, shut))
