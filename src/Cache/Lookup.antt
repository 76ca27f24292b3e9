-- ===== src/Cache/Lookup.antt =====
-- `getCacheData`: one pass of its loop under the mutex, from a wakeup to the next wait or return.
use gpuinfra.Prelude.{
  ℕ, ◌+◌, ◌-◌, Bool, true, false, not, ◌||◌, ◌&&◌, Option, none, some, List, [], ◌∷◌, leb, ◌==◌,
  if◌then◌else◌, length, max,
}
use gpuinfra.Prelude.Int.{ℤ, is_neg, is_nonpos, eq_ℤ}
use gpuinfra.Types.{StdHash, FrameMetadata, metadata_eq, null}
use gpuinfra.Entry.{
  empty, loading, valid, is_valid, is_empty_state, data_for_gpu, replica_valid, invalidated,
}
use gpuinfra.Access.{
  GpuDataAccess, no_access, is_fifo, CacheStatus, cache_hit, cache_fill, task_fallback,
}
use gpuinfra.Residency.{find, insert, erase, is_empty}
use gpuinfra.Cache.{
  GpuDataCache, CacheStatistics, GpuCacheRequest, CacheFallbackReason, capacity_zero,
  loading_timeout, full_timeout, loading_no_wait, full_no_wait, replica_unavailable, incr, entry_at,
  put_entry,
}
use gpuinfra.Cache.Lists.{
  remove_evictable_entry, remove_filled_entry, take_candidate, restore_candidate,
}

-- The local variables of `getCacheData` that live across a wait.
pub record RequestState : Type 0 where
  pub blocked : Bool
  pub waited : Bool
  pub request_wait : ℕ

abbrev pub new_request : RequestState
new_request = record { blocked = false; waited = false; request_wait = 0 }

-- A pass returns an access, or goes to sleep on the condition variable.
pub data Outcome : Type 0 where
  returned : GpuDataAccess → Outcome
  asleep : RequestState → Outcome

-- the `switch` of `makeFallbackAccess`, and its counter
unfoldable pub count_fallback : CacheStatistics → CacheFallbackReason → CacheStatistics
count_fallback s capacity_zero = record s {
  fallback = incr s.fallback;
  fallback_reasons = record (s.fallback_reasons) {
    capacity_zeros = incr s.fallback_reasons.capacity_zeros;
  };
}
count_fallback s loading_timeout = record s {
  fallback = incr s.fallback;
  fallback_reasons = record (s.fallback_reasons) {
    loading_timeouts = incr s.fallback_reasons.loading_timeouts;
  };
}
count_fallback s full_timeout = record s {
  fallback = incr s.fallback;
  fallback_reasons = record (s.fallback_reasons) {
    full_timeouts = incr s.fallback_reasons.full_timeouts;
  };
}
count_fallback s loading_no_wait = record s {
  fallback = incr s.fallback;
  fallback_reasons = record (s.fallback_reasons) {
    loading_no_waits = incr s.fallback_reasons.loading_no_waits;
  };
}
count_fallback s full_no_wait = record s {
  fallback = incr s.fallback;
  fallback_reasons = record (s.fallback_reasons) {
    full_no_waits = incr s.fallback_reasons.full_no_waits;
  };
}
count_fallback s replica_unavailable = record s {
  fallback = incr s.fallback;
  fallback_reasons = record (s.fallback_reasons) {
    replica_unavailables = incr s.fallback_reasons.replica_unavailables;
  };
}

-- the members of an access by the constructor that `getCacheData` calls
unfoldable pub make_access :
    GpuDataCache → FrameMetadata → GpuCacheRequest → ℕ → Option ℕ → CacheStatus → GpuDataAccess
make_access c metadata request pointer index status = record {
  owner = c.self;
  d_data = pointer;
  data_bytes = c.data_bytes;
  entry_index = index;
  data_key = metadata.key;
  stream = request.stream;
  device_id = request.gpu_id;
  access_status = status;
}

-- `makeFallbackAccess`
unfoldable pub make_fallback_access :
    GpuDataCache
    → FrameMetadata
    → GpuCacheRequest
    → CacheFallbackReason
    → GpuDataCache × GpuDataAccess
make_fallback_access c metadata request reason = (
  record c {
    statistics = count_fallback c.statistics reason;
    active_fallback_accesses = c.active_fallback_accesses + 1;
  },
  make_access c metadata request request.d_fallback none task_fallback,
)

-- `++statistics.invalid; return GpuDataAccess();`
abbrev pub refuse : GpuDataCache → GpuDataCache × Outcome
refuse c = (
  record c {
    statistics = record (c.statistics) { invalid_requests = incr c.statistics.invalid_requests };
  },
  returned no_access,
)

abbrev pub fall_back :
    GpuDataCache → FrameMetadata → GpuCacheRequest → CacheFallbackReason → GpuDataCache × Outcome
fall_back c metadata request reason =
    let (c', access) = make_fallback_access c metadata request reason in (c', returned access)

-- `std::find` over the eligible GPU ids
unfoldable pub is_eligible : List ℤ → ℤ → Bool
is_eligible [] gpu = false
is_eligible (g ∷ gs) gpu = if eq_ℤ g gpu then true else is_eligible gs gpu

-- the checks at the head of `getCacheData`, negated: the request may proceed
unfoldable pub is_acceptable : GpuDataCache → FrameMetadata → GpuCacheRequest → Bool
is_acceptable c metadata request =
    c.initialized
    && not c.releasing
    && not c.failed
    && metadata.bytes == c.data_bytes
    && not (is_nonpos metadata.width)
    && not (is_nonpos metadata.height)
    && not (is_neg request.gpu_id)
    && not (request.stream == null)
    && not (request.d_fallback == null)
    && leb c.data_bytes request.fallback_bytes
    && is_eligible c.eligible_gpu_ids request.gpu_id

-- The entry of `waitForCacheChange`: `none` is its `return false`. `past_deadline` is the clock's
-- answer to `now() >= deadline`.
unfoldable pub begin_wait :
    GpuDataCache → RequestState → Bool → Option (GpuDataCache × RequestState)
begin_wait c r past_deadline =
    if is_empty c.entries || c.wait_timeout == 0 || past_deadline
    then none
    else some (
      record c {
        statistics = record (c.statistics) {
          waited_requests =
              if r.waited then c.statistics.waited_requests else incr c.statistics.waited_requests;
        };
        waiting_accesses = c.waiting_accesses + 1;
      },
      record r { waited = true },
    )

-- The rest of `waitForCacheChange`, after `wait_until` has taken the mutex again: notified, timed
-- out or woken for nothing, with the nanoseconds that have passed.
unfoldable pub end_wait : GpuDataCache → RequestState → ℕ → GpuDataCache × RequestState
end_wait c r elapsed =
    let total = r.request_wait + elapsed in
    (
      record c {
        waiting_accesses = c.waiting_accesses - 1;
        statistics = record (c.statistics) {
          total_wait_time = c.statistics.total_wait_time + elapsed;
          max_wait_time = max c.statistics.max_wait_time total;
        };
      },
      record r { request_wait = total },
    )

-- `if (waitForCacheChange(…)) { continue; } return makeFallbackAccess(…);`
unfoldable pub wait_or_fall_back :
    GpuDataCache
    → FrameMetadata
    → GpuCacheRequest
    → RequestState
    → Bool
    → CacheFallbackReason
    → CacheFallbackReason
    → GpuDataCache × Outcome
wait_or_fall_back c metadata request r past_deadline no_wait timeout =
    elim (begin_wait c r past_deadline) [
      | some (c', r') ↦ (c', asleep r')
      | none ↦ fall_back c metadata request (if c.wait_timeout == 0 then no_wait else timeout)
    ]

-- the branch for an entry that another request is filling
unfoldable pub blocked_by_loading :
    GpuDataCache → FrameMetadata → GpuCacheRequest → RequestState → Bool → GpuDataCache × Outcome
blocked_by_loading c metadata request r past_deadline =
    let c' : GpuDataCache = if r.blocked then c else record c {
      statistics = record (c.statistics) {
        first_blocked_loading = incr c.statistics.first_blocked_loading;
      };
    } in
    wait_or_fall_back c' metadata request (record r { blocked = true }) past_deadline
      loading_no_wait loading_timeout

-- the branch for a cache without an entry to fill or evict
unfoldable pub blocked_by_full :
    GpuDataCache → FrameMetadata → GpuCacheRequest → RequestState → Bool → GpuDataCache × Outcome
blocked_by_full c metadata request r past_deadline =
    if is_empty c.entries
    then fall_back c metadata request capacity_zero
    else (let c' : GpuDataCache = if r.blocked then c else record c {
      statistics = record (c.statistics) {
        first_blocked_full = incr c.statistics.first_blocked_full;
      };
    } in
        wait_or_fall_back c' metadata request (record r { blocked = true }) past_deadline
          full_no_wait full_timeout)

-- `++statistics.hit; ++entry.activeAccesses; return …`
unfoldable pub grant_hit :
    GpuDataCache → FrameMetadata → GpuCacheRequest → ℕ → GpuDataCache × Outcome
grant_hit c metadata request index =
    let entry = entry_at c index in
    (
      put_entry (record c { statistics = record (c.statistics) { hit = incr c.statistics.hit } })
          index (record entry { active_accesses = entry.active_accesses + 1 }),
      returned (
          make_access c metadata request (data_for_gpu entry request.gpu_id) (some index)
            cache_hit),
    )

-- a reader lease on a valid entry
unfoldable pub lease_hit :
    GpuDataCache → FrameMetadata → GpuCacheRequest → ℕ → GpuDataCache × Outcome
lease_hit c metadata request index =
    let entry = entry_at c index in
    if is_fifo c.eviction_policy && not entry.in_filled_list
    then refuse c
    else (if entry.active_accesses == 0
        then (let (c', removed) = remove_evictable_entry c index in
            if removed then grant_hit c' metadata request index else refuse c')
        else (if entry.in_evictable_list then refuse c else grant_hit c metadata request index))

-- the branch for a resident key
unfoldable pub on_resident :
    GpuDataCache
    → FrameMetadata
    → GpuCacheRequest
    → RequestState
    → Bool
    → ℕ
    → GpuDataCache × Outcome
on_resident c metadata request r past_deadline index =
    let entry = entry_at c index in
    if leb (length c.entries) index || not (metadata_eq entry.metadata metadata)
    then refuse c
    else elim entry.cache_state [
      | loading ↦ blocked_by_loading c metadata request r past_deadline
      | empty ↦ refuse c
      | valid ↦
          if data_for_gpu entry request.gpu_id == null || not (replica_valid entry request.gpu_id)
          then fall_back c metadata request replica_unavailable
          else lease_hit c metadata request index
    ]

-- the counters and fields of a new fill
unfoldable pub start_fill :
    GpuDataCache → FrameMetadata → GpuCacheRequest → ℕ → Bool → GpuDataCache × Outcome
start_fill c metadata request index was_empty =
    let s = c.statistics in
    let candidate = entry_at c index in
    (
      put_entry
          (record c {
            statistics = record s {
              fill = incr s.fill;
              eviction = if was_empty then s.eviction else incr s.eviction;
            };
          })
          index
          (record candidate {
            metadata = metadata;
            replicas = invalidated candidate.replicas;
            cache_state = loading;
            active_accesses = 1;
            discard_when_unused = false;
          }),
      returned (
          make_access c metadata request (data_for_gpu candidate request.gpu_id) (some index)
            cache_fill),
    )

module _ (std : StdHash) where
  -- from the insertion of the new key on
  unfoldable pub claim_candidate :
      GpuDataCache → FrameMetadata → GpuCacheRequest → ℕ → Bool → GpuDataCache × Outcome
  claim_candidate c metadata request index was_empty =
      let old_key = (entry_at c index).metadata.key in
      let (table, inserted) = insert std c.residency_table metadata.key index in
      let c' : GpuDataCache = record c { residency_table = table } in
      if not inserted
      then (let back : GpuDataCache =
            if was_empty
            then c'
            else record c' { residency_table = (insert std table old_key index).0 } in
          refuse (restore_candidate back index was_empty))
      else (if not was_empty && is_fifo c.eviction_policy
          then (let (c₂, removed) = remove_filled_entry c' index in
              if removed
              then start_fill c₂ metadata request index was_empty
              else (let undone = (erase std table metadata.key index).0 in
                  let redone = (insert std undone old_key index).0 in
                  refuse (restore_candidate (record c₂ { residency_table = redone }) index false)))
          else start_fill c' metadata request index was_empty)

  -- an entry taken from the free stack
  unfoldable pub use_empty :
      GpuDataCache → FrameMetadata → GpuCacheRequest → ℕ → GpuDataCache × Outcome
  use_empty c metadata request index =
      let candidate = entry_at c index in
      if not (is_empty_state candidate.cache_state)
        || not (candidate.active_accesses == 0)
        || candidate.in_evictable_list
      then refuse (restore_candidate c index true)
      else claim_candidate c metadata request index true

  -- an entry taken from the evictable list
  unfoldable pub use_evicted :
      GpuDataCache → FrameMetadata → GpuCacheRequest → ℕ → GpuDataCache × Outcome
  use_evicted c metadata request index =
      let candidate = entry_at c index in
      if not (is_valid candidate.cache_state)
        || not (candidate.active_accesses == 0)
        || candidate.in_evictable_list
      then refuse (restore_candidate c index false)
      else (let (table, erased) = erase std c.residency_table candidate.metadata.key index in
          if erased
          then claim_candidate (record c { residency_table = table }) metadata request index false
          else refuse (restore_candidate c index false))

  -- the branch for an absent key
  unfoldable pub on_absent :
      GpuDataCache → FrameMetadata → GpuCacheRequest → RequestState → Bool → GpuDataCache × Outcome
  on_absent c metadata request r past_deadline =
      let (c', taken, was_empty) = take_candidate c in
      elim taken [
        | none ↦ blocked_by_full c' metadata request r past_deadline
        | some index ↦
            if data_for_gpu (entry_at c' index) request.gpu_id == null
            then refuse (restore_candidate c' index was_empty)
            else (if was_empty
                then use_empty c' metadata request index
                else use_evicted c' metadata request index)
      ]

  -- one pass of `while (true)`
  unfoldable pub pass :
      GpuDataCache → FrameMetadata → GpuCacheRequest → RequestState → Bool → GpuDataCache × Outcome
  pass c metadata request r past_deadline =
      if c.failed then refuse c else elim (find std c.residency_table metadata.key) [
        | some index ↦ on_resident c metadata request r past_deadline index
        | none ↦ on_absent c metadata request r past_deadline
      ]

  -- `getCacheData`, up to its first wait or its return
  unfoldable pub get_cache_data :
      GpuDataCache → FrameMetadata → GpuCacheRequest → Bool → GpuDataCache × Outcome
  get_cache_data c metadata request past_deadline =
      if is_acceptable c metadata request
      then pass c metadata request new_request past_deadline
      else refuse c

  -- A sleeping request that wakes: the end of its wait, and the next pass.
  unfoldable pub wake :
      GpuDataCache
      → FrameMetadata
      → GpuCacheRequest
      → RequestState
      → ℕ
      → Bool
      → GpuDataCache × Outcome
  wake c metadata request r elapsed past_deadline =
      let (c', r') = end_wait c r elapsed in pass c' metadata request r' past_deadline
