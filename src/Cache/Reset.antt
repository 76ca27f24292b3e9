-- ===== src/Cache/Reset.antt =====
-- `resetCache`: when it is granted, and the cache that it leaves.
use gpuinfra.Prelude.{
  ◌⊎◌, sym, subst, ℕ, zero, suc, ◌+◌, ◌<◌, ◌≡◌, ◌≢◌, refl, true, false, none, some, List, [], ◌∷◌,
  arith, length, get_or,
}
use gpuinfra.Prelude.Int.{ℤ}
use gpuinfra.Types.{StdHash, default_metadata}
use gpuinfra.Entry.{
  GpuDataCacheEntry, GpuReplica, new_entry, empty, loading, replica_data, data_for_gpu,
  replicas_valid, replica_valid, invalidated,
}
use gpuinfra.Residency.Valid.{IsValid}
use gpuinfra.Residency.Init.{IsFresh, clear-IsFresh}
use gpuinfra.Cache.{CacheStatistics, GpuDataCache, no_statistics, entry_at}
use gpuinfra.Cache.Finish.{cleared_entry}
use gpuinfra.Cache.Manage.{
  all_idle, can_reset, clear_entries, reset_entries, reset_cache, ascending,
}

-- No lease and no fill on the entry.
pub record IsIdle (e : GpuDataCacheEntry) : Type 0 where
  pub unread : e.active_accesses ≡ 0
  pub settled : e.cache_state ≢ loading

-- Nobody uses the cache.
pub record IsQuiet (c : GpuDataCache) : Type 0 where
  pub no_fallback : c.active_fallback_accesses ≡ 0
  pub no_waiting : c.waiting_accesses ≡ 0
  pub idle : (j : ℕ) → j < length c.entries → IsIdle (entry_at c j)

-- The indices from `start` on, in order.
abbrev pub Counting : ℕ → ℕ → List ℕ → Type 0
Counting start n xs = (length xs ≡ n) × ((j : ℕ) → j < n → get_or xs j 0 ≡ start + j)

pub ascending-Counting : (start n : ℕ) → Counting start n (ascending start n)
unfolding ascending
ascending-Counting start zero = (refl, λ j h. absurd (omega arith))
ascending-Counting start (suc n) =
    let (size, at) = ascending-Counting (start + 1) n in
    (
      omega (arith, size),
      λ j h.
          (elim j
              as (λ (i : ℕ). i < suc n → get_or (start ∷ ascending (start + 1) n) i 0 ≡ start + i) [
                | zero ↦ λ _. omega arith
                | suc i ↦ λ k. omega (arith, at i (omega arith))
              ])
            h,
    )

all_idle_of :
    (es : List GpuDataCacheEntry)
    → ((j : ℕ) → j < length es → IsIdle (get_or es j new_entry))
    → all_idle es ≡ true
unfolding all_idle
all_idle_of [] idle = refl
all_idle_of (e ∷ es) idle =
    let here = idle 0 (omega arith) in
    let unread = here.unread in
    let settled = here.settled in
    let rest = all_idle_of es (λ j h. idle (suc j) (omega arith)) in
    ground (arith, unread, settled, rest)

all_idle-IsIdle :
    (es : List GpuDataCacheEntry)
    → all_idle es ≡ true
    → (j : ℕ) → j < length es
    → IsIdle (get_or es j new_entry)
unfolding all_idle
all_idle-IsIdle [] e j h = absurd (omega arith)
all_idle-IsIdle (x ∷ es) e zero h = record {
  unread = ground (arith, e);
  settled = ground (arith, e);
}
all_idle-IsIdle (x ∷ es) e (suc j) h = all_idle-IsIdle es (ground (arith, e)) j (omega arith)

-- The entry `e'` is `e` without its frame: empty, unused, in no list, readable on no GPU, and with
-- the allocations of `e`.
pub record IsBlank (e e' : GpuDataCacheEntry) : Type 0 where
  pub empty_state : e'.cache_state ≡ empty
  pub no_frame : e'.metadata ≡ default_metadata
  pub unused : e'.active_accesses ≡ 0
  pub unlisted : (e'.in_evictable_list ≡ false) × (e'.in_filled_list ≡ false)
  pub no_evictable_links : (e'.previous_evictable ≡ none) × (e'.next_evictable ≡ none)
  pub no_filled_links : (e'.previous_filled ≡ none) × (e'.next_filled ≡ none)
  pub no_discard : e'.discard_when_unused ≡ false
  pub unreadable : (gpu : ℤ) → replica_valid e' gpu ≡ false
  pub allocations : (gpu : ℤ) → data_for_gpu e' gpu ≡ data_for_gpu e gpu
  pub size : e'.data_bytes ≡ e.data_bytes
  pub allocated : e'.initialized ≡ e.initialized

module _ (gpu : ℤ) where
  invalidated-unreadable : (rs : List GpuReplica) → replicas_valid (invalidated rs) gpu ≡ false
  unfolding replicas_valid invalidated
  invalidated-unreadable [] = refl
  invalidated-unreadable (r ∷ rs) = ground (arith, invalidated-unreadable rs)

  invalidated-data :
      (rs : List GpuReplica) → replica_data (invalidated rs) gpu ≡ replica_data rs gpu
  unfolding replica_data invalidated
  invalidated-data [] = refl
  invalidated-data (r ∷ rs) = ground (arith, invalidated-data rs)

cleared_entry-IsBlank : (e : GpuDataCacheEntry) → IsBlank e (cleared_entry e)
cleared_entry-IsBlank e = record {
  empty_state = refl;
  no_frame = refl;
  unused = refl;
  unlisted = (refl, refl);
  no_evictable_links = (refl, refl);
  no_filled_links = (refl, refl);
  no_discard = refl;
  unreadable = λ gpu. invalidated-unreadable gpu e.replicas;
  allocations = λ gpu. invalidated-data gpu e.replicas;
  size = refl;
  allocated = refl;
}

clear_entries-IsBlank :
    (es : List GpuDataCacheEntry) (j : ℕ)
    → j < length es
    → IsBlank (get_or es j new_entry) (get_or (clear_entries es) j new_entry)
unfolding clear_entries
clear_entries-IsBlank [] j h = absurd (omega arith)
clear_entries-IsBlank (e ∷ es) zero h = cleared_entry-IsBlank e
clear_entries-IsBlank (e ∷ es) (suc j) h = clear_entries-IsBlank es j (omega arith)

length-clear_entries : (es : List GpuDataCacheEntry) → length (clear_entries es) ≡ length es
unfolding clear_entries
length-clear_entries [] = refl
length-clear_entries (e ∷ es) = omega (arith, length-clear_entries es)

-- Every counter is 0, and so are the times.
abbrev AllZero : CacheStatistics → Type 0
AllZero s =
    let r = s.fallback_reasons in
    ((s.hit ≡ 0) × (s.fill ≡ 0) × (s.fallback ≡ 0) × (s.invalid_requests ≡ 0))
    × ((s.fill_succeeded ≡ 0)
        × (s.fill_failed ≡ 0)
        × (s.eviction ≡ 0)
        × (s.discards ≡ 0)
        × (s.sync_failures ≡ 0))
    × ((s.first_blocked_loading ≡ 0) × (s.first_blocked_full ≡ 0))
    × ((r.capacity_zeros ≡ 0)
        × (r.loading_timeouts ≡ 0)
        × (r.full_timeouts ≡ 0)
        × (r.loading_no_waits ≡ 0)
        × (r.full_no_waits ≡ 0)
        × (r.replica_unavailables ≡ 0))
    × ((s.waited_requests ≡ 0) × (s.total_wait_time ≡ 0) × (s.max_wait_time ≡ 0))

-- The cache `c` with every entry back on the free stack.
pub record IsCleared (std : StdHash) (c c' : GpuDataCache) : Type 0 where
  pub size : length c'.entries ≡ length c.entries
  pub entries : (j : ℕ) → j < length c.entries → IsBlank (entry_at c j) (entry_at c' j)
  pub free : Counting 0 (length c.entries) c'.empty_entries
  pub table : IsFresh std c.residency_table.resident_limit c'.residency_table
  pub no_evictable : (c'.least_recently_used ≡ none) × (c'.most_recently_used ≡ none)
  pub no_filled : (c'.oldest_filled ≡ none) × (c'.newest_filled ≡ none)
  pub statistics : AllZero c'.statistics

module _ (c : GpuDataCache) where
  -- A working cache that nobody uses, with a valid, initialized table, is reset: the statistics so
  -- far are returned and start again at 0, every entry is empty, unused, without a frame, in no
  -- list, readable on no GPU and on the free stack, with its allocations as before, both lists are
  -- empty, and no key is resident.
  pub reset_cache-IsCleared :
      (std : StdHash)
      → c.initialized ≡ true
      → c.releasing ≡ false
      → c.failed ≡ false
      → IsQuiet c
      → IsValid std c.residency_table
      → c.residency_table.initialized ≡ true
      → ((reset_cache c).1 ≡ some c.statistics) × IsCleared std c (reset_cache c).0
  unfolding reset_cache can_reset reset_entries
  reset_cache-IsCleared std on kept sane quiet valid ready =
      let idle = all_idle_of c.entries quiet.idle in
      let no_fallback = quiet.no_fallback in
      let no_waiting = quiet.no_waiting in
      let granted : reset_cache c
          ≡ (reset_entries (record c { statistics = no_statistics }), some c.statistics) =
        ground (arith, idle, no_fallback, no_waiting) in
      subst (λ r. (r.1 ≡ some c.statistics) × IsCleared std c r.0) (sym granted)
        (
          refl,
          record {
            size = length-clear_entries c.entries;
            entries = clear_entries-IsBlank c.entries;
            free = ascending-Counting 0 (length c.entries);
            table = clear-IsFresh std c.residency_table valid ready;
            no_evictable = (refl, refl);
            no_filled = (refl, refl);
            statistics = (
              (refl, refl, refl, refl),
              (refl, refl, refl, refl, refl),
              (refl, refl),
              (refl, refl, refl, refl, refl, refl),
              (refl, refl, refl),
            );
          },
        )

  can_reset-IsQuiet : can_reset c ≡ true → IsQuiet c
  unfolding can_reset
  can_reset-IsQuiet e = record {
    no_fallback = ground (arith, e);
    no_waiting = ground (arith, e);
    idle = all_idle-IsIdle c.entries (ground (arith, e));
  }

  -- A cache that is off, is being released, has failed, or is in use is not reset, and nothing
  -- changes.
  pub reset_cache_refused :
      (c.initialized ≡ false) ⊎ (c.releasing ≡ true) ⊎ (c.failed ≡ true) ⊎ (¬ IsQuiet c)
      → reset_cache c ≡ (c, none)
  unfolding reset_cache
  reset_cache_refused h = ground (arith, h, can_reset-IsQuiet)
