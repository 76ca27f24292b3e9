-- ===== src/Cache/Fills.antt =====
-- What the access that `getCacheData` returns for an absent key promises.
use gpuinfra.Prelude.{
  ℕ, zero, suc, ◌<◌, ◌≡◌, ◌≢◌, refl, ◌∙◌, ap, inl, inr, Bool, true, false, none, some, List, [],
  ◌∷◌, arith, Option-cases, ◌==◌, length, get_or, get_or-set, length-set,
}
use native.Mathlib.Decide.{dec_lt}
use gpuinfra.Prelude.Int.{ℤ}
use gpuinfra.Types.{GpuDataKey, key_eq_iff, StdHash, FrameMetadata, null}
use gpuinfra.Entry.{
  GpuDataCacheEntry, GpuReplica, new_entry, loading, data_for_gpu, replica_data, replica_valid,
  replicas_valid, invalidated,
}
use gpuinfra.Access.{
  GpuDataAccess, no_access, CacheStatus, invalid, cache_hit, cache_fill, task_fallback,
}
use gpuinfra.Residency.{ResidencyTable, find, insert, erase}
use gpuinfra.Residency.Valid.{IsValid}
use gpuinfra.Cache.{
  GpuDataCache, CacheStatistics, GpuCacheRequest, CacheFallbackReason, capacity_zero, full_timeout,
  full_no_wait, incr, entry_at,
}
use gpuinfra.Cache.Lists.{remove_filled_entry, take_candidate, restore_candidate}
use gpuinfra.Cache.Frame.{frame-remove_filled, frame-take, take_candidate-none}
use gpuinfra.Cache.Payload.{remove_filled-Alike}
use gpuinfra.Cache.Lookup.{
  RequestState, Outcome, returned, asleep, make_access, make_fallback_access, refuse, fall_back,
  begin_wait, wait_or_fall_back, blocked_by_full, start_fill, claim_candidate, use_empty,
  use_evicted, on_absent, pass, get_cache_data, new_request,
}
use gpuinfra.Residency.InsertLaws.{insert-find, insert_refused}
use gpuinfra.Residency.EraseLaws.{erase-find, erase_refused}
use gpuinfra.Cache.Grants.{Untouched}

-- The right to fill an entry of `c` for a frame.
pub record IsFill (std : StdHash) (m : FrameMetadata) (q : GpuCacheRequest) (c : GpuDataCache)
    (a : GpuDataAccess) : Type 0 where
  pub index : ℕ
  pub in_range : index < length c.entries
  pub state : (entry_at c index).cache_state ≡ loading
  pub same_frame : (entry_at c index).metadata ≡ m
  pub only : (entry_at c index).active_accesses ≡ 1
  pub unreadable : replica_valid (entry_at c index) q.gpu_id ≡ false
  pub allocated : data_for_gpu (entry_at c index) q.gpu_id ≢ null
  pub access :
      a ≡ make_access c m q (data_for_gpu (entry_at c index) q.gpu_id) (some index) cache_fill
  pub table : IsValid std c.residency_table
  pub bound : find std c.residency_table m.key ≡ some index

in_range_of_data :
    (es : List GpuDataCacheEntry) (i : ℕ) (gpu : ℤ)
    → data_for_gpu (get_or es i new_entry) gpu ≢ null
    → i < length es
unfolding replica_data
in_range_of_data [] i gpu h = absurd (h refl)
in_range_of_data (e ∷ es) zero gpu h = omega arith
in_range_of_data (e ∷ es) (suc i) gpu h = omega (arith, in_range_of_data es i gpu h)

replica_data-invalidated :
    (rs : List GpuReplica) (gpu : ℤ) → replica_data (invalidated rs) gpu ≡ replica_data rs gpu
unfolding replica_data invalidated
replica_data-invalidated [] gpu = refl
replica_data-invalidated (r ∷ rs) gpu = ground (arith, replica_data-invalidated rs gpu)

replicas_valid-invalidated :
    (rs : List GpuReplica) (gpu : ℤ) → replicas_valid (invalidated rs) gpu ≡ false
unfolding replicas_valid invalidated
replicas_valid-invalidated [] gpu = refl
replicas_valid-invalidated (r ∷ rs) gpu = ground (arith, replicas_valid-invalidated rs gpu)

-- A key that goes into a valid table is bound there.
insert-binds :
    (std : StdHash) (t : ResidencyTable) (key : GpuDataKey) (i : ℕ)
    → IsValid std t
    → (insert std t key i).1 ≡ true
    → IsValid std (insert std t key i).0 × (find std (insert std t key i).0 key ≡ some i)
insert-binds std t key i v done = elim (dec_lt t.resident_count t.resident_limit) [
  | no full ↦
      let none_stored = insert_refused std t v key i (inl (omega arith)) in
      absurd (ground (arith, none_stored, done))
  | yes room ↦ elim (Option-cases (find std t key)) [
    | inr (j, e) ↦
        let twice = insert_refused std t v key i (inr (λ z. ground (arith, e, z))) in
        absurd (ground (arith, twice, done))
    | inl absent ↦
        let (_, v', _, all) = insert-find std t v key i room absent in
        let same = (key_eq_iff key key).1 refl in (v', all key ∙ ground (arith, same))
  ]
]

erase-IsValid :
    (std : StdHash) (t : ResidencyTable) (key : GpuDataKey) (i : ℕ)
    → IsValid std t
    → (erase std t key i).1 ≡ true
    → IsValid std (erase std t key i).0
erase-IsValid std t key i v done = elim (Option-cases (find std t key)) [
  | inl e ↦
      let kept = erase_refused std t v key i (λ z. ground (arith, e, z)) in
      absurd (ground (arith, kept, done))
  | inr (j, e) ↦
      elim (j == i) as (λ z. (j == i) ≡ z → IsValid std (erase std t key i).0) [
        | true ↦ λ same. (erase-find std t v key i (ground (arith, e, same))).1
        | false ↦ λ other.
            let kept = erase_refused std t v key i (λ z. ground (arith, e, z, other)) in
            absurd (ground (arith, kept, done))
      ]
        refl
]

-- What an outcome on an absent key promises, where the cache was `c`.
module _ (std : StdHash) (m : FrameMetadata) (q : GpuCacheRequest) (c : GpuDataCache) where
  abbrev FillsAs : CacheStatus → GpuDataCache → GpuDataAccess → Type 0
  FillsAs invalid c' a = a ≡ no_access
  FillsAs cache_hit c' a = ⊥
  FillsAs cache_fill c' a = IsFill std m q c' a
  FillsAs task_fallback c' a =
      (a ≡ make_access c m q q.d_fallback none task_fallback) × Untouched c c'

  abbrev pub Fills : GpuDataCache × Outcome → Type 0
  Fills (c', returned a) = FillsAs a.access_status c' a
  Fills (c', asleep r) = Untouched c c'

  refuse-Fills : (c' : GpuDataCache) → Fills (refuse c')
  refuse-Fills c' = refl

  fall_back-Fills :
      (s : CacheStatistics) (reason : CacheFallbackReason)
      → Fills (fall_back (record c { statistics = s }) m q reason)
  unfolding make_fallback_access make_access
  fall_back-Fills s reason = (refl, (refl, refl))

  wait_or_fall_back-Fills :
      (s : CacheStatistics) (r : RequestState) (late : Bool) (a b : CacheFallbackReason)
      → Fills (wait_or_fall_back (record c { statistics = s }) m q r late a b)
  unfolding wait_or_fall_back begin_wait
  wait_or_fall_back-Fills s r late a b =
      let first = fall_back-Fills s a in
      let second = fall_back-Fills s b in ground (arith, first, second)

  blocked_by_full-Fills : (r : RequestState) (late : Bool) → Fills (blocked_by_full c m q r late)
  unfolding blocked_by_full
  blocked_by_full-Fills r late =
      let r' : RequestState = record r { blocked = true } in
      let counted : CacheStatistics = record (c.statistics) {
        first_blocked_full = incr c.statistics.first_blocked_full;
      } in
      let zero = fall_back-Fills c.statistics capacity_zero in
      let one = wait_or_fall_back-Fills c.statistics r' late full_no_wait full_timeout in
      let two = wait_or_fall_back-Fills counted r' late full_no_wait full_timeout in
      ground (arith, zero, one, two)

  start_fill-IsFill :
      (c₁ : GpuDataCache) (i : ℕ) (e : Bool)
      → data_for_gpu (entry_at c₁ i) q.gpu_id ≢ null
      → IsValid std c₁.residency_table
      → find std c₁.residency_table m.key ≡ some i
      → Fills (start_fill c₁ m q i e)
  unfolding start_fill make_access
  start_fill-IsFill c₁ i e p v f =
      let old = entry_at c₁ i in
      let fresh : GpuDataCacheEntry = record old {
        metadata = m;
        replicas = invalidated old.replicas;
        cache_state = loading;
        active_accesses = 1;
        discard_when_unused = false;
      } in
      let h = in_range_of_data c₁.entries i q.gpu_id p in
      let put = get_or-set c₁.entries i i fresh new_entry h in
      let size = length-set c₁.entries i fresh in
      let same = replica_data-invalidated old.replicas q.gpu_id in
      let stale = replicas_valid-invalidated old.replicas q.gpu_id in
      record {
        index = i;
        in_range = omega (arith, size, h);
        state = ground (arith, put);
        same_frame = ground (arith, put);
        only = ground (arith, put);
        unreadable = ground (arith, put, stale);
        allocated = ground (arith, put, same, p);
        access = ground (arith, put, same);
        table = v;
        bound = f;
      }

  claim_candidate-Fills :
      (c₁ : GpuDataCache) (i : ℕ) (e : Bool)
      → data_for_gpu (entry_at c₁ i) q.gpu_id ≢ null
      → IsValid std c₁.residency_table
      → Fills (claim_candidate std c₁ m q i e)
  unfolding claim_candidate
  claim_candidate-Fills c₁ i e p v =
      let (table, inserted) = insert std c₁.residency_table m.key i in
      let binds = insert-binds std c₁.residency_table m.key i v in
      let c₂ : GpuDataCache = record c₁ { residency_table = table } in
      let started = start_fill-IsFill c₂ i e p in
      let c₃ = (remove_filled_entry c₂ i).0 in
      let alike = remove_filled-Alike i c₂ i in
      let kept = frame-remove_filled c₂ i in
      let p₃ : data_for_gpu (entry_at c₃ i) q.gpu_id ≢ null = ground (arith, alike, p) in
      let same : c₃.residency_table ≡ table = ap (λ x. x.residency_table) kept in
      let started₃ : IsValid std table
          → find std table m.key ≡ some i
          → Fills (start_fill c₃ m q i e) =
        λ v' f. start_fill-IsFill c₃ i e p₃ (rw same v') (rw same f) in
      elim inserted as (λ z. inserted ≡ z → Fills (claim_candidate std c₁ m q i e)) [
        | true ↦ λ h.
            let (v', f) = binds h in
            let one = started v' f in let two = started₃ v' f in ground (arith, h, one, two)
        | false ↦ λ h. ground (arith, h)
      ]
        refl

  use_empty-Fills :
      (c₁ : GpuDataCache) (i : ℕ)
      → data_for_gpu (entry_at c₁ i) q.gpu_id ≢ null
      → IsValid std c₁.residency_table
      → Fills (use_empty std c₁ m q i)
  unfolding use_empty
  use_empty-Fills c₁ i p v =
      let refused = refuse-Fills (restore_candidate c₁ i true) in
      let claimed = claim_candidate-Fills c₁ i true p v in ground (arith, refused, claimed)

  use_evicted-Fills :
      (c₁ : GpuDataCache) (i : ℕ)
      → data_for_gpu (entry_at c₁ i) q.gpu_id ≢ null
      → IsValid std c₁.residency_table
      → Fills (use_evicted std c₁ m q i)
  unfolding use_evicted
  use_evicted-Fills c₁ i p v =
      let old_key = (entry_at c₁ i).metadata.key in
      let table = (erase std c₁.residency_table old_key i).0 in
      let refused = refuse-Fills (restore_candidate c₁ i false) in
      let claimed = λ (done : (erase std c₁.residency_table old_key i).1 ≡ true).
        claim_candidate-Fills (record c₁ { residency_table = table }) i false p
          (erase-IsValid std c₁.residency_table old_key i v done) in
      ground (arith, refused, claimed)

  on_absent-Fills :
      (r : RequestState) (late : Bool)
      → IsValid std c.residency_table
      → Fills (on_absent std c m q r late)
  unfolding on_absent
  on_absent-Fills r late v =
      let (c', taken, was_empty) = take_candidate c in
      let same : c'.residency_table ≡ c.residency_table =
        ap (λ x. x.residency_table) (frame-take c) in
      let v' : IsValid std c'.residency_table = rw same v in
      elim (Option-cases taken) [
        | inl e ↦
            let kept = take_candidate-none c e in
            let full = blocked_by_full-Fills r late in ground (arith, e, kept, full)
        | inr (i, e) ↦
            let refused = refuse-Fills (restore_candidate c' i was_empty) in
            let fresh =
              λ (p : data_for_gpu (entry_at c' i) q.gpu_id ≢ null). use_empty-Fills c' i p v' in
            let evicted =
              λ (p : data_for_gpu (entry_at c' i) q.gpu_id ≢ null). use_evicted-Fills c' i p v' in
            ground (arith, e, refused, fresh, evicted)
      ]

  -- A request for a key that a valid table does not have gets the right to fill an entry, a
  -- fallback, a refusal or sleep. A fill is granted on an allocated entry that is now loading the
  -- frame for this request alone, readable by nobody, and that the table, still valid, binds to the
  -- key; a fallback hands out the caller's buffer, and like sleep leaves all entries and the table
  -- alone.
  pub get_cache_data-Fills :
      (late : Bool)
      → IsValid std c.residency_table
      → find std c.residency_table m.key ≡ none
      → Fills (get_cache_data std c m q late)
  unfolding get_cache_data pass
  get_cache_data-Fills late v absent =
      let refused = refuse-Fills c in
      let filled = on_absent-Fills new_request late v in ground (arith, absent, refused, filled)
