-- ===== src/Cache/Counted/Requests.antt =====
-- The accounting of `getCacheData` on an absent key, and of the whole request.
use gpuinfra.Prelude.{
  ℕ, ◌-◌, ◌≡◌, refl, ◌∙◌, inl, inr, Bool, true, false, arith, Option-cases, if◌then◌else◌,
}
use gpuinfra.Types.{StdHash, FrameMetadata}
use gpuinfra.Residency.{find, insert, erase}
use gpuinfra.Cache.{GpuDataCache, GpuCacheRequest, entry_at}
use gpuinfra.Cache.Lists.{remove_filled_entry, take_candidate, restore_candidate}
use gpuinfra.Cache.Frame.{frame-remove_filled, frame-restore, frame-take}
use gpuinfra.Cache.Lookup.{
  RequestState, refuse, claim_candidate, use_empty, use_evicted, on_absent, pass, end_wait, wake,
  get_cache_data, new_request,
}
use gpuinfra.Cache.Counted.{
  Tally, tally, Counts, tally-frame, refuse-Counts, start_fill-Counts, blocked_by_full-Counts,
  on_resident-Counts,
}

module _ (std : StdHash) (late : Bool) (t : Tally) (m : FrameMetadata) (q : GpuCacheRequest) where
  refuse_restored-Counts :
      (c : GpuDataCache) (i : ℕ) (e : Bool)
      → tally c ≡ t
      → Counts late t (refuse (restore_candidate c i e))
  refuse_restored-Counts c i e h =
      refuse-Counts late t (restore_candidate c i e)
        (tally-frame c (restore_candidate c i e) (frame-restore c i e) ∙ h)

  claim_candidate-Counts :
      (c : GpuDataCache) (i : ℕ) (e : Bool)
      → tally c ≡ t
      → Counts late t (claim_candidate std c m q i e)
  unfolding claim_candidate
  claim_candidate-Counts c i e h =
      let old_key = (entry_at c i).metadata.key in
      let table = (insert std c.residency_table m.key i).0 in
      let c₁ : GpuDataCache = record c { residency_table = table } in
      let back : GpuDataCache =
        if e then c₁ else record c₁ { residency_table = (insert std table old_key i).0 } in
      let refused = refuse_restored-Counts back i e (ground (arith, h)) in
      let (c₂, removed) = remove_filled_entry c₁ i in
      let same : tally c₂ ≡ t = tally-frame c₁ c₂ (frame-remove_filled c₁ i) ∙ h in
      let undone = (erase std table m.key i).0 in
      let redone : GpuDataCache = record c₂ { residency_table = (insert std undone old_key i).0 } in
      let refused₂ = refuse_restored-Counts redone i false same in
      let started = start_fill-Counts late t c₁ m q i e h in
      let started₂ = start_fill-Counts late t c₂ m q i e same in
      ground (arith, refused, refused₂, started, started₂)

  use_empty-Counts :
      (c : GpuDataCache) (i : ℕ) → tally c ≡ t → Counts late t (use_empty std c m q i)
  unfolding use_empty
  use_empty-Counts c i h =
      let refused = refuse_restored-Counts c i true h in
      let claimed = claim_candidate-Counts c i true h in ground (arith, refused, claimed)

  use_evicted-Counts :
      (c : GpuDataCache) (i : ℕ) → tally c ≡ t → Counts late t (use_evicted std c m q i)
  unfolding use_evicted
  use_evicted-Counts c i h =
      let refused = refuse_restored-Counts c i false h in
      let table = (erase std c.residency_table (entry_at c i).metadata.key i).0 in
      let claimed = claim_candidate-Counts (record c { residency_table = table }) i false h in
      ground (arith, refused, claimed)

  on_absent-Counts :
      (c : GpuDataCache) (r : RequestState)
      → tally c ≡ t
      → Counts late t (on_absent std c m q r late)
  unfolding on_absent
  on_absent-Counts c r h =
      let (c', taken, was_empty) = take_candidate c in
      let same : tally c' ≡ t = tally-frame c c' (frame-take c) ∙ h in
      elim (Option-cases taken) [
        | inl e ↦ let full = blocked_by_full-Counts late t c' m q same r in ground (arith, e, full)
        | inr (i, e) ↦
            let refused = refuse_restored-Counts c' i was_empty same in
            let fresh = use_empty-Counts c' i same in
            let evicted = use_evicted-Counts c' i same in ground (arith, e, refused, fresh, evicted)
      ]

  pass-Counts :
      (c : GpuDataCache) (r : RequestState) → tally c ≡ t → Counts late t (pass std c m q r late)
  unfolding pass
  pass-Counts c r h =
      let refused = refuse-Counts late t c h in
      let absent = on_absent-Counts c r h in
      elim (Option-cases (find std c.residency_table m.key)) [
        | inl e ↦ ground (arith, e, refused, absent)
        | inr (i, e) ↦
            let resident = on_resident-Counts late t c m q h r i in
            ground (arith, e, refused, resident)
      ]

-- Every outcome of a request is accounted for once. An access that is returned adds one to the
-- counter of its status, and nothing to the others; only a fallback adds to the running fallbacks.
-- A request goes to sleep only before its deadline and with a timeout, adds one to the waiting
-- requests, and no counter of returns changes.
pub get_cache_data-Counts :
    (std : StdHash) (c : GpuDataCache) (m : FrameMetadata) (q : GpuCacheRequest) (late : Bool)
    → Counts late (tally c) (get_cache_data std c m q late)
unfolding get_cache_data
get_cache_data-Counts std c m q late =
    let refused = refuse-Counts late (tally c) c refl in
    let passed = pass-Counts std late (tally c) m q c new_request refl in
    ground (arith, refused, passed)

-- A request that wakes leaves the waiting requests, and its outcome is accounted for like the
-- outcome of a new request.
pub wake-Counts :
    (std : StdHash) (c : GpuDataCache) (m : FrameMetadata) (q : GpuCacheRequest)
    → (r : RequestState) (elapsed : ℕ) (late : Bool)
    → Counts late
        (record (tally c) { waiting = c.waiting_accesses - 1 })
        (wake std c m q r elapsed late)
unfolding wake end_wait
wake-Counts std c m q r elapsed late =
    pass-Counts std late _ m q (end_wait c r elapsed).0 (end_wait c r elapsed).1 refl
