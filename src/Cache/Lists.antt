-- ===== src/Cache/Lists.antt =====
-- The free stack, and the two doubly linked lists threaded through the entries: the evictable list,
-- least recently used first, and the filled list, oldest fill first.
use gpuinfra.Prelude.{
  ℕ, zero, suc, Bool, true, false, not, ◌||◌, Option, none, some, [], ◌∷◌, leb, ◌==◌, if◌then◌else◌,
  length,
}
use gpuinfra.Entry.{is_valid}
use gpuinfra.Access.{is_fifo}
use gpuinfra.Cache.{GpuDataCache, entry_at, put_entry}

-- `entries[p]->nextEvictable = v`, or the write to the head of the list where there is no `p`
unfoldable pub set_next_evictable : GpuDataCache → Option ℕ → Option ℕ → GpuDataCache
set_next_evictable c p v = elim p [
  | some q ↦ put_entry c q (record (entry_at c q) { next_evictable = v })
  | none ↦ record c { least_recently_used = v }
]

-- `entries[n]->previousEvictable = v`, or the write to the tail of the list where there is no `n`
unfoldable pub set_previous_evictable : GpuDataCache → Option ℕ → Option ℕ → GpuDataCache
set_previous_evictable c n v = elim n [
  | some q ↦ put_entry c q (record (entry_at c q) { previous_evictable = v })
  | none ↦ record c { most_recently_used = v }
]

-- the fields of an entry in and out of the list
unfoldable pub mark_evictable : GpuDataCache → ℕ → Option ℕ → Bool → GpuDataCache
mark_evictable c index previous listed = put_entry c index (record (entry_at c index) {
  previous_evictable = previous;
  next_evictable = none;
  in_evictable_list = listed;
})

-- `addEvictableEntry`: at the most recently used end
unfoldable pub add_evictable_entry : GpuDataCache → ℕ → GpuDataCache × Bool
add_evictable_entry c index =
    let entry = entry_at c index in
    if leb (length c.entries) index
    then (c, false)
    else (if not (is_valid entry.cache_state)
          || not (entry.active_accesses == 0)
          || entry.in_evictable_list
        then (c, false)
        else (let c₁ = mark_evictable c index c.most_recently_used true in
            let c₂ = set_next_evictable c₁ c.most_recently_used (some index) in
            (record c₂ { most_recently_used = some index }, true)))

-- `removeEvictableEntry`
unfoldable pub remove_evictable_entry : GpuDataCache → ℕ → GpuDataCache × Bool
remove_evictable_entry c index =
    let entry = entry_at c index in
    if leb (length c.entries) index
    then (c, false)
    else (if not entry.in_evictable_list
        then (c, false)
        else (let c₁ = set_next_evictable c entry.previous_evictable entry.next_evictable in
            let entry₁ = entry_at c₁ index in
            let c₂ = set_previous_evictable c₁ entry₁.next_evictable entry₁.previous_evictable in
            (mark_evictable c₂ index none false, true)))

-- `entries[p]->nextFilled = v`, or the write to the head of the list where there is no `p`
unfoldable pub set_next_filled : GpuDataCache → Option ℕ → Option ℕ → GpuDataCache
set_next_filled c p v = elim p [
  | some q ↦ put_entry c q (record (entry_at c q) { next_filled = v })
  | none ↦ record c { oldest_filled = v }
]

-- `entries[n]->previousFilled = v`, or the write to the tail of the list where there is no `n`
unfoldable pub set_previous_filled : GpuDataCache → Option ℕ → Option ℕ → GpuDataCache
set_previous_filled c n v = elim n [
  | some q ↦ put_entry c q (record (entry_at c q) { previous_filled = v })
  | none ↦ record c { newest_filled = v }
]

-- the fields of an entry in and out of the list
unfoldable pub mark_filled : GpuDataCache → ℕ → Option ℕ → Bool → GpuDataCache
mark_filled c index previous listed = put_entry c index (record (entry_at c index) {
  previous_filled = previous;
  next_filled = none;
  in_filled_list = listed;
})

-- `addFilledEntry`: the FIFO policy appends to the filled list, LRU keeps none
unfoldable pub add_filled_entry : GpuDataCache → ℕ → GpuDataCache × Bool
add_filled_entry c index =
    let entry = entry_at c index in
    if not (is_fifo c.eviction_policy)
    then (c, true)
    else (if leb (length c.entries) index
        then (c, false)
        else (if not (is_valid entry.cache_state)
              || not (entry.active_accesses == 0)
              || entry.in_filled_list
            then (c, false)
            else (let c₁ = mark_filled c index c.newest_filled true in
                let c₂ = set_next_filled c₁ c.newest_filled (some index) in
                (record c₂ { newest_filled = some index }, true))))

-- `removeFilledEntry`
unfoldable pub remove_filled_entry : GpuDataCache → ℕ → GpuDataCache × Bool
remove_filled_entry c index =
    let entry = entry_at c index in
    if leb (length c.entries) index
    then (c, false)
    else (if not entry.in_filled_list
        then (c, false)
        else (let c₁ = set_next_filled c entry.previous_filled entry.next_filled in
            let entry₁ = entry_at c₁ index in
            let c₂ = set_previous_filled c₁ entry₁.next_filled entry₁.previous_filled in
            (mark_filled c₂ index none false, true)))

-- The FIFO loop of `takeCandidate`: the first entry from `index` on without a reader.
unfoldable pub first_idle : ℕ → GpuDataCache → Option ℕ → Option ℕ
first_idle fuel c none = none
first_idle zero c (some index) = none
first_idle (suc fuel) c (some index) =
    let rest = first_idle fuel c (entry_at c index).next_filled in
    if (entry_at c index).active_accesses == 0 then some index else rest

-- the tail of `takeCandidate`, for an entry that is to be evicted
unfoldable pub take_evictable : GpuDataCache → Option ℕ → GpuDataCache × Option ℕ
take_evictable c none = (c, none)
take_evictable c (some index) =
    let (c', removed) = remove_evictable_entry c index in
    if removed then (c', some index) else (c, none)

-- `takeCandidate`: the index, and whether the entry was empty
unfoldable pub take_candidate : GpuDataCache → GpuDataCache × Option ℕ × Bool
take_candidate c = elim c.empty_entries [
  | index ∷ rest ↦ (record c { empty_entries = rest }, some index, true)
  | [] ↦ elim c.least_recently_used [
    | none ↦ (c, none, false)
    | some oldest ↦
        let chosen =
          if is_fifo c.eviction_policy
          then first_idle (length c.entries) c c.oldest_filled
          else some oldest in
        let (c', index) = take_evictable c chosen in (c', index, false)
  ]
]

-- `restoreCandidate`
unfoldable pub restore_candidate : GpuDataCache → ℕ → Bool → GpuDataCache
restore_candidate c index was_empty =
    if was_empty
    then record c { empty_entries = index ∷ c.empty_entries }
    else (add_evictable_entry c index).0
