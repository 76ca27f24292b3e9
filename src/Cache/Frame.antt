-- ===== src/Cache/Frame.antt =====
-- What the list operations of the cache leave alone: all members but the entries and the lists.
use gpuinfra.Prelude.{
  ℕ, ◌≡◌, refl, inl, inr, Bool, true, false, Option, none, some, [], arith, Option-cases, length,
}
use gpuinfra.Cache.{GpuDataCache, entry_at}
use gpuinfra.Cache.Lists.{
  set_next_evictable, set_previous_evictable, mark_evictable, add_evictable_entry,
  remove_evictable_entry, set_next_filled, set_previous_filled, mark_filled, add_filled_entry,
  remove_filled_entry, first_idle, take_evictable, take_candidate, restore_candidate,
}

-- The members that are neither entries nor lists.
abbrev pub frame : GpuDataCache → GpuDataCache
frame c = record c {
  entries = [];
  empty_entries = [];
  least_recently_used = none;
  most_recently_used = none;
  oldest_filled = none;
  newest_filled = none;
}

module _ (c : GpuDataCache) where
  frame-set_next_evictable : (p v : Option ℕ) → frame (set_next_evictable c p v) ≡ frame c
  unfolding set_next_evictable
  frame-set_next_evictable none v = refl
  frame-set_next_evictable (some q) v = refl

  frame-set_previous_evictable : (p v : Option ℕ) → frame (set_previous_evictable c p v) ≡ frame c
  unfolding set_previous_evictable
  frame-set_previous_evictable none v = refl
  frame-set_previous_evictable (some q) v = refl

  frame-set_next_filled : (p v : Option ℕ) → frame (set_next_filled c p v) ≡ frame c
  unfolding set_next_filled
  frame-set_next_filled none v = refl
  frame-set_next_filled (some q) v = refl

  frame-set_previous_filled : (p v : Option ℕ) → frame (set_previous_filled c p v) ≡ frame c
  unfolding set_previous_filled
  frame-set_previous_filled none v = refl
  frame-set_previous_filled (some q) v = refl

module _ (c : GpuDataCache) (i : ℕ) where
  pub frame-add_evictable : frame (add_evictable_entry c i).0 ≡ frame c
  unfolding add_evictable_entry mark_evictable
  frame-add_evictable =
      let linked =
        frame-set_next_evictable (mark_evictable c i c.most_recently_used true) c.most_recently_used
          (some i) in
      ground (arith, linked)

  pub frame-remove_evictable : frame (remove_evictable_entry c i).0 ≡ frame c
  unfolding remove_evictable_entry mark_evictable
  frame-remove_evictable =
      let p = (entry_at c i).previous_evictable in
      let n = (entry_at c i).next_evictable in
      let c₁ = set_next_evictable c p n in
      let first = frame-set_next_evictable c p n in
      let second =
        frame-set_previous_evictable c₁ (entry_at c₁ i).next_evictable
          (entry_at c₁ i).previous_evictable in
      ground (arith, first, second)

  pub frame-add_filled : frame (add_filled_entry c i).0 ≡ frame c
  unfolding add_filled_entry mark_filled
  frame-add_filled =
      let linked =
        frame-set_next_filled (mark_filled c i c.newest_filled true) c.newest_filled (some i) in
      ground (arith, linked)

  pub frame-remove_filled : frame (remove_filled_entry c i).0 ≡ frame c
  unfolding remove_filled_entry mark_filled
  frame-remove_filled =
      let p = (entry_at c i).previous_filled in
      let n = (entry_at c i).next_filled in
      let c₁ = set_next_filled c p n in
      let first = frame-set_next_filled c p n in
      let second =
        frame-set_previous_filled c₁ (entry_at c₁ i).next_filled (entry_at c₁ i).previous_filled in
      ground (arith, first, second)

  pub frame-restore : (was_empty : Bool) → frame (restore_candidate c i was_empty) ≡ frame c
  unfolding restore_candidate
  frame-restore true = refl
  frame-restore false = frame-add_evictable

pub frame-take_evictable :
    (c : GpuDataCache) (i : Option ℕ) → frame (take_evictable c i).0 ≡ frame c
unfolding take_evictable
frame-take_evictable c none = refl
frame-take_evictable c (some i) = ground (arith, frame-remove_evictable c i)

pub frame-take : (c : GpuDataCache) → frame (take_candidate c).0 ≡ frame c
unfolding take_candidate
frame-take c =
    let fifo = frame-take_evictable c (first_idle (length c.entries) c c.oldest_filled) in
    let lru = λ (i : ℕ). frame-take_evictable c (some i) in
    elim (Option-cases c.least_recently_used) [
      | inl e ↦ ground (arith, e)
      | inr (i, e) ↦ ground (arith, e, fifo, lru i)
    ]

-- An unsuccessful search for a candidate changes nothing.
pub take_candidate-none :
    (c : GpuDataCache) → (take_candidate c).1 ≡ none → (take_candidate c).0 ≡ c
unfolding take_candidate take_evictable
take_candidate-none c h = elim (Option-cases c.least_recently_used) [
  | inl e ↦ ground (arith, e, h)
  | inr (i, e) ↦ elim (Option-cases (first_idle (length c.entries) c c.oldest_filled)) [
    | inl f ↦ ground (arith, e, f, h)
    | inr (j, f) ↦ ground (arith, e, f, h)
  ]
]
