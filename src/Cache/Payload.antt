-- ===== src/Cache/Payload.antt =====
-- What the list operations of the cache leave alone in the entries: everything but the links.
use gpuinfra.Prelude.{
  ℕ, zero, suc, ◌≡◌, refl, Bool, false, Option, none, some, List, [], ◌∷◌, arith, length, get_or,
  set, length-set,
}
use gpuinfra.Entry.{GpuDataCacheEntry, new_entry}
use gpuinfra.Cache.{GpuDataCache, entry_at, put_entry}
use gpuinfra.Cache.Lists.{
  set_next_evictable, set_previous_evictable, mark_evictable, remove_evictable_entry,
  set_next_filled, set_previous_filled, mark_filled, remove_filled_entry,
}

-- An entry without its places in the two lists.
abbrev pub payload : GpuDataCacheEntry → GpuDataCacheEntry
payload e = record e {
  previous_evictable = none;
  next_evictable = none;
  in_evictable_list = false;
  previous_filled = none;
  next_filled = none;
  in_filled_list = false;
}

payload-set :
    (es : List GpuDataCacheEntry) (i j : ℕ) (e : GpuDataCacheEntry)
    → payload e ≡ payload (get_or es i new_entry)
    → payload (get_or (set es i e) j new_entry) ≡ payload (get_or es j new_entry)
payload-set [] i j e h = refl
payload-set (x ∷ es) zero zero e h = h
payload-set (x ∷ es) zero (suc j) e h = refl
payload-set (x ∷ es) (suc i) zero e h = refl
payload-set (x ∷ es) (suc i) (suc j) e h = payload-set es i j e h

-- Two caches whose entries differ at most in their links, at the entry `j`.
abbrev pub Alike : ℕ → GpuDataCache → GpuDataCache → Type 0
Alike j c c' =
    (payload (entry_at c' j) ≡ payload (entry_at c j)) × (length c'.entries ≡ length c.entries)

module _ (j : ℕ) (c : GpuDataCache) where
  put-Alike :
      (i : ℕ) (e : GpuDataCacheEntry)
      → payload e ≡ payload (entry_at c i)
      → Alike j c (put_entry c i e)
  put-Alike i e h = (payload-set c.entries i j e h, length-set c.entries i e)

  set_next_evictable-Alike : (p v : Option ℕ) → Alike j c (set_next_evictable c p v)
  unfolding set_next_evictable
  set_next_evictable-Alike none v = (refl, refl)
  set_next_evictable-Alike (some q) v =
      put-Alike q (record (entry_at c q) { next_evictable = v }) refl

  set_previous_evictable-Alike : (p v : Option ℕ) → Alike j c (set_previous_evictable c p v)
  unfolding set_previous_evictable
  set_previous_evictable-Alike none v = (refl, refl)
  set_previous_evictable-Alike (some q) v =
      put-Alike q (record (entry_at c q) { previous_evictable = v }) refl

  mark_evictable-Alike : (i : ℕ) (p : Option ℕ) (b : Bool) → Alike j c (mark_evictable c i p b)
  unfolding mark_evictable
  mark_evictable-Alike i p b =
      put-Alike i
        (record (entry_at c i) {
          previous_evictable = p;
          next_evictable = none;
          in_evictable_list = b;
        })
        refl

  set_next_filled-Alike : (p v : Option ℕ) → Alike j c (set_next_filled c p v)
  unfolding set_next_filled
  set_next_filled-Alike none v = (refl, refl)
  set_next_filled-Alike (some q) v = put-Alike q (record (entry_at c q) { next_filled = v }) refl

  set_previous_filled-Alike : (p v : Option ℕ) → Alike j c (set_previous_filled c p v)
  unfolding set_previous_filled
  set_previous_filled-Alike none v = (refl, refl)
  set_previous_filled-Alike (some q) v =
      put-Alike q (record (entry_at c q) { previous_filled = v }) refl

  mark_filled-Alike : (i : ℕ) (p : Option ℕ) (b : Bool) → Alike j c (mark_filled c i p b)
  unfolding mark_filled
  mark_filled-Alike i p b =
      put-Alike i
        (record (entry_at c i) { previous_filled = p; next_filled = none; in_filled_list = b }) refl

module _ (j : ℕ) (c : GpuDataCache) (i : ℕ) where
  pub remove_evictable-Alike : Alike j c (remove_evictable_entry c i).0
  unfolding remove_evictable_entry
  remove_evictable-Alike =
      let p = (entry_at c i).previous_evictable in
      let n = (entry_at c i).next_evictable in
      let c₁ = set_next_evictable c p n in
      let p₁ = (entry_at c₁ i).previous_evictable in
      let n₁ = (entry_at c₁ i).next_evictable in
      let c₂ = set_previous_evictable c₁ n₁ p₁ in
      let one = set_next_evictable-Alike j c p n in
      let two = set_previous_evictable-Alike j c₁ n₁ p₁ in
      let three = mark_evictable-Alike j c₂ i none false in ground (arith, one, two, three)

  pub remove_filled-Alike : Alike j c (remove_filled_entry c i).0
  unfolding remove_filled_entry
  remove_filled-Alike =
      let p = (entry_at c i).previous_filled in
      let n = (entry_at c i).next_filled in
      let c₁ = set_next_filled c p n in
      let p₁ = (entry_at c₁ i).previous_filled in
      let n₁ = (entry_at c₁ i).next_filled in
      let c₂ = set_previous_filled c₁ n₁ p₁ in
      let one = set_next_filled-Alike j c p n in
      let two = set_previous_filled-Alike j c₁ n₁ p₁ in
      let three = mark_filled-Alike j c₂ i none false in ground (arith, one, two, three)
