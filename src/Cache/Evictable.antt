-- ===== src/Cache/Evictable.antt =====
-- The evictable list, seen as links: what `addEvictableEntry` and `removeEvictableEntry` do to it.
use mathlib.Core.Path.{fun_ext}
use gpuinfra.Prelude.{
  ℕ, ◌<◌, ◌≡◌, ◌≢◌, refl, ap, ◌∙◌, inl, inr, Bool, true, false, Option, none, some, List, [], ◌∷◌,
  ◌++◌, arith, ◌==◌, if◌then◌else◌, length, get_or-set, length-set, Option-cases,
}
use gpuinfra.Entry.{GpuDataCacheEntry, new_entry, valid}
use gpuinfra.Cache.{GpuDataCache, entry_at, put_entry}
use gpuinfra.Cache.Chain.{
  Links, Threads, push_back, unlink, push_back-Threads, unlink-Threads, Absent, update, update?,
  InRange?, Below, last_range, neighbours,
}
use gpuinfra.Cache.Lists.{
  add_evictable_entry, remove_evictable_entry, set_next_evictable, set_previous_evictable,
  mark_evictable,
}

abbrev pub evictable : GpuDataCache → Links
evictable c = record {
  previous = λ i. (entry_at c i).previous_evictable;
  next = λ i. (entry_at c i).next_evictable;
  first = c.least_recently_used;
  last = c.most_recently_used;
}

module _ (c : GpuDataCache) where
  entry_at-put :
      (i j : ℕ) (e : GpuDataCacheEntry)
      → i < length c.entries
      → entry_at (put_entry c i e) j ≡ (if i == j then e else entry_at c j)
  entry_at-put i j e h = get_or-set c.entries i j e new_entry h

  -- Each write to a link, on every entry.
  entry_at-set_next :
      (p v : Option ℕ) (j : ℕ)
      → InRange? (length c.entries) p
      → entry_at (set_next_evictable c p v) j
        ≡ record (entry_at c j) { next_evictable = update? (evictable c).next p v j }
  unfolding set_next_evictable
  entry_at-set_next none v j h = refl
  entry_at-set_next (some q) v j h =
      entry_at-put q j (record (entry_at c q) { next_evictable = v }) h ∙ ground arith

  entry_at-set_previous :
      (p v : Option ℕ) (j : ℕ)
      → InRange? (length c.entries) p
      → entry_at (set_previous_evictable c p v) j
        ≡ record (entry_at c j) { previous_evictable = update? (evictable c).previous p v j }
  unfolding set_previous_evictable
  entry_at-set_previous none v j h = refl
  entry_at-set_previous (some q) v j h =
      entry_at-put q j (record (entry_at c q) { previous_evictable = v }) h ∙ ground arith

  entry_at-mark :
      (i : ℕ) (previous : Option ℕ) (listed : Bool) (j : ℕ)
      → i < length c.entries
      → entry_at (mark_evictable c i previous listed) j ≡ record (entry_at c j) {
        previous_evictable = update (evictable c).previous i previous j;
        next_evictable = update (evictable c).next i none j;
        in_evictable_list = if i == j then listed else (entry_at c j).in_evictable_list;
      }
  unfolding mark_evictable
  entry_at-mark i previous listed j h =
      entry_at-put i j
        (record (entry_at c i) {
          previous_evictable = previous;
          next_evictable = none;
          in_evictable_list = listed;
        })
        h
      ∙ ground arith

  -- and on the other members
  length-set_next : (p v : Option ℕ) → length (set_next_evictable c p v).entries ≡ length c.entries
  unfolding set_next_evictable
  length-set_next none v = refl
  length-set_next (some q) v = length-set c.entries q (record (entry_at c q) { next_evictable = v })

  length-set_previous :
      (p v : Option ℕ) → length (set_previous_evictable c p v).entries ≡ length c.entries
  unfolding set_previous_evictable
  length-set_previous none v = refl
  length-set_previous (some q) v =
      length-set c.entries q (record (entry_at c q) { previous_evictable = v })

  length-mark :
      (i : ℕ) (previous : Option ℕ) (listed : Bool)
      → length (mark_evictable c i previous listed).entries ≡ length c.entries
  unfolding mark_evictable
  length-mark i previous listed = length-set c.entries i _

module _ (c : GpuDataCache) where
  ends-set_next :
      (p v : Option ℕ)
      → ((set_next_evictable c p v).least_recently_used
          ≡ elim p [ none ↦ v | some _ ↦ c.least_recently_used ])
        × ((set_next_evictable c p v).most_recently_used ≡ c.most_recently_used)
  unfolding set_next_evictable
  ends-set_next none v = (refl, refl)
  ends-set_next (some q) v = (refl, refl)

  ends-set_previous :
      (p v : Option ℕ)
      → ((set_previous_evictable c p v).least_recently_used ≡ c.least_recently_used)
        × ((set_previous_evictable c p v).most_recently_used
            ≡ elim p [ none ↦ v | some _ ↦ c.most_recently_used ])
  unfolding set_previous_evictable
  ends-set_previous none v = (refl, refl)
  ends-set_previous (some q) v = (refl, refl)

  ends-mark :
      (i : ℕ) (previous : Option ℕ) (listed : Bool)
      → ((mark_evictable c i previous listed).least_recently_used ≡ c.least_recently_used)
        × ((mark_evictable c i previous listed).most_recently_used ≡ c.most_recently_used)
  unfolding mark_evictable
  ends-mark i previous listed = (refl, refl)

update?-at :
    (f g : ℕ → Option ℕ) (p v : Option ℕ) (j : ℕ) → f j ≡ g j → update? f p v j ≡ update? g p v j
update?-at f g none v j h = h
update?-at f g (some q) v j h = ground arith

-- An entry after a change of its place in the list.
abbrev relinked : GpuDataCacheEntry → Option ℕ → Option ℕ → Bool → GpuDataCacheEntry
relinked e p n listed = record e {
  previous_evictable = p;
  next_evictable = n;
  in_evictable_list = listed;
}

-- The entry may join the list.
pub record IsAddable (c : GpuDataCache) (i : ℕ) : Type 0 where
  pub in_range : i < length c.entries
  pub state : (entry_at c i).cache_state ≡ valid
  pub idle : (entry_at c i).active_accesses ≡ 0
  pub out : (entry_at c i).in_evictable_list ≡ false

module _ (c : GpuDataCache) (i : ℕ) where
  abbrev added : GpuDataCache
  added =
      record (set_next_evictable (mark_evictable c i c.most_recently_used true) c.most_recently_used
        (some i)) { most_recently_used = some i }

  add-added : IsAddable c i → add_evictable_entry c i ≡ (added, true)
  unfolding add_evictable_entry
  add-added a = ground (arith, a.in_range, a.state, a.idle, a.out)

  module _ (hi : i < length c.entries)
      (last_lt : InRange? (length c.entries) c.most_recently_used) where
    entry_at-added :
        (j : ℕ)
        → entry_at added j
          ≡ relinked
              (entry_at c j)
              ((push_back (evictable c) i).previous j)
              ((push_back (evictable c) i).next j)
              (if i == j then true else (entry_at c j).in_evictable_list)
    entry_at-added j =
        let c₁ = mark_evictable c i c.most_recently_used true in
        let len = length-mark c i c.most_recently_used true in
        let range : InRange? (length c₁.entries) c.most_recently_used = rw len last_lt in
        let top = entry_at-set_next c₁ c.most_recently_used (some i) j range in
        let low = entry_at-mark c i c.most_recently_used true j hi in
        elim (Option-cases c.most_recently_used) [
          | inl e ↦ ground (arith, e)
          | inr (l, e) ↦ ground (arith, e)
        ]

  added_first : added.least_recently_used ≡ (push_back (evictable c) i).first
  added_first =
      let c₁ = mark_evictable c i c.most_recently_used true in
      let low = ends-mark c i c.most_recently_used true in
      (ends-set_next c₁ c.most_recently_used (some i)).0
      ∙ ap (λ (q : Option ℕ). elim c.most_recently_used [ none ↦ some i | some _ ↦ q ]) low.0

  evictable-added :
      i < length c.entries
      → InRange? (length c.entries) c.most_recently_used
      → evictable added ≡ push_back (evictable c) i
  evictable-added hi last_lt = λ t. record {
    previous = fun_ext (λ j. ap (λ e. e.previous_evictable) (entry_at-added hi last_lt j)) t;
    next = fun_ext (λ j. ap (λ e. e.next_evictable) (entry_at-added hi last_lt j)) t;
    first = added_first t;
    last = some i;
  }

  length-added : length added.entries ≡ length c.entries
  length-added = length-set_next _ _ _ ∙ length-mark _ _ _ _

  abbrev cut : GpuDataCache
  cut = set_next_evictable c (entry_at c i).previous_evictable (entry_at c i).next_evictable

  abbrev removed : GpuDataCache
  removed =
      mark_evictable
        (set_previous_evictable cut (entry_at cut i).next_evictable
          (entry_at cut i).previous_evictable)
        i none false

  remove-removed :
      i < length c.entries
      → (entry_at c i).in_evictable_list ≡ true
      → remove_evictable_entry c i ≡ (removed, true)
  unfolding remove_evictable_entry
  remove-removed hi listed = ground arith

  module _ (hi : i < length c.entries)
      (previous_lt : InRange? (length c.entries) (entry_at c i).previous_evictable)
      (next_lt : InRange? (length c.entries) (entry_at c i).next_evictable)
      (previous_ne : (entry_at c i).previous_evictable ≢ some i) where
    entry_at-cut : entry_at cut i ≡ entry_at c i
    entry_at-cut =
        let at =
          entry_at-set_next c (entry_at c i).previous_evictable (entry_at c i).next_evictable i
            previous_lt in
        elim (Option-cases (entry_at c i).previous_evictable) [
          | inl e ↦ ground (arith, e)
          | inr (p, e) ↦ ground (arith, e)
        ]

    entry_at-removed :
        (j : ℕ)
        → entry_at removed j
          ≡ relinked
              (entry_at c j)
              ((unlink (evictable c) i).previous j)
              ((unlink (evictable c) i).next j)
              (if i == j then false else (entry_at c j).in_evictable_list)
    entry_at-removed j =
        let p = (entry_at c i).previous_evictable in
        let n = (entry_at c i).next_evictable in
        let first = entry_at-set_next c p n j previous_lt in
        let len = length-set_next c p n in
        let second = entry_at-set_previous cut n p j (rw len next_lt) in
        let len₂ = length-set_previous cut n p in
        let third =
          entry_at-mark (set_previous_evictable cut n p) i none false j (rw (len₂, len) hi) in
        let same =
          update?-at (evictable cut).previous (evictable c).previous n p j
            (ap (λ e. e.previous_evictable) first) in
        rw entry_at-cut (ground (arith, first, second, third, same))

    length-removed : length removed.entries ≡ length c.entries
    length-removed = length-mark _ _ _ _ ∙ length-set_previous _ _ _ ∙ length-set_next _ _ _

    removed_ends :
        (removed.least_recently_used ≡ (unlink (evictable c) i).first)
        × (removed.most_recently_used ≡ (unlink (evictable c) i).last)
    removed_ends =
        let p = (entry_at c i).previous_evictable in
        let n = (entry_at c i).next_evictable in
        let a = ends-set_next c p n in
        let b = ends-set_previous cut n p in
        let d = ends-mark (set_previous_evictable cut n p) i none false in
        rw entry_at-cut
          (d.0 ∙ b.0 ∙ a.0, d.1 ∙ b.1 ∙ ap (λ (q : Option ℕ). elim n [ none ↦ p | some _ ↦ q ]) a.1)

    evictable-removed : evictable removed ≡ unlink (evictable c) i
    evictable-removed = λ t. record {
      previous = fun_ext (λ j. ap (λ e. e.previous_evictable) (entry_at-removed j)) t;
      next = fun_ext (λ j. ap (λ e. e.next_evictable) (entry_at-removed j)) t;
      first = removed_ends.0 t;
      last = removed_ends.1 t;
    }

-- If the evictable list runs through xs, all of them in range, then addEvictableEntry succeeds on a
-- valid, idle entry in range that is not in xs and not marked as listed, and the list runs through
-- xs and then this entry.
pub add-Threads :
    (c : GpuDataCache) (i : ℕ) (xs : List ℕ)
    → IsAddable c i
    → Threads (evictable c) xs
    → Below (length c.entries) xs
    → Absent i xs
    → ((add_evictable_entry c i).1 ≡ true)
      × Threads (evictable (add_evictable_entry c i).0) (xs ++ i ∷ [])
add-Threads c i xs a t b away =
    let (last_lt, last_ne) = last_range (evictable c) xs t (length c.entries) b i away in
    rw (add-added c i a) (
      refl,
      rw (evictable-added c i a.in_range last_lt) (push_back-Threads (evictable c) xs i away t),
    )

-- If the evictable list runs through ys, i and zs, all of them in range, and the entry i is marked
-- as listed, then removeEvictableEntry succeeds on i and the list runs through ys and zs.
pub remove-Threads :
    (c : GpuDataCache) (ys : List ℕ) (i : ℕ) (zs : List ℕ)
    → Threads (evictable c) (ys ++ i ∷ zs)
    → Below (length c.entries) (ys ++ i ∷ zs)
    → (entry_at c i).in_evictable_list ≡ true
    → ((remove_evictable_entry c i).1 ≡ true)
      × Threads (evictable (remove_evictable_entry c i).0) (ys ++ zs)
remove-Threads c ys i zs t b listed =
    let (hi, pl, nl, ne) = neighbours (evictable c) ys i zs t (length c.entries) b in
    rw (remove-removed c i hi listed)
      (refl, rw (evictable-removed c i hi pl nl ne) (unlink-Threads (evictable c) ys i zs t))
