-- ===== src/Cache/Startup.antt =====
-- `initialize` and `release` of the cache: the entries that are made, and what is left of them.
use gpuinfra.Prelude.{
  ◌∙◌, ℕ, zero, suc, ◌+◌, ◌<◌, ◌≤◌, ◌^◌, ◌≡◌, ◌≢◌, refl, ap, sym, subst, true, false, Option, none,
  some, List, [], ◌∷◌, arith, length, get_or,
}
use gpuinfra.Prelude.Int.{ℤ, pos}
use gpuinfra.Types.{StdHash}
use gpuinfra.Entry.{GpuDataCacheEntry, new_entry, initialize_entry}
use gpuinfra.Access.{CacheEvictionPolicy}
use gpuinfra.Residency.{initialize, new_table}
use gpuinfra.Residency.Init.{IsFresh, initialize-IsFresh}
use gpuinfra.Cache.{GpuDataCache, entry_at}
use gpuinfra.Cache.Reset.{Counting, ascending-Counting}
use gpuinfra.Cache.Manage.{is_pristine, is_one_gpu, make_entries, ascending, initialize_cache}

-- An entry as `initialize` leaves it: one replica, at `address` on the GPU.
abbrev pub ready_entry : ℕ → ℕ → ℕ → GpuDataCacheEntry
ready_entry gpu bytes address = record new_entry {
  replicas = record { gpu_id = pos gpu; d_data = address; valid = false } ∷ [];
  data_bytes = bytes;
  initialized = true;
}

-- The entries at the addresses that the allocations answer, from `index` on.
abbrev pub ready_entries : (ℕ → ℕ) → ℕ → ℕ → ℕ → ℕ → List GpuDataCacheEntry
ready_entries address gpu bytes index zero = []
ready_entries address gpu bytes index (suc n) =
    ready_entry gpu bytes (address index) ∷ ready_entries address gpu bytes (index + 1) n

length-ready_entries :
    (address : ℕ → ℕ) (gpu bytes index n : ℕ) → length (ready_entries address gpu bytes index n) ≡ n
length-ready_entries address gpu bytes index zero = refl
length-ready_entries address gpu bytes index (suc n) =
    omega (arith, length-ready_entries address gpu bytes (index + 1) n)

ready_entries-at :
    (address : ℕ → ℕ) (gpu bytes index n j : ℕ)
    → j < n
    → get_or (ready_entries address gpu bytes index n) j new_entry
      ≡ ready_entry gpu bytes (address (index + j))
ready_entries-at address gpu bytes index zero j h = absurd (omega arith)
ready_entries-at address gpu bytes index (suc n) zero h =
    ap (λ (k : ℕ). ready_entry gpu bytes (address k)) (omega arith)
ready_entries-at address gpu bytes index (suc n) (suc j) h =
    ready_entries-at address gpu bytes (index + 1) n j (omega arith)
    ∙ ap (λ (k : ℕ). ready_entry gpu bytes (address k)) (omega arith)

make_entries-ready :
    (pointer : ℕ → Option ℕ) (address : ℕ → ℕ) (gpu bytes index n : ℕ)
    → bytes ≢ 0
    → ((i : ℕ) → pointer i ≡ some (address i))
    → make_entries pointer (pos gpu ∷ []) bytes index n
      ≡ some (ready_entries address gpu bytes index n)
unfolding make_entries initialize_entry
make_entries-ready pointer address gpu bytes index zero b h = refl
make_entries-ready pointer address gpu bytes index (suc n) b h =
    let rest = make_entries-ready pointer address gpu bytes (index + 1) n b h in
    let here = h index in ground (arith, rest, here)

make_entries-none :
    (pointer : ℕ → Option ℕ) (gpus : List ℤ) (bytes index n k : ℕ)
    → k < n
    → pointer (index + k) ≡ none
    → make_entries pointer gpus bytes index n ≡ none
unfolding make_entries initialize_entry
make_entries-none pointer gpus bytes index zero k h e = absurd (omega arith)
make_entries-none pointer gpus bytes index (suc n) zero h e =
    let here : pointer index ≡ none = ap pointer (omega arith) ∙ e in ground (arith, here)
make_entries-none pointer gpus bytes index (suc n) (suc k) h e =
    let there : pointer (index + 1 + k) ≡ none = ap pointer (omega arith) ∙ e in
    let rest = make_entries-none pointer gpus bytes (index + 1) n k (omega arith) there in
    ground (arith, rest)

-- The cache right after `initialize`.
pub record IsReady (std : StdHash) (address : ℕ → ℕ) (gpu bytes n : ℕ) (c : GpuDataCache)
    : Type 0 where
  pub initialized : c.initialized ≡ true
  pub size : length c.entries ≡ n
  pub entries : (j : ℕ) → j < n → entry_at c j ≡ ready_entry gpu bytes (address j)
  pub free : Counting 0 n c.empty_entries
  pub table : IsFresh std n c.residency_table

module _ (c : GpuDataCache) (pristine : is_pristine c ≡ true) (pointer : ℕ → Option ℕ)
    (gpu bytes n timeout : ℕ) (policy : CacheEvictionPolicy) (positive : bytes ≢ 0)
    (small : n ≤ 2 ^ 62) where
  -- From a cache that holds nothing, and up to 2 ^ 62 entries, initialize with one GPU, a positive
  -- size and allocations that all succeed makes every entry empty, at its own allocation, and free,
  -- and no key is resident.
  pub initialize_cache-IsReady :
      (std : StdHash) (address : ℕ → ℕ)
      → ((i : ℕ) → pointer i ≡ some (address i))
      → ((initialize_cache true pointer c (pos gpu ∷ []) bytes n (pos timeout) policy).1 ≡ true)
        × IsReady std address gpu bytes n
            (initialize_cache true pointer c (pos gpu ∷ []) bytes n (pos timeout) policy).0
  unfolding initialize_cache is_one_gpu
  initialize_cache-IsReady std address h =
      let (ok, fresh, _) = initialize-IsFresh std n small in
      let made = make_entries-ready pointer address gpu bytes 0 n positive h in
      let result = (initialize_cache true pointer c (pos gpu ∷ []) bytes n (pos timeout) policy) in
      let done : result.1 ≡ true = ground (arith, pristine, positive, ok, made) in
      let listed : result.0.entries ≡ ready_entries address gpu bytes 0 n =
        ground (arith, pristine, positive, ok, made) in
      let on : result.0.initialized ≡ true = ground (arith, pristine, positive, ok, made) in
      let stack : result.0.empty_entries ≡ ascending 0 n =
        ground (arith, pristine, positive, ok, made) in
      let table : result.0.residency_table ≡ (initialize true new_table n).0 =
        ground (arith, pristine, positive, ok, made) in
      (
        done,
        record {
          initialized = on;
          size = ap length listed ∙ length-ready_entries address gpu bytes 0 n;
          entries = λ j k.
              ap (λ (xs : List GpuDataCacheEntry). get_or xs j new_entry) listed
              ∙ ready_entries-at address gpu bytes 0 n j k
              ∙ ap (λ (i : ℕ). ready_entry gpu bytes (address i)) (omega arith);
          free = subst (Counting 0 n) (sym stack) (ascending-Counting 0 n);
          table = subst (IsFresh std n) (sym table) fresh;
        },
      )

  -- On a cache that holds nothing, with one GPU, a positive size and up to 2 ^ 62 entries,
  -- initialize returns false and nothing changes if the allocation of any entry fails.
  pub initialize_cache_refused :
      (k : ℕ)
      → k < n
      → pointer k ≡ none
      → initialize_cache true pointer c (pos gpu ∷ []) bytes n (pos timeout) policy ≡ (c, false)
  unfolding initialize_cache is_one_gpu
  initialize_cache_refused k h e =
      let failed =
        make_entries-none pointer (pos gpu ∷ []) bytes 0 n k h (ap pointer (omega arith) ∙ e) in
      ground (arith, failed)
