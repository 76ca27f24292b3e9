-- ===== src/StaticData/Plan.antt =====
-- The memory plan of `init`.
use gpuinfra.Prelude.{
  ℕ, ◌+◌, ◌*◌, ◌/◌, ◌<◌, ◌≤◌, ◌≡◌, ◌≢◌, refl, true, false, some, arith, size_mod, size_max, ◌==◌,
}
use native.Mathlib.Nat.{le-div_iff_mul-le}
use gpuinfra.StaticData.{
  StaticDataConfig, StaticData, StaticAnswers, cache_gpu_bytes, total_gpu_bytes, plan_fits,
  has_memory, init,
}

-- The bytes that a configuration asks for, as a number that does not wrap.
abbrev pub required_bytes : StaticDataConfig → ℕ
required_bytes g =
    g.gpu_cache_entries * g.runtime.in_bytes + g.detection_zone_bytes + g.distortion_bytes

pub product-le : (n b q : ℕ) → n ≢ 0 → b ≤ q / n → n * b ≤ q
product-le n b q h e = omega (arith, (le-div_iff_mul-le {k = n} {x = b} {y = q} (omega arith)).0 e)

plan_fits-total :
    (g : StaticDataConfig)
    → plan_fits g ≡ true
    → (total_gpu_bytes g ≡ required_bytes g) × (required_bytes g < size_mod)
unfolding plan_fits total_gpu_bytes cache_gpu_bytes
plan_fits-total g e =
    elim (g.gpu_cache_entries == 0)
        as (λ z.
          (g.gpu_cache_entries == 0) ≡ z
          → (total_gpu_bytes g ≡ required_bytes g) × (required_bytes g < size_mod)) [
            | true ↦ λ z. ground (arith, z, e)
            | false ↦ λ z.
                let fits =
                  product-le g.gpu_cache_entries g.runtime.in_bytes size_max (ground (arith, z)) in
                ground (arith, z, e, fits)
          ]
      refl

-- When init succeeds, the bytes of all entries and of both regions, computed without wrapping, are
-- below 2 ^ 64 and fit in the free memory that cudaMemGetInfo answers.
pub init-required_bytes :
    (a : StaticAnswers) (d : StaticData) (g : StaticDataConfig) (free : ℕ)
    → a.free_bytes ≡ some free
    → (init a d g).1 ≡ true
    → (required_bytes g < size_mod) × (required_bytes g ≤ free)
unfolding init has_memory
init-required_bytes a d g free e ok = let total = plan_fits-total g in ground (arith, e, ok, total)
