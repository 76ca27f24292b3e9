-- ===== src/Graph/Counting.antt =====
-- How often an address stands in a list, and sums over the workers.
use gpuinfra.Prelude.{
  ℕ, zero, suc, ◌+◌, ◌<◌, ◌≡◌, ◌≢◌, refl, true, false, List, [], ◌∷◌, arith, ◌==◌, if◌then◌else◌,
  length, get_or, set,
}
use gpuinfra.Graph.Workers.{
  Worker, waiting, gated, running, ran, flagged, marked, delivered, exited,
}

-- How often `a` stands in the list.
abbrev pub occ : ℕ → List ℕ → ℕ
occ a [] = 0
occ a (x ∷ xs) = (if x == a then 1 else 0) + occ a xs

abbrev pub total : (Worker → ℕ) → List Worker → ℕ
total w [] = 0
total w (p ∷ ps) = w p + total w ps

module _ (w : Worker → ℕ) where
  pub total-set :
      (ps : List Worker) (i : ℕ) (p : Worker)
      → i < length ps
      → total w (set ps i p) + w (get_or ps i exited) ≡ total w ps + w p
  total-set [] i p h = absurd (omega arith)
  total-set (q ∷ ps) zero p h = omega arith
  total-set (q ∷ ps) (suc i) p h = omega (arith, total-set ps i p (omega arith))

  -- A worker that counts, if the sum is not zero.
  pub total-find :
      (ps : List Worker) → total w ps ≢ 0 → (i : ℕ) × (i < length ps) × (w (get_or ps i exited) ≢ 0)
  total-find [] h = absurd (h refl)
  total-find (p ∷ ps) h =
      elim (w p == 0)
          as (λ z.
            (w p == 0) ≡ z → (i : ℕ) × (i < length (p ∷ ps)) × (w (get_or (p ∷ ps) i exited) ≢ 0)) [
              | true ↦ λ e.
                  let (i, lt, n) = total-find ps (λ z. h (ground (arith, e, z))) in
                  (suc i, omega arith, n)
              | false ↦ λ e. (0, omega arith, λ z. ground (arith, e, z))
            ]
        refl

-- The worker has an atom that is not delivered.
abbrev pub holds : ℕ → Worker → ℕ
holds f waiting = 0
holds f (gated atom task gate) = if atom == f then 1 else 0
holds f (running atom task) = if atom == f then 1 else 0
holds f (ran atom task ok) = if atom == f then 1 else 0
holds f (flagged atom task ok) = if atom == f then 1 else 0
holds f (marked atom task ok) = if atom == f then 1 else 0
holds f (delivered atom task ok) = 0
holds f exited = 0

-- The worker has the task.
abbrev pub uses : ℕ → Worker → ℕ
uses t waiting = 0
uses t (gated atom task gate) = if task == t then 1 else 0
uses t (running atom task) = if task == t then 1 else 0
uses t (ran atom task ok) = if task == t then 1 else 0
uses t (flagged atom task ok) = if task == t then 1 else 0
uses t (marked atom task ok) = if task == t then 1 else 0
uses t (delivered atom task ok) = if task == t then 1 else 0
uses t exited = 0

-- The worker has some task.
abbrev pub busy : Worker → ℕ
busy waiting = 0
busy (gated atom task gate) = 1
busy (running atom task) = 1
busy (ran atom task ok) = 1
busy (flagged atom task ok) = 1
busy (marked atom task ok) = 1
busy (delivered atom task ok) = 1
busy exited = 0

-- The worker has left its loop.
abbrev pub gone : Worker → ℕ
gone waiting = 0
gone (gated atom task gate) = 0
gone (running atom task) = 0
gone (ran atom task ok) = 0
gone (flagged atom task ok) = 0
gone (marked atom task ok) = 0
gone (delivered atom task ok) = 0
gone exited = 1
