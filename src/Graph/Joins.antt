-- ===== src/Graph/Joins.antt =====
-- The joins in `shutdown`: once it has begun, the workers leave their loops, whatever they were at.
use gpuinfra.Prelude.{ℕ, ◌+◌, ◌≡◌, Bool, List, length}
use gpuinfra.Types.{FrameMetadata}
use gpuinfra.StaticData.{StaticData}
use gpuinfra.Graph.Counting.{occ, total, gone}
use gpuinfra.Graph.Steps.{System}
use gpuinfra.Graph.Delivery.{started}
use gpuinfra.Graph.Finish.{Run}

-- Steps of the workers after which all have left and each frame of `atoms` and `others` is delivered
-- as often as it stands there.
pub record Joins (atoms others : List ℕ) (s : System) : Type 0 where
  pub last : System
  pub run : Run s last
  pub left : total gone last.workers ≡ length last.workers
  pub delivered_all : (f : ℕ) → occ f last.graph.deliveries ≡ occ f atoms + occ f others

module _ (d : StaticData) (metadata : ℕ → FrameMetadata) (warmup_atoms timed_atoms tasks : List ℕ)
    (n : ℕ) (answers : ℕ → Bool) where
  abbrev s₀ : System
  s₀ = started d metadata warmup_atoms timed_atoms tasks n
