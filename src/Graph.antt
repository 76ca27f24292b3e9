-- ===== src/Graph.antt =====
-- demo/Grape/DummyGraph.{h,cpp}: the scheduler of a graph copy, its members and the calls of its
-- owner. Atoms, tasks and gates are addresses; `results` and `gates` are what stands there.
pub mod Frames
pub mod Workers
pub mod Counting
pub mod Cancelled
pub mod Steps
pub mod Moves
pub mod Claims
pub mod Calls
pub mod Invariant
pub mod Delivery
pub mod Once
pub mod Progress
pub mod Finish
pub mod Gates
pub mod Joins
pub mod Cycle
pub mod Agreement
pub mod Setup
pub mod FrameIds
pub mod Initialized
mod Tests
use gpuinfra.Prelude.{ℕ, Bool, true, false, Option, List, []}
use gpuinfra.Types.{FrameMetadata}
use gpuinfra.StaticData.{StaticData}

-- `FramePhase`; `other` is any value outside the enumeration.
pub data FramePhase : Type 0 where
  warmup timed other : FramePhase

-- `GraphSink`
pub record GraphSink : Type 0 where
  pub delivered_results : ℕ
  pub failed_results : ℕ

-- The members of `DummyGraph` that its scheduler uses. The heads of `ready_frames` and `free_tasks`
-- are the front of the deque and the back of the vector. `cancellation` is the shared flag.
-- `results` is `atom->result.ok`, `metadata` is `atom->metadata`, `gates` is `released` of a gate.
-- `deliveries` is no member: it lists the atoms of all calls of `sink->deliver`, the last one first.
pub record DummyGraph : Type 0 where
  pub static_data : StaticData
  pub warmup_atoms : List ℕ
  pub timed_atoms : List ℕ
  pub metadata : ℕ → FrameMetadata
  pub results : ℕ → Bool
  pub gates : ℕ → Bool
  pub sink : GraphSink
  pub deliveries : List ℕ
  pub cancellation : Bool
  pub ready_frames : List ℕ
  pub free_tasks : List ℕ
  pub phase_gate : Option ℕ
  pub phase_total : ℕ
  pub phase_terminal : ℕ
  pub in_flight : ℕ
  pub last_max_in_flight : ℕ
  pub warmup_submitted : Bool
  pub timed_submitted : Bool
  pub phase_active : Bool
  pub phase_succeeded : Bool
  pub initialized : Bool
  pub execution_cycle_started : Bool
  pub execution_cycle_stopped : Bool
  pub stopping : Bool
