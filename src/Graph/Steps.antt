-- ===== src/Graph/Steps.antt =====
-- The graph and its workers, and every order in which they and the owner may act.
use gpuinfra.Prelude.{
  ℕ, ◌+◌, ◌<◌, ◌≡◌, ◌≢◌, Bool, true, false, none, some, List, [], length, get_or, set,
  if◌then◌else◌,
}
use gpuinfra.Graph.{FramePhase, DummyGraph}
use gpuinfra.Graph.Frames.{start_phase, release_gate, begin_shutdown}
use gpuinfra.Graph.Workers.{Worker, exited, worker_step}
use gpuinfra.Graph.Counting.{occ, total, holds, uses, busy, gone}

pub record System : Type 0 where
  pub graph : DummyGraph
  pub workers : List Worker

-- One step of a worker, whatever its task answers; a call of `startPhase`, of `release` of a gate,
-- or of the first section of `shutdown`; or the cancellation of all graphs by another.
pub data Step (s : System) : System → Type 0 where
  worked :
      {t : System} (i : ℕ) (executed : Bool) (g : DummyGraph) (p : Worker)
      → i < length s.workers
      → worker_step executed s.graph (get_or s.workers i exited) ≡ some (g, p)
      → t ≡ record { graph = g; workers = set s.workers i p }
      → Step s t
  submitted :
      {t : System} (room : ℕ) (phase : FramePhase) (gate : ℕ)
      → t ≡ record s { graph = (start_phase room s.graph phase gate).0 }
      → Step s t
  opened : {t : System} (gate : ℕ) → t ≡ record s { graph = release_gate s.graph gate } → Step s t
  shut : {t : System} → t ≡ record s { graph = begin_shutdown s.graph } → Step s t
  cancelled :
      {t : System} → t ≡ record s { graph = record (s.graph) { cancellation = true } } → Step s t

pub data Reach (s : System) : System → Type 0 where
  here : Reach s s
  next : {t u : System} → Reach s t → Step t u → Reach s u

-- How often `f` stands among the atoms of the phases that were submitted.
abbrev pub submitted_count : ℕ → DummyGraph → ℕ
submitted_count f g =
    (if g.warmup_submitted then occ f g.warmup_atoms else 0)
    + (if g.timed_submitted then occ f g.timed_atoms else 0)

-- The frames: each submitted one is ready, with one worker, or delivered. The tasks: each is free
-- or with one worker. The counts are what they count, and an active phase has work left unless it
-- is being shut down.
pub record IsSound (tasks : List ℕ) (g : DummyGraph) (ws : List Worker) : Type 0 where
  pub frames :
      (f : ℕ) → occ f g.deliveries + occ f g.ready_frames + total (holds f) ws ≡ submitted_count f g
  pub pool : (t : ℕ) → occ t g.free_tasks + total (uses t) ws ≡ occ t tasks
  pub flight : g.in_flight ≡ total busy ws
  pub phase : g.phase_terminal + g.in_flight + length g.ready_frames ≡ g.phase_total
  pub quiet : g.phase_active ≡ false → (g.in_flight ≡ 0) × (g.ready_frames ≡ [])
  pub live : g.phase_active ≡ true → g.stopping ≡ false → g.in_flight + length g.ready_frames ≢ 0
  pub gate : g.phase_active ≡ true → g.phase_gate ≢ none
  pub sunk : g.sink.delivered_results ≡ length g.deliveries
  pub staying : g.stopping ≡ false → total gone ws ≡ 0
