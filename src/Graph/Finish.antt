-- ===== src/Graph/Finish.antt =====
-- The end of a phase: with open gates the workers bring it there, whatever the tasks answer.
use gpuinfra.Prelude.{
  ℕ, ◌+◌, ◌-◌, ◌<◌, ◌≡◌, ◌≢◌, subst, sym, inl, inr, Bool, false, none, some, ◌∷◌, arith, length,
  get_or, set,
}
use gpuinfra.StaticData.{StaticData}
use gpuinfra.Graph.{DummyGraph}
use gpuinfra.Graph.Frames.{finish_phase_if_complete, deliver_frame_result, wait_for_phase}
use gpuinfra.Graph.Workers.{
  Worker, waiting, gated, running, ran, flagged, marked, delivered, exited, finish_frame,
  worker_step,
}
use gpuinfra.Graph.Cancelled.{cancel_ready_frames-Cancels}
use gpuinfra.Graph.Steps.{System}
use gpuinfra.Graph.Claims.{claim-cases}

-- What a worker leaves to the owner: the gates, the order to stop, and the gate of the next phase.
abbrev LeavesOwner : DummyGraph → DummyGraph → Type 0
LeavesOwner g g' =
    (g'.stopping ≡ g.stopping)
    × (g'.gates ≡ g.gates)
    × ((gate : ℕ) → g'.phase_gate ≡ some gate → g.phase_gate ≡ some gate)

finish_frame-LeavesOwner :
    (g : DummyGraph) (task : ℕ) (ok : Bool) → LeavesOwner g (finish_frame g task ok)
unfolding finish_frame finish_phase_if_complete
finish_frame-LeavesOwner g task ok =
    let g₁ : DummyGraph = record g {
      free_tasks = task ∷ g.free_tasks;
      in_flight = g.in_flight - 1;
      phase_terminal = g.phase_terminal + 1;
      phase_succeeded = false;
    } in
    let c = (cancel_ready_frames-Cancels g₁).rest in
    (ground (arith, c), ground (arith, c), λ gate h. ground (arith, c, h))

pub worker_step-LeavesOwner :
    (executed : Bool) (g g' : DummyGraph) (p p' : Worker)
    → worker_step executed g p ≡ some (g', p')
    → LeavesOwner g g'
unfolding worker_step deliver_frame_result finish_phase_if_complete
worker_step-LeavesOwner executed g g' waiting p' e = elim (claim-cases g g' p' e) [
  | inl (stop, same, out) ↦
      (ground (arith, same), ground (arith, same), λ gate h. ground (arith, same, h))
  | inr rest ↦ elim rest [
    | inl (done, back) ↦
        let c = (cancel_ready_frames-Cancels g).rest in
        (ground (arith, done, c), ground (arith, done, c), λ gate h. ground (arith, done, c, h))
    | inr t ↦
        let q = t.graph in (ground (arith, q), ground (arith, q), λ gate h. ground (arith, q, h))
  ]
]
worker_step-LeavesOwner executed g g' (gated atom task gate) p' e =
    (ground (arith, e), ground (arith, e), λ x h. ground (arith, e, h))
worker_step-LeavesOwner executed g g' (running atom task) p' e =
    (ground (arith, e), ground (arith, e), λ x h. ground (arith, e, h))
worker_step-LeavesOwner executed g g' (ran atom task ok) p' e =
    (ground (arith, e), ground (arith, e), λ x h. ground (arith, e, h))
worker_step-LeavesOwner executed g g' (flagged atom task ok) p' e =
    (ground (arith, e), ground (arith, e), λ x h. ground (arith, e, h))
worker_step-LeavesOwner executed g g' (marked atom task ok) p' e =
    (ground (arith, e), ground (arith, e), λ x h. ground (arith, e, h))
worker_step-LeavesOwner executed g g' (delivered atom task ok) p' e =
    let done : g' ≡ finish_frame g task ok = ground (arith, e) in
    subst (LeavesOwner g) (sym done) (finish_frame-LeavesOwner g task ok)
worker_step-LeavesOwner executed g g' exited p' e = ground (arith, e)

-- A number of steps of workers, one after the other.
pub data Run : System → System → Type 0 where
  ended : {s : System} → Run s s
  moved :
      {s t : System} (i : ℕ) (executed : Bool) (g : DummyGraph) (p : Worker)
      → i < length s.workers
      → worker_step executed s.graph (get_or s.workers i exited) ≡ some (g, p)
      → Run (record { graph = g; workers = set s.workers i p }) t
      → Run s t

-- Steps of the workers after which `waitForPhase` returns.
pub record Finishes (s : System) : Type 0 where
  pub last : System
  pub run : Run s last
  pub returns : wait_for_phase last.graph ≢ none
