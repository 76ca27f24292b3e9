-- ===== src/Graph/Frames.antt =====
-- The frames of a phase: submission, delivery and cancellation, and the calls of the owner that do
-- them under the scheduler's lock.
use gpuinfra.Prelude.{
  ℕ, zero, suc, ◌+◌, Bool, true, false, not, ◌&&◌, Option, none, some, List, [], ◌∷◌, ◌==◌,
  if◌then◌else◌, length,
}
use gpuinfra.Residency.{is_empty}
use gpuinfra.StaticData.{validate_frame}
use gpuinfra.Graph.{FramePhase, warmup, timed, other, GraphSink, DummyGraph}

-- a write to `atom->result.ok` or to `released`
abbrev pub write : (ℕ → Bool) → ℕ → Bool → ℕ → Bool
write f a b x = if a == x then b else f x

-- `GraphSink::deliver`
unfoldable pub deliver : GraphSink → Bool → GraphSink
deliver s ok = record {
  delivered_results = s.delivered_results + 1;
  failed_results = if ok then s.failed_results else s.failed_results + 1;
}

-- `deliverFrameResult`
unfoldable pub deliver_frame_result : DummyGraph → ℕ → DummyGraph
deliver_frame_result g atom = record g {
  sink = deliver g.sink (g.results atom);
  deliveries = atom ∷ g.deliveries;
}

-- `atom->result.ok = false; deliverFrameResult(*atom);`
unfoldable pub fail_frame : DummyGraph → ℕ → DummyGraph
fail_frame g atom = deliver_frame_result (record g { results = write g.results atom false }) atom

-- the loop of `cancelReadyFramesLocked`, on the ready frames
unfoldable pub cancel_frames : List ℕ → DummyGraph → DummyGraph
cancel_frames [] g = g
cancel_frames (atom ∷ rest) g =
    cancel_frames rest
      (record (fail_frame g atom) { ready_frames = rest; phase_terminal = g.phase_terminal + 1 })

-- `cancelReadyFramesLocked`
unfoldable pub cancel_ready_frames : DummyGraph → DummyGraph
cancel_ready_frames g = record (cancel_frames g.ready_frames g) { phase_succeeded = false }

-- the loop of `cancelAtoms`
unfoldable pub fail_frames : List ℕ → DummyGraph → DummyGraph
fail_frames [] g = g
fail_frames (atom ∷ rest) g = fail_frames rest (fail_frame g atom)

-- `cancelAtoms(warmupAtoms, warmupSubmitted)`
unfoldable pub cancel_warmup : DummyGraph → DummyGraph
cancel_warmup g =
    if g.warmup_submitted
    then g
    else fail_frames g.warmup_atoms (record g { warmup_submitted = true })

-- `cancelAtoms(timedAtoms, timedSubmitted)`
unfoldable pub cancel_timed : DummyGraph → DummyGraph
cancel_timed g =
    if g.timed_submitted then g else fail_frames g.timed_atoms (record g { timed_submitted = true })

-- `cancelPreparedFramesLocked`
unfoldable pub cancel_prepared_frames : DummyGraph → DummyGraph
cancel_prepared_frames g = cancel_timed (cancel_warmup g)

-- `finishPhaseIfCompleteLocked`
unfoldable pub finish_phase_if_complete : DummyGraph → DummyGraph
finish_phase_if_complete g =
    if g.phase_active
      && is_empty g.ready_frames
      && g.in_flight == 0
      && g.phase_terminal == g.phase_total
    then record g { phase_active = false; phase_gate = none }
    else g

-- how the loop of `startPhase` that fills its deque ends
pub data Collected : Type 0 where
  collected refused thrown : Collected

-- that loop; `room` is the number of `push_back` that succeed before one throws
unfoldable pub collect_frames : ℕ → DummyGraph → List ℕ → Collected
collect_frames room g [] = collected
collect_frames zero g (atom ∷ rest) =
    if validate_frame g.static_data (g.metadata atom) then thrown else refused
collect_frames (suc room) g (atom ∷ rest) =
    let others = collect_frames room g rest in
    if validate_frame g.static_data (g.metadata atom) then others else refused

-- `atom->result.ok = true` for all atoms
unfoldable pub reset_results : (ℕ → Bool) → List ℕ → ℕ → Bool
reset_results f [] = f
reset_results f (atom ∷ rest) = reset_results (write f atom true) rest

-- `startPhase` on the atoms of the phase, once its guard is passed
unfoldable pub submit_phase : DummyGraph → List ℕ → ℕ → DummyGraph
submit_phase g atoms gate = record g {
  results = reset_results g.results atoms;
  ready_frames = atoms;
  phase_gate = some gate;
  phase_total = length atoms;
  phase_terminal = 0;
  in_flight = 0;
  last_max_in_flight = 0;
  phase_succeeded = true;
  phase_active = not (is_empty atoms);
}

-- the guards of `startPhase`
unfoldable pub can_start_phase : DummyGraph → Bool → Bool
can_start_phase g submitted =
    g.initialized
    && g.execution_cycle_started
    && not g.phase_active
    && not g.stopping
    && not g.cancellation
    && not submitted

-- `startPhase`
unfoldable pub start_phase : ℕ → DummyGraph → FramePhase → ℕ → DummyGraph × Bool
start_phase room g warmup gate =
    if not (can_start_phase g g.warmup_submitted)
    then (g, false)
    else elim (collect_frames room g g.warmup_atoms) [
      | collected ↦ (submit_phase (record g { warmup_submitted = true }) g.warmup_atoms gate, true)
      | refused ↦ (g, false)
      | thrown ↦ (record g { cancellation = true }, false)
    ]
start_phase room g timed gate =
    if not (can_start_phase g g.timed_submitted)
    then (g, false)
    else elim (collect_frames room g g.timed_atoms) [
      | collected ↦ (submit_phase (record g { timed_submitted = true }) g.timed_atoms gate, true)
      | refused ↦ (g, false)
      | thrown ↦ (record g { cancellation = true }, false)
    ]
start_phase room g other gate = (g, false)

-- `waitForPhase`: `none` while it waits
unfoldable pub wait_for_phase : DummyGraph → Option Bool
wait_for_phase g =
    if not g.initialized
    then some false
    else (if g.phase_active then none else some (g.phase_succeeded && not g.cancellation))

-- `PhaseGate::release`
unfoldable pub release_gate : DummyGraph → ℕ → DummyGraph
release_gate g gate = record g { gates = write g.gates gate true }

-- `phaseGate->release()`, where there is a gate
unfoldable pub release_phase_gate : DummyGraph → DummyGraph
release_phase_gate g = elim g.phase_gate [ none ↦ g | some gate ↦ release_gate g gate ]

-- the cancellation of an active phase in `shutdown`
unfoldable pub cancel_phase : DummyGraph → DummyGraph
cancel_phase g = release_phase_gate (cancel_ready_frames (record g { cancellation = true }))

-- the first section of `shutdown` under the lock, past its early return
unfoldable pub begin_shutdown : DummyGraph → DummyGraph
begin_shutdown g =
    let g' : DummyGraph = record g { stopping = true } in
    cancel_prepared_frames (if g.phase_active then cancel_phase g' else g')
