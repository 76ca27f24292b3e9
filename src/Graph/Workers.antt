-- ===== src/Graph/Workers.antt =====
-- `workerLoop` from its first wait on: where a worker stands, and its step from there. Between two
-- steps the other workers and the owner may act.
use gpuinfra.Prelude.{
  ℕ, ◌+◌, ◌-◌, Bool, true, false, not, ◌||◌, ◌&&◌, Option, none, some, [], ◌∷◌, if◌then◌else◌, max,
}
use gpuinfra.Graph.{DummyGraph}
use gpuinfra.Graph.Frames.{
  write, deliver_frame_result, cancel_ready_frames, finish_phase_if_complete,
}

-- Where a worker stands: in `workCondition.wait`; with a claimed atom, task and gate, in
-- `gate->wait()`; and, with `succeeded`, before each access to shared data.
pub data Worker : Type 0 where
  waiting : Worker
  gated : ℕ → ℕ → ℕ → Worker
  running : ℕ → ℕ → Worker
  ran : ℕ → ℕ → Bool → Worker
  flagged : ℕ → ℕ → Bool → Worker
  marked : ℕ → ℕ → Bool → Worker
  delivered : ℕ → ℕ → Bool → Worker
  exited : Worker

-- the section of the loop under the lock from its wait on; `none` while it waits
unfoldable pub claim : DummyGraph → Option (DummyGraph × Worker)
claim g =
    if g.stopping
    then some (g, exited)
    else (if not g.phase_active
        then none
        else (if g.cancellation
            then some (finish_phase_if_complete (cancel_ready_frames g), waiting)
            else elim g.ready_frames [
              | [] ↦ none
              | atom ∷ frames ↦ elim g.free_tasks [
                | [] ↦ none
                | task ∷ tasks ↦ elim g.phase_gate [
                  | none ↦ none
                  | some gate ↦ some (
                    record g {
                      ready_frames = frames;
                      free_tasks = tasks;
                      in_flight = g.in_flight + 1;
                      last_max_in_flight = max g.last_max_in_flight (g.in_flight + 1);
                    },
                    gated atom task gate,
                  )
                ]
              ]
            ]))

-- the section under the lock at the end of the loop
unfoldable pub finish_frame : DummyGraph → ℕ → Bool → DummyGraph
finish_frame g task succeeded =
    let g' : DummyGraph = record g {
      free_tasks = task ∷ g.free_tasks;
      in_flight = g.in_flight - 1;
      phase_terminal = g.phase_terminal + 1;
    } in
    finish_phase_if_complete (
      if not succeeded || g.cancellation
      then cancel_ready_frames (record g' { phase_succeeded = false })
      else g')

-- The next step of a worker; `none` while it is blocked. `executed` is the answer of
-- `staticData.execute() && task->execute(…)`.
unfoldable pub worker_step : Bool → DummyGraph → Worker → Option (DummyGraph × Worker)
worker_step executed g waiting = claim g
worker_step executed g (gated atom task gate) =
    if g.gates gate then some (g, running atom task) else none
worker_step executed g (running atom task) =
    some (g, ran atom task (not g.cancellation && executed))
worker_step executed g (ran atom task succeeded) =
    some (if succeeded then g else record g { cancellation = true }, flagged atom task succeeded)
worker_step executed g (flagged atom task succeeded) = some (
  if not succeeded || g.cancellation then record g { results = write g.results atom false } else g,
  marked atom task succeeded,
)
worker_step executed g (marked atom task succeeded) =
    some (deliver_frame_result g atom, delivered atom task succeeded)
worker_step executed g (delivered atom task succeeded) =
    some (finish_frame g task succeeded, waiting)
worker_step executed g exited = none
