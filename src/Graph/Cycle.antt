-- ===== src/Graph/Cycle.antt =====
-- The calls of the owner of a graph that go to its tasks: `start`, `stop` and `changeParameters`.
-- `on_node` is whether `NumaExecutor::run` gets a thread on the node of the graph; the answers of
-- `cudaSetDevice` are arguments, one for each task.
use gpuinfra.Prelude.{
  ℕ, suc, Bool, true, false, not, ◌||◌, ◌&&◌, none, some, List, [], ◌∷◌, ◌==◌, if◌then◌else◌,
}
use gpuinfra.Prelude.Maps.{eq_list}
use gpuinfra.Context.{GpuContextManager}
use gpuinfra.Params.{ParameterSnapshot, ParameterRegistry, set_string, set_bytes, snapshot}
use gpuinfra.Algo.{AlgoParams}
use gpuinfra.Task.{
  started, stopped, eq_lifecycle, DummyTask, name_parameter, blob_parameter, notify_parameters,
  start_task, stop_task,
}
use gpuinfra.Graph.{DummyGraph}

-- The members of `DummyGraph` that stand for its tasks, beside those of its scheduler.
pub record Owner : Type 0 where
  pub graph : DummyGraph
  pub manager : GpuContextManager
  pub registry : ParameterRegistry
  pub parameter_snapshot : ParameterSnapshot
  pub parameters : AlgoParams
  pub tasks : List DummyTask

-- `cancellation->store(true)`
abbrev pub cancel : Owner → Owner
cancel o = record o { graph = record (o.graph) { cancellation = true } }

-- `notifyParametersOnNumaNode`, from task number `i` on
unfoldable pub notify_tasks :
    (ℕ → Bool) → GpuContextManager → ℕ → List DummyTask → ParameterSnapshot → List DummyTask × Bool
notify_tasks selected m i [] s = ([], true)
notify_tasks selected m i (t ∷ others) s =
    let (t', ok) = notify_parameters (selected i) m t s in
    let (rest, all) = notify_tasks selected m (suc i) others s in
    if ok then (t' ∷ rest, all) else (t' ∷ others, false)

-- the guard of `changeParameters`
unfoldable pub can_change : Owner → Bool
can_change o =
    o.graph.initialized
    && not o.graph.phase_active
    && o.graph.in_flight == 0
    && not o.graph.stopping
    && not o.graph.cancellation
    && o.registry.sealed

-- `changeParameters` past the writes to the registry
unfoldable pub spread_parameters : Bool → (ℕ → Bool) → Owner → AlgoParams → Owner × Bool
spread_parameters on_node selected o p = elim (snapshot o.registry) [
  | none ↦ (o, false)
  | some s ↦
      let (tasks, ok) = notify_tasks selected o.manager 0 o.tasks s in
      if not on_node
      then (cancel o, false)
      else (if ok
          then (record o { tasks = tasks; parameters = p; parameter_snapshot = s }, true)
          else (cancel (record o { tasks = tasks }), false))
]

-- `changeParameters`
unfoldable pub change_parameters : Bool → (ℕ → Bool) → Owner → AlgoParams → Owner × Bool
change_parameters on_node selected o p =
    let (r₁, named) = set_string o.registry name_parameter p.name in
    let (r₂, blobbed) = set_bytes r₁ blob_parameter p.blob in
    if not (can_change o)
    then (o, false)
    else (if eq_list p.name o.parameters.name && eq_list p.blob o.parameters.blob
        then (o, true)
        else (if not named
            then (record o { registry = r₁ }, false)
            else (if not blobbed || r₂.revision_number == o.registry.revision_number
                then (record o { registry = r₂ }, false)
                else spread_parameters on_node selected (record o { registry = r₂ }) p)))

-- `startOnNumaNode`; where a task does not start, the ones before it are stopped again. Each task
-- starts and stops on its own, so each is stopped where the recursion returns to it, the last first.
unfoldable pub start_tasks : List DummyTask → List DummyTask × Bool
start_tasks [] = ([], true)
start_tasks (t ∷ others) =
    let (t', ok) = start_task t in
    let (rest, all) = start_tasks others in
    if not ok
    then (t ∷ others, false)
    else (if all then (t' ∷ rest, true) else ((stop_task t').0 ∷ rest, false))

-- `start`
unfoldable pub start : Bool → Owner → Owner × Bool
start on_node o =
    let (tasks, ok) = start_tasks o.tasks in
    if not o.graph.initialized
      || o.graph.execution_cycle_started
      || o.graph.execution_cycle_stopped
      || o.graph.phase_active
      || o.graph.stopping
      || o.graph.cancellation
    then (o, false)
    else (if not on_node
        then (cancel o, false)
        else (if ok
            then (
              record o {
                tasks = tasks;
                graph = record (o.graph) { execution_cycle_started = true };
              },
              true,
            )
            else (cancel (record o { tasks = tasks }), false)))

-- `stopOnNumaNode`; the order of the tasks does not matter, as each is stopped on its own
unfoldable pub stop_tasks : List DummyTask → List DummyTask × Bool
stop_tasks [] = ([], true)
stop_tasks (t ∷ others) =
    let (t', ok) = stop_task t in
    let (rest, all) = stop_tasks others in
    if eq_lifecycle t.state started
    then (t' ∷ rest, ok && all)
    else (t ∷ rest, eq_lifecycle t.state stopped && all)

-- `stop`
unfoldable pub stop : Bool → Owner → Owner × Bool
stop on_node o =
    let (tasks, ok) = stop_tasks o.tasks in
    if not o.graph.initialized
      || not o.graph.execution_cycle_started
      || o.graph.execution_cycle_stopped
      || o.graph.phase_active
      || not (o.graph.in_flight == 0)
      || o.graph.stopping
    then (o, false)
    else (if not on_node
        then (cancel o, false)
        else (if ok
            then (
              record o {
                tasks = tasks;
                graph = record (o.graph) {
                  execution_cycle_started = false;
                  execution_cycle_stopped = true;
                };
              },
              true,
            )
            else (cancel (record o { tasks = tasks }), false)))
