-- ===== src/Graph/Tests.antt =====
-- Runs of a graph of three frames with two tasks and two workers: a shutdown in the middle of a
-- phase, and the theorems at the states on the way.
use gpuinfra.Prelude.{
  ℕ, ◌+◌, ◌≤◌, ◌≡◌, refl, Bool, true, false, none, some, [], ◌∷◌, arith, get_or, set,
}
use gpuinfra.Types.{FrameMetadata, default_metadata, default_runtime}
use gpuinfra.Cache.{new_cache}
use gpuinfra.StaticGpuData.{new_data, ready}
use gpuinfra.StaticData.{StaticData, matches_runtime, execute, validate_frame}
use gpuinfra.Graph.{warmup}
use gpuinfra.Graph.Frames.{
  deliver, deliver_frame_result, fail_frame, cancel_frames, cancel_ready_frames, fail_frames,
  cancel_warmup, cancel_timed, cancel_prepared_frames, finish_phase_if_complete, collect_frames,
  reset_results, submit_phase, can_start_phase, start_phase, wait_for_phase, release_gate,
  release_phase_gate, cancel_phase, begin_shutdown,
}
use gpuinfra.Graph.Workers.{exited, claim, finish_frame, worker_step}
use gpuinfra.Graph.Counting.{occ, uses}
use gpuinfra.Graph.Steps.{System, worked, submitted, cancelled, Reach, here, next}
use gpuinfra.Graph.Delivery.{started}
use gpuinfra.Graph.Once.{deliveries-le, tasks_apart, wait_for_phase-deliveries}
use gpuinfra.Graph.Joins.{Joins}
use gpuinfra.Prelude.Int.{pos}
use gpuinfra.Params.{
  ParameterRegistry, new_registry, string_type, bytes_type, get_string, get_bytes,
  register_parameter, store_value, set_value, set_string, set_bytes, seal, snapshot,
}
use gpuinfra.Params.Laws.{contents}
use gpuinfra.Context.{make_task_current}
use gpuinfra.Algo.{AlgoParams, new_algo, notify_parameter}
use gpuinfra.Task.{
  loaded, DummyTask, name_parameter, blob_parameter, notify_algorithms, apply_parameters,
  notify_parameters,
}
use gpuinfra.Graph.Cycle.{Owner, notify_tasks, can_change, spread_parameters, change_parameters}
use gpuinfra.Graph.Agreement.{Agrees, change_parameters-Agrees}

program : Unit {0}
unfolding matches_runtime execute validate_frame deliver deliver_frame_result fail_frame
    cancel_frames cancel_ready_frames fail_frames cancel_warmup cancel_timed cancel_prepared_frames
    finish_phase_if_complete collect_frames reset_results submit_phase can_start_phase start_phase
    wait_for_phase release_gate release_phase_gate cancel_phase begin_shutdown claim finish_frame
    worker_step
program = tt

abbrev static_data : StaticData
static_data = record {
  gpu_data_cache = new_cache 1;
  gpu_static_data = record new_data { current_state = ready };
  frame_runtime = record default_runtime { in_bytes = 16 };
  initialized = true;
}

abbrev metadata : ℕ → FrameMetadata
metadata atom = record default_metadata { bytes = 16 }

-- The state after the next step of a worker.
abbrev after : Bool → ℕ → System → System
after executed i s = elim (worker_step executed s.graph (get_or s.workers i exited)) [
  | none ↦ s
  | some (g, p) ↦ record { graph = g; workers = set s.workers i p }
]

-- two frames to warm up, one that is timed
abbrev ready_graph : System
ready_graph = started static_data metadata (1 ∷ 2 ∷ []) (3 ∷ []) (10 ∷ 11 ∷ []) 2

abbrev warming : System
warming = record ready_graph { graph = (start_phase 2 ready_graph.graph warmup 7).0 }

warming-Reach : Reach ready_graph warming
unfolding program
warming-Reach = next here (submitted 2 warmup 7 refl)

-- one worker has the first frame, the other the second one
abbrev one_taken : System
one_taken = after true 0 warming

one_taken-Reach : Reach ready_graph one_taken
unfolding program
one_taken-Reach = next warming-Reach (worked 0 true _ _ (omega arith) refl refl)

abbrev both_taken : System
both_taken = after true 1 one_taken

both_taken-Reach : Reach ready_graph both_taken
unfolding program
both_taken-Reach = next one_taken-Reach (worked 1 true _ _ (omega arith) refl refl)

-- a shutdown while the first frame waits at its gate and the second is ready
abbrev closing : System
closing = record one_taken { graph = begin_shutdown one_taken.graph }

-- another graph fails, and a worker ends the phase
abbrev failed : System
failed = record warming { graph = record (warming.graph) { cancellation = true } }

abbrev failed_and_ended : System
failed_and_ended = after true 0 failed

failed_and_ended-Reach : Reach ready_graph failed_and_ended
unfolding program
failed_and_ended-Reach =
    next (next warming-Reach (cancelled refl)) (worked 0 true _ _ (omega arith) refl refl)

-- the gate of the phase is opened
abbrev open_gate : System
open_gate = record one_taken { graph = release_gate one_taken.graph 7 }

deliveries-le_example : occ 1 failed_and_ended.graph.deliveries ≤ 1
unfolding program
deliveries-le_example =
    (deliveries-le static_data metadata (1 ∷ 2 ∷ []) (3 ∷ []) (10 ∷ 11 ∷ []) 2 failed_and_ended
        failed_and_ended-Reach).1
      1

tasks_apart_example :
    uses 10 (get_or both_taken.workers 0 exited) + uses 10 (get_or both_taken.workers 1 exited) ≤ 1
unfolding program
tasks_apart_example =
    tasks_apart static_data metadata (1 ∷ 2 ∷ []) (3 ∷ []) (10 ∷ 11 ∷ []) 2 both_taken
      both_taken-Reach 10 0 1 (omega arith) (λ e. omega (arith, e)) (omega arith) (omega arith)

wait_for_phase-deliveries_example : occ 2 failed_and_ended.graph.deliveries ≡ 1
unfolding program
wait_for_phase-deliveries_example =
    (wait_for_phase-deliveries static_data metadata (1 ∷ 2 ∷ []) (3 ∷ []) (10 ∷ 11 ∷ []) 2
        failed_and_ended failed_and_ended-Reach false refl).1
      2

owner_program : Unit {0}
unfolding get_string get_bytes register_parameter store_value set_value set_string set_bytes seal
    snapshot notify_parameter notify_algorithms apply_parameters notify_parameters make_task_current
    notify_tasks can_change spread_parameters change_parameters
owner_program = tt

abbrev first_params : AlgoParams
first_params = record { name = 65 ∷ []; blob = [] }

abbrev other_params : AlgoParams
other_params = record { name = 65 ∷ []; blob = 7 ∷ [] }

abbrev registry : ParameterRegistry
registry =
    let r₁ = (register_parameter new_registry name_parameter string_type).0 in
    let r₂ = (register_parameter r₁ blob_parameter bytes_type).0 in
    (seal (set_bytes (set_string r₂ name_parameter (65 ∷ [])).0 blob_parameter []).0).0

-- a started task with one algorithm, on the only context
abbrev task : DummyTask
task = record {
  id = pos 0;
  algo_runtime = default_runtime;
  resources = record { self = 50; resource_id = pos 0; gpu_id = pos 0; ctx = some 0 };
  stream = 5;
  h_in = 6;
  in_bytes = 16;
  d_input = 7;
  d_scratch = 0;
  scratch_bytes = 0;
  algorithms = record (new_algo 2) { initialized = true; algo_params = first_params } ∷ [];
  has_registry = true;
  applied_revision = 2;
  state = loaded;
}

abbrev owner : Owner
owner = record {
  graph = ready_graph.graph;
  manager = record {
    contexts =
        record { gpu_id = pos 0; numa_node = pos 0; primary_ctx = 9; task_resources = 50 ∷ [] }
        ∷ [];
    initialised = true;
  };
  registry = registry;
  parameter_snapshot = contents registry;
  parameters = first_params;
  tasks = task ∷ [];
}

owner-Agrees : Agrees owner
unfolding owner_program
owner-Agrees = record {
  on = refl;
  held = record { name_there = refl; blob_there = refl };
  applied = (record { all_set = (refl, refl, tt); revision_is = refl; in_use = refl }, tt);
}

change_parameters-Agrees_example :
    Agrees (change_parameters true (λ i. true) owner other_params).0
    × ((change_parameters true (λ i. true) owner other_params).0.parameters ≡ other_params)
unfolding owner_program
change_parameters-Agrees_example =
    change_parameters-Agrees true (λ i. true) owner other_params owner-Agrees refl
