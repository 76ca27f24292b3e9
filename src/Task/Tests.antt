-- ===== src/Task/Tests.antt =====
-- A task that is registered, loaded, started, stopped and unloaded.
use gpuinfra.Prelude.{◌*◌, ◌≡◌, refl, Bool, true, false, some, [], ◌∷◌}
use gpuinfra.Prelude.Int.{pos}
use gpuinfra.Types.{AlgoRuntimeInfo}
use gpuinfra.Context.{
  GpuContextManager, unbound, count_gpus, resolve_gpu_ids, gpu_locations, gpu_ids_for_node,
  find_gpu, free_slot, store_task, register_task, unregister_task, make_task_current,
}
use gpuinfra.Params.{
  ParameterRegistry, new_registry, get_string, get_bytes, register_parameter, store_value,
  set_value, set_string, set_bytes, seal, snapshot,
}
use gpuinfra.Algo.{
  CloseAnswers, is_valid_factor, square_bytes, close, allocate_output, can_init, init_algo,
  notify_parameter,
}
use gpuinfra.Task.{
  constructed, loaded, unloaded, DummyTask, name_parameter, blob_parameter, is_valid_runtime,
  register_parameters, notify_algorithms, apply_parameters, start_task, stop_task,
  TaskReleaseAnswers, close_all, release_resources, unload_task, LoadAnswers, allocate_buffers,
  init_all, prepare_task, load_on, load_task,
}

program : Unit {0}
unfolding count_gpus resolve_gpu_ids gpu_locations gpu_ids_for_node find_gpu free_slot store_task
    register_task unregister_task make_task_current get_string get_bytes register_parameter
    store_value set_value set_string set_bytes seal snapshot is_valid_factor square_bytes close
    allocate_output can_init init_algo notify_parameter is_valid_runtime register_parameters
    notify_algorithms apply_parameters start_task stop_task close_all release_resources unload_task
    allocate_buffers init_all prepare_task load_on load_task
program = tt

abbrev runtime : AlgoRuntimeInfo
runtime = record {
  in_bytes = 128 * 128;
  size_factor = pos 16;
  frame_w = pos 128;
  frame_h = pos 128;
  frame_dtype = pos 0;
}

abbrev manager : GpuContextManager
manager = record {
  contexts =
      record { gpu_id = pos 0; numa_node = pos 0; primary_ctx = 9; task_resources = [] } ∷ [];
  initialised = true;
}

abbrev new_task : DummyTask
new_task = record {
  id = pos 0;
  algo_runtime = runtime;
  resources = unbound 50;
  stream = 0;
  h_in = 0;
  in_bytes = 0;
  d_input = 0;
  d_scratch = 0;
  scratch_bytes = 0;
  algorithms = [];
  has_registry = false;
  applied_revision = 0;
  state = constructed;
}

abbrev closing : CloseAnswers
closing = record { device_ok = true; freed = true; host_freed = true }

abbrev releasing : TaskReleaseAnswers
releasing = record {
  selected = true;
  synchronized = true;
  closed = λ i. closing;
  scratch_freed = true;
  input_freed = true;
  host_freed = true;
  destroyed = true;
}

abbrev loading : LoadAnswers
loading = record {
  node = pos 0;
  selected = true;
  stream = some 5;
  h_in = some 6;
  d_input = some 7;
  cleared = true;
  algorithm = λ i. record {
    closed = closing;
    device_ok = true;
    d_output_matrix = some 11;
    h_output_matrix = some 12;
    cleared = true;
    undo = closing;
  };
  synchronized = true;
  released = releasing;
}

abbrev declared : DummyTask × ParameterRegistry × Bool
declared = register_parameters new_task new_registry

abbrev registry : ParameterRegistry
registry =
    (seal
      (set_bytes (set_string declared.1 name_parameter (65 ∷ [])).0 blob_parameter (7 ∷ [])).0).0

abbrev ready_task : GpuContextManager × DummyTask × Bool
ready_task = load_task loading manager declared.0 registry

load_runs : (ready_task.1.state ≡ loaded) × (ready_task.1.applied_revision ≡ 2)
unfolding program
load_runs = (refl, refl)

unload_runs :
    (unload_task releasing ready_task.0 (stop_task (start_task ready_task.1).0).0).1.state
    ≡ unloaded
unfolding program
unload_runs = refl
