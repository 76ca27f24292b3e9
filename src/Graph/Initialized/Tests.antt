-- ===== src/Graph/Initialized/Tests.antt =====
-- The initialization of a small graph.
use gpuinfra.Prelude.{◌*◌, ◌+◌, refl, arith, Bool, true, false, some, [], ◌∷◌}
use gpuinfra.Prelude.Int.{pos}
use gpuinfra.Types.{AlgoRuntimeInfo}
use gpuinfra.Context.{
  GpuContextManager, count_gpus, resolve_gpu_ids, gpu_locations, gpu_ids_for_node, find_gpu,
  free_slot, store_task, register_task, unregister_task, make_task_current,
}
use gpuinfra.Params.{
  new_registry, get_string, get_bytes, register_parameter, store_value, set_value, set_string,
  set_bytes, seal, snapshot,
}
use gpuinfra.Algo.{
  CloseAnswers, is_valid_factor, square_bytes, close, allocate_output, can_init, init_algo,
  notify_parameter,
}
use gpuinfra.Task.{
  is_valid_runtime, register_parameters, notify_algorithms, apply_parameters, start_task, stop_task,
  TaskReleaseAnswers, close_all, release_resources, unload_task, LoadAnswers, allocate_buffers,
  init_all, prepare_task, load_on, load_task,
}
use gpuinfra.Access.{lru}
use gpuinfra.Entry.{initialize_entry}
use gpuinfra.Residency.{grow_slots, required_slots, slot_count_for, initialize}
use gpuinfra.Cache.{new_cache}
use gpuinfra.Cache.Manage.{is_pristine, is_one_gpu, make_entries, ascending, initialize_cache}
use gpuinfra.StaticGpuData.{new_data}
use gpuinfra.StaticGpuData.Operations
use gpuinfra.StaticData.{
  StaticData, StaticAnswers, cache_gpu_bytes, total_gpu_bytes, plan_fits, has_memory, init_parts,
  init,
}
use gpuinfra.Types.{default_metadata, default_runtime}
use gpuinfra.Params.Laws.{contents}
use gpuinfra.Algo.{no_params}
use gpuinfra.Graph.Cycle.{Owner}
use gpuinfra.Graph.Delivery.{started_graph}
use gpuinfra.Graph.Setup.{
  GraphConfig, multiply_frame_count, frame_counts, make_metadata, make_frames, make_tasks,
  seal_parameters, load_tasks, SetupAnswers, fill_graph, initialize_on_node, TeardownAnswers,
  initialize_graph,
}
use gpuinfra.Graph.Initialized.{IsConfigured, initialize_graph-IsConfigured}
use gpuinfra.Graph.FrameIds.{HasFrames, initialize_graph-HasFrames}

program : Unit {0}
unfolding count_gpus resolve_gpu_ids gpu_locations gpu_ids_for_node find_gpu free_slot store_task
    register_task unregister_task make_task_current get_string get_bytes register_parameter
    store_value set_value set_string set_bytes seal snapshot is_valid_factor square_bytes close
    allocate_output can_init init_algo notify_parameter is_valid_runtime register_parameters
    notify_algorithms apply_parameters start_task stop_task close_all release_resources unload_task
    allocate_buffers init_all prepare_task load_on load_task multiply_frame_count frame_counts
    make_metadata make_frames make_tasks seal_parameters load_tasks fill_graph initialize_on_node
    initialize_graph initialize_entry grow_slots required_slots slot_count_for initialize
    is_pristine is_one_gpu make_entries ascending initialize_cache Operations.allocate_buffer
    Operations.initialize Operations.finalize cache_gpu_bytes total_gpu_bytes plan_fits has_memory
    init_parts init
program = tt

abbrev runtime : AlgoRuntimeInfo
runtime = record {
  in_bytes = 128 * 128;
  size_factor = pos 16;
  frame_w = pos 128;
  frame_h = pos 128;
  frame_dtype = pos 0;
}

abbrev manager : GpuContextManager
manager = record {
  contexts =
      record { gpu_id = pos 0; numa_node = pos 0; primary_ctx = 9; task_resources = [] } ∷ [];
  initialised = true;
}

abbrev closing : CloseAnswers
closing = record { device_ok = true; freed = true; host_freed = true }

abbrev releasing : TaskReleaseAnswers
releasing = record {
  selected = true;
  synchronized = true;
  closed = λ i. closing;
  scratch_freed = true;
  input_freed = true;
  host_freed = true;
  destroyed = true;
}

abbrev loading : LoadAnswers
loading = record {
  node = pos 0;
  selected = true;
  stream = some 5;
  h_in = some 6;
  d_input = some 7;
  cleared = true;
  algorithm = λ i. record {
    closed = closing;
    device_ok = true;
    d_output_matrix = some 11;
    h_output_matrix = some 12;
    cleared = true;
    undo = closing;
  };
  synchronized = true;
  released = releasing;
}

abbrev new_static_data : StaticData
new_static_data = record {
  gpu_data_cache = new_cache 1;
  gpu_static_data = new_data;
  frame_runtime = default_runtime;
  initialized = false;
}

abbrev answers : StaticAnswers
answers = record {
  gpus = (pos 0 ∷ [], true);
  device_ok = true;
  free_bytes = some 40;
  resize_ok = true;
  pointer = λ i. some (i + 1000);
  static_data = record {
    device_ok = true;
    stream = some 5;
    zones = record { pointer = some 100; cleared = true };
    distortion = record { pointer = some 200; cleared = true };
    release = record { device_ok = true; synchronized = true; freed = λ p. true; destroyed = true };
  };
  finalized = record { device_ok = true; copied = true; synchronized = true };
  freed = λ p. true;
}

abbrev config : GraphConfig
config = record {
  task_instances_per_gpu = 1;
  graph_threads = 1;
  gpu_cache_entries = 1;
  gpu_cache_wait_timeout = pos 50;
  warmup_frames_per_gpu = 1;
  timed_frames_per_gpu = 2;
  first_frame_id = 40;
  runtime = runtime;
  parameters = record { name = 65 ∷ []; blob = 7 ∷ [] };
  gpu_cache_eviction_policy = lru;
}

abbrev new_owner : Owner
new_owner = record {
  graph = record (started_graph new_static_data (λ x. default_metadata) [] [] []) {
    initialized = false;
    execution_cycle_started = false;
  };
  manager = manager;
  registry = new_registry;
  parameter_snapshot = contents new_registry;
  parameters = no_params;
  tasks = [];
}

abbrev setup : SetupAnswers
setup = record {
  self = λ i. i + 50;
  address = λ i. i + 500;
  load = λ i. loading;
  static_data = record answers { free_bytes = some 100000 };
}

abbrev teardown : TeardownAnswers
teardown = record {
  freed = λ p. true;
  static_data = record {
    device_ok = true;
    synchronized = true;
    freed = λ p. true;
    destroyed = true;
  };
  task = λ i. releasing;
}

abbrev made : Owner × Bool
made = initialize_graph setup teardown (λ i. true) true (pos 0 ∷ [], true) config new_owner

initialize_graph-IsConfigured_example : IsConfigured config.parameters 1 made.0
unfolding program
initialize_graph-IsConfigured_example =
    (initialize_graph-IsConfigured setup teardown (λ i. true) true (pos 0 ∷ [], true) config
      new_owner refl).0

initialize_graph-HasFrames_example : HasFrames config 1 made.0.graph
unfolding program
initialize_graph-HasFrames_example =
    initialize_graph-HasFrames setup teardown (λ i. true) true (pos 0 ∷ [], true) config new_owner
      (λ i j e. omega (arith, e)) refl
