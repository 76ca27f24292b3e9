-- ===== src/Graph/Setup.antt =====
-- `initialize` of a graph: the numbers of its frames, its tasks, its atoms and its static data; and
-- the end of `shutdown`. An exception of an allocation ends like the failure of the step that it
-- interrupts, and is not modelled apart. Addresses of atoms are given by their number.
use gpuinfra.Prelude.{
  ℕ, zero, suc, ◌+◌, ◌-◌, ◌^◌, ◌*◌, ◌/◌, ◌%◌, Bool, true, false, not, ◌||◌, ◌&&◌, Option, none,
  some, List, [], ◌∷◌, ltb, ◌==◌, if◌then◌else◌, length, size_mod, size_max,
}
use gpuinfra.Prelude.Int.{ℤ, pos}
use gpuinfra.Types.{FrameMetadata, default_metadata, default_key, AlgoRuntimeInfo}
use gpuinfra.Residency.{is_empty}
use gpuinfra.Access.{CacheEvictionPolicy}
use gpuinfra.StaticGpuData.{ReleaseAnswers}
use gpuinfra.StaticData.{StaticDataConfig, StaticAnswers, init, release_data}
use gpuinfra.Context.{GpuContextManager, unbound}
use gpuinfra.Params.{ParameterRegistry, ParameterSnapshot, set_string, set_bytes, seal, snapshot}
use gpuinfra.Algo.{AlgoParams}
use gpuinfra.Task.{
  constructed, DummyTask, name_parameter, blob_parameter, register_parameters, LoadAnswers,
  load_task, TaskReleaseAnswers, unload_task,
}
use gpuinfra.Graph.Cycle.{Owner, cancel, stop_tasks}

-- `GraphConfig`, but for the model of execution, which the tasks keep
pub record GraphConfig : Type 0 where
  pub task_instances_per_gpu : ℕ
  pub graph_threads : ℕ
  pub gpu_cache_entries : ℕ
  pub gpu_cache_wait_timeout : ℤ
  pub warmup_frames_per_gpu : ℕ
  pub timed_frames_per_gpu : ℕ
  pub first_frame_id : ℕ
  pub runtime : AlgoRuntimeInfo
  pub parameters : AlgoParams
  pub gpu_cache_eviction_policy : CacheEvictionPolicy

-- `multiplyFrameCount`, on a `size_t`; `none` for false
unfoldable pub multiply_frame_count : ℕ → ℕ → Option ℕ
multiply_frame_count frames gpus =
    if gpus == 0 || ltb (size_max / gpus) frames then none else some (frames * gpus % size_mod)

-- the counts of the frames of both phases, and their checks; `none` for false
unfoldable pub frame_counts : GraphConfig → ℕ → Option (ℕ × ℕ)
frame_counts g gpus = elim (multiply_frame_count g.warmup_frames_per_gpu gpus) [
  | none ↦ none
  | some warmup ↦ elim (multiply_frame_count g.timed_frames_per_gpu gpus) [
    | none ↦ none
    | some timed ↦
        if ltb (size_max - timed) warmup
          || ltb (size_max - (warmup + timed) % size_mod) g.first_frame_id
        then none
        else some (warmup, timed)
  ]
]

-- `makeFrameMetadata`
unfoldable pub make_metadata : ℕ → AlgoRuntimeInfo → FrameMetadata
make_metadata id runtime = record default_metadata {
  key = record default_key { frame_id = id };
  bytes = runtime.in_bytes;
  width = runtime.frame_w;
  height = runtime.frame_h;
  dtype = runtime.frame_dtype;
}

-- a loop over the atoms of a phase: their metadata, and the next id, on 64 bits
unfoldable pub make_frames : AlgoRuntimeInfo → ℕ → ℕ → List FrameMetadata × ℕ
make_frames runtime zero id = ([], id)
make_frames runtime (suc n) id =
    let (rest, next_id) = make_frames runtime n ((id + 1) % size_mod) in
    (make_metadata id runtime ∷ rest, next_id)

-- the configuration that the graph gives to its static data
abbrev pub static_data_config : GraphConfig → StaticDataConfig
static_data_config g = record {
  runtime = g.runtime;
  detection_zone_bytes = 0;
  distortion_bytes = 0;
  gpu_cache_entries = g.gpu_cache_entries;
  gpu_cache_wait_timeout = g.gpu_cache_wait_timeout;
  gpu_cache_eviction_policy = g.gpu_cache_eviction_policy;
}

-- a new task; `self` is the address of its resources
abbrev pub new_task : ℕ → ℕ → AlgoRuntimeInfo → DummyTask
new_task self id runtime = record {
  id = pos id;
  algo_runtime = runtime;
  resources = unbound self;
  stream = 0;
  h_in = 0;
  in_bytes = 0;
  d_input = 0;
  d_scratch = 0;
  scratch_bytes = 0;
  algorithms = [];
  has_registry = false;
  applied_revision = 0;
  state = constructed;
}

-- the loops that make and register `n` tasks, from number `id` on
unfoldable pub make_tasks :
    (ℕ → ℕ)
    → AlgoRuntimeInfo
    → ℕ
    → ℕ
    → ParameterRegistry
    → List DummyTask × ParameterRegistry × Bool
make_tasks self runtime zero id r = ([], r, true)
make_tasks self runtime (suc n) id r =
    let (t, r₁, ok) = register_parameters (new_task (self id) id runtime) r in
    let (rest, r₂, all) = make_tasks self runtime n (id + 1) r₁ in
    if ok then (t ∷ rest, r₂, all) else ([], r₁, false)

-- the first values of the parameters, `seal` and `snapshot`; `none` where one of them fails
unfoldable pub seal_parameters :
    ParameterRegistry → AlgoParams → ParameterRegistry × Option ParameterSnapshot
seal_parameters r p =
    let (r₁, named) = set_string r name_parameter p.name in
    let (r₂, blobbed) = set_bytes r₁ blob_parameter p.blob in
    let (r₃, sealed) = seal r₂ in
    if not named
    then (r₁, none)
    else (if not blobbed then (r₂, none) else (if sealed then (r₃, snapshot r₃) else (r₃, none)))

-- the loop that loads the tasks, from number `i` on
unfoldable pub load_tasks :
    (ℕ → LoadAnswers)
    → ℕ
    → GpuContextManager
    → List DummyTask
    → ParameterRegistry
    → GpuContextManager × List DummyTask × Bool
load_tasks c i m [] r = (m, [], true)
load_tasks c i m (t ∷ others) r =
    let (m₁, t', ok) = load_task (c i) m t r in
    let (m₂, rest, all) = load_tasks c (suc i) m₁ others r in
    if ok then (m₂, t' ∷ rest, all) else (m₁, t' ∷ others, false)

-- The atoms that are made: the addresses from number `i` on, and what stands there.
abbrev pub place_frames :
    (ℕ → ℕ) → ℕ → List FrameMetadata → (ℕ → FrameMetadata) → List ℕ × (ℕ → FrameMetadata)
place_frames address i [] heap = ([], heap)
place_frames address i (f ∷ fs) heap =
    let (rest, heap') = place_frames address (suc i) fs heap in
    (address i ∷ rest, λ x. if address i == x then f else heap' x)

-- The answers in `initialize`: of the allocations, of the tasks' loads and of the static data.
pub record SetupAnswers : Type 0 where
  pub self : ℕ → ℕ
  pub address : ℕ → ℕ
  pub load : ℕ → LoadAnswers
  pub static_data : StaticAnswers

-- `initializeOnNumaNode` once the tasks are registered
unfoldable pub fill_graph : SetupAnswers → GraphConfig → ℕ → ℕ → Owner → Owner × Bool
fill_graph c g warmup timed o =
    let (registry, copied) = seal_parameters o.registry g.parameters in
    elim copied [
      | none ↦ (record o { registry = registry }, false)
      | some s ↦
          let (m, tasks, loaded) = load_tasks c.load 0 o.manager o.tasks registry in
          let (warmup_frames, next_id) = make_frames g.runtime warmup g.first_frame_id in
          let timed_frames = (make_frames g.runtime timed next_id).0 in
          let (warmup_atoms, heap) = place_frames c.address 0 warmup_frames o.graph.metadata in
          let (timed_atoms, heap') = place_frames c.address warmup timed_frames heap in
          let (static_data, ok) = init c.static_data o.graph.static_data (static_data_config g) in
          let o₁ : Owner = record o {
            registry = registry;
            parameter_snapshot = s;
            parameters = g.parameters;
            manager = m;
            tasks = tasks;
          } in
          if not loaded then (o₁, false) else (
            record o₁ {
              graph = record (o.graph) {
                warmup_atoms = warmup_atoms;
                timed_atoms = timed_atoms;
                metadata = heap';
                static_data = static_data;
              };
            },
            ok,
          )
    ]

-- `initializeOnNumaNode`
unfoldable pub initialize_on_node : SetupAnswers → GraphConfig → ℕ → Owner → Owner × Bool
initialize_on_node c g gpus o = elim (frame_counts g gpus) [
  | none ↦ (o, false)
  | some counts ↦
      let (tasks, registry, registered) =
        make_tasks c.self g.runtime (g.task_instances_per_gpu * gpus) 0 o.registry in
      let o₁ : Owner = record o { registry = registry; tasks = tasks } in
      if registered then fill_graph c g counts.0 counts.1 o₁ else (o₁, false)
]

-- the loop that unloads the tasks, from number `i` on
unfoldable pub unload_tasks :
    (ℕ → TaskReleaseAnswers) → ℕ → GpuContextManager → List DummyTask → GpuContextManager × Bool
unload_tasks c i m [] = (m, true)
unload_tasks c i m (t ∷ others) =
    let (m₁, t', ok) = unload_task (c i) m t in
    let (m₂, all) = unload_tasks c (suc i) m₁ others in (m₂, ok && all)

-- The answers in `unloadOnNumaNode`.
pub record TeardownAnswers : Type 0 where
  pub freed : ℕ → Bool
  pub static_data : ReleaseAnswers
  pub task : ℕ → TaskReleaseAnswers

-- `unloadOnNumaNode`
unfoldable pub unload_on_node : TeardownAnswers → Owner → Owner × Bool
unload_on_node c o =
    let cycle : Bool = o.graph.execution_cycle_started in
    let (stopped, all_stopped) = stop_tasks o.tasks in
    let (static_data, released) = release_data c.freed c.static_data o.graph.static_data in
    let (m, unloaded) = unload_tasks c.task 0 o.manager (if cycle then stopped else o.tasks) in
    (
      record o {
        manager = m;
        tasks = [];
        graph = record (o.graph) {
          execution_cycle_started = false;
          execution_cycle_stopped = o.graph.execution_cycle_stopped || cycle;
          static_data = static_data;
          warmup_atoms = [];
          timed_atoms = [];
          warmup_submitted = false;
          timed_submitted = false;
        };
      },
      (not cycle || all_stopped) && released && unloaded,
    )

-- the early return of `shutdown`; `no_workers` is `workers.empty()`
unfoldable pub is_shut_down : Bool → Owner → Bool
is_shut_down no_workers o =
    not o.graph.initialized
    && no_workers
    && is_empty o.tasks
    && is_empty o.graph.warmup_atoms
    && is_empty o.graph.timed_atoms
    && not o.graph.static_data.initialized
    && length o.graph.static_data.gpu_data_cache.entries == 0

-- `shutdown` from the joins of the workers on; `on_node` is whether `run` gets a thread
unfoldable pub end_shutdown : Bool → TeardownAnswers → Owner → Owner × Bool
end_shutdown on_node c o =
    let (o', ok) = unload_on_node c o in
    let o₁ : Owner = if on_node then o' else o in
    (
      record o₁ {
        graph = record (o₁.graph) {
          initialized = false;
          execution_cycle_started = false;
          ready_frames = [];
          free_tasks = [];
          phase_gate = none;
          phase_active = false;
        };
      },
      on_node && ok,
    )

-- the addresses of the first `n` tasks, the last one first
abbrev pub addresses : (ℕ → ℕ) → ℕ → List ℕ
addresses self zero = []
addresses self (suc n) = self n ∷ addresses self n

-- the end of `initialize` after a failure, on the state that the failure left
abbrev pub undo_setup : Bool → TeardownAnswers → Owner → Owner × Bool
undo_setup on_node d o = (if on_node then (unload_on_node d (cancel o)).0 else cancel o, false)

-- `initialize`. `gpus` is the answer of `gpuIdsForCurrentNumaNode`, of one GPU where it succeeds.
-- `on_node` says of each call of `run` whether it gets a thread: for the ids, for the setup and for
-- the way back. `started` is whether every worker starts, on the node. A positive `int` has 31 bits.
unfoldable pub initialize_graph :
    SetupAnswers
    → TeardownAnswers
    → (ℕ → Bool)
    → Bool
    → List ℤ × Bool
    → GraphConfig
    → Owner
    → Owner × Bool
initialize_graph c d on_node started gpus g o =
    let count : ℕ = length gpus.0 in
    let (o₁, ok) = initialize_on_node c g count o in
    let o₂ : Owner = record o₁ {
      graph = record (o₁.graph) { free_tasks = addresses c.self (length o₁.tasks) };
    } in
    if o.graph.initialized
      || g.task_instances_per_gpu == 0
      || g.runtime.in_bytes == 0
      || o.graph.cancellation
      || not (on_node 0)
      || not gpus.1
      || ltb (size_max / count) g.task_instances_per_gpu
      || ltb (2 ^ 31 - 1) (g.task_instances_per_gpu * count)
    then (o, false)
    else (if not (on_node 1)
        then undo_setup (on_node 2) d o
        else (if not ok
            then undo_setup (on_node 2) d o₁
            else (if started
                then (record o₂ { graph = record (o₂.graph) { initialized = true } }, true)
                else undo_setup (on_node 2) d
                    (record o₂ { graph = record (o₂.graph) { stopping = true } }))))
