-- ===== src/Task.antt =====
-- demo/DummyTask.{h,cpp}, but for `execute` and the destructor: the life of a task, its resources and
-- the parameters of its algorithms. The operations take the manager of the contexts where the code
-- calls its static methods. The answers of CUDA and of the calling thread's node are arguments.
pub mod Parameters
pub mod Loaded
mod Tests
use gpuinfra.Prelude.{
  ℕ, suc, ◌*◌, Bool, true, false, not, ◌||◌, ◌&&◌, Option, none, some, is_some, List, [], ◌∷◌, ltb,
  ◌==◌, if◌then◌else◌,
}
use gpuinfra.Prelude.Int.{ℤ, pos, negsuc, is_neg, eq_ℤ}
use gpuinfra.Types.{AlgoRuntimeInfo, null}
use gpuinfra.Context.{
  TaskGpuResources, GpuContextManager, register_task, unregister_task, make_task_current,
  gpu_ids_for_node,
}
use gpuinfra.Params.{
  string_type, bytes_type, ParameterSnapshot, ParameterRegistry, get_string, get_bytes,
  register_parameter, snapshot,
}
use gpuinfra.Algo.{
  AlgoParams, Algo, new_algo, CloseAnswers, AlgoAnswers, is_valid_factor, square_bytes, close,
  init_algo, notify_parameter,
}

-- `TaskLifecycle`
pub data TaskLifecycle : Type 0 where
  constructed registered loaded started stopped failed unloaded : TaskLifecycle

abbrev pub eq_lifecycle : TaskLifecycle → TaskLifecycle → Bool
eq_lifecycle constructed constructed = true
eq_lifecycle registered registered = true
eq_lifecycle loaded loaded = true
eq_lifecycle started started = true
eq_lifecycle stopped stopped = true
eq_lifecycle failed failed = true
eq_lifecycle unloaded unloaded = true
eq_lifecycle a b = false

-- `DummyTask`. `resources` is the part of `TaskGpuResources` that the manager binds, and the buffers
-- are the rest of it; `has_registry` is whether `parameterRegistry` points at the graph's registry.
pub record DummyTask : Type 0 where
  pub id : ℤ
  pub algo_runtime : AlgoRuntimeInfo
  pub resources : TaskGpuResources
  pub stream : ℕ
  pub h_in : ℕ
  pub in_bytes : ℕ
  pub d_input : ℕ
  pub d_scratch : ℕ
  pub scratch_bytes : ℕ
  pub algorithms : List Algo
  pub has_registry : Bool
  pub applied_revision : ℕ
  pub state : TaskLifecycle

-- `NAME_PARAMETER` and `BLOB_PARAMETER`
abbrev pub name_parameter : List ℕ
name_parameter = 100 ∷ 117 ∷ 109 ∷ 109 ∷ 121 ∷ 46 ∷ 110 ∷ 97 ∷ 109 ∷ 101 ∷ []

abbrev pub blob_parameter : List ℕ
blob_parameter = 100 ∷ 117 ∷ 109 ∷ 109 ∷ 121 ∷ 46 ∷ 98 ∷ 108 ∷ 111 ∷ 98 ∷ []

-- `validRuntime`
unfoldable pub is_valid_runtime : AlgoRuntimeInfo → Bool
is_valid_runtime r = elim r.size_factor [
  | negsuc n ↦ false
  | pos factor ↦
      is_valid_factor factor
      && eq_ℤ r.frame_w (pos (factor * 8))
      && eq_ℤ r.frame_h (pos (factor * 8))
      && r.in_bytes == square_bytes (factor * 8) 1
]

-- `registerParameters`
unfoldable pub register_parameters :
    DummyTask → ParameterRegistry → DummyTask × ParameterRegistry × Bool
register_parameters t r =
    let (r₁, named) = register_parameter r name_parameter string_type in
    let (r₂, blobbed) = register_parameter r₁ blob_parameter bytes_type in
    if not (eq_lifecycle t.state constructed)
    then (t, r, false)
    else (if not named
        then (t, r₁, false)
        else (if blobbed
            then (record t { has_registry = true; state = registered }, r₂, true)
            else (t, r₂, false)))

-- the loop of `applyParameters`
unfoldable pub notify_algorithms : List Algo → AlgoParams → List Algo × Bool
notify_algorithms [] p = ([], true)
notify_algorithms (a ∷ others) p =
    let (a', ok) = notify_parameter a p in
    let (rest, all) = notify_algorithms others p in
    if ok then (a' ∷ rest, all) else (a' ∷ others, false)

-- `applyParameters`
unfoldable pub apply_parameters : DummyTask → ParameterSnapshot → DummyTask × Bool
apply_parameters t s = elim (get_string s name_parameter) [
  | none ↦ (t, false)
  | some name ↦ elim (get_bytes s blob_parameter) [
    | none ↦ (t, false)
    | some blob ↦
        let (algorithms, ok) =
          notify_algorithms t.algorithms (record { name = name; blob = blob }) in
        let t₁ : DummyTask = record t { algorithms = algorithms } in
        if ok then (record t₁ { applied_revision = s.revision_number }, true) else (t₁, false)
  ]
]

-- whether the task has been loaded and neither failed nor been unloaded
abbrev pub is_in_use : TaskLifecycle → Bool
is_in_use s = eq_lifecycle s loaded || eq_lifecycle s started || eq_lifecycle s stopped

-- `notifyParameters`; `selected` is the answer of `cudaSetDevice`
unfoldable pub notify_parameters :
    Bool → GpuContextManager → DummyTask → ParameterSnapshot → DummyTask × Bool
notify_parameters selected m t s =
    let (applied, ok) = apply_parameters t s in
    if not (is_in_use t.state) || ltb s.revision_number t.applied_revision
    then (t, false)
    else (if s.revision_number == t.applied_revision
        then (t, true)
        else (if not (make_task_current selected m t.resources)
            then (record t { state = failed }, false)
            else (if ok then (applied, true) else (record applied { state = failed }, false))))

-- `start`
unfoldable pub start_task : DummyTask → DummyTask × Bool
start_task t =
    if eq_lifecycle t.state loaded then (record t { state = started }, true) else (t, false)

-- `stop`
unfoldable pub stop_task : DummyTask → DummyTask × Bool
stop_task t =
    if eq_lifecycle t.state started then (record t { state = stopped }, true) else (t, false)

-- The answers of CUDA in `releaseResources`.
pub record TaskReleaseAnswers : Type 0 where
  pub selected : Bool
  pub synchronized : Bool
  pub closed : ℕ → CloseAnswers
  pub scratch_freed : Bool
  pub input_freed : Bool
  pub host_freed : Bool
  pub destroyed : Bool

-- whether all algorithms, from number `i` on, close
unfoldable pub close_all : (ℕ → CloseAnswers) → ℕ → List Algo → Bool
close_all c i [] = true
close_all c i (a ∷ others) = let rest = close_all c (suc i) others in (close (c i) a).1 && rest

-- `releaseResources`
unfoldable pub release_resources :
    TaskReleaseAnswers → GpuContextManager → DummyTask → GpuContextManager × DummyTask × Bool
release_resources c m t =
    let (m', resources, ok) = unregister_task m t.resources in
    (
      m',
      record t {
        algorithms = [];
        d_scratch = null;
        scratch_bytes = 0;
        d_input = null;
        h_in = null;
        stream = null;
        in_bytes = 0;
        resources = resources;
      },
      (not (is_some t.resources.ctx) || make_task_current c.selected m t.resources)
          && (t.stream == null || c.synchronized)
          && close_all c.closed 0 t.algorithms
          && (t.d_scratch == null || c.scratch_freed)
          && (t.d_input == null || c.input_freed)
          && (t.h_in == null || c.host_freed)
          && (t.stream == null || c.destroyed)
          && ok,
    )

-- `unload`
unfoldable pub unload_task :
    TaskReleaseAnswers → GpuContextManager → DummyTask → GpuContextManager × DummyTask × Bool
unload_task c m t =
    let (m', t', ok) = release_resources c m t in
    if eq_lifecycle t.state unloaded
    then (m, t, true)
    else (if eq_lifecycle t.state started
        then (m, t, false)
        else (m', record t' { has_registry = false; applied_revision = 0; state = unloaded }, ok))

-- The answers in `load`. The scratch size of every algorithm is 0, so no scratch is allocated.
pub record LoadAnswers : Type 0 where
  pub node : ℤ
  pub selected : Bool
  pub stream : Option ℕ
  pub h_in : Option ℕ
  pub d_input : Option ℕ
  pub cleared : Bool
  pub algorithm : ℕ → AlgoAnswers
  pub synchronized : Bool
  pub released : TaskReleaseAnswers

-- the stream and the buffers
unfoldable pub allocate_buffers : LoadAnswers → DummyTask → DummyTask × Bool
allocate_buffers c t = elim c.stream [
  | none ↦ (t, false)
  | some stream ↦ elim c.h_in [
    | none ↦ (record t { stream = stream }, false)
    | some h_in ↦ elim c.d_input [
      | none ↦ (record t { stream = stream; h_in = h_in }, false)
      | some d_input ↦ (record t { stream = stream; h_in = h_in; d_input = d_input }, c.cleared)
    ]
  ]
]

-- the loop over the algorithms, from number `i` on
unfoldable pub init_all :
    (ℕ → AlgoAnswers) → ℕ → AlgoRuntimeInfo → TaskGpuResources → ℕ → List Algo → List Algo × Bool
init_all c i info r stream [] = ([], true)
init_all c i info r stream (a ∷ others) =
    let (a', ok) = init_algo (c i) a info r.resource_id r.gpu_id stream in
    let (rest, all) = init_all c (suc i) info r stream others in
    if ok then (a' ∷ rest, all) else (a' ∷ others, false)

-- `load` from the creation of the stream on, up to its last test of `ok`
unfoldable pub prepare_task : LoadAnswers → DummyTask → ParameterSnapshot → DummyTask × Bool
prepare_task c t s =
    let (t₁, allocated) = allocate_buffers c t in
    let (algorithms, ready) =
      init_all c.algorithm 0 t₁.algo_runtime t₁.resources t₁.stream
        (new_algo 2 ∷ new_algo 3 ∷ new_algo 3 ∷ []) in
    let t₂ : DummyTask = record t₁ { algorithms = algorithms } in
    if not allocated
    then (t₁, false)
    else (if not (ready && c.synchronized) then (t₂, false) else apply_parameters t₂ s)

-- the way out of `load` after a failure
abbrev pub fail_load :
    LoadAnswers → GpuContextManager → DummyTask → GpuContextManager × DummyTask × Bool
fail_load c m t =
    let (m', t', ok) = release_resources c.released m (record t { state = failed }) in
    (m', t', false)

-- `load` past its first test, on the GPU of the node
unfoldable pub load_on :
    LoadAnswers
    → GpuContextManager
    → DummyTask
    → ParameterSnapshot
    → ℤ
    → GpuContextManager × DummyTask × Bool
load_on c m t s gpu =
    let (m', resources, ok) = register_task m gpu t.resources in
    let t₁ : DummyTask = record t { resources = resources } in
    let (t₂, prepared) = prepare_task c (record t₁ { in_bytes = t.algo_runtime.in_bytes }) s in
    if not ok
    then fail_load c m' t₁
    else (if not (make_task_current c.selected m' resources)
        then fail_load c m' t₁
        else (if prepared then (m', record t₂ { state = loaded }, true) else fail_load c m' t₂))

-- `load`
unfoldable pub load_task :
    LoadAnswers
    → GpuContextManager
    → DummyTask
    → ParameterRegistry
    → GpuContextManager × DummyTask × Bool
load_task c m t r = elim (snapshot r) [
  | none ↦ (m, t, false)
  | some s ↦
      if not (
        eq_lifecycle t.state registered
        && t.has_registry
        && not (is_neg t.id)
        && is_valid_runtime t.algo_runtime)
      then (m, t, false)
      else (let (gpus, found) = gpu_ids_for_node m c.node in
          elim gpus [
            | [] ↦ fail_load c m t
            | gpu ∷ more ↦ if found then load_on c m t s gpu else fail_load c m t
          ])
]
