-- ===== src/Context.antt =====
-- src/Context/{GpuContextManager,GpuTopology}.{h,cpp}, GpuContext.h and src/Types/TaskGpuResources.h:
-- the contexts of the GPUs, the tasks registered with them, and the GPU of a NUMA node. A pointer to
-- a context is its index in `contexts`, whose elements are never null; a pointer to the resources of
-- a task is their address `self`. The discovery of the GPUs in `init` is not modelled.
pub mod Registration
mod Tests
use gpuinfra.Prelude.{
  ℕ, zero, suc, ◌+◌, Bool, true, false, not, ◌||◌, ◌&&◌, Option, none, some, is_some, List, [], ◌∷◌,
  ◌++◌, ltb, ◌==◌, if◌then◌else◌, length, get_or, set,
}
use gpuinfra.Prelude.Int.{ℤ, pos, negsuc, is_neg, eq_ℤ}
use gpuinfra.Types.{null}

-- `GpuLocation`
pub record GpuLocation : Type 0 where
  pub gpu_id : ℤ
  pub numa_node : ℤ

-- the loop of `resolveGpuIds`: the count, and the last GPU found
unfoldable pub count_gpus : ℤ → List GpuLocation → ℕ → ℤ → ℕ × ℤ
count_gpus node [] count gpu = (count, gpu)
count_gpus node (l ∷ ls) count gpu =
    if eq_ℤ l.numa_node node
    then count_gpus node ls (count + 1) l.gpu_id
    else count_gpus node ls count gpu

-- `resolveGpuIds`: the list of ids, and the result
unfoldable pub resolve_gpu_ids : ℤ → List GpuLocation → List ℤ × Bool
resolve_gpu_ids node locations =
    let (count, gpu) = count_gpus node locations 0 (negsuc 0) in
    if is_neg node || not (count == 1) || is_neg gpu then ([], false) else (gpu ∷ [], true)

-- the members of `TaskGpuResources` that the manager binds
pub record TaskGpuResources : Type 0 where
  pub self : ℕ
  pub resource_id : ℤ
  pub gpu_id : ℤ
  pub ctx : Option ℕ

-- resources of no context
abbrev pub unbound : ℕ → TaskGpuResources
unbound self = record { self = self; resource_id = negsuc 0; gpu_id = negsuc 0; ctx = none }

-- `GpuContext`; `primary_ctx` is 0 for nullptr
pub record GpuContext : Type 0 where
  pub gpu_id : ℤ
  pub numa_node : ℤ
  pub primary_ctx : ℕ
  pub task_resources : List ℕ

abbrev pub no_context : GpuContext
no_context = record {
  gpu_id = negsuc 0;
  numa_node = negsuc 0;
  primary_ctx = null;
  task_resources = [];
}

-- the members of `GpuContextManager`
pub record GpuContextManager : Type 0 where
  pub contexts : List GpuContext
  pub initialised : Bool

-- the loop of `activeTaskCount`
unfoldable pub active_tasks : List ℕ → ℕ
active_tasks [] = 0
active_tasks (t ∷ ts) = let rest = active_tasks ts in if t == null then rest else rest + 1

-- `findGpu`, from `index` on
unfoldable pub find_gpu : List GpuContext → ℤ → ℕ → Option ℕ
find_gpu [] gpu index = none
find_gpu (c ∷ cs) gpu index =
    let rest = find_gpu cs gpu (index + 1) in if eq_ℤ c.gpu_id gpu then some index else rest

-- the loop of `registerTask`: the first empty element, or the size
unfoldable pub free_slot : List ℕ → ℕ
free_slot [] = 0
free_slot (t ∷ ts) = let rest = free_slot ts in if t == null then 0 else rest + 1

-- `push_back` at the size, an assignment elsewhere
unfoldable pub store_task : List ℕ → ℕ → ℕ → List ℕ
store_task tasks slot task =
    if slot == length tasks then tasks ++ task ∷ [] else set tasks slot task

abbrev pub context_at : GpuContextManager → ℕ → GpuContext
context_at m i = get_or m.contexts i no_context

-- a write to the tasks of a context
abbrev pub put_tasks : GpuContextManager → ℕ → List ℕ → GpuContextManager
put_tasks m i tasks = record m {
  contexts = set m.contexts i (record (context_at m i) { task_resources = tasks });
}

-- `registerTask`
unfoldable pub register_task :
    GpuContextManager → ℤ → TaskGpuResources → GpuContextManager × TaskGpuResources × Bool
register_task m gpu r =
    if not m.initialised || is_some r.ctx || is_neg gpu
    then (m, r, false)
    else elim (find_gpu m.contexts gpu 0) [
      | none ↦ (m, r, false)
      | some i ↦
          let tasks = (context_at m i).task_resources in
          let slot = free_slot tasks in
          (
            put_tasks m i (store_task tasks slot r.self),
            record r { resource_id = pos slot; gpu_id = gpu; ctx = some i },
            true,
          )
    ]

-- `unregisterTask`
unfoldable pub unregister_task :
    GpuContextManager → TaskGpuResources → GpuContextManager × TaskGpuResources × Bool
unregister_task m r = elim r.ctx [
  | none ↦ (m, r, true)
  | some i ↦ elim r.resource_id [
    | negsuc n ↦ (m, r, true)
    | pos slot ↦
        let tasks = (context_at m i).task_resources in
        if not m.initialised || not (ltb slot (length tasks) && get_or tasks slot null == r.self)
        then (m, r, false)
        else (put_tasks m i (set tasks slot null), unbound r.self, true)
  ]
]

-- `makeTaskCurrent`; `selected` is the answer of `cudaSetDevice`
unfoldable pub make_task_current : Bool → GpuContextManager → TaskGpuResources → Bool
make_task_current selected m r = elim r.ctx [
  | none ↦ false
  | some i ↦
      m.initialised && not (is_neg r.gpu_id) && eq_ℤ (context_at m i).gpu_id r.gpu_id && selected
]

-- the loop of `shutdown` over the contexts
unfoldable pub all_idle : List GpuContext → Bool
all_idle [] = true
all_idle (c ∷ cs) = active_tasks c.task_resources == 0 && all_idle cs

-- `shutdown`
unfoldable pub shutdown : GpuContextManager → GpuContextManager
shutdown m =
    if m.initialised && all_idle m.contexts
    then record { contexts = []; initialised = false }
    else m

-- `gpuLocations`
unfoldable pub gpu_locations : List GpuContext → List GpuLocation
gpu_locations [] = []
gpu_locations (c ∷ cs) = record { gpu_id = c.gpu_id; numa_node = c.numa_node } ∷ gpu_locations cs

-- `gpuIdsForCurrentNumaNode`; `node` is the answer of `currentNumaNode`
unfoldable pub gpu_ids_for_node : GpuContextManager → ℤ → List ℤ × Bool
gpu_ids_for_node m node =
    if m.initialised then resolve_gpu_ids node (gpu_locations m.contexts) else ([], false)
